-- ===== src/Examples/Stores.antt =====
-- The segment store over the in-memory file system at concrete inputs.
use fusio.Base.{
  ℕ, ◌+◌, ◌/◌, ◌%◌, ◌≡◌, refl, sym, subst, List, [], ◌∷◌, take, keep, none, Bool, ◌||◌, leb, ltb,
  if◌then◌else◌, strip_prefix, Text, Text-discrete, codes, arith,
}
use fusio.Effect.{ok}
use fusio.Path.{parse, from, is_invalid, filename}
use fusio.Decimal.{padded20, parse_u64}
use fusio.Memory
use fusio.Memory.{MemFs, EntryState, object, find, cas_if_not_exists}
use fusio.Memory.Hex.{hex16}
use fusio.Manifest.Table
use fusio.Manifest.InMemory.{mem_cas, Fine}
use fusio.Manifest.Files.{mem_files}
use fusio.Manifest.Segments.{
  get_with_etag, delete_upto, put_next, key_for, list_from, seq_of, parse_seq,
}
use fusio.Manifest.Segments.Listing.{
  Listed, list_from-Listed, list_from-eq-take, numbers, answers, Rising,
}
use fusio.Manifest.Segments.Absent.{first_of, get_with_etag-first_of}
use fusio.Manifest.Segments.Deletion.{AreCanonical, goes, delete_upto-goes}
use fusio.Manifest.Segments.Stored.{Answers, put_next-Answers}

abbrev digit : ℕ → ℕ
digit n = if ltb n 10 then 48 + n else 55 + n

-- The crate's encoding: `%` and two hexadecimal digits.
abbrev pub encode : (ℕ → Bool) → Text → Text
encode bad [] = []
encode bad (c ∷ s) =
    let rest = encode bad s in
    if bad c || leb 128 c then 37 ∷ digit (c / 16) ∷ digit (c % 16) ∷ rest else c ∷ rest

abbrev pub no_files : MemFs
no_files = record { heap = []; objects = []; counter = 0 }

pub no_files-Fine : Fine no_files
no_files-Fine = (record { addressed = tt; issued = tt }, omega arith)

stored_example :
    let o =
      put_next
        (mem_files encode)
        mem_cas
        encode
        (codes "db")
        3
        7
        (1 ∷ 2 ∷ [])
        (codes "text/plain")
        no_files in
    (o.0 ≡ ok 3) × Answers encode (codes "db") 3 (1 ∷ 2 ∷ []) 7 o.1
unfolding parse Text-discrete key_for Table.get padded20
stored_example =
    put_next-Answers encode (codes "db") 3 7 (1 ∷ 2 ∷ []) (codes "text/plain") no_files refl refl
      (omega arith) refl refl

abbrev pub blob : Text → EntryState
blob bytes = record { content = bytes; metadata = []; content_type = none; etag = hex16 1 }

-- Segments 2, 5 and 9, and a file of another name.
abbrev three_segments : MemFs
three_segments = record {
  heap = blob [] ∷ [];
  objects =
      (codes "db/seg-00000000000000000002.json", 0)
      ∷ (codes "db/seg-00000000000000000005.bin", 0)
      ∷ (codes "db/seg-00000000000000000009.json", 0)
      ∷ (codes "db/seg-x.json", 0)
      ∷ [];
  counter = 1;
}

listed_example :
    Listed 3 1 (list_from (mem_files encode) mem_cas encode (codes "db") 3 1 three_segments).0
listed_example = list_from-Listed (mem_files encode) mem_cas encode (codes "db") 3 1 three_segments

abbrev three_items : List (Text × ℕ)
three_items =
    (codes "db/seg-00000000000000000002.json", 0)
    ∷ (codes "db/seg-00000000000000000005.bin", 0)
    ∷ (codes "db/seg-00000000000000000009.json", 0)
    ∷ (codes "db/seg-x.json", 0)
    ∷ []

three_listed :
    Memory.list encode (from encode (codes "db")) three_segments
    ≡ (ok (answers three_items), three_segments)
unfolding Memory.list answers from is_invalid Text-discrete
three_listed = refl

three_numbers : numbers three_items ≡ 2 ∷ 5 ∷ 9 ∷ []
unfolding numbers seq_of filename Text-discrete parse_seq parse_u64 strip_prefix
three_numbers = refl

window_example :
    list_from (mem_files encode) mem_cas encode (codes "db") 3 1 three_segments
    ≡ (ok (take 1 (keep (leb 3) (numbers three_items))), three_segments)
window_example =
    list_from-eq-take (mem_files encode) mem_cas encode (codes "db") 3 1 three_items three_segments
      three_segments three_listed
      (subst (Rising 0) (sym three_numbers) (omega arith, (omega arith, (omega arith, tt))))
      (omega arith)

absent_example : get_with_etag (mem_files encode) mem_cas encode (codes "db") 4 three_segments ≡ (
  first_of
      (object (key_for (codes "db") 4 (codes ".json")) three_segments)
      (object (key_for (codes "db") 4 (codes ".bin")) three_segments),
  three_segments,
)
unfolding parse Text-discrete key_for padded20
absent_example = get_with_etag-first_of encode (codes "db") 4 three_segments refl refl

three_canonical : AreCanonical encode (codes "db") 5 three_segments.objects
unfolding from is_invalid Text-discrete
three_canonical = (refl, (refl, (refl, (refl, tt))))

deletion_example :
    (fs' : MemFs) × (delete_upto (mem_files encode) mem_cas encode (codes "db") 5 three_segments
      ≡ (ok tt, fs'))
    × ((k : Text)
        → find k fs' ≡ (if goes encode (codes "db") 5 k then none else find k three_segments))
deletion_example = delete_upto-goes encode (codes "db") 5 three_segments three_canonical
