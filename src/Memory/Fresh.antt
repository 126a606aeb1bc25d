-- ===== src/Memory/Fresh.antt =====
-- The in-memory file system behind a conditional put at a path that has no object.
use fusio.Base.{
  ℕ, ◌≡◌, ◌≢◌, ◌∙◌, refl, List, [], length, Option, none, some, Text, Text-discrete, ite,
}
use fusio.Effect.{ok}
use fusio.Manifest.Table
use fusio.Manifest.Table.{Table, get-insert}
use fusio.Memory.{
  EntryState, MemFs, find, entry_at, next_count, next_tag, insert_entry, new_metadata, loaded,
  object, head_object_of, put_new,
}
use fusio.Memory.Tags.{entry_at-last, ite_self}
use fusio.Memory.Hex.{hex16}

pub ite_other : {A : Type 0} {j k : Text} (d : Dec (j ≡ k)) (a b : A) → (j ≢ k) → ite d a b ≡ b
ite_other (yes p) a b n = absurd (n p)
ite_other (no q) a b n = refl

-- What stands at a path: its content and tag, and its metadata; and every other path leads where it
-- led before.
pub record IsPut (key payload : Text) (metadata : Table Text Text) (before after : MemFs)
    : Type 0 where
  pub tag : Text
  pub entry : ℕ
  pub found : find key after ≡ some entry
  pub stored : object key after ≡ some (payload, tag)
  pub head :
      head_object_of (find key after) after
      ≡ some (record { size = length payload; etag = some tag; metadata = metadata })
  pub others : (k : Text) → key ≢ k → find k after ≡ find k before

module _ (key payload : Text) (content_type : Option Text) (metadata : Option (List (Text × Text)))
    (fs : MemFs) where
  put_entry : EntryState
  put_entry = record {
    content = payload;
    metadata = new_metadata metadata [];
    content_type = content_type;
    etag = hex16 (next_count (next_tag fs).1);
  }

  found_new : find key (put_new key payload content_type metadata none fs).1 ≡ some (length fs.heap)
  unfolding put_new next_tag insert_entry
  found_new =
      get-insert Text-discrete key key (length fs.heap) fs.objects
      ∙ ite_self (Text-discrete key key) (some (length fs.heap))
          (Table.get Text-discrete key fs.objects)

  entry_new :
      entry_at (length fs.heap) ((put_new key payload content_type metadata none fs).1).heap
      ≡ put_entry
  unfolding put_new next_tag insert_entry put_entry
  entry_new = entry_at-last put_entry fs.heap

  others_same :
      (k : Text)
      → key ≢ k
      → find k (put_new key payload content_type metadata none fs).1 ≡ find k fs
  unfolding put_new next_tag insert_entry
  others_same k n =
      get-insert Text-discrete key k (length fs.heap) fs.objects
      ∙ ite_other (Text-discrete key k) (some (length fs.heap))
          (Table.get Text-discrete k fs.objects) n

  -- A put at a path without an object succeeds and stores payload and metadata there.
  pub put_new-IsPut :
      IsPut key payload
        (new_metadata metadata [])
        fs
        (put_new key payload content_type metadata none fs).1
  unfolding object loaded head_object_of
  put_new-IsPut = record {
    tag = put_entry.etag;
    entry = length fs.heap;
    found = found_new;
    stored = rw (found_new, entry_new) (unfold put_entry in refl);
    head = rw (found_new, entry_new) (unfold put_entry in refl);
    others = others_same;
  }

  pub put_new_answer : put_new key payload content_type metadata none fs ≡ (
    ok (hex16 (next_count (next_tag fs).1)),
    (put_new key payload content_type metadata none fs).1,
  )
  unfolding put_new next_tag insert_entry
  put_new_answer = refl
