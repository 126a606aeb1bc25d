-- ===== src/Examples/Files.antt =====
-- Buffered writes at concrete inputs.
use fusio.Base.{
  ◌≡◌, ◌+◌, ◌≤◌, refl, sym, ap, subst, [], ◌∷◌, ◌++◌, some, Text, leb, le→leb, length, take, drop,
  if◌then◌else◌, arith,
}
use fusio.Manifest.Types.{fs_io, unexpected_eof}
use fusio.Buffered.Reader.{Source, Reading, read_exact}
use fusio.Buffered.Reader.Exact.{IsSource, Reads, read_exact-Reads}
use fusio.Effect.{ok, err, ◌>>◌}
use fusio.Buffered.{Writer, new, close, write_each}
use fusio.Buffered.Total.{Works, close-write_each}

-- A file that is its bytes.
abbrev plain : Writer Text
plain = record {
  inner_write_all = λ b w. (ok tt, w ++ b);
  inner_flush = λ w. (ok tt, w);
  inner_close = λ w. (ok tt, w);
  inner_sync_data = λ w. (ok tt, w);
  inner_sync_all = λ w. (ok tt, w);
  inner_sync_range = λ _ _ w. (ok tt, w);
  inner_commit = λ w. (ok tt, w);
}

plain-Works : Works plain (λ w. w)
plain-Works = record {
  writes = λ b w. refl;
  grows = λ b w. refl;
  flushes = λ w. refl;
  flush_keeps = λ w. refl;
  closes = λ w. refl;
  close_keeps = λ w. refl;
}

-- Capacity 3: the second write flushes, the third is larger than the buffer.
write_example :
    let o =
      (write_each plain 3 ((1 ∷ 2 ∷ []) ∷ (3 ∷ 4 ∷ []) ∷ (5 ∷ 6 ∷ 7 ∷ 8 ∷ []) ∷ (9 ∷ []) ∷ [])
          >> close plain)
        (new []) in
    (o.0 ≡ ok tt) × ((o.1).world ≡ 1 ∷ 2 ∷ 3 ∷ 4 ∷ 5 ∷ 6 ∷ 7 ∷ 8 ∷ 9 ∷ [])
write_example =
    close-write_each plain (λ w. w) plain-Works 3
      ((1 ∷ 2 ∷ []) ∷ (3 ∷ 4 ∷ []) ∷ (5 ∷ 6 ∷ 7 ∷ 8 ∷ []) ∷ (9 ∷ []) ∷ []) [] (new [])
      ([], refl, refl)

-- A file that is its bytes, read where they are.
abbrev plain_source : Source Text
plain_source = record {
  source_read_exact_at = λ len pos w. (
    if leb (pos + len) (length w) then ok (take len (drop pos w)) else err (fs_io unexpected_eof),
    w,
  );
  source_size = λ w. (ok (length w), w);
}

abbrev five : Text
five = 10 ∷ 11 ∷ 12 ∷ 13 ∷ 14 ∷ []

plain_source-IsSource : IsSource plain_source 2 (λ w. w) five
plain_source-IsSource len pos w same inside = (
  w,
  rw (le→leb (pos + len) (length w) (subst (λ (z : Text). pos + len ≤ length z) (sym same) inside))
      (ap (λ (z : Text). (ok (take len (drop pos z)), w)) same),
  same,
)

-- The buffer holds bytes 1 and 2, the first of them read; four bytes are asked for.
abbrev part_read : Reading Text
part_read = record { world = five; fill = some (11 ∷ 12 ∷ [], 1); file_size = 5; offset = 1 }

read_exact_example :
    Reads plain_source 2
      (λ w. w)
      five
      plain_source-IsSource
      (omega arith)
      (take 3 (drop 2 five))
      (read_exact plain_source 2 4 3 2 part_read)
read_exact_example =
    read_exact-Reads plain_source 2 (λ w. w) five plain_source-IsSource (omega arith) 4 3 2
      part_read (record { sized = refl; filled = (omega arith, refl, omega arith); viewed = refl })
      (omega arith) (omega arith)
