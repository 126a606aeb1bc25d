-- ===== src/Memory/Written.antt =====
-- The in-memory file system behind a file that was created, written in one piece and committed.
use fusio.Base.{
  ℕ, zero, suc, ◌≡◌, ◌≢◌, ◌<◌, ◌∙◌, refl, ap, List, [], ◌∷◌, ◌++◌, length, length-append, some,
  Text, Text-discrete, arith,
}
use fusio.Manifest.Table
use fusio.Manifest.Table.{Table, get-insert}
use fusio.Memory.{EntryState, MemFs, find, entry_at, store_at}
use fusio.Memory.Tags.{entry_at-last, ite_self}
use fusio.Memory.Fresh.{ite_other}

store_at-last :
    (e x : EntryState) (xs : List EntryState)
    → store_at (length xs) e (xs ++ (x ∷ [])) ≡ xs ++ (e ∷ [])
store_at-last e x [] = refl
store_at-last e x (y ∷ ys) = ap (λ (z : List EntryState). y ∷ z) (store_at-last e x ys)

entry_at-append :
    (n : ℕ) (xs ys : List EntryState) → n < length xs → entry_at n (xs ++ ys) ≡ entry_at n xs
entry_at-append n [] ys l = absurd (omega arith)
entry_at-append zero (x ∷ xs) ys l = refl
entry_at-append (suc n) (x ∷ xs) ys l = entry_at-append n xs ys (omega arith)

-- An entry changed in its place.
abbrev modified : ℕ → (EntryState → EntryState) → List EntryState → List EntryState
modified n f h = store_at n (f (entry_at n h)) h

modified-last :
    (f : EntryState → EntryState) (e : EntryState) (xs : List EntryState)
    → modified (length xs) f (xs ++ (e ∷ [])) ≡ xs ++ (f e ∷ [])
modified-last f e xs =
    ap (λ (x : EntryState). store_at (length xs) (f x) (xs ++ (e ∷ []))) (entry_at-last e xs)
    ∙ store_at-last (f e) e xs

abbrev pub emptied : EntryState → EntryState
emptied s = record s { content = [] }

abbrev pub filled : Text → EntryState → EntryState
filled bytes s = record s { content = bytes }

abbrev pub tagged : Text → EntryState → EntryState
tagged tag s = record s { etag = tag }

pub three_changes :
    (a b c : EntryState → EntryState) (e : EntryState) (xs : List EntryState)
    → modified (length xs) c (modified (length xs) b (modified (length xs) a (xs ++ (e ∷ []))))
      ≡ xs ++ (c (b (a e)) ∷ [])
three_changes a b c e xs =
    ap (modified (length xs) c)
      (ap (modified (length xs) b) (modified-last a e xs) ∙ modified-last b (a e) xs)
    ∙ modified-last c (b (a e)) xs

-- A path that had no object leads to a new entry with these bytes; the rest is as it was.
pub record IsWritten (key bytes : Text) (before after : MemFs) : Type 0 where
  pub found : find key after ≡ some (length before.heap)
  pub holds : (entry_at (length before.heap) after.heap).content ≡ bytes
  pub longer : length after.heap ≡ suc (length before.heap)
  pub others : (k : Text) → key ≢ k → find k after ≡ find k before
  pub kept : (n : ℕ) → n < length before.heap → entry_at n after.heap ≡ entry_at n before.heap

-- A new entry at the end of the heap, under the path.
pub appended-IsWritten :
    (key bytes : Text) (e : EntryState) (before after : MemFs)
    → e.content ≡ bytes
    → after.heap ≡ before.heap ++ (e ∷ [])
    → after.objects ≡ Table.insert Text-discrete key (length before.heap) before.objects
    → IsWritten key bytes before after
appended-IsWritten key bytes e before after c h o = record {
  found =
      ap (Table.get Text-discrete key) o
      ∙ (get-insert Text-discrete key key (length before.heap) before.objects
          ∙ ite_self (Text-discrete key key) (some (length before.heap))
              (Table.get Text-discrete key before.objects));
  holds =
      ap (λ (z : List EntryState). (entry_at (length before.heap) z).content) h
      ∙ (ap (λ (z : EntryState). z.content) (entry_at-last e before.heap) ∙ c);
  longer =
      ap (λ (z : List EntryState). length z) h ∙ omega (arith, length-append before.heap (e ∷ []));
  others = λ k n.
      ap (Table.get Text-discrete k) o
      ∙ (get-insert Text-discrete key k (length before.heap) before.objects
          ∙ ite_other (Text-discrete key k) (some (length before.heap))
              (Table.get Text-discrete k before.objects) n);
  kept = λ n l.
      ap (λ (z : List EntryState). entry_at n z) h ∙ entry_at-append n before.heap (e ∷ []) l;
}
