-- ===== src/Manifest/Session/Rest.antt =====
-- A store at rest: segment objects in order of their numbers, and what the traits answer over them.
use fusio.Base.{
  ℕ, suc, ◌≤◌, ◌≡◌, ◌≢◌, refl, List, [], ◌∷◌, none, some, Text, ltb, take, All, if◌then◌else◌,
  arith,
}
use fusio.Effect.{ok}
use fusio.Manifest.Types.{op_put, Record, Segment}
use fusio.Manifest.Stores.{Stores, Codec}

module _ {K V : Type 0} where
  -- Numbers rise along the list, and all are at least the first argument.
  abbrev pub Sorted : ℕ → List (ℕ × Segment K V) → Type 0
  Sorted n [] = Unit
  Sorted n ((i, s) ∷ xs) = (n ≤ i) × Sorted (suc i) xs

  -- The objects from a number on.
  unfoldable pub from : ℕ → List (ℕ × Segment K V) → List (ℕ × Segment K V)
  from n [] = []
  from n ((i, s) ∷ xs) = let rest = from n xs in if ltb i n then rest else (i, s) ∷ xs

  -- The objects up to a number.
  unfoldable pub upto : ℕ → List (ℕ × Segment K V) → List (ℕ × Segment K V)
  upto n [] = []
  upto n ((i, s) ∷ xs) = let rest = upto n xs in if ltb n i then [] else (i, s) ∷ rest

  abbrev pub seqs : List (ℕ × Segment K V) → List ℕ
  seqs [] = []
  seqs ((i, s) ∷ xs) = i ∷ seqs xs

  -- A put has a value.
  abbrev pub HasValue : Record K V → Type 0
  HasValue r = r.op ≡ op_put → r.value ≢ none

  -- `from` on a list that begins there already.
  pub from-Sorted : (n : ℕ) (xs : List (ℕ × Segment K V)) → Sorted n xs → from n xs ≡ xs
  unfolding from
  from-Sorted n [] h = refl
  from-Sorted n ((i, s) ∷ xs) h = ground arith

  pub Sorted-from : (k n : ℕ) (xs : List (ℕ × Segment K V)) → Sorted k xs → Sorted n (from n xs)
  unfolding from
  Sorted-from k n [] h = tt
  Sorted-from k n ((i, s) ∷ xs) h = ground (arith, Sorted-from (suc i) n xs h.1)

  head_bound :
      (k n : ℕ) (xs : List (ℕ × Segment K V)) (i : ℕ) (s : Segment K V)
      (ys : List (ℕ × Segment K V))
      → Sorted k xs
      → from n xs ≡ (i, s) ∷ ys
      → k ≤ i
  unfolding from
  head_bound k n [] i s ys h e = cc
  head_bound k n ((j, t) ∷ xs) i s ys h e = ground (arith, head_bound (suc j) n xs i s ys h.1)

  -- Behind the object with number i, the objects are those from i + 1 on.
  pub from_next :
      (k n : ℕ) (xs : List (ℕ × Segment K V)) (i : ℕ) (s : Segment K V)
      (ys : List (ℕ × Segment K V))
      → Sorted k xs
      → from n xs ≡ (i, s) ∷ ys
      → from (suc i) xs ≡ ys
  unfolding from
  from_next k n [] i s ys h e = cc
  from_next k n ((j, t) ∷ xs) i s ys h e = ground (
    arith,
    head_bound (suc j) n xs i s ys h.1,
    from_next (suc j) n xs i s ys h.1,
    from-Sorted (suc j) xs h.1,
  )

module _ {W K V : Type 0} (st : Stores W) (c : Codec K V) (w : W) where
  -- The object is fetched, and decodes to the segment.
  abbrev pub Fetched : (ℕ → Text) → ℕ × Segment K V → Type 0
  Fetched payload x =
      (st.seg_get (x.0) w ≡ (ok (payload (x.0)), w))
      × (c.decode_segment (payload (x.0)) ≡ some (x.1))

  -- The store answers every call but a listing of nothing, does not change, and holds just these segments.
  pub record AtRest (segs : List (ℕ × Segment K V)) : Type 0 where
    pub listed :
        (n limit : ℕ)
        → 1 ≤ limit
        → st.seg_list_from n limit w ≡ (ok (take limit (seqs (from n segs))), w)
    pub payload : ℕ → Text
    pub fetched : All (Fetched payload) segs
    pub sorted : Sorted 0 segs

pub All-from :
    {K V : Type 0} (P : ℕ × Segment K V → Type 0) (n : ℕ) (xs : List (ℕ × Segment K V))
    → All P xs
    → All P (from n xs)
unfolding from
All-from P n [] h = tt
All-from P n ((i, s) ∷ xs) h = ground (arith, All-from P n xs h.1)
