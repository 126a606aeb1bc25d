-- ===== src/Manifest/Segments/Listing.antt =====
-- What list_from answers for a listing: the numbers of the listed names from a bound on.
use mathlib.Core.List.{append_assoc}
use fusio.Base.{
  ℕ, zero, suc, ◌≡◌, ◌≤◌, ◌<◌, ◌∙◌, refl, sym, ap, max, inl, inr, List, [], ◌∷◌, ◌++◌, Option, none,
  some, Bool, Bool-cases, leb, if◌then◌else◌, length, length-append, take, keep, All, Text, arith,
  leb→lt, leb→le, lt→leb, true, false,
}
use fusio.Effect.{Result, ok, err, spent, pure, lift, ◌>>=◌, bind_cases}
use fusio.Memory.Tags.{All-last}
use fusio.Path.{from}
use fusio.Manifest.Types.{Error, FsError}
use fusio.Manifest.HeadStore.{CasStore}
use fusio.Manifest.Files.{FileSystem, of_io, converted}
use fusio.Manifest.Session.Reads.{insert_seq, sort_seqs}
use fusio.Manifest.Segments.{seq_of, pushed, gathered, list_from}

-- The numbers of the names that are names of segments.
unfoldable pub counted : Option ℕ → List ℕ → List ℕ
counted none is = is
counted (some i) is = i ∷ is

unfoldable pub numbers : List (Text × ℕ) → List ℕ
unfolding counted
numbers [] = []
numbers ((p, n) ∷ xs) = counted (seq_of p) (numbers xs)

-- A listing in which every item is there.
unfoldable pub answers : List (Text × ℕ) → List (Result FsError (Text × ℕ))
answers [] = []
answers (x ∷ xs) = ok x ∷ answers xs

-- Numbers that rise along the list, from a bound on.
abbrev pub Rising : ℕ → List ℕ → Type 0
Rising n [] = Unit
Rising n (i ∷ is) = (n ≤ i) × Rising i is

take-append : {A : Type 0} (xs ys : List A) → take (length xs) (xs ++ ys) ≡ xs
take-append [] ys = refl
take-append (x ∷ xs) ys = ap (λ (z : List _). x ∷ z) (take-append xs ys)

take_more : {A : Type 0} (n : ℕ) (xs : List A) → length xs < n → take n (xs ++ []) ≡ xs
take_more zero xs l = absurd (omega arith)
take_more (suc n) [] l = refl
take_more (suc n) (x ∷ xs) l = ap (λ (z : List _). x ∷ z) (take_more n xs (omega arith))

length-snoc : (xs : List ℕ) (x : ℕ) → length (xs ++ (x ∷ [])) ≡ suc (length xs)
length-snoc xs x = omega (arith, length-append xs (x ∷ []))

module _ (from_seq limit : ℕ) where
  abbrev Gathers : List ℕ → List (Text × ℕ) → Type 0
  Gathers out xs =
      gathered from_seq limit out (answers xs)
      ≡ ok (take limit (out ++ keep (leb from_seq) (numbers xs)))

  -- What is gathered once the next numbers are known: full, or as far as the rest of the listing.
  step :
      (next all : List ℕ) (r : Result Error (List ℕ))
      → take (length next) all ≡ next
      → (leb limit (length next) ≡ true → limit ≡ length next)
      → (leb limit (length next) ≡ false → r ≡ ok (take limit all))
      → (if leb limit (length next) then ok next else r) ≡ ok (take limit all)
  step next all r front full on = elim (Bool-cases (leb limit (length next))) [
    | inl q ↦ rw q (ap ok (sym front ∙ ap (λ (k : ℕ). take k all) (sym (full q))))
    | inr q ↦ rw q (on q)
  ]

  found_lem :
      (out : List ℕ) (xs : List (Text × ℕ)) (o : Option ℕ)
      → length out < limit
      → ((out' : List ℕ) → length out' < limit → Gathers out' xs)
      → (if leb limit (length (pushed from_seq out o))
          then ok (pushed from_seq out o)
          else gathered from_seq limit (pushed from_seq out o) (answers xs))
        ≡ ok (take limit (out ++ keep (leb from_seq) (counted o (numbers xs))))
  unfolding keep pushed counted
  found_lem out xs none l ih = rw (lt→leb limit (length out) l) (ih out l)
  found_lem out xs (some s) l ih = elim (Bool-cases (leb from_seq s)) [
    | inr q ↦ rw (q, lt→leb limit (length out) l) (ih out l)
    | inl q ↦ rw q (
        step (out ++ (s ∷ [])) (out ++ (s ∷ keep (leb from_seq) (numbers xs)))
          (gathered from_seq limit (out ++ (s ∷ [])) (answers xs))
          (ap (λ (z : List ℕ). take (length (out ++ (s ∷ []))) z)
              (sym (append_assoc out (s ∷ []) (keep (leb from_seq) (numbers xs))))
            ∙ take-append (out ++ (s ∷ [])) (keep (leb from_seq) (numbers xs)))
          (λ f. omega (arith, leb→le limit (length (out ++ (s ∷ []))) f, length-snoc out s))
          (λ f.
            ih (out ++ (s ∷ [])) (leb→lt limit (length (out ++ (s ∷ []))) f)
            ∙ ap (λ (z : List ℕ). ok (take limit z))
                (append_assoc out (s ∷ []) (keep (leb from_seq) (numbers xs)))))
  ]

  gathered_lem : (out : List ℕ) (xs : List (Text × ℕ)) → length out < limit → Gathers out xs
  unfolding gathered answers numbers keep
  gathered_lem out [] l = ap ok (sym (take_more limit out l))
  gathered_lem out ((p, n) ∷ xs) l =
      found_lem out xs (seq_of p) l (λ out' k. gathered_lem out' xs k)

  -- The fold of a listing without errors: the first `limit` numbers from the bound on, as listed.
  gathered-eq-take :
      (xs : List (Text × ℕ))
      → 1 ≤ limit
      → gathered from_seq limit [] (answers xs) ≡ ok (take limit (keep (leb from_seq) (numbers xs)))
  gathered-eq-take xs l = gathered_lem [] xs (omega arith)

insert_seq-Rising : (n i : ℕ) (xs : List ℕ) → n ≤ i → Rising n xs → Rising n (insert_seq i xs)
unfolding insert_seq
insert_seq-Rising n i [] l h = (l, tt)
insert_seq-Rising n i (j ∷ js) l h = elim (Bool-cases (leb i j)) [
  | inl q ↦ rw q (l, (leb→le i j q, h.1))
  | inr q ↦ rw q (h.0, insert_seq-Rising j i js (omega (arith, leb→lt i j q)) h.1)
]

Rising-keep : (n m : ℕ) (xs : List ℕ) → Rising n xs → Rising n (keep (leb m) xs)
unfolding keep
Rising-keep n m [] h = tt
Rising-keep n m (i ∷ is) h = elim (Bool-cases (leb m i)) [
  | inl q ↦ rw q (h.0, Rising-keep i m is h.1)
  | inr q ↦ rw q (Rising-weaken n i (keep (leb m) is) h.0 (Rising-keep i m is h.1))
]
  where
    Rising-weaken : (a b : ℕ) (ys : List ℕ) → a ≤ b → Rising b ys → Rising a ys
    Rising-weaken a b [] l k = tt
    Rising-weaken a b (y ∷ ys) l k = (omega arith, k.1)

Rising-take : (n k : ℕ) (xs : List ℕ) → Rising n xs → Rising n (take k xs)
Rising-take n zero xs h = tt
Rising-take n (suc k) [] h = tt
Rising-take n (suc k) (x ∷ xs) h = (h.0, Rising-take x k xs h.1)

insert_seq-least : (i : ℕ) (xs : List ℕ) → Rising i xs → insert_seq i xs ≡ i ∷ xs
unfolding insert_seq
insert_seq-least i [] h = refl
insert_seq-least i (j ∷ js) h = ground arith

sort_seqs-Rising : (n : ℕ) (xs : List ℕ) → Rising n xs → sort_seqs xs ≡ xs
unfolding sort_seqs
sort_seqs-Rising n [] h = refl
sort_seqs-Rising n (i ∷ is) h = rw (sort_seqs-Rising i is h.1) (insert_seq-least i is h.1)

-- From a bound on that all numbers keep, the sorted numbers rise.
Rising-sort_seqs : (n : ℕ) (xs : List ℕ) → All (λ (i : ℕ). n ≤ i) xs → Rising n (sort_seqs xs)
unfolding sort_seqs
Rising-sort_seqs n [] h = tt
Rising-sort_seqs n (i ∷ is) h = insert_seq-Rising n i (sort_seqs is) h.0 (Rising-sort_seqs n is h.1)

length-insert_seq : (i : ℕ) (xs : List ℕ) → length (insert_seq i xs) ≡ suc (length xs)
unfolding insert_seq
length-insert_seq i [] = refl
length-insert_seq i (j ∷ js) = ground (arith, length-insert_seq i js)

length-sort_seqs : (xs : List ℕ) → length (sort_seqs xs) ≡ length xs
unfolding sort_seqs
length-sort_seqs [] = refl
length-sort_seqs (i ∷ is) =
    length-insert_seq i (sort_seqs is) ∙ ap (λ (n : ℕ). suc n) (length-sort_seqs is)

-- What is gathered: numbers from the bound on, and not more than the limit, or than one.
abbrev Gathered : (from_seq limit : ℕ) → Result Error (List ℕ) → Type 0
Gathered from_seq limit (ok is) = All (λ (i : ℕ). from_seq ≤ i) is × (length is ≤ max 1 limit)
Gathered from_seq limit _ = Unit

-- What list_from answers, if it answers: rising numbers from the bound on, and not more than the
-- limit, or than one where the limit is zero.
abbrev pub Listed : (from_seq limit : ℕ) → Result Error (List ℕ) → Type 0
Listed from_seq limit (ok is) = Rising from_seq is × (length is ≤ max 1 limit)
Listed from_seq limit _ = Unit

module _ (from_seq limit : ℕ) where
  pushed-All :
      (out : List ℕ) (o : Option ℕ)
      → All (λ (i : ℕ). from_seq ≤ i) out
      → All (λ (i : ℕ). from_seq ≤ i) (pushed from_seq out o)
  unfolding pushed
  pushed-All out none h = h
  pushed-All out (some s) h = elim (Bool-cases (leb from_seq s)) [
    | inl q ↦ rw q (All-last (λ (i : ℕ). from_seq ≤ i) out s h (leb→le from_seq s q))
    | inr q ↦ rw q h
  ]

  length-pushed : (out : List ℕ) (o : Option ℕ) → length (pushed from_seq out o) ≤ suc (length out)
  unfolding pushed
  length-pushed out none = omega arith
  length-pushed out (some s) = ground (arith, length-snoc out s)

  gathered-Gathered :
      (out : List ℕ) (items : List (Result FsError (Text × ℕ)))
      → All (λ (i : ℕ). from_seq ≤ i) out
      → length out < max 1 limit
      → Gathered from_seq limit (gathered from_seq limit out items)
  unfolding gathered
  gathered-Gathered out [] h l = (h, omega arith)
  gathered-Gathered out (err e ∷ items) h l = tt
  gathered-Gathered out (spent ∷ items) h l = tt
  gathered-Gathered out (ok (p, n) ∷ items) h l =
      let long = length-pushed out (seq_of p) in
      elim (Bool-cases (leb limit (length (pushed from_seq out (seq_of p))))) [
        | inl q ↦ rw q (pushed-All out (seq_of p) h, omega arith)
        | inr q ↦ rw q (
            gathered-Gathered (pushed from_seq out (seq_of p)) items (pushed-All out (seq_of p) h)
              (omega (arith, leb→lt limit (length (pushed from_seq out (seq_of p))) q)))
      ]

  Gathered-Listed :
      (out : List ℕ) → Gathered from_seq limit (ok out) → Listed from_seq limit (ok (sort_seqs out))
  Gathered-Listed out (h, l) =
      (Rising-sort_seqs from_seq out h, omega (arith, length-sort_seqs out))

module _ {W F : Type 0} (fs : FileSystem W F) (cas : CasStore W)
    (percent_encode : (ℕ → Bool) → Text → Text) (prefix : Text) (from_seq limit : ℕ) where
  -- For every file system, listing and world: what list_from answers, if it answers, are rising
  -- numbers, none below from_seq, and at most `limit` of them (one, where the limit is zero).
  pub list_from-Listed :
      (w : W) → Listed from_seq limit (list_from fs cas percent_encode prefix from_seq limit w).0
  unfolding list_from
  list_from-Listed w =
      bind_cases (λ o. Listed from_seq limit o.0) _
        (converted (fs.list (from percent_encode prefix))) w
        (λ items e.
          of_gathered (gathered from_seq limit [] items) _
            (gathered-Gathered from_seq limit [] items tt (omega arith)))
        (λ _ _. tt) (λ _. tt)
    where
      of_gathered :
          (r : Result Error (List ℕ)) (w' : W)
          → Gathered from_seq limit r
          → Listed from_seq limit ((lift r >>= (λ out. pure (sort_seqs out))) w').0
      of_gathered (ok out) w' h = Gathered-Listed from_seq limit out h
      of_gathered (err e) w' h = tt
      of_gathered spent w' h = tt

  -- Where the listing has no errors and its numbers rise, and the limit is not zero, list_from
  -- answers exactly the first `limit` of the listed numbers from from_seq on.
  pub list_from-eq-take :
      (xs : List (Text × ℕ)) (w w' : W)
      → fs.list (from percent_encode prefix) w ≡ (ok (answers xs), w')
      → Rising 0 (numbers xs)
      → 1 ≤ limit
      → list_from fs cas percent_encode prefix from_seq limit w
        ≡ (ok (take limit (keep (leb from_seq) (numbers xs))), w')
  unfolding list_from converted of_io
  list_from-eq-take xs w w' e h l =
      rw (e, gathered-eq-take from_seq limit xs l)
        (ap (λ (z : List ℕ). (ok z, w'))
          (sort_seqs-Rising 0 (take limit (keep (leb from_seq) (numbers xs))) (
            Rising-take 0 limit (keep (leb from_seq) (numbers xs))
              (Rising-keep 0 from_seq (numbers xs) h))))
