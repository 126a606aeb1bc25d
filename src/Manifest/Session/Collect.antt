-- ===== src/Manifest/Session/Collect.antt =====
-- The listing loop of `base_get`: it gathers the numbers of the snapshot's segments, in order.
use mathlib.Core.List.{append_assoc, append-nil}
use native.Mathlib.Numerals.{add-one}
use fusio.Base.{
  ℕ, zero, suc, ◌+◌, ◌≤◌, ◌<◌, ◌≡◌, ◌∙◌, refl, sym, ap, inl, inr, true, false, List, [], ◌∷◌, ◌++◌,
  ltb, take, length, arith, keep, Bool-cases,
}
use fusio.Effect.{Result, ok}
use fusio.Manifest.Types.{Error, Segment}
use fusio.Manifest.Stores.{Stores, Codec}
use fusio.Manifest.Session.Reads.{max_seq, within, gather, collect_ids, sort_seqs, insert_seq}
use fusio.Manifest.Session.Rest.{Sorted, from, upto, seqs, AtRest, from_next, Sorted-from}

le-max_seq : (j : ℕ) (js : List ℕ) (cursor : ℕ) → j ≤ max_seq (j ∷ js) cursor
unfolding max_seq
le-max_seq j [] cursor = omega arith
le-max_seq j (k ∷ js) cursor = omega arith

max_seq_one : (i cursor : ℕ) → max_seq (i ∷ []) cursor ≡ i
unfolding max_seq
max_seq_one i cursor = refl

-- A smaller number in front does not change the maximum.
max_seq-cons :
    (i j : ℕ) (js : List ℕ) (cursor : ℕ)
    → i < j
    → max_seq (i ∷ j ∷ js) cursor ≡ max_seq (j ∷ js) cursor
unfolding max_seq
max_seq-cons i j js cursor h = omega (arith, le-max_seq j js cursor)

module _ {K V : Type 0} (last : ℕ) where
  -- The filter of the loop keeps the numbers up to the last.
  keep_window :
      (start n limit : ℕ) (xs : List (ℕ × Segment K V))
      → start ≤ n
      → Sorted n xs
      → keep (within start last) (take limit (seqs xs)) ≡ take limit (seqs (upto last xs))
  unfolding keep upto within
  keep_window start n zero xs le o = refl
  keep_window start n (suc limit) [] le o = refl
  keep_window start n (suc limit) ((i, s) ∷ xs) le o =
      ground (arith, keep_window start (suc i) limit xs, past (suc i) limit xs)
    where
      past :
          (n limit : ℕ) (xs : List (ℕ × Segment K V))
          → last < n
          → Sorted n xs
          → keep (within start last) (take limit (seqs xs)) ≡ []
      past n zero xs lt o = refl
      past n (suc limit) [] lt o = refl
      past n (suc limit) ((i, s) ∷ xs) lt o = ground (arith, past (suc i) limit xs)

  upto_past : (n : ℕ) (xs : List (ℕ × Segment K V)) → last < n → Sorted n xs → upto last xs ≡ []
  unfolding upto
  upto_past n [] lt o = refl
  upto_past n ((i, s) ∷ xs) lt o = ground arith

  upto_nil : upto {K = K} {V = V} last [] ≡ []
  unfolding upto
  upto_nil = refl

  upto_end :
      (i : ℕ) (s : Segment K V) (xs : List (ℕ × Segment K V))
      → ltb last i ≡ true
      → upto last ((i, s) ∷ xs) ≡ []
  unfolding upto
  upto_end i s xs past = rw past

  upto_cons :
      (i : ℕ) (s : Segment K V) (xs : List (ℕ × Segment K V))
      → ltb last i ≡ false
      → upto last ((i, s) ∷ xs) ≡ (i, s) ∷ upto last xs
  unfolding upto
  upto_cons i s xs inside = rw inside

  -- A window that holds an object leads behind its last number.
  abbrev Leads : List (ℕ × Segment K V) → List (ℕ × Segment K V) → List ℕ → ℕ → Type 0
  Leads segs xs ids cursor =
      (rest : List (ℕ × Segment K V)) × (from (suc (max_seq ids cursor)) segs ≡ rest)
      × (seqs (upto last xs) ≡ ids ++ seqs (upto last rest))
      × (length rest < length xs)

  window-Leads :
      (segs : List (ℕ × Segment K V)) (limit : ℕ) (i : ℕ) (s : Segment K V)
      (xs : List (ℕ × Segment K V)) (n cursor : ℕ)
      → Sorted 0 segs
      → from n segs ≡ (i, s) ∷ xs
      → Sorted n ((i, s) ∷ xs)
      → ltb last i ≡ false
      → Leads segs ((i, s) ∷ xs) (i ∷ take limit (seqs (upto last xs))) cursor
  unfolding upto
  window-Leads segs zero i s xs n cursor so fr o inside =
      (xs, rw max_seq_one (from_next 0 n segs i s xs so fr), rw inside, omega arith)
  window-Leads segs (suc limit) i s [] n cursor so fr o inside =
      ([], rw max_seq_one (from_next 0 n segs i s [] so fr), rw inside, omega arith)
  window-Leads segs (suc limit) i s ((j, t) ∷ xs) n cursor so fr o inside =
      elim (Bool-cases (ltb last j)) [
        | inl past ↦ rw past (
          (j, t) ∷ xs,
          rw max_seq_one (from_next 0 n segs i s ((j, t) ∷ xs) so fr),
          rw (inside, past),
          omega arith,
        )
        | inr more ↦
            let (rest, next, same, less) =
              window-Leads segs limit j t xs (suc i) cursor so
                (from_next 0 n segs i s ((j, t) ∷ xs) so fr) o.1 more in
            rw more (
              rest,
              rw (max_seq-cons i j (take limit (seqs (upto last xs))) cursor o.1.0) next,
              rw inside (ap (λ (l : List ℕ). i ∷ l) (rw more at same)),
              omega arith,
            )
      ]

module _ {W : Type 0} (st : Stores W) (w : W) (start last fuel cursor : ℕ) (all listed : List ℕ)
    (answer : st.seg_list_from cursor 512 w ≡ (ok listed, w)) where
  collect_none :
      keep (within start last) listed ≡ []
      → collect_ids st (suc fuel) start last cursor all w ≡ (ok all, w)
  unfolding collect_ids gather
  collect_none e = rw (answer, e)

  collect_last :
      (i : ℕ) (is : List ℕ)
      → keep (within start last) listed ≡ i ∷ is
      → ltb last (max_seq (i ∷ is) cursor + 1) ≡ true
      → collect_ids st (suc fuel) start last cursor all w ≡ (ok (all ++ (i ∷ is)), w)
  unfolding collect_ids gather
  collect_last i is e past = rw (answer, e, past)

  collect_more :
      (i : ℕ) (is : List ℕ)
      → keep (within start last) listed ≡ i ∷ is
      → ltb last (max_seq (i ∷ is) cursor + 1) ≡ false
      → collect_ids st (suc fuel) start last cursor all w
        ≡ collect_ids st fuel start last (max_seq (i ∷ is) cursor + 1) (all ++ (i ∷ is)) w
  unfolding collect_ids gather
  collect_more i is e more = rw (answer, e, more)

module _ {W K V : Type 0} (st : Stores W) (c : Codec K V) (w : W) (start last : ℕ)
    (segs : List (ℕ × Segment K V)) (rest : AtRest st c w segs) where
  abbrev window : ℕ → List ℕ
  window cursor = take 512 (seqs (from cursor segs))

  kept_window :
      (cursor : ℕ) (us : List (ℕ × Segment K V))
      → start ≤ cursor
      → upto last (from cursor segs) ≡ us
      → keep (within start last) (window cursor) ≡ take 512 (seqs us)
  kept_window cursor us le e =
      keep_window last start cursor 512 (from cursor segs) le
        (Sorted-from 0 cursor segs rest.sorted)
      ∙ ap (λ (z : List (ℕ × Segment K V)). take 512 (seqs z)) e

  -- The number behind a window that passes the last one leaves nothing to read.
  nothing_left :
      (n : ℕ) (ys : List (ℕ × Segment K V))
      → ltb last n ≡ true
      → from n segs ≡ ys
      → upto last ys ≡ []
  nothing_left n ys past e =
      upto_past last n ys (ground arith) (rw e at (Sorted-from 0 n segs rest.sorted))

  answer_eq : {xs ys : List ℕ} → xs ≡ ys → ◌≡◌ {A = Result Error (List ℕ) × W} (ok xs, w) (ok ys, w)
  answer_eq e = cc

  at_cursor :
      (i : ℕ) (s : Segment K V) (xs : List (ℕ × Segment K V)) (cursor : ℕ)
      → from cursor segs ≡ (i, s) ∷ xs
      → cursor ≤ i
  at_cursor i s xs cursor fr = (rw fr at (Sorted-from 0 cursor segs rest.sorted)).0

  finish :
      (all ids : List ℕ) (ys : List (ℕ × Segment K V))
      → upto last ys ≡ []
      → ◌≡◌ {A = Result Error (List ℕ) × W} (ok all, w) (ok (all ++ seqs (upto last ys)), w)
  finish all ids ys e = rw e (rw (append-nil all))

  collect_ids_lem :
      (fuel cursor : ℕ) (xs : List (ℕ × Segment K V)) (all : List ℕ)
      → from cursor segs ≡ xs
      → start ≤ cursor
      → length xs < fuel
      → collect_ids st fuel start last cursor all w ≡ (ok (all ++ seqs (upto last xs)), w)
  collect_ids_lem zero cursor xs all fr le enough = elim enough [ ]
  collect_ids_lem (suc fuel) cursor [] all fr le enough =
      collect_none st w start last fuel cursor all (window cursor)
        (rest.listed cursor 512 (omega arith))
        (kept_window cursor [] le (ap (upto last) fr ∙ upto_nil last))
      ∙ finish all [] [] (upto_nil last)
  collect_ids_lem (suc fuel) cursor ((i, s) ∷ xs) all fr le enough =
      let answer = rest.listed cursor 512 (omega arith) in
      let ids : List ℕ = take 511 (seqs (upto last xs)) in
      elim (Bool-cases (ltb last i)) [
        | inl past ↦
            collect_none st w start last fuel cursor all (window cursor) answer
              (kept_window cursor [] le (ap (upto last) fr ∙ upto_end last i s xs past))
            ∙ finish all [] ((i, s) ∷ xs) (upto_end last i s xs past)
        | inr inside ↦
            let kept =
              kept_window cursor ((i, s) ∷ upto last xs) le
                (ap (upto last) fr ∙ upto_cons last i s xs inside) in
            let (ys, next, same, less) =
              window-Leads last segs 511 i s xs cursor cursor rest.sorted fr
                (rw fr at (Sorted-from 0 cursor segs rest.sorted)) inside in
            elim (Bool-cases (ltb last (max_seq (i ∷ ids) cursor + 1))) [
              | inl past ↦
                  collect_last st w start last fuel cursor all (window cursor) answer i ids kept
                    past
                  ∙ answer_eq (
                      ap (λ (z : List ℕ). all ++ z)
                        (sym (
                          same
                          ∙ ap (λ (z : List (ℕ × Segment K V)). (i ∷ ids) ++ seqs z)
                              (nothing_left _ ys past (rw add-one next))
                          ∙ append-nil (i ∷ ids))))
              | inr more ↦
                  collect_more st w start last fuel cursor all (window cursor) answer i ids kept
                    more
                  ∙ (collect_ids_lem fuel (max_seq (i ∷ ids) cursor + 1) ys (all ++ (i ∷ ids))
                        (rw add-one next)
                        (omega (arith, le-max_seq i ids cursor, at_cursor i s xs cursor fr))
                        (omega arith)
                      ∙ answer_eq (
                          append_assoc all (i ∷ ids) (seqs (upto last ys))
                          ∙ ap (λ (z : List ℕ). all ++ z) (sym same)))
            ]
      ]

  -- From its start, the loop ends with the numbers of the snapshot's segments in rising order.
  pub collect_ids-eq-seqs :
      (fuel : ℕ)
      → length (from start segs) < fuel
      → collect_ids st fuel start last start [] w ≡ (ok (seqs (upto last (from start segs))), w)
  collect_ids-eq-seqs fuel enough =
      collect_ids_lem fuel start (from start segs) [] refl (omega arith) enough

-- The sort leaves sorted numbers as they are.
insert_seq-Sorted :
    {K V : Type 0} (n i : ℕ) (xs : List (ℕ × Segment K V))
    → i ≤ n
    → Sorted n xs
    → insert_seq i (seqs xs) ≡ i ∷ seqs xs
unfolding insert_seq
insert_seq-Sorted n i [] le o = refl
insert_seq-Sorted n i ((j, s) ∷ xs) le o = ground arith

pub sort_seqs-Sorted :
    {K V : Type 0} (n : ℕ) (xs : List (ℕ × Segment K V))
    → Sorted n xs
    → sort_seqs (seqs xs) ≡ seqs xs
unfolding sort_seqs
sort_seqs-Sorted n [] o = refl
sort_seqs-Sorted n ((i, s) ∷ xs) o =
    rw (sort_seqs-Sorted (suc i) xs o.1) (insert_seq-Sorted (suc i) i xs (omega arith) o.1)
