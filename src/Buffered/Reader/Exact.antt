-- ===== src/Buffered/Reader/Exact.antt =====
-- What BufReader reads is what the file holds, however the reads and the buffer lie.
use fusio.Base.{
  ℕ, zero, suc, ◌+◌, ◌-◌, ◌≤◌, ◌<◌, ◌≡◌, ◌∙◌, refl, sym, ap, min, [], ◌∷◌, ◌++◌, length,
  length-take, length-drop, take, drop, Option, none, some, Bool-cases, true, false, ◌==◌, lt→leb,
  Text, arith, inl, inr,
}
use mathlib.Core.List.{append_assoc, append-nil}
use fusio.Effect.{Result, ok}
use fusio.Manifest.Types.{FsError}
use fusio.Buffered.Reader.{
  Source, Reading, is_used_up, min_len, chunk, advanced, refilled, filling_buf, read_loop,
  read_exact,
}

drop_nil : (n : ℕ) → drop {A = ℕ} n [] ≡ []
drop_nil zero = refl
drop_nil (suc n) = refl

take_nil : (n : ℕ) → take {A = ℕ} n [] ≡ []
take_nil zero = refl
take_nil (suc n) = refl

drop-drop : (m n k : ℕ) (xs : Text) → k ≡ n + m → drop m (drop n xs) ≡ drop k xs
drop-drop m zero k xs e = ap (λ (i : ℕ). drop i xs) (omega (arith, e))
drop-drop m (suc n) zero xs e = absurd (omega (arith, e))
drop-drop m (suc n) (suc k) [] e = drop_nil m
drop-drop m (suc n) (suc k) (x ∷ xs) e = drop-drop m n k xs (omega (arith, e))

take-take : (m n : ℕ) (xs : Text) → m ≤ n → take m (take n xs) ≡ take m xs
take-take zero n xs l = refl
take-take (suc m) zero xs l = absurd (omega arith)
take-take (suc m) (suc n) [] l = refl
take-take (suc m) (suc n) (x ∷ xs) l = ap (λ (z : Text). x ∷ z) (take-take m n xs (omega arith))

-- Some bytes of the middle of a prefix.
take-drop-take :
    (n c l : ℕ) (xs : Text) → n + c ≤ l → take n (drop c (take l xs)) ≡ take n (drop c xs)
take-drop-take n zero l xs h = take-take n l xs (omega arith)
take-drop-take n (suc c) zero xs h = absurd (omega arith)
take-drop-take n (suc c) (suc l) [] h = refl
take-drop-take n (suc c) (suc l) (x ∷ xs) h = take-drop-take n c l xs (omega arith)

take-append-take : (m n k : ℕ) (xs : Text) → k ≡ m + n → take m xs ++ take n (drop m xs) ≡ take k xs
take-append-take zero n k xs e = ap (λ (i : ℕ). take i xs) (omega (arith, e))
take-append-take (suc m) n zero xs e = absurd (omega (arith, e))
take-append-take (suc m) n (suc k) [] e = take_nil n
take-append-take (suc m) n (suc k) (x ∷ xs) e =
    ap (λ (z : Text). x ∷ z) (take-append-take m n k xs (omega (arith, e)))

module _ {W : Type 0} (f : Source W) (capacity : ℕ) (view : W → Text) (content : Text) where
  -- The buffer is a part of the file, and stands at its offset.
  abbrev InFile : Option (Text × ℕ) → ℕ → Type 0
  InFile none offset = Unit
  InFile (some (b, current)) offset =
      (current ≤ length b)
      × (b ≡ take (length b) (drop offset content))
      × (offset + length b ≤ length content)

  -- A reader over a file with this content.
  pub record IsReader (s : Reading W) : Type 0 where
    pub sized : s.file_size ≡ length content
    pub filled : InFile s.fill s.offset
    pub viewed : view s.world ≡ content

  -- The buffer has bytes at a position.
  abbrev IsAt : ℕ → Option (Text × ℕ) → ℕ → Type 0
  IsAt pos none offset = ⊥
  IsAt pos (some (b, current)) offset = (current < length b) × (offset + current ≡ pos)

  -- The bytes that a buffer gives are those of the file.
  chunk_lem :
      (pos want : ℕ) (o : Option (Text × ℕ)) (offset : ℕ)
      → InFile o offset
      → IsAt pos o offset
      → chunk o want ≡ take (min_len o want) (drop pos content)
  unfolding chunk min_len
  chunk_lem pos want none offset h a = absurd a
  chunk_lem pos want (some (b, current)) offset (le, part, inside) (lt, at) =
      ap (λ (z : Text). take (min (length b - current) want) (drop current z)) part
      ∙ (take-drop-take (min (length b - current) want) current (length b) (drop offset content)
            (omega arith)
          ∙ ap (λ (z : Text). take (min (length b - current) want) z)
              (drop-drop current offset pos content (sym at)))

  min_len-bounds :
      (pos want : ℕ) (o : Option (Text × ℕ)) (offset : ℕ)
      → IsAt pos o offset
      → 1 ≤ want
      → (1 ≤ min_len o want) × (min_len o want ≤ want)
  unfolding min_len
  min_len-bounds pos want none offset a l = absurd a
  min_len-bounds pos want (some (b, current)) offset (lt, at) l = (omega arith, omega arith)

  advanced-InFile :
      (want : ℕ) (o : Option (Text × ℕ)) (offset : ℕ)
      → InFile o offset
      → InFile (advanced o want) offset
  unfolding advanced min_len
  advanced-InFile want none offset h = tt
  advanced-InFile want (some (b, current)) offset (le, part, inside) = (omega arith, part, inside)

  not_stale :
      (pos : ℕ) (o : Option (Text × ℕ)) (offset : ℕ)
      → InFile o offset
      → is_used_up o offset pos ≡ false
      → IsAt pos o offset
  unfolding is_used_up
  not_stale pos none offset h e = cc
  not_stale pos (some (b, current)) offset (le, part, inside) e = (ground arith, ground arith)

  length-part : (n pos : ℕ) → pos + n ≤ length content → length (take n (drop pos content)) ≡ n
  length-part n pos h = omega (arith, length-take n (drop pos content), length-drop pos content)

  -- Every read in the file answers its bytes.
  abbrev pub IsSource : Type 0
  IsSource =
      (len pos : ℕ) (w : W)
      → view w ≡ content
      → pos + len ≤ length content
      → (w' : W) × (f.source_read_exact_at len pos w ≡ (ok (take len (drop pos content)), w'))
        × (view w' ≡ content)

  abbrev Fills : ℕ → Result FsError Unit × Reading W → Type 0
  Fills pos o = (s' : Reading W) × (o ≡ (ok tt, s')) × IsReader s' × IsAt pos s'.fill s'.offset

  module _ (source : IsSource) (enough : 1 ≤ capacity) where
    refill-Fills :
        (n pos : ℕ) (s : Reading W)
        → IsReader s
        → 1 ≤ n
        → pos + n ≤ length content
        → Fills pos (refilled pos s (f.source_read_exact_at n pos s.world))
    unfolding refilled
    refill-Fills n pos s h l inside =
        let (w', answer, same) = source n pos s.world h.viewed inside in
        let long = length-part n pos inside in
        rw answer (
          record s { world = w'; fill = some (take n (drop pos content), 0); offset = pos },
          refl,
          record {
            sized = h.sized;
            filled = (
              omega arith,
              ap (λ (i : ℕ). take i (drop pos content)) (sym long),
              omega (arith, long),
            );
            viewed = same;
          },
          (omega (arith, long), omega arith),
        )

    filling_buf-Fills :
        (pos : ℕ) (s : Reading W)
        → IsReader s
        → pos < length content
        → Fills pos (filling_buf f capacity pos s)
    unfolding filling_buf
    filling_buf-Fills pos s h l =
        let size = h.sized in
        rw (lt→leb s.file_size pos (omega (arith, size)))
          (elim (Bool-cases (is_used_up s.fill s.offset pos)) [
            | inl q ↦ rw q (
                refill-Fills (min capacity (s.file_size - pos)) pos s h (omega (arith, size))
                  (omega (arith, size)))
            | inr q ↦ rw q (s, refl, h, not_stale pos s.fill s.offset h.filled q)
          ])

    -- The bytes of a turn and of the turns behind it.
    join_lem :
        (pos want n : ℕ) (out c : Text)
        → c ≡ take n (drop pos content)
        → n ≤ want
        → (out ++ c) ++ take (want - n) (drop (pos + n) content)
          ≡ out ++ take want (drop pos content)
    join_lem pos want n out c e l =
        append_assoc out c (take (want - n) (drop (pos + n) content))
        ∙ ap (λ (z : Text). out ++ z)
            (ap (λ (z : Text). z ++ take (want - n) (drop (pos + n) content)) e
              ∙ (ap (λ (z : Text). take n (drop pos content) ++ take (want - n) z)
                    (sym (drop-drop n pos (pos + n) content refl))
                  ∙ take-append-take n (want - n) want (drop pos content) (omega arith)))

    none_wanted :
        (want pos : ℕ) (out : Text) → (want == 0) ≡ true → out ≡ out ++ take want (drop pos content)
    none_wanted want pos out q =
        let zero_left : want ≡ 0 = ground arith in
        sym (ap (λ (k : ℕ). out ++ take k (drop pos content)) zero_left ∙ append-nil out)

    abbrev pub Reads : Text → Result FsError Text × Reading W → Type 0
    Reads bytes o = (s' : Reading W) × (o ≡ (ok bytes, s')) × IsReader s'

    read_loop-Reads :
        (fuel pos want : ℕ) (out : Text) (s : Reading W)
        → IsReader s
        → pos + want ≤ length content
        → want < fuel
        → Reads (out ++ take want (drop pos content)) (read_loop f capacity fuel pos want out s)
    unfolding read_loop
    read_loop-Reads zero pos want out s h inside more = absurd (omega arith)
    read_loop-Reads (suc fuel) pos want out s h inside more = elim (Bool-cases (want == 0)) [
      | inl q ↦ rw q (s, ap (λ (z : Text). (ok z, s)) (none_wanted want pos out q), h)
      | inr q ↦
          (let (s', answer, h', at) = filling_buf-Fills pos s h (ground arith) in
            let bounds = min_len-bounds pos want s'.fill s'.offset at (ground arith) in
            rw (q, answer)
              (let (s2, e2, h2) =
                  read_loop-Reads fuel (pos + min_len s'.fill want) (want - min_len s'.fill want)
                    (out ++ chunk s'.fill want) (record s' { fill = advanced s'.fill want })
                    (record {
                      sized = h'.sized;
                      filled = advanced-InFile want s'.fill s'.offset h'.filled;
                      viewed = h'.viewed;
                    })
                    (omega (arith, bounds.0, bounds.1)) (omega (arith, bounds.0, bounds.1)) in
                (
                  s2,
                  e2
                      ∙ ap (λ (z : Text). (ok z, s2))
                          (join_lem pos want (min_len s'.fill want) out (chunk s'.fill want)
                            (chunk_lem pos want s'.fill s'.offset h'.filled at) bounds.1),
                  h2,
                )))
    ]

    -- Over a file whose reads answer its bytes, with a capacity of one byte at least and fuel for a
    -- turn more than there are bytes to read: read_exact_at of any part of the file answers exactly
    -- its bytes, wherever the buffer stands, and the reader goes on being one of this file.
    pub read_exact-Reads :
        (fuel len pos : ℕ) (s : Reading W)
        → IsReader s
        → pos + len ≤ length content
        → len < fuel
        → Reads (take len (drop pos content)) (read_exact f capacity fuel len pos s)
    unfolding read_exact
    read_exact-Reads fuel len pos s h = read_loop-Reads fuel pos len [] s h
