-- ===== src/Manifest/Segments/Deletion.antt =====
-- delete_upto over the in-memory file system: exactly the listed segments up to the number go.
use fusio.Base.{
  ℕ, ◌≡◌, ◌∙◌, refl, sym, ap, List, [], ◌∷◌, Option, none, some, Bool, Bool-cases, true, false, inl,
  inr, ◌&&◌, leb, if◌then◌else◌, All, Text, Text-discrete, ite,
}
use fusio.Effect.{Result, ok}
use fusio.Path.{from}
use fusio.Memory
use fusio.Memory.{MemFs, find, items, sizes, keys_with_prefix, starts_with}
use fusio.Manifest.Types.{Error}
use fusio.Manifest.Table
use fusio.Manifest.Table.{Table, get-remove}
use fusio.Manifest.InMemory.{mem_cas}
use fusio.Manifest.Files.{mem_files, remove_tolerant, tolerated, converted, of_io}
use fusio.Manifest.Segments.{seq_of, remove_old, remove_upto, delete_upto}

-- A path whose number is not above a bound.
unfoldable pub is_old : ℕ → Option ℕ → Bool
is_old upto none = false
is_old upto (some seq) = leb seq upto

-- What stands at a path, where `x` stood, once a path with a number is removed if it is old.
unfoldable pub without_old : ℕ → (p k : Text) → Option ℕ → Option ℕ → Option ℕ
unfolding is_old
without_old upto p k o x = if is_old upto o then ite (Text-discrete p k) none x else x

without_old-none : (upto : ℕ) (p k : Text) (o : Option ℕ) → without_old upto p k o none ≡ none
unfolding without_old
without_old-none upto p k o = elim (Bool-cases (is_old upto o)) [
  | inl q ↦ rw q (ite_both (Text-discrete p k))
  | inr q ↦ rw q refl
]
  where
    ite_both : {A : Type 0} (d : Dec A) → ite {C = Option ℕ} d none none ≡ none
    ite_both (yes a) = refl
    ite_both (no n) = refl

true-ne-false : true ≡ false → ⊥
true-ne-false e = cc

none_ne_some : {A : Type 0} {a : A} → ◌≡◌ {A = Option A} none (some a) → ⊥
none_ne_some e = cc

and_left : (a b : Bool) → (a && b) ≡ true → a ≡ true
and_left true b e = refl
and_left false b e = e

and_right : (a b : Bool) → (a && b) ≡ true → b ≡ true
and_right true b e = e
and_right false b e = cc

ite_yes : {A B : Type 0} (d : Dec A) (x y : B) → A → ite d x y ≡ x
ite_yes (yes a) x y h = refl
ite_yes (no n) x y h = absurd (n h)

ite_no : {A B : Type 0} (d : Dec A) (x y : B) → (A → ⊥) → ite d x y ≡ y
ite_no (yes a) x y h = absurd (h a)
ite_no (no n) x y h = refl

both : (a b : Bool) → a ≡ true → b ≡ true → (a && b) ≡ true
both a b e f = rw (e, f) refl

module _ (percent_encode : (ℕ → Bool) → Text → Text) (prefix : Text) (upto : ℕ) where
  -- The removal of one path answers Ok, and takes just this path away if it is old.
  abbrev Removes : Text → Option ℕ → MemFs → Result Error Unit × MemFs → Type 0
  Removes p o fs r =
      (fs' : MemFs) × (r ≡ (ok tt, fs'))
      × ((k : Text) → find k fs' ≡ without_old upto p k o (find k fs))

  remove_old-Removes :
      (p : Text) (o : Option ℕ) (fs : MemFs)
      → Removes p o fs
          (remove_old (mem_files percent_encode) mem_cas percent_encode prefix upto p o fs)
  unfolding remove_old remove_tolerant tolerated Memory.remove without_old is_old
  remove_old-Removes p none fs = (fs, refl, λ k. refl)
  remove_old-Removes p (some s) fs = elim (Bool-cases (leb s upto)) [
    | inr q ↦ rw q (fs, refl, λ k. refl)
    | inl q ↦ rw q (
      record fs { objects = Table.remove Text-discrete p fs.objects },
      refl,
      λ k. get-remove Text-discrete p k fs.objects,
    )
  ]

  -- What the whole loop leaves at a path.
  abbrev left : List (Text × ℕ) → Text → Option ℕ → Option ℕ
  left [] k x = x
  left ((p, n) ∷ l) k x =
      left l k (without_old upto (from percent_encode p) k (seq_of (from percent_encode p)) x)

  abbrev Leaves : List (Text × ℕ) → MemFs → Result Error Unit × MemFs → Type 0
  Leaves l fs r =
      (fs' : MemFs) × (r ≡ (ok tt, fs')) × ((k : Text) → find k fs' ≡ left l k (find k fs))

  remove_upto-Leaves :
      (l : List (Text × ℕ)) (fs : MemFs)
      → Leaves l fs (
          remove_upto
            (mem_files percent_encode)
            mem_cas
            percent_encode
            prefix
            upto
            (items percent_encode l)
            fs)
  unfolding remove_upto items
  remove_upto-Leaves [] fs = (fs, refl, λ k. refl)
  remove_upto-Leaves ((p, n) ∷ l) fs =
      let path = from percent_encode p in
      let (fs1, e, at) = remove_old-Removes path (seq_of path) fs in
      let (fs2, f, rest) = remove_upto-Leaves l fs1 in
      rw (e, f) (fs2, refl, λ k. rest k ∙ ap (left l k) (at k))

  left-none : (l : List (Text × ℕ)) (k : Text) → left l k none ≡ none
  left-none [] k = refl
  left-none ((p, n) ∷ l) k =
      ap (left l k)
        (without_old-none upto (from percent_encode p) k (seq_of (from percent_encode p)))
      ∙ left-none l k

  -- Keys that the second encoding leaves alone.
  abbrev pub AreCanonical : Table Text ℕ → Type 0
  AreCanonical = All (λ (x : Text × ℕ). from percent_encode (x.0) ≡ x.0)

  -- The segments that go: listed, and not above the bound.
  abbrev pub goes : Text → Bool
  goes k = starts_with (from percent_encode prefix) k && is_old upto (seq_of k)

  -- One key that is not to go keeps what stands there.
  kept_step :
      (j k : Text) (x : Option ℕ)
      → starts_with (from percent_encode prefix) j ≡ true
      → goes k ≡ false
      → without_old upto j k (seq_of j) x ≡ x
  unfolding without_old
  kept_step j k x listed stays = elim (Bool-cases (is_old upto (seq_of j))) [
    | inr q ↦ rw q refl
    | inl q ↦ rw q (pick (Text-discrete j k) q)
  ]
    where
      pick : (d : Dec (j ≡ k)) → is_old upto (seq_of j) ≡ true → ite d none x ≡ x
      pick (no n) q = refl
      pick (yes e) q = absurd (
          true-ne-false (
            sym (
              both _ _ (ap (starts_with (from percent_encode prefix)) (sym e) ∙ listed)
                (ap (λ (z : Text). is_old upto (seq_of z)) (sym e) ∙ q))
            ∙ stays))

  left_kept :
      (fs : MemFs) (m : Table Text ℕ) (k : Text) (x : Option ℕ)
      → AreCanonical m
      → goes k ≡ false
      → left (sizes fs (keys_with_prefix (from percent_encode prefix) m)) k x ≡ x
  unfolding keys_with_prefix sizes
  left_kept fs [] k x c g = refl
  left_kept fs ((j, id) ∷ m) k x c g =
      elim (Bool-cases (starts_with (from percent_encode prefix) j)) [
        | inr q ↦ rw q (left_kept fs m k x c.1 g)
        | inl q ↦ rw q (
            ap (left (sizes fs (keys_with_prefix (from percent_encode prefix) m)) k)
              (ap (λ (z : Text). without_old upto z k (seq_of z) x) c.0 ∙ kept_step j k x q g)
            ∙ left_kept fs m k x c.1 g)
      ]

  gone_step :
      (j k : Text) (x : Option ℕ)
      → j ≡ k
      → is_old upto (seq_of k) ≡ true
      → without_old upto j k (seq_of j) x ≡ none
  unfolding without_old
  gone_step j k x same old =
      rw (ap (λ (z : Text). is_old upto (seq_of z)) same ∙ old)
        (ite_yes (Text-discrete j k) none x same)

  -- A key that is to go is gone behind the loop, if it is there.
  left_gone :
      (fs : MemFs) (m : Table Text ℕ) (k : Text) (id : ℕ) (x : Option ℕ)
      → AreCanonical m
      → goes k ≡ true
      → Table.get Text-discrete k m ≡ some id
      → left (sizes fs (keys_with_prefix (from percent_encode prefix) m)) k x ≡ none
  unfolding keys_with_prefix sizes Table.get
  left_gone fs [] k id x c g e = absurd (none_ne_some e)
  left_gone fs ((j, i) ∷ m) k id x c g e =
      by_key (Text-discrete j k) (λ x' there. left_gone fs m k id x' c.1 g there)
    where
      rest : List (Text × ℕ)
      rest = sizes fs (keys_with_prefix (from percent_encode prefix) m)

      by_key :
          (d : Dec (j ≡ k))
          → ((x' : Option ℕ) → Table.get Text-discrete k m ≡ some id → left rest k x' ≡ none)
          → left (sizes fs (keys_with_prefix (from percent_encode prefix) ((j, i) ∷ m))) k x ≡ none
      by_key (yes same) again =
          rw
            (ap (starts_with (from percent_encode prefix)) same
              ∙ and_left (starts_with (from percent_encode prefix) k) (is_old upto (seq_of k)) g)
            (ap (left rest k) (
                ap (λ (z : Text). without_old upto z k (seq_of z) x) c.0
                ∙ gone_step j k x same (
                    and_right (starts_with (from percent_encode prefix) k) (is_old upto (seq_of k))
                      g))
              ∙ left-none rest k)
      by_key (no n) again =
          let there : Table.get Text-discrete k m ≡ some id =
            sym (ite_no (Text-discrete j k) (some i) (Table.get Text-discrete k m) n) ∙ e in
          elim (Bool-cases (starts_with (from percent_encode prefix) j)) [
            | inr q ↦ rw q (again x there)
            | inl q ↦ rw q (
                again
                  (without_old upto (from percent_encode j) k (seq_of (from percent_encode j)) x)
                  there)
          ]

  -- What is left at a path in all.
  left-goes :
      (fs : MemFs) (k : Text) (o : Option ℕ)
      → AreCanonical fs.objects
      → find k fs ≡ o
      → left (sizes fs (keys_with_prefix (from percent_encode prefix) fs.objects)) k (find k fs)
        ≡ (if goes k then none else find k fs)
  left-goes fs k o c e = elim (Bool-cases (goes k)) [
    | inr q ↦ rw q (left_kept fs fs.objects k (find k fs) c q)
    | inl q ↦ rw q (by_entry o e q)
  ]
    where
      by_entry :
          (o' : Option ℕ)
          → find k fs ≡ o'
          → goes k ≡ true
          → left (sizes fs (keys_with_prefix (from percent_encode prefix) fs.objects)) k (find k fs)
            ≡ none
      by_entry (some id) f q = left_gone fs fs.objects k id (find k fs) c q f
      by_entry none f q =
          ap (left (sizes fs (keys_with_prefix (from percent_encode prefix) fs.objects)) k) f
          ∙ left-none (sizes fs (keys_with_prefix (from percent_encode prefix) fs.objects)) k

  -- Over an in-memory file system whose keys the second encoding leaves alone: delete_upto answers Ok,
  -- and removes exactly the paths that start with the prefix and are named for a segment not above the
  -- bound; every other path leads where it led.
  pub delete_upto-goes :
      (fs : MemFs)
      → AreCanonical fs.objects
      → (fs' : MemFs) × (delete_upto
            (mem_files percent_encode)
            mem_cas
            percent_encode
            prefix
            upto
            fs
          ≡ (ok tt, fs'))
        × ((k : Text) → find k fs' ≡ (if goes k then none else find k fs))
  unfolding delete_upto converted of_io Memory.list
  delete_upto-goes fs c =
      let (fs', e, at) =
        remove_upto-Leaves (sizes fs (keys_with_prefix (from percent_encode prefix) fs.objects))
          fs in
      (fs', e, λ k. at k ∙ left-goes fs k (find k fs) c refl)
