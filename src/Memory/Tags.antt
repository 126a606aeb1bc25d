-- ===== src/Memory/Tags.antt =====
-- The conditional put of the in-memory file system is a compare-and-swap, and its tags are fresh.
use fusio.Base.{
  ℕ, zero, suc, ◌+◌, ◌%◌, ◌≤◌, ◌<◌, ◌≡◌, ◌≢◌, ◌∙◌, refl, sym, ap, List, [], ◌∷◌, ◌++◌, length,
  length-append, Option, none, some, Text, Text-discrete, ite, All, arith,
}
use fusio.Effect.{Result, ok, err, spent}
use fusio.Manifest.Types.{FsError, fs_precondition_failed}
use fusio.Manifest.Table
use fusio.Manifest.Table.{Table, get-insert}
use fusio.Memory.{
  EntryState, MemFs, CasCondition, cas_if_not_exists, cas_if_match, entry_at, store_at, find,
  next_count, next_tag, insert_entry, update, loaded, object, put_new, put_matching,
  put_conditional, new_metadata,
}
use fusio.Memory.Hex.{hex16, hex16-injective}

-- The tag is the text of a count that was given out.
abbrev pub Issued : ℕ → EntryState → Type 0
Issued counter e = (n : ℕ) × (n ≤ counter) × (e.etag ≡ hex16 n)

-- The paths lead into the heap, and all tags were given out.
pub record IsWellFormed (fs : MemFs) : Type 0 where
  pub addressed : All (λ (p : Text × ℕ). p.1 < length fs.heap) fs.objects
  pub issued : All (Issued fs.counter) fs.heap

abbrev pub Holds : CasCondition → Option (Text × Text) → Type 0
Holds cas_if_not_exists o = o ≡ none
Holds (cas_if_match t) o = (d : Text) × (o ≡ some (d, t))

-- A put that succeeds found its condition to hold, has stored the payload under a tag that no entry
-- had, and keeps the file system well formed; one that fails has changed nothing.
abbrev pub Cas : Text → Text → CasCondition → MemFs → Result FsError Text × MemFs → Type 0
Cas key payload c fs (ok t, fs') =
    Holds c (object key fs)
    × (object key fs' ≡ some (payload, t))
    × All (λ (e : EntryState). e.etag ≢ t) fs.heap
    × IsWellFormed fs'
Cas key payload c fs (err e, fs') =
    (fs' ≡ fs) × (e ≡ fs_precondition_failed) × (Holds c (object key fs) → ⊥)
Cas key payload c fs (spent, fs') = ⊥

some-ne-none : {A : Type 0} {a : A} → some a ≡ none → ⊥
some-ne-none e = cc

second_eq : {a b c d : Text} → ◌≡◌ {A = Option (Text × Text)} (some (a, b)) (some (c, d)) → b ≡ d
second_eq e = cc

module _ {A : Type 0} where
  pub All-last : (P : A → Type 0) (xs : List A) (x : A) → All P xs → P x → All P (xs ++ (x ∷ []))
  All-last P [] x h p = (p, tt)
  All-last P (y ∷ ys) x h p = (h.0, All-last P ys x h.1 p)

  pub All-imp : (P Q : A → Type 0) (xs : List A) → ((x : A) → P x → Q x) → All P xs → All Q xs
  All-imp P Q [] f h = tt
  All-imp P Q (x ∷ xs) f h = (f x h.0, All-imp P Q xs f h.1)

pub All-store_at :
    (P : EntryState → Type 0) (n : ℕ) (e : EntryState) (xs : List EntryState)
    → All P xs
    → P e
    → All P (store_at n e xs)
All-store_at P n e [] h p = tt
All-store_at P zero e (x ∷ xs) h p = (p, h.1)
All-store_at P (suc n) e (x ∷ xs) h p = (h.0, All-store_at P n e xs h.1 p)

pub length-store_at :
    (n : ℕ) (e : EntryState) (xs : List EntryState) → length (store_at n e xs) ≡ length xs
length-store_at n e [] = refl
length-store_at zero e (x ∷ xs) = refl
length-store_at (suc n) e (x ∷ xs) = omega (arith, length-store_at n e xs)

entry_at-store_at :
    (n : ℕ) (e : EntryState) (xs : List EntryState)
    → n < length xs
    → entry_at n (store_at n e xs) ≡ e
entry_at-store_at n e [] h = absurd (omega arith)
entry_at-store_at zero e (x ∷ xs) h = refl
entry_at-store_at (suc n) e (x ∷ xs) h = entry_at-store_at n e xs (omega arith)

pub entry_at-last :
    (e : EntryState) (xs : List EntryState) → entry_at (length xs) (xs ++ (e ∷ [])) ≡ e
entry_at-last e [] = refl
entry_at-last e (x ∷ xs) = entry_at-last e xs

pub ite_self : {A : Type 0} {k : Text} (d : Dec (k ≡ k)) (a b : A) → ite d a b ≡ a
ite_self (yes p) a b = refl
ite_self (no n) a b = absurd (n refl)

pub get-All :
    (n : ℕ) (key : Text) (id : ℕ) (m : Table Text ℕ)
    → All (λ (p : Text × ℕ). p.1 < n) m
    → Table.get Text-discrete key m ≡ some id
    → id < n
unfolding Table.get
get-All n key id [] h e = cc
get-All n key id ((k, i) ∷ m) h e = ground (arith, get-All n key id m h.1)

pub All-insert :
    (n : ℕ) (key : Text) (id : ℕ) (m : Table Text ℕ)
    → All (λ (p : Text × ℕ). p.1 < n) m
    → id < n
    → All (λ (p : Text × ℕ). p.1 < n) (Table.insert Text-discrete key id m)
unfolding Table.insert
All-insert n key id [] h l = (l, tt)
All-insert n key id ((k, i) ∷ m) h l = ground (arith, All-insert n key id m h.1 l)

-- The text of a later count is no entry's tag.
fresh_lem :
    (counter next : ℕ) (xs : List EntryState)
    → counter < next
    → next < 18446744073709551616
    → All (Issued counter) xs
    → All (λ (e : EntryState). e.etag ≢ hex16 next) xs
fresh_lem counter next xs l u h =
    All-imp (Issued counter) (λ (e : EntryState). e.etag ≢ hex16 next) xs
      (λ e (n, le, tag) q.
        let same : n ≡ next = hex16-injective n next (omega arith) u (sym tag ∙ q) in
        omega (arith, same))
      h

pub later : (a b : ℕ) (xs : List EntryState) → a ≤ b → All (Issued a) xs → All (Issued b) xs
later a b xs l h = All-imp (Issued a) (Issued b) xs (λ e (n, le, tag). (n, omega arith, tag)) h

module _ (key payload : Text) (content_type : Option Text) (metadata : Option (List (Text × Text)))
    (fs : MemFs) (ok_fs : IsWellFormed fs) (room : fs.counter + 2 < 18446744073709551616) where
  put_new-Cas :
      (o : Option ℕ)
      → find key fs ≡ o
      → Cas key payload cas_if_not_exists fs (put_new key payload content_type metadata o fs)
  unfolding put_new next_tag next_count insert_entry object loaded
  put_new-Cas (some id) e = (refl, refl, λ h. some-ne-none (sym (ap (λ o. loaded o fs) e) ∙ h))
  put_new-Cas none e =
      let c1 : (fs.counter + 1) % 18446744073709551616 ≡ fs.counter + 1 = omega arith in
      let c2 : (fs.counter + 1 + 1) % 18446744073709551616 ≡ fs.counter + 2 = omega arith in
      rw (c1, c2)
        (let tag = hex16 (fs.counter + 2) in
          let new : EntryState = record {
            content = payload;
            metadata = new_metadata metadata [];
            content_type = content_type;
            etag = tag;
          } in
          let id = length fs.heap in
          let found : Table.get Text-discrete key (Table.insert Text-discrete key id fs.objects)
              ≡ some id =
            get-insert Text-discrete key key id fs.objects
            ∙ ite_self (Text-discrete key key) (some id) (Table.get Text-discrete key fs.objects) in
          (
            ap (λ o. loaded o fs) e,
            rw (found, entry_at-last new fs.heap) refl,
            fresh_lem fs.counter (fs.counter + 2) fs.heap (omega arith) room ok_fs.issued,
            record {
              addressed = rw (length-append fs.heap (new ∷ [])) (
                  All-insert (length fs.heap + 1) key id fs.objects
                    (All-imp _ _ fs.objects (λ p l. omega arith) ok_fs.addressed) (omega arith));
              issued =
                  All-last (Issued (fs.counter + 2)) fs.heap new
                    (later fs.counter (fs.counter + 2) fs.heap (omega arith) ok_fs.issued)
                    (fs.counter + 2, omega arith, refl);
            },
          ))

  put_matching-Cas :
      (expected : Text) (o : Option ℕ)
      → find key fs ≡ o
      → Cas key payload
          (cas_if_match expected)
          fs
          (put_matching expected payload content_type metadata o fs)
  unfolding put_matching next_tag next_count update object loaded
  put_matching-Cas expected none e =
      (refl, refl, λ h. some-ne-none (sym (h.1) ∙ ap (λ o. loaded o fs) e))
  put_matching-Cas expected (some id) e =
      let c1 : (fs.counter + 1) % 18446744073709551616 ≡ fs.counter + 1 = omega arith in
      let s = entry_at id fs.heap in
      let tag = hex16 (fs.counter + 1) in
      let new : EntryState = record {
        content = payload;
        metadata = new_metadata metadata s.metadata;
        content_type = content_type;
        etag = tag;
      } in
      let inside : id < length fs.heap =
        get-All (length fs.heap) key id fs.objects ok_fs.addressed e in
      rw c1
        (elim (Text-discrete s.etag expected)
          as (λ d. Cas key payload (cas_if_match expected) fs (
            ite d (ok tag, record fs { counter = fs.counter + 1; heap = store_at id new fs.heap })
              (err fs_precondition_failed, fs))) [
                | no n ↦ (refl, refl, λ h. n (second_eq (sym (ap (λ o. loaded o fs) e) ∙ h.1)))
                | yes p ↦ (
                  (s.content, ap (λ o. loaded o fs) e ∙ ap (λ t. some (s.content, t)) p),
                  rw (e, entry_at-store_at id new fs.heap inside) refl,
                  fresh_lem fs.counter (fs.counter + 1) fs.heap (omega arith) (omega arith)
                      ok_fs.issued,
                  record {
                    addressed = rw (length-store_at id new fs.heap) ok_fs.addressed;
                    issued =
                        All-store_at (Issued (fs.counter + 1)) id new fs.heap
                          (later fs.counter (fs.counter + 1) fs.heap (omega arith) ok_fs.issued)
                          (fs.counter + 1, omega arith, refl);
                  },
                )
              ])

  -- From a well-formed file system with room for two more tags: put_conditional succeeds only where
  -- its condition holds of the object at the path, and then the path's object is the payload under a
  -- tag that no entry had before, and the file system is well formed; it fails only with
  -- PreconditionFailed, only where the condition does not hold, and then nothing changes.
  pub put_conditional-Cas :
      (c : CasCondition)
      → Cas key payload c fs (put_conditional key payload content_type metadata c fs)
  unfolding put_conditional
  put_conditional-Cas cas_if_not_exists = put_new-Cas (find key fs) refl
  put_conditional-Cas (cas_if_match expected) = put_matching-Cas expected (find key fs) refl
