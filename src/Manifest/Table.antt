-- ===== src/Manifest/Table.antt =====
-- `std::collections::HashMap` as the manifest uses it: an association list with one entry for a
-- key. Iteration order is not specified by the standard library; here it is the order of insertion.
use fusio.Base.{◌≡◌, refl, ite, Option, none, some, List, [], ◌∷◌, arith}

abbrev pub Table : Type 0 → Type 0 → Type 0
Table K V = List (K × V)

module _ {K V : Type 0} (key_eq : Discrete K) where
  unfoldable pub get : K → Table K V → Option V
  get k [] = none
  get k ((j, v) ∷ m) = ite (key_eq j k) (some v) (get k m)

  unfoldable pub insert : K → V → Table K V → Table K V
  insert k v [] = (k, v) ∷ []
  insert k v ((j, w) ∷ m) = ite (key_eq j k) ((j, v) ∷ m) ((j, w) ∷ insert k v m)

  unfoldable pub remove : K → Table K V → Table K V
  remove k [] = []
  remove k ((j, v) ∷ m) = let rest = remove k m in ite (key_eq j k) rest ((j, v) ∷ rest)

  pub get-insert :
      (k j : K) (v : V) (m : Table K V) → get j (insert k v m) ≡ ite (key_eq k j) (some v) (get j m)
  unfolding get insert
  get-insert k j v [] = refl
  get-insert k j v ((i, w) ∷ m) = ground (arith, get-insert k j v m)

  pub get-remove : (k j : K) (m : Table K V) → get j (remove k m) ≡ ite (key_eq k j) none (get j m)
  unfolding get remove
  get-remove k j [] = ground arith
  get-remove k j ((i, w) ∷ m) = ground (arith, get-remove k j m)
