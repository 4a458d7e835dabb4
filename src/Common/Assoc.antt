-- ===== src/Common/Assoc.antt =====
-- `std::unordered_map<std::string, V>` as an association list, and the sum of a measure over it.
use Prim.Native.Nat.{ℕ, ◌+◌, ◌≤◌}
use mathlib.Core.Path.{◌≡◌, refl}
use mathlib.Core.Bool.{false}
use mathlib.Core.Option.{Option, none, some}
use mathlib.Core.List.{List, [], ◌∷◌}
use native.Mathlib.Omega.{arith}
use cpp_url_shortener.Common.Tests.{if◌then◌else◌}
use cpp_url_shortener.Common.Text.{Bytes, bytes_eq, bytes_eq_iff}

module _ {ℓ} {V : Type ℓ} where
  -- `m.find(k)`
  unfoldable pub find : Bytes → List (Bytes × V) → Option V
  find k [] = none
  find k ((j, v) ∷ m) = if bytes_eq j k then some v else find k m

  -- `m.erase(k)`
  unfoldable pub erase : Bytes → List (Bytes × V) → List (Bytes × V)
  erase k [] = []
  erase k ((j, v) ∷ m) = if bytes_eq j k then m else (j, v) ∷ erase k m

  -- `m[k] = v`
  unfoldable pub insert : Bytes → V → List (Bytes × V) → List (Bytes × V)
  insert k v [] = (k, v) ∷ []
  insert k v ((j, w) ∷ m) = if bytes_eq j k then (j, v) ∷ m else (j, w) ∷ insert k v m

  -- No key stands twice.
  abbrev pub Distinct : List (Bytes × V) → Type ℓ
  Distinct [] = Unit {ℓ}
  Distinct ((k, v) ∷ m) = (find k m ≡ none) × Distinct m

  pub find-insert :
      (k j : Bytes) (v : V) (m : List (Bytes × V))
      → find j (insert k v m) ≡ (if bytes_eq k j then some v else find j m)
  unfolding find insert
  find-insert k j v [] = refl
  find-insert k j v ((i, w) ∷ m) =
      ground (arith, bytes_eq_iff k j, bytes_eq_iff i k, bytes_eq_iff i j, find-insert k j v m)

  pub find-erase_ne :
      (k j : Bytes) (m : List (Bytes × V)) → bytes_eq k j ≡ false → find j (erase k m) ≡ find j m
  unfolding find erase
  find-erase_ne k j [] h = refl
  find-erase_ne k j ((i, w) ∷ m) h =
      ground (arith, bytes_eq_iff k j, bytes_eq_iff i k, bytes_eq_iff i j, find-erase_ne k j m)

  pub find-erase_self : (k : Bytes) (m : List (Bytes × V)) → Distinct m → find k (erase k m) ≡ none
  unfolding find erase
  find-erase_self k [] d = refl
  find-erase_self k ((i, w) ∷ m) d = ground (arith, bytes_eq_iff i k, find-erase_self k m)

  pub erase_absent : (k : Bytes) (m : List (Bytes × V)) → find k m ≡ none → erase k m ≡ m
  unfolding find erase
  erase_absent k [] h = refl
  erase_absent k ((i, w) ∷ m) h = ground (arith, erase_absent k m)

  pub find-erase-none :
      (k j : Bytes) (m : List (Bytes × V)) → find j m ≡ none → find j (erase k m) ≡ none
  unfolding find erase
  find-erase-none k j [] h = refl
  find-erase-none k j ((i, w) ∷ m) h = ground (arith, find-erase-none k j m)

  pub erase-Distinct : (k : Bytes) (m : List (Bytes × V)) → Distinct m → Distinct (erase k m)
  unfolding erase
  erase-Distinct k [] d = d
  erase-Distinct k ((i, w) ∷ m) d = ground (arith, erase-Distinct k m, find-erase-none k i m)

  pub insert-Distinct :
      (k : Bytes) (v : V) (m : List (Bytes × V)) → Distinct m → Distinct (insert k v m)
  unfolding insert find
  insert-Distinct k v [] d = (refl, d)
  insert-Distinct k v ((i, w) ∷ m) d =
      ground (arith, insert-Distinct k v m, find-insert k i v m, bytes_eq_iff k i, bytes_eq_iff i k)

  module _ (size : V → ℕ) where
    unfoldable pub total : List (Bytes × V) → ℕ
    total [] = 0
    total ((k, v) ∷ m) = size v + total m

    pub total-erase :
        (k : Bytes) (v : V) (m : List (Bytes × V))
        → find k m ≡ some v
        → size v + total (erase k m) ≡ total m
    unfolding find erase total
    total-erase k v [] h = absurd (cc)
    total-erase k v ((i, w) ∷ m) h = ground (arith, total-erase k v m)

    pub total-insert_new :
        (k : Bytes) (v : V) (m : List (Bytes × V))
        → find k m ≡ none
        → total (insert k v m) ≡ size v + total m
    unfolding find insert total
    total-insert_new k v [] h = refl
    total-insert_new k v ((i, w) ∷ m) h = ground (arith, total-insert_new k v m)

    pub total-insert_old :
        (k : Bytes) (v w : V) (m : List (Bytes × V))
        → find k m ≡ some w
        → size w + total (insert k v m) ≡ size v + total m
    unfolding find insert total
    total-insert_old k v w [] h = absurd (cc)
    total-insert_old k v w ((i, u) ∷ m) h = ground (arith, total-insert_old k v w m)

    pub size-le-total :
        (k : Bytes) (v : V) (m : List (Bytes × V)) → find k m ≡ some v → size v ≤ total m
    size-le-total k v m h = omega (arith, total-erase k v m h)
