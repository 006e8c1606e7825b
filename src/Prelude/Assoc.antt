-- ===== src/Prelude/Assoc.antt =====
-- `std::unordered_map`: an association list in the order of iteration.
use mathlib.Core.Bool.{false, true}
use mathlib.Core.List.{List, [], ◌∷◌}
use mathlib.Core.Option.{Option, none, some}
use mathlib.Core.Path.{◌≡◌, refl}
use native.Mathlib.Omega.{arith}
use network_broker.Prelude.Tests.{if◌then◌else◌}
use network_broker.Prelude.Keys.{Key, ◌==◌}

abbrev pub Assoc {ℓ κ} : Type ℓ → Type κ → Type (ℓ ⊔ κ)
Assoc K V = List (K × V)

pub beq_refl {ℓ} : {K : Type ℓ} ⦃e : Key K⦄ (k : K) → (k == k) ≡ true
beq_refl ⦃e⦄ k = (e.same_iff k k).1 refl

module _ {ℓ κ} {K : Type ℓ} {V : Type κ} ⦃e : Key K⦄ where
  -- m.find(k)
  unfoldable pub find : K → Assoc K V → Option V
  find k [] = none
  find k ((j, v) ∷ m) = if j == k then some v else find k m

  -- A write through the reference that `find` or an iteration gave: a missing key stays missing.
  unfoldable pub assign : K → V → Assoc K V → Assoc K V
  assign k v [] = []
  assign k v ((j, w) ∷ m) = if j == k then (j, v) ∷ m else (j, w) ∷ assign k v m

  -- m.emplace(k, v): an existing entry stays as it is.
  unfoldable pub emplace : K → V → Assoc K V → Assoc K V
  unfolding find
  emplace k v m = elim (find k m) [ none ↦ (k, v) ∷ m | some w ↦ m ]

  -- m[k] = v
  unfoldable pub put : K → V → Assoc K V → Assoc K V
  unfolding find assign
  put k v m = elim (find k m) [ none ↦ (k, v) ∷ m | some w ↦ assign k v m ]

  -- m.erase(k)
  unfoldable pub erase : K → Assoc K V → Assoc K V
  erase k [] = []
  erase k ((j, v) ∷ m) = let rest = erase k m in if j == k then rest else (j, v) ∷ rest

  pub find-assign :
      (k j : K) (v : V) (m : Assoc K V)
      → find j (assign k v m)
        ≡ (if k == j then elim (find j m) [ none ↦ none | some _ ↦ some v ] else find j m)
  unfolding find assign
  find-assign k j v [] = ground arith
  find-assign k j v ((i, w) ∷ m) =
      ground (arith, find-assign k j v m, e.same_iff i k, e.same_iff i j, e.same_iff k j)

  -- Writes to two keys in either order.
  pub assign_comm :
      (j k : K) (v w : V) (m : Assoc K V)
      → (j == k) ≡ false
      → assign j v (assign k w m) ≡ assign k w (assign j v m)
  unfolding assign
  assign_comm j k v w [] apart = refl
  assign_comm j k v w ((i, u) ∷ m) apart =
      ground
        (arith, assign_comm j k v w m apart, apart, e.same_iff j k, e.same_iff i j, e.same_iff i k)

  pub find-emplace :
      (k j : K) (v : V) (m : Assoc K V)
      → find j (emplace k v m)
        ≡ elim (find j m) [ none ↦ if k == j then some v else none | some w ↦ some w ]
  unfolding find emplace
  find-emplace k j v m = ground (arith, e.same_iff k j)

  pub find-put :
      (k j : K) (v : V) (m : Assoc K V) → find j (put k v m) ≡ (if k == j then some v else find j m)
  unfolding find put
  find-put k j v m = ground (arith, e.same_iff k j, find-assign k j v m)

  pub find-erase :
      (k j : K) (m : Assoc K V) → find j (erase k m) ≡ (if k == j then none else find j m)
  unfolding find erase
  find-erase k j [] = ground arith
  find-erase k j ((i, w) ∷ m) =
      ground (arith, find-erase k j m, e.same_iff i k, e.same_iff i j, e.same_iff k j)
