-- ===== src/Prelude/IdSet/Order.antt =====
-- `std::unordered_set<ClientId>` in two orders of iteration.
use mathlib.Core.Logic.{inl, inr}
use mathlib.Core.List.{List, Permᴰ}
use mathlib.Core.List.Permᴰ
use mathlib.Core.Path.{◌≡◌, ◌∙◌, refl}
use native.Mathlib.Omega.{arith}
use Prim.Native.Nat.{ℕ}
use network_broker.Prelude.Tests.{Bool-cases, nat_beq}
use network_broker.Prelude.IdSet.{contains, insert, erase, NoRepeat}

pub contains-Permᴰ : (k : ℕ) {ids ids' : List ℕ} → Permᴰ ids ids' → contains k ids ≡ contains k ids'
unfolding contains
contains-Permᴰ k Permᴰ.nil = refl
contains-Permᴰ k (Permᴰ.cons e d) = ground (arith, e, contains-Permᴰ k d)
contains-Permᴰ k (Permᴰ.swap e f) = ground (arith, e, f)
contains-Permᴰ k (Permᴰ.trans d e) = contains-Permᴰ k d ∙ contains-Permᴰ k e

pub NoRepeat-Permᴰ : {ids ids' : List ℕ} → Permᴰ ids ids' → NoRepeat ids → NoRepeat ids'
unfolding contains
NoRepeat-Permᴰ Permᴰ.nil u = tt
NoRepeat-Permᴰ (Permᴰ.cons {a} {b} e d) u =
    (ground (arith, e, u.0, contains-Permᴰ b d), NoRepeat-Permᴰ d u.1)
NoRepeat-Permᴰ (Permᴰ.swap e f) u = ground (arith, e, f, u)
NoRepeat-Permᴰ (Permᴰ.trans d e) u = NoRepeat-Permᴰ e (NoRepeat-Permᴰ d u)

pub insert-Permᴰ :
    (a : ℕ) {ids ids' : List ℕ} → Permᴰ ids ids' → Permᴰ (insert a ids) (insert a ids')
unfolding insert
insert-Permᴰ a {ids} {ids'} d = elim (Bool-cases (contains a ids)) [
  | inl h ↦ ground (arith, h, contains-Permᴰ a d, d)
  | inr h ↦ ground (arith, h, contains-Permᴰ a d, Permᴰ.cons {a = a} refl d)
]

pub erase-Permᴰ : (a : ℕ) {ids ids' : List ℕ} → Permᴰ ids ids' → Permᴰ (erase a ids) (erase a ids')
unfolding erase
erase-Permᴰ a Permᴰ.nil = Permᴰ.nil
erase-Permᴰ a (Permᴰ.cons {a = b} {b = c} e d) = elim (Bool-cases (nat_beq b a)) [
  | inl h ↦ ground (arith, e, h, erase-Permᴰ a d)
  | inr h ↦ ground (arith, e, h, Permᴰ.cons e (erase-Permᴰ a d))
]
erase-Permᴰ a (Permᴰ.swap {a = b} {b = c} {l = s} e f) =
    let same = Permᴰ.refl (erase a s) in
    ground (arith, e, f, same, Permᴰ.cons e same, Permᴰ.cons f same, Permᴰ.swap {l = erase a s} e f)
erase-Permᴰ a (Permᴰ.trans d e) = Permᴰ.trans (erase-Permᴰ a d) (erase-Permᴰ a e)
