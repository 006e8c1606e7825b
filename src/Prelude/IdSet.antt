-- ===== src/Prelude/IdSet.antt =====
-- `std::unordered_set<ClientId>`: a list of ids in the order of iteration.
pub mod Order
use mathlib.Core.Bool.{Bool, false, ◌||◌, ◌&&◌, not}
use mathlib.Core.List.{List, [], ◌∷◌}
use mathlib.Core.Path.{◌≡◌}
use native.Mathlib.Omega.{arith}
use Prim.Native.Nat.{ℕ}
use network_broker.Prelude.Tests.{if◌then◌else◌, nat_beq}

unfoldable pub contains : ℕ → List ℕ → Bool
contains a [] = false
contains a (b ∷ s) = nat_beq b a || contains a s

unfoldable pub insert : ℕ → List ℕ → List ℕ
unfolding contains
insert a s = if contains a s then s else a ∷ s

unfoldable pub erase : ℕ → List ℕ → List ℕ
erase a [] = []
erase a (b ∷ s) = let rest = erase a s in if nat_beq b a then rest else b ∷ rest

pub contains-insert :
    (a b : ℕ) (s : List ℕ) → contains b (insert a s) ≡ (nat_beq a b || contains b s)
unfolding contains insert
contains-insert a b s = ground arith

pub contains-erase :
    (a b : ℕ) (s : List ℕ) → contains b (erase a s) ≡ (not (nat_beq a b) && contains b s)
unfolding contains erase
contains-erase a b [] = ground arith
contains-erase a b (c ∷ s) = ground (arith, contains-erase a b s)

-- No id stands twice.
abbrev pub NoRepeat : List ℕ → Type 0
NoRepeat [] = Unit
NoRepeat (a ∷ s) = (contains a s ≡ false) × NoRepeat s

pub insert-NoRepeat : (a : ℕ) (s : List ℕ) → NoRepeat s → NoRepeat (insert a s)
unfolding insert
insert-NoRepeat a s h = ground arith

pub erase-NoRepeat : (a : ℕ) (s : List ℕ) → NoRepeat s → NoRepeat (erase a s)
unfolding erase
erase-NoRepeat a [] h = tt
erase-NoRepeat a (b ∷ s) h = ground (arith, erase-NoRepeat a s h.1, contains-erase a b s)
