-- ===== src/Tests/Values.antt =====
-- The values of a small JSON library, as data for the tests of the stores, and its operations on them.
pub mod Printing
pub mod Fields
use network_broker.Prelude.{
  ℕ, zero, suc, ◌+◌, ◌≤◌, ◌≡◌, ◌∙◌, refl, ap, sym, Text, codes, length, length-append, Bool, true,
  false, Option, none, some, List, [], ◌∷◌, ◌++◌, if◌then◌else◌, text_beq, text_beq_iff, text_eq,
  nat_beq, arith, All, ◌&&◌, ltb, Bool-cases, Option-cases, inl, inr,
}
use network_broker.Prelude.Assoc
use network_broker.Prelude.Assoc.{find, find-erase}
use network_broker.Json.{Json, JsonLaws, ArrayLaws, member, remove_at}

-- `field` puts a key with its value before the other fields of an object, and `cons` a value before the
-- others of an array.
pub data Value : Type 0 where
  null empty : Value
  string : Text → Value
  field : Text → Value → Value → Value
  number : ℕ → Value
  nil : Value
  cons : Value → Value → Value

abbrev pub is_object : Value → Bool
is_object empty = true
is_object (field k v rest) = true
is_object null = false
is_object (string t) = false
is_object (number n) = false
is_object nil = false
is_object (cons x xs) = false

unfoldable pub lookup : Text → Value → Option Value
lookup key (field k v rest) = if text_beq k key then some v else lookup key rest
lookup key empty = none
lookup key null = none
lookup key (string t) = none
lookup key (number n) = none
lookup key nil = none
lookup key (cons x xs) = none

unfoldable pub erase : Text → Value → Value
erase key null = empty
erase key empty = empty
erase key (string t) = empty
erase key (number n) = empty
erase key nil = empty
erase key (cons x xs) = empty
erase key (field k v rest) =
    let rest' = erase key rest in if text_beq k key then rest' else field k v rest'

unfoldable pub items : Value → List (Text × Value)
unfolding Assoc.erase
items null = []
items empty = []
items (string t) = []
items (number n) = []
items nil = []
items (cons x xs) = []
items (field k v rest) = (k, v) ∷ Assoc.erase k (items rest)

abbrev pub contains : Text → Value → Bool
contains key v = elim (lookup key v) [ none ↦ false | some _ ↦ true ]

abbrev pub entry : Text → Value → Option Value
entry key v = elim (lookup key v) [ none ↦ some null | some u ↦ some u ]

unfoldable pub set : Text → Value → Value → Option Value
set key v j = if is_object j then some (field key v (erase key j)) else none

abbrev pub get_text : Value → Option Text
get_text (string t) = some t
get_text empty = none
get_text null = none
get_text (field k v rest) = none
get_text (number n) = none
get_text nil = none
get_text (cons x xs) = none

abbrev pub is_array : Value → Bool
is_array nil = true
is_array (cons x xs) = true
is_array (number n) = false
is_array null = false
is_array empty = false
is_array (string t) = false
is_array (field k v rest) = false

unfoldable pub elements : Value → List Value
elements (cons x xs) = x ∷ elements xs
elements nil = []
elements (number n) = []
elements null = []
elements empty = []
elements (string t) = []
elements (field k v rest) = []

unfoldable pub append : Value → Value → Value
append v (cons x xs) = cons x (append v xs)
append v nil = cons v nil
append v (number n) = cons v nil
append v null = cons v nil
append v empty = cons v nil
append v (string t) = cons v nil
append v (field k u rest) = cons v nil

abbrev pub as_array : Value → Value
as_array (cons x xs) = cons x xs
as_array nil = nil
as_array (number n) = nil
as_array null = nil
as_array empty = nil
as_array (string t) = nil
as_array (field k v rest) = nil

unfoldable pub erase_value : ℕ → Value → Value
erase_value zero (cons x xs) = as_array xs
erase_value (suc n) (cons x xs) = cons x (erase_value n xs)
erase_value n nil = nil
erase_value n (number m) = nil
erase_value n null = nil
erase_value n empty = nil
erase_value n (string t) = nil
erase_value n (field k v rest) = nil

abbrev pub get_number : Value → Option ℕ
get_number (number n) = some n
get_number nil = none
get_number (cons x xs) = none
get_number null = none
get_number empty = none
get_number (string t) = none
get_number (field k v rest) = none
