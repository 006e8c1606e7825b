-- ===== src/Tests/Values/Fields.antt =====
-- What the operations leave of the fields of an object and the elements of an array.
use network_broker.Prelude.{
  ℕ, zero, suc, ◌≡◌, refl, ap, Text, true, none, some, List, [], ◌∷◌, ◌++◌, if◌then◌else◌, text_beq,
  text_beq_iff, text_eq, arith, All, Bool-cases, inl, inr,
}
use network_broker.Prelude.Assoc
use network_broker.Prelude.Assoc.{find, find-erase}
use network_broker.Json.{remove_at}
use network_broker.Tests.Values.{
  Value, null, empty, string, field, number, nil, cons, is_object, lookup, erase, items, contains,
  is_array, elements, append, as_array, erase_value,
}

pub lookup-erase :
    (key k : Text) (j : Value)
    → lookup k (erase key j) ≡ (if text_beq key k then none else lookup k j)
unfolding lookup erase
lookup-erase key k null = ground arith
lookup-erase key k empty = ground arith
lookup-erase key k (string t) = ground arith
lookup-erase key k (number n) = ground arith
lookup-erase key k nil = ground arith
lookup-erase key k (cons x xs) = ground arith
lookup-erase key k (field i v rest) =
    ground
      (arith, lookup-erase key k rest, text_beq_iff i key, text_beq_iff key k, text_beq_iff i k)

pub erase-is_object : (key : Text) (j : Value) → is_object (erase key j) ≡ true
unfolding erase
erase-is_object key null = refl
erase-is_object key empty = refl
erase-is_object key (string t) = refl
erase-is_object key (number n) = refl
erase-is_object key nil = refl
erase-is_object key (cons x xs) = refl
erase-is_object key (field k v rest) = ground (arith, erase-is_object key rest)

pub find-items : (key : Text) (j : Value) → find key (items j) ≡ lookup key j
unfolding items lookup find
find-items key null = refl
find-items key empty = refl
find-items key (string t) = refl
find-items key (number n) = refl
find-items key nil = refl
find-items key (cons x xs) = refl
find-items key (field k v rest) = ground (arith, find-items key rest, find-erase k key (items rest))

erase-lookup :
    (k : Text) (v rest : Value) (l : List (Text × Value))
    → All (λ i. lookup i.0 rest ≡ some i.1) l
    → All (λ i. lookup i.0 (field k v rest) ≡ some i.1) (Assoc.erase k l)
unfolding lookup Assoc.erase
erase-lookup k v rest [] h = tt
erase-lookup k v rest ((i, u) ∷ l) h = elim (Bool-cases (text_beq k i)) [
  | inl e ↦ ground (arith, e, text_beq_iff k i, text_beq_iff i k, erase-lookup k v rest l h.1)
  | inr e ↦ ground (arith, e, text_beq_iff k i, text_beq_iff i k, erase-lookup k v rest l h.1)
]

pub items-lookup : (j : Value) → All (λ i. lookup i.0 j ≡ some i.1) (items j)
unfolding items lookup
items-lookup null = tt
items-lookup empty = tt
items-lookup (string t) = tt
items-lookup (number n) = tt
items-lookup nil = tt
items-lookup (cons x xs) = tt
items-lookup (field k v rest) = (
  ground (arith, (text_beq_iff k k).1 refl),
  erase-lookup k v rest (items rest) (items-lookup rest),
)

pub lookup-is_object : (key : Text) (j : Value) → contains key j ≡ true → is_object j ≡ true
unfolding lookup
lookup-is_object key null e = cc
lookup-is_object key empty e = refl
lookup-is_object key (string t) e = cc
lookup-is_object key (number n) e = cc
lookup-is_object key nil e = cc
lookup-is_object key (cons x xs) e = cc
lookup-is_object key (field k v rest) e = refl

pub append-elements : (v a : Value) → elements (append v a) ≡ elements a ++ v ∷ []
unfolding elements append
append-elements v null = refl
append-elements v empty = refl
append-elements v (string t) = refl
append-elements v (field k u rest) = refl
append-elements v (number n) = refl
append-elements v nil = refl
append-elements v (cons x xs) = ap (λ l. x ∷ l) (append-elements v xs)

pub append-is_array : (v a : Value) → is_array (append v a) ≡ true
unfolding append
append-is_array v null = refl
append-is_array v empty = refl
append-is_array v (string t) = refl
append-is_array v (field k u rest) = refl
append-is_array v (number n) = refl
append-is_array v nil = refl
append-is_array v (cons x xs) = refl

as_array-elements :
    (a : Value) → (is_array (as_array a) ≡ true) × (elements (as_array a) ≡ elements a)
unfolding elements
as_array-elements null = (refl, refl)
as_array-elements empty = (refl, refl)
as_array-elements (string t) = (refl, refl)
as_array-elements (field k u rest) = (refl, refl)
as_array-elements (number n) = (refl, refl)
as_array-elements nil = (refl, refl)
as_array-elements (cons x xs) = (refl, refl)

pub erase_value-elements :
    (n : ℕ) (a : Value)
    → (is_array (erase_value n a) ≡ true) × (elements (erase_value n a) ≡ remove_at n (elements a))
unfolding elements erase_value remove_at
erase_value-elements zero null = (refl, refl)
erase_value-elements zero empty = (refl, refl)
erase_value-elements zero (string t) = (refl, refl)
erase_value-elements zero (field k u rest) = (refl, refl)
erase_value-elements zero (number m) = (refl, refl)
erase_value-elements zero nil = (refl, refl)
erase_value-elements (suc n) null = (refl, refl)
erase_value-elements (suc n) empty = (refl, refl)
erase_value-elements (suc n) (string t) = (refl, refl)
erase_value-elements (suc n) (field k u rest) = (refl, refl)
erase_value-elements (suc n) (number m) = (refl, refl)
erase_value-elements (suc n) nil = (refl, refl)
erase_value-elements zero (cons x xs) = as_array-elements xs
erase_value-elements (suc n) (cons x xs) = (refl, ap (λ l. x ∷ l) (erase_value-elements n xs).1)

pub nil-elements : elements nil ≡ []
unfolding elements
nil-elements = refl
