-- ===== src/Tests/Values/Printing.antt =====
-- A format in which every value starts with a tag, and what is read back from it.
use network_broker.Prelude.{
  ℕ, zero, suc, ◌+◌, ◌≤◌, ◌≡◌, refl, Text, codes, length, length-append, Bool, true, false, Option,
  none, some, [], ◌∷◌, ◌++◌, if◌then◌else◌, text_beq, text_eq, arith, ◌&&◌, ltb,
}
use network_broker.Tests.Values.{Value, null, empty, string, field, number, nil, cons}

abbrev pub is_ascii : Text → Bool
is_ascii [] = true
is_ascii (c ∷ t) = ltb c 128 && is_ascii t

-- Texts that hold a byte over 127 are refused, as bytes that make no UTF-8 are.
abbrev pub is_printable : Value → Bool
is_printable null = true
is_printable empty = true
is_printable (string t) = is_ascii t
is_printable (field k v rest) = is_printable v && is_printable rest
is_printable (number n) = true
is_printable nil = true
is_printable (cons x xs) = is_printable x && is_printable xs

unfoldable pub print : Value → Text → Text
print null r = 0 ∷ r
print empty r = 1 ∷ r
print (string t) r = 2 ∷ length t ∷ t ++ r
print (field k v rest) r = 3 ∷ length k ∷ k ++ print v (print rest r)
print (number n) r = 4 ∷ n ∷ r
print nil r = 5 ∷ r
print (cons x xs) r = 6 ∷ print x (print xs r)

unfoldable pub take : ℕ → Text → Option (Text × Text)
take zero s = some ([], s)
take (suc n) [] = none
take (suc n) (c ∷ s) = elim (take n s) [ none ↦ none | some (t, r) ↦ some (c ∷ t, r) ]

unfoldable pub scan : ℕ → Text → Option (Value × Text)
scan zero s = none
scan (suc f) [] = none
scan (suc f) (zero ∷ s) = some (null, s)
scan (suc f) (suc zero ∷ s) = some (empty, s)
scan (suc f) (suc (suc zero) ∷ []) = none
scan (suc f) (suc (suc zero) ∷ n ∷ s) = elim (take n s) [
  | none ↦ none
  | some (t, r) ↦ some (string t, r)
]
scan (suc f) (suc (suc (suc zero)) ∷ []) = none
scan (suc f) (suc (suc (suc zero)) ∷ m ∷ s) = elim (take m s) [
  | none ↦ none
  | some (k, r) ↦ elim (scan f r) [
    | none ↦ none
    | some (v, r') ↦ elim (scan f r') [
      | none ↦ none
      | some (rest, r'') ↦ some (field k v rest, r'')
    ]
  ]
]
scan (suc f) (suc (suc (suc (suc zero))) ∷ []) = none
scan (suc f) (suc (suc (suc (suc zero))) ∷ n ∷ s) = some (number n, s)
scan (suc f) (suc (suc (suc (suc (suc zero)))) ∷ s) = some (nil, s)
scan (suc f) (suc (suc (suc (suc (suc (suc n))))) ∷ s) = elim (scan f s) [
  | none ↦ none
  | some (x, r) ↦ elim (scan f r) [ none ↦ none | some (xs, r') ↦ some (cons x xs, r') ]
]

abbrev pub parse_scanned : Option (Value × Text) → Option Value
parse_scanned none = none
parse_scanned (some (v, r)) = some v

unfoldable pub parse : Text → Option Value
unfolding scan
parse s = if text_beq s (codes "{}") then some empty else parse_scanned (scan (length s) s)

take-append : (t r : Text) → take (length t) (t ++ r) ≡ some (t, r)
unfolding take
take-append [] r = refl
take-append (c ∷ t) r = ground (arith, take-append t r)

abbrev depth : Value → ℕ
depth null = 1
depth empty = 1
depth (string t) = 1
depth (field k v rest) = suc (depth v + depth rest)
depth (number n) = 1
depth nil = 1
depth (cons x xs) = suc (depth x + depth xs)

scan-print : (f : ℕ) (v : Value) (r : Text) → depth v ≤ f → scan f (print v r) ≡ some (v, r)
unfolding scan print
scan-print zero null r h = absurd (omega arith)
scan-print zero empty r h = absurd (omega arith)
scan-print zero (string t) r h = absurd (omega arith)
scan-print zero (field k v rest) r h = absurd (omega arith)
scan-print zero (number n) r h = absurd (omega arith)
scan-print zero nil r h = absurd (omega arith)
scan-print zero (cons x xs) r h = absurd (omega arith)
scan-print (suc f) null r h = refl
scan-print (suc f) empty r h = refl
scan-print (suc f) (string t) r h = ground (arith, take-append t r)
scan-print (suc f) (field k v rest) r h =
    let first : scan f (print v (print rest r)) ≡ some (v, print rest r) =
      scan-print f v (print rest r) (omega arith) in
    let second : scan f (print rest r) ≡ some (rest, r) = scan-print f rest r (omega arith) in
    ground (arith, take-append k (print v (print rest r)), first, second)
scan-print (suc f) (number n) r h = refl
scan-print (suc f) nil r h = refl
scan-print (suc f) (cons x xs) r h =
    let first : scan f (print x (print xs r)) ≡ some (x, print xs r) =
      scan-print f x (print xs r) (omega arith) in
    let second : scan f (print xs r) ≡ some (xs, r) = scan-print f xs r (omega arith) in
    ground (arith, first, second)

print-depth : (v : Value) (r : Text) → depth v + length r ≤ length (print v r)
unfolding print
print-depth null r = omega arith
print-depth empty r = omega arith
print-depth (string t) r = ground (arith, length-append t r)
print-depth (field k v rest) r = ground (
  arith,
  length-append k (print v (print rest r)),
  print-depth v (print rest r),
  print-depth rest r,
)
print-depth (number n) r = omega arith
print-depth nil r = omega arith
print-depth (cons x xs) r = ground (arith, print-depth x (print xs r), print-depth xs r)

print-braces : (v : Value) → text_beq (print v []) (codes "{}") ≡ false
unfolding print
print-braces null = refl
print-braces empty = refl
print-braces (string t) = refl
print-braces (field k v rest) = refl
print-braces (number n) = refl
print-braces nil = refl
print-braces (cons x xs) = refl

pub parse-print : (v : Value) → parse (print v []) ≡ some v
unfolding parse
parse-print v =
    let scanned : scan (length (print v [])) (print v []) ≡ some (v, []) =
      scan-print (length (print v [])) v [] (omega (arith, print-depth v [])) in
    ground (arith, print-braces v, scanned)

pub parse_braces : parse (codes "{}") ≡ some empty
unfolding parse
parse_braces = refl

pub parse_nothing : parse [] ≡ none
unfolding parse
parse_nothing = refl
