-- ===== src/Prelude/Decimal.antt =====
-- `std::to_string` and `std::stoull` on 64-bit unsigned numbers.
use mathlib.Core.Bool.{Bool, true, false, ◌&&◌}
use mathlib.Core.List.{[], ◌∷◌, ◌++◌}
use mathlib.Core.Option.{Option, none, some, some-injective}
use mathlib.Core.Path.{ap, ◌∙◌, sym, ◌≡◌, refl}
use native.Mathlib.Omega.{arith}
use Prim.Native.Nat.{ℕ, zero, suc, ◌+◌, ◌-◌, ◌*◌, ◌/◌, ◌%◌, ◌^◌, ◌<◌}
use network_broker.Prelude.Tests.{if◌then◌else◌, ltb, nat_beq, leb}
use network_broker.Prelude.Lists.{is_empty, Text, All, All-append}
use network_broker.Prelude.Streams.{skip_space}

abbrev is_digit : ℕ → Bool
is_digit c = leb 48 c && leb c 57

-- The decimal digits of a number, of which there are at most so many.
unfoldable to_digits : ℕ → ℕ → Text
to_digits zero n = []
to_digits (suc f) n =
    let rest = to_digits f (n / 10) in
    if ltb n 10 then (48 + n) ∷ [] else rest ++ (48 + n % 10) ∷ []

-- A 64-bit number has at most 20 digits.
unfoldable pub to_string : ℕ → Text
unfolding to_digits
to_string n = to_digits 20 n

-- The number that the digits at the front make, behind those read already.
unfoldable read_digits : ℕ → Text → ℕ
read_digits n [] = n
read_digits n (c ∷ s) =
    let rest = read_digits (n * 10 + (c - 48)) s in if is_digit c then rest else n

-- `none` is an exception: there is no digit, or the number is out of range.
unfoldable read_unsigned : Text → Option ℕ
unfolding read_digits
read_unsigned [] = none
read_unsigned (c ∷ s) =
    let n = read_digits 0 (c ∷ s) in
    if is_digit c then (if ltb n (2 ^ 64) then some n else none) else none

negated : Option ℕ → Option ℕ
negated none = none
negated (some n) = some ((2 ^ 64 - n) % 2 ^ 64)

unfoldable read_signed : Text → Option ℕ
unfolding read_unsigned negated
read_signed [] = none
read_signed (c ∷ s) =
    if nat_beq c 45
    then negated (read_unsigned s)
    else if nat_beq c 43
    then read_unsigned s
    else read_unsigned (c ∷ s)

unfoldable pub stoull : Text → Option ℕ
unfolding read_signed
stoull s = read_signed (skip_space s)

AreDigits : Text → Type 0
AreDigits = All (λ c. is_digit c ≡ true)

to_digits-AreDigits : (f n : ℕ) → AreDigits (to_digits f n)
unfolding to_digits AreDigits
to_digits-AreDigits zero n = tt
to_digits-AreDigits (suc f) n =
    let rest : AreDigits (to_digits f (n / 10)) = to_digits-AreDigits f (n / 10) in
    let last : AreDigits ((48 + n % 10) ∷ []) = (ground arith, tt) in
    let both =
      All-append (λ c. is_digit c ≡ true) (to_digits f (n / 10)) ((48 + n % 10) ∷ []) rest last in
    ground (arith, both)

read_digits-append :
    (n : ℕ) (a b : Text) → AreDigits a → read_digits n (a ++ b) ≡ read_digits (read_digits n a) b
unfolding read_digits AreDigits
read_digits-append n [] b h = refl
read_digits-append n (c ∷ a) b h = ground (arith, read_digits-append (n * 10 + (c - 48)) a b h.1)

read_digits-to_digits : (f n : ℕ) → n < 10 ^ f → read_digits 0 (to_digits f n) ≡ n
unfolding to_digits read_digits
read_digits-to_digits zero n small = ground arith
read_digits-to_digits (suc f) n small =
    let shorter : n / 10 < 10 ^ f = omega arith in
    let ih : read_digits 0 (to_digits f (n / 10)) ≡ n / 10 =
      read_digits-to_digits f (n / 10) shorter in
    let split =
      read_digits-append 0 (to_digits f (n / 10)) ((48 + n % 10) ∷ [])
        (to_digits-AreDigits f (n / 10)) in
    ground (arith, ih, split)

stoull-AreDigits :
    (t : Text)
    → AreDigits t
    → is_empty t ≡ false
    → read_digits 0 t < 2 ^ 64
    → stoull t ≡ some (read_digits 0 t)
unfolding stoull skip_space AreDigits
stoull-AreDigits [] h e small = cc
stoull-AreDigits (c ∷ t) h e small = ground arith

is_empty-snoc : (t : Text) (c : ℕ) → is_empty (t ++ c ∷ []) ≡ false
is_empty-snoc [] c = refl
is_empty-snoc (b ∷ t) c = refl

to_digits-is_empty : (f n : ℕ) → is_empty (to_digits (suc f) n) ≡ false
unfolding to_digits
to_digits-is_empty f n = ground (arith, is_empty-snoc (to_digits f (n / 10)) (48 + n % 10))

-- A 64-bit number that is printed is read back as it was.
pub stoull-to_string : (n : ℕ) → n < 2 ^ 64 → stoull (to_string n) ≡ some n
unfolding to_string
stoull-to_string n small =
    let same : read_digits 0 (to_digits 20 n) ≡ n = read_digits-to_digits 20 n (omega arith) in
    let small' : read_digits 0 (to_digits 20 n) < 2 ^ 64 = rw same small in
    stoull-AreDigits (to_digits 20 n) (to_digits-AreDigits 20 n) (to_digits-is_empty 19 n) small'
    ∙ ap some same

-- So 64-bit numbers that are printed alike are equal.
pub to_string-injective : (m n : ℕ) → m < 2 ^ 64 → n < 2 ^ 64 → to_string m ≡ to_string n → m ≡ n
to_string-injective m n hm hn e =
    let same : some m ≡ some n =
      sym (stoull-to_string m hm) ∙ ap stoull e ∙ stoull-to_string n hn in
    cc

-- What is read has 64 bits.
read_unsigned-lt : (s : Text) (n : ℕ) → read_unsigned s ≡ some n → n < 2 ^ 64
unfolding read_unsigned
read_unsigned-lt [] n e = absurd (ground (arith, e))
read_unsigned-lt (c ∷ s) n e = ground arith

negated-lt : (o : Option ℕ) (n : ℕ) → negated o ≡ some n → n < 2 ^ 64
unfolding negated
negated-lt none n e = absurd (ground (arith, e))
negated-lt (some m) n e =
    let same : (2 ^ 64 - m) % 2 ^ 64 ≡ n = some-injective _ _ e in omega (arith, same)

read_signed-lt : (s : Text) (n : ℕ) → read_signed s ≡ some n → n < 2 ^ 64
unfolding read_signed
read_signed-lt [] n e = absurd (ground (arith, e))
read_signed-lt (c ∷ s) n e =
    ground (arith, negated-lt (read_unsigned s) n, read_unsigned-lt s n, read_unsigned-lt (c ∷ s) n)

pub stoull-lt : (s : Text) (n : ℕ) → stoull s ≡ some n → n < 2 ^ 64
unfolding stoull
stoull-lt s n e = read_signed-lt (skip_space s) n e
