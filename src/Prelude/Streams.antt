-- ===== src/Prelude/Streams.antt =====
-- `std::istream` over a text: what is left to read is the state of the stream.
use mathlib.Core.Bool.{Bool, false, ◌||◌, ◌&&◌}
use mathlib.Core.List.{[], ◌∷◌, ◌++◌}
use mathlib.Core.Option.{Option, none, some}
use mathlib.Core.Path.{◌≡◌, refl}
use native.Mathlib.Omega.{arith}
use Prim.Native.Nat.{ℕ}
use network_broker.Prelude.Tests.{if◌then◌else◌, nat_beq, leb}
use network_broker.Prelude.Lists.{Text, All, is_empty}

abbrev pub newline : ℕ
newline = 10

abbrev pub space : ℕ
space = 32

-- `std::isspace` in the "C" locale.
abbrev pub is_space : ℕ → Bool
is_space c = nat_beq c space || (leb 9 c && leb c 13)

unfoldable pub skip_space : Text → Text
skip_space [] = []
skip_space (c ∷ s) = if is_space c then skip_space s else c ∷ s

-- The word at the front, and what follows it.
unfoldable pub split_word : Text → Text × Text
split_word [] = ([], [])
split_word (c ∷ s) = let (w, r) = split_word s in if is_space c then ([], c ∷ s) else (c ∷ w, r)

-- is >> word: `none` where the stream fails, since it has no word left.
unfoldable pub extract : Text → Option (Text × Text)
unfolding skip_space split_word
extract s = elim (skip_space s) [ [] ↦ none | c ∷ r ↦ some (split_word (c ∷ r)) ]

-- std::getline: the text up to the first newline, which is taken and dropped.
unfoldable pub getline : Text → Text
getline [] = []
getline (c ∷ s) = let rest = getline s in if nat_beq c newline then [] else c ∷ rest

-- What is left of the stream then.
unfoldable pub after_line : Text → Text
after_line [] = []
after_line (c ∷ s) = let rest = after_line s in if nat_beq c newline then s else rest

unfoldable pub has_newline : Text → Bool
has_newline [] = false
has_newline (c ∷ s) = nat_beq c newline || has_newline s

-- A text with no byte of white space, and one with no newline.
abbrev pub IsWord : Text → Type 0
IsWord = All (λ c. is_space c ≡ false)

abbrev pub IsLine : Text → Type 0
IsLine = All (λ c. nat_beq c newline ≡ false)

pub getline-IsLine : (s : Text) → IsLine s → getline s ≡ s
unfolding getline
getline-IsLine [] h = refl
getline-IsLine (c ∷ s) h = ground (arith, getline-IsLine s h.1)

-- A line is read up to its newline, whatever follows.
pub getline-append_line : (s r : Text) → IsLine s → getline (s ++ newline ∷ r) ≡ s
unfolding getline
getline-append_line [] r h = refl
getline-append_line (c ∷ s) r h = ground (arith, getline-append_line s r h.1)

split_word-append : (w r : Text) → IsWord w → split_word (w ++ space ∷ r) ≡ (w, space ∷ r)
unfolding split_word
split_word-append [] r h = refl
split_word-append (c ∷ w) r h = ground (arith, split_word-append w r h.1)

split_word-whole : (w : Text) → IsWord w → split_word w ≡ (w, [])
unfolding split_word
split_word-whole [] h = refl
split_word-whole (c ∷ w) h = ground (arith, split_word-whole w h.1)

pub extract-append :
    (w r : Text) → is_empty w ≡ false → IsWord w → extract (w ++ space ∷ r) ≡ some (w, space ∷ r)
unfolding extract
extract-append [] r e h = cc
extract-append (c ∷ w) r e h = ground (arith, split_word-append w r h.1)

pub extract-whole : (w : Text) → is_empty w ≡ false → IsWord w → extract w ≡ some (w, [])
unfolding extract
extract-whole [] e h = cc
extract-whole (c ∷ w) e h = ground (arith, split_word-whole w h.1)

pub IsLine-getline : (s : Text) → IsLine (getline s)
unfolding getline
IsLine-getline [] = tt
IsLine-getline (c ∷ s) = ground (arith, IsLine-getline s)

split_word-IsWord : (s : Text) → IsWord (split_word s).0
unfolding split_word
split_word-IsWord [] = tt
split_word-IsWord (c ∷ s) = ground (arith, split_word-IsWord s)

skip_space-head : (s r : Text) (c : ℕ) → skip_space s ≡ c ∷ r → is_space c ≡ false
unfolding skip_space
skip_space-head [] r c e = cc
skip_space-head (d ∷ s) r c e = ground (arith, skip_space-head s r c)

-- What `extract` gives is a word that is not empty.
pub extract-IsWord : (s w r : Text) → extract s ≡ some (w, r) → (is_empty w ≡ false) × IsWord w
unfolding extract
extract-IsWord s w r e = from (skip_space s) refl e
  where
    from :
        (t : Text)
        → skip_space s ≡ t
        → elim t as (λ _. Option (Text × Text)) [ [] ↦ none | c ∷ r ↦ some (split_word (c ∷ r)) ]
          ≡ some (w, r)
        → (is_empty w ≡ false) × IsWord w
    from [] skipped e = cc
    from (c ∷ t) skipped e =
        ground (arith, skip_space-head s t c skipped, split_word-IsWord (c ∷ t), split_word)
