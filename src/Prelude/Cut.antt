-- ===== src/Prelude/Cut.antt =====
-- A text as its lines: what reading it line by line gives, in one piece.
use mathlib.Core.Bool.{true, false}
use mathlib.Core.List.{List, [], ◌∷◌, ◌++◌, append_assoc}
use mathlib.Core.Logic.{inl, inr}
use mathlib.Core.Path.{sym, ◌∙◌, ◌≡◌, refl, ap}
use native.Mathlib.Omega.{arith}
use network_broker.Prelude.Tests.{if◌then◌else◌, nat_beq, Bool-cases}
use network_broker.Prelude.Lists.{Text, is_empty, All}
use network_broker.Prelude.Streams.{newline, getline, after_line, has_newline, IsLine}

-- The lines that have their newline, and what follows the last of them.
unfoldable pub cut : Text → List Text × Text
cut [] = ([], [])
cut (c ∷ s) =
    let (lines, rest) = cut s in
    if nat_beq c newline
    then ([] ∷ lines, rest)
    else elim lines [ [] ↦ ([], c ∷ rest) | line ∷ lines' ↦ ((c ∷ line) ∷ lines', rest) ]

abbrev pub full_lines : Text → List Text
full_lines s = (cut s).0

abbrev pub last_part : Text → Text
last_part s = (cut s).1

cut-append :
    (s t : Text)
    → cut (s ++ t) ≡ (full_lines s ++ full_lines (last_part s ++ t), last_part (last_part s ++ t))
unfolding cut
cut-append [] t = refl
cut-append (c ∷ s) t = ground (arith, cut-append s t)

pub full_lines-append :
    (s t : Text) → full_lines (s ++ t) ≡ full_lines s ++ full_lines (last_part s ++ t)
full_lines-append s t = ap (λ x. x.0) (cut-append s t)

pub last_part-append : (s t : Text) → last_part (s ++ t) ≡ last_part (last_part s ++ t)
last_part-append s t = ap (λ x. x.1) (cut-append s t)

pub cut-getline :
    (s : Text)
    → has_newline s ≡ true
    → cut s ≡ (getline s ∷ full_lines (after_line s), last_part (after_line s))
unfolding cut getline after_line has_newline
cut-getline [] h = ground arith
cut-getline (c ∷ s) h = ground (arith, cut-getline s)

pub cut_unfinished : (s : Text) → has_newline s ≡ false → cut s ≡ ([], s)
unfolding cut has_newline
cut_unfinished [] h = refl
cut_unfinished (c ∷ s) h = ground (arith, cut_unfinished s)

unfinished_line : (s : Text) → has_newline s ≡ false → (getline s ≡ s) × (after_line s ≡ [])
unfolding getline after_line has_newline
unfinished_line [] h = (refl, refl)
unfinished_line (c ∷ s) h = ground (arith, unfinished_line s)

-- All that std::getline reads: the full lines, and a last one without its newline.
abbrev with_last : List Text × Text → List Text
with_last (lines, rest) = lines ++ (if is_empty rest then [] else rest ∷ [])

unfoldable pub all_lines : Text → List Text
all_lines s = with_last (cut s)

pub all_lines-getline :
    (s : Text) → is_empty s ≡ false → all_lines s ≡ getline s ∷ all_lines (after_line s)
unfolding all_lines
all_lines-getline s h = elim (Bool-cases (has_newline s)) [
  | inl e ↦ ap with_last (cut-getline s e)
  | inr e ↦
      let (whole, over) = unfinished_line s e in
      let alone : with_last (cut s) ≡ s ∷ [] =
        ap with_last (cut_unfinished s e) ∙ ground (arith, h) in
      let left : with_last (cut (after_line s)) ≡ [] =
        ap (λ x. with_last (cut x)) over ∙ (unfold cut in refl) in
      cc (alone, left, whole)
]

-- The lines as one text, each with its newline.
unfoldable pub join_lines : List Text → Text
join_lines [] = []
join_lines (line ∷ lines) = (line ++ newline ∷ []) ++ join_lines lines

cut-append_line :
    (line s : Text)
    → IsLine line
    → cut ((line ++ newline ∷ []) ++ s) ≡ (line ∷ full_lines s, last_part s)
unfolding cut
cut-append_line [] s h = refl
cut-append_line (c ∷ line) s h = ground (arith, cut-append_line line s h.1)

pub full_lines-join_lines :
    (lines : List Text) → All IsLine lines → full_lines (join_lines lines) ≡ lines
unfolding join_lines cut
full_lines-join_lines [] h = refl
full_lines-join_lines (line ∷ lines) h =
    ap (λ x. x.0) (cut-append_line line (join_lines lines) h.0)
    ∙ ap (λ x. line ∷ x) (full_lines-join_lines lines h.1)

pub join_lines-append : (ks ls : List Text) → join_lines (ks ++ ls) ≡ join_lines ks ++ join_lines ls
unfolding join_lines
join_lines-append [] ls = refl
join_lines-append (k ∷ ks) ls =
    ap (λ x. (k ++ newline ∷ []) ++ x) (join_lines-append ks ls)
    ∙ sym (append_assoc (k ++ newline ∷ []) (join_lines ks) (join_lines ls))
