-- ===== src/ConsoleClient/Typing.antt =====
-- What the console client sends of the lines that are typed, in any order of its threads' turns.
use network_broker.Prelude.{
  ◌≡◌, ◌∙◌, refl, sym, ap, Text, codes, Bool, true, false, not, ◌||◌, none, some, List, [], ◌∷◌,
  ◌++◌, append_assoc, append-nil, is_empty, if◌then◌else◌, text_eq, ◌==◌, take, take_rest, arith,
  Bool-cases, inl, inr,
}
use network_broker.Prelude.Streams.{getline, after_line}
use network_broker.Prelude.Cut.{cut, all_lines, all_lines-getline, join_lines}
use network_broker.ConsoleClient.{
  Console, WriteResult, written, failed, eof, operation_aborted, other_error, line_end, write_turn,
  receive, read_failed, print_line, run, Step, writes, receives, prints, fails, Steps, here, next,
}

-- The lines before the first `exit`, and whether there is one.
unfoldable before_exit : List Text → List Text
before_exit [] = []
before_exit (line ∷ lines) =
    let rest = before_exit lines in if line == codes "exit" then [] else line ∷ rest

unfoldable has_exit : List Text → Bool
has_exit [] = false
has_exit (line ∷ lines) = line == codes "exit" || has_exit lines

-- What a client that is given some input has to send.
unfoldable pub to_send : Text → Text
unfolding join_lines before_exit
to_send input = join_lines (before_exit (all_lines input))

unfoldable pub exit_typed : Text → Bool
unfolding has_exit
exit_typed input = has_exit (all_lines input)

-- The client still sends, what is left of its input being what it has not yet sent; or it has stopped
-- at an error of the socket, which it reports, in the middle of it; or all is sent, and the socket
-- closed where an `exit` was typed.
pub data IsSent (input : Text) (c : Console) : Type 0 where
  sending :
      c.is_writing ≡ true
      → c.is_open ≡ true
      → exit_typed c.input ≡ exit_typed input
      → c.sent ++ to_send c.input ≡ to_send input
      → IsSent input c
  broken :
      (unsent : Text)
      → c.is_writing ≡ false
      → is_empty c.err ≡ false
      → c.sent ++ unsent ≡ to_send input
      → IsSent input c
  complete :
      c.is_writing ≡ false
      → c.is_open ≡ not (exit_typed input)
      → c.sent ≡ to_send input
      → IsSent input c

is_empty-append : (s t : Text) → is_empty t ≡ false → is_empty (s ++ t) ≡ false
is_empty-append [] t h = h
is_empty-append (b ∷ s) t h = refl

nothing_to_send : (s : Text) → is_empty s ≡ true → (to_send s ≡ []) × (exit_typed s ≡ false)
unfolding to_send exit_typed all_lines cut
nothing_to_send [] h = (refl, refl)
nothing_to_send (c ∷ s) h = absurd (ground (arith, h))

exit_to_send :
    (s : Text)
    → is_empty s ≡ false
    → (getline s == codes "exit") ≡ true
    → (to_send s ≡ []) × (exit_typed s ≡ true)
unfolding to_send exit_typed
exit_to_send s h e = let lines = all_lines-getline s h in ground (arith, lines, e)

line_to_send :
    (s : Text)
    → is_empty s ≡ false
    → (getline s == codes "exit") ≡ false
    → (to_send s ≡ (getline s ++ line_end) ++ to_send (after_line s))
      × (exit_typed s ≡ exit_typed (after_line s))
unfolding to_send exit_typed
line_to_send s h e = let lines = all_lines-getline s h in ground (arith, lines, e)

module _ (input : Text) (c c' : Console) where
  module _ (on : c.is_writing ≡ true) (opened : c.is_open ≡ true)
      (exits : exit_typed c.input ≡ exit_typed input)
      (left : c.sent ++ to_send c.input ≡ to_send input) where
    all_sent : to_send c.input ≡ [] → c.sent ≡ to_send input
    all_sent nothing = sym (append-nil c.sent) ∙ ap (λ x. c.sent ++ x) (sym nothing) ∙ left

    line_left :
        is_empty c.input ≡ false
        → (getline c.input == codes "exit") ≡ false
        → c.sent ++ ((getline c.input ++ line_end) ++ to_send (after_line c.input)) ≡ to_send input
    line_left more other = ap (λ x. c.sent ++ x) (sym (line_to_send c.input more other).0) ∙ left

    input_over :
        (result : WriteResult)
        → is_empty c.input ≡ true
        → write_turn result c ≡ some c'
        → IsSent input c'
    unfolding write_turn
    input_over result over e =
        let (nothing, no_exit) = nothing_to_send c.input over in
        let same : (c'.is_writing ≡ false) × (c'.is_open ≡ true) × (c'.sent ≡ c.sent) =
          ground arith in
        complete same.0 (ground (arith, same, exits, no_exit)) (same.2 ∙ all_sent nothing)

    exit_read :
        (result : WriteResult)
        → is_empty c.input ≡ false
        → (getline c.input == codes "exit") ≡ true
        → write_turn result c ≡ some c'
        → IsSent input c'
    unfolding write_turn
    exit_read result more typed e =
        let (nothing, exit) = exit_to_send c.input more typed in
        let same : (c'.is_writing ≡ false) × (c'.is_open ≡ false) × (c'.sent ≡ c.sent) =
          ground arith in
        complete same.0 (ground (arith, same, exits, exit)) (same.2 ∙ all_sent nothing)

    line_read :
        (result : WriteResult)
        → is_empty c.input ≡ false
        → (getline c.input == codes "exit") ≡ false
        → write_turn result c ≡ some c'
        → IsSent input c'
    unfolding write_turn
    line_read written more other e =
        let (_, same_exit) = line_to_send c.input more other in
        let same : (c'.is_writing ≡ true)
            × (c'.is_open ≡ true)
            × (c'.input ≡ after_line c.input)
            × (c'.sent ≡ c.sent ++ getline c.input ++ line_end) =
          ground arith in
        sending same.0 same.1 (ground (arith, same, exits, same_exit)) (
          ap (λ x. x ++ to_send c'.input) same.3
          ∙ ap (λ x. (c.sent ++ getline c.input ++ line_end) ++ to_send x) same.2
          ∙ ap (λ x. x ++ to_send (after_line c.input))
              (append_assoc c.sent (getline c.input) line_end)
          ∙ append_assoc c.sent (getline c.input ++ line_end) (to_send (after_line c.input))
          ∙ line_left more other)
    line_read (failed n message) more other e =
        let (rest, whole) = take_rest n (getline c.input ++ line_end) in
        let same : (c'.is_writing ≡ false)
            × (c'.sent ≡ c.sent ++ take n (getline c.input ++ line_end))
            × (c'.err ≡ c.err ++ (codes "Write error: " ++ message ++ line_end)) =
          ground arith in
        broken (rest ++ to_send (after_line c.input)) same.0
          (ap is_empty same.2
            ∙ is_empty-append c.err (codes "Write error: " ++ message ++ line_end) refl)
          (ap (λ x. x ++ (rest ++ to_send (after_line c.input))) same.1
            ∙ append_assoc c.sent (take n (getline c.input ++ line_end)) _
            ∙ ap (λ x. c.sent ++ x)
                (sym (append_assoc (take n (getline c.input ++ line_end)) rest _)
                  ∙ ap (λ x. x ++ to_send (after_line c.input)) whole)
            ∙ line_left more other)

  write_turn-IsSent :
      (result : WriteResult) → write_turn result c ≡ some c' → IsSent input c → IsSent input c'
  unfolding write_turn
  write_turn-IsSent result e (sending on opened exits left) = elim (Bool-cases (is_empty c.input)) [
    | inl over ↦ input_over on opened exits left result over e
    | inr more ↦ elim (Bool-cases (getline c.input == codes "exit")) [
      | inl typed ↦ exit_read on opened exits left result more typed e
      | inr other ↦ line_read on opened exits left result more other e
    ]
  ]
  write_turn-IsSent result e (broken unsent off reported left) = absurd (ground arith)
  write_turn-IsSent result e (complete off closed left) = absurd (ground arith)

  -- A turn that leaves alone what `Write` works on, and takes nothing back from stderr.
  other_turn-IsSent :
      (c'.is_writing ≡ c.is_writing)
        × (c'.is_open ≡ c.is_open)
        × (c'.input ≡ c.input)
        × (c'.sent ≡ c.sent)
        × (is_empty c.err ≡ false → is_empty c'.err ≡ false)
      → IsSent input c
      → IsSent input c'
  other_turn-IsSent same (sending on opened exits left) =
      sending (same.0 ∙ on) (same.1 ∙ opened) (ap exit_typed same.2 ∙ exits)
        (rw (same.2, same.3) left)
  other_turn-IsSent same (broken unsent off reported left) =
      broken unsent (same.0 ∙ off) (same.4 reported) (rw (same.3) left)
  other_turn-IsSent same (complete off closed left) =
      complete (same.0 ∙ off) (same.1 ∙ closed) (same.3 ∙ left)

  Step-IsSent : (bytes : Text) → Step bytes c c' → IsSent input c → IsSent input c'
  unfolding receive print_line read_failed
  Step-IsSent bytes (writes result e) h = write_turn-IsSent result e h
  Step-IsSent bytes (receives _ e) h = other_turn-IsSent (ground arith) h
  Step-IsSent bytes (prints e) h = other_turn-IsSent (ground arith) h
  Step-IsSent bytes (fails eof e) h = other_turn-IsSent (ground arith) h
  Step-IsSent bytes (fails operation_aborted e) h = other_turn-IsSent (ground arith) h
  Step-IsSent bytes (fails (other_error message) e) h =
      let reported = is_empty-append c.err (codes "Read error: " ++ message ++ line_end) refl in
      other_turn-IsSent (ground (arith, reported)) h

-- What a client that has connected sends is right at any time, however its threads take turns: while it
-- sends, what it has sent and what its input still holds make up each line that is typed before an
-- `exit`, or before the end of the input, with a newline; when it has stopped without an error all of
-- that is sent, and the socket is closed if an `exit` was typed and open if not; and when it has stopped
-- at an error, which it has reported, what it has sent is a beginning of that.
pub Steps-IsSent :
    (host port input received : Text) (c : Console)
    → Steps (run host port input none) received c
    → IsSent input c
unfolding run
Steps-IsSent host port input received c here = sending refl refl refl refl
Steps-IsSent host port input received c (next {received = r} {bytes = b} {d = m} before step) =
    Step-IsSent input m c b step (Steps-IsSent host port input r m before)
