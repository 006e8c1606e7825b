-- ===== src/ConsoleClient/Printing.antt =====
-- What the console client prints of the bytes that it receives, in any order of its threads' turns.
use network_broker.Prelude.{
  ◌≡◌, ◌∙◌, refl, sym, ap, Text, true, false, none, some, List, [], ◌∷◌, ◌++◌, append_assoc,
  append-nil, ◌⊎◌, arith, inl, inr,
}
use network_broker.Prelude.Streams.{has_newline, getline, after_line}
use network_broker.Prelude.Cut.{
  full_lines, last_part, full_lines-append, last_part-append, cut-getline, cut_unfinished,
}
use network_broker.ConsoleClient.{
  Console, WriteResult, ReadError, write_turn, receive, read_failed, print_line, shown,
  connected_to, run, is_waiting, Step, writes, receives, prints, fails, Steps, here, next,
}

-- The lines as they are shown, one after the other.
unfoldable pub shown_all : List Text → Text
shown_all [] = []
shown_all (line ∷ lines) = shown line ++ shown_all lines

pub shown_all-append : (ks ls : List Text) → shown_all (ks ++ ls) ≡ shown_all ks ++ shown_all ls
unfolding shown_all
shown_all-append [] ls = refl
shown_all-append (k ∷ ks) ls = rw (shown_all-append ks ls) (simp append_assoc)

-- What has been printed, and what the buffer still has to print, is what was there to print.
pub record IsPrinted (start : Text) (received : Text) (c : Console) : Type 0 where
  pub all : c.out ++ shown_all (full_lines c.buffer) ≡ start ++ shown_all (full_lines received)
  pub rest : last_part c.buffer ≡ last_part received
  pub finished : c.is_reading ≡ false → has_newline c.buffer ≡ false

module _ (start received : Text) (c c' : Console) (h : IsPrinted start received c) where
  write_turn-IsPrinted :
      (result : WriteResult) → write_turn result c ≡ some c' → IsPrinted start received c'
  unfolding write_turn
  write_turn-IsPrinted result e =
      let same : (c'.out ≡ c.out) × (c'.buffer ≡ c.buffer) × (c'.is_reading ≡ c.is_reading) =
        ground arith in
      record {
        all = rw (same.0, same.1) h.all;
        rest = rw (same.1) h.rest;
        finished = rw (same.1, same.2) h.finished;
      }

  receive-IsPrinted :
      (bytes : Text) → receive bytes c ≡ some c' → IsPrinted start (received ++ bytes) c'
  unfolding receive
  receive-IsPrinted bytes e =
      let same : (c'.out ≡ c.out) × (c'.buffer ≡ c.buffer ++ bytes) × (c'.is_reading ≡ true) =
        ground arith in
      record {
        all =
            rw
              (
                same.0,
                same.1,
                full_lines-append c.buffer bytes,
                full_lines-append received bytes,
                shown_all-append (full_lines c.buffer) (full_lines (last_part c.buffer ++ bytes)),
                shown_all-append (full_lines received) (full_lines (last_part received ++ bytes)),
                h.rest,
              )
              (let more = shown_all (full_lines (last_part received ++ bytes)) in
                sym (append_assoc c.out _ more)
                ∙ ap (λ x. x ++ more) h.all
                ∙ append_assoc start _ more);
        rest =
            rw (same.1, last_part-append c.buffer bytes, last_part-append received bytes, h.rest)
              refl;
        finished = λ off. absurd (ground (arith, same.2, off));
      }

  print_line-IsPrinted : print_line c ≡ some c' → IsPrinted start received c'
  unfolding print_line shown_all
  print_line-IsPrinted e =
      let same : (has_newline c.buffer ≡ true)
          × (c'.out ≡ c.out ++ shown (getline c.buffer))
          × (c'.buffer ≡ after_line c.buffer)
          × (c'.is_reading ≡ true) =
        ground arith in
      record {
        all =
            rw (same.1, same.2)
              (append_assoc c.out (shown (getline c.buffer)) _
                ∙ ap (λ x. c.out ++ shown_all x.0) (sym (cut-getline c.buffer same.0))
                ∙ h.all);
        rest = rw (same.2) (ap (λ x. x.1) (sym (cut-getline c.buffer same.0)) ∙ h.rest);
        finished = λ off. absurd (ground (arith, same.3, off));
      }

  read_failed-IsPrinted :
      (error : ReadError) → read_failed error c ≡ some c' → IsPrinted start received c'
  unfolding read_failed
  read_failed-IsPrinted error e =
      let same : (c'.out ≡ c.out) × (c'.buffer ≡ c.buffer) × (has_newline c.buffer ≡ false) =
        ground arith in
      record {
        all = rw (same.0, same.1) h.all;
        rest = rw (same.1) h.rest;
        finished = λ _. rw (same.1) same.2;
      }

Step-IsPrinted :
    (start received bytes : Text) (c c' : Console)
    → Step bytes c c'
    → IsPrinted start received c
    → IsPrinted start (received ++ bytes) c'
Step-IsPrinted start received bytes c c' (writes result e) h =
    rw append-nil (write_turn-IsPrinted start received c c' h result e)
Step-IsPrinted start received bytes c c' (receives _ e) h =
    receive-IsPrinted start received c c' h bytes e
Step-IsPrinted start received bytes c c' (prints e) h =
    rw append-nil (print_line-IsPrinted start received c c' h e)
Step-IsPrinted start received bytes c c' (fails error e) h =
    rw append-nil (read_failed-IsPrinted start received c c' h error e)

pub Steps-IsPrinted :
    (start : Text) (c : Console)
    → IsPrinted start [] c
    → (received : Text) (d : Console) → Steps c received d
    → IsPrinted start received d
Steps-IsPrinted start c h received d here = h
Steps-IsPrinted start c h received d (next {received = r} {bytes = b} {d = m} before step) =
    Step-IsPrinted start r b m d step (Steps-IsPrinted start c h r m before)

-- Once the reading has ended, or waits, the buffer has nothing to print.
pub IsPrinted-idle :
    (start received : Text) (c : Console)
    → IsPrinted start received c
    → (c.is_reading ≡ false) ⊎ (is_waiting c ≡ true)
    → c.out ≡ start ++ shown_all (full_lines received)
unfolding shown_all
IsPrinted-idle start received c h idle =
    let empty : has_newline c.buffer ≡ false = elim idle [
      | inl ended ↦ h.finished ended
      | inr waiting ↦ ground (arith, waiting)
    ] in
    sym (append-nil c.out)
    ∙ ap (λ x. c.out ++ shown_all x.0) (sym (cut_unfinished c.buffer empty))
    ∙ h.all

-- A client that has connected prints the lines of the bytes that it has received: in whatever pieces
-- they have come and however its threads have taken turns, once the reading has ended or waits for
-- more, its output is the line on the connection and then each full line received, in order.
pub Steps-printed :
    (host port input received : Text) (c : Console)
    → Steps (run host port input none) received c
    → (c.is_reading ≡ false) ⊎ (is_waiting c ≡ true)
    → c.out ≡ connected_to host port ++ shown_all (full_lines received)
unfolding run has_newline shown_all
Steps-printed host port input received c steps idle =
    let h =
      Steps-IsPrinted (connected_to host port) (run host port input none)
        (record { all = refl; rest = refl; finished = λ _. refl }) received c steps in
    IsPrinted-idle (connected_to host port) received c h idle
