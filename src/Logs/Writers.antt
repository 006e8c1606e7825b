-- ===== src/Logs/Writers.antt =====
-- The queues of the two writers: what is pushed comes out, in order, and all of it before the thread
-- ends.
use network_broker.Prelude.{
  ◌≢◌, ℕ, zero, suc, ◌≡◌, ◌∙◌, refl, Text, Bool, true, false, List, [], ◌∷◌, ◌++◌, arith,
  append-nil, append_assoc, ap, sym,
}
use network_broker.Logs.{
  Phase, testing, popping, returned, writing, Writer, turn, push, ask_to_stop,
}

-- What can happen to a writer, in any order.
pub data Event : Type 0 where
  turns stops : Event
  pushes : Text → Event

unfoldable pub step : Event → Writer → Writer
unfolding turn push ask_to_stop
step turns w = turn w
step stops w = ask_to_stop w
step (pushes msg) w = push msg w

unfoldable pub run : List Event → Writer → Writer
unfolding step
run [] w = w
run (e ∷ es) w = run es (step e w)

unfoldable pub pushed : List Event → List Text
pushed [] = []
pushed (turns ∷ es) = pushed es
pushed (stops ∷ es) = pushed es
pushed (pushes msg ∷ es) = msg ∷ pushed es

-- The message that the thread has taken from the queue.
abbrev pub held : Phase → List Text
held (writing message) = message ∷ []
held testing = []
held popping = []
held returned = []

-- All that a writer has had: written, taken, queued.
abbrev pub passed : Writer → List Text
passed w = w.lines ++ held w.phase ++ w.queue

writer : List Text → Bool → Phase → List Text → Writer
writer queue stop phase lines = record { queue = queue; stop = stop; phase = phase; lines = lines }

pub turn-passed : (w : Writer) → passed (turn w) ≡ passed w
unfolding turn writer
turn-passed w = by_phase w.phase w.queue w.stop w.lines
  where
    by_phase :
        (phase : Phase) (queue : List Text) (stop : Bool) (lines : List Text)
        → passed (turn (writer queue stop phase lines)) ≡ passed (writer queue stop phase lines)
    by_phase testing queue stop lines = ground arith
    by_phase popping [] stop lines = refl
    by_phase popping (msg ∷ rest) stop lines =
        append_assoc lines (msg ∷ []) rest ∙ sym (ap (λ l. l ++ msg ∷ rest) (append-nil lines))
    by_phase returned queue stop lines = refl
    by_phase (writing msg) queue stop lines = ap (λ l. l ++ queue) (append-nil (lines ++ msg ∷ []))

pub push-passed : (msg : Text) (w : Writer) → passed (push msg w) ≡ passed w ++ msg ∷ []
unfolding push
push-passed msg w = sym (append_assoc (w.lines ++ held w.phase) w.queue (msg ∷ []))

-- Whatever the thread of a writer and the others do, and in whatever order: what is written, then
-- what the thread holds, then what is queued, is what there was before, followed by the messages
-- pushed, in order. So no message is lost, doubled or overtaken.
passed-run : (es : List Event) (w : Writer) → passed (run es w) ≡ passed w ++ pushed es
unfolding run step pushed ask_to_stop
passed-run [] w = sym (append-nil (passed w))
passed-run (turns ∷ es) w = passed-run es (turn w) ∙ ap (λ l. l ++ pushed es) (turn-passed w)
passed-run (stops ∷ es) w = passed-run es (ask_to_stop w)
passed-run (pushes msg ∷ es) w =
    passed-run es (push msg w)
    ∙ ap (λ l. l ++ pushed es) (push-passed msg w)
    ∙ append_assoc (passed w) (msg ∷ []) (pushed es)

-- So many turns of the thread.
abbrev pub only_turns : ℕ → List Event
only_turns zero = []
only_turns (suc n) = turns ∷ only_turns n

-- Enough turns for a queue, from the test of the loop.
abbrev cost : List Text → ℕ
cost [] = 1
cost (msg ∷ queue) = suc (suc (suc (cost queue)))

-- Enough turns for a writer.
abbrev pub turns_needed : Phase → List Text → ℕ
turns_needed testing queue = cost queue
turns_needed popping [] = 2
turns_needed popping (msg ∷ queue) = suc (suc (cost queue))
turns_needed returned queue = 0
turns_needed (writing msg) queue = suc (cost queue)

abbrev pub IsFinished : Writer → List Text → Type 0
IsFinished w lines = (w.phase ≡ returned) × (w.queue ≡ []) × (w.lines ≡ lines)

drain_testing :
    (queue lines : List Text)
    → IsFinished (run (only_turns (cost queue)) (writer queue true testing lines)) (lines ++ queue)
unfolding run step turn writer
drain_testing [] lines = (refl, refl, sym (append-nil lines))
drain_testing (msg ∷ queue) lines =
    let (e, e', e'') = drain_testing queue (lines ++ msg ∷ []) in
    (e, e', e'' ∙ append_assoc lines (msg ∷ []) queue)

-- A writer that has been asked to stop ends: after as many turns of its thread as it needs, the thread
-- has returned with an empty queue and has written all that it held and that was queued, in order.
pub turns_needed-IsFinished :
    (w : Writer)
    → w.stop ≡ true
    → w.phase ≢ returned
    → IsFinished (run (only_turns (turns_needed w.phase w.queue)) w) (passed w)
unfolding run step turn writer
turns_needed-IsFinished w stopped going = by_phase w.phase w.queue w.stop w.lines stopped going
  where
    by_phase :
        (phase : Phase) (queue : List Text) (stop : Bool) (lines : List Text)
        → stop ≡ true
        → phase ≢ returned
        → IsFinished
            (run (only_turns (turns_needed phase queue)) (writer queue stop phase lines))
            (passed (writer queue stop phase lines))
    by_phase phase queue false lines stopped going = absurd (ground (arith, stopped))
    by_phase testing queue true lines stopped going =
        let (e, e', e'') = drain_testing queue lines in
        (e, e', e'' ∙ sym (ap (λ l. l ++ queue) (append-nil lines)))
    by_phase popping [] true lines stopped going =
        (refl, refl, sym (append-nil (lines ++ []) ∙ append-nil lines))
    by_phase popping (msg ∷ rest) true lines stopped going =
        let (e, e', e'') = drain_testing rest (lines ++ msg ∷ []) in
        (
          e,
          e',
          e''
              ∙ append_assoc lines (msg ∷ []) rest
              ∙ sym (ap (λ l. l ++ msg ∷ rest) (append-nil lines)),
        )
    by_phase returned queue true lines stopped going = absurd (going refl)
    by_phase (writing msg) queue true lines stopped going = drain_testing queue (lines ++ msg ∷ [])
