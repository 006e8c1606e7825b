-- ===== src/Session/Queue.antt =====
-- The outgoing queue of a session: the order of its texts, the write that is in flight, and what an
-- error does to the queue.
use network_broker.Prelude.{
  zero, false, suc, length, is_empty, ◌∙◌, ℕ, sym, ◌≡◌, refl, Text, List, [], ◌∷◌, ◌++◌, ◌≢◌,
  append-nil, append_assoc, arith,
}
use network_broker.Session.{new, Session, send, do_write, write_done, write_failed}

-- What can happen to the queue: a call of `Send`, and the two outcomes of a write.
pub data Action : Type 0 where
  sends : Text → Action
  completes : Action
  fails : Action

unfoldable pub step : Action → Session → Session
step (sends msg) s = send msg s
step completes s = write_done s
step fails s = write_failed s

unfoldable pub run : List Action → Session → Session
run [] s = s
run (a ∷ actions) s = run actions (step a s)

-- The texts handed to `Send`, in order.
unfoldable pub sent : List Action → List Text
sent [] = []
sent (sends msg ∷ actions) = msg ∷ sent actions
sent (completes ∷ actions) = sent actions
sent (fails ∷ actions) = sent actions

-- A write is in flight for the front of the queue and for nothing else.
abbrev pub InFlight : List Text → List Text → Type 0
InFlight [] outgoing = Unit
InFlight (msg ∷ more) outgoing = (more ≡ []) × (rest : List Text) × (outgoing ≡ msg ∷ rest)

abbrev pub InOrder : Session → Type 0
InOrder s = InFlight s.pending_writes s.outgoing

-- No write is missing either: the queue is empty, or its front is being written.
abbrev pub front : List Text → List Text
front [] = []
front (msg ∷ rest) = msg ∷ []

abbrev pub IsLive : Session → Type 0
IsLive s = s.pending_writes ≡ front s.outgoing

pub step-InOrder : (a : Action) (s : Session) → InOrder s → InOrder (step a s)
unfolding step send do_write write_done write_failed
step-InOrder (sends msg) s h = ground arith
step-InOrder completes s h = ground arith
step-InOrder fails s h = ground arith

step-IsLive : (a : Action) (s : Session) → a ≢ fails → IsLive s → IsLive (step a s)
unfolding step send do_write write_done
step-IsLive (sends msg) s ok h = ground arith
step-IsLive completes s ok h = ground arith
step-IsLive fails s ok h = absurd (ok refl)

-- One step keeps what was written and what waits, in order, and adds what was sent.
step-order :
    (a : Action) (s : Session)
    → InOrder s
    → (step a s).written ++ (step a s).outgoing ≡ (s.written ++ s.outgoing) ++ sent (a ∷ [])
unfolding step sent send do_write write_done write_failed
step-order (sends msg) s h = ground (arith, append_assoc s.written s.outgoing (msg ∷ []))
step-order completes s h = grind (arith, append_assoc, append-nil)
step-order fails s h = ground (arith, append-nil (s.written ++ s.outgoing))

run-InOrder : (actions : List Action) (s : Session) → InOrder s → InOrder (run actions s)
unfolding run
run-InOrder [] s h = h
run-InOrder (a ∷ actions) s h = run-InOrder actions (step a s) (step-InOrder a s h)

sent-cons :
    (a : Action) (actions : List Action) → sent (a ∷ []) ++ sent actions ≡ sent (a ∷ actions)
unfolding sent
sent-cons (sends msg) actions = refl
sent-cons completes actions = refl
sent-cons fails actions = refl

-- From a session whose writes are in order, what went out and then what is queued is what was there
-- before, followed by the texts sent, in the order of the calls of `Send`.
pub written-run :
    (actions : List Action) (s : Session)
    → InOrder s
    → (run actions s).written ++ (run actions s).outgoing
      ≡ (s.written ++ s.outgoing) ++ sent actions
unfolding run
written-run [] s h = unfold sent in sym (append-nil _)
written-run (a ∷ actions) s h = cc (
  written-run actions (step a s) (step-InOrder a s h),
  step-order a s h,
  append_assoc (s.written ++ s.outgoing) (sent (a ∷ [])) (sent actions),
  sent-cons a actions,
)

abbrev pub NoFails : List Action → Type 0
NoFails [] = Unit
NoFails (a ∷ actions) = (a ≢ fails) × NoFails actions

run-IsLive :
    (actions : List Action) (s : Session) → NoFails actions → IsLive s → IsLive (run actions s)
unfolding run
run-IsLive [] s ok h = h
run-IsLive (a ∷ actions) s ok h = run-IsLive actions (step a s) ok.1 (step-IsLive a s ok.0 h)

IsLive-new : (id : ℕ) → IsLive (new id)
unfolding new
IsLive-new id = refl

InOrder-IsLive : (s : Session) → IsLive s → InOrder s
InOrder-IsLive s h = ground arith

-- The completions of `n` writes.
abbrev pub completions : ℕ → List Action
completions zero = []
completions (suc n) = completes ∷ completions n

drain_step :
    (s : Session) (msg : Text) (rest : List Text)
    → IsLive s
    → s.outgoing ≡ msg ∷ rest
    → ((write_done s).outgoing ≡ rest)
      × ((write_done s).written ≡ s.written ++ msg ∷ [])
      × IsLive (write_done s)
unfolding write_done do_write
drain_step s msg rest h e = ground arith

drain_from :
    (queue : List Text) (s : Session)
    → IsLive s
    → s.outgoing ≡ queue
    → ((run (completions (length queue)) s).outgoing ≡ [])
      × ((run (completions (length queue)) s).written ≡ s.written ++ queue)
unfolding run step
drain_from [] s h e = (e, sym (append-nil s.written))
drain_from (msg ∷ rest) s h e =
    let (left, out, live) = drain_step s msg rest h e in
    let (none_left, all_out) = drain_from rest (write_done s) live left in
    (none_left, cc (all_out, out, append_assoc s.written (msg ∷ []) rest))

-- A session that has had no write error sends all it has queued: after as many completed writes as
-- there are texts in the queue, the queue is empty and every text went out, in order.
pub drain :
    (s : Session)
    → IsLive s
    → ((run (completions (length s.outgoing)) s).outgoing ≡ [])
      × ((run (completions (length s.outgoing)) s).written ≡ s.written ++ s.outgoing)
drain s h = drain_from s.outgoing s h refl

abbrev pub IsStalled : Session → Type 0
IsStalled s = (s.pending_writes ≡ []) × (is_empty s.outgoing ≡ false)

IsStalled-step :
    (a : Action) (s : Session)
    → IsStalled s
    → IsStalled (step a s) × ((step a s).written ≡ s.written)
unfolding step send do_write write_done write_failed
IsStalled-step (sends msg) s h = ground arith
IsStalled-step completes s h = ground arith
IsStalled-step fails s h = ground arith

stalled_run :
    (actions : List Action) (s : Session) → IsStalled s → (run actions s).written ≡ s.written
unfolding run
stalled_run [] s h = refl
stalled_run (a ∷ actions) s h =
    let (stays, same) = IsStalled-step a s h in stalled_run actions (step a s) stays ∙ same

-- After a write fails with a text in the queue no text goes out any more, whatever is sent.
pub written-run_failed :
    (actions : List Action) (s : Session)
    → InOrder s
    → is_empty s.outgoing ≡ false
    → (run actions (write_failed s)).written ≡ s.written
written-run_failed actions s h e =
    stalled_run actions (write_failed s) (unfold write_failed in ground arith)
    ∙ (unfold write_failed in refl)
