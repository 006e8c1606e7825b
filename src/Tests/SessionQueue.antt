-- ===== src/Tests/SessionQueue.antt =====
-- The outgoing queue of a session, on a few texts.
use network_broker.Prelude.{◌≡◌, refl, codes, List, [], ◌∷◌, ◌++◌}
use network_broker.Session.{Session, new, send, write_failed, write_done}
use network_broker.Session.Queue.{
  Action, sends, completes, step, run, sent, written-run, drain, completions, written-run_failed,
}
use network_broker.Tests.{session_at}

abbrev actions : List Action
actions = sends (codes "a") ∷ sends (codes "b") ∷ completes ∷ sends (codes "c") ∷ []

-- One text is out, the next is in flight, and the last waits.
run_three :
    ((run actions (new 7)).written ≡ codes "a" ∷ [])
    × ((run actions (new 7)).pending_writes ≡ codes "b" ∷ [])
    × ((run actions (new 7)).outgoing ≡ codes "b" ∷ codes "c" ∷ [])
unfolding run step new send write_done
run_three = (refl, refl, refl)

written-run_example :
    (run actions (session_at 7)).written ++ (run actions (session_at 7)).outgoing
    ≡ [] ++ sent actions
written-run_example = written-run actions (session_at 7) tt

abbrev busy : Session
busy = record (session_at 7) {
  outgoing = codes "a" ∷ codes "b" ∷ [];
  pending_writes = codes "a" ∷ [];
}

drain_example :
    ((run (completions 2) busy).outgoing ≡ [])
    × ((run (completions 2) busy).written ≡ codes "a" ∷ codes "b" ∷ [])
drain_example = drain busy refl

written-run_failed_example : (run actions (write_failed busy)).written ≡ []
written-run_failed_example = written-run_failed actions busy (refl, codes "b" ∷ [], refl) refl
