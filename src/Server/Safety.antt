-- ===== src/Server/Safety.antt =====
-- The server as a state machine: the completions of Boost.Asio in any order, and what holds after any
-- of them.
use network_broker.Prelude.{
  ℕ, ◌-◌, ◌≤◌, ◌<◌, ◌≡◌, ◌≢◌, subst, Text, none, some, List, [], ◌∷◌, nat_eq, arith, Option-cases,
  inl, inr,
}
use network_broker.Prelude.Assoc.{find, assign}
use network_broker.Session
use network_broker.Session.{Session, send, do_write, write_done, write_failed, welcome}
use network_broker.Session.Queue.{InOrder, sends, completes, fails, step, step-InOrder}
use network_broker.Client.{Heap}
use network_broker.Broker.{World, handle_command}
use network_broker.Broker
use network_broker.Server
use network_broker.Server.{
  Server, u64_mod, new, start, do_accept, stop, accepted, accept_next, accept_failed, read_failed,
  received, answer, respond, disconnect,
}
use network_broker.Server.Heaps.{AllSessions, assign-AllSessions}

-- A session that the server owns at an address: its id is the address, which is valid and was given
-- out; it knows its address; its writes are in order, and at most one read is pending.
pub record IsSound (next p : ℕ) (t : Session) : Type 0 where
  pub same_id : t.id ≡ p
  pub valid : 0 < p
  pub given : p < next
  pub knows : t.self ≡ some p
  pub in_order : InOrder t
  pub one_read : t.pending_reads ≤ 1

pub send-IsSound :
    (next p : ℕ) (msg : Text) (t : Session) → IsSound next p t → IsSound next p (send msg t)
unfolding send do_write
send-IsSound next p msg t h = record {
  same_id = ground arith;
  valid = h.valid;
  given = h.given;
  knows = ground arith;
  in_order = unfold step in step-InOrder (sends msg) t h.in_order;
  one_read = ground arith;
}

-- The ids that wait for a connection were given out and belong to no session.
abbrev pub AreFree : ℕ → Heap → List ℕ → Type 0
AreFree next h [] = Unit
AreFree next h (id ∷ ids) = (0 < id) × (id < next) × (find id h ≡ none) × (ids ≡ [])

module _ {ClientDb TopicDb : Type 0} where
  pub record IsSafe (s : Server ClientDb TopicDb) : Type 0 where
    pub counting : 0 < s.next_session_id
    pub sessions : AllSessions (IsSound s.next_session_id) s.world.sessions
    pub waiting : AreFree s.next_session_id s.world.sessions s.pending_accepts
    pub unused : (p : ℕ) → s.next_session_id ≤ p → find p s.world.sessions ≡ none

  pub start-IsSafe : (w : World ClientDb TopicDb) → w.sessions ≡ [] → IsSafe (start (new w))
  unfolding start new do_accept find
  start-IsSafe w e = record {
    counting = ground arith;
    sessions = λ p t there. absurd (ground arith);
    waiting = ground arith;
    unused = λ p le. ground arith;
  }

  -- What an operation that accepts no connection keeps: it makes every session sound and none anew.
  abbrev pub Kept : Server ClientDb TopicDb → ℕ → Session → Type 0
  Kept s p t = IsSound s.next_session_id p t × (find p s.world.sessions ≢ none)

  pub Kept-here : (s : Server ClientDb TopicDb) → IsSafe s → AllSessions (Kept s) s.world.sessions
  Kept-here s safe p t there = (safe.sessions p t there, λ gone. cc)

  not_made :
      (s : Server ClientDb TopicDb) (h : Heap) (p : ℕ)
      → AllSessions (Kept s) h
      → find p s.world.sessions ≡ none
      → find p h ≡ none
  not_made s h p kept gone = elim (Option-cases (find p h)) [
    | inl e ↦ e
    | inr (t, there) ↦ absurd ((kept p t there).1 gone)
  ]

  AreFree-Kept :
      (s : Server ClientDb TopicDb) (h : Heap) (ids : List ℕ)
      → AllSessions (Kept s) h
      → AreFree s.next_session_id s.world.sessions ids
      → AreFree s.next_session_id h ids
  AreFree-Kept s h [] kept free = tt
  AreFree-Kept s h (id ∷ ids) kept free = (free.0, free.1, not_made s h id kept free.2, free.3)

  pub Kept-IsSafe :
      (s : Server ClientDb TopicDb) (w : World ClientDb TopicDb)
      → IsSafe s
      → AllSessions (Kept s) w.sessions
      → IsSafe (record s { world = w })
  Kept-IsSafe s w safe kept = record {
    counting = safe.counting;
    sessions = λ p t there. (kept p t there).0;
    waiting = AreFree-Kept s w.sessions s.pending_accepts kept safe.waiting;
    unused = λ p le. not_made s w.sessions p kept (safe.unused p le);
  }

  module _ (s : Server ClientDb TopicDb) (safe : IsSafe s) (p : ℕ) (session : Session)
      (there : find p s.world.sessions ≡ some session) where
    -- The session at an address is replaced by another sound one.
    replaced :
        (t : Session)
        → IsSound s.next_session_id p t
        → AllSessions (Kept s) (assign p t s.world.sessions)
    replaced t sound =
        assign-AllSessions (Kept s) p t s.world.sessions (sound, λ gone. cc) (Kept-here s safe)

    write_done-IsSound : IsSound s.next_session_id p (write_done session)
    unfolding write_done do_write
    write_done-IsSound =
        let h = safe.sessions p session there in
        record {
          same_id = ground arith;
          valid = h.valid;
          given = h.given;
          knows = ground arith;
          in_order = unfold step in step-InOrder completes session h.in_order;
          one_read = ground arith;
        }

    write_failed-IsSound : IsSound s.next_session_id p (write_failed session)
    unfolding write_failed
    write_failed-IsSound =
        let h = safe.sessions p session there in
        record {
          same_id = ground arith;
          valid = h.valid;
          given = h.given;
          knows = ground arith;
          in_order = unfold step in step-InOrder fails session h.in_order;
          one_read = ground arith;
        }

    pub read_over-IsSound :
        IsSound s.next_session_id p (record session { pending_reads = session.pending_reads - 1 })
    read_over-IsSound =
        let h = safe.sessions p session there in
        record {
          same_id = h.same_id;
          valid = h.valid;
          given = h.given;
          knows = h.knows;
          in_order = h.in_order;
          one_read = omega (arith, h.one_read);
        }

    closed-IsSound :
        (t : Session)
        → IsSound s.next_session_id p t
        → IsSound s.next_session_id p (Session.close t)
    unfolding Session.close
    closed-IsSound t h = record {
      same_id = h.same_id;
      valid = h.valid;
      given = h.given;
      knows = h.knows;
      in_order = h.in_order;
      one_read = h.one_read;
    }

    pub write_done-IsSafe :
        (s' : Server ClientDb TopicDb) → Server.write_done p s ≡ some s' → IsSafe s'
    unfolding Server.write_done
    write_done-IsSafe s' e =
        let w : World ClientDb TopicDb = record s.world {
          sessions = assign p (write_done session) s.world.sessions;
        } in
        let same : record s { world = w } ≡ s' = ground (arith, there) in
        subst IsSafe same (Kept-IsSafe s w safe (replaced (write_done session) write_done-IsSound))

    pub write_failed-IsSafe :
        (s' : Server ClientDb TopicDb) → Server.write_failed p s ≡ some s' → IsSafe s'
    unfolding Server.write_failed Broker.disconnect
    write_failed-IsSafe s' e =
        let w : World ClientDb TopicDb = disconnect p (write_failed session) s.world in
        let same : record s { world = w } ≡ s' = ground (arith, there) in
        subst IsSafe same (
          Kept-IsSafe s w safe (
            replaced (Session.close (write_failed session))
              (closed-IsSound (write_failed session) write_failed-IsSound)))

    pub read_failed-IsSafe : (s' : Server ClientDb TopicDb) → read_failed p s ≡ some s' → IsSafe s'
    unfolding read_failed Broker.disconnect
    read_failed-IsSafe s' e =
        let t : Session = record session { pending_reads = session.pending_reads - 1 } in
        let w : World ClientDb TopicDb = disconnect p t s.world in
        let same : record s { world = w } ≡ s' = ground (arith, there) in
        subst IsSafe same
          (Kept-IsSafe s w safe (replaced (Session.close t) (closed-IsSound t read_over-IsSound)))
