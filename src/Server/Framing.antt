-- ===== src/Server/Framing.antt =====
-- What the server writes on a connection: the welcome, and then whole lines.
pub mod Reached
use network_broker.Prelude.{
  ◌∷◌, [], ℕ, ◌-◌, ◌+◌, ◌≡◌, sym, subst, Text, some, List, nat_eq, arith, Option-cases, Bool-cases,
  inl, inr, is_empty,
}
use network_broker.Prelude.Streams.{IsLine, getline}
use network_broker.Prelude.Assoc.{find-emplace, emplace, find, assign}
use network_broker.Session
use network_broker.Session.{Session, send, welcome}
use network_broker.Session.Lines.{
  accepted-IsFramed, IsFramed, send-IsFramed, write_done-IsFramed, write_failed-IsFramed,
  close-IsFramed, reads-IsFramed,
}
use network_broker.Client
use network_broker.Client.{Heap}
use network_broker.ClientManager.Buffers.{AllBuffers-at}
use network_broker.Repository.{ClientRepository, TopicRepository}
use network_broker.Protocol.{BrokerCodes, Request, code_to_string, parse, invalid_command}
use network_broker.Protocol.Answers.{code_to_string-IsLine}
use network_broker.Broker
use network_broker.Broker.{World, handle_command, perform}
use network_broker.Broker.Buffers.{
  AllWaiting, parse-SaysOk, handle_command-AllWaiting, disconnect-AllWaiting,
}
use network_broker.Server.{
  do_accept, accept_next, accept_failed, stop, accepted, Server, disconnect, read_failed,
  write_done, write_failed, answer, respond, handle_line, received,
}
use network_broker.Server.Heaps.{AllSessions, assign-AllSessions, send_to-AllSessions}
use network_broker.Server.Heaps.Commands.{handle_command-AllSessions}

respond-IsFramed :
    (p : ℕ) (rc : BrokerCodes) (h : Heap)
    → AllSessions (λ _. IsFramed) h
    → AllSessions (λ _. IsFramed) (respond p (code_to_string rc) h)
unfolding respond
respond-IsFramed p rc h all =
    let (whole, good) = code_to_string-IsLine rc in
    elim (Bool-cases (is_empty (code_to_string rc))) [
      | inl silent ↦ rw silent all
      | inr speaks ↦ rw speaks (
          send_to-AllSessions (λ _. IsFramed) (code_to_string rc)
            (λ q t framed.
              subst (λ x. IsFramed (send x t)) (sym whole)
                (send-IsFramed (getline (code_to_string rc)) t good framed))
            (some p) h all)
    ]

module _ {ClientDb TopicDb : Type 0} where
  -- All sessions are framed, and what waits for the clients is lines.
  pub record AllFramed (w : World ClientDb TopicDb) : Type 0 where
    pub sessions : AllSessions (λ _. IsFramed) w.sessions
    pub waiting : AllWaiting IsLine w

  -- What makes a world framed: its sessions, and the clients of a world whose messages are lines.
  framed :
      (w v : World ClientDb TopicDb) (h : Heap)
      → AllSessions (λ _. IsFramed) h
      → AllWaiting IsLine w
      → v.sessions ≡ h
      → v.clients.clients ≡ w.clients.clients
      → AllFramed v
  framed w v h all waiting e f = record {
    sessions = subst (AllSessions (λ _. IsFramed)) (sym e) all;
    waiting = AllBuffers-at IsLine f waiting;
  }

  answer-AllFramed :
      (p : ℕ) (rc : BrokerCodes) (w : World ClientDb TopicDb)
      → AllFramed w
      → AllFramed (answer p (code_to_string rc) w)
  unfolding answer Session.read
  answer-AllFramed p rc w all =
      let h = respond p (code_to_string rc) w.sessions in
      let sent = respond-IsFramed p rc w.sessions all.sessions in
      let after = answer p (code_to_string rc) w in
      elim (Option-cases (find p h)) [
        | inl gone ↦ framed w after h sent all.waiting (ground (arith, gone)) (ground (arith, gone))
        | inr (t, there) ↦
            framed w after (assign p (Session.read t) h)
              (assign-AllSessions (λ _. IsFramed) p (Session.read t) h
                (reads-IsFramed (t.pending_reads + 1) t (sent p t there)) sent)
              all.waiting (ground (arith, there)) (ground (arith, there))
      ]

  module _ (p : ℕ) (t : Session) (s s' : Server ClientDb TopicDb)
      (there : find p s.world.sessions ≡ some t) (all : AllFramed s.world) where
    -- A session takes the place of another.
    set : (u : Session) → IsFramed u → AllSessions (λ _. IsFramed) (assign p u s.world.sessions)
    set u good = assign-AllSessions (λ _. IsFramed) p u s.world.sessions good all.sessions

    disconnect-AllFramed : (u : Session) → IsFramed u → AllFramed (disconnect p u s.world)
    unfolding disconnect Broker.disconnect
    disconnect-AllFramed u good =
        let closed = set (Session.close u) (close-IsFramed u good) in
        let w : World ClientDb TopicDb = record s.world {
          sessions = assign p (Session.close u) s.world.sessions;
        } in
        record { sessions = closed; waiting = disconnect-AllWaiting IsLine w all.waiting u.id }

    read_failed-AllFramed : read_failed p s ≡ some s' → AllFramed s'.world
    unfolding read_failed
    read_failed-AllFramed e =
        let u : Session = record t { pending_reads = t.pending_reads - 1 } in
        let same : disconnect p u s.world ≡ s'.world = ground (arith, there, e) in
        subst AllFramed same
          (disconnect-AllFramed u (reads-IsFramed (t.pending_reads - 1) t (all.sessions p t there)))

    write_failed-AllFramed : write_failed p s ≡ some s' → AllFramed s'.world
    unfolding write_failed
    write_failed-AllFramed e =
        let u = Session.write_failed t in
        let same : disconnect p u s.world ≡ s'.world = ground (arith, there, e) in
        subst AllFramed same
          (disconnect-AllFramed u (write_failed-IsFramed t (all.sessions p t there)))

    write_done-AllFramed : write_done p s ≡ some s' → AllFramed s'.world
    unfolding write_done
    write_done-AllFramed e =
        let u = Session.write_done t in
        framed s.world s'.world (assign p u s.world.sessions)
          (set u (write_done-IsFramed t (all.sessions p t there))) all.waiting
          (ground (arith, there, e)) (ground (arith, there, e))

  accepted-AllFramed :
      (s s' : Server ClientDb TopicDb) (ids : List ℕ)
      → s.pending_accepts ≡ ids
      → accepted s ≡ some s'
      → AllFramed s.world
      → AllFramed s'.world
  unfolding accepted accept_next do_accept
  accepted-AllFramed s s' [] idle e all = absurd (ground (arith, idle, e))
  accepted-AllFramed s s' (id ∷ rest) waits e all =
      let t = Session.start (Session.set_self (some id) (Session.new id)) in
      framed s.world s'.world (emplace (Session.get_id t) t s.world.sessions)
        (λ p u there. elim (Option-cases (find p s.world.sessions)) [
          | inr (v, old) ↦
              let same : v ≡ u =
                ground (arith, old, there, find-emplace (Session.get_id t) p t s.world.sessions) in
              subst IsFramed same (all.sessions p v old)
          | inl fresh ↦
              let same : t ≡ u =
                ground
                  (arith, fresh, there, find-emplace (Session.get_id t) p t s.world.sessions) in
              subst IsFramed same (accepted-IsFramed id)
        ])
        all.waiting (ground (arith, waits, e)) (ground (arith, waits, e))

  accept_failed-AllFramed :
      (s s' : Server ClientDb TopicDb) (ids : List ℕ)
      → s.pending_accepts ≡ ids
      → accept_failed s ≡ some s'
      → AllFramed s.world
      → AllFramed s'.world
  unfolding accept_failed accept_next do_accept
  accept_failed-AllFramed s s' [] idle e all = absurd (ground (arith, idle, e))
  accept_failed-AllFramed s s' (id ∷ rest) waits e all =
      let same : s.world ≡ s'.world = ground (arith, waits, e) in subst AllFramed same all
