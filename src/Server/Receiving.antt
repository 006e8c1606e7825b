-- ===== src/Server/Receiving.antt =====
-- The read handler keeps the server safe: the command, its answer, and the next read.
use network_broker.Prelude.{
  ℕ, ◌-◌, ◌≡◌, refl, sym, subst, Text, some, List, is_empty, nat_eq, arith, Option-cases,
  Bool-cases, inl, inr,
}
use network_broker.Prelude.Streams.{getline}
use network_broker.Prelude.Assoc.{find, assign}
use network_broker.Session
use network_broker.Session.{Session, send, do_write, write_done, write_failed, welcome}
use network_broker.Client.{Heap}
use network_broker.Client.Sending.{line}
use network_broker.Repository.{ClientRepository, TopicRepository}
use network_broker.Broker.{World, handle_command}
use network_broker.Server.{Server, received, answer, respond}
use network_broker.Server.Heaps.{
  AllSessions, assign-AllSessions, assign-AllSessions_ne, send_to-AllSessions,
}
use network_broker.Server.Heaps.Commands.{handle_command-AllSessions}
use network_broker.Broker.Buffers.{SaysOk-any}
use network_broker.ClientManager.Buffers.{AllBuffers-any}
use network_broker.Server.Safety.{
  send-IsSound, IsSafe, Kept, Kept-here, Kept-IsSafe, read_over-IsSound,
}

module _ {ClientDb TopicDb : Type 0} (s : Server ClientDb TopicDb) (safe : IsSafe s) (p : ℕ)
    (session : Session) (there : find p s.world.sessions ≡ some session) where
  module _ (client_repo : ClientRepository ClientDb) (topic_repo : TopicRepository TopicDb) where
    -- While a command is handled the session that sent it has no read pending.
    abbrev Handling : ℕ → Session → Type 0
    Handling q t = Kept s q t × (q ≡ p → t.pending_reads ≡ 0)

    send-Handling : (q : ℕ) (msg : Text) (t : Session) → Handling q t → Handling q (send msg t)
    send-Handling q msg t h = (
      (send-IsSound s.next_session_id q msg t h.0.0, h.0.1),
      λ here. unfold send do_write in ground (arith, h.1 here),
    )

    respond-Handling :
        (response : Text) (h : Heap)
        → AllSessions Handling h
        → AllSessions Handling (respond p response h)
    unfolding respond
    respond-Handling response h all = elim (Bool-cases (is_empty response)) [
      | inl silent ↦ rw silent all
      | inr speaks ↦
          rw speaks
            (send_to-AllSessions Handling response (λ q. send-Handling q response) (some p) h all)
    ]

    reading : (t : Session) → Handling p t → Kept s p (Session.read t)
    unfolding Session.read
    reading t h = (
      record {
        same_id = h.0.0.same_id;
        valid = h.0.0.valid;
        given = h.0.0.given;
        knows = h.0.0.knows;
        in_order = h.0.0.in_order;
        one_read = omega (arith, h.1 refl);
      },
      h.0.1,
    )

    answer-Kept :
        (response : Text) (w : World ClientDb TopicDb)
        → AllSessions Handling w.sessions
        → AllSessions (Kept s) (answer p response w).sessions
    unfolding answer
    answer-Kept response w all =
        let h : Heap = respond p response w.sessions in
        let all' = respond-Handling response w.sessions all in
        elim (Option-cases (find p h)) [
          | inl gone ↦
              let same : h ≡ (answer p response w).sessions = ground (arith, gone) in
              subst (AllSessions (Kept s)) same (λ q t e. (all' q t e).0)
          | inr (t, here) ↦
              let same : assign p (Session.read t) h ≡ (answer p response w).sessions =
                ground (arith, here) in
              subst (AllSessions (Kept s)) same (
                assign-AllSessions (Kept s) p (Session.read t) h (reading t (all' p t here))
                  (λ q u e. (all' q u e).0))
        ]

    pub received-IsSafe :
        (buffer : Text) (rolls : List ℕ) (s' : Server ClientDb TopicDb)
        → received client_repo topic_repo p buffer rolls s ≡ some s'
        → IsSafe s'
    unfolding received
    received-IsSafe buffer rolls s' e =
        let t : Session = record session { pending_reads = session.pending_reads - 1 } in
        let w : World ClientDb TopicDb = record s.world {
          sessions = assign p t s.world.sessions;
        } in
        let start_all : AllSessions Handling w.sessions =
          assign-AllSessions_ne Handling p t s.world.sessions
            (
              (read_over-IsSound s safe p session there, λ gone. cc),
              λ _. omega (arith, (safe.sessions p session there).one_read),
            )
            (λ q u differ e. (Kept-here s safe q u e, λ here. absurd (differ (sym here)))) in
        elim (Option-cases (
          handle_command client_repo topic_repo session.id (getline buffer) session.self rolls w)) [
            | inl stuck ↦ absurd (ground (arith, there, stuck))
            | inr ((response, w'), done) ↦
                let all =
                  handle_command-AllSessions Handling (λ _. Unit)
                    (λ q msg t _. send-Handling q (line msg) t) tt client_repo topic_repo session.id
                    session.self rolls w (AllBuffers-any (λ _. Unit) (λ _. tt) w.clients.clients)
                    start_all (getline buffer) response w'
                    (λ r _. SaysOk-any (λ _. Unit) (λ _. tt) r) done in
                let same : record s { world = answer p response w' } ≡ s' =
                  ground (arith, there, done) in
                subst IsSafe same (Kept-IsSafe s _ safe (answer-Kept response w' all))
          ]
