-- ===== src/Server/Framing/Reached.antt =====
-- What the server has written on its connections in the states that it reaches.
use network_broker.Prelude.{
  ℕ, ◌-◌, ◌≡◌, refl, subst, Text, some, List, [], nat_eq, arith, Option-cases, inl, inr,
}
use network_broker.Prelude.Streams.{IsLine, getline}
use network_broker.Prelude.Assoc.{find, assign}
use network_broker.Session.{Session}
use network_broker.Session.Lines.{IsFramed, send-IsFramed, reads-IsFramed}
use network_broker.Client
use network_broker.Repository.{ClientRepository, TopicRepository}
use network_broker.Protocol.{BrokerCodes, Request, code_to_string, parse, invalid_command}
use network_broker.Broker.{World, handle_command, perform}
use network_broker.Broker.Buffers.{AllWaiting, parse-SaysOk, handle_command-AllWaiting}
use network_broker.Server.{Server, answer, handle_line, received, stop}
use network_broker.Server.Heaps.Commands.{handle_command-AllSessions}
use network_broker.Server.Framing.{
  AllFramed, set, answer-AllFramed, accepted-AllFramed, accept_failed-AllFramed,
  read_failed-AllFramed, write_failed-AllFramed, write_done-AllFramed,
}
use network_broker.Server.Reach.{
  Step, accepts, accept_fails, receives, read_fails, writes, write_fails, stops, Reach,
}

greeting-IsLine : IsLine Client.greeting
greeting-IsLine = ground arith

module _ {ClientDb TopicDb : Type 0} where
  module _ (client_repo : ClientRepository ClientDb) (topic_repo : TopicRepository TopicDb) where
    handle_command_code :
        (id : ℕ) (session : Client.SessionWeakPtr) (rolls : List ℕ) (command response : Text)
        (w w' : World ClientDb TopicDb)
        → handle_command client_repo topic_repo id command session rolls w ≡ some (response, w')
        → (rc : BrokerCodes) × (response ≡ code_to_string rc)
    unfolding handle_command
    handle_command_code id session rolls command response w w' e =
        elim (Option-cases (parse command)) [
          | inl bad ↦ (invalid_command, ground (arith, bad))
          | inr (r, good) ↦
              elim (Option-cases (perform client_repo topic_repo id r session rolls w)) [
                | inl stuck ↦ absurd (ground (arith, good, stuck))
                | inr ((rc, w''), done) ↦ (rc, ground (arith, good, done))
              ]
        ]

    received-AllFramed :
        (p : ℕ) (t : Session) (buffer : Text) (rolls : List ℕ) (s s' : Server ClientDb TopicDb)
        → find p s.world.sessions ≡ some t
        → received client_repo topic_repo p buffer rolls s ≡ some s'
        → AllFramed s.world
        → AllFramed s'.world
    unfolding received handle_line
    received-AllFramed p t buffer rolls s s' there e all =
        let u : Session = record t { pending_reads = t.pending_reads - 1 } in
        let w : World ClientDb TopicDb = record s.world {
          sessions = assign p u s.world.sessions;
        } in
        let ready =
          set p t s s' there all u
            (reads-IsFramed (t.pending_reads - 1) t (all.sessions p t there)) in
        let command = getline buffer in
        elim (Option-cases (handle_command client_repo topic_repo t.id command t.self rolls w)) [
          | inl stuck ↦ absurd (ground (arith, there, stuck))
          | inr ((response, w'), done) ↦
              let says = λ (r : Request) (e : parse command ≡ some r). parse-SaysOk r command e in
              let (rc, code) = handle_command_code t.id t.self rolls command response w w' done in
              let handled : AllFramed w' = record {
                sessions =
                    handle_command-AllSessions (λ _. IsFramed) IsLine
                      (λ _ msg v good framed. send-IsFramed msg v good framed) greeting-IsLine
                      client_repo topic_repo t.id t.self rolls w all.waiting ready command response
                      w' says done;
                waiting =
                    handle_command-AllWaiting IsLine client_repo topic_repo rolls t.id t.self w
                      all.waiting command response w' says done;
              } in
              let same : answer p (code_to_string rc) w' ≡ s'.world =
                ground (arith, there, done, code, e) in
              subst AllFramed same (answer-AllFramed p rc w' handled)
        ]

    Step-AllFramed :
        (s s' : Server ClientDb TopicDb)
        → Step client_repo topic_repo s s'
        → AllFramed s.world
        → AllFramed s'.world
    Step-AllFramed s s' (accepts room e) all = accepted-AllFramed s s' s.pending_accepts refl e all
    Step-AllFramed s s' (accept_fails room e) all =
        accept_failed-AllFramed s s' s.pending_accepts refl e all
    Step-AllFramed s s' (receives p t buffer rolls there busy e) all =
        received-AllFramed p t buffer rolls s s' there e all
    Step-AllFramed s s' (read_fails p t there busy e) all =
        read_failed-AllFramed p t s s' there all e
    Step-AllFramed s s' (writes p t there busy e) all = write_done-AllFramed p t s s' there all e
    Step-AllFramed s s' (write_fails p t there busy e) all =
        write_failed-AllFramed p t s s' there all e
    Step-AllFramed s s' (stops e) all =
        let same : s.world ≡ s'.world = unfold stop in ground arith in subst AllFramed same all

    -- In every state that the server reaches from one that has no session yet and whose waiting messages
    -- are lines, what a session has written and what its queue holds is, in this order, the welcome, and
    -- then texts of one line each, in which a newline is the last byte and stands nowhere else: neither a
    -- command nor a message can put two lines on a connection. And the messages that wait are still lines.
    pub Reach-AllFramed :
        (s s' : Server ClientDb TopicDb)
        → s.world.sessions ≡ []
        → AllWaiting IsLine s.world
        → Reach client_repo topic_repo s s'
        → AllFramed s'.world
    Reach-AllFramed s s' none_yet waiting Reach.here = record {
      sessions = λ p t there. absurd (unfold find in ground (arith, none_yet, there));
      waiting = waiting;
    }
    Reach-AllFramed s s' none_yet waiting (Reach.next {t = t} before st) =
        Step-AllFramed t s' st (Reach-AllFramed s t none_yet waiting before)
