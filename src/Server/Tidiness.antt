-- ===== src/Server/Tidiness.antt =====
-- The tables of the broker in every state that the server can reach.
use network_broker.Prelude.{
  ℕ, ◌≡◌, subst, Text, some, List, ◌-◌, arith, Option-cases, inl, inr, nat_eq,
}
use network_broker.Prelude.Assoc.{find, assign}
use network_broker.Prelude.Streams.{getline}
use network_broker.Session
use network_broker.Session.{Session}
use network_broker.Client.{Heap}
use network_broker.Repository.{ClientRepository, TopicRepository}
use network_broker.Broker.{World, handle_command}
use network_broker.Broker.Invariant.{IsTidy, disconnect-IsTidy}
use network_broker.Broker.Invariant.Commands.{handle_command-IsTidy}
use network_broker.Server.{
  Server, do_accept, stop, accepted, accept_next, accept_failed, read_failed, write_done,
  write_failed, received, answer, disconnect, handle_line,
}
use network_broker.Server.Reach.{
  Step, accepts, accept_fails, receives, read_fails, writes, write_fails, stops, Reach, here, next,
}

module _ {ClientDb TopicDb : Type 0} where
  moved : (w : World ClientDb TopicDb) (h : Heap) → IsTidy w → IsTidy (record w { sessions = h })
  moved w h tidy = record { clients = tidy.clients; topics = tidy.topics }

  same_tables :
      (w w' : World ClientDb TopicDb)
      → w'.clients ≡ w.clients
      → w'.topics ≡ w.topics
      → IsTidy w
      → IsTidy w'
  same_tables w w' clients topics tidy =
      let same : record w { sessions = w'.sessions } ≡ w' = ground arith in
      subst IsTidy same (moved w w'.sessions tidy)

  accepted_tables :
      (s s' : Server ClientDb TopicDb)
      → accepted s ≡ some s'
      → (s'.world.clients ≡ s.world.clients) × (s'.world.topics ≡ s.world.topics)
  unfolding accepted accept_next do_accept
  accepted_tables s s' e = (ground arith, ground arith)

  accept_failed_tables :
      (s s' : Server ClientDb TopicDb)
      → accept_failed s ≡ some s'
      → (s'.world.clients ≡ s.world.clients) × (s'.world.topics ≡ s.world.topics)
  unfolding accept_failed accept_next do_accept
  accept_failed_tables s s' e = (ground arith, ground arith)

  write_done_tables :
      (p : ℕ) (s s' : Server ClientDb TopicDb)
      → write_done p s ≡ some s'
      → (s'.world.clients ≡ s.world.clients) × (s'.world.topics ≡ s.world.topics)
  unfolding write_done
  write_done_tables p s s' e = (ground arith, ground arith)

  disconnect-server-IsTidy :
      (p : ℕ) (t : Session) (w : World ClientDb TopicDb) → IsTidy w → IsTidy (disconnect p t w)
  unfolding disconnect
  disconnect-server-IsTidy p t w tidy = disconnect-IsTidy t.id _ (moved w _ tidy)

  read_failed-IsTidy :
      (p : ℕ) (t : Session) (s s' : Server ClientDb TopicDb)
      → find p s.world.sessions ≡ some t
      → read_failed p s ≡ some s'
      → IsTidy s.world
      → IsTidy s'.world
  unfolding read_failed
  read_failed-IsTidy p t s s' there e tidy =
      let u : Session = record t { pending_reads = t.pending_reads - 1 } in
      let same : disconnect p u s.world ≡ s'.world = ground (arith, there) in
      subst IsTidy same (disconnect-server-IsTidy p u s.world tidy)

  write_failed-IsTidy :
      (p : ℕ) (t : Session) (s s' : Server ClientDb TopicDb)
      → find p s.world.sessions ≡ some t
      → write_failed p s ≡ some s'
      → IsTidy s.world
      → IsTidy s'.world
  unfolding write_failed
  write_failed-IsTidy p t s s' there e tidy =
      let same : disconnect p (Session.write_failed t) s.world ≡ s'.world = ground (arith, there) in
      subst IsTidy same (disconnect-server-IsTidy p (Session.write_failed t) s.world tidy)

  answer_tables :
      (p : ℕ) (response : Text) (w : World ClientDb TopicDb)
      → ((answer p response w).clients ≡ w.clients) × ((answer p response w).topics ≡ w.topics)
  unfolding answer
  answer_tables p response w = (ground arith, ground arith)

  module _ (client_repo : ClientRepository ClientDb) (topic_repo : TopicRepository TopicDb) where
    received-IsTidy :
        (p : ℕ) (t : Session) (buffer : Text) (rolls : List ℕ) (s s' : Server ClientDb TopicDb)
        → find p s.world.sessions ≡ some t
        → received client_repo topic_repo p buffer rolls s ≡ some s'
        → IsTidy s.world
        → IsTidy s'.world
    unfolding received handle_line
    received-IsTidy p t buffer rolls s s' there e tidy =
        let u : Session = record t { pending_reads = t.pending_reads - 1 } in
        let w : World ClientDb TopicDb = record s.world {
          sessions = assign p u s.world.sessions;
        } in
        elim (Option-cases
          (handle_command client_repo topic_repo t.id (getline buffer) t.self rolls w)) [
            | inl stuck ↦ absurd (ground (arith, there, stuck))
            | inr ((response, w'), done) ↦
                let tidy' =
                  handle_command-IsTidy client_repo topic_repo t.id t.self rolls w
                    (moved s.world _ tidy) (getline buffer) response w' done in
                let same : answer p response w' ≡ s'.world = ground (arith, there, done) in
                let (clients, topics) = answer_tables p response w' in
                subst IsTidy same (same_tables w' (answer p response w') clients topics tidy')
          ]

    Step-IsTidy :
        (s s' : Server ClientDb TopicDb)
        → Step client_repo topic_repo s s'
        → IsTidy s.world
        → IsTidy s'.world
    Step-IsTidy s s' (accepts room e) tidy =
        let (clients, topics) = accepted_tables s s' e in
        same_tables s.world s'.world clients topics tidy
    Step-IsTidy s s' (accept_fails room e) tidy =
        let (clients, topics) = accept_failed_tables s s' e in
        same_tables s.world s'.world clients topics tidy
    Step-IsTidy s s' (receives p t buffer rolls there busy e) tidy =
        received-IsTidy p t buffer rolls s s' there e tidy
    Step-IsTidy s s' (read_fails p t there busy e) tidy = read_failed-IsTidy p t s s' there e tidy
    Step-IsTidy s s' (writes p t there busy e) tidy =
        let (clients, topics) = write_done_tables p s s' e in
        same_tables s.world s'.world clients topics tidy
    Step-IsTidy s s' (write_fails p t there busy e) tidy = write_failed-IsTidy p t s s' there e tidy
    Step-IsTidy s s' (stops e) tidy =
        let same : s.world ≡ s'.world = unfold stop in ground arith in subst IsTidy same tidy

    -- From a server whose tables are tidy, every state that can be reached is: the table of clients has
    -- one entry for each id, whose client has that id, and no topic's set repeats an id.
    pub Reach-IsTidy :
        (s s' : Server ClientDb TopicDb)
        → IsTidy s.world
        → Reach client_repo topic_repo s s'
        → IsTidy s'.world
    Reach-IsTidy s s' tidy here = tidy
    Reach-IsTidy s s' tidy (next {t = t} r st) = Step-IsTidy t s' st (Reach-IsTidy s t tidy r)
