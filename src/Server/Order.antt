-- ===== src/Server/Order.antt =====
-- The server where the sets of subscribers iterate in another order.
use network_broker.Prelude.{ℕ, ◌≡◌, ◌∙◌, inl, inr, refl, ap, Text, some, ◌-◌, List, arith, nat_eq}
use network_broker.Prelude.Assoc.{find, assign}
use network_broker.Prelude.Streams.{getline}
use network_broker.Session.{Session}
use network_broker.Repository.{ClientRepository, TopicRepository}
use network_broker.Repository.Refinement.{Both-elim}
use network_broker.Topics.{Topics}
use network_broker.Topics.Order.{SameTopics}
use network_broker.Broker
use network_broker.Broker.{World, handle_command}
use network_broker.Broker.Invariant.{IsTidy}
use network_broker.Broker.Order.{with_topics, Agrees, handle_command-Agrees}
use network_broker.Server.{
  Server, accepted, accept_next, do_accept, accept_failed, disconnect, read_failed, write_done,
  write_failed, answer, handle_line, received, stop,
}
use network_broker.Server.Tidiness.{Reach-IsTidy}
use network_broker.Server.Reach.{
  Step, accepts, accept_fails, receives, read_fails, writes, write_fails, stops, Reach,
}

-- The server with other topics.
abbrev pub on_topics :
    {ClientDb TopicDb : Type 0} → Topics → Server ClientDb TopicDb → Server ClientDb TopicDb
on_topics ts s = record s { world = with_topics ts s.world }

module _ {ClientDb TopicDb : Type 0} (ts : Topics) (s s' : Server ClientDb TopicDb) where
  accepted-on_topics :
      accepted s ≡ some s'
      → (accepted (on_topics ts s) ≡ some (on_topics ts s')) × (s'.world.topics ≡ s.world.topics)
  unfolding accepted accept_next do_accept
  accepted-on_topics e = (ground arith, ground arith)

  accept_failed-on_topics :
      accept_failed s ≡ some s'
      → (accept_failed (on_topics ts s) ≡ some (on_topics ts s'))
        × (s'.world.topics ≡ s.world.topics)
  unfolding accept_failed accept_next do_accept
  accept_failed-on_topics e = (ground arith, ground arith)

  module _ (p : ℕ) where
    read_failed-on_topics :
        read_failed p s ≡ some s'
        → (read_failed p (on_topics ts s) ≡ some (on_topics ts s'))
          × (s'.world.topics ≡ s.world.topics)
    unfolding read_failed disconnect Broker.disconnect
    read_failed-on_topics e = (ground arith, ground arith)

    write_failed-on_topics :
        write_failed p s ≡ some s'
        → (write_failed p (on_topics ts s) ≡ some (on_topics ts s'))
          × (s'.world.topics ≡ s.world.topics)
    unfolding write_failed disconnect Broker.disconnect
    write_failed-on_topics e = (ground arith, ground arith)

    write_done-on_topics :
        write_done p s ≡ some s'
        → (write_done p (on_topics ts s) ≡ some (on_topics ts s'))
          × (s'.world.topics ≡ s.world.topics)
    unfolding write_done
    write_done-on_topics e = (ground arith, ground arith)

module _ {ClientDb TopicDb : Type 0} (client_repo : ClientRepository ClientDb)
    (topic_repo : TopicRepository TopicDb) where
  -- The same memory and stores after a step, but for the order of the sets.
  abbrev Simulated : Server ClientDb TopicDb → Server ClientDb TopicDb → Type 0
  Simulated s s' =
      (ts : Topics) × Step client_repo topic_repo s (on_topics ts s')
      × SameTopics s'.world.topics.topics ts

  module _ (ts : Topics) (s s' : Server ClientDb TopicDb)
      (same : SameTopics s.world.topics.topics ts) where
    received-on_topics :
        (p : ℕ) (t : Session) (buffer : Text) (rolls : List ℕ)
        → IsTidy s.world
        → find p s.world.sessions ≡ some t
        → received client_repo topic_repo p buffer rolls s ≡ some s'
        → (ts' : Topics) × (received client_repo topic_repo p buffer rolls (on_topics ts s)
            ≡ some (on_topics ts' s'))
          × SameTopics s'.world.topics.topics ts'
    unfolding received handle_line answer
    received-on_topics p t buffer rolls tidy there e =
        let w : World ClientDb TopicDb = record s.world {
          sessions = assign p (record t { pending_reads = t.pending_reads - 1 }) s.world.sessions;
        } in
        elim (Both-elim Agrees
          (handle_command client_repo topic_repo t.id (getline buffer) t.self rolls w)
          (handle_command client_repo topic_repo t.id (getline buffer) t.self rolls
            (with_topics ts w))
          (handle_command-Agrees t.id w ts same client_repo topic_repo t.self rolls
            (record { clients = tidy.clients; topics = tidy.topics }) (getline buffer))) [
              | inl (stuck, _) ↦ absurd (ground (arith, there, stuck, e))
              | inr ((response, v), (response', v'), done, done', (ts', equal, same')) ↦ (
                ts',
                ground (arith, there, done, done', equal, e),
                ground (arith, there, done, e, same'),
              )
            ]

    same_after : s'.world.topics ≡ s.world.topics → SameTopics s'.world.topics.topics ts
    same_after e = rw e same

    Step-Simulated :
        IsTidy s.world → Step client_repo topic_repo s s' → Simulated (on_topics ts s) s'
    Step-Simulated tidy (accepts room e) =
        let (e', kept) = accepted-on_topics ts s s' e in (ts, accepts room e', same_after kept)
    Step-Simulated tidy (accept_fails room e) =
        let (e', kept) = accept_failed-on_topics ts s s' e in
        (ts, accept_fails room e', same_after kept)
    Step-Simulated tidy (receives p t buffer rolls there busy e) =
        let (ts', e', same') = received-on_topics p t buffer rolls tidy there e in
        (ts', receives p t buffer rolls there busy e', same')
    Step-Simulated tidy (read_fails p t there busy e) =
        let (e', kept) = read_failed-on_topics ts s s' p e in
        (ts, read_fails p t there busy e', same_after kept)
    Step-Simulated tidy (writes p t there busy e) =
        let (e', kept) = write_done-on_topics ts s s' p e in
        (ts, writes p t there busy e', same_after kept)
    Step-Simulated tidy (write_fails p t there busy e) =
        let (e', kept) = write_failed-on_topics ts s s' p e in
        (ts, write_fails p t there busy e', same_after kept)
    Step-Simulated tidy (stops e) = (
      ts,
      stops (ap (on_topics ts) e ∙ (unfold stop in refl)),
      same_after (ap (λ (u : Server ClientDb TopicDb). u.world.topics) e ∙ (unfold stop in refl)),
    )

  -- Take two servers that differ only in the order in which their sets of subscribers iterate, the first
  -- one tidy. For each state that the first reaches, the second reaches one with the same clients, stores,
  -- sessions and flags, so with the same buffers, queues and texts written in the same order, and with the
  -- same topics, each with the same subscribers.
  pub Reach-SameTopics :
      (ts : Topics) (s s' : Server ClientDb TopicDb)
      → IsTidy s.world
      → SameTopics s.world.topics.topics ts
      → Reach client_repo topic_repo s s'
      → (ts' : Topics) × Reach client_repo topic_repo (on_topics ts s) (on_topics ts' s')
        × SameTopics s'.world.topics.topics ts'
  Reach-SameTopics ts s s' tidy same Reach.here = (ts, Reach.here, same)
  Reach-SameTopics ts s s' tidy same (Reach.next {t = t} before st) =
      let (ts', before', same') = Reach-SameTopics ts s t tidy same before in
      let (ts'', st', same'') =
        Step-Simulated ts' t s' same' (Reach-IsTidy client_repo topic_repo s t tidy before) st in
      (ts'', Reach.next before' st', same'')
