-- ===== src/Broker/Order.antt =====
-- The broker where the sets of subscribers iterate in another order: the standard leaves the order of a
-- std::unordered_set open.
use network_broker.Prelude.{
  ℕ, ◌≡◌, refl, ap, Text, List, arith, Option-cases, Bool-cases, inl, inr, not, if◌then◌else◌,
}
use network_broker.Client.{SessionWeakPtr}
use network_broker.ClientManager
use network_broker.ClientManager.{ClientsCodes}
use network_broker.ClientManager.Delivery.Order.{deliver_all-Permᴰ}
use network_broker.Topics
use network_broker.Topics.{Topics, TopicCodes, TopicManager}
use network_broker.Topics.Subscriptions.{publish-NoRepeat}
use network_broker.Topics.Order as Subscribers
use network_broker.Topics.Order.{
  SameTopics, subscribe-Agrees, create-Agrees, unsubscribe-Agrees, publish-IsSame,
}
use network_broker.Repository.{ClientRepository, TopicRepository}
use network_broker.Repository.Refinement.{Both, Both-none, Both-some, Both-elim}
use network_broker.Protocol.{
  BrokerCodes, ok, unauthorized, client_not_found, invalid_command, of_clients, of_topics,
  same_code, Request, login_as, register_as, subscribe_to, create_topic, unsubscribe_from,
  publish_to, log_out, parse, code_to_string,
}
use network_broker.Broker.{
  World, login, register, subscribe, create, unsubscribe, publish, unlogin, perform, handle_command,
}
use network_broker.Broker.Invariant.{IsTidy}

-- The world with other topics.
abbrev pub with_topics :
    {ClientDb TopicDb : Type 0} → Topics → World ClientDb TopicDb → World ClientDb TopicDb
with_topics ts w = record w { topics = Subscribers.with_topics ts w.topics }

-- The same answer, and the same world but for the order of the sets.
abbrev pub Agrees :
    {A ClientDb TopicDb : Type 0} → A × World ClientDb TopicDb → A × World ClientDb TopicDb → Type 0
Agrees r s = (ts : Topics) × (s ≡ (r.0, with_topics ts r.1)) × SameTopics r.1.topics.topics ts

module _ {ClientDb TopicDb : Type 0} (id : ℕ) (w : World ClientDb TopicDb) (ts : Topics)
    (same : SameTopics w.topics.topics ts) where
  login-Agrees :
      (name : Text) (session : SessionWeakPtr)
      → Agrees (login id name session w) (login id name session (with_topics ts w))
  unfolding login
  login-Agrees name session = (ts, refl, same)

  unlogin-Agrees : Agrees (unlogin id w) (unlogin id (with_topics ts w))
  unfolding unlogin
  unlogin-Agrees = (ts, ground arith, ground arith)

  publish-Agrees :
      (topic message : Text)
      → IsTidy w
      → Agrees (publish id topic message w) (publish id topic message (with_topics ts w))
  unfolding publish ClientManager.send_topic_message
  publish-Agrees topic message tidy =
      let (code, d) = publish-IsSame id topic w.topics ts same message in
      let delivered =
        deliver_all-Permᴰ message d (publish-NoRepeat topic w.topics message tidy.topics)
          w.clients.clients w.sessions in
      (ts, ground (arith, code, delivered), ground arith)

  register-Agrees :
      (client_repo : ClientRepository ClientDb) (name : Text) (session : SessionWeakPtr)
      (rolls : List ℕ)
      → Both Agrees
          (register client_repo id name session rolls w)
          (register client_repo id name session rolls (with_topics ts w))
  unfolding register login
  register-Agrees client_repo name session rolls =
      elim (Option-cases (ClientManager.create_client client_repo name rolls w.clients)) [
        | inl e ↦ Both-none Agrees _ _ (ground (arith, e)) (ground (arith, e))
        | inr ((code, clients), e) ↦
            let w' : World ClientDb TopicDb = record w { clients = clients } in
            let r =
              if not (same_code (of_clients code) ok)
              then (of_clients code, w')
              else (let (rc', w'') = login id name session w' in
                  if not (same_code rc' ok) then (rc', w'') else (ok, w'')) in
            Both-some Agrees _ _ r (r.0, with_topics ts r.1) (ground (arith, e)) (ground (arith, e))
              (ts, refl, ground arith)
      ]

  -- A call of the topic manager for the client that is logged in on the session.
  call_as_client :
      (ℕ → TopicManager TopicDb → TopicCodes × TopicManager TopicDb)
      → World ClientDb TopicDb
      → BrokerCodes × World ClientDb TopicDb
  call_as_client call v =
      let (rc, client_id) = ClientManager.get_client_id id v.clients v.sessions 0 in
      if same_code (of_clients rc) client_not_found
      then (unauthorized, v)
      else let (rc', topics) = call client_id v.topics in
        (of_topics rc', record v { topics = topics })

  call_as_client-Agrees :
      (call : ℕ → TopicManager TopicDb → TopicCodes × TopicManager TopicDb)
      → ((k : ℕ)
          → Subscribers.Agrees (call k w.topics) (call k (Subscribers.with_topics ts w.topics)))
      → Agrees (call_as_client call w) (call_as_client call (with_topics ts w))
  unfolding call_as_client
  call_as_client-Agrees call agrees =
      let (rc, client_id) = ClientManager.get_client_id id w.clients w.sessions 0 in
      let (ts', e, same') = agrees client_id in
      elim (Bool-cases (same_code (of_clients rc) client_not_found)) [
        | inl nobody ↦ (ts, ground (arith, nobody), ground (arith, nobody))
        | inr somebody ↦ (ts', ground (arith, somebody, e), ground (arith, somebody, same'))
      ]

  module _ (client_repo : ClientRepository ClientDb) (topic_repo : TopicRepository TopicDb)
      (session : SessionWeakPtr) (rolls : List ℕ) (tidy : IsTidy w) where
    perform-Agrees :
        (r : Request)
        → Both Agrees
            (perform client_repo topic_repo id r session rolls w)
            (perform client_repo topic_repo id r session rolls (with_topics ts w))
    unfolding perform subscribe create unsubscribe call_as_client
    perform-Agrees (login_as name) = login-Agrees name session
    perform-Agrees (register_as name) = register-Agrees client_repo name session rolls
    perform-Agrees (subscribe_to topic) =
        call_as_client-Agrees (λ k m. Topics.subscribe topic_repo k topic m)
          (λ k. subscribe-Agrees k topic w.topics ts same topic_repo)
    perform-Agrees (create_topic topic) =
        call_as_client-Agrees (λ k m. Topics.create topic_repo k topic m)
          (λ k. create-Agrees k topic w.topics ts same topic_repo)
    perform-Agrees (unsubscribe_from topic) =
        call_as_client-Agrees (λ k m. Topics.unsubscribe topic_repo k topic m)
          (λ k. unsubscribe-Agrees k topic w.topics ts same topic_repo)
    perform-Agrees (publish_to topic message) = publish-Agrees topic message tidy
    perform-Agrees log_out = unlogin-Agrees

    -- The answers do not depend on the order in which the sets of subscribers iterate. Take a world that
    -- is tidy and one that differs only there: the same topics, each with the same subscribers in any
    -- order. Handling a command still draws an id in both or in neither; it gives both the same answer,
    -- and leaves the same clients, stores and sessions, with their buffers and queues in the same order,
    -- and again the same topics with the same subscribers.
    pub handle_command-Agrees :
        (command : Text)
        → Both Agrees
            (handle_command client_repo topic_repo id command session rolls w)
            (handle_command client_repo topic_repo id command session rolls (with_topics ts w))
    unfolding handle_command
    handle_command-Agrees command = elim (Option-cases (parse command)) [
      | inl bad ↦
          Both-some Agrees _ _ (code_to_string invalid_command, w)
            (code_to_string invalid_command, with_topics ts w) (ground (arith, bad))
            (ground (arith, bad)) (ts, refl, same)
      | inr (r, good) ↦
          elim (Both-elim Agrees (perform client_repo topic_repo id r session rolls w)
            (perform client_repo topic_repo id r session rolls (with_topics ts w))
            (perform-Agrees r)) [
              | inl (e, e') ↦
                  Both-none Agrees _ _ (ground (arith, good, e)) (ground (arith, good, e'))
              | inr (x, y, e, e', (ts', equal, same')) ↦
                  Both-some Agrees _ _ (code_to_string x.0, x.1) (code_to_string y.0, y.1)
                    (ground (arith, good, e)) (ground (arith, good, e'))
                    (ts', ap (λ z. (code_to_string z.0, z.1)) equal, same')
            ]
    ]
