-- ===== src/Broker/Invariant.antt =====
-- What every request keeps: a well-formed table of clients, and topics whose sets repeat no id.
pub mod Commands
use network_broker.Prelude.{
  ℕ, ◌≡◌, ◌⊎◌, sym, subst, Text, ◌||◌, some, List, [], arith, Option-cases, Bool-cases, inl, inr,
}
use network_broker.Client.{SessionWeakPtr}
use network_broker.ClientManager
use network_broker.ClientManager.{ClientManager, ClientsCodes}
use network_broker.ClientManager.Invariant.{
  WellFormed, connect_client-WellFormed, disconnect_client-WellFormed, unlogin_client-WellFormed,
  send_topic_message-WellFormed, create_client-WellFormed,
}
use network_broker.Topics
use network_broker.Topics.{TopicManager}
use network_broker.Topics.Subscriptions.{AllSets}
use network_broker.Topics.Sets.{subscribe-AllSets, create-AllSets, unsubscribe-AllSets}
use network_broker.Repository.{ClientRepository, TopicRepository}
use network_broker.Protocol.{
  BrokerCodes, client_not_found, topic_not_found, of_topics, ok, same_code, of_clients, Request,
  login_as, register_as, subscribe_to, create_topic, unsubscribe_from, publish_to, log_out, parse,
}
use network_broker.Broker.{
  World, login, register, subscribe, create, unsubscribe, publish, unlogin, disconnect, perform,
  handle_command,
}

module _ {ClientDb TopicDb : Type 0} where
  pub record IsTidy (w : World ClientDb TopicDb) : Type 0 where
    pub clients : WellFormed w.clients.clients
    pub topics : AllSets w.topics.topics

  pub disconnect-IsTidy :
      (id : ℕ) (w : World ClientDb TopicDb) → IsTidy w → IsTidy (disconnect id w)
  unfolding disconnect
  disconnect-IsTidy id w h = record {
    clients = disconnect_client-WellFormed w.clients w.sessions h.clients id;
    topics = h.topics;
  }

  module _ (w : World ClientDb TopicDb) (h : IsTidy w) where
    login-IsTidy :
        (id : ℕ) (name : Text) (session : SessionWeakPtr) → IsTidy (login id name session w).1
    unfolding login
    login-IsTidy id name session = record {
      clients = connect_client-WellFormed w.clients w.sessions h.clients name session;
      topics = h.topics;
    }

    publish-clients :
        (id : ℕ) (topic message : Text)
        → ((publish id topic message w).1 ≡ w)
          ⊎ ((ids : List ℕ) × ((publish id topic message w).1.clients
                ≡ (ClientManager.send_topic_message message ids w.clients w.sessions).0)
              × ((publish id topic message w).1.topics ≡ w.topics))
    unfolding publish
    publish-clients id topic message =
        elim (Bool-cases (
          same_code (of_clients (ClientManager.get_client_id id w.clients w.sessions 0).0)
            client_not_found
          || same_code (of_topics (Topics.publish topic message w.topics []).0) topic_not_found)) [
            | inl refused ↦ inl (ground (arith, refused))
            | inr sent ↦ inr (
              (Topics.publish topic message w.topics []).1,
              ground (arith, sent),
              ground (arith, sent),
            )
          ]

    -- A world whose topics are the same, and whose table of clients is well formed.
    same_topics :
        (w' : World ClientDb TopicDb) (m : ClientManager ClientDb)
        → WellFormed m.clients
        → w'.clients ≡ m
        → w'.topics ≡ w.topics
        → IsTidy w'
    same_topics w' m good clients topics = record {
      clients = subst (λ (n : ClientManager ClientDb). WellFormed n.clients) (sym clients) good;
      topics = subst (λ (n : TopicManager TopicDb). AllSets n.topics) (sym topics) h.topics;
    }

    same_clients :
        (w' : World ClientDb TopicDb) (m : TopicManager TopicDb)
        → AllSets m.topics
        → w'.topics ≡ m
        → w'.clients ≡ w.clients
        → IsTidy w'
    same_clients w' m good topics clients = record {
      clients =
          subst (λ (n : ClientManager ClientDb). WellFormed n.clients) (sym clients) h.clients;
      topics = subst (λ (n : TopicManager TopicDb). AllSets n.topics) (sym topics) good;
    }

    pub publish-IsTidy : (id : ℕ) (topic message : Text) → IsTidy (publish id topic message w).1
    publish-IsTidy id topic message = elim (publish-clients id topic message) [
      | inl same ↦ subst IsTidy (sym same) h
      | inr (ids, clients, topics) ↦
          same_topics _ _ (send_topic_message-WellFormed w.clients w.sessions h.clients message ids)
            clients topics
    ]

    unlogin-clients :
        (id : ℕ)
        → ((unlogin id w).1 ≡ w)
          ⊎ ((n : ℕ) × ((unlogin id w).1.clients
                ≡ (ClientManager.unlogin_client n w.clients w.sessions).1)
              × ((unlogin id w).1.topics ≡ w.topics))
    unfolding unlogin
    unlogin-clients id =
        elim (Bool-cases (
          same_code (of_clients (ClientManager.get_client_id id w.clients w.sessions 0).0)
            client_not_found)) [
              | inl refused ↦ inl (ground (arith, refused))
              | inr known ↦ inr (
                (ClientManager.get_client_id id w.clients w.sessions 0).1,
                ground (arith, known),
                ground (arith, known),
              )
            ]

    unlogin-IsTidy : (id : ℕ) → IsTidy (unlogin id w).1
    unlogin-IsTidy id = elim (unlogin-clients id) [
      | inl same ↦ subst IsTidy (sym same) h
      | inr (n, clients, topics) ↦
          same_topics _ _ (unlogin_client-WellFormed w.clients w.sessions h.clients n) clients
            topics
    ]

    module _ (repo : TopicRepository TopicDb) (id : ℕ) (topic : Text) where
      client_of : ℕ
      client_of = (ClientManager.get_client_id id w.clients w.sessions 0).1

      RefusedOr : (w' : World ClientDb TopicDb) (m : TopicManager TopicDb) → Type 0
      RefusedOr w' m = (w' ≡ w) ⊎ ((w'.topics ≡ m) × (w'.clients ≡ w.clients))

      RefusedOr-IsTidy :
          (w' : World ClientDb TopicDb) (m : TopicManager TopicDb)
          → AllSets m.topics
          → RefusedOr w' m
          → IsTidy w'
      unfolding RefusedOr
      RefusedOr-IsTidy w' m good (inl same) = subst IsTidy (sym same) h
      RefusedOr-IsTidy w' m good (inr (topics, clients)) = same_clients w' m good topics clients

      subscribe-IsTidy : IsTidy (subscribe repo id topic w).1
      unfolding subscribe RefusedOr
      subscribe-IsTidy =
          RefusedOr-IsTidy _ (Topics.subscribe repo client_of topic w.topics).1
            (subscribe-AllSets repo client_of topic w.topics h.topics)
            (unfold client_of in ground arith)

      create-IsTidy : IsTidy (create repo id topic w).1
      unfolding create RefusedOr
      create-IsTidy =
          RefusedOr-IsTidy _ (Topics.create repo client_of topic w.topics).1
            (create-AllSets repo client_of topic w.topics h.topics)
            (unfold client_of in ground arith)

      unsubscribe-IsTidy : IsTidy (unsubscribe repo id topic w).1
      unfolding unsubscribe RefusedOr
      unsubscribe-IsTidy =
          RefusedOr-IsTidy _ (Topics.unsubscribe repo client_of topic w.topics).1
            (unsubscribe-AllSets repo client_of topic w.topics h.topics)
            (unfold client_of in ground arith)

    register-IsTidy :
        (repo : ClientRepository ClientDb) (id : ℕ) (name : Text) (session : SessionWeakPtr)
        (rolls : List ℕ) (rc : BrokerCodes) (w' : World ClientDb TopicDb)
        → register repo id name session rolls w ≡ some (rc, w')
        → IsTidy w'
    unfolding register login
    register-IsTidy repo id name session rolls rc w' e =
        elim (Option-cases (ClientManager.create_client repo name rolls w.clients)) [
          | inl stuck ↦ absurd (ground (arith, stuck))
          | inr ((code, m), made) ↦
              let well = create_client-WellFormed repo name rolls w.clients m code h.clients made in
              elim (Bool-cases (same_code (of_clients code) ok)) [
                | inl good ↦
                    same_topics w' (ClientManager.connect_client name session m w.sessions).1
                      (connect_client-WellFormed m w.sessions well name session)
                      (ground (arith, made, good)) (ground (arith, made, good))
                | inr bad ↦
                    same_topics w' m well (ground (arith, made, bad)) (ground (arith, made, bad))
              ]
        ]
