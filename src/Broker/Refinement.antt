-- ===== src/Broker/Refinement.antt =====
-- The broker over two stores does what it does over their specifications: each command makes one call
-- of a store at most.
pub mod Commands
use network_broker.Prelude.{
  false, true, ℕ, ◌<◌, ◌^◌, ◌≡◌, ◌∙◌, ◌⊎◌, inl, inr, refl, sym, subst, ap, Text, none, some, List,
  All, arith, Option-cases, Bool-cases, not, if◌then◌else◌,
}
use network_broker.Client.{SessionWeakPtr}
use network_broker.ClientManager
use network_broker.ClientManager.Ids.{get_client_id-All}
use network_broker.ClientManager.Refinement as Clients
use network_broker.ClientManager.Refinement.{
  connect_client-with_db, unlogin_client-with_db, send_topic_message-with_db, create_client-Follows,
}
use network_broker.Topics.{TopicCodes, TopicManager}
use network_broker.Topics
use network_broker.Topics.Refinement as Subscribers
use network_broker.Topics.Refinement.{subscribe-Follows, create-Follows, unsubscribe-Follows}
use network_broker.Repository.{ClientRepository, TopicRepository}
use network_broker.Repository.Refinement.{
  ClientRefinement, TopicRefinement, Both, Both-none, Both-some, Both-elim,
}
use network_broker.Protocol.{
  BrokerCodes, ok, unauthorized, client_not_found, invalid_command, of_clients, of_topics,
  same_code, Request, login_as, register_as, subscribe_to, create_topic, unsubscribe_from,
  publish_to, log_out, parse, code_to_string,
}
use network_broker.Broker.{
  World, login, register, subscribe, create, unsubscribe, publish, unlogin, perform, handle_command,
}
use network_broker.Broker.Invariant.{IsTidy}
use network_broker.Broker.Ids.{ids_of}

-- The world over other stores.
abbrev pub on_stores :
    {ClientDb TopicDb ClientSpec TopicSpec : Type 0}
    → ClientDb
    → TopicDb
    → World ClientSpec TopicSpec
    → World ClientDb TopicDb
on_stores c t w = record {
  clients = Clients.with_db c w.clients;
  topics = Subscribers.with_db t w.topics;
  sessions = w.sessions;
}

-- What does not touch the stores is the same over any.
module _ {ClientDb TopicDb ClientSpec TopicSpec : Type 0} (c : ClientDb) (t : TopicDb)
    (w : World ClientSpec TopicSpec) where
  login-on_stores :
      (id : ℕ) (name : Text) (session : SessionWeakPtr)
      → login id name session (on_stores c t w)
        ≡ ((login id name session w).0, on_stores c t (login id name session w).1)
  unfolding login
  login-on_stores id name session =
      ground (arith, connect_client-with_db c w.clients w.sessions name session)

  publish-on_stores :
      (id : ℕ) (topic message : Text)
      → publish id topic message (on_stores c t w)
        ≡ ((publish id topic message w).0, on_stores c t (publish id topic message w).1)
  unfolding publish ClientManager.get_client_id Topics.publish ClientManager.send_topic_message
  publish-on_stores id topic message = ground arith

  unlogin-on_stores :
      (id : ℕ) → unlogin id (on_stores c t w) ≡ ((unlogin id w).0, on_stores c t (unlogin id w).1)
  unfolding unlogin ClientManager.get_client_id
  unlogin-on_stores id = ground (
    arith,
    unlogin_client-with_db c w.clients w.sessions
        (ClientManager.get_client_id id w.clients w.sessions 0).1,
  )

module _ {ClientDb TopicDb ClientSpec TopicSpec : Type 0} {client_repo : ClientRepository ClientDb}
    {topic_repo : TopicRepository TopicDb} {client_spec : ClientRepository ClientSpec}
    {topic_spec : TopicRepository TopicSpec} (C : ClientRefinement client_repo client_spec)
    (T : TopicRefinement topic_repo topic_spec) where
  -- The same answer and the same memory, over related stores; or a store is broken.
  abbrev pub Follows :
      {A : Type 0} → A × World ClientDb TopicDb → A × World ClientSpec TopicSpec → Type 0
  Follows r s =
      ((c : ClientDb) × (t : TopicDb) × (r ≡ (s.0, on_stores c t s.1))
        × C.Rel c s.1.clients.db
        × T.Rel t s.1.topics.db)
      ⊎ (C.Broken r.1.clients.db ⊎ T.Broken r.1.topics.db)

  module _ (c : ClientDb) (t : TopicDb) (w : World ClientSpec TopicSpec)
      (related_c : C.Rel c w.clients.db) (related_t : T.Rel t w.topics.db) where
    -- A command that has used no store.
    same_stores :
        (r : BrokerCodes × World ClientDb TopicDb) (s : BrokerCodes × World ClientSpec TopicSpec)
        → r ≡ (s.0, on_stores c t s.1)
        → s.1.clients.db ≡ w.clients.db
        → s.1.topics.db ≡ w.topics.db
        → Follows r s
    same_stores r s e ec et =
        inl (c, t, e, subst (C.Rel c) (sym ec) related_c, subst (T.Rel t) (sym et) related_t)

    login-Follows :
        (id : ℕ) (name : Text) (session : SessionWeakPtr)
        → Follows (login id name session (on_stores c t w)) (login id name session w)
    login-Follows id name session =
        same_stores _ _ (login-on_stores c t w id name session)
          (unfold login ClientManager.connect_client in ground arith) (unfold login in refl)

    publish-Follows :
        (id : ℕ) (topic message : Text)
        → Follows (publish id topic message (on_stores c t w)) (publish id topic message w)
    publish-Follows id topic message =
        same_stores _ _ (publish-on_stores c t w id topic message)
          (unfold publish ClientManager.send_topic_message in ground arith)
          (unfold publish in ground arith)

    unlogin-Follows : (id : ℕ) → Follows (unlogin id (on_stores c t w)) (unlogin id w)
    unlogin-Follows id =
        same_stores _ _ (unlogin-on_stores c t w id)
          (unfold unlogin ClientManager.unlogin_client in ground arith)
          (unfold unlogin in ground arith)

    -- A command that has made one call of the topic manager.
    topic_call :
        (r : BrokerCodes × World ClientDb TopicDb) (s : BrokerCodes × World ClientSpec TopicSpec)
        (x : TopicCodes × TopicManager TopicDb) (y : TopicCodes × TopicManager TopicSpec)
        → Subscribers.Follows T x y
        → r ≡ (of_topics x.0, record (on_stores c t w) { topics = x.1 })
        → s ≡ (of_topics y.0, record w { topics = y.1 })
        → Follows r s
    topic_call r s x y (inl (t', e, related)) er es =
        let whole : r ≡ (s.0, on_stores c t' s.1) = ground (arith, er, es, e) in
        inl (
          c,
          t',
          whole,
          subst (C.Rel c) (ground (arith, es)) related_c,
          subst (T.Rel t') (ground (arith, es)) related,
        )
    topic_call r s x y (inr broken) er es = inr (inr (subst T.Broken (ground (arith, er)) broken))

    module _ (tidy : IsTidy w) (small : All (λ n. n < 2 ^ 64) (ids_of w)) (id : ℕ)
        (topic : Text) where
      client_of : ℕ
      client_of = (ClientManager.get_client_id id w.clients w.sessions 0).1

      -- The session is nobody's, or it is a client's whose id has 64 bits.
      client-cases :
          (same_code
              (of_clients (ClientManager.get_client_id id w.clients w.sessions 0).0)
              client_not_found
            ≡ true)
          ⊎ ((same_code
                  (of_clients (ClientManager.get_client_id id w.clients w.sessions 0).0)
                  client_not_found
                ≡ false)
              × (client_of < 2 ^ 64))
      unfolding client_of
      client-cases =
          elim (Bool-cases (
            same_code (of_clients (ClientManager.get_client_id id w.clients w.sessions 0).0)
              client_not_found)) [
                | inl e ↦ inl e
                | inr e ↦
                    let known : (ClientManager.get_client_id id w.clients w.sessions 0).0
                        ≡ ClientManager.ok =
                      unfold ClientManager.get_client_id in ground (arith, e) in
                    inr (
                      e,
                      get_client_id-All w.clients w.sessions (λ n. n < 2 ^ 64) id tidy.clients small
                          known,
                    )
              ]

      subscribe-Follows_broker :
          Follows
            (subscribe topic_repo id topic (on_stores c t w))
            (subscribe topic_spec id topic w)
      unfolding subscribe client_of ClientManager.get_client_id
      subscribe-Follows_broker = elim client-cases [
        | inl e ↦ same_stores _ _ (ground (arith, e)) (ground (arith, e)) (ground (arith, e))
        | inr (e, fits) ↦
            topic_call _ _ _ _ (subscribe-Follows T client_of topic t w.topics fits related_t)
              (ground (arith, e)) (ground (arith, e))
      ]

      create-Follows_broker :
          Follows (create topic_repo id topic (on_stores c t w)) (create topic_spec id topic w)
      unfolding create client_of ClientManager.get_client_id
      create-Follows_broker = elim client-cases [
        | inl e ↦ same_stores _ _ (ground (arith, e)) (ground (arith, e)) (ground (arith, e))
        | inr (e, fits) ↦
            topic_call _ _ _ _ (create-Follows T client_of topic t w.topics fits related_t)
              (ground (arith, e)) (ground (arith, e))
      ]

      unsubscribe-Follows_broker :
          Follows
            (unsubscribe topic_repo id topic (on_stores c t w))
            (unsubscribe topic_spec id topic w)
      unfolding unsubscribe client_of ClientManager.get_client_id
      unsubscribe-Follows_broker = elim client-cases [
        | inl e ↦ same_stores _ _ (ground (arith, e)) (ground (arith, e)) (ground (arith, e))
        | inr (e, fits) ↦
            topic_call _ _ _ _ (unsubscribe-Follows T client_of topic t w.topics fits related_t)
              (ground (arith, e)) (ground (arith, e))
      ]
