-- ===== src/Broker/Refinement/Commands.antt =====
-- `HandleCommand` over two stores, and over their specifications.
use network_broker.Prelude.{
  ℕ, ◌<◌, ◌^◌, ◌≡◌, ◌∙◌, refl, inl, inr, sym, subst, ap, Text, some, List, All, arith, Option-cases,
  Bool-cases, not, if◌then◌else◌,
}
use network_broker.Client.{SessionWeakPtr}
use network_broker.ClientManager
use network_broker.ClientManager.{ClientManager, ClientsCodes}
use network_broker.ClientManager.Refinement as Clients
use network_broker.ClientManager.Refinement.{create_client-Follows}
use network_broker.Repository.{ClientRepository, TopicRepository}
use network_broker.Repository.Refinement.{
  ClientRefinement, TopicRefinement, Both, Both-none, Both-some, Both-elim,
}
use network_broker.Protocol.{
  BrokerCodes, ok, invalid_command, of_clients, same_code, Request, login_as, register_as,
  subscribe_to, create_topic, unsubscribe_from, publish_to, log_out, parse, code_to_string,
}
use network_broker.Broker.{World, login, register, perform, handle_command}
use network_broker.Broker.Invariant.{IsTidy}
use network_broker.Broker.Ids.{ids_of}
use network_broker.Broker.Refinement.{
  on_stores, Follows, login-on_stores, login-Follows, publish-Follows, unlogin-Follows,
  subscribe-Follows_broker, create-Follows_broker, unsubscribe-Follows_broker,
}

-- The code that `Register` returns of the code of `Login`, with the world that it left.
abbrev login_code : {W : Type 0} → BrokerCodes × W → BrokerCodes × W
login_code x = (if not (same_code x.0 ok) then x.0 else ok, x.1)

login_db :
    {ClientDb TopicDb : Type 0} (id : ℕ) (name : Text) (session : SessionWeakPtr)
    (w : World ClientDb TopicDb)
    → (login id name session w).1.clients.db ≡ w.clients.db
unfolding login ClientManager.connect_client
login_db id name session w = ground arith

-- A registration that has made a call of the client manager returns, over the store that the call left.
register_returns :
    {ClientDb TopicDb : Type 0} (repo : ClientRepository ClientDb) (id : ℕ) (name : Text)
    (session : SessionWeakPtr) (rolls : List ℕ) (w : World ClientDb TopicDb)
    (r : ClientsCodes × ClientManager ClientDb)
    → ClientManager.create_client repo name rolls w.clients ≡ some r
    → (y : BrokerCodes × World ClientDb TopicDb) × (register repo id name session rolls w ≡ some y)
      × (y.1.clients.db ≡ r.1.db)
unfolding register
register_returns {ClientDb} {TopicDb} repo id name session rolls w r e =
    let w' : World ClientDb TopicDb = record w { clients = r.1 } in
    elim (Bool-cases (same_code (of_clients r.0) ok)) [
      | inl good ↦ (
        login_code (login id name session w'),
        ground (arith, e, good),
        login_db id name session w',
      )
      | inr bad ↦ ((of_clients r.0, w'), ground (arith, e, bad), refl)
    ]

module _ {ClientDb TopicDb ClientSpec TopicSpec : Type 0} {client_repo : ClientRepository ClientDb}
    {topic_repo : TopicRepository TopicDb} {client_spec : ClientRepository ClientSpec}
    {topic_spec : TopicRepository TopicSpec} (C : ClientRefinement client_repo client_spec)
    (T : TopicRefinement topic_repo topic_spec) (c : ClientDb) (t : TopicDb)
    (w : World ClientSpec TopicSpec) (related_c : C.Rel c w.clients.db)
    (related_t : T.Rel t w.topics.db) (rolls : List ℕ) (rolled : All (λ n. n < 2 ^ 64) rolls)
    (id : ℕ) (session : SessionWeakPtr) where
  module _ (name : Text) where
    register_created :
        (c' : ClientDb) (code : ClientsCodes) (m : ClientManager ClientSpec)
        → ClientManager.create_client client_repo name rolls (Clients.with_db c w.clients)
          ≡ some (code, Clients.with_db c' m)
        → ClientManager.create_client client_spec name rolls w.clients ≡ some (code, m)
        → C.Rel c' m.db
        → Both
            (Follows C T)
            (register client_repo id name session rolls (on_stores c t w))
            (register client_spec id name session rolls w)
    unfolding register
    register_created c' code m e e' related =
        let w' : World ClientSpec TopicSpec = record w { clients = m } in
        elim (Bool-cases (same_code (of_clients code) ok)) [
          | inl good ↦
              let step = login-on_stores c' t w' id name session in
              let whole : login_code (login id name session (on_stores c' t w')) ≡ (
                (login_code (login id name session w')).0,
                on_stores c' t (login id name session w').1,
              ) =
                ap login_code step in
              Both-some (Follows C T) _ _ (login_code (login id name session (on_stores c' t w')))
                (login_code (login id name session w')) (ground (arith, e, good))
                (ground (arith, e', good))
                (inl (
                  c',
                  t,
                  whole,
                  subst (C.Rel c') (sym (login_db id name session w')) related,
                  related_t,
                ))
          | inr bad ↦
              Both-some (Follows C T) _ _ (of_clients code, on_stores c' t w') (of_clients code, w')
                (ground (arith, e, bad)) (ground (arith, e', bad))
                (inl (c', t, refl, related, related_t))
        ]

    register_broken :
        (r : ClientsCodes × ClientManager ClientDb) (s : ClientsCodes × ClientManager ClientSpec)
        → ClientManager.create_client client_repo name rolls (Clients.with_db c w.clients) ≡ some r
        → ClientManager.create_client client_spec name rolls w.clients ≡ some s
        → C.Broken r.1.db
        → Both
            (Follows C T)
            (register client_repo id name session rolls (on_stores c t w))
            (register client_spec id name session rolls w)
    register_broken r s e e' broken =
        let (x, ex, db) =
          register_returns client_repo id name session rolls (on_stores c t w) r e in
        let (y, ey, _) = register_returns client_spec id name session rolls w s e' in
        Both-some (Follows C T) _ _ x y ex ey (inr (inl (subst C.Broken (sym db) broken)))

    register-Follows :
        Both
          (Follows C T)
          (register client_repo id name session rolls (on_stores c t w))
          (register client_spec id name session rolls w)
    unfolding register
    register-Follows =
        elim (Both-elim (Clients.Follows C)
          (ClientManager.create_client client_repo name rolls (Clients.with_db c w.clients))
          (ClientManager.create_client client_spec name rolls w.clients)
          (create_client-Follows C name rolls c w.clients rolled related_c)) [
            | inl (e, e') ↦ Both-none (Follows C T) _ _ (ground (arith, e)) (ground (arith, e'))
            | inr ((code, m), (code', m'), e, e', inl (c', same, related)) ↦
                register_created c' code' m' (e ∙ ap some same) e' related
            | inr (r, s, e, e', inr broken) ↦ register_broken r s e e' broken
          ]

  module _ (tidy : IsTidy w) (small : All (λ n. n < 2 ^ 64) (ids_of w)) where
    perform-Follows :
        (r : Request)
        → Both
            (Follows C T)
            (perform client_repo topic_repo id r session rolls (on_stores c t w))
            (perform client_spec topic_spec id r session rolls w)
    unfolding perform
    perform-Follows (login_as name) = login-Follows C T c t w related_c related_t id name session
    perform-Follows (register_as name) = register-Follows name
    perform-Follows (subscribe_to topic) =
        subscribe-Follows_broker C T c t w related_c related_t tidy small id topic
    perform-Follows (create_topic topic) =
        create-Follows_broker C T c t w related_c related_t tidy small id topic
    perform-Follows (unsubscribe_from topic) =
        unsubscribe-Follows_broker C T c t w related_c related_t tidy small id topic
    perform-Follows (publish_to topic message) =
        publish-Follows C T c t w related_c related_t id topic message
    perform-Follows log_out = unlogin-Follows C T c t w related_c related_t id

    -- Handling a command over two stores that refine their specifications, in a world that is tidy and
    -- whose ids have 64 bits, the generator's numbers included, does what it does over the
    -- specifications: it still draws where that does; or it gives the same answer and the same clients,
    -- topics and sessions, over stores that are still related to theirs; or it breaks a store.
    pub handle_command-Follows :
        (command : Text)
        → Both
            (Follows C T)
            (handle_command client_repo topic_repo id command session rolls (on_stores c t w))
            (handle_command client_spec topic_spec id command session rolls w)
    unfolding handle_command
    handle_command-Follows command = elim (Option-cases (parse command)) [
      | inl bad ↦
          Both-some (Follows C T) _ _ (code_to_string invalid_command, on_stores c t w)
            (code_to_string invalid_command, w) (ground (arith, bad)) (ground (arith, bad))
            (inl (c, t, refl, related_c, related_t))
      | inr (r, good) ↦
          elim (Both-elim (Follows C T)
            (perform client_repo topic_repo id r session rolls (on_stores c t w))
            (perform client_spec topic_spec id r session rolls w) (perform-Follows r)) [
              | inl (e, e') ↦
                  Both-none (Follows C T) _ _ (ground (arith, good, e)) (ground (arith, good, e'))
              | inr (x, y, e, e', inl (c', t', same, rel_c, rel_t)) ↦
                  Both-some (Follows C T) _ _ (code_to_string x.0, x.1) (code_to_string y.0, y.1)
                    (ground (arith, good, e)) (ground (arith, good, e'))
                    (inl (c', t', ap (λ z. (code_to_string z.0, z.1)) same, rel_c, rel_t))
              | inr (x, y, e, e', inr broken) ↦
                  Both-some (Follows C T) _ _ (code_to_string x.0, x.1) (code_to_string y.0, y.1)
                    (ground (arith, good, e)) (ground (arith, good, e')) (inr broken)
            ]
    ]
