-- ===== src/Server/Heaps/Commands.antt =====
-- What the commands of the broker do to the sessions.
use network_broker.Prelude.{
  ℕ, ◌≡◌, subst, Text, ◌⊎◌, some, List, [], nat_eq, text_eq, arith, Option-cases, Bool-cases, inl,
  inr, sym,
}
use network_broker.Session.{Session, send}
use network_broker.Client.{SessionWeakPtr}
use network_broker.Client.Sending.{line}
use network_broker.Client
use network_broker.ClientManager
use network_broker.ClientManager.Buffers.{AllBuffers, create_client-AllBuffers}
use network_broker.ClientManager.{
  Clients, ClientManager, first_with, deliver, deliver_all, connect_client, send_topic_message,
}
use network_broker.Topics
use network_broker.Repository.{ClientRepository, TopicRepository}
use network_broker.Protocol.{
  BrokerCodes, same_code, of_clients, ok, Request, login_as, register_as, subscribe_to,
  create_topic, unsubscribe_from, publish_to, log_out, parse,
}
use network_broker.Broker.{
  World, login, register, subscribe, create, unsubscribe, publish, unlogin, perform, handle_command,
}
use network_broker.Broker.Buffers.{SaysOk}
use network_broker.Server.Heaps.{AllSessions, deliver_all-AllSessions, connect_client-AllSessions}

module _ {ClientDb TopicDb : Type 0} where
  publish_sessions :
      (id : ℕ) (topic message : Text) (w : World ClientDb TopicDb)
      → ((publish id topic message w).1.sessions ≡ w.sessions)
        ⊎ ((publish id topic message w).1.sessions
            ≡ (deliver_all message
                (Topics.publish topic message w.topics []).1
                w.clients.clients
                w.sessions).1)
  unfolding publish send_topic_message
  publish_sessions id topic message w = ground arith

  register_sessions :
      (repo : ClientRepository ClientDb) (id : ℕ) (name : Text) (session : SessionWeakPtr)
      (rolls : List ℕ) (rc : BrokerCodes) (w w' : World ClientDb TopicDb)
      → register repo id name session rolls w ≡ some (rc, w')
      → (w'.sessions ≡ w.sessions)
        ⊎ ((m : ClientManager ClientDb) × (w'.sessions
              ≡ (connect_client name session m w.sessions).2)
            × ((Ok : Text → Type 0) → AllBuffers Ok w.clients.clients → AllBuffers Ok m.clients))
  unfolding register login
  register_sessions repo id name session rolls rc w w' e =
      elim (Option-cases (ClientManager.create_client repo name rolls w.clients)) [
        | inl stuck ↦ absurd (ground (arith, stuck))
        | inr ((code, m), made) ↦ elim (Bool-cases (same_code (of_clients code) ok)) [
          | inl good ↦ inr (
            m,
            ground (arith, made, good),
            λ Ok waiting.
                create_client-AllBuffers Ok w.clients w.sessions waiting repo name rolls code m
                  made,
          )
          | inr bad ↦ inl (ground (arith, made, bad))
        ]
      ]

module _ (P : ℕ → Session → Type 0) (Ok : Text → Type 0)
    (stable : (p : ℕ) (msg : Text) (s : Session) → Ok msg → P p s → P p (send (line msg) s))
    (hello : Ok Client.greeting) where
  module _ {ClientDb TopicDb : Type 0} (w : World ClientDb TopicDb)
      (waiting : AllBuffers Ok w.clients.clients) (all : AllSessions P w.sessions) where
    login-AllSessions :
        (id : ℕ) (name : Text) (session : SessionWeakPtr)
        → AllSessions P (login id name session w).1.sessions
    unfolding login
    login-AllSessions id name session =
        connect_client-AllSessions P Ok stable name session w.clients w.sessions hello waiting all

    pub publish-AllSessions :
        (id : ℕ) (topic message : Text)
        → Ok message
        → AllSessions P (publish id topic message w).1.sessions
    publish-AllSessions id topic message good = elim (publish_sessions id topic message w) [
      | inl same ↦ subst (AllSessions P) (sym same) all
      | inr sent ↦
          subst (AllSessions P) (sym sent)
            (deliver_all-AllSessions P Ok stable message _ w.clients.clients w.sessions good all)
    ]

    register-AllSessions :
        (repo : ClientRepository ClientDb) (id : ℕ) (name : Text) (session : SessionWeakPtr)
        (rolls : List ℕ) (rc : BrokerCodes) (w' : World ClientDb TopicDb)
        → register repo id name session rolls w ≡ some (rc, w')
        → AllSessions P w'.sessions
    register-AllSessions repo id name session rolls rc w' e =
        elim (register_sessions repo id name session rolls rc w w' e) [
          | inl same ↦ subst (AllSessions P) (sym same) all
          | inr (m, sent, buffers) ↦ subst (AllSessions P) (sym sent) (
              connect_client-AllSessions P Ok stable name session m w.sessions hello
                (buffers Ok waiting) all)
        ]

  module _ {ClientDb TopicDb : Type 0} (client_repo : ClientRepository ClientDb)
      (topic_repo : TopicRepository TopicDb) (id : ℕ) (session : SessionWeakPtr) (rolls : List ℕ)
      (w : World ClientDb TopicDb) (waiting : AllBuffers Ok w.clients.clients)
      (all : AllSessions P w.sessions) where
    perform-AllSessions :
        (r : Request) (rc : BrokerCodes) (w' : World ClientDb TopicDb)
        → SaysOk Ok r
        → perform client_repo topic_repo id r session rolls w ≡ some (rc, w')
        → AllSessions P w'.sessions
    unfolding perform
    perform-AllSessions (login_as name) rc w' good e =
        let same : (login id name session w).1.sessions ≡ w'.sessions = ground arith in
        subst (AllSessions P) same (login-AllSessions w waiting all id name session)
    perform-AllSessions (register_as name) rc w' good e =
        register-AllSessions w waiting all client_repo id name session rolls rc w' e
    perform-AllSessions (publish_to topic message) rc w' good e =
        let same : (publish id topic message w).1.sessions ≡ w'.sessions = ground arith in
        subst (AllSessions P) same (publish-AllSessions w waiting all id topic message good)
    perform-AllSessions (subscribe_to topic) rc w' good e =
        let same : w.sessions ≡ w'.sessions = unfold subscribe in ground arith in
        subst (AllSessions P) same all
    perform-AllSessions (create_topic topic) rc w' good e =
        let same : w.sessions ≡ w'.sessions = unfold create in ground arith in
        subst (AllSessions P) same all
    perform-AllSessions (unsubscribe_from topic) rc w' good e =
        let same : w.sessions ≡ w'.sessions = unfold unsubscribe in ground arith in
        subst (AllSessions P) same all
    perform-AllSessions log_out rc w' good e =
        let same : w.sessions ≡ w'.sessions = unfold unlogin in ground arith in
        subst (AllSessions P) same all

    -- A property that the `Send` of a line keeps is kept by every command that is handled.
    pub handle_command-AllSessions :
        (command answer : Text) (w' : World ClientDb TopicDb)
        → ((r : Request) → parse command ≡ some r → SaysOk Ok r)
        → handle_command client_repo topic_repo id command session rolls w ≡ some (answer, w')
        → AllSessions P w'.sessions
    unfolding handle_command
    handle_command-AllSessions command answer w' says e = elim (Option-cases (parse command)) [
      | inl bad ↦
          let same : w.sessions ≡ w'.sessions = ground (arith, bad) in
          subst (AllSessions P) same all
      | inr (r, good) ↦ elim (Option-cases (perform client_repo topic_repo id r session rolls w)) [
        | inl stuck ↦ absurd (ground (arith, good, stuck))
        | inr ((rc, w''), done) ↦
            let same : w''.sessions ≡ w'.sessions = ground (arith, good, done) in
            subst (AllSessions P) same (perform-AllSessions r rc w'' (says r good) done)
      ]
    ]
