-- ===== src/Broker/Buffers.antt =====
-- The messages that wait for the clients, under the commands.
use network_broker.Prelude.{ℕ, ◌≡◌, Text, some, List, [], arith, Option-cases, Bool-cases, inl, inr}
use network_broker.Prelude.Streams.{IsLine}
use network_broker.Client.{SessionWeakPtr}
use network_broker.ClientManager
use network_broker.ClientManager.{ClientManager}
use network_broker.ClientManager.Buffers.{
  AllBuffers, AllBuffers-at, connect_client-AllBuffers, disconnect_client-AllBuffers,
  unlogin_client-AllBuffers, create_client-AllBuffers, deliver_all-AllBuffers,
}
use network_broker.Topics
use network_broker.Repository.{ClientRepository, TopicRepository}
use network_broker.Protocol.{
  BrokerCodes, ok, same_code, of_clients, of_topics, client_not_found, topic_not_found, Request,
  login_as, register_as, subscribe_to, create_topic, unsubscribe_from, publish_to, log_out, parse,
}
use network_broker.Protocol.Parsing.{IsPrintable-parse}
use network_broker.Broker.{
  World, login, register, subscribe, create, unsubscribe, publish, unlogin, disconnect, perform,
  handle_command,
}

-- The message of a PUBLISH.
abbrev pub SaysOk : (Text → Type 0) → Request → Type 0
SaysOk Ok (publish_to topic message) = Ok message
SaysOk Ok _ = Unit

pub SaysOk-any : (Ok : Text → Type 0) → ((text : Text) → Ok text) → (r : Request) → SaysOk Ok r
SaysOk-any Ok any (publish_to topic message) = any message
SaysOk-any Ok any (login_as name) = tt
SaysOk-any Ok any (register_as name) = tt
SaysOk-any Ok any (subscribe_to topic) = tt
SaysOk-any Ok any (create_topic topic) = tt
SaysOk-any Ok any (unsubscribe_from topic) = tt
SaysOk-any Ok any log_out = tt

-- A message that was parsed is a line.
pub parse-SaysOk : (r : Request) (command : Text) → parse command ≡ some r → SaysOk IsLine r
parse-SaysOk (publish_to topic message) command e =
    (IsPrintable-parse command (publish_to topic message) e).2
parse-SaysOk (login_as name) command e = tt
parse-SaysOk (register_as name) command e = tt
parse-SaysOk (subscribe_to topic) command e = tt
parse-SaysOk (create_topic topic) command e = tt
parse-SaysOk (unsubscribe_from topic) command e = tt
parse-SaysOk log_out command e = tt

module _ {ClientDb TopicDb : Type 0} (Ok : Text → Type 0) where
  -- What holds of all the messages that wait.
  abbrev pub AllWaiting : World ClientDb TopicDb → Type 0
  AllWaiting w = AllBuffers Ok w.clients.clients

  module _ (w : World ClientDb TopicDb) (all : AllWaiting w) (id : ℕ) where
    pub disconnect-AllWaiting : AllWaiting (disconnect id w)
    unfolding disconnect
    disconnect-AllWaiting = disconnect_client-AllBuffers Ok w.clients w.sessions all id

    login-AllWaiting :
        (name : Text) (session : SessionWeakPtr) → AllWaiting (login id name session w).1
    unfolding login
    login-AllWaiting name session =
        connect_client-AllBuffers Ok w.clients w.sessions all name session

    unlogin-AllWaiting : AllWaiting (unlogin id w).1
    unfolding unlogin
    unlogin-AllWaiting =
        let (rc, client_id) = ClientManager.get_client_id id w.clients w.sessions 0 in
        let left = (ClientManager.unlogin_client client_id w.clients w.sessions).1 in
        let out : World ClientDb TopicDb = record w { clients = left } in
        let all' : AllWaiting out =
          unlogin_client-AllBuffers Ok w.clients w.sessions all client_id in
        elim (Bool-cases (same_code (of_clients rc) client_not_found)) [
          | inl nobody ↦ AllBuffers-at Ok (ground (arith, nobody)) all
          | inr somebody ↦
              AllBuffers-at Ok {clients = out.clients.clients} (ground (arith, somebody)) all'
        ]

    publish-AllWaiting :
        (topic message : Text) → Ok message → AllWaiting (publish id topic message w).1
    unfolding publish ClientManager.send_topic_message
    publish-AllWaiting topic message good =
        let (rc, client_id) = ClientManager.get_client_id id w.clients w.sessions 0 in
        let (rc', ids) = Topics.publish topic message w.topics [] in
        let (clients, h) = ClientManager.deliver_all message ids w.clients.clients w.sessions in
        let all' : AllBuffers Ok clients =
          deliver_all-AllBuffers Ok message ids w.clients.clients w.sessions good all in
        elim (Bool-cases (same_code (of_clients rc) client_not_found)) [
          | inl nobody ↦ AllBuffers-at Ok (ground (arith, nobody)) all
          | inr somebody ↦ elim (Bool-cases (same_code (of_topics rc') topic_not_found)) [
            | inl missing ↦ AllBuffers-at Ok (ground (arith, somebody, missing)) all
            | inr there ↦
                AllBuffers-at Ok {clients = clients} (ground (arith, somebody, there)) all'
          ]
        ]

  module _ (client_repo : ClientRepository ClientDb) (topic_repo : TopicRepository TopicDb)
      (rolls : List ℕ) (id : ℕ) (session : SessionWeakPtr) (w : World ClientDb TopicDb)
      (all : AllWaiting w) where
    register-AllWaiting :
        (name : Text) (rc : BrokerCodes) (w' : World ClientDb TopicDb)
        → register client_repo id name session rolls w ≡ some (rc, w')
        → AllWaiting w'
    unfolding register
    register-AllWaiting name rc w' e =
        elim (Option-cases (ClientManager.create_client client_repo name rolls w.clients)) [
          | inl stuck ↦ absurd (ground (arith, stuck))
          | inr ((code, m), made) ↦
              let made_w : World ClientDb TopicDb = record w { clients = m } in
              let added : AllWaiting made_w =
                create_client-AllBuffers Ok w.clients w.sessions all client_repo name rolls code m
                  made in
              elim (Bool-cases (same_code (of_clients code) ok)) [
                | inl good ↦
                    AllBuffers-at Ok {clients = (login id name session made_w).1.clients.clients}
                      (ground (arith, made, good)) (login-AllWaiting made_w added id name session)
                | inr bad ↦
                    AllBuffers-at Ok {clients = made_w.clients.clients} (ground (arith, made, bad))
                      added
              ]
        ]

    perform-AllWaiting :
        (r : Request) (rc : BrokerCodes) (w' : World ClientDb TopicDb)
        → SaysOk Ok r
        → perform client_repo topic_repo id r session rolls w ≡ some (rc, w')
        → AllWaiting w'
    unfolding perform
    perform-AllWaiting (login_as name) rc w' good e =
        AllBuffers-at Ok {clients = (login id name session w).1.clients.clients} (ground arith)
          (login-AllWaiting w all id name session)
    perform-AllWaiting (register_as name) rc w' good e = register-AllWaiting name rc w' e
    perform-AllWaiting (publish_to topic message) rc w' good e =
        AllBuffers-at Ok {clients = (publish id topic message w).1.clients.clients} (ground arith)
          (publish-AllWaiting w all id topic message good)
    perform-AllWaiting (subscribe_to topic) rc w' good e =
        AllBuffers-at Ok {clients = w.clients.clients} (unfold subscribe in ground arith) all
    perform-AllWaiting (create_topic topic) rc w' good e =
        AllBuffers-at Ok {clients = w.clients.clients} (unfold create in ground arith) all
    perform-AllWaiting (unsubscribe_from topic) rc w' good e =
        AllBuffers-at Ok {clients = w.clients.clients} (unfold unsubscribe in ground arith) all
    perform-AllWaiting log_out rc w' good e =
        AllBuffers-at Ok {clients = (unlogin id w).1.clients.clients} (ground arith)
          (unlogin-AllWaiting w all id)

    pub handle_command-AllWaiting :
        (command answer : Text) (w' : World ClientDb TopicDb)
        → ((r : Request) → parse command ≡ some r → SaysOk Ok r)
        → handle_command client_repo topic_repo id command session rolls w ≡ some (answer, w')
        → AllWaiting w'
    unfolding handle_command
    handle_command-AllWaiting command answer w' says e = elim (Option-cases (parse command)) [
      | inl bad ↦ AllBuffers-at Ok {clients = w.clients.clients} (ground (arith, bad)) all
      | inr (r, good) ↦ elim (Option-cases (perform client_repo topic_repo id r session rolls w)) [
        | inl stuck ↦ absurd (ground (arith, good, stuck))
        | inr ((rc, w''), done) ↦
            AllBuffers-at Ok {clients = w''.clients.clients} (ground (arith, good, done))
              (perform-AllWaiting r rc w'' (says r good) done)
      ]
    ]
