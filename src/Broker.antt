-- ===== src/Broker.antt =====
-- app/src/broker/message_broker.h and message_broker.cpp: the broker between its two managers. The
-- managers and the sessions are shared objects, so one state holds them all.
pub mod Authorization
pub mod Routing
pub mod Forwarding
pub mod Registration
pub mod Invariant
pub mod Ids
pub mod Refinement
pub mod Order
pub mod Buffers
use network_broker.Prelude.{ℕ, Text, not, Option, none, some, List, [], if◌then◌else◌}
use network_broker.Client.{Heap, SessionWeakPtr}
use network_broker.ClientManager
use network_broker.ClientManager.{ClientManager}
use network_broker.Topics
use network_broker.Topics.{TopicManager}
use network_broker.Repository.{ClientRepository, TopicRepository}
use network_broker.Protocol.{
  BrokerCodes, ok, client_not_found, topic_not_found, invalid_command, unauthorized, unloged,
  of_clients, of_topics, same_code, Request, login_as, register_as, subscribe_to, create_topic,
  unsubscribe_from, publish_to, log_out, parse, code_to_string,
}

pub record World (ClientDb TopicDb : Type 0) : Type 0 where
  pub clients : ClientManager ClientDb
  pub topics : TopicManager TopicDb
  pub sessions : Heap

-- `ClientId clientId;`, whose value is read only after the manager has written it.
abbrev pub uninitialised : ℕ
uninitialised = 0

module _ {ClientDb TopicDb : Type 0} where
  unfoldable pub login :
      ℕ → Text → SessionWeakPtr → World ClientDb TopicDb → BrokerCodes × World ClientDb TopicDb
  login id name session w =
      let (rc, clients, sessions) =
        ClientManager.connect_client name session w.clients w.sessions in
      (of_clients rc, record w { clients = clients; sessions = sessions })

  unfoldable pub publish :
      ℕ → Text → Text → World ClientDb TopicDb → BrokerCodes × World ClientDb TopicDb
  publish id topic message w =
      let (rc, client_id) = ClientManager.get_client_id id w.clients w.sessions uninitialised in
      if same_code (of_clients rc) client_not_found
      then (unauthorized, w)
      else let (rc', ids) = Topics.publish topic message w.topics [] in
        if same_code (of_topics rc') topic_not_found
        then (of_topics rc', w)
        else let (clients, sessions) =
            ClientManager.send_topic_message message ids w.clients w.sessions in
          (ok, record w { clients = clients; sessions = sessions })

  unfoldable pub unlogin : ℕ → World ClientDb TopicDb → BrokerCodes × World ClientDb TopicDb
  unlogin id w =
      let (rc, client_id) = ClientManager.get_client_id id w.clients w.sessions uninitialised in
      if same_code (of_clients rc) client_not_found
      then (unauthorized, w)
      else let (rc', clients) = ClientManager.unlogin_client client_id w.clients w.sessions in
        let w' : World ClientDb TopicDb = record w { clients = clients } in
        if same_code (of_clients rc') ok then (unloged, w') else (of_clients rc', w')

  -- MessageBroker::Disconnect
  unfoldable pub disconnect : ℕ → World ClientDb TopicDb → World ClientDb TopicDb
  disconnect id w = record w { clients = ClientManager.disconnect_client id w.clients w.sessions }

  module _ (topic_repo : TopicRepository TopicDb) where
    unfoldable pub subscribe :
        ℕ → Text → World ClientDb TopicDb → BrokerCodes × World ClientDb TopicDb
    subscribe id topic w =
        let (rc, client_id) = ClientManager.get_client_id id w.clients w.sessions uninitialised in
        if same_code (of_clients rc) client_not_found
        then (unauthorized, w)
        else let (rc', topics) = Topics.subscribe topic_repo client_id topic w.topics in
          (of_topics rc', record w { topics = topics })

    unfoldable pub create : ℕ → Text → World ClientDb TopicDb → BrokerCodes × World ClientDb TopicDb
    create id topic w =
        let (rc, client_id) = ClientManager.get_client_id id w.clients w.sessions uninitialised in
        if same_code (of_clients rc) client_not_found
        then (unauthorized, w)
        else let (rc', topics) = Topics.create topic_repo client_id topic w.topics in
          (of_topics rc', record w { topics = topics })

    unfoldable pub unsubscribe :
        ℕ → Text → World ClientDb TopicDb → BrokerCodes × World ClientDb TopicDb
    unsubscribe id topic w =
        let (rc, client_id) = ClientManager.get_client_id id w.clients w.sessions uninitialised in
        if same_code (of_clients rc) client_not_found
        then (unauthorized, w)
        else let (rc', topics) = Topics.unsubscribe topic_repo client_id topic w.topics in
          (of_topics rc', record w { topics = topics })

  module _ (client_repo : ClientRepository ClientDb) where
    -- `none`: the client manager is still drawing an id after the given numbers.
    unfoldable pub register :
        ℕ
        → Text
        → SessionWeakPtr
        → List ℕ
        → World ClientDb TopicDb
        → Option (BrokerCodes × World ClientDb TopicDb)
    unfolding login
    register id name session rolls w =
        elim (ClientManager.create_client client_repo name rolls w.clients) [
          | none ↦ none
          | some (rc, clients) ↦
              let w' : World ClientDb TopicDb = record w { clients = clients } in
              if not (same_code (of_clients rc) ok)
              then some (of_clients rc, w')
              else let (rc', w'') = login id name session w' in
                if not (same_code rc' ok) then some (rc', w'') else some (ok, w'')
        ]

    module _ (topic_repo : TopicRepository TopicDb) where
      unfoldable pub perform :
          ℕ
          → Request
          → SessionWeakPtr
          → List ℕ
          → World ClientDb TopicDb
          → Option (BrokerCodes × World ClientDb TopicDb)
      perform id (login_as name) session rolls w = some (login id name session w)
      perform id (register_as name) session rolls w = register id name session rolls w
      perform id (subscribe_to topic) session rolls w = some (subscribe topic_repo id topic w)
      perform id (create_topic topic) session rolls w = some (create topic_repo id topic w)
      perform id (unsubscribe_from topic) session rolls w = some (unsubscribe topic_repo id topic w)
      perform id (publish_to topic message) session rolls w = some (publish id topic message w)
      perform id log_out session rolls w = some (unlogin id w)

      unfoldable pub handle_command :
          ℕ
          → Text
          → SessionWeakPtr
          → List ℕ
          → World ClientDb TopicDb
          → Option (Text × World ClientDb TopicDb)
      handle_command id command session rolls w = elim (parse command) [
        | none ↦ some (code_to_string invalid_command, w)
        | some request ↦ elim (perform id request session rolls w) [
          | none ↦ none
          | some (rc, w') ↦ some (code_to_string rc, w')
        ]
      ]
