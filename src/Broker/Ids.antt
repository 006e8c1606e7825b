-- ===== src/Broker/Ids.antt =====
-- The ids of the clients under the commands: what holds of all of them and of all the numbers that the
-- generator gives goes on to hold.
use network_broker.Prelude.{
  ℕ, ◌≡◌, sym, subst, Text, some, List, arith, Option-cases, Bool-cases, inl, inr, All,
}
use network_broker.Client.{SessionWeakPtr}
use network_broker.ClientManager
use network_broker.ClientManager.Ids.{
  ids, ids-connect_client, ids-unlogin_client, ids-send_topic_message, create_client-All,
}
use network_broker.Topics
use network_broker.Repository.{ClientRepository, TopicRepository}
use network_broker.Protocol.{
  BrokerCodes, ok, same_code, of_clients, Request, login_as, register_as, subscribe_to,
  create_topic, unsubscribe_from, publish_to, log_out, parse,
}
use network_broker.Broker.{
  [], World, login, register, subscribe, create, unsubscribe, publish, unlogin, perform,
  handle_command,
}

module _ {ClientDb TopicDb : Type 0} where
  abbrev pub ids_of : World ClientDb TopicDb → List ℕ
  ids_of w = ids w.clients.clients

  module _ (w : World ClientDb TopicDb) (id : ℕ) where
    ids-login :
        (name : Text) (session : SessionWeakPtr) → ids_of (login id name session w).1 ≡ ids_of w
    unfolding login
    ids-login name session = ids-connect_client w.clients w.sessions name session

    ids-publish : (topic message : Text) → ids_of (publish id topic message w).1 ≡ ids_of w
    unfolding publish
    ids-publish topic message = ground (
      arith,
      ids-send_topic_message w.clients w.sessions message
          (Topics.publish topic message w.topics []).1,
    )

    ids-unlogin : ids_of (unlogin id w).1 ≡ ids_of w
    unfolding unlogin
    ids-unlogin = ground (
      arith,
      ids-unlogin_client w.clients w.sessions
          (ClientManager.get_client_id id w.clients w.sessions 0).1,
    )

  module _ (client_repo : ClientRepository ClientDb) (topic_repo : TopicRepository TopicDb)
      (P : ℕ → Type 0) (rolls : List ℕ) (rolled : All P rolls) (id : ℕ) (session : SessionWeakPtr)
      (w : World ClientDb TopicDb) (all : All P (ids_of w)) where
    register-All :
        (name : Text) (rc : BrokerCodes) (w' : World ClientDb TopicDb)
        → register client_repo id name session rolls w ≡ some (rc, w')
        → All P (ids_of w')
    unfolding register login
    register-All name rc w' e =
        elim (Option-cases (ClientManager.create_client client_repo name rolls w.clients)) [
          | inl stuck ↦ absurd (ground (arith, stuck))
          | inr ((code, m), made) ↦
              let added =
                create_client-All client_repo P name rolls w.clients m code rolled all made in
              elim (Bool-cases (same_code (of_clients code) ok)) [
                | inl good ↦
                    let same : ids_of w' ≡ ids m.clients =
                      ground (arith, made, good, ids-connect_client m w.sessions name session) in
                    subst (All P) (sym same) added
                | inr bad ↦
                    let same : ids_of w' ≡ ids m.clients = ground (arith, made, bad) in
                    subst (All P) (sym same) added
              ]
        ]

    perform-All :
        (r : Request) (rc : BrokerCodes) (w' : World ClientDb TopicDb)
        → perform client_repo topic_repo id r session rolls w ≡ some (rc, w')
        → All P (ids_of w')
    unfolding perform
    perform-All (login_as name) rc w' e =
        let same : ids_of w' ≡ ids_of w = ground (arith, ids-login w id name session) in
        subst (All P) (sym same) all
    perform-All (register_as name) rc w' e = register-All name rc w' e
    perform-All (publish_to topic message) rc w' e =
        let same : ids_of w' ≡ ids_of w = ground (arith, ids-publish w id topic message) in
        subst (All P) (sym same) all
    perform-All (subscribe_to topic) rc w' e =
        let same : ids_of w' ≡ ids_of w = unfold subscribe in ground arith in
        subst (All P) (sym same) all
    perform-All (create_topic topic) rc w' e =
        let same : ids_of w' ≡ ids_of w = unfold create in ground arith in
        subst (All P) (sym same) all
    perform-All (unsubscribe_from topic) rc w' e =
        let same : ids_of w' ≡ ids_of w = unfold unsubscribe in ground arith in
        subst (All P) (sym same) all
    perform-All log_out rc w' e =
        let same : ids_of w' ≡ ids_of w = ground (arith, ids-unlogin w id) in
        subst (All P) (sym same) all

    pub handle_command-All :
        (command answer : Text) (w' : World ClientDb TopicDb)
        → handle_command client_repo topic_repo id command session rolls w ≡ some (answer, w')
        → All P (ids_of w')
    unfolding handle_command
    handle_command-All command answer w' e = elim (Option-cases (parse command)) [
      | inl bad ↦ let same : w ≡ w' = ground (arith, bad) in subst (λ v. All P (ids_of v)) same all
      | inr (r, good) ↦ elim (Option-cases (perform client_repo topic_repo id r session rolls w)) [
        | inl stuck ↦ absurd (ground (arith, good, stuck))
        | inr ((rc, w''), done) ↦
            let same : w'' ≡ w' = ground (arith, good, done) in
            subst (λ v. All P (ids_of v)) same (perform-All r rc w'' done)
      ]
    ]
