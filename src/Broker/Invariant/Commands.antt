-- ===== src/Broker/Invariant/Commands.antt =====
-- Every command keeps the tables of the broker well formed.
use network_broker.Prelude.{ℕ, ◌≡◌, subst, Text, some, List, arith, Option-cases, inl, inr}
use network_broker.Client.{SessionWeakPtr}
use network_broker.Repository.{ClientRepository, TopicRepository}
use network_broker.Protocol.{
  BrokerCodes, Request, login_as, register_as, subscribe_to, create_topic, unsubscribe_from,
  publish_to, log_out, parse,
}
use network_broker.Broker.{
  World, login, subscribe, create, unsubscribe, publish, unlogin, perform, handle_command,
}
use network_broker.Broker.Invariant.{
  IsTidy, login-IsTidy, register-IsTidy, publish-IsTidy, unlogin-IsTidy, subscribe-IsTidy,
  create-IsTidy, unsubscribe-IsTidy,
}

module _ {ClientDb TopicDb : Type 0} where
  module _ (client_repo : ClientRepository ClientDb) (topic_repo : TopicRepository TopicDb) (id : ℕ)
      (session : SessionWeakPtr) (rolls : List ℕ) (w : World ClientDb TopicDb) (h : IsTidy w) where
    perform-IsTidy :
        (r : Request) (rc : BrokerCodes) (w' : World ClientDb TopicDb)
        → perform client_repo topic_repo id r session rolls w ≡ some (rc, w')
        → IsTidy w'
    unfolding perform
    perform-IsTidy (login_as name) rc w' e =
        let same : (login id name session w).1 ≡ w' = ground arith in
        subst IsTidy same (login-IsTidy w h id name session)
    perform-IsTidy (register_as name) rc w' e =
        register-IsTidy w h client_repo id name session rolls rc w' e
    perform-IsTidy (publish_to topic message) rc w' e =
        let same : (publish id topic message w).1 ≡ w' = ground arith in
        subst IsTidy same (publish-IsTidy w h id topic message)
    perform-IsTidy (subscribe_to topic) rc w' e =
        let same : (subscribe topic_repo id topic w).1 ≡ w' = ground arith in
        subst IsTidy same (subscribe-IsTidy w h topic_repo id topic)
    perform-IsTidy (create_topic topic) rc w' e =
        let same : (create topic_repo id topic w).1 ≡ w' = ground arith in
        subst IsTidy same (create-IsTidy w h topic_repo id topic)
    perform-IsTidy (unsubscribe_from topic) rc w' e =
        let same : (unsubscribe topic_repo id topic w).1 ≡ w' = ground arith in
        subst IsTidy same (unsubscribe-IsTidy w h topic_repo id topic)
    perform-IsTidy log_out rc w' e =
        let same : (unlogin id w).1 ≡ w' = ground arith in subst IsTidy same (unlogin-IsTidy w h id)

    -- Handling a command keeps the table of clients well formed and the sets of ids without repeats.
    pub handle_command-IsTidy :
        (command answer : Text) (w' : World ClientDb TopicDb)
        → handle_command client_repo topic_repo id command session rolls w ≡ some (answer, w')
        → IsTidy w'
    unfolding handle_command
    handle_command-IsTidy command answer w' e = elim (Option-cases (parse command)) [
      | inl bad ↦ let same : w ≡ w' = ground (arith, bad) in subst IsTidy same h
      | inr (r, good) ↦ elim (Option-cases (perform client_repo topic_repo id r session rolls w)) [
        | inl stuck ↦ absurd (ground (arith, good, stuck))
        | inr ((rc, w''), done) ↦
            let same : w'' ≡ w' = ground (arith, good, done) in
            subst IsTidy same (perform-IsTidy r rc w'' done)
      ]
    ]
