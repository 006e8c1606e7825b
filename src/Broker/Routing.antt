-- ===== src/Broker/Routing.antt =====
-- PUBLISH from end to end: the topic's subscribers, and the sessions and buffers that the message
-- reaches.
use network_broker.Prelude.{
  ℕ, ◌≡◌, Text, true, false, Option, none, some, [], ◌++◌, nat_eq, text_eq, arith,
}
use network_broker.Prelude.Assoc.{find}
use network_broker.Client.{Client}
use network_broker.Client.Sending.{queue}
use network_broker.ClientManager
use network_broker.ClientManager.{ClientsCodes}
use network_broker.ClientManager.Delivery.{after_message, copies, send_topic_message_delivers}
use network_broker.Topics
use network_broker.Topics.{TopicCodes}
use network_broker.Topics.Subscriptions.{
  known, subscribed, AllSets, publish-subscribed, publish-NoRepeat,
}
use network_broker.Protocol.{ok, topic_not_found}
use network_broker.Broker.{World, publish}

module _ {ClientDb TopicDb : Type 0} (id client_id : ℕ) (topic message : Text)
    (w : World ClientDb TopicDb)
    (authorized : ClientManager.get_client_id id w.clients w.sessions 0
      ≡ (ClientsCodes.ok, client_id)) where
  -- A client that publishes on a known topic is answered Ok. Each subscriber that is offline has the
  -- message at the end of its buffer, no other client's record changes, the queue of each session
  -- grows by one line for each subscriber that is online through it, and the topics stay.
  pub publish_delivers :
      AllSets w.topics.topics
      → known topic w.topics.topics ≡ true
      → let w' = (publish id topic message w).1 in
        ((publish id topic message w).0 ≡ ok)
        × (w'.topics ≡ w.topics)
        × ((k : ℕ)
            → find k w'.clients.clients ≡ elim (find k w.clients.clients) as (λ _. Option Client) [
              | none ↦ none
              | some c ↦
                  some (after_message message (subscribed topic k w.topics.topics) w.sessions c)
            ])
        × ((p : ℕ)
            → queue p w'.sessions
              ≡ queue p w.sessions
                ++ copies p message
                    (Topics.publish topic message w.topics []).1
                    w.clients.clients
                    w.sessions)
  unfolding publish
  publish_delivers sets there = (
    ground (arith, (publish-subscribed topic w.topics message []).0),
    ground (arith, (publish-subscribed topic w.topics message []).0),
    λ k. ground (
      arith,
      (publish-subscribed topic w.topics message []).0,
      (publish-subscribed topic w.topics message []).1 k,
      (send_topic_message_delivers message (Topics.publish topic message w.topics []).1 w.clients
            w.sessions (publish-NoRepeat topic w.topics message sets)).0
          k,
    ),
    λ p. ground (
      arith,
      (publish-subscribed topic w.topics message []).0,
      (send_topic_message_delivers message (Topics.publish topic message w.topics []).1 w.clients
            w.sessions (publish-NoRepeat topic w.topics message sets)).1
          p,
    ),
  )

  -- On a topic that is not there the answer says so and nothing changes.
  publish_unknown :
      known topic w.topics.topics ≡ false → publish id topic message w ≡ (topic_not_found, w)
  unfolding publish
  publish_unknown missing = ground (arith, (publish-subscribed topic w.topics message []).0)
