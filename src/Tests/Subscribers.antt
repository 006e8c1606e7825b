-- ===== src/Tests/Subscribers.antt =====
-- The topic manager over a table.
use network_broker.Prelude.{◌≡◌, refl, true, false}
use network_broker.Prelude.Assoc.{find}
use network_broker.Prelude.IdSet.{contains}
use network_broker.Topics.{internal_error, subscribe, unsubscribe}
use network_broker.Topics.Subscriptions.{
  known, subscribed, subscribe-subscribed, unsubscribe-subscribed,
}
use network_broker.Table.{topic_table, save_topic, remove_from_topic}
use network_broker.Tests.{news, topics}

subscribe-subscribed_example :
    subscribed news 10003 (subscribe topic_table 10003 news topics).1.topics ≡ true
unfolding known subscribed find contains
subscribe-subscribed_example = (subscribe-subscribed news topics topic_table 10003).1 news 10003

unsubscribe-subscribed_example :
    subscribed news 10001 (unsubscribe topic_table 10001 news topics).1.topics ≡ false
unfolding known subscribed find contains remove_from_topic
unsubscribe-subscribed_example = (unsubscribe-subscribed news topics topic_table 10001).1 news 10001

-- Subscribing twice is refused by the store and answered as an internal error.
subscribe_twice : (subscribe topic_table 10001 news topics).0 ≡ internal_error
unfolding subscribe find contains save_topic
subscribe_twice = refl
