-- ===== src/Tests/Orders.antt =====
-- Two servers of which one goes through the subscribers of a topic in the other order.
use mathlib.Core.List.Permᴰ
use network_broker.Prelude.{refl, codes, text_eq, ◌==◌, [], ◌∷◌, arith, Bool-cases, inl, inr}
use network_broker.Prelude.Assoc.{find, assign}
use network_broker.Prelude.Streams.{getline, extract, skip_space, split_word}
use network_broker.Session
use network_broker.Client
use network_broker.ClientManager
use network_broker.Topics
use network_broker.Topics.{Topics}
use network_broker.Topics.Order.{SameTopics, missing, both}
use network_broker.Protocol.{parse, code_to_string}
use network_broker.Broker
use network_broker.Server.{Server, received, handle_line, answer}
use network_broker.Server.Reach.{Reach, here, next, receives}
use network_broker.Server.Order.{on_topics, Reach-SameTopics}
use network_broker.Table.{ClientTable, TopicTable, client_table, topic_table}
use network_broker.Tests.{news, alice, bob, world, clients, topics, server, session_at}
use network_broker.Tests.Brokers.{world-IsTidy}

abbrev turned : Topics
turned = (news, 10002 ∷ 10001 ∷ []) ∷ []

topics-turned : SameTopics topics.topics turned
unfolding find
topics-turned t = elim (Bool-cases (news == t)) [
  | inl h ↦
      both (ground (arith, h)) (ground (arith, h))
        (Permᴰ.swap {a = 10001} {b = 10002} {l = []} refl refl)
  | inr h ↦ missing (ground (arith, h)) (ground (arith, h))
]

-- Bob has published on the topic.
abbrev published : Server ClientTable TopicTable
published = record server {
  world = record world {
    clients = record clients {
      clients = (10001, record alice { buffer = codes "hi" ∷ codes "x" ∷ [] }) ∷ (10002, bob) ∷ [];
    };
    sessions =
        (1, session_at 1)
        ∷ (
          2,
          record (session_at 2) {
            outgoing = codes "x\n" ∷ codes "OK\n" ∷ [];
            pending_writes = codes "x\n" ∷ [];
          },
        )
        ∷ [];
  };
}

one_publish : Reach client_table topic_table server published
unfolding find assign received handle_line answer getline parse extract skip_space split_word
    code_to_string Broker.handle_command Broker.perform Broker.publish ClientManager.get_client_id
    ClientManager.send_topic_message ClientManager.deliver_all ClientManager.deliver Topics.publish
    Topics.entry Client.send_topic_message Client.buffer_topic_message Client.get_session_id
    Client.send_to Client.lock Session.send Session.read Session.do_write Session.get_id
one_publish =
    next here (receives 2 (session_at 2) (codes "PUBLISH news x\n") [] refl (omega arith) refl)

Reach-SameTopics_example :
    (ts : Topics) × Reach client_table topic_table
      (on_topics turned server)
      (on_topics ts published)
    × SameTopics topics.topics ts
Reach-SameTopics_example =
    Reach-SameTopics client_table topic_table turned server published world-IsTidy topics-turned
      one_publish
