-- ===== src/Tests/Brokers.antt =====
-- The broker over tables.
use network_broker.Prelude.{ℕ, ◌≡◌, refl, codes, false, some, none, arith, [], ◌∷◌, text_eq, nat_eq}
use network_broker.Prelude.Assoc.{find, emplace, put}
use network_broker.Prelude.IdSet.{contains}
use network_broker.Prelude.Streams.{getline, skip_space, split_word, extract}
use network_broker.Session.{get_id}
use network_broker.Client
use network_broker.Client.{Heap, Client}
use network_broker.ClientManager
use network_broker.ClientManager.{connect_client, ClientManager, ClientsCodes, create_client}
use network_broker.ClientManager.Connect.{has_name}
use network_broker.Topics.Subscriptions.{AllSets, known, subscribed}
use network_broker.Protocol.{BrokerCodes, subscribe_to, parse, code_to_string}
use network_broker.Broker.{World, register, publish, handle_command}
use network_broker.Broker.Authorization.{NobodyOn, handle_command_unauthorized}
use network_broker.Broker.Invariant.{IsTidy}
use network_broker.Broker.Registration.{Registered, register_adds, register_new}
use network_broker.Broker.Routing.{publish_delivers}
use network_broker.Table.{ClientTable, TopicTable, client_table, topic_table, save_client}
use network_broker.Tests.{news, alice, clients, topics, world}
use network_broker.Tests.Managers.{clients-WellFormed, with_carol, carol_made}

topics-AllSets : AllSets topics.topics
unfolding find contains
topics-AllSets t ids e = ground arith

-- Bob publishes: alice, who is offline, gets the message after the one that waits.
publish_delivers_example :
    find 10001 (publish 2 news (codes "x") world).1.clients.clients
    ≡ some (record alice { buffer = codes "hi" ∷ codes "x" ∷ [] })
unfolding find contains known subscribed ClientManager.get_client_id Client.get_session_id
    Client.lock get_id ClientManager.Delivery.is_online Client.buffer_topic_message
publish_delivers_example =
    (publish_delivers 2 10002 news (codes "x") world refl topics-AllSets refl).2 10001

NobodyOn-1 : NobodyOn 1 world
unfolding find Client.get_session_id Client.lock get_id
NobodyOn-1 k c there = ground arith

handle_command_unauthorized_example :
    handle_command client_table topic_table 1 (codes "SUBSCRIBE news") (some 1) [] world
    ≡ some (codes "ERROR You are unauthorized\n", world)
unfolding parse extract skip_space split_word getline find code_to_string
handle_command_unauthorized_example =
    handle_command_unauthorized client_table topic_table 1 (some 1) [] world
      (codes "SUBSCRIBE news") (subscribe_to news) refl refl (omega arith) clients-WellFormed
      NobodyOn-1

-- A second alice.
abbrev two_alices : ClientManager ClientTable
two_alices = record {
  clients = (10003, Client.new 10003 (codes "alice")) ∷ clients.clients;
  db = record clients.db { names = (10003, codes "alice") ∷ clients.db.names };
}

alice_made :
    create_client client_table (codes "alice") (10003 ∷ []) clients
    ≡ some (ClientsCodes.ok, two_alices)
unfolding create_client find emplace put save_client Client.new
alice_made = refl

register_adds_example :
    (new_id : ℕ) × (find new_id clients.clients ≡ none)
    × (find new_id two_alices.clients ≡ some (Client.new new_id (codes "alice")))
    × ((k : ℕ) (c : Client) → find k clients.clients ≡ some c → find k two_alices.clients ≡ some c)
register_adds_example =
    register_adds client_table 1 (codes "alice") (some 1) (10003 ∷ []) world two_alices alice_made

no_carol :
    (k : ℕ) (c : Client) → find k clients.clients ≡ some c → has_name (codes "carol") c ≡ false
unfolding find Client.get_name
no_carol k c there = ground arith

register_new_example :
    (w' : World ClientTable TopicTable) × (register client_table 1
        (codes "carol")
        (some 1)
        (10001 ∷ 10003 ∷ [])
        world
      ≡ some (BrokerCodes.ok, w'))
    × Registered (codes "carol") (some 1) world w'
unfolding Client.expired find
register_new_example =
    register_new client_table 1 (codes "carol") (some 1) (10001 ∷ 10003 ∷ []) world with_carol
      carol_made clients-WellFormed no_carol refl

pub world-IsTidy : IsTidy world
world-IsTidy = record { clients = clients-WellFormed; topics = topics-AllSets }
