-- ===== src/Tests/Forwarding.antt =====
-- Bob publishes while alice is offline, and then alice logs in.
use network_broker.Prelude.{
  ℕ, ◌≡◌, refl, codes, true, some, arith, [], ◌∷◌, ◌++◌, map, if◌then◌else◌, text_eq, nat_eq,
}
use network_broker.Prelude.Assoc.{find, assign}
use network_broker.Prelude.IdSet.{contains}
use network_broker.Session.{get_id}
use network_broker.Client
use network_broker.Client.{Client, Heap}
use network_broker.Client.Sending.{queue, points_to, line}
use network_broker.ClientManager
use network_broker.ClientManager.{ClientManager, ClientsCodes, connect_client}
use network_broker.ClientManager.Connect.{has_name, connected}
use network_broker.Topics
use network_broker.Topics.Subscriptions.{known, subscribed}
use network_broker.Broker.{World, publish}
use network_broker.Broker.Forwarding.{connect_client-publish}
use network_broker.Table.{ClientTable, TopicTable}
use network_broker.Tests.{news, alice, world}
use network_broker.Tests.Brokers.{world-IsTidy}

only_alice :
    (j : ℕ) (d : Client)
    → find j world.clients.clients ≡ some d
    → has_name (codes "alice") d ≡ true
    → j ≡ 10001
unfolding find Client.get_name
only_alice j d there named = ground (arith, there, named)

-- Where alice logs in after bob's session has published.
abbrev published : World ClientTable TopicTable
published = (publish 2 news (codes "x") world).1

abbrev alice_in : ClientsCodes × ClientManager ClientTable × Heap
alice_in = connect_client (codes "alice") (some 1) published.clients published.sessions

connect_client-publish_example :
    (find 10001 alice_in.1.clients ≡ some (connected (some 1) alice))
    × ((p : ℕ)
        → queue p alice_in.2
          ≡ queue p published.sessions
            ++ (if points_to p (some 1) published.sessions
                then map line (Client.greeting ∷ codes "hi" ∷ codes "x" ∷ [])
                else []))
unfolding find contains known subscribed ClientManager.get_client_id Client.get_session_id
    Client.lock get_id ClientManager.Delivery.is_online connect_client publish Topics.publish
    ClientManager.send_topic_message assign Client.get_name Client.expired
    Client.buffer_topic_message Client.send_topic_message
connect_client-publish_example =
    connect_client-publish 2 10002 news (codes "x") (codes "alice") world refl world-IsTidy refl
      (some 1) alice_in.1 alice_in.2 10001 alice refl refl refl only_alice refl
