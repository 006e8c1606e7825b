-- ===== src/Tests/Publications.antt =====
-- A PUBLISH to bob, who looks at the screen of his console client.
use network_broker.Prelude.{true, ◌≡◌, ◌<◌, refl, codes, [], ◌∷◌, ◌++◌, inr, length}
use network_broker.Prelude.Assoc.{find, assign}
use network_broker.Prelude.IdSet.{contains}
use network_broker.Prelude.Streams.{getline, after_line, has_newline}
use network_broker.Topics
use network_broker.Topics.Subscriptions.{known, subscribed}
use network_broker.Session.{Session, send, get_id}
use network_broker.Session.Queue
use network_broker.Session.Queue.{completions}
use network_broker.Client
use network_broker.Client.Sending.{points_to}
use network_broker.ClientManager
use network_broker.ClientManager.Delivery.{reaches, copies}
use network_broker.Broker.{publish}
use network_broker.ConsoleClient.{
  Console, connected_to, receive, print_line, shown, receives, prints, Steps, here, next,
}
use network_broker.ConsoleClient.Conversation.{bytes_of}
use network_broker.ConsoleClient.Publishing.{times, publish-shown}
use network_broker.Tests.{news, world, session_at}
use network_broker.Tests.Brokers.{world-IsTidy}
use network_broker.Tests.Consoles.{host, port}

abbrev screen : Console
screen = record {
  input = [];
  is_writing = true;
  sent = [];
  is_open = true;
  buffer = [];
  is_reading = true;
  out = connected_to host port;
  err = [];
}

abbrev half_way : Console
half_way = record screen { buffer = codes "x" }

abbrev arrived : Console
arrived = record screen { buffer = codes "x\n" }

abbrev showing : Console
showing = record screen { out = connected_to host port ++ shown (codes "x") }

abbrev after_publish : Session
after_publish = record (session_at 2) {
  outgoing = codes "x\n" ∷ [];
  pending_writes = codes "x\n" ∷ [];
}

arrives : Steps screen (bytes_of after_publish.outgoing) showing
unfolding bytes_of receive print_line getline after_line has_newline
arrives =
    next
      (next (next {e = half_way} here (receives (codes "x") refl))
        (receives {c' = arrived} (codes "\n") refl))
      (prints {c' = showing} refl)

publish-shown_example :
    let after = Queue.run (completions 1) after_publish in
    let lines =
      copies 2
        (codes "x")
        (Topics.publish news (codes "x") world.topics []).1
        world.clients.clients
        world.sessions in
    (after.outgoing ≡ [])
    × (after.written ≡ codes "x\n" ∷ [])
    × (0 < length lines)
    × (showing.out ≡ connected_to host port ++ times (length lines) (shown (codes "x")))
unfolding find contains known subscribed reaches points_to ClientManager.get_client_id
    Client.get_session_id Client.lock get_id publish Topics.publish ClientManager.send_topic_message
    Client.send_topic_message send has_newline assign
publish-shown_example =
    publish-shown 2 10002 news (codes "x") world 2 (session_at 2) after_publish 10002 screen showing
      refl world-IsTidy refl refl refl (refl, tt) refl refl refl refl refl refl arrives (inr refl)
