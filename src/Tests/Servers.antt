-- ===== src/Tests/Servers.antt =====
-- The server over tables.
use network_broker.Prelude.{◌+◌, ◌^◌, ◌<◌, ◌≡◌, refl, codes, true, some, List, Text, arith, [], ◌∷◌}
use network_broker.Prelude.Cut.{cut}
use network_broker.Prelude.Assoc.{find, emplace}
use network_broker.Broker.{World}
use network_broker.Broker.Invariant.{IsTidy}
use network_broker.Server
use network_broker.Server.{
  Server, new, start, accepted, accept_next, do_accept, received, write_done,
}
use network_broker.Server.Safety.{IsSafe}
use network_broker.Server.Reach.{accepts, stops, Reach, here, next, Reach-IsSafe}
use network_broker.Server.Tidiness.{Reach-IsTidy}
use network_broker.Server.Pipelining.{
  first_line, first_lines, read_segments, handle_lines, read_segments_loses,
}
use network_broker.Session
use network_broker.Session.{Session}
use network_broker.Table.{ClientTable, TopicTable, client_table, topic_table}
use network_broker.Tests.{world, server, session_at}
use network_broker.Tests.Brokers.{world-IsTidy}

abbrev pub empty_world : World ClientTable TopicTable
empty_world = record world { sessions = [] }

-- The server after its first connection.
abbrev pub one_session : Server ClientTable TopicTable
one_session = record {
  next_session_id = 3;
  pending_accepts = 2 ∷ [];
  is_accepting = true;
  is_running = true;
  world = record empty_world {
    sessions =
        (
          1,
          record (session_at 1) {
            outgoing = Session.welcome ∷ [];
            pending_writes = Session.welcome ∷ [];
          },
        )
        ∷ [];
  };
}

pub first_accept : accepted (start (new empty_world)) ≡ some one_session
unfolding accepted start new accept_next do_accept emplace find Session.start Session.new
    Session.set_self Session.get_id Session.send Session.do_write Session.read
first_accept = refl

two_steps : Reach client_table topic_table (start (new empty_world)) (Server.stop one_session)
two_steps = next (next here (accepts first_room first_accept)) (stops refl)
  where
    first_room : (start (new empty_world)).next_session_id + 1 < 2 ^ 64
    first_room = unfold start new do_accept in omega arith

Reach-IsSafe_example : IsSafe (Server.stop one_session)
Reach-IsSafe_example =
    Reach-IsSafe client_table topic_table empty_world (Server.stop one_session) refl two_steps

abbrev from_server : Reach client_table topic_table server (Server.stop server)
from_server = next here (stops refl)

Reach-IsTidy_example : IsTidy (Server.stop server).world
Reach-IsTidy_example =
    Reach-IsTidy client_table topic_table server (Server.stop server) world-IsTidy from_server

-- A command in two segments, the second with a command and a half behind it, whose end comes in a third.
abbrev segments : List Text
segments = codes "LOG" ∷ codes "IN alice\nCREATE t\nUNLO" ∷ codes "GIN\n" ∷ []

read_segments_loses_example :
    read_segments client_table topic_table (λ n. []) 1 [] segments 0 server
    ≡ handle_lines client_table topic_table
        (λ n. [])
        1
        (codes "LOGIN alice" ∷ codes "GIN" ∷ [])
        0
        server
unfolding cut first_line first_lines
read_segments_loses_example =
    read_segments_loses client_table topic_table (λ n. []) 1 segments server
