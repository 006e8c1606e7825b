-- ===== src/Tests/Receptions.antt =====
-- A client that is greeted: from the start of the server to the screen.
use network_broker.Prelude.{
  ◌+◌, ◌^◌, ◌<◌, ◌≡◌, ◌⊎◌, refl, Text, codes, none, List, [], ◌∷◌, ◌++◌, map, arith, inr, All,
}
use network_broker.Prelude.Assoc.{find, assign}
use network_broker.Prelude.Streams.{IsLine, getline, after_line, has_newline}
use network_broker.Session
use network_broker.Session.{Session, welcome}
use network_broker.Broker.Buffers.{AllWaiting}
use network_broker.Server.{Server, new, start, do_accept, write_done}
use network_broker.Server.Reach.{Reach, here, next, accepts, writes}
use network_broker.Server.Framing.{AllFramed}
use network_broker.Server.Framing.Reached.{Reach-AllFramed}
use network_broker.ConsoleClient.{
  run, connected_to, shown, receive, print_line, receives, prints, Steps,
}
use network_broker.ConsoleClient.Printing.{shown_all}
use network_broker.ConsoleClient.Conversation.{bytes_of, as_text, welcome_lines}
use network_broker.ConsoleClient.Reception.{Reach-shown}
use network_broker.Table.{client_table, topic_table, ClientTable, TopicTable}
use network_broker.Tests.{session_at}
use network_broker.Tests.Servers.{empty_world, one_session, first_accept}
use network_broker.Tests.Consoles.{host, port, typed, showing, first_two, all_four}

abbrev pub welcomed : Session
welcomed = record (session_at 1) { written = welcome ∷ [] }

abbrev greeted_server : Server ClientTable TopicTable
greeted_server = record one_session { world = record empty_world { sessions = (1, welcomed) ∷ [] } }

to_greeting : Reach client_table topic_table (start (new empty_world)) greeted_server
unfolding find assign write_done Session.write_done
to_greeting = next (next here (accepts room first_accept)) (
    writes 1 (record (session_at 1) { outgoing = welcome ∷ []; pending_writes = welcome ∷ [] }) refl
      (λ e. absurd (ground (arith, e))) refl)
  where
    room : (start (new empty_world)).next_session_id + 1 < 2 ^ 64
    room = unfold start new do_accept in omega arith

waiting : AllWaiting IsLine empty_world
waiting = ground arith

Reach-AllFramed_example : AllFramed greeted_server.world
Reach-AllFramed_example =
    Reach-AllFramed client_table topic_table (start (new empty_world)) greeted_server
      (unfold start new do_accept in refl) (unfold start new do_accept in waiting) to_greeting

pub sees_welcome :
    Steps (run host port typed none) (bytes_of welcomed.written) (showing all_four [])
unfolding run receive print_line getline after_line has_newline bytes_of
sees_welcome =
    Steps.next
      (Steps.next
        (Steps.next
          (Steps.next (Steps.next {e = showing [] welcome} Steps.here (receives welcome refl)) (
            prints
              {c' = showing (shown (codes "Welcome to MessageBroker"))
                (codes "Available commands:\nREGISTER <name>\nLOGIN <name>\n")}
              refl))
          (prints {c' = showing first_two (codes "REGISTER <name>\nLOGIN <name>\n")} refl))
        (prints
          {c' = showing (first_two ++ shown (codes "REGISTER <name>")) (codes "LOGIN <name>\n")}
          refl))
      (prints {c' = showing all_four []} refl)

welcome_shown :
    ((welcomed.written ≡ []) × ((showing all_four []).out ≡ connected_to host port))
    ⊎ ((lines : List Text) × (welcomed.written ≡ welcome ∷ map as_text lines)
        × All IsLine lines
        × ((showing all_four []).out
            ≡ connected_to host port ++ shown_all (welcome_lines ++ lines)))
welcome_shown =
    Reach-shown client_table topic_table (start (new empty_world)) greeted_server 1 welcomed host
      port typed (showing all_four []) (unfold start new do_accept in refl)
      (unfold start new do_accept in waiting) to_greeting (unfold find in refl) sees_welcome
      (inr (unfold has_newline in refl))
