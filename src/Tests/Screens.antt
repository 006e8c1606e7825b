-- ===== src/Tests/Screens.antt =====
-- A client that is greeted by the application.
use network_broker.Prelude.{
  ◌≡◌, ◌≢◌, ◌⊎◌, refl, Text, codes, some, List, [], ◌∷◌, ◌++◌, map, arith, inr, All,
}
use network_broker.Prelude.Assoc.{find, assign}
use network_broker.Prelude.Streams.{IsLine, has_newline}
use network_broker.Session
use network_broker.Session.{Session, welcome}
use network_broker.Server.{Server, write_done}
use network_broker.Server.Reach.{Reach, accepts, writes}
use network_broker.Application.{Store}
use network_broker.Application.Screens.{main-shown}
use network_broker.ConsoleClient.{connected_to}
use network_broker.ConsoleClient.Printing.{shown_all}
use network_broker.ConsoleClient.Conversation.{as_text, welcome_lines}
use network_broker.Tests.Configuring.{ports}
use network_broker.Tests.Documents.{documents}
use network_broker.Tests.Consoles.{host, port, typed, showing, all_four}
use network_broker.Tests.Receptions.{welcomed, sees_welcome}
use network_broker.Tests.Applications.{
  files, always, noon, started, logged, said, starts, first_connection, accepts_first, room,
}

abbrev greeted : Server Store Store
greeted = record first_connection {
  world = record first_connection.world { sessions = (1, welcomed) ∷ [] };
}

welcome_written : write_done 1 first_connection ≡ some greeted
unfolding write_done find assign Session.write_done Session.start Session.set_self Session.new
welcome_written = refl

writing : (Session.start (Session.set_self (some 1) (Session.new 1))).pending_writes ≢ []
unfolding Session.start Session.set_self Session.new
writing e = absurd (ground (arith, e))

main-shown_example :
    ((welcomed.written ≡ []) × ((showing all_four []).out ≡ connected_to host port))
    ⊎ ((lines : List Text) × (welcomed.written ≡ welcome ∷ map as_text lines)
        × All IsLine lines
        × ((showing all_four []).out
            ≡ connected_to host port ++ shown_all (welcome_lines ++ lines)))
main-shown_example =
    main-shown ports documents files always (codes "main.cpp") noon said logged 80 started greeted 1
      welcomed host port typed (showing all_four []) starts
      (Reach.next (Reach.next Reach.here (accepts room accepts_first)) (
        writes 1 (Session.start (Session.set_self (some 1) (Session.new 1))) (unfold find in refl)
          writing welcome_written))
      (unfold find in refl) sees_welcome (inr (unfold has_newline in refl))
