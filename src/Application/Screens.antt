-- ===== src/Application/Screens.antt =====
-- The server's main and the client's, put together: app/main.cpp and client/main.cpp.
use network_broker.Prelude.{
  ℕ, ◌≡◌, ◌⊎◌, refl, sym, subst, Text, Bool, Option, none, some, List, [], ◌∷◌, ◌++◌, map, All,
  true, false, nat_eq,
}
use network_broker.Prelude.Assoc.{find}
use network_broker.Prelude.Streams.{IsLine}
use network_broker.Json.{Json, File}
use network_broker.Session.{Session, welcome}
use network_broker.Configurator.{ConfigJson}
use network_broker.Logs.{LogManager}
use network_broker.Server
use network_broker.Server.{Server}
use network_broker.Server.Reach.{Reach}
use network_broker.Application.{Store, client_files, topic_files, serves, build, main}
use network_broker.Application.Startup.{main-serves, build-AllWaiting}
use network_broker.ConsoleClient.{Console, is_waiting, connected_to, run, Steps}
use network_broker.ConsoleClient.Printing.{shown_all}
use network_broker.ConsoleClient.Conversation.{bytes_of, as_text, welcome_lines}
use network_broker.ConsoleClient.Reception.{Reach-shown}

-- Whatever the files hold, take any state that a server reaches which main has started, a session of that
-- state, and a console client that has received all that the session has written, in whatever pieces, and
-- has printed what it can. If nothing has been written yet, the client shows that it is connected and no
-- more. Otherwise the session has written the welcome and then some texts of one line each, and the client
-- shows the four lines of the welcome and those lines, in their order, each as one line of the server.
pub main-shown :
    {K J : Type 0} (config_json : ConfigJson K) (json : Json J) (files : Text → File)
    (binds : ℕ → Bool) (path : Text) (now : ℕ → Text) (out : Text) (logs : Option LogManager)
    (port : ℕ) (s s' : Server Store Store) (p : ℕ) (t : Session) (host name input : Text)
    (c : Console)
    → main config_json json files binds path now ≡ serves out logs port s
    → Reach (client_files json) (topic_files json) s s'
    → find p s'.world.sessions ≡ some t
    → Steps (run host name input none) (bytes_of t.written) c
    → (c.is_reading ≡ false) ⊎ (is_waiting c ≡ true)
    → ((t.written ≡ []) × (c.out ≡ connected_to host name))
      ⊎ ((lines : List Text) × (t.written ≡ welcome ∷ map as_text lines)
          × All IsLine lines
          × (c.out ≡ connected_to host name ++ shown_all (welcome_lines ++ lines)))
main-shown config_json json files binds path now out logs port s s' p t host name input c e reached
      there steps idle =
    let (conf, read, same, bound) =
      main-serves config_json json files binds path now out logs port s e in
    let start = Server.start (Server.new (build json files conf.configs)) in
    Reach-shown (client_files json) (topic_files json) start s' p t host name input c
      (unfold Server.start Server.new build in refl)
      (unfold Server.start Server.new in build-AllWaiting json files conf.configs IsLine)
      (subst (λ x. Reach (client_files json) (topic_files json) x s') (sym same) reached) there
      steps idle
