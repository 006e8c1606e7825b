-- ===== src/Tests/Applications.antt =====
-- The application from its start, over two JSON files that are empty objects.
use network_broker.Prelude.{
  ℕ, ◌+◌, ◌<◌, ◌^◌, ◌≡◌, ◌⊎◌, refl, ap, Text, codes, true, Bool, Option, none, some, [], ◌∷◌, ◌++◌,
  if◌then◌else◌, text_beq, arith,
}
use network_broker.Json.{File}
use network_broker.Prelude.Assoc.{emplace, find, assign}
use network_broker.JsonClients.{load_clients, read_clients}
use network_broker.Table.{ClientTable, TopicTable, client_table, topic_table}
use network_broker.ClientManager
use network_broker.Topics
use network_broker.Configurator.{Configs, Configurator, ok, read_config, read_values, get_configs}
use network_broker.Logs
use network_broker.Logs.{LogManager}
use network_broker.Session
use network_broker.Server
use network_broker.Server.{Server, accepted, accept_next, do_accept}
use network_broker.Server.Safety.{IsSafe}
use network_broker.Server.Reach.{Reach, accepts, receives}
use network_broker.Server.Ids.{Runs, here, next}
use network_broker.Broker.Invariant.{IsTidy}
use network_broker.Application.{
  Store, client_files, topic_files, serves, build, serve, log_start, main, config_file,
}
use network_broker.Application.Files.{IsLost}
use network_broker.Application.Startup.{unread, main-IsSafe}
use network_broker.Application.Process.{IsAlive, Is64, OnTables, tabled, main-OnTables}
use network_broker.Tests.Configuring.{ports}
use network_broker.Tests.Documents.{documents, documents-JsonLaws, documents-ArrayLaws}
use network_broker.Tests.Stores
use network_broker.Tests.Values
use network_broker.Tests.Values.Printing
use network_broker.Server.{received, handle_line}
use network_broker.Broker.{handle_command, perform, register}
use network_broker.Protocol.{parse, code_to_string}
use network_broker.Prelude.Streams.{extract, skip_space, split_word, getline}
use network_broker.Prelude.Decimal.{to_string}
use network_broker.ClientManager.{create_client, draw_id}
use network_broker.JsonClients.{save_client, enter_client}
use network_broker.Json.{write, member}
use network_broker.Application.{settle}
use network_broker.Client
use network_broker.Tests.TopicStores
use network_broker.Tests.Stores.{empty_file}

abbrev pub files : Text → File
files name =
    if text_beq name config_file
    then record { content = some (80 ∷ []); is_writable = true }
    else empty_file

abbrev read : Configs
read = record {
  name_file_log = codes "app.log";
  client_db = codes "client.json";
  topic_db = codes "topic.json";
  loglevel = codes "info";
  port = 80;
}

abbrev configured : Configurator
configured = record { configs = read; file = some (80 ∷ []) }

read_lem : read_config ports (unread ports documents files) ≡ (ok, configured)
unfolding read_config read_values
read_lem = refl

abbrev pub always : ℕ → Bool
always port = true

abbrev pub noon : ℕ → Text
noon line = codes "12:00:00.000"

abbrev pub started : Server Store Store
started = Server.start (Server.new (build documents files read))

abbrev pub logged : Option LogManager
logged = log_start true (codes "main.cpp") noon (Logs.init true (codes "info") none)

abbrev pub said : Text
said = codes "Application is running... " ++ codes "Configurator was started succesfully"

pub starts :
    main ports documents files always (codes "main.cpp") noon ≡ serves said logged 80 started
unfolding main serve read_config read_values get_configs
starts = refl

-- The server after its first connection.
abbrev connected : Option (Server Store Store)
connected = accepted started

abbrev pub first_connection : Server Store Store
first_connection = record started {
  next_session_id = 3;
  pending_accepts = 2 ∷ [];
  world = record started.world {
    sessions = (1, Session.start (Session.set_self (some 1) (Session.new 1))) ∷ [];
  };
}

pub accepts_first : accepted started ≡ some first_connection
unfolding accepted accept_next do_accept Server.start Server.new Session.start Session.set_self
    Session.new Session.get_id Session.send Session.do_write Session.read emplace find build
accepts_first = refl

pub room : started.next_session_id + 1 < 2 ^ 64
unfolding Server.start Server.new do_accept
room = omega arith

started-IsAlive : IsAlive started
unfolding Server.start Server.new do_accept build ClientManager.new ClientManager.load_clients
    Topics.new Topics.load_topics
started-IsAlive = record { clients = refl; topics = refl }

main-IsSafe_example : IsSafe first_connection × IsTidy first_connection.world
main-IsSafe_example =
    main-IsSafe ports documents files always (codes "main.cpp") noon said logged 80 started
      first_connection starts (Reach.next Reach.here (accepts room accepts_first))

first_run :
    Runs (client_files documents) (topic_files documents) Is64 IsAlive started first_connection
first_run = next here started-IsAlive (accepts room accepts_first) tt

abbrev register_carol : Text
register_carol = codes "REGISTER carol\n"

-- What the first session does with a line that comes in.
abbrev carol_received : Option (Server Store Store)
carol_received =
    received (client_files documents) (topic_files documents) 1 register_carol (10003 ∷ [])
      first_connection

abbrev or_first : Option (Server Store Store) → Server Store Store
or_first none = first_connection
or_first (some s) = s

abbrev registered : Server Store Store
registered = or_first carol_received

abbrev content_of : Option (Server Store Store) → Option Text
content_of none = none
content_of (some s) = s.world.clients.db.file.content

-- The file of the clients then has the object that `print` makes of the one client.
carol_stored :
    content_of carol_received
    ≡ some
        (3 ∷ 5 ∷ codes "10003" ++ (3 ∷ 4 ∷ codes "name" ++ (2 ∷ 5 ∷ codes "carol" ++ (1 ∷ 1 ∷ []))))
unfolding received handle_line handle_command parse extract skip_space split_word getline find
    perform register code_to_string create_client draw_id save_client enter_client write settle
    member Values.set Values.lookup Values.erase Printing.parse Printing.print Printing.take
    to_string build ClientManager.load_clients ClientManager.new load_clients read_clients
    Client.new Client.get_name Server.start Server.new Values.items ClientManager.connect_client
    emplace Client.get_session_id Client.expired Session.start Session.set_self Session.new assign
    Client.send_to Client.send_buffer Client.set_session
carol_stored = refl

registers : carol_received ≡ some registered
registers = from carol_received (λ e. absurd (ground (arith, carol_stored, ap content_of e)))
  where
    from : (o : Option (Server Store Store)) → (o ≡ none → ⊥) → o ≡ some (or_first o)
    from none there = absurd (there refl)
    from (some s) there = refl

first-IsAlive : IsAlive first_connection
unfolding Server.start Server.new do_accept build ClientManager.new ClientManager.load_clients
    Topics.new Topics.load_topics
first-IsAlive = record { clients = refl; topics = refl }

two_steps : Runs (client_files documents) (topic_files documents) Is64 IsAlive started registered
two_steps =
    next first_run first-IsAlive
      (receives 1 (Session.start (Session.set_self (some 1) (Session.new 1))) register_carol
        (10003 ∷ []) (unfold find in refl)
        (unfold Session.start Session.set_self Session.new in ground arith) registers)
      (omega arith, tt)

main-OnTables_example :
    ((s' : Server ClientTable TopicTable) × Runs client_table topic_table Is64
        (λ _. Unit)
        (tabled documents documents-JsonLaws documents-ArrayLaws files read Stores.empty_table
          TopicStores.empty_table)
        s'
      × OnTables documents documents-JsonLaws documents-ArrayLaws registered s')
    ⊎ (IsLost registered.world.clients.db ⊎ IsLost registered.world.topics.db)
main-OnTables_example =
    main-OnTables ports documents documents-JsonLaws documents-ArrayLaws files always
      (codes "main.cpp") noon said logged 80 started configured Stores.empty_table
      TopicStores.empty_table starts read_lem Stores.empty-Represents TopicStores.empty-Represents
      registered two_steps

option_map : {A B : Type 0} → (A → B) → Option A → Option B
option_map f none = none
option_map f (some a) = some (f a)
