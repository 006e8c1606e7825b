-- ===== src/Application.antt =====
-- app/main.cpp: the start of the application, over the JSON files that the configuration names. A call
-- of a store that an exception leaves ends the process: nothing above it catches.
pub mod Files
pub mod Startup
pub mod Process
pub mod Screens
use network_broker.Prelude.{
  ℕ, Text, codes, Bool, true, false, not, Option, none, some, List, [], ◌++◌, if◌then◌else◌,
}
use network_broker.Prelude.Assoc.{Assoc}
use network_broker.Client.{Client}
use network_broker.ClientManager
use network_broker.Topics
use network_broker.Repository.{ClientRepository, TopicRepository}
use network_broker.Json.{Json, File}
use network_broker.JsonClients
use network_broker.JsonTopics
use network_broker.Configurator
use network_broker.Configurator.{
  ConfigJson, ConfigCodes, ok, Configs, Configurator, read_config, get_configs,
}
use network_broker.Logs
use network_broker.Logs.{LogDirection, LogLevels, LogManager}
use network_broker.Logs.Macros.{log_internal, info_log, info_shell}
use network_broker.Broker.{uninitialised, World}
use network_broker.Server
use network_broker.Server.{Server}

-- A store of one file, and whether an exception has left one of its calls.
pub record Store : Type 0 where
  pub file : File
  pub threw : Bool

-- After an exception the process does nothing more; the answer stands for no value.
unfoldable pub settle : Option Bool × File → Bool × Store
settle (none, f) = (false, record { file = f; threw = true })
settle (some answer, f) = (answer, record { file = f; threw = false })

module _ {J : Type 0} (json : Json J) where
  -- JsonRepository as an IClientRepository.
  abbrev pub client_files : ClientRepository Store
  client_files = record {
    load_clients = λ s.
        let (loaded, f) = JsonClients.load_clients json s.file in (loaded, record s { file = f });
    save_client = λ c s. settle (JsonClients.save_client json c s.file);
    delete_client = λ id s.
        let (answer, f) = JsonClients.delete_client json id s.file in
        (answer, record s { file = f });
  }

  -- JsonTopicRepository as an ITopicRepository.
  abbrev pub topic_files : TopicRepository Store
  topic_files = record {
    save_topic = λ topic id s. settle (JsonTopics.save_topic json topic id s.file);
    load_topics = λ s.
        let (loaded, f) = JsonTopics.load_topics json s.file in (loaded, record s { file = f });
    create_topic = λ topic id s. settle (JsonTopics.create_topic json topic id s.file);
    remove_from_topic = λ topic id s. settle (JsonTopics.remove_from_topic json topic id s.file);
  }

abbrev pub config_file : Text
config_file = codes "config.json"

-- The configuration before it is read: `port` has no value yet, and 0 stands for it.
abbrev pub initial_configs : Configs
initial_configs = record {
  name_file_log = [];
  client_db = [];
  topic_db = [];
  loglevel = [];
  port = 0;
}

-- How main goes on: it returns a status, or an exception leaves it, or its server serves on a port. The
-- text is what main itself wrote to stdout, where it does not give up on its configuration: there
-- ReadConfig writes messages of the library as well, and only the status is kept.
pub data Launch : Type 0 where
  exits : ℕ → Launch
  throws : Text → Launch
  serves : Text → Option LogManager → ℕ → Server Store Store → Launch

-- The three messages that main logs once the manager of the logs is there. `now` is the clock at each of
-- them, and `path` is the `__FILE__` of main.cpp.
unfoldable pub log_start : Bool → Text → (ℕ → Text) → Option LogManager → Option LogManager
unfolding log_internal
log_start is_open path now logs =
    let say =
      λ (line : ℕ) (msg : Text) (level : LogLevels) (direction : LogDirection)
          (before : Option LogManager).
        log_internal is_open level direction path line (now line) msg before in
    let logs1 = info_log (say 30 (codes "Log manager was started succesfully")) logs in
    let logs2 = info_shell (say 31 (codes "Console log session was started")) logs1 in
    info_log (say 32 (codes "File log session was started")) logs2

module _ {J : Type 0} (json : Json J) where
  -- The managers and the broker of main, each store over a file of its own.
  unfoldable pub build : (Text → File) → Configs → World Store Store
  build files configs = record {
    clients =
        ClientManager.new (client_files json)
          (record { file = files configs.client_db; threw = false });
    topics =
        Topics.new (topic_files json) (record { file = files configs.topic_db; threw = false });
    sessions = [];
  }

  -- `main` with a configuration that is read, up to the loop of the server; `binds` is whether the
  -- acceptor gets its port.
  unfoldable pub serve : (Text → File) → (ℕ → Bool) → Text → (ℕ → Text) → Text → Configs → Launch
  unfolding build log_start
  serve files binds path now out configs =
      let is_open = (files configs.name_file_log).is_writable in
      let logs = log_start is_open path now (Logs.init is_open configs.loglevel none) in
      if binds configs.port
      then serves out logs configs.port (Server.start (Server.new (build files configs)))
      else throws out

module _ {K J : Type 0} (config_json : ConfigJson K) (json : Json J) where
  unfoldable pub main : (Text → File) → (ℕ → Bool) → Text → (ℕ → Text) → Launch
  unfolding serve
  main files binds path now =
      let out = codes "Application is running... " in
      let started : Configurator = record {
        configs = initial_configs;
        file = (files config_file).content;
      } in
      let (rc, configurator) = read_config config_json started in
      elim rc [
        | ok ↦
            serve json files binds path now (out ++ codes "Configurator was started succesfully")
              (get_configs configurator)
        | _ ↦ exits 1
      ]
