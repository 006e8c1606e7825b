-- ===== src/Configurator.antt =====
-- app/src/configurator: configurator.h, configurator.cpp and rc.h. The JSON library is a parameter,
-- whose exceptions are kept apart by their class.
pub mod Reading
use network_broker.Prelude.{ℕ, ◌%◌, ◌^◌, Text, codes, Option, none, some}

pub data ConfigCodes : Type 0 where
  ok err_file_not_found err_read_file err_invalid_arg err_invalid_key unknown_error : ConfigCodes

-- `port` is a short, kept as its 16 bits.
pub record Configs : Type 0 where
  pub name_file_log : Text
  pub client_db : Text
  pub topic_db : Text
  pub loglevel : Text
  pub port : ℕ

-- The classes of nlohmann::json::exception that the code tells apart.
pub data JsonError : Type 0 where
  parse_error out_of_range type_error other_error : JsonError

pub data Outcome {ℓ} (A : Type ℓ) : Type ℓ where
  throws : JsonError → Outcome A
  gives : A → Outcome A

-- json::parse and json.value( key, default ) for a text and for an int, kept as its 32 bits.
pub record ConfigJson (J : Type 0) : Type 0 where
  pub parse : Text → Outcome J
  pub value_text : Text → Text → J → Outcome Text
  pub value_int : Text → ℕ → J → Outcome ℕ

infixl 10 ◌>>=◌
abbrev pub ◌>>=◌ {ℓ κ} : {A : Type ℓ} {B : Type κ} → Outcome A → (A → Outcome B) → Outcome B
throws e >>= k = throws e
gives a >>= k = k a

-- The clauses of `catch`.
abbrev pub code_of : JsonError → ConfigCodes
code_of parse_error = err_read_file
code_of out_of_range = err_invalid_key
code_of type_error = err_invalid_arg
code_of other_error = unknown_error

-- `file` is the content of the configuration file, if it can be opened.
pub record Configurator : Type 0 where
  pub configs : Configs
  pub file : Option Text

unfoldable pub set_configs : Configs → Configurator → Configurator
set_configs configs c = record c { configs = configs }

unfoldable pub get_configs : Configurator → Configs
get_configs c = c.configs

module _ {J : Type 0} (json : ConfigJson J) where
  -- The body of `try`.
  unfoldable pub read_values : Text → Outcome Configs
  read_values text = do
    data' ← json.parse text
    name_file_log ← json.value_text (codes "log_file_name") (codes "app.log") data'
    port ← json.value_int (codes "server_port") 2000 data'
    topic_db ← json.value_text (codes "topics_database") (codes "topic.json") data'
    client_db ← json.value_text (codes "clients_database") (codes "client.json") data'
    loglevel ← json.value_text (codes "log_level") (codes "info") data'
    gives (record {
      name_file_log = name_file_log;
      client_db = client_db;
      topic_db = topic_db;
      loglevel = loglevel;
      port = port % 2 ^ 16;
    })

  unfoldable pub read_config : Configurator → ConfigCodes × Configurator
  unfolding read_values set_configs
  read_config c = elim c.file [
    | none ↦ (err_file_not_found, c)
    | some text ↦ elim (read_values text) [
      | throws e ↦ (code_of e, c)
      | gives configs ↦ (ok, set_configs configs c)
    ]
  ]
