-- ===== src/Tests/Configuring.antt =====
-- The configurator, run on a small library: a value is a port that is set or not.
use network_broker.Prelude.{ℕ, ◌≡◌, refl, some, [], ◌∷◌}
use network_broker.Configurator.{
  read_values, ok, err_read_file, Configs, Configurator, ConfigJson, throws, gives, parse_error,
  read_config,
}
use network_broker.Configurator.Reading.{Reads, read_config-Reads}

-- An empty text is no JSON; any other sets the port to its first byte, and no other key.
abbrev pub ports : ConfigJson ℕ
ports = record {
  parse = λ text. elim text [ [] ↦ throws parse_error | c ∷ _ ↦ gives c ];
  value_text = λ key default port. gives default;
  value_int = λ key default port. gives port;
}

abbrev before : Configs
before = record { name_file_log = []; client_db = []; topic_db = []; loglevel = []; port = 0 }

abbrev configured : Configurator
configured = record { configs = before; file = some (80 ∷ []) }

read_config-Reads_example :
    Reads ports configured (read_config ports configured).0 (read_config ports configured).1
read_config-Reads_example = read_config-Reads ports configured

read_ok : (read_config ports configured).0 ≡ ok
unfolding read_config read_values
read_ok = refl

read_nothing :
    read_config ports (record configured { file = some [] })
    ≡ (err_read_file, record configured { file = some [] })
unfolding read_config read_values
read_nothing = refl
