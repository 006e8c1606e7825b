-- ===== src/Configurator/Reading.antt =====
-- What the configurator holds after it has read its file.
use network_broker.Prelude.{
  sym, subst, ◌%◌, refl, ◌≡◌, ◌^◌, ℕ, Text, codes, Option, none, some, arith,
}
use network_broker.Configurator.{
  ConfigCodes, ok, err_file_not_found, err_read_file, err_invalid_arg, err_invalid_key,
  unknown_error, parse_error, out_of_range, type_error, other_error, Configs, Configurator,
  ConfigJson, JsonError, Outcome, throws, gives, ◌>>=◌, code_of, read_values, read_config,
  set_configs, get_configs,
}

-- The fields are the values of their keys, or the defaults where the library gives those; the port is
-- cut to 16 bits.
pub record ReadsAs {J : Type 0} (json : ConfigJson J) (j : J) (c : Configs) : Type 0 where
  pub number : ℕ
  pub log_file : json.value_text (codes "log_file_name") (codes "app.log") j ≡ gives c.name_file_log
  pub server_port : json.value_int (codes "server_port") 2000 j ≡ gives number
  pub short_port : c.port ≡ number % 2 ^ 16
  pub topics : json.value_text (codes "topics_database") (codes "topic.json") j ≡ gives c.topic_db
  pub clients :
      json.value_text (codes "clients_database") (codes "client.json") j ≡ gives c.client_db
  pub level : json.value_text (codes "log_level") (codes "info") j ≡ gives c.loglevel

bind-gives :
    {A B : Type 0} (o : Outcome A) (k : A → Outcome B) (b : B)
    → (o >>= k) ≡ gives b
    → (a : A) × (o ≡ gives a) × (k a ≡ gives b)
bind-gives (throws x) k b e = absurd (ground (arith, e))
bind-gives (gives a) k b e = (a, refl, e)

gives-injective : {A : Type 0} (a b : A) → gives a ≡ gives b → a ≡ b
gives-injective a b e = cc

module _ {J : Type 0} (json : ConfigJson J) where
  read_values-ReadsAs :
      (text : Text) (c : Configs)
      → read_values json text ≡ gives c
      → (j : J) × (json.parse text ≡ gives j) × ReadsAs json j c
  unfolding read_values
  read_values-ReadsAs text c e =
      let (j, parsed, e1) = bind-gives (json.parse text) _ c e in
      let (name, log_file, e2) = bind-gives _ _ c e1 in
      let (port, server_port, e3) = bind-gives _ _ c e2 in
      let (topic_db, topics, e4) = bind-gives _ _ c e3 in
      let (client_db, clients, e5) = bind-gives _ _ c e4 in
      let (loglevel, level, e6) = bind-gives _ _ c e5 in
      let same : record {
        name_file_log = name;
        client_db = client_db;
        topic_db = topic_db;
        loglevel = loglevel;
        port = port % 2 ^ 16;
      }
          ≡ c =
        gives-injective _ c e6 in
      (
        j,
        parsed,
        subst (ReadsAs json j) same (record {
          number = port;
          log_file = log_file;
          server_port = server_port;
          short_port = refl;
          topics = topics;
          clients = clients;
          level = level;
        }),
      )

  -- What ReadConfig promises. With the answer Ok the file was there and was JSON, and the
  -- configuration reads as its keys and defaults say; with any other answer the configuration stays.
  abbrev pub Reads : Configurator → ConfigCodes → Configurator → Type 0
  Reads c ok c' =
      (text : Text) × (j : J) × (c.file ≡ some text)
      × (json.parse text ≡ gives j)
      × ReadsAs json j (get_configs c')
  Reads c err_file_not_found c' = (c.file ≡ none) × (c' ≡ c)
  Reads c err_read_file c' = c' ≡ c
  Reads c err_invalid_arg c' = c' ≡ c
  Reads c err_invalid_key c' = c' ≡ c
  Reads c unknown_error c' = c' ≡ c

  -- `ReadConfig` answers Ok only if the file could be opened and parsed and every field is the value of
  -- its key, or its default, with the port cut to 16 bits; it answers ErrFileNotFound only if the file
  -- could not be opened; and with any answer but Ok it leaves the configuration as it was.
  pub read_config-Reads : (c : Configurator) → Reads c (read_config json c).0 (read_config json c).1
  unfolding read_config set_configs get_configs
  read_config-Reads c = from c.file refl
    where
      thrown : (e : JsonError) → Reads c (code_of e) c
      thrown parse_error = refl
      thrown out_of_range = refl
      thrown type_error = refl
      thrown other_error = refl

      ended :
          (text : Text) (o : Outcome Configs)
          → c.file ≡ some text
          → read_values json text ≡ o
          → (r : ConfigCodes × Configurator)
          → r ≡ (elim o [ throws e ↦ (code_of e, c) | gives configs ↦ (ok, set_configs configs c) ])
          → Reads c r.0 r.1
      ended text (throws e) there read r same = subst (λ x. Reads c x.0 x.1) (sym same) (thrown e)
      ended text (gives configs) there read r same =
          let (j, parsed, fields) = read_values-ReadsAs text configs read in
          subst (λ x. Reads c x.0 x.1) (sym same) (text, j, there, parsed, fields)

      from : (o : Option Text) → c.file ≡ o → Reads c (read_config json c).0 (read_config json c).1
      from none e =
          let same : (err_file_not_found, c) ≡ read_config json c = ground (arith, e) in
          subst (λ x. Reads c x.0 x.1) same (e, refl)
      from (some text) e =
          ended text (read_values json text) e refl (read_config json c) (ground (arith, e))
