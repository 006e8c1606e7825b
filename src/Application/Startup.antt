-- ===== src/Application/Startup.antt =====
-- The state in which main starts the server, whatever the files hold.
use network_broker.Prelude.{
  ℕ, ◌++◌, codes, Bool, Option, [], sym, ◌<◌, ◌^◌, ◌≡◌, refl, Text, true, false, [], All, arith,
  Bool-cases, inl, inr, subst,
}
use network_broker.ClientManager
use network_broker.ClientManager.Ids.{ids, emplace_all-All}
use network_broker.ClientManager.Invariant.{load_clients-WellFormed}
use network_broker.Topics
use network_broker.Json.{Json, File}
use network_broker.JsonClients.Bounds.{load_clients-HasSmallId, load_clients-buffer}
use network_broker.JsonTopics.Sets.{load_topics-AllSets}
use network_broker.Configurator.{
  ConfigJson, ConfigCodes, ok, get_configs, Configs, Configurator, read_config,
}
use network_broker.Logs.{LogManager}
use network_broker.Broker.Invariant.{IsTidy}
use network_broker.Broker.Ids.{ids_of}
use network_broker.Broker.Buffers.{AllWaiting}
use network_broker.ClientManager.Buffers.{emplace_all-AllBuffers}
use network_broker.Server
use network_broker.Server.{Server}
use network_broker.Server.Safety.{IsSafe}
use network_broker.Server.Reach.{Reach, Reach-IsSafe}
use network_broker.Server.Tidiness.{Reach-IsTidy}
use network_broker.Application.{
  Option, Bool, Store, client_files, topic_files, Launch, exits, serves, build, serve, main,
  config_file, initial_configs,
}

module _ {J : Type 0} (json : Json J) (files : Text → File) (configs : Configs) where
  pub build-IsTidy : IsTidy (build json files configs)
  unfolding build ClientManager.new Topics.new Topics.load_topics
  build-IsTidy = record {
    clients =
        load_clients-WellFormed (client_files json)
          (record { clients = []; db = record { file = files configs.client_db; threw = false } });
    topics = load_topics-AllSets json (files configs.topic_db);
  }

  pub build-All : All (λ n. n < 2 ^ 64) (ids_of (build json files configs))
  unfolding build ClientManager.new ClientManager.load_clients ids
  build-All =
      emplace_all-All (λ n. n < 2 ^ 64) _ []
        (load_clients-HasSmallId json (files configs.client_db)) tt

  -- No message waits for anybody.
  pub build-AllWaiting : (Ok : Text → Type 0) → AllWaiting Ok (build json files configs)
  unfolding build ClientManager.new ClientManager.load_clients
  build-AllWaiting Ok =
      emplace_all-AllBuffers Ok _ [] (load_clients-buffer json Ok (files configs.client_db)) tt

  -- The server that is started is the one over the stores that are built.
  serve-serves :
      (binds : ℕ → Bool) (path : Text) (now : ℕ → Text) (out out' : Text) (logs : Option LogManager)
      (port : ℕ) (s : Server Store Store)
      → serve json files binds path now out configs ≡ serves out' logs port s
      → (Server.start (Server.new (build json files configs)) ≡ s) × (binds port ≡ true)
  unfolding serve
  serve-serves binds path now out out' logs port s e = elim (Bool-cases (binds configs.port)) [
    | inl bound ↦ (ground (arith, bound, e), ground (arith, bound, e))
    | inr refused ↦ absurd (ground (arith, refused, e))
  ]

module _ {K J : Type 0} (config_json : ConfigJson K) (json : Json J) where
  -- The configuration before main has read it.
  abbrev pub unread : (Text → File) → Configurator
  unread files = record { configs = initial_configs; file = (files config_file).content }

  module _ (files : Text → File) (binds : ℕ → Bool) (path : Text) (now : ℕ → Text) where
    -- A server that is started is the one over the stores that the configuration names.
    pub main-serves :
        (out : Text) (logs : Option LogManager) (port : ℕ) (s : Server Store Store)
        → main config_json json files binds path now ≡ serves out logs port s
        → (c : Configurator) × (read_config config_json (unread files) ≡ (ok, c))
          × (Server.start (Server.new (build json files c.configs)) ≡ s)
          × (binds port ≡ true)
    unfolding main get_configs
    main-serves out logs port s e = from (read_config config_json (unread files)) refl e
      where
        from :
            (r : ConfigCodes × Configurator)
            → read_config config_json (unread files) ≡ r
            → (elim r.0 as (λ _. Launch) [
              | ok ↦
                  serve json files binds path now
                    (codes "Application is running... "
                      ++ codes "Configurator was started succesfully")
                    r.1.configs
              | _ ↦ exits 1
            ])
              ≡ serves out logs port s
            → (c : Configurator) × (read_config config_json (unread files) ≡ (ok, c))
              × (Server.start (Server.new (build json files c.configs)) ≡ s)
              × (binds port ≡ true)
        from (ok, c) read e =
            let (same, bound) =
              serve-serves json files c.configs binds path now _ out logs port s e in
            (c, read, same, bound)
        from (_, c) read e = absurd (ground (arith, e))

    -- Whatever the files hold, a server that main has started is safe and tidy in every state that it
    -- reaches: each session stands under its own id, which was given out once, with one read pending at
    -- most and the front of its queue alone being written; the table of clients has one entry for each
    -- id; and no topic's set repeats an id.
    pub main-IsSafe :
        (out : Text) (logs : Option LogManager) (port : ℕ) (s s' : Server Store Store)
        → main config_json json files binds path now ≡ serves out logs port s
        → Reach (client_files json) (topic_files json) s s'
        → IsSafe s' × IsTidy s'.world
    main-IsSafe out logs port s s' e r =
        let (c, read, same, bound) = main-serves out logs port s e in
        let w = build json files c.configs in
        let r' = subst (λ x. Reach (client_files json) (topic_files json) x s') (sym same) r in
        (
          Reach-IsSafe (client_files json) (topic_files json) w s' (unfold build in refl) r',
          Reach-IsTidy (client_files json) (topic_files json) (Server.start (Server.new w)) s'
              (unfold Server.start Server.new in build-IsTidy json files c.configs) r',
        )
