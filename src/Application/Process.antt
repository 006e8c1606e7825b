-- ===== src/Application/Process.antt =====
-- What the application does over its files, until an exception ends the process: what it would do over
-- tables.
use network_broker.Prelude.{
  ℕ, ◌<◌, ◌^◌, ◌≡◌, ◌⊎◌, refl, sym, ap, ◌∙◌, Text, Bool, false, Option, arith, inl, inr, subst,
}
use network_broker.ClientManager
use network_broker.Topics
use network_broker.Json.{Json, JsonLaws, ArrayLaws, File}
use network_broker.JsonClients.Refinement as Clients
use network_broker.JsonClients.Loading.{load_clients-Represents}
use network_broker.JsonTopics.Refinement as Topics_
use network_broker.JsonTopics.Loading.{load_topics-Represents}
use network_broker.Table.{ClientTable, TopicTable, client_table, topic_table}
use network_broker.Configurator.{ConfigJson, ok, Configs, Configurator, read_config}
use network_broker.Logs.{LogManager}
use network_broker.Broker.Invariant.{IsTidy}
use network_broker.Broker.Refinement.{on_stores}
use network_broker.Server
use network_broker.Server.{Server}
use network_broker.Server.Ids.{Runs}
use network_broker.Server.Refinement.{on_server}
use network_broker.Server.Refinement.Steps.{Mirrors, Runs-Mirrors}
use network_broker.Application.{Store, client_files, topic_files, serves, build, main}
use network_broker.Application.Files.{
  IsLost, Holds, client_files-ClientRefinement, topic_files-TopicRefinement,
}
use network_broker.Application.Startup.{build-IsTidy, build-All, unread, main-serves}

-- No exception has left a call of a store.
pub record IsAlive (s : Server Store Store) : Type 0 where
  pub clients : s.world.clients.db.threw ≡ false
  pub topics : s.world.topics.db.threw ≡ false

-- The numbers that have 64 bits.
abbrev pub Is64 : ℕ → Type 0
Is64 n = n < 2 ^ 64

module _ {J : Type 0} (json : Json J) (laws : JsonLaws json) (arrays : ArrayLaws json) where
  -- A server over the files has the memory of a server over the tables, and the files represent the
  -- tables.
  abbrev pub OnTables : Server Store Store → Server ClientTable TopicTable → Type 0
  OnTables =
      Mirrors (client_files-ClientRefinement json laws arrays)
        (topic_files-TopicRefinement json laws arrays)

  alive_unbroken :
      (u : Server Store Store)
      → IsAlive u
      → IsLost u.world.clients.db ⊎ IsLost u.world.topics.db
      → ⊥
  alive_unbroken u alive (inl lost) = ground (arith, alive.clients, lost.threw)
  alive_unbroken u alive (inr lost) = ground (arith, alive.topics, lost.threw)

  -- The server that main builds, over the tables that its files represent.
  abbrev pub tabled :
      (Text → File) → Configs → ClientTable → TopicTable → Server ClientTable TopicTable
  tabled files configs t t' = Server.start (Server.new (on_stores t t' (build json files configs)))

  module _ (files : Text → File) (configs : Configs) (t : ClientTable) (t' : TopicTable)
      (r : Clients.Represents json (files configs.client_db) t)
      (r' : Topics_.Represents json laws arrays (files configs.topic_db) t') where
    built_clients-Holds : Holds (Clients.Represents json) (build json files configs).clients.db t
    unfolding build ClientManager.new ClientManager.load_clients
    built_clients-Holds =
        let kept =
          (load_clients-Represents json laws (files configs.client_db) t 0 r (omega arith)).0 in
        record { alive = refl; represents = subst (λ f. Clients.Represents json f t) (sym kept) r }

    built_topics-Holds :
        Holds (Topics_.Represents json laws arrays) (build json files configs).topics.db t'
    unfolding build Topics.new Topics.load_topics
    built_topics-Holds =
        let kept = (load_topics-Represents json laws arrays (files configs.topic_db) t' r').0 in
        record {
          alive = refl;
          represents = subst (λ f. Topics_.Represents json laws arrays f t') (sym kept) r';
        }

    built-on_server :
        Server.start (Server.new (build json files configs))
        ≡ on_server
            (build json files configs).clients.db
            (build json files configs).topics.db
            (tabled files configs t t')
    unfolding Server.start Server.new build
    built-on_server = refl

    -- The server over the stores that main builds, and what it reaches.
    built-OnTables :
        (u : Server Store Store)
        → Runs
            (client_files json)
            (topic_files json)
            Is64
            IsAlive
            (Server.start (Server.new (build json files configs)))
            u
        → ((s' : Server ClientTable TopicTable) × Runs client_table topic_table Is64
              (λ _. Unit)
              (tabled files configs t t')
              s'
            × OnTables u s')
          ⊎ (IsLost u.world.clients.db ⊎ IsLost u.world.topics.db)
    built-OnTables u run =
        let w = build json files configs in
        let tidy : IsTidy w = build-IsTidy json files configs in
        let run' =
          subst (λ x. Runs (client_files json) (topic_files json) Is64 IsAlive x u) built-on_server
            run in
        Runs-Mirrors (client_files-ClientRefinement json laws arrays)
          (topic_files-TopicRefinement json laws arrays) IsAlive alive_unbroken w.clients.db
          w.topics.db (tabled files configs t t')
          (unfold Server.start Server.new in built_clients-Holds)
          (unfold Server.start Server.new in built_topics-Holds)
          (unfold Server.start Server.new in
            record { clients = tidy.clients; topics = tidy.topics })
          (unfold Server.start Server.new in build-All json files configs) u run'

module _ {K J : Type 0} (config_json : ConfigJson K) (json : Json J) (laws : JsonLaws json)
    (arrays : ArrayLaws json) where
  -- The application over its JSON files refines the application over tables. Where main has started a
  -- server, with a configuration that names files that represent two tables, every state that the server
  -- reaches before an exception ends the process has the memory of a state that the server over the
  -- tables reaches, which starts from the same memory, and the files then represent the tables of that
  -- state; or, in the last state, an exception has just left a call of a store, and the file of that
  -- store has lost its content. The numbers that are drawn have 64 bits.
  pub main-OnTables :
      (files : Text → File) (binds : ℕ → Bool) (path : Text) (now : ℕ → Text) (out : Text)
      (logs : Option LogManager) (port : ℕ) (s : Server Store Store) (c : Configurator)
      (t : ClientTable) (t' : TopicTable)
      → main config_json json files binds path now ≡ serves out logs port s
      → read_config config_json (unread config_json json files) ≡ (ok, c)
      → Clients.Represents json (files c.configs.client_db) t
      → Topics_.Represents json laws arrays (files c.configs.topic_db) t'
      → (u : Server Store Store) → Runs (client_files json) (topic_files json) Is64 IsAlive s u
      → ((s' : Server ClientTable TopicTable) × Runs client_table topic_table Is64
            (λ _. Unit)
            (tabled json laws arrays files c.configs t t')
            s'
          × OnTables json laws arrays u s')
        ⊎ (IsLost u.world.clients.db ⊎ IsLost u.world.topics.db)
  main-OnTables files binds path now out logs port s c t t' e read r r' u run =
      let (d, read', same, _) =
        main-serves config_json json files binds path now out logs port s e in
      let same_config : d ≡ c = ap (λ x. x.1) (sym read' ∙ read) in
      let starts : Server.start (Server.new (build json files c.configs)) ≡ s =
        ap (λ (x : Configurator). Server.start (Server.new (build json files x.configs)))
          (sym same_config)
        ∙ same in
      built-OnTables json laws arrays files c.configs t t' r r' u
        (subst (λ x. Runs (client_files json) (topic_files json) Is64 IsAlive x u) (sym starts) run)
