-- ===== src/Table.antt =====
-- What the stores behind the two interfaces of app/src/db promise, as tables: the specification of the
-- JSON files. A store that cannot be written refuses every change.
use network_broker.Prelude.{
  ℕ, Text, Bool, true, false, not, none, some, List, [], ◌∷◌, map, if◌then◌else◌, nat_eq, text_eq,
}
use network_broker.Prelude.Assoc.{Assoc, find, assign, put, erase}
use network_broker.Prelude.IdSet
use network_broker.Client
use network_broker.Client.{Client}
use network_broker.Repository.{ClientRepository, TopicRepository}

pub record ClientTable : Type 0 where
  pub names : Assoc ℕ Text
  pub writable : Bool

pub record TopicTable : Type 0 where
  pub topics : Assoc Text (List ℕ)
  pub writable : Bool

unfoldable pub load_clients : ClientTable → List Client × ClientTable
load_clients t = (map (λ r. Client.new r.0 r.1) t.names, t)

unfoldable pub save_client : Client → ClientTable → Bool × ClientTable
save_client c t =
    if t.writable then (true, record t { names = put c.id c.name t.names }) else (false, t)

unfoldable pub delete_client : ℕ → ClientTable → Bool × ClientTable
delete_client id t = elim (find id t.names) [
  | none ↦ (false, t)
  | some _ ↦ if t.writable then (true, record t { names = erase id t.names }) else (false, t)
]

abbrev pub client_table : ClientRepository ClientTable
client_table = record {
  load_clients = load_clients;
  save_client = save_client;
  delete_client = delete_client;
}

unfoldable pub save_topic : Text → ℕ → TopicTable → Bool × TopicTable
save_topic topic id t = elim (find topic t.topics) [
  | none ↦ (false, t)
  | some ids ↦
      if IdSet.contains id ids
      then (false, t)
      else if t.writable
      then (true, record t { topics = assign topic (IdSet.insert id ids) t.topics })
      else (false, t)
]

unfoldable pub load_topics : TopicTable → Assoc Text (List ℕ) × TopicTable
load_topics t = (t.topics, t)

unfoldable pub create_topic : Text → ℕ → TopicTable → Bool × TopicTable
create_topic topic id t = elim (find topic t.topics) [
  | some _ ↦ (false, t)
  | none ↦
      if t.writable then (true, record t { topics = put topic (id ∷ []) t.topics }) else (false, t)
]

unfoldable pub remove_from_topic : Text → ℕ → TopicTable → Bool × TopicTable
remove_from_topic topic id t = elim (find topic t.topics) [
  | none ↦ (false, t)
  | some ids ↦
      if not (IdSet.contains id ids)
      then (false, t)
      else if t.writable
      then (true, record t { topics = assign topic (IdSet.erase id ids) t.topics })
      else (false, t)
]

abbrev pub topic_table : TopicRepository TopicTable
topic_table = record {
  save_topic = save_topic;
  load_topics = load_topics;
  create_topic = create_topic;
  remove_from_topic = remove_from_topic;
}
