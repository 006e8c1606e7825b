-- ===== src/JsonTopics.antt =====
-- app/src/db/json_topic_repository.h and json_topic_repository.cpp: the store of the topics, as a JSON
-- file. A result `none` is an exception that leaves the call.
pub mod Arrays
pub mod Refinement
pub mod Creation
pub mod Changes
pub mod Loading
pub mod Sets
use network_broker.Prelude.{
  suc, ℕ, Text, codes, Bool, true, false, not, ◌&&◌, Option, none, some, List, [], ◌∷◌, ◌++◌,
  if◌then◌else◌, text_eq,
}
use network_broker.Prelude.Assoc.{Assoc, put}
use network_broker.Prelude.IdSet
use network_broker.Json.{Json, File, write}

abbrev pub clients_key : Text
clients_key = codes "clients"

-- std::find, as a position.
unfoldable pub position {ℓ} : {A : Type ℓ} → (A → Bool) → List A → Option ℕ
position test [] = none
position test (x ∷ xs) = elim (position test xs) [
  | none ↦ if test x then some 0 else none
  | some n ↦ if test x then some 0 else some (suc n)
]

module _ {J : Type 0} (json : Json J) where
  -- json[ topic ][ "clients" ], read.
  unfoldable pub topic_clients : Text → J → Option J
  topic_clients topic j = elim (json.entry topic j) [
    | none ↦ none
    | some v ↦ json.entry clients_key v
  ]

  -- json[ topic ][ "clients" ] = clients
  unfoldable pub set_clients : Text → J → J → Option J
  set_clients topic clients j = elim (json.entry topic j) [
    | none ↦ none
    | some v ↦ elim (json.set clients_key clients v) [ none ↦ none | some v' ↦ json.set topic v' j ]
  ]

  -- The value that a call has made, or an exception on the way there, goes to the file.
  unfoldable pub write_made : Option J → File → Option Bool × File
  unfolding write
  write_made none f = (none, f)
  write_made (some j) f = write (json.dump j) f

  -- clients.push_back( id ), in place.
  unfoldable pub push_client : Text → ℕ → J → Option J
  unfolding topic_clients set_clients
  push_client topic id j = elim (topic_clients topic j) [
    | none ↦ none
    | some clients ↦ elim (json.push_back (json.number id) clients) [
      | none ↦ none
      | some clients' ↦ set_clients topic clients' j
    ]
  ]

  unfoldable pub save_topic : Text → ℕ → File → Option Bool × File
  unfolding topic_clients push_client write_made
  save_topic topic id f = elim f.content [
    | none ↦ (some false, f)
    | some text ↦ elim (json.parse text) [
      | none ↦ (some false, f)
      | some j ↦
          if not (json.contains topic j) then (some false, f) else elim (topic_clients topic j) [
            | none ↦ (none, f)
            | some clients ↦ elim (position (json.equals id) (json.elements clients)) [
              | some _ ↦ (some false, f)
              | none ↦ write_made (push_client topic id j) f
            ]
          ]
    ]
  ]

  -- The value with a new topic, whose one client is pushed to the empty array.
  unfoldable pub new_topic : Text → ℕ → J → Option J
  unfolding push_client
  new_topic topic id j = elim (json.set clients_key json.array json.object) [
    | none ↦ none
    | some v ↦ elim (json.set topic v j) [ none ↦ none | some j' ↦ push_client topic id j' ]
  ]

  -- `CreateTopic` once it has the value.
  unfoldable pub create_in : Text → ℕ → J → File → Option Bool × File
  unfolding new_topic write_made
  create_in topic id j f =
      if json.contains topic j then (some false, f) else write_made (new_topic topic id j) f

  -- A file that is not there counts as an empty object.
  unfoldable pub create_topic : Text → ℕ → File → Option Bool × File
  unfolding create_in
  create_topic topic id f = elim f.content [
    | none ↦ create_in topic id json.object f
    | some text ↦ elim (json.parse text) [
      | none ↦ (some false, f)
      | some j ↦ create_in topic id j f
    ]
  ]

  -- clients.erase( it ), in place.
  unfoldable pub erase_client : Text → ℕ → J → J → Option J
  unfolding set_clients
  erase_client topic n clients j = elim (json.erase_at n clients) [
    | none ↦ none
    | some clients' ↦ set_clients topic clients' j
  ]

  unfoldable pub remove_from_topic : Text → ℕ → File → Option Bool × File
  unfolding topic_clients erase_client write_made
  remove_from_topic topic id f = elim f.content [
    | none ↦ (some false, f)
    | some text ↦ elim (json.parse text) [
      | none ↦ (some false, f)
      | some j ↦
          if not (json.contains topic j) then (some false, f) else elim (topic_clients topic j) [
            | none ↦ (none, f)
            | some clients ↦ elim (position (json.equals id) (json.elements clients)) [
              | none ↦ (some false, f)
              | some n ↦ write_made (erase_client topic n clients j) f
            ]
          ]
    ]
  ]

  -- The loop over the ids of a topic.
  unfoldable pub read_ids : List J → List ℕ → Option (List ℕ)
  read_ids [] ids = some ids
  read_ids (v ∷ vs) ids = elim (json.get_number v) [
    | none ↦ none
    | some id ↦ read_ids vs (IdSet.insert id ids)
  ]

  -- The set of a topic, which is empty where the value has no array of clients.
  unfoldable pub read_topic : J → Option (List ℕ)
  unfolding read_ids
  read_topic v =
      if json.contains clients_key v
      then elim (json.entry clients_key v) [
        | none ↦ none
        | some clients ↦
            if json.is_array clients then read_ids (json.elements clients) [] else some []
      ]
      else some []

  unfoldable pub read_topics : List (Text × J) → Assoc Text (List ℕ) → Option (Assoc Text (List ℕ))
  unfolding read_topic
  read_topics [] topics = some topics
  read_topics ((key, v) ∷ items) topics = elim (read_topic v) [
    | none ↦ none
    | some ids ↦ read_topics items (put key ids topics)
  ]

  -- A file that is not there is made, and an exception is caught.
  unfoldable pub load_topics : File → Assoc Text (List ℕ) × File
  unfolding read_topics write
  load_topics f = elim f.content [
    | none ↦ ([], (write (some (codes "{}")) f).1)
    | some text ↦ elim (json.parse text) [
      | none ↦ ([], f)
      | some j ↦ elim (read_topics (json.items j) []) [ none ↦ ([], f) | some topics ↦ (topics, f) ]
    ]
  ]
