-- ===== src/Application/Files.antt =====
-- The stores of the application are JSON files that behave as tables.
use network_broker.Prelude.{
  ◌≡◌, refl, Bool, true, false, Option, none, some, [], ◌⊎◌, inl, inr, arith,
}
use mathlib.Core.Option.{some-injective}
use network_broker.Json.{Json, JsonLaws, ArrayLaws, File}
use network_broker.JsonClients.Refinement as Clients
use network_broker.JsonTopics.Refinement as Topics
use network_broker.JsonTopics.Changes.{
  save_topic-Stores, create_topic-Stores, remove_from_topic-Stores,
}
use network_broker.JsonClients.Refinement.{save_client-Stores}
use network_broker.Table.{client_table, topic_table}
use network_broker.Repository.Refinement.{ClientRefinement, TopicRefinement, Follows}
use network_broker.Application.{Store, settle, client_files, topic_files}

-- An exception has left a call, and the file has lost its content.
pub record IsLost (s : Store) : Type 0 where
  pub threw : s.threw ≡ true
  pub content : s.file.content ≡ some []

-- No exception has left a call, and the file represents the table.
pub record Holds {Table : Type 0} (Represents : File → Table → Type 0) (s : Store) (t : Table)
    : Type 0 where
  pub alive : s.threw ≡ false
  pub represents : Represents s.file t

-- A call that stores, or throws and loses the file, is a call that is followed, or loses the store.
pub settle-Follows :
    {Table : Type 0} (Represents : File → Table → Type 0) (x : Option Bool × File)
    (y : Bool × Table)
    → ((x.0 ≡ some y.0) × Represents x.1 y.1) ⊎ ((x.0 ≡ none) × (x.1.content ≡ some []))
    → Follows (Holds Represents) IsLost (settle x) y
unfolding settle
settle-Follows Represents (some b, f) y (inl (e, r)) =
    inl (some-injective b y.0 e, record { alive = refl; represents = r })
settle-Follows Represents (none, f) y (inl (e, r)) = absurd (ground (arith, e))
settle-Follows Represents (some b, f) y (inr (e, lost)) = absurd (ground (arith, e))
settle-Follows Represents (none, f) y (inr (e, lost)) =
    inr (record { threw = refl; content = lost })

module _ {J : Type 0} (json : Json J) (laws : JsonLaws json) (arrays : ArrayLaws json) where
  abbrev pub client_files-ClientRefinement : ClientRefinement (client_files json) client_table
  client_files-ClientRefinement = record {
    Rel = Holds (Clients.Represents json);
    Broken = IsLost;
    save_client = λ c s t small held.
        settle-Follows (Clients.Represents json) _ _
          (save_client-Stores json laws c s.file t small held.represents);
  }

  abbrev pub topic_files-TopicRefinement : TopicRefinement (topic_files json) topic_table
  topic_files-TopicRefinement = record {
    Rel = Holds (Topics.Represents json laws arrays);
    Broken = IsLost;
    save_topic = λ topic id s t small held.
        settle-Follows (Topics.Represents json laws arrays) _ _
          (save_topic-Stores json laws arrays topic id s.file t small held.represents);
    create_topic = λ topic id s t small held.
        settle-Follows (Topics.Represents json laws arrays) _ _
          (create_topic-Stores json laws arrays topic id s.file t small held.represents);
    remove_from_topic = λ topic id s t small held.
        settle-Follows (Topics.Represents json laws arrays) _ _
          (remove_from_topic-Stores json laws arrays topic id s.file t small held.represents);
  }
