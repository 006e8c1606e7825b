-- ===== src/JsonTopics/Creation.antt =====
-- The value that `CreateTopic` makes for a new topic.
use network_broker.Prelude.{
  text_beq_iff, ℕ, ◌≡◌, ◌<◌, ◌^◌, ◌∙◌, refl, Text, true, some, [], ◌∷◌, if◌then◌else◌, text_beq,
  text_eq, arith,
}
use network_broker.Prelude.IdSet
use network_broker.Prelude.IdSet.{contains}
use network_broker.Json.{
  Json, JsonLaws, IsDocument, is_object, is_array, is_number, is_set, is_pushed, ArrayLaws, member,
}
use network_broker.JsonTopics.{clients_key, topic_clients, push_client, new_topic}
use network_broker.JsonTopics.Arrays.{IsIds, push_back-IsIds}
use network_broker.JsonTopics.Refinement.{
  HasIds, member-entry, set_clients-HasIds, set_clients-IsDocument,
}

module _ {J : Type 0} (json : Json J) (laws : JsonLaws json) (arrays : ArrayLaws json) where
  empty-IsIds : IsIds json arrays json.array []
  empty-IsIds = record {
    ids = [];
    array = arrays.array_empty.0;
    elements = arrays.array_empty.1;
    small = tt;
    once = tt;
    same = λ k. refl;
  }

  -- The value with a new topic.
  pub new_topic-HasIds :
      (topic : Text) (id : ℕ) (j : J)
      → id < 2 ^ 64
      → IsDocument json j
      → json.is_object j ≡ true
      → (v j' : J) × (new_topic json topic id j ≡ some j')
        × IsDocument json j'
        × (json.is_object j' ≡ true)
        × HasIds json laws arrays v (id ∷ [])
        × ((k : Text) → member json k j' ≡ (if text_beq topic k then some v else member json k j))
  unfolding new_topic push_client topic_clients IdSet.insert contains
  new_topic-HasIds topic id j small doc object =
      let (v, set_v, object_v, table_v) =
        laws.set_member clients_key json.array json.object laws.object_empty.0 in
      let (j1, set_j1, object_j1, table_j1) = laws.set_member topic v j object in
      let there : member json topic j1 ≡ some v =
        table_j1 topic ∙ ground (arith, (text_beq_iff topic topic).1 refl) in
      let inside : member json clients_key v ≡ some json.array =
        table_v clients_key ∙ ground (arith, (text_beq_iff clients_key clients_key).1 refl) in
      let (held, read) = member-entry json laws arrays topic j1 v there in
      let (held', read') = member-entry json laws arrays clients_key v json.array inside in
      let (absent, (a', pushed, ids')) =
        push_back-IsIds json arrays json.array [] id empty-IsIds small refl in
      let (v', j', set_j, object', has, table) =
        set_clients-HasIds json laws arrays topic a' v j1 (id ∷ []) object_j1 there object_v ids' in
      (
        v',
        j',
        ground (arith, set_v, set_j1, read, read', pushed, set_j),
        set_clients-IsDocument json laws arrays topic a' j1 j'
            (is_pushed (is_number id small) is_array pushed)
            (is_set topic (is_set clients_key is_array is_object set_v) doc set_j1) set_j,
        object',
        has,
        λ k. ground (arith, table k, table_j1 k),
      )
