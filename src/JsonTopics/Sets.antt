-- ===== src/JsonTopics/Sets.antt =====
-- The sets that are loaded from the JSON file of the topics, whatever it holds.
use network_broker.Prelude.{
  ℕ, ◌≡◌, subst, Text, some, List, [], ◌∷◌, arith, Option-cases, Bool-cases, inl, inr, text_eq,
}
use network_broker.Prelude.Assoc.{Assoc, put, find}
use network_broker.Prelude.IdSet
use network_broker.Prelude.IdSet.{NoRepeat, insert-NoRepeat}
use network_broker.Topics.Subscriptions.{AllSets}
use network_broker.Topics.Sets.{put-AllSets}
use network_broker.Json.{Json, File}
use network_broker.JsonTopics.{clients_key, read_ids, read_topic, read_topics, load_topics}

module _ {J : Type 0} (json : Json J) where
  read_ids-NoRepeat :
      (vs : List J) (acc ids : List ℕ)
      → NoRepeat acc
      → read_ids json vs acc ≡ some ids
      → NoRepeat ids
  unfolding read_ids
  read_ids-NoRepeat [] acc ids h e = let same : acc ≡ ids = ground arith in subst NoRepeat same h
  read_ids-NoRepeat (v ∷ vs) acc ids h e = elim (Option-cases (json.get_number v)) [
    | inl bad ↦ absurd (ground (arith, bad, e))
    | inr (id, read) ↦
        read_ids-NoRepeat vs (IdSet.insert id acc) ids (insert-NoRepeat id acc h)
          (ground (arith, read, e))
  ]

  read_topic-NoRepeat : (v : J) (ids : List ℕ) → read_topic json v ≡ some ids → NoRepeat ids
  unfolding read_topic
  read_topic-NoRepeat v ids e = elim (Bool-cases (json.contains clients_key v)) [
    | inr out ↦ let same : [] ≡ ids = ground (arith, out, e) in subst NoRepeat same tt
    | inl held ↦ elim (Option-cases (json.entry clients_key v)) [
      | inl bad ↦ absurd (ground (arith, held, bad, e))
      | inr (a, there) ↦ elim (Bool-cases (json.is_array a)) [
        | inl array ↦
            read_ids-NoRepeat (json.elements a) [] ids tt (ground (arith, held, there, array, e))
        | inr other ↦
            let same : [] ≡ ids = ground (arith, held, there, other, e) in subst NoRepeat same tt
      ]
    ]
  ]

  read_topics-AllSets :
      (items : List (Text × J)) (acc topics : Assoc Text (List ℕ))
      → AllSets acc
      → read_topics json items acc ≡ some topics
      → AllSets topics
  unfolding read_topics
  read_topics-AllSets [] acc topics h e =
      let same : acc ≡ topics = ground arith in subst AllSets same h
  read_topics-AllSets ((key, v) ∷ items) acc topics h e = elim (Option-cases (read_topic json v)) [
    | inl bad ↦ absurd (ground (arith, bad, e))
    | inr (ids, read) ↦
        read_topics-AllSets items (put key ids acc) topics
          (put-AllSets key ids acc (read_topic-NoRepeat v ids read) h) (ground (arith, read, e))
  ]

  empty-AllSets : AllSets []
  unfolding find
  empty-AllSets topic ids e = absurd (ground (arith, e))

  -- No set of a topic that is loaded repeats an id, whatever the file holds.
  pub load_topics-AllSets : (f : File) → AllSets (load_topics json f).0
  unfolding load_topics
  load_topics-AllSets f = elim (Option-cases f.content) [
    | inl missing ↦
        let same : [] ≡ (load_topics json f).0 = ground (arith, missing) in
        subst AllSets same empty-AllSets
    | inr (text, there) ↦ elim (Option-cases (json.parse text)) [
      | inl bad ↦
          let same : [] ≡ (load_topics json f).0 = ground (arith, there, bad) in
          subst AllSets same empty-AllSets
      | inr (j, parsed) ↦ elim (Option-cases (read_topics json (json.items j) [])) [
        | inl bad ↦
            let same : [] ≡ (load_topics json f).0 = ground (arith, there, parsed, bad) in
            subst AllSets same empty-AllSets
        | inr (topics, read) ↦
            let same : topics ≡ (load_topics json f).0 = ground (arith, there, parsed, read) in
            subst AllSets same (read_topics-AllSets (json.items j) [] topics empty-AllSets read)
      ]
    ]
  ]
