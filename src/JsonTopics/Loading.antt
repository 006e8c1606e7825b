-- ===== src/JsonTopics/Loading.antt =====
-- What `LoadTopics` reads from the JSON file.
use mathlib.Core.Option.{some-injective}
use network_broker.Prelude.{
  text_beq_iff, Bool-cases, ℕ, ◌≡◌, ◌∙◌, refl, sym, subst, ap, Text, Bool, Option, none, some, List,
  [], ◌∷◌, text_beq, text_eq, arith, ◌||◌, inl, inr, map, All,
}
use network_broker.Prelude.Assoc.{Assoc, find, put, find-put}
use network_broker.Prelude.IdSet
use network_broker.Prelude.IdSet.{contains, contains-insert}
use network_broker.Json.{Json, JsonLaws, ArrayLaws, File, member}
use network_broker.JsonTopics.{clients_key, read_ids, read_topic, read_topics, load_topics}
use network_broker.JsonTopics.Arrays.{AreIds}
use network_broker.JsonTopics.Refinement.{Represents, AllMatch, HasIds, member-entry, topic-cases}
use network_broker.Table.{TopicTable}

-- Whether an id is in the set of a topic, which may be missing.
abbrev pub view : Option (List ℕ) → ℕ → Option Bool
view none k = none
view (some set) k = some (contains k set)

module _ {J : Type 0} (json : Json J) (laws : JsonLaws json) (arrays : ArrayLaws json) where
  read_ids-AreIds :
      (ids acc : List ℕ)
      → AreIds ids
      → (set : List ℕ) × (read_ids json (map json.number ids) acc ≡ some set)
        × ((k : ℕ) → contains k set ≡ (contains k ids || contains k acc))
  unfolding read_ids contains
  read_ids-AreIds [] acc small = (acc, refl, λ k. refl)
  read_ids-AreIds (id ∷ ids) acc small =
      let (set, read, same) = read_ids-AreIds ids (IdSet.insert id acc) small.1 in
      (
        set,
        ground (arith, arrays.get_number_number id small.0, read),
        λ k. ground (arith, same k, contains-insert id k acc),
      )

  read_topic-HasIds :
      (v : J) (set : List ℕ)
      → HasIds json laws arrays v set
      → (ids : List ℕ) × (read_topic json v ≡ some ids)
        × ((k : ℕ) → contains k ids ≡ contains k set)
  unfolding read_topic contains
  read_topic-HasIds v set (object, (a, inside, r)) =
      let (held, entry) = member-entry json laws arrays clients_key v a inside in
      let (ids, read, same) = read_ids-AreIds r.ids [] r.small in
      let read' : read_ids json (json.elements a) [] ≡ some ids =
        ap (λ l. read_ids json l []) r.elements ∙ read in
      (ids, ground (arith, held, entry, r.array, read'), λ k. ground (arith, same k, r.same k))

  abbrev AreMembers : J → List (Text × J) → Type 0
  AreMembers j = All (λ i. member json i.0 j ≡ some i.1)

  view-put :
      (key topic : Text) (k : ℕ) (v : J) (items : List (Text × J)) (ids set : List ℕ)
      (acc topics : Assoc Text (List ℕ))
      → find key topics ≡ some set
      → contains k ids ≡ contains k set
      → (elim (find topic items) as (λ _. Option Bool) [
        | none ↦ view (find topic (put key ids acc)) k
        | some _ ↦ view (find topic topics) k
      ])
        ≡ elim (find topic ((key, v) ∷ items)) [
          | none ↦ view (find topic acc) k
          | some _ ↦ view (find topic topics) k
        ]
  unfolding find
  view-put key topic k v items ids set acc topics there same =
      elim (Bool-cases (text_beq key topic)) [
        | inl e ↦
            let there' : find topic topics ≡ some set =
              subst (λ x. find x topics ≡ some set) ((text_beq_iff key topic).0 e) there in
            ground (arith, find-put key topic ids acc, e, there', same)
        | inr e ↦ ground (arith, find-put key topic ids acc, e)
      ]

  -- The topics that are read, put in a map that has some already.
  read_topics-AreMembers :
      (j : J) (topics : Assoc Text (List ℕ))
      → AllMatch json laws arrays j topics
      → (items : List (Text × J)) (acc : Assoc Text (List ℕ)) → AreMembers j items
      → (loaded : Assoc Text (List ℕ)) × (read_topics json items acc ≡ some loaded)
        × ((topic : Text) (k : ℕ)
            → view (find topic loaded) k ≡ elim (find topic items) [
              | none ↦ view (find topic acc) k
              | some _ ↦ view (find topic topics) k
            ])
  unfolding read_topics find
  read_topics-AreMembers j topics all [] acc h = (acc, refl, λ topic k. refl)
  read_topics-AreMembers j topics all ((key, v) ∷ items) acc h =
      elim (topic-cases json laws arrays key j topics all) [
        | inl (missing, _) ↦
            absurd (ground (arith, missing, member-entry json laws arrays key j v h.0))
        | inr (v', set, there, there', has) ↦
            let has' : HasIds json laws arrays v set =
              subst (λ u. HasIds json laws arrays u set) (some-injective v' v (sym there ∙ h.0))
                has in
            let (ids, read, same) = read_topic-HasIds v set has' in
            let (loaded, rest, table) =
              read_topics-AreMembers j topics all items (put key ids acc) h.1 in
            (
              loaded,
              ground (arith, read, rest),
              λ topic k.
                  table topic k ∙ view-put key topic k v items ids set acc topics there' (same k),
            )
      ]

  items-view :
      (f : File) (t : TopicTable) (topic : Text) (k : ℕ)
      → (r : Represents json laws arrays f t)
      → (elim (find topic (json.items r.value)) as (λ _. Option Bool) [
        | none ↦ none
        | some _ ↦ view (find topic t.topics) k
      ])
        ≡ view (find topic t.topics) k
  items-view f t topic k r = elim (topic-cases json laws arrays topic r.value t.topics r.topics) [
    | inl (missing, missing') ↦ ground (arith, missing')
    | inr (v, set, there, there', has) ↦
        ground (arith, laws.items_find topic r.value r.object, there)
  ]

  -- From a file that represents a table `LoadTopics` reads the table's topics, each with its set, and
  -- leaves the file.
  pub load_topics-Represents :
      (f : File) (t : TopicTable)
      → Represents json laws arrays f t
      → ((load_topics json f).1 ≡ f)
        × ((topic : Text) (k : ℕ)
            → view (find topic (load_topics json f).0) k ≡ view (find topic t.topics) k)
  unfolding load_topics find
  load_topics-Represents f t r =
      let (topics, read, table) =
        read_topics-AreMembers r.value t.topics r.topics (json.items r.value) []
          (laws.items_member r.value r.object) in
      let loaded : load_topics json f ≡ (topics, f) = ground (arith, r.content, r.parsed, read) in
      (
        ap (λ x. x.1) loaded,
        λ topic k.
            ap (λ x. view (find topic x.0) k) loaded ∙ table topic k ∙ items-view f t topic k r,
      )
