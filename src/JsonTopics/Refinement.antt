-- ===== src/JsonTopics/Refinement.antt =====
-- The JSON file of the topics implements the table of topics.
use network_broker.Prelude.{
  text_beq_iff, ℕ, ◌≡◌, ◌∙◌, refl, sym, subst, Text, Bool, true, false, Option, none, some, List,
  [], if◌then◌else◌, text_beq, text_eq, arith, ◌⊎◌, inl, inr, Bool-cases, Option-cases,
}
use network_broker.Prelude.Assoc.{find}
use network_broker.Json.{
  Json, JsonLaws, IsDocument, is_entry, is_set, ArrayLaws, File, member, write,
}
use network_broker.JsonTopics.{Assoc, clients_key, set_clients, write_made}
use network_broker.JsonTopics.Arrays.{IsIds}
use network_broker.Table.{TopicTable}

module _ {J : Type 0} (json : Json J) (laws : JsonLaws json) (arrays : ArrayLaws json) where
  -- A topic's object, with an array of the ids of a set.
  abbrev pub HasIds : J → List ℕ → Type 0
  HasIds v set =
      (json.is_object v ≡ true)
      × ((a : J) × (member json clients_key v ≡ some a) × IsIds json arrays a set)

  -- What stands under a topic in the file, and in the table.
  abbrev pub Matches : Option J → Option (List ℕ) → Type 0
  Matches none none = Unit
  Matches none (some set) = ⊥
  Matches (some v) none = ⊥
  Matches (some v) (some set) = HasIds v set

  abbrev pub AllMatch : J → Assoc Text (List ℕ) → Type 0
  AllMatch j topics = (topic : Text) → Matches (member json topic j) (find topic topics)

  -- The file holds an object of such topics, those of the table.
  pub record Represents (f : File) (t : TopicTable) : Type 0 where
    pub text : Text
    pub value : J
    pub content : f.content ≡ some text
    pub parsed : json.parse text ≡ some value
    pub object : json.is_object value ≡ true
    pub topics : AllMatch value t.topics
    pub is_writable : f.is_writable ≡ t.writable

  -- A call does what the table does, answer included; or else an exception leaves it, and the file has
  -- lost its content.
  abbrev pub Stores : Option Bool × File → Bool × TopicTable → Type 0
  Stores r t = ((r.0 ≡ some t.0) × Represents r.1 t.1) ⊎ ((r.0 ≡ none) × (r.1.content ≡ some []))

  pub AllMatch-set :
      (topic : Text) (v j j' : J) (set : List ℕ) (topics topics' : Assoc Text (List ℕ))
      → ((k : Text) → member json k j' ≡ (if text_beq topic k then some v else member json k j))
      → ((k : Text) → find k topics' ≡ (if text_beq topic k then some set else find k topics))
      → HasIds v set
      → AllMatch j topics
      → AllMatch j' topics'
  AllMatch-set topic v j j' set topics topics' table table' has all k =
      elim (Bool-cases (text_beq topic k)) [
        | inl e ↦
            let here : some v ≡ member json k j' = sym (table k ∙ ground (arith, e)) in
            let here' : some set ≡ find k topics' = sym (table' k ∙ ground (arith, e)) in
            subst (λ o. Matches o (find k topics')) here (subst (Matches (some v)) here' has)
        | inr e ↦
            let same : member json k j ≡ member json k j' = sym (table k ∙ ground (arith, e)) in
            let same' : find k topics ≡ find k topics' = sym (table' k ∙ ground (arith, e)) in
            subst (λ o. Matches o (find k topics')) same
              (subst (Matches (member json k j)) same' (all k))
      ]

  pub member-entry :
      (key : Text) (j v : J)
      → member json key j ≡ some v
      → (json.contains key j ≡ true) × (json.entry key j ≡ some v)
  unfolding member
  member-entry key j v e = ground (arith, e)

  -- The assignment of an array of ids to a topic that the object has.
  pub set_clients-HasIds :
      (topic : Text) (a v j : J) (set : List ℕ)
      → json.is_object j ≡ true
      → member json topic j ≡ some v
      → json.is_object v ≡ true
      → IsIds json arrays a set
      → (v' j' : J) × (set_clients json topic a j ≡ some j')
        × (json.is_object j' ≡ true)
        × HasIds v' set
        × ((k : Text) → member json k j' ≡ (if text_beq topic k then some v' else member json k j))
  unfolding set_clients
  set_clients-HasIds topic a v j set object there object_v ids =
      let (held, read) = member-entry topic j v there in
      let (v', set_v, object_v', table_v) = laws.set_member clients_key a v object_v in
      let (j', set_j, object', table) = laws.set_member topic v' j object in
      let inside : member json clients_key v' ≡ some a =
        table_v clients_key ∙ ground (arith, (text_beq_iff clients_key clients_key).1 refl) in
      (v', j', ground (arith, read, set_v, set_j), object', (object_v', (a, inside, ids)), table)

  pub set_clients-IsDocument :
      (topic : Text) (a j j' : J)
      → IsDocument json a
      → IsDocument json j
      → set_clients json topic a j ≡ some j'
      → IsDocument json j'
  unfolding set_clients
  set_clients-IsDocument topic a j j' doc_a doc e = elim (Option-cases (json.entry topic j)) [
    | inl bad ↦ absurd (ground (arith, bad, e))
    | inr (v, read) ↦ elim (Option-cases (json.set clients_key a v)) [
      | inl bad ↦ absurd (ground (arith, read, bad, e))
      | inr (v', set_v) ↦
          is_set topic (is_set clients_key doc_a (is_entry topic doc read) set_v) doc
            (ground (arith, read, set_v, e))
    ]
  ]

  pub write_made-Represents :
      (j : J) (f : File) (t : TopicTable)
      → IsDocument json j
      → json.is_object j ≡ true
      → AllMatch j t.topics
      → f.is_writable ≡ t.writable
      → t.writable ≡ true
      → Stores (write_made json (some j) f) (true, t)
  unfolding write_made write
  write_made-Represents j f t doc object all same writable = elim (Option-cases (json.dump j)) [
    | inl e ↦ inr (ground (arith, e, same, writable))
    | inr (out, e) ↦ inl (
      ground (arith, e, same, writable),
      record {
        text = out;
        value = j;
        content = ground (arith, e, same, writable);
        parsed = laws.parse_dump j out doc e;
        object = object;
        topics = all;
        is_writable = ground (arith, e, same, writable);
      },
    )
  ]

  member-missing :
      (topic : Text) (j : J) → member json topic j ≡ none → json.contains topic j ≡ false
  unfolding member
  member-missing topic j e = elim (Bool-cases (json.contains topic j)) [
    | inl e' ↦
        let (v, read) = laws.contains_entry topic j e' in absurd (ground (arith, e, e', read))
    | inr e' ↦ e'
  ]

  -- The two cases of a topic: it is missing in both, or it has the same ids in both.
  pub topic-cases :
      (topic : Text) (j : J) (topics : Assoc Text (List ℕ))
      → AllMatch j topics
      → ((json.contains topic j ≡ false) × (find topic topics ≡ none))
        ⊎ ((v : J) × (set : List ℕ) × (member json topic j ≡ some v)
            × (find topic topics ≡ some set)
            × HasIds v set)
  topic-cases topic j topics all =
      from (member json topic j) (find topic topics) refl refl (all topic)
    where
      from :
          (o : Option J) (o' : Option (List ℕ))
          → member json topic j ≡ o
          → find topic topics ≡ o'
          → Matches o o'
          → ((json.contains topic j ≡ false) × (find topic topics ≡ none))
            ⊎ ((v : J) × (set : List ℕ) × (member json topic j ≡ some v)
                × (find topic topics ≡ some set)
                × HasIds v set)
      from none none e e' m = inl (member-missing topic j e, e')
      from none (some set) e e' m = absurd m
      from (some v) none e e' m = absurd m
      from (some v) (some set) e e' m = inr (v, set, e, e', m)
