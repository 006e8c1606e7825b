-- ===== src/JsonTopics/Changes.antt =====
-- The three changes of the JSON file of the topics do what the table of topics does.
use network_broker.Prelude.{
  text_beq_iff, ℕ, ◌≡◌, ◌<◌, ◌^◌, ◌∙◌, refl, sym, subst, Text, Bool, true, false, Option, some,
  List, [], ◌∷◌, if◌then◌else◌, text_beq, text_eq, arith, inl, inr, Bool-cases,
}
use network_broker.Prelude.Assoc.{find, assign, put, find-assign, find-put}
use network_broker.Prelude.IdSet
use network_broker.Prelude.IdSet.{contains}
use network_broker.Json.{
  Json, JsonLaws, IsDocument, is_parsed, is_entry, is_number, is_pushed, is_erased_at, ArrayLaws,
  File, write,
}
use network_broker.JsonTopics.{
  Assoc, clients_key, topic_clients, push_client, erase_client, write_made, save_topic,
  create_topic, create_in, remove_from_topic,
}
use network_broker.JsonTopics.Arrays.{push_back-IsIds, erase_at-IsIds}
use network_broker.JsonTopics.Refinement.{
  Represents, Stores, AllMatch, AllMatch-set, member-entry, set_clients-HasIds,
  set_clients-IsDocument, write_made-Represents, topic-cases,
}
use network_broker.JsonTopics.Creation.{new_topic-HasIds}
use network_broker.Table
use network_broker.Table.{TopicTable}

find-assign_present :
    (topic : Text) (old set : List ℕ) (topics : Assoc Text (List ℕ))
    → find topic topics ≡ some old
    → (k : Text)
    → find k (assign topic set topics) ≡ (if text_beq topic k then some set else find k topics)
find-assign_present topic old set topics there k = elim (Bool-cases (text_beq topic k)) [
  | inl e ↦
      let same : topic ≡ k = (text_beq_iff topic k).0 e in
      let there' : find k topics ≡ some old = subst (λ x. find x topics ≡ some old) same there in
      ground (arith, find-assign topic k set topics, e, there')
  | inr e ↦ ground (arith, find-assign topic k set topics, e)
]

module _ {J : Type 0} (json : Json J) (laws : JsonLaws json) (arrays : ArrayLaws json) where
  -- A call that is refused on both sides.
  refused-Stores :
      (x : Option Bool × File) (y : Bool × TopicTable) (f : File) (t : TopicTable)
      → x ≡ (some false, f)
      → y ≡ (false, t)
      → Represents json laws arrays f t
      → Stores json laws arrays x y
  refused-Stores x y f t e e' r =
      subst (λ u. Stores json laws arrays u y) (sym e)
        (subst (Stores json laws arrays (some false, f)) (sym e') (inl (refl, r)))

  -- A call that makes a new value for the file, and new topics for the table.
  made-Stores :
      (x : Option Bool × File) (y : Bool × TopicTable) (f : File) (t : TopicTable) (j : J)
      (topics : Assoc Text (List ℕ))
      → x ≡ write_made json (some j) f
      → y ≡ (if t.writable then (true, record t { topics = topics }) else (false, t))
      → IsDocument json j
      → json.is_object j ≡ true
      → AllMatch json laws arrays j topics
      → Represents json laws arrays f t
      → Stores json laws arrays x y
  unfolding write_made write
  made-Stores x y f t j topics e e' doc object all r = elim (Bool-cases t.writable) [
    | inl w ↦
        let t' : TopicTable = record t { topics = topics } in
        let made : y ≡ (true, t') = e' ∙ ground (arith, w) in
        subst (λ u. Stores json laws arrays u y) (sym e)
          (subst (Stores json laws arrays (write_made json (some j) f)) (sym made)
            (write_made-Represents json laws arrays j f t' doc object all r.is_writable w))
    | inr w ↦
        refused-Stores x y f t (e ∙ ground (arith, w, r.is_writable)) (e' ∙ ground (arith, w)) r
  ]

  pub save_topic-Stores :
      (topic : Text) (id : ℕ) (f : File) (t : TopicTable)
      → id < 2 ^ 64
      → Represents json laws arrays f t
      → Stores json laws arrays (save_topic json topic id f) (Table.save_topic topic id t)
  unfolding save_topic push_client topic_clients Table.save_topic
  save_topic-Stores topic id f t small r =
      elim (topic-cases json laws arrays topic r.value t.topics r.topics) [
        | inl (missing, missing') ↦
            refused-Stores (save_topic json topic id f) (Table.save_topic topic id t) f t
              (ground (arith, r.content, r.parsed, missing)) (ground (arith, missing')) r
        | inr (v, set, there, there', (object, (a, inside, ids))) ↦
            let (held, read) = member-entry json laws arrays topic r.value v there in
            let (held', read') = member-entry json laws arrays clients_key v a inside in
            elim (Bool-cases (contains id set)) [
              | inl e ↦
                  let (n, a', found, erased, ids') =
                    erase_at-IsIds json arrays a set id ids small e in
                  refused-Stores (save_topic json topic id f) (Table.save_topic topic id t) f t
                    (ground (arith, r.content, r.parsed, held, read, read', found))
                    (ground (arith, there', e)) r
              | inr e ↦
                  let (absent, (a', pushed, ids')) =
                    push_back-IsIds json arrays a set id ids small e in
                  let (v', j', set_j, object', has, table) =
                    set_clients-HasIds json laws arrays topic a' v r.value (IdSet.insert id set)
                      r.object there object ids' in
                  made-Stores (save_topic json topic id f) (Table.save_topic topic id t) f t j'
                    (assign topic (IdSet.insert id set) t.topics)
                    (ground (arith, r.content, r.parsed, held, read, read', absent, pushed, set_j))
                    (ground (arith, there', e))
                    (set_clients-IsDocument json laws arrays topic a' r.value j'
                      (is_pushed (is_number id small)
                        (is_entry clients_key (is_entry topic (is_parsed r.text r.parsed) read)
                          read')
                        pushed)
                      (is_parsed r.text r.parsed) set_j)
                    object'
                    (AllMatch-set json laws arrays topic v' r.value j' (IdSet.insert id set)
                      t.topics (assign topic (IdSet.insert id set) t.topics) table
                      (find-assign_present topic set (IdSet.insert id set) t.topics there') has
                      r.topics)
                    r
            ]
      ]

  pub remove_from_topic-Stores :
      (topic : Text) (id : ℕ) (f : File) (t : TopicTable)
      → id < 2 ^ 64
      → Represents json laws arrays f t
      → Stores json laws arrays
          (remove_from_topic json topic id f)
          (Table.remove_from_topic topic id t)
  unfolding remove_from_topic erase_client topic_clients Table.remove_from_topic
  remove_from_topic-Stores topic id f t small r =
      elim (topic-cases json laws arrays topic r.value t.topics r.topics) [
        | inl (missing, missing') ↦
            refused-Stores (remove_from_topic json topic id f) (Table.remove_from_topic topic id t)
              f t (ground (arith, r.content, r.parsed, missing)) (ground (arith, missing')) r
        | inr (v, set, there, there', (object, (a, inside, ids))) ↦
            let (held, read) = member-entry json laws arrays topic r.value v there in
            let (held', read') = member-entry json laws arrays clients_key v a inside in
            elim (Bool-cases (contains id set)) [
              | inl e ↦
                  let (n, a', found, erased, ids') =
                    erase_at-IsIds json arrays a set id ids small e in
                  let (v', j', set_j, object', has, table) =
                    set_clients-HasIds json laws arrays topic a' v r.value (IdSet.erase id set)
                      r.object there object ids' in
                  made-Stores (remove_from_topic json topic id f)
                    (Table.remove_from_topic topic id t) f t j'
                    (assign topic (IdSet.erase id set) t.topics)
                    (ground (arith, r.content, r.parsed, held, read, read', found, erased, set_j))
                    (ground (arith, there', e))
                    (set_clients-IsDocument json laws arrays topic a' r.value j'
                      (is_erased_at n
                        (is_entry clients_key (is_entry topic (is_parsed r.text r.parsed) read)
                          read')
                        erased)
                      (is_parsed r.text r.parsed) set_j)
                    object'
                    (AllMatch-set json laws arrays topic v' r.value j' (IdSet.erase id set) t.topics
                      (assign topic (IdSet.erase id set) t.topics) table
                      (find-assign_present topic set (IdSet.erase id set) t.topics there') has
                      r.topics)
                    r
              | inr e ↦
                  let (absent, _) = push_back-IsIds json arrays a set id ids small e in
                  refused-Stores (remove_from_topic json topic id f)
                    (Table.remove_from_topic topic id t) f t
                    (ground (arith, r.content, r.parsed, held, read, read', absent))
                    (ground (arith, there', e)) r
            ]
      ]

  pub create_topic-Stores :
      (topic : Text) (id : ℕ) (f : File) (t : TopicTable)
      → id < 2 ^ 64
      → Represents json laws arrays f t
      → Stores json laws arrays (create_topic json topic id f) (Table.create_topic topic id t)
  unfolding create_topic create_in Table.create_topic
  create_topic-Stores topic id f t small r =
      elim (topic-cases json laws arrays topic r.value t.topics r.topics) [
        | inl (missing, missing') ↦
            let (v, j', made, doc', object', has, table) =
              new_topic-HasIds json laws arrays topic id r.value small (is_parsed r.text r.parsed)
                r.object in
            made-Stores (create_topic json topic id f) (Table.create_topic topic id t) f t j'
              (put topic (id ∷ []) t.topics) (ground (arith, r.content, r.parsed, missing, made))
              (ground (arith, missing')) doc' object'
              (AllMatch-set json laws arrays topic v r.value j' (id ∷ []) t.topics
                (put topic (id ∷ []) t.topics) table (λ k. find-put topic k (id ∷ []) t.topics) has
                r.topics)
              r
        | inr (v, set, there, there', _) ↦
            let (held, read) = member-entry json laws arrays topic r.value v there in
            refused-Stores (create_topic json topic id f) (Table.create_topic topic id t) f t
              (ground (arith, r.content, r.parsed, held)) (ground (arith, there')) r
      ]
