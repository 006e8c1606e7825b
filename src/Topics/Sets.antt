-- ===== src/Topics/Sets.antt =====
-- The sets of subscribers hold no id twice, whatever is done.
use network_broker.Prelude.{
  ℕ, ◌≡◌, refl, subst, Text, ◌&&◌, List, [], ◌∷◌, text_beq, text_eq, arith, Option-cases,
  Bool-cases, inl, inr,
}
use network_broker.Prelude.Assoc.{find, assign, put, find-assign, find-put}
use network_broker.Prelude.IdSet
use network_broker.Prelude.IdSet.{NoRepeat, insert-NoRepeat, erase-NoRepeat}
use network_broker.Repository.{TopicRepository}
use network_broker.Topics.{Topics, TopicManager, entry, subscribe, create, unsubscribe}
use network_broker.Topics.Subscriptions.{AllSets}

assign-AllSets :
    (topic : Text) (ids : List ℕ) (topics : Topics)
    → NoRepeat ids
    → AllSets topics
    → AllSets (assign topic ids topics)
assign-AllSets topic ids topics now all t js e = elim (Bool-cases (text_beq topic t)) [
  | inl same ↦
      let value : ids ≡ js = ground (arith, same, find-assign topic t ids topics) in
      subst NoRepeat value now
  | inr other ↦ all t js (ground (arith, other, find-assign topic t ids topics))
]

pub put-AllSets :
    (topic : Text) (ids : List ℕ) (topics : Topics)
    → NoRepeat ids
    → AllSets topics
    → AllSets (put topic ids topics)
put-AllSets topic ids topics now all t js e = elim (Bool-cases (text_beq topic t)) [
  | inl same ↦
      let value : ids ≡ js = ground (arith, same, find-put topic t ids topics) in
      subst NoRepeat value now
  | inr other ↦ all t js (ground (arith, other, find-put topic t ids topics))
]

module _ {Db : Type 0} (repo : TopicRepository Db) (id : ℕ) (topic : Text) (m : TopicManager Db)
    (all : AllSets m.topics) where
  pub subscribe-AllSets : AllSets (subscribe repo id topic m).1.topics
  unfolding subscribe
  subscribe-AllSets = elim (Option-cases (find topic m.topics)) [
    | inl e ↦
        let same : m.topics ≡ (subscribe repo id topic m).1.topics = ground (arith, e) in
        subst AllSets same all
    | inr (ids, e) ↦
        let new_topics : Topics = assign topic (IdSet.insert id ids) m.topics in
        let same : new_topics ≡ (subscribe repo id topic m).1.topics = ground (arith, e) in
        subst AllSets same
          (assign-AllSets topic _ m.topics (insert-NoRepeat id ids (all topic ids e)) all)
  ]

  pub create-AllSets : AllSets (create repo id topic m).1.topics
  unfolding create entry IdSet.insert IdSet.contains
  create-AllSets = elim (Option-cases (find topic m.topics)) [
    | inr (ids, e) ↦
        let same : m.topics ≡ (create repo id topic m).1.topics = ground (arith, e) in
        subst AllSets same all
    | inl e ↦ elim (Bool-cases (repo.create_topic topic id m.db).0) [
      | inl made ↦
          let new_topics : Topics = put topic (id ∷ []) m.topics in
          let same : new_topics ≡ (create repo id topic m).1.topics = ground (arith, e, made) in
          subst AllSets same (put-AllSets topic (id ∷ []) m.topics (refl, tt) all)
      | inr refused ↦
          let same : m.topics ≡ (create repo id topic m).1.topics = ground (arith, e, refused) in
          subst AllSets same all
    ]
  ]

  pub unsubscribe-AllSets : AllSets (unsubscribe repo id topic m).1.topics
  unfolding unsubscribe
  unsubscribe-AllSets = elim (Option-cases (find topic m.topics)) [
    | inl e ↦
        let same : m.topics ≡ (unsubscribe repo id topic m).1.topics = ground (arith, e) in
        subst AllSets same all
    | inr (ids, e) ↦
        elim (Bool-cases (IdSet.contains id ids && (repo.remove_from_topic topic id m.db).0)) [
          | inl gone ↦
              let new_topics : Topics = assign topic (IdSet.erase id ids) m.topics in
              let same : new_topics ≡ (unsubscribe repo id topic m).1.topics =
                ground (arith, e, gone) in
              subst AllSets same
                (assign-AllSets topic _ m.topics (erase-NoRepeat id ids (all topic ids e)) all)
          | inr kept ↦
              let same : m.topics ≡ (unsubscribe repo id topic m).1.topics =
                ground (arith, e, kept) in
              subst AllSets same all
        ]
  ]
