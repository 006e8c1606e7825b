-- ===== src/Topics/Refinement.antt =====
-- The topic manager over a store does what it does over the store's specification.
use network_broker.Prelude.{
  ℕ, ◌<◌, ◌^◌, ◌≡◌, ◌⊎◌, inl, inr, sym, subst, Text, not, if◌then◌else◌, arith, text_eq,
  Option-cases, Bool-cases,
}
use network_broker.Prelude.Assoc.{find, assign, put}
use network_broker.Prelude.IdSet
use network_broker.Prelude.IdSet.{contains}
use network_broker.Repository.{TopicRepository}
use network_broker.Repository.Refinement.{TopicRefinement}
use network_broker.Topics.{
  TopicCodes, ok, topic_already_exists, topic_not_found, not_subscribed, internal_error,
  TopicManager, entry, subscribe, create, unsubscribe,
}

-- The manager over another store.
abbrev pub with_db : {Db Spec : Type 0} → Db → TopicManager Spec → TopicManager Db
with_db d m = record { topics = m.topics; db = d }

module _ {Db Spec : Type 0} {repo : TopicRepository Db} {spec : TopicRepository Spec}
    (R : TopicRefinement repo spec) where
  -- The same code and the same topics, over related stores; or the store is broken.
  abbrev pub Follows : TopicCodes × TopicManager Db → TopicCodes × TopicManager Spec → Type 0
  Follows r s = ((d : Db) × (r ≡ (s.0, with_db d s.1)) × R.Rel d s.1.db) ⊎ R.Broken r.1.db

  answers :
      (r : TopicCodes × TopicManager Db) (s : TopicCodes × TopicManager Spec) (d : Db)
      (code : TopicCodes) (m : TopicManager Spec)
      → r ≡ (code, with_db d m)
      → s ≡ (code, m)
      → R.Rel d m.db
      → Follows r s
  answers r s d code m e e' related =
      let same : (code, m) ≡ s = sym e' in subst (Follows r) same (inl (d, e, related))

  breaks :
      (r : TopicCodes × TopicManager Db) (s : TopicCodes × TopicManager Spec) (d : Db)
      → r.1.db ≡ d
      → R.Broken d
      → Follows r s
  breaks r s d e broken = inr (subst R.Broken (sym e) broken)

  module _ (id : ℕ) (topic : Text) (d : Db) (m : TopicManager Spec) (small : id < 2 ^ 64)
      (related : R.Rel d m.db) where
    pub subscribe-Follows :
        Follows (subscribe repo id topic (with_db d m)) (subscribe spec id topic m)
    unfolding subscribe
    subscribe-Follows = elim (Option-cases (find topic m.topics)) [
      | inl e ↦ answers _ _ d topic_not_found m (ground (arith, e)) (ground (arith, e)) related
      | inr (ids, e) ↦
          let x = repo.save_topic topic id d in
          let y = spec.save_topic topic id m.db in
          elim (R.save_topic topic id d m.db small related) [
            | inl (same, related') ↦
                answers _ _ x.1 (if not y.0 then internal_error else ok)
                  (record { topics = assign topic (IdSet.insert id ids) m.topics; db = y.1 })
                  (ground (arith, e, same)) (ground (arith, e)) related'
            | inr broken ↦ breaks _ _ x.1 (ground (arith, e)) broken
          ]
    ]

    pub create-Follows : Follows (create repo id topic (with_db d m)) (create spec id topic m)
    unfolding create
    create-Follows = elim (Option-cases (find topic m.topics)) [
      | inr (ids, e) ↦
          answers _ _ d topic_already_exists m (ground (arith, e)) (ground (arith, e)) related
      | inl e ↦
          let x = repo.create_topic topic id d in
          let y = spec.create_topic topic id m.db in
          let made = put topic (IdSet.insert id (entry topic m.topics)) m.topics in
          elim (R.create_topic topic id d m.db small related) [
            | inl (same, related') ↦
                answers _ _ x.1 (if not y.0 then internal_error else ok)
                  (record { topics = if not y.0 then m.topics else made; db = y.1 })
                  (ground (arith, e, same)) (ground (arith, e)) related'
            | inr broken ↦ breaks _ _ x.1 (ground (arith, e)) broken
          ]
    ]

    pub unsubscribe-Follows :
        Follows (unsubscribe repo id topic (with_db d m)) (unsubscribe spec id topic m)
    unfolding unsubscribe
    unsubscribe-Follows = elim (Option-cases (find topic m.topics)) [
      | inl e ↦ answers _ _ d topic_not_found m (ground (arith, e)) (ground (arith, e)) related
      | inr (ids, e) ↦ elim (Bool-cases (contains id ids)) [
        | inr out ↦
            answers _ _ d not_subscribed m (ground (arith, e, out)) (ground (arith, e, out)) related
        | inl member ↦
            let x = repo.remove_from_topic topic id d in
            let y = spec.remove_from_topic topic id m.db in
            elim (R.remove_from_topic topic id d m.db small related) [
              | inl (same, related') ↦
                  answers _ _ x.1 (if not y.0 then internal_error else ok)
                    (record {
                      topics =
                          if not y.0 then m.topics else assign topic (IdSet.erase id ids) m.topics;
                      db = y.1;
                    })
                    (ground (arith, e, member, same)) (ground (arith, e, member)) related'
              | inr broken ↦ breaks _ _ x.1 (ground (arith, e, member)) broken
            ]
      ]
    ]
