-- ===== src/Topics/Store.antt =====
-- The topics in memory against the topics in the store: topic_manager.cpp over a store that refines the
-- table of topics, as the JSON file of app/src/db does (Application/Files).
use network_broker.Prelude.{
  ℕ, ◌<◌, ◌^◌, ◌≡◌, ◌⊎◌, ◌∙◌, inl, inr, sym, subst, Text, true, false, arith, text_beq_iff, text_eq,
}
use network_broker.Repository.{TopicRepository}
use network_broker.Repository.Refinement.{TopicRefinement}
use network_broker.Table
use network_broker.Table.{TopicTable, topic_table}
use network_broker.Topics.{Topics, TopicManager, internal_error, subscribe}
use network_broker.Topics.Subscriptions.{known, subscribed, subscribe-subscribed}

-- Memory and table hold the same pairs of a topic and a subscriber.
abbrev pub InSync : Topics → TopicTable → Type 0
InSync topics t = (topic : Text) (k : ℕ) → subscribed topic k topics ≡ subscribed topic k t.topics

-- A table that refuses to save stays as it is.
save_topic_refused :
    (topic : Text) (id : ℕ) (t : TopicTable)
    → (Table.save_topic topic id t).0 ≡ false
    → (Table.save_topic topic id t).1 ≡ t
unfolding Table.save_topic
save_topic_refused topic id t e = ground arith

module _ {Db : Type 0} {repo : TopicRepository Db} (R : TopicRefinement repo topic_table) (id : ℕ)
    (topic : Text) (m : TopicManager Db) (t : TopicTable) where
  -- The calls that `Subscribe` makes where it answers InternalError.
  subscribe_refused :
      (subscribe repo id topic m).0 ≡ internal_error
      → (known topic m.topics ≡ true)
        × ((repo.save_topic topic id m.db).0 ≡ false)
        × ((subscribe repo id topic m).1.db ≡ (repo.save_topic topic id m.db).1)
  unfolding subscribe known
  subscribe_refused e = (ground arith, ground arith, ground arith)

  -- Take a store that refines the table of topics and holds the pairs that the memory holds, and a
  -- subscription with a 64-bit id that is new and is answered with InternalError. It is made in memory all
  -- the same. The store, unless the call has broken it, holds the table that it held, without the
  -- subscription: memory and store are out of step.
  pub subscribe_out_of_sync :
      id < 2 ^ 64
      → R.Rel m.db t
      → InSync m.topics t
      → (subscribe repo id topic m).0 ≡ internal_error
      → subscribed topic id m.topics ≡ false
      → let m' = (subscribe repo id topic m).1 in
        (subscribed topic id m'.topics ≡ true)
        × (R.Broken m'.db
            ⊎ (R.Rel m'.db t × (subscribed topic id t.topics ≡ false) × ¬ InSync m'.topics t))
  subscribe_out_of_sync small related sync bad fresh =
      let (there, refused, left) = subscribe_refused bad in
      let made : subscribed topic id (subscribe repo id topic m).1.topics ≡ true =
        (subscribe-subscribed topic m repo id).1 topic id
        ∙ ground (arith, there, text_beq_iff topic topic) in
      let absent : subscribed topic id t.topics ≡ false = sym (sync topic id) ∙ fresh in
      (
        made,
        elim (R.save_topic topic id m.db t small related) [
          | inr broken ↦ inl (subst R.Broken (sym left) broken)
          | inl (same, related') ↦
              let kept = save_topic_refused topic id t (sym same ∙ refused) in
              inr (
                subst (λ d. R.Rel d t) (sym left)
                    (subst (R.Rel (repo.save_topic topic id m.db).1) kept related'),
                absent,
                λ after. ground (arith, made, after topic id, absent),
              )
        ],
      )
