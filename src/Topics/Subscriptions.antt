-- ===== src/Topics/Subscriptions.antt =====
-- The topics seen as a relation between names and ids, and what each operation does to it.
use network_broker.Prelude.{
  ℕ, ◌≡◌, Text, Bool, true, false, not, ◌&&◌, ◌||◌, none, some, List, [], ◌∷◌, if◌then◌else◌,
  nat_beq, nat_beq_iff, text_beq, text_beq_iff, text_eq, arith, Option-cases, inl, inr,
}
use network_broker.Prelude.Assoc.{find, find-assign, find-put}
use network_broker.Prelude.IdSet
use network_broker.Prelude.IdSet.{
  contains, contains-insert, contains-erase, NoRepeat, insert-NoRepeat, erase-NoRepeat,
}
use network_broker.Repository.{TopicRepository}
use network_broker.Topics.{
  Topics, TopicManager, ok, topic_already_exists, topic_not_found, not_subscribed, internal_error,
  entry, publish, subscribe, create, unsubscribe,
}

-- There is a topic with the name.
unfoldable pub known : Text → Topics → Bool
known topic topics = elim (find topic topics) [ none ↦ false | some _ ↦ true ]

-- The client is in the topic's set.
unfoldable pub subscribed : Text → ℕ → Topics → Bool
subscribed topic id topics = elim (find topic topics) [ none ↦ false | some ids ↦ contains id ids ]

-- The pair of a topic and a client that an operation is about.
abbrev pub is_pair : Text → ℕ → Text → ℕ → Bool
is_pair topic id t k = text_beq topic t && nat_beq id k

-- No id stands twice in a set.
abbrev pub AllSets : Topics → Type 0
AllSets topics = (topic : Text) (ids : List ℕ) → find topic topics ≡ some ids → NoRepeat ids

module _ {Db : Type 0} (topic : Text) (m : TopicManager Db) where
  -- The ids that `Publish` hands out are the subscribers of the topic; it fails exactly if there is
  -- no such topic, and leaves the caller's set as it was then.
  pub publish-subscribed :
      (message : Text) (old : List ℕ)
      → ((publish topic message m old).0 ≡ (if known topic m.topics then ok else topic_not_found))
        × ((k : ℕ)
            → contains k (publish topic message m old).1
              ≡ (if known topic m.topics then subscribed topic k m.topics else contains k old))
  unfolding publish known subscribed
  publish-subscribed message old = (ground arith, λ k. ground arith)

  pub publish-NoRepeat :
      (message : Text) → AllSets m.topics → NoRepeat (publish topic message m []).1
  unfolding publish
  publish-NoRepeat message sets = elim (Option-cases (find topic m.topics)) [
    | inl e ↦ ground (arith, e)
    | inr (ids, e) ↦ ground (arith, e, sets topic ids e)
  ]

  module _ (repo : TopicRepository Db) (id : ℕ) where
    -- `Subscribe` on a known topic adds the pair, also where the store then refuses and the answer is
    -- InternalError; on an unknown topic it changes nothing. No topic appears or goes.
    pub subscribe-subscribed :
        ((subscribe repo id topic m).0 ≡ (
          if known topic m.topics
          then (if (repo.save_topic topic id m.db).0 then ok else internal_error)
          else topic_not_found))
        × ((t : Text) (k : ℕ)
            → subscribed t k (subscribe repo id topic m).1.topics
              ≡ (subscribed t k m.topics || (known topic m.topics && is_pair topic id t k)))
        × ((t : Text) → known t (subscribe repo id topic m).1.topics ≡ known t m.topics)
    unfolding subscribe known subscribed
    subscribe-subscribed = elim (Option-cases (find topic m.topics)) [
      | inl e ↦ (ground (arith, e), λ t k. ground (arith, e), λ t. ground (arith, e))
      | inr (ids, e) ↦ (
        ground (arith, e),
        λ t k. ground (
          arith,
          e,
          find-assign topic t (IdSet.insert id ids) m.topics,
          contains-insert id k ids,
          text_beq_iff topic t,
        ),
        λ t. ground (arith, e, find-assign topic t (IdSet.insert id ids) m.topics),
      )
    ]

    -- `Create` makes an unknown topic whose one subscriber is the creator, if the store agrees;
    -- otherwise it changes nothing.
    pub create-subscribed :
        ((create repo id topic m).0 ≡ (
          if known topic m.topics
          then topic_already_exists
          else (if (repo.create_topic topic id m.db).0 then ok else internal_error)))
        × ((t : Text) (k : ℕ)
            → subscribed t k (create repo id topic m).1.topics ≡ (
                if not (known topic m.topics)
                  && (repo.create_topic topic id m.db).0
                  && text_beq topic t
                then nat_beq id k
                else subscribed t k m.topics))
        × ((t : Text)
            → known t (create repo id topic m).1.topics ≡ (
                known t m.topics
                || (not (known topic m.topics)
                    && (repo.create_topic topic id m.db).0
                    && text_beq topic t)))
    unfolding create entry known subscribed IdSet.insert contains
    create-subscribed = elim (Option-cases (find topic m.topics)) [
      | inl e ↦ (
        ground (arith, e),
        λ t k. ground (arith, e, find-put topic t (id ∷ []) m.topics, text_beq_iff topic t),
        λ t. ground (arith, e, find-put topic t (id ∷ []) m.topics, text_beq_iff topic t),
      )
      | inr (ids, e) ↦ (ground (arith, e), λ t k. ground (arith, e), λ t. ground (arith, e))
    ]

    -- `Unsubscribe` removes the pair if it is there and the store agrees, and changes nothing
    -- otherwise. No topic appears or goes.
    pub unsubscribe-subscribed :
        ((unsubscribe repo id topic m).0 ≡ (
          if known topic m.topics
          then (if subscribed topic id m.topics
              then (if (repo.remove_from_topic topic id m.db).0 then ok else internal_error)
              else not_subscribed)
          else topic_not_found))
        × ((t : Text) (k : ℕ)
            → subscribed t k (unsubscribe repo id topic m).1.topics ≡ (
                subscribed t k m.topics
                && not (is_pair topic id t k && (repo.remove_from_topic topic id m.db).0)))
        × ((t : Text) → known t (unsubscribe repo id topic m).1.topics ≡ known t m.topics)
    unfolding unsubscribe known subscribed
    unsubscribe-subscribed = elim (Option-cases (find topic m.topics)) [
      | inl e ↦ (
        ground (arith, e),
        λ t k. ground (arith, e, text_beq_iff topic t),
        λ t. ground (arith, e),
      )
      | inr (ids, e) ↦ (
        ground (arith, e),
        λ t k. ground (
          arith,
          e,
          find-assign topic t (IdSet.erase id ids) m.topics,
          contains-erase id k ids,
          text_beq_iff topic t,
          nat_beq_iff id k,
        ),
        λ t. ground (arith, e, find-assign topic t (IdSet.erase id ids) m.topics),
      )
    ]
