-- ===== src/Topics.antt =====
-- app/src/topics/topic_manager.h, topic_manager.cpp and rc.h: the subscribers of each topic, and the
-- store behind them.
pub mod Subscriptions
pub mod Sets
pub mod Store
pub mod Refinement
pub mod Order
use network_broker.Prelude.{ℕ, Text, not, none, some, List, [], if◌then◌else◌, text_eq}
use network_broker.Prelude.Assoc.{Assoc, find, assign, put}
use network_broker.Prelude.IdSet
use network_broker.Repository.{TopicRepository}

pub data TopicCodes : Type 0 where
  ok topic_already_exists topic_not_found : TopicCodes
  already_subscribed not_subscribed internal_error : TopicCodes

abbrev pub Topics : Type 0
Topics = Assoc Text (List ℕ)

pub record TopicManager (Db : Type 0) : Type 0 where
  pub topics : Topics
  pub db : Db

-- topics_[ topic ], whose missing entry is made with an empty set.
unfoldable pub entry : Text → Topics → List ℕ
entry topic topics = elim (find topic topics) [ none ↦ [] | some ids ↦ ids ]

module _ {Db : Type 0} where
  -- The last argument is what the output parameter held before the call.
  unfoldable pub publish : Text → Text → TopicManager Db → List ℕ → TopicCodes × List ℕ
  unfolding entry
  publish topic message m clients = elim (find topic m.topics) [
    | none ↦ (topic_not_found, clients)
    | some _ ↦ (ok, entry topic m.topics)
  ]

  module _ (repo : TopicRepository Db) where
    unfoldable pub load_topics : TopicManager Db → TopicManager Db
    load_topics m = let (topics, db) = repo.load_topics m.db in record { topics = topics; db = db }

    -- The constructor.
    unfoldable pub new : Db → TopicManager Db
    unfolding load_topics
    new db = load_topics (record { topics = []; db = db })

    unfoldable pub subscribe : ℕ → Text → TopicManager Db → TopicCodes × TopicManager Db
    subscribe id topic m = elim (find topic m.topics) [
      | none ↦ (topic_not_found, m)
      | some ids ↦
          let topics = assign topic (IdSet.insert id ids) m.topics in
          let (saved, db) = repo.save_topic topic id m.db in
          let m' : TopicManager Db = record { topics = topics; db = db } in
          if not saved then (internal_error, m') else (ok, m')
    ]

    unfoldable pub create : ℕ → Text → TopicManager Db → TopicCodes × TopicManager Db
    unfolding entry
    create id topic m = elim (find topic m.topics) [
      | some _ ↦ (topic_already_exists, m)
      | none ↦
          let (created, db) = repo.create_topic topic id m.db in
          if not created then (internal_error, record m { db = db }) else (
            ok,
            record {
              topics = put topic (IdSet.insert id (entry topic m.topics)) m.topics;
              db = db;
            },
          )
    ]

    unfoldable pub unsubscribe : ℕ → Text → TopicManager Db → TopicCodes × TopicManager Db
    unsubscribe id topic m = elim (find topic m.topics) [
      | none ↦ (topic_not_found, m)
      | some ids ↦
          if not (IdSet.contains id ids)
          then (not_subscribed, m)
          else let (removed, db) = repo.remove_from_topic topic id m.db in
            if not removed
            then (internal_error, record m { db = db })
            else (ok, record { topics = assign topic (IdSet.erase id ids) m.topics; db = db })
    ]
