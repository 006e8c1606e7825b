-- ===== src/Topics/Order.antt =====
-- The topic manager where the sets of subscribers iterate in another order.
use mathlib.Core.List.{Permᴰ}
use mathlib.Core.List.Permᴰ
use network_broker.Prelude.{
  ◌∙◌, ℕ, ◌≡◌, inl, inr, sym, subst, Text, not, if◌then◌else◌, arith, text_eq, Option, none, some,
  List, [], ◌==◌, Bool-cases,
}
use network_broker.Prelude.Assoc.{find, assign, put, find-put}
use network_broker.Prelude.IdSet
use network_broker.Prelude.IdSet.{contains}
use network_broker.Prelude.IdSet.Order.{contains-Permᴰ, insert-Permᴰ, erase-Permᴰ}
use network_broker.Repository.{TopicRepository}
use network_broker.Topics.{
  TopicCodes, ok, topic_already_exists, topic_not_found, not_subscribed, internal_error, Topics,
  TopicManager, entry, publish, subscribe, create, unsubscribe,
}

-- No set and no set, or a set and the same ids in some order.
pub data IsSame : Option (List ℕ) → Option (List ℕ) → Type 0 where
  missing : {x y : Option (List ℕ)} → x ≡ none → y ≡ none → IsSame x y
  both :
      {x y : Option (List ℕ)} {ids ids' : List ℕ}
      → x ≡ some ids
      → y ≡ some ids'
      → Permᴰ ids ids'
      → IsSame x y

-- The same topics, with the same subscribers each.
abbrev pub SameTopics : Topics → Topics → Type 0
SameTopics ts ts' = (topic : Text) → IsSame (find topic ts) (find topic ts')

IsSame-at : {x y x' y' : Option (List ℕ)} → x' ≡ x → y' ≡ y → IsSame x y → IsSame x' y'
IsSame-at p q (missing e f) = missing (p ∙ e) (q ∙ f)
IsSame-at p q (both e f d) = both (p ∙ e) (q ∙ f) d

SameTopics-put :
    (topic : Text) (ids ids' : List ℕ) (ts ts' : Topics)
    → SameTopics ts ts'
    → Permᴰ ids ids'
    → SameTopics (put topic ids ts) (put topic ids' ts')
SameTopics-put topic ids ids' ts ts' same d t = elim (Bool-cases (topic == t)) [
  | inl h ↦
      both (ground (arith, h, find-put topic t ids ts))
        (ground (arith, h, find-put topic t ids' ts')) d
  | inr h ↦
      IsSame-at (ground (arith, h, find-put topic t ids ts))
        (ground (arith, h, find-put topic t ids' ts')) (same t)
]

SameTopics-assign :
    (topic : Text) (ids ids' old old' : List ℕ) (ts ts' : Topics)
    → SameTopics ts ts'
    → find topic ts ≡ some old
    → find topic ts' ≡ some old'
    → Permᴰ ids ids'
    → SameTopics (assign topic ids ts) (assign topic ids' ts')
unfolding put
SameTopics-assign topic ids ids' old old' ts ts' same e e' d t =
    IsSame-at (ground (arith, e)) (ground (arith, e'))
      (SameTopics-put topic ids ids' ts ts' same d t)

-- The manager with other topics.
abbrev pub with_topics : {Db : Type 0} → Topics → TopicManager Db → TopicManager Db
with_topics ts m = record m { topics = ts }

-- The same answer over the same store, with the same topics.
abbrev pub Agrees :
    {Db : Type 0} → TopicCodes × TopicManager Db → TopicCodes × TopicManager Db → Type 0
Agrees r s = (ts : Topics) × (s ≡ (r.0, with_topics ts r.1)) × SameTopics r.1.topics ts

module _ {Db : Type 0} where
  agrees :
      (r s : TopicCodes × TopicManager Db) (code : TopicCodes) (m : TopicManager Db) (ts : Topics)
      → r ≡ (code, m)
      → s ≡ (code, with_topics ts m)
      → SameTopics m.topics ts
      → Agrees r s
  agrees r s code m ts e f same =
      let at : (code, m) ≡ r = sym e in subst (λ x. Agrees x s) at (ts, f, same)

  module _ (id : ℕ) (topic : Text) (m : TopicManager Db) (ts : Topics)
      (same : SameTopics m.topics ts) where
    module _ (repo : TopicRepository Db) where
      pub subscribe-Agrees :
          Agrees (subscribe repo id topic m) (subscribe repo id topic (with_topics ts m))
      unfolding subscribe
      subscribe-Agrees = elim (same topic) [
        | missing e f ↦ agrees _ _ topic_not_found m ts (ground (arith, e)) (ground (arith, f)) same
        | both {ids} {ids'} e f d ↦
            let (saved, db) = repo.save_topic topic id m.db in
            let all : SameTopics (assign topic (IdSet.insert id ids) m.topics)
                (assign topic (IdSet.insert id ids') ts) =
              SameTopics-assign topic (IdSet.insert id ids) (IdSet.insert id ids') ids ids' m.topics
                ts same e f (insert-Permᴰ id d) in
            agrees _ _ (if not saved then internal_error else ok)
              (record { topics = assign topic (IdSet.insert id ids) m.topics; db = db })
              (assign topic (IdSet.insert id ids') ts) (ground (arith, e)) (ground (arith, f)) all
      ]

      pub create-Agrees : Agrees (create repo id topic m) (create repo id topic (with_topics ts m))
      unfolding create entry
      create-Agrees = elim (same topic) [
        | both {ids} {ids'} e f d ↦
            agrees _ _ topic_already_exists m ts (ground (arith, e)) (ground (arith, f)) same
        | missing e f ↦
            let (created, db) = repo.create_topic topic id m.db in
            let one = IdSet.insert id [] in
            elim (Bool-cases created) [
              | inl good ↦
                  agrees _ _ ok (record { topics = put topic one m.topics; db = db })
                    (put topic one ts) (ground (arith, e, good)) (ground (arith, f, good))
                    (SameTopics-put topic one one m.topics ts same (Permᴰ.refl one))
              | inr bad ↦
                  agrees _ _ internal_error (record m { db = db }) ts (ground (arith, e, bad))
                    (ground (arith, f, bad)) same
            ]
      ]

      pub unsubscribe-Agrees :
          Agrees (unsubscribe repo id topic m) (unsubscribe repo id topic (with_topics ts m))
      unfolding unsubscribe
      unsubscribe-Agrees = elim (same topic) [
        | missing e f ↦ agrees _ _ topic_not_found m ts (ground (arith, e)) (ground (arith, f)) same
        | both {ids} {ids'} e f d ↦
            let (removed, db) = repo.remove_from_topic topic id m.db in
            let listed = contains-Permᴰ id d in
            elim (Bool-cases (contains id ids)) [
              | inr out ↦
                  agrees _ _ not_subscribed m ts (ground (arith, e, out))
                    (ground (arith, f, out, listed)) same
              | inl in_set ↦ elim (Bool-cases removed) [
                | inr bad ↦
                    agrees _ _ internal_error (record m { db = db }) ts
                      (ground (arith, e, in_set, bad)) (ground (arith, f, in_set, listed, bad)) same
                | inl good ↦
                    let all : SameTopics (assign topic (IdSet.erase id ids) m.topics)
                        (assign topic (IdSet.erase id ids') ts) =
                      SameTopics-assign topic (IdSet.erase id ids) (IdSet.erase id ids') ids ids'
                        m.topics ts same e f (erase-Permᴰ id d) in
                    agrees _ _ ok
                      (record { topics = assign topic (IdSet.erase id ids) m.topics; db = db })
                      (assign topic (IdSet.erase id ids') ts) (ground (arith, e, in_set, good))
                      (ground (arith, f, in_set, listed, good)) all
              ]
            ]
      ]

    -- `Publish` hands out the same ids, in the order of each.
    pub publish-IsSame :
        (message : Text)
        → ((publish topic message (with_topics ts m) []).0 ≡ (publish topic message m []).0)
          × Permᴰ (publish topic message m []).1 (publish topic message (with_topics ts m) []).1
    unfolding publish entry
    publish-IsSame message = elim (same topic) [
      | missing e f ↦ (ground (arith, e, f), ground (arith, e, f, Permᴰ.refl {A = ℕ} []))
      | both {ids} {ids'} e f d ↦ (ground (arith, e, f), ground (arith, e, f, d))
    ]
