-- ===== src/Broker/Forwarding.antt =====
-- PUBLISH and then LOGIN: a message that is published while a client is offline reaches it when it
-- logs in.
use mathlib.Core.Option.{some-injective}
use network_broker.Prelude.{
  ℕ, ◌≡◌, ◌∙◌, sym, ap, Text, true, false, Bool, some, [], ◌∷◌, ◌++◌, map, nat_eq, text_eq, arith,
  if◌then◌else◌, Option-cases, inl, inr,
}
use network_broker.Prelude.Assoc.{find}
use network_broker.Client
use network_broker.Client.{Client, Heap, SessionWeakPtr}
use network_broker.Client.Sending.{queue, points_to, line}
use network_broker.ClientManager
use network_broker.ClientManager.{ClientsCodes, ClientManager, connect_client}
use network_broker.ClientManager.Connect.{connected, has_name, connect_client_ok}
use network_broker.ClientManager.Delivery.{after_message, is_online}
use network_broker.Topics.Subscriptions.{known, subscribed}
use network_broker.Broker.{World, publish}
use network_broker.Broker.Invariant.{IsTidy, publish-IsTidy}
use network_broker.Broker.Routing.{publish_delivers}

has_name-after :
    (name message : Text) (b : Bool) (h : Heap) (c : Client)
    → has_name name (after_message message b h c) ≡ has_name name c
unfolding Client.get_name Client.buffer_topic_message
has_name-after name message b h c = ground arith

module _ {ClientDb TopicDb : Type 0} (id client_id : ℕ) (topic message name : Text)
    (w : World ClientDb TopicDb)
    (authorized : ClientManager.get_client_id id w.clients w.sessions 0
      ≡ (ClientsCodes.ok, client_id))
    (tidy : IsTidy w) (there : known topic w.topics.topics ≡ true) where
  -- After the publication, who has a name is who had it.
  name-publish :
      (j : ℕ) (d : Client)
      → find j (publish id topic message w).1.clients.clients ≡ some d
      → has_name name d ≡ true
      → (d' : Client) × (find j w.clients.clients ≡ some d') × (has_name name d' ≡ true)
  name-publish j d held named =
      let after =
        (publish_delivers id client_id topic message w authorized tidy.topics there).2 j in
      elim (Option-cases (find j w.clients.clients)) [
        | inl e ↦ absurd (ground (arith, e, held, after))
        | inr (d', e) ↦
            let same : after_message message (subscribed topic j w.topics.topics) w.sessions d'
                ≡ d =
              some-injective _ _ (ground (arith, e, held, after)) in
            (
              d',
              e,
              sym (has_name-after name message (subscribed topic j w.topics.topics) w.sessions d')
                  ∙ ap (has_name name) same
                  ∙ named,
            )
      ]

  module _ (session : SessionWeakPtr) (m' : ClientManager ClientDb) (h' : Heap) where
    -- A message that an authorized session publishes on a known topic while a subscriber is offline
    -- reaches that subscriber when it logs in, if no other client has its name: once LOGIN succeeds
    -- the client is bound to the session, with an empty buffer, and the session's queue has grown by
    -- the greeting, by what the client's buffer held before the publication, and by the message, in
    -- this order; no other queue has changed.
    pub connect_client-publish :
        (k : ℕ) (c : Client)
        → find k w.clients.clients ≡ some c
        → is_online c w.sessions ≡ false
        → subscribed topic k w.topics.topics ≡ true
        → ((j : ℕ) (d : Client)
            → find j w.clients.clients ≡ some d
            → has_name name d ≡ true
            → j ≡ k)
        → let w' = (publish id topic message w).1 in
          connect_client name session w'.clients w'.sessions ≡ (ClientsCodes.ok, m', h')
          → (find k m'.clients ≡ some (connected session c))
            × ((p : ℕ)
                → queue p h'
                  ≡ queue p w'.sessions
                    ++ (if points_to p session w'.sessions
                        then map line (Client.greeting ∷ c.buffer ++ message ∷ [])
                        else []))
    unfolding Client.buffer_topic_message
    connect_client-publish k c held offline listed only e =
        let w' = (publish id topic message w).1 in
        let wf = (publish-IsTidy w tidy id topic message).clients in
        let r = connect_client_ok name session w'.clients m' w'.sessions h' wf e in
        let (d, held_d, named_d) = name-publish r.id r.client r.there r.named in
        let same_id : r.id ≡ k = only r.id d held_d named_d in
        let after =
          (publish_delivers id client_id topic message w authorized tidy.topics there).2 k in
        let found : find k w'.clients.clients ≡ some r.client =
          ap (λ x. find x w'.clients.clients) (sym same_id) ∙ r.there in
        let same : Client.buffer_topic_message message c ≡ r.client =
          some-injective _ _ (ground (arith, held, offline, listed, after, found)) in
        (r.clients k ∙ ground (arith, same_id, same), λ p. r.queues p ∙ ground (arith, same))
