-- ===== src/ClientManager/Delivery.antt =====
-- `SendTopicMessage`: who gets a message, and where it waits for the others.
pub mod Order
use network_broker.Prelude.{
  ℕ, ◌≡◌, refl, sym, ◌∙◌, Text, Bool, false, not, ◌&&◌, none, some, List, [], ◌∷◌, ◌++◌,
  if◌then◌else◌, nat_eq, nat_beq, arith, append_assoc, append-nil, Option-cases, inl, inr,
}
use network_broker.Prelude.Assoc.{find, find-assign}
use network_broker.Prelude.IdSet.{contains, NoRepeat}
use network_broker.Session.{invalid_session_id}
use network_broker.Client
use network_broker.Client.{Client, Heap}
use network_broker.Client.Sending.{
  queue, points_to, line, get_session_id-send_to, points_to-send_to, queue-send_to,
}
use network_broker.ClientManager.{Clients, ClientManager, deliver, deliver_all, send_topic_message}

-- `GetSessionId` gives a valid id.
unfoldable pub is_online : Client → Heap → Bool
is_online c h = not (nat_beq (Client.get_session_id c h) invalid_session_id)

-- What a message for the ids leaves of a client: one that is offline and named gets it buffered.
abbrev pub after_message : Text → Bool → Heap → Client → Client
after_message message named h c =
    if named && not (is_online c h) then Client.buffer_topic_message message c else c

-- Whether the id is that of a client that is online through the session at an address.
unfoldable pub reaches : ℕ → ℕ → Clients → Heap → Bool
unfolding is_online
reaches p id clients h = elim (find id clients) [
  | none ↦ false
  | some c ↦ is_online c h && points_to p c.session h
]

-- One copy of the line for each of the ids that is reached through the session.
unfoldable pub copies : ℕ → Text → List ℕ → Clients → Heap → List Text
copies p message [] clients h = []
copies p message (id ∷ ids) clients h =
    (if reaches p id clients h then line message ∷ [] else []) ++ copies p message ids clients h

session-buffered :
    (message : Text) (c : Client) → (Client.buffer_topic_message message c).session ≡ c.session
unfolding Client.buffer_topic_message
session-buffered message c = refl

is_online-buffered :
    (message : Text) (c : Client) (h : Heap)
    → is_online (Client.buffer_topic_message message c) h ≡ is_online c h
unfolding is_online Client.buffer_topic_message Client.get_session_id
is_online-buffered message c h = refl

is_online-deliver :
    (message : Text) (id : ℕ) (clients : Clients) (h : Heap) (c : Client)
    → is_online c (deliver message id clients h).1 ≡ is_online c h
unfolding deliver is_online Client.send_topic_message
is_online-deliver message id clients h c = elim (Option-cases (find id clients)) [
  | inl e ↦ ground (arith, e)
  | inr (d, e) ↦ ground (arith, e, get_session_id-send_to c d.session (line message) h)
]

points_to-deliver :
    (p : ℕ) (message : Text) (id : ℕ) (clients : Clients) (h : Heap) (c : Client)
    → points_to p c.session (deliver message id clients h).1 ≡ points_to p c.session h
unfolding deliver Client.send_topic_message
points_to-deliver p message id clients h c = elim (Option-cases (find id clients)) [
  | inl e ↦ ground (arith, e)
  | inr (d, e) ↦ ground (arith, e, points_to-send_to p c.session d.session (line message) h)
]

find-deliver :
    (k : ℕ) (message : Text) (id : ℕ) (clients : Clients) (h : Heap)
    → find k (deliver message id clients h).0 ≡ elim (find k clients) [
      | none ↦ none
      | some c ↦ some (after_message message (nat_beq id k) h c)
    ]
unfolding deliver is_online
find-deliver k message id clients h = elim (Option-cases (find id clients)) [
  | inl e ↦ ground (arith, e)
  | inr (d, e) ↦ ground (arith, e, find-assign id k (Client.buffer_topic_message message d) clients)
]

queue-deliver :
    (p : ℕ) (message : Text) (id : ℕ) (clients : Clients) (h : Heap)
    → queue p (deliver message id clients h).1
      ≡ queue p h ++ (if reaches p id clients h then line message ∷ [] else [])
unfolding deliver reaches Client.send_topic_message
queue-deliver p message id clients h = elim (Option-cases (find id clients)) [
  | inl e ↦ ground (arith, e, append-nil (queue p h))
  | inr (d, e) ↦
      ground (arith, e, append-nil (queue p h), queue-send_to p d.session (line message) h)
]

reaches-deliver :
    (p j : ℕ) (message : Text) (id : ℕ) (clients : Clients) (h : Heap)
    → reaches p j (deliver message id clients h).0 (deliver message id clients h).1
      ≡ reaches p j clients h
unfolding reaches
reaches-deliver p j message id clients h = elim (Option-cases (find j clients)) [
  | inl e ↦ ground (arith, e, find-deliver j message id clients h)
  | inr (c, e) ↦
      let b = Client.buffer_topic_message message c in
      ground (
        arith,
        e,
        find-deliver j message id clients h,
        is_online-deliver message id clients h c,
        is_online-deliver message id clients h b,
        is_online-buffered message c h,
        points_to-deliver p message id clients h c,
        points_to-deliver p message id clients h b,
        session-buffered message c,
      )
]

copies-deliver :
    (p : ℕ) (message : Text) (ids : List ℕ) (m : Text) (id : ℕ) (clients : Clients) (h : Heap)
    → copies p message ids (deliver m id clients h).0 (deliver m id clients h).1
      ≡ copies p message ids clients h
unfolding copies
copies-deliver p message [] m id clients h = refl
copies-deliver p message (j ∷ ids) m id clients h =
    ground (arith, copies-deliver p message ids m id clients h, reaches-deliver p j m id clients h)

queue-deliver_all :
    (p : ℕ) (message : Text) (ids : List ℕ) (clients : Clients) (h : Heap)
    → queue p (deliver_all message ids clients h).1 ≡ queue p h ++ copies p message ids clients h
unfolding deliver_all copies
queue-deliver_all p message [] clients h = sym (append-nil _)
queue-deliver_all p message (id ∷ ids) clients h =
    let (clients', h') = deliver message id clients h in
    queue-deliver_all p message ids clients' h'
    ∙ rw (queue-deliver p message id clients h, copies-deliver p message ids message id clients h)
        (append_assoc (queue p h) _ _)

find-deliver_all :
    (k : ℕ) (message : Text) (ids : List ℕ) (clients : Clients) (h : Heap)
    → NoRepeat ids
    → find k (deliver_all message ids clients h).0 ≡ elim (find k clients) [
      | none ↦ none
      | some c ↦ some (after_message message (contains k ids) h c)
    ]
unfolding deliver_all contains
find-deliver_all k message [] clients h u = ground arith
find-deliver_all k message (id ∷ ids) clients h u =
    let rest =
      find-deliver_all k message ids (deliver message id clients h).0
        (deliver message id clients h).1 u.1 in
    elim (Option-cases (find k clients)) [
      | inl e ↦ ground (arith, e, rest, find-deliver k message id clients h)
      | inr (c, e) ↦
          let b = Client.buffer_topic_message message c in
          ground (
            arith,
            e,
            rest,
            find-deliver k message id clients h,
            is_online-deliver message id clients h c,
            is_online-deliver message id clients h b,
            is_online-buffered message c h,
          )
    ]

module _ {Db : Type 0} where
  -- A message for a set of ids: a client that is offline and named gets it at the end of its buffer
  -- and all others keep their records; the queue of the session at any address grows by one line for
  -- each named client that is online through it.
  pub send_topic_message_delivers :
      (message : Text) (ids : List ℕ) (m : ClientManager Db) (h : Heap)
      → NoRepeat ids
      → ((k : ℕ)
          → find k (send_topic_message message ids m h).0.clients ≡ elim (find k m.clients) [
            | none ↦ none
            | some c ↦ some (after_message message (contains k ids) h c)
          ])
        × ((p : ℕ)
            → queue p (send_topic_message message ids m h).1
              ≡ queue p h ++ copies p message ids m.clients h)
  unfolding send_topic_message
  send_topic_message_delivers message ids m h u = (
    λ k. find-deliver_all k message ids m.clients h u,
    λ p. queue-deliver_all p message ids m.clients h,
  )
