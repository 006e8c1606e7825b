-- ===== src/Server/Heaps.antt =====
-- What the broker does to the sessions: it only calls `Send` on them, with lines. So what
-- holds of every session, and is kept by the `Send` of a line, is kept by every command. `Ok` is what
-- is known of the lines.
pub mod Commands
use network_broker.Prelude.{
  ℕ, ◌≡◌, ◌≢◌, subst, Text, not, ◌&&◌, ◌⊎◌, none, some, List, [], ◌∷◌, nat_eq, text_eq, nat_beq,
  arith, Option-cases, Bool-cases, inl, inr, sym, All,
}
use network_broker.Prelude.Assoc.{find, assign, find-assign}
use network_broker.Session.{Session, send}
use network_broker.Client
use network_broker.Client.{Client, Heap, SessionWeakPtr, send_to, send_all, send_buffer}
use network_broker.Client.Sending.{line, find-send_to}
use network_broker.ClientManager
use network_broker.ClientManager.{
  Clients, ClientManager, first_with, deliver, deliver_all, connect_client, send_topic_message,
}
use network_broker.ClientManager.Buffers.{AllBuffers, first_with-AllBuffers}
use network_broker.ClientManager.Connect.{has_name}
use network_broker.Topics
use network_broker.Repository.{ClientRepository, TopicRepository}
use network_broker.Protocol.{
  BrokerCodes, same_code, of_clients, ok, Request, login_as, register_as, subscribe_to,
  create_topic, unsubscribe_from, publish_to, log_out, parse,
}
use network_broker.Broker.{
  World, login, register, subscribe, create, unsubscribe, publish, unlogin, perform, handle_command,
}

-- The property holds of every session that is owned.
abbrev pub AllSessions : (ℕ → Session → Type 0) → Heap → Type 0
AllSessions P h = (p : ℕ) (s : Session) → find p h ≡ some s → P p s

-- After a write at one address it is enough that the others had the property.
pub assign-AllSessions_ne :
    (P : ℕ → Session → Type 0) (q : ℕ) (t : Session) (h : Heap)
    → P q t
    → ((p : ℕ) (s : Session) → q ≢ p → find p h ≡ some s → P p s)
    → AllSessions P (assign q t h)
assign-AllSessions_ne P q t h now others p s e = elim (Bool-cases (nat_beq q p)) [
  | inl same ↦
      let here : q ≡ p = ground (arith, same) in
      let value : t ≡ s = ground (arith, same, find-assign q p t h) in
      subst (P p) value (subst (λ r. P r t) here now)
  | inr other ↦ others p s (ground (arith, other)) (ground (arith, other, find-assign q p t h))
]

pub assign-AllSessions :
    (P : ℕ → Session → Type 0) (q : ℕ) (t : Session) (h : Heap)
    → P q t
    → AllSessions P h
    → AllSessions P (assign q t h)
assign-AllSessions P q t h now all = assign-AllSessions_ne P q t h now λ p s _. all p s

pub send_to-AllSessions :
    (P : ℕ → Session → Type 0) (msg : Text)
    → ((p : ℕ) (s : Session) → P p s → P p (send msg s))
    → (q : SessionWeakPtr) (h : Heap) → AllSessions P h
    → AllSessions P (send_to q msg h)
send_to-AllSessions P msg stable none h all p s e = all p s (unfold send_to in e)
send_to-AllSessions P msg stable (some q) h all p s e = elim (Option-cases (find p h)) [
  | inl gone ↦ absurd (ground (arith, gone, find-send_to p q msg h))
  | inr (t, there) ↦ elim (Bool-cases (nat_beq q p)) [
    | inl same ↦
        let now : send msg t ≡ s = ground (arith, there, same, find-send_to p q msg h) in
        subst (P p) now (stable p t (all p t there))
    | inr other ↦ all p s (ground (arith, there, other, find-send_to p q msg h))
  ]
]

-- The broker sends lines, of the greeting, of messages that wait and of messages that are published.
module _ (P : ℕ → Session → Type 0) (Ok : Text → Type 0)
    (stable : (p : ℕ) (msg : Text) (s : Session) → Ok msg → P p s → P p (send (line msg) s)) where
  send_all-AllSessions :
      (messages : List Text) (c : Client) (h : Heap)
      → All Ok messages
      → AllSessions P h
      → AllSessions P (send_all messages c h)
  unfolding send_all Client.send_topic_message
  send_all-AllSessions [] c h good all = all
  send_all-AllSessions (m ∷ ms) c h good all =
      send_all-AllSessions ms c _ good.1
        (send_to-AllSessions P (line m) (λ p t. stable p m t good.0) c.session h all)

  send_buffer-AllSessions :
      (c : Client) (h : Heap)
      → Ok Client.greeting
      → All Ok c.buffer
      → AllSessions P h
      → AllSessions P (send_buffer c h).1
  unfolding send_buffer send_all
  send_buffer-AllSessions c h hello good all =
      send_all-AllSessions (Client.greeting ∷ c.buffer) c h (hello, good) all

  deliver-AllSessions :
      (message : Text) (id : ℕ) (clients : Clients) (h : Heap)
      → Ok message
      → AllSessions P h
      → AllSessions P (deliver message id clients h).1
  unfolding deliver Client.send_topic_message
  deliver-AllSessions message id clients h good all = elim (Option-cases (find id clients)) [
    | inl e ↦
        let same : h ≡ (deliver message id clients h).1 = ground (arith, e) in
        subst (AllSessions P) same all
    | inr (c, e) ↦ elim (Bool-cases (nat_beq (Client.get_session_id c h) 0)) [
      | inl off ↦
          let same : h ≡ (deliver message id clients h).1 = ground (arith, e, off) in
          subst (AllSessions P) same all
      | inr on ↦
          let sent : Heap = send_to c.session (line message) h in
          let same : sent ≡ (deliver message id clients h).1 = ground (arith, e, on) in
          subst (AllSessions P) same
            (send_to-AllSessions P (line message) (λ p t. stable p message t good) c.session h all)
    ]
  ]

  deliver_all-AllSessions :
      (message : Text) (ids : List ℕ) (clients : Clients) (h : Heap)
      → Ok message
      → AllSessions P h
      → AllSessions P (deliver_all message ids clients h).1
  unfolding deliver_all
  deliver_all-AllSessions message [] clients h good all = all
  deliver_all-AllSessions message (id ∷ ids) clients h good all =
      deliver_all-AllSessions message ids _ _ good
        (deliver-AllSessions message id clients h good all)

  connect_client-AllSessions :
      {Db : Type 0} (name : Text) (session : SessionWeakPtr) (m : ClientManager Db) (h : Heap)
      → Ok Client.greeting
      → AllBuffers Ok m.clients
      → AllSessions P h
      → AllSessions P (connect_client name session m h).2
  unfolding connect_client
  connect_client-AllSessions name session m h hello waiting all =
      elim (Option-cases (first_with (has_name name) m.clients)) [
        | inl missing ↦
            let same : h ≡ (connect_client name session m h).2 = ground (arith, missing) in
            subst (AllSessions P) same all
        | inr ((id, c), hit) ↦
            elim (Bool-cases
              (nat_beq (Client.get_session_id c h) 0 && not (Client.expired session h))) [
                | inl good ↦
                    let sent : Heap = (send_buffer (Client.set_session session c) h).1 in
                    let same : sent ≡ (connect_client name session m h).2 =
                      ground (arith, hit, good) in
                    subst (AllSessions P) same (
                      send_buffer-AllSessions (Client.set_session session c) h hello
                        (unfold Client.set_session in
                          first_with-AllBuffers Ok (has_name name) id c m.clients waiting hit)
                        all)
                | inr bad ↦
                    let same : h ≡ (connect_client name session m h).2 = ground (arith, hit, bad) in
                    subst (AllSessions P) same all
              ]
      ]
