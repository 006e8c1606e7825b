-- ===== src/ConsoleClient/Publishing.antt =====
-- PUBLISH from the broker to the screens of the subscribers: app/src/broker/message_broker.cpp,
-- app/src/server/session.cpp and client/main.cpp.
use mathlib.Core.Option.{some-injective}
use network_broker.Prelude.{
  ℕ, zero, suc, ◌<◌, ◌≡◌, ◌∙◌, ◌⊎◌, refl, sym, subst, ap, Text, true, false, some, List, [], ◌∷◌,
  ◌++◌, length, All, nat_beq, nat_beq_iff, nat_eq, text_eq, if◌then◌else◌, arith, Bool-cases, inl,
  inr,
}
use network_broker.Prelude.Assoc.{find}
use network_broker.Prelude.IdSet.{contains}
use network_broker.Prelude.Streams.{IsLine, has_newline}
use network_broker.Prelude.Cut.{cut, full_lines, last_part, join_lines, full_lines-join_lines}
use network_broker.Session.{Session, send, do_write}
use network_broker.Session.Queue
use network_broker.Session.Queue.{IsLive, completions, drain}
use network_broker.Client.{Heap}
use network_broker.Client.Sending.{line, queue}
use network_broker.ClientManager
use network_broker.ClientManager.{Clients, ClientsCodes}
use network_broker.ClientManager.Buffers.{AllBuffers-any}
use network_broker.ClientManager.Delivery.{reaches, copies}
use network_broker.Topics
use network_broker.Topics.Subscriptions.{known, subscribed, publish-subscribed}
use network_broker.Broker.{World, publish}
use network_broker.Broker.Invariant.{IsTidy}
use network_broker.Broker.Routing.{publish_delivers}
use network_broker.Server.Heaps.Commands.{publish-AllSessions}
use network_broker.ConsoleClient.{Console, is_waiting, shown, Steps}
use network_broker.ConsoleClient.Printing.{shown_all, IsPrinted, Steps-IsPrinted, IsPrinted-idle}
use network_broker.ConsoleClient.Conversation.{bytes_of}

-- So many times the same text.
unfoldable pub times : ℕ → Text → Text
times zero text = []
times (suc n) text = text ++ times n text

-- The same line, once for each of some texts.
same_lines : Text → List Text → List Text
same_lines message [] = []
same_lines message (text ∷ texts) = message ∷ same_lines message texts

-- The bytes of copies of a line.
bytes_of-copies :
    (p : ℕ) (message : Text) (ids : List ℕ) (clients : Clients) (h : Heap)
    → bytes_of (copies p message ids clients h)
      ≡ join_lines (same_lines message (copies p message ids clients h))
unfolding bytes_of copies join_lines same_lines
bytes_of-copies p message [] clients h = refl
bytes_of-copies p message (id ∷ ids) clients h =
    ground (arith, bytes_of-copies p message ids clients h)

shown_all-same_lines :
    (message : Text) (texts : List Text)
    → shown_all (same_lines message texts) ≡ times (length texts) (shown message)
unfolding shown_all same_lines times
shown_all-same_lines message [] = refl
shown_all-same_lines message (text ∷ texts) =
    ap (λ x. shown message ++ x) (shown_all-same_lines message texts)

same_lines-IsLine :
    (message : Text) (texts : List Text) → IsLine message → All IsLine (same_lines message texts)
unfolding same_lines
same_lines-IsLine message [] h = tt
same_lines-IsLine message (text ∷ texts) h = (h, same_lines-IsLine message texts h)

-- Who is reached through a session is one of the copies.
copies_some :
    (p k : ℕ) (message : Text) (ids : List ℕ) (clients : Clients) (h : Heap)
    → contains k ids ≡ true
    → reaches p k clients h ≡ true
    → 0 < length (copies p message ids clients h)
unfolding copies contains
copies_some p k message [] clients h there online = absurd (ground (arith, there))
copies_some p k message (id ∷ ids) clients h there online = elim (Bool-cases (nat_beq id k)) [
  | inl same ↦
      let same' : id ≡ k = (nat_beq_iff id k).0 same in
      let online' : reaches p id clients h ≡ true =
        ap (λ x. reaches p x clients h) same' ∙ online in
      ground (arith, online')
  | inr other ↦
      let more = copies_some p k message ids clients h (ground (arith, there, other)) online in
      elim (Bool-cases (reaches p id clients h)) [
        | inl first ↦ ground (arith, first)
        | inr skipped ↦ ground (arith, skipped, more)
      ]
]

-- The lines that a client prints from a state in which its buffer is empty.
prints_lines :
    (c c' : Console) (texts : List Text) (received : Text)
    → c.is_reading ≡ true
    → c.buffer ≡ []
    → Steps c received c'
    → received ≡ join_lines texts
    → All IsLine texts
    → (c'.is_reading ≡ false) ⊎ (is_waiting c' ≡ true)
    → c'.out ≡ c.out ++ shown_all texts
unfolding shown_all cut has_newline
prints_lines c c' texts received reading empty steps e all idle =
    let start : IsPrinted c.out [] c = record {
      all = ap (λ b. c.out ++ shown_all (full_lines b)) empty;
      rest = ap last_part empty;
      finished = λ off. absurd (ground (arith, reading, off));
    } in
    let h = Steps-IsPrinted c.out c start received c' steps in
    IsPrinted-idle c.out received c' h idle
    ∙ ap (λ b. c.out ++ shown_all (full_lines b)) e
    ∙ ap (λ ls. c.out ++ shown_all ls) (full_lines-join_lines texts all)

send-IsLive :
    (msg : Text) (t : Session) → IsLive t → IsLive (send msg t) × ((send msg t).written ≡ t.written)
unfolding send do_write
send-IsLive msg t live = ground arith

-- The lines that a session has where its queue was empty.
outgoing-publish :
    (p : ℕ) (s s' : Session) (h h' : Heap) (lines : List Text)
    → find p h ≡ some s
    → find p h' ≡ some s'
    → s.outgoing ≡ []
    → queue p h' ≡ queue p h ++ lines
    → s'.outgoing ≡ lines
unfolding queue
outgoing-publish p s s' h h' lines there there' empty e = ground (arith, there, there', empty, e)

module _ {ClientDb TopicDb : Type 0} (id client_id : ℕ) (topic message : Text)
    (w : World ClientDb TopicDb) (p : ℕ) (s s' : Session) where
  -- A session after a PUBLISH has had no other write, and is as live as it was.
  publish-IsLive :
      find p w.sessions ≡ some s
      → IsLive s
      → find p (publish id topic message w).1.sessions ≡ some s'
      → IsLive s' × (s'.written ≡ s.written)
  publish-IsLive there live there' =
      let P : ℕ → Session → Type 0 = λ q t. q ≡ p → IsLive t × (t.written ≡ s.written) in
      publish-AllSessions P (λ _. Unit)
        (λ q msg t _ h same.
          let (live_t, written) = h same in
          let (live', written') = send-IsLive (line msg) t live_t in (live', written' ∙ written))
        tt w (AllBuffers-any (λ _. Unit) (λ _. tt) w.clients.clients)
        (λ q t e same.
          let here : s ≡ t =
            some-injective s t (sym there ∙ ap (λ x. find x w.sessions) (sym same) ∙ e) in
          subst (λ x. IsLive x × (x.written ≡ s.written)) here (live, refl))
        id topic message tt p s' there' refl

  -- In a tidy world, the message of an authorised PUBLISH on a known topic, if it has no newline, comes
  -- to the screen of each subscriber that is online. Take a session through which a subscriber is online,
  -- which is live with nothing in its queue; the session as the command leaves it; and a console client
  -- at the other end that reads with an empty buffer. As many completed writes as the session has texts
  -- empty its queue and write those texts, and when the client has received them, in whatever pieces, and
  -- has printed what it can, it has printed the message as a line of the server: as many times as there
  -- are subscribers that are online through that session, and so at least once.
  pub publish-shown :
      (k : ℕ) (c c' : Console)
      → ClientManager.get_client_id id w.clients w.sessions 0 ≡ (ClientsCodes.ok, client_id)
      → IsTidy w
      → known topic w.topics.topics ≡ true
      → subscribed topic k w.topics.topics ≡ true
      → reaches p k w.clients.clients w.sessions ≡ true
      → IsLine message
      → find p w.sessions ≡ some s
      → IsLive s
      → s.outgoing ≡ []
      → find p (publish id topic message w).1.sessions ≡ some s'
      → c.is_reading ≡ true
      → c.buffer ≡ []
      → Steps c (bytes_of s'.outgoing) c'
      → (c'.is_reading ≡ false) ⊎ (is_waiting c' ≡ true)
      → let after = Queue.run (completions (length s'.outgoing)) s' in
        let lines =
          copies p message
            (Topics.publish topic message w.topics []).1
            w.clients.clients
            w.sessions in
        (after.outgoing ≡ [])
        × (after.written ≡ s.written ++ s'.outgoing)
        × (0 < length lines)
        × (c'.out ≡ c.out ++ times (length lines) (shown message))
  publish-shown k c c' authorized tidy there subscriber online is_line here live idle_queue here'
        reading empty steps idle =
      let ids = (Topics.publish topic message w.topics []).1 in
      let lines = copies p message ids w.clients.clients w.sessions in
      let (live', kept) = publish-IsLive here live here' in
      let (drained, out) = drain s' live' in
      let queued : s'.outgoing ≡ lines =
        outgoing-publish p s s' w.sessions (publish id topic message w).1.sessions lines here here'
          idle_queue
          ((publish_delivers id client_id topic message w authorized tidy.topics there).3 p) in
      let member : contains k ids ≡ true =
        (publish-subscribed topic w.topics message []).1 k
        ∙ ap (λ b. if b then subscribed topic k w.topics.topics else contains k []) there
        ∙ subscriber in
      let printed : c'.out ≡ c.out ++ shown_all (same_lines message lines) =
        prints_lines c c' (same_lines message lines) (bytes_of s'.outgoing) reading empty steps
          (ap bytes_of queued ∙ bytes_of-copies p message ids w.clients.clients w.sessions)
          (same_lines-IsLine message lines is_line) idle in
      (
        drained,
        out ∙ ap (λ x. x ++ s'.outgoing) kept,
        copies_some p k message ids w.clients.clients w.sessions member online,
        printed ∙ ap (λ x. c.out ++ x) (shown_all-same_lines message lines),
      )
