-- ===== src/Client/Sending.antt =====
-- What the calls of a client do to the sessions: which queues grow, and by what.
use network_broker.Prelude.{
  Option-cases, inl, inr, ◌&&◌, ◌&&◌, ℕ, ◌≡◌, refl, sym, ◌∙◌, Text, Bool, true, false, none, some,
  List, [], ◌∷◌, ◌++◌, map, if◌then◌else◌, nat_eq, nat_beq, arith, append_assoc, append-nil,
}
use network_broker.Prelude.Assoc.{find, find-assign}
use network_broker.Prelude.Streams.{newline}
use network_broker.Session.{Session, send, do_write, get_id}
use network_broker.Client.{
  invalid_session_id, Heap, SessionWeakPtr, Client, lock, get_session_id, send_to,
  send_topic_message, send_all, send_buffer, greeting,
}

-- The texts that wait in the session at an address.
unfoldable pub queue : ℕ → Heap → List Text
queue p h = elim (find p h) [ none ↦ [] | some s ↦ s.outgoing ]

-- Whether a pointer is to the live session at an address.
unfoldable pub points_to : ℕ → SessionWeakPtr → Heap → Bool
unfolding lock
points_to p none h = false
points_to p (some q) h = nat_beq q p && elim (find p h) [ none ↦ false | some _ ↦ true ]

abbrev pub line : Text → Text
line message = message ++ newline ∷ []

outgoing-send : (msg : Text) (s : Session) → (send msg s).outgoing ≡ s.outgoing ++ msg ∷ []
unfolding send do_write
outgoing-send msg s = ground arith

id-send : (msg : Text) (s : Session) → (send msg s).id ≡ s.id
unfolding send do_write
id-send msg s = ground arith

pub find-send_to :
    (p q : ℕ) (msg : Text) (h : Heap)
    → find p (send_to (some q) msg h)
      ≡ elim (find p h) [ none ↦ none | some s ↦ if nat_beq q p then some (send msg s) else some s ]
unfolding send_to
find-send_to p q msg h = elim (Option-cases (find q h)) [
  | inl e ↦ ground (arith, e)
  | inr (s, e) ↦ ground (arith, e, find-assign q p (send msg s) h)
]

-- The id behind a pointer, as `GetSessionId` reads it.
abbrev id_behind : SessionWeakPtr → Heap → ℕ
unfolding lock
id_behind c h = elim (lock c h) [ none ↦ invalid_session_id | some s ↦ get_id s ]

-- Sending changes no id and ends no session.
id_behind-send_to :
    (c q : SessionWeakPtr) (msg : Text) (h : Heap) → id_behind c (send_to q msg h) ≡ id_behind c h
unfolding lock get_id
id_behind-send_to none q msg h = refl
id_behind-send_to (some p) none msg h = unfold send_to in refl
id_behind-send_to (some p) (some q) msg h = elim (Option-cases (find p h)) [
  | inl e ↦ ground (arith, e, find-send_to p q msg h)
  | inr (s, e) ↦ ground (arith, e, find-send_to p q msg h, id-send msg s)
]

pub get_session_id-send_to :
    (c : Client) (q : SessionWeakPtr) (msg : Text) (h : Heap)
    → get_session_id c (send_to q msg h) ≡ get_session_id c h
unfolding get_session_id lock
get_session_id-send_to c q msg h = id_behind-send_to c.session q msg h

pub points_to-send_to :
    (p : ℕ) (c q : SessionWeakPtr) (msg : Text) (h : Heap)
    → points_to p c (send_to q msg h) ≡ points_to p c h
unfolding points_to
points_to-send_to p none q msg h = refl
points_to-send_to p (some r) none msg h = unfold send_to in refl
points_to-send_to p (some r) (some q) msg h = ground (arith, find-send_to p q msg h)

pub queue-send_to :
    (p : ℕ) (q : SessionWeakPtr) (msg : Text) (h : Heap)
    → queue p (send_to q msg h) ≡ queue p h ++ (if points_to p q h then msg ∷ [] else [])
unfolding queue points_to
queue-send_to p none msg h = unfold send_to in sym (append-nil _)
queue-send_to p (some q) msg h = elim (Option-cases (find p h)) [
  | inl e ↦ ground (arith, e, find-send_to p q msg h)
  | inr (s, e) ↦
      ground (arith, e, find-send_to p q msg h, outgoing-send msg s, append-nil s.outgoing)
]

-- The lines that `SendBuffer` puts into the queue of the client's session.
queue-send_all :
    (p : ℕ) (messages : List Text) (c : Client) (h : Heap)
    → queue p (send_all messages c h)
      ≡ queue p h ++ (if points_to p c.session h then map line messages else [])
unfolding send_all send_topic_message
queue-send_all p [] c h = ground (arith, append-nil (queue p h))
queue-send_all p (m ∷ ms) c h = ground (
  arith,
  queue-send_all p ms c (send_to c.session (line m) h),
  points_to-send_to p c.session c.session (line m) h,
  queue-send_to p c.session (line m) h,
  append_assoc (queue p h) (line m ∷ []) (map line ms),
  append-nil (queue p h),
)

get_session_id-send_all :
    (d : Client) (messages : List Text) (c : Client) (h : Heap)
    → get_session_id d (send_all messages c h) ≡ get_session_id d h
unfolding send_all send_topic_message
get_session_id-send_all d [] c h = refl
get_session_id-send_all d (m ∷ ms) c h =
    get_session_id-send_all d ms c (send_to c.session (line m) h)
    ∙ get_session_id-send_to d c.session (line m) h

pub queue-send_buffer :
    (p : ℕ) (c : Client) (h : Heap)
    → queue p (send_buffer c h).1
      ≡ queue p h ++ (if points_to p c.session h then map line (greeting ∷ c.buffer) else [])
unfolding send_buffer send_all
queue-send_buffer p c h = queue-send_all p (greeting ∷ c.buffer) c h

get_session_id-send_buffer :
    (d : Client) (c : Client) (h : Heap) → get_session_id d (send_buffer c h).1 ≡ get_session_id d h
unfolding send_buffer send_all
get_session_id-send_buffer d c h = get_session_id-send_all d (greeting ∷ c.buffer) c h
