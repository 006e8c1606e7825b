-- ===== src/Client.antt =====
-- app/src/clients/client.h and client.cpp: a client, its weak pointer to a session, and the buffer
-- of the messages that wait for it.
pub mod Sending
use network_broker.Prelude.{
  ℕ, Text, codes, ◌++◌, Bool, true, false, Option, none, some, List, [], ◌∷◌, nat_eq,
}
use network_broker.Prelude.Assoc.{Assoc, find, assign}
use network_broker.Prelude.Streams.{newline}
use network_broker.Session.{Session, send, get_id, invalid_session_id}

-- The sessions that some `shared_ptr` owns, by address. A `weak_ptr` is an address or null.
abbrev pub Heap : Type 0
Heap = Assoc ℕ Session

abbrev pub SessionWeakPtr : Type 0
SessionWeakPtr = Option ℕ

-- weak_ptr::lock
unfoldable pub lock : SessionWeakPtr → Heap → Option Session
lock none h = none
lock (some p) h = find p h

-- weak_ptr::expired
unfoldable pub expired : SessionWeakPtr → Heap → Bool
unfolding lock
expired p h = elim (lock p h) [ none ↦ true | some _ ↦ false ]

pub record Client : Type 0 where
  pub id : ℕ
  pub name : Text
  pub session : SessionWeakPtr
  pub buffer : List Text

-- Client::Client
unfoldable pub new : ℕ → Text → Client
new id name = record { id = id; name = name; session = none; buffer = [] }

unfoldable pub get_name : Client → Text
get_name c = c.name

unfoldable pub set_session : SessionWeakPtr → Client → Client
set_session session c = record c { session = session }

unfoldable pub get_session_id : Client → Heap → ℕ
unfolding lock get_id
get_session_id c h = elim (lock c.session h) [ none ↦ invalid_session_id | some s ↦ get_id s ]

unfoldable pub disconnect : Client → Client
disconnect c = record c { session = none }

-- session->Send( msg ) through a pointer.
unfoldable pub send_to : SessionWeakPtr → Text → Heap → Heap
send_to none msg h = h
send_to (some p) msg h = elim (find p h) [ none ↦ h | some s ↦ assign p (send msg s) h ]

unfoldable pub send_topic_message : Text → Client → Heap → Heap
unfolding send_to
send_topic_message message c h = send_to c.session (message ++ newline ∷ []) h

unfoldable pub buffer_topic_message : Text → Client → Client
buffer_topic_message message c = record c { buffer = c.buffer ++ message ∷ [] }

-- The loop of `SendBuffer` over the queue.
unfoldable pub send_all : List Text → Client → Heap → Heap
unfolding send_topic_message
send_all [] c h = h
send_all (message ∷ rest) c h = send_all rest c (send_topic_message message c h)

abbrev pub greeting : Text
greeting = codes "You have new messages:"

unfoldable pub send_buffer : Client → Heap → Client × Heap
unfolding send_topic_message send_all
send_buffer c h = (record c { buffer = [] }, send_all c.buffer c (send_topic_message greeting c h))
