-- ===== src/Session.antt =====
-- app/src/server/session.h and session.cpp: one network session and its queue of outgoing texts.
-- The socket belongs to Boost.Asio. What the session asks of it is kept as state: the writes and the
-- reads that are pending, the texts that went out, and whether `Disconnect` has closed it.
pub mod Queue
pub mod Lines
use network_broker.Prelude.{
  ℕ, ◌+◌, Text, codes, is_empty, Bool, true, false, Option, none, List, [], ◌∷◌, ◌++◌,
  if◌then◌else◌,
}

pub record Session : Type 0 where
  pub id : ℕ
  pub outgoing : List Text
  pub self : Option ℕ
  pub pending_writes : List Text
  pub written : List Text
  pub pending_reads : ℕ
  pub is_open : Bool

abbrev pub invalid_session_id : ℕ
invalid_session_id = 0

-- Session::Session
unfoldable pub new : ℕ → Session
new id = record {
  id = id;
  outgoing = [];
  self = none;
  pending_writes = [];
  written = [];
  pending_reads = 0;
  is_open = true;
}

unfoldable pub get_id : Session → ℕ
get_id s = s.id

-- The call of `async_write` on the front of the queue.
unfoldable pub do_write : Session → Session
do_write s = elim s.outgoing [
  | [] ↦ s
  | msg ∷ _ ↦ record s { pending_writes = s.pending_writes ++ msg ∷ [] }
]

unfoldable pub send : Text → Session → Session
unfolding do_write
send msg s =
    let writing = is_empty s.outgoing in
    let queued : Session = record s { outgoing = s.outgoing ++ msg ∷ [] } in
    if writing then do_write queued else queued

-- The call of `async_read_until`.
unfoldable pub read : Session → Session
read s = record s { pending_reads = s.pending_reads + 1 }

abbrev pub welcome : Text
welcome = codes "Welcome to MessageBroker\nAvailable commands:\nREGISTER <name>\nLOGIN <name>\n"

unfoldable pub start : Session → Session
unfolding send read
start s = read (send welcome s)

-- `Disconnect` up to its call of the broker: the socket is shut down and closed.
unfoldable pub close : Session → Session
close s = record s { is_open = false }

unfoldable pub set_self : Option ℕ → Session → Session
set_self self s = record s { self = self }

abbrev tail {ℓ} : {A : Type ℓ} → List A → List A
tail [] = []
tail (x ∷ xs) = xs

-- The handler of `async_write` without an error: `outgoing_` loses its front and the next write
-- starts. The write that completes is the oldest pending one.
unfoldable pub write_done : Session → Session
unfolding do_write
write_done s = elim s.pending_writes [
  | [] ↦ s
  | msg ∷ rest ↦
      let popped : Session = record s {
        outgoing = tail s.outgoing;
        pending_writes = rest;
        written = s.written ++ msg ∷ [];
      } in
      if is_empty popped.outgoing then popped else do_write popped
]

-- The handler of `async_write` with an error: the queue stays and the session is closed.
unfoldable pub write_failed : Session → Session
unfolding close
write_failed s = close (record s { pending_writes = tail s.pending_writes })
