-- ===== src/Server.antt =====
-- app/src/server/server.h and server.cpp, and the handlers that session.cpp gives to Boost.Asio: the
-- application as the io_context drives it, one completed operation after the other. The operations
-- that Boost.Asio has pending are part of the state.
pub mod Heaps
pub mod Safety
pub mod Receiving
pub mod Reach
pub mod Tidiness
pub mod Pipelining
pub mod Ids
pub mod Refinement
pub mod Order
pub mod Framing
use network_broker.Prelude.{
  ℕ, ◌+◌, ◌-◌, ◌%◌, ◌^◌, Text, Bool, true, false, not, is_empty, Option, none, some, List, [], ◌∷◌,
  ◌++◌, if◌then◌else◌, nat_eq,
}
use network_broker.Prelude.Assoc.{find, assign, emplace, erase}
use network_broker.Prelude.Streams.{getline}
use network_broker.Session
use network_broker.Session.{Session}
use network_broker.Client.{Heap, SessionWeakPtr, send_to}
use network_broker.Repository.{ClientRepository, TopicRepository}
use network_broker.Broker
use network_broker.Broker.{World, handle_command}

-- `sessions_` is the heap of `world`: the map owns every session, under the session's id.
pub record Server (ClientDb TopicDb : Type 0) : Type 0 where
  pub next_session_id : ℕ
  pub pending_accepts : List ℕ
  pub is_accepting : Bool
  pub is_running : Bool
  pub world : World ClientDb TopicDb

abbrev pub u64_mod : ℕ
u64_mod = 2 ^ 64

-- The session sends the response that it got, unless that is empty.
unfoldable pub respond : ℕ → Text → Heap → Heap
respond p response h = if not (is_empty response) then send_to (some p) response h else h

module _ {ClientDb TopicDb : Type 0} where
  -- Server::Server
  unfoldable pub new : World ClientDb TopicDb → Server ClientDb TopicDb
  new world = record {
    next_session_id = 1;
    pending_accepts = [];
    is_accepting = true;
    is_running = false;
    world = world;
  }

  -- `async_accept` for the id that the counter gives.
  unfoldable pub do_accept : Server ClientDb TopicDb → Server ClientDb TopicDb
  do_accept s = record s {
    next_session_id = (s.next_session_id + 1) % u64_mod;
    pending_accepts = s.pending_accepts ++ s.next_session_id ∷ [];
  }

  -- Start, up to the loop of `ioContext_.run()`.
  unfoldable pub start : Server ClientDb TopicDb → Server ClientDb TopicDb
  unfolding do_accept
  start s = record (do_accept s) { is_running = true }

  unfoldable pub stop : Server ClientDb TopicDb → Server ClientDb TopicDb
  stop s = record s { is_accepting = false; is_running = false }

  unfoldable pub remove_session : ℕ → Server ClientDb TopicDb → Server ClientDb TopicDb
  remove_session id s = record s { world = record s.world { sessions = erase id s.world.sessions } }

  abbrev with_sessions : Heap → Server ClientDb TopicDb → Server ClientDb TopicDb
  with_sessions h s = record s { world = record s.world { sessions = h } }

  -- The end of the handler of `async_accept`.
  unfoldable pub accept_next : Server ClientDb TopicDb → Server ClientDb TopicDb
  unfolding do_accept
  accept_next s = if not s.is_accepting then s else do_accept s

  -- The handler of `async_accept` without an error: the session is made, owned, told its own address
  -- and started.
  unfoldable pub accepted : Server ClientDb TopicDb → Option (Server ClientDb TopicDb)
  unfolding accept_next
  accepted s = elim s.pending_accepts [
    | [] ↦ none
    | id ∷ rest ↦
        let session = Session.start (Session.set_self (some id) (Session.new id)) in
        some (
          accept_next (
            with_sessions (emplace (Session.get_id session) session s.world.sessions)
              (record s { pending_accepts = rest })))
  ]

  unfoldable pub accept_failed : Server ClientDb TopicDb → Option (Server ClientDb TopicDb)
  unfolding accept_next
  accept_failed s = elim s.pending_accepts [
    | [] ↦ none
    | id ∷ rest ↦ some (accept_next (record s { pending_accepts = rest }))
  ]

  -- Session::Disconnect: the socket is closed, and the broker told.
  unfoldable pub disconnect : ℕ → Session → World ClientDb TopicDb → World ClientDb TopicDb
  disconnect p session w =
      Broker.disconnect session.id
        (record w { sessions = assign p (Session.close session) w.sessions })

  -- A pending read completes with an error.
  unfoldable pub read_failed : ℕ → Server ClientDb TopicDb → Option (Server ClientDb TopicDb)
  unfolding disconnect
  read_failed p s = elim (find p s.world.sessions) [
    | none ↦ none
    | some session ↦ some (record s {
      world = disconnect p (record session { pending_reads = session.pending_reads - 1 }) s.world;
    })
  ]

  -- A pending write completes.
  unfoldable pub write_done : ℕ → Server ClientDb TopicDb → Option (Server ClientDb TopicDb)
  write_done p s = elim (find p s.world.sessions) [
    | none ↦ none
    | some session ↦ some (with_sessions (assign p (Session.write_done session) s.world.sessions) s)
  ]

  -- A pending write completes with an error.
  unfoldable pub write_failed : ℕ → Server ClientDb TopicDb → Option (Server ClientDb TopicDb)
  unfolding disconnect
  write_failed p s = elim (find p s.world.sessions) [
    | none ↦ none
    | some session ↦ some (record s { world = disconnect p (Session.write_failed session) s.world })
  ]

  -- The end of the read handler: `Send` and `Read` on the session itself.
  unfoldable pub answer : ℕ → Text → World ClientDb TopicDb → World ClientDb TopicDb
  unfolding respond
  answer p response w =
      let h = respond p response w.sessions in
      elim (find p h) [
        | none ↦ record w { sessions = h }
        | some session ↦ record w { sessions = assign p (Session.read session) h }
      ]

  module _ (client_repo : ClientRepository ClientDb) (topic_repo : TopicRepository TopicDb) where
    -- The read handler once it has its line.
    unfoldable pub handle_line :
        ℕ → Text → List ℕ → Server ClientDb TopicDb → Option (Server ClientDb TopicDb)
    unfolding answer
    handle_line p command rolls s = elim (find p s.world.sessions) [
      | none ↦ none
      | some session ↦
          let w = record s.world {
            sessions =
                assign p (record session { pending_reads = session.pending_reads - 1 })
                  s.world.sessions;
          } in
          elim (handle_command client_repo topic_repo session.id command session.self rolls w) [
            | none ↦ none
            | some (response, w') ↦ some (record s { world = answer p response w' })
          ]
    ]

    -- A pending read completes: the buffer holds what came in, a line and perhaps more. The buffer is
    -- the read's own, so what follows the line goes with it.
    unfoldable pub received :
        ℕ → Text → List ℕ → Server ClientDb TopicDb → Option (Server ClientDb TopicDb)
    unfolding handle_line
    received p buffer rolls s = handle_line p (getline buffer) rolls s
