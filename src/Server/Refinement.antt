-- ===== src/Server/Refinement.antt =====
-- The server over two stores does what it does over their specifications, step by step.
pub mod Steps
use network_broker.Prelude.{
  Option, ℕ, ◌<◌, ◌^◌, ◌≡◌, ◌≢◌, ◌∙◌, ◌⊎◌, inl, inr, refl, sym, subst, ap, Text, Option, none, some,
  ◌-◌, List, [], ◌∷◌, All, arith, nat_eq, Option-cases, Bool-cases,
}
use network_broker.Prelude.Assoc.{find, assign, emplace}
use network_broker.Prelude.Streams.{getline}
use network_broker.ClientManager
use network_broker.Session
use network_broker.Session.{Session}
use network_broker.ClientManager.Refinement.{disconnect_client-with_db}
use network_broker.Repository.{ClientRepository, TopicRepository}
use network_broker.Repository.Refinement.{ClientRefinement, TopicRefinement, Both, Both-elim}
use network_broker.Broker
use network_broker.Broker.{World, handle_command}
use network_broker.Broker.Invariant.{IsTidy}
use network_broker.Broker.Ids.{ids_of}
use network_broker.Broker.Refinement.{on_stores, Follows}
use network_broker.Broker.Refinement.Commands.{handle_command-Follows}
use network_broker.Server.{
  Server, with_sessions, accepted, accept_next, do_accept, accept_failed, disconnect, read_failed,
  write_done, write_failed, answer, handle_line, received, stop,
}
use network_broker.Server.Ids.{Draws}
use network_broker.Server.Reach.{
  Step, accepts, accept_fails, receives, read_fails, writes, write_fails, stops,
}

-- The server over other stores.
abbrev pub on_server :
    {ClientDb TopicDb ClientSpec TopicSpec : Type 0}
    → ClientDb
    → TopicDb
    → Server ClientSpec TopicSpec
    → Server ClientDb TopicDb
on_server c t s = record {
  next_session_id = s.next_session_id;
  pending_accepts = s.pending_accepts;
  is_accepting = s.is_accepting;
  is_running = s.is_running;
  world = on_stores c t s.world;
}

-- What does not touch the stores is the same over any.
module _ {ClientDb TopicDb ClientSpec TopicSpec : Type 0} (c : ClientDb) (t : TopicDb)
    (s : Server ClientSpec TopicSpec) where
  accept_next-on_server : accept_next (on_server c t s) ≡ on_server c t (accept_next s)
  unfolding accept_next do_accept
  accept_next-on_server = ground arith

  accept_next_world : (accept_next s).world ≡ s.world
  unfolding accept_next do_accept
  accept_next_world = ground arith

module _ {ClientDb TopicDb ClientSpec TopicSpec : Type 0} (c : ClientDb) (t : TopicDb)
    (s : Server ClientSpec TopicSpec) where
  -- A step over the specifications that leads to the same memory, and leaves the stores alone.
  abbrev Lifts : Server ClientDb TopicDb → Option (Server ClientSpec TopicSpec) → Type 0
  Lifts u o =
      (s' : Server ClientSpec TopicSpec) × (o ≡ some s')
      × (u ≡ on_server c t s')
      × (s'.world.clients.db ≡ s.world.clients.db)
      × (s'.world.topics.db ≡ s.world.topics.db)

  accepted-on_server :
      (ids : List ℕ) (u : Server ClientDb TopicDb)
      → s.pending_accepts ≡ ids
      → accepted (on_server c t s) ≡ some u
      → Lifts u (accepted s)
  unfolding accepted
  accepted-on_server [] u waits e = absurd (ground (arith, waits, e))
  accepted-on_server (id ∷ rest) u waits e =
      let session = Session.start (Session.set_self (some id) (Session.new id)) in
      let owner : Server ClientSpec TopicSpec =
        with_sessions (emplace (Session.get_id session) session s.world.sessions)
          (record s { pending_accepts = rest }) in
      (
        accept_next owner,
        ground (arith, waits),
        ground (arith, waits, e, accept_next-on_server c t owner),
        ap (λ (w : World ClientSpec TopicSpec). w.clients.db) (accept_next_world c t owner),
        ap (λ (w : World ClientSpec TopicSpec). w.topics.db) (accept_next_world c t owner),
      )

  accept_failed-on_server :
      (ids : List ℕ) (u : Server ClientDb TopicDb)
      → s.pending_accepts ≡ ids
      → accept_failed (on_server c t s) ≡ some u
      → Lifts u (accept_failed s)
  unfolding accept_failed
  accept_failed-on_server [] u waits e = absurd (ground (arith, waits, e))
  accept_failed-on_server (id ∷ rest) u waits e =
      let idle : Server ClientSpec TopicSpec = record s { pending_accepts = rest } in
      (
        accept_next idle,
        ground (arith, waits),
        ground (arith, waits, e, accept_next-on_server c t idle),
        ap (λ (w : World ClientSpec TopicSpec). w.clients.db) (accept_next_world c t idle),
        ap (λ (w : World ClientSpec TopicSpec). w.topics.db) (accept_next_world c t idle),
      )

  disconnect-on_stores :
      (p : ℕ) (session : Session) (w : World ClientSpec TopicSpec)
      → (disconnect p session (on_stores c t w) ≡ on_stores c t (disconnect p session w))
        × ((disconnect p session w).clients.db ≡ w.clients.db)
  unfolding disconnect Broker.disconnect ClientManager.disconnect_client
  disconnect-on_stores p session w = (ground arith, ground arith)

  module _ (p : ℕ) (session : Session) (there : find p s.world.sessions ≡ some session)
      (u : Server ClientDb TopicDb) where
    read_failed-on_server : read_failed p (on_server c t s) ≡ some u → Lifts u (read_failed p s)
    unfolding read_failed
    read_failed-on_server e =
        let closing : Session = record session { pending_reads = session.pending_reads - 1 } in
        let (same, db) = disconnect-on_stores p closing s.world in
        (
          record s { world = disconnect p closing s.world },
          ground (arith, there),
          ground (arith, there, e, same),
          db,
          unfold disconnect Broker.disconnect in refl,
        )

    write_failed-on_server : write_failed p (on_server c t s) ≡ some u → Lifts u (write_failed p s)
    unfolding write_failed
    write_failed-on_server e =
        let (same, db) = disconnect-on_stores p (Session.write_failed session) s.world in
        (
          record s { world = disconnect p (Session.write_failed session) s.world },
          ground (arith, there),
          ground (arith, there, e, same),
          db,
          unfold disconnect Broker.disconnect in refl,
        )

    write_done-on_server : write_done p (on_server c t s) ≡ some u → Lifts u (write_done p s)
    unfolding write_done
    write_done-on_server e = (
      with_sessions (assign p (Session.write_done session) s.world.sessions) s,
      ground (arith, there),
      ground (arith, there, e),
      refl,
      refl,
    )

  answer-on_stores :
      (p : ℕ) (response : Text) (w : World ClientSpec TopicSpec)
      → answer p response (on_stores c t w) ≡ on_stores c t (answer p response w)
  unfolding answer
  answer-on_stores p response w = ground arith

answer_stores :
    {ClientDb TopicDb : Type 0} (p : ℕ) (response : Text) (w : World ClientDb TopicDb)
    → ((answer p response w).clients.db ≡ w.clients.db)
      × ((answer p response w).topics.db ≡ w.topics.db)
unfolding answer
answer_stores p response w = (ground arith, ground arith)
