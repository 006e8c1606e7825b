-- ===== src/Server/Ids.antt =====
-- The ids of the clients while the server runs, when the numbers that CreateClient draws are in the
-- range of its generator.
use network_broker.Prelude.{
  length, ◌≤◌, ℕ, ◌≤◌, ◌≡◌, ◌∙◌, sym, subst, ap, Text, some, List, All, arith, nat_eq, Option-cases,
  inl, inr, ◌-◌,
}
use network_broker.Prelude.Assoc.{find, assign}
use network_broker.Prelude.Streams.{getline}
use network_broker.Session
use network_broker.Session.{Session}
use network_broker.ClientManager.Ids.{ids-disconnect_client}
use network_broker.Repository.{ClientRepository, TopicRepository}
use network_broker.Broker
use network_broker.Broker.{World, handle_command}
use network_broker.Broker.Ids.{ids_of, handle_command-All}
use network_broker.ClientManager.Capacity.{InRange, length_clients}
use network_broker.Broker.Invariant.{IsTidy}
use network_broker.Server.Tidiness.{Reach-IsTidy}
use network_broker.Server.{
  Server, accepted, accept_next, do_accept, accept_failed, disconnect, read_failed, write_done,
  write_failed, answer, handle_line, received, stop,
}
use network_broker.Server.Reach.{
  Step, accepts, accept_fails, receives, read_fails, writes, write_fails, stops, Reach,
}

-- std::uniform_int_distribution< int > distrib( 10000, 100000 )
abbrev pub first_id : ℕ
first_id = 10000

abbrev pub count_ids : ℕ
count_ids = 90001

module _ {ClientDb TopicDb : Type 0} (client_repo : ClientRepository ClientDb)
    (topic_repo : TopicRepository TopicDb) where
  -- A step whose draws all satisfy `P`.
  abbrev pub Draws :
      (P : ℕ → Type 0) {s s' : Server ClientDb TopicDb} → Step client_repo topic_repo s s' → Type 0
  Draws P (receives p t buffer rolls there busy e) = All P rolls
  Draws P st = Unit

  -- The states that the server reaches with such draws, while the states on the way are alive.
  pub data Runs (P : ℕ → Type 0) (Alive : Server ClientDb TopicDb → Type 0)
      (s : Server ClientDb TopicDb) : Server ClientDb TopicDb → Type 0 where
    here : Runs P Alive s s
    next :
        {t u : Server ClientDb TopicDb}
        → Runs P Alive s t
        → Alive t
        → (st : Step client_repo topic_repo t u) → Draws P st
        → Runs P Alive s u

  pub Runs-Reach :
      (P : ℕ → Type 0) (Alive : Server ClientDb TopicDb → Type 0) (s s' : Server ClientDb TopicDb)
      → Runs P Alive s s'
      → Reach client_repo topic_repo s s'
  Runs-Reach P Alive s s' here = Reach.here
  Runs-Reach P Alive s s' (next {t = t} before alive st drawn) =
      Reach.next (Runs-Reach P Alive s t before) st

  module _ (P : ℕ → Type 0) (s s' : Server ClientDb TopicDb) (all : All P (ids_of s.world)) where
    received-All :
        (p : ℕ) (t : Session) (buffer : Text) (rolls : List ℕ)
        → find p s.world.sessions ≡ some t
        → All P rolls
        → received client_repo topic_repo p buffer rolls s ≡ some s'
        → All P (ids_of s'.world)
    unfolding received handle_line answer
    received-All p t buffer rolls there rolled e =
        let w : World ClientDb TopicDb = record s.world {
          sessions = assign p (record t { pending_reads = t.pending_reads - 1 }) s.world.sessions;
        } in
        elim (Option-cases
          (handle_command client_repo topic_repo t.id (getline buffer) t.self rolls w)) [
            | inl stuck ↦ absurd (ground (arith, there, stuck, e))
            | inr ((response, w'), done) ↦
                let added =
                  handle_command-All client_repo topic_repo P rolls rolled t.id t.self w all
                    (getline buffer) response w' done in
                let same : ids_of s'.world ≡ ids_of w' = ground (arith, there, done, e) in
                subst (All P) (sym same) added
          ]

    disconnected-All :
        (p : ℕ) (t : Session) → s'.world ≡ disconnect p t s.world → All P (ids_of s'.world)
    unfolding disconnect Broker.disconnect
    disconnected-All p t e =
        let same : ids_of s'.world ≡ ids_of s.world =
          ap ids_of e
          ∙ ids-disconnect_client s.world.clients (assign p (Session.close t) s.world.sessions)
              t.id in
        subst (All P) (sym same) all

    Step-All : (st : Step client_repo topic_repo s s') → Draws P st → All P (ids_of s'.world)
    Step-All (accepts room e) d =
        let same : ids_of s'.world ≡ ids_of s.world =
          unfold accepted accept_next do_accept in ground arith in
        subst (All P) (sym same) all
    Step-All (accept_fails room e) d =
        let same : ids_of s'.world ≡ ids_of s.world =
          unfold accept_failed accept_next do_accept in ground arith in
        subst (All P) (sym same) all
    Step-All (receives p t buffer rolls there busy e) d = received-All p t buffer rolls there d e
    Step-All (read_fails p t there busy e) d =
        disconnected-All p (record t { pending_reads = t.pending_reads - 1 })
          (unfold read_failed in ground (arith, there, e))
    Step-All (writes p t there busy e) d =
        let same : ids_of s'.world ≡ ids_of s.world = unfold write_done in ground (arith, there) in
        subst (All P) (sym same) all
    Step-All (write_fails p t there busy e) d =
        disconnected-All p (Session.write_failed t)
          (unfold write_failed in ground (arith, there, e))
    Step-All (stops e) d =
        let same : ids_of s'.world ≡ ids_of s.world = unfold stop in ground arith in
        subst (All P) (sym same) all

  -- Whatever holds of the ids of the clients at the start and of all the numbers that are drawn holds
  -- of the ids in every state that is reached.
  pub Runs-All :
      (P : ℕ → Type 0) (Alive : Server ClientDb TopicDb → Type 0) (s s' : Server ClientDb TopicDb)
      → All P (ids_of s.world)
      → Runs P Alive s s'
      → All P (ids_of s'.world)
  Runs-All P Alive s s' all here = all
  Runs-All P Alive s s' all (next {t = t} before alive st drawn) =
      Step-All P t s' (Runs-All P Alive s t all before) st drawn

  -- A server that starts from a tidy state with all ids in the range of the generator, and draws its
  -- numbers from there, keeps to it: every state that it reaches has all ids of its clients in the
  -- range, and at most 90001 clients.
  pub Runs-capacity :
      (Alive : Server ClientDb TopicDb → Type 0) (s s' : Server ClientDb TopicDb)
      → IsTidy s.world
      → All (InRange first_id count_ids) (ids_of s.world)
      → Runs (InRange first_id count_ids) Alive s s'
      → All (InRange first_id count_ids) (ids_of s'.world)
        × (length s'.world.clients.clients ≤ 90001)
  Runs-capacity Alive s s' tidy all run =
      let all' = Runs-All (InRange first_id count_ids) Alive s s' all run in
      let tidy' =
        Reach-IsTidy client_repo topic_repo s s' tidy
          (Runs-Reach (InRange first_id count_ids) Alive s s' run) in
      (all', length_clients first_id count_ids s'.world.clients.clients tidy'.clients all')
