-- ===== src/Server/Refinement/Steps.antt =====
-- The states that the server over two stores reaches, and those that it reaches over their
-- specifications.
use mathlib.Core.Option.{some-injective}
use network_broker.Prelude.{
  Option, ℕ, ◌<◌, ◌^◌, ◌≡◌, ◌∙◌, ◌⊎◌, inl, inr, refl, sym, subst, ap, Text, Option, some, ◌-◌, List,
  All, arith, nat_eq,
}
use network_broker.Prelude.Assoc.{find, assign}
use network_broker.Prelude.Streams.{getline}
use network_broker.Session.{Session}
use network_broker.Repository.{ClientRepository, TopicRepository}
use network_broker.Repository.Refinement.{ClientRefinement, TopicRefinement, Both-elim}
use network_broker.Broker.{World, handle_command}
use network_broker.Broker.Invariant.{IsTidy}
use network_broker.Broker.Ids.{ids_of}
use network_broker.Broker.Refinement.{on_stores, Follows}
use network_broker.Broker.Refinement.Commands.{handle_command-Follows}
use network_broker.Server.{Server, answer, handle_line, received, stop}
use network_broker.Server.Ids.{Draws, Runs, here, next, Runs-All, Runs-Reach}
use network_broker.Server.Tidiness.{Reach-IsTidy}
use network_broker.Server.Reach.{
  Step, accepts, accept_fails, receives, read_fails, writes, write_fails, stops,
}
use network_broker.Server.Refinement.{
  on_server, Lifts, accepted-on_server, accept_failed-on_server, read_failed-on_server,
  write_failed-on_server, write_done-on_server, answer-on_stores, answer_stores,
}

module _ {ClientDb TopicDb ClientSpec TopicSpec : Type 0} {client_repo : ClientRepository ClientDb}
    {topic_repo : TopicRepository TopicDb} {client_spec : ClientRepository ClientSpec}
    {topic_spec : TopicRepository TopicSpec} (C : ClientRefinement client_repo client_spec)
    (T : TopicRefinement topic_repo topic_spec) where
  -- A server over the stores with the memory of a server over the specifications, the stores related.
  pub record Mirrors (u : Server ClientDb TopicDb) (s : Server ClientSpec TopicSpec) : Type 0 where
    pub client_db : ClientDb
    pub topic_db : TopicDb
    pub same : u ≡ on_server client_db topic_db s
    pub clients : C.Rel client_db s.world.clients.db
    pub topics : T.Rel topic_db s.world.topics.db

  abbrev pub IsBroken : Server ClientDb TopicDb → Type 0
  IsBroken u = C.Broken u.world.clients.db ⊎ T.Broken u.world.topics.db

  module _ (c : ClientDb) (t : TopicDb) (s : Server ClientSpec TopicSpec)
      (related_c : C.Rel c s.world.clients.db) (related_t : T.Rel t s.world.topics.db)
      (tidy : IsTidy s.world) (small : All (λ n. n < 2 ^ 64) (ids_of s.world)) where
    received-Mirrors :
        (p : ℕ) (session : Session) (buffer : Text) (rolls : List ℕ) (u : Server ClientDb TopicDb)
        → find p s.world.sessions ≡ some session
        → All (λ n. n < 2 ^ 64) rolls
        → received client_repo topic_repo p buffer rolls (on_server c t s) ≡ some u
        → ((s' : Server ClientSpec TopicSpec) × (received client_spec topic_spec p buffer rolls s
              ≡ some s')
            × Mirrors u s')
          ⊎ IsBroken u
    unfolding received handle_line
    received-Mirrors p session buffer rolls u there rolled e =
        let w : World ClientSpec TopicSpec = record s.world {
          sessions =
              assign p (record session { pending_reads = session.pending_reads - 1 })
                s.world.sessions;
        } in
        let tidy' : IsTidy w = record { clients = tidy.clients; topics = tidy.topics } in
        elim (Both-elim (Follows C T)
          (handle_command client_repo topic_repo session.id (getline buffer) session.self rolls
            (on_stores c t w))
          (handle_command client_spec topic_spec session.id (getline buffer) session.self rolls w)
          (handle_command-Follows C T c t w related_c related_t rolls rolled session.id session.self
            tidy' small (getline buffer))) [
              | inl (stuck, _) ↦ absurd (ground (arith, there, stuck, e))
              | inr
                    (
                      (response, v),
                      (response', v'),
                      done,
                      done',
                      inl (c', t', same, rel_c, rel_t),
                    ) ↦
                  let s' : Server ClientSpec TopicSpec = record s {
                    world = answer p response' v';
                  } in
                  let answered = done ∙ ap some same in
                  let (db_c, db_t) = answer_stores p response' v' in
                  inl (
                    s',
                    ground (arith, there, done'),
                    record {
                      client_db = c';
                      topic_db = t';
                      same =
                          ground
                            (arith, there, answered, e, answer-on_stores c' t' s p response' v');
                      clients = subst (C.Rel c') (sym db_c) rel_c;
                      topics = subst (T.Rel t') (sym db_t) rel_t;
                    },
                  )
              | inr ((response, v), y, done, done', inr broken) ↦
                  let left : u.world ≡ answer p response v = ground (arith, there, done, e) in
                  let (db_c, db_t) = answer_stores p response v in
                  inr (elim broken [
                    | inl lost ↦ inl (
                        subst C.Broken
                          (sym (ap (λ (x : World ClientDb TopicDb). x.clients.db) left ∙ db_c))
                          lost)
                    | inr lost ↦ inr (
                        subst T.Broken
                          (sym (ap (λ (x : World ClientDb TopicDb). x.topics.db) left ∙ db_t)) lost)
                  ])
            ]

    -- A step that leaves the stores alone.
    lifted :
        (u : Server ClientDb TopicDb) (o : Option (Server ClientSpec TopicSpec))
        → Lifts c t s u o
        → (s' : Server ClientSpec TopicSpec) × (o ≡ some s') × Mirrors u s'
    lifted u o (s', e, same, db_c, db_t) = (
      s',
      e,
      record {
        client_db = c;
        topic_db = t;
        same = same;
        clients = subst (C.Rel c) (sym db_c) related_c;
        topics = subst (T.Rel t) (sym db_t) related_t;
      },
    )

    -- Each step over the stores is one over the specifications, or breaks a store.
    pub Step-Mirrors :
        (u : Server ClientDb TopicDb) (st : Step client_repo topic_repo (on_server c t s) u)
        → Draws client_repo topic_repo (λ n. n < 2 ^ 64) st
        → ((s' : Server ClientSpec TopicSpec) × (st' : Step client_spec topic_spec s s') × Draws
              client_spec topic_spec
              (λ n. n < 2 ^ 64)
              st'
            × Mirrors u s')
          ⊎ IsBroken u
    Step-Mirrors u (accepts room e) d =
        let (s', e', m) = lifted u _ (accepted-on_server c t s s.pending_accepts u refl e) in
        inl (s', accepts room e', tt, m)
    Step-Mirrors u (accept_fails room e) d =
        let (s', e', m) = lifted u _ (accept_failed-on_server c t s s.pending_accepts u refl e) in
        inl (s', accept_fails room e', tt, m)
    Step-Mirrors u (receives p session buffer rolls there busy e) d =
        elim (received-Mirrors p session buffer rolls u there d e) [
          | inl (s', e', m) ↦ inl (s', receives p session buffer rolls there busy e', d, m)
          | inr broken ↦ inr broken
        ]
    Step-Mirrors u (read_fails p session there busy e) d =
        let (s', e', m) = lifted u _ (read_failed-on_server c t s p session there u e) in
        inl (s', read_fails p session there busy e', tt, m)
    Step-Mirrors u (writes p session there busy e) d =
        let (s', e', m) = lifted u _ (write_done-on_server c t s p session there u e) in
        inl (s', writes p session there busy e', tt, m)
    Step-Mirrors u (write_fails p session there busy e) d =
        let (s', e', m) = lifted u _ (write_failed-on_server c t s p session there u e) in
        inl (s', write_fails p session there busy e', tt, m)
    Step-Mirrors u (stops e) d =
        let (s', e', m) =
          lifted u (some (stop s))
            (stop s, refl, e ∙ (unfold stop in refl), unfold stop in refl, unfold stop in refl) in
        inl (s', stops (sym (some-injective (stop s) s' e')), tt, m)

  -- The states that the server over the stores reaches while no store is broken are, in their memory,
  -- the states that the server over the specifications reaches, the stores being related to theirs; and
  -- a state in which a store has just broken comes after such a state. The numbers that are drawn have
  -- 64 bits.
  pub Runs-Mirrors :
      (Alive : Server ClientDb TopicDb → Type 0)
      → ((u : Server ClientDb TopicDb) → Alive u → IsBroken u → ⊥)
      → (c : ClientDb) (t : TopicDb) (s : Server ClientSpec TopicSpec) → C.Rel c s.world.clients.db
      → T.Rel t s.world.topics.db
      → IsTidy s.world
      → All (λ n. n < 2 ^ 64) (ids_of s.world)
      → (u : Server ClientDb TopicDb)
      → Runs client_repo topic_repo (λ n. n < 2 ^ 64) Alive (on_server c t s) u
      → ((s' : Server ClientSpec TopicSpec) × Runs client_spec topic_spec
            (λ n. n < 2 ^ 64)
            (λ _. Unit)
            s
            s'
          × Mirrors u s')
        ⊎ IsBroken u
  Runs-Mirrors Alive sound c t s rel_c rel_t tidy small u here = inl (
    s,
    here,
    record { client_db = c; topic_db = t; same = refl; clients = rel_c; topics = rel_t },
  )
  Runs-Mirrors Alive sound c t s rel_c rel_t tidy small u (next {t = v} before alive st drawn) =
      elim (Runs-Mirrors Alive sound c t s rel_c rel_t tidy small v before) [
        | inr broken ↦ absurd (sound v alive broken)
        | inl (s', run, m) ↦
            let tidy' =
              Reach-IsTidy client_spec topic_spec s s' tidy
                (Runs-Reach client_spec topic_spec _ _ s s' run) in
            let small' = Runs-All client_spec topic_spec _ _ s s' small run in
            let (st', drawn') =
              subst
                (λ x.
                  (y : Step client_repo topic_repo x u) × Draws client_repo topic_repo
                    (λ n. n < 2 ^ 64) y)
                m.same (st, drawn) in
            elim (Step-Mirrors m.client_db m.topic_db s' m.clients m.topics tidy' small' u st'
              drawn') [
                | inl (s'', step, d, m') ↦ inl (s'', next run tt step d, m')
                | inr broken ↦ inr broken
              ]
      ]
