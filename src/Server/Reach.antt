-- ===== src/Server/Reach.antt =====
-- The states that the server can reach: new connections, and all completions in any order.
use network_broker.Prelude.{
  ℕ, ◌+◌, ◌%◌, ◌<◌, ◌≡◌, ◌≢◌, refl, sym, subst, Text, none, some, List, [], ◌∷◌, ◌++◌, nat_eq,
  nat_beq, arith, Bool-cases, inl, inr,
}
use network_broker.Prelude.Assoc.{find, emplace, find-emplace}
use network_broker.Session
use network_broker.Session.{Session, send, do_write}
use network_broker.Repository.{ClientRepository, TopicRepository}
use network_broker.Broker.{World}
use network_broker.Server.{
  Server, u64_mod, new, start, do_accept, stop, accepted, accept_next, accept_failed, read_failed,
  write_done, write_failed, received,
}
use network_broker.Server.Receiving.{received-IsSafe}
use network_broker.Server.Safety.{
  IsSound, IsSafe, AreFree, start-IsSafe, write_done-IsSafe, write_failed-IsSafe,
  read_failed-IsSafe,
}

later-IsSound : (n p : ℕ) (t : Session) → IsSound n p t → IsSound (n + 1) p t
later-IsSound n p t h = record {
  same_id = h.same_id;
  valid = h.valid;
  given = omega (arith, h.given);
  knows = h.knows;
  in_order = h.in_order;
  one_read = h.one_read;
}

-- The session that the accept handler makes.
abbrev first_session : ℕ → Session
first_session id = Session.start (Session.set_self (some id) (Session.new id))

first_session-IsSound : (n id : ℕ) → 0 < id → id < n → IsSound n id (first_session id)
unfolding Session.start Session.set_self Session.new
first_session-IsSound n id pos lt = record {
  same_id = refl;
  valid = pos;
  given = lt;
  knows = refl;
  in_order = (refl, [], refl);
  one_read = omega arith;
}

module _ {ClientDb TopicDb : Type 0} where
  do_accept-IsSafe :
      (s : Server ClientDb TopicDb)
      → s.next_session_id + 1 < u64_mod
      → s.pending_accepts ≡ []
      → IsSafe s
      → IsSafe (do_accept s)
  unfolding do_accept
  do_accept-IsSafe s room idle safe =
      let n = s.next_session_id in
      let next : n + 1 ≡ (n + 1) % u64_mod = omega arith in
      let waits : AreFree ((n + 1) % u64_mod) s.world.sessions (n ∷ []) =
        (safe.counting, omega arith, safe.unused n (omega arith), refl) in
      record {
        counting = omega arith;
        sessions = λ p t there.
            subst (λ k. IsSound k p t) next (later-IsSound n p t (safe.sessions p t there));
        waiting =
            subst (λ ids. AreFree ((n + 1) % u64_mod) s.world.sessions (ids ++ n ∷ [])) (sym idle)
              waits;
        unused = λ p le. safe.unused p (omega arith);
      }

  accept_next-IsSafe :
      (s : Server ClientDb TopicDb)
      → s.next_session_id + 1 < u64_mod
      → s.pending_accepts ≡ []
      → IsSafe s
      → IsSafe (accept_next s)
  unfolding accept_next
  accept_next-IsSafe s room idle safe = elim (Bool-cases s.is_accepting) [
    | inl opened ↦
        let same : do_accept s ≡ accept_next s = ground (arith, opened) in
        subst IsSafe same (do_accept-IsSafe s room idle safe)
    | inr closed ↦ let same : s ≡ accept_next s = ground (arith, closed) in subst IsSafe same safe
  ]

  -- The state of the accept handler before it waits again: the session is owned.
  abbrev owning : ℕ → Server ClientDb TopicDb → Server ClientDb TopicDb
  owning id s = record s {
    pending_accepts = [];
    world = record s.world { sessions = emplace id (first_session id) s.world.sessions };
  }

  owning-IsSafe :
      (s : Server ClientDb TopicDb) (id : ℕ)
      → IsSafe s
      → 0 < id
      → id < s.next_session_id
      → find id s.world.sessions ≡ none
      → IsSafe (owning id s)
  owning-IsSafe s id safe pos lt free = record {
    counting = safe.counting;
    sessions = λ p t there. elim (Bool-cases (nat_beq id p)) [
      | inl here ↦
          let this : id ≡ p = ground (arith, here) in
          let made : first_session id ≡ t =
            ground (arith, here, free, find-emplace id p (first_session id) s.world.sessions) in
          subst (IsSound s.next_session_id p) made (
            subst (λ q. IsSound s.next_session_id q (first_session id)) this
              (first_session-IsSound s.next_session_id id pos lt))
      | inr other ↦
          safe.sessions p t
            (ground (arith, other, find-emplace id p (first_session id) s.world.sessions))
    ];
    waiting = tt;
    unused = λ p le.
        ground (arith, safe.unused p le, find-emplace id p (first_session id) s.world.sessions);
  }

  accepted-IsSafe :
      (s s' : Server ClientDb TopicDb) (ids : List ℕ)
      → s.pending_accepts ≡ ids
      → s.next_session_id + 1 < u64_mod
      → IsSafe s
      → accepted s ≡ some s'
      → IsSafe s'
  unfolding accepted Session.get_id
  accepted-IsSafe s s' [] idle room safe e = absurd (ground arith)
  accepted-IsSafe s s' (id ∷ rest) waits room safe e =
      let free = subst (AreFree s.next_session_id s.world.sessions) waits safe.waiting in
      let same_id : (first_session id).id ≡ id =
        unfold Session.start Session.set_self Session.new in refl in
      let same : accept_next (owning id s) ≡ s' = ground (arith, waits, free.3, same_id) in
      subst IsSafe same
        (accept_next-IsSafe (owning id s) room refl (owning-IsSafe s id safe free.0 free.1 free.2))

  accept_failed-IsSafe :
      (s s' : Server ClientDb TopicDb) (ids : List ℕ)
      → s.pending_accepts ≡ ids
      → s.next_session_id + 1 < u64_mod
      → IsSafe s
      → accept_failed s ≡ some s'
      → IsSafe s'
  unfolding accept_failed
  accept_failed-IsSafe s s' [] idle room safe e = absurd (ground arith)
  accept_failed-IsSafe s s' (id ∷ rest) waits room safe e =
      let free = subst (AreFree s.next_session_id s.world.sessions) waits safe.waiting in
      let t : Server ClientDb TopicDb = record s { pending_accepts = [] } in
      let idle : IsSafe t = record {
        counting = safe.counting;
        sessions = safe.sessions;
        waiting = tt;
        unused = safe.unused;
      } in
      let same : accept_next t ≡ s' = ground (arith, waits, free.3) in
      subst IsSafe same (accept_next-IsSafe t room refl idle)

module _ {ClientDb TopicDb : Type 0} (client_repo : ClientRepository ClientDb)
    (topic_repo : TopicRepository TopicDb) where
  -- What can happen next: an operation that is pending completes, or `Stop` is called. The counter of
  -- sessions is taken not to wrap, which needs 2^64 connections.
  pub data Step (s s' : Server ClientDb TopicDb) : Type 0 where
    accepts : s.next_session_id + 1 < u64_mod → accepted s ≡ some s' → Step s s'
    accept_fails : s.next_session_id + 1 < u64_mod → accept_failed s ≡ some s' → Step s s'
    receives :
        (p : ℕ) (t : Session) (buffer : Text) (rolls : List ℕ)
        → find p s.world.sessions ≡ some t
        → 0 < t.pending_reads
        → received client_repo topic_repo p buffer rolls s ≡ some s'
        → Step s s'
    read_fails :
        (p : ℕ) (t : Session)
        → find p s.world.sessions ≡ some t
        → 0 < t.pending_reads
        → read_failed p s ≡ some s'
        → Step s s'
    writes :
        (p : ℕ) (t : Session)
        → find p s.world.sessions ≡ some t
        → t.pending_writes ≢ []
        → write_done p s ≡ some s'
        → Step s s'
    write_fails :
        (p : ℕ) (t : Session)
        → find p s.world.sessions ≡ some t
        → t.pending_writes ≢ []
        → write_failed p s ≡ some s'
        → Step s s'
    stops : s' ≡ stop s → Step s s'

  pub data Reach (s : Server ClientDb TopicDb) : Server ClientDb TopicDb → Type 0 where
    here : Reach s s
    next : {t u : Server ClientDb TopicDb} → Reach s t → Step t u → Reach s u

  Step-IsSafe : (s s' : Server ClientDb TopicDb) → Step s s' → IsSafe s → IsSafe s'
  Step-IsSafe s s' (accepts room e) safe = accepted-IsSafe s s' s.pending_accepts refl room safe e
  Step-IsSafe s s' (accept_fails room e) safe =
      accept_failed-IsSafe s s' s.pending_accepts refl room safe e
  Step-IsSafe s s' (receives p t buffer rolls there busy e) safe =
      received-IsSafe s safe p t there client_repo topic_repo buffer rolls s' e
  Step-IsSafe s s' (read_fails p t there busy e) safe = read_failed-IsSafe s safe p t there s' e
  Step-IsSafe s s' (writes p t there busy e) safe = write_done-IsSafe s safe p t there s' e
  Step-IsSafe s s' (write_fails p t there busy e) safe = write_failed-IsSafe s safe p t there s' e
  Step-IsSafe s s' (stops e) safe =
      let kept : IsSafe (stop s) =
        unfold stop in
        record {
          counting = safe.counting;
          sessions = safe.sessions;
          waiting = safe.waiting;
          unused = safe.unused;
        } in
      subst IsSafe (sym e) kept

  -- Whatever has happened since the server started with no session, it is safe: every session that it
  -- owns stands under its own id, which is not 0, was given out once and is below the counter; it has
  -- at most one read pending, and a write pending for the front of its queue alone; and the id that
  -- waits for a connection is no session's.
  pub Reach-IsSafe :
      (w : World ClientDb TopicDb) (s : Server ClientDb TopicDb)
      → w.sessions ≡ []
      → Reach (start (new w)) s
      → IsSafe s
  Reach-IsSafe w s empty here = start-IsSafe w empty
  Reach-IsSafe w s empty (next {t = t} r st) = Step-IsSafe t s st (Reach-IsSafe w t empty r)
