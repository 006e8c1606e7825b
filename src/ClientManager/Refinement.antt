-- ===== src/ClientManager/Refinement.antt =====
-- The client manager over a store does what it does over the store's specification.
use network_broker.Prelude.{
  ℕ, ◌<◌, ◌^◌, ◌≡◌, ◌⊎◌, inl, inr, subst, refl, Text, not, some, List, [], ◌∷◌, if◌then◌else◌,
  arith, nat_eq, text_eq, Option-cases, All,
}
use network_broker.Prelude.Assoc.{find, emplace}
use network_broker.Client
use network_broker.Client.{Client, Heap, SessionWeakPtr}
use network_broker.Repository.{ClientRepository}
use network_broker.Repository.Refinement.{Both-some, Both-none, Both, ClientRefinement}
use network_broker.ClientManager.{
  ◌∷◌, Clients, ClientsCodes, ok, internal_error, ClientManager, draw_id, connect_client,
  disconnect_client, get_client_id, unlogin_client, send_topic_message, create_client, Clients,
}

-- The manager over another store.
abbrev pub with_db : {Db Spec : Type 0} → Db → ClientManager Spec → ClientManager Db
with_db d m = record { clients = m.clients; db = d }

-- What does not touch the store is the same over any.
module _ {Db Spec : Type 0} (d : Db) (m : ClientManager Spec) (h : Heap) where
  pub connect_client-with_db :
      (name : Text) (session : SessionWeakPtr)
      → connect_client name session (with_db d m) h ≡ (
        (connect_client name session m h).0,
        with_db d (connect_client name session m h).1,
        (connect_client name session m h).2,
      )
  unfolding connect_client
  connect_client-with_db name session = ground arith

  pub disconnect_client-with_db :
      (id : ℕ) → disconnect_client id (with_db d m) h ≡ with_db d (disconnect_client id m h)
  unfolding disconnect_client
  disconnect_client-with_db id = ground arith

  pub get_client_id-with_db :
      (id client_id : ℕ)
      → get_client_id id (with_db d m) h client_id ≡ get_client_id id m h client_id
  unfolding get_client_id
  get_client_id-with_db id client_id = refl

  pub unlogin_client-with_db :
      (id : ℕ)
      → unlogin_client id (with_db d m) h
        ≡ ((unlogin_client id m h).0, with_db d (unlogin_client id m h).1)
  unfolding unlogin_client
  unlogin_client-with_db id = ground arith

  pub send_topic_message-with_db :
      (message : Text) (ids : List ℕ)
      → send_topic_message message ids (with_db d m) h
        ≡ (with_db d (send_topic_message message ids m h).0, (send_topic_message message ids m h).1)
  unfolding send_topic_message
  send_topic_message-with_db message ids = refl

pub draw_id-All :
    (P : ℕ → Type 0) (rolls : List ℕ) (clients : Clients) (id : ℕ)
    → All P rolls
    → draw_id rolls clients ≡ some id
    → P id
unfolding draw_id
draw_id-All P [] clients id h e = absurd (ground (arith, e))
draw_id-All P (roll ∷ rolls) clients id h e = elim (Option-cases (find roll clients)) [
  | inl free ↦ let same : roll ≡ id = ground (arith, free, e) in subst P same h.0
  | inr (c, taken) ↦ draw_id-All P rolls clients id h.1 (ground (arith, taken, e))
]

module _ {Db Spec : Type 0} {repo : ClientRepository Db} {spec : ClientRepository Spec}
    (R : ClientRefinement repo spec) where
  -- The same code and the same clients, over related stores; or the store is broken.
  abbrev pub Follows : ClientsCodes × ClientManager Db → ClientsCodes × ClientManager Spec → Type 0
  Follows r s = ((d : Db) × (r ≡ (s.0, with_db d s.1)) × R.Rel d s.1.db) ⊎ R.Broken r.1.db

  pub create_client-Follows :
      (name : Text) (rolls : List ℕ) (d : Db) (m : ClientManager Spec)
      → All (λ roll. roll < 2 ^ 64) rolls
      → R.Rel d m.db
      → Both Follows (create_client repo name rolls (with_db d m)) (create_client spec name rolls m)
  unfolding create_client
  create_client-Follows name rolls d m small related =
      elim (Option-cases (draw_id rolls m.clients)) [
        | inl e ↦ Both-none Follows _ _ (ground (arith, e)) (ground (arith, e))
        | inr (id, e) ↦
            let c : Client = Client.new id name in
            let x = repo.save_client c d in
            let y = spec.save_client c m.db in
            let small_id : c.id < 2 ^ 64 =
              unfold Client.new in draw_id-All (λ n. n < 2 ^ 64) rolls m.clients id small e in
            let code = if not y.0 then internal_error else ok in
            let m' : ClientManager Spec = record {
              clients = if not y.0 then m.clients else emplace id c m.clients;
              db = y.1;
            } in
            elim (R.save_client c d m.db small_id related) [
              | inl (same, related') ↦
                  Both-some Follows _ _ (code, with_db x.1 m') (code, m') (ground (arith, e, same))
                    (ground (arith, e)) (inl (x.1, refl, related'))
              | inr broken ↦
                  let code' = if not x.0 then internal_error else ok in
                  let m'' : ClientManager Db = record {
                    clients = if not x.0 then m.clients else emplace id c m.clients;
                    db = x.1;
                  } in
                  Both-some Follows _ _ (code', m'') (code, m') (ground (arith, e))
                    (ground (arith, e)) (inr broken)
            ]
      ]
