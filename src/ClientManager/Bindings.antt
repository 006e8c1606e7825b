-- ===== src/ClientManager/Bindings.antt =====
-- Which client a session stands for: `GetClientId`, `ConnectClient` and `DisconnectClient` together.
use network_broker.Prelude.{
  ℕ, ◌≡◌, ◌≢◌, ◌↔◌, ◌⊎◌, refl, sym, ◌∙◌, Bool, true, some, nat_eq, nat_beq, arith, Option-cases,
  Bool-cases, inl, inr,
}
use network_broker.Prelude.Assoc.{find, find-assign}
use network_broker.Session.{invalid_session_id}
use network_broker.Client
use network_broker.Client.{Client, Heap, SessionWeakPtr}
use network_broker.ClientManager.{
  Clients, ClientManager, ok, client_not_found, first_with, disconnect_client, get_client_id,
}
use network_broker.ClientManager.Delivery.{is_online}
use network_broker.ClientManager.Invariant.{WellFormed, first_with-some, first_with-none}

-- The test by which the loops look for a session id.
abbrev pub has_session : ℕ → Heap → Client → Bool
has_session session_id h c = nat_beq (Client.get_session_id c h) session_id

-- No two clients are online through one session.
abbrev pub SingleBinding : Clients → Heap → Type 0
SingleBinding clients h =
    (j k : ℕ) (c d : Client)
    → find j clients ≡ some c
    → find k clients ≡ some d
    → Client.get_session_id c h ≡ Client.get_session_id d h
    → is_online c h ≡ true
    → j ≡ k

session_id-disconnect :
    (c : Client) (h : Heap) → Client.get_session_id (Client.disconnect c) h ≡ invalid_session_id
unfolding Client.get_session_id Client.lock Client.disconnect
session_id-disconnect c h = refl

online_of_session :
    (c : Client) (h : Heap) (session_id : ℕ)
    → Client.get_session_id c h ≡ session_id
    → session_id ≢ invalid_session_id
    → is_online c h ≡ true
unfolding is_online
online_of_session c h session_id e valid = ground (arith, e)

module _ {Db : Type 0} (m : ClientManager Db) (h : Heap) (w : WellFormed m.clients) (session_id : ℕ)
    (valid : session_id ≢ invalid_session_id) where
  -- A session through which no client is online is refused.
  pub get_client_id_unbound :
      (old : ℕ)
      → ((k : ℕ) (c : Client) → find k m.clients ≡ some c → Client.get_session_id c h ≢ session_id)
      → get_client_id session_id m h old ≡ (client_not_found, old)
  unfolding get_client_id
  get_client_id_unbound old nobody =
      elim (Option-cases (first_with (has_session session_id h) m.clients)) [
        | inl missing ↦ ground (arith, missing)
        | inr ((j, c), hit) ↦
            let found = first_with-some (has_session session_id h) m.clients j c w hit in
            absurd (nobody j c found.0 (ground (arith, found)))
      ]

  -- Where no two clients share a session, a session is taken for a client exactly if that client is
  -- online through it, and is found without a client exactly if no client is.
  pub get_client_id_iff :
      (id old : ℕ)
      → SingleBinding m.clients h
      → ((get_client_id session_id m h old ≡ (ok, id)) ↔ (
          (c : Client) × (find id m.clients ≡ some c) × (Client.get_session_id c h ≡ session_id)))
        × ((get_client_id session_id m h old ≡ (client_not_found, old)) ↔ (
            (k : ℕ) (c : Client)
            → find k m.clients ≡ some c
            → Client.get_session_id c h ≢ session_id))
  unfolding get_client_id
  get_client_id_iff id old single =
      elim (Option-cases (first_with (has_session session_id h) m.clients)) [
        | inl missing ↦
            let none_bound = λ (k : ℕ) (c : Client) (there : find k m.clients ≡ some c).
              first_with-none (has_session session_id h) m.clients k c missing there in
            (
              (
                λ e. absurd (ground (arith, missing)),
                λ b. absurd (ground (arith, none_bound id b.0 b.1, b.2)),
              ),
              (
                λ e k c there s. ground (arith, none_bound k c there),
                λ nobody. ground (arith, missing),
              ),
            )
        | inr ((j, c), hit) ↦
            let found = first_with-some (has_session session_id h) m.clients j c w hit in
            let bound : Client.get_session_id c h ≡ session_id = ground (arith, found) in
            let online = online_of_session c h session_id bound valid in
            (
              (
                λ e. (c, ground (arith, hit, found), bound),
                λ b.
                    let same : j ≡ id = single j id c b.0 found.0 b.1 (bound ∙ sym b.2) online in
                    ground (arith, hit, found),
              ),
              (λ e. absurd (ground (arith, hit)), λ nobody. absurd (nobody j c found.0 bound)),
            )
      ]

  -- Where no two clients share a session, after `DisconnectClient` no client is online through it.
  disconnect_client_unbinds :
      (k : ℕ) (d : Client)
      → SingleBinding m.clients h
      → find k (disconnect_client session_id m h).clients ≡ some d
      → Client.get_session_id d h ≢ session_id
  unfolding disconnect_client
  disconnect_client_unbinds k d single there s =
      elim (Option-cases (first_with (has_session session_id h) m.clients)) [
        | inl missing ↦
            ground
              (arith, missing, first_with-none (has_session session_id h) m.clients k d missing)
        | inr ((j, c), hit) ↦
            let found = first_with-some (has_session session_id h) m.clients j c w hit in
            let bound : Client.get_session_id c h ≡ session_id = ground (arith, found) in
            ground (
              arith,
              hit,
              found,
              find-assign j k (Client.disconnect c) m.clients,
              session_id-disconnect c h,
              single j k c d found.0,
              online_of_session c h session_id bound valid,
            )
      ]

  -- Where two clients do share a session, one of them stays online through it.
  pub disconnect_client_leaves_one :
      (j k : ℕ) (c d : Client)
      → find j m.clients ≡ some c
      → find k m.clients ≡ some d
      → Client.get_session_id c h ≡ session_id
      → Client.get_session_id d h ≡ session_id
      → j ≢ k
      → (find j (disconnect_client session_id m h).clients ≡ some c)
        ⊎ (find k (disconnect_client session_id m h).clients ≡ some d)
  unfolding disconnect_client
  disconnect_client_leaves_one j k c d there_j there_k s_j s_k differ =
      elim (Option-cases (first_with (has_session session_id h) m.clients)) [
        | inl missing ↦ inl (ground (arith, missing))
        | inr ((i, b), hit) ↦ elim (Bool-cases (nat_beq i j)) [
          | inl first ↦
              inr (ground (arith, hit, first, find-assign i k (Client.disconnect b) m.clients))
          | inr other ↦
              inl (ground (arith, hit, other, find-assign i j (Client.disconnect b) m.clients))
        ]
      ]
