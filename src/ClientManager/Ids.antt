-- ===== src/ClientManager/Ids.antt =====
-- The ids of the clients: no operation changes them but a registration, which adds the one it draws.
use network_broker.Prelude.{
  ℕ, ◌≡◌, ◌∙◌, refl, subst, Text, some, List, [], ◌∷◌, arith, nat_eq, text_eq, nat_beq, nat_beq_iff,
  Option-cases, Bool-cases, inl, inr, All,
}
use network_broker.Prelude.Assoc.{find, assign, emplace}
use network_broker.Client
use network_broker.Client.{Client, Heap, SessionWeakPtr}
use network_broker.Repository.{ClientRepository}
use network_broker.ClientManager.{
  emplace_all, ok, ClientsCodes, ok, ClientManager, Clients, draw_id, first_with, connect_client,
  disconnect_client, get_client_id, unlogin_client, deliver, deliver_all, send_topic_message,
  create_client,
}
use network_broker.ClientManager.Invariant.{WellFormed, first_with-some}
use network_broker.ClientManager.Refinement.{draw_id-All}

unfoldable pub ids : Clients → List ℕ
ids [] = []
ids ((id, c) ∷ clients) = id ∷ ids clients

pub find-All :
    (P : ℕ → Type 0) (id : ℕ) (c : Client) (clients : Clients)
    → All P (ids clients)
    → find id clients ≡ some c
    → P id
unfolding find ids
find-All P id c [] all e = absurd (ground (arith, e))
find-All P id c ((j, d) ∷ clients) all e = elim (Bool-cases (nat_beq j id)) [
  | inl same ↦ subst P ((nat_beq_iff j id).0 same) all.0
  | inr other ↦ find-All P id c clients all.1 (ground (arith, other, e))
]

ids-assign : (id : ℕ) (c : Client) (clients : Clients) → ids (assign id c clients) ≡ ids clients
unfolding ids assign
ids-assign id c [] = refl
ids-assign id c ((j, d) ∷ clients) = ground (arith, ids-assign id c clients)

ids-deliver_all :
    (message : Text) (targets : List ℕ) (clients : Clients) (h : Heap)
    → ids (deliver_all message targets clients h).0 ≡ ids clients
unfolding deliver_all deliver
ids-deliver_all message [] clients h = refl
ids-deliver_all message (id ∷ targets) clients h =
    let kept : ids (deliver message id clients h).0 ≡ ids clients =
      elim (Option-cases (find id clients)) [
        | inl e ↦ ground (arith, e)
        | inr (c, e) ↦
            ground (arith, e, ids-assign id (Client.buffer_topic_message message c) clients)
      ] in
    ids-deliver_all message targets _ _ ∙ kept

module _ {Db : Type 0} (m : ClientManager Db) (h : Heap) where
  pub ids-connect_client :
      (name : Text) (session : SessionWeakPtr)
      → ids (connect_client name session m h).1.clients ≡ ids m.clients
  unfolding connect_client
  ids-connect_client name session =
      elim (Option-cases (first_with (λ c. text_eq.same (Client.get_name c) name) m.clients)) [
        | inl e ↦ ground (arith, e)
        | inr ((id, c), e) ↦ ground (
          arith,
          e,
          ids-assign id (Client.send_buffer (Client.set_session session c) h).0 m.clients,
        )
      ]

  pub ids-disconnect_client :
      (session_id : ℕ) → ids (disconnect_client session_id m h).clients ≡ ids m.clients
  unfolding disconnect_client
  ids-disconnect_client session_id =
      elim (Option-cases
        (first_with (λ c. nat_beq (Client.get_session_id c h) session_id) m.clients)) [
          | inl e ↦ ground (arith, e)
          | inr ((id, c), e) ↦ ground (arith, e, ids-assign id (Client.disconnect c) m.clients)
        ]

  pub ids-unlogin_client : (id : ℕ) → ids (unlogin_client id m h).1.clients ≡ ids m.clients
  unfolding unlogin_client
  ids-unlogin_client id = elim (Option-cases (find id m.clients)) [
    | inl e ↦ ground (arith, e)
    | inr (c, e) ↦ ground (arith, e, ids-assign id (Client.disconnect c) m.clients)
  ]

  pub ids-send_topic_message :
      (message : Text) (targets : List ℕ)
      → ids (send_topic_message message targets m h).0.clients ≡ ids m.clients
  unfolding send_topic_message
  ids-send_topic_message message targets = ids-deliver_all message targets m.clients h

  -- An id that `GetClientId` finds is one of the clients'.
  pub get_client_id-All :
      (P : ℕ → Type 0) (session_id : ℕ)
      → WellFormed m.clients
      → All P (ids m.clients)
      → (get_client_id session_id m h 0).0 ≡ ok
      → P (get_client_id session_id m h 0).1
  unfolding get_client_id
  get_client_id-All P session_id well all e =
      elim (Option-cases
        (first_with (λ c. nat_beq (Client.get_session_id c h) session_id) m.clients)) [
          | inl none_there ↦ absurd (ground (arith, none_there, e))
          | inr ((id, c), there) ↦
              let (found, passes, same) = first_with-some _ m.clients id c well there in
              let got : id ≡ (get_client_id session_id m h 0).1 = ground (arith, there, same) in
              subst P got (find-All P id c m.clients all found)
        ]

emplace-All :
    (P : ℕ → Type 0) (id : ℕ) (c : Client) (clients : Clients)
    → P id
    → All P (ids clients)
    → All P (ids (emplace id c clients))
unfolding emplace ids
emplace-All P id c clients holds all = elim (Option-cases (find id clients)) [
  | inl e ↦
      let same : (id, c) ∷ clients ≡ emplace id c clients = ground (arith, e) in
      subst (λ m. All P (ids m)) same (holds, all)
  | inr (d, e) ↦
      let same : clients ≡ emplace id c clients = ground (arith, e) in
      subst (λ m. All P (ids m)) same all
]

pub emplace_all-All :
    (P : ℕ → Type 0) (loaded : List Client) (clients : Clients)
    → All (λ c. P c.id) loaded
    → All P (ids clients)
    → All P (ids (emplace_all loaded clients))
unfolding emplace_all
emplace_all-All P [] clients good all = all
emplace_all-All P (c ∷ loaded) clients good all =
    emplace_all-All P loaded (emplace c.id c clients) good.1
      (emplace-All P c.id c clients good.0 all)

pub create_client-All :
    {Db : Type 0} (repo : ClientRepository Db) (P : ℕ → Type 0) (name : Text) (rolls : List ℕ)
    (m m' : ClientManager Db) (rc : ClientsCodes)
    → All P rolls
    → All P (ids m.clients)
    → create_client repo name rolls m ≡ some (rc, m')
    → All P (ids m'.clients)
unfolding create_client ids
create_client-All repo P name rolls m m' rc rolled all e =
    elim (Option-cases (draw_id rolls m.clients)) [
      | inl stuck ↦ absurd (ground (arith, stuck, e))
      | inr (id, drawn) ↦
          let holds : P id = draw_id-All P rolls m.clients id rolled drawn in
          let c : Client = Client.new id name in
          elim (Bool-cases (repo.save_client c m.db).0) [
            | inl saved ↦
                let same : emplace id c m.clients ≡ m'.clients = ground (arith, drawn, saved, e) in
                subst (λ n. All P (ids n)) same (emplace-All P id c m.clients holds all)
            | inr refused ↦
                let same : m.clients ≡ m'.clients = ground (arith, drawn, refused, e) in
                subst (λ n. All P (ids n)) same all
          ]
    ]
