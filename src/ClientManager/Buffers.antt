-- ===== src/ClientManager/Buffers.antt =====
-- The messages that wait for the clients: what holds of all of them, and of each message that is sent,
-- goes on to hold.
use network_broker.Prelude.{
  ℕ, ◌≡◌, sym, subst, Text, some, List, [], ◌∷◌, arith, nat_eq, text_eq, ◌==◌, nat_beq,
  Option-cases, Bool-cases, inl, inr, All, All-append, Bool,
}
use network_broker.Prelude.Assoc.{find, assign, emplace}
use network_broker.Session.{invalid_session_id}
use network_broker.Client
use network_broker.Client.{Client, Heap, SessionWeakPtr}
use network_broker.Repository.{ClientRepository}
use network_broker.ClientManager.{
  ClientsCodes, ClientManager, Clients, emplace_all, draw_id, first_with, connect_client,
  disconnect_client, unlogin_client, deliver, deliver_all, create_client,
}

module _ (Ok : Text → Type 0) where
  abbrev pub AllBuffers : Clients → Type 0
  AllBuffers [] = Unit
  AllBuffers ((id, c) ∷ clients) = All Ok c.buffer × AllBuffers clients

  pub AllBuffers-at :
      {clients clients' : Clients} → clients' ≡ clients → AllBuffers clients → AllBuffers clients'
  AllBuffers-at e all = subst AllBuffers (sym e) all

  assign-AllBuffers :
      (id : ℕ) (c : Client) (clients : Clients)
      → All Ok c.buffer
      → AllBuffers clients
      → AllBuffers (assign id c clients)
  unfolding assign
  assign-AllBuffers id c [] now all = tt
  assign-AllBuffers id c ((j, d) ∷ clients) now all =
      let rest = assign-AllBuffers id c clients now all.1 in
      elim (Bool-cases (nat_beq j id)) [
        | inl same ↦ rw same (now, all.1)
        | inr other ↦ rw other (all.0, rest)
      ]

  emplace-AllBuffers :
      (id : ℕ) (c : Client) (clients : Clients)
      → All Ok c.buffer
      → AllBuffers clients
      → AllBuffers (emplace id c clients)
  unfolding emplace
  emplace-AllBuffers id c clients now all = elim (Option-cases (find id clients)) [
    | inl e ↦ AllBuffers-at {clients = (id, c) ∷ clients} (ground (arith, e)) (now, all)
    | inr (d, e) ↦ AllBuffers-at (ground (arith, e)) all
  ]

  find-AllBuffers :
      (id : ℕ) (c : Client) (clients : Clients)
      → AllBuffers clients
      → find id clients ≡ some c
      → All Ok c.buffer
  unfolding find
  find-AllBuffers id c [] all e = absurd (ground (arith, e))
  find-AllBuffers id c ((j, d) ∷ clients) all e = elim (Bool-cases (nat_beq j id)) [
    | inl same ↦
        let here : d ≡ c = ground (arith, same, e) in subst (λ x. All Ok x.buffer) here all.0
    | inr other ↦ find-AllBuffers id c clients all.1 (ground (arith, other, e))
  ]

  pub first_with-AllBuffers :
      (test : Client → Bool) (id : ℕ) (c : Client) (clients : Clients)
      → AllBuffers clients
      → first_with test clients ≡ some (id, c)
      → All Ok c.buffer
  unfolding first_with
  first_with-AllBuffers test id c [] all e = absurd (ground (arith, e))
  first_with-AllBuffers test id c ((j, d) ∷ clients) all e = elim (Bool-cases (test d)) [
    | inl hit ↦ let here : d ≡ c = ground (arith, hit, e) in subst (λ x. All Ok x.buffer) here all.0
    | inr passed ↦ first_with-AllBuffers test id c clients all.1 (ground (arith, passed, e))
  ]

  pub emplace_all-AllBuffers :
      (loaded : List Client) (clients : Clients)
      → All (λ c. All Ok c.buffer) loaded
      → AllBuffers clients
      → AllBuffers (emplace_all loaded clients)
  unfolding emplace_all
  emplace_all-AllBuffers [] clients good all = all
  emplace_all-AllBuffers (c ∷ loaded) clients good all =
      emplace_all-AllBuffers loaded (emplace c.id c clients) good.1
        (emplace-AllBuffers c.id c clients good.0 all)

  deliver-AllBuffers :
      (message : Text) (id : ℕ) (clients : Clients) (h : Heap)
      → Ok message
      → AllBuffers clients
      → AllBuffers (deliver message id clients h).0
  unfolding deliver Client.buffer_topic_message
  deliver-AllBuffers message id clients h good all = elim (Option-cases (find id clients)) [
    | inl e ↦ AllBuffers-at (ground (arith, e)) all
    | inr (c, e) ↦ elim (Bool-cases (nat_beq (Client.get_session_id c h) invalid_session_id)) [
      | inl off ↦ AllBuffers-at (ground (arith, e, off)) (
          assign-AllBuffers id (Client.buffer_topic_message message c) clients
            (All-append Ok c.buffer (message ∷ []) (find-AllBuffers id c clients all e) (good, tt))
            all)
      | inr on ↦ AllBuffers-at (ground (arith, e, on)) all
    ]
  ]

  pub deliver_all-AllBuffers :
      (message : Text) (ids : List ℕ) (clients : Clients) (h : Heap)
      → Ok message
      → AllBuffers clients
      → AllBuffers (deliver_all message ids clients h).0
  unfolding deliver_all
  deliver_all-AllBuffers message [] clients h good all = all
  deliver_all-AllBuffers message (id ∷ ids) clients h good all =
      deliver_all-AllBuffers message ids _ _ good (deliver-AllBuffers message id clients h good all)

  module _ {Db : Type 0} (m : ClientManager Db) (h : Heap) (all : AllBuffers m.clients) where
    pub connect_client-AllBuffers :
        (name : Text) (session : SessionWeakPtr)
        → AllBuffers (connect_client name session m h).1.clients
    unfolding connect_client
    connect_client-AllBuffers name session =
        elim (Option-cases (first_with (λ c. Client.get_name c == name) m.clients)) [
          | inl e ↦ AllBuffers-at (ground (arith, e)) all
          | inr ((id, c), e) ↦
              let sent = (Client.send_buffer (Client.set_session session c) h).0 in
              let set = assign-AllBuffers id sent m.clients (unfold Client.send_buffer in tt) all in
              elim (Bool-cases (nat_beq (Client.get_session_id c h) 0)) [
                | inr on ↦ AllBuffers-at (ground (arith, e, on)) all
                | inl off ↦ elim (Bool-cases (Client.expired session h)) [
                  | inl gone ↦ AllBuffers-at (ground (arith, e, off, gone)) all
                  | inr there ↦ AllBuffers-at (ground (arith, e, off, there)) set
                ]
              ]
        ]

    pub disconnect_client-AllBuffers :
        (session_id : ℕ) → AllBuffers (disconnect_client session_id m h).clients
    unfolding disconnect_client
    disconnect_client-AllBuffers session_id =
        let test = λ (c : Client). nat_beq (Client.get_session_id c h) session_id in
        elim (Option-cases (first_with test m.clients)) [
          | inl e ↦ AllBuffers-at (ground (arith, e)) all
          | inr ((id, c), e) ↦ AllBuffers-at (ground (arith, e)) (
              assign-AllBuffers id (Client.disconnect c) m.clients
                (unfold Client.disconnect in first_with-AllBuffers test id c m.clients all e) all)
        ]

    pub unlogin_client-AllBuffers : (id : ℕ) → AllBuffers (unlogin_client id m h).1.clients
    unfolding unlogin_client
    unlogin_client-AllBuffers id = elim (Option-cases (find id m.clients)) [
      | inl e ↦ AllBuffers-at (ground (arith, e)) all
      | inr (c, e) ↦
          let set =
            assign-AllBuffers id (Client.disconnect c) m.clients
              (unfold Client.disconnect in find-AllBuffers id c m.clients all e) all in
          elim (Bool-cases (nat_beq (Client.get_session_id c h) invalid_session_id)) [
            | inl off ↦ AllBuffers-at (ground (arith, e, off)) all
            | inr on ↦ AllBuffers-at (ground (arith, e, on)) set
          ]
    ]

    pub create_client-AllBuffers :
        (repo : ClientRepository Db) (name : Text) (rolls : List ℕ) (rc : ClientsCodes)
        (m' : ClientManager Db)
        → create_client repo name rolls m ≡ some (rc, m')
        → AllBuffers m'.clients
    unfolding create_client
    create_client-AllBuffers repo name rolls rc m' e =
        elim (Option-cases (draw_id rolls m.clients)) [
          | inl stuck ↦ absurd (ground (arith, stuck, e))
          | inr (id, drawn) ↦
              let c : Client = Client.new id name in
              elim (Bool-cases (repo.save_client c m.db).0) [
                | inl saved ↦
                    let same : emplace id c m.clients ≡ m'.clients =
                      ground (arith, drawn, saved, e) in
                    subst AllBuffers same
                      (emplace-AllBuffers id c m.clients (unfold Client.new in tt) all)
                | inr refused ↦
                    let same : m.clients ≡ m'.clients = ground (arith, drawn, refused, e) in
                    subst AllBuffers same all
              ]
        ]

-- What holds of every text holds of all that wait.
module _ (Ok : Text → Type 0) (any : (text : Text) → Ok text) where
  All-any : (texts : List Text) → All Ok texts
  All-any [] = tt
  All-any (text ∷ texts) = (any text, All-any texts)

  pub AllBuffers-any : (clients : Clients) → AllBuffers Ok clients
  AllBuffers-any [] = tt
  AllBuffers-any ((id, c) ∷ clients) = (All-any c.buffer, AllBuffers-any clients)
