-- ===== src/ClientManager/Invariant.antt =====
-- The well-formed tables of clients: one entry for each id, whose client has that id.
use network_broker.Prelude.{
  ℕ, ◌≡◌, refl, Text, Bool, true, false, none, some, List, [], ◌∷◌, nat_eq, nat_beq_iff, arith,
  Option-cases, Bool-cases, inl, inr,
}
use network_broker.Prelude.Assoc.{find, assign, emplace, erase, find-assign, find-erase}
use network_broker.Client
use network_broker.Client.{Client, Heap, SessionWeakPtr}
use network_broker.ClientManager.{
  ok, send_topic_message, remove_unlogged, draw_id, ClientsCodes, nat_beq, create_client,
  remove_client, load_clients, disconnect_client, ClientRepository, unlogin_client, text_eq,
  Clients, ClientManager, first_with, emplace_all, deliver, deliver_all, connect_client,
}

abbrev pub WellFormed : Clients → Type 0
WellFormed [] = Unit
WellFormed ((id, c) ∷ rest) = (c.id ≡ id) × (find id rest ≡ none) × WellFormed rest

-- Under a well-formed table what a search by a test finds is an entry, and passes the test.
pub first_with-some :
    (test : Client → Bool) (clients : Clients) (id : ℕ) (c : Client)
    → WellFormed clients
    → first_with test clients ≡ some (id, c)
    → (find id clients ≡ some c) × (test c ≡ true) × (c.id ≡ id)
unfolding first_with find
first_with-some test [] id c w e = cc
first_with-some test ((j, d) ∷ rest) id c w e = elim (Bool-cases (test d)) [
  | inl hit ↦ ground (arith, hit)
  | inr miss ↦ ground (arith, miss, first_with-some test rest id c w.2, nat_beq_iff j id)
]

pub first_with-none :
    (test : Client → Bool) (clients : Clients) (id : ℕ) (c : Client)
    → first_with test clients ≡ none
    → find id clients ≡ some c
    → test c ≡ false
unfolding first_with find
first_with-none test [] id c e f = cc
first_with-none test ((j, d) ∷ rest) id c e f = ground (arith, first_with-none test rest id c)

find-WellFormed :
    (clients : Clients) (id : ℕ) (c : Client)
    → WellFormed clients
    → find id clients ≡ some c
    → c.id ≡ id
unfolding find
find-WellFormed [] id c w e = cc
find-WellFormed ((j, d) ∷ rest) id c w e = ground (arith, find-WellFormed rest id c w.2)

assign-WellFormed :
    (id : ℕ) (c : Client) (clients : Clients)
    → c.id ≡ id
    → WellFormed clients
    → WellFormed (assign id c clients)
unfolding assign
assign-WellFormed id c [] e w = tt
assign-WellFormed id c ((j, d) ∷ rest) e w =
    ground (arith, assign-WellFormed id c rest e w.2, find-assign id j c rest)

emplace-WellFormed :
    (id : ℕ) (c : Client) (clients : Clients)
    → c.id ≡ id
    → WellFormed clients
    → WellFormed (emplace id c clients)
unfolding emplace
emplace-WellFormed id c clients e w = ground arith

erase-WellFormed : (id : ℕ) (clients : Clients) → WellFormed clients → WellFormed (erase id clients)
unfolding erase
erase-WellFormed id [] w = tt
erase-WellFormed id ((j, d) ∷ rest) w =
    ground (arith, erase-WellFormed id rest w.2, find-erase id j rest)

emplace_all-WellFormed :
    (loaded : List Client) (clients : Clients)
    → WellFormed clients
    → WellFormed (emplace_all loaded clients)
unfolding emplace_all
emplace_all-WellFormed [] clients w = w
emplace_all-WellFormed (c ∷ loaded) clients w =
    emplace_all-WellFormed loaded (emplace c.id c clients)
      (emplace-WellFormed c.id c clients refl w)

deliver-WellFormed :
    (message : Text) (id : ℕ) (clients : Clients) (h : Heap)
    → WellFormed clients
    → WellFormed (deliver message id clients h).0
unfolding deliver Client.buffer_topic_message
deliver-WellFormed message id clients h w = elim (Option-cases (find id clients)) [
  | inl e ↦ ground (arith, e)
  | inr (c, e) ↦
      let b = Client.buffer_topic_message message c in
      ground (arith, e, find-WellFormed clients id c w e, assign-WellFormed id b clients)
]

deliver_all-WellFormed :
    (message : Text) (ids : List ℕ) (clients : Clients) (h : Heap)
    → WellFormed clients
    → WellFormed (deliver_all message ids clients h).0
unfolding deliver_all
deliver_all-WellFormed message [] clients h w = w
deliver_all-WellFormed message (id ∷ ids) clients h w =
    deliver_all-WellFormed message ids _ _ (deliver-WellFormed message id clients h w)

module _ {Db : Type 0} (m : ClientManager Db) (h : Heap) (w : WellFormed m.clients) where
  pub connect_client-WellFormed :
      (name : Text) (session : SessionWeakPtr)
      → WellFormed (connect_client name session m h).1.clients
  unfolding connect_client Client.send_buffer Client.set_session
  connect_client-WellFormed name session =
      elim (Option-cases (first_with (λ c. text_eq.same (Client.get_name c) name) m.clients)) [
        | inl e ↦ ground (arith, e)
        | inr ((id, c), e) ↦
            let found = first_with-some _ m.clients id c w e in
            ground (
              arith,
              e,
              found,
              assign-WellFormed id (Client.send_buffer (Client.set_session session c) h).0
                  m.clients,
            )
      ]

  pub disconnect_client-WellFormed :
      (session_id : ℕ) → WellFormed (disconnect_client session_id m h).clients
  unfolding disconnect_client Client.disconnect
  disconnect_client-WellFormed session_id =
      elim (Option-cases
        (first_with (λ c. nat_beq (Client.get_session_id c h) session_id) m.clients)) [
          | inl e ↦ ground (arith, e)
          | inr ((id, c), e) ↦
              let found = first_with-some _ m.clients id c w e in
              ground (arith, e, found, assign-WellFormed id (Client.disconnect c) m.clients)
        ]

  pub unlogin_client-WellFormed : (id : ℕ) → WellFormed (unlogin_client id m h).1.clients
  unfolding unlogin_client Client.disconnect
  unlogin_client-WellFormed id = elim (Option-cases (find id m.clients)) [
    | inl e ↦ ground (arith, e)
    | inr (c, e) ↦ ground (
      arith,
      e,
      find-WellFormed m.clients id c w e,
      assign-WellFormed id (Client.disconnect c) m.clients,
    )
  ]

  pub send_topic_message-WellFormed :
      (message : Text) (ids : List ℕ) → WellFormed (send_topic_message message ids m h).0.clients
  unfolding send_topic_message
  send_topic_message-WellFormed message ids = deliver_all-WellFormed message ids m.clients h w

module _ {Db : Type 0} (repo : ClientRepository Db) where
  pub load_clients-WellFormed : (m : ClientManager Db) → WellFormed (load_clients repo m).clients
  unfolding load_clients
  load_clients-WellFormed m = emplace_all-WellFormed (repo.load_clients m.db).0 [] tt

  pub create_client-WellFormed :
      (name : Text) (rolls : List ℕ) (m m' : ClientManager Db) (rc : ClientsCodes)
      → WellFormed m.clients
      → create_client repo name rolls m ≡ some (rc, m')
      → WellFormed m'.clients
  unfolding create_client Client.new
  create_client-WellFormed name rolls m m' rc w e = elim (Option-cases (draw_id rolls m.clients)) [
    | inl stuck ↦ ground (arith, stuck)
    | inr (id, drawn) ↦ ground (arith, drawn, emplace-WellFormed id (Client.new id name) m.clients)
  ]

  remove_client-WellFormed :
      (id : ℕ) (m : ClientManager Db) (h : Heap)
      → WellFormed m.clients
      → WellFormed (remove_client repo id m h).1.clients
  unfolding remove_client
  remove_client-WellFormed id m h w =
      rest (unlogin_client id m h) (unlogin_client-WellFormed m h w id)
    where
      rest :
          (r : ClientsCodes × ClientManager Db)
          → WellFormed r.1.clients
          → WellFormed (remove_unlogged repo id r).1.clients
      rest (ok, m') w' = ground (arith, erase-WellFormed id m'.clients w')
      rest (rc, m') w' = w'
