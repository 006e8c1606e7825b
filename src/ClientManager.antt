-- ===== src/ClientManager.antt =====
-- app/src/clients/clients_manager.h, clients_manager.cpp and rc.h: the clients by id, and the store
-- behind them. The sessions that the clients point to are passed in and out as a heap.
pub mod Delivery
pub mod Connect
pub mod Create
pub mod Invariant
pub mod Bindings
pub mod Refinement
pub mod Ids
pub mod Capacity
pub mod Buffers
use network_broker.Prelude.{
  ℕ, Text, nat_beq, Bool, not, Option, none, some, List, [], ◌∷◌, if◌then◌else◌, nat_eq, text_eq,
  ◌==◌,
}
use network_broker.Prelude.Assoc.{Assoc, find, assign, emplace, erase}
use network_broker.Session.{invalid_session_id}
use network_broker.Client
use network_broker.Client.{Client, Heap, SessionWeakPtr}
use network_broker.Repository.{ClientRepository}

pub data ClientsCodes : Type 0 where
  ok client_already_exists client_not_found client_already_connected : ClientsCodes
  unauthorized internal_error : ClientsCodes

abbrev pub Clients : Type 0
Clients = Assoc ℕ Client

pub record ClientManager (Db : Type 0) : Type 0 where
  pub clients : Clients
  pub db : Db

-- The first client, in the order of iteration, that passes a test.
unfoldable pub first_with : (Client → Bool) → Clients → Option (ℕ × Client)
first_with test [] = none
first_with test ((id, c) ∷ rest) = if test c then some (id, c) else first_with test rest

-- The loop of `CreateClient`: ids are drawn until one is free. `none`: all draws were taken.
unfoldable pub draw_id : List ℕ → Clients → Option ℕ
draw_id [] clients = none
draw_id (roll ∷ rolls) clients = elim (find roll clients) [
  | none ↦ some roll
  | some _ ↦ draw_id rolls clients
]

-- The loop of `LoadClients`.
unfoldable pub emplace_all : List Client → Clients → Clients
emplace_all [] clients = clients
emplace_all (c ∷ loaded) clients = emplace_all loaded (emplace c.id c clients)

-- The body of the loop of `SendTopicMessage`.
unfoldable pub deliver : Text → ℕ → Clients → Heap → Clients × Heap
deliver message id clients h = elim (find id clients) [
  | none ↦ (clients, h)
  | some c ↦
      if not (nat_beq (Client.get_session_id c h) invalid_session_id)
      then (clients, Client.send_topic_message message c h)
      else (assign id (Client.buffer_topic_message message c) clients, h)
]

unfoldable pub deliver_all : Text → List ℕ → Clients → Heap → Clients × Heap
deliver_all message [] clients h = (clients, h)
deliver_all message (id ∷ ids) clients h =
    let (clients', h') = deliver message id clients h in deliver_all message ids clients' h'

module _ {Db : Type 0} where
  unfoldable pub connect_client :
      Text → SessionWeakPtr → ClientManager Db → Heap → ClientsCodes × ClientManager Db × Heap
  unfolding first_with
  connect_client name session m h = elim (first_with (λ c. Client.get_name c == name) m.clients) [
    | none ↦ (client_not_found, m, h)
    | some (id, c) ↦
        if not (nat_beq (Client.get_session_id c h) 0)
        then (client_already_connected, m, h)
        else if Client.expired session h
        then (internal_error, m, h)
        else let (c', h') = Client.send_buffer (Client.set_session session c) h in
          (ok, record m { clients = assign id c' m.clients }, h')
  ]

  unfoldable pub disconnect_client : ℕ → ClientManager Db → Heap → ClientManager Db
  unfolding first_with
  disconnect_client session_id m h =
      elim (first_with (λ c. nat_beq (Client.get_session_id c h) session_id) m.clients) [
        | none ↦ m
        | some (id, c) ↦ record m { clients = assign id (Client.disconnect c) m.clients }
      ]

  -- The last argument is what the output parameter held before the call.
  unfoldable pub get_client_id : ℕ → ClientManager Db → Heap → ℕ → ClientsCodes × ℕ
  unfolding first_with
  get_client_id session_id m h client_id =
      elim (first_with (λ c. nat_beq (Client.get_session_id c h) session_id) m.clients) [
        | none ↦ (client_not_found, client_id)
        | some (id, c) ↦ (ok, c.id)
      ]

  unfoldable pub unlogin_client : ℕ → ClientManager Db → Heap → ClientsCodes × ClientManager Db
  unlogin_client client_id m h = elim (find client_id m.clients) [
    | none ↦ (client_not_found, m)
    | some c ↦
        if not (nat_beq (Client.get_session_id c h) invalid_session_id)
        then (ok, record m { clients = assign client_id (Client.disconnect c) m.clients })
        else (ok, m)
  ]

  unfoldable pub send_topic_message :
      Text → List ℕ → ClientManager Db → Heap → ClientManager Db × Heap
  unfolding deliver deliver_all
  send_topic_message message ids m h =
      let (clients, h') = deliver_all message ids m.clients h in
      (record m { clients = clients }, h')

  module _ (repo : ClientRepository Db) where
    unfoldable pub load_clients : ClientManager Db → ClientManager Db
    unfolding emplace_all
    load_clients m =
        let (loaded, db) = repo.load_clients m.db in
        record { clients = emplace_all loaded []; db = db }

    -- The constructor.
    unfoldable pub new : Db → ClientManager Db
    unfolding load_clients
    new db = load_clients (record { clients = []; db = db })

    -- `rolls` are the numbers that the generator gives; `none`: the loop is still drawing after them.
    unfoldable pub create_client :
        Text → List ℕ → ClientManager Db → Option (ClientsCodes × ClientManager Db)
    unfolding draw_id
    create_client name rolls m = elim (draw_id rolls m.clients) [
      | none ↦ none
      | some client_id ↦
          let client = Client.new client_id name in
          let (saved, db) = repo.save_client client m.db in
          if not saved
          then some (internal_error, record m { db = db })
          else some (ok, record { clients = emplace client_id client m.clients; db = db })
    ]

    -- The code of `UnloginClient`, then the rest of `RemoveClient` where that code is Ok.
    unfoldable pub remove_unlogged :
        ℕ → ClientsCodes × ClientManager Db → ClientsCodes × ClientManager Db
    remove_unlogged id (ok, m) = elim (find id m.clients) [
      | none ↦ (ok, m)
      | some c ↦
          let (deleted, db) = repo.delete_client c.id m.db in
          if not deleted
          then (internal_error, record m { db = db })
          else (ok, record { clients = erase id m.clients; db = db })
    ]
    remove_unlogged id (rc, m) = (rc, m)

    unfoldable pub remove_client : ℕ → ClientManager Db → Heap → ClientsCodes × ClientManager Db
    unfolding remove_unlogged
    remove_client id m h = remove_unlogged id (unlogin_client id m h)
