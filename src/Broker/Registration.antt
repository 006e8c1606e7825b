-- ===== src/Broker/Registration.antt =====
-- REGISTER: the new client, the session that it is bound to, and names that are taken.
use network_broker.Prelude.{
  ℕ, ◌≡◌, ◌≢◌, refl, ◌∙◌, Text, true, false, none, some, List, [], ◌∷◌, ◌++◌, if◌then◌else◌, nat_eq,
  text_eq, nat_beq, nat_beq_iff, arith,
}
use network_broker.Prelude.Assoc.{find, beq_refl}
use network_broker.Client
use network_broker.Client.{Client, Heap, SessionWeakPtr}
use network_broker.Client.Sending.{queue, points_to, line}
use network_broker.ClientManager.{
  ClientManager, ClientsCodes, client_not_found, client_already_connected, internal_error,
  client_already_exists, unauthorized, connect_client, create_client,
}
use network_broker.ClientManager.Create.{create_client_ok}
use network_broker.ClientManager.Connect.{
  has_name, connected, Refused, connect_client_ok, connect_client-Refused,
}
use network_broker.ClientManager.Delivery.{is_online}
use network_broker.ClientManager.Invariant.{WellFormed, create_client-WellFormed}
use network_broker.Repository.{ClientRepository}
use network_broker.Protocol.{BrokerCodes}
use network_broker.Broker.{World, login, register}

has_name-new : (id : ℕ) (name : Text) → has_name name (Client.new id name) ≡ true
unfolding Client.new Client.get_name
has_name-new id name = beq_refl name

is_online-new : (id : ℕ) (name : Text) (h : Heap) → is_online (Client.new id name) h ≡ false
unfolding is_online Client.new Client.get_session_id Client.lock
is_online-new id name h = refl

-- What REGISTER leaves when it makes a client and connects it.
abbrev pub Registered :
    {ClientDb TopicDb : Type 0}
    → Text
    → SessionWeakPtr
    → World ClientDb TopicDb
    → World ClientDb TopicDb
    → Type 0
Registered name session w w' =
    (new_id : ℕ) × (find new_id w.clients.clients ≡ none)
    × ((k : ℕ)
        → find k w'.clients.clients ≡ (
            if nat_beq new_id k
            then some (connected session (Client.new new_id name))
            else find k w.clients.clients))
    × ((p : ℕ)
        → queue p w'.sessions
          ≡ queue p w.sessions
            ++ (if points_to p session w.sessions then line Client.greeting ∷ [] else []))

module _ {ClientDb TopicDb : Type 0} (repo : ClientRepository ClientDb) (id : ℕ) (name : Text)
    (session : SessionWeakPtr) (rolls : List ℕ) (w : World ClientDb TopicDb) where
  -- No call of REGISTER is ever answered with ClientAlreadyExists, whatever names are taken.
  register-ne-exists :
      (w' : World ClientDb TopicDb)
      → register repo id name session rolls w ≢ some (BrokerCodes.client_already_exists, w')
  unfolding register login create_client connect_client
  register-ne-exists w' e = ground arith

  module _ (m : ClientManager ClientDb)
      (created : create_client repo name rolls w.clients ≡ some (ClientsCodes.ok, m)) where
    -- When a client is made, it gets an entry of its own under an id that was free, with the name it
    -- asked for, and every earlier client keeps its entry: also one that has the same name.
    pub register_adds :
        (new_id : ℕ) × (find new_id w.clients.clients ≡ none)
        × (find new_id m.clients ≡ some (Client.new new_id name))
        × ((k : ℕ) (c : Client) → find k w.clients.clients ≡ some c → find k m.clients ≡ some c)
    register_adds =
        let (new_id, drawn, free, saved, table) =
          create_client_ok repo name rolls w.clients m created in
        (
          new_id,
          free,
          table new_id ∙ ground (arith, nat_beq_iff new_id new_id),
          λ k c there. ground (arith, table k, nat_beq_iff new_id k),
        )

    module _ (wf : WellFormed w.clients.clients)
        (unused : (k : ℕ) (c : Client)
          → find k w.clients.clients ≡ some c
          → has_name name c ≡ false) where
      only_new :
          (new_id : ℕ)
          → ((k : ℕ)
              → find k m.clients ≡ (
                  if nat_beq new_id k
                  then some (Client.new new_id name)
                  else find k w.clients.clients))
          → (k : ℕ) (c : Client) → find k m.clients ≡ some c
          → has_name name c ≡ true
          → (new_id ≡ k) × (c ≡ Client.new new_id name)
      only_new new_id table k c there named =
          ground (arith, table k, unused k c, nat_beq_iff new_id k)

      no_refusal :
          (rc : ClientsCodes)
          → Client.expired session w.sessions ≡ false
          → rc ≢ ClientsCodes.ok
          → Refused rc name session m w.sessions
          → ⊥
      no_refusal ClientsCodes.ok alive bad why = bad refl
      no_refusal client_not_found alive bad why =
          let (new_id, drawn, free, saved, table) =
            create_client_ok repo name rolls w.clients m created in
          let there : find new_id m.clients ≡ some (Client.new new_id name) =
            table new_id ∙ ground (arith, nat_beq_iff new_id new_id) in
          ground (arith, why new_id (Client.new new_id name) there, has_name-new new_id name)
      no_refusal client_already_connected alive bad why =
          let (new_id, drawn, free, saved, table) =
            create_client_ok repo name rolls w.clients m created in
          let (k, c, there, named, online) = why in
          ground
            (arith, only_new new_id table k c there named, is_online-new new_id name w.sessions)
      no_refusal internal_error alive bad why = ground arith
      no_refusal client_already_exists alive bad why = why
      no_refusal unauthorized alive bad why = why

      well : WellFormed m.clients
      well = create_client-WellFormed repo name rolls w.clients m ClientsCodes.ok wf created

      connects :
          (rc : ClientsCodes) (m' : ClientManager ClientDb) (h' : Heap)
          → Client.expired session w.sessions ≡ false
          → connect_client name session m w.sessions ≡ (rc, m', h')
          → rc ≡ ClientsCodes.ok
      connects ClientsCodes.ok m' h' alive e = refl
      connects rc m' h' alive e = absurd (
          no_refusal rc alive (λ x. cc)
            (connect_client-Refused name session m m' w.sessions h' well rc e (λ x. cc)).2)

      registered :
          (m' : ClientManager ClientDb) (h' : Heap)
          → connect_client name session m w.sessions ≡ (ClientsCodes.ok, m', h')
          → Registered name session w (record w { clients = m'; sessions = h' })
      unfolding Client.new
      registered m' h' e =
          let (new_id, drawn, free, saved, table) =
            create_client_ok repo name rolls w.clients m created in
          let c = connect_client_ok name session m m' w.sessions h' well e in
          let (same_id, same_client) = only_new new_id table c.id c.client c.there c.named in
          (
            new_id,
            free,
            λ k. ground (arith, c.clients k, table k, same_id, same_client),
            λ p. ground (arith, c.queues p, same_client),
          )

      -- REGISTER with a name that no client has, from a live session, when the store saves the client:
      -- the answer is Ok; the new client stands under an id that was free, bound to the session; every
      -- other client is as it was; and the session's queue grows by the greeting alone.
      pub register_new :
          Client.expired session w.sessions ≡ false
          → (w' : World ClientDb TopicDb) × (register repo id name session rolls w
              ≡ some (BrokerCodes.ok, w'))
            × Registered name session w w'
      unfolding register login
      register_new alive =
          let (rc, m', h') = connect_client name session m w.sessions in
          let good : rc ≡ ClientsCodes.ok = connects rc m' h' alive refl in
          let e : connect_client name session m w.sessions ≡ (ClientsCodes.ok, m', h') =
            ground (arith, good) in
          (record w { clients = m'; sessions = h' }, ground (arith, created, e), registered m' h' e)
