-- ===== src/ClientManager/Connect.antt =====
-- `ConnectClient`: what it does when it connects a client, and why it refuses.
use network_broker.Prelude.{
  ℕ, ◌≡◌, ◌≢◌, refl, Text, Bool, true, false, some, [], ◌∷◌, ◌++◌, map, if◌then◌else◌, nat_eq,
  text_eq, ◌==◌, nat_beq, arith, Option-cases, inl, inr,
}
use network_broker.Prelude.Assoc.{find, find-assign}
use network_broker.Client
use network_broker.Client.{Client, Heap, SessionWeakPtr}
use network_broker.Client.Sending.{queue, points_to, line, queue-send_buffer}
use network_broker.ClientManager.{
  ClientManager, ClientsCodes, ok, client_not_found, client_already_connected, internal_error,
  client_already_exists, unauthorized, first_with, connect_client,
}
use network_broker.ClientManager.Delivery.{is_online}
use network_broker.ClientManager.Invariant.{WellFormed, first_with-some, first_with-none}

-- The test by which the loop looks for a name.
abbrev pub has_name : Text → Client → Bool
has_name name c = Client.get_name c == name

-- The record of a client after its session is set and its buffer is sent.
abbrev pub connected : SessionWeakPtr → Client → Client
connected session c = record c { session = session; buffer = [] }

-- A client that the call connects: it stood in the table with the name, offline.
pub record Connects {Db : Type 0} (name : Text) (session : SessionWeakPtr) (m : ClientManager Db)
    (h : Heap) (m' : ClientManager Db) (h' : Heap) : Type 0 where
  pub id : ℕ
  pub client : Client
  pub there : find id m.clients ≡ some client
  pub named : has_name name client ≡ true
  pub offline : is_online client h ≡ false
  pub alive : Client.expired session h ≡ false
  pub clients :
      (k : ℕ)
      → find k m'.clients
        ≡ (if nat_beq id k then some (connected session client) else find k m.clients)
  pub queues :
      (p : ℕ)
      → queue p h'
        ≡ queue p h
          ++ (if points_to p session h then map line (Client.greeting ∷ client.buffer) else [])
  pub same_store : m'.db ≡ m.db

-- Why the call refuses: no client has the name, one with the name is online, or the session is gone.
abbrev pub Refused :
    {Db : Type 0} → ClientsCodes → Text → SessionWeakPtr → ClientManager Db → Heap → Type 0
Refused client_not_found name session m h =
    (k : ℕ) (c : Client) → find k m.clients ≡ some c → has_name name c ≡ false
Refused client_already_connected name session m h =
    (k : ℕ) × (c : Client) × (find k m.clients ≡ some c)
    × (has_name name c ≡ true)
    × (is_online c h ≡ true)
Refused internal_error name session m h = Client.expired session h ≡ true
Refused rc name session m h = ⊥

module _ {Db : Type 0} (name : Text) (session : SessionWeakPtr) (m m' : ClientManager Db)
    (h h' : Heap) (w : WellFormed m.clients) where
  -- An answer Ok means that an offline client with the name is now bound to the session and has an
  -- empty buffer, that its session's queue has grown by the greeting and the buffered messages in
  -- order, and that no other client and no other queue has changed.
  pub connect_client_ok :
      connect_client name session m h ≡ (ok, m', h') → Connects name session m h m' h'
  unfolding connect_client is_online Client.set_session
  connect_client_ok e = elim (Option-cases (first_with (has_name name) m.clients)) [
    | inl missing ↦ ground (arith, missing)
    | inr ((id, c), hit) ↦
        let found = first_with-some (has_name name) m.clients id c w hit in
        record {
          id = id;
          client = c;
          there = found.0;
          named = found.1;
          offline = ground (arith, hit);
          alive = ground (arith, hit);
          clients = λ k.
              unfold Client.send_buffer in
              ground (arith, hit, found, find-assign id k (connected session c) m.clients);
          queues = λ p. ground (arith, hit, queue-send_buffer p (Client.set_session session c) h);
          same_store = ground (arith, hit);
        }
  ]

  reason :
      (rc : ClientsCodes)
      → connect_client name session m h ≡ (rc, m', h')
      → rc ≢ ok
      → Refused rc name session m h
  unfolding connect_client is_online
  reason ok e bad = absurd (bad refl)
  reason client_not_found e bad = elim (Option-cases (first_with (has_name name) m.clients)) [
    | inl missing ↦ λ k c there. first_with-none (has_name name) m.clients k c missing there
    | inr ((id, c), hit) ↦ absurd (ground (arith, hit))
  ]
  reason client_already_connected e bad =
      elim (Option-cases (first_with (has_name name) m.clients)) [
        | inl missing ↦ absurd (ground (arith, missing))
        | inr ((id, c), hit) ↦
            let found = first_with-some (has_name name) m.clients id c w hit in
            (id, c, found.0, found.1, ground (arith, hit))
      ]
  reason internal_error e bad = ground arith
  reason client_already_exists e bad = ground arith
  reason unauthorized e bad = ground arith

  -- Any other answer changes nothing, and says why.
  pub connect_client-Refused :
      (rc : ClientsCodes)
      → connect_client name session m h ≡ (rc, m', h')
      → rc ≢ ok
      → (m' ≡ m) × (h' ≡ h) × Refused rc name session m h
  unfolding connect_client
  connect_client-Refused rc e bad = (ground arith, ground arith, reason rc e bad)
