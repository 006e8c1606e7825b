-- ===== src/Tests/Managers.antt =====
-- The client manager on the two clients.
use network_broker.Prelude.{
  ℕ, ◌≡◌, ◌≢◌, ◌⊎◌, refl, codes, true, false, some, none, arith, [], ◌∷◌, ◌++◌, nat_eq, text_eq,
}
use network_broker.Prelude.Assoc.{find, assign, emplace, put}
use network_broker.Prelude.IdSet.{contains}
use network_broker.Session.{send, do_write, get_id}
use network_broker.Client
use network_broker.Client.{Client, Heap}
use network_broker.Client.Sending.{queue}
use network_broker.ClientManager.{
  ClientManager, ClientsCodes, ok, client_already_connected, connect_client, get_client_id,
  disconnect_client, send_topic_message, create_client,
}
use network_broker.ClientManager.Connect.{
  Connects, Refused, connect_client_ok, connect_client-Refused,
}
use network_broker.ClientManager.Create.{create_client_returns, count_from}
use network_broker.ClientManager.Delivery.{send_topic_message_delivers, copies, is_online}
use network_broker.ClientManager.Bindings.{
  SingleBinding, get_client_id_iff, disconnect_client_leaves_one,
}
use network_broker.ClientManager.Invariant.{WellFormed}
use network_broker.Table.{ClientTable, client_table, save_client}
use network_broker.Tests.{alice, bob, clients, sessions}

pub clients-WellFormed : WellFormed clients.clients
unfolding find
clients-WellFormed = (refl, refl, (refl, refl, tt))

-- The state after alice logs in from session 1.
abbrev logged_in : ClientsCodes × ClientManager ClientTable × Heap
logged_in = connect_client (codes "alice") (some 1) clients sessions

connect_client_ok_example :
    Connects (codes "alice") (some 1) clients sessions logged_in.1 logged_in.2
unfolding connect_client find Client.get_name Client.get_session_id Client.lock Client.expired
connect_client_ok_example =
    connect_client_ok (codes "alice") (some 1) clients logged_in.1 sessions logged_in.2
      clients-WellFormed refl

connect_client-Refused_example :
    Refused client_already_connected (codes "bob") (some 1) clients sessions
unfolding connect_client find Client.get_name Client.get_session_id Client.lock get_id
connect_client-Refused_example =
    (connect_client-Refused (codes "bob") (some 1) clients clients sessions sessions
      clients-WellFormed client_already_connected refl (λ e. cc)).2

-- The buffered message follows the greeting.
login_queue : queue 1 logged_in.2 ≡ codes "You have new messages:\n" ∷ codes "hi\n" ∷ []
unfolding connect_client find assign Client.get_name Client.get_session_id Client.lock
    Client.expired Client.send_buffer Client.send_all Client.send_to Client.set_session send
    do_write queue
login_queue = refl

send_topic_message_delivers_example :
    queue 2 (send_topic_message (codes "x") (10001 ∷ 10002 ∷ []) clients sessions).1
    ≡ queue 2 sessions ++ copies 2 (codes "x") (10001 ∷ 10002 ∷ []) clients.clients sessions
unfolding contains
send_topic_message_delivers_example =
    (send_topic_message_delivers (codes "x") (10001 ∷ 10002 ∷ []) clients sessions
        (refl, (refl, tt))).1
      2

clients-SingleBinding : SingleBinding clients.clients sessions
unfolding find is_online Client.get_session_id Client.lock get_id
clients-SingleBinding j k c d there_j there_k same online = ground arith

bob_found : get_client_id 2 clients sessions 0 ≡ (ok, 10002)
unfolding find Client.get_session_id Client.lock get_id
bob_found =
    (get_client_id_iff clients sessions clients-WellFormed 2 (omega arith) 10002 0
        clients-SingleBinding).0.1
      (bob, refl, refl)

-- Alice has logged in from bob's session.
abbrev shared : ClientManager ClientTable
shared = record clients { clients = (10001, record alice { session = some 2 }) ∷ (10002, bob) ∷ [] }

shared-WellFormed : WellFormed shared.clients
unfolding find
shared-WellFormed = (refl, refl, (refl, refl, tt))

disconnect_client_leaves_one_example :
    (find 10001 (disconnect_client 2 shared sessions).clients
      ≡ some (record alice { session = some 2 }))
    ⊎ (find 10002 (disconnect_client 2 shared sessions).clients ≡ some bob)
unfolding find Client.get_session_id Client.lock get_id
disconnect_client_leaves_one_example =
    disconnect_client_leaves_one shared sessions shared-WellFormed 2 (omega arith) 10001 10002
      (record alice { session = some 2 }) bob refl refl refl refl (omega arith)

abbrev pub with_carol : ClientManager ClientTable
with_carol = record {
  clients = (10003, Client.new 10003 (codes "carol")) ∷ clients.clients;
  db = record clients.db { names = (10003, codes "carol") ∷ clients.db.names };
}

pub carol_made :
    create_client client_table (codes "carol") (10001 ∷ 10003 ∷ []) clients ≡ some (ok, with_carol)
unfolding create_client find emplace put save_client Client.new
carol_made = refl

abbrev read_only : ClientManager ClientTable
read_only = record clients { db = record clients.db { writable = false } }

create_client_returns_example :
    create_client client_table (codes "carol") (10002 ∷ 10001 ∷ 10003 ∷ []) clients ≢ none
unfolding contains
create_client_returns_example =
    create_client_returns client_table (codes "carol") (10002 ∷ 10001 ∷ 10003 ∷ []) clients 10001 3
      (omega arith) covered
  where
    covered :
        (id : ℕ)
        → contains id (count_from 10001 3) ≡ true
        → contains id (10002 ∷ 10001 ∷ 10003 ∷ []) ≡ true
    covered id h = ground arith
