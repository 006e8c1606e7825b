-- ===== src/Tests.antt =====
-- Tests, and an instance of each theorem that has hypotheses. The data are two clients, alice who is
-- offline with a message waiting and bob who is online, and one topic.
mod SessionQueue
mod Commands
mod Managers
mod Subscribers
mod Brokers
mod Forwarding
mod Servers
mod Values
mod Documents
mod Stores
mod TopicStores
mod Logging
mod Configuring
mod Consoles
mod Publications
mod Receptions
mod Screens
mod Applications
mod Capacities
mod Orders
use network_broker.Prelude.{ℕ, Text, codes, true, none, some, List, [], ◌∷◌}
use network_broker.Session.{Session}
use network_broker.Client.{Client, Heap}
use network_broker.ClientManager.{ClientManager}
use network_broker.Topics.{TopicManager}
use network_broker.Broker.{World}
use network_broker.Server.{Server}
use network_broker.Table.{ClientTable, TopicTable}

abbrev news : Text
news = codes "news"

abbrev alice : Client
alice = record { id = 10001; name = codes "alice"; session = none; buffer = codes "hi" ∷ [] }

abbrev bob : Client
bob = record { id = 10002; name = codes "bob"; session = some 2; buffer = [] }

abbrev session_at : ℕ → Session
session_at id = record {
  id = id;
  outgoing = [];
  self = some id;
  pending_writes = [];
  written = [];
  pending_reads = 1;
  is_open = true;
}

abbrev sessions : Heap
sessions = (1, session_at 1) ∷ (2, session_at 2) ∷ []

abbrev clients : ClientManager ClientTable
clients = record {
  clients = (10001, alice) ∷ (10002, bob) ∷ [];
  db = record { names = (10001, codes "alice") ∷ (10002, codes "bob") ∷ []; writable = true };
}

abbrev topics : TopicManager TopicTable
topics = record {
  topics = (news, 10001 ∷ 10002 ∷ []) ∷ [];
  db = record { topics = (news, 10001 ∷ 10002 ∷ []) ∷ []; writable = true };
}

abbrev world : World ClientTable TopicTable
world = record { clients = clients; topics = topics; sessions = sessions }

abbrev server : Server ClientTable TopicTable
server = record {
  next_session_id = 4;
  pending_accepts = 3 ∷ [];
  is_accepting = true;
  is_running = true;
  world = world;
}
