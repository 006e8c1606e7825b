-- ===== src/Tests/Capacities.antt =====
-- The ids of the clients, in the range of the generator and in one of two ids.
use network_broker.Prelude.{ℕ, ◌≤◌, ◌≡◌, refl, codes, none, List, [], ◌∷◌, All, length, arith}
use network_broker.ClientManager.{create_client}
use network_broker.ClientManager.Ids.{ids}
use network_broker.ClientManager.Capacity.{InRange, create_client-full}
use network_broker.Broker.Ids.{ids_of}
use network_broker.Server.{Server}
use network_broker.Server
use network_broker.Server.Reach.{stops}
use network_broker.Server.Ids.{here, next, first_id, count_ids, Runs-capacity}
use network_broker.Table.{client_table, topic_table}
use network_broker.Tests.{clients, server, world}
use network_broker.Tests.Brokers.{world-IsTidy}

ids-InRange : All (InRange first_id count_ids) (ids_of world)
unfolding ids
ids-InRange = (
  record { low = omega arith; high = omega arith },
  (record { low = omega arith; high = omega arith }, tt),
)

Runs-capacity_example :
    All (InRange first_id count_ids) (ids_of (Server.stop server).world)
    × (length (Server.stop server).world.clients.clients ≤ 90001)
Runs-capacity_example =
    Runs-capacity client_table topic_table (λ _. Unit) server (Server.stop server) world-IsTidy
      ids-InRange (next here tt (stops refl) tt)

-- Alice and bob have the two ids that there are.
abbrev draws : List ℕ
draws = 10002 ∷ 10001 ∷ 10001 ∷ 10002 ∷ []

two-InRange : All (InRange 10001 2) (ids clients.clients)
unfolding ids
two-InRange = (
  record { low = omega arith; high = omega arith },
  (record { low = omega arith; high = omega arith }, tt),
)

create_client-full_example : create_client client_table (codes "carol") draws clients ≡ none
create_client-full_example =
    create_client-full client_table 10001 2 (codes "carol") draws clients world-IsTidy.clients
      two-InRange refl
      (
        record { low = omega arith; high = omega arith },
        (
          record { low = omega arith; high = omega arith },
          (
            record { low = omega arith; high = omega arith },
            (record { low = omega arith; high = omega arith }, tt),
          ),
        ),
      )
