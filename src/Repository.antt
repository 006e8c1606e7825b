-- ===== src/Repository.antt =====
-- app/src/db/i_client_repository.h and i_topic_repository.h: the interfaces through which the
-- managers reach their stores. A call gives its result and the store that it leaves.
pub mod Refinement
use network_broker.Prelude.{ℕ, Text, Bool, List}
use network_broker.Prelude.Assoc.{Assoc}
use network_broker.Client.{Client}

pub record ClientRepository (Db : Type 0) : Type 0 where
  pub load_clients : Db → List Client × Db
  pub save_client : Client → Db → Bool × Db
  pub delete_client : ℕ → Db → Bool × Db

pub record TopicRepository (Db : Type 0) : Type 0 where
  pub save_topic : Text → ℕ → Db → Bool × Db
  pub load_topics : Db → Assoc Text (List ℕ) × Db
  pub create_topic : Text → ℕ → Db → Bool × Db
  pub remove_from_topic : Text → ℕ → Db → Bool × Db
