-- ===== src/JsonClients/Deletion.antt =====
-- The deletion of a client from the JSON file implements that of the table of names.
use network_broker.Prelude.{◌≡◌, Bool, false, Option, some, ◌⊎◌, nat_eq, text_eq}
use network_broker.Json.{Json, File}
use network_broker.JsonClients.{[]}
use network_broker.JsonClients.Refinement.{Represents}
use network_broker.Table
use network_broker.Table.{ClientTable}

module _ {J : Type 0} (json : Json J) where
  -- A call does what the table does; or else it fails, and the file has lost its content.
  abbrev pub Deletes : Bool × File → Bool × ClientTable → Type 0
  Deletes r t = ((r.0 ≡ t.0) × Represents json r.1 t.1) ⊎ ((r.0 ≡ false) × (r.1.content ≡ some []))
