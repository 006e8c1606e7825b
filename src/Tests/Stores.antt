-- ===== src/Tests/Stores.antt =====
-- The JSON store of the clients, run on small files.
use network_broker.Prelude.{
  ℕ, ◌≡◌, refl, codes, true, false, none, some, [], ◌∷◌, inl, inr, arith, nat_eq, text_eq,
}
use network_broker.Client
use network_broker.Client.{Client}
use network_broker.ClientManager.{emplace_all}
use network_broker.Prelude.Assoc.{find}
use network_broker.Prelude.Decimal.{to_string}
use network_broker.Json.{File, member, write}
use network_broker.JsonClients.{save_client, enter_client, delete_client, load_clients}
use network_broker.JsonClients.Refinement.{Represents, Stores, save_client-Stores, name_of}
use network_broker.JsonClients.Loading.{save_client_loses, load_clients-save_client}
use network_broker.Table
use network_broker.Table.{ClientTable}
use network_broker.Tests.Documents.{documents, documents-JsonLaws}
use network_broker.Tests.Values.{empty, lookup, set, erase}
use network_broker.Tests.Values.Printing.{parse, print, take}

abbrev pub empty_file : File
empty_file = record { content = some (codes "{}"); is_writable = true }

abbrev pub empty_table : ClientTable
empty_table = record { names = []; writable = true }

abbrev carol : Client
carol = record { id = 10003; name = codes "carol"; session = none; buffer = [] }

pub empty-Represents : Represents documents empty_file empty_table
unfolding parse member name_of lookup find
empty-Represents = record {
  text = codes "{}";
  value = empty;
  content = refl;
  parsed = refl;
  nested = (refl, λ key v e. absurd (ground (arith, e)));
  names = λ id h. refl;
  is_writable = refl;
}

save_client-Stores_example :
    Stores documents (save_client documents carol empty_file) (Table.save_client carol empty_table)
save_client-Stores_example =
    save_client-Stores documents documents-JsonLaws carol empty_file empty_table (ground arith)
      empty-Represents

-- The run of that example succeeds.
carol_saved : (save_client documents carol empty_file).0 ≡ some true
unfolding save_client enter_client write member parse print set erase lookup take to_string
    Client.get_name
carol_saved = refl

with_carol-Represents :
    Represents documents
      (save_client documents carol empty_file).1
      (Table.save_client carol empty_table).1
with_carol-Represents = elim save_client-Stores_example [
  | inl (e, r) ↦ r
  | inr (e, lost) ↦ absurd (ground (arith, e, carol_saved))
]

-- A name that is no UTF-8.
abbrev latin : Client
latin = record { id = 10004; name = 233 ∷ []; session = none; buffer = [] }

abbrev with_carol : File
with_carol = (save_client documents carol empty_file).1

latin_threw : (save_client documents latin with_carol).0 ≡ none
unfolding save_client enter_client write member parse print set erase lookup take to_string
    Client.get_name
latin_threw = refl

save_client_loses_example :
    (load_clients documents (save_client documents latin with_carol).1
      ≡ ([], (save_client documents latin with_carol).1))
    × ((d : Client)
        → save_client documents d (save_client documents latin with_carol).1
          ≡ (some false, (save_client documents latin with_carol).1))
    × ((id : ℕ)
        → delete_client documents id (save_client documents latin with_carol).1
          ≡ (false, (save_client documents latin with_carol).1))
save_client_loses_example =
    save_client_loses documents documents-JsonLaws latin with_carol
      (Table.save_client carol empty_table).1 (ground arith) with_carol-Represents latin_threw

load_clients-save_client_example :
    find 10003 (emplace_all (load_clients documents with_carol).0 [])
    ≡ some (Client.new 10003 (codes "carol"))
load_clients-save_client_example =
    load_clients-save_client documents documents-JsonLaws carol empty_file empty_table 10003
      (ground arith) (ground arith) empty-Represents carol_saved
