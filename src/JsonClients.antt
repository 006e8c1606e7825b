-- ===== src/JsonClients.antt =====
-- app/src/db/json_client_repository.h and json_client_repository.cpp: the store of the clients, as a
-- JSON file. A result `none` is an exception that leaves the call.
pub mod Refinement
pub mod Deletion
pub mod Loading
pub mod Bounds
use network_broker.Prelude.{
  ℕ, Text, codes, Bool, true, false, not, Option, none, some, List, [], ◌∷◌, ◌++◌, if◌then◌else◌,
}
use network_broker.Prelude.Decimal.{to_string, stoull}
use network_broker.Client
use network_broker.Client.{Client}
use network_broker.Json.{Json, File, write}

abbrev pub name_key : Text
name_key = codes "name"

module _ {J : Type 0} (json : Json J) where
  -- One turn of the loop of `LoadClients`.
  unfoldable pub read_client : Text → J → Option Client
  read_client key value = elim (stoull key) [
    | none ↦ none
    | some id ↦ elim (json.entry name_key value) [
      | none ↦ none
      | some name ↦ elim (json.get_text name) [ none ↦ none | some t ↦ some (Client.new id t) ]
    ]
  ]

  unfoldable pub read_clients : List (Text × J) → Option (List Client)
  unfolding read_client
  read_clients [] = some []
  read_clients ((key, value) ∷ items) = elim (read_client key value) [
    | none ↦ none
    | some c ↦ elim (read_clients items) [ none ↦ none | some cs ↦ some (c ∷ cs) ]
  ]

  -- A file that is not there is made, and an exception is caught.
  unfoldable pub load_clients : File → List Client × File
  unfolding read_clients write
  load_clients f = elim f.content [
    | none ↦ ([], (write (some (codes "{}")) f).1)
    | some text ↦ elim (json.parse text) [
      | none ↦ ([], f)
      | some j ↦ elim (read_clients (json.items j)) [ none ↦ ([], f) | some cs ↦ (cs, f) ]
    ]
  ]

  -- The value with the client in it.
  unfoldable pub enter_client : Client → J → Option J
  enter_client c j =
      let key = to_string c.id in
      if json.contains key j
      then elim (json.entry key j) [
        | none ↦ none
        | some v ↦ elim (json.set name_key (json.text (Client.get_name c)) v) [
          | none ↦ none
          | some v' ↦ json.set key v' j
        ]
      ]
      else elim (json.set name_key (json.text (Client.get_name c)) json.object) [
        | none ↦ none
        | some v ↦ json.set key v j
      ]

  unfoldable pub save_client : Client → File → Option Bool × File
  unfolding enter_client write
  save_client c f = elim f.content [
    | none ↦ (some false, f)
    | some text ↦ elim (json.parse text) [
      | none ↦ (some false, f)
      | some j ↦ elim (enter_client c j) [ none ↦ (none, f) | some j' ↦ write (json.dump j') f ]
    ]
  ]

  -- The handler of `DeleteClient`: an exception is caught and answered with false.
  abbrev pub caught : Option Bool × File → Bool × File
  caught (none, f) = (false, f)
  caught (some b, f) = (b, f)

  unfoldable pub delete_client : ℕ → File → Bool × File
  unfolding write
  delete_client id f = elim f.content [
    | none ↦ (false, f)
    | some text ↦ elim (json.parse text) [
      | none ↦ (false, f)
      | some j ↦
          if not (json.contains (to_string id) j)
          then (false, f)
          else elim (json.erase (to_string id) j) [
            | none ↦ (false, f)
            | some j' ↦ caught (write (json.dump j') f)
          ]
    ]
  ]
