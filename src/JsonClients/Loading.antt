-- ===== src/JsonClients/Loading.antt =====
-- What `LoadClients` reads from the JSON file, and what is left of a file that has lost its content.
use network_broker.Prelude.{
  sym, inl, inr, ap, ap, ℕ, ◌≡◌, ◌<◌, ◌^◌, ◌∙◌, refl, Text, false, Option, none, some, List, [],
  ◌∷◌, text_beq, nat_beq, arith, nat_eq, text_eq, All,
}
use mathlib.Core.Option.{some-injective}
use network_broker.Prelude.{Bool-cases, if◌then◌else◌}
use network_broker.Prelude.Assoc.{Assoc, find, emplace, find-emplace, find-put}
use network_broker.Prelude.Decimal.{to_string, stoull, stoull-to_string}
use network_broker.Client
use network_broker.Client.{Client}
use network_broker.ClientManager.{Clients, emplace_all}
use network_broker.Json.{Json, JsonLaws, File, member}
use network_broker.JsonClients.{
  true, read_client, read_clients, load_clients, save_client, delete_client,
}
use network_broker.JsonClients.Refinement.{
  save_client-Stores, name_in, name_of, IsNested, IsEntry, Represents, to_string_beq,
}
use network_broker.Table
use network_broker.Table.{ClientTable}

-- The client that a name makes.
abbrev pub named : ℕ → Option Text → Option Client
named id none = none
named id (some name) = some (Client.new id name)

module _ {J : Type 0} (json : Json J) (laws : JsonLaws json) where
  abbrev AreEntries : List (Text × J) → Type 0
  AreEntries = All (λ i. IsEntry json i.0 i.1)

  -- The name that the first item under an id has.
  abbrev name_at : ℕ → Assoc Text J → Option Text
  name_at id items = elim (find (to_string id) items) [ none ↦ none | some v ↦ name_in json v ]

  read_client-IsEntry :
      (key : Text) (v : J)
      → IsEntry json key v
      → (id : ℕ) × (name : Text) × (id < 2 ^ 64)
        × (key ≡ to_string id)
        × (name_in json v ≡ some name)
        × (read_client json key v ≡ some (Client.new id name))
  unfolding read_client name_in member
  read_client-IsEntry key v ((object, (name, e)), (id, small, printed)) =
      let read : stoull key ≡ some id = ap stoull printed ∙ stoull-to_string id small in
      (id, name, small, printed, e, ground (arith, e, read))

  -- The clients that are read, put in a table in the order of the items.
  read_clients-AreEntries :
      (items : List (Text × J))
      → AreEntries items
      → (cs : List Client) × (read_clients json items ≡ some cs)
        × ((id : ℕ) (m : Clients)
            → id < 2 ^ 64
            → find id (emplace_all cs m)
              ≡ elim (find id m) [ none ↦ named id (name_at id items) | some c ↦ some c ])
  unfolding read_clients emplace_all find Client.new
  read_clients-AreEntries [] h = ([], refl, λ id m small. ground arith)
  read_clients-AreEntries ((key, v) ∷ items) h =
      let (id, name, small, printed, e, read) = read_client-IsEntry key v h.0 in
      let (cs, rest, table) = read_clients-AreEntries items h.1 in
      (
        Client.new id name ∷ cs,
        ground (arith, read, rest),
        λ i m small'.
            let key_test : text_beq key (to_string i) ≡ nat_beq id i =
              ap (λ k. text_beq k (to_string i)) printed
              ∙ to_string_beq json laws id i small small' in
            table i (emplace id (Client.new id name) m) small'
            ∙ ground (arith, find-emplace id i (Client.new id name) m, key_test, e),
      )

  AreEntries-items :
      (items : List (Text × J)) (j : J)
      → IsNested json j
      → All (λ i. member json i.0 j ≡ some i.1) items
      → AreEntries items
  AreEntries-items [] j nested h = tt
  AreEntries-items ((key, v) ∷ items) j nested h =
      (nested.1 key v h.0, AreEntries-items items j nested h.1)

  name_at-name_of :
      (id : ℕ) (items : List (Text × J)) (j : J)
      → find (to_string id) items ≡ member json (to_string id) j
      → name_at id items ≡ name_of json id j
  unfolding name_of
  name_at-name_of id items j e = ground (arith, e)

  -- From a file that represents a table `LoadClients` reads, for the client manager, every name of the
  -- table as an offline client under its id, and leaves the file.
  pub load_clients-Represents :
      (f : File) (t : ClientTable) (id : ℕ)
      → Represents json f t
      → id < 2 ^ 64
      → ((load_clients json f).1 ≡ f)
        × (find id (emplace_all (load_clients json f).0 []) ≡ named id (find id t.names))
  unfolding load_clients find
  load_clients-Represents f t id r small =
      let entries =
        AreEntries-items (json.items r.value) r.value r.nested
          (laws.items_member r.value r.nested.0) in
      let (cs, read, table) = read_clients-AreEntries (json.items r.value) entries in
      let loaded : load_clients json f ≡ (cs, f) = ground (arith, r.content, r.parsed, read) in
      let found : name_at id (json.items r.value) ≡ find id t.names =
        name_at-name_of id (json.items r.value) r.value
          (laws.items_find (to_string id) r.value r.nested.0)
        ∙ r.names id small in
      (
        ap (λ x. x.1) loaded,
        ap (λ x. find id (emplace_all x.0 [])) loaded ∙ table id [] small ∙ ap (named id) found,
      )

  -- A file that has lost its content stays lost: no client is loaded from it, and no call succeeds.
  lost_file :
      (f : File)
      → f.content ≡ some []
      → (load_clients json f ≡ ([], f))
        × ((c : Client) → save_client json c f ≡ (some false, f))
        × ((id : ℕ) → delete_client json id f ≡ (false, f))
  unfolding load_clients save_client delete_client
  lost_file f e = (
    ground (arith, e, laws.parse_nothing),
    λ c. ground (arith, e, laws.parse_nothing),
    λ id. ground (arith, e, laws.parse_nothing),
  )

  -- When an exception leaves `SaveClient` on a file that represents a table, every client that was in
  -- the file is lost: none is loaded from it, and no later call of `SaveClient` or `DeleteClient`
  -- succeeds.
  pub save_client_loses :
      (c : Client) (f : File) (t : ClientTable)
      → c.id < 2 ^ 64
      → Represents json f t
      → (save_client json c f).0 ≡ none
      → let f' = (save_client json c f).1 in
        (load_clients json f' ≡ ([], f'))
        × ((d : Client) → save_client json d f' ≡ (some false, f'))
        × ((id : ℕ) → delete_client json id f' ≡ (false, f'))
  save_client_loses c f t small r threw = elim (save_client-Stores json laws c f t small r) [
    | inl (e, _) ↦ absurd (ground (arith, e, threw))
    | inr (e, lost) ↦ lost_file (save_client json c f).1 lost
  ]

  named-put :
      (c : Client) (t : ClientTable) (id : ℕ)
      → (Table.save_client c t).0 ≡ true
      → named id (find id (Table.save_client c t).1.names)
        ≡ (if nat_beq c.id id then some (Client.new id c.name) else named id (find id t.names))
  unfolding Table.save_client
  named-put c t id saved = elim (Bool-cases t.writable) [
    | inl e ↦ ground (arith, e, find-put c.id id c.name t.names)
    | inr e ↦ absurd (ground (arith, e, saved))
  ]

  -- A client that `SaveClient` has saved, in a file that represents a table, is there after a restart:
  -- `LoadClients` gives it offline, with its name, under its id, and under every other id what it gave
  -- before the call.
  pub load_clients-save_client :
      (c : Client) (f : File) (t : ClientTable) (id : ℕ)
      → c.id < 2 ^ 64
      → id < 2 ^ 64
      → Represents json f t
      → (save_client json c f).0 ≡ some true
      → find id (emplace_all (load_clients json (save_client json c f).1).0 []) ≡ (
          if nat_beq c.id id
          then some (Client.new id c.name)
          else find id (emplace_all (load_clients json f).0 []))
  load_clients-save_client c f t id small small' r saved =
      elim (save_client-Stores json laws c f t small r) [
        | inl (e, r') ↦
            let table_saved : (Table.save_client c t).0 ≡ true =
              some-injective _ _ (sym e ∙ saved) in
            (load_clients-Represents (save_client json c f).1 (Table.save_client c t).1 id r'
              small').1
            ∙ named-put c t id table_saved
            ∙ ap (λ o. if nat_beq c.id id then some (Client.new id c.name) else o)
                (sym (load_clients-Represents f t id r small').1)
        | inr (e, lost) ↦ absurd (ground (arith, e, saved))
      ]
