-- ===== src/JsonClients/Refinement.antt =====
-- The JSON file of the clients implements the table of names.
use mathlib.Core.Option.{some-injective}
use network_broker.Prelude.{
  subst, nat_beq, ℕ, ◌≡◌, ◌<◌, ◌^◌, refl, Text, Bool, true, false, Option, none, some,
  if◌then◌else◌, text_beq, arith, ◌⊎◌, inl, inr, Bool-cases, Option-cases,
}
use network_broker.Prelude.{nat_eq, text_eq, nat_beq, nat_beq_iff, text_beq_iff, sym, ap, ◌∙◌}
use network_broker.Client
use network_broker.Prelude.Decimal.{to_string, to_string-injective}
use network_broker.Prelude.Assoc.{find-put, put, find}
use network_broker.Client.{Client}
use network_broker.Json.{
  Json, JsonLaws, IsDocument, is_parsed, is_object, is_text, is_entry, is_set, File, member, write,
}
use network_broker.JsonClients.{[], to_string, name_key, enter_client, save_client}
use network_broker.Table
use network_broker.Table.{ClientTable}

module _ {J : Type 0} (json : Json J) where
  -- The name in a client's object.
  unfoldable pub name_in : J → Option Text
  name_in v = elim (member json name_key v) [ none ↦ none | some name ↦ json.get_text name ]

  -- The name that a value has under an id.
  unfoldable pub name_of : ℕ → J → Option Text
  unfolding name_in
  name_of id j = elim (member json (to_string id) j) [ none ↦ none | some v ↦ name_in v ]

  abbrev pub HasName : J → Type 0
  HasName v = (json.is_object v ≡ true) × ((name : Text) × (name_in v ≡ some name))

  -- An entry of the file: the key is a printed id, and the value an object with a name.
  abbrev pub IsEntry : Text → J → Type 0
  IsEntry key v = HasName v × ((id : ℕ) × (id < 2 ^ 64) × (key ≡ to_string id))

  -- An object of such entries.
  abbrev pub IsNested : J → Type 0
  IsNested j =
      (json.is_object j ≡ true)
      × ((key : Text) (v : J) → member json key j ≡ some v → IsEntry key v)

  -- The file holds such an object, with the names of the table under its 64-bit ids.
  pub record Represents (f : File) (t : ClientTable) : Type 0 where
    pub text : Text
    pub value : J
    pub content : f.content ≡ some text
    pub parsed : json.parse text ≡ some value
    pub nested : IsNested value
    pub names : (id : ℕ) → id < 2 ^ 64 → name_of id value ≡ find id t.names
    pub is_writable : f.is_writable ≡ t.writable

  -- A call does what the table does, answer included; or else an exception leaves it, and the file has
  -- lost its content.
  abbrev pub Stores : Option Bool × File → Bool × ClientTable → Type 0
  Stores r t = ((r.0 ≡ some t.0) × Represents r.1 t.1) ⊎ ((r.0 ≡ none) × (r.1.content ≡ some []))

  module _ (laws : JsonLaws json) where
    pub member-contains :
        (key : Text) (j : J)
        → json.contains key j ≡ true
        → (v : J) × (json.entry key j ≡ some v) × (member json key j ≡ some v)
    unfolding member
    member-contains key j e =
        let (v, there) = laws.contains_entry key j e in (v, there, ground (arith, there))

    pub to_string_beq :
        (m n : ℕ) → m < 2 ^ 64 → n < 2 ^ 64 → text_beq (to_string m) (to_string n) ≡ nat_beq m n
    to_string_beq m n hm hn = elim (Bool-cases (nat_beq m n)) [
      | inl e ↦
          let same : m ≡ n = (nat_beq_iff m n).0 e in
          (text_beq_iff (to_string m) (to_string n)).1 (ap to_string same) ∙ sym e
      | inr e ↦ elim (Bool-cases (text_beq (to_string m) (to_string n))) [
        | inl e' ↦
            let same : m ≡ n =
              to_string-injective m n hm hn ((text_beq_iff (to_string m) (to_string n)).0 e') in
            absurd (ground (arith, same, e))
        | inr e' ↦ e' ∙ sym e
      ]
    ]

    -- The value after an object with the client's name is put under the client's id.
    name_of-put :
        (c : Client) (v j j' : J)
        → member json name_key v ≡ some (json.text (Client.get_name c))
        → ((k : Text)
            → member json k j' ≡ (if text_beq (to_string c.id) k then some v else member json k j))
        → (id : ℕ) → c.id < 2 ^ 64
        → id < 2 ^ 64
        → name_of id j' ≡ (if nat_beq c.id id then some c.name else name_of id j)
    unfolding name_of name_in Client.get_name
    name_of-put c v j j' named table id small small' = ground (
      arith,
      named,
      table (to_string id),
      to_string_beq c.id id small small',
      laws.get_text_text c.name,
    )

    -- The two assignments of `SaveClient`.
    stored :
        (c : Client) (v j : J)
        → c.id < 2 ^ 64
        → IsNested j
        → json.is_object v ≡ true
        → (v' j' : J) × (json.set name_key (json.text (Client.get_name c)) v ≡ some v')
          × (json.set (to_string c.id) v' j ≡ some j')
          × IsNested j'
          × ((id : ℕ)
              → id < 2 ^ 64
              → name_of id j' ≡ (if nat_beq c.id id then some c.name else name_of id j))
    stored c v j small nested object =
        let (v', set_v, object', table') =
          laws.set_member name_key (json.text (Client.get_name c)) v object in
        let (j', set_j, object'', table) = laws.set_member (to_string c.id) v' j nested.0 in
        let named : member json name_key v' ≡ some (json.text (Client.get_name c)) =
          table' name_key ∙ ground (arith, (text_beq_iff name_key name_key).1 refl) in
        let name_v : name_in v' ≡ some c.name =
          unfold name_in Client.get_name in ground (arith, named, laws.get_text_text c.name) in
        let inner : (key : Text) (u : J) → member json key j' ≡ some u → IsEntry key u = λ key u e.
          elim (Bool-cases (text_beq (to_string c.id) key)) [
            | inl same ↦
                let is_new : some v' ≡ some u = sym (table key ∙ ground (arith, same)) ∙ e in
                let printed : key ≡ to_string c.id =
                  sym ((text_beq_iff (to_string c.id) key).0 same) in
                (
                  subst HasName (some-injective v' u is_new) (object', (c.name, name_v)),
                  (c.id, small, printed),
                )
            | inr other ↦ nested.1 key u (sym (table key ∙ ground (arith, other)) ∙ e)
          ] in
        (
          v',
          j',
          set_v,
          set_j,
          (object'', inner),
          λ id small'. name_of-put c v' j j' named table id small small',
        )

    enter_client-name_of :
        (c : Client) (j : J)
        → c.id < 2 ^ 64
        → IsNested j
        → (j' : J) × (enter_client json c j ≡ some j')
          × IsNested j'
          × ((id : ℕ)
              → id < 2 ^ 64
              → name_of id j' ≡ (if nat_beq c.id id then some c.name else name_of id j))
    unfolding enter_client
    enter_client-name_of c j small nested = elim (Bool-cases (json.contains (to_string c.id) j)) [
      | inl e ↦
          let (v, there, held) = member-contains (to_string c.id) j e in
          let (v', j', set_v, set_j, nested', names) =
            stored c v j small nested (nested.1 _ v held).0.0 in
          (j', ground (arith, e, there, set_v, set_j), nested', names)
      | inr e ↦
          let (v', j', set_v, set_j, nested', names) =
            stored c json.object j small nested laws.object_empty.0 in
          (j', ground (arith, e, set_v, set_j), nested', names)
    ]

    enter_client-IsDocument :
        (c : Client) (j j' : J)
        → IsDocument json j
        → enter_client json c j ≡ some j'
        → IsDocument json j'
    unfolding enter_client
    enter_client-IsDocument c j j' doc e =
        let name = json.text (Client.get_name c) in
        let key = to_string c.id in
        elim (Bool-cases (json.contains key j)) [
          | inl held ↦ elim (Option-cases (json.entry key j)) [
            | inl bad ↦ absurd (ground (arith, held, bad, e))
            | inr (v, read) ↦ elim (Option-cases (json.set name_key name v)) [
              | inl bad ↦ absurd (ground (arith, held, read, bad, e))
              | inr (v', set_v) ↦
                  is_set key (is_set name_key (is_text _) (is_entry key doc read) set_v) doc
                    (ground (arith, held, read, set_v, e))
            ]
          ]
          | inr missing ↦ elim (Option-cases (json.set name_key name json.object)) [
            | inl bad ↦ absurd (ground (arith, missing, bad, e))
            | inr (v, set_v) ↦
                is_set key (is_set name_key (is_text _) is_object set_v) doc
                  (ground (arith, missing, set_v, e))
          ]
        ]

    -- A write to a file that can be written stores the value, or fails to print it.
    pub write-Represents :
        (j : J) (f : File) (t : ClientTable)
        → IsDocument json j
        → IsNested j
        → ((id : ℕ) → id < 2 ^ 64 → name_of id j ≡ find id t.names)
        → f.is_writable ≡ t.writable
        → t.writable ≡ true
        → Stores (write (json.dump j) f) (true, t)
    unfolding write
    write-Represents j f t doc nested names same writable = elim (Option-cases (json.dump j)) [
      | inl e ↦ inr (ground (arith, e, same, writable))
      | inr (out, e) ↦ inl (
        ground (arith, e, same, writable),
        record {
          text = out;
          value = j;
          content = ground (arith, e, same, writable);
          parsed = laws.parse_dump j out doc e;
          nested = nested;
          names = names;
          is_writable = ground (arith, e, same, writable);
        },
      )
    ]

    pub save_client-Stores :
        (c : Client) (f : File) (t : ClientTable)
        → c.id < 2 ^ 64
        → Represents f t
        → Stores (save_client json c f) (Table.save_client c t)
    unfolding save_client Table.save_client
    save_client-Stores c f t small r =
        let (j', entered, nested', names) = enter_client-name_of c r.value small r.nested in
        let read : save_client json c f ≡ write (json.dump j') f =
          ground (arith, r.content, r.parsed, entered) in
        elim (Bool-cases t.writable) [
          | inl e ↦
              let t' : ClientTable = record t { names = put c.id c.name t.names } in
              let saved : (true, t') ≡ Table.save_client c t = ground (arith, e) in
              let found : (id : ℕ) → id < 2 ^ 64 → name_of id j' ≡ find id t'.names = λ id h.
                names id h ∙ ground (arith, r.names id h, find-put c.id id c.name t.names) in
              subst (λ x. Stores x (Table.save_client c t)) (sym read)
                (subst (Stores (write (json.dump j') f)) saved (
                  write-Represents j' f t'
                    (enter_client-IsDocument c r.value j' (is_parsed r.text r.parsed) entered)
                    nested' found r.is_writable e))
          | inr e ↦
              let refused : (false, t) ≡ Table.save_client c t = ground (arith, e) in
              let kept : (some false, f) ≡ save_client json c f =
                unfold write in ground (arith, read, e, r.is_writable) in
              subst (λ x. Stores x (Table.save_client c t)) kept
                (subst (Stores (some false, f)) refused (inl (refl, r)))
        ]
