-- ===== src/JsonClients/Bounds.antt =====
-- The clients that are loaded from the JSON file of the clients, whatever it holds.
use network_broker.Prelude.{
  ℕ, ◌<◌, ◌^◌, ◌≡◌, subst, Text, some, List, [], ◌∷◌, All, arith, Option-cases, inl, inr,
}
use network_broker.Prelude.Decimal.{stoull, stoull-lt}
use network_broker.Client
use network_broker.Client.{Client}
use network_broker.Json.{Json, File}
use network_broker.JsonClients.{name_key, read_client, read_clients, load_clients}

abbrev pub HasSmallId : Client → Type 0
HasSmallId c = c.id < 2 ^ 64

module _ {J : Type 0} (json : Json J) (P : Client → Type 0)
    (made : (id : ℕ) (name : Text) → id < 2 ^ 64 → P (Client.new id name)) where
  read_client-All : (key : Text) (v : J) (c : Client) → read_client json key v ≡ some c → P c
  unfolding read_client
  read_client-All key v c e = elim (Option-cases (stoull key)) [
    | inl bad ↦ absurd (ground (arith, bad, e))
    | inr (id, read) ↦ elim (Option-cases (json.entry name_key v)) [
      | inl bad ↦ absurd (ground (arith, read, bad, e))
      | inr (name, named) ↦ elim (Option-cases (json.get_text name)) [
        | inl bad ↦ absurd (ground (arith, read, named, bad, e))
        | inr (text, is_text) ↦
            let same : Client.new id text ≡ c = ground (arith, read, named, is_text, e) in
            subst P same (made id text (stoull-lt key id read))
      ]
    ]
  ]

  read_clients-All :
      (items : List (Text × J)) (cs : List Client) → read_clients json items ≡ some cs → All P cs
  unfolding read_clients
  read_clients-All [] cs e = let same : [] ≡ cs = ground arith in subst (All P) same tt
  read_clients-All ((key, v) ∷ items) cs e = elim (Option-cases (read_client json key v)) [
    | inl bad ↦ absurd (ground (arith, bad, e))
    | inr (c, read) ↦ elim (Option-cases (read_clients json items)) [
      | inl bad ↦ absurd (ground (arith, read, bad, e))
      | inr (rest, reads) ↦
          let same : c ∷ rest ≡ cs = ground (arith, read, reads, e) in
          subst (All P) same (read_client-All key v c read, read_clients-All items rest reads)
    ]
  ]

  -- What holds of a client without messages and with an id of 64 bits holds of all that are loaded.
  pub load_clients-All : (f : File) → All P (load_clients json f).0
  unfolding load_clients
  load_clients-All f = elim (Option-cases f.content) [
    | inl missing ↦
        let same : [] ≡ (load_clients json f).0 = ground (arith, missing) in subst (All P) same tt
    | inr (text, there) ↦ elim (Option-cases (json.parse text)) [
      | inl bad ↦
          let same : [] ≡ (load_clients json f).0 = ground (arith, there, bad) in
          subst (All P) same tt
      | inr (j, parsed) ↦ elim (Option-cases (read_clients json (json.items j))) [
        | inl bad ↦
            let same : [] ≡ (load_clients json f).0 = ground (arith, there, parsed, bad) in
            subst (All P) same tt
        | inr (cs, read) ↦
            let same : cs ≡ (load_clients json f).0 = ground (arith, there, parsed, read) in
            subst (All P) same (read_clients-All (json.items j) cs read)
      ]
    ]
  ]

pub load_clients-HasSmallId :
    {J : Type 0} (json : Json J) (f : File) → All HasSmallId (load_clients json f).0
load_clients-HasSmallId json f =
    load_clients-All json HasSmallId (λ id name small. unfold Client.new in small) f

-- No message waits for a client that is loaded.
pub load_clients-buffer :
    {J : Type 0} (json : Json J) (Ok : Text → Type 0) (f : File)
    → All (λ c. All Ok c.buffer) (load_clients json f).0
load_clients-buffer json Ok f =
    load_clients-All json (λ c. All Ok c.buffer) (λ id name small. unfold Client.new in tt) f
