-- ===== src/ClientManager/Create.antt =====
-- `CreateClient`: the loop that draws an id ends while an id is free, and what the call then does.
use network_broker.Prelude.{
  ℕ, zero, suc, ◌+◌, ◌≤◌, ◌<◌, ◌≡◌, ◌≢◌, refl, Text, true, false, none, some, List, [], ◌∷◌,
  if◌then◌else◌, nat_eq, nat_beq, arith, Option-cases, Bool-cases, inl, inr, length,
}
use network_broker.Prelude.Assoc.{find, find-emplace}
use network_broker.Prelude.IdSet
use network_broker.Prelude.IdSet.{contains, NoRepeat, contains-erase}
use network_broker.Client
use network_broker.Client.{Client}
use network_broker.Repository.{ClientRepository}
use network_broker.ClientManager.{
  Clients, ClientManager, ClientsCodes, ok, internal_error, draw_id, create_client,
}

draw_id-fresh :
    (rolls : List ℕ) (clients : Clients) (id : ℕ)
    → draw_id rolls clients ≡ some id
    → (contains id rolls ≡ true) × (find id clients ≡ none)
unfolding draw_id contains
draw_id-fresh [] clients id e = cc
draw_id-fresh (r ∷ rolls) clients id e = elim (Option-cases (find r clients)) [
  | inl free ↦ ground (arith, free)
  | inr (c, taken) ↦ ground (arith, taken, draw_id-fresh rolls clients id)
]

draw_id-total :
    (rolls : List ℕ) (clients : Clients) (id : ℕ)
    → contains id rolls ≡ true
    → find id clients ≡ none
    → draw_id rolls clients ≢ none
unfolding draw_id contains
draw_id-total [] clients id there free e = cc
draw_id-total (r ∷ rolls) clients id there free e = elim (Option-cases (find r clients)) [
  | inl unused ↦ ground (arith, unused)
  | inr (c, taken) ↦ ground (arith, taken, draw_id-total rolls clients id)
]

erase-absent : (k : ℕ) (ids : List ℕ) → contains k ids ≡ false → IdSet.erase k ids ≡ ids
unfolding contains IdSet.erase
erase-absent k [] h = refl
erase-absent k (i ∷ ids) h = ground (arith, erase-absent k ids)

pub length-le-erase :
    (k : ℕ) (ids : List ℕ) → NoRepeat ids → length ids ≤ length (IdSet.erase k ids) + 1
unfolding IdSet.erase
length-le-erase k [] u = omega arith
length-le-erase k (i ∷ ids) u = elim (Bool-cases (nat_beq i k)) [
  | inl e ↦ ground (arith, e, erase-absent k ids)
  | inr e ↦ ground (arith, e, length-le-erase k ids u.1)
]

-- Among more distinct ids than there are clients one is free.
free_id :
    (clients : Clients) (ids : List ℕ)
    → NoRepeat ids
    → length clients < length ids
    → (id : ℕ) × (contains id ids ≡ true) × (find id clients ≡ none)
unfolding find contains
free_id [] [] u lt = absurd (omega arith)
free_id [] (i ∷ ids) u lt = (i, ground arith, refl)
free_id ((k, c) ∷ rest) ids u lt =
    let (id, there, free) =
      free_id rest (IdSet.erase k ids) (IdSet.erase-NoRepeat k ids u)
        (omega (arith, length-le-erase k ids u)) in
    (id, ground (arith, contains-erase k id ids), ground (arith, contains-erase k id ids))

-- The numbers that `uniform_int_distribution( 10000, 100000 )` can give.
abbrev pub count_from : ℕ → ℕ → List ℕ
count_from start zero = []
count_from start (suc n) = start ∷ count_from (suc start) n

count_from-above : (start n id : ℕ) → id < start → contains id (count_from start n) ≡ false
unfolding contains
count_from-above start zero id lt = refl
count_from-above start (suc n) id lt = ground (arith, count_from-above (suc start) n id)

count_from-NoRepeat : (start n : ℕ) → NoRepeat (count_from start n)
count_from-NoRepeat start zero = tt
count_from-NoRepeat start (suc n) =
    (count_from-above (suc start) n start (omega arith), count_from-NoRepeat (suc start) n)

length-count_from : (start n : ℕ) → length (count_from start n) ≡ n
length-count_from start zero = refl
length-count_from start (suc n) = omega (arith, length-count_from (suc start) n)

module _ {Db : Type 0} (repo : ClientRepository Db) where
  -- While fewer than `n` clients exist, draws that have given each of `n` consecutive numbers are
  -- enough: the loop ends and the call returns. `CreateClient` draws among 90001 numbers.
  pub create_client_returns :
      (name : Text) (rolls : List ℕ) (m : ClientManager Db) (start n : ℕ)
      → length m.clients < n
      → ((id : ℕ) → contains id (count_from start n) ≡ true → contains id rolls ≡ true)
      → create_client repo name rolls m ≢ none
  unfolding create_client
  create_client_returns name rolls m start n fewer covered e =
      let (id, there, free) =
        free_id m.clients (count_from start n) (count_from-NoRepeat start n)
          (omega (arith, length-count_from start n)) in
      ground (arith, draw_id-total rolls m.clients id (covered id there) free)

  -- A call that answers Ok has drawn an id that was free, has saved the new client under it, and has
  -- added that client and no other.
  pub create_client_ok :
      (name : Text) (rolls : List ℕ) (m m' : ClientManager Db)
      → create_client repo name rolls m ≡ some (ok, m')
      → (id : ℕ) × (contains id rolls ≡ true)
        × (find id m.clients ≡ none)
        × (repo.save_client (Client.new id name) m.db ≡ (true, m'.db))
        × ((k : ℕ)
            → find k m'.clients
              ≡ (if nat_beq id k then some (Client.new id name) else find k m.clients))
  unfolding create_client
  create_client_ok name rolls m m' e = elim (Option-cases (draw_id rolls m.clients)) [
    | inl stuck ↦ ground (arith, stuck)
    | inr (id, drawn) ↦
        let fresh = draw_id-fresh rolls m.clients id drawn in
        (
          id,
          fresh.0,
          fresh.1,
          ground (arith, drawn),
          λ k. ground (arith, drawn, find-emplace id k (Client.new id name) m.clients),
        )
  ]

  -- Any other answer is the store's refusal, and leaves the clients as they were.
  create_client_failed :
      (name : Text) (rolls : List ℕ) (m m' : ClientManager Db) (rc : ClientsCodes)
      → create_client repo name rolls m ≡ some (rc, m')
      → rc ≢ ok
      → (rc ≡ internal_error) × (m'.clients ≡ m.clients)
  unfolding create_client
  create_client_failed name rolls m m' rc e bad = ground arith
