-- ===== src/ClientManager/Capacity.antt =====
-- How many clients there can be, when their ids come from a range, and what `CreateClient` does once
-- all ids are taken.
use network_broker.Prelude.{
  ℕ, zero, suc, ◌+◌, ◌≤◌, ◌<◌, ◌≡◌, refl, subst, Text, false, none, List, [], ◌∷◌, All, arith,
  nat_eq, nat_beq, length, Option-cases, Bool-cases, inl, inr,
}
use network_broker.Prelude.Assoc.{find}
use network_broker.Prelude.IdSet
use network_broker.Prelude.IdSet.{contains, contains-erase, NoRepeat, erase-NoRepeat}
use network_broker.Repository.{ClientRepository}
use network_broker.ClientManager.{Clients, ClientManager, draw_id, create_client}
use network_broker.ClientManager.Create.{length-le-erase}
use network_broker.ClientManager.Ids.{ids}
use network_broker.ClientManager.Invariant.{WellFormed}

-- One of so many ids from the first on.
pub record InRange (first count id : ℕ) : Type 0 where
  pub low : first ≤ id
  pub high : id < first + count

erase-InRange :
    (first n : ℕ) (s : List ℕ)
    → All (InRange first (suc n)) s
    → All (InRange first n) (IdSet.erase (first + n) s)
unfolding IdSet.erase
erase-InRange first n [] all = tt
erase-InRange first n (a ∷ s) all =
    let rest = erase-InRange first n s all.1 in
    let here = all.0 in
    elim (Bool-cases (nat_beq a (first + n))) [
      | inl e ↦
          let same : IdSet.erase (first + n) s ≡ IdSet.erase (first + n) (a ∷ s) =
            ground (arith, e) in
          subst (All (InRange first n)) same rest
      | inr e ↦
          let same : a ∷ IdSet.erase (first + n) s ≡ IdSet.erase (first + n) (a ∷ s) =
            ground (arith, e) in
          let low : first ≤ a = here.low in
          let high : a < first + n = let h = here.high in ground (arith, e, h) in
          subst (All (InRange first n)) same (record { low = low; high = high }, rest)
    ]

-- Ids that do not repeat are no more than the range has.
length-le-range : (first n : ℕ) (s : List ℕ) → NoRepeat s → All (InRange first n) s → length s ≤ n
length-le-range first zero [] distinct all = omega arith
length-le-range first zero (a ∷ s) distinct all =
    let h = all.0 in absurd (omega (arith, h.low, h.high))
length-le-range first (suc n) s distinct all = omega (
  arith,
  length-le-erase (first + n) s distinct,
  length-le-range first n (IdSet.erase (first + n) s) (erase-NoRepeat (first + n) s distinct)
      (erase-InRange first n s all),
)

contains-ids :
    (id : ℕ) (clients : Clients) → find id clients ≡ none → contains id (ids clients) ≡ false
unfolding find contains ids
contains-ids id [] e = refl
contains-ids id ((j, c) ∷ clients) e = ground (arith, contains-ids id clients)

ids-NoRepeat : (clients : Clients) → WellFormed clients → NoRepeat (ids clients)
unfolding ids
ids-NoRepeat [] w = tt
ids-NoRepeat ((j, c) ∷ clients) w = (contains-ids j clients w.1, ids-NoRepeat clients w.2)

length-ids : (clients : Clients) → length (ids clients) ≡ length clients
unfolding ids
length-ids [] = refl
length-ids ((j, c) ∷ clients) = omega (arith, length-ids clients)

-- A well-formed table of clients with ids in a range has no more clients than the range has ids.
pub length_clients :
    (first n : ℕ) (clients : Clients)
    → WellFormed clients
    → All (InRange first n) (ids clients)
    → length clients ≤ n
length_clients first n clients w all =
    omega (
      arith,
      length-ids clients,
      length-le-range first n (ids clients) (ids-NoRepeat clients w) all,
    )

-- With so many clients every id of the range is taken.
find_taken :
    (first n id : ℕ) (clients : Clients)
    → WellFormed clients
    → All (InRange first n) (ids clients)
    → length clients ≡ n
    → InRange first n id
    → find id clients ≡ none
    → ⊥
find_taken first n id clients w all full range free =
    let more =
      length-le-range first n (id ∷ ids clients)
        (contains-ids id clients free, ids-NoRepeat clients w) (range, all) in
    omega (arith, more, full, length-ids clients)

draw_id-full :
    (first n : ℕ) (rolls : List ℕ) (clients : Clients)
    → WellFormed clients
    → All (InRange first n) (ids clients)
    → length clients ≡ n
    → All (InRange first n) rolls
    → draw_id rolls clients ≡ none
unfolding draw_id
draw_id-full first n [] clients w all full rolled = refl
draw_id-full first n (roll ∷ rolls) clients w all full rolled =
    elim (Option-cases (find roll clients)) [
      | inl free ↦ absurd (find_taken first n roll clients w all full rolled.0 free)
      | inr (c, taken) ↦
          ground (arith, taken, draw_id-full first n rolls clients w all full rolled.1)
    ]

-- When there are as many clients as the generator has ids, all of them in its range, `CreateClient`
-- never ends its loop: whatever it draws, and however often, it goes on drawing.
pub create_client-full :
    {Db : Type 0} (repo : ClientRepository Db) (first n : ℕ) (name : Text) (rolls : List ℕ)
    (m : ClientManager Db)
    → WellFormed m.clients
    → All (InRange first n) (ids m.clients)
    → length m.clients ≡ n
    → All (InRange first n) rolls
    → create_client repo name rolls m ≡ none
unfolding create_client
create_client-full repo first n name rolls m w all full rolled =
    let stuck = draw_id-full first n rolls m.clients w all full rolled in ground (arith, stuck)
