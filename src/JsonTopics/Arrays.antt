-- ===== src/JsonTopics/Arrays.antt =====
-- Arrays of ids: where `std::find` finds an id, and what `erase` leaves.
use network_broker.Prelude.{
  ℕ, suc, ◌≡◌, ◌<◌, ◌^◌, refl, true, false, none, some, List, [], ◌∷◌, map, length, All, arith,
  Bool-cases, inl, inr, nat_beq, nat_beq_iff, subst, ap, sym, ◌++◌, ◌||◌, ◌∙◌, All-append,
}
use network_broker.Prelude.IdSet
use network_broker.Prelude.IdSet.{
  contains, NoRepeat, contains-insert, contains-erase, erase-NoRepeat,
}
use network_broker.Json.{Json, ArrayLaws, remove_at}
use network_broker.JsonTopics.{position}

-- 64-bit numbers.
abbrev pub AreIds : List ℕ → Type 0
AreIds = All (λ k. k < 2 ^ 64)

erase_absent : (id : ℕ) (ids : List ℕ) → contains id ids ≡ false → IdSet.erase id ids ≡ ids
unfolding contains IdSet.erase
erase_absent id [] h = refl
erase_absent id (b ∷ s) h = ground (arith, erase_absent id s)

erase-AreIds : (id : ℕ) (ids : List ℕ) → AreIds ids → AreIds (IdSet.erase id ids)
unfolding IdSet.erase
erase-AreIds id [] h = tt
erase-AreIds id (b ∷ s) h = ground (arith, erase-AreIds id s h.1)

contains-snoc :
    (id k : ℕ) (ids : List ℕ) → contains k (ids ++ id ∷ []) ≡ (contains k ids || nat_beq id k)
unfolding contains
contains-snoc id k [] = ground arith
contains-snoc id k (b ∷ s) = ground (arith, contains-snoc id k s)

NoRepeat-snoc :
    (id : ℕ) (ids : List ℕ) → contains id ids ≡ false → NoRepeat ids → NoRepeat (ids ++ id ∷ [])
unfolding contains
NoRepeat-snoc id [] absent once = (refl, tt)
NoRepeat-snoc id (b ∷ s) absent once = (
  ground (arith, contains-snoc id b s, once.0, absent, nat_beq_iff id b, nat_beq_iff b id),
  NoRepeat-snoc id s (ground (arith, absent)) once.1,
)

map-snoc {ℓ κ} :
    {A : Type ℓ} {B : Type κ} (f : A → B) (x : A) (xs : List A)
    → map f xs ++ f x ∷ [] ≡ map f (xs ++ x ∷ [])
map-snoc f x [] = refl
map-snoc f x (y ∷ ys) = ap (λ l. f y ∷ l) (map-snoc f x ys)

module _ {J : Type 0} (json : Json J) (laws : ArrayLaws json) where
  position_absent :
      (id : ℕ) (ids : List ℕ)
      → id < 2 ^ 64
      → AreIds ids
      → contains id ids ≡ false
      → position (json.equals id) (map json.number ids) ≡ none
  unfolding position contains
  position_absent id [] small h absent = refl
  position_absent id (b ∷ s) small h absent =
      ground (arith, position_absent id s small h.1, laws.equals_number b id h.0 small)

  position_present :
      (id : ℕ) (ids : List ℕ)
      → id < 2 ^ 64
      → AreIds ids
      → NoRepeat ids
      → contains id ids ≡ true
      → (n : ℕ) × (position (json.equals id) (map json.number ids) ≡ some n)
        × (n < length (map json.number ids))
        × (remove_at n (map json.number ids) ≡ map json.number (IdSet.erase id ids))
  unfolding position contains remove_at IdSet.erase
  position_present id [] small h once present = absurd (ground arith)
  position_present id (b ∷ s) small h once present = elim (Bool-cases (nat_beq b id)) [
    | inl e ↦
        let same : b ≡ id = (nat_beq_iff b id).0 e in
        let absent : contains id s ≡ false = subst (λ k. contains k s ≡ false) same once.0 in
        (
          0,
          ground
              (arith, e, position_absent id s small h.1 absent, laws.equals_number b id h.0 small),
          omega arith,
          ground (arith, e, erase_absent id s absent),
        )
    | inr e ↦
        let (n, found, inside, left) =
          position_present id s small h.1 once.1 (ground (arith, present, e)) in
        (
          suc n,
          ground (arith, e, found, laws.equals_number b id h.0 small),
          omega (arith, inside),
          ground (arith, e, left),
        )
  ]

  -- An array whose elements are the ids of a set, each once and in any order.
  pub record IsIds (a : J) (set : List ℕ) : Type 0 where
    pub ids : List ℕ
    pub array : json.is_array a ≡ true
    pub elements : json.elements a ≡ map json.number ids
    pub small : AreIds ids
    pub once : NoRepeat ids
    pub same : (k : ℕ) → contains k ids ≡ contains k set

  pub push_back-IsIds :
      (a : J) (set : List ℕ) (id : ℕ)
      → IsIds a set
      → id < 2 ^ 64
      → contains id set ≡ false
      → (position (json.equals id) (json.elements a) ≡ none)
        × ((a' : J) × (json.push_back (json.number id) a ≡ some a')
            × IsIds a' (IdSet.insert id set))
  push_back-IsIds a set id r small absent =
      let absent' : contains id r.ids ≡ false = r.same id ∙ absent in
      let (a', pushed, array', elements') = laws.push_back_elements (json.number id) a r.array in
      (
        ap (position (json.equals id)) r.elements ∙ position_absent id r.ids small r.small absent',
        (
          a',
          pushed,
          record {
            ids = r.ids ++ id ∷ [];
            array = array';
            elements =
                elements'
                ∙ ap (λ l. l ++ json.number id ∷ []) r.elements
                ∙ map-snoc json.number id r.ids;
            small = All-append (λ k. k < 2 ^ 64) r.ids (id ∷ []) r.small (small, tt);
            once = NoRepeat-snoc id r.ids absent' r.once;
            same =
                λ k. ground (arith, contains-snoc id k r.ids, contains-insert id k set, r.same k);
          },
        ),
      )

  pub erase_at-IsIds :
      (a : J) (set : List ℕ) (id : ℕ)
      → IsIds a set
      → id < 2 ^ 64
      → contains id set ≡ true
      → (n : ℕ) × (a' : J) × (position (json.equals id) (json.elements a) ≡ some n)
        × (json.erase_at n a ≡ some a')
        × IsIds a' (IdSet.erase id set)
  erase_at-IsIds a set id r small present =
      let (n, found, inside, left) =
        position_present id r.ids small r.small r.once (r.same id ∙ present) in
      let inside' : n < length (json.elements a) =
        subst (λ l. n < length l) (sym r.elements) inside in
      let (a', erased, array', elements') = laws.erase_at_elements n a r.array inside' in
      (
        n,
        a',
        ap (position (json.equals id)) r.elements ∙ found,
        erased,
        record {
          ids = IdSet.erase id r.ids;
          array = array';
          elements = elements' ∙ ap (remove_at n) r.elements ∙ left;
          small = erase-AreIds id r.ids r.small;
          once = erase-NoRepeat id r.ids r.once;
          same = λ k. ground (arith, contains-erase id k r.ids, contains-erase id k set, r.same k);
        },
      )
