-- ===== src/Repository/Refinement.antt =====
-- When one store behaves as another that specifies it: app/src/db/i_client_repository.h and
-- i_topic_repository.h. A call may also break the store, and is then not answered.
use network_broker.Prelude.{
  ℕ, ◌<◌, ◌^◌, ◌≡◌, ◌⊎◌, inl, inr, refl, sym, subst, Text, Bool, Option, none, some,
}
use network_broker.Client.{Client}
use network_broker.Repository.{ClientRepository, TopicRepository}

-- The store gives the answer of the specification, and the two are still related; or it is broken.
abbrev pub Follows :
    {Db Spec : Type 0} → (Db → Spec → Type 0) → (Db → Type 0) → Bool × Db → Bool × Spec → Type 0
Follows Rel Broken r s = ((r.0 ≡ s.0) × Rel r.1 s.1) ⊎ Broken r.1

-- A relation on results of which both are missing, or neither.
abbrev pub Both : {A B : Type 0} → (A → B → Type 0) → Option A → Option B → Type 0
Both P none none = Unit
Both P none (some b) = ⊥
Both P (some a) none = ⊥
Both P (some a) (some b) = P a b

module _ {A B : Type 0} (P : A → B → Type 0) (o : Option A) (o' : Option B) where
  pub Both-none : o ≡ none → o' ≡ none → Both P o o'
  Both-none e e' = subst (λ x. Both P x o') (sym e) (subst (Both P none) (sym e') tt)

  pub Both-some : (a : A) (b : B) → o ≡ some a → o' ≡ some b → P a b → Both P o o'
  Both-some a b e e' h = subst (λ x. Both P x o') (sym e) (subst (Both P (some a)) (sym e') h)

-- What `P` gives of two results that are there.
pub Both-elim :
    {A B : Type 0} (P : A → B → Type 0) (o : Option A) (o' : Option B)
    → Both P o o'
    → ((o ≡ none) × (o' ≡ none)) ⊎ ((a : A) × (b : B) × (o ≡ some a) × (o' ≡ some b) × P a b)
Both-elim P none none h = inl (refl, refl)
Both-elim P none (some b) h = absurd h
Both-elim P (some a) none h = absurd h
Both-elim P (some a) (some b) h = inr (a, b, refl, refl, h)

pub record ClientRefinement {Db Spec : Type 0} (repo : ClientRepository Db)
    (spec : ClientRepository Spec) : Type 1 where
  pub Rel : Db → Spec → Type 0
  pub Broken : Db → Type 0
  pub save_client :
      (c : Client) (d : Db) (s : Spec)
      → c.id < 2 ^ 64
      → Rel d s
      → Follows Rel Broken (repo.save_client c d) (spec.save_client c s)

pub record TopicRefinement {Db Spec : Type 0} (repo : TopicRepository Db)
    (spec : TopicRepository Spec) : Type 1 where
  pub Rel : Db → Spec → Type 0
  pub Broken : Db → Type 0
  pub save_topic :
      (topic : Text) (id : ℕ) (d : Db) (s : Spec)
      → id < 2 ^ 64
      → Rel d s
      → Follows Rel Broken (repo.save_topic topic id d) (spec.save_topic topic id s)
  pub create_topic :
      (topic : Text) (id : ℕ) (d : Db) (s : Spec)
      → id < 2 ^ 64
      → Rel d s
      → Follows Rel Broken (repo.create_topic topic id d) (spec.create_topic topic id s)
  pub remove_from_topic :
      (topic : Text) (id : ℕ) (d : Db) (s : Spec)
      → id < 2 ^ 64
      → Rel d s
      → Follows Rel Broken (repo.remove_from_topic topic id d) (spec.remove_from_topic topic id s)
