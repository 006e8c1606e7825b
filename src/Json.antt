-- ===== src/Json.antt =====
-- What app/src/db calls of nlohmann::json, and the files that its stores keep. The library is a
-- parameter: a type of values with the operations, of which `none` is an exception.
use network_broker.Prelude.Assoc.{find}
use network_broker.Prelude.{
  nat_beq, ◌^◌, length, suc, ◌<◌, ◌∷◌, ℕ, ◌++◌, zero, All, text_eq, ◌≡◌, Text, codes, Bool, true,
  false, not, Option, none, some, List, [], if◌then◌else◌, text_beq,
}

pub record Json (J : Type 0) : Type 0 where
  -- file >> json, and json.dump( 4 )
  pub parse : Text → Option J
  pub dump : J → Option Text
  pub object : J
  pub text : Text → J
  pub get_text : J → Option Text
  pub contains : Text → J → Bool
  -- json[ key ], read: null where there is no such key
  pub entry : Text → J → Option J
  -- json[ key ] = value
  pub set : Text → J → J → Option J
  pub erase : Text → J → Option J
  pub items : J → List (Text × J)
  pub is_object : J → Bool
  pub array : J
  pub is_array : J → Bool
  -- The values from begin() to end(): none where the value is null.
  pub elements : J → List J
  pub push_back : J → J → Option J
  -- json.erase( begin() + n )
  pub erase_at : ℕ → J → Option J
  pub number : ℕ → J
  pub get_number : J → Option ℕ
  -- json == id
  pub equals : ℕ → J → Bool

-- The list without its element at a position.
unfoldable pub remove_at {ℓ} : {A : Type ℓ} → ℕ → List A → List A
remove_at n [] = []
remove_at zero (x ∷ xs) = xs
remove_at (suc n) (x ∷ xs) = x ∷ remove_at n xs

module _ {J : Type 0} (json : Json J) where
  -- The value that stands under a key.
  unfoldable pub member : Text → J → Option J
  member key j = if json.contains key j then json.entry key j else none

  -- The values that a text can hold, by how they come about: they are read from a text, or made of others
  -- by the operations. A number that is not finite or a binary value is none of them.
  pub data IsDocument : J → Type 0 where
    is_parsed : {j : J} (t : Text) → json.parse t ≡ some j → IsDocument j
    is_object : IsDocument json.object
    is_text : (t : Text) → IsDocument (json.text t)
    is_array : IsDocument json.array
    is_number : (n : ℕ) → n < 2 ^ 64 → IsDocument (json.number n)
    is_entry : {j v : J} (key : Text) → IsDocument j → json.entry key j ≡ some v → IsDocument v
    is_set :
        {v j j' : J} (key : Text)
        → IsDocument v
        → IsDocument j
        → json.set key v j ≡ some j'
        → IsDocument j'
    is_erased : {j j' : J} (key : Text) → IsDocument j → json.erase key j ≡ some j' → IsDocument j'
    is_pushed :
        {v a a' : J} → IsDocument v → IsDocument a → json.push_back v a ≡ some a' → IsDocument a'
    is_erased_at : {a a' : J} (n : ℕ) → IsDocument a → json.erase_at n a ≡ some a' → IsDocument a'

  -- What the documentation of the library says of objects and of files. Of the keys that `items` gives it
  -- is about objects alone: those of an array are positions, and that of another value is empty. A value
  -- stands for all that the library does not tell apart once they are printed, as a zero with a sign type
  -- and one without.
  pub record JsonLaws : Type 0 where
    pub contains_object :
        (key : Text) (j : J) → json.contains key j ≡ true → json.is_object j ≡ true
    pub contains_entry :
        (key : Text) (j : J) → json.contains key j ≡ true → (v : J) × (json.entry key j ≡ some v)
    pub object_empty :
        (json.is_object json.object ≡ true) × ((key : Text) → json.contains key json.object ≡ false)
    pub set_member :
        (key : Text) (v j : J)
        → json.is_object j ≡ true
        → (j' : J) × (json.set key v j ≡ some j')
          × (json.is_object j' ≡ true)
          × ((k : Text) → member k j' ≡ (if text_beq key k then some v else member k j))
    pub erase_member :
        (key : Text) (j : J)
        → json.is_object j ≡ true
        → (j' : J) × (json.erase key j ≡ some j')
          × (json.is_object j' ≡ true)
          × ((k : Text) → member k j' ≡ (if text_beq key k then none else member k j))
    pub items_find :
        (key : Text) (j : J) → json.is_object j ≡ true → find key (json.items j) ≡ member key j
    pub items_member :
        (j : J) → json.is_object j ≡ true → All (λ i. member i.0 j ≡ some i.1) (json.items j)
    pub get_text_text : (t : Text) → json.get_text (json.text t) ≡ some t
    pub parse_dump :
        (j : J) (t : Text) → IsDocument j → json.dump j ≡ some t → json.parse t ≡ some j
    pub parse_braces : json.parse (codes "{}") ≡ some json.object
    pub parse_nothing : json.parse [] ≡ none

  -- What it says of arrays, and of 64-bit numbers.
  pub record ArrayLaws : Type 0 where
    pub array_empty : (json.is_array json.array ≡ true) × (json.elements json.array ≡ [])
    pub push_back_elements :
        (v a : J)
        → json.is_array a ≡ true
        → (a' : J) × (json.push_back v a ≡ some a')
          × (json.is_array a' ≡ true)
          × (json.elements a' ≡ json.elements a ++ v ∷ [])
    pub erase_at_elements :
        (n : ℕ) (a : J)
        → json.is_array a ≡ true
        → n < length (json.elements a)
        → (a' : J) × (json.erase_at n a ≡ some a')
          × (json.is_array a' ≡ true)
          × (json.elements a' ≡ remove_at n (json.elements a))
    pub equals_number :
        (n k : ℕ) → n < 2 ^ 64 → k < 2 ^ 64 → json.equals k (json.number n) ≡ nat_beq n k
    pub get_number_number : (n : ℕ) → n < 2 ^ 64 → json.get_number (json.number n) ≡ some n

-- A file: `none` is a file that is not there, or cannot be opened to be read.
pub record File : Type 0 where
  pub content : Option Text
  pub is_writable : Bool

-- The file is opened to be written, which empties it, and then gets its text. An exception on the way
-- to the text, here `none`, leaves it empty.
unfoldable pub write : Option Text → File → Option Bool × File
write out f = if not f.is_writable then (some false, f) else elim out [
  | none ↦ (none, record f { content = some [] })
  | some text ↦ (some true, record f { content = some text })
]
