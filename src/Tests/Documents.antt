-- ===== src/Tests/Documents.antt =====
-- The values as a library in the sense of the stores.
use network_broker.Prelude.{
  ◌≡◌, ◌∙◌, refl, ap, sym, Text, true, false, none, some, List, [], ◌∷◌, if◌then◌else◌, text_beq,
  text_eq, nat_beq, arith, All, Option-cases, inl, inr,
}
use network_broker.Json.{Json, JsonLaws, ArrayLaws, member}
use network_broker.Tests.Values.{
  Value, empty, string, field, number, nil, is_object, lookup, erase, items, contains, entry, set,
  get_text, is_array, elements, append, erase_value, get_number,
}
use network_broker.Tests.Values.Printing.{
  is_printable, print, parse, parse-print, parse_braces, parse_nothing,
}
use network_broker.Tests.Values.Fields.{
  lookup-erase, erase-is_object, find-items, items-lookup, lookup-is_object, append-elements,
  append-is_array, erase_value-elements, nil-elements,
}

abbrev pub documents : Json Value
documents = record {
  parse = parse;
  dump = λ v. if is_printable v then some (print v []) else none;
  object = empty;
  text = string;
  get_text = get_text;
  contains = contains;
  entry = entry;
  set = set;
  erase = λ key j. if is_object j then some (erase key j) else none;
  items = items;
  is_object = is_object;
  array = nil;
  is_array = is_array;
  elements = elements;
  push_back = λ v a. if is_array a then some (append v a) else none;
  erase_at = λ n a. if is_array a then some (erase_value n a) else none;
  number = number;
  get_number = get_number;
  equals = λ k v. elim (get_number v) [ none ↦ false | some n ↦ nat_beq n k ];
}

member-lookup : (key : Text) (j : Value) → member documents key j ≡ lookup key j
unfolding member
member-lookup key j = ground arith

items-member :
    (l : List (Text × Value)) (j : Value)
    → All (λ i. lookup i.0 j ≡ some i.1) l
    → All (λ i. member documents i.0 j ≡ some i.1) l
items-member [] j h = tt
items-member ((k, v) ∷ l) j h = (member-lookup k j ∙ h.0, items-member l j h.1)

dump-parse : (j : Value) (t : Text) → documents.dump j ≡ some t → parse t ≡ some j
dump-parse j t e =
    let printed : print j [] ≡ t = ground (arith, e) in ap parse (sym printed) ∙ parse-print j

contains-entry :
    (key : Text) (j : Value) → contains key j ≡ true → (v : Value) × (entry key j ≡ some v)
contains-entry key j e = elim (Option-cases (lookup key j)) [
  | inl none_there ↦ absurd (ground (arith, e, none_there))
  | inr (v, there) ↦ (v, ground (arith, there))
]

contains-empty : (key : Text) → contains key empty ≡ false
unfolding lookup
contains-empty key = refl

set-member :
    (key : Text) (v j : Value)
    → is_object j ≡ true
    → (j' : Value) × (set key v j ≡ some j')
      × (is_object j' ≡ true)
      × ((k : Text)
          → member documents k j' ≡ (if text_beq key k then some v else member documents k j))
unfolding set lookup
set-member key v j e = (
  field key v (erase key j),
  ground (arith, e),
  refl,
  λ k.
      member-lookup k (field key v (erase key j))
      ∙ ground (arith, lookup-erase key k j, member-lookup k j),
)

erase-member :
    (key : Text) (j : Value)
    → is_object j ≡ true
    → (j' : Value) × (documents.erase key j ≡ some j')
      × (is_object j' ≡ true)
      × ((k : Text)
          → member documents k j' ≡ (if text_beq key k then none else member documents k j))
erase-member key j e = (
  erase key j,
  ground (arith, e),
  erase-is_object key j,
  λ k. member-lookup k (erase key j) ∙ ground (arith, lookup-erase key k j, member-lookup k j),
)

pub documents-JsonLaws : JsonLaws documents
documents-JsonLaws = record {
  contains_object = lookup-is_object;
  contains_entry = λ key j e. contains-entry key j e;
  object_empty = (refl, λ key. contains-empty key);
  set_member = set-member;
  erase_member = erase-member;
  items_find = λ key j e. find-items key j ∙ sym (member-lookup key j);
  items_member = λ j e. items-member (items j) j (items-lookup j);
  get_text_text = λ t. refl;
  parse_dump = λ j t d e. dump-parse j t e;
  parse_braces = parse_braces;
  parse_nothing = parse_nothing;
}

pub documents-ArrayLaws : ArrayLaws documents
documents-ArrayLaws = record {
  array_empty = (refl, nil-elements);
  push_back_elements =
      λ v a e. (append v a, ground (arith, e), append-is_array v a, append-elements v a);
  erase_at_elements = λ n a e h. (
    erase_value n a,
    ground (arith, e),
    (erase_value-elements n a).0,
    (erase_value-elements n a).1,
  );
  equals_number = λ n k hn hk. refl;
  get_number_number = λ n h. refl;
}
