-- ===== src/Protocol/Parsing.antt =====
-- Reading a command: what passes the checks of `HandleCommand`, and that a printed request is read
-- back.
use mathlib.Core.Option.{some-injective}
use network_broker.Prelude.{
  ◌≡◌, refl, subst, Text, codes, is_empty, Bool, true, false, [], ◌∷◌, ◌++◌, inl, inr, arith,
  Option, ◌∙◌, if◌then◌else◌, Option-cases, none, some, text_eq,
}
use network_broker.Prelude.Assoc.{find}
use network_broker.Prelude.Streams.{
  space, IsLine, IsWord, getline, extract, extract-IsWord, IsLine-getline, getline-IsLine,
  extract-append, extract-whole,
}
use network_broker.Protocol.{
  Actions, login, register, subscribe, publish, create, unsubscribe, unlogin, Request, login_as,
  register_as, subscribe_to, create_topic, unsubscribe_from, publish_to, log_out, parse, interpret,
  dispatch_found, parse_publish, dispatch, commands, erase_first,
}

-- The command line of a request.
unfoldable pub print : Request → Text
print (login_as name) = codes "LOGIN" ++ space ∷ name
print (register_as name) = codes "REGISTER" ++ space ∷ name
print (subscribe_to topic) = codes "SUBSCRIBE" ++ space ∷ topic
print (create_topic topic) = codes "CREATE" ++ space ∷ topic
print (unsubscribe_from topic) = codes "UNSUBSCRIBE" ++ space ∷ topic
print (publish_to topic message) = codes "PUBLISH" ++ space ∷ (topic ++ space ∷ message)
print log_out = codes "UNLOGIN"

-- A request that a line can carry: a name or a topic is not empty and has no newline, and the topic of a
-- publication is a word. A message may be empty, and a name may be blanks.
abbrev pub IsPrintable : Request → Type 0
IsPrintable (login_as name) = (is_empty name ≡ false) × IsLine name
IsPrintable (register_as name) = (is_empty name ≡ false) × IsLine name
IsPrintable (subscribe_to topic) = (is_empty topic ≡ false) × IsLine topic
IsPrintable (create_topic topic) = (is_empty topic ≡ false) × IsLine topic
IsPrintable (unsubscribe_from topic) = (is_empty topic ≡ false) × IsLine topic
IsPrintable (publish_to topic message) = (is_empty topic ≡ false) × IsWord topic × IsLine message
IsPrintable log_out = Unit

IsLine-word : (w : Text) → IsWord w → IsLine w
IsLine-word [] h = tt
IsLine-word (c ∷ w) h = (ground arith, IsLine-word w h.1)

IsLine-append : (w r : Text) → IsLine w → IsLine r → IsLine (w ++ r)
IsLine-append [] r h k = k
IsLine-append (c ∷ w) r h k = (h.0, IsLine-append w r h.1 k)

getline-space : (r : Text) → IsLine r → getline (space ∷ r) ≡ space ∷ r
getline-space r h = getline-IsLine (space ∷ r) (refl, h)

-- A line that begins with a word and a space is the word's action on what follows the space.
parse-word :
    (w r : Text)
    → is_empty w ≡ false
    → IsWord w
    → IsLine r
    → parse (w ++ space ∷ r) ≡ dispatch_found (find w commands) r
unfolding parse
parse-word w r e h k = rw (extract-append w r e h, interpret) (rw (getline-space r k))

dispatch-publish :
    (topic message : Text)
    → IsPrintable (publish_to topic message)
    → dispatch Actions.publish (topic ++ space ∷ message) ≡ some (publish_to topic message)
unfolding dispatch
dispatch-publish [] message h = cc
dispatch-publish (c ∷ t) message h =
    ground (arith, extract-append (c ∷ t) message refl h.1, getline-space message h.2)

-- A printed request is read back as it was: one of LOGIN, REGISTER, SUBSCRIBE, CREATE and UNSUBSCRIBE with
-- a name or topic of at least one byte and no newline, though it be blanks, a PUBLISH with a word for its
-- topic and any message with no newline, also an empty one, or an UNLOGIN.
pub parse-print : (r : Request) → IsPrintable r → parse (print r) ≡ some r
unfolding print dispatch_found find
parse-print (login_as name) h =
    parse-word (codes "LOGIN") name refl (ground arith) h.1 ∙ ground arith
parse-print (register_as name) h =
    parse-word (codes "REGISTER") name refl (ground arith) h.1 ∙ ground arith
parse-print (subscribe_to topic) h =
    parse-word (codes "SUBSCRIBE") topic refl (ground arith) h.1 ∙ ground arith
parse-print (create_topic topic) h =
    parse-word (codes "CREATE") topic refl (ground arith) h.1 ∙ ground arith
parse-print (unsubscribe_from topic) h =
    parse-word (codes "UNSUBSCRIBE") topic refl (ground arith) h.1 ∙ ground arith
parse-print (publish_to topic message) h =
    parse-word (codes "PUBLISH") (topic ++ space ∷ message) refl (ground arith)
      (IsLine-append topic (space ∷ message) (IsLine-word topic h.1) (refl, h.2))
    ∙ dispatch-publish topic message h
parse-print log_out h = unfold parse in ground (arith, extract-whole (codes "UNLOGIN"))

IsLine-erase_first : (s : Text) → IsLine s → IsLine (erase_first s)
IsLine-erase_first [] h = tt
IsLine-erase_first (c ∷ s) h = h.1

guard-IsPrintable :
    (b : Bool) (q r : Request)
    → (if b then none else some q) ≡ some r
    → (b ≡ false → IsPrintable q)
    → IsPrintable r
guard-IsPrintable true q r e p = absurd (ground arith)
guard-IsPrintable false q r e p = subst IsPrintable (some-injective q r e) (p refl)

parse_publish-IsPrintable :
    (argument : Text) (r : Request) → parse_publish argument ≡ some r → IsPrintable r
unfolding parse_publish
parse_publish-IsPrintable argument r e = elim (Option-cases (extract argument)) [
  | inl e1 ↦ absurd (ground (arith, e1))
  | inr ((topic, rest), e1) ↦
      let word = extract-IsWord argument topic rest e1 in
      guard-IsPrintable (is_empty (getline rest)) (publish_to topic (erase_first (getline rest))) r
        (ground (arith, e1)) λ _. (word.0, word.1, IsLine-erase_first _ (IsLine-getline rest))
]

dispatch-IsPrintable :
    (a : Actions) (argument : Text) (r : Request)
    → IsLine argument
    → dispatch a argument ≡ some r
    → IsPrintable r
unfolding dispatch
dispatch-IsPrintable login argument r k e = guard-IsPrintable _ (login_as argument) r e λ h. (h, k)
dispatch-IsPrintable register argument r k e =
    guard-IsPrintable _ (register_as argument) r e λ h. (h, k)
dispatch-IsPrintable subscribe argument r k e =
    guard-IsPrintable _ (subscribe_to argument) r e λ h. (h, k)
dispatch-IsPrintable create argument r k e =
    guard-IsPrintable _ (create_topic argument) r e λ h. (h, k)
dispatch-IsPrintable unsubscribe argument r k e =
    guard-IsPrintable _ (unsubscribe_from argument) r e λ h. (h, k)
dispatch-IsPrintable publish argument r k e = parse_publish-IsPrintable argument r (ground arith)
dispatch-IsPrintable unlogin argument r k e = subst IsPrintable (some-injective log_out r e) tt

found-IsPrintable :
    (found : Option Actions) (argument : Text) (r : Request)
    → IsLine argument
    → dispatch_found found argument ≡ some r
    → IsPrintable r
unfolding dispatch_found
found-IsPrintable none argument r k e = absurd (ground arith)
found-IsPrintable (some a) argument r k e = dispatch-IsPrintable a argument r k e

interpret-IsPrintable :
    (read : Option (Text × Text)) (r : Request) → interpret read ≡ some r → IsPrintable r
unfolding interpret
interpret-IsPrintable none r e = absurd (ground arith)
interpret-IsPrintable (some (w, rest)) r e =
    found-IsPrintable (find w commands) (erase_first (getline rest)) r
      (IsLine-erase_first _ (IsLine-getline rest)) e

-- Whatever the line, a request that is read has passed the checks: its name or topic is not empty and
-- is one line, and the topic of a publication is a word.
pub IsPrintable-parse : (command : Text) (r : Request) → parse command ≡ some r → IsPrintable r
unfolding parse
IsPrintable-parse command r e = interpret-IsPrintable (extract command) r e
