-- ===== src/Protocol.antt =====
-- app/src/broker/rc.h, and the parts of message_broker.cpp that read a command and print an answer:
-- `CodeToString`, the table of commands, and `HandleCommand` up to its calls.
pub mod Parsing
pub mod Answers
use network_broker.Prelude.{
  nat_beq, Bool, ℕ, Text, codes, is_empty, Option, none, some, [], ◌∷◌, if◌then◌else◌, text_eq,
}
use network_broker.Prelude.Assoc.{Assoc, find}
use network_broker.Prelude.Streams.{extract, getline}
use network_broker.ClientManager.{ClientsCodes}
use network_broker.Topics.{TopicCodes}

pub data BrokerCodes : Type 0 where
  ok client_already_exists client_not_found client_already_connected : BrokerCodes
  topic_already_exists topic_not_found already_subscribed not_subscribed : BrokerCodes
  invalid_command unauthorized internal_error unloged : BrokerCodes

-- The numbers of the enumerators, through which `static_cast` goes.
abbrev pub value : BrokerCodes → ℕ
value BrokerCodes.ok = 0
value BrokerCodes.client_already_exists = 1
value BrokerCodes.client_not_found = 2
value BrokerCodes.client_already_connected = 3
value BrokerCodes.topic_already_exists = 4
value BrokerCodes.topic_not_found = 5
value BrokerCodes.already_subscribed = 10
value BrokerCodes.not_subscribed = 6
value BrokerCodes.invalid_command = 7
value BrokerCodes.unauthorized = 8
value BrokerCodes.internal_error = 9
value BrokerCodes.unloged = 11

abbrev pub clients_value : ClientsCodes → ℕ
clients_value ClientsCodes.ok = 0
clients_value ClientsCodes.client_already_exists = 1
clients_value ClientsCodes.client_not_found = 2
clients_value ClientsCodes.client_already_connected = 3
clients_value ClientsCodes.unauthorized = 8
clients_value ClientsCodes.internal_error = 9

abbrev pub topics_value : TopicCodes → ℕ
topics_value TopicCodes.ok = 0
topics_value TopicCodes.topic_already_exists = 4
topics_value TopicCodes.topic_not_found = 5
topics_value TopicCodes.already_subscribed = 10
topics_value TopicCodes.not_subscribed = 6
topics_value TopicCodes.internal_error = 9

-- static_cast< BrokerCodes >
abbrev pub of_clients : ClientsCodes → BrokerCodes
of_clients ClientsCodes.ok = BrokerCodes.ok
of_clients ClientsCodes.client_already_exists = BrokerCodes.client_already_exists
of_clients ClientsCodes.client_not_found = BrokerCodes.client_not_found
of_clients ClientsCodes.client_already_connected = BrokerCodes.client_already_connected
of_clients ClientsCodes.unauthorized = BrokerCodes.unauthorized
of_clients ClientsCodes.internal_error = BrokerCodes.internal_error

abbrev pub of_topics : TopicCodes → BrokerCodes
of_topics TopicCodes.ok = BrokerCodes.ok
of_topics TopicCodes.topic_already_exists = BrokerCodes.topic_already_exists
of_topics TopicCodes.topic_not_found = BrokerCodes.topic_not_found
of_topics TopicCodes.already_subscribed = BrokerCodes.already_subscribed
of_topics TopicCodes.not_subscribed = BrokerCodes.not_subscribed
of_topics TopicCodes.internal_error = BrokerCodes.internal_error

unfoldable pub code_to_string : BrokerCodes → Text
code_to_string BrokerCodes.ok = codes "OK\n"
code_to_string BrokerCodes.client_not_found = codes "ERROR Client not found\n"
code_to_string BrokerCodes.client_already_exists = codes "ERROR Client already exists\n"
code_to_string BrokerCodes.client_already_connected = codes "ERROR Client already connected\n"
code_to_string BrokerCodes.invalid_command = codes "ERROR Invalid command\n"
code_to_string BrokerCodes.topic_not_found = codes "ERROR Topic not found\n"
code_to_string BrokerCodes.already_subscribed = codes "ERROR Already subscribed\n"
code_to_string BrokerCodes.unauthorized = codes "ERROR You are unauthorized\n"
code_to_string BrokerCodes.unloged = codes "SUCCESS You are unloged\n"
code_to_string BrokerCodes.topic_already_exists = codes "ERROR Internal error\n"
code_to_string BrokerCodes.not_subscribed = codes "ERROR Internal error\n"
code_to_string BrokerCodes.internal_error = codes "ERROR Internal error\n"

pub data Actions : Type 0 where
  publish subscribe login register create unsubscribe unlogin : Actions

abbrev pub commands : Assoc Text Actions
commands =
    (codes "LOGIN", login)
    ∷ (codes "REGISTER", register)
    ∷ (codes "PUBLISH", publish)
    ∷ (codes "SUBSCRIBE", subscribe)
    ∷ (codes "CREATE", create)
    ∷ (codes "UNSUBSCRIBE", unsubscribe)
    ∷ (codes "UNLOGIN", unlogin)
    ∷ []

-- text.erase( 0, 1 ) where the text is not empty.
abbrev pub erase_first : Text → Text
erase_first [] = []
erase_first (c ∷ s) = s

-- What `HandleCommand` calls once a line has passed its checks.
pub data Request : Type 0 where
  login_as register_as subscribe_to create_topic unsubscribe_from : Text → Request
  publish_to : Text → Text → Request
  log_out : Request

-- The checks of the PUBLISH case: a topic and a message that is not empty before its first byte goes.
unfoldable pub parse_publish : Text → Option Request
parse_publish argument = elim (extract argument) [
  | none ↦ none
  | some (topic, rest) ↦
      let message = getline rest in
      if is_empty message then none else some (publish_to topic (erase_first message))
]

-- The switch of `HandleCommand`, up to its calls; `none` is an invalid command.
unfoldable pub dispatch : Actions → Text → Option Request
unfolding parse_publish
dispatch login argument = if is_empty argument then none else some (login_as argument)
dispatch register argument = if is_empty argument then none else some (register_as argument)
dispatch subscribe argument = if is_empty argument then none else some (subscribe_to argument)
dispatch publish argument = if is_empty argument then none else parse_publish argument
dispatch create argument = if is_empty argument then none else some (create_topic argument)
dispatch unsubscribe argument = if is_empty argument then none else some (unsubscribe_from argument)
dispatch unlogin argument = some log_out

-- What the search in the table of commands found, with the argument.
unfoldable pub dispatch_found : Option Actions → Text → Option Request
unfolding dispatch
dispatch_found none argument = none
dispatch_found (some a) argument = dispatch a argument

-- What `iss >> action` read, with the rest of the stream.
unfoldable pub interpret : Option (Text × Text) → Option Request
unfolding dispatch_found
interpret none = none
interpret (some (action, rest)) =
    let argument = erase_first (getline rest) in dispatch_found (find action commands) argument

unfoldable pub parse : Text → Option Request
unfolding interpret
parse command = interpret (extract command)

-- rc == code
abbrev pub same_code : BrokerCodes → BrokerCodes → Bool
same_code a b = nat_beq (value a) (value b)
