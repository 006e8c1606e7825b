-- ===== src/Tests/Commands.antt =====
-- Lines of the protocol.
use network_broker.Prelude.{◌≡◌, refl, [], codes, some, none, arith}
use network_broker.Prelude.Streams.{getline, skip_space, split_word, extract}
use network_broker.Prelude.Assoc.{find}
use network_broker.Protocol.{publish_to, login_as, log_out, parse, code_to_string, BrokerCodes}
use network_broker.Protocol.Parsing.{print, parse-print}

-- White space before the action and inside a message is kept apart as the code does.
parse-some :
    (parse (codes "  PUBLISH news hello  world")
      ≡ some (publish_to (codes "news") (codes "hello  world")))
    × (parse (codes "UNLOGIN now") ≡ some log_out)
    × (parse (codes "login bob") ≡ none)
    × (parse (codes "LOGIN ") ≡ none)
    × (parse (codes "PUBLISH news") ≡ none)
    × (parse (codes " ") ≡ none)
unfolding parse extract skip_space split_word getline find
parse-some = (refl, refl, refl, refl, refl, refl)

-- A message that is missing behind the space, and a name of one space, are not invalid.
parse_blank :
    (parse (codes "PUBLISH t ") ≡ some (publish_to (codes "t") []))
    × (parse (codes "LOGIN  ") ≡ some (login_as (codes " ")))
unfolding parse extract skip_space split_word getline find
parse_blank = (refl, refl)

-- A topic that is there already and a subscription that is not are both answered as internal errors.
answers_shared :
    (code_to_string BrokerCodes.topic_already_exists ≡ code_to_string BrokerCodes.internal_error)
    × (code_to_string BrokerCodes.not_subscribed ≡ code_to_string BrokerCodes.internal_error)
unfolding code_to_string
answers_shared = (refl, refl)

parse-print_example :
    parse (print (publish_to (codes "news") (codes "hello world")))
    ≡ some (publish_to (codes "news") (codes "hello world"))
parse-print_example =
    parse-print (publish_to (codes "news") (codes "hello world")) (refl, ground arith, ground arith)
