-- ===== src/Protocol/Answers.antt =====
-- The answers of the broker, as lines.
use network_broker.Prelude.{◌≡◌, refl, [], ◌∷◌, ◌++◌, arith}
use network_broker.Prelude.Streams.{newline, IsLine, getline}
use network_broker.Protocol.{BrokerCodes, code_to_string}

-- An answer is one line: it has no newline but its last byte.
pub code_to_string-IsLine :
    (rc : BrokerCodes)
    → (code_to_string rc ≡ getline (code_to_string rc) ++ newline ∷ [])
      × IsLine (getline (code_to_string rc))
unfolding code_to_string getline
code_to_string-IsLine BrokerCodes.ok = (refl, ground arith)
code_to_string-IsLine _ = (refl, ground arith)
