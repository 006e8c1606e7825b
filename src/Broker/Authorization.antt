-- ===== src/Broker/Authorization.antt =====
-- Who may do what: the requests that need a client, and what a request may change.
use network_broker.Prelude.{
  ◌⊎◌, ℕ, ◌≡◌, ◌≢◌, subst, Text, Bool, true, false, some, List, [], ◌∷◌, ◌++◌, nat_eq, text_eq,
  arith, Option-cases, inl, inr,
}
use network_broker.Prelude.Assoc.{find}
use network_broker.Prelude.Streams.{newline, IsLine, getline}
use network_broker.Session.{invalid_session_id}
use network_broker.Client
use network_broker.Client.{Client, Heap, SessionWeakPtr}
use network_broker.ClientManager
use network_broker.ClientManager.{ClientManager, ClientsCodes}
use network_broker.ClientManager.Bindings.{get_client_id_unbound}
use network_broker.ClientManager.Invariant.{WellFormed}
use network_broker.Repository.{ClientRepository, TopicRepository}
use network_broker.Protocol.{
  BrokerCodes, unauthorized, invalid_command, Request, login_as, register_as, subscribe_to,
  create_topic, unsubscribe_from, publish_to, log_out, parse, code_to_string,
}
use network_broker.Protocol.Answers.{code_to_string-IsLine}
use network_broker.Broker.{
  World, login, register, subscribe, create, unsubscribe, publish, unlogin, perform, handle_command,
}

-- The requests of a client that is logged in.
abbrev pub needs_client : Request → Bool
needs_client (login_as _) = false
needs_client (register_as _) = false
needs_client _ = true

-- No client is online through the session.
abbrev pub NobodyOn : {ClientDb TopicDb : Type 0} → ℕ → World ClientDb TopicDb → Type 0
NobodyOn id w =
    (k : ℕ) (c : Client)
    → find k w.clients.clients ≡ some c
    → Client.get_session_id c w.sessions ≢ id

-- A text with one newline, at its end.
abbrev pub IsAnswer : Text → Type 0
IsAnswer answer = (answer ≡ getline answer ++ newline ∷ []) × IsLine (getline answer)

module _ {ClientDb TopicDb : Type 0} (client_repo : ClientRepository ClientDb)
    (topic_repo : TopicRepository TopicDb) (id : ℕ) (session : SessionWeakPtr) (rolls : List ℕ)
    (w : World ClientDb TopicDb) where
  perform_unauthorized :
      (r : Request)
      → needs_client r ≡ true
      → ClientManager.get_client_id id w.clients w.sessions 0 ≡ (ClientsCodes.client_not_found, 0)
      → perform client_repo topic_repo id r session rolls w ≡ some (unauthorized, w)
  unfolding perform subscribe create unsubscribe publish unlogin
  perform_unauthorized (login_as name) n e = absurd (ground arith)
  perform_unauthorized (register_as name) n e = absurd (ground arith)
  perform_unauthorized (subscribe_to topic) n e = ground arith
  perform_unauthorized (create_topic topic) n e = ground arith
  perform_unauthorized (unsubscribe_from topic) n e = ground arith
  perform_unauthorized (publish_to topic message) n e = ground arith
  perform_unauthorized log_out n e = ground arith

  -- Every request but LOGIN and REGISTER, from a session through which no client is online, is answered
  -- with the error and changes nothing.
  pub handle_command_unauthorized :
      (command : Text) (r : Request)
      → parse command ≡ some r
      → needs_client r ≡ true
      → id ≢ invalid_session_id
      → WellFormed w.clients.clients
      → NobodyOn id w
      → handle_command client_repo topic_repo id command session rolls w
        ≡ some (code_to_string unauthorized, w)
  unfolding handle_command
  handle_command_unauthorized command r e n valid wf nobody = ground (
    arith,
    e,
    perform_unauthorized r n (get_client_id_unbound w.clients w.sessions wf id valid 0 nobody),
  )

  -- Every answer is one line that is not empty, so the session sends it.
  handle_command_line :
      (command answer : Text) (w' : World ClientDb TopicDb)
      → handle_command client_repo topic_repo id command session rolls w ≡ some (answer, w')
      → IsAnswer answer
  unfolding handle_command
  handle_command_line command answer w' e = elim (Option-cases (parse command)) [
    | inl bad ↦
        let same : code_to_string invalid_command ≡ answer = ground (arith, bad) in
        subst IsAnswer same (code_to_string-IsLine invalid_command)
    | inr (r, good) ↦ elim (Option-cases (perform client_repo topic_repo id r session rolls w)) [
      | inl stuck ↦ absurd (ground (arith, good, stuck))
      | inr ((rc, w''), done) ↦
          let same : code_to_string rc ≡ answer = ground (arith, good, done) in
          subst IsAnswer same (code_to_string-IsLine rc)
    ]
  ]

  -- The requests about topics change no client and no session; all others change no topic.
  perform_frame :
      (r : Request) (rc : BrokerCodes) (w' : World ClientDb TopicDb)
      → perform client_repo topic_repo id r session rolls w ≡ some (rc, w')
      → ((w'.clients ≡ w.clients) × (w'.sessions ≡ w.sessions)) ⊎ (w'.topics ≡ w.topics)
  unfolding perform subscribe create unsubscribe publish unlogin login register
  perform_frame (subscribe_to topic) rc w' e = inl (ground arith)
  perform_frame (create_topic topic) rc w' e = inl (ground arith)
  perform_frame (unsubscribe_from topic) rc w' e = inl (ground arith)
  perform_frame (login_as name) rc w' e = inr (ground arith)
  perform_frame (register_as name) rc w' e = inr (ground arith)
  perform_frame (publish_to topic message) rc w' e = inr (ground arith)
  perform_frame log_out rc w' e = inr (ground arith)
