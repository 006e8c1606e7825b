-- ===== src/ConsoleClient/Conversation.antt =====
-- The console client at the other end of a session of the server: client/main.cpp and
-- app/src/server/session.cpp.
use network_broker.Prelude.{
  ℕ, ◌≡◌, ◌∙◌, refl, sym, ap, Text, codes, false, true, none, some, List, [], ◌∷◌, ◌++◌, map,
  append-nil, ◌⊎◌, All, All-append, arith,
}
use network_broker.Prelude.Streams.{newline, IsLine}
use network_broker.Prelude.Cut.{full_lines, join_lines, full_lines-join_lines, join_lines-append}
use network_broker.Session
use network_broker.Session.{Session, welcome}
use network_broker.Session.Queue
use network_broker.Session.Queue.{Action, sent, written-run}
use network_broker.ConsoleClient.{Console, is_waiting, connected_to, run, Steps}
use network_broker.ConsoleClient.Printing.{shown_all, Steps-printed}

-- The bytes of the texts.
unfoldable pub bytes_of : List Text → Text
bytes_of [] = []
bytes_of (text ∷ texts) = text ++ bytes_of texts

abbrev pub as_text : Text → Text
as_text line = line ++ newline ∷ []

bytes_of-as_text : (lines : List Text) → bytes_of (map as_text lines) ≡ join_lines lines
unfolding bytes_of join_lines
bytes_of-as_text [] = refl
bytes_of-as_text (line ∷ lines) = ap (λ x. as_text line ++ x) (bytes_of-as_text lines)

abbrev pub welcome_lines : List Text
welcome_lines =
    codes "Welcome to MessageBroker"
    ∷ codes "Available commands:"
    ∷ codes "REGISTER <name>"
    ∷ codes "LOGIN <name>"
    ∷ []

welcome-join_lines : welcome ≡ join_lines welcome_lines
unfolding join_lines
welcome-join_lines = refl

-- The session that the server makes for a connection.
abbrev pub accepted_session : ℕ → Session
accepted_session id = Session.start (Session.set_self (some id) (Session.new id))

-- What a session has written once its queue is empty.
written-accepted_session :
    (id : ℕ) (actions : List Action)
    → (Queue.run actions (accepted_session id)).outgoing ≡ []
    → (Queue.run actions (accepted_session id)).written ≡ welcome ∷ sent actions
unfolding Session.start Session.set_self Session.new
written-accepted_session id actions over =
    let s : Session = accepted_session id in
    sym (append-nil _)
    ∙ ap (λ x. (Queue.run actions s).written ++ x) (sym over)
    ∙ written-run actions s (refl, [], refl)

welcome_lines-IsLine : All IsLine welcome_lines
welcome_lines-IsLine = ground arith

-- The lines in the bytes of the welcome and of texts of one line each.
pub welcome-shown :
    (lines : List Text)
    → All IsLine lines
    → full_lines (bytes_of (welcome ∷ map as_text lines)) ≡ welcome_lines ++ lines
unfolding bytes_of
welcome-shown lines all =
    ap (λ x. full_lines (welcome ++ x)) (bytes_of-as_text lines)
    ∙ ap (λ x. full_lines (x ++ join_lines lines)) welcome-join_lines
    ∙ ap full_lines (sym (join_lines-append welcome_lines lines))
    ∙ full_lines-join_lines (welcome_lines ++ lines)
        (All-append IsLine welcome_lines lines welcome_lines-IsLine all)

-- A session that the server has accepted, whose queue is empty again after it was sent some lines, and
-- a console client at the other end of the connection that has received what the session has written,
-- in whatever pieces: the client has printed that it is connected, the four lines of the welcome, and
-- then each line that the session was sent, in the order of the calls of `Send`.
pub Steps-shown :
    (id : ℕ) (actions : List Action) (lines : List Text) (host port input : Text) (c : Console)
    → sent actions ≡ map as_text lines
    → All IsLine lines
    → (Queue.run actions (accepted_session id)).outgoing ≡ []
    → Steps
        (run host port input none)
        (bytes_of (Queue.run actions (accepted_session id)).written)
        c
    → (c.is_reading ≡ false) ⊎ (is_waiting c ≡ true)
    → c.out ≡ connected_to host port ++ shown_all (welcome_lines ++ lines)
Steps-shown id actions lines host port input c e all over steps idle =
    Steps-printed host port input _ c steps idle
    ∙ ap (λ x. connected_to host port ++ shown_all (full_lines (bytes_of x)))
        (written-accepted_session id actions over)
    ∙ ap (λ x. connected_to host port ++ shown_all (full_lines (bytes_of (welcome ∷ x)))) e
    ∙ ap (λ x. connected_to host port ++ shown_all x) (welcome-shown lines all)
