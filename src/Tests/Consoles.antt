-- ===== src/Tests/Consoles.antt =====
-- The console client: one that logs in, is sent a line in two pieces, and is told to exit.
use network_broker.Prelude.{
  false, true, arith, ◌≡◌, refl, Text, codes, none, some, List, [], ◌∷◌, ◌++◌, inl, inr,
}
use network_broker.Prelude.Cut.{full_lines}
use network_broker.Prelude.Streams.{getline, after_line, has_newline}
use network_broker.Session
use network_broker.Session.{welcome}
use network_broker.Session.Queue
use network_broker.Session.Queue.{Action, sends, completes}
use network_broker.ConsoleClient.{
  Console, written, eof, write_turn, receive, read_failed, print_line, shown, connected_to, run,
  writes, receives, prints, fails, Steps, here, next, main, exits, runs, status,
}
use network_broker.ConsoleClient.Printing.{shown_all, Steps-printed}
use network_broker.ConsoleClient.Typing.{IsSent, Steps-IsSent}
use network_broker.ConsoleClient.Conversation.{
  bytes_of, accepted_session, welcome_lines, Steps-shown,
}

abbrev pub host : Text
host = codes "localhost"

abbrev pub port : Text
port = codes "2000"

abbrev pub typed : Text
typed = codes "LOGIN bob\nexit\nLOGIN eve\n"

abbrev at_start : Console
at_start = record {
  input = typed;
  is_writing = true;
  sent = [];
  is_open = true;
  buffer = [];
  is_reading = true;
  out = connected_to host port;
  err = [];
}

at_start_lem : run host port typed none ≡ at_start
unfolding run
at_start_lem = refl

abbrev logged_in : Console
logged_in = record at_start { input = codes "exit\nLOGIN eve\n"; sent = codes "LOGIN bob\n" }

logs_in : write_turn written at_start ≡ some logged_in
unfolding write_turn getline after_line
logs_in = refl

abbrev half_answered : Console
half_answered = record logged_in { buffer = codes "O" }

abbrev answered : Console
answered = record logged_in { buffer = codes "OK\nne" }

abbrev shows_ok : Console
shows_ok = record logged_in {
  buffer = codes "ne";
  out = codes "Connected to localhost:2000\n\n[SERVER] OK\n";
}

abbrev left_alone : Console
left_alone = record shows_ok { is_reading = false }

abbrev left : Console
left = record left_alone { input = codes "LOGIN eve\n"; is_writing = false; is_open = false }

-- One line, with the piece of another that never comes to its end.
whole_run : Steps (run host port typed none) (codes "OK\nne") left
unfolding run write_turn receive print_line read_failed getline after_line has_newline
whole_run =
    next
      (next
        (next
          (next
            (next (next {e = logged_in} here (writes written refl))
              (receives {c' = half_answered} (codes "O") refl))
            (receives {c' = answered} (codes "K\nne") refl))
          (prints {c' = shows_ok} refl))
        (fails {c' = left_alone} eof refl))
      (writes {c' = left} written refl)

Steps-printed_example : left.out ≡ connected_to host port ++ shown_all (full_lines (codes "OK\nne"))
Steps-printed_example = Steps-printed host port typed (codes "OK\nne") left whole_run (inl refl)

Steps-IsSent_example : IsSent typed left
Steps-IsSent_example = Steps-IsSent host port typed (codes "OK\nne") left whole_run

abbrev actions : List Action
actions = sends (codes "OK\n") ∷ completes ∷ completes ∷ []

-- The client with some lines printed, and the rest in its buffer.
abbrev pub showing : Text → Text → Console
showing out buffer = record at_start { out = connected_to host port ++ out; buffer = buffer }

abbrev received_all : Console
received_all = showing [] (welcome ++ codes "OK\n")

abbrev pub first_two : Text
first_two = shown (codes "Welcome to MessageBroker") ++ shown (codes "Available commands:")

abbrev pub all_four : Text
all_four = (first_two ++ shown (codes "REGISTER <name>")) ++ shown (codes "LOGIN <name>")

abbrev shown_five : Console
shown_five = showing (all_four ++ shown (codes "OK")) []

greeted :
    Steps
      (run host port typed none)
      (bytes_of (Queue.run actions (accepted_session 1)).written)
      shown_five
unfolding run receive print_line getline after_line has_newline bytes_of Queue.run Queue.step
    Session.start Session.set_self Session.new Session.send Session.write_done
greeted =
    next
      (next
        (next
          (next
            (next (next {e = received_all} here (receives (welcome ++ codes "OK\n") refl)) (
              prints
                {c' = showing (shown (codes "Welcome to MessageBroker"))
                  (codes "Available commands:\nREGISTER <name>\nLOGIN <name>\nOK\n")}
                refl))
            (prints {c' = showing first_two (codes "REGISTER <name>\nLOGIN <name>\nOK\n")} refl))
          (prints
            {c' = showing (first_two ++ shown (codes "REGISTER <name>"))
              (codes "LOGIN <name>\nOK\n")}
            refl))
        (prints {c' = showing all_four (codes "OK\n")} refl))
      (prints {c' = shown_five} refl)

shows_five : shown_five.out ≡ connected_to host port ++ shown_all (welcome_lines ++ codes "OK" ∷ [])
shows_five =
    Steps-shown 1 actions (codes "OK" ∷ []) host port typed shown_five (unfold Queue.sent in refl)
      (ground arith)
      (unfold Queue.run Queue.step Session.start Session.set_self Session.new Session.send
          Session.write_done in
        refl)
      greeted (inr (unfold has_newline in refl))

usage_shown :
    main (codes "client" ∷ []) (λ h p. none) [] ≡ exits 1 (codes "Usage: client <host> <port>\n")
unfolding main
usage_shown = refl

-- With no arguments `main` returns 1, and the client that has been told to exit and has been left alone 0.
statuses :
    (status (main (codes "client" ∷ []) (λ h p. none) []) ≡ some 1) × (status (runs left) ≡ some 0)
unfolding status main
statuses = (refl, refl)
