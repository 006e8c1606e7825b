-- ===== src/ConsoleClient.antt =====
-- client/main.cpp: the console client. Its two threads are the loops of `Write` and `Read`, whose turns
-- interleave; the socket's answers are arguments of the turns.
pub mod Printing
pub mod Typing
pub mod Conversation
pub mod Publishing
pub mod Reception
use network_broker.Prelude.{
  ◌≡◌, ℕ, Text, codes, is_empty, Bool, true, false, not, ◌&&◌, Option, none, some, List, [], ◌∷◌,
  ◌++◌, if◌then◌else◌, text_eq, ◌==◌, take,
}
use network_broker.Prelude.Streams.{newline, getline, after_line, has_newline}

-- `input` is what is left of std::cin, and `buffer` the streambuf of `Read`.
pub record Console : Type 0 where
  pub input : Text
  pub is_writing : Bool
  pub sent : Text
  pub is_open : Bool
  pub buffer : Text
  pub is_reading : Bool
  pub out : Text
  pub err : Text

-- The error that boost::asio::write reports, with the number of bytes that had gone out before it.
pub data WriteResult : Type 0 where
  written : WriteResult
  failed : ℕ → Text → WriteResult

pub data ReadError : Type 0 where
  eof operation_aborted : ReadError
  other_error : Text → ReadError

abbrev pub line_end : Text
line_end = newline ∷ []

-- One turn of the loop of `Write`; `none`: the loop has ended.
unfoldable pub write_turn : WriteResult → Console → Option Console
write_turn result c =
    let command = getline c.input in
    let c' : Console = record c { input = after_line c.input } in
    if not c.is_writing
    then none
    else if is_empty c.input
    then some (record c { is_writing = false })
    else if command == codes "exit"
    then some (record c' { is_writing = false; is_open = false })
    else elim result [
      | written ↦ some (record c' { sent = c.sent ++ command ++ line_end })
      | failed n message ↦ some (record c' {
        is_writing = false;
        sent = c.sent ++ take n (command ++ line_end);
        err = c.err ++ (codes "Write error: " ++ message ++ line_end);
      })
    ]

-- `read_until` asks the socket for more only while its buffer has no newline.
abbrev pub is_waiting : Console → Bool
is_waiting c = c.is_reading && not (has_newline c.buffer)

-- Some bytes come from the socket.
unfoldable pub receive : Text → Console → Option Console
receive bytes c = if is_waiting c then some (record c { buffer = c.buffer ++ bytes }) else none

-- The socket reports an error.
unfoldable pub read_failed : ReadError → Console → Option Console
read_failed error c =
    let c' : Console = record c { is_reading = false } in
    if not (is_waiting c) then none else elim error [
      | eof ↦ some c'
      | operation_aborted ↦ some c'
      | other_error message ↦
          some (record c' { err = c.err ++ (codes "Read error: " ++ message ++ line_end) })
    ]

-- What is printed of a message.
abbrev pub shown : Text → Text
shown message = newline ∷ codes "[SERVER] " ++ message ++ line_end

-- The rest of the turn of `Read`, once `read_until` has returned without an error.
unfoldable pub print_line : Console → Option Console
print_line c =
    if c.is_reading && has_newline c.buffer
    then some (record c { buffer = after_line c.buffer; out = c.out ++ shown (getline c.buffer) })
    else none

abbrev pub connected_to : Text → Text → Text
connected_to host port = codes "Connected to " ++ host ++ 58 ∷ port ++ line_end

-- `Run` up to the two loops. The argument is what `Connect` throws, if it does.
unfoldable pub run : Text → Text → Text → Option Text → Console
run host port input none = record {
  input = input;
  is_writing = true;
  sent = [];
  is_open = true;
  buffer = [];
  is_reading = true;
  out = connected_to host port;
  err = [];
}
run host port input (some what) = record {
  input = input;
  is_writing = false;
  sent = [];
  is_open = false;
  buffer = [];
  is_reading = false;
  out = [];
  err = codes "Client error: " ++ what ++ line_end;
}

-- `Run` returns when both loops have ended.
abbrev pub has_returned : Console → Bool
has_returned c = not c.is_writing && not c.is_reading

-- main: a text for stderr with the status 1, or a client that runs.
pub data Main : Type 0 where
  exits : ℕ → Text → Main
  runs : Console → Main

-- `connect` is what the network does for a host and a port. Without a program's name in the arguments
-- `argv[0]` is null, and printing it leaves `std::cerr` bad, so that nothing comes after it.
unfoldable pub main : List Text → (Text → Text → Option Text) → Text → Main
unfolding run
main (program ∷ host ∷ port ∷ []) connect input = runs (run host port input (connect host port))
main (program ∷ args) connect input =
    exits 1 (codes "Usage: " ++ program ++ codes " <host> <port>" ++ line_end)
main [] connect input = exits 1 (codes "Usage: ")

-- The status that `main` returns; a client that still runs has returned none.
unfoldable pub status : Main → Option ℕ
status (exits n text) = some n
status (runs c) = if has_returned c then some 0 else none

-- A turn of one of the threads, with the bytes that it takes from the socket.
pub data Step : Text → Console → Console → Type 0 where
  writes : {c c' : Console} (result : WriteResult) → write_turn result c ≡ some c' → Step [] c c'
  receives : {c c' : Console} (bytes : Text) → receive bytes c ≡ some c' → Step bytes c c'
  prints : {c c' : Console} → print_line c ≡ some c' → Step [] c c'
  fails : {c c' : Console} (error : ReadError) → read_failed error c ≡ some c' → Step [] c c'

-- The states that follow from one, in any order of the turns, with all the bytes received.
pub data Steps (c : Console) : Text → Console → Type 0 where
  here : Steps c [] c
  next :
      {received bytes : Text} {d e : Console}
      → Steps c received d
      → Step bytes d e
      → Steps c (received ++ bytes) e
