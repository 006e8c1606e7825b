-- ===== src/Lib.antt =====
-- A verification library for NetworkBroker, a message broker over TCP with named clients and topics.
--
-- The program is a server that owns sessions (app/src/server), a broker that reads commands and
-- answers them (app/src/broker), a manager of clients (app/src/clients) and a manager of topics
-- (app/src/topics), each over a store (app/src/db). A session reads a line and gives it to
-- MessageBroker::HandleCommand with its id and a weak pointer to itself; the broker calls the managers;
-- the client manager sends through the weak pointers that its clients keep; and the session sends the
-- answer. A session that fails calls MessageBroker::Disconnect.
--
-- Which file models what:
-- - Prelude and its children: numbers, texts as lists of bytes, maps as association lists, sets of ids
--   as lists, and the operations of std::istringstream (`>>` and std::getline).
-- - Session: app/src/server/session.h and session.cpp. A session keeps its id, `outgoing_`, the weak
--   pointer to itself, and what Boost.Asio holds for it: the writes and reads that are pending and the
--   texts that went out. `send`, `do_write`, `read`, `start` are Send, DoWrite, Read, Start; `write_done`
--   and `write_failed` are the handler of async_write.
-- - Client: app/src/clients/client.h and client.cpp. A weak pointer is an address in the heap of the
--   sessions that the server owns; `lock` and `expired` look the address up.
-- - ClientManager: app/src/clients/clients_manager.h, clients_manager.cpp and rc.h, a function for each
--   method. The heap of sessions is passed in and out.
-- - Topics: app/src/topics/topic_manager.h, topic_manager.cpp and rc.h, a function for each method.
-- - Repository: app/src/db/i_client_repository.h and i_topic_repository.h, as records of operations that
--   the managers take as parameters. Table is an implementation by tables, which says what a store is
--   to do. Repository/Refinement is the interface of a store that behaves as another, and the files called
--   Refinement in Topics, ClientManager, Broker and Server carry it up to the server.
-- - Json, JsonClients and JsonTopics: app/src/db/json_client_repository.h, json_client_repository.cpp,
--   json_topic_repository.h and json_topic_repository.cpp. The library nlohmann::json is a record of
--   operations, with the laws that its documentation states as named hypotheses, which on keys are about
--   objects alone and on printing about values that a text can hold; an exception is `none`. A file is
--   its content and whether it can be written.
-- - Protocol: the command table, the checks of MessageBroker::HandleCommand and CodeToString in
--   app/src/broker/message_broker.cpp, and app/src/broker/rc.h. `Request` is what is called once a line
--   has passed its checks.
-- - Broker: app/src/broker/message_broker.h and message_broker.cpp. `perform` makes the calls of the
--   switch and `handle_command` is HandleCommand.
-- - Server: app/src/server/server.h and server.cpp, with the handlers that session.cpp gives to
--   Boost.Asio. One function for each way in which an operation completes; Server/Reach has the
--   relation of steps and of the states that can be reached, and Server/Pipelining the reads of one
--   connection as its input arrives in segments. Session/Lines and Server/Framing are about
--   the texts on a connection as lines. The files called Order, here and in Topics, ClientManager/Delivery
--   and Broker, compare two orders of iteration of the sets of subscribers.
-- - Configurator: app/src/configurator. The JSON parser is a parameter that keeps the classes of its
--   exceptions apart.
-- - Logs: app/src/logs. A writer is Logger or ShellPrinter: a queue, a flag, and the place in its loop
--   at which its thread stands, so that pushes may come between any two steps of the thread. The macros of
--   log.h, in Logs/Macros, choose a level and a direction for `log_internal`.
-- - Application: app/main.cpp over the JSON stores, which stand behind the interfaces of the managers with
--   a flag that is set when an exception leaves a call. `main` goes from the configuration to the state in
--   which the server waits; Application/Process compares it with the server over tables, and
--   Application/Screens has the clients of the server that it starts.
-- - ConsoleClient: client/main.cpp. `write_turn`, `receive`, `read_failed` and `print_line` are the
--   turns of the loops of Write and Read, which take place in any order; `run` is Run up to its two
--   loops. Publishing and Reception have the client at the other end of a session of the server.
-- - Tests: runs at concrete data, and an instance of each theorem that has hypotheses.
--
-- Conventions. The iteration order of std::unordered_map is the order of the association list, a new
-- entry comes first, and the theorems about tables state what is found under a key and not the order.
-- The numbers that CreateClient draws are a list, an argument of the call, and `none` is a loop that is
-- still drawing: ClientManager/Create has the draws that are enough. std::to_string prints on 20 digits
-- at most, which 64-bit numbers do not exceed. All other loops go over a list. The id counter of the
-- server is a 64-bit number that wraps; the theorems on steps assume of an accept that it does not wrap
-- there.
--
-- Handlers run one after the other, as one thread drives the io_context. A step relation is what lets
-- them come in any order. A pending operation may complete at any time, and its result, with the bytes
-- that came in, is chosen by the step.
--
-- Not modelled: the sockets, the resolver and the acceptor, the log calls inside the parts above,
-- exceptions from the allocator, the clock, and app/src/server/server_console.h and server_control.h,
-- which are empty, and what ReadConfig prints when it fails, since the library chooses that text. A call
-- of a store that an exception leaves sets a flag of the store: the process ends there, and the theorems
-- say nothing of the states that a step would make of it. `main` gives each store the content of its own
-- file, so that two stores with one file name are outside the model.
pub mod Prelude
pub mod Session
pub mod Client
pub mod Repository
pub mod ClientManager
pub mod Topics
pub mod Protocol
pub mod Broker
pub mod Table
pub mod Json
pub mod JsonClients
pub mod JsonTopics
pub mod Configurator
pub mod Logs
pub mod Application
pub mod ConsoleClient
pub mod Server
pub mod Tests
