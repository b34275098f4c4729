-- ===== src/Lib.antt =====
-- The game server of Multithreaded-Tic-Tac-Toe-Server: clients log in over TCP, invite each
-- other, and play tic-tac-toe. This library models the server's C code and proves what it does.
--
-- The program and the files. A thread serves each connection (src/server.c): it reads packets
-- (src/protocol.c) and calls the requests of src/client.c. These work on shared objects with a
-- mutex and a reference count each: players (src/player.c), clients (src/client.c), invitations
-- (src/invitation.c) and games (src/game.c). Two registries hold the clients
-- (src/client_registry.c) and the players (src/player_registry.c). All paths are below
-- Multithreaded-Tic-Tac-Toe-Server/.
--
--   Base            tests on numbers, lists, decimal text
--   Game            src/game.c as functions on a game: game_apply_move, game_resign, win,
--                   game_parse_move, game_unparse_state and the others under their own names
--   Protocol        the header of include/protocol.h as bytes, the checks of proto_send_packet, and
--                   proto_recv_packet
--   Objects         the structs; a pointer is a number and 0 is NULL
--   World           the memory: a map from pointers to objects for each kind, the registries, the
--                   mutexes that are locked, and the packets that were written; commands on it
--   Player          src/player.c
--   GameObject      the functions of src/game.c on a game in memory: mutex, references, allocation
--   Client          references of a client and the packets to it, with proto_send_packet
--   Invitation      src/invitation.c
--   ClientList      the list of invitations of a client and its ids, src/client.c
--   PlayerRegistry  src/player_registry.c
--   ClientRegistry  src/client_registry.c, except creg_shutdown_all
--   Requests        client_make_invitation, client_revoke_invitation, client_decline_invitation,
--                   client_accept_invitation
--   Matches         client_make_move, client_resign_game
--   Session         client_login, client_logout
--   Shutdown        creg_shutdown_all, terminate of src/main.c, the end of a service thread
--   Waiting         creg_wait_for_empty interleaved with threads that register and unregister, as a
--                   step relation over the operations of ClientRegistry
--   Options         the options in main of src/main.c, and the creation of the registries
--   Server          jeux_client_service: a handler for each packet, and the loop over the packets
--   Lobby           runs of connections that come, log in and go, from creg_init to terminate
--   Examples        the theorems at concrete memories, packets and games
--
-- The modules below a part hold its theorems. Game/Story tells the rules of the game without a
-- board, as a list of squares; Game/Refinement compares the code with it, Game/Texts does for
-- the texts that players send, Game/Last says who wins by the last mark, and Matches/Whole and
-- Matches/Finished for whole matches in memory. A function on the memory is a function from a
-- memory to an outcome: a result with the memory behind it, a crash (NULL or a freed object is
-- read, or a byte is written outside its buffer) or a deadlock (the thread locks a mutex that
-- it holds). The result -1 is false or none, and 0 is true. A loop over a list is a recursion
-- on it.
--
-- Bounds. The search for an id has as fuel one more than the length of the list, which is
-- enough since each number that it skips is the id of a node. Decimal text has as fuel the
-- number plus one. The loop over the packets that arrive has a fuel that is enough when it is
-- more than the number of the bytes, since a packet takes at least one. player_exists looks at
-- MAX_PLAYERS places. An argument of -p is a number below 2 ^ 31, above which atoi is
-- undefined. An id is stored in a byte (% 256), a size in 16 bits, the times in 32.
--
-- Parameters. The environment says which requests for memory are granted, what each call of
-- rio_writen answers, and the time at it; Rio_readn is a function whose documented behaviour,
-- that it returns the number of bytes asked for where they come, is the hypothesis ReadsAll,
-- and that it takes what it returns off the input is Consumes. Ratings are double: a rating is
-- kept as the computation that made it, and its text in USERS is a parameter.
--
-- Not modelled. Except in Waiting, operations run one at a time: what other threads do between
-- two locks is left out. In Waiting the test of the count in creg_wait_for_empty and the V
-- behind it are one step. The bytes of a write that fails half way are not kept. Left out are
-- the signal handlers, the socket and the creation of threads in src/main.c. The global
-- pointers to the registries have no value of their own: a registry that could not be created
-- is the answer false. The allocations of packets, strings and the nodes of the client registry
-- succeed; those of shared objects, of the other nodes, of the list of players and of the
-- registries may fail. src/csapp.c is a copy of a library. Debug output is left out.
mod Base
pub mod Game
pub mod Protocol
pub mod Objects
pub mod World
pub mod Player
pub mod GameObject
pub mod Client
pub mod Invitation
pub mod ClientList
pub mod PlayerRegistry
pub mod ClientRegistry
pub mod Requests
pub mod Matches
pub mod Session
pub mod Shutdown
pub mod Waiting
pub mod Options
pub mod Server
pub mod Lobby
mod Examples
