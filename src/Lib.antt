-- ===== src/Lib.antt =====
-- onionmsg: a messenger daemon whose members reach each other over Tor hidden services. This library
-- models the parts of the daemon that decide what is accepted, stored and sent.
--
-- The program's parts and their files:
-- - Base: shared names; bytes as lists of numbers, splitting at a separator, and `Outcome`, which is
--   the value, the error value or the panic that a Go function ends with. Exec: methods that change
--   their receiver, as functions from a state to an outcome and the state after it, which is also
--   kept after an error.
-- - Base64, Ed25519, Identity: internal/types/identity.go. A fingerprint is the encoded public key.
--   The signature scheme is a parameter, a record of what crypto/ed25519 documents; its panics on
--   keys of the wrong length are written out.
-- - Message: internal/types/message.go, with messages that reply to messages as mutual data types.
-- - SyncMap: `SyncMap` of internal/types/util.go, the last time of each sender, as an association
--   list with distinct keys.
-- - Peer, Room: internal/types/messaging_peer.go and internal/types/room.go; Push: the pushing and
--   sending of messages of room.go, with Push/OneByOne, which has the reference of one call for each
--   message; Peer/Rounds the rounds of a queue; Command:
--   internal/types/command_handler.go. A callback gets a room and changes it. Pointers to shared
--   metadata are references by fingerprint.
-- - Conn: pkg/sio/connection/data_conn.go, frames over a buffered stream that arrives in pieces. The
--   compression library is a parameter. Conn/Stream is about reads of a stream in pieces, Conn/Channel
--   the view of a connection as whole messages, whatever pieces their frames arrive in as long as no
--   header is cut, Conn/Refinement what its user can observe.
-- - Handshake: the challenge of internal/types/util.go and internal/daemon/conversation_handler.go.
--   Contact: both sides of a contact request, of internal/types/room.go and
--   internal/daemon/contact_handler.go.
-- - Tor: pkg/tor. Tor itself has the services, Tor/Binary the version check of binary_utils.go,
--   Tor/Instance the process of tor_instance.go with what the machine and the controller answer as a
--   parameter. Tor/Versions and Tor/Launch have the theorems. The binary is the external one of
--   external_binary.go.
-- - Sockets: pkg/sio/socket.go and simple_server.go, and the dialling of data_conn.go.
-- - Daemon: internal/daemon/util.go, room_util.go, contact_util.go and hooks.go over the lists of
--   rooms, contact identities and requests: Slices are the loops over slices, State the state and
--   its hooks, Services what comes with a hidden service, Rooms what makes rooms, Requests what is
--   done with requests and messages. Daemon/Session is what the handler of a connection works on,
--   the blobs of pkg/blobmngr/manager.go included; Contacts is the handler of
--   internal/daemon/contact_handler.go, Conversations that of
--   internal/daemon/conversation_handler.go, with Transfer for the blobs that arrive. Daemon/InStep
--   has the laws that are asked of Tor, the invariant that rooms, contact identities and services are
--   in step, and Steps, the step relation of everything that happens to a running daemon.
-- - Sync: the calling side of a conversation, `syncMsgs` and `sendBlobs` of
--   internal/types/messaging_peer.go. Sync/Blocks cuts files, Sync/Sends and Sync/Converse are about
--   what is written, Sync/Hushed about what is left unsent, Sync/Stored about what the other side
--   keeps, and Sync/Meeting is about both ends.
-- - Blob: pkg/blobmngr/manager.go, files by their ids, and the loop that fills one.
-- - Api: internal/api. Requests has requests, responses and the record of the daemon's operations that
--   the routes call, Routes the routes, Paths the table of paths, Implementation the daemon's own
--   operations, Notifier the observers of internal/api/notifier.go. Calm, which goes through the
--   routes of EachRoute with the lemmas of Blame, Files and Commands have the theorems.
-- - Lifecycle: the start and the end of the daemon, internal/daemon/daemon.go, and its data file, of
--   pkg/sio/file.go. A start is a list of calls, so that a signal may come after any of them. Startup
--   has the start of Tor, the flags of cmd/onionmsgd/main.go and the listener of the API; Safety,
--   Steadiness and Shutdown have theorems.
-- - Console: the prompt of internal/daemon/interactive.go over the lines that are typed. Operations,
--   Rooms and Endless have theorems; Steady, Making and Turns are about turns that keep the daemon in
--   step. Commands has the commands and the loop.
-- - Tests: concrete instances of the parameters and runs of the theorems on concrete inputs.
--
-- How they interact: a message that arrives over a Conn is checked by Message, pushed into a Room by
-- Push, which runs the commands of Command; Peer picks what to send back by the times in SyncMap.
-- Sync is the other end of Daemon/Conversations. Api calls the operations of Daemon, and Lifecycle
-- loads and saves its state, and Console is a second user of both. Identity is under all of them.
--
-- Bounds and loops: the loops run over lists or count down, so that they need no fuel, but for the one
-- that fills a file: its fuel is one more than the bytes of the stream, since every round but the last
-- takes at least one. A number is printed with one digit of fuel more than it counts. The attempts to
-- reach the controller of Tor count down to the one that ends after the timeout. The prompt runs for as
-- many turns as are given. The loop that reads a payload runs over the pieces that arrived. Integers of a
-- header have 32 bits, with the wrap-around written out. The buffer of a connection has 4096 bytes and
-- is sent when a write does not fit. Times are counts of nanoseconds, with their zone in a message, and
-- lengths are not negative.
--
-- Handlers run one at a time here; where two calls that run at once are the subject of a theorem,
-- their steps are a sequence, in Push/Interleaving.
--
-- Not modelled: the timing of queues, the closing of connections, and the memory file of an
-- embedded Tor binary, which are I/O; that binary's own file, which is built from a generated one; and
-- the mocks of the tests. Logging has no effect, but for what the prompt prints.
pub mod Base
pub mod Base64
pub mod Ed25519
pub mod Identity
pub mod Message
pub mod SyncMap
pub mod Exec
pub mod Peer
pub mod Room
pub mod Sync
pub mod Blob
pub mod Api
pub mod Lifecycle
pub mod Console
pub mod Sockets
pub mod Command
pub mod Push
pub mod Conn
pub mod Handshake
pub mod Contact
pub mod Tor
pub mod Daemon
pub mod Tests
