-- ===== src/Lib.antt =====
-- RekaSerdoba, the server: a VPN that carries IPv4 packets in encrypted records over
-- WebSocket, HTTP/2 or HTTP/3. This library models the parts of the server that decide what is
-- accepted, what is sent and under which key, as functions on explicit states.
--
-- The program. A carrier brings messages (rekaserdoba/src/main.rs). A request for a tunnel
-- comes at one of three doors and shows a gate token, which is checked against the client's
-- key and a replay map; over HTTP/3 every other request gets a page of a decoy
-- (rekaserdoba/src/h3_edge.rs), and the client sends its token through a bridge
-- (rekaserdoba/src/bin/h3_bridge.rs). Each session holds a permit and is counted. After a
-- handshake both sides have traffic keys: the client says hello, the server answers with its
-- key and a signature, the client proves who it is, the server sends the parameters of the
-- session and the client confirms them. Each message is then a record
-- (rekaserdoba/src/record.rs): a header, and a ciphertext that holds frames. A session
-- (rekaserdoba/src/rekey.rs) has the record layers of the current, the pending and the
-- previous epoch and moves from one to the next by a key update or a full rekey, whose
-- messages are control frames. Data frames hold packets, which are checked for the client's
-- address, or fragments of packets, which are put together (rekaserdoba/src/fragment.rs);
-- packets for the client are batched into records (rekaserdoba/src/packet_batch.rs). The bytes
-- of a session are shaped and counted against a quota (rekaserdoba/src/session.rs). A session
-- holds the tunnel address of its client as long as it lives (rekaserdoba/src/network.rs);
-- packets go to the TUN device directly or through a helper
-- (rekaserdoba/src/bin/net_helper.rs). A session's id can be taken over by another carrier
-- that shows a migration token.
--
-- The files. A module's name is that of the part it models; a function has the name that it
-- has in the source, and a method takes its state and gives the new one along with a result.
-- Where a function has the name of a declaration word or of another function of the same
-- module, it says so (`RecordKind::Data` is `data_record`, `open` is `open_record` and
-- `open_session`).
-- - Common: Boolean tests, lists and ranges, results, big-endian words, bits, maps as lists of
--   pairs, and chains of fallible steps on a state, with lemmas for invariants of such chains.
-- - Clocks: times near a clock, as differences of 64 bits have it.
-- - Errors: one constructor for each message of an error.
-- - Crypto: the cryptographic libraries as a record of functions, and what chacha20poly1305
--   and hmac document as laws. Every definition that needs them takes the record as an
--   argument.
-- - Record (rekaserdoba/src/record.rs): Header, Replay (`ReplayWindow`), Frames, Keys, Sender,
--   Receiver and Layer; below and beside them what holds of each, and in Delivery, Traffic and
--   Exchange what holds of a sender and a receiver together.
-- - Rekey (rekaserdoba/src/rekey.rs): Session is the state, sealing and counting; Opening is
--   `open`; Requests the timer and the path check; Update and FullRekey the two handshakes;
--   Auth the digests and keys. Soundness states the invariant, Invariant, Opened and Reachable
--   prove it for every operation, Commit, Confirm, Grace, Lasting, Late and Deadlines are
--   about single ones.
-- - Fragment (rekaserdoba/src/fragment.rs): the reassembler; Ordered is about the fragments of
--   one packet, Invariant, Storing and Arrivals about the store, Packet about what is
--   delivered; InOrder, Whole and Delivered are about packets whose parts arrive in order.
-- - Batch (rekaserdoba/src/packet_batch.rs): the other direction; Parts and Grouping are about
--   what it makes, Receiver and Received about both directions together.
-- - Policy (rekaserdoba/src/session.rs): the quota, the deadline and the token bucket.
-- - Admission (rekaserdoba/src/main.rs, `check_admission_rate`): how often a source may knock.
-- - Gate (rekaserdoba/src/main.rs, `validate_gate_token` and `validate_migration_gate`):
--   Registry is the registry of sessions that can be migrated; Kept and Once are about the
--   replay map at the gates, Migrations and MigrationsOnce about the tokens of a migration.
-- - Tunnels (rekaserdoba/src/main.rs): the doors, `maybe_tunnel`, `h2_tunnel` and
--   `handle_h3_session`. Passage says what any door does to the state, Doors that each does
--   so; Once and Rate are about requests at all doors.
-- - Bridge (rekaserdoba/src/bin/h3_bridge.rs): `gate_token` and the opening of the gate by the
--   client; Token is about its token, Admitted about the bridge and the door together.
-- - Edge (rekaserdoba/src/h3_edge.rs): which requests are for a tunnel; Decoys is what the
--   others are answered, Authorities, Confined and Answered are about these.
-- - Sessions (rekaserdoba/src/main.rs, `serve_session`): permits and counters, in a step for
--   what lies between two waits; Reasons is `disconnect_reason`, Reached and Accounts are
--   about all sessions together.
-- - Handshake (rekaserdoba/src/main.rs): Cursor is the parser, Hello, Messages and Auth are
--   the messages and Exchange is `inner_handshake`, each with what holds of it below.
-- - Carrier (rekaserdoba/src/main.rs): `take_carrier_message`; Streams and Messages are the H2
--   side of `Carrier::recv`. Events has the `Carrier` of a session as the events that are to
--   come and the messages that were sent.
-- - Packets (rekaserdoba/src/main.rs, `validate_data_frame` and `validate_ipv4_packet`).
-- - Serving (rekaserdoba/src/main.rs): Records is `process_record` and Loop the loop of
--   `run_established_session`, a turn of which is given by the branch that `select!` takes;
--   Invariant carries the invariants of Rekey, Fragment and Policy through all of it.
-- - Network (rekaserdoba/src/network.rs): Device is the reader; Leases and Kept say what an
--   operation does to the registry, Runs and Counters what holds after any steps. Helper
--   (rekaserdoba/src/bin/net_helper.rs) is the program that has the device, a turn of its loop
--   at a time; Guarded is about its turns, Passing about a packet that the server sends on.
-- - Config (rekaserdoba/src/main.rs, `Runtime::from_config`, and the validation of a
--   configuration in main.rs and h3_edge.rs): Clients and Adding are about one client, Served
--   about all of them; Validation is what is checked at the start, Started what a server that
--   starts has.
-- - Examples: runs at concrete inputs, under stand-ins for the cryptography.
--
-- Conventions. A byte is a natural number, and the range of bytes is a hypothesis where it
-- matters; an array of a fixed size is a list, its length a hypothesis. Machine integers are
-- natural numbers, with the wrap-around or the check of the source written out. An `Instant`
-- is a number of nanoseconds; that the clock may have no later time to add to is left out.
-- Random values are arguments. Keys that are wiped when they are dropped leave no trace in
-- later values.
--
-- Fuel. `parse_loop` has the length of the plaintext as fuel, and each round takes four bytes
-- at least; `chunks` has the length of the packet, and each round takes one byte at least when
-- the chunk size is positive, which is checked; `fold_carry` has three rounds, which are
-- enough for 32 bits.
--
-- Not modelled: the asynchronous runtime, sockets, the accepting of connections, the texts of
-- health, readiness and metrics, the batching of H2 output by time, `recv_h3_message` with its
-- datagrams, the loop of the bridge, the making of devices, and the parsing of configuration
-- files, which are I/O and calls of libraries. Of what is modelled: a send over a carrier
-- succeeds, and that a carrier was closed is not part of the state; timers fire when a turn
-- says so; a migration token's session is looked up and checked in one go, though another call
-- may come in between; the clock of a session reads a list of times that is given; several
-- tasks on the atomic counter of a `RecordSender`, which is used through one handle at a time
-- here. The functions `hash_parts`, `transcript_next` and `hmac_bytes`, which main.rs and
-- rekey.rs both have, are modelled once, as is `prefix_mask`, which network.rs and
-- bin/net_helper.rs have. Of the client only the opening of the gate is modelled; the rest is
-- another program.
pub mod Common
pub mod Clocks
pub mod Errors
pub mod Crypto
pub mod Record
pub mod Rekey
pub mod Policy
pub mod Fragment
pub mod Gate
pub mod Packets
pub mod Network
pub mod Config
pub mod Admission
pub mod Batch
pub mod Serving
pub mod Tunnels
pub mod Bridge
pub mod Edge
pub mod Sessions
pub mod Handshake
pub mod Carrier
mod Examples
