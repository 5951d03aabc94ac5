-- ===== src/Lib.antt =====
-- The Rust core of the MusicBee Remote plugin, as the library mbrc_plugin: models of its stateful
-- components and proofs that they keep what they promise to a network of untrusted phones.
--
-- The plugin serves MusicBee to phones and browsers. A socket is accepted by the connection registry
-- (Registry), which bounds the sockets of an address and of a client id and supersedes a stale main
-- socket. A connection then speaks one of two protocols. A legacy client says its name and its
-- version and sends commands (Session), which the command table (V4) runs on MusicBee. A V6 client
-- shows its client id and token in a handshake (SessionV6), which the store of client identities
-- (Clients) checks; a browser, or an app that asks for a role, pairs with a code that the host shows
-- (Pairing). Every command then passes the Party Mode gate (Permissions), which gives each principal
-- a role and refuses what the role does not permit. A client that keeps a copy of the library reads
-- what changed from the library change log (LibraryChanges), which an index pass of the music library
-- files into, by the V6 commands (CommandsV6), which also change the queue and the playlists of
-- MusicBee. When MusicBee reports a change of the queue, one task tells the clients (ListChanges).
-- Wire is the framing and the envelopes below all of them.
--
-- Files and code, with paths from packages/mbrc-core/src unless they begin with packages:
--   Permissions           server/permissions/mod.rs: Capability, Role, Action and `permits`; .Order
--                         is about the ladder of roles
--   Permissions.Principal, .Keys, .Roles (.Laws, .Restart)
--                         server/permissions/roles.rs: principals, their keys, the roles in memory
--                         and in the table `ROLES`; .Restart is about `open` on the table of before
--   Permissions.V6        server/permissions/v6.rs: `action`, and `parse_queue_type` of
--                         server/commands_v6/nowplaying_list.rs
--   Permissions.Gate (.Bounds, .Decisions, .Changes)
--                         server/permissions/gate.rs: `PartyMode`; the state under its locks is a
--                         record, an operation a function that returns it changed
--   Permissions.V4        server/permissions/v4.rs: `action` and `queued_paths`
--   Clients (.Pruned, .Removal, .Pinned, .Tokens, .Kept)
--                         server/clients.rs: `ClientIdentities`; `identify`, `prune` and `seen` keep
--                         their names. `pinned_apps` is that of server/permissions/roles.rs; Kept
--                         runs handshakes beside changes of the roles
--   Session (.Calls, .Protocol)
--                         server/session.rs: `Session`; `handle_frame`, `handle_protocol`,
--                         `dispatch_command` and `parse_handshake` keep their names, `gated` is
--                         `is_refused` and `refuse` is `refusal_replies`
--   SessionV6 (.Handle, .Dispatch, .Apps, .Handshake, .Paired, .Replies, .Worlds)
--                         server/session_v6.rs: `V6Session`; `handle_frame`, `handle_handshake`,
--                         `pair` and `dispatch_op` keep their names and are split where the source
--                         returns early
--   CommandsV6 (.Args)    server/commands_v6/mod.rs: the readers of fields and `page_args`
--   CommandsV6.LibrarySync (.Requests, .Pages)
--                         server/commands_v6/library_sync.rs: `changes_op` is `changes`; Pages holds a
--                         client that passes each `next` back
--   CommandsV6.NowPlayingList (.Slots, .Removal, .Versions)
--                         server/commands_v6/nowplaying_list.rs: the operations that change the list,
--                         with the names of the source; `queue_files` is `queue`
--   CommandsV6.Playlists (.Folder, .Edits, .Moves, .Writes)
--                         server/commands_v6/playlist.rs: the operations that change playlists, with
--                         the names of the source; Folder is `is_folder_under_root`, beside a
--                         reading of paths as Windows resolves them (drives, roots, `..`)
--   ListChanges (.Told)   server/list_changes.rs: `mark` as the steps of `notify`, and `run`; with the
--                         notification of state.rs that marks a change
--   V4 (.Host, .Handlers, .Dispatch, .Judged)
--                         server/commands/mod.rs, player.rs, track.rs, nowplaying_list.rs and parts of
--                         library.rs and playlists.rs: the handlers that change something, and
--                         `dispatch`. Host is what MusicBee is asked to do
--   LibraryChanges (.Diff, .Record.*, .Read.*, .Sync)
--                         library_changes.rs: `ChangeLog`; `record_in`, `diff` and
--                         `forget_oldest_tombstones` are `record_in`, `diff`, `oldest_tombstones`
--                         with `forget` and `trim`; `read` is `read`, and Read/Pages and Sync hold a
--                         client that follows the pages
--   Registry (.Eviction, .Slots, .Clients.*)
--                         server/registry.rs: `ConnectionRegistry`; `admit_ip`, `evictable`, `touch`,
--                         `release_ip`, `register`, `unregister` keep their names
--   Pairing (.Codes, .Guesses, .Waits)
--                         web/auth.rs: codes and strikes; `take_code_at`, `strike`, `backoff_after`
--                         and `constant_time_eq` keep their names
--   Pairing.Browsers (.Restart, .Run), Pairing.Label
--                         web/auth.rs: the tokens of paired browsers and their table; `redeem`,
--                         `paired_id`, `rename`, `revoke`, `revoke_all` keep their names
--   Blocked               server/blocked.rs: `BlockedLog::record`
--   UpdateState (.Due)    packages/mbrc-release/src/state.rs: `UpdateState`
--   Wire (.Lines, .Frames, .Chunks, .Handshake)
--                         packages/mbrc-wire/src/lib.rs: `FrameAccumulator`, which splits the bytes of
--                         a socket into frames, and `ClientHandshake`
--   Wire.V6 (.Envelope)   packages/mbrc-wire/src/v6.rs: requests, responses and events
--   Wire.Lenient          packages/mbrc-wire/src/lib.rs: `parse_lenient` and the repairs of lines that
--                         iOS clients send
--   Store                 the `redb` tables under store/mod.rs, as a record of operations and laws;
--                         .Ordered adds that rows come in key order. The definitions that read or
--                         write a table take one as a parameter; .Memory and Ordered/Memory show
--                         that the laws can be met
--   Json                  `serde_json::Value`, as far as the code looks into one, as a record; .Build
--                         has the laws of `json!`, and .Tree shows that they can be met
--   Base                  shared names: Boolean tests, lists, `HashMap` as an association list
--                         (Base/Dict), text order, `sort_unstable` and `dedup` (Base/Sorting), the
--                         bits of `|` and `^` (Base/Bits), integers and their parsing (Base/Int), the
--                         length of a text in UTF-8 (Base/Utf8)
-- Files named Tests run the definitions at concrete inputs and apply the theorems to them.
--
-- Conventions: a clock (`Instant`, unix time) and a random value (an epoch, a code's digits) are
-- arguments. An operation under a lock is one step, so an interleaving is a list of steps. A `Notify`
-- that is woken is entered in a list. Numbers are natural numbers: a subtraction stops at 0 exactly
-- where the source saturates, and the counters that the source keeps in 32 or 64 bits grow by one a
-- step and are taken not to reach their width. A transaction commits whole; failing storage is not
-- modelled, and the source treats it as a step that did not happen. MusicBee is a world that lists
-- the calls it was sent and answers each. The frames a session sends are data, whose text `json!`
-- makes. The session takes the V6 handlers as a parameter; those of CommandsV6 are not plugged into
-- it. SHA-1 and the random tokens are parameters too.
--
-- Fuel: `read_all` of LibraryChanges/Read/Pages follows pages on fuel, one more than the rows of the
-- log, which its theorem shows to be enough for every page size that callers use (1 or more). `pop_all` of Wire/Frames pops on fuel, one more than the
-- bytes in the buffer, and is shown to pop every frame with that. `pop_while` of Blocked has the
-- length of the log. `sync_all` of CommandsV6/LibrarySync/Pages has the fuel of `read_all`.
--
-- Not modelled: sockets and their tasks, discovery, the MusicBee calls behind each command, the
-- handlers of queries, the other V6 operations, the caches of metadata and covers, what the updater
-- fetches, the web remote's routing and assets, logging and diagnostics.
--
pub mod Base
pub mod Blocked
pub mod Clients
pub mod CommandsV6
pub mod Json
pub mod LibraryChanges
pub mod ListChanges
pub mod Pairing
pub mod Permissions
pub mod Registry
pub mod Session
pub mod SessionV6
pub mod Store
pub mod UpdateState
pub mod V4
pub mod Wire
