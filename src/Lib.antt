-- ===== src/Lib.antt =====
-- LAN A2A: agents on a local network that find each other, open channels, exchange messages and
-- files, and fall back to a relay server. The library models the program's Go code; each file names
-- the code that it is about.
--
-- The parts and their files:
-- * Channel (internal/channel/channel.go): the channels that an agent knows, by ID. `create`, `leave`,
--   `get`, `is_member`, `get_host`, `get_mode` and `list_by_peer` are the methods of `Manager`. A leave
--   that empties a channel deletes it; a leave of the host promotes the first member that remains.
-- * FileTransfer (internal/filetransfer/transfer.go): a file arrives in chunks of 64 KiB, each written
--   at its offset, and is complete once as many distinct chunks have arrived as were announced.
--   `prepare_incoming` and `add_chunk` are the receiver's methods, `split_file` is the sender's
--   SplitFile. The disk is a map from paths to contents. FileTransfer.Interleaving: several transfers at
--   once.
-- * FileService (internal/fileservice/types.go, service.go): chunked transfers with up to three retries
--   for each chunk; `send_concurrent` is sendConcurrent, with a `worker` for each chunk.
--   FileService.Pool: the same workers, at most `maxWorkers` at a time, in any order of their rounds, as
--   a step relation.
--   FileService.Events (service.go, with internal/plugins/plugins.go): the events of a transfer, and the
--   plugins and hooks that get them. FileService.Events.Syncing: the events of SyncFolder.
--   FileService.Folders (foldersync.go): the walk of a folder, its diff against the saved manifest, and
--   SyncFolder.
-- * Protocol (internal/protocol/message.go): the messages, and the reader over the bytes of one.
--   Protocol.Identifiers: NewMsgID.
-- * RelayServer (cmd/lan-relay/main.go): the registered agents, the connections, and the index of
--   the channels. `register_agent`, `disconnect` and `handle_message` are the parts of handleWS:
--   the registration, the deferred cleanup, and one round of its loop. Connections are numbered; two
--   connections can carry the same agent ID, which is how the source's pointer comparison is kept.
--   RelayServer.Handler: handleWS as a whole, for one connection. RelayServer.Sessions: the handlers of
--   all connections, in any order. RelayServer.Order: what one connection is sent, in its order;
--   RelayServer.Sets: the members of a channel are a set.
-- * RelayClient (internal/relay/client.go): an agent's connection to the relay, its back-off and one
--   round of its read loop. RelayClient.Loops: what its ping loops and query loops send.
-- * Network (cmd/lan-a2a/main.go, cmd/lan-relay/main.go, internal/relay/client.go): the read loop of the
--   client with the callbacks of main, and the way of a channel and its messages through the relay.
-- * Peers (internal/p2p/p2p.go): the peers that are online on the local network, a connection opened
--   to one, and the handler of a connection that one opens. Peers.Discovery: what is announced by mDNS,
--   and what a round of browsing reports. Peers.Running: findings, registrations, ticks of
--   cleanupStalePeers and ends of connections in any order; Peers.Rounds: when StartDiscovery browses. Times are in nanoseconds.
-- * Agent (cmd/lan-a2a/main.go): the agent over these parts: who is online, the connections that it
--   holds, and creating a channel, sending to it and leaving it. Agent.Sharing: the agent with its files
--   (`Node`), ShareFile, ShareFolder, SyncFolder, and the callbacks that main installs for messages.
--   Agent.Startup: loadProfile and the identifier and port. Agent.Shutdown: what discovery reports, and
--   the goodbyes at the end of main. Agent.Driven: the agent's methods as an AgentApi.
-- * AgentApi (internal/mcp/server.go): the interface between the agent and those who
--   drive it, by one function on calls.
-- * Tools (internal/mcp/server.go): the server of the tools, over any AgentApi. `plan` is the switch of
--   handleToolCall up to the call of a method, `carry_out` the call and the reply, `run` is Run, and
--   `tools` the listing. Tools.Documented (docs/generate.go): the tools that the generated documentation
--   lists.
-- * Cli (internal/cli/cli.go): the command line, over any AgentApi. `run_lines` is the loop of Run.
-- * Plugins (internal/plugins/plugins.go): the manager of plugins and hooks, and the built-in plugins.
-- * Profile (internal/profile/profile.go) and Profile.Cards (internal/adapter/adapter.go): an agent's
--   profile, its file, and its agent card. Profile.Identifiers: NewID.
--   Profile.Tasks: the tasks and messages of the agent protocol.
--
-- How the parts meet: messages of Protocol travel over RelayServer, RelayClient and Peers; FileService
-- sends the chunks that its own types cut; FileTransfer receives what SplitFile cuts; Agent.Sharing joins
-- these two ends. Tools and Cli are clients of AgentApi, which Agent.Driven fills. Network joins
-- Agent, RelayClient and RelayServer, and FileService.Events joins FileService and Plugins. Prelude has
-- what they share: Boolean tests, lists, results, digits, Go's maps as association lists
-- (Prelude.GoMap), and signed 64-bit integers (Prelude.Int).
--
-- Conventions: a panic is a value (`panics`, or `none`). A mutex makes an operation one step; what other
-- goroutines do between two critical sections is an argument where it matters. The clock, random
-- identifiers, JSON, SHA-256, the file system and the network are parameters or arguments. Byte slices
-- are lists of numbers, integers of 64 bits wrap around where the source's arithmetic can overflow.
-- A map's iteration order is the order of its entries, and theorems speak of membership and lookups.
--
-- Fuel and bounds: the rounds of a chunk's worker have fuel 4, and a worker ends after at most three
-- retries and one more test of the loop's condition (FileService.Workers.worker-fuel). Every other loop
-- recurses on its input. The digits of a number have the number itself as fuel, and reading them gives
-- the number back (Prelude.Digits). The rounds in FileService.Pool need no fuel: it is a relation.
--
-- Not modelled: the flags and signals of main and its choice between the tools server and the command
-- line, the library for mDNS, the logger and the layout of what the command line prints (pure
-- output), the text that the generators of documentation write, and the TypeScript client.
-- Within the modelled files: mutexes, the WebSocket library under Conn, the identifiers of transfers
-- and channels made from the clock, the descriptions in the listing of the tools, errors of reading a
-- finished file back for the checksum that is logged, letters beyond ASCII in the words of commands, and
-- connections on which writing fails, except for the error that SendMessage returns.
pub mod Prelude
pub mod Channel
pub mod FileTransfer
pub mod FileService
pub mod Protocol
pub mod RelayServer
pub mod RelayClient
pub mod Peers
pub mod Profile
pub mod Agent
pub mod AgentApi
pub mod Network
pub mod Tools
pub mod Cli
pub mod Plugins
