-- ===== src/Lib.antt =====
-- The core of agentgather: rooms in which agents and people exchange messages, and the tunnel that
-- makes a room on a host's machine reachable under a slug.
--
-- Parts and files. A module models the file of the repository that its opening comment names:
--   Tunnel/Limits    src/tunnel/limits.ts    BrokerGuards: rate windows, requests in flight
--   Tunnel/Relay     src/tunnel/relay.ts     RelayHub: queues between participants and the host
--   Tunnel/Broker    src/tunnel/broker.ts    TunnelBroker: the routes; it holds guards and a hub
--   Tunnel/Session   src/tunnel/host-session.ts  HostTunnelSession, as interleaved steps
--   Tunnel/Protocol  src/tunnel/protocol.ts  errors, route metadata, envelopes
--   Tunnel/Headers   src/tunnel/protocol.ts  headers that carry credentials
--   Server/Wait      src/server/wait.ts      the waits of the long poll
--   Storage/Rooms    src/storage/room-store.ts  one room's files: state, log, members, cursors
--   Storage/Boardrooms  src/storage/boardroom-store.ts  channels and how far each was read
--   Storage/Forums   src/storage/forum-store.ts   posts and comments of forum channels
--   Storage/Lock     src/storage/lock.ts     the writer lock, as interleaved steps of its callers
--   Storage/Joined   src/storage/joined-rooms-store.ts  the rooms that a device's user has joined
--   Storage/Joined/History  src/storage/joined-history-store.ts  the histories a device keeps
--   Protocol/Types   src/protocol/types.ts   rooms, participants, messages
--   Protocol/Slug    src/protocol/validation.ts  safe slugs
--   Protocol/Attention  src/protocol/attention.ts, src/protocol/wake-tier.ts  modes and wake tiers
--   Protocol/Attendance src/protocol/attendance.ts  attendance policies
--   Protocol/Mentions   src/protocol/mentions.ts   @mentions outside code
--   Protocol/Messages   src/protocol/messages.ts   a client's message, checked and built
--   Protocol/Boardroom  src/protocol/boardroom.ts  channels, read positions, names
--   Protocol/Forum      src/protocol/forum.ts      posts, comments and tags
--   Protocol/Spaces     trimming and collapsing of white space, as those files use it
--   Platform/Status     src/platform/status.ts     the status that the platform shows of a room
--   Platform/Metering   src/platform/metering.ts   the ledger of what public routes use
--   Common           tests, lists, integers, JavaScript strings and maps, calls that may throw
--
-- How they interact. A participant's request passes the guards (`enter`), starts the idle timer of
-- its route again (`touch`) and waits in the hub (`enqueue`) until the host polls (`claim_relay`) and
-- answers (`respond_relay`); a room appends the message that comes with it (`append_message_result`),
-- which checks the input (`client_message_input_from_record`) and finds the mentions
-- (`parse_mentions`). A forum post is made in a channel that the boardroom names
-- (`assert_forum_channel` reads it with `read_boardroom`), and the view of the default channel counts
-- the room's own log against a reading position (`read_channel_view`). The platform's status reads the
-- broker's metadata of a route (`route_signal_from_metadata`). The host's side of the tunnel is a
-- session that sends heartbeats, polls and hands each request to a handler (`Step`). A function keeps
-- the source's name in snake case; a helper that is a piece of a function stands above it.
--
-- How the source is read. A class is a record, a method a function from the state to the new state
-- and a value or an error; what a call changed before it throws stays changed. `Map` is a list of
-- pairs that keeps the order of insertion. A string is the list of its UTF-16 code units. A timestamp
-- is a number of milliseconds, as the ISO texts of the source are read back. A method reads the clock
-- once: the readings inside one call are taken for equal. A number of the source is a natural number,
-- but for a difference of two counts that may be negative, which is an integer (`difference`);
-- `Math.max(0, a - b)` is the truncated difference, and `now - t` is also truncated, which says the
-- same of a clock that does not go back. A promise of the hub is an entry of `settled`; a timer is a
-- field of the request that it watches, and its callback is `expire`, which may run at any time from
-- then on. The poll loops of a host's session are counted by where they stand, since each call of
-- its `start` starts one more.
--
-- Parameters. The ids that are minted at random, `new URL`, `Buffer.byteLength` and the clock are
-- arguments. Some histories ask that minted ids be new, which the random ids of the source are but
-- for chance. A room's file is an option, absent until it is written, and its JSON text is the value
-- that it reads back as. The stores take it that the writer lock makes each function that takes it
-- one transition; Storage/Lock is about the lock itself, in which every system call is a step and a
-- process may die between two of them. `toLowerCase`, the hash of a file name, the length of a file
-- in bytes and the redaction of a saved text are arguments too.
--
-- Bounds. Loops are structural recursion over the list that the source walks through. The loop that
-- trims a saved history to its byte cap runs on fuel, as much as the history has messages and posts,
-- each of which it drops at most once. Safe integers are tested as the source tests them; ids of
-- messages are not bounded.
--
-- Not modelled: HTTP servers, the command line, browser pages, the network side of the tunnel, log
-- lines, and the hooks of the meter around a forward; these are input and output around what is
-- modelled. Nor are the platform's accounts and registry, and of the host's session the waits of
-- `stop`. Of saved histories the four regular expressions that redact a text are left out. The
-- clock of the writer lock is left out: a file that is empty may be found old at any time, and a
-- caller may give up at any time.
pub mod Common
pub mod Platform
pub mod Protocol
pub mod Server
pub mod Storage
pub mod Tunnel
