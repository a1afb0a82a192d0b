-- ===== src/Lib.antt =====
-- pupptyeer: a daemon that runs programs in pseudo-terminals and serves them to many clients, which
-- attach, replay the scrollback, resize, capture the screen, kill, and collect idle sessions.
--
-- The parts, from the inside out, with the code that they model:
-- - Ring: pkg/ptysession/ring.go. The scrollback of a session: `append` and `snapshot` over the
--   buffer, its write index and its `full` flag, with Go's `copy` as a function on lists.
-- - Scorc: pkg/ptysession/scorc.go. The rewriter of ESC [ u in front of the terminal emulator; its
--   loop is `scan`, over the held bytes followed by the chunk.
-- - Core: pkg/ptysession/session.go. One supervised child: `start`, `read_chunk` (a round of
--   `readLoop`), `finish`, `write`, `resize_locked`, `kill`, `exited_code`; below it Core/Render
--   (`renderLocked` and the captures), Core/Settle (`waitSettle`) and Core/Lock (`lockTimeout`, `Wait`).
--   Core/Terminal is the interface
--   of the emulator, github.com/charmbracelet/x/vt, which is a parameter without any law; Core/Runes
--   is Go's conversion of runes to a string.
-- - Protocol: internal/protocol/protocol.go. The messages, as records; their tags are in Protocol/Codec.
-- - World: the state of internal/server/{server,session,raw}.go. Objects that the source reaches by
--   pointer (sessions, connections, raw connections) are numbered and live in a store, so that the
--   same connection can be attached to several sessions and the registry can map an id to one
--   particular session. Go maps are association lists. A connection's queue holds what it has been
--   sent and its writer has not taken; a queue that is full marks the connection as being dropped. Where a
--   `select` may take either of two cases, the connection holds the picks that it is going to make.
-- - Attach: internal/server/session.go. Fan-out of output, exit, kill, attach with its replay,
--   detach, the arbitration of the size.
-- - Daemon: internal/server/server.go, the walks over the registry (`listSessions`, `gc`, `Close`) and
--   the life of a connection.
-- - Dispatch: internal/server/server.go, the requests: `dispatch` and its handlers.
-- - Raw: internal/server/raw.go. The raw firehose: the handshake line, the input, the end of a pipe.
-- - Cli: cmd/pupptyeer/config.go (Cli/Keys: key specifications and the parsed configuration; Cli/Load:
--   where it comes from) and cmd/pupptyeer/ctl.go (Cli/Matcher: the detach sequence in forwarded
--   input; Cli/AttachLoop: the two loops of `ctl attach`, with what they print and forward; Cli/Args:
--   arguments; Cli/Expect and Cli/ExpectLoop: the matching and the loop of `ctl expect`; Cli/Ctl:
--   `runCtl`, from its arguments to the message that a command sends first). Cli/AttachLoop/Shown,
--   Cli/ExpectLoop/Live and Cli/Ctl/Subsecond meet the daemon's functions. Texts there are ASCII; what
--   the program asks the system for is an argument.
-- - Pump: internal/server/server.go and raw.go, the goroutines (`Serve`, `readLoop`, `writeLoop`,
--   `serveRaw`, `handleRawConn`) as operations on the World and on what each socket was given (`Op`,
--   `step`, `run`). Pump/Stable and Pump/Requests carry a relation on one connection across everything
--   that the daemon does; the relation is a parameter (`Stable`), which Pump/Order fills.
-- - Wire: what both sides use of encoding/json (Wire/Json: values; Wire/Json/Fields: an object's members
--   and how a field is found) and of bufio (Wire/Lines: the lines of a stream). Protocol/Codec has the
--   tags of internal/protocol/protocol.go and Client/Wire/Tags those of clients/go/wire.go; the text of a
--   JSON value (`print`, `parse`) and the mending of texts that are not UTF-8 (`clean`) are arguments.
-- - Client: clients/go/client.go. The connection as steps of its goroutines (`Op`, `step`, `run`); below
--   it Client/Calls and Client/Replies (the calls that wait), and Client/Verbs (the methods and their
--   messages), which meet the daemon's own functions in Client/Verbs/Daemon, Client/Firehose (`AttachRaw`
--   and its buffered reads), and Client/Connect.
-- - Mcp: mcp/auth.go, the gate before the HTTP endpoint (Mcp/Auth; net and go-oidc are arguments),
--   mcp/tools.go, the tools behind it, as calls of the client (Mcp/Tools), and where the daemon's socket
--   is (Mcp/Socket).
-- - Boot: cmd/pupptyeer/daemon.go, `newDaemon`: the start up to the two sockets, as a log of system
--   calls; the system answers each by those before it (Boot/Sockets). Boot/Service: `runDaemon`, the
--   commands that install, uninstall and control the daemon as a service, and what they write for
--   systemd.
--
-- A dispatched request calls Attach and Daemon, which change the World and call Core for the session's
-- own state; Core uses Ring for the scrollback and Scorc in front of the emulator. What runs under one
-- lock, or between two accesses of shared state, is one function; other goroutines run between these,
-- and theorems about runs (Core/Lifecycle, Client/Calls, Pump) are about any sequence of them.
--
-- Fuel: the loop that cuts the scrollback (`split_chunks`) has one more than the snapshot's length, and
-- each round takes at least a byte; the column loop (`row_loop`) has one more than the width, and each
-- round advances by at least a column; a scan of `ctl expect` has one more than the bytes of its window,
-- and each round cuts at least a byte off; the rounds of `waitSettle` and `lockTimeout` are counted by
-- their theorems.
--
-- Integers are those of a 64-bit machine where that shows: `int32` for the exit code, `uint16` for the
-- PTY's size, `int64` for durations. Times are nanoseconds.
--
-- Not modelled: sockets, goroutine scheduling within one lock, the text of JSON values (arguments) and
-- base64 (a field of `World.Host`), the operating system's part of a PTY (its answers are arguments),
-- the discarding of the emulator's replies, the MCP and HTTP servers, the flag library, the regular
-- expressions of `ctl expect` (arguments), `ctl steal` (it hands a process over with reptyr), what `ctl`
-- prints of lists, the service manager itself (its answers are arguments), the dispatch of subcommands,
-- and the programs around the daemon (packaging, the clients in other languages).
pub mod Prelude
pub mod Pump
pub mod Ring
pub mod Scorc
pub mod Core
pub mod Protocol
pub mod World
pub mod Attach
pub mod Daemon
pub mod Dispatch
pub mod Boot
pub mod Cli
pub mod Raw
pub mod Client
pub mod Mcp
pub mod Wire
