-- ===== src/Lib.antt =====
-- The remote management platform in Go: a server that brokers between enrolled agents and viewers in a
-- browser, with WebSocket frames of its own, a platform key that signs credentials, enrollment codes,
-- API keys and a SQLite store. What of the program is modelled, and where:
--
--   internal/protocol    Protocol. Protocol/Stream is what ReadFrame uses of bufio and encoding/binary,
--                        Protocol/Frame is websocket.go and the constants of message.go,
--                        Protocol/Message its records. A reader is a function from the bytes that a
--                        connection delivers to an outcome: a value and the rest, a read error, or a
--                        run-time panic.
--   internal/security    Security. Security/Hmac is hmac.go, Security/Platform platform.go (with the key
--                        file in Security/Platform/KeyFile), Security/Token token.go,
--                        Security/Middleware middleware.go. Security/Hex is encoding/hex.
--                        Security/Tls is tls.go and tls_acme.go, Security/Tls/Generate
--                        tls_selfsigned.go: the files under the certs directory as a record, through
--                        generations whose writes may fail.
--   internal/store       Store is store.go: the records and the interface, a record of functions over
--                        an abstract state. Store/Sqlite is sqlite.go, three tables as lists of rows
--                        and one function per statement or transaction; Store/Table is what it uses of
--                        SQL. Store/Registry is the abstract specification of the agents: two maps.
--   cmd/server           Server. Server/State is server.go, Server/Upgrade websocket.go, Server/Agent
--                        handler_agent.go, Server/Viewer handler_viewer.go, Server/Api handler_api.go;
--                        of main.go, Server/Admin is ensureAdminKey, Server/Routes the table of routes
--                        and Server/Start the rest. Http is what they use of net/http.
--                        Server/Steps is the server as a relation: a step is a handler or one round
--                        of a loop, and the steps of the connections interleave in any order.
--   cmd/agent            Client. Client/State and Client/Loop are agent.go, Client/Dial its
--                        dialWebSocket, Client/Stream its run over the bytes of its connections,
--                        Client/Capture and Client/Screen capture.go (the test pattern in
--                        Client/Screen/Pattern), Client/Input input.go, Client/Info the files
--                        sysinfo*.go with a module for each platform, Client/Program main.go.
--   both programs        Session: the agent's enrollment and its first frame against the server, a frame
--                        of a viewer through the server to the agent, and a picture the other way.
--   the Go library       Go: what the program uses of strings, strconv, net, os and path/filepath.
--
-- Go functions keep their names in snake case, methods take their receiver last, and a function that
-- changes state returns the new one beside its result. A live agent is a pointer that goroutines share:
-- it lies in `live` of the server under the number of its connection. A goroutine that serves a
-- connection is an entry of `agent_loops` or `viewer_loops`. Frames that the server writes are kept in
-- `sent`; the error of a write is dropped, as the code does. A command that the agent runs is data: its
-- program and its arguments. A channel is a number, and `captures` of the agent holds its capture
-- goroutines: each is on its way to its select, or waits in it for the channel that it entered with.
--
-- Parameters. Hash functions, Ed25519, HKDF, PEM, x509, base64 and encoding/json are arguments, with the
-- size and the bytes of a hash, the laws of the key library, and the round trip of a configuration
-- through JSON as hypotheses. The output of the tools of the operating system, the contents of files and
-- the success of reads and writes are arguments too. `max_alloc` is the largest slice that `make`
-- allocates. Randomness is an argument. `Call` holds what the world answers during a call of the store:
-- the clock, read twice, and for each statement whether the driver fails. The functions recurse on their
-- input. The digits of a number are made on fuel, one more than the number, which is more than it has
-- digits; the message loop of the agent is given a count of frames, one more than there are bytes on the
-- stream, which is enough since a frame takes two bytes at least.
--
-- Bounds. Bytes are natural numbers, with `IsByte` where it matters; lengths in a frame are written
-- with their division and remainder, and so are products of 64-bit numbers and differences of times.
-- Text is ASCII. Times are nanoseconds, and whole seconds in the tables, since RFC 3339 keeps no more.
-- Rows of one time are listed in the order of their insertion, which SQLite leaves open. The order of
-- the registry is one that a range over a Go map may take. The test pattern is modelled for any width
-- and height; the program draws 800 by 600.
--
-- Not modelled: what the tools of the operating system and the JPEG encoder do, the parsing of URLs and
-- of floating-point numbers, what net/http does behind a listener, logs, the web dashboard and the
-- scripts. A handler is one step of the server; since it holds the lock for parts of it only, what it
-- does behind its checks is a step of its own as well, from any later state. The unlocked writes to a
-- live agent's fields belong to the round that makes them.
pub mod Base
pub mod Go
pub mod Http
pub mod Protocol
pub mod Security
pub mod Store
pub mod Server
pub mod Client
pub mod Session
pub mod Tests
