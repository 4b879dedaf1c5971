-- ===== src/Lib.antt =====
-- The browser terminal of the dashboard: a home-server dashboard whose owner can open a shell in
-- the browser. This library models the server's and the terminal agent's code for it, with the
-- authentication of the owner, the agent's quick commands, and its reading of Docker's stream of
-- events.
--
-- The parts, and how they work together. `POST /api/terminal/session` passes the session gate,
-- which asks the verifier of Cloudflare Access assertions for the owner and the registry for a
-- session; the registry holds at most one, under a random token. The browser then opens a WebSocket
-- and offers the token in a protocol header; the WebSocket gate claims the session, once. The bridge
-- joins the WebSocket to the agent's local socket: it reads the browser's messages and the agent's
-- lines, writes lines and frames, and ends the session when either side does. The heartbeat pings
-- the WebSocket.
-- Apart from the terminal, the dashboard lets its agent run one of four fixed commands on the host.
--
-- Where each part is modelled:
--   Terminal/Session: apps/server/src/terminal-session-security.ts. The Map is an association list,
--     a method is a function from the map to the map and its outcome; each call has its own reading
--     of the clock, valid or not, and `Calls` makes histories of calls. `Slot` says what they should
--     do, without the map.
--   Terminal/Admission: `Header` is apps/server/src/terminal-websocket-protocol.ts; `Gate` is
--     createTerminalSessionAdmission of terminal-session-admission.ts,
--     createTerminalWebSocketAdmission of terminal-websocket-admission.ts and the handler of
--     terminal-session-route.ts, all in apps/server/src.
--   Terminal/Protocol: apps/server/src/terminal-application-protocol.ts.
--   Terminal/Wire: apps/server/src/terminal-local-wire.ts. `Decoding` compares its line decoder with
--     the shared loop, `Holding` goes on after its throws.
--   Terminal/Lines: the loop that `push` of both line decoders runs. `Chunking` feeds it the chunks
--     of a stream up to the first throw, `Readable` says which frames a stream has, `Framing` writes
--     lines to it.
--   Terminal/Chunks: what a cut of output into chunks should be, for both splitters.
--   Terminal/Agent: `Protocol` is apps/terminal-agent/src/local-protocol.ts.
--   Terminal/Bridge: attachTerminalWebSocketBridge of apps/server/src/terminal-websocket-bridge.ts.
--     `State` has its variables, `Finish` its ends and writes, `Handlers` its handlers, `Events` its
--     callbacks as steps on events; `Forwarding` says when a browser's message reaches the agent.
--   Terminal/Agent/Native: validateRuntime and validateDimensions of
--     apps/terminal-agent/src/native-pty.ts.
--   Terminal/Agent/Session: runTerminalLocalSession of apps/terminal-agent/src/local-session.ts, with
--     its callbacks as steps on events in `Events`; `Queue` is about its queue of output under
--     enqueueFrame and the stream's drain, until failOutputOverflow, which empties it.
--   Terminal/Heartbeat: apps/server/src/terminal-websocket-heartbeat.ts.
--   Owner: apps/server/src/cloudflare-access-owner-auth.ts. `Strings` has the readers of strings,
--     `Config` the constructor, `Jwt` the reading of a token, `Claims` validateVerifiedClaims, `Keys`
--     the key set and the cache, `Verifier` verifyAssertion. What is awaited is an argument; a lookup
--     of a key is cut at its await, so that `move` can interleave the lookups of several calls.
--   Server: apps/server/src/terminal-runtime.ts with createDefaultTerminalSessionAdmission of
--     terminal-session-admission.ts in `Wiring`, and in `Requests` the state that the two gates share
--     and the requests that change it, each of which verifies without another in between.
--   Quick: apps/agent/src/quick-commands.ts. `Command` has the catalogue and sanitizeOutput, `Child`
--     runQuickCommand: what happens to the process is an event.
--   Docker: `Stream` is DockerEventStreamDecoder of apps/agent/src/docker-events.ts, `Reader` how
--     createDockerEventReader of apps/agent/src/docker-broker-events.ts feeds it with a response.
--   Terminal/Tests, Owner/Tests, Server/Tests, Quick/Tests, Docker/Tests: concrete runs.
--   Common: texts as lists of code points with their UTF-8 lengths, JSON values, and
--     `JSON.stringify` for the flat objects that the code writes.
--
-- Parameters: the clock, the token factory, the decoder of UTF-8 and `JSON.parse`
-- (Terminal/Platform), node's StringDecoder, base64url, `toLowerCase`, the import of keys and the
-- check of signatures (Owner/Config `Runtime`), and what the sockets answer while an event is
-- handled (`Env`).
--
-- Bounds and fuel: numbers are natural numbers, for the integers below 2^53 of the code. A reading
-- of the clock is a whole number of milliseconds, though the registry's default clock,
-- performance.now(), reads fractions too, which are not modelled.
-- The loop over tokens has the code's own bound of 8 attempts. The loop over the lines of Docker's
-- events has a round for each character of the text, and one more; a round takes a newline away.
-- `decimal` has n + 1 digits of fuel for the number n, which has fewer.
--
-- Not modelled: fractional readings of a clock, integers from 2^53 on, which JSON.stringify prints
-- rounded (an exit frame's numbers are written out in full), a clock that throws inside a callback
-- of the bridge, observers, `unref`, the
-- abort of a request for keys by its timeout (it is a fetch that fails), options of the verifier that
-- are no natural numbers, a heartbeat's pong timer that is overwritten while armed, and the
-- request, the status and the timeout around a response of Docker's. The agent's spawn of a PTY,
-- the server's PTY lifecycle, the dashboard's data, the agent's other readers and the web interface
-- are not part of this library yet.
pub mod Common
pub mod Docker
pub mod Owner
pub mod Quick
pub mod Server
pub mod Terminal
