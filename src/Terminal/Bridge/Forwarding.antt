-- ===== src/Terminal/Bridge/Forwarding.antt =====
-- handleBrowserMessage of terminal-websocket-bridge.ts: when a message reaches the agent.
use dashboard_rpi.Common.{
  ℕ, ◌<◌, ◌≡◌, ◌⊎◌, inl, inr, refl, ap, ◌∙◌, Bool, true, false, Option, none, some, arith, Text,
}
use dashboard_rpi.Terminal.Protocol.{
  ClientMessage, ParseResult, parsed, refused, parse_terminal_client_message,
}
use dashboard_rpi.Terminal.Platform.{Platform}
use dashboard_rpi.Terminal.Session.Registry.{Sessions, Metadata, touch_claimed_at}
use dashboard_rpi.Terminal.Bridge.State.{
  Env, Bridge, active, closed, accepted, local_written, emit, WebSocketData, Reason,
  local_unavailable, bridge_session_expired, browser_protocol_error, local_backpressure,
  max_local_write_buffer_bytes, decode_web_socket_text, is_over, is_active, is_closed, unusable,
  destroy_local,
}
use dashboard_rpi.Terminal.Bridge.Finish.{
  finish, shut, close_websocket, revoke_session, write_local_frame,
}
use dashboard_rpi.Terminal.Bridge.Handlers.{
  message_line, handle_browser_message, handle_text, handle_parsed, handle_touched, forward,
}

-- The local socket takes a write.
pub record Takes (env : Env) (b : Bridge) : Type 0 where
  pub usable : unusable b.local ≡ false
  pub not_ended : env.writable_ended ≡ false
  pub room : env.writable_length < max_local_write_buffer_bytes
  pub answer : env.write ≡ accepted

-- When a browser's message is to be forwarded: it is a text frame that decodes and parses, the
-- registry's touch of the claimed session succeeds, the message has a line, and the socket takes a
-- write.
pub record Forwardable (token : Text) (p : Platform) (env : Env) (data' : WebSocketData)
    (is_binary : Bool) (b : Bridge) : Type 0 where
  pub textual : is_binary ≡ false
  pub body : Text
  pub decoded : decode_web_socket_text p data' ≡ some body
  pub message : ClientMessage
  pub parses : parse_terminal_client_message (p.json_parse body) ≡ parsed message
  pub touched : Sessions
  pub meta : Metadata
  pub touches : touch_claimed_at token env.now b.sessions ≡ (touched, some meta)
  pub line : Text
  pub written : message_line message ≡ some line
  pub takes : Takes env b

finish-closed :
    (token : Text) (env : Env) (code : ℕ) (reason : Reason) (b : Bridge)
    → (finish token env code reason b).state ≡ closed
unfolding finish shut close_websocket revoke_session destroy_local is_closed
finish-closed token env code reason b = ground arith

-- A write goes through, or the bridge ends.
write_local_frame-cases :
    (token : Text) (env : Env) (line : Text) (b : Bridge)
    → b.state ≡ active
    → (Takes env b × (write_local_frame token env line b ≡ emit (local_written line) b))
      ⊎ ((write_local_frame token env line b).state ≡ closed)
unfolding write_local_frame is_over
write_local_frame-cases token env line b act =
    let unavailable = finish-closed token env 1011 local_unavailable b in
    let overfull = finish-closed token env 1013 local_backpressure b in
    let filled = finish-closed token env 1013 local_backpressure (emit (local_written line) b) in
    ground arith

-- The bridge after a message is forwarded.
abbrev pub forwarded :
    (token : Text) (p : Platform) (env : Env) (data' : WebSocketData) (is_binary : Bool)
    (b : Bridge)
    → Forwardable token p env data' is_binary b
    → Bridge
forwarded token p env data' is_binary b f =
    emit (local_written f.line) (record b { sessions = f.touched })

-- The handler's outcome: the message is forwarded, or the bridge is closed.
abbrev Outcome : Text → Platform → Env → WebSocketData → Bool → Bridge → Bridge → Type 0
Outcome token p env data' is_binary b after =
    ((f : Forwardable token p env data' is_binary b) × (after
        ≡ forwarded token p env data' is_binary b f))
    ⊎ (after.state ≡ closed)

touched-Outcome :
    (token : Text) (p : Platform) (env : Env) (data' : WebSocketData) (body : Text)
    (message : ClientMessage) (m : Sessions) (meta : Metadata) (b : Bridge) (o : Option Text)
    → b.state ≡ active
    → decode_web_socket_text p data' ≡ some body
    → parse_terminal_client_message (p.json_parse body) ≡ parsed message
    → touch_claimed_at token env.now b.sessions ≡ (m, some meta)
    → message_line message ≡ o
    → Outcome token p env data' false b (forward token env o (record b { sessions = m }))
unfolding forward
touched-Outcome token p env data' body message m meta b none act d e t w =
    inr (finish-closed token env 1008 browser_protocol_error (record b { sessions = m }))
touched-Outcome token p env data' body message m meta b (some line) act d e t w =
    elim (write_local_frame-cases token env line (record b { sessions = m }) act) [
      | inr over ↦ inr over
      | inl (takes, result) ↦ inl (
          (
            record {
              textual = refl;
              body = body;
              decoded = d;
              message = message;
              parses = e;
              touched = m;
              meta = meta;
              touches = t;
              line = line;
              written = w;
              takes = record {
                usable = takes.usable;
                not_ended = takes.not_ended;
                room = takes.room;
                answer = takes.answer;
              };
            },
            result,
          ))
    ]

parsed-Outcome :
    (token : Text) (p : Platform) (env : Env) (data' : WebSocketData) (body : Text)
    (message : ClientMessage) (b : Bridge) (o : Sessions × Option Metadata)
    → b.state ≡ active
    → decode_web_socket_text p data' ≡ some body
    → parse_terminal_client_message (p.json_parse body) ≡ parsed message
    → touch_claimed_at token env.now b.sessions ≡ o
    → Outcome token p env data' false b (handle_touched token env message o b)
unfolding handle_touched
parsed-Outcome token p env data' body message b (m, none) act d e t =
    inr (finish-closed token env 1008 bridge_session_expired (record b { sessions = m }))
parsed-Outcome token p env data' body message b (m, some meta) act d e t =
    touched-Outcome token p env data' body message m meta b (message_line message) act d e t refl

body-Outcome :
    (token : Text) (p : Platform) (env : Env) (data' : WebSocketData) (body : Text) (b : Bridge)
    (o : ParseResult)
    → b.state ≡ active
    → decode_web_socket_text p data' ≡ some body
    → parse_terminal_client_message (p.json_parse body) ≡ o
    → Outcome token p env data' false b (handle_parsed token env o b)
unfolding handle_parsed
body-Outcome token p env data' body b (refused _) act d e =
    inr (finish-closed token env 1008 browser_protocol_error b)
body-Outcome token p env data' body b (parsed message) act d e =
    parsed-Outcome token p env data' body message b _ act d e refl

text-Outcome :
    (token : Text) (p : Platform) (env : Env) (data' : WebSocketData) (b : Bridge) (o : Option Text)
    → b.state ≡ active
    → decode_web_socket_text p data' ≡ o
    → Outcome token p env data' false b (handle_text token p env o b)
unfolding handle_text
text-Outcome token p env data' b none act d =
    inr (finish-closed token env 1008 browser_protocol_error b)
text-Outcome token p env data' b (some body) act d =
    body-Outcome token p env data' body b _ act d refl

handle_browser_message-binary :
    (token : Text) (p : Platform) (env : Env) (data' : WebSocketData) (b : Bridge)
    → b.state ≡ active
    → handle_browser_message token p env data' true b
      ≡ finish token env 1008 browser_protocol_error b
unfolding handle_browser_message is_over is_active
handle_browser_message-binary token p env data' b act = ground arith

handle_browser_message-textual :
    (token : Text) (p : Platform) (env : Env) (data' : WebSocketData) (b : Bridge)
    → b.state ≡ active
    → handle_browser_message token p env data' false b
      ≡ handle_text token p env (decode_web_socket_text p data') b
unfolding handle_browser_message is_over is_active
handle_browser_message-textual token p env data' b act = ground arith

handle_browser_message-Outcome :
    (token : Text) (p : Platform) (env : Env) (data' : WebSocketData) (is_binary : Bool)
    (b : Bridge)
    → b.state ≡ active
    → Outcome token p env data' is_binary b (handle_browser_message token p env data' is_binary b)
handle_browser_message-Outcome token p env data' true b act = inr (
    ap (λ (x : Bridge). x.state) (handle_browser_message-binary token p env data' b act)
    ∙ finish-closed token env 1008 browser_protocol_error b)
handle_browser_message-Outcome token p env data' false b act =
    rw (handle_browser_message-textual token p env data' b act)
      (text-Outcome token p env data' b (decode_web_socket_text p data') act refl)

write_local_frame-Takes :
    (token : Text) (env : Env) (line : Text) (b : Bridge)
    → b.state ≡ active
    → Takes env b
    → write_local_frame token env line b ≡ emit (local_written line) b
unfolding write_local_frame is_over
write_local_frame-Takes token env line b act t = ground arith

forwardable :
    (token : Text) (p : Platform) (env : Env) (data' : WebSocketData) (is_binary : Bool)
    (b : Bridge)
    → b.state ≡ active
    → (f : Forwardable token p env data' is_binary b)
    → handle_browser_message token p env data' is_binary b
      ≡ forwarded token p env data' is_binary b f
forwardable token p env data' true b act f = absurd (let t = f.textual in ground arith)
forwardable token p env data' false b act f =
    handle_browser_message-textual token p env data' b act
    ∙ rw f.decoded (
        unfold handle_text in
        rw f.parses (
          unfold handle_parsed in
          rw f.touches (
            unfold handle_touched in
            rw f.written (
              unfold forward in
              write_local_frame-Takes token env f.line (record b { sessions = f.touched }) act
                (record {
                  usable = f.takes.usable;
                  not_ended = f.takes.not_ended;
                  room = f.takes.room;
                  answer = f.takes.answer;
                })))))

-- What an active bridge does with a message from the browser, in every case. If it is a text frame
-- that decodes and parses as a message, the registry's touch of the claimed session succeeds, the
-- message has a line for the agent, and the agent's socket is open, not ended, has less than 64 KiB
-- waiting and accepts the write, then exactly that line is written, and besides the registry after
-- the touch nothing else changes. In every other case, a binary frame among them, the bridge is
-- closed.
pub handle_browser_message-forwards :
    (token : Text) (p : Platform) (env : Env) (data' : WebSocketData) (is_binary : Bool)
    (b : Bridge)
    → b.state ≡ active
    → ((f : Forwardable token p env data' is_binary b) × (handle_browser_message token p env data'
            is_binary b
          ≡ forwarded token p env data' is_binary b f))
      ⊎ ((¬ Forwardable token p env data' is_binary b)
          × ((handle_browser_message token p env data' is_binary b).state ≡ closed))
handle_browser_message-forwards token p env data' is_binary b act =
    elim (handle_browser_message-Outcome token p env data' is_binary b act) [
      | inl done ↦ inl done
      | inr over ↦ inr (
        (λ f.
            let stays : (handle_browser_message token p env data' is_binary b).state ≡ active =
              ap (λ (x : Bridge). x.state) (forwardable token p env data' is_binary b act f)
              ∙ act in
            ground arith),
        over,
      )
    ]
