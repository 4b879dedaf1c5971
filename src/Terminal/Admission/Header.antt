-- ===== src/Terminal/Admission/Header.antt =====
-- apps/server/src/terminal-websocket-protocol.ts: the `Sec-WebSocket-Protocol` header.
-- A header is ASCII text, so its length is its number of characters.
use dashboard_rpi.Common.{
  ℕ, Bool, false, ◌&&◌, ◌||◌, Option, none, some, List, [], ◌∷◌, ◌==◌, ltb, if◌then◌else◌, length,
  is_empty, Text, codes, text_eq,
}
use mathlib.Core.List.{reverse}
use dashboard_rpi.Terminal.Session.Boundary.{is_terminal_session_token}

abbrev pub application_protocol : Text
application_protocol = codes "dashboard-rpi5-terminal-v1"

abbrev pub session_protocol_prefix : Text
session_protocol_prefix = codes "session."

abbrev pub protocol_header_max_length : ℕ
protocol_header_max_length = 128

-- A header of a request: absent, one value, or several.
pub data HeaderValue : Type 0 where
  absent : HeaderValue
  single : Text → HeaderValue
  many : List Text → HeaderValue

pub data ParseResult : Type 0 where
  parsed : Text → ParseResult
  header_required header_invalid : ParseResult

-- `isHttpOws`.
unfoldable pub is_http_ows : ℕ → Bool
is_http_ows code = code == 0x20 || code == 0x09

-- The first loop of `trimHttpOws`; the second is the same from the other end.
unfoldable pub drop_ows : Text → Text
unfolding is_http_ows
drop_ows [] = []
drop_ows (c ∷ s) = if is_http_ows c then drop_ows s else c ∷ s

unfoldable pub trim_http_ows : Text → Text
unfolding drop_ows
trim_http_ows value = reverse (drop_ows (reverse (drop_ows value)))

-- `value.includes(c)` for one character.
unfoldable pub includes : ℕ → Text → Bool
includes c [] = false
includes c (d ∷ s) = d == c || includes c s

unfoldable pub prepend : ℕ → List Text → List Text
prepend c [] = (c ∷ []) ∷ []
prepend c (part ∷ parts) = (c ∷ part) ∷ parts

-- `value.split(",")`.
unfoldable pub split_comma : Text → List Text
unfolding prepend
split_comma [] = [] ∷ []
split_comma (c ∷ s) = if c == b',' then [] ∷ split_comma s else prepend c (split_comma s)

-- `s.slice(prefix.length)` where `s.startsWith(prefix)`, else `none`.
unfoldable pub strip_prefix : Text → Text → Option Text
strip_prefix [] s = some s
strip_prefix (p ∷ ps) [] = none
strip_prefix (p ∷ ps) (c ∷ s) = if c == p then strip_prefix ps s else none

unfoldable pub parse_session_part : Option Text → ParseResult
parse_session_part none = header_invalid
parse_session_part (some token) =
    if is_terminal_session_token token then parsed token else header_invalid

unfoldable pub parse_parts : List Text → ParseResult
unfolding trim_http_ows strip_prefix parse_session_part
parse_parts (first ∷ second ∷ []) =
    if text_eq (trim_http_ows first) application_protocol
    then parse_session_part (strip_prefix session_protocol_prefix (trim_http_ows second))
    else header_invalid
parse_parts _ = header_invalid

unfoldable pub parse_text : Text → ParseResult
unfolding includes split_comma parse_parts
parse_text value =
    if is_empty value
    then header_required
    else if ltb protocol_header_max_length (length value)
        || includes b'\r' value
        || includes b'\n' value
    then header_invalid
    else parse_parts (split_comma value)

-- `parseTerminalWebSocketProtocolHeader`.
unfoldable pub parse_terminal_websocket_protocol_header : HeaderValue → ParseResult
unfolding parse_text
parse_terminal_websocket_protocol_header absent = header_required
parse_terminal_websocket_protocol_header (single value) = parse_text value
parse_terminal_websocket_protocol_header (many []) = header_required
parse_terminal_websocket_protocol_header (many (_ ∷ _)) = header_invalid

unfoldable pub contains : Text → List Text → Bool
contains t [] = false
contains t (s ∷ ss) = text_eq s t || contains t ss

unfoldable pub select_loop : List Text → Bool
unfolding strip_prefix
select_loop [] = false
select_loop (protocol ∷ protocols) =
    if text_eq protocol application_protocol
    then select_loop protocols
    else elim (strip_prefix session_protocol_prefix protocol) [
      | none ↦ false
      | some token ↦ is_terminal_session_token token
    ]

-- `selectTerminalWebSocketApplicationProtocol`, over the members of the set in order; `true`
-- selects the application protocol.
unfoldable pub select_terminal_websocket_application_protocol : List Text → Bool
unfolding contains select_loop
select_terminal_websocket_application_protocol protocols =
    (length protocols == 2) && contains application_protocol protocols && select_loop protocols
