-- ===== src/Terminal/Admission/Parsing.antt =====
-- The parser of the protocol header, on what a browser sends and on what it accepts.
use dashboard_rpi.Common.{
  ℕ, true, false, Option, none, some, List, [], ◌∷◌, ◌++◌, ◌==◌, ◌≡◌, ◌≤◌, refl, arith,
  if◌then◌else◌, length, Text, text_eq, text_eq_iff, All, All-append, Bool-cases, inl, inr,
}
use mathlib.Core.List.{reverse, reverse-cons, reverse-reverse}
use dashboard_rpi.Terminal.Session.Boundary.{is_terminal_session_token, is_hex_digit, all_hex}
use dashboard_rpi.Terminal.Admission.Header.{
  application_protocol, session_protocol_prefix, protocol_header_max_length, HeaderValue, absent,
  single, many, parsed, header_invalid, is_http_ows, drop_ows, trim_http_ows, includes, prepend,
  split_comma, strip_prefix, parse_session_part, parse_parts, parse_text,
  parse_terminal_websocket_protocol_header,
}

-- Characters that no step of the parser treats specially.
abbrev IsPlain : ℕ → Type 0
IsPlain c =
    (is_http_ows c ≡ false)
    × ((c == b',') ≡ false)
    × ((c == b'\r') ≡ false)
    × ((c == b'\n') ≡ false)

hex-IsPlain : (c : ℕ) → is_hex_digit c ≡ true → IsPlain c
unfolding is_hex_digit is_http_ows
hex-IsPlain c h = ground arith

all_hex-IsPlain : (s : Text) → all_hex s ≡ true → All IsPlain s
unfolding all_hex
all_hex-IsPlain [] h = tt
all_hex-IsPlain (c ∷ s) h = (hex-IsPlain c (ground arith), all_hex-IsPlain s (ground arith))

split_comma-plain : (s : Text) → All IsPlain s → split_comma s ≡ s ∷ []
unfolding split_comma prepend
split_comma-plain [] h = refl
split_comma-plain (c ∷ s) h = ground (arith, split_comma-plain s h.1)

drop_ows-plain : (s : Text) → All IsPlain s → drop_ows s ≡ s
unfolding drop_ows
drop_ows-plain [] h = refl
drop_ows-plain (c ∷ s) h = ground arith

All-reverse : (P : ℕ → Type 0) (s : Text) → All P s → All P (reverse s)
All-reverse P [] h = tt
All-reverse P (c ∷ s) h = rw (reverse-cons c s) (All-append P _ _ (All-reverse P s h.1) (h.0, tt))

trim_http_ows-plain : (s : Text) → All IsPlain s → trim_http_ows s ≡ s
unfolding trim_http_ows
trim_http_ows-plain s h =
    rw (drop_ows-plain s h, drop_ows-plain (reverse s) (All-reverse IsPlain s h))
      (reverse-reverse s)

includes-plain :
    (s : Text) → All IsPlain s → (includes b'\r' s ≡ false) × (includes b'\n' s ≡ false)
unfolding includes
includes-plain [] h = (refl, refl)
includes-plain (c ∷ s) h = ground (arith, includes-plain s h.1)

-- What a browser sends for the two protocols `dashboard-rpi5-terminal-v1` and `session.<token>`.
abbrev pub browser_header : Text → Text
browser_header token = application_protocol ++ (b',' ∷ b' ' ∷ (session_protocol_prefix ++ token))

parse_session_part_lem :
    (token : Text)
    → is_terminal_session_token token ≡ true
    → parse_session_part (some token) ≡ parsed token
unfolding parse_session_part
parse_session_part_lem token h = rw h

IsPlain-prefixed :
    (token : Text) → All IsPlain token → All IsPlain (session_protocol_prefix ++ token)
unfolding is_http_ows
IsPlain-prefixed token h = All-append IsPlain session_protocol_prefix token (ground arith) h

trim-second :
    (token : Text)
    → All IsPlain token
    → trim_http_ows (b' ' ∷ (session_protocol_prefix ++ token)) ≡ session_protocol_prefix ++ token
unfolding trim_http_ows drop_ows
trim-second token h = trim_http_ows-plain _ (IsPlain-prefixed token h)

pub token_facts :
    (token : Text)
    → is_terminal_session_token token ≡ true
    → (length token ≡ 64) × (all_hex token ≡ true)
unfolding is_terminal_session_token
token_facts token h = ground arith

parse_parts-browser :
    (token : Text)
    → is_terminal_session_token token ≡ true
    → parse_parts (application_protocol ∷ (b' ' ∷ (session_protocol_prefix ++ token)) ∷ [])
      ≡ parsed token
parse_parts-browser token h =
    let plain = all_hex-IsPlain token (token_facts token h).1 in
    unfold parse_parts in rw (trim-second token plain) (first token h)
  where
    first :
        (token : Text)
        → is_terminal_session_token token ≡ true
        → (if text_eq (trim_http_ows application_protocol) application_protocol
            then parse_session_part
                (strip_prefix session_protocol_prefix (session_protocol_prefix ++ token))
            else header_invalid)
          ≡ parsed token
    first token h =
        unfold trim_http_ows drop_ows is_http_ows text_eq strip_prefix in
        parse_session_part_lem token h

-- Every token of the right format, offered as a browser offers it, is read back from the header.
pub parse-browser_header :
    (token : Text)
    → is_terminal_session_token token ≡ true
    → parse_terminal_websocket_protocol_header (single (browser_header token)) ≡ parsed token
unfolding parse_terminal_websocket_protocol_header
parse-browser_header token h =
    let (size, hex) = token_facts token h in
    let plain = all_hex-IsPlain token hex in
    let (cr, lf) = includes-plain token plain in
    rw (size, cr, lf, split_comma-plain token plain) (parse_parts-browser token h)

strip_prefix-some : (ps s t : Text) → strip_prefix ps s ≡ some t → s ≡ ps ++ t
unfolding strip_prefix
strip_prefix-some [] s t e = ground arith
strip_prefix-some (p ∷ ps) [] t e = cc
strip_prefix-some (p ∷ ps) (c ∷ s) t e = ground (arith, strip_prefix-some ps s t)

-- The shape of an accepted header that offers the token.
pub record Offers (value : HeaderValue) (token : Text) : Type 0 where
  pub text : Text
  pub first : Text
  pub second : Text
  pub alone : value ≡ single text
  pub short : length text ≤ protocol_header_max_length
  pub one_line : (includes b'\r' text ≡ false) × (includes b'\n' text ≡ false)
  pub parts : split_comma text ≡ first ∷ second ∷ []
  pub application : trim_http_ows first ≡ application_protocol
  pub session : trim_http_ows second ≡ session_protocol_prefix ++ token
  pub formatted : is_terminal_session_token token ≡ true

parse_session_part-parsed :
    (o : Option Text) (token : Text)
    → parse_session_part o ≡ parsed token
    → (o ≡ some token) × (is_terminal_session_token token ≡ true)
unfolding parse_session_part
parse_session_part-parsed none token e = cc
parse_session_part-parsed (some t) token e = ground arith

parse_parts-parsed :
    (parts : List Text) (token : Text)
    → parse_parts parts ≡ parsed token
    → (first : Text) × (second : Text) × (parts ≡ first ∷ second ∷ [])
      × (trim_http_ows first ≡ application_protocol)
      × (trim_http_ows second ≡ session_protocol_prefix ++ token)
      × (is_terminal_session_token token ≡ true)
unfolding parse_parts
parse_parts-parsed [] token e = cc
parse_parts-parsed (a ∷ []) token e = cc
parse_parts-parsed (a ∷ b ∷ []) token e =
    elim (Bool-cases (text_eq (trim_http_ows a) application_protocol)) [
      | inr bad ↦ absurd (ground arith)
      | inl good ↦
          let (found, formatted) = parse_session_part-parsed _ token (rw good at e) in
          (
            a,
            b,
            refl,
            (text_eq_iff _ _).0 good,
            strip_prefix-some session_protocol_prefix _ token found,
            formatted,
          )
    ]
parse_parts-parsed (a ∷ b ∷ c ∷ parts) token e = cc

-- A header that is accepted with a token is a single line of at most 128 characters with exactly
-- one comma between two parts, which are, without surrounding blanks, the application protocol
-- and `session.` followed by that token, whose format is right.
pub parse-Offers :
    (value : HeaderValue) (token : Text)
    → parse_terminal_websocket_protocol_header value ≡ parsed token
    → Offers value token
unfolding parse_terminal_websocket_protocol_header parse_text
parse-Offers absent token e = cc
parse-Offers (many []) token e = cc
parse-Offers (many (_ ∷ _)) token e = cc
parse-Offers (single text) token e =
    let (first, second, parts, application, session, formatted) =
      parse_parts-parsed (split_comma text) token (ground arith) in
    record {
      text = text;
      first = first;
      second = second;
      alone = refl;
      short = ground arith;
      one_line = ground arith;
      parts = parts;
      application = application;
      session = session;
      formatted = formatted;
    }
