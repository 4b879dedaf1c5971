-- ===== src/Owner/Jwt.antt =====
-- The reading of a JSON Web Token: `parseJwt` and what it calls. `none` is null.
use dashboard_rpi.Common.{
  ℕ, ◌%◌, Bool, not, ◌&&◌, Option, none, some, List, [], ◌∷◌, ◌++◌, ◌==◌, ltb, leb, if◌then◌else◌,
  is_empty, length, Text,
}
use dashboard_rpi.Common.Json.{Fields}
use dashboard_rpi.Terminal.Platform.{Bytes}
use dashboard_rpi.Terminal.Protocol.{as_record}
use dashboard_rpi.Owner.Strings.{utf16_length, matches_base64url}
use dashboard_rpi.Owner.Config.{Runtime}

abbrev pub max_jwt_length : ℕ
max_jwt_length = 16384

abbrev pub max_jwt_segment_length : ℕ
max_jwt_segment_length = 12288

abbrev pub max_decoded_json_bytes : ℕ
max_decoded_json_bytes = 8192

abbrev pub max_signature_bytes : ℕ
max_signature_bytes = 1024

pub record ParsedJwt : Type 0 where
  pub signing_input : Text
  pub signature : Bytes
  pub header : Fields
  pub claims : Fields

unfoldable pub prepend : ℕ → List Text → List Text
prepend c [] = (c ∷ []) ∷ []
prepend c (part ∷ parts) = (c ∷ part) ∷ parts

-- `token.split(".")`.
unfoldable pub split_dot : Text → List Text
unfolding prepend
split_dot [] = [] ∷ []
split_dot (c ∷ s) = if c == b'.' then [] ∷ split_dot s else prepend c (split_dot s)

-- `isValidBase64urlSegment`.
unfoldable pub is_valid_base64url_segment : Text → Bool
unfolding utf16_length matches_base64url
is_valid_base64url_segment value =
    ltb 0 (utf16_length value)
    && leb (utf16_length value) max_jwt_segment_length
    && not ((utf16_length value % 4) == 1)
    && matches_base64url value

unfoldable pub is_sized : ℕ → Bytes → Bool
is_sized max bytes = not (is_empty bytes) && leb (length bytes) max

-- `parseJsonSegment`.
unfoldable pub parse_json_segment : Runtime → Text → Option Fields
unfolding as_record is_sized
parse_json_segment r segment =
    let decoded = r.base64url_decode segment in
    if is_sized max_decoded_json_bytes decoded
    then as_record (r.json_parse (r.utf8_text decoded))
    else none

unfoldable pub jwt_of : Text → Bytes → Option Fields → Option Fields → Option ParsedJwt
unfolding is_sized
jwt_of signing_input signature (some header) (some claims) =
    if is_sized max_signature_bytes signature
    then some (record {
      signing_input = signing_input;
      signature = signature;
      header = header;
      claims = claims;
    })
    else none
jwt_of signing_input signature _ _ = none

unfoldable pub parse_segments : Runtime → List Text → Option ParsedJwt
unfolding is_valid_base64url_segment parse_json_segment jwt_of
parse_segments r (header ∷ claims ∷ signature ∷ []) =
    if is_valid_base64url_segment header
      && is_valid_base64url_segment claims
      && is_valid_base64url_segment signature
    then jwt_of (header ++ (b'.' ∷ claims)) (r.base64url_decode signature)
        (parse_json_segment r header) (parse_json_segment r claims)
    else none
parse_segments r _ = none

-- `parseJwt`.
unfoldable pub parse_jwt : Runtime → Text → Option ParsedJwt
unfolding split_dot parse_segments
parse_jwt r token =
    if ltb max_jwt_length (utf16_length token) then none else parse_segments r (split_dot token)
