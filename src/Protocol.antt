-- ===== src/Protocol.antt =====
-- crates/analyzer/src/protocol.rs: what a session's bytes are, by their first messages.
-- `for_each_header` stands in Http/Framing.
pub mod Heads
pub mod Raw
use newhatch.Common.{
  ℕ, zero, suc, ◌++◌, length, ok_or, ◌>>=◌, ◌>>◌, ◌⊎◌, ◌≡◌, ◌↔◌, refl, arith, ◌==◌, if◌then◌else◌,
  Bool, true, false, not, ◌&&◌, ◌||◌, Option, none, some, List, [], ◌∷◌, Result, ok, err,
  Bool-cases, inl, inr,
}
use newhatch.Common.Text.{eq_ignore_ascii_case}
use newhatch.Common.Lossy.{from_utf8_lossy}
use newhatch.Domain.{SessionProtocol, raw_tcp, http, web_socket, HttpMetadata}
use newhatch.Http.Chunk.{Malformed, malformed, crlf}
use newhatch.Http.Framing.{
  Header, Outcome, complete, partial, too_many_headers, malformed_head, ParsedRequest,
  ParsedResponse, Httparse, is_usable, is_some, split_line, each_line, for_each_header, each_header,
  visit_headers, upgrade_name, websocket_name,
}

pub record RequestInfo : Type 0 where
  pub parsed : Bool
  pub websocket_upgrade : Bool
  pub method : Option (List ℕ)
  pub host : Option (List ℕ)
  pub path : Option (List ℕ)
  pub content_type : Option (List ℕ)

pub record ResponseInfo : Type 0 where
  pub parsed : Bool
  pub websocket_upgrade : Bool
  pub status : Option ℕ
  pub content_type : Option (List ℕ)

unfoldable pub no_request : RequestInfo
no_request = record {
  parsed = false;
  websocket_upgrade = false;
  method = none;
  host = none;
  path = none;
  content_type = none;
}

unfoldable pub no_response : ResponseInfo
no_response = record {
  parsed = false;
  websocket_upgrade = false;
  status = none;
  content_type = none;
}

abbrev host_name : List ℕ
host_name = b'h' ∷ b'o' ∷ b's' ∷ b't' ∷ []

abbrev content_type_name : List ℕ
content_type_name =
    b'c' ∷ b'o' ∷ b'n' ∷ b't' ∷ b'e' ∷ b'n' ∷ b't' ∷ b'-' ∷ b't' ∷ b'y' ∷ b'p' ∷ b'e' ∷ []

-- The value of the first header of the name.
unfoldable pub first_value : List ℕ → Header → Option (List ℕ) → Option (List ℕ)
first_value name header (some value) = some value
first_value name header none =
    if eq_ignore_ascii_case header.name name then some (from_utf8_lossy header.value) else none

unfoldable pub asks_upgrade : Header → Bool
asks_upgrade header =
    eq_ignore_ascii_case header.name upgrade_name
    && eq_ignore_ascii_case header.value websocket_name

unfoldable pub visit_request_info : RequestInfo → Header → Result Malformed RequestInfo
visit_request_info info header = ok (record info {
  host = first_value host_name header info.host;
  content_type = first_value content_type_name header info.content_type;
  websocket_upgrade = info.websocket_upgrade || asks_upgrade header;
})

unfoldable pub visit_response_info : ResponseInfo → Header → Result Malformed ResponseInfo
visit_response_info info header = ok (record info {
  content_type = first_value content_type_name header info.content_type;
  websocket_upgrade = info.websocket_upgrade || asks_upgrade header;
})

unfoldable pub unwrap_or {ℓ} : {A : Type ℓ} → Result Malformed A → A → A
unwrap_or (ok a) other_value = a
unwrap_or (err e) other_value = other_value

unfoldable pub is_switching : Option ℕ → Bool
is_switching none = false
is_switching (some status) = status == 101

unfoldable pub protocol_of : RequestInfo → ResponseInfo → SessionProtocol
protocol_of request response =
    if request.websocket_upgrade || response.websocket_upgrade || is_switching response.status
    then web_socket
    else if request.parsed || response.parsed
    then http
    else raw_tcp

unfoldable pub first_of : Option (List ℕ) → Option (List ℕ) → Option (List ℕ)
first_of none other_value = other_value
first_of (some value) other_value = some value

unfoldable pub metadata_of : RequestInfo → ResponseInfo → HttpMetadata
metadata_of request response = record {
  method = request.method;
  host = request.host;
  path = request.path;
  status = response.status;
  content_type = first_of response.content_type request.content_type;
}

module _ (parser : Httparse) where
  unfoldable pub parse_request : List ℕ → RequestInfo
  parse_request bytes =
      let parsed = parser.request bytes in
      let info : RequestInfo = record {
        parsed = true;
        websocket_upgrade = false;
        method = parsed.verb;
        host = none;
        path = parsed.target;
        content_type = none;
      } in
      if not (is_usable parsed.outcome) || not (is_some parsed.verb) || not (is_some parsed.version)
      then no_request
      else unwrap_or
          (visit_headers parser visit_request_info info bytes parsed.outcome parsed.headers)
          no_request

  unfoldable pub parse_response : List ℕ → ResponseInfo
  parse_response bytes =
      let parsed = parser.response bytes in
      let info : ResponseInfo = record {
        parsed = true;
        websocket_upgrade = false;
        status = parsed.code;
        content_type = none;
      } in
      if not (is_usable parsed.outcome) || not (is_some parsed.code) || not (is_some parsed.version)
      then no_response
      else unwrap_or
          (visit_headers parser visit_response_info info bytes parsed.outcome parsed.headers)
          no_response

  unfoldable pub classify_session : List ℕ → List ℕ → SessionProtocol × HttpMetadata
  classify_session c2s s2c =
      let request = parse_request c2s in
      let response = parse_response s2c in
      (protocol_of request response, metadata_of request response)
