-- ===== src/Http/Decoder/Bodies.antt =====
-- The framing of bodies as the decoder uses it (crates/analyzer/src/http_sessions.rs).
use newhatch.Common.{
  ℕ, ◌≤◌, ◌≡◌, refl, arith, Bool, true, false, Option, List, [], ◌∷◌, length, Result, ok, err,
  ensure, ok_or, ◌>>=◌, ◌>>◌,
}
use newhatch.Flow.Stream.{append_bounded}
use newhatch.Http.Chunk.{
  Body, Chunk, size, data_left, data_end, trailers, Malformed, malformed, append_line, next_size,
  next_trailer, next_data, next_data_end, consume_chunk,
}
use newhatch.Http.Framing.{
  Httparse, RequestMethod, Head, request_head, response_head, Framing, ParsedRequest,
  ParsedResponse, is_usable, sized_body, framed_body, body_of, visit_headers, visit_request,
  push_header, default_framing, parse_request_head, parse_response_head, lacks_body, method_of,
}
use newhatch.Http.Decoder.{Role, request_role, response_role, is_headers, parse_head}

abbrev pub IsUsed {ℓ} : {A : Type ℓ} → ℕ → Result Malformed (A × ℕ) → Type 0
IsUsed available (err e) = Unit
IsUsed available (ok (line, count)) = count ≤ available

append_line-IsUsed :
    (line bytes : List ℕ) (limit : ℕ) → IsUsed (length bytes) (append_line line bytes limit)
unfolding append_line
append_line-IsUsed line [] limit = omega arith
append_line-IsUsed line (byte ∷ bytes) limit =
    let line' : List ℕ = append_bounded line (byte ∷ []) limit in
    ground (arith, append_line-IsUsed line' bytes limit)

-- The number of bytes used, and a body that is no head.
abbrev pub IsFramed : ℕ → Result Malformed (ℕ × Body) → Type 0
IsFramed available (err e) = Unit
IsFramed available (ok (count, body)) = (count ≤ available) × (is_headers body ≡ false)

next_size-IsFramed :
    (available : ℕ) (r : Result Malformed (List ℕ × ℕ))
    → IsUsed available r
    → IsFramed available (next_size r)
unfolding next_size is_headers
next_size-IsFramed available (err e) h = tt
next_size-IsFramed available (ok (line, count)) h = ground (arith, h)

next_trailer-IsFramed :
    (check : List ℕ → Bool) (total limit available : ℕ) (r : Result Malformed (List ℕ × ℕ))
    → IsUsed available r
    → IsFramed available (next_trailer check total limit r)
unfolding next_trailer is_headers
next_trailer-IsFramed check total limit available (err e) h = tt
next_trailer-IsFramed check total limit available (ok (line, count)) h = ground (arith, h)

next_data_end-IsFramed :
    (index : ℕ) (bytes : List ℕ) → IsFramed (length bytes) (next_data_end index bytes)
unfolding next_data_end is_headers
next_data_end-IsFramed index [] = tt
next_data_end-IsFramed index (byte ∷ bytes) = ground arith

pub consume_chunk-IsFramed :
    (check : List ℕ → Bool) (chunk : Chunk) (bytes : List ℕ) (limit : ℕ)
    → IsFramed (length bytes) (consume_chunk check chunk bytes limit)
unfolding consume_chunk next_data is_headers
consume_chunk-IsFramed check (size line) bytes limit =
    next_size-IsFramed (length bytes) _ (append_line-IsUsed line bytes limit)
consume_chunk-IsFramed check (data_left remaining) bytes limit = (omega arith, refl)
consume_chunk-IsFramed check (data_end index) bytes limit = next_data_end-IsFramed index bytes
consume_chunk-IsFramed check (trailers line total) bytes limit =
    next_trailer-IsFramed check total limit (length bytes) _ (append_line-IsUsed line bytes limit)

abbrev pub IsBody : Result Malformed Body → Type 0
IsBody (err e) = Unit
IsBody (ok body) = is_headers body ≡ false

abbrev pub IsParsed : Result Malformed (Head × Body) → Type 0
IsParsed (err e) = Unit
IsParsed (ok (head, body)) = is_headers body ≡ false

body_of-IsBody : (f : Framing) (request no_body : Bool) → IsBody (body_of f request no_body)
unfolding body_of framed_body sized_body is_headers
body_of-IsBody f request no_body = ground arith

body_head-IsParsed :
    (head : Head) (r : Result Malformed Body) → IsBody r → IsParsed (r >>= λ body. ok (head, body))
body_head-IsParsed head (err e) h = tt
body_head-IsParsed head (ok body) h = h

-- The two parsers behind their calls.
request_head-IsParsed :
    (u : Result Malformed (Unit {0})) (n : Result Malformed (List ℕ))
    (v : Result Malformed (Bool × Framing))
    → IsParsed (
        u
        >> (n >>= λ name. v >>= λ found. body_of found.1 true false >>= λ body.
            ok (request_head (method_of name) found.0, body)))
request_head-IsParsed (err e) n v = tt
request_head-IsParsed (ok u) (err e) v = tt
request_head-IsParsed (ok u) (ok name) (err e) = tt
request_head-IsParsed (ok u) (ok name) (ok (websocket, fields)) =
    body_head-IsParsed (request_head (method_of name) websocket) (body_of fields true false)
      (body_of-IsBody fields true false)

response_head-IsParsed :
    (method : Option RequestMethod) (u : Result Malformed (Unit {0})) (n : Result Malformed ℕ)
    (v : Result Malformed Framing)
    → IsParsed (
        u
        >> (n >>= λ status. v >>= λ fields.
            body_of fields false (lacks_body method status) >>= λ body.
            ok (response_head status, body)))
response_head-IsParsed method (err e) n v = tt
response_head-IsParsed method (ok u) (err e) v = tt
response_head-IsParsed method (ok u) (ok status) (err e) = tt
response_head-IsParsed method (ok u) (ok status) (ok fields) =
    let no_body : Bool = lacks_body method status in
    body_head-IsParsed (response_head status) (body_of fields false no_body)
      (body_of-IsBody fields false no_body)

pub parse_head-IsParsed :
    (http : Httparse) (bytes : List ℕ) (role : Role) (method : Option RequestMethod)
    → IsParsed (parse_head http bytes role method)
unfolding parse_head parse_request_head parse_response_head
parse_head-IsParsed http bytes request_role method =
    let parsed : ParsedRequest = http.request bytes in
    request_head-IsParsed (ensure (is_usable parsed.outcome) malformed)
      (ok_or parsed.verb malformed)
      (visit_headers http visit_request (false, default_framing) bytes parsed.outcome
        parsed.headers)
parse_head-IsParsed http bytes response_role method =
    let parsed : ParsedResponse = http.response bytes in
    response_head-IsParsed method (ensure (is_usable parsed.outcome) malformed)
      (ok_or parsed.code malformed)
      (visit_headers http push_header default_framing bytes parsed.outcome parsed.headers)
