-- ===== src/Http/Framing.antt =====
-- The head of a message: `Framing`, `parse_head` (crates/analyzer/src/http_sessions.rs) and
-- `for_each_header` (crates/analyzer/src/protocol.rs). `httparse` is a parameter.
use newhatch.Common.{
  ℕ, zero, suc, ltb, leb, ◌==◌, bytes_eq, if◌then◌else◌, Bool, true, false, not, ◌&&◌, ◌||◌, Option,
  none, some, List, [], ◌∷◌, ◌++◌, length, is_empty, Result, ok, err, ok_or, ensure, ◌>>=◌, ◌>>◌,
}
use newhatch.Common.Text.{trim_text, eq_ignore_ascii_case}
use newhatch.Http.Chunk.{
  Body, fixed, chunked, until_close, done, size, Malformed, malformed, parse_decimal, crlf,
}

-- `httparse::Header`
pub record Header : Type 0 where
  pub name : List ℕ
  pub value : List ℕ

-- What the result of a parser of `httparse` is told apart by.
pub data Outcome : Type 0 where
  complete partial too_many_headers malformed_head : Outcome

pub record ParsedRequest : Type 0 where
  pub outcome : Outcome
  pub verb : Option (List ℕ)
  pub target : Option (List ℕ)
  pub version : Option ℕ
  pub headers : List Header

pub record ParsedResponse : Type 0 where
  pub outcome : Outcome
  pub code : Option ℕ
  pub version : Option ℕ
  pub headers : List Header

-- `httparse`: `Request::parse` and `Response::parse` with room for 64 headers, and `parse_headers`
-- with room for one, where it is complete and returns one header.
pub record Httparse : Type 0 where
  pub request : List ℕ → ParsedRequest
  pub response : List ℕ → ParsedResponse
  pub one_header : List ℕ → Option Header
  pub trailer : List ℕ → Bool

pub data RequestMethod : Type 0 where
  head connect other : RequestMethod

pub data Head : Type 0 where
  request_head : RequestMethod → Bool → Head
  response_head : ℕ → Head

pub record Framing : Type 0 where
  pub length : Option ℕ
  pub transfer : Option Bool

unfoldable pub default_framing : Framing
default_framing = record { length = none; transfer = none }

-- `split(|byte| *byte == b',')`: the first part, and the others.
unfoldable pub split_commas : List ℕ → List ℕ × List (List ℕ)
split_commas [] = ([], [])
split_commas (byte ∷ bytes) =
    let (part, parts) = split_commas bytes in
    if byte == b',' then ([], part ∷ parts) else (byte ∷ part, parts)

unfoldable pub is_other_length : Option ℕ → ℕ → Bool
is_other_length none value = false
is_other_length (some old) value = not (old == value)

unfoldable pub push_length : Framing → List ℕ → Result Malformed Framing
push_length f part = elim (trim_text part) [
  | none ↦ err malformed
  | some text ↦ elim (parse_decimal text) [
    | none ↦ err malformed
    | some value ↦
        if is_other_length f.length value
        then err malformed
        else ok (record f { length = some value })
  ]
]

-- b"content-length", b"transfer-encoding" and b"chunked"
abbrev pub content_length : List ℕ
content_length =
    b'c' ∷ b'o' ∷ b'n' ∷ b't' ∷ b'e' ∷ b'n' ∷ b't' ∷ b'-' ∷ b'l' ∷ b'e' ∷ b'n' ∷ b'g' ∷ b't' ∷ b'h'
    ∷ []

abbrev pub transfer_encoding : List ℕ
transfer_encoding =
    b't' ∷ b'r' ∷ b'a' ∷ b'n' ∷ b's' ∷ b'f' ∷ b'e' ∷ b'r' ∷ b'-' ∷ b'e' ∷ b'n' ∷ b'c' ∷ b'o' ∷ b'd'
    ∷ b'i' ∷ b'n' ∷ b'g' ∷ []

abbrev pub chunked_name : List ℕ
chunked_name = b'c' ∷ b'h' ∷ b'u' ∷ b'n' ∷ b'k' ∷ b'e' ∷ b'd' ∷ []

unfoldable pub is_chunked : Option Bool → Bool
is_chunked none = false
is_chunked (some last) = last

unfoldable pub push_transfer : Framing → List ℕ → Result Malformed Framing
push_transfer f part = elim (trim_text part) [
  | none ↦ err malformed
  | some text ↦
      if is_empty text || is_chunked f.transfer
      then err malformed
      else ok (record f { transfer = some (eq_ignore_ascii_case text chunked_name) })
]

unfoldable pub push_parts :
    (Framing → List ℕ → Result Malformed Framing)
    → Framing
    → List (List ℕ)
    → Result Malformed Framing
push_parts push f [] = ok f
push_parts push f (part ∷ parts) = push f part >>= λ f'. push_parts push f' parts

unfoldable pub parts_of : List ℕ → List (List ℕ)
parts_of value = let (part, parts) = split_commas value in part ∷ parts

-- Framing::push
unfoldable pub push_header : Framing → Header → Result Malformed Framing
push_header f header =
    if eq_ignore_ascii_case header.name content_length
    then push_parts push_length f (parts_of header.value)
    else if eq_ignore_ascii_case header.name transfer_encoding
    then push_parts push_transfer f (parts_of header.value)
    else ok f

-- The end of Framing::body.
unfoldable pub sized_body : Option ℕ → Bool → Body
sized_body (some n) request = fixed n
sized_body none request = if request then done else until_close

unfoldable pub framed_body : Option Bool → Option ℕ → Bool → Result Malformed Body
framed_body (some true) n request = ok (chunked (size []))
framed_body (some false) n request = if request then err malformed else ok until_close
framed_body none n request = ok (sized_body n request)

unfoldable pub is_some {ℓ} : {A : Type ℓ} → Option A → Bool
is_some none = false
is_some (some a) = true

-- Framing::body
unfoldable pub body_of : Framing → Bool → Bool → Result Malformed Body
body_of f request no_body =
    if is_some f.length && is_some f.transfer
    then err malformed
    else if no_body
    then ok done
    else framed_body f.transfer f.length request

-- The first line of the bytes with its line feed, and the rest: `none` without a line feed.
unfoldable pub split_line : List ℕ → Option (List ℕ × List ℕ)
split_line [] = none
split_line (byte ∷ bytes) =
    let rest = split_line bytes in
    if byte == 10
    then some (byte ∷ [], bytes)
    else elim rest [ none ↦ none | some (line, after) ↦ some (byte ∷ line, after) ]

-- Whether a parser's outcome is `Complete` or the error `TooManyHeaders`.
unfoldable pub is_usable : Outcome → Bool
is_usable complete = true
is_usable too_many_headers = true
is_usable partial = false
is_usable malformed_head = false

abbrev head_name : List ℕ
head_name = b'H' ∷ b'E' ∷ b'A' ∷ b'D' ∷ []

abbrev connect_name : List ℕ
connect_name = b'C' ∷ b'O' ∷ b'N' ∷ b'N' ∷ b'E' ∷ b'C' ∷ b'T' ∷ []

unfoldable pub method_of : List ℕ → RequestMethod
method_of name =
    if bytes_eq name head_name then head else if bytes_eq name connect_name then connect else other

abbrev pub upgrade_name : List ℕ
upgrade_name = b'u' ∷ b'p' ∷ b'g' ∷ b'r' ∷ b'a' ∷ b'd' ∷ b'e' ∷ []

abbrev pub websocket_name : List ℕ
websocket_name = b'w' ∷ b'e' ∷ b'b' ∷ b's' ∷ b'o' ∷ b'c' ∷ b'k' ∷ b'e' ∷ b't' ∷ []

-- The visitor of a request's headers: whether a websocket is asked for, and the framing.
unfoldable pub visit_request : Bool × Framing → Header → Result Malformed (Bool × Framing)
visit_request (websocket, fields) header = do
  fields' ← push_header fields header
  ok (
    websocket
        || eq_ignore_ascii_case header.name upgrade_name
          && eq_ignore_ascii_case header.value websocket_name,
    fields',
  )

-- `100..200` and `200..300`
unfoldable pub is_informational : ℕ → Bool
is_informational status = leb 100 status && ltb status 200

unfoldable pub is_success : ℕ → Bool
is_success status = leb 200 status && ltb status 300

-- A response that has no body.
unfoldable pub lacks_body : Option RequestMethod → ℕ → Bool
lacks_body method status =
    is_informational status || status == 204 || status == 304 || elim method [
      | none ↦ false
      | some head ↦ true
      | some connect ↦ is_success status
      | some other ↦ false
    ]

module _ (http : Httparse) where
  -- The loop of `for_each_header` over the lines behind the first; each takes a byte at least, so
  -- that as many rounds as bytes are enough. At the end of the bytes the source returns an error.
  unfoldable pub each_line {ℓ} :
      {A : Type ℓ} → (A → Header → Result Malformed A) → ℕ → A → List ℕ → Result Malformed A
  each_line visit zero a bytes = err malformed
  each_line visit (suc rounds) a bytes = do
    found ← ok_or (split_line bytes) malformed
    let (line, rest) = found
    if bytes_eq line crlf || bytes_eq line (10 ∷ []) then ok a else (do
      header ← ok_or (http.one_header (line ++ crlf)) malformed
      a' ← visit a header
      each_line visit rounds a' rest)

  unfoldable pub for_each_header {ℓ} :
      {A : Type ℓ} → (A → Header → Result Malformed A) → A → List ℕ → Result Malformed A
  for_each_header visit a bytes = do
    found ← ok_or (split_line bytes) malformed
    each_line visit (length found.1) a found.1

  unfoldable pub each_header {ℓ} :
      {A : Type ℓ} → (A → Header → Result Malformed A) → A → List Header → Result Malformed A
  each_header visit a [] = ok a
  each_header visit a (header ∷ headers) = visit a header >>= λ a'. each_header visit a' headers

  -- The headers of a head whose parsing ended with the outcome: on an overflow they are read line by
  -- line, otherwise they are those that the parser found.
  unfoldable pub visit_headers {ℓ} :
      {A : Type ℓ}
      → (A → Header → Result Malformed A)
      → A
      → List ℕ
      → Outcome
      → List Header
      → Result Malformed A
  visit_headers visit a bytes complete headers = each_header visit a headers
  visit_headers visit a bytes too_many_headers headers = for_each_header visit a bytes
  visit_headers visit a bytes partial headers = each_header visit a headers
  visit_headers visit a bytes malformed_head headers = each_header visit a headers

  unfoldable pub parse_request_head : List ℕ → Result Malformed (Head × Body)
  parse_request_head bytes = do
    let parsed = http.request bytes
    ensure (is_usable parsed.outcome) malformed
    name ← ok_or parsed.verb malformed
    found ← visit_headers visit_request (false, default_framing) bytes parsed.outcome parsed.headers
    body ← body_of found.1 true false
    ok (request_head (method_of name) found.0, body)

  unfoldable pub parse_response_head :
      List ℕ → Option RequestMethod → Result Malformed (Head × Body)
  parse_response_head bytes method = do
    let parsed = http.response bytes
    ensure (is_usable parsed.outcome) malformed
    status ← ok_or parsed.code malformed
    fields ← visit_headers push_header default_framing bytes parsed.outcome parsed.headers
    body ← body_of fields false (lacks_body method status)
    ok (response_head status, body)
