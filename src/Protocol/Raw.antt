-- ===== src/Protocol/Raw.antt =====
-- `classify` (crates/analyzer/src/protocol.rs): when a session is neither HTTP nor a websocket.
use newhatch.Common.{
  ℕ, zero, suc, ◌++◌, length, ok_or, ◌>>=◌, ◌⊎◌, ◌≡◌, ◌↔◌, refl, arith, if◌then◌else◌, Bool, true,
  false, not, ◌||◌, List, [], ◌∷◌, Result, ok, err, Bool-cases, inl, inr,
}
use newhatch.Domain.{raw_tcp}
use newhatch.Http.Chunk.{Malformed, malformed, crlf}
use newhatch.Http.Framing.{
  Header, Outcome, complete, partial, too_many_headers, malformed_head, Httparse, is_usable,
  is_some, split_line, each_line, for_each_header, each_header, visit_headers,
}
use newhatch.Protocol.Heads.{
  IsWholeHead, BeginsRequest, BeginsResponse, Result-cases, visit_headers-IsWholeHead,
  visit_headers_ok,
}
use newhatch.Protocol.{
  RequestInfo, ResponseInfo, no_request, no_response, visit_request_info, visit_response_info,
  unwrap_or, parse_request, parse_response, is_switching, protocol_of, classify_session,
}

abbrev Yields : {A : Type 0} → (A → Type 0) → Result Malformed A → Type 0
Yields P (ok a) = P a
Yields P (err e) = Unit {0}

Yields-bind :
    {A B : Type 0} (P : A → Type 0) (Q : B → Type 0) (r : Result Malformed A)
    (f : A → Result Malformed B)
    → Yields P r
    → ((a : A) → P a → Yields Q (f a))
    → Yields Q (r >>= f)
Yields-bind P Q (ok a) f y g = g a y
Yields-bind P Q (err e) f y g = tt

Yields-bind_any :
    {A B : Type 0} (Q : B → Type 0) (r : Result Malformed A) (f : A → Result Malformed B)
    → ((a : A) → Yields Q (f a))
    → Yields Q (r >>= f)
Yields-bind_any Q (ok a) f g = g a
Yields-bind_any Q (err e) f g = tt

Yields-if :
    {A : Type 0} (P : A → Type 0) (b : Bool) (r r' : Result Malformed A)
    → Yields P r
    → Yields P r'
    → Yields P (if b then r else r')
Yields-if P true r r' y y' = y
Yields-if P false r r' y y' = y'

-- A property that each visit keeps holds behind the headers.
module _ {A : Type 0} (parser : Httparse) (visit : A → Header → Result Malformed A) (P : A → Type 0)
    (keeps : (a : A) (header : Header) → P a → Yields P (visit a header)) where
  each_header-Yields :
      (a : A) (headers : List Header) → P a → Yields P (each_header parser visit a headers)
  unfolding each_header
  each_header-Yields a [] p = p
  each_header-Yields a (header ∷ headers) p =
      Yields-bind P P (visit a header) _ (keeps a header p)
        (λ a' p'. each_header-Yields a' headers p')

  each_line-Yields :
      (rounds : ℕ) (a : A) (bytes : List ℕ) → P a → Yields P (each_line parser visit rounds a bytes)
  unfolding each_line
  each_line-Yields zero a bytes p = tt
  each_line-Yields (suc rounds) a bytes p =
      Yields-bind_any P (ok_or (split_line bytes) malformed) _ (λ (line, rest).
        Yields-if P _ (ok a) _ p (
          Yields-bind_any P (ok_or (parser.one_header (line ++ crlf)) malformed) _ (λ header.
            Yields-bind P P (visit a header) _ (keeps a header p)
              (λ a' p'. each_line-Yields rounds a' rest p'))))

  visit_headers-Yields :
      (a : A) (bytes : List ℕ) (outcome : Outcome) (headers : List Header)
      → P a
      → Yields P (visit_headers parser visit a bytes outcome headers)
  unfolding visit_headers for_each_header
  visit_headers-Yields a bytes complete headers p = each_header-Yields a headers p
  visit_headers-Yields a bytes too_many_headers headers p =
      Yields-bind_any P (ok_or (split_line bytes) malformed) _
        (λ (line, rest). each_line-Yields (length rest) a rest p)
  visit_headers-Yields a bytes partial headers p = each_header-Yields a headers p
  visit_headers-Yields a bytes malformed_head headers p = each_header-Yields a headers p

unwrap_or-cases :
    {A : Type 0} (P : A → Type 0) (r : Result Malformed A) (a : A)
    → Yields P r
    → (unwrap_or r a ≡ a) ⊎ P (unwrap_or r a)
unfolding unwrap_or
unwrap_or-cases P (ok b) a y = inr y
unwrap_or-cases P (err e) a y = inl refl

request_found :
    (parser : Httparse) (c2s : List ℕ)
    → (parse_request parser c2s ≡ no_request) ⊎ ((parse_request parser c2s).parsed ≡ true)
unfolding parse_request visit_request_info
request_found parser c2s =
    elim (Bool-cases (
      not (is_usable (parser.request c2s).outcome)
      || not (is_some (parser.request c2s).verb)
      || not (is_some (parser.request c2s).version))) [
        | inl e ↦ inl (rw e refl)
        | inr e ↦ rw e (
            unwrap_or-cases (λ info. info.parsed ≡ true) _ no_request
              (visit_headers-Yields parser visit_request_info (λ info. info.parsed ≡ true)
                (λ info header p. p) _ c2s _ _ refl))
      ]

response_found :
    (parser : Httparse) (s2c : List ℕ)
    → (parse_response parser s2c ≡ no_response) ⊎ ((parse_response parser s2c).parsed ≡ true)
unfolding parse_response visit_response_info
response_found parser s2c =
    elim (Bool-cases (
      not (is_usable (parser.response s2c).outcome)
      || not (is_some (parser.response s2c).code)
      || not (is_some (parser.response s2c).version))) [
        | inl e ↦ inl (rw e refl)
        | inr e ↦ rw e (
            unwrap_or-cases (λ info. info.parsed ≡ true) _ no_response
              (visit_headers-Yields parser visit_response_info (λ info. info.parsed ≡ true)
                (λ info header p. p) _ s2c _ _ refl))
      ]

protocol_of-raw_tcp :
    (request : RequestInfo) (response : ResponseInfo)
    → protocol_of request response ≡ raw_tcp
    → (request.parsed ≡ false) × (response.parsed ≡ false)
unfolding protocol_of
protocol_of-raw_tcp request response e = ground (arith, e)

nothing_raw : protocol_of no_request no_response ≡ raw_tcp
unfolding protocol_of no_request no_response is_switching
nothing_raw = refl

-- Reading the fields succeeds only in a whole head: otherwise the other value is taken.
unwrap_or-IsWholeHead :
    {A : Type 0} (parser : Httparse) (visit : A → Header → Result Malformed A) (parsed : A → Bool)
    (a other_value : A) (bytes : List ℕ) (outcome : Outcome) (headers : List Header)
    → parsed other_value ≡ false
    → is_usable outcome ≡ true
    → parsed (unwrap_or (visit_headers parser visit a bytes outcome headers) other_value) ≡ true
    → IsWholeHead parser bytes outcome
unfolding unwrap_or
unwrap_or-IsWholeHead parser visit parsed a other_value bytes outcome headers u usable_head p =
    elim (Result-cases (visit_headers parser visit a bytes outcome headers)) [
      | inl (b, e) ↦ visit_headers-IsWholeHead parser visit a b bytes outcome headers usable_head e
      | inr (x, e) ↦ absurd (cc (rw e at p))
    ]

-- In a whole head it succeeds, and keeps what every visit keeps.
IsWholeHead-unwrap_or :
    {A : Type 0} (parser : Httparse) (visit : A → Header → Result Malformed A) (P : A → Type 0)
    (total : (a : A) (h : Header) → (a' : A) × (visit a h ≡ ok a'))
    (keeps : (a : A) (h : Header) → P a → Yields P (visit a h)) (a other_value : A) (bytes : List ℕ)
    (outcome : Outcome) (headers : List Header)
    → IsWholeHead parser bytes outcome
    → P a
    → P (unwrap_or (visit_headers parser visit a bytes outcome headers) other_value)
unfolding unwrap_or
IsWholeHead-unwrap_or parser visit P total keeps a other_value bytes outcome headers whole p =
    let (b, e) = visit_headers_ok parser visit total a bytes outcome headers whole in
    let y : Yields P (ok b) =
      rw e at (visit_headers-Yields parser visit P keeps a bytes outcome headers p) in
    rw e y

usable :
    (parser : Httparse) (bytes : List ℕ) (o : Outcome)
    → IsWholeHead parser bytes o
    → is_usable o ≡ true
unfolding is_usable
usable parser bytes complete whole = refl
usable parser bytes too_many_headers whole = refl
usable parser bytes partial whole = elim whole [ ]
usable parser bytes malformed_head whole = elim whole [ ]

BeginsRequest-request :
    (parser : Httparse) (c2s : List ℕ)
    → BeginsRequest parser c2s
    → (parse_request parser c2s).parsed ≡ true
unfolding parse_request visit_request_info
BeginsRequest-request parser c2s (whole, verb, version) =
    rw (usable parser c2s _ whole, verb, version)
      (IsWholeHead-unwrap_or parser visit_request_info (λ info. info.parsed ≡ true)
        (λ info h. (_, refl)) (λ info h p. p) _ no_request c2s _ _ whole refl)

request-BeginsRequest :
    (parser : Httparse) (c2s : List ℕ)
    → (parse_request parser c2s).parsed ≡ true
    → BeginsRequest parser c2s
unfolding parse_request no_request unwrap_or
request-BeginsRequest parser c2s p =
    elim (Bool-cases (
      not (is_usable (parser.request c2s).outcome)
      || not (is_some (parser.request c2s).verb)
      || not (is_some (parser.request c2s).version))) [
        | inl e ↦ absurd (cc (rw e at p))
        | inr e ↦ (
          unwrap_or-IsWholeHead parser visit_request_info (λ info. info.parsed) _ no_request c2s _ _
              refl (ground (arith, e)) (rw e at p),
          ground (arith, e),
          ground (arith, e),
        )
      ]

BeginsResponse-response :
    (parser : Httparse) (s2c : List ℕ)
    → BeginsResponse parser s2c
    → (parse_response parser s2c).parsed ≡ true
unfolding parse_response visit_response_info
BeginsResponse-response parser s2c (whole, code, version) =
    rw (usable parser s2c _ whole, code, version)
      (IsWholeHead-unwrap_or parser visit_response_info (λ info. info.parsed ≡ true)
        (λ info h. (_, refl)) (λ info h p. p) _ no_response s2c _ _ whole refl)

response-BeginsResponse :
    (parser : Httparse) (s2c : List ℕ)
    → (parse_response parser s2c).parsed ≡ true
    → BeginsResponse parser s2c
unfolding parse_response no_response unwrap_or
response-BeginsResponse parser s2c p =
    elim (Bool-cases (
      not (is_usable (parser.response s2c).outcome)
      || not (is_some (parser.response s2c).code)
      || not (is_some (parser.response s2c).version))) [
        | inl e ↦ absurd (cc (rw e at p))
        | inr e ↦ (
          unwrap_or-IsWholeHead parser visit_response_info (λ info. info.parsed) _ no_response s2c _
              _ refl (ground (arith, e)) (rw e at p),
          ground (arith, e),
          ground (arith, e),
        )
      ]

-- A session is raw TCP exactly when its bytes to the server do not begin with a request and those
-- to the client do not begin with a response. Such a head is one that the library reads as a whole,
-- or, where it has too many headers for that, whose lines up to a blank one are all headers; it has
-- a version, and a method or a status.
pub classify_session-raw_tcp :
    (parser : Httparse) (c2s s2c : List ℕ)
    → ((classify_session parser c2s s2c).0 ≡ raw_tcp)
      ↔ ((¬ BeginsRequest parser c2s) × (¬ BeginsResponse parser s2c))
unfolding classify_session
classify_session-raw_tcp parser c2s s2c = (
  λ e.
      let (q, s) = protocol_of-raw_tcp (parse_request parser c2s) (parse_response parser s2c) e in
      (
        λ b. cc (BeginsRequest-request parser c2s b),
        λ b. cc (BeginsResponse-response parser s2c b),
      ),
  λ (q, s).
      let nq : parse_request parser c2s ≡ no_request = elim (request_found parser c2s) [
        | inl e ↦ e
        | inr p ↦ absurd (q (request-BeginsRequest parser c2s p))
      ] in
      let ns : parse_response parser s2c ≡ no_response = elim (response_found parser s2c) [
        | inl e ↦ e
        | inr p ↦ absurd (s (response-BeginsResponse parser s2c p))
      ] in
      rw (nq, ns) nothing_raw,
)
