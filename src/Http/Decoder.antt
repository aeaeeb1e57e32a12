-- ===== src/Http/Decoder.antt =====
-- `CaptureTimes`, `Message` and `Decoder` of crates/analyzer/src/http_sessions.rs: one direction's
-- bytes cut into messages.
pub mod Bodies
pub mod Whole
pub mod Exact
pub mod Fuel
use newhatch.Common.{
  ℕ, zero, suc, ◌+◌, ◌-◌, ◌*◌, ◌^◌, min, ltb, leb, if◌then◌else◌, Bool, true, false, not, ◌&&◌,
  ◌||◌, Option, none, some, List, [], ◌∷◌, ◌++◌, length, take, drop, is_empty, Result, ok, err,
  ◌>>=◌, ◌>>◌,
}
use newhatch.Common.Int.{ℤ, min_ℤ, max_ℤ}
use newhatch.Flow.Stream.{append_bounded}
use newhatch.Http.Chunk.{
  Body, headers, fixed, chunked, until_close, done, Malformed, malformed, ends_with, consume_chunk,
}
use newhatch.Http.Framing.{
  Httparse, RequestMethod, Head, parse_request_head, parse_response_head, is_some,
}

pub record CaptureTimes : Type 0 where
  pub first : Option ℤ
  pub last : Option ℤ

unfoldable pub no_times : CaptureTimes
no_times = record { first = none; last = none }

unfoldable pub earlier : Option ℤ → ℤ → ℤ
earlier none timestamp = timestamp
earlier (some value) timestamp = min_ℤ value timestamp

unfoldable pub later : Option ℤ → ℤ → ℤ
later none timestamp = timestamp
later (some value) timestamp = max_ℤ value timestamp

-- CaptureTimes::observe
unfoldable pub observe : CaptureTimes → ℤ → CaptureTimes
observe times timestamp = record {
  first = some (earlier times.first timestamp);
  last = some (later times.last timestamp);
}

pub data Role : Type 0 where
  request_role response_role : Role

unfoldable pub is_request : Role → Bool
is_request request_role = true
is_request response_role = false

pub record Message : Type 0 where
  pub offset : ℕ
  pub bytes : List ℕ
  pub times : CaptureTimes
  pub head : Option Head
  pub total : ℕ
  pub dropped : Bool

unfoldable pub new_message : Message
new_message = record {
  offset = 0;
  bytes = [];
  times = no_times;
  head = none;
  total = 0;
  dropped = false;
}

-- `u64::saturating_add`
unfoldable pub saturating_add : ℕ → ℕ → ℕ
saturating_add a b = min (a + b) (2 ^ 64 - 1)

-- Message::discard
unfoldable pub discard : Message → Message
discard message = record message { bytes = []; dropped = true }

-- Message::retain
unfoldable pub retain : Message → List ℕ → ℤ → ℕ → Role → Message
retain message bytes timestamp limit role =
    let seen = record message {
      times = observe message.times timestamp;
      total = saturating_add message.total (length bytes);
    } in
    let count = min (length bytes) (limit - length message.bytes) in
    if is_empty bytes
    then message
    else if message.dropped
    then seen
    else if is_request role && ltb limit seen.total
    then discard seen
    else record seen { bytes = append_bounded message.bytes (take count bytes) limit }

pub record Decoder : Type 0 where
  pub consumed : ℕ
  pub role : Role
  pub limit : ℕ
  pub message : Message
  pub body : Body

unfoldable pub new_decoder : Role → ℕ → Decoder
new_decoder role limit = record {
  consumed = 0;
  role = role;
  limit = limit;
  message = new_message;
  body = headers;
}

-- Decoder::take: the decoder for the next message, and this one.
unfoldable pub take_message : Decoder → Decoder × Message
take_message d = (
  record d {
    body = headers;
    message = new_message;
    consumed = saturating_add d.consumed d.message.total;
  },
  record (d.message) { offset = d.consumed },
)

-- `b"\r\n\r\n"` or `b"\n\n"` at the end.
unfoldable pub is_head_end : List ℕ → Bool
is_head_end bytes = ends_with (13 ∷ 10 ∷ 13 ∷ 10 ∷ []) bytes || ends_with (10 ∷ 10 ∷ []) bytes

unfoldable pub take_head_byte : Decoder → ℕ → ℤ → Decoder
take_head_byte d byte timestamp = record d {
  message = record (d.message) {
    bytes = append_bounded d.message.bytes (byte ∷ []) d.limit;
    total = d.message.total + 1;
    times = observe d.message.times timestamp;
  };
}

-- `matches!(self.body, Body::Fixed(length) if length > allowance)`
unfoldable pub exceeds : Body → ℕ → Bool
exceeds (fixed n) allowance = ltb allowance n
exceeds headers allowance = false
exceeds (chunked chunk) allowance = false
exceeds until_close allowance = false
exceeds done allowance = false

-- The head is complete: a request that will not fit is dropped at once.
unfoldable pub begin_body : Decoder → Head × Body → ℕ → Decoder
begin_body d (head, body) retain_limit =
    let kept = record (d.message) { head = some head } in
    let size = length d.message.bytes in
    if is_request d.role && (ltb retain_limit size || exceeds body (retain_limit - size))
    then record d { body = body; message = discard kept }
    else record d { body = body; message = kept }

unfoldable pub is_headers : Body → Bool
is_headers headers = true
is_headers (fixed n) = false
is_headers (chunked chunk) = false
is_headers until_close = false
is_headers done = false

-- `matches!(self.body, Body::Done | Body::Fixed(0))`
unfoldable pub is_complete : Body → Bool
is_complete headers = false
is_complete (fixed zero) = true
is_complete (fixed (suc n)) = false
is_complete (chunked chunk) = false
is_complete until_close = false
is_complete done = true

-- What one round of `feed` did: the decoder, the number of bytes used, and what it returns, if
-- the round ends the loop.
abbrev pub Round : Type 0
Round = Decoder × ℕ × Option (Option Message)

unfoldable pub return_message : Decoder → Round
return_message d = let (d', message) = take_message d in (d', 0, some (some message))

-- Bytes of the body are retained, and the body's state is replaced.
unfoldable pub retain_body : Decoder → List ℕ → ℤ → ℕ → Body → Decoder
retain_body d bytes timestamp retain_limit body = record d {
  message = retain d.message bytes timestamp retain_limit d.role;
  body = body;
}

-- What follows a round: the loop ends, or goes on with the bytes that are left.
unfoldable pub feed_on :
    (Decoder → List ℕ → ℕ → Result Malformed (Decoder × ℕ × Option Message))
    → List ℕ
    → ℕ
    → Round
    → Result Malformed (Decoder × ℕ × Option Message)
feed_on continue bytes used (d, count, some message) = ok (d, used + count, message)
feed_on continue bytes used (d, count, none) =
    if is_empty (drop count bytes) && not (is_complete d.body)
    then ok (d, used + count, none)
    else continue d (drop count bytes) (used + count)

module _ (http : Httparse) where
  unfoldable pub parse_head : List ℕ → Role → Option RequestMethod → Result Malformed (Head × Body)
  parse_head bytes request_role method = parse_request_head http bytes
  parse_head bytes response_role method = parse_response_head http bytes method

  -- The loop of `feed` over the bytes of a head: the decoder, and the number of bytes used.
  unfoldable pub read_head :
      Decoder → List ℕ → ℤ → Option RequestMethod → ℕ → Result Malformed (Decoder × ℕ)
  read_head d [] timestamp method retain_limit = ok (d, 0)
  read_head d (byte ∷ bytes) timestamp method retain_limit =
      let d' = take_head_byte d byte timestamp in
      let rest = read_head d' bytes timestamp method retain_limit in
      if leb d.limit (length d.message.bytes)
      then err malformed
      else if is_head_end d'.message.bytes
      then (parse_head d'.message.bytes d'.role method >>= λ parsed.
          ok (begin_body d' parsed retain_limit, 1))
      else (rest >>= λ r. ok (r.0, suc r.1))

  -- One round, by the state of the body.
  unfoldable pub feed_body :
      Body → Decoder → List ℕ → ℤ → Option RequestMethod → ℕ → Result Malformed Round
  feed_body headers d bytes timestamp method retain_limit = do
    found ← read_head d bytes timestamp method retain_limit
    ok (found.0, found.1, if is_headers found.0.body then some none else none)
  feed_body done d bytes timestamp method retain_limit = ok (return_message d)
  feed_body (fixed zero) d bytes timestamp method retain_limit = ok (return_message d)
  feed_body (fixed (suc n)) d bytes timestamp method retain_limit =
      let count = min (suc n) (length bytes) in
      ok (
        retain_body d (take count bytes) timestamp retain_limit (fixed (suc n - count)),
        count,
        none,
      )
  feed_body until_close d bytes timestamp method retain_limit =
      ok (retain_body d bytes timestamp retain_limit until_close, length bytes, some none)
  feed_body (chunked chunk) d bytes timestamp method retain_limit =
      if is_empty bytes then ok (d, 0, none) else (do
        found ← consume_chunk http.trailer chunk bytes d.limit
        ok (retain_body d (take found.0 bytes) timestamp retain_limit found.1, found.0, none))

  -- The loop of `feed` over the bytes that are left, with the number of those used. The first
  -- argument is the result where the rounds run out.
  unfoldable pub feed_rounds :
      Result Malformed (Decoder × ℕ × Option Message)
      → ℕ
      → ℤ
      → Option RequestMethod
      → ℕ
      → Decoder
      → List ℕ
      → ℕ
      → Result Malformed (Decoder × ℕ × Option Message)
  feed_rounds out zero timestamp method retain_limit d bytes used = out
  feed_rounds out (suc rounds) timestamp method retain_limit d bytes used =
      feed_body d.body d bytes timestamp method retain_limit
      >>= feed_on (feed_rounds out rounds timestamp method retain_limit) bytes used

  -- Decoder::feed
  unfoldable pub feed :
      Decoder
      → List ℕ
      → ℤ
      → Option RequestMethod
      → ℕ
      → Result Malformed (Decoder × ℕ × Option Message)
  feed d bytes timestamp method retain_limit =
      feed_rounds (err malformed) (2 * length bytes + 2) timestamp method retain_limit d bytes 0

unfoldable pub is_until_close : Body → Bool
is_until_close until_close = true
is_until_close headers = false
is_until_close (fixed n) = false
is_until_close (chunked chunk) = false
is_until_close done = false

-- Decoder::finish
unfoldable pub finish_message : Decoder → Bool → Option (Decoder × Message × Bool)
finish_message d clean_close =
    let (d', message) = take_message d in
    if is_some d.message.head
    then some (d', message, not (clean_close && is_until_close d.body))
    else none
