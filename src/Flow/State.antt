-- ===== src/Flow/State.antt =====
-- `FlowState` of crates/analyzer/src/flow.rs, a connection: its state and what is read off it. An
-- instant and a duration are numbers of nanoseconds. A pair of fields, or an array of two, that has a
-- part for each direction is one field.
use newhatch.Common.{
  ℕ, ◌+◌, ◌-◌, ◌*◌, min, ltb, leb, ◌==◌, if◌then◌else◌, Bool, true, false, not, ◌&&◌, ◌||◌, Option,
  none, some, List, [], ◌∷◌, length, take, drop,
}
use newhatch.Common.Int.{ℤ}
use newhatch.Common.Text.{in_range, starts_with, reverse}
use newhatch.Wire.Messages.{Direction, c2s, s2c, FlowKey, ClassifiedPacket}
use newhatch.Flow.Assembler.{TcpAssembler, new, closed, has_gap, is_some}
use newhatch.Flow.Stream.{StreamAssembler, new_stream}
use newhatch.Flow.Probe.{Probe, new_probe, position}
use newhatch.Http.Sessions.{HttpSessions}
use newhatch.Http.Feed.{is_websocket, has_pending}
use newhatch.Http.Decoder.{saturating_add}

-- `[A; 2]`, whose index is `direction_index` of a direction.
pub record Both {ℓ} (A : Type ℓ) : Type ℓ where
  pub client : A
  pub server : A

unfoldable pub at {ℓ} : {A : Type ℓ} → Both A → Direction → A
at pair c2s = pair.client
at pair s2c = pair.server

unfoldable pub set_at {ℓ} : {A : Type ℓ} → Both A → Direction → A → Both A
set_at pair c2s value = record pair { client = value }
set_at pair s2c value = record pair { server = value }

unfoldable pub both {ℓ} : {A : Type ℓ} → A → Both A
both value = record { client = value; server = value }

pub record Span : Type 0 where
  pub stop : ℕ
  pub timestamp : ℤ
  pub last_timestamp : ℤ

pub record FlowState : Type 0 where
  pub collector_id : List ℕ
  pub first_payload_at : Both (Option ℤ)
  pub source_id : ℤ
  pub key : FlowKey
  pub started_at : ℤ
  pub ended_at : ℤ
  pub last_seen : ℕ
  pub last_payload : ℕ
  pub ordered : Both TcpAssembler
  pub syn : Both (Option ℕ)
  pub streams : Both StreamAssembler
  pub spans : Both (List Span)
  pub probe : Both Probe
  pub http : Option HttpSessions
  pub raw_decided : Bool
  pub suppressed : Bool
  pub response_eof : Bool
  pub max_stream_bytes : ℕ
  pub flag_count : Both ℕ
  pub scanned_to : Both ℕ

-- FlowState::new at the instant `now`.
unfoldable pub new_flow : ℕ → List ℕ → ℤ → FlowKey → ℤ → ℕ → FlowState
new_flow now collector_id source_id key timestamp max_stream_bytes = record {
  collector_id = collector_id;
  first_payload_at = both none;
  source_id = source_id;
  key = key;
  started_at = timestamp;
  ended_at = timestamp;
  last_seen = now;
  last_payload = now;
  ordered = both (new max_stream_bytes);
  syn = both none;
  streams = both (new_stream max_stream_bytes);
  spans = both [];
  probe = both new_probe;
  http = none;
  raw_decided = false;
  suppressed = false;
  response_eof = false;
  max_stream_bytes = max_stream_bytes;
  flag_count = both 0;
  scanned_to = both 0;
}

-- `is_some_and(|sequence| sequence != packet.sequence)`
unfoldable pub is_other : Option ℕ → ℕ → Bool
is_other none sequence = false
is_other (some old) sequence = not (old == sequence)

unfoldable pub changes_client_syn : Option ℕ → ℕ → Bool → Bool
changes_client_syn (some old) sequence has_payload = not (old == sequence)
changes_client_syn none sequence has_payload = has_payload

unfoldable pub changes_syn : FlowState → Direction → ℕ → Bool
changes_syn f c2s sequence =
    changes_client_syn f.syn.client sequence
      (is_some f.first_payload_at.client || is_some f.first_payload_at.server)
changes_syn f s2c sequence = is_other f.syn.server sequence

-- FlowState::is_new_connection
unfoldable pub is_new_connection : FlowState → ClassifiedPacket → Bool
is_new_connection f classified =
    if classified.packet.syn
    then changes_syn f classified.direction classified.packet.sequence
    else false

-- b" HTTP/1.1", b" HTTP/1.0", b"HTTP/1.", b"http" and b"CONNECT "
abbrev pub one_one : List ℕ
one_one = 32 ∷ b'H' ∷ b'T' ∷ b'T' ∷ b'P' ∷ b'/' ∷ b'1' ∷ b'.' ∷ b'1' ∷ []

abbrev pub one_zero : List ℕ
one_zero = 32 ∷ b'H' ∷ b'T' ∷ b'T' ∷ b'P' ∷ b'/' ∷ b'1' ∷ b'.' ∷ b'0' ∷ []

abbrev pub http_mark : List ℕ
http_mark = b'H' ∷ b'T' ∷ b'T' ∷ b'P' ∷ b'/' ∷ b'1' ∷ b'.' ∷ []

abbrev pub scheme : List ℕ
scheme = b'h' ∷ b't' ∷ b't' ∷ b'p' ∷ []

abbrev pub connect_space : List ℕ
connect_space = b'C' ∷ b'O' ∷ b'N' ∷ b'N' ∷ b'E' ∷ b'C' ∷ b'T' ∷ 32 ∷ []

unfoldable pub ends_with : List ℕ → List ℕ → Bool
ends_with pattern text = starts_with (reverse pattern) (reverse text)

-- `strip_suffix(b"\r")`, or the line itself.
unfoldable pub strip_return : List ℕ → List ℕ
strip_return [] = []
strip_return (byte ∷ []) = if byte == 13 then [] else byte ∷ []
strip_return (byte ∷ next ∷ line) = byte ∷ strip_return (next ∷ line)

unfoldable pub http_version_line : List ℕ → Bool
http_version_line line =
    ends_with one_one (strip_return line) || ends_with one_zero (strip_return line)

unfoldable pub or_length : Option ℕ → List ℕ → ℕ
or_length none bytes = length bytes
or_length (some stop) bytes = stop

-- The first part that `split` at line feeds gives.
unfoldable pub http_request_line : List ℕ → Bool
http_request_line bytes = http_version_line (take (or_length (position 10 bytes) bytes) bytes)

-- `is_ascii_alphanumeric`, or one of b"!#$%&'*+-.^_`|~".
unfoldable pub is_token : ℕ → Bool
is_token byte =
    in_range b'0' b'9' byte
    || in_range b'A' b'Z' byte
    || in_range b'a' b'z' byte
    || byte == 33
    || in_range 35 39 byte
    || byte == 42
    || byte == 43
    || byte == 45
    || byte == 46
    || in_range 94 96 byte
    || byte == 124
    || byte == 126

unfoldable pub are_tokens : List ℕ → Bool
are_tokens [] = true
are_tokens (byte ∷ bytes) = is_token byte && are_tokens bytes

unfoldable pub hint_at : List ℕ → Option ℕ → Bool
hint_at bytes none = false
hint_at bytes (some space) =
    not (space == 0)
    && are_tokens (take space bytes)
    && (starts_with (b'/' ∷ []) (drop (space + 1) bytes)
        || starts_with (b'*' ∷ []) (drop (space + 1) bytes)
        || starts_with scheme (drop (space + 1) bytes)
        || starts_with connect_space bytes)

unfoldable pub http_request_hint : List ℕ → Bool
http_request_hint bytes = hint_at bytes (position 32 (take 32 bytes))

-- `self.http.as_ref().is_some_and(|http| !http.is_websocket())`
unfoldable pub is_plain_http : Option HttpSessions → Bool
is_plain_http none = false
is_plain_http (some h) = not (is_websocket h)

unfoldable pub waits_for_nothing : Option HttpSessions → Bool
waits_for_nothing none = false
waits_for_nothing (some h) = not (is_websocket h) && not (has_pending h)

unfoldable pub is_quiet : TcpAssembler → Bool
is_quiet a = not (has_gap a) && not (is_some a.fin_at)

-- FlowState::idle_http_context
unfoldable pub idle_http_context : FlowState → Bool
idle_http_context f =
    waits_for_nothing f.http && is_quiet f.ordered.client && is_quiet f.ordered.server

unfoldable pub line_of_http : Option ℕ → List ℕ → Bool
line_of_http none bytes = false
line_of_http (some stop) bytes = http_version_line (take stop bytes)

unfoldable pub probing_http : FlowState → Bool
probing_http f =
    not (is_some f.http)
    && not f.raw_decided
    && not f.suppressed
    && (line_of_http f.probe.client.line_end f.streams.client.bytes
        || starts_with http_mark f.streams.server.bytes)

-- FlowState::expired
unfoldable pub expired : FlowState → ℕ → ℕ → Bool
expired f now timeout =
    let last =
      if is_plain_http f.http || f.suppressed || probing_http f
      then f.last_payload
      else f.last_seen in
    if idle_http_context f then false else leb timeout (now - last)

-- FlowState::closed
unfoldable pub is_closed : FlowState → Bool
is_closed f = closed f.ordered.client && closed f.ordered.server

unfoldable pub discards : Option HttpSessions → ℕ
discards none = 0
discards (some h) = saturating_add h.discarded_requests (if h.failed then 1 else 0)

-- FlowState::discarded_http
unfoldable pub discarded_http : FlowState → ℕ
discarded_http f = (if f.suppressed then 1 else 0) + discards f.http

-- `Regex::find_iter`: where the matches begin and end.
abbrev pub Regex : Type 0
Regex = List ℕ → List (ℕ × ℕ)

unfoldable pub count_ending_after : ℕ → ℕ → List (ℕ × ℕ) → ℕ
count_ending_after window_start previous_end [] = 0
count_ending_after window_start previous_end ((start, stop) ∷ found) =
    (if ltb previous_end (window_start + stop) then 1 else 0)
    + count_ending_after window_start previous_end found

-- scan_new_matches: the count and the new `scanned_to`.
unfoldable pub scan_new_matches : Regex → List ℕ → ℕ → ℕ × ℕ
scan_new_matches regex bytes scanned_to =
    let previous_end = min scanned_to (length bytes) in
    let window_start = previous_end - 4 * 1024 in
    (count_ending_after window_start previous_end (regex (drop window_start bytes)), length bytes)
