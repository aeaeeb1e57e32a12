-- ===== src/Tests/Worker.antt =====
-- Workers and classification (crates/analyzer/src/flow.rs and protocol.rs): the theorems at concrete
-- inputs.
use newhatch.Common.{
  ℕ, ◌≡◌, ◌≤◌, ◌↔◌, refl, arith, Bool, true, false, none, some, List, [], ◌∷◌, length, All,
}
use newhatch.Common.Int.{pos}
use newhatch.Wire.Messages.{v4, Endpoint, ClassifiedPacket, c2s}
use newhatch.Domain.{raw_tcp, CompletedSession}
use newhatch.Payload.Json.{JsonLibrary}
use newhatch.Http.Framing.{complete, malformed_head, Httparse}
use newhatch.Protocol.Heads.{BeginsRequest, BeginsResponse, all_read}
use newhatch.Protocol.{no_request, no_response, parse_request, parse_response, classify_session}
use newhatch.Protocol.Raw.{classify_session-raw_tcp}
use newhatch.Flow.State.{
  FlowState, Regex, new_flow, is_new_connection, changes_syn, changes_client_syn, both,
}
use newhatch.Flow.Assembler.{is_some}
use newhatch.Flow.Ingest.{ingest}
use newhatch.Flow.Renewal.{is_new_connection-ingest}
use newhatch.Flow.Consumed.{IsShown}
use newhatch.Flow.Worker.{IngressPacket, FlowWorker, Event, received, tick, run, handle}
use newhatch.Flow.Worker.Shown.{run_shown}
use newhatch.Flow.Worker.Room.{handle-HasRoom}

-- Libraries that read nothing.
abbrev parser : Httparse
parser = record {
  request = λ bytes. record {
    outcome = malformed_head;
    verb = none;
    target = none;
    version = none;
    headers = [];
  };
  response =
      λ bytes. record { outcome = malformed_head; code = none; version = none; headers = [] };
  one_header = λ bytes. none;
  trailer = λ bytes. false;
}

abbrev json : JsonLibrary
json = record { parse = λ text. none; quote = λ text. text; number_text = λ text. text }

abbrev no_flags : Regex
no_flags = λ bytes. []

abbrev pub near : Endpoint
near = record { ip = v4 (10 ∷ 0 ∷ 0 ∷ 1 ∷ []); port = 1234 }

abbrev pub far : Endpoint
far = record { ip = v4 (10 ∷ 0 ∷ 0 ∷ 2 ∷ []); port = 80 }

abbrev pub client_syn : ClassifiedPacket
client_syn = record {
  source_id = pos 1;
  direction = c2s;
  flow_key = record { client = near; server = far };
  packet = record {
    timestamp_micros = pos 5;
    src = near;
    dst = far;
    sequence = 7;
    syn = true;
    fin = false;
    rst = false;
    payload = [];
  };
}

abbrev client_data : ClassifiedPacket
client_data = record client_syn {
  packet = record (client_syn.packet) {
    timestamp_micros = pos 6;
    sequence = 8;
    syn = false;
    payload = b'h' ∷ b'i' ∷ [];
  };
}

abbrev data_ingress : IngressPacket
data_ingress = record { collector_id = b'a' ∷ []; packet = client_data }

abbrev ingress : IngressPacket
ingress = record { collector_id = b'a' ∷ []; packet = client_syn }

abbrev Log : Type 0
Log = List CompletedSession

-- A channel that takes all.
abbrev keep : CompletedSession → Log → Log × Bool
keep session sessions = (session ∷ sessions, true)

abbrev worker : FlowWorker Log
worker = record {
  flows = [];
  storage = [];
  idle_timeout = 10;
  max_active_flows = 1;
  max_stream_bytes = 100;
  dropped_flows = 0;
  dropped_sessions = 0;
  discarded_http = 0;
}

abbrev events : List (Event × ℕ)
events =
    (received ingress, 0) ∷ (received data_ingress, 1) ∷ (tick, 20) ∷ (received ingress, 30) ∷ []

abbrev stored : List CompletedSession
stored = (run parser json no_flags keep worker events).storage

-- The worker stores one connection.
stored_once : length stored ≡ 1
unfolding run newhatch.Flow.Worker.store_each handle newhatch.Flow.Worker.handle_packet is_some
    newhatch.Flow.Worker.lookup_flow newhatch.Flow.Worker.replace_connection
    newhatch.Flow.Worker.expire_idle newhatch.Flow.Worker.finish_flows
    newhatch.Flow.Worker.expired_keys newhatch.Flow.Worker.admit newhatch.Flow.State.is_closed
    newhatch.Flow.Assembler.closed ingest newhatch.Flow.Ingest.see_response_end
    newhatch.Flow.Ingest.start_anchored newhatch.Flow.Ingest.is_anchor
    newhatch.Flow.Ingest.push_payload newhatch.Flow.Consume.consume_all newhatch.Flow.Assembler.push
    newhatch.Flow.State.at newhatch.Flow.Ingest.see_syn newhatch.Flow.Ingest.see_packet
    newhatch.Flow.Worker.flow_or_new new_flow both newhatch.Flow.State.set_at
    newhatch.Flow.Assembler.seed newhatch.Flow.Assembler.new newhatch.Flow.Ingest.see_fin
    newhatch.Flow.Worker.store_all newhatch.Flow.Worker.put_flow newhatch.Flow.Worker.same_key
    newhatch.Flow.Worker.key_of newhatch.Flow.Worker.same_endpoint newhatch.Flow.Worker.same_ip
    is_new_connection newhatch.Flow.Assembler.push_at newhatch.Flow.Assembler.trim
    newhatch.Flow.Sequence.sequence_before newhatch.Flow.Ingest.payload_sequence
    newhatch.Flow.Sequence.wrapping_add newhatch.Flow.Assembler.place
    newhatch.Flow.Assembler.is_past newhatch.Flow.Assembler.any_disagrees
    newhatch.Flow.Assembler.advance newhatch.Flow.Assembler.drain newhatch.Flow.Consume.consume
    newhatch.Flow.Consume.consume_by newhatch.Flow.Consume.consume_unknown
    newhatch.Flow.Consume.decide newhatch.Flow.Consume.headers_ready
    newhatch.Flow.Consume.request_http newhatch.Flow.State.http_version_line
    newhatch.Flow.State.ends_with newhatch.Common.Text.starts_with newhatch.Common.Text.reverse
    newhatch.Flow.State.strip_return newhatch.Flow.State.or_length
    newhatch.Flow.Consume.inspect_direction newhatch.Flow.Probe.inspect
    newhatch.Flow.Consume.append_bytes newhatch.Flow.Stream.push_segment
    newhatch.Flow.Stream.new_stream newhatch.Flow.Stream.place_segment
    newhatch.Flow.Stream.drain_stream newhatch.Flow.Stream.append_contiguous
    newhatch.Flow.Consume.note_appended newhatch.Flow.Probe.new_probe newhatch.Flow.Probe.position
    newhatch.Flow.Stream.append_bounded newhatch.Flow.Consume.response_http
    newhatch.Flow.Worker.should_expire newhatch.Flow.State.expired
    newhatch.Flow.State.idle_http_context newhatch.Flow.State.waits_for_nothing
    newhatch.Flow.State.is_plain_http newhatch.Flow.State.probing_http
    newhatch.Flow.State.line_of_http newhatch.Flow.Worker.finish_flow newhatch.Flow.Ingest.finish
    newhatch.Flow.Ingest.finish_by newhatch.Flow.Ingest.finish_raw newhatch.Flow.Ingest.shows_http
    classify_session newhatch.Protocol.protocol_of parse_request newhatch.Http.Framing.is_usable
    no_request parse_response no_response newhatch.Protocol.is_switching
    newhatch.Flow.State.http_request_line newhatch.Flow.Worker.store_one
    newhatch.Flow.Worker.remove_flow newhatch.Flow.Worker.try_store
    newhatch.Flow.Worker.should_persist newhatch.Flow.Ingest.whole_session
stored_once = refl

run_shown_example : All IsShown stored
run_shown_example =
    run_shown parser json no_flags keep (λ (sessions : Log). All IsShown sessions)
      (λ session sessions worth shown all. (shown, all)) worker events refl tt

handle-HasRoom_example :
    let w = handle parser json no_flags keep worker (received ingress) 0 in
    (w.max_active_flows ≡ 1) × (length w.flows ≤ 1)
handle-HasRoom_example =
    handle-HasRoom parser json no_flags keep 1 worker (received ingress) 0 refl (omega arith)

abbrev fresh : FlowState
fresh = new_flow 0 (b'a' ∷ []) (pos 1) client_syn.flow_key (pos 5) 100

fresh_joins : is_new_connection fresh client_syn ≡ false
unfolding is_new_connection new_flow changes_syn changes_client_syn is_some both
fresh_joins = refl

is_new_connection-ingest_example :
    is_new_connection (ingest parser json no_flags fresh client_syn 3).0 client_syn ≡ false
is_new_connection-ingest_example =
    is_new_connection-ingest parser json no_flags fresh client_syn 3 fresh_joins

-- A library that takes every request for the whole head of a GET.
abbrev reading : Httparse
reading = record parser {
  request = λ bytes. record {
    outcome = complete;
    verb = some (b'G' ∷ b'E' ∷ b'T' ∷ []);
    target = none;
    version = some 1;
    headers = [];
  };
}

begins_request : BeginsRequest reading (b'G' ∷ [])
unfolding newhatch.Http.Framing.is_some
begins_request = (all_read, refl, refl)

classify_session-raw_tcp_example :
    ((classify_session reading (b'G' ∷ []) []).0 ≡ raw_tcp)
    ↔ ((¬ BeginsRequest reading (b'G' ∷ [])) × (¬ BeginsResponse reading []))
classify_session-raw_tcp_example = classify_session-raw_tcp reading (b'G' ∷ []) []
