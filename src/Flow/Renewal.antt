-- ===== src/Flow/Renewal.antt =====
-- When `FlowState::is_new_connection` (crates/analyzer/src/flow.rs) tells packets apart that were seen
-- before.
use newhatch.Common.{
  ℕ, ◌-◌, ◌≡◌, refl, arith, if◌then◌else◌, Bool, true, false, Option, none, some, List, [], ◌∷◌,
  length, Bool-cases, inl, inr, ◌∙◌, ap,
}
use newhatch.Common.Int.{ℤ}
use newhatch.Wire.Messages.{Direction, c2s, s2c, ClassifiedPacket}
use newhatch.Payload.Json.{JsonLibrary}
use newhatch.Http.Framing.{Httparse}
use newhatch.Http.Sessions.{HttpSessions}
use newhatch.Flow.Assembler.{Slice, push, is_some}
use newhatch.Flow.State.{
  Both, at, set_at, FlowState, Regex, is_other, changes_client_syn, changes_syn, is_new_connection,
}
use newhatch.Flow.Consume.{
  note_appended, append_bytes, decide_raw, suppress, inspect_direction, start_http, take_bytes,
  recognize, decide, consume_unknown, consume_http, consume_by, consume, consume_all,
}
use newhatch.Flow.Ingest.{
  see_packet, see_syn, push_payload, payload_sequence, start_anchored, close_http, see_response_end,
  ingest,
}

append_bytes-syn :
    (regex : Regex) (f : FlowState) (direction : Direction) (sequence : ℕ) (bytes : List ℕ)
    (timestamp : ℤ)
    → (append_bytes regex f direction sequence bytes timestamp).syn ≡ f.syn
unfolding append_bytes note_appended
append_bytes-syn regex f direction sequence bytes timestamp = ground arith

module _ (parser : Httparse) (json : JsonLibrary) (regex : Regex) where
  decide-syn :
      (f : FlowState) (direction : Direction) (bytes : List ℕ) (timestamp : ℤ) (retained_input : ℕ)
      → (decide parser json regex f direction bytes timestamp retained_input).0.syn ≡ f.syn
  unfolding decide recognize decide_raw suppress start_http take_bytes
  decide-syn f direction bytes timestamp retained_input = ground arith

  consume_unknown-syn :
      (f : FlowState) (direction : Direction) (sequence : ℕ) (bytes : List ℕ) (timestamp : ℤ)
      → (consume_unknown parser json regex f direction sequence bytes timestamp).0.syn ≡ f.syn
  unfolding consume_unknown inspect_direction
  consume_unknown-syn f direction sequence bytes timestamp =
      let f' = append_bytes regex f direction sequence bytes timestamp in
      let kept = length (at f'.streams direction).bytes - length (at f.streams direction).bytes in
      ground (
        arith,
        append_bytes-syn regex f direction sequence bytes timestamp,
        decide-syn (inspect_direction f' direction) direction bytes timestamp kept,
      )

  consume_by-syn :
      (f : FlowState) (o : Option HttpSessions) (direction : Direction) (sequence : ℕ)
      (bytes : List ℕ) (timestamp : ℤ)
      → (consume_by parser json regex f o direction sequence bytes timestamp).0.syn ≡ f.syn
  unfolding consume_by consume_http
  consume_by-syn f none direction sequence bytes timestamp =
      consume_unknown-syn f direction sequence bytes timestamp
  consume_by-syn f (some h) direction sequence bytes timestamp = refl

  consume-syn :
      (f : FlowState) (direction : Direction) (sequence : ℕ) (bytes : List ℕ) (timestamp : ℤ)
      → (consume parser json regex f direction sequence bytes timestamp).0.syn ≡ f.syn
  unfolding consume
  consume-syn f direction sequence bytes timestamp =
      ground (arith, consume_by-syn f f.http direction sequence bytes timestamp)

  consume_all-syn :
      (f : FlowState) (direction : Direction) (slices : List Slice)
      → (consume_all parser json regex f direction slices).0.syn ≡ f.syn
  unfolding consume_all
  consume_all-syn f direction [] = refl
  consume_all-syn f direction (slice ∷ slices) =
      consume_all-syn
        (consume parser json regex f direction slice.sequence slice.bytes slice.timestamp).0
        direction slices
      ∙ consume-syn f direction slice.sequence slice.bytes slice.timestamp

  close_http-syn :
      (f : FlowState) (o : Option HttpSessions) → (close_http parser json regex f o).0.syn ≡ f.syn
  unfolding close_http
  close_http-syn f none = refl
  close_http-syn f (some h) = refl

  see_response_end-syn : (f : FlowState) → (see_response_end parser json regex f).0.syn ≡ f.syn
  unfolding see_response_end
  see_response_end-syn f = ground (arith, close_http-syn (record f { response_eof = true }) f.http)

  start_anchored-syn :
      (f : FlowState) (classified : ClassifiedPacket)
      → (start_anchored parser json regex f classified).0.syn ≡ f.syn
  unfolding start_anchored
  start_anchored-syn f classified = ground (
    arith,
    consume-syn f classified.direction (payload_sequence classified.packet) []
        classified.packet.timestamp_micros,
  )

  push_payload-syn :
      (f : FlowState) (classified : ClassifiedPacket) (now : ℕ)
      → (push_payload parser json regex f classified now).0.syn ≡ f.syn
  unfolding push_payload
  push_payload-syn f classified now =
      let packet = classified.packet in
      consume_all-syn f classified.direction
        (push (at f.ordered classified.direction) (payload_sequence packet) packet.payload
          packet.timestamp_micros).2

  -- Of the initial sequence numbers, a packet changes what `see_syn` does.
  ingest-syn :
      (f : FlowState) (classified : ClassifiedPacket) (now : ℕ)
      → (ingest parser json regex f classified now).0.syn
        ≡ (see_syn (see_packet f classified now) classified).syn
  unfolding ingest
  ingest-syn f classified now =
      let begun = see_syn (see_packet f classified now) classified in
      let f1 = (push_payload parser json regex begun classified now).0 in
      let f2 = (start_anchored parser json regex f1 classified).0 in
      see_response_end-syn f2
      ∙ start_anchored-syn f1 classified
      ∙ push_payload-syn begun classified now

seen_client :
    (o : Option ℕ) (sequence : ℕ) (before after : Bool)
    → changes_client_syn o sequence before ≡ false
    → changes_client_syn (if is_some o then o else some sequence) sequence after ≡ false
unfolding changes_client_syn is_some
seen_client none sequence before after h = ground arith
seen_client (some old) sequence before after h = h

seen_server :
    (o : Option ℕ) (sequence : ℕ)
    → is_other o sequence ≡ false
    → is_other (if is_some o then o else some sequence) sequence ≡ false
unfolding is_other is_some
seen_server none sequence h = ground arith
seen_server (some old) sequence h = h

at-set_at :
    (pair : Both (Option ℕ)) (direction : Direction) (value : Option ℕ)
    → at (set_at pair direction value) direction ≡ value
unfolding at set_at
at-set_at pair c2s value = refl
at-set_at pair s2c value = refl

see_syn-at :
    (f : FlowState) (classified : ClassifiedPacket) (now : ℕ)
    → classified.packet.syn ≡ true
    → at (see_syn (see_packet f classified now) classified).syn classified.direction ≡ (
        if is_some (at f.syn classified.direction)
        then at f.syn classified.direction
        else some classified.packet.sequence)
unfolding see_syn see_packet
see_syn-at f classified now e =
    ground (arith, e, at-set_at f.syn classified.direction (some classified.packet.sequence))

changes_again :
    (f g : FlowState) (direction : Direction) (sequence : ℕ)
    → at g.syn direction
      ≡ (if is_some (at f.syn direction) then at f.syn direction else some sequence)
    → changes_syn f direction sequence ≡ false
    → changes_syn g direction sequence ≡ false
unfolding changes_syn at
changes_again f g c2s sequence e h = rw e (seen_client f.syn.client sequence _ _ h)
changes_again f g s2c sequence e h = rw e (seen_server f.syn.server sequence h)

-- A packet that does not begin a new connection does not either when it comes again: the SYN of a
-- connection may be sent repeatedly.
pub is_new_connection-ingest :
    (parser : Httparse) (json : JsonLibrary) (regex : Regex) (f : FlowState)
    (classified : ClassifiedPacket) (now : ℕ)
    → is_new_connection f classified ≡ false
    → is_new_connection (ingest parser json regex f classified now).0 classified ≡ false
unfolding is_new_connection
is_new_connection-ingest parser json regex f classified now h =
    let g = (ingest parser json regex f classified now).0 in
    elim (Bool-cases classified.packet.syn) [
      | inl e ↦
          let same =
            ap (λ (syn : Both (Option ℕ)). at syn classified.direction)
              (ingest-syn parser json regex f classified now) in
          let seen =
            changes_again f g classified.direction classified.packet.sequence
              (same ∙ see_syn-at f classified now e) (rw (e, is_new_connection) at h) in
          simp e seen
      | inr e ↦ simp e refl
    ]
