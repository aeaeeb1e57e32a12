-- ===== src/Flow/Worker/Room.antt =====
-- How many connections `FlowWorker` (crates/analyzer/src/flow.rs) keeps.
use newhatch.Common.{
  ℕ, suc, ◌-◌, ◌≤◌, ◌≡◌, refl, ◌∙◌, arith, leb, ◌==◌, if◌then◌else◌, Bool, true, false, not, ◌&&◌,
  ◌||◌, Option, none, some, List, [], ◌∷◌, length, Bool-cases, inl, inr,
}
use newhatch.Domain.{CompletedSession}
use newhatch.Wire.Messages.{ClassifiedPacket}
use newhatch.Payload.Json.{JsonLibrary}
use newhatch.Http.Framing.{Httparse}
use newhatch.Http.Decoder.{saturating_add}
use newhatch.Flow.Assembler.{is_some}
use newhatch.Flow.State.{FlowState, Regex, new_flow, is_closed, is_new_connection, discarded_http}
use newhatch.Flow.Ingest.{ingest, finish}
use newhatch.Flow.Worker.{
  CollectorFlowKey, IngressPacket, Flows, lookup_flow, remove_flow, put_flow, flow_or_new, key_of,
  FlowWorker, should_expire, expired_keys, Event, received, tick, store_one, store_all, finish_flow,
  replace_connection, admit, handle_packet, finish_flows, expire_idle, handle,
}

length-remove_flow :
    (key : CollectorFlowKey) (flows : Flows) → length (remove_flow key flows) ≤ length flows
unfolding remove_flow
length-remove_flow key [] = omega arith
length-remove_flow key ((other, f) ∷ flows) = ground (arith, length-remove_flow key flows)

length-put_flow :
    (key : CollectorFlowKey) (value : FlowState) (flows : Flows)
    → length (put_flow key value flows)
      ≡ (if is_some (lookup_flow key flows) then length flows else suc (length flows))
unfolding put_flow lookup_flow is_some
length-put_flow key value [] = refl
length-put_flow key value ((other, f) ∷ flows) = ground (arith, length-put_flow key value flows)

module _ (parser : Httparse) (json : JsonLibrary) (regex : Regex) {Q : Type 0}
    (try_send : CompletedSession → Q → Q × Bool) where
  -- From one worker to another: the limit is the same, and there are no more connections.
  abbrev IsNoFuller : FlowWorker Q → FlowWorker Q → Type 0
  IsNoFuller w w' = (w'.max_active_flows ≡ w.max_active_flows) × (length w'.flows ≤ length w.flows)

  IsNoFuller-trans : (a b c : FlowWorker Q) → IsNoFuller a b → IsNoFuller b c → IsNoFuller a c
  IsNoFuller-trans a b c (e, l) (e', l') = (e' ∙ e, omega arith)

  store_all-IsNoFuller :
      (w : FlowWorker Q) (sessions : List CompletedSession)
      → IsNoFuller w (store_all parser json regex try_send w sessions)
  unfolding store_all store_one
  store_all-IsNoFuller w [] = (refl, omega arith)
  store_all-IsNoFuller w (session ∷ sessions) =
      store_all-IsNoFuller (store_one parser json regex try_send w session) sessions

  finish_found :
      (w : FlowWorker Q) (key : CollectorFlowKey) (timed_out : Bool) (o : Option FlowState)
      → IsNoFuller w (elim o [
        | none ↦ w
        | some f ↦
            store_all parser json regex try_send
              (record w { flows = remove_flow key w.flows })
              (finish parser json regex f timed_out)
      ])
  finish_found w key timed_out none = (refl, omega arith)
  finish_found w key timed_out (some f) =
      let w' : FlowWorker Q = record w { flows = remove_flow key w.flows } in
      let sessions = finish parser json regex f timed_out in
      IsNoFuller-trans w w' (store_all parser json regex try_send w' sessions)
        (refl, length-remove_flow key w.flows) (store_all-IsNoFuller w' sessions)

  finish_flow-IsNoFuller :
      (w : FlowWorker Q) (key : CollectorFlowKey) (timed_out : Bool)
      → IsNoFuller w (finish_flow parser json regex try_send w key timed_out)
  unfolding finish_flow
  finish_flow-IsNoFuller w key timed_out = finish_found w key timed_out (lookup_flow key w.flows)

  replaced :
      (w : FlowWorker Q) (key : CollectorFlowKey) (classified : ClassifiedPacket)
      (o : Option FlowState)
      → IsNoFuller w (elim o [
        | none ↦ w
        | some f ↦
            if is_new_connection f classified
            then finish_flow parser json regex try_send w key true
            else w
      ])
  replaced w key classified none = (refl, omega arith)
  replaced w key classified (some f) = ground (arith, finish_flow-IsNoFuller w key true)

  finish_flows-IsNoFuller :
      (w : FlowWorker Q) (keys : List CollectorFlowKey)
      → IsNoFuller w (finish_flows parser json regex try_send w keys)
  unfolding finish_flows
  finish_flows-IsNoFuller w [] = (refl, omega arith)
  finish_flows-IsNoFuller w (key ∷ keys) =
      let w' = finish_flow parser json regex try_send w key true in
      IsNoFuller-trans w w' (finish_flows parser json regex try_send w' keys)
        (finish_flow-IsNoFuller w key true) (finish_flows-IsNoFuller w' keys)

  -- The limit stays, and there are no more connections than it.
  abbrev HasRoom : ℕ → FlowWorker Q → Type 0
  HasRoom limit w = (w.max_active_flows ≡ limit) × (length w.flows ≤ limit)

  HasRoom-IsNoFuller :
      (limit : ℕ) (w w' : FlowWorker Q) → HasRoom limit w → IsNoFuller w w' → HasRoom limit w'
  HasRoom-IsNoFuller limit w w' (e, l) (e', l') = (e' ∙ e, omega arith)

  replace_connection-IsNoFuller :
      (w : FlowWorker Q) (key : CollectorFlowKey) (classified : ClassifiedPacket)
      → IsNoFuller w (replace_connection parser json regex try_send w key classified)
  unfolding replace_connection
  replace_connection-IsNoFuller w key classified =
      replaced w key classified (lookup_flow key w.flows)

  HasRoom-if :
      (limit : ℕ) (b : Bool) (x y : FlowWorker Q)
      → HasRoom limit x
      → HasRoom limit y
      → HasRoom limit (if b then x else y)
  HasRoom-if limit true x y h k = h
  HasRoom-if limit false x y h k = k

  -- A connection that is there, or room for one more.
  admit-HasRoom :
      (limit : ℕ) (w : FlowWorker Q) (key : CollectorFlowKey) (classified : ClassifiedPacket)
      (now : ℕ)
      → (if is_some (lookup_flow key w.flows) then length w.flows else suc (length w.flows)) ≤ limit
      → w.max_active_flows ≡ limit
      → HasRoom limit (admit parser json regex try_send w key classified now)
  unfolding admit
  admit-HasRoom limit w key classified now few e =
      let fresh =
        new_flow now key.collector_id classified.source_id key.flow_key
          classified.packet.timestamp_micros w.max_stream_bytes in
      let f = flow_or_new (lookup_flow key w.flows) fresh in
      let (f', ready) = ingest parser json regex f classified now in
      let discarded = discarded_http f' - discarded_http f in
      let w' : FlowWorker Q = record w {
        flows = put_flow key f' w.flows;
        discarded_http =
            if discarded == 0 then w.discarded_http else saturating_add w.discarded_http discarded;
      } in
      let stored = store_all parser json regex try_send w' ready in
      let long : length (put_flow key f' w.flows) ≤ limit =
        rw (length-put_flow key f' w.flows) few in
      let h = HasRoom-IsNoFuller limit w' stored (e, long) (store_all-IsNoFuller w' ready) in
      let finished = finish_flow parser json regex try_send stored key false in
      HasRoom-if limit (classified.packet.rst || is_closed f') finished stored
        (HasRoom-IsNoFuller limit stored finished h (finish_flow-IsNoFuller stored key false)) h

  handle_packet-HasRoom :
      (limit : ℕ) (w : FlowWorker Q) (ingress : IngressPacket) (now : ℕ)
      → HasRoom limit w
      → HasRoom limit (handle_packet parser json regex try_send w ingress now)
  unfolding handle_packet
  handle_packet-HasRoom limit w ingress now h =
      let key = key_of ingress in
      let w' = replace_connection parser json regex try_send w key ingress.packet in
      let (e, l) =
        HasRoom-IsNoFuller limit w w' h (replace_connection-IsNoFuller w key ingress.packet) in
      elim (Bool-cases
        (not (is_some (lookup_flow key w'.flows)) && leb w'.max_active_flows (length w'.flows))) [
          | inl full ↦ rw full (e, l)
          | inr free ↦
              rw free (admit-HasRoom limit w' key ingress.packet now (ground (arith, e, l, free)) e)
        ]

  -- Each packet and each tick leaves a worker's limit as it is, and no more connections than the
  -- limit where there were no more before.
  pub handle-HasRoom :
      (limit : ℕ) (w : FlowWorker Q) (event : Event) (now : ℕ)
      → w.max_active_flows ≡ limit
      → length w.flows ≤ limit
      → let w' = handle parser json regex try_send w event now in
        (w'.max_active_flows ≡ limit) × (length w'.flows ≤ limit)
  unfolding handle expire_idle
  handle-HasRoom limit w (received ingress) now e l =
      handle_packet-HasRoom limit w ingress now (e, l)
  handle-HasRoom limit w tick now e l =
      let pressure = leb w.max_active_flows (length w.flows) in
      let keys = expired_keys (should_expire pressure w.idle_timeout now) w.flows in
      HasRoom-IsNoFuller limit w (finish_flows parser json regex try_send w keys) (e, l)
        (finish_flows-IsNoFuller w keys)
