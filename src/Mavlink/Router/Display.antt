-- ===== src/Mavlink/Router/Display.antt =====
-- The telemetry behind the router: `MavlinkRouter` hands what its downlink's framer finds to
-- `TelemetryDecoder::Consume` (core/src/mavlink/router.cpp).
use open_ipc_mobile_gs.Prelude.{
  ℕ, ◌+◌, ◌*◌, ◌≤◌, ◌<◌, ◌≡◌, ◌==◌, refl, sym, ap, ◌∙◌, Bool, true, false, List, [], ◌∷◌, ◌++◌,
  arith, length, if◌then◌else◌, Bytes, bit_set, add64,
}
mod Tests
use mathlib.Core.Path.{subst}
use mathlib.Core.List.{append-nil}
use open_ipc_mobile_gs.Mavlink.Framer.{MavlinkFramer, MavlinkMessage}
use open_ipc_mobile_gs.Mavlink.Framer as Framer
use open_ipc_mobile_gs.Mavlink.Framer.Stream.{push-append}
use open_ipc_mobile_gs.Mavlink.Framer.Frames.{
  WireFrame, v1_frame, v2_frame, Item, noise, whole, IsItem, IsWire, IsStream, wire, message_of,
  messages_of, IsLive, push-wire,
}
use open_ipc_mobile_gs.Mavlink.Telemetry.{Float, TelemetryState, consume}
use open_ipc_mobile_gs.Mavlink.Telemetry.Reports.{
  Report, msgid_of, layout, IsReport, updated, consume-layout,
}
use open_ipc_mobile_gs.Mavlink.Router.{MavlinkRouter}
use open_ipc_mobile_gs.Mavlink.Router.Traffic.{feed_downlink}
use open_ipc_mobile_gs.Mavlink.Router.Streams.{concat, feed_all}

-- The frame carries the report.
abbrev pub Carries : WireFrame → Report → Type 0
Carries (v1_frame s sys cid id payload tail) r =
    (id ≡ msgid_of r) × (payload ≡ layout r) × IsReport r
Carries (v2_frame inc cmp s sys cid id0 id1 id2 payload tail) r =
    (id0 + id1 * 256 + id2 * 65536 ≡ msgid_of r) × (payload ≡ layout r) × IsReport r

-- The frames of the stream carry the reports, one by one.
abbrev pub CarryAll : List Item → List Report → Type 0
CarryAll [] [] = Unit
CarryAll [] (r ∷ rs) = ⊥
CarryAll (noise b ∷ is) rs = CarryAll is rs
CarryAll (whole w ∷ is) [] = ⊥
CarryAll (whole w ∷ is) (r ∷ rs) = Carries w r × CarryAll is rs

-- A framer that has nothing more to find in what it keeps.
abbrev IsDrained : MavlinkFramer → Type 0
IsDrained f = Framer.push f [] ≡ f

push-IsDrained : (f : MavlinkFramer) (xs : Bytes) → IsDrained (Framer.push f xs)
push-IsDrained f xs = push-append f xs [] ∙ ap (Framer.push f) (append-nil xs)

fresh-IsDrained : IsDrained (Framer.initial true)
unfolding Framer.push
fresh-IsDrained = refl

feed_downlink-framer :
    (r : MavlinkRouter) (bytes : Bytes)
    → IsDrained r.downlink_framer
    → (feed_downlink r bytes).downlink_framer ≡ Framer.push r.downlink_framer bytes
unfolding feed_downlink
feed_downlink-framer r [] d = sym d
feed_downlink-framer r (b ∷ bs) d = ground arith

feed_all-framer :
    (r : MavlinkRouter) (reads : List Bytes)
    → IsDrained r.downlink_framer
    → (feed_all r reads).downlink_framer ≡ Framer.push r.downlink_framer (concat reads)
feed_all-framer r [] d = sym d
feed_all-framer r (bytes ∷ reads) d =
    let one = feed_downlink-framer r bytes d in
    let next =
      feed_all-framer (feed_downlink r bytes) reads
        (rw one (push-IsDrained r.downlink_framer bytes)) in
    next
    ∙ ap (λ (f : MavlinkFramer). Framer.push f (concat reads)) one
    ∙ push-append r.downlink_framer bytes (concat reads)

module _ {F : Type 0} (float : Float F) (clock : ℕ → ℕ) where
  -- The callback on each message in turn, the `n`th at the time `clock n`.
  abbrev pub consume_all : ℕ → TelemetryState F → List MavlinkMessage → TelemetryState F
  consume_all n s [] = s
  consume_all n s (m ∷ ms) = consume_all (n + 1) (consume float (clock n) s m) ms

  -- The reports in turn.
  abbrev pub updated_all : ℕ → TelemetryState F → List Report → TelemetryState F
  updated_all n s [] = s
  updated_all n s (r ∷ rs) =
      updated_all (n + 1) (updated float r (record s { valid = true; last_update_ms = clock n })) rs

  consume-message_of :
      (w : WireFrame) (r : Report) (now : ℕ) (s : TelemetryState F)
      → IsWire w
      → Carries w r
      → consume float now s (message_of w)
        ≡ updated float r (record s { valid = true; last_update_ms = now })
  consume-message_of (v1_frame q sys cid id payload tail) r now s w (same, carried, h) =
      let m = message_of (v1_frame q sys cid id payload tail) in
      let header : Bytes = 0xfe ∷ length payload ∷ q ∷ sys ∷ cid ∷ id ∷ [] in
      consume-layout float r now s m header tail same
        (ap (λ (l : Bytes). header ++ (l ++ tail)) carried) refl refl (omega (arith, w.1)) h
  consume-message_of (v2_frame inc cmp q sys cid id0 id1 id2 payload tail) r now s w
        (same, carried, h) =
      let m = message_of (v2_frame inc cmp q sys cid id0 id1 id2 payload tail) in
      let header : Bytes =
        0xfd ∷ length payload ∷ inc ∷ cmp ∷ q ∷ sys ∷ cid ∷ id0 ∷ id1 ∷ id2 ∷ [] in
      let more : 2 ≤ length tail = rw w.1 (ground arith) in
      consume-layout float r now s m header tail same
        (ap (λ (l : Bytes). header ++ (l ++ tail)) carried) refl refl more h

  consume_all-reports :
      (is : List Item) (rs : List Report) (n : ℕ) (s : TelemetryState F)
      → IsStream is
      → CarryAll is rs
      → consume_all n s (messages_of is) ≡ updated_all n s rs
  consume_all-reports [] [] n s v c = refl
  consume_all-reports [] (r ∷ rs) n s v c = absurd c
  consume_all-reports (noise b ∷ is) rs n s v c = consume_all-reports is rs n s v.1 c
  consume_all-reports (whole w ∷ is) [] n s v c = absurd c
  consume_all-reports (whole w ∷ is) (r ∷ rs) n s v c =
      ap (λ (t : TelemetryState F). consume_all (n + 1) t (messages_of is))
        (consume-message_of w r (clock n) s v.0 c.0)
      ∙ consume_all-reports is rs (n + 1) _ v.1 c.1

  -- The aircraft's stream has frames of v1 and v2, each with its whole payload (no trailing zeros cut
  -- off) of a HEARTBEAT, SYS_STATUS, ATTITUDE, GLOBAL_POSITION_INT, GPS_RAW_INT or VFR_HUD whose
  -- fields fit their widths, or with any payload of a message that the decoder does not read, and
  -- between them bytes that are neither 0xfe nor 0xfd; there is no BATTERY_STATUS. However that stream
  -- is cut into calls of a router whose downlink framer is fresh, the telemetry at the end is what the
  -- messages say, taken in order.
  pub feed_all-telemetry :
      (r : MavlinkRouter) (reads : List Bytes) (is : List Item) (rs : List Report)
      (s : TelemetryState F)
      → r.downlink_framer ≡ Framer.initial true
      → concat reads ≡ wire is
      → IsStream is
      → CarryAll is rs
      → consume_all 0 s (feed_all r reads).downlink_framer.delivered ≡ updated_all 0 s rs
  feed_all-telemetry r reads is rs s new cut v c =
      let fresh = Framer.initial true in
      let live : IsLive fresh = record {
        listens = refl;
        messages_fit = omega arith;
        dropped_fit = omega arith;
      } in
      let drained = subst IsDrained (sym new) fresh-IsDrained in
      let pushed : (feed_all r reads).downlink_framer ≡ Framer.push fresh (wire is) =
        feed_all-framer r reads drained ∙ λ i. Framer.push (new i) (cut i) in
      let found : (feed_all r reads).downlink_framer.delivered ≡ messages_of is =
        ap (λ (f : MavlinkFramer). f.delivered) pushed ∙ (push-wire fresh is refl v live).0 in
      ap (consume_all 0 s) found ∙ consume_all-reports is rs 0 s v c
