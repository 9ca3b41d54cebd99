-- ===== src/Mavlink/Router/Streams.antt =====
-- What the two directions of the router (core/src/mavlink/router.cpp) do with a stream of reads.
pub mod Uplink
pub mod Downlink
use open_ipc_mobile_gs.Prelude.{
  ℕ, ◌+◌, ◌≡◌, ◌<◌, Bool, true, false, not, ◌||◌, refl, sym, ap, ◌∙◌, List, [], ◌∷◌, ◌++◌, Bytes,
  arith, if◌then◌else◌, length, drop, add64, add64-add64, add64-zero, u64_mod, drop-append_length,
  length-append, Option, some, map, if_either, ◌==◌,
}
use mathlib.Core.List.{append_assoc, append-nil}
use open_ipc_mobile_gs.Mavlink.Framer.{MavlinkFramer, MavlinkMessage}
use open_ipc_mobile_gs.Mavlink.Framer as Framer
use open_ipc_mobile_gs.Mavlink.Framer.Stream.{push-append}
use open_ipc_mobile_gs.Mavlink.Framer.Frames.{Item, IsStream, wire, messages_of, IsLive, push-wire}
use open_ipc_mobile_gs.Mavlink.Router.{Endpoint, MavlinkRouter, start, stop, Sent, clear_endpoints}
use open_ipc_mobile_gs.Mavlink.Router.Opening.{SocketCalls, rebuild_endpoints}
use open_ipc_mobile_gs.Mavlink.Router.Poll.{
  Polled, interrupted, broken, timed_out, woken, Answer, poll_once, serve, slots, handle_slots,
  close_clients,
}
use mathlib.Core.Path.{subst}
use open_ipc_mobile_gs.Mavlink.Router.Traffic.{
  uplink, uplink_all, handle_endpoint_data, feed_downlink, sends, all_sends,
}

abbrev pub concat : List Bytes → Bytes
concat [] = []
concat (b ∷ bs) = b ++ concat bs

-- Several calls of FeedDownlink.
abbrev pub feed_all : MavlinkRouter → List Bytes → MavlinkRouter
feed_all r [] = r
feed_all r (bytes ∷ reads) = feed_all (feed_downlink r bytes) reads

-- What a router that runs is given to do: a round of its poll loop, with the system's answers, or a
-- call of FeedDownlink.
pub data Turn : Type 0 where
  round : (ℕ → SocketCalls) → Bool → Polled → Turn
  feed : Bytes → Turn

abbrev pub take_turn : (Bytes → Option ℕ) → MavlinkRouter → Turn → MavlinkRouter
take_turn inet_pton r (round calls still polled) = (poll_once inet_pton calls still polled r).0
take_turn inet_pton r (feed bytes) = feed_downlink r bytes

abbrev pub take_turns : (Bytes → Option ℕ) → MavlinkRouter → List Turn → MavlinkRouter
take_turns inet_pton r [] = r
take_turns inet_pton r (t ∷ ts) = take_turns inet_pton (take_turn inet_pton r t) ts

-- A router that runs without endpoints, that has sent so much and will open no socket.
record IsDeserted (sent : List Sent) (r : MavlinkRouter) : Type 0 where
  pub runs : r.running ≡ true
  pub clean : r.endpoints_dirty ≡ false
  pub empty : r.endpoints ≡ []
  pub sent_same : r.sent ≡ sent

rebuild_endpoints_clean :
    (inet_pton : Bytes → Option ℕ) (calls : ℕ → SocketCalls) (r : MavlinkRouter)
    → r.endpoints_dirty ≡ false
    → rebuild_endpoints inet_pton calls r ≡ r
unfolding rebuild_endpoints
rebuild_endpoints_clean inet_pton calls r e = rw e refl

serve_none : (r : MavlinkRouter) (answers : List Answer) → r.endpoints ≡ [] → serve r answers ≡ r
unfolding serve slots handle_slots close_clients
serve_none r answers e =
    ap (λ es. let done = handle_slots (r, []) (slots 0 es) answers in close_clients done.0 done.1) e

poll_once_none :
    (inet_pton : Bytes → Option ℕ) (calls : ℕ → SocketCalls) (still : Bool) (p : Polled)
    (r : MavlinkRouter)
    → r.endpoints_dirty ≡ false
    → r.endpoints ≡ []
    → (poll_once inet_pton calls still p r).0 ≡ r
unfolding poll_once
poll_once_none inet_pton calls still interrupted r e n = rebuild_endpoints_clean inet_pton calls r e
poll_once_none inet_pton calls still broken r e n = rebuild_endpoints_clean inet_pton calls r e
poll_once_none inet_pton calls still timed_out r e n = rebuild_endpoints_clean inet_pton calls r e
poll_once_none inet_pton calls still (woken wake answers) r e n =
    let P = λ (d : MavlinkRouter × Bool). d.0 ≡ r in
    rw (rebuild_endpoints_clean inet_pton calls r e) (
      if_either P (not still) (r, false) _ refl
        (if_either P wake (r, true) (serve r answers, true) refl (serve_none r answers n)))

feed_downlink-IsDeserted :
    (sent : List Sent) (r : MavlinkRouter) (bytes : Bytes)
    → IsDeserted sent r
    → IsDeserted sent (feed_downlink r bytes)
unfolding feed_downlink
feed_downlink-IsDeserted sent r bytes v =
    if_either (IsDeserted sent) (length bytes == 0) r _ v (record {
      runs = v.runs;
      clean = v.clean;
      empty = v.empty;
      sent_same = ap (λ es. r.sent ++ all_sends es bytes) v.empty ∙ append-nil r.sent ∙ v.sent_same;
    })

take_turns-IsDeserted :
    (inet_pton : Bytes → Option ℕ) (sent : List Sent) (r : MavlinkRouter) (ts : List Turn)
    → IsDeserted sent r
    → IsDeserted sent (take_turns inet_pton r ts)
take_turns-IsDeserted inet_pton sent r [] v = v
take_turns-IsDeserted inet_pton sent r (round calls still p ∷ ts) v =
    let same = poll_once_none inet_pton calls still p r v.clean v.empty in
    take_turns-IsDeserted inet_pton sent (poll_once inet_pton calls still p r).0 ts
      (subst (IsDeserted sent) (sym same) v)
take_turns-IsDeserted inet_pton sent r (feed bytes ∷ ts) v =
    take_turns-IsDeserted inet_pton sent (feed_downlink r bytes) ts
      (feed_downlink-IsDeserted sent r bytes v)

-- A router that runs and has set up its endpoints, stopped and started again, runs without any:
-- whatever is configured, and through any rounds of its poll loop and any calls of FeedDownlink,
-- whatever the system answers, no endpoint is opened again and nothing is sent any more.
pub take_turns-restart :
    (inet_pton : Bytes → Option ℕ) (ends : ℕ × ℕ) (r : MavlinkRouter) (ts : List Turn)
    → r.running ≡ true
    → r.endpoints_dirty ≡ false
    → let later = take_turns inet_pton (start (some ends) (stop r)).0 ts in
      (later.running ≡ true) × (later.endpoints ≡ []) × (later.sent ≡ r.sent)
unfolding start stop clear_endpoints
take_turns-restart inet_pton ends r ts runs clean =
    let begun : IsDeserted r.sent (start (some ends) (stop r)).0 =
      rw runs (record { runs = refl; clean = clean; empty = refl; sent_same = refl }) in
    let v = take_turns-IsDeserted inet_pton r.sent _ ts begun in (v.runs, v.empty, v.sent_same)
