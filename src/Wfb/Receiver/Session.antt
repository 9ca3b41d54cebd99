-- ===== src/Wfb/Receiver/Session.antt =====
-- When `WfbReceiver::session_established` (core/src/wfb/wfb_receiver.cpp) holds.
use open_ipc_mobile_gs.Prelude.{
  ℕ, ◌≡◌, ◌≢◌, refl, ap, ◌∙◌, ◌⊎◌, inl, inr, Bool, true, false, ◌||◌, some, List, [], ◌∷◌, ◌++◌,
  ltb, Bytes,
}
use open_ipc_mobile_gs.Wfb.Receiver.{
  Packet, Aggregator, Sink, WfbReceiver, find_sink, set_sink, sink_packet, sink_payloads,
  process_frame, sink_established, mark_seen, session_established, after_snapshot,
}
use open_ipc_mobile_gs.Wfb.Receiver.Streams.{
  Arrival, find_sink-set_sink, payloads_of, alone, alone_payloads, arrived, process_frame-settings,
  process_frame-Received,
}

-- What happens to a receiver whose streams are set up.
pub data Event : Type 0 where
  frame_came : Arrival → Event
  snapshot_taken : Event

mark_seen_stays : (out : List Bytes) → mark_seen true out ≡ true
mark_seen_stays [] = refl
mark_seen_stays (b ∷ bs) = refl

mark_seen_marks : (seen : Bool) (out : List Bytes) → (out ≡ []) ⊎ (mark_seen seen out ≡ true)
mark_seen_marks seen [] = inl refl
mark_seen_marks seen (b ∷ bs) = inr refl

or_true : (b : Bool) → (b || true) ≡ true
or_true true = refl
or_true false = refl

module _ {A : Type 0} (agg : Aggregator A) where
  open agg use {process_packet, counters, clear_stats}

  abbrev pub run : WfbReceiver A → List Event → WfbReceiver A
  run r [] = r
  run r (frame_came a ∷ es) = run (process_frame agg r a.frame a.meta) es
  run r (snapshot_taken ∷ es) = run (after_snapshot agg r) es

  sink_packet_stays :
      (s : Sink A) (p : Packet) → s.session_seen ≡ true → (sink_packet agg s p).session_seen ≡ true
  unfolding sink_packet
  sink_packet_stays s p h = rw h (mark_seen_stays (process_packet s.aggregator p).1)

  sink_packet_marks :
      (s : Sink A) (p : Packet)
      → (sink_payloads agg s p ≡ []) ⊎ ((sink_packet agg s p).session_seen ≡ true)
  unfolding sink_packet sink_payloads
  sink_packet_marks s p = mark_seen_marks s.session_seen (process_packet s.aggregator p).1

  alone_stays :
      (s : Sink A) (ps : List Packet) → s.session_seen ≡ true → (alone agg s ps).session_seen ≡ true
  alone_stays s [] h = h
  alone_stays s (p ∷ ps) h = alone_stays (sink_packet agg s p) ps (sink_packet_stays s p h)

  alone_marks :
      (s : Sink A) (ps : List Packet)
      → (alone_payloads agg s ps ≡ []) ⊎ ((alone agg s ps).session_seen ≡ true)
  alone_marks s [] = inl refl
  alone_marks s (p ∷ ps) = elim (sink_packet_marks s p) [
    | inl none_now ↦ elim (alone_marks (sink_packet agg s p) ps) [
      | inl none_later ↦ inl (λ i. none_now i ++ none_later i)
      | inr seen ↦ inr seen
    ]
    | inr seen ↦ inr (alone_stays (sink_packet agg s p) ps seen)
  ]

  -- Nothing came for the primary port, or its sink has the mark.
  IsSeen : ℕ → WfbReceiver A → Type 0
  IsSeen port r =
      (r.primary_port ≡ port)
      × ((s : Sink A) × (find_sink port r.sinks ≡ some s)
          × ((payloads_of port r.delivered ≡ []) ⊎ (s.session_seen ≡ true)))

  process_frame-IsSeen :
      (port : ℕ) (r : WfbReceiver A) (a : Arrival)
      → IsSeen port r
      → IsSeen port (process_frame agg r a.frame a.meta)
  unfolding IsSeen
  process_frame-IsSeen port r a v =
      let s = v.1.0 in
      let ps = arrived agg r.link_id port a in
      let got = process_frame-Received agg r port s a v.1.1 in
      let marked : (payloads_of port (process_frame agg r a.frame a.meta).delivered ≡ [])
          ⊎ ((alone agg s ps).session_seen ≡ true) =
        elim v.1.2 [
          | inl nothing ↦ elim (alone_marks s ps) [
            | inl none_now ↦ inl (got.1 ∙ λ i. nothing i ++ none_now i)
            | inr seen ↦ inr seen
          ]
          | inr seen ↦ inr (alone_stays s ps seen)
        ] in
      ((process_frame-settings agg r a).1 ∙ v.0, (alone agg s ps, got.0, marked))

  after_snapshot-IsSeen :
      (port : ℕ) (r : WfbReceiver A) → IsSeen port r → IsSeen port (after_snapshot agg r)
  unfolding IsSeen after_snapshot
  after_snapshot-IsSeen port r v =
      let s = v.1.0 in
      let cleared : Sink A = record s { aggregator = clear_stats s.aggregator } in
      let e : find_sink r.primary_port r.sinks ≡ some s =
        ap (λ n. find_sink n r.sinks) v.0 ∙ v.1.1 in
      let same : find_sink port (after_snapshot agg r).sinks ≡ some cleared =
        rw (e, after_snapshot)
          (ap (λ n. find_sink port (set_sink n cleared r.sinks)) v.0
            ∙ find_sink-set_sink port cleared r.sinks) in
      (v.0, (cleared, same, v.1.2))

  run-IsSeen :
      (port : ℕ) (r : WfbReceiver A) (es : List Event) → IsSeen port r → IsSeen port (run r es)
  run-IsSeen port r [] v = v
  run-IsSeen port r (frame_came a ∷ es) v =
      run-IsSeen port (process_frame agg r a.frame a.meta) es (process_frame-IsSeen port r a v)
  run-IsSeen port r (snapshot_taken ∷ es) v =
      run-IsSeen port (after_snapshot agg r) es (after_snapshot-IsSeen port r v)

  IsSeen-session :
      (port : ℕ) (r : WfbReceiver A)
      → IsSeen port r
      → payloads_of port r.delivered ≢ []
      → session_established agg r ≡ true
  unfolding IsSeen session_established sink_established
  IsSeen-session port r v some_payload =
      let s = v.1.0 in
      let e : find_sink r.primary_port r.sinks ≡ some s =
        ap (λ n. find_sink n r.sinks) v.0 ∙ v.1.1 in
      elim v.1.2 [
        | inl nothing ↦ absurd (some_payload nothing)
        | inr seen ↦
            rw (e, session_established, sink_established)
              (rw seen (or_true (ltb 0 (counters s.aggregator).count_p_session)))
      ]

  -- Whatever frames come and snapshots are taken, once a payload has reached the callback of the
  -- primary stream, the session counts as established, at that time and at any later one; if that
  -- stream was there at the start, when none had.
  pub run-session_established :
      (r : WfbReceiver A) (s : Sink A) (es : List Event)
      → find_sink r.primary_port r.sinks ≡ some s
      → payloads_of r.primary_port r.delivered ≡ []
      → payloads_of r.primary_port (run r es).delivered ≢ []
      → session_established agg (run r es) ≡ true
  unfolding IsSeen
  run-session_established r s es h nothing some_payload =
      IsSeen-session r.primary_port (run r es)
        (run-IsSeen r.primary_port r es (refl, (s, h, inl nothing))) some_payload
