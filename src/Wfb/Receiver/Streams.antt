-- ===== src/Wfb/Receiver/Streams.antt =====
-- The frames of several streams, taken apart by `WfbReceiver::ProcessFrame`
-- (core/src/wfb/wfb_receiver.cpp).
use open_ipc_mobile_gs.Prelude.{
  ℕ, ◌≡◌, ◌≢◌, refl, sym, ap, ◌∙◌, inl, inr, true, false, Option, none, some, List, [], ◌∷◌, ◌++◌,
  map, arith, ◌==◌, if◌then◌else◌, Bytes, Bool-cases, Option-cases,
}
use mathlib.Core.Path.{subst}
use mathlib.Core.List.{append_assoc, append-nil}
use open_ipc_mobile_gs.Wfb.Frame.{classify_frame}
use open_ipc_mobile_gs.Wfb.Signal.{FrameMeta}
use open_ipc_mobile_gs.Wfb.Receiver.{
  Packet, Aggregator, Sink, Stream, Delivery, WfbReceiver, find_sink, set_sink, packet_of,
  sink_packet, sink_payloads, process_at, process_frame,
}

-- A call of `ProcessFrame`.
pub record Arrival : Type 0 where
  pub frame : Bytes
  pub meta : FrameMeta

==_refl : (n : ℕ) → (n == n) ≡ true
==_refl n = ground arith

==_apart : (m n : ℕ) → m ≢ n → (m == n) ≡ false
==_apart m n h = ground arith

eq_of_test : (m n : ℕ) → (m == n) ≡ true → m ≡ n
eq_of_test m n h = ground arith

ne_of_test : (m n : ℕ) → (m == n) ≡ false → m ≢ n
ne_of_test m n h = ground arith

==_apart_of : (x m n : ℕ) → (x == m) ≡ true → m ≢ n → (x == n) ≡ false
==_apart_of x m n h ne = ground arith

module _ {A : Type 0} where
  pub find_sink-set_sink :
      (port : ℕ) (s : Sink A) (ss : List (Stream A)) → find_sink port (set_sink port s ss) ≡ some s
  unfolding find_sink set_sink
  find_sink-set_sink port s [] = rw (==_refl port) refl
  find_sink-set_sink port s (x ∷ xs) = elim (Bool-cases (x.port == port)) [
    | inl h ↦ rw h (rw (==_refl port) refl)
    | inr h ↦ rw h (rw h (find_sink-set_sink port s xs))
  ]

  pub find_sink-set_sink_ne :
      (p port : ℕ) (s : Sink A) (ss : List (Stream A))
      → p ≢ port
      → find_sink port (set_sink p s ss) ≡ find_sink port ss
  unfolding find_sink set_sink
  find_sink-set_sink_ne p port s [] ne = rw (==_apart p port ne) refl
  find_sink-set_sink_ne p port s (x ∷ xs) ne = elim (Bool-cases (x.port == p)) [
    | inl h ↦ rw h (rw (==_apart p port ne, ==_apart_of x.port p port h ne) refl)
    | inr h ↦ rw h (
        ap (λ (rest : Option (Sink A)). if x.port == port then some x.sink else rest)
          (find_sink-set_sink_ne p port s xs ne))
  ]

-- The payloads of one port.
abbrev pub payloads_of : ℕ → List Delivery → List Bytes
payloads_of port [] = []
payloads_of port (d ∷ ds) =
    let rest = payloads_of port ds in if d.port == port then d.payload ∷ rest else rest

payloads_of-append :
    (port : ℕ) (ds es : List Delivery)
    → payloads_of port (ds ++ es) ≡ payloads_of port ds ++ payloads_of port es
payloads_of-append port [] es = refl
payloads_of-append port (d ∷ ds) es = elim (Bool-cases (d.port == port)) [
  | inl h ↦ rw h (ap (d.payload ∷◌) (payloads_of-append port ds es))
  | inr h ↦ rw h (payloads_of-append port ds es)
]

calls : ℕ → List Bytes → List Delivery
calls port bs = map (λ b. record { port = port; payload = b }) bs

payloads_of-calls : (port : ℕ) (bs : List Bytes) → payloads_of port (calls port bs) ≡ bs
unfolding calls
payloads_of-calls port [] = refl
payloads_of-calls port (b ∷ bs) = rw (==_refl port) (ap (b ∷◌) (payloads_of-calls port bs))

payloads_of-others : (p port : ℕ) (bs : List Bytes) → p ≢ port → payloads_of port (calls p bs) ≡ []
unfolding calls
payloads_of-others p port [] ne = refl
payloads_of-others p port (b ∷ bs) ne = rw (==_apart p port ne) (payloads_of-others p port bs ne)

module _ {A : Type 0} (agg : Aggregator A) where
  -- One sink that gets packets and nothing else.
  abbrev pub alone : Sink A → List Packet → Sink A
  alone s [] = s
  alone s (p ∷ ps) = alone (sink_packet agg s p) ps

  abbrev pub alone_payloads : Sink A → List Packet → List Bytes
  alone_payloads s [] = []
  alone_payloads s (p ∷ ps) = sink_payloads agg s p ++ alone_payloads (sink_packet agg s p) ps

  -- The packet that a frame is for a port of a link, if it is one.
  abbrev pub arrived : ℕ → ℕ → Arrival → List Packet
  arrived link_id port a = elim (classify_frame link_id a.frame) [
    | none ↦ []
    | some q ↦ if q == port then packet_of agg a.frame a.meta ∷ [] else []
  ]

  abbrev pub packets_on : ℕ → ℕ → List Arrival → List Packet
  packets_on link_id port [] = []
  packets_on link_id port (a ∷ news) = arrived link_id port a ++ packets_on link_id port news

  abbrev pub process_all : WfbReceiver A → List Arrival → WfbReceiver A
  process_all r [] = r
  process_all r (a ∷ news) = process_all (process_frame agg r a.frame a.meta) news

  alone-append : (s : Sink A) (ps qs : List Packet) → alone s (ps ++ qs) ≡ alone (alone s ps) qs
  alone-append s [] qs = refl
  alone-append s (p ∷ ps) qs = alone-append (sink_packet agg s p) ps qs

  pub alone_payloads-append :
      (s : Sink A) (ps qs : List Packet)
      → alone_payloads s (ps ++ qs) ≡ alone_payloads s ps ++ alone_payloads (alone s ps) qs
  alone_payloads-append s [] qs = refl
  alone_payloads-append s (p ∷ ps) qs =
      ap (sink_payloads agg s p ++◌) (alone_payloads-append (sink_packet agg s p) ps qs)
      ∙ sym (append_assoc (sink_payloads agg s p) _ _)

  pub process_frame-settings :
      (r : WfbReceiver A) (a : Arrival)
      → ((process_frame agg r a.frame a.meta).link_id ≡ r.link_id)
        × ((process_frame agg r a.frame a.meta).primary_port ≡ r.primary_port)
  unfolding process_frame process_at
  process_frame-settings r a = elim (Option-cases (classify_frame r.link_id a.frame)) [
    | inl e ↦ rw (e, process_frame) (refl, refl)
    | inr q ↦ elim (Option-cases (find_sink q.0 r.sinks)) [
      | inl m ↦ rw (q.1, m, process_frame) (refl, refl)
      | inr t ↦ rw (q.1, t.1, process_frame, process_at) (refl, refl)
    ]
  ]

  -- What a port's sink is, and what its callback got, after the packets of a list.
  abbrev pub Received : ℕ → Sink A → WfbReceiver A → List Packet → WfbReceiver A → Type 0
  Received port s r ps next =
      (find_sink port next.sinks ≡ some (alone s ps))
      × (payloads_of port next.delivered ≡ payloads_of port r.delivered ++ alone_payloads s ps)

  process_at-here :
      (r : WfbReceiver A) (port : ℕ) (s : Sink A) (a : Arrival)
      → Received port s r
          (packet_of agg a.frame a.meta ∷ [])
          (process_at agg r port s a.frame a.meta)
  unfolding process_at calls
  process_at-here r port s a =
      let packet = packet_of agg a.frame a.meta in
      let payloads = sink_payloads agg s packet in
      (
        find_sink-set_sink port (sink_packet agg s packet) r.sinks,
        payloads_of-append port r.delivered (calls port payloads)
            ∙ ap (payloads_of port r.delivered ++◌)
                (payloads_of-calls port payloads ∙ sym (append-nil payloads)),
      )

  process_at-elsewhere :
      (r : WfbReceiver A) (q port : ℕ) (s t : Sink A) (a : Arrival)
      → q ≢ port
      → find_sink port r.sinks ≡ some s
      → Received port s r [] (process_at agg r q t a.frame a.meta)
  unfolding process_at calls
  process_at-elsewhere r q port s t a ne h =
      let packet = packet_of agg a.frame a.meta in
      (
        find_sink-set_sink_ne q port (sink_packet agg t packet) r.sinks ne ∙ h,
        payloads_of-append port r.delivered (calls q (sink_payloads agg t packet))
            ∙ ap (payloads_of port r.delivered ++◌)
                (payloads_of-others q port (sink_payloads agg t packet) ne),
      )

  arrived-apart :
      (link_id port : ℕ) (a : Arrival) (q : ℕ)
      → classify_frame link_id a.frame ≡ some q
      → (q == port) ≡ false
      → arrived link_id port a ≡ []
  arrived-apart link_id port a q e ne = rw (e, arrived) (rw ne refl)

  pub process_frame-Received :
      (r : WfbReceiver A) (port : ℕ) (s : Sink A) (a : Arrival)
      → find_sink port r.sinks ≡ some s
      → Received port s r (arrived r.link_id port a) (process_frame agg r a.frame a.meta)
  unfolding process_frame
  process_frame-Received r port s a h =
      let unchanged : Received port s r [] r =
        (h, sym (append-nil (payloads_of port r.delivered))) in
      elim (Option-cases (classify_frame r.link_id a.frame)) [
        | inl e ↦ rw (e, process_frame, arrived) unchanged
        | inr q ↦ elim (Bool-cases (q.0 == port)) [
          | inl same ↦
              let e : classify_frame r.link_id a.frame ≡ some port =
                q.1 ∙ ap some (eq_of_test q.0 port same) in
              rw (e, h, ==_refl port, process_frame, arrived) (process_at-here r port s a)
          | inr apart ↦
              subst (λ ps. Received port s r ps (process_frame agg r a.frame a.meta))
                (sym (arrived-apart r.link_id port a q.0 q.1 apart))
                (elim (Option-cases (find_sink q.0 r.sinks)) [
                  | inl m ↦ rw (q.1, m, process_frame) unchanged
                  | inr t ↦
                      rw (q.1, t.1, process_frame)
                        (process_at-elsewhere r q.0 port s t.0 a (ne_of_test q.0 port apart) h)
                ])
        ]
      ]

  -- However the frames of several streams follow each other, a stream's sink becomes what it would be
  -- if its aggregator got the frames of that stream alone, in order, and its callback gets the
  -- payloads of that aggregator alone, in order.
  pub process_all-Received :
      (r : WfbReceiver A) (port : ℕ) (s : Sink A) (news : List Arrival)
      → find_sink port r.sinks ≡ some s
      → Received port s r (packets_on r.link_id port news) (process_all r news)
  process_all-Received r port s [] h = (h, sym (append-nil (payloads_of port r.delivered)))
  process_all-Received r port s (a ∷ news) h =
      let next = process_frame agg r a.frame a.meta in
      let ps = arrived r.link_id port a in
      let qs = packets_on r.link_id port news in
      let here = process_frame-Received r port s a h in
      let rest : Received port (alone s ps) next qs (process_all next news) =
        subst
          (λ link_id.
            Received port (alone s ps) next (packets_on link_id port news) (process_all next news))
          (process_frame-settings r a).0
          (process_all-Received next port (alone s ps) news here.0) in
      (
        rest.0 ∙ ap some (sym (alone-append s ps qs)),
        rest.1
            ∙ ap (◌++ alone_payloads (alone s ps) qs) here.1
            ∙ append_assoc (payloads_of port r.delivered) (alone_payloads s ps)
                (alone_payloads (alone s ps) qs)
            ∙ ap (payloads_of port r.delivered ++◌) (sym (alone_payloads-append s ps qs)),
      )
