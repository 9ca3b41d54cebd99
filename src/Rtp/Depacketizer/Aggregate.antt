-- ===== src/Rtp/Depacketizer/Aggregate.antt =====
-- Aggregation packets: STAP-A of H.264 and AP of H.265, whose units each follow a 16-bit size.
use open_ipc_mobile_gs.Prelude.{
  ℕ, zero, suc, ◌+◌, ◌-◌, ◌*◌, ◌/◌, ◌%◌, ◌≤◌, ◌<◌, ◌≡◌, ◌≢◌, ◌⊎◌, refl, sym, ap, ◌∙◌, List, [], ◌∷◌,
  ◌++◌, arith, map, length, Bytes, Bool, true, false, add64, ◌==◌, ◌||◌, ltb, be16,
  take-append_length, drop-append_length, length-append, add64-add64, u64_mod, add64-zero, add64-lt,
}
use mathlib.Core.List.{append_assoc, append-nil}
use open_ipc_mobile_gs.Rtp.Header.{VideoCodec, unknown, h264, h265}
use open_ipc_mobile_gs.Rtp.Header.Packet.{RtpPacket, IsPacket, encode_packet}
use open_ipc_mobile_gs.Rtp.Depacketizer.{
  RtpDepacketizer, push, aggregate, start_code, emit_nal, drop_packet, handle_h264, handle_h265,
  dispatch,
}
use open_ipc_mobile_gs.Rtp.Depacketizer.Delivery.{
  push-encode, received, received_keeps, nal_unit, emit_nal_lem,
}

abbrev pub encode_units : List Bytes → Bytes
encode_units [] = []
encode_units (u ∷ us) = (length u / 256) ∷ (length u % 256) ∷ (u ++ encode_units us)

abbrev pub IsUnits : List Bytes → Type 0
IsUnits [] = Unit
IsUnits (u ∷ us) = (u ≢ []) × (length u < 65536) × IsUnits us

-- One call of the callback for each unit, in order.
abbrev emit_all : RtpDepacketizer → List Bytes → ℕ → Bool → RtpDepacketizer
emit_all d [] t m = d
emit_all d (u ∷ us) t m = emit_all (emit_nal d u t m) us t m

length_ne : (u : Bytes) → u ≢ [] → 0 < length u
length_ne [] h = absurd (h refl)
length_ne (x ∷ u) h = omega arith

-- A good unit at the front is emitted, whatever follows it.
aggregate_step :
    (n : ℕ) (d : RtpDepacketizer) (u tail : Bytes) (t : ℕ) (m : Bool)
    → u ≢ []
    → length u < 65536
    → aggregate (suc n) d ((length u / 256) ∷ (length u % 256) ∷ (u ++ tail)) t m
      ≡ aggregate n (emit_nal d u t m) tail t m
unfolding aggregate
aggregate_step n d u tail t m h k =
    let size : be16 (length u / 256) (length u % 256) ≡ length u = omega arith in
    let fits : ((length u == 0) || ltb (length (u ++ tail)) (length u)) ≡ false =
      ground (arith, length_ne u h, length-append u tail) in
    rw size (rw fits (rw (take-append_length u tail, drop-append_length u tail)))

aggregate-encode :
    (k n : ℕ) (d : RtpDepacketizer) (us : List Bytes) (tail : Bytes) (t : ℕ) (m : Bool)
    → k ≡ length us + n
    → IsUnits us
    → aggregate k d (encode_units us ++ tail) t m ≡ aggregate n (emit_all d us t m) tail t m
aggregate-encode k n d [] tail t m e h =
    let same : k ≡ n = omega arith in ap (λ (k : ℕ). aggregate k d tail t m) same
aggregate-encode zero n d (u ∷ us) tail t m e h = absurd (omega arith)
aggregate-encode (suc k) n d (u ∷ us) tail t m e h =
    rw append_assoc (aggregate_step k d u (encode_units us ++ tail) t m h.0 h.1)
    ∙ aggregate-encode k n (emit_nal d u t m) us tail t m (omega arith) h.2

aggregate_end : (n : ℕ) (d : RtpDepacketizer) (t : ℕ) (m : Bool) → aggregate n d [] t m ≡ (d, true)
unfolding aggregate
aggregate_end zero d t m = refl
aggregate_end (suc n) d t m = refl

aggregate_bad :
    (n : ℕ) (d : RtpDepacketizer) (hi lo : ℕ) (rest : Bytes) (t : ℕ) (m : Bool)
    → (hi * 256 + lo ≡ 0) ⊎ (length rest < hi * 256 + lo)
    → aggregate (suc n) d (hi ∷ lo ∷ rest) t m ≡ drop_packet d
unfolding aggregate
aggregate_bad n d hi lo rest t m bad =
    let test : ((be16 hi lo == 0) || ltb (length rest) (be16 hi lo)) ≡ true = ground arith in
    rw test

length-encode_units : (us : List Bytes) → length us ≤ length (encode_units us)
length-encode_units [] = omega arith
length-encode_units (u ∷ us) =
    omega (arith, length-encode_units us, length-append u (encode_units us))

-- What the units add to the depacketiser; all its other fields that matter stay.
pub record Emits (d : RtpDepacketizer) (us : List Bytes) (t : ℕ) (m : Bool) (r : RtpDepacketizer)
    : Type 0 where
  pub emitted : r.emitted ≡ d.emitted ++ map (nal_unit t m) us
  pub nals : r.nals ≡ add64 d.nals (length us)
  pub dropped : r.dropped ≡ d.dropped
  pub broken_fragments : r.broken_fragments ≡ d.broken_fragments
  pub fragment : r.fragment ≡ d.fragment
  pub in_fragment : r.in_fragment ≡ d.in_fragment

emit_all-Emits :
    (d : RtpDepacketizer) (us : List Bytes) (t : ℕ) (m : Bool)
    → IsUnits us
    → d.callback_set ≡ true
    → d.nals < u64_mod
    → Emits d us t m (emit_all d us t m)
emit_all-Emits d [] t m h c k = record {
  emitted = sym (append-nil d.emitted);
  nals = sym (add64-zero _ k);
  dropped = refl;
  broken_fragments = refl;
  fragment = refl;
  in_fragment = refl;
}
emit_all-Emits d (u ∷ us) t m h c k =
    let next = record d {
      out = start_code ++ u;
      nals = add64 d.nals 1;
      emitted = d.emitted ++ (nal_unit t m u ∷ []);
    } in
    let r = emit_all-Emits next us t m h.2 c (add64-lt d.nals 1) in
    rw (emit_nal_lem d u t m c h.0) (record {
      emitted = r.emitted ∙ append_assoc d.emitted (nal_unit t m u ∷ []) _;
      nals = r.nals ∙ add64-add64 _ _ _ ∙ ap (add64 d.nals) (omega arith);
      dropped = r.dropped;
      broken_fragments = r.broken_fragments;
      fragment = r.fragment;
      in_fragment = r.in_fragment;
    })

-- A whole aggregation packet behind its header.
aggregate_units :
    (n : ℕ) (d : RtpDepacketizer) (us : List Bytes) (t : ℕ) (m : Bool)
    → length (encode_units us) ≤ n
    → IsUnits us
    → aggregate n d (encode_units us) t m ≡ (emit_all d us t m, true)
aggregate_units n d us t m k h =
    ap (λ (b : Bytes). aggregate n d b t m) (sym (append-nil (encode_units us)))
    ∙ aggregate-encode n (n - length us) d us [] t m (omega (arith, length-encode_units us)) h
    ∙ aggregate_end (n - length us) (emit_all d us t m) t m

-- A packet whose header byte, or bytes, announce an aggregation in the codec of the stream.
pub data Aggregates : VideoCodec → Bytes → Type 0 where
  stap_a : {header : ℕ} → header % 32 ≡ 24 → Aggregates h264 (header ∷ [])
  ap_unit : {first second : ℕ} → first / 2 % 64 ≡ 48 → Aggregates h265 (first ∷ second ∷ [])

dispatch-Aggregates :
    {c : VideoCodec} {header : Bytes} (d : RtpDepacketizer) (body : Bytes) (t : ℕ) (m : Bool)
    → Aggregates c header
    → dispatch c d (header ++ body) t m ≡ aggregate (length (header ++ body)) d body t m
unfolding handle_h264 handle_h265
dispatch-Aggregates d body t m (stap_a e) = ground arith
dispatch-Aggregates d body t m (ap_unit e) = ground arith

known : {c : VideoCodec} {header : Bytes} → Aggregates c header → c ≢ unknown
known (stap_a e) h = cc
known (ap_unit e) h = cc

not_empty :
    {c : VideoCodec} {header : Bytes} (body : Bytes) → Aggregates c header → header ++ body ≢ []
not_empty body (stap_a e) h = cc
not_empty body (ap_unit e) h = cc

module _ (d : RtpDepacketizer) (p : RtpPacket) (header body : Bytes) (v : IsPacket p)
    (payload_is : p.payload ≡ header ++ body) (a : Aggregates d.codec header) where
  push-aggregate :
      push d (encode_packet p)
      ≡ aggregate (length (header ++ body)) (received d p.sequence) body p.timestamp p.marker
  push-aggregate =
      push-encode d p v (known a) (λ e. not_empty body a (sym payload_is ∙ e))
      ∙ ap (λ (b : Bytes). dispatch d.codec (received d p.sequence) b p.timestamp p.marker)
          payload_is
      ∙ dispatch-Aggregates (received d p.sequence) body p.timestamp p.marker a

-- The units of an aggregation packet, STAP-A or AP, reach the callback one by one, in order, each
-- behind a start code with the packet's timestamp and marker; `Push` returns true and counts them.
pub push-encode_units :
    (d : RtpDepacketizer) (p : RtpPacket) (header : Bytes) (us : List Bytes)
    → IsPacket p
    → p.payload ≡ header ++ encode_units us
    → Aggregates d.codec header
    → IsUnits us
    → d.callback_set ≡ true
    → d.nals < u64_mod
    → let r = push d (encode_packet p) in
      (r.1 ≡ true)
      × (r.0.emitted ≡ d.emitted ++ map (nal_unit p.timestamp p.marker) us)
      × (r.0.nals ≡ add64 d.nals (length us))
      × (r.0.dropped ≡ d.dropped)
push-encode_units d p header us v e a h c k =
    let s = received d p.sequence in
    let kept = received_keeps d p.sequence in
    let body = encode_units us in
    let all = emit_all-Emits s us p.timestamp p.marker h (kept.1 ∙ c) (rw kept.3 k) in
    rw
      (
        push-aggregate d p header body v e a,
        aggregate_units (length (header ++ body)) s us p.timestamp p.marker
            (omega (arith, length-append header body)) h,
      )
      (refl, all.emitted ∙ rw kept.2, all.nals ∙ rw kept.3, all.dropped ∙ kept.4)

-- A unit whose size is zero or runs past the packet ends it: the units in front of it have been
-- emitted, `Push` returns false and one more packet is counted as dropped.
pub push_truncated :
    (d : RtpDepacketizer) (p : RtpPacket) (header : Bytes) (us : List Bytes) (hi lo : ℕ)
    (rest : Bytes)
    → IsPacket p
    → p.payload ≡ header ++ (encode_units us ++ (hi ∷ lo ∷ rest))
    → Aggregates d.codec header
    → IsUnits us
    → (hi * 256 + lo ≡ 0) ⊎ (length rest < hi * 256 + lo)
    → d.callback_set ≡ true
    → d.nals < u64_mod
    → let r = push d (encode_packet p) in
      (r.1 ≡ false)
      × (r.0.emitted ≡ d.emitted ++ map (nal_unit p.timestamp p.marker) us)
      × (r.0.dropped ≡ add64 d.dropped 1)
push_truncated d p header us hi lo rest v e a h bad c k =
    let s = received d p.sequence in
    let kept = received_keeps d p.sequence in
    let tail = hi ∷ lo ∷ rest in
    let body = encode_units us ++ tail in
    let n = length (header ++ body) in
    let all = emit_all-Emits s us p.timestamp p.marker h (kept.1 ∙ c) (rw kept.3 k) in
    let long : length us < n = omega (
      arith,
      length-append header body,
      length-append (encode_units us) tail,
      length-encode_units us,
    ) in
    rw
      (
        push-aggregate d p header body v e a,
        aggregate-encode n (suc (n - length us - 1)) s us tail p.timestamp p.marker (omega arith) h,
        aggregate_bad (n - length us - 1) (emit_all s us p.timestamp p.marker) hi lo rest
            p.timestamp p.marker bad,
      )
      (refl, all.emitted ∙ rw kept.2, ap (λ (x : ℕ). add64 x 1) (all.dropped ∙ kept.4))
