-- ===== src/Mavlink/Telemetry/Reports.antt =====
-- The messages as the common dialect of MAVLink lays them out, as a specification for the decoder:
-- a report, its payload, and what it says of the aircraft. Words are little-endian; a `float` is
-- given by its bits. A message that the decoder does not read says nothing but that the link is
-- alive. BATTERY_STATUS is left out: see core/src/mavlink/router.cpp, where the offsets
-- are those of the declaration, not of the wire.
use open_ipc_mobile_gs.Prelude.{
  ℕ, ◌+◌, ◌-◌, ◌/◌, ◌%◌, ◌≤◌, ◌<◌, ◌≡◌, ◌≢◌, refl, sym, ap, ◌∙◌, true, false, [], ◌∷◌, ◌++◌, arith,
  length, drop, ltb, leb, ◌==◌, if◌then◌else◌, Bytes, bit_set, u16_mod, drop-append_length,
  length-append,
}
use open_ipc_mobile_gs.Prelude.Int.{ℤ, pos}
use open_ipc_mobile_gs.Prelude.Signed.{
  signed, le16, le32, pattern_of, IsSigned, signed-pattern_of, pattern_of-lt, le16-bytes,
  le32-bytes,
}
use open_ipc_mobile_gs.Mavlink.Framer.{MavlinkMessage, header_size}
use open_ipc_mobile_gs.Mavlink.Telemetry.{
  Float, TelemetryState, decode, consume, consume_payload, kind_of, least_payload, other,
}

pub data Report : Type 0 where
  heartbeat : (custom type autopilot base status version : ℕ) → Report
  sys_status :
      (present enabled health load voltage : ℕ) (current : ℤ)
      (drop_rate errors count1 count2 count3 count4 : ℕ) (remaining : ℤ)
      → Report
  attitude : (time roll pitch yaw roll_speed pitch_speed yaw_speed : ℕ) → Report
  position : (time : ℕ) (lat lon alt relative : ℤ) (vx vy vz : ℕ) (heading : ℕ) → Report
  gps : (time_low time_high lat lon alt eph epv vel cog fix satellites : ℕ) → Report
  hud : (air ground alt climb heading throttle : ℕ) → Report
  -- Any message of another kind, BATTERY_STATUS excepted.
  unread : (msgid : ℕ) (payload : Bytes) → Report

abbrev pub bytes16 : ℕ → Bytes
bytes16 n = n % 256 ∷ n / 256 ∷ []

abbrev pub bytes32 : ℕ → Bytes
bytes32 n = n % 256 ∷ n / 256 % 256 ∷ n / 65536 % 256 ∷ n / 16777216 ∷ []

abbrev pub msgid_of : Report → ℕ
msgid_of (heartbeat c t a b s v) = 0
msgid_of (sys_status p e h l v c d r c1 c2 c3 c4 re) = 1
msgid_of (attitude t r p y rs ps ys) = 30
msgid_of (position t la lo al re vx vy vz h) = 33
msgid_of (gps tl th la lo al eph epv vel cog f s) = 24
msgid_of (hud a g al c h t) = 74
msgid_of (unread id payload) = id

abbrev pub layout : Report → Bytes
layout (heartbeat c t a b s v) = bytes32 c ++ (t ∷ a ∷ b ∷ s ∷ v ∷ [])
layout (sys_status p e h l v c d r c1 c2 c3 c4 re) =
    bytes32 p
    ++ (bytes32 e
        ++ (bytes32 h
            ++ (bytes16 l
                ++ (bytes16 v
                    ++ (bytes16 (pattern_of 32768 c)
                        ++ (bytes16 d
                            ++ (bytes16 r
                                ++ (bytes16 c1
                                    ++ (bytes16 c2
                                        ++ (bytes16 c3
                                            ++ (bytes16 c4 ++ (pattern_of 128 re ∷ []))))))))))))
layout (attitude t r p y rs ps ys) =
    bytes32 t
    ++ (bytes32 r ++ (bytes32 p ++ (bytes32 y ++ (bytes32 rs ++ (bytes32 ps ++ bytes32 ys)))))
layout (position t la lo al re vx vy vz h) =
    bytes32 t
    ++ (bytes32 (pattern_of 2147483648 la)
        ++ (bytes32 (pattern_of 2147483648 lo)
            ++ (bytes32 (pattern_of 2147483648 al)
                ++ (bytes32 (pattern_of 2147483648 re)
                    ++ (bytes16 vx ++ (bytes16 vy ++ (bytes16 vz ++ bytes16 h)))))))
layout (gps tl th la lo al eph epv vel cog f s) =
    bytes32 tl
    ++ (bytes32 th
        ++ (bytes32 la
            ++ (bytes32 lo
                ++ (bytes32 al
                    ++ (bytes16 eph
                        ++ (bytes16 epv ++ (bytes16 vel ++ (bytes16 cog ++ (f ∷ s ∷ [])))))))))
layout (hud a g al c h t) =
    bytes32 a ++ (bytes32 g ++ (bytes32 al ++ (bytes32 c ++ (bytes16 h ++ bytes16 t))))
layout (unread id payload) = payload

-- The fields that the decoder reads fit their widths; the flags are a byte.
abbrev pub IsReport : Report → Type 0
IsReport (heartbeat c t a b s v) = b < 256
IsReport (sys_status p e h l v c d r c1 c2 c3 c4 re) =
    (v < u16_mod) × IsSigned 32768 c × IsSigned 128 re
IsReport (attitude t r p y rs ps ys) = Unit
IsReport (position t la lo al re vx vy vz h) =
    IsSigned 2147483648 la
    × IsSigned 2147483648 lo
    × IsSigned 2147483648 al
    × IsSigned 2147483648 re
    × (h < u16_mod)
IsReport (gps tl th la lo al eph epv vel cog f s) = Unit
IsReport (hud a g al c h t) = t < u16_mod
IsReport (unread id payload) =
    (id ≢ 0) × (id ≢ 1) × (id ≢ 24) × (id ≢ 30) × (id ≢ 33) × (id ≢ 74) × (id ≢ 147)

kind_of-unread : (id : ℕ) (payload : Bytes) → IsReport (unread id payload) → kind_of id ≡ other
unfolding kind_of
kind_of-unread id payload h = ground arith

pub lt_false : (m n : ℕ) → n ≤ m → ltb m n ≡ false
lt_false m n h = ground arith

pub le_true : (m n : ℕ) → m ≤ n → leb m n ≡ true
le_true m n h = ground arith

i16-bytes :
    (z : ℤ)
    → IsSigned 32768 z
    → signed 32768 (le16 (pattern_of 32768 z % 256) (pattern_of 32768 z / 256)) ≡ z
i16-bytes z h =
    ap (signed 32768) (le16-bytes (pattern_of 32768 z) (pattern_of-lt 32768 z h))
    ∙ signed-pattern_of 32768 z h

i32-bytes :
    (z : ℤ)
    → IsSigned 2147483648 z
    → (let n = pattern_of 2147483648 z in
        signed 2147483648 (le32 (n % 256) (n / 256 % 256) (n / 65536 % 256) (n / 16777216)) ≡ z)
i32-bytes z h =
    ap (signed 2147483648) (le32-bytes (pattern_of 2147483648 z)) ∙ signed-pattern_of 2147483648 z h

module _ {F : Type 0} (float : Float F) where
  -- What the report says: voltages in millivolts and currents in centiamperes, headings in
  -- hundredths of a degree, of which 65535 means that it is not known.
  abbrev pub updated : Report → TelemetryState F → TelemetryState F
  updated (heartbeat c t a b status v) s = record s {
    custom_mode = c;
    mav_type = t;
    base_mode = b;
    system_status = status;
    armed = leb 128 b;
  }
  updated (sys_status p e h l v c d r c1 c2 c3 c4 re) s = record s {
    battery_voltage_v = float.quotient (pos v) 1000;
    battery_current_a = float.quotient c 100;
    battery_remaining_pct = re;
  }
  updated (attitude t r p y rs ps ys) s = record s {
    roll_rad = float.of_bits r;
    pitch_rad = float.of_bits p;
    yaw_rad = float.of_bits y;
  }
  updated (position t la lo al re vx vy vz h) s = record s {
    latitude_e7 = la;
    longitude_e7 = lo;
    altitude_mm = al;
    relative_altitude_mm = re;
    heading_deg = if h == 65535 then s.heading_deg else float.quotient (pos h) 100;
  }
  updated (gps tl th la lo al eph epv vel cog f sats) s = record s {
    gps_fix_type = f;
    satellites = sats;
  }
  updated (hud a g al c h t) s = record s {
    air_speed_ms = float.of_bits a;
    ground_speed_ms = float.of_bits g;
    climb_ms = float.of_bits c;
    throttle_pct = t;
  }
  updated (unread id payload) s = s

  armed_bit : (b : ℕ) → b < 256 → bit_set b 128 ≡ leb 128 b
  armed_bit b h = ground arith

  decode-layout :
      (r : Report) (s : TelemetryState F) (tail : Bytes)
      → IsReport r
      → decode float (kind_of (msgid_of r)) s (layout r ++ tail) ≡ updated r s
  unfolding decode kind_of
  decode-layout (heartbeat c t a b status v) s tail h = λ i. record s {
    custom_mode = le32-bytes c i;
    mav_type = t;
    base_mode = b;
    system_status = status;
    armed = armed_bit b h i;
  }
  decode-layout (sys_status p e h l v c d r c1 c2 c3 c4 re) s tail (hv, hc, hr) = λ i. record s {
    battery_voltage_v = float.quotient (pos (le16-bytes v hv i)) 1000;
    battery_current_a = float.quotient (i16-bytes c hc i) 100;
    battery_remaining_pct = signed-pattern_of 128 re hr i;
  }
  decode-layout (attitude t r p y rs ps ys) s tail h = λ i. record s {
    roll_rad = float.of_bits (le32-bytes r i);
    pitch_rad = float.of_bits (le32-bytes p i);
    yaw_rad = float.of_bits (le32-bytes y i);
  }
  decode-layout (position t la lo al re vx vy vz hd) s tail (ha, ho, hl, hr, hh) = λ i. record s {
    latitude_e7 = i32-bytes la ha i;
    longitude_e7 = i32-bytes lo ho i;
    altitude_mm = i32-bytes al hl i;
    relative_altitude_mm = i32-bytes re hr i;
    heading_deg =
        let n = le16-bytes hd hh i in
        if n == 65535 then s.heading_deg else float.quotient (pos n) 100;
  }
  decode-layout (gps tl th la lo al eph epv vel cog f sats) s tail h = refl
  decode-layout (hud a g al c hd t) s tail h = λ i. record s {
    air_speed_ms = float.of_bits (le32-bytes a i);
    ground_speed_ms = float.of_bits (le32-bytes g i);
    climb_ms = float.of_bits (le32-bytes c i);
    throttle_pct = le16-bytes t h i;
  }
  decode-layout (unread id payload) s tail h =
      ap (λ k. decode float k s (payload ++ tail)) (kind_of-unread id payload h)

  least_payload-layout :
      (r : Report) → IsReport r → least_payload (kind_of (msgid_of r)) ≤ length (layout r)
  unfolding kind_of
  least_payload-layout (heartbeat c t a b s v) h = omega arith
  least_payload-layout (sys_status p e he l v c d r c1 c2 c3 c4 re) h = omega arith
  least_payload-layout (attitude t r p y rs ps ys) h = omega arith
  least_payload-layout (position t la lo al re vx vy vz hd) h = omega arith
  least_payload-layout (gps tl th la lo al eph epv vel cog f s) h = omega arith
  least_payload-layout (hud a g al c hd t) h = omega arith
  least_payload-layout (unread id payload) h =
      omega (arith, ap least_payload (kind_of-unread id payload h))

  -- A message that carries the report: a header, the payload, and a tail that the decoder does not
  -- read, the checksum at least.
  pub consume-layout :
      (r : Report) (now : ℕ) (s : TelemetryState F) (m : MavlinkMessage) (header tail : Bytes)
      → m.msgid ≡ msgid_of r
      → m.bytes ≡ header ++ (layout r ++ tail)
      → m.size ≡ length m.bytes
      → length header ≡ header_size m.v2
      → 2 ≤ length tail
      → IsReport r
      → consume float now s m ≡ updated r (record s { valid = true; last_update_ms = now })
  unfolding consume consume_payload
  consume-layout r now s m header tail id bytes size head more h =
      let h_size = header_size m.v2 in
      let total : m.size ≡ length header + (length (layout r) + length tail) = omega (
        arith,
        size,
        ap length bytes,
        length-append header (layout r ++ tail),
        length-append (layout r) tail,
      ) in
      let least = least_payload-layout r h in
      let s' : TelemetryState F = record s { valid = true; last_update_ms = now } in
      let long : ltb m.size (h_size + 2) ≡ false = lt_false m.size (h_size + 2) (omega arith) in
      let enough : leb (least_payload (kind_of (msgid_of r))) (m.size - h_size - 2) ≡ true =
        le_true (least_payload (kind_of (msgid_of r))) (m.size - h_size - 2) (omega arith) in
      let rest : drop h_size m.bytes ≡ layout r ++ tail =
        (λ i. drop (sym head i) (bytes i)) ∙ drop-append_length header (layout r ++ tail) in
      (λ i. if long i then s else consume_payload float now s (id i) (m.size - h_size - 2) (rest i))
      ∙ (λ i. if enough i then decode-layout r s' tail h i else s')
