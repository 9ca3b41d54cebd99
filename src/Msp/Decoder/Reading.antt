-- ===== src/Msp/Decoder/Reading.antt =====
-- MSP messages as the protocol lays them out, and how the byte machine reads their parts: the
-- header of each version and the payload loop.
use open_ipc_mobile_gs.Prelude.{
  ℕ, suc, ◌+◌, ◌*◌, ◌/◌, ◌%◌, ◌≤◌, ◌<◌, ◌≡◌, refl, ap, ◌∙◌, Bool, true, false, ◌||◌, [], ◌∷◌, ◌++◌,
  ltb, leb, ◌==◌, if◌then◌else◌, arith, length, length-append, Bytes, bit_xor,
}
use mathlib.Core.List.{append_assoc}
use open_ipc_mobile_gs.Msp.Checksum.{crc8_dvb_s2, crc_over, xor_over}
use open_ipc_mobile_gs.Msp.Decoder.{
  idle, v1_size, v1_payload, v1_checksum, v2_flags, v2_payload, v2_checksum, MspOsdDecoder,
  handle_in, handle_byte, push,
}

pub push-append_bytes :
    (d : MspOsdDecoder) (xs ys : Bytes) → push d (xs ++ ys) ≡ push (push d xs) ys
push-append_bytes d [] ys = refl
push-append_bytes d (x ∷ xs) ys = push-append_bytes (handle_byte d x) xs ys

last_byte :
    (d : MspOsdDecoder) (b : ℕ)
    → d.expected_size ≡ length d.payload + 1
    → leb d.expected_size (length (d.payload ++ (b ∷ []))) ≡ true
last_byte d b e = ground (arith, length-append d.payload (b ∷ []))

more_bytes :
    (d : MspOsdDecoder) (b n : ℕ)
    → d.expected_size ≡ length d.payload + suc (suc n)
    → leb d.expected_size (length (d.payload ++ (b ∷ []))) ≡ false
more_bytes d b n e = ground (arith, length-append d.payload (b ∷ []))

abbrev pub v1_taken : MspOsdDecoder → ℕ → Bool → MspOsdDecoder
v1_taken d b full = record d {
  payload = d.payload ++ (b ∷ []);
  checksum = bit_xor d.checksum b;
  state = if full then v1_checksum else v1_payload;
}

-- The payload loop of v1: it ends with the last byte of the announced size.
pub v1_run :
    (d : MspOsdDecoder) (b : ℕ) (bs rest : Bytes)
    → d.expected_size ≡ length d.payload + suc (length bs)
    → push (record d { state = v1_payload }) (b ∷ (bs ++ rest))
      ≡ push
          (record d {
            state = v1_checksum;
            payload = d.payload ++ (b ∷ bs);
            checksum = xor_over d.checksum (b ∷ bs);
          })
          rest
unfolding handle_in
v1_run d b [] rest e = ap (λ (t : Bool). push (v1_taken d b t) rest) (last_byte d b e)
v1_run d b (b' ∷ bs) rest e =
    let next = record d { payload = d.payload ++ (b ∷ []); checksum = bit_xor d.checksum b } in
    ap (λ (t : Bool). push (v1_taken d b t) (b' ∷ (bs ++ rest))) (more_bytes d b (length bs) e)
    ∙ v1_run next b' bs rest (omega (arith, length-append d.payload (b ∷ [])))
    ∙ ap
        (λ (p : Bytes).
          push
            (record d {
              state = v1_checksum;
              payload = p;
              checksum = xor_over d.checksum (b ∷ b' ∷ bs);
            })
            rest)
        (append_assoc d.payload (b ∷ []) (b' ∷ bs))

abbrev pub v2_taken : MspOsdDecoder → ℕ → Bool → MspOsdDecoder
v2_taken d b full = record d {
  payload = d.payload ++ (b ∷ []);
  checksum = crc8_dvb_s2 d.checksum b;
  state = if full then v2_checksum else v2_payload;
}

-- The payload loop of v2: it ends with the last byte of the announced size.
pub v2_run :
    (d : MspOsdDecoder) (b : ℕ) (bs rest : Bytes)
    → d.expected_size ≡ length d.payload + suc (length bs)
    → push (record d { state = v2_payload }) (b ∷ (bs ++ rest))
      ≡ push
          (record d {
            state = v2_checksum;
            payload = d.payload ++ (b ∷ bs);
            checksum = crc_over d.checksum (b ∷ bs);
          })
          rest
unfolding handle_in
v2_run d b [] rest e = ap (λ (t : Bool). push (v2_taken d b t) rest) (last_byte d b e)
v2_run d b (b' ∷ bs) rest e =
    let next = record d { payload = d.payload ++ (b ∷ []); checksum = crc8_dvb_s2 d.checksum b } in
    ap (λ (t : Bool). push (v2_taken d b t) (b' ∷ (bs ++ rest))) (more_bytes d b (length bs) e)
    ∙ v2_run next b' bs rest (omega (arith, length-append d.payload (b ∷ [])))
    ∙ ap
        (λ (p : Bytes).
          push
            (record d {
              state = v2_checksum;
              payload = p;
              checksum = crc_over d.checksum (b ∷ b' ∷ bs);
            })
            rest)
        (append_assoc d.payload (b ∷ []) (b' ∷ bs))

-- A message as MSP lays it out: `$M` or `$X`, a direction, the header, the payload, a checksum.
-- A v2 message's function and size are little-endian.
pub data Message : Type 0 where
  v1_message : (direction function : ℕ) (payload : Bytes) (checksum : ℕ) → Message
  v2_message : (direction flags function : ℕ) (payload : Bytes) (checksum : ℕ) → Message

abbrev pub v2_header : ℕ → ℕ → ℕ → Bytes
v2_header flags function size =
    flags ∷ (function % 256) ∷ (function / 256) ∷ (size % 256) ∷ (size / 256) ∷ []

abbrev pub encode : Message → Bytes
encode (v1_message dir fn payload ck) =
    b'$' ∷ b'M' ∷ dir ∷ length payload ∷ fn ∷ (payload ++ (ck ∷ []))
encode (v2_message dir flags fn payload ck) =
    b'$' ∷ b'X' ∷ dir ∷ (v2_header flags fn (length payload) ++ (payload ++ (ck ∷ [])))

abbrev pub is_direction : ℕ → Bool
is_direction b = b == b'<' || b == b'>' || b == b'!'

abbrev pub IsMessage : Message → Type 0
IsMessage (v1_message dir fn payload ck) = (is_direction dir ≡ true) × (length payload < 256)
IsMessage (v2_message dir flags fn payload ck) = (is_direction dir ≡ true) × (length payload ≤ 1024)

-- The checksum that the protocol calls for: XOR, or CRC-8 with DVB-S2's polynomial.
abbrev pub checksum_of : Message → ℕ
checksum_of (v1_message dir fn payload ck) = xor_over (bit_xor (length payload) fn) payload
checksum_of (v2_message dir flags fn payload ck) =
    crc_over 0 (v2_header flags fn (length payload) ++ payload)

-- The decoder with the message's fields read, waiting for its checksum.
abbrev pub loaded : MspOsdDecoder → Message → MspOsdDecoder
loaded d (v1_message dir fn payload ck) = record d {
  v2 = false;
  function = fn;
  expected_size = length payload;
  payload = payload;
  state = v1_checksum;
  checksum = checksum_of (v1_message dir fn payload ck);
}
loaded d (v2_message dir flags fn payload ck) = record d {
  v2 = true;
  function = fn;
  expected_size = length payload;
  payload = payload;
  state = v2_checksum;
  checksum = checksum_of (v2_message dir flags fn payload ck);
}

abbrev pub sent_checksum : Message → ℕ
sent_checksum (v1_message dir fn payload ck) = ck
sent_checksum (v2_message dir flags fn payload ck) = ck

pub header_v1 :
    (d : MspOsdDecoder) (dir fn : ℕ) (payload rest : Bytes)
    → is_direction dir ≡ true
    → push (record d { state = idle }) (b'$' ∷ b'M' ∷ dir ∷ length payload ∷ fn ∷ rest)
      ≡ push
          (record d {
            v2 = false;
            function = fn;
            expected_size = length payload;
            payload = [];
            checksum = bit_xor (length payload) fn;
            state = if ltb 0 (length payload) then v1_payload else v1_checksum;
          })
          rest
unfolding handle_in
header_v1 d dir fn payload rest h =
    let begun = record d { state = v1_size; v2 = false; checksum = 0; payload = [] } in
    let refused = record d { state = idle; v2 = false } in
    ap
      (λ (t : Bool).
        push (handle_byte (handle_byte (if t then begun else refused) (length payload)) fn) rest)
      h

-- The fields of a v2 header, and the state that its size leads to.
after_header : MspOsdDecoder → ℕ → ℕ → ℕ → Bool → MspOsdDecoder
after_header d flags fn size over = record d {
  v2 = true;
  function = fn;
  expected_size = size;
  payload = [];
  checksum = crc_over 0 (v2_header flags fn size);
  state = if over then idle else if ltb 0 size then v2_payload else v2_checksum;
}

read_header_v2 :
    (d : MspOsdDecoder) (dir flags fn size : ℕ) (rest : Bytes)
    → is_direction dir ≡ true
    → push (record d { state = idle }) (b'$' ∷ b'X' ∷ dir ∷ (v2_header flags fn size ++ rest))
      ≡ push (after_header d flags fn size (ltb 1024 size)) rest
unfolding handle_in after_header
read_header_v2 d dir flags fn size rest h =
    let begun = record d { state = v2_flags; v2 = true; checksum = 0; payload = [] } in
    let refused = record d { state = idle; v2 = true } in
    let whole : size % 256 + size / 256 * 256 ≡ size = omega arith in
    let whole' : fn % 256 + fn / 256 * 256 ≡ fn = omega arith in
    let ready = λ (f n : ℕ). record d {
      v2 = true;
      function = f;
      expected_size = n;
      payload = [];
      checksum = crc_over 0 (v2_header flags fn size);
      state = if ltb 1024 n then idle else if ltb 0 n then v2_payload else v2_checksum;
    } in
    ap (λ (t : Bool). push (if t then begun else refused) (v2_header flags fn size ++ rest)) h
    ∙ λ i. push (ready (whole' i) (whole i)) rest

pub header_v2 :
    (d : MspOsdDecoder) (dir flags fn size : ℕ) (rest : Bytes)
    → is_direction dir ≡ true
    → size ≤ 1024
    → push (record d { state = idle }) (b'$' ∷ b'X' ∷ dir ∷ (v2_header flags fn size ++ rest))
      ≡ push
          (record d {
            v2 = true;
            function = fn;
            expected_size = size;
            payload = [];
            checksum = crc_over 0 (v2_header flags fn size);
            state = if ltb 0 size then v2_payload else v2_checksum;
          })
          rest
unfolding after_header
header_v2 d dir flags fn size rest h k =
    let fits : ltb 1024 size ≡ false = ground arith in
    read_header_v2 d dir flags fn size rest h
    ∙ ap (λ (t : Bool). push (after_header d flags fn size t) rest) fits

-- A header whose size is over the limit.
pub header_oversize :
    (d : MspOsdDecoder) (dir flags fn size : ℕ) (rest : Bytes)
    → is_direction dir ≡ true
    → 1024 < size
    → push (record d { state = idle }) (b'$' ∷ b'X' ∷ dir ∷ (v2_header flags fn size ++ rest))
      ≡ push
          (record d {
            v2 = true;
            function = fn;
            expected_size = size;
            payload = [];
            checksum = crc_over 0 (v2_header flags fn size);
            state = idle;
          })
          rest
unfolding after_header
header_oversize d dir flags fn size rest h k =
    let over : ltb 1024 size ≡ true = ground arith in
    read_header_v2 d dir flags fn size rest h
    ∙ ap (λ (t : Bool). push (after_header d flags fn size t) rest) over
