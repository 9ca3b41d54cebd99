-- ===== src/Msp/Decoder/Frames.antt =====
-- The byte machine against whole MSP messages, v1 and v2, with bytes between them that are part of
-- no message.
use open_ipc_mobile_gs.Prelude.{
  ℕ, suc, ◌<◌, ◌≡◌, ◌≢◌, refl, sym, ap, ◌∙◌, Bool, true, false, List, [], ◌∷◌, ◌++◌, ltb, ◌==◌,
  if◌then◌else◌, arith, length, Bytes, bit_xor, add64,
}
use mathlib.Core.List.{append_assoc}
use open_ipc_mobile_gs.Msp.Checksum.{crc_over}
use open_ipc_mobile_gs.Msp.Decoder.{
  idle, header_m, header_arrow, v1_size, v2_flags, v1_payload, v1_checksum, v2_payload, v2_checksum,
  MspOsdDecoder, handle_in, handle_byte, push, close_message, dispatch_message,
}
use open_ipc_mobile_gs.Msp.Decoder.Reading.{
  Message, v1_message, v2_message, v2_header, encode, IsMessage, checksum_of, loaded, sent_checksum,
  v1_run, v2_run, header_v1, header_v2, header_oversize, is_direction,
}

-- A whole message brings the decoder to its checksum with every field read.
push-encode_at :
    (d : MspOsdDecoder) (m : Message) (rest : Bytes)
    → IsMessage m
    → push (record d { state = idle }) (encode m ++ rest)
      ≡ push (close_message (loaded d m) (sent_checksum m)) rest
unfolding handle_in
push-encode_at d (v1_message dir fn [] ck) rest h = header_v1 d dir fn [] (ck ∷ rest) h.0
push-encode_at d (v1_message dir fn (b ∷ bs) ck) rest h =
    let size = suc (length bs) in
    let start = record d {
      v2 = false;
      function = fn;
      expected_size = size;
      payload = [];
      checksum = bit_xor size fn;
    } in
    let body = b ∷ (bs ++ (ck ∷ rest)) in
    let some_bytes : ltb 0 size ≡ true = ground arith in
    ap (λ (p : Bytes). push (record d { state = idle }) (b'$' ∷ b'M' ∷ dir ∷ size ∷ fn ∷ b ∷ p))
      (append_assoc bs (ck ∷ []) rest)
    ∙ header_v1 d dir fn (b ∷ bs) body h.0
    ∙ ap (λ (t : Bool). push (record start { state = if t then v1_payload else v1_checksum }) body)
        some_bytes
    ∙ v1_run start b bs (ck ∷ rest) (omega arith)
push-encode_at d (v2_message dir flags fn [] ck) rest h =
    header_v2 d dir flags fn 0 (ck ∷ rest) h.0 (omega arith)
push-encode_at d (v2_message dir flags fn (b ∷ bs) ck) rest h =
    let size = suc (length bs) in
    let start = record d {
      v2 = true;
      function = fn;
      expected_size = size;
      payload = [];
      checksum = crc_over 0 (v2_header flags fn size);
    } in
    let body = b ∷ (bs ++ (ck ∷ rest)) in
    let some_bytes : ltb 0 size ≡ true = ground arith in
    ap
      (λ (p : Bytes).
        push (record d { state = idle }) (b'$' ∷ b'X' ∷ dir ∷ (v2_header flags fn size ++ (b ∷ p))))
      (append_assoc bs (ck ∷ []) rest)
    ∙ header_v2 d dir flags fn size body h.0 h.1
    ∙ ap (λ (t : Bool). push (record start { state = if t then v2_payload else v2_checksum }) body)
        some_bytes
    ∙ v2_run start b bs (ck ∷ rest) (omega arith)

-- A stream of messages, each with any checksum byte, and what may stand between them: a byte that is
-- no '$'; a '$' with a byte behind it that begins no message; a '$' in front of another one; "$M" or
-- "$X" with a byte behind it that is no direction; the header of a v2 message over 1024 bytes.
pub data Item : Type 0 where
  noise : ℕ → Item
  stray : ℕ → Item
  dollar : Item
  undirected : Bool → ℕ → Item
  oversize : (dir flags fn size : ℕ) → Item
  whole : Message → Item

abbrev pub BeginsDollar : List Item → Type 0
BeginsDollar [] = ⊥
BeginsDollar (noise b ∷ is) = ⊥
BeginsDollar (stray b ∷ is) = Unit
BeginsDollar (dollar ∷ is) = Unit
BeginsDollar (undirected v2 b ∷ is) = Unit
BeginsDollar (oversize dir flags fn size ∷ is) = Unit
BeginsDollar (whole m ∷ is) = Unit

abbrev pub IsStream : List Item → Type 0
IsStream [] = Unit
IsStream (noise b ∷ is) = (b ≢ b'$') × IsStream is
IsStream (stray b ∷ is) = (b ≢ b'$') × (b ≢ b'M') × (b ≢ b'X') × IsStream is
IsStream (dollar ∷ is) = BeginsDollar is × IsStream is
IsStream (undirected v2 b ∷ is) = (is_direction b ≡ false) × IsStream is
IsStream (oversize dir flags fn size ∷ is) = (is_direction dir ≡ true) × (1024 < size) × IsStream is
IsStream (whole m ∷ is) = IsMessage m × IsStream is

abbrev pub wire : List Item → Bytes
wire [] = []
wire (noise b ∷ is) = b ∷ wire is
wire (stray b ∷ is) = b'$' ∷ b ∷ wire is
wire (dollar ∷ is) = b'$' ∷ wire is
wire (undirected true b ∷ is) = b'$' ∷ b'X' ∷ b ∷ wire is
wire (undirected false b ∷ is) = b'$' ∷ b'M' ∷ b ∷ wire is
wire (oversize dir flags fn size ∷ is) = b'$' ∷ b'X' ∷ dir ∷ (v2_header flags fn size ++ wire is)
wire (whole m ∷ is) = encode m ++ wire is

-- What a header that is refused leaves behind in the fields for the next message.
abbrev pub refuse : MspOsdDecoder → ℕ → ℕ → ℕ → MspOsdDecoder
refuse d flags fn size = record d {
  v2 = true;
  function = fn;
  expected_size = size;
  payload = [];
  checksum = crc_over 0 (v2_header flags fn size);
  state = idle;
}

-- The decoder at the level of messages: a message with the right checksum is dispatched with its
-- function and payload, any other is counted as an error; nothing else is dispatched or counted.
abbrev pub receive : MspOsdDecoder → Message → MspOsdDecoder
receive d m =
    let ready = loaded d m in
    let done =
      if checksum_of m == sent_checksum m
      then dispatch_message ready
      else record ready { checksum_errors = add64 d.checksum_errors 1 } in
    record done { state = idle }

abbrev pub receive_all : MspOsdDecoder → List Item → MspOsdDecoder
receive_all d [] = d
receive_all d (noise b ∷ is) = receive_all d is
receive_all d (stray b ∷ is) = receive_all d is
receive_all d (dollar ∷ is) = receive_all d is
receive_all d (undirected v2 b ∷ is) = receive_all (record d { v2 = v2; state = idle }) is
receive_all d (oversize dir flags fn size ∷ is) = receive_all (refuse d flags fn size) is
receive_all d (whole m ∷ is) = receive_all (receive d m) is

close-loaded :
    (d : MspOsdDecoder) (m : Message) → close_message (loaded d m) (sent_checksum m) ≡ receive d m
unfolding close_message
close-loaded d (v1_message dir fn payload ck) = refl
close-loaded d (v2_message dir flags fn payload ck) = refl

receive_idle : (d : MspOsdDecoder) (m : Message) → (receive d m).state ≡ idle
receive_idle d m = refl

push_noise :
    (d : MspOsdDecoder) (b : ℕ)
    → b ≢ b'$'
    → handle_byte (record d { state = idle }) b ≡ record d { state = idle }
unfolding handle_in
push_noise d b h = ground arith

push_stray :
    (d : MspOsdDecoder) (b : ℕ) (rest : Bytes)
    → b ≢ b'$'
    → b ≢ b'M'
    → b ≢ b'X'
    → push (record d { state = idle }) (b'$' ∷ b ∷ rest) ≡ push (record d { state = idle }) rest
unfolding handle_in
push_stray d b rest no_dollar no_m no_x =
    let m : (b == b'M') ≡ false = ground arith in
    let x : (b == b'X') ≡ false = ground arith in
    let s : (b == b'$') ≡ false = ground arith in
    let header = record d { state = header_m } in
    λ i.
      push
        (if m i
          then record header { v2 = false; state = header_arrow }
          else if x i
          then record header { v2 = true; state = header_arrow }
          else if s i
          then header
          else record header { state = idle })
        rest

push_undirected :
    (d : MspOsdDecoder) (v2 : Bool) (b : ℕ) (is : List Item)
    → is_direction b ≡ false
    → push (record d { state = idle }) (wire (undirected v2 b ∷ is))
      ≡ push (record d { v2 = v2; state = idle }) (wire is)
unfolding handle_in
push_undirected d true b is h =
    let begun = record d { state = v2_flags; v2 = true; checksum = 0; payload = [] } in
    ap (λ (t : Bool). push (if t then begun else record d { v2 = true; state = idle }) (wire is)) h
push_undirected d false b is h =
    let begun = record d { state = v1_size; v2 = false; checksum = 0; payload = [] } in
    ap (λ (t : Bool). push (if t then begun else record d { v2 = false; state = idle }) (wire is)) h

-- A second '$' is taken for the first.
push_dollar :
    (d : MspOsdDecoder) (is : List Item)
    → BeginsDollar is
    → push (record d { state = idle }) (b'$' ∷ wire is) ≡ push (record d { state = idle }) (wire is)
unfolding handle_in
push_dollar d [] h = absurd h
push_dollar d (noise b ∷ is) h = absurd h
push_dollar d (stray b ∷ is) h = refl
push_dollar d (dollar ∷ is) h = refl
push_dollar d (undirected true b ∷ is) h = refl
push_dollar d (undirected false b ∷ is) h = refl
push_dollar d (oversize dir flags fn size ∷ is) h = refl
push_dollar d (whole (v1_message dir fn payload ck) ∷ is) h = refl
push_dollar d (whole (v2_message dir flags fn payload ck) ∷ is) h = refl

-- From the idle state, reading a stream byte by byte has the effect of the decoder of whole messages:
-- a message with the right checksum is dispatched, any other is counted as a checksum error, and
-- nothing else is dispatched or counted. The messages are of MSP v1, or of v2 with at most 1024 bytes
-- of payload. Between them there are bytes that are no '$', a '$' with a byte behind it that begins
-- no message, a '$' in front of another one, "$M" or "$X" without a direction, and headers of v2
-- messages with a payload over 1024 bytes, which count neither as a message nor as an error.
pub push-receive_all :
    (d : MspOsdDecoder) (is : List Item)
    → d.state ≡ idle
    → IsStream is
    → push d (wire is) ≡ receive_all d is
push-receive_all d [] e h = refl
push-receive_all d (noise b ∷ is) e h =
    let same : d ≡ record d { state = idle } = λ i. record d { state = e i } in
    ap (λ (s : MspOsdDecoder). push (handle_byte s b) (wire is)) same
    ∙ ap (λ (s : MspOsdDecoder). push s (wire is)) (push_noise d b h.0 ∙ sym same)
    ∙ push-receive_all d is e h.1
push-receive_all d (stray b ∷ is) e h =
    let same : d ≡ record d { state = idle } = λ i. record d { state = e i } in
    ap (λ (s : MspOsdDecoder). push s (wire (stray b ∷ is))) same
    ∙ push_stray d b (wire is) h.0 h.1 h.2
    ∙ ap (λ (s : MspOsdDecoder). push s (wire is)) (sym same)
    ∙ push-receive_all d is e h.3
push-receive_all d (dollar ∷ is) e h =
    let same : d ≡ record d { state = idle } = λ i. record d { state = e i } in
    ap (λ (s : MspOsdDecoder). push s (wire (dollar ∷ is))) same
    ∙ push_dollar d is h.0
    ∙ ap (λ (s : MspOsdDecoder). push s (wire is)) (sym same)
    ∙ push-receive_all d is e h.1
push-receive_all d (undirected v2 b ∷ is) e h =
    let same : d ≡ record d { state = idle } = λ i. record d { state = e i } in
    ap (λ (s : MspOsdDecoder). push s (wire (undirected v2 b ∷ is))) same
    ∙ push_undirected d v2 b is h.0
    ∙ push-receive_all (record d { v2 = v2; state = idle }) is refl h.1
push-receive_all d (oversize dir flags fn size ∷ is) e h =
    let same : d ≡ record d { state = idle } = λ i. record d { state = e i } in
    ap (λ (s : MspOsdDecoder). push s (wire (oversize dir flags fn size ∷ is))) same
    ∙ header_oversize d dir flags fn size (wire is) h.0 h.1
    ∙ push-receive_all (refuse d flags fn size) is refl h.2
push-receive_all d (whole m ∷ is) e h =
    let same : d ≡ record d { state = idle } = λ i. record d { state = e i } in
    ap (λ (s : MspOsdDecoder). push s (encode m ++ wire is)) same
    ∙ push-encode_at d m (wire is) h.0
    ∙ ap (λ (s : MspOsdDecoder). push s (wire is)) (close-loaded d m)
    ∙ push-receive_all (receive d m) is refl h.1
