-- ===== src/Mavlink/Framer/Window.antt =====
-- One round of the framer's loop: what it decides depends on the bytes of the frame alone, and it
-- is never changed by bytes that arrive later.
use open_ipc_mobile_gs.Prelude.{
  ℕ, ◌≤◌, ◌<◌, ◌≡◌, refl, ◌++◌, arith, length, Bytes, get_or-append, take-append, length-append,
  ◌⊎◌, inl, inr,
}
use open_ipc_mobile_gs.Mavlink.Framer.{
  Round, skip, wait, frame, inspect, message_at, is_v2, header_size, frame_len,
}

pub Round-cases : (r : Round) → (r ≡ skip) ⊎ ((r ≡ wait) ⊎ ((len : ℕ) × (r ≡ frame len)))
Round-cases skip = inl refl
Round-cases wait = inr (inl refl)
Round-cases (frame len) = inr (inr (len, refl))

-- A delivered frame lies inside the buffer, and has a header and a checksum.
pub inspect-frame :
    (rest : Bytes) (len : ℕ)
    → inspect rest ≡ frame len
    → (8 ≤ len)
      × (header_size (is_v2 rest) ≤ len)
      × (len ≤ length rest)
      × (len ≤ 280)
      × (len ≡ frame_len rest)
unfolding inspect frame_len
inspect-frame rest len h = ground arith

-- A break leaves less than one frame.
pub inspect-wait : (rest : Bytes) → inspect rest ≡ wait → length rest < 280
unfolding inspect
inspect-wait rest h = ground arith

-- Once the header is in, the length of the frame is known.
frame_len-append : (xs ys : Bytes) → 3 ≤ length xs → frame_len (xs ++ ys) ≡ frame_len xs
unfolding frame_len
frame_len-append xs ys h = rw (
  get_or-append xs ys 0 0 (omega arith),
  get_or-append xs ys 1 0 (omega arith),
  get_or-append xs ys 2 0 (omega arith),
)

-- Short of its header a frame is waited for; beyond it, the decision reads the frame's bytes only.
pub inspect-append :
    (xs ys : Bytes) → 1 ≤ length xs → (inspect xs ≡ wait → ⊥) → inspect (xs ++ ys) ≡ inspect xs
unfolding inspect
inspect-append xs ys h nw =
    rw (get_or-append xs ys 0 0 (omega arith))
      (ground (arith, length-append xs ys, frame_len-append xs ys))

-- The message is read from the bytes of the frame alone.
pub message_at-append :
    (xs ys : Bytes) (len : ℕ)
    → inspect xs ≡ frame len
    → message_at (xs ++ ys) len ≡ message_at xs len
unfolding message_at
message_at-append xs ys len h =
    let size = inspect-frame xs len h in
    rw (get_or-append xs ys 0 0 (omega arith), take-append len xs ys (omega arith))
      (ground (
        arith,
        get_or-append xs ys 3 0,
        get_or-append xs ys 4 0,
        get_or-append xs ys 5 0,
        get_or-append xs ys 6 0,
        get_or-append xs ys 7 0,
        get_or-append xs ys 8 0,
        get_or-append xs ys 9 0,
      ))
