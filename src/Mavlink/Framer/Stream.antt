-- ===== src/Mavlink/Framer/Stream.antt =====
-- The framer as a function of the stream: the loop's fuel, and how the stream is cut into reads.
use open_ipc_mobile_gs.Prelude.{
  ℕ, zero, suc, ◌+◌, ◌≤◌, ◌<◌, ◌≡◌, refl, sym, ap, ◌∙◌, [], ◌∷◌, ◌++◌, arith, length, drop, Bytes,
  drop-append, length-append, inl, inr, length-drop,
}
use mathlib.Core.List.{append_assoc}
use open_ipc_mobile_gs.Mavlink.Framer.{
  MavlinkFramer, skip, wait, frame, inspect, message_at, loop, drop_byte, deliver, push, guard_size,
}
use open_ipc_mobile_gs.Mavlink.Framer.Window.{
  Round-cases, inspect-frame, inspect-wait, inspect-append, message_at-append,
}

-- The suffix that the loop leaves is no longer than the buffer, and too short for a whole frame.
pub loop_rest :
    (n : ℕ) (f : MavlinkFramer) (xs : Bytes)
    → length xs ≤ n
    → (length (loop n f xs).1 ≤ length xs) × (length (loop n f xs).1 < 280)
unfolding loop
loop_rest zero f [] h = omega arith
loop_rest zero f (b ∷ xs) h = elim h [ ]
loop_rest (suc n) f [] h = omega arith
loop_rest (suc n) f (b ∷ xs) h = elim (Round-cases (inspect (b ∷ xs))) [
  | inl e ↦ rw (e, loop) (omega (arith, loop_rest n (drop_byte f) xs (omega arith)))
  | inr (inl e) ↦ rw (e, loop) (omega (arith, inspect-wait (b ∷ xs) e))
  | inr (inr (len, e)) ↦
      let size = inspect-frame (b ∷ xs) len e in
      let shorter = length-drop len (b ∷ xs) in
      rw (e, loop)
        (omega (
          arith,
          loop_rest n (deliver f (message_at (b ∷ xs) len)) (drop len (b ∷ xs)) (omega arith),
        ))
]

-- Any fuel from the length of the buffer on gives the same run.
pub loop_fuel :
    (n m : ℕ) (f : MavlinkFramer) (xs : Bytes)
    → length xs ≤ n
    → length xs ≤ m
    → loop n f xs ≡ loop m f xs
unfolding loop
loop_fuel zero zero f xs h k = refl
loop_fuel zero (suc m) f [] h k = refl
loop_fuel zero (suc m) f (b ∷ xs) h k = elim h [ ]
loop_fuel (suc n) zero f [] h k = refl
loop_fuel (suc n) zero f (b ∷ xs) h k = elim k [ ]
loop_fuel (suc n) (suc m) f [] h k = refl
loop_fuel (suc n) (suc m) f (b ∷ xs) h k = elim (Round-cases (inspect (b ∷ xs))) [
  | inl e ↦ rw (e, loop) (loop_fuel n m (drop_byte f) xs (omega arith) (omega arith))
  | inr (inl e) ↦ rw (e, loop)
  | inr (inr (len, e)) ↦
      let size = inspect-frame (b ∷ xs) len e in
      let shorter = length-drop len (b ∷ xs) in
      rw (e, loop)
        (loop_fuel n m (deliver f (message_at (b ∷ xs) len)) (drop len (b ∷ xs)) (omega arith)
          (omega arith))
]

loop_nil :
    (n m : ℕ) (f : MavlinkFramer) (ys : Bytes)
    → loop m f ys ≡ loop m (loop n f []).0 ((loop n f []).1 ++ ys)
unfolding loop
loop_nil zero m f ys = refl
loop_nil (suc n) m f ys = refl

module _ (n : ℕ) (f : MavlinkFramer) (b : ℕ) (xs : Bytes) where
  pub loop_skip : inspect (b ∷ xs) ≡ skip → loop (suc n) f (b ∷ xs) ≡ loop n (drop_byte f) xs
  unfolding loop
  loop_skip e = rw (e, loop)

  pub loop_wait : inspect (b ∷ xs) ≡ wait → loop (suc n) f (b ∷ xs) ≡ (f, b ∷ xs)
  unfolding loop
  loop_wait e = rw (e, loop)

  pub loop_frame :
      (len : ℕ)
      → inspect (b ∷ xs) ≡ frame len
      → loop (suc n) f (b ∷ xs) ≡ loop n (deliver f (message_at (b ∷ xs) len)) (drop len (b ∷ xs))
  unfolding loop
  loop_frame len e = rw (e, loop)

abbrev resume : ℕ → Bytes → MavlinkFramer × Bytes → MavlinkFramer × Bytes
resume m ys r = loop m r.0 (r.1 ++ ys)

-- One more unit of fuel, where the suffix left is known to fit.
resume_fuel :
    (n m : ℕ) (f : MavlinkFramer) (xs ys : Bytes)
    → length xs ≤ n
    → length (xs ++ ys) ≤ m
    → resume m ys (loop n f xs) ≡ resume (suc m) ys (loop n f xs)
resume_fuel n m f xs ys h k =
    let left = loop_rest n f xs h in
    let rest = length-append (loop n f xs).1 ys in
    let whole = length-append xs ys in loop_fuel m (suc m) _ _ (omega arith) (omega arith)

-- A run over a longer buffer goes on where the run over its front stopped.
pub loop-append :
    (n m : ℕ) (f : MavlinkFramer) (xs ys : Bytes)
    → length xs ≤ n
    → length (xs ++ ys) ≤ m
    → loop m f (xs ++ ys) ≡ resume m ys (loop n f xs)
loop-append n m f [] ys h k = loop_nil n m f ys
loop-append zero m f (b ∷ xs) ys h k = elim h [ ]
loop-append (suc n) zero f (b ∷ xs) ys h k = elim k [ ]
loop-append (suc n) (suc m) f (b ∷ xs) ys h k = elim (Round-cases (inspect (b ∷ xs))) [
  | inl e ↦
      let longer = inspect-append (b ∷ xs) ys (omega arith) (λ w. cc) ∙ e in
      loop_skip m f b (xs ++ ys) longer
      ∙ loop-append n m (drop_byte f) xs ys (omega arith) (omega arith)
      ∙ resume_fuel n m (drop_byte f) xs ys (omega arith) (omega arith)
      ∙ ap (resume (suc m) ys) (sym (loop_skip n f b xs e))
  | inr (inl e) ↦ ap (resume (suc m) ys) (sym (loop_wait n f b xs e))
  | inr (inr (len, e)) ↦
      let longer = inspect-append (b ∷ xs) ys (omega arith) (λ w. cc) ∙ e in
      let size = inspect-frame (b ∷ xs) len e in
      let shorter = length-drop len (b ∷ xs) in
      let g = deliver f (message_at (b ∷ xs) len) in
      let left = drop len (b ∷ xs) in
      let both = length-append left ys in
      let whole = length-append (b ∷ xs) ys in
      loop_frame m f b (xs ++ ys) len longer
      ∙ rw (message_at-append (b ∷ xs) ys len e, drop-append len (b ∷ xs) ys (omega arith))
          (loop-append n m g left ys (omega arith) (omega arith)
            ∙ resume_fuel n m g left ys (omega arith) (omega arith)
            ∙ ap (resume (suc m) ys) (sym (loop_frame n f b xs len e)))
]

-- The guard behind the loop never fires: a run leaves less than one frame.
pub push_lem :
    (f : MavlinkFramer) (xs : Bytes) (n : ℕ)
    → length (f.buffer ++ xs) ≤ n
    → push f xs ≡ record (loop n f (f.buffer ++ xs)).0 { buffer = (loop n f (f.buffer ++ xs)).1 }
unfolding push guard_size
push_lem f xs n h =
    let left = loop_rest n f (f.buffer ++ xs) h in
    rw (loop_fuel (length (f.buffer ++ xs)) n f (f.buffer ++ xs) (omega arith) h) (ground arith)

abbrev with_buffer : Bytes → MavlinkFramer × Bytes → MavlinkFramer × Bytes
with_buffer b r = (record (r.0) { buffer = b }, r.1)

-- The loop itself neither reads nor writes the field `buffer`.
loop-with_buffer :
    (n : ℕ) (f : MavlinkFramer) (b xs : Bytes)
    → loop n (record f { buffer = b }) xs ≡ with_buffer b (loop n f xs)
unfolding loop drop_byte deliver
loop-with_buffer zero f b xs = refl
loop-with_buffer (suc n) f b [] = refl
loop-with_buffer (suc n) f b (x ∷ xs) = elim (Round-cases (inspect (x ∷ xs))) [
  | inl e ↦ rw (e, loop) (loop-with_buffer n (drop_byte f) b xs)
  | inr (inl e) ↦ rw (e, loop)
  | inr (inr (len, e)) ↦
      rw (e, loop) (loop-with_buffer n (deliver f (message_at (x ∷ xs) len)) b (drop len (x ∷ xs)))
]

-- The result of `push`, the suffix left in the buffer.
abbrev pub settle : MavlinkFramer × Bytes → MavlinkFramer
settle r = record (r.0) { buffer = r.1 }

-- Whatever is received, the result is the state in which the loop ends, with the suffix that it
-- leaves in the buffer: the memory guard behind the loop changes nothing. The suffix has at most 279
-- bytes.
pub push-buffer :
    (f : MavlinkFramer) (xs : Bytes)
    → (push f xs ≡ settle (loop (length (f.buffer ++ xs)) f (f.buffer ++ xs)))
      × (length (push f xs).buffer < 280)
push-buffer f xs =
    let same = push_lem f xs (length (f.buffer ++ xs)) (omega arith) in
    let left = loop_rest (length (f.buffer ++ xs)) f (f.buffer ++ xs) (omega arith) in
    (same, rw same left.1)

-- Two reads are as one read of all their bytes: the messages delivered, the counters and the
-- bytes kept do not depend on how the stream is cut.
pub push-append : (f : MavlinkFramer) (xs ys : Bytes) → push (push f xs) ys ≡ push f (xs ++ ys)
push-append f xs ys =
    let n = length (f.buffer ++ xs) + length ys in
    let r = loop n f (f.buffer ++ xs) in
    let left = loop_rest n f (f.buffer ++ xs) (omega arith) in
    let whole = length-append (f.buffer ++ xs) ys in
    rw (push_lem f xs n (omega arith)) (
      push_lem (settle r) ys n (omega (arith, length-append r.1 ys))
      ∙ rw (loop-with_buffer n r.0 r.1 (r.1 ++ ys)) (
          ap settle (sym (loop-append n n f (f.buffer ++ xs) ys (omega arith) (omega arith)))
          ∙ rw append_assoc
              (sym (push_lem f (xs ++ ys) n (rw (← append_assoc _ _ _) (omega arith))))))
