-- ===== src/Keys/Pair.antt =====
-- What `GenerateKeyPair` (core/src/wfb/session_keys.cpp) leaves behind, as the receiver checks it.
use mathlib.Core.Path.{subst}
use open_ipc_mobile_gs.Prelude.{
  ℕ, suc, ◌≤◌, ◌≡◌, refl, sym, ap, ◌∙◌, Bool, true, false, some, List, [], ◌∷◌, ◌++◌, arith, ltb,
  if◌then◌else◌, Bytes, length, take, drop, min, length-append, take-append_length,
  drop-append_length, take_short,
}
use open_ipc_mobile_gs.Mavlink.Router.Opening.{same_bytes}
use open_ipc_mobile_gs.Keys.{
  File, Disk, WriteCalls, KeyPair, read_file, put_file, write_file, key_file_size, judge,
  validate_contents, validate_gs_key, GenerateCalls, write_pair, generate_key_pair,
}

same_bytes_refl : (xs : Bytes) → same_bytes xs xs ≡ true
same_bytes_refl [] = refl
same_bytes_refl (x ∷ xs) = ground (arith, same_bytes_refl xs)

-- The file opens, and all bytes get there.
abbrev pub Serves : WriteCalls → ℕ → Type 0
Serves calls size = (calls.opens ≡ true) × (size ≤ calls.written)

write_file-Serves :
    (calls : WriteCalls) (d : Disk) (path bytes : Bytes)
    → Serves calls (length bytes)
    → write_file calls d path bytes ≡ (record d { files = put_file path bytes d.files }, true)
unfolding write_file
write_file-Serves calls d path bytes v =
    let enough : ltb calls.written (length bytes) ≡ false = ground (arith, v.1) in
    rw (v.0, enough, write_file)
      (ap (λ (xs : Bytes). (record d { files = put_file path xs d.files }, true))
        (take_short calls.written bytes v.1))

write_pair-Serves :
    (calls : GenerateCalls) (gs_path drone_path : Bytes) (gs drone : KeyPair) (d : Disk)
    → Serves calls.gs_write (length (gs.secret_key ++ drone.public_key))
    → Serves calls.drone_write (length (drone.secret_key ++ gs.public_key))
    → write_pair calls gs_path drone_path gs drone d ≡ (
      record d {
        files =
            put_file drone_path
              (drone.secret_key ++ gs.public_key)
              (put_file gs_path (gs.secret_key ++ drone.public_key) d.files);
      },
      true,
    )
unfolding write_pair
write_pair-Serves calls gs_path drone_path gs drone d sg sd =
    let gs_file = gs.secret_key ++ drone.public_key in
    let drone_file = drone.secret_key ++ gs.public_key in
    ap
      (λ (first : Disk × Bool).
        if first.1 then write_file calls.drone_write first.0 drone_path drone_file else first)
      (write_file-Serves calls.gs_write d gs_path gs_file sg)
    ∙ write_file-Serves calls.drone_write (record d { files = put_file gs_path gs_file d.files })
        drone_path drone_file sd

-- A pair of key files, as they stand on the disk.
module _ (secret_size public_size : ℕ) where
  abbrev pub IsKeyPair : KeyPair → Type 0
  IsKeyPair k = (length k.secret_key ≡ secret_size) × (length k.public_key ≡ public_size)

  -- The file under the path is judged well, and its two parts are these.
  abbrev pub HoldsKeys : List File → Bytes → Bytes → Bytes → Type 0
  HoldsKeys files path secret public =
      (contents : Bytes) × (read_file path files ≡ some contents)
      × ((validate_gs_key secret_size public_size files path).ok ≡ true)
      × (take secret_size contents ≡ secret)
      × (drop secret_size contents ≡ public)

  judge_full :
      (n : ℕ)
      → n ≡ key_file_size secret_size public_size
      → (judge secret_size public_size n).ok ≡ true
  unfolding judge
  judge_full n h = ground arith

  validated :
      (files : List File) (path secret public : Bytes)
      → read_file path files ≡ some (secret ++ public)
      → length secret ≡ secret_size
      → length public ≡ public_size
      → HoldsKeys files path secret public
  unfolding validate_gs_key
  validated files path secret public found s p = (
    secret ++ public,
    found,
    ap (λ c. (validate_contents secret_size public_size c).ok) found
        ∙ judge_full (min (suc (key_file_size secret_size public_size)) (length (secret ++ public)))
            (omega (arith, length-append secret public)),
    ap (λ n. take n (secret ++ public)) (sym s) ∙ take-append_length secret public,
    ap (λ n. drop n (secret ++ public)) (sym s) ∙ drop-append_length secret public,
  )

  -- If libsodium makes both pairs of keys and the file system takes both files, under different paths,
  -- then `GenerateKeyPair` succeeds, and both files pass the check of key files; the ground station's
  -- is its secret key and the air unit's public key, the air unit's is its secret key and the ground
  -- station's public key.
  pub generate_key_pair-HoldsKeys :
      (calls : GenerateCalls) (gs_path drone_path : Bytes) (gs drone : KeyPair) (d : Disk)
      → calls.init_ok ≡ true
      → calls.gs_pair ≡ some gs
      → calls.drone_pair ≡ some drone
      → IsKeyPair gs
      → IsKeyPair drone
      → Serves calls.gs_write (key_file_size secret_size public_size)
      → Serves calls.drone_write (key_file_size secret_size public_size)
      → same_bytes drone_path gs_path ≡ false
      → let p = generate_key_pair calls gs_path drone_path d in
        (p.1 ≡ true)
        × HoldsKeys p.0.files gs_path gs.secret_key drone.public_key
        × HoldsKeys p.0.files drone_path drone.secret_key gs.public_key
  unfolding generate_key_pair
  generate_key_pair-HoldsKeys calls gs_path drone_path gs drone d init hg hd kg kd sg sd apart =
      let gs_file = gs.secret_key ++ drone.public_key in
      let drone_file = drone.secret_key ++ gs.public_key in
      let size_gs = length-append gs.secret_key drone.public_key in
      let size_drone = length-append drone.secret_key gs.public_key in
      let files = put_file drone_path drone_file (put_file gs_path gs_file d.files) in
      let done : generate_key_pair calls gs_path drone_path d ≡ (record d { files = files }, true) =
        rw (init, hg, hd, generate_key_pair)
          (write_pair-Serves calls gs_path drone_path gs drone d
            (sg.0, omega (arith, sg.1, kg.0, kd.1, size_gs))
            (sd.0, omega (arith, sd.1, kd.0, kg.1, size_drone))) in
      let found_gs : read_file gs_path files ≡ some gs_file =
        rw apart (rw (same_bytes_refl gs_path) refl) in
      let found_drone : read_file drone_path files ≡ some drone_file =
        rw (same_bytes_refl drone_path) refl in
      let left = sym (ap (λ (p : Disk × Bool). p.0.files) done) in
      (
        ap (λ p. p.1) done,
        subst (λ fs. HoldsKeys fs gs_path gs.secret_key drone.public_key) left
            (validated files gs_path gs.secret_key drone.public_key found_gs kg.0 kd.1),
        subst (λ fs. HoldsKeys fs drone_path drone.secret_key gs.public_key) left
            (validated files drone_path drone.secret_key gs.public_key found_drone kd.0 kg.1),
      )
