-- ===== src/Keys/Tests.antt =====
-- Key files with keys of two bytes.
use open_ipc_mobile_gs.Prelude.{◌≡◌, refl, true, false, some, [], ◌∷◌, arith}
use open_ipc_mobile_gs.Keys.{
  Disk, KeyPair, GenerateCalls, generate_key_pair, validate_gs_key, judge,
}
use open_ipc_mobile_gs.Keys.Pair.{HoldsKeys, generate_key_pair-HoldsKeys}

abbrev gs_keys : KeyPair
gs_keys = record { public_key = 1 ∷ 2 ∷ []; secret_key = 3 ∷ 4 ∷ [] }

abbrev drone_keys : KeyPair
drone_keys = record { public_key = 5 ∷ 6 ∷ []; secret_key = 7 ∷ 8 ∷ [] }

abbrev good_calls : GenerateCalls
good_calls = record {
  init_ok = true;
  gs_pair = some gs_keys;
  drone_pair = some drone_keys;
  gs_write = record { opens = true; written = 4 };
  drone_write = record { opens = true; written = 4 };
}

abbrev empty_disk : Disk
empty_disk = record { files = []; error = [] }

-- A file of three bytes is refused.
short_file :
    (validate_gs_key 2 2 (record { path = []; contents = 1 ∷ 2 ∷ 3 ∷ [] } ∷ []) []).ok ≡ false
unfolding validate_gs_key judge
short_file = refl

generate_key_pair-HoldsKeys_example :
    ((generate_key_pair good_calls (b'g' ∷ []) (b'd' ∷ []) empty_disk).1 ≡ true)
    × HoldsKeys 2 2
        (generate_key_pair good_calls (b'g' ∷ []) (b'd' ∷ []) empty_disk).0.files
        (b'g' ∷ [])
        gs_keys.secret_key
        drone_keys.public_key
    × HoldsKeys 2 2
        (generate_key_pair good_calls (b'g' ∷ []) (b'd' ∷ []) empty_disk).0.files
        (b'd' ∷ [])
        drone_keys.secret_key
        gs_keys.public_key
generate_key_pair-HoldsKeys_example =
    generate_key_pair-HoldsKeys 2 2 good_calls (b'g' ∷ []) (b'd' ∷ []) gs_keys drone_keys empty_disk
      refl refl refl (refl, refl) (refl, refl) (refl, omega arith) (refl, omega arith) refl
