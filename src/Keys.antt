-- ===== src/Keys.antt =====
-- The key files (core/src/wfb/session_keys.cpp): `WriteFile`, `ValidateGsKey` and `GenerateKeyPair`.
-- The file system and libsodium answer in arguments; the sizes of their keys are parameters.
pub mod Pair
mod Tests
use open_ipc_mobile_gs.Prelude.{
  ℕ, suc, ◌+◌, min, Bool, true, false, not, Option, none, some, List, [], ◌∷◌, ◌++◌, ltb, ◌==◌,
  if◌then◌else◌, Bytes, length, take,
}
use open_ipc_mobile_gs.Alink.Message.{decimal}
use open_ipc_mobile_gs.Mavlink.Router.Opening.{same_bytes}

pub record KeyValidation : Type 0 where
  pub ok : Bool
  pub error : Bytes

-- A file and what stands in it.
pub record File : Type 0 where
  pub path : Bytes
  pub contents : Bytes

-- What a run of the two functions changes: the files, and the text behind `error`.
pub record Disk : Type 0 where
  pub files : List File
  pub error : Bytes

-- How the system answers when a file is written: whether it opens, and how many bytes get there.
pub record WriteCalls : Type 0 where
  pub opens : Bool
  pub written : ℕ

pub record KeyPair : Type 0 where
  pub public_key : Bytes
  pub secret_key : Bytes

abbrev pub read_file : Bytes → List File → Option Bytes
read_file path [] = none
read_file path (f ∷ fs) =
    let rest = read_file path fs in if same_bytes f.path path then some f.contents else rest

abbrev pub put_file : Bytes → Bytes → List File → List File
put_file path contents fs = record { path = path; contents = contents } ∷ fs

-- "unable to open "
abbrev pub open_message : Bytes
open_message =
    b'u' ∷ b'n' ∷ b'a' ∷ b'b' ∷ b'l' ∷ b'e' ∷ 32 ∷ b't' ∷ b'o' ∷ 32 ∷ b'o' ∷ b'p' ∷ b'e' ∷ b'n' ∷ 32
    ∷ []

-- " for writing"
abbrev pub writing_message : Bytes
writing_message = 32 ∷ b'f' ∷ b'o' ∷ b'r' ∷ 32 ∷ b'w' ∷ b'r' ∷ b'i' ∷ b't' ∷ b'i' ∷ b'n' ∷ b'g' ∷ []

-- "short write to "
abbrev pub short_message : Bytes
short_message =
    b's' ∷ b'h' ∷ b'o' ∷ b'r' ∷ b't' ∷ 32 ∷ b'w' ∷ b'r' ∷ b'i' ∷ b't' ∷ b'e' ∷ 32 ∷ b't' ∷ b'o' ∷ 32
    ∷ []

-- `WriteFile` with an `error` to fill, and the value it returns. Opening empties the file.
unfoldable pub write_file : WriteCalls → Disk → Bytes → Bytes → Disk × Bool
write_file calls d path bytes =
    let there = record d { files = put_file path (take calls.written bytes) d.files } in
    if not calls.opens
    then (record d { error = open_message ++ path ++ writing_message }, false)
    else if ltb calls.written (length bytes)
    then (record there { error = short_message ++ path }, false)
    else (there, true)

-- The messages of `ValidateGsKey`.
abbrev pub cannot_open : Bytes
cannot_open =
    b'c' ∷ b'a' ∷ b'n' ∷ b'n' ∷ b'o' ∷ b't' ∷ 32 ∷ b'o' ∷ b'p' ∷ b'e' ∷ b'n' ∷ 32 ∷ b'k' ∷ b'e'
    ∷ b'y' ∷ 32 ∷ b'f' ∷ b'i' ∷ b'l' ∷ b'e' ∷ []

-- "key file is too "
abbrev pub key_file_is_too : Bytes
key_file_is_too =
    b'k' ∷ b'e' ∷ b'y' ∷ 32 ∷ b'f' ∷ b'i' ∷ b'l' ∷ b'e' ∷ 32 ∷ b'i' ∷ b's' ∷ 32 ∷ b't' ∷ b'o' ∷ b'o'
    ∷ 32 ∷ []

-- "short: expected "
abbrev pub short_expected : Bytes
short_expected =
    b's' ∷ b'h' ∷ b'o' ∷ b'r' ∷ b't' ∷ b':' ∷ 32 ∷ b'e' ∷ b'x' ∷ b'p' ∷ b'e' ∷ b'c' ∷ b't' ∷ b'e'
    ∷ b'd' ∷ 32 ∷ []

-- " bytes, got "
abbrev pub bytes_got : Bytes
bytes_got = 32 ∷ b'b' ∷ b'y' ∷ b't' ∷ b'e' ∷ b's' ∷ b',' ∷ 32 ∷ b'g' ∷ b'o' ∷ b't' ∷ 32 ∷ []

-- "long: expected exactly "
abbrev pub long_expected : Bytes
long_expected =
    b'l' ∷ b'o' ∷ b'n' ∷ b'g' ∷ b':' ∷ 32 ∷ b'e' ∷ b'x' ∷ b'p' ∷ b'e' ∷ b'c' ∷ b't' ∷ b'e' ∷ b'd'
    ∷ 32 ∷ b'e' ∷ b'x' ∷ b'a' ∷ b'c' ∷ b't' ∷ b'l' ∷ b'y' ∷ 32 ∷ []

-- " bytes"
abbrev pub bytes_end : Bytes
bytes_end = 32 ∷ b'b' ∷ b'y' ∷ b't' ∷ b'e' ∷ b's' ∷ []

module _ (secret_size public_size : ℕ) where
  -- `kKeyFileSize`
  abbrev pub key_file_size : ℕ
  key_file_size = secret_size + public_size

  -- What becomes of the number of bytes that `fread` got into a buffer of one byte more.
  unfoldable pub judge : ℕ → KeyValidation
  judge read =
      if ltb read key_file_size
      then record {
        ok = false;
        error =
            key_file_is_too ++ short_expected ++ decimal key_file_size ++ bytes_got ++ decimal read;
      }
      else if ltb key_file_size read
      then record {
        ok = false;
        error = key_file_is_too ++ long_expected ++ decimal key_file_size ++ bytes_end;
      }
      else record { ok = true; error = [] }

  abbrev pub validate_contents : Option Bytes → KeyValidation
  validate_contents none = record { ok = false; error = cannot_open }
  validate_contents (some contents) = judge (min (suc key_file_size) (length contents))

  unfoldable pub validate_gs_key : List File → Bytes → KeyValidation
  validate_gs_key files path = validate_contents (read_file path files)

-- "libsodium initialisation failed"
abbrev pub init_failed : Bytes
init_failed =
    b'l' ∷ b'i' ∷ b'b' ∷ b's' ∷ b'o' ∷ b'd' ∷ b'i' ∷ b'u' ∷ b'm' ∷ 32 ∷ b'i' ∷ b'n' ∷ b'i' ∷ b't'
    ∷ b'i' ∷ b'a' ∷ b'l' ∷ b'i' ∷ b's' ∷ b'a' ∷ b't' ∷ b'i' ∷ b'o' ∷ b'n' ∷ 32 ∷ b'f' ∷ b'a' ∷ b'i'
    ∷ b'l' ∷ b'e' ∷ b'd' ∷ []

-- "key generation failed"
abbrev pub generation_failed : Bytes
generation_failed =
    b'k' ∷ b'e' ∷ b'y' ∷ 32 ∷ b'g' ∷ b'e' ∷ b'n' ∷ b'e' ∷ b'r' ∷ b'a' ∷ b't' ∷ b'i' ∷ b'o' ∷ b'n'
    ∷ 32 ∷ b'f' ∷ b'a' ∷ b'i' ∷ b'l' ∷ b'e' ∷ b'd' ∷ []

-- What libsodium and the file system answer: a pair of keys for each call that succeeds.
pub record GenerateCalls : Type 0 where
  pub init_ok : Bool
  pub gs_pair : Option KeyPair
  pub drone_pair : Option KeyPair
  pub gs_write : WriteCalls
  pub drone_write : WriteCalls

-- The two files, the second only if the first was written.
unfoldable pub write_pair : GenerateCalls → Bytes → Bytes → KeyPair → KeyPair → Disk → Disk × Bool
unfolding write_file
write_pair calls gs_path drone_path gs drone d =
    let first = write_file calls.gs_write d gs_path (gs.secret_key ++ drone.public_key) in
    let second =
      write_file calls.drone_write first.0 drone_path (drone.secret_key ++ gs.public_key) in
    if first.1 then second else first

abbrev pub write_keys :
    GenerateCalls → Bytes → Bytes → Option KeyPair → Option KeyPair → Disk → Disk × Bool
write_keys calls gs_path drone_path none drone d = (record d { error = generation_failed }, false)
write_keys calls gs_path drone_path (some gs) none d =
    (record d { error = generation_failed }, false)
write_keys calls gs_path drone_path (some gs) (some drone) d =
    write_pair calls gs_path drone_path gs drone d

-- `GenerateKeyPair` with an `error` to fill.
unfoldable pub generate_key_pair : GenerateCalls → Bytes → Bytes → Disk → Disk × Bool
unfolding write_pair
generate_key_pair calls gs_path drone_path d =
    if not calls.init_ok
    then (record d { error = init_failed }, false)
    else write_keys calls gs_path drone_path calls.gs_pair calls.drone_pair d
