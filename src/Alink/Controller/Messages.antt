-- ===== src/Alink/Controller/Messages.antt =====
-- What a reader gets out of the messages that `Update` (core/src/alink/alink.cpp) writes.
use mathlib.Core.Path.{subst}
use mathlib.Core.List.{append_assoc, append-nil}
use open_ipc_mobile_gs.Prelude.{
  ℕ, ◌<◌, ◌≡◌, refl, sym, ap, ◌∙◌, inl, inr, false, ◌&&◌, List, [], ◌∷◌, ◌++◌, map, arith, Bytes,
  ltb, if_either, length, take, drop, Bool-cases, u64_mod,
}
use open_ipc_mobile_gs.Prelude.Int.{ℤ, pos, ltb_ℤ}
use open_ipc_mobile_gs.Alink.Scoring.{Double, whole}
use open_ipc_mobile_gs.Alink.Message.{decimal, decimal_ℤ, fields_text, message_text}
use open_ipc_mobile_gs.Alink.Message.Reading.{
  value, read_ℤ, split_colons, IsPlain, value-decimal, decimal-IsPlain, decimal_ℤ-IsPlain,
  read_ℤ-decimal_ℤ, split_colons-plain, split_colons-last,
}
use open_ipc_mobile_gs.Alink.Message.Size.{AllSigned, print_message-whole}
use open_ipc_mobile_gs.Alink.Controller.{
  AlinkController, AlinkResult, Occasion, make_idr_code, is_empty, request_idr, append_idr,
  fields_of, evaluate, update,
}

-- A message as its reader sees it: the time, the nine fields, and what stands behind them.
pub record Reading : Type 0 where
  pub time : ℕ
  pub fields : List ℤ
  pub keys : List Bytes

sort_parts : List Bytes → Reading
sort_parts [] = record { time = 0; fields = []; keys = [] }
sort_parts (part ∷ parts) = record {
  time = value 0 part;
  fields = map read_ℤ (take 9 parts);
  keys = drop 9 parts;
}

pub read_message : Bytes → Reading
read_message text = sort_parts (split_colons [] text)

-- A code, as the parts of the message that carry it.
abbrev pub keys_of : Bytes → List Bytes
keys_of [] = []
keys_of (c ∷ cs) = (c ∷ cs) ∷ []

abbrev texts_of : List Bytes → Bytes
texts_of [] = []
texts_of (k ∷ ks) = (b':' ∷ k) ++ texts_of ks

abbrev AllPlain : List Bytes → Type 0
AllPlain [] = Unit
AllPlain (k ∷ ks) = IsPlain k × AllPlain ks

split_colons-texts :
    (xs : Bytes) (ks : List Bytes)
    → IsPlain xs
    → AllPlain ks
    → split_colons [] (xs ++ texts_of ks) ≡ xs ∷ ks
split_colons-texts xs [] v w = ap (split_colons []) (append-nil xs) ∙ split_colons-last [] xs v
split_colons-texts xs (k ∷ ks) v w =
    split_colons-plain [] xs (k ++ texts_of ks) v ∙ ap (xs ∷◌) (split_colons-texts k ks w.0 w.1)

texts_of-fields :
    (zs : List ℤ) (ks : List Bytes)
    → fields_text zs ++ texts_of ks ≡ texts_of (map decimal_ℤ zs ++ ks)
texts_of-fields [] ks = refl
texts_of-fields (z ∷ zs) ks =
    append_assoc (b':' ∷ decimal_ℤ z) (fields_text zs) (texts_of ks)
    ∙ ap ((b':' ∷ decimal_ℤ z) ++◌) (texts_of-fields zs ks)

AllPlain-fields : (zs : List ℤ) (ks : List Bytes) → AllPlain ks → AllPlain (map decimal_ℤ zs ++ ks)
AllPlain-fields [] ks w = w
AllPlain-fields (z ∷ zs) ks w = (decimal_ℤ-IsPlain z, AllPlain-fields zs ks w)

read-map : (zs : List ℤ) → map read_ℤ (map decimal_ℤ zs) ≡ zs
read-map [] = refl
read-map (z ∷ zs) = λ i. read_ℤ-decimal_ℤ z i ∷ read-map zs i

split_colons-message :
    (time : ℕ) (zs : List ℤ) (ks : List Bytes)
    → AllPlain ks
    → split_colons [] (message_text time zs ++ texts_of ks) ≡ decimal time ∷ map decimal_ℤ zs ++ ks
unfolding message_text
split_colons-message time zs ks w =
    ap (split_colons []) (
      append_assoc (decimal time) (fields_text zs) (texts_of ks)
      ∙ ap (decimal time ++◌) (texts_of-fields zs ks))
    ∙ split_colons-texts (decimal time) (map decimal_ℤ zs ++ ks) (decimal-IsPlain time)
        (AllPlain-fields zs ks w)

take-fields :
    (zs : List ℤ) (ks : List Bytes) → take (length zs) (map decimal_ℤ zs ++ ks) ≡ map decimal_ℤ zs
take-fields [] ks = refl
take-fields (z ∷ zs) ks = ap (decimal_ℤ z ∷◌) (take-fields zs ks)

drop-fields : (zs : List ℤ) (ks : List Bytes) → drop (length zs) (map decimal_ℤ zs ++ ks) ≡ ks
drop-fields [] ks = refl
drop-fields (z ∷ zs) ks = drop-fields zs ks

read_message-text :
    (time : ℕ) (zs : List ℤ) (ks : List Bytes)
    → AllPlain ks
    → length zs ≡ 9
    → read_message (message_text time zs ++ texts_of ks)
      ≡ record { time = time; fields = zs; keys = ks }
unfolding read_message sort_parts
read_message-text time zs ks w nine = ap sort_parts (split_colons-message time zs ks w) ∙ λ i.
    record {
      time = value-decimal time i;
      fields =
          (ap (λ n. map read_ℤ (take n (map decimal_ℤ zs ++ ks))) (sym nine)
              ∙ ap (map read_ℤ) (take-fields zs ks)
              ∙ read-map zs)
            i;
      keys = (ap (λ n. drop n (map decimal_ℤ zs ++ ks)) (sym nine) ∙ drop-fields zs ks) i;
    }

keys_of-AllPlain : (code : Bytes) → IsPlain code → AllPlain (keys_of code)
keys_of-AllPlain [] v = tt
keys_of-AllPlain (c ∷ cs) v = (v, tt)

filled-texts_of : (code : Bytes) → is_empty code ≡ false → b':' ∷ code ≡ texts_of (keys_of code)
filled-texts_of [] h = ground arith
filled-texts_of (c ∷ cs) h = sym (append-nil (b':' ∷ c ∷ cs))

-- The message with a code behind it, or with none.
module _ {D : Type 0} where
  append_idr-keys :
      (c : AlinkController D) (r : AlinkResult D)
      → r.idr_code ≡ []
      → IsPlain c.idr_code
      → (code : Bytes) × IsPlain code
        × ((append_idr c r).result
            ≡ record r { message = r.message ++ texts_of (keys_of code); idr_code = code })
  unfolding append_idr
  append_idr-keys c r e v =
      let same : r ≡ record r { message = r.message ++ []; idr_code = [] } =
        λ i. record r { message = sym (append-nil r.message) i; idr_code = e i } in
      elim (Bool-cases (is_empty c.idr_code)) [
        | inl h ↦ ([], tt, rw (h, append_idr) same)
        | inr h ↦ elim (Bool-cases (ltb_ℤ (pos 0) c.idr_remaining)) [
          | inl k ↦ (
            c.idr_code,
            v,
            rw (h, k, append_idr)
                (λ i. record r {
                  message = r.message ++ filled-texts_of c.idr_code h i;
                  idr_code = c.idr_code;
                }),
          )
          | inr k ↦ ([], tt, rw (h, k, append_idr) same)
        ]
      ]

-- Every draw is a letter of the alphabet.
abbrev pub AllLetters : List ℕ → Type 0
AllLetters [] = Unit
AllLetters (d ∷ ds) = (d < 26) × AllLetters ds

make_idr_code-IsPlain : (draws : List ℕ) → AllLetters draws → IsPlain (make_idr_code draws)
make_idr_code-IsPlain [] v = tt
make_idr_code-IsPlain (d ∷ ds) v = (λ e. absurd (omega (arith, e)), make_idr_code-IsPlain ds v.1)

pub request_idr-IsPlain :
    {D : Type 0} (c : AlinkController D) (o : Occasion)
    → IsPlain c.idr_code
    → AllLetters o.draws
    → IsPlain (request_idr c o).idr_code
unfolding request_idr
request_idr-IsPlain c o v w =
    if_either (λ (x : AlinkController _). IsPlain x.idr_code)
      (ltb 0 o.snapshot.packets_lost && c.config.allow_idr)
      (record c { idr_code = make_idr_code o.draws; idr_remaining = c.config.idr_max_messages }) c
      (make_idr_code-IsPlain o.draws w) v

-- The whole numbers that a reader expects of the message, in order: the score twice, the recovered
-- and the lost packets, the best RSSI and SNR, the antennas, the penalty and the FEC change.
abbrev pub figures : {D : Type 0} → Double D → Occasion → AlinkResult D → List ℤ
figures double o r =
    r.score
    ∷ r.score
    ∷ double.truncate (whole double o.snapshot.packets_fec_recovered)
    ∷ double.truncate (whole double o.snapshot.packets_lost)
    ∷ o.snapshot.best_rssi
    ∷ o.snapshot.best_snr
    ∷ pos o.snapshot.num_antennas
    ∷ double.truncate r.penalty
    ∷ r.fec_change
    ∷ []

-- What the message of a result holds, if the time and the figures fit their machine integers.
IsReadable : {D : Type 0} → Double D → Occasion → AlinkResult D → Type 0
IsReadable double o r =
    AllSigned (figures double o r)
    → read_message r.message
      ≡ record { time = o.unix_time; fields = figures double o r; keys = keys_of r.idr_code }

module _ {D : Type 0} (double : Double D) where
  evaluate-keys :
      (c : AlinkController D) (o : Occasion) (code : Bytes)
      → IsPlain code
      → o.unix_time < u64_mod
      → let r = (evaluate double c o).result in
        IsReadable double o
          (record r { message = r.message ++ texts_of (keys_of code); idr_code = code })
  unfolding evaluate IsReadable fields_of
  evaluate-keys c o code v t signed =
      let r = (evaluate double c o).result in
      let fields = figures double o r in
      ap (λ text. read_message (text ++ texts_of (keys_of code)))
        (print_message-whole o.unix_time fields t (omega arith) signed)
      ∙ read_message-text o.unix_time fields (keys_of code) (keys_of-AllPlain code v) refl

-- Whatever the state, a reader of the message gets the time, the score twice, the recovered and lost
-- packets, the best RSSI and SNR, the antennas, the penalty and the FEC change as the result and the
-- snapshot have them, cut to whole numbers, and behind them the code of the result, if there is one;
-- provided that the time fits 64 bits and the whole numbers 32, that the draws are below 26 and that
-- the code in force has no colon.
pub update-read_message :
    {D : Type 0} (double : Double D) (c : AlinkController D) (o : Occasion)
    → o.unix_time < u64_mod
    → AllLetters o.draws
    → IsPlain c.idr_code
    → AllSigned (figures double o (update double c o).result)
    → read_message (update double c o).result.message ≡ record {
      time = o.unix_time;
      fields = figures double o (update double c o).result;
      keys = keys_of (update double c o).result.idr_code;
    }
unfolding update evaluate IsReadable
update-read_message double c o t w v =
    let asked = request_idr c o in
    let e = evaluate double asked o in
    let k = append_idr-keys e.controller e.result refl (request_idr-IsPlain c o v w) in
    subst (IsReadable double o) (sym k.2) (evaluate-keys double asked o k.0 k.1 t)
