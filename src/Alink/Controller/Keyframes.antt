-- ===== src/Alink/Controller/Keyframes.antt =====
-- The requests of keyframes that `Update` (core/src/alink/alink.cpp) makes.
use open_ipc_mobile_gs.Prelude.{
  ℕ, zero, suc, ◌≡◌, refl, sym, ap, ◌∙◌, true, false, List, [], ◌∷◌, map, arith, Bytes, length, inl,
  inr, Bool-cases, lt→ltb, ◌<◌, u64_mod, if_either,
}
use mathlib.Core.Path.{subst}
use open_ipc_mobile_gs.Prelude.Int.{ℤ, pos, pos_part, ltb_ℤ, ◌-ℤ◌}
use open_ipc_mobile_gs.Alink.Scoring.{Double}
use open_ipc_mobile_gs.Alink.Controller.{
  AlinkController, AlinkResult, Occasion, make_idr_code, is_empty, request_idr, append_idr,
  evaluate, update, update_all,
}
use open_ipc_mobile_gs.Alink.Message.Reading.{IsPlain}
use open_ipc_mobile_gs.Alink.Message.Size.{AllSigned}
use open_ipc_mobile_gs.Alink.Controller.Messages.{
  read_message, keys_of, figures, AllLetters, request_idr-IsPlain, update-read_message,
}

-- The snapshots report no loss.
abbrev pub AllQuiet : List Occasion → Type 0
AllQuiet [] = Unit
AllQuiet (o ∷ os) = (o.snapshot.packets_lost ≡ 0) × AllQuiet os

-- The first `count` of `total` messages carry the code, the others none.
abbrev pub carried : ℕ → ℕ → Bytes → List Bytes
carried count zero code = []
carried zero (suc total) code = [] ∷ carried zero total code
carried (suc count) (suc total) code = code ∷ carried count total code

spend : (z : ℤ) (n : ℕ) → pos_part z ≡ suc n → z -ℤ pos 1 ≡ pos n
unfolding ◌-ℤ◌
spend z n h = ground arith

more : (n : ℕ) → 0 < n → ltb_ℤ (pos 0) (pos n) ≡ true
more n h = ground arith

module _ {D : Type 0} where
  -- There are `n` messages left for the code.
  abbrev IsLeft : ℕ → Bytes → AlinkController D → Type 0
  IsLeft n code c = (pos_part c.idr_remaining ≡ n) × (0 < n → c.idr_code ≡ code)

  quiet-request_idr :
      (c : AlinkController D) (o : Occasion) → o.snapshot.packets_lost ≡ 0 → request_idr c o ≡ c
  unfolding request_idr
  quiet-request_idr c o q = rw q refl

  loss-request_idr :
      (c : AlinkController D) (o : Occasion)
      → 0 < o.snapshot.packets_lost
      → c.config.allow_idr ≡ true
      → IsLeft (pos_part c.config.idr_max_messages) (make_idr_code o.draws) (request_idr c o)
  unfolding request_idr
  loss-request_idr c o q h = rw (lt→ltb 0 o.snapshot.packets_lost q, h) (refl, λ _. refl)

  append_idr_spent :
      (code : Bytes) (c : AlinkController D) (r : AlinkResult D)
      → r.idr_code ≡ []
      → IsLeft 0 code c
      → ((append_idr c r).result.idr_code ≡ []) × IsLeft 0 code (append_idr c r).controller
  unfolding append_idr
  append_idr_spent code c r e l =
      let nothing_left : ltb_ℤ (pos 0) c.idr_remaining ≡ false = ground (arith, l.0) in
      elim (Bool-cases (is_empty c.idr_code)) [
        | inl h ↦ rw (h, append_idr) (e, l)
        | inr h ↦ rw (h, nothing_left, append_idr) (e, l)
      ]

  append_idr-IsLeft :
      (n : ℕ) (code : Bytes) (c : AlinkController D) (r : AlinkResult D)
      → is_empty code ≡ false
      → IsLeft (suc n) code c
      → ((append_idr c r).result.idr_code ≡ code) × IsLeft n code (append_idr c r).controller
  unfolding append_idr ◌-ℤ◌
  append_idr-IsLeft n code c r h l =
      let same : c.idr_code ≡ code = l.1 (omega arith) in
      let filled : is_empty c.idr_code ≡ false = ap is_empty same ∙ h in
      let some_left : ltb_ℤ (pos 0) c.idr_remaining ≡ true = ground (arith, l.0) in
      rw (filled, some_left, spend c.idr_remaining n l.0, append_idr)
        (same, (refl, λ m. rw (more n m) same))

  module _ (double : Double D) where
    abbrev pub codes : AlinkController D → List Occasion → List Bytes
    codes c os = map (λ r. r.idr_code) (update_all double c os)

  -- One update without a loss, when `n` messages are left for the code.
  module _ (double : Double D) where
    update-IsLeft :
        (n : ℕ) (code : Bytes) (c : AlinkController D) (o : Occasion)
        → is_empty code ≡ false
        → IsLeft (suc n) code (request_idr c o)
        → ((update double c o).result.idr_code ≡ code)
          × IsLeft n code (update double c o).controller
    unfolding update evaluate
    update-IsLeft n code c o h l =
        let e = evaluate double (request_idr c o) o in
        append_idr-IsLeft n code e.controller e.result h l

    update_spent :
        (code : Bytes) (c : AlinkController D) (o : Occasion)
        → IsLeft 0 code (request_idr c o)
        → ((update double c o).result.idr_code ≡ []) × IsLeft 0 code (update double c o).controller
    unfolding update evaluate
    update_spent code c o l =
        let e = evaluate double (request_idr c o) o in
        append_idr_spent code e.controller e.result refl l

    -- An update and those behind it, of which the codes are known.
    codes-step :
        (n : ℕ) (code : Bytes) (c : AlinkController D) (o : Occasion) (os : List Occasion)
        → is_empty code ≡ false
        → ((k : ℕ) (next : AlinkController D)
            → IsLeft k code next
            → codes double next os ≡ carried k (length os) code)
        → IsLeft n code (request_idr c o)
        → codes double c (o ∷ os) ≡ carried n (suc (length os)) code
    codes-step zero code c o os h behind l =
        let u = update_spent code c o l in
        let rest = behind zero (update double c o).controller u.1 in λ i. u.0 i ∷ rest i
    codes-step (suc n) code c o os h behind l =
        let u = update-IsLeft n code c o h l in
        let rest = behind n (update double c o).controller u.1 in λ i. u.0 i ∷ rest i

    codes-carried :
        (code : Bytes) (os : List Occasion)
        → is_empty code ≡ false
        → AllQuiet os
        → (n : ℕ) (c : AlinkController D) → IsLeft n code c
        → codes double c os ≡ carried n (length os) code
    codes-carried code [] h q n c l = refl
    codes-carried code (o ∷ os) h q n c l =
        codes-step n code c o os h (codes-carried code os h q.1)
          (subst (IsLeft n code) (sym (quiet-request_idr c o q.0)) l)

filled : (draws : List ℕ) → length draws ≡ 4 → is_empty (make_idr_code draws) ≡ false
filled [] h = absurd (omega arith)
filled (d ∷ ds) h = refl

result-codes :
    {D : Type 0} (double : Double D) (c : AlinkController D) (o : Occasion) (os : List Occasion)
    → c.config.allow_idr ≡ true
    → 0 < o.snapshot.packets_lost
    → length o.draws ≡ 4
    → AllQuiet os
    → codes double c (o ∷ os)
      ≡ carried (pos_part c.config.idr_max_messages) (suc (length os)) (make_idr_code o.draws)
result-codes double c o os allow loss four quiet =
    let code = make_idr_code o.draws in
    let some_code = filled o.draws four in
    codes-step double (pos_part c.config.idr_max_messages) code c o os some_code
      (codes-carried double code os some_code quiet) (loss-request_idr c o loss allow)

module _ {D : Type 0} (double : Double D) where
  -- What a reader finds behind the nine fields of each message.
  abbrev pub message_keys : AlinkController D → List Occasion → List (List Bytes)
  message_keys c os = map (λ r. (read_message r.message).keys) (update_all double c os)

  -- In each update, the time and the figures fit their machine integers and the draws are letters.
  abbrev pub AllReadable : AlinkController D → List Occasion → Type 0
  AllReadable c [] = Unit
  AllReadable c (o ∷ os) =
      (o.unix_time < u64_mod)
      × AllLetters o.draws
      × AllSigned (figures double o (update double c o).result)
      × AllReadable (update double c o).controller os

  append_idr-IsPlain :
      (c : AlinkController D) (r : AlinkResult D)
      → IsPlain c.idr_code
      → IsPlain (append_idr c r).controller.idr_code
  unfolding append_idr
  append_idr-IsPlain c r v = elim (Bool-cases (is_empty c.idr_code)) [
    | inl h ↦ rw (h, append_idr) v
    | inr h ↦ elim (Bool-cases (ltb_ℤ (pos 0) c.idr_remaining)) [
      | inl k ↦
          rw (h, k, append_idr)
            (if_either IsPlain (ltb_ℤ (pos 0) (c.idr_remaining -ℤ pos 1)) c.idr_code [] v tt)
      | inr k ↦ rw (h, k, append_idr) v
    ]
  ]

  update-IsPlain :
      (c : AlinkController D) (o : Occasion)
      → IsPlain c.idr_code
      → AllLetters o.draws
      → IsPlain (update double c o).controller.idr_code
  unfolding update evaluate
  update-IsPlain c o v w =
      let e = evaluate double (request_idr c o) o in
      append_idr-IsPlain e.controller e.result (request_idr-IsPlain c o v w)

  message_keys-codes :
      (c : AlinkController D) (os : List Occasion)
      → IsPlain c.idr_code
      → AllReadable c os
      → message_keys c os ≡ map keys_of (codes double c os)
  message_keys-codes c [] v w = refl
  message_keys-codes c (o ∷ os) v w =
      let read = update-read_message double c o w.0 w.1 v w.2 in
      let rest =
        message_keys-codes (update double c o).controller os (update-IsPlain c o v w.1) w.3 in
      λ i. (read i).keys ∷ rest i

-- A snapshot that reports a loss makes a code if the configuration allows it, and when the snapshots
-- behind it report none, a reader finds the code behind the nine fields of the first
-- `idr_max_messages` messages from then on (of none, if that number is not positive), and nothing
-- behind those of any later one; the results name the same codes. The draws are four letters, the
-- times and figures fit their machine integers, and the code in force before has no colon.
pub codes-loss :
    {D : Type 0} (double : Double D) (c : AlinkController D) (o : Occasion) (os : List Occasion)
    → c.config.allow_idr ≡ true
    → 0 < o.snapshot.packets_lost
    → length o.draws ≡ 4
    → AllQuiet os
    → IsPlain c.idr_code
    → AllReadable double c (o ∷ os)
    → let due =
        carried (pos_part c.config.idr_max_messages) (suc (length os)) (make_idr_code o.draws) in
      (message_keys double c (o ∷ os) ≡ map keys_of due) × (codes double c (o ∷ os) ≡ due)
codes-loss double c o os allow loss four quiet plain fit =
    let due = result-codes double c o os allow loss four quiet in
    (message_keys-codes double c (o ∷ os) plain fit ∙ ap (map keys_of) due, due)
