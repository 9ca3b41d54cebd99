-- ===== src/Alink/Controller/Bounds.antt =====
-- The size of the messages that `Update` (core/src/alink/alink.cpp) writes.
use open_ipc_mobile_gs.Prelude.{
  ℕ, suc, ◌+◌, ◌≤◌, ◌≡◌, inl, inr, ◌&&◌, List, ◌∷◌, arith, ltb, if_either, length, length-append,
  length-take, length-map, Bool-cases,
}
use open_ipc_mobile_gs.Prelude.Int.{pos, ltb_ℤ}
use open_ipc_mobile_gs.Alink.Scoring.{Double}
use open_ipc_mobile_gs.Alink.Message.{message_text, print_message}
use open_ipc_mobile_gs.Alink.Controller.{
  AlinkController, AlinkResult, Occasion, make_idr_code, is_empty, request_idr, append_idr,
  evaluate, update,
}

length-print_message : (time : ℕ) (zs : List _) → length (print_message time zs) ≤ 255
unfolding print_message
length-print_message time zs = omega (arith, length-take 255 (message_text time zs))

module _ {D : Type 0} where
  append_idr-length :
      (c : AlinkController D) (r : AlinkResult D)
      → length (append_idr c r).result.message ≤ length r.message + suc (length c.idr_code)
  unfolding append_idr
  append_idr-length c r = elim (Bool-cases (is_empty c.idr_code)) [
    | inl h ↦ rw (h, append_idr) (omega arith)
    | inr h ↦ elim (Bool-cases (ltb_ℤ (pos 0) c.idr_remaining)) [
      | inl k ↦ rw (h, k, append_idr) (omega (arith, length-append r.message (b':' ∷ c.idr_code)))
      | inr k ↦ rw (h, k, append_idr) (omega arith)
    ]
  ]

  request_idr-length :
      (c : AlinkController D) (o : Occasion)
      → length o.draws ≡ 4
      → length c.idr_code ≤ 4
      → length (request_idr c o).idr_code ≤ 4
  unfolding request_idr
  request_idr-length c o four h =
      if_either (λ (x : AlinkController D). length x.idr_code ≤ 4)
        (ltb 0 o.snapshot.packets_lost && c.config.allow_idr)
        (record c { idr_code = make_idr_code o.draws; idr_remaining = c.config.idr_max_messages }) c
        (omega (arith, four, length-map o.draws (λ d. b'a' + d))) h

  pub update-length :
      (double : Double D) (c : AlinkController D) (o : Occasion)
      → length o.draws ≡ 4
      → length c.idr_code ≤ 4
      → length (update double c o).result.message ≤ 260
  unfolding update evaluate
  update-length double c o four h =
      let asked = request_idr c o in
      let e = evaluate double asked o in
      omega (
        arith,
        append_idr-length e.controller e.result,
        request_idr-length c o four h,
        length-print_message o.unix_time _,
      )
