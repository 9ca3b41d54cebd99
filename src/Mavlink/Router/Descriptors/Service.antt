-- ===== src/Mavlink/Router/Descriptors/Service.antt =====
-- A round of the poll loop keeps the balance of the descriptors.
use open_ipc_mobile_gs.Prelude.{
  if_either, ℕ, ◌≡◌, Bool, not, true, false, Option, none, some, refl, ap, List, [], ◌∷◌, ◌++◌,
  Bytes, arith, get_elem?,
}
use open_ipc_mobile_gs.Mavlink.Router.{
  Kind, udp_out, udp_server, tcp_server, MavlinkRouter, endpoint_fds, Endpoint, Address,
}
use open_ipc_mobile_gs.Mavlink.Router.Opening.{SocketCalls, rebuild_endpoints}
use open_ipc_mobile_gs.Mavlink.Router.Traffic.{handle_endpoint_data}
use open_ipc_mobile_gs.Mavlink.Router.Poll.{
  Slot, Received, failed, bytes_from, Answer, Served, take_data, handle_client, accept_client,
  learn_peer, handle_datagram, handle_socket, handle_present, handle_slot, handle_slots, slots,
  serve, poll_once, Polled, interrupted, broken, timed_out, woken,
}
use open_ipc_mobile_gs.Mavlink.Router.Descriptors.Balance.{
  count, counts, count-set, IsServing, rebuild_endpoints-IsServing, close_clients-IsServing,
  handle_endpoint_data-IsHandled,
}

option_either :
    {A B : Type 0} (P : B → Type 0) (o : Option A) (n : B) (f : A → B)
    → P n
    → ((a : A) → o ≡ some a → P (f a))
    → P (elim o as (λ o. B) [ none ↦ n | some a ↦ f a ])
option_either P none n f p q = p
option_either P (some a) n f p q = q a refl

module _ (x : ℕ) (slot : Slot) where
  take_data-IsServing :
      (r : MavlinkRouter) (to_close : List ℕ) (held e : Endpoint) (bytes : Bytes)
      → get_elem? r.endpoints slot.endpoint ≡ some held
      → endpoint_fds e ≡ endpoint_fds held
      → IsServing x r
      → IsServing x (take_data (r, to_close) slot.endpoint e bytes).0
  unfolding take_data
  take_data-IsServing r to_close held e bytes here same h =
      let done = handle_endpoint_data r e bytes in
      let v = handle_endpoint_data-IsHandled x r e bytes h in
      let at : get_elem? done.0.endpoints slot.endpoint ≡ some held = rw v.endpoints here in
      let moved = count-set x done.0.endpoints slot.endpoint held done.1 at in
      (omega (arith, moved, v.serving.0, ap (count x) v.fds, ap (count x) same), v.serving.1)

  module _ (r : MavlinkRouter) (to_close : List ℕ) (e : Endpoint)
      (here : get_elem? r.endpoints slot.endpoint ≡ some e) (h : IsServing x r) where
    handle_client-IsServing : (v : Received) → IsServing x (handle_client (r, to_close) slot e v).0
    unfolding handle_client
    handle_client-IsServing failed = h
    handle_client-IsServing (bytes_from a []) = h
    handle_client-IsServing (bytes_from a (b ∷ bs)) =
        take_data-IsServing r to_close e e (b ∷ bs) here refl h

    accept_client-IsServing : (v : Option ℕ) → IsServing x (accept_client (r, to_close) slot e v).0
    unfolding accept_client
    accept_client-IsServing none = h
    accept_client-IsServing (some c) =
        let e' = record e { clients = e.clients ++ (c ∷ []) } in
        (omega (counts, count-set x r.endpoints slot.endpoint e e' here, h.0), h.1)

    learn_peer-fds :
        (k : Kind) (from : Address) → endpoint_fds (learn_peer k e from) ≡ endpoint_fds e
    learn_peer-fds udp_server from = refl
    learn_peer-fds udp_out from = refl
    learn_peer-fds tcp_server from = refl

    handle_datagram-IsServing :
        (v : Received) → IsServing x (handle_datagram (r, to_close) slot e v).0
    unfolding handle_datagram
    handle_datagram-IsServing failed = h
    handle_datagram-IsServing (bytes_from a []) = h
    handle_datagram-IsServing (bytes_from a (b ∷ bs)) =
        take_data-IsServing r to_close e (learn_peer e.config.kind e a) (b ∷ bs) here
          (learn_peer-fds e.config.kind a) h

    handle_socket-IsServing :
        (k : Kind) (a : Answer) → IsServing x (handle_socket k (r, to_close) slot e a).0
    unfolding handle_socket
    handle_socket-IsServing tcp_server a = accept_client-IsServing a.accepted
    handle_socket-IsServing udp_server a = handle_datagram-IsServing a.received
    handle_socket-IsServing udp_out a = handle_datagram-IsServing a.received

    handle_present-IsServing : (a : Answer) → IsServing x (handle_present (r, to_close) slot a e).0
    unfolding handle_present
    handle_present-IsServing a =
        let P = λ (round : Served). IsServing x round.0 in
        if_either P slot.is_client _ _
          (if_either P a.hung_up (r, to_close ++ (slot.fd ∷ [])) _ h
            (handle_client-IsServing a.received))
          (if_either P (not a.readable) (r, to_close) _ h (handle_socket-IsServing e.config.kind a))

  handle_slot-IsServing :
      (r : MavlinkRouter) (to_close : List ℕ) (a : Answer)
      → IsServing x r
      → IsServing x (handle_slot (r, to_close) slot a).0
  unfolding handle_slot
  handle_slot-IsServing r to_close a h =
      let P = λ (round : Served). IsServing x round.0 in
      if_either P (not a.any) (r, to_close) _ h
        (option_either P (get_elem? r.endpoints slot.endpoint) (r, to_close) _ h
          (λ e here. handle_present-IsServing r to_close e here h a))

handle_slots-IsServing :
    (x : ℕ) (round : Served) (ss : List Slot) (answers : List Answer)
    → IsServing x round.0
    → IsServing x (handle_slots round ss answers).0
unfolding handle_slots
handle_slots-IsServing x round [] answers h = h
handle_slots-IsServing x round (s ∷ ss) [] h = h
handle_slots-IsServing x (r, to_close) (s ∷ ss) (a ∷ rest) h =
    handle_slots-IsServing x (handle_slot (r, to_close) s a) ss rest
      (handle_slot-IsServing x s r to_close a h)

serve-IsServing :
    (x : ℕ) (r : MavlinkRouter) (answers : List Answer)
    → IsServing x r
    → IsServing x (serve r answers)
unfolding serve
serve-IsServing x r answers h =
    let round = handle_slots (r, []) (slots 0 r.endpoints) answers in
    close_clients-IsServing x round.0 round.1
      (handle_slots-IsServing x (r, []) (slots 0 r.endpoints) answers h)

pub poll_once-IsServing :
    (x : ℕ) (inet_pton : Bytes → Option ℕ) (calls : ℕ → SocketCalls) (still : Bool) (p : Polled)
    (r : MavlinkRouter)
    → IsServing x r
    → IsServing x (poll_once inet_pton calls still p r).0
unfolding poll_once
poll_once-IsServing x inet_pton calls still interrupted r h =
    rebuild_endpoints-IsServing x inet_pton calls r h
poll_once-IsServing x inet_pton calls still broken r h =
    rebuild_endpoints-IsServing x inet_pton calls r h
poll_once-IsServing x inet_pton calls still timed_out r h =
    rebuild_endpoints-IsServing x inet_pton calls r h
poll_once-IsServing x inet_pton calls still (woken wake answers) r h =
    let P = λ (d : MavlinkRouter × Bool). IsServing x d.0 in
    let rebuilt = rebuild_endpoints inet_pton calls r in
    let v = rebuild_endpoints-IsServing x inet_pton calls r h in
    if_either P (not still) (rebuilt, false) _ v
      (if_either P wake (rebuilt, true) (serve rebuilt answers, true) v
        (serve-IsServing x rebuilt answers v))
