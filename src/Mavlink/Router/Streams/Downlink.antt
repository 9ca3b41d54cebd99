-- ===== src/Mavlink/Router/Streams/Downlink.antt =====
-- What every receiver of the downlink gets of the aircraft's stream: all of it, in order.
use open_ipc_mobile_gs.Prelude.{
  ℕ, zero, suc, ◌+◌, ◌≡◌, ◌<◌, Bool, true, false, Option, none, some, refl, sym, ap, ◌∙◌, List, [],
  ◌∷◌, ◌++◌, map, Bytes, arith, if◌then◌else◌, length, ◌==◌, add64, add64-add64, add64-zero,
  add64-lt, u64_mod, length-append,
}
use mathlib.Core.List.{append_assoc, append-nil}
use open_ipc_mobile_gs.Mavlink.Framer as Framer
use open_ipc_mobile_gs.Mavlink.Router.{
  Kind, udp_out, udp_server, tcp_server, Address, Endpoint, Sent, MavlinkRouter,
}
use open_ipc_mobile_gs.Mavlink.Router.Traffic.{
  feed_downlink, send_to_peer, send_by_kind, sends, all_sends,
}
use open_ipc_mobile_gs.Mavlink.Router.Streams.{concat, feed_all}

-- Whom an endpoint sends to: the socket and, on UDP, the address.
abbrev pub peer_receivers : ℕ → Option Address → List (ℕ × Option Address)
peer_receivers fd none = []
peer_receivers fd (some a) = (fd, some a) ∷ []

abbrev pub client_receivers : List ℕ → List (ℕ × Option Address)
client_receivers [] = []
client_receivers (c ∷ cs) = (c, none) ∷ client_receivers cs

abbrev pub receivers_by_kind : Kind → Endpoint → ℕ → List (ℕ × Option Address)
receivers_by_kind tcp_server e fd = client_receivers e.clients
receivers_by_kind udp_server e fd = peer_receivers fd e.peer
receivers_by_kind udp_out e fd = peer_receivers fd e.peer

abbrev pub receivers_on : Endpoint → Option ℕ → List (ℕ × Option Address)
receivers_on e none = []
receivers_on e (some fd) = receivers_by_kind e.config.kind e fd

abbrev pub receivers : List Endpoint → List (ℕ × Option Address)
receivers [] = []
receivers (e ∷ es) = receivers_on e e.fd ++ receivers es

-- A receiver, or some of them, chosen by a test; how often it stands among them; and the bytes that
-- it is sent.
abbrev pub hits : (ℕ → Option Address → Bool) → List (ℕ × Option Address) → ℕ
hits test [] = 0
hits test (t ∷ ts) = (if test t.0 t.1 then 1 else 0) + hits test ts

abbrev pub received_by : (ℕ → Option Address → Bool) → List Sent → Bytes
received_by test [] = []
received_by test (s ∷ ss) = (if test s.fd s.to then s.bytes else []) ++ received_by test ss

abbrev repeat : ℕ → Bytes → Bytes
repeat zero bytes = []
repeat (suc n) bytes = bytes ++ repeat n bytes

module _ (test : ℕ → Option Address → Bool) where
  received_by-append :
      (xs ys : List Sent) → received_by test (xs ++ ys) ≡ received_by test xs ++ received_by test ys
  received_by-append [] ys = refl
  received_by-append (x ∷ xs) ys =
      let one = if test x.fd x.to then x.bytes else [] in
      ap (one ++◌) (received_by-append xs ys)
      ∙ sym (append_assoc one (received_by test xs) (received_by test ys))

  hits-append :
      (ts us : List (ℕ × Option Address)) → hits test (ts ++ us) ≡ hits test ts + hits test us
  hits-append [] us = omega arith
  hits-append (t ∷ ts) us = omega (arith, hits-append ts us)

  repeat-add : (m n : ℕ) (bytes : Bytes) → repeat (m + n) bytes ≡ repeat m bytes ++ repeat n bytes
  repeat-add zero n bytes =
      let same : 0 + n ≡ n = omega arith in ap (λ (k : ℕ). repeat k bytes) same
  repeat-add (suc m) n bytes =
      let same : suc m + n ≡ suc (m + n) = omega arith in
      ap (λ (k : ℕ). repeat k bytes) same
      ∙ ap (bytes ++◌) (repeat-add m n bytes)
      ∙ sym (append_assoc bytes (repeat m bytes) (repeat n bytes))

  received_if :
      (b : Bool) (bytes : Bytes) → (if b then bytes else []) ≡ repeat (if b then 1 else 0) bytes
  received_if true bytes = sym (append-nil bytes)
  received_if false bytes = refl

  send_to_peer-received :
      (fd : ℕ) (peer : Option Address) (bytes : Bytes)
      → received_by test (send_to_peer fd peer bytes)
        ≡ repeat (hits test (peer_receivers fd peer)) bytes
  send_to_peer-received fd none bytes = refl
  send_to_peer-received fd (some a) bytes =
      let one = if test fd (some a) then 1 else 0 in
      let same : one ≡ one + 0 = omega arith in
      append-nil (if test fd (some a) then bytes else [])
      ∙ received_if (test fd (some a)) bytes
      ∙ ap (λ (k : ℕ). repeat k bytes) same

  clients-received :
      (cs : List ℕ) (bytes : Bytes)
      → received_by test (map (λ c. record { fd = c; to = none; bytes = bytes }) cs)
        ≡ repeat (hits test (client_receivers cs)) bytes
  clients-received [] bytes = refl
  clients-received (c ∷ cs) bytes =
      (λ i. received_if (test c none) bytes i ++ clients-received cs bytes i)
      ∙ sym (repeat-add (if test c none then 1 else 0) (hits test (client_receivers cs)) bytes)

  send_by_kind-received :
      (k : Kind) (e : Endpoint) (fd : ℕ) (bytes : Bytes)
      → received_by test (send_by_kind k e fd bytes)
        ≡ repeat (hits test (receivers_by_kind k e fd)) bytes
  send_by_kind-received tcp_server e fd bytes = clients-received e.clients bytes
  send_by_kind-received udp_server e fd bytes = send_to_peer-received fd e.peer bytes
  send_by_kind-received udp_out e fd bytes = send_to_peer-received fd e.peer bytes

  sends-received :
      (e : Endpoint) (o : Option ℕ) (bytes : Bytes)
      → received_by test (elim o as (λ o. List Sent) [
        | none ↦ []
        | some fd ↦ send_by_kind e.config.kind e fd bytes
      ])
        ≡ repeat (hits test (receivers_on e o)) bytes
  sends-received e none bytes = refl
  sends-received e (some fd) bytes = send_by_kind-received e.config.kind e fd bytes

  all_sends-received :
      (es : List Endpoint) (bytes : Bytes)
      → received_by test (all_sends es bytes) ≡ repeat (hits test (receivers es)) bytes
  unfolding sends
  all_sends-received [] bytes = refl
  all_sends-received (e ∷ es) bytes =
      received_by-append (sends e bytes) (all_sends es bytes)
      ∙ (λ i. sends-received e e.fd bytes i ++ all_sends-received es bytes i)
      ∙ sym (repeat-add (hits test (receivers_on e e.fd)) (hits test (receivers es)) bytes)
      ∙ ap (λ (k : ℕ). repeat k bytes) (sym (hits-append (receivers_on e e.fd) (receivers es)))

-- A call with bytes, which the test for none lets through.
fed : MavlinkRouter → Bytes → MavlinkRouter
fed r bytes = record r {
  downlink_bytes = add64 r.downlink_bytes (length bytes);
  downlink_framer = Framer.push r.downlink_framer bytes;
  sent = r.sent ++ all_sends r.endpoints bytes;
}

suc_nonzero : (n : ℕ) → (suc n == 0) ≡ false
suc_nonzero n = ground arith

feed_downlink_some :
    (r : MavlinkRouter) (b : ℕ) (bs : Bytes) → feed_downlink r (b ∷ bs) ≡ fed r (b ∷ bs)
unfolding feed_downlink fed
feed_downlink_some r b bs = λ i. if suc_nonzero (length bs) i then r else fed r (b ∷ bs)

-- What one call and several do to the router, for the receivers that the test chooses.
record IsFed (test : ℕ → Option Address → Bool) (r : MavlinkRouter) (bytes : Bytes)
    (after : MavlinkRouter) : Type 0 where
  pub same : after.endpoints ≡ r.endpoints
  pub received : received_by test after.sent ≡ received_by test r.sent ++ bytes
  pub counted : after.downlink_bytes ≡ add64 r.downlink_bytes (length bytes)
  pub fits : after.downlink_bytes < u64_mod

module _ (test : ℕ → Option Address → Bool) where
  feed_downlink-IsFed :
      (r : MavlinkRouter) (bytes : Bytes)
      → hits test (receivers r.endpoints) ≡ 1
      → r.downlink_bytes < u64_mod
      → IsFed test r bytes (feed_downlink r bytes)
  unfolding feed_downlink fed
  feed_downlink-IsFed r [] h k = record {
    same = refl;
    received = sym (append-nil (received_by test r.sent));
    counted = sym (add64-zero _ k);
    fits = k;
  }
  feed_downlink-IsFed r (b ∷ bs) h k = rw (feed_downlink_some r b bs) (record {
    same = refl;
    received =
        received_by-append test r.sent (all_sends r.endpoints (b ∷ bs))
        ∙ ap (received_by test r.sent ++◌) (
            all_sends-received test r.endpoints (b ∷ bs)
            ∙ ap (λ (n : ℕ). repeat n (b ∷ bs)) h
            ∙ append-nil (b ∷ bs));
    counted = refl;
    fits = add64-lt r.downlink_bytes (length (b ∷ bs));
  })

  feed_all-IsFed :
      (r : MavlinkRouter) (reads : List Bytes)
      → hits test (receivers r.endpoints) ≡ 1
      → r.downlink_bytes < u64_mod
      → IsFed test r (concat reads) (feed_all r reads)
  feed_all-IsFed r [] h k = record {
    same = refl;
    received = sym (append-nil (received_by test r.sent));
    counted = sym (add64-zero _ k);
    fits = k;
  }
  feed_all-IsFed r (bytes ∷ reads) h k =
      let a = feed_downlink-IsFed r bytes h k in
      let still = ap (λ (es : List Endpoint). hits test (receivers es)) a.same ∙ h in
      let b = feed_all-IsFed (feed_downlink r bytes) reads still a.fits in
      record {
        same = b.same ∙ a.same;
        received =
            b.received
            ∙ ap (λ (l : Bytes). l ++ concat reads) a.received
            ∙ append_assoc (received_by test r.sent) bytes (concat reads);
        counted =
            b.counted
            ∙ ap (λ (n : ℕ). add64 n (length (concat reads))) a.counted
            ∙ add64-add64 r.downlink_bytes (length bytes) (length (concat reads))
            ∙ ap (add64 r.downlink_bytes) (sym (length-append bytes (concat reads)));
        fits = b.fits;
      }

-- However the aircraft's stream is cut into calls, each receiver (a TCP client, or a UDP peer at its
-- address) that the endpoints hold once is sent all its bytes, in order, and the downlink's byte
-- count grows by their number, modulo 2^64.
pub feed_all-received_by :
    (r : MavlinkRouter) (reads : List Bytes) (test : ℕ → Option Address → Bool)
    → hits test (receivers r.endpoints) ≡ 1
    → r.downlink_bytes < u64_mod
    → (received_by test (feed_all r reads).sent ≡ received_by test r.sent ++ concat reads)
      × ((feed_all r reads).downlink_bytes ≡ add64 r.downlink_bytes (length (concat reads)))
feed_all-received_by r reads test h k =
    let v = feed_all-IsFed test r reads h k in (v.received, v.counted)
