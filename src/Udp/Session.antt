-- ===== src/Udp/Session.antt =====
-- A session of the UDP source (gslib/src/main/cpp/udp_source.cpp), and what the station
-- (gslib/src/main/cpp/ground_station.cpp) makes of it.
use open_ipc_mobile_gs.Rtp.Depacketizer as Rtp
use open_ipc_mobile_gs.Prelude.{
  ℕ, ◌≤◌, ◌<◌, ◌≡◌, refl, sym, ap, ◌∙◌, true, false, not, ◌||◌, Option, none, some, List, [], ◌∷◌,
  ◌++◌, ◌==◌, if◌then◌else◌, if_either, inl, inr, Bool-cases, arith, Bytes, length, take,
  take_short,
}
use mathlib.Core.List.{append_assoc, append-nil}
use open_ipc_mobile_gs.Alink.Message.{decimal_ℤ}
use open_ipc_mobile_gs.Mavlink.Router.{fd_list}
use open_ipc_mobile_gs.Mavlink.Router.Opening.{same_bytes, any_host}
use open_ipc_mobile_gs.Ground.{UdpSourceConfig, GroundStation}
use open_ipc_mobile_gs.Ground.Payloads.{on_video_payload, on_datagram}
use open_ipc_mobile_gs.Ground.Payloads.Dispatch.{each}
use open_ipc_mobile_gs.Udp.{
  UdpSource, make_udp_source, UdpCalls, is_address, invalid_address, no_bind, give_up, bind_socket,
  start_on, udp_start, udp_stop, Reception, not_ready, recv_failed, datagram, receive, udp_loop,
}

-- Each socket opened is closed, but the one that a running source holds.
abbrev Balanced : UdpSource → Type 0
Balanced s = (s.opened ≡ s.closed ++ fd_list s.fd) × (s.running ≡ false → s.fd ≡ none)

positive : (n : ℕ) → 0 < n → (n == 0) ≡ false
positive n h = ground arith

contradiction : true ≡ false → ⊥
contradiction h = ground arith

give_up-Balanced :
    (s : UdpSource) (fd : ℕ) (error : Bytes) → s.opened ≡ s.closed → Balanced (give_up s fd error).0
give_up-Balanced s fd error h =
    (ap (◌++ (fd ∷ [])) h ∙ sym (append-nil (s.closed ++ (fd ∷ []))), λ _. refl)

bind_socket-Balanced :
    (calls : UdpCalls) (s : UdpSource) (fd : ℕ)
    → s.opened ≡ s.closed
    → Balanced (bind_socket calls s fd).0
unfolding bind_socket
bind_socket-Balanced calls s fd h =
    let host = s.config.bind_addr in
    let Fine = λ (p : UdpSource × Option Bytes). Balanced p.0 in
    if_either Fine
      (not (same_bytes host [] || same_bytes host any_host || is_address (calls.inet_pton host))) _
      _ (give_up-Balanced s fd (invalid_address ++ host) h)
      (if_either Fine (not calls.bind_ok) _ _
        (give_up-Balanced s fd (no_bind ++ decimal_ℤ s.config.video_port) h)
        (ap (◌++ (fd ∷ [])) h, λ off. absurd (contradiction off)))

start_on-Balanced :
    (calls : UdpCalls) (s : UdpSource) (socket : Option ℕ)
    → s.opened ≡ s.closed
    → Balanced (start_on calls s socket).0
start_on-Balanced calls s none h = (h ∙ sym (append-nil s.closed), λ _. refl)
start_on-Balanced calls s (some fd) h = bind_socket-Balanced calls s fd h

receive-Balanced : (s : UdpSource) (p : Reception) → Balanced s → Balanced (receive s p)
receive-Balanced s not_ready v = v
receive-Balanced s recv_failed v = v
receive-Balanced s (datagram bytes) v =
    if_either Balanced (length (take 2048 bytes) == 0) s
      (record s { delivered = s.delivered ++ (take 2048 bytes ∷ []) }) v v

udp_loop-Balanced : (s : UdpSource) (ps : List Reception) → Balanced s → Balanced (udp_loop s ps)
unfolding udp_loop
udp_loop-Balanced s [] v = v
udp_loop-Balanced s (p ∷ ps) v =
    if_either Balanced (not s.running) s (udp_loop (receive s p) ps) v
      (udp_loop-Balanced (receive s p) ps (receive-Balanced s p v))

udp_stop-Balanced :
    (s : UdpSource)
    → Balanced s
    → ((udp_stop s).running ≡ false)
      × ((udp_stop s).fd ≡ none)
      × ((udp_stop s).opened ≡ (udp_stop s).closed)
unfolding udp_stop
udp_stop-Balanced s v = elim (Bool-cases s.running) [
  | inl on ↦ rw (on, udp_stop) (refl, refl, v.0)
  | inr off ↦
      rw (off, udp_stop)
        (refl, v.1 off, v.0 ∙ ap (λ fd. s.closed ++ fd_list fd) (v.1 off) ∙ append-nil s.closed)
]

-- Whatever the system answers, a source that is made, started, run for any number of rounds and
-- stopped does not run, holds no socket, and has closed each socket that it opened.
pub udp_stop-udp_start :
    (config : UdpSourceConfig) (calls : UdpCalls) (ps : List Reception)
    → let s = udp_stop (udp_loop (udp_start calls (make_udp_source config)).0 ps) in
      (s.running ≡ false) × (s.fd ≡ none) × (s.opened ≡ s.closed)
unfolding udp_start
udp_stop-udp_start config calls ps =
    let start = make_udp_source config in
    udp_stop-Balanced (udp_loop (udp_start calls start).0 ps) (
      udp_loop-Balanced (udp_start calls start).0 ps
        (start_on-Balanced calls start calls.socket_fd refl))

-- The datagrams among the rounds.
abbrev pub datagrams_of : List Reception → List Bytes
datagrams_of [] = []
datagrams_of (not_ready ∷ ps) = datagrams_of ps
datagrams_of (recv_failed ∷ ps) = datagrams_of ps
datagrams_of (datagram bytes ∷ ps) = bytes ∷ datagrams_of ps

-- No datagram is empty, and each fits the buffer.
abbrev pub AllFitBuffer : List Bytes → Type 0
AllFitBuffer [] = Unit
AllFitBuffer (b ∷ bs) = (0 < length b) × (length b ≤ 2048) × AllFitBuffer bs

receive-datagram :
    (s : UdpSource) (bytes : Bytes)
    → 0 < length bytes
    → length bytes ≤ 2048
    → receive s (datagram bytes) ≡ record s { delivered = s.delivered ++ (bytes ∷ []) }
receive-datagram s bytes some_bytes fits =
    rw (take_short 2048 bytes fits) (rw (positive (length bytes) some_bytes) refl)

udp_loop_on :
    (s : UdpSource) (p : Reception) (ps : List Reception)
    → s.running ≡ true
    → (udp_loop s (p ∷ ps)).delivered ≡ (udp_loop (receive s p) ps).delivered
unfolding udp_loop
udp_loop_on s p ps on = λ i. (if not (on i) then s else udp_loop (receive s p) ps).delivered

udp_loop-delivered :
    (s : UdpSource) (ps : List Reception)
    → s.running ≡ true
    → AllFitBuffer (datagrams_of ps)
    → (udp_loop s ps).delivered ≡ s.delivered ++ datagrams_of ps
unfolding udp_loop
udp_loop-delivered s [] on v = sym (append-nil s.delivered)
udp_loop-delivered s (not_ready ∷ ps) on v =
    udp_loop_on s not_ready ps on ∙ udp_loop-delivered s ps on v
udp_loop-delivered s (recv_failed ∷ ps) on v =
    udp_loop_on s recv_failed ps on ∙ udp_loop-delivered s ps on v
udp_loop-delivered s (datagram bytes ∷ ps) on v =
    let next : UdpSource = record s { delivered = s.delivered ++ (bytes ∷ []) } in
    udp_loop_on s (datagram bytes) ps on
    ∙ ap (λ (t : UdpSource). (udp_loop t ps).delivered) (receive-datagram s bytes v.0 v.1)
    ∙ udp_loop-delivered next ps on v.2
    ∙ append_assoc s.delivered (bytes ∷ []) (datagrams_of ps)

module _ {D : Type 0} {A : Type 0} {S : Type 0} where
  each-on_datagram :
      (g : GroundStation D A S) (bs : List Bytes)
      → (each on_datagram g bs).depacketizer ≡ each (λ d b. (Rtp.push d b).0) g.depacketizer bs
  unfolding on_datagram on_video_payload
  each-on_datagram g [] = refl
  each-on_datagram g (b ∷ bs) = each-on_datagram (on_datagram g b) bs

  -- Of the rounds of a running source that has delivered nothing yet, the station's depacketiser is
  -- pushed exactly the datagrams, whole and in order, if none is empty and none longer than 2048 bytes;
  -- rounds in which poll or recv fails or poll times out change nothing.
  pub udp_loop-depacketizer :
      (g : GroundStation D A S) (s : UdpSource) (ps : List Reception)
      → s.running ≡ true
      → s.delivered ≡ []
      → AllFitBuffer (datagrams_of ps)
      → (each on_datagram g (udp_loop s ps).delivered).depacketizer
        ≡ each (λ d b. (Rtp.push d b).0) g.depacketizer (datagrams_of ps)
  udp_loop-depacketizer g s ps on nothing v =
      each-on_datagram g (udp_loop s ps).delivered
      ∙ ap (each (λ d b. (Rtp.push d b).0) g.depacketizer)
          (udp_loop-delivered s ps on v ∙ ap (◌++ datagrams_of ps) nothing)
