-- ===== src/Usb/Session.antt =====
-- A session of the USB source (gslib/src/main/cpp/devourer_source.cpp).
use open_ipc_mobile_gs.Prelude.{
  ℕ, ◌≡◌, refl, sym, ap, ◌∙◌, Bool, true, false, not, Option, none, some, List, [], ◌∷◌, ◌++◌,
  if_either, Bytes,
}
use mathlib.Core.List.{append-nil}
use open_ipc_mobile_gs.Prelude.Int.{ℤ}
use open_ipc_mobile_gs.Mavlink.Router.{fd_list}
use open_ipc_mobile_gs.Ground.{Bandwidth, RadioConfig}
use open_ipc_mobile_gs.Usb.{
  DevourerSource, make_devourer_source, Claim, claimed, busy, refused, UsbCalls, UsbError,
  make_channel, cleanup, fail, bring_up, claim_interface, adopt, init, usb_start, usb_stop,
  usb_set_channel, usb_transmit, UsbPacket, call_frame, rx_packet, option_refused, not_adopted,
  already_in_use, not_claimed, unsupported_chip, bring_up_failed,
}

-- What a running source does between its start and its stop.
pub data Work : Type 0 where
  packet_came : UsbPacket → Work
  channel_set : Bool → ℤ → Bandwidth → Work
  frame_sent : Bool → Bytes → Work

pub do_work : DevourerSource → Work → DevourerSource
do_work s (packet_came p) = rx_packet s p
do_work s (channel_set ok channel bandwidth) = (usb_set_channel ok s channel bandwidth).0
do_work s (frame_sent ok frame) = (usb_transmit ok s frame).0

abbrev pub do_all : DevourerSource → List Work → DevourerSource
do_all s [] = s
do_all s (w ∷ ws) = do_all (do_work s w) ws

-- Each context and each handle opened is closed, but those that the source holds.
abbrev pub Owned : DevourerSource → Type 0
Owned s =
    (s.contexts_opened ≡ s.contexts_closed ++ fd_list s.context)
    × (s.handles_opened ≡ s.handles_closed ++ fd_list s.handle)

-- None is held, and none is left open.
abbrev pub Released : DevourerSource → Type 0
Released s =
    (s.context ≡ none)
    × (s.handle ≡ none)
    × (s.contexts_opened ≡ s.contexts_closed)
    × (s.handles_opened ≡ s.handles_closed)
    × (s.device ≡ false)

cleanup-Released : (s : DevourerSource) → Owned s → Released (cleanup s)
unfolding cleanup
cleanup-Released s v = (refl, refl, v.0, v.1, refl)

-- A start that fails leaves nothing behind, one that succeeds what it holds.
abbrev pub Fair : DevourerSource × Option UsbError → Type 0
Fair (s, none) = Owned s × (s.running ≡ true)
Fair (s, some error) = Released s × (s.running ≡ false)

fail-Fair :
    (s : DevourerSource) (error : UsbError) → s.running ≡ false → Owned s → Fair (fail s error)
unfolding cleanup
fail-Fair s error off v = (cleanup-Released s v, off)

bring_up-Fair :
    (calls : UsbCalls) (s : DevourerSource) → s.running ≡ false → Owned s → Fair (bring_up calls s)
unfolding bring_up
bring_up-Fair calls s off v =
    let created = record s { driver = true; device = calls.chip_known } in
    let channel = make_channel s.radio.channel s.radio.bandwidth in
    let tuned = record created { channel = channel; tuned = s.tuned ++ (channel ∷ []) } in
    if_either Fair (not calls.chip_known) (fail created unsupported_chip) _
      (fail-Fair created unsupported_chip off v)
      (if_either Fair (not calls.bring_up_ok) (fail tuned bring_up_failed)
        (record tuned { running = true }, none) (fail-Fair tuned bring_up_failed off v) (v, refl))

claim_interface-Fair :
    (calls : UsbCalls) (c : Claim) (s : DevourerSource)
    → s.running ≡ false
    → Owned s
    → Fair (claim_interface calls c s)
claim_interface-Fair calls claimed s off v =
    bring_up-Fair calls (record s { usb_lock = true }) off v
claim_interface-Fair calls busy s off v = fail-Fair s already_in_use off v
claim_interface-Fair calls refused s off v = fail-Fair s not_claimed off v

-- Behind a context; no handle was ever opened.
adopt-Fair :
    (calls : UsbCalls) (handle : Option ℕ) (s : DevourerSource)
    → s.running ≡ false
    → Owned s
    → s.handles_opened ≡ s.handles_closed
    → Fair (adopt calls handle s)
adopt-Fair calls none s off v h = fail-Fair s not_adopted off v
adopt-Fair calls (some handle) s off v h =
    claim_interface-Fair calls calls.claim
      (record s { handle = some handle; handles_opened = s.handles_opened ++ (handle ∷ []) }) off
      (v.0, ap (◌++ (handle ∷ [])) h)

fresh-Released : (radio : RadioConfig) (usb_fd : ℤ) → Released (make_devourer_source radio usb_fd)
fresh-Released radio usb_fd = (refl, refl, refl, refl, refl)

init-Fair :
    (calls : UsbCalls) (context : Option ℕ) (radio : RadioConfig) (usb_fd : ℤ)
    → Fair (init calls context (make_devourer_source radio usb_fd))
init-Fair calls none radio usb_fd = (fresh-Released radio usb_fd, refl)
init-Fair calls (some context) radio usb_fd =
    let s = make_devourer_source radio usb_fd in
    adopt-Fair calls calls.handle
      (record s { context = some context; contexts_opened = s.contexts_opened ++ (context ∷ []) })
      refl (refl, refl) refl

usb_start-Fair :
    (calls : UsbCalls) (radio : RadioConfig) (usb_fd : ℤ)
    → Fair (usb_start calls (make_devourer_source radio usb_fd))
unfolding usb_start
usb_start-Fair calls radio usb_fd =
    let s = make_devourer_source radio usb_fd in
    if_either Fair (not calls.option_ok) (s, some option_refused) (init calls calls.context s)
      (fresh-Released radio usb_fd, refl) (init-Fair calls calls.context radio usb_fd)

Fair-Owned : (s : DevourerSource) (error : Option UsbError) → Fair (s, error) → Owned s
Fair-Owned s none v = v.0
Fair-Owned s (some error) v = (
  v.0.2 ∙ sym (append-nil s.contexts_closed) ∙ ap (λ c. s.contexts_closed ++ fd_list c) (sym v.0.0),
  v.0.3 ∙ sym (append-nil s.handles_closed) ∙ ap (λ h. s.handles_closed ++ fd_list h) (sym v.0.1),
)

call_frame-Owned :
    (s : DevourerSource) (p : UsbPacket) (bytes : Bytes) → Owned s → Owned (call_frame s p bytes)
call_frame-Owned s p [] v = v
call_frame-Owned s p (b ∷ bs) v = v

do_work-Owned : (s : DevourerSource) (w : Work) → Owned s → Owned (do_work s w)
unfolding do_work rx_packet usb_set_channel usb_transmit
do_work-Owned s (packet_came p) v = call_frame-Owned s p p.bytes v
do_work-Owned s (channel_set ok channel bandwidth) v =
    let selected = make_channel channel bandwidth in
    if_either (λ (p : DevourerSource × Bool). Owned p.0) (not s.device) (s, false)
      (record s { channel = selected; tuned = s.tuned ++ (selected ∷ []) }, ok) v v
do_work-Owned s (frame_sent ok frame) v =
    if_either (λ (p : DevourerSource × Bool). Owned p.0) (not s.device) (s, false)
      (record s { sent = s.sent ++ (frame ∷ []) }, ok) v v

do_all-Owned : (s : DevourerSource) (ws : List Work) → Owned s → Owned (do_all s ws)
do_all-Owned s [] v = v
do_all-Owned s (w ∷ ws) v = do_all-Owned (do_work s w) ws (do_work-Owned s w v)

-- Whatever libusb and the driver answer, a start of a new source that fails, at whichever step, does
-- not run and has released the context and the handle that it opened; one that succeeds runs, and has
-- open what it holds and nothing else. After any packets, changes of channel and frames sent, a stop
-- releases the rest, each context and each handle once.
pub usb_stop-usb_start :
    (calls : UsbCalls) (radio : RadioConfig) (usb_fd : ℤ) (ws : List Work)
    → let p = usb_start calls (make_devourer_source radio usb_fd) in
      Fair p × Released (usb_stop (do_all p.0 ws))
unfolding usb_stop
usb_stop-usb_start calls radio usb_fd ws =
    let p = usb_start calls (make_devourer_source radio usb_fd) in
    let fair = usb_start-Fair calls radio usb_fd in
    let s = do_all p.0 ws in
    (
      fair,
      cleanup-Released (record s { running = false })
          (do_all-Owned p.0 ws (Fair-Owned p.0 p.1 fair)),
    )
