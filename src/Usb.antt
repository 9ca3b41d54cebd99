-- ===== src/Usb.antt =====
-- The USB packet source (gslib/src/main/cpp/devourer_source.cpp): `DevourerSource`. What libusb and the
-- driver answer are arguments. The logs are of the contexts and handles opened and closed, of the
-- channels the device is tuned to, of the frames it sends and of the calls of the frame callback.
pub mod Session
mod Tests
use open_ipc_mobile_gs.Prelude.{
  ℕ, zero, suc, ◌-◌, ◌%◌, Bool, true, false, not, Option, none, some, List, [], ◌∷◌, ◌++◌, ltb,
  if◌then◌else◌, Bytes,
}
use open_ipc_mobile_gs.Prelude.Int.{ℤ, pos, negsuc}
use open_ipc_mobile_gs.Mavlink.Router.{fd_list}
use open_ipc_mobile_gs.Wfb.Signal.{FrameMeta}
use open_ipc_mobile_gs.Wfb.Receiver.Streams.{Arrival}
use open_ipc_mobile_gs.Ground.{Bandwidth, bw5, bw10, bw20, bw40, bw80, RadioConfig}

pub data ChannelWidth : Type 0 where
  channel_width_5 channel_width_10 channel_width_20 channel_width_40 channel_width_80 : ChannelWidth

pub record SelectedChannel : Type 0 where
  pub channel : ℕ
  pub channel_offset : ℕ
  pub channel_width : ChannelWidth

unfoldable pub to_channel_width : Bandwidth → ChannelWidth
to_channel_width bw5 = channel_width_5
to_channel_width bw10 = channel_width_10
to_channel_width bw40 = channel_width_40
to_channel_width bw80 = channel_width_80
to_channel_width bw20 = channel_width_20

-- `static_cast<uint8_t>(channel)`
abbrev pub u8_of : ℤ → ℕ
u8_of (pos n) = n % 256
u8_of (negsuc n) = 255 - n % 256

unfoldable pub make_channel : ℤ → Bandwidth → SelectedChannel
unfolding to_channel_width
make_channel channel bandwidth = record {
  channel = u8_of channel;
  channel_offset = 0;
  channel_width = to_channel_width bandwidth;
}

-- A pointer is none where the code has a null pointer; of the lock, the driver and the device only
-- whether they are there.
pub record DevourerSource : Type 0 where
  pub radio : RadioConfig
  pub usb_fd : ℤ
  pub context : Option ℕ
  pub handle : Option ℕ
  pub usb_lock : Bool
  pub driver : Bool
  pub device : Bool
  pub channel : SelectedChannel
  pub running : Bool
  pub contexts_opened : List ℕ
  pub contexts_closed : List ℕ
  pub handles_opened : List ℕ
  pub handles_closed : List ℕ
  pub tuned : List SelectedChannel
  pub sent : List Bytes
  pub frames : List Arrival

abbrev pub make_devourer_source : RadioConfig → ℤ → DevourerSource
make_devourer_source radio usb_fd = record {
  radio = radio;
  usb_fd = usb_fd;
  context = none;
  handle = none;
  usb_lock = false;
  driver = false;
  device = false;
  channel = record { channel = 0; channel_offset = 0; channel_width = channel_width_20 };
  running = false;
  contexts_opened = [];
  contexts_closed = [];
  handles_opened = [];
  handles_closed = [];
  tuned = [];
  sent = [];
  frames = [];
}

-- How the interface is claimed.
pub data Claim : Type 0 where
  claimed busy refused : Claim

-- What libusb and the driver answer while the source starts: whether the option is taken, the
-- context, the handle, the claim, whether the chip is known, and whether the bring-up throws.
pub record UsbCalls : Type 0 where
  pub option_ok : Bool
  pub context : Option ℕ
  pub handle : Option ℕ
  pub claim : Claim
  pub chip_known : Bool
  pub bring_up_ok : Bool

-- Which of its error texts `Start` gives.
pub data UsbError : Type 0 where
  option_refused init_failed not_adopted already_in_use not_claimed unsupported_chip
        bring_up_failed :
      UsbError

unfoldable pub cleanup : DevourerSource → DevourerSource
cleanup s = record s {
  device = false;
  driver = false;
  usb_lock = false;
  handle = none;
  handles_closed = s.handles_closed ++ fd_list s.handle;
  context = none;
  contexts_closed = s.contexts_closed ++ fd_list s.context;
}

abbrev pub fail : DevourerSource → UsbError → DevourerSource × Option UsbError
fail s error = (cleanup s, some error)

-- The driver and the device, behind a claimed interface.
unfoldable pub bring_up : UsbCalls → DevourerSource → DevourerSource × Option UsbError
unfolding cleanup make_channel
bring_up calls s =
    let created = record s { driver = true; device = calls.chip_known } in
    let channel = make_channel s.radio.channel s.radio.bandwidth in
    let tuned = record created { channel = channel; tuned = s.tuned ++ (channel ∷ []) } in
    if not calls.chip_known
    then fail created unsupported_chip
    else if not calls.bring_up_ok
    then fail tuned bring_up_failed
    else (record tuned { running = true }, none)

abbrev pub claim_interface : UsbCalls → Claim → DevourerSource → DevourerSource × Option UsbError
claim_interface calls claimed s = bring_up calls (record s { usb_lock = true })
claim_interface calls busy s = fail s already_in_use
claim_interface calls refused s = fail s not_claimed

abbrev pub adopt : UsbCalls → Option ℕ → DevourerSource → DevourerSource × Option UsbError
adopt calls none s = fail s not_adopted
adopt calls (some handle) s =
    claim_interface calls calls.claim
      (record s { handle = some handle; handles_opened = s.handles_opened ++ (handle ∷ []) })

abbrev pub init : UsbCalls → Option ℕ → DevourerSource → DevourerSource × Option UsbError
init calls none s = (s, some init_failed)
init calls (some context) s =
    adopt calls calls.handle
      (record s { context = some context; contexts_opened = s.contexts_opened ++ (context ∷ []) })

-- `Start`: none, or which error.
unfoldable pub usb_start : UsbCalls → DevourerSource → DevourerSource × Option UsbError
unfolding bring_up
usb_start calls s =
    if not calls.option_ok then (s, some option_refused) else init calls calls.context s

-- `Stop`, with the thread joined: both branches clean up.
unfoldable pub usb_stop : DevourerSource → DevourerSource
unfolding cleanup
usb_stop s = cleanup (record s { running = false })

-- `SetChannel`, and whether it succeeds; `ok` is false where the device throws.
unfoldable pub usb_set_channel : Bool → DevourerSource → ℤ → Bandwidth → DevourerSource × Bool
unfolding make_channel
usb_set_channel ok s channel bandwidth =
    let selected = make_channel channel bandwidth in
    if not s.device
    then (s, false)
    else (record s { channel = selected; tuned = s.tuned ++ (selected ∷ []) }, ok)

-- `Transmit`, and whether it succeeds; `ok` is what the device answers.
unfoldable pub usb_transmit : Bool → DevourerSource → Bytes → DevourerSource × Bool
usb_transmit ok s frame =
    if not s.device then (s, false) else (record s { sent = s.sent ++ (frame ∷ []) }, ok)

-- A packet of the driver, of which the code reads two paths: a magnitude and an SNR for each.
pub record UsbPacket : Type 0 where
  pub bytes : Bytes
  pub rssi_a : ℕ
  pub rssi_b : ℕ
  pub snr_a : ℤ
  pub snr_b : ℤ
  pub data_rate : ℕ
  pub bw : ℕ

abbrev pub negated : ℕ → ℤ
negated zero = pos 0
negated (suc n) = negsuc n

-- `rssi > 127 ? -128 : -rssi`
unfoldable pub rssi_of : ℕ → ℤ
rssi_of rssi = if ltb 127 rssi then negsuc 127 else negated rssi

unfoldable pub meta_of : UsbPacket → FrameMeta
unfolding rssi_of
meta_of p = record {
  rssi = rssi_of p.rssi_a ∷ rssi_of p.rssi_b ∷ pos 0 ∷ pos 0 ∷ [];
  snr = p.snr_a ∷ p.snr_b ∷ pos 0 ∷ pos 0 ∷ [];
  paths = pos 2;
  freq_mhz = 0;
  mcs_index = p.data_rate % 256;
  bandwidth = p.bw;
  wlan_idx = 0;
}

abbrev pub call_frame : DevourerSource → UsbPacket → Bytes → DevourerSource
call_frame s p [] = s
call_frame s p (b ∷ bs) = record s {
  frames = s.frames ++ (record { frame = b ∷ bs; meta = meta_of p } ∷ []);
}

-- The callback of `RxLoop`.
unfoldable pub rx_packet : DevourerSource → UsbPacket → DevourerSource
unfolding meta_of
rx_packet s p = call_frame s p p.bytes
