-- ===== src/Mavlink/Router.antt =====
-- `MavlinkRouter` (core/src/mavlink/router.cpp): its state, and how it starts and stops. What the operating system answers is an argument. The fields `opened`, `closed`,
-- `sent` and `uplinked` are logs of the calls of socket/pipe/accept, close, send/sendto and
-- `uplink_`, oldest first; what `TelemetryDecoder::Consume` is given stands in the log of
-- `downlink_framer`.
pub mod Opening
pub mod Traffic
pub mod Poll
pub mod Descriptors
pub mod Streams
pub mod Display
mod Tests
use open_ipc_mobile_gs.Prelude.{
  ℕ, ◌+◌, ◌-◌, ◌%◌, Bool, true, false, not, ◌&&◌, ◌||◌, Option, none, some, List, [], ◌∷◌, ◌++◌,
  map, ◌==◌, if◌then◌else◌, length, drop, Bytes, add64, u16_mod,
}
use open_ipc_mobile_gs.Prelude.Int.{ℤ, pos, negsuc}
use open_ipc_mobile_gs.Mavlink.Framer.{MavlinkFramer, MavlinkMessage}
use open_ipc_mobile_gs.Mavlink.Framer as Framer

-- `MavlinkEndpoint::Kind`
pub data Kind : Type 0 where
  udp_out udp_server tcp_server : Kind

pub record MavlinkEndpoint : Type 0 where
  pub kind : Kind
  pub host : Bytes
  pub port : ℤ
  pub enabled : Bool
  pub allow_uplink : Bool

-- `sockaddr_in`
pub record Address : Type 0 where
  pub ip : ℕ
  pub port : ℕ

-- `fd` is none where the code has -1, `peer` where `have_peer` is false.
pub record Endpoint : Type 0 where
  pub config : MavlinkEndpoint
  pub fd : Option ℕ
  pub clients : List ℕ
  pub peer : Option Address
  pub framer : MavlinkFramer

-- One call of send (no address) or sendto.
pub record Sent : Type 0 where
  pub fd : ℕ
  pub to : Option Address
  pub bytes : Bytes

pub record MavlinkRouter : Type 0 where
  pub configured : List MavlinkEndpoint
  pub endpoints : List Endpoint
  pub endpoints_dirty : Bool
  pub downlink_framer : MavlinkFramer
  pub uplink_set : Bool
  pub running : Bool
  pub wake_pipe : List ℕ
  pub downlink_bytes : ℕ
  pub uplink_bytes : ℕ
  pub opened : List ℕ
  pub closed : List ℕ
  pub sent : List Sent
  pub uplinked : List Bytes

-- The constructor gives the downlink's framer its callback.
abbrev pub initial_router : MavlinkRouter
initial_router = record {
  configured = [];
  endpoints = [];
  endpoints_dirty = true;
  downlink_framer = Framer.initial true;
  uplink_set = false;
  running = false;
  wake_pipe = [];
  downlink_bytes = 0;
  uplink_bytes = 0;
  opened = [];
  closed = [];
  sent = [];
  uplinked = [];
}

unfoldable pub set_endpoints : MavlinkRouter → List MavlinkEndpoint → MavlinkRouter
set_endpoints r endpoints = record r { configured = endpoints; endpoints_dirty = true }

abbrev pub set_uplink_callback : MavlinkRouter → MavlinkRouter
set_uplink_callback r = record r { uplink_set = true }

abbrev pub fd_list : Option ℕ → List ℕ
fd_list none = []
fd_list (some fd) = fd ∷ []

-- What `~Endpoint` closes.
abbrev pub endpoint_fds : Endpoint → List ℕ
endpoint_fds e = e.clients ++ fd_list e.fd

abbrev pub all_fds : List Endpoint → List ℕ
all_fds [] = []
all_fds (e ∷ es) = endpoint_fds e ++ all_fds es

-- `endpoints_.clear()`, the destructors included.
unfoldable pub clear_endpoints : MavlinkRouter → MavlinkRouter
clear_endpoints r = record r { endpoints = []; closed = r.closed ++ all_fds r.endpoints }

-- `Start`, with the two ends of the pipe if the call succeeds, and the value it returns.
abbrev pub open_pipe : Option (ℕ × ℕ) → MavlinkRouter → MavlinkRouter × Bool
open_pipe none r = (r, false)
open_pipe (some ends) r = (
  record r {
    running = true;
    wake_pipe = ends.0 ∷ ends.1 ∷ [];
    opened = r.opened ++ (ends.0 ∷ ends.1 ∷ []);
  },
  true,
)

unfoldable pub start : Option (ℕ × ℕ) → MavlinkRouter → MavlinkRouter × Bool
start ends r = if r.running then (r, true) else open_pipe ends r

-- `Stop`, with the poll thread joined: the pipe and the endpoints are closed.
unfoldable pub stop : MavlinkRouter → MavlinkRouter
unfolding clear_endpoints
stop r =
    if not r.running
    then r
    else clear_endpoints
        (record r { running = false; wake_pipe = []; closed = r.closed ++ r.wake_pipe })
