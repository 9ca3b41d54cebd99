-- ===== src/Mavlink/Router/Opening.antt =====
-- `ResolveIpv4` and `MavlinkRouter::RebuildEndpoints` (core/src/mavlink/router.cpp): the sockets of
-- the configured endpoints.
use open_ipc_mobile_gs.Prelude.{
  ℕ, ◌+◌, ◌-◌, ◌%◌, Bool, true, false, not, ◌&&◌, ◌||◌, Option, none, some, List, [], ◌∷◌, ◌++◌,
  ◌==◌, if◌then◌else◌, Bytes, u16_mod,
}
use open_ipc_mobile_gs.Prelude.Int.{ℤ, pos, negsuc}
use open_ipc_mobile_gs.Mavlink.Framer.{MavlinkFramer, MavlinkMessage}
use open_ipc_mobile_gs.Mavlink.Framer as Framer
use open_ipc_mobile_gs.Mavlink.Router.{
  Kind, MavlinkEndpoint, Address, Endpoint, MavlinkRouter, clear_endpoints, udp_out, udp_server,
  tcp_server,
}

-- `static_cast<uint16_t>(port)`
abbrev pub u16_of : ℤ → ℕ
u16_of (pos n) = n % u16_mod
u16_of (negsuc n) = u16_mod - 1 - n % u16_mod

abbrev pub same_bytes : Bytes → Bytes → Bool
same_bytes [] [] = true
same_bytes [] (y ∷ ys) = false
same_bytes (x ∷ xs) [] = false
same_bytes (x ∷ xs) (y ∷ ys) = x == y && same_bytes xs ys

abbrev pub any_host : Bytes
any_host = b'0' ∷ b'.' ∷ b'0' ∷ b'.' ∷ b'0' ∷ b'.' ∷ b'0' ∷ []

-- What the system answers when one endpoint is opened: its descriptor, if the call succeeds, and
-- whether bind and listen succeed.
pub record SocketCalls : Type 0 where
  pub socket_fd : Option ℕ
  pub bind_ok : Bool
  pub listen_ok : Bool

-- `ResolveIpv4`; `inet_pton` reads a host's text.
unfoldable pub resolve_ipv4 : (Bytes → Option ℕ) → Bytes → ℤ → Option Address
resolve_ipv4 inet_pton host port =
    if same_bytes host [] || same_bytes host any_host
    then some (record { ip = 0; port = u16_of port })
    else elim (inet_pton host) [
      | none ↦ none
      | some ip ↦ some (record { ip = ip; port = u16_of port })
    ]

-- What becomes of one configured endpoint: no socket, a socket closed again, or an endpoint on the
-- socket that the system gave.
pub data Opening : Type 0 where
  refused : Opening
  given_up : ℕ → Opening
  ready : ℕ → Endpoint → Opening

abbrev pub endpoint_on : MavlinkEndpoint → ℕ → Option Address → Endpoint
endpoint_on config fd peer = record {
  config = config;
  fd = some fd;
  clients = [];
  peer = peer;
  framer = Framer.initial false;
}

-- Behind a socket that was opened.
unfoldable pub set_up : Kind → MavlinkEndpoint → SocketCalls → ℕ → Option Address → Opening
set_up kind config calls fd none = given_up fd
set_up tcp_server config calls fd (some address) =
    if not calls.bind_ok || not calls.listen_ok
    then given_up fd
    else ready fd (endpoint_on config fd none)
set_up udp_server config calls fd (some address) =
    if not calls.bind_ok then given_up fd else ready fd (endpoint_on config fd none)
set_up udp_out config calls fd (some address) = ready fd (endpoint_on config fd (some address))

unfoldable pub open_endpoint : (Bytes → Option ℕ) → SocketCalls → MavlinkEndpoint → Opening
open_endpoint inet_pton calls config = elim calls.socket_fd [
  | none ↦ refused
  | some fd ↦ set_up config.kind config calls fd (resolve_ipv4 inet_pton config.host config.port)
]

unfoldable pub add_endpoint : MavlinkRouter → Opening → MavlinkRouter
add_endpoint r refused = r
add_endpoint r (given_up fd) = record r {
  opened = r.opened ++ (fd ∷ []);
  closed = r.closed ++ (fd ∷ []);
}
add_endpoint r (ready fd e) = record r {
  endpoints = r.endpoints ++ (e ∷ []);
  opened = r.opened ++ (fd ∷ []);
}

-- The loop over `configured_`; the system's answers are numbered by the round.
unfoldable pub open_endpoints :
    (Bytes → Option ℕ)
    → (ℕ → SocketCalls)
    → ℕ
    → List MavlinkEndpoint
    → MavlinkRouter
    → MavlinkRouter
open_endpoints inet_pton calls n [] r = r
open_endpoints inet_pton calls n (c ∷ cs) r =
    let opening = open_endpoint inet_pton (calls n) c in
    let next = if not c.enabled then r else add_endpoint r opening in
    open_endpoints inet_pton calls (n + 1) cs next

unfoldable pub rebuild_endpoints :
    (Bytes → Option ℕ) → (ℕ → SocketCalls) → MavlinkRouter → MavlinkRouter
rebuild_endpoints inet_pton calls r =
    let cleared = clear_endpoints (record r { endpoints_dirty = false }) in
    let rebuilt = open_endpoints inet_pton calls 0 r.configured cleared in
    if not r.endpoints_dirty then r else rebuilt
