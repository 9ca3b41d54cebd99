-- ===== src/Udp.antt =====
-- The UDP packet source (gslib/src/main/cpp/udp_source.cpp): `UdpSource`. The answers of the system
-- are arguments; the fields `opened`, `closed` and `delivered` are logs of the sockets and of the calls
-- of the datagram callback.
pub mod Session
mod Tests
use open_ipc_mobile_gs.Prelude.{
  ℕ, Bool, true, false, not, ◌||◌, Option, none, some, List, [], ◌∷◌, ◌++◌, ◌==◌, if◌then◌else◌,
  Bytes, length, take,
}
use open_ipc_mobile_gs.Alink.Message.{decimal_ℤ}
use open_ipc_mobile_gs.Mavlink.Router.{fd_list}
use open_ipc_mobile_gs.Mavlink.Router.Opening.{same_bytes, any_host}
use open_ipc_mobile_gs.Ground.{UdpSourceConfig}

-- `fd` is none where the code has -1.
pub record UdpSource : Type 0 where
  pub config : UdpSourceConfig
  pub fd : Option ℕ
  pub running : Bool
  pub opened : List ℕ
  pub closed : List ℕ
  pub delivered : List Bytes

abbrev pub make_udp_source : UdpSourceConfig → UdpSource
make_udp_source config = record {
  config = config;
  fd = none;
  running = false;
  opened = [];
  closed = [];
  delivered = [];
}

-- What the system answers while the source starts.
pub record UdpCalls : Type 0 where
  pub socket_fd : Option ℕ
  pub inet_pton : Bytes → Option ℕ
  pub bind_ok : Bool

-- "could not create the video socket"
abbrev pub no_socket : Bytes
no_socket =
    b'c' ∷ b'o' ∷ b'u' ∷ b'l' ∷ b'd' ∷ 32 ∷ b'n' ∷ b'o' ∷ b't' ∷ 32 ∷ b'c' ∷ b'r' ∷ b'e' ∷ b'a'
    ∷ b't' ∷ b'e' ∷ 32 ∷ b't' ∷ b'h' ∷ b'e' ∷ 32 ∷ b'v' ∷ b'i' ∷ b'd' ∷ b'e' ∷ b'o' ∷ 32 ∷ b's'
    ∷ b'o' ∷ b'c' ∷ b'k' ∷ b'e' ∷ b't' ∷ []

-- "invalid bind address: "
abbrev pub invalid_address : Bytes
invalid_address =
    b'i' ∷ b'n' ∷ b'v' ∷ b'a' ∷ b'l' ∷ b'i' ∷ b'd' ∷ 32 ∷ b'b' ∷ b'i' ∷ b'n' ∷ b'd' ∷ 32 ∷ b'a'
    ∷ b'd' ∷ b'd' ∷ b'r' ∷ b'e' ∷ b's' ∷ b's' ∷ b':' ∷ 32 ∷ []

-- "could not bind UDP port "
abbrev pub no_bind : Bytes
no_bind =
    b'c' ∷ b'o' ∷ b'u' ∷ b'l' ∷ b'd' ∷ 32 ∷ b'n' ∷ b'o' ∷ b't' ∷ 32 ∷ b'b' ∷ b'i' ∷ b'n' ∷ b'd' ∷ 32
    ∷ b'U' ∷ b'D' ∷ b'P' ∷ 32 ∷ b'p' ∷ b'o' ∷ b'r' ∷ b't' ∷ 32 ∷ []

abbrev pub is_address : Option ℕ → Bool
is_address none = false
is_address (some ip) = true

-- The socket is closed again.
abbrev pub give_up : UdpSource → ℕ → Bytes → UdpSource × Option Bytes
give_up s fd error = (
  record s { fd = none; opened = s.opened ++ (fd ∷ []); closed = s.closed ++ (fd ∷ []) },
  some error,
)

-- Behind a socket that was opened.
unfoldable pub bind_socket : UdpCalls → UdpSource → ℕ → UdpSource × Option Bytes
bind_socket calls s fd =
    let host = s.config.bind_addr in
    let resolved =
      same_bytes host [] || same_bytes host any_host || is_address (calls.inet_pton host) in
    if not resolved
    then give_up s fd (invalid_address ++ host)
    else if not calls.bind_ok
    then give_up s fd (no_bind ++ decimal_ℤ s.config.video_port)
    else (record s { fd = some fd; running = true; opened = s.opened ++ (fd ∷ []) }, none)

abbrev pub start_on : UdpCalls → UdpSource → Option ℕ → UdpSource × Option Bytes
start_on calls s none = (record s { fd = none }, some no_socket)
start_on calls s (some fd) = bind_socket calls s fd

-- `Start`: none, or the error text.
unfoldable pub udp_start : UdpCalls → UdpSource → UdpSource × Option Bytes
unfolding bind_socket
udp_start calls s = start_on calls s calls.socket_fd

-- `Stop`, with the thread joined.
unfoldable pub udp_stop : UdpSource → UdpSource
udp_stop s =
    if not s.running
    then s
    else record s { running = false; fd = none; closed = s.closed ++ fd_list s.fd }

-- How a round of the loop goes: poll times out or fails, recv fails, or a datagram is there.
pub data Reception : Type 0 where
  not_ready : Reception
  recv_failed : Reception
  datagram : Bytes → Reception

-- What fits the buffer goes to the callback, if it is not empty.
abbrev pub receive : UdpSource → Reception → UdpSource
receive s not_ready = s
receive s recv_failed = s
receive s (datagram bytes) =
    if length (take 2048 bytes) == 0
    then s
    else record s { delivered = s.delivered ++ (take 2048 bytes ∷ []) }

-- `Loop`, while `running` holds.
unfoldable pub udp_loop : UdpSource → List Reception → UdpSource
udp_loop s [] = s
udp_loop s (p ∷ ps) = let rest = udp_loop (receive s p) ps in if not s.running then s else rest
