-- ===== src/Mavlink/Router/Poll.antt =====
-- `PollLoop` (core/src/mavlink/router.cpp), one round at a time: the slots that are polled, what is
-- done with each descriptor, and the clients that are closed. What poll, recv, recvfrom and accept
-- answer is an argument.
use open_ipc_mobile_gs.Prelude.{
  ℕ, ◌+◌, Bool, true, false, not, ◌||◌, Option, none, some, List, [], ◌∷◌, ◌++◌, map, get_elem?,
  set, ◌==◌, if◌then◌else◌, Bytes,
}
use open_ipc_mobile_gs.Mavlink.Router.{
  Kind, udp_out, udp_server, tcp_server, Address, Endpoint, MavlinkRouter,
}
use open_ipc_mobile_gs.Mavlink.Router.Opening.{SocketCalls, rebuild_endpoints}
use open_ipc_mobile_gs.Mavlink.Router.Traffic.{handle_endpoint_data}

-- The endpoint is named by its place in the list, which stands for the pointer.
pub record Slot : Type 0 where
  pub endpoint : ℕ
  pub fd : ℕ
  pub is_client : Bool

-- What recv and recvfrom return: an error, or the bytes and where they are from.
pub data Received : Type 0 where
  failed : Received
  bytes_from : Address → Bytes → Received

-- What the system answers for one slot: whether `revents` is not 0, has POLLIN, has POLLERR or
-- POLLHUP; then the answers of the calls.
pub record Answer : Type 0 where
  pub any : Bool
  pub readable : Bool
  pub hung_up : Bool
  pub received : Received
  pub accepted : Option ℕ

abbrev pub endpoint_slots : ℕ → Endpoint → Option ℕ → List Slot
endpoint_slots i e none = []
endpoint_slots i e (some fd) =
    record { endpoint = i; fd = fd; is_client = false }
    ∷ map (λ client. record { endpoint = i; fd = client; is_client = true }) e.clients

-- All slots but that of the wake pipe.
unfoldable pub slots : ℕ → List Endpoint → List Slot
slots i [] = []
slots i (e ∷ es) = endpoint_slots i e e.fd ++ slots (i + 1) es

-- The router with the descriptors noted in `to_close`.
abbrev pub Served : Type 0
Served = MavlinkRouter × List ℕ

-- `HandleEndpointData` on the endpoint at that place, which it changes.
unfoldable pub take_data : Served → ℕ → Endpoint → Bytes → Served
take_data (r, to_close) i e bytes =
    let done = handle_endpoint_data r e bytes in
    (record done.0 { endpoints = set done.0.endpoints i done.1 }, to_close)

unfoldable pub handle_client : Served → Slot → Endpoint → Received → Served
unfolding take_data
handle_client round slot e failed = round
handle_client (r, to_close) slot e (bytes_from a []) = (r, to_close ++ (slot.fd ∷ []))
handle_client round slot e (bytes_from a (b ∷ bs)) = take_data round slot.endpoint e (b ∷ bs)

-- A client that TCP accepts.
unfoldable pub accept_client : Served → Slot → Endpoint → Option ℕ → Served
accept_client round slot e none = round
accept_client (r, to_close) slot e (some client) = (
  record r {
    endpoints = set r.endpoints slot.endpoint (record e { clients = e.clients ++ (client ∷ []) });
    opened = r.opened ++ (client ∷ []);
  },
  to_close,
)

-- A UDP server learns its peer from each datagram.
abbrev pub learn_peer : Kind → Endpoint → Address → Endpoint
learn_peer udp_server e from = record e { peer = some from }
learn_peer udp_out e from = e
learn_peer tcp_server e from = e

unfoldable pub handle_datagram : Served → Slot → Endpoint → Received → Served
unfolding take_data
handle_datagram round slot e failed = round
handle_datagram round slot e (bytes_from from []) = round
handle_datagram round slot e (bytes_from from (b ∷ bs)) =
    take_data round slot.endpoint (learn_peer e.config.kind e from) (b ∷ bs)

unfoldable pub handle_socket : Kind → Served → Slot → Endpoint → Answer → Served
unfolding accept_client handle_datagram
handle_socket tcp_server round slot e answer = accept_client round slot e answer.accepted
handle_socket udp_server round slot e answer = handle_datagram round slot e answer.received
handle_socket udp_out round slot e answer = handle_datagram round slot e answer.received

-- A slot whose endpoint is still there.
unfoldable pub handle_present : Served → Slot → Answer → Endpoint → Served
unfolding handle_client handle_socket
handle_present (r, to_close) slot answer e =
    if slot.is_client
    then if answer.hung_up
      then (r, to_close ++ (slot.fd ∷ []))
      else handle_client (r, to_close) slot e answer.received
    else if not answer.readable
    then (r, to_close)
    else handle_socket e.config.kind (r, to_close) slot e answer

-- The body of the loop over the slots.
unfoldable pub handle_slot : Served → Slot → Answer → Served
unfolding handle_present
handle_slot (r, to_close) slot answer =
    if not answer.any then (r, to_close) else elim (get_elem? r.endpoints slot.endpoint) [
      | none ↦ (r, to_close)
      | some e ↦ handle_present (r, to_close) slot answer e
    ]

unfoldable pub handle_slots : Served → List Slot → List Answer → Served
handle_slots round [] answers = round
handle_slots round (s ∷ ss) [] = round
handle_slots round (s ∷ ss) (a ∷ rest) = handle_slots (handle_slot round s a) ss rest

abbrev pub contains : ℕ → List ℕ → Bool
contains fd [] = false
contains fd (x ∷ xs) = x == fd || contains fd xs

-- `erase` of the first entry that `find` finds.
abbrev pub erase_first : ℕ → List ℕ → List ℕ
erase_first fd [] = []
erase_first fd (x ∷ xs) = let rest = erase_first fd xs in if x == fd then xs else x ∷ rest

-- The first endpoint that has the client loses it; says whether there is one.
unfoldable pub drop_client : ℕ → List Endpoint → List Endpoint × Bool
drop_client fd [] = ([], false)
drop_client fd (e ∷ es) =
    let rest = drop_client fd es in
    if contains fd e.clients
    then (record e { clients = erase_first fd e.clients } ∷ es, true)
    else (e ∷ rest.0, rest.1)

unfoldable pub close_client : MavlinkRouter → ℕ → MavlinkRouter
unfolding drop_client
close_client r fd =
    let dropped = drop_client fd r.endpoints in
    if dropped.1 then record r { endpoints = dropped.0; closed = r.closed ++ (fd ∷ []) } else r

unfoldable pub close_clients : MavlinkRouter → List ℕ → MavlinkRouter
close_clients r [] = r
close_clients r (fd ∷ fds) = close_clients (close_client r fd) fds

-- How the wait ends: EINTR, another error, the time limit, or ready descriptors. `wake` is POLLIN
-- on the wake pipe; the answers are those for the slots.
pub data Polled : Type 0 where
  interrupted broken timed_out : Polled
  woken : Bool → List Answer → Polled

unfoldable pub serve : MavlinkRouter → List Answer → MavlinkRouter
unfolding slots handle_slots close_clients
serve r answers =
    let round = handle_slots (r, []) (slots 0 r.endpoints) answers in close_clients round.0 round.1

-- One round of the loop, and whether it goes on. `still` is `running_` behind the wait.
unfoldable pub poll_once :
    (Bytes → Option ℕ) → (ℕ → SocketCalls) → Bool → Polled → MavlinkRouter → MavlinkRouter × Bool
unfolding serve rebuild_endpoints
poll_once inet_pton calls still interrupted r = (rebuild_endpoints inet_pton calls r, true)
poll_once inet_pton calls still broken r = (rebuild_endpoints inet_pton calls r, false)
poll_once inet_pton calls still timed_out r = (rebuild_endpoints inet_pton calls r, still)
poll_once inet_pton calls still (woken wake answers) r =
    let rebuilt = rebuild_endpoints inet_pton calls r in
    if not still
    then (rebuilt, false)
    else if wake
    then (rebuilt, true)
    else (serve rebuilt answers, true)
