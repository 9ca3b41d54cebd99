-- ===== src/Mavlink/Router/Descriptors.antt =====
-- Who closes the router's descriptors (core/src/mavlink/router.cpp): in every run each is closed or
-- held, and a stopped router holds none.
pub mod Balance
pub mod Service
use open_ipc_mobile_gs.Prelude.{
  if_either, if_split, ℕ, ◌+◌, ◌≡◌, ◌==◌, length, [], ◌∷◌, ◌++◌, not, none, ap, if◌then◌else◌, Bool,
  true, false, Option, some, refl, sym, ◌∙◌, List, Bytes, arith,
}
use open_ipc_mobile_gs.Mavlink.Router.{
  MavlinkEndpoint, MavlinkRouter, initial_router, set_endpoints, set_uplink_callback, start, stop,
  all_fds, open_pipe, Endpoint, clear_endpoints,
}
use open_ipc_mobile_gs.Mavlink.Router.Opening.{
  SocketCalls, add_endpoint, open_endpoints, rebuild_endpoints,
}
use open_ipc_mobile_gs.Mavlink.Router.Traffic.{feed_downlink, uplink, uplink_all}
use open_ipc_mobile_gs.Mavlink.Router.Poll.{Polled, poll_once}
use open_ipc_mobile_gs.Mavlink.Router.Descriptors.Balance.{count, counts, Balanced, IsServing}
use open_ipc_mobile_gs.Mavlink.Router.Descriptors.Service.{poll_once-IsServing}

-- Every state of a router, by the calls that lead to it. A round of the poll loop needs a running
-- router; `Stop` waits for the last round.
pub data Reachable : MavlinkRouter → Type 0 where
  fresh : Reachable initial_router
  configured :
      {r : MavlinkRouter} (es : List MavlinkEndpoint) → Reachable r → Reachable (set_endpoints r es)
  listening : {r : MavlinkRouter} → Reachable r → Reachable (set_uplink_callback r)
  started : {r : MavlinkRouter} (ends : Option (ℕ × ℕ)) → Reachable r → Reachable (start ends r).0
  stopped : {r : MavlinkRouter} → Reachable r → Reachable (stop r)
  fed : {r : MavlinkRouter} (bytes : Bytes) → Reachable r → Reachable (feed_downlink r bytes)
  polled :
      {r : MavlinkRouter} (inet_pton : Bytes → Option ℕ) (calls : ℕ → SocketCalls) (still : Bool)
      (p : Polled)
      → r.running ≡ true
      → Reachable r
      → Reachable (poll_once inet_pton calls still p r).0

-- A router that does not run holds neither a pipe nor an endpoint.
record IsSettled (x : ℕ) (r : MavlinkRouter) : Type 0 where
  pub balanced : Balanced x r
  pub no_pipe : r.running ≡ false → r.wake_pipe ≡ []
  pub no_endpoints : r.running ≡ false → r.endpoints ≡ []

IsServing-IsSettled : (x : ℕ) (r : MavlinkRouter) → IsServing x r → IsSettled x r
IsServing-IsSettled x r h = record { balanced = h.0; no_pipe = λ e. cc; no_endpoints = λ e. cc }

open_pipe-IsSettled :
    (x : ℕ) (ends : Option (ℕ × ℕ)) (r : MavlinkRouter)
    → r.running ≡ false
    → IsSettled x r
    → IsSettled x (open_pipe ends r).0
open_pipe-IsSettled x none r idle v = v
open_pipe-IsSettled x (some ends) r idle v = record {
  balanced = omega (counts, v.balanced, ap (count x) (v.no_pipe idle));
  no_pipe = λ e. cc;
  no_endpoints = λ e. cc;
}

start-IsSettled :
    (x : ℕ) (ends : Option (ℕ × ℕ)) (r : MavlinkRouter)
    → IsSettled x r
    → IsSettled x (start ends r).0
unfolding start
start-IsSettled x ends r v =
    let P = λ (d : MavlinkRouter × Bool). IsSettled x d.0 in
    if_split P r.running (r, true) (open_pipe ends r) (λ e. v)
      (λ idle. open_pipe-IsSettled x ends r idle v)

stop-IsSettled : (x : ℕ) (r : MavlinkRouter) → IsSettled x r → IsSettled x (stop r)
unfolding stop clear_endpoints
stop-IsSettled x r v = if_either (IsSettled x) (not r.running) r _ v (record {
  balanced = omega (counts, v.balanced);
  no_pipe = λ e. refl;
  no_endpoints = λ e. refl;
})

feed_downlink-IsSettled :
    (x : ℕ) (r : MavlinkRouter) (bytes : Bytes)
    → IsSettled x r
    → IsSettled x (feed_downlink r bytes)
unfolding feed_downlink
feed_downlink-IsSettled x r bytes v =
    if_either (IsSettled x) (length bytes == 0) r _ v
      (record { balanced = v.balanced; no_pipe = v.no_pipe; no_endpoints = v.no_endpoints })

Reachable-IsSettled : (x : ℕ) {r : MavlinkRouter} → Reachable r → IsSettled x r
unfolding set_endpoints
Reachable-IsSettled x fresh = record {
  balanced = refl;
  no_pipe = λ e. refl;
  no_endpoints = λ e. refl;
}
Reachable-IsSettled x (configured es s) =
    let v = Reachable-IsSettled x s in
    record { balanced = v.balanced; no_pipe = v.no_pipe; no_endpoints = v.no_endpoints }
Reachable-IsSettled x (listening s) =
    let v = Reachable-IsSettled x s in
    record { balanced = v.balanced; no_pipe = v.no_pipe; no_endpoints = v.no_endpoints }
Reachable-IsSettled x (started {r} ends s) = start-IsSettled x ends r (Reachable-IsSettled x s)
Reachable-IsSettled x (stopped {r} s) = stop-IsSettled x r (Reachable-IsSettled x s)
Reachable-IsSettled x (fed {r} bytes s) =
    feed_downlink-IsSettled x r bytes (Reachable-IsSettled x s)
Reachable-IsSettled x (polled {r} inet_pton calls still p runs s) =
    IsServing-IsSettled x _
      (poll_once-IsServing x inet_pton calls still p r ((Reachable-IsSettled x s).balanced, runs))

-- In every state that a run of the router reaches, each descriptor has been opened as often as
-- closed, but for those that the wake pipe, the endpoints and their clients hold.
pub Reachable-Balanced : (x : ℕ) {r : MavlinkRouter} → Reachable r → Balanced x r
Reachable-Balanced x s = (Reachable-IsSettled x s).balanced

-- A router that does not run, after any run, has closed each descriptor as often as it opened it.
pub Reachable_settled :
    (x : ℕ) {r : MavlinkRouter}
    → Reachable r
    → r.running ≡ false
    → count x r.opened ≡ count x r.closed
Reachable_settled x s e =
    let v = Reachable-IsSettled x s in
    omega (
      arith,
      v.balanced,
      ap (count x) (v.no_pipe e),
      ap (λ (es : List Endpoint). count x (all_fds es)) (v.no_endpoints e),
    )
