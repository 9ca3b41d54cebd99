-- ===== src/Mavlink/Router/Descriptors/Balance.antt =====
-- The invariant on descriptors, kept by each operation of the router.
use open_ipc_mobile_gs.Prelude.{
  if_either, ℕ, suc, zero, ◌+◌, ◌≡◌, ◌==◌, Bool, not, true, false, Option, none, some, refl, sym,
  ap, ◌∙◌, List, [], ◌∷◌, ◌++◌, Bytes, arith, if◌then◌else◌, get_elem?, set, ◌||◌, drop, length,
}
use open_ipc_mobile_gs.Mavlink.Framer.{MavlinkMessage, push}
use open_ipc_mobile_gs.Mavlink.Router.{
  MavlinkEndpoint, MavlinkRouter, all_fds, fd_list, endpoint_fds, Endpoint, clear_endpoints, Kind,
  udp_out, udp_server, tcp_server, Address,
}
use open_ipc_mobile_gs.Mavlink.Router.Opening.{
  SocketCalls, Opening, refused, given_up, ready, add_endpoint, open_endpoint, open_endpoints,
  rebuild_endpoints, set_up, resolve_ipv4,
}
use open_ipc_mobile_gs.Mavlink.Router.Traffic.{uplink, uplink_all, handle_endpoint_data}
use open_ipc_mobile_gs.Mavlink.Router.Poll.{
  contains, erase_first, drop_client, close_client, close_clients,
}

abbrev pub count : ℕ → List ℕ → ℕ
count x [] = 0
count x (y ∷ ys) = (if y == x then 1 else 0) + count x ys

pub count-append : (x : ℕ) (ys zs : List ℕ) → count x (ys ++ zs) ≡ count x ys + count x zs
count-append x [] zs = omega arith
count-append x (y ∷ ys) zs = omega (arith, count-append x ys zs)

pub ruleset counts = (arith, count-append)

pub count-all_fds_append :
    (x : ℕ) (ds es : List Endpoint)
    → count x (all_fds (ds ++ es)) ≡ count x (all_fds ds) + count x (all_fds es)
count-all_fds_append x [] es = omega arith
count-all_fds_append x (d ∷ ds) es = omega (counts, count-all_fds_append x ds es)

-- The descriptor was opened as often as it was closed, but for those that are held.
abbrev pub Balanced : ℕ → MavlinkRouter → Type 0
Balanced x r =
    count x r.opened ≡ count x r.closed + count x r.wake_pipe + count x (all_fds r.endpoints)

-- That, of a router that runs.
abbrev pub IsServing : ℕ → MavlinkRouter → Type 0
IsServing x r = Balanced x r × (r.running ≡ true)

pub clear_endpoints-IsServing :
    (x : ℕ) (r : MavlinkRouter) → IsServing x r → IsServing x (clear_endpoints r)
unfolding clear_endpoints
clear_endpoints-IsServing x r h = (omega (counts, h.0), h.1)

-- An endpoint that is ready owns the socket that the system gave, and no client yet.
abbrev IsOwner : Opening → Type 0
IsOwner refused = Unit
IsOwner (given_up fd) = Unit
IsOwner (ready fd e) = (e.fd ≡ some fd) × (e.clients ≡ [])

set_up-IsOwner :
    (k : Kind) (config : MavlinkEndpoint) (calls : SocketCalls) (fd : ℕ) (peer : Option Address)
    → IsOwner (set_up k config calls fd peer)
unfolding set_up
set_up-IsOwner k config calls fd none = tt
set_up-IsOwner tcp_server config calls fd (some a) =
    if_either IsOwner (not calls.bind_ok || not calls.listen_ok) (given_up fd) _ tt (refl, refl)
set_up-IsOwner udp_server config calls fd (some a) =
    if_either IsOwner (not calls.bind_ok) (given_up fd) _ tt (refl, refl)
set_up-IsOwner udp_out config calls fd (some a) = (refl, refl)

open_endpoint-IsOwner :
    (inet_pton : Bytes → Option ℕ) (calls : SocketCalls) (config : MavlinkEndpoint)
    → IsOwner (open_endpoint inet_pton calls config)
unfolding open_endpoint
open_endpoint-IsOwner inet_pton calls config =
    let opened : Option ℕ → Opening = λ fd. elim fd [
      | none ↦ refused
      | some fd ↦
          set_up config.kind config calls fd (resolve_ipv4 inet_pton config.host config.port)
    ] in
    elim calls.socket_fd as (λ fd. IsOwner (opened fd)) [
      | none ↦ tt
      | some fd ↦
          set_up-IsOwner config.kind config calls fd
            (resolve_ipv4 inet_pton config.host config.port)
    ]

pub add_endpoint-IsServing :
    (x : ℕ) (r : MavlinkRouter) (o : Opening)
    → IsOwner o
    → IsServing x r
    → IsServing x (add_endpoint r o)
unfolding add_endpoint
add_endpoint-IsServing x r refused v h = h
add_endpoint-IsServing x r (given_up fd) v h = (omega (counts, h.0), h.1)
add_endpoint-IsServing x r (ready fd e) v h =
    let owned : count x (endpoint_fds e) ≡ count x (fd ∷ []) =
      ap (λ (o : Option ℕ). count x (e.clients ++ fd_list o)) v.0
      ∙ ap (λ (cs : List ℕ). count x (cs ++ (fd ∷ []))) v.1 in
    (omega (counts, h.0, owned, count-all_fds_append x r.endpoints (e ∷ [])), h.1)

module _ (x : ℕ) (inet_pton : Bytes → Option ℕ) (calls : ℕ → SocketCalls) where
  open_endpoints-IsServing :
      (n : ℕ) (cs : List MavlinkEndpoint) (r : MavlinkRouter)
      → IsServing x r
      → IsServing x (open_endpoints inet_pton calls n cs r)
  unfolding open_endpoints
  open_endpoints-IsServing n [] r h = h
  open_endpoints-IsServing n (c ∷ cs) r h =
      let opening = open_endpoint inet_pton (calls n) c in
      let owner = open_endpoint-IsOwner inet_pton (calls n) c in
      let added = add_endpoint-IsServing x r opening owner h in
      open_endpoints-IsServing (n + 1) cs _
        (if_either (IsServing x) (not c.enabled) r (add_endpoint r opening) h added)

  pub rebuild_endpoints-IsServing :
      (r : MavlinkRouter) → IsServing x r → IsServing x (rebuild_endpoints inet_pton calls r)
  unfolding rebuild_endpoints
  rebuild_endpoints-IsServing r h =
      let cleared = clear_endpoints-IsServing x (record r { endpoints_dirty = false }) h in
      let rebuilt = open_endpoints-IsServing 0 r.configured _ cleared in
      if_either (IsServing x) (not r.endpoints_dirty) r _ h rebuilt

uplink_all-IsServing :
    (x : ℕ) (r : MavlinkRouter) (ms : List MavlinkMessage)
    → IsServing x r
    → IsServing x (uplink_all r ms)
unfolding uplink
uplink_all-IsServing x r [] h = h
uplink_all-IsServing x r (m ∷ ms) h = uplink_all-IsServing x (uplink r m) ms h

uplink_all-endpoints :
    (r : MavlinkRouter) (ms : List MavlinkMessage) → (uplink_all r ms).endpoints ≡ r.endpoints
unfolding uplink
uplink_all-endpoints r [] = refl
uplink_all-endpoints r (m ∷ ms) = uplink_all-endpoints (uplink r m) ms

-- One endpoint in the list for another.
pub count-set :
    (x : ℕ) (es : List Endpoint) (i : ℕ) (e e' : Endpoint)
    → get_elem? es i ≡ some e
    → count x (all_fds (set es i e')) + count x (endpoint_fds e)
      ≡ count x (all_fds es) + count x (endpoint_fds e')
count-set x [] i e e' h = cc
count-set x (d ∷ es) zero e e' h =
    let same : d ≡ e = cc in omega (counts, ap (λ (e : Endpoint). count x (endpoint_fds e)) same)
count-set x (d ∷ es) (suc i) e e' h = omega (counts, count-set x es i e e' h)

erase_first-count :
    (x fd : ℕ) (xs : List ℕ)
    → contains fd xs ≡ true
    → count x xs ≡ count x (fd ∷ []) + count x (erase_first fd xs)
erase_first-count x fd [] h = cc
erase_first-count x fd (y ∷ ys) h = ground (arith, erase_first-count x fd ys)

drop_client-count :
    (x fd : ℕ) (es : List Endpoint)
    → (drop_client fd es).1 ≡ true
    → count x (all_fds es) ≡ count x (fd ∷ []) + count x (all_fds (drop_client fd es).0)
unfolding drop_client
drop_client-count x fd [] h = cc
drop_client-count x fd (e ∷ es) h = ground (
  arith,
  erase_first-count x fd e.clients,
  drop_client-count x fd es,
  count-append x (endpoint_fds e) (all_fds es),
  count-append x e.clients (fd_list e.fd),
  count-append x (erase_first fd e.clients) (fd_list e.fd),
  count-append x (erase_first fd e.clients ++ fd_list e.fd) (all_fds es),
  count-append x (endpoint_fds e) (all_fds (drop_client fd es).0),
)

pub close_client-IsServing :
    (x : ℕ) (r : MavlinkRouter) (fd : ℕ) → IsServing x r → IsServing x (close_client r fd)
unfolding close_client
close_client-IsServing x r fd h = (
  ground (arith, drop_client-count x fd r.endpoints, count-append x r.closed (fd ∷ []), h.0),
  ground (arith, h.1),
)

pub close_clients-IsServing :
    (x : ℕ) (r : MavlinkRouter) (fds : List ℕ) → IsServing x r → IsServing x (close_clients r fds)
unfolding close_clients
close_clients-IsServing x r [] h = h
close_clients-IsServing x r (fd ∷ fds) h =
    close_clients-IsServing x (close_client r fd) fds (close_client-IsServing x r fd h)

-- What is left when an endpoint's data has been handled: the same endpoints, and the same
-- descriptors in the one that the data is from.
pub record IsHandled (x : ℕ) (r : MavlinkRouter) (e : Endpoint) (d : MavlinkRouter × Endpoint)
    : Type 0 where
  pub serving : IsServing x d.0
  pub endpoints : d.0.endpoints ≡ r.endpoints
  pub fds : endpoint_fds d.1 ≡ endpoint_fds e

pub handle_endpoint_data-IsHandled :
    (x : ℕ) (r : MavlinkRouter) (e : Endpoint) (bytes : Bytes)
    → IsServing x r
    → IsHandled x r e (handle_endpoint_data r e bytes)
unfolding handle_endpoint_data
handle_endpoint_data-IsHandled x r e bytes h =
    let f = push (record e.framer { callback_set = true }) bytes in
    let news = drop (length e.framer.delivered) f.delivered in
    if_either (IsHandled x r e) (not e.config.allow_uplink || not r.uplink_set) (r, e)
      (uplink_all r news, record e { framer = f })
      (record { serving = h; endpoints = refl; fds = refl })
      (record {
        serving = uplink_all-IsServing x r news h;
        endpoints = uplink_all-endpoints r news;
        fds = refl;
      })
