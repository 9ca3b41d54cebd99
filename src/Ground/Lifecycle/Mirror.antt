-- ===== src/Ground/Lifecycle/Mirror.antt =====
-- The socket of the video mirror over the life of `GroundStation`
-- (gslib/src/main/cpp/ground_station.cpp).
use open_ipc_mobile_gs.Prelude.{
  ℕ, ◌≡◌, refl, sym, ap, ◌∙◌, Bool, true, false, not, ◌&&◌, Option, none, some, [], ◌∷◌, ◌++◌,
  Bytes, if◌then◌else◌, if_either,
}
use mathlib.Core.Path.{subst}
use open_ipc_mobile_gs.Prelude.Int.{ℤ, pos, ltb_ℤ}
use open_ipc_mobile_gs.Wfb.Receiver.{Aggregator, WfbReceiver}
use open_ipc_mobile_gs.Alink.Controller.{new_controller}
use open_ipc_mobile_gs.Mavlink.Router.Opening.{same_bytes}
use open_ipc_mobile_gs.Ground.{
  SourceKind, devourer, udp, pcap_file, GsConfig, PacketSource, GroundStation, set_error,
}
use open_ipc_mobile_gs.Ground.Lifecycle.{
  StartCalls, is_some, make_receiver, connect_mirror, connect_parts, open_mirror, create_alink,
  make_source, make_radio, launch, start_source, start_station, stop_station,
}

module _ {D : Type 0} {A : Type 0} {S : Type 0} where
  -- The mirror of one station is that of another.
  abbrev pub SameMirror : GroundStation D A S → GroundStation D A S → Type 0
  SameMirror g h = (h.mirror_fd ≡ g.mirror_fd) × (h.opened ≡ g.opened) × (h.closed ≡ g.closed)

  -- The rest of `Start` leaves the mirror alone, and the station runs if the start succeeded.
  abbrev pub Outcome : GroundStation D A S → GroundStation D A S × Bool → Type 0
  Outcome g p = SameMirror g p.0 × (p.0.running ≡ (if p.1 then true else g.running))

  module _ (agg : Aggregator A) (sources : PacketSource S) (calls : StartCalls) (usb_fd : ℤ) where
    launch-Outcome :
        (g : GroundStation D A S) (x : S × Option Bytes) → Outcome g (launch agg sources g x)
    unfolding set_error
    launch-Outcome g (s, none) = ((refl, refl, refl), refl)
    launch-Outcome g (s, some error) = ((refl, refl, refl), refl)

    make_radio-Outcome :
        (g : GroundStation D A S) (r : Option (WfbReceiver A))
        → Outcome g (start_source agg sources (make_radio agg sources calls usb_fd g r))
    unfolding set_error
    make_radio-Outcome g none = ((refl, refl, refl), refl)
    make_radio-Outcome g (some r) =
        let s = sources.make_devourer g.config.radio usb_fd in
        launch-Outcome (record g { receiver = some r; source = some s }) (sources.source_start s)

    make_source-Outcome :
        (kind : SourceKind) (g : GroundStation D A S)
        → Outcome g (start_source agg sources (make_source agg sources calls usb_fd kind g))
    unfolding make_source
    make_source-Outcome udp g =
        let s = sources.make_udp g.config.udp in
        launch-Outcome (record g { source = some s }) (sources.source_start s)
    make_source-Outcome devourer g = make_radio-Outcome g (make_receiver agg g.config.radio)
    make_source-Outcome pcap_file g = make_radio-Outcome g (make_receiver agg g.config.radio)

    -- The steps of `Start` before the source.
    unfoldable pub prepared : GsConfig D → GroundStation D A S → GroundStation D A S
    prepared config g = create_alink (open_mirror calls (connect_parts calls config g))

    pub start_station-Outcome :
        (config : GsConfig D) (g : GroundStation D A S)
        → g.running ≡ false
        → Outcome (prepared config g) (start_station agg sources calls config usb_fd g)
    unfolding start_station prepared
    start_station-Outcome config g idle =
        subst
          (λ b. Outcome (prepared config g) (
            if b
            then (g, true)
            else start_source agg sources
                (make_source agg sources calls usb_fd config.source (prepared config g))))
          (sym idle) (make_source-Outcome config.source (prepared config g))

    pub create_alink-Same :
        (g : GroundStation D A S)
        → SameMirror g (create_alink g) × ((create_alink g).running ≡ g.running)
    unfolding create_alink
    create_alink-Same g =
        if_either (λ (h : GroundStation D A S). SameMirror g h × (h.running ≡ g.running))
          g.config.alink.enabled (record g { alink = some (new_controller g.config.alink) }) g
          ((refl, refl, refl), refl) ((refl, refl, refl), refl)

    -- The mirror is wanted, and its socket, its address and `connect` serve.
    abbrev pub MirrorServes : GsConfig D → ℕ → Type 0
    MirrorServes config fd =
        (same_bytes config.video_mirror_host [] ≡ false)
        × (ltb_ℤ (pos 0) config.video_mirror_port ≡ true)
        × (calls.mirror_socket ≡ some fd)
        × (is_some (calls.inet_pton config.video_mirror_host) ≡ true)
        × (calls.connect_ok ≡ true)

    -- A station with that socket more.
    abbrev Holds : ℕ → GroundStation D A S → GroundStation D A S → Type 0
    Holds fd g h =
        (h.mirror_fd ≡ some fd) × (h.opened ≡ g.opened ++ (fd ∷ [])) × (h.closed ≡ g.closed)

    open_mirror-Holds :
        (config : GsConfig D) (fd : ℕ) (g : GroundStation D A S)
        → MirrorServes config fd
        → Holds fd g (open_mirror calls (connect_parts calls config g))
    unfolding open_mirror connect_parts
    open_mirror-Holds config fd g v = rw (v.0, v.1, v.2, v.3, v.4) (refl, refl, refl)

    connect_mirror-running :
        (ready : Bool) (g : GroundStation D A S) (socket : Option ℕ)
        → (connect_mirror ready g socket).running ≡ g.running
    connect_mirror-running ready g none = refl
    connect_mirror-running true g (some fd) = refl
    connect_mirror-running false g (some fd) = refl

    open_mirror-running :
        (config : GsConfig D) (g : GroundStation D A S)
        → (open_mirror calls (connect_parts calls config g)).running ≡ g.running
    unfolding open_mirror connect_parts
    open_mirror-running config g =
        let c = connect_parts calls config g in
        let wanted =
          not (same_bytes config.video_mirror_host []) && ltb_ℤ (pos 0) config.video_mirror_port in
        let ready = is_some (calls.inet_pton config.video_mirror_host) && calls.connect_ok in
        if_either (λ (h : GroundStation D A S). h.running ≡ g.running) (not wanted) c
          (connect_mirror ready c calls.mirror_socket) refl
          (connect_mirror-running ready c calls.mirror_socket)

    prepared-Holds :
        (config : GsConfig D) (fd : ℕ) (g : GroundStation D A S)
        → MirrorServes config fd
        → Holds fd g (prepared config g)
    unfolding prepared
    prepared-Holds config fd g v =
        let opened = open_mirror calls (connect_parts calls config g) in
        let o = open_mirror-Holds config fd g v in
        let same = (create_alink-Same opened).0 in (same.0 ∙ o.0, same.1 ∙ o.1, same.2 ∙ o.2)

    pub prepared-running :
        (config : GsConfig D) (g : GroundStation D A S) → (prepared config g).running ≡ g.running
    unfolding prepared
    prepared-running config g =
        (create_alink-Same (open_mirror calls (connect_parts calls config g))).1
        ∙ open_mirror-running config g

    stop_station-idle :
        (g : GroundStation D A S) → g.running ≡ false → stop_station agg sources g ≡ g
    unfolding stop_station
    stop_station-idle g off = rw (off, stop_station) refl

    -- A start that fails after the mirror's socket was opened, for want of the key file or because the
    -- source does not start, leaves the socket open, and stopping the station does not close it.
    pub start_station-stop_station :
        (config : GsConfig D) (fd : ℕ) (g : GroundStation D A S)
        → g.running ≡ false
        → MirrorServes config fd
        → (start_station agg sources calls config usb_fd g).1 ≡ false
        → let failed = (start_station agg sources calls config usb_fd g).0 in
          (failed.running ≡ false)
          × ((stop_station agg sources failed).mirror_fd ≡ some fd)
          × ((stop_station agg sources failed).opened ≡ g.opened ++ (fd ∷ []))
          × ((stop_station agg sources failed).closed ≡ g.closed)
    start_station-stop_station config fd g idle v failure =
        let p = start_station agg sources calls config usb_fd g in
        let o = start_station-Outcome config g idle in
        let held = prepared-Holds config fd g v in
        let off : p.0.running ≡ false =
          o.1
          ∙ ap (λ b. if b then true else (prepared config g).running) failure
          ∙ prepared-running config g
          ∙ idle in
        let same = stop_station-idle p.0 off in
        (
          off,
          ap (λ (h : GroundStation D A S). h.mirror_fd) same ∙ o.0.0 ∙ held.0,
          ap (λ (h : GroundStation D A S). h.opened) same ∙ o.0.1 ∙ held.1,
          ap (λ (h : GroundStation D A S). h.closed) same ∙ o.0.2 ∙ held.2,
        )
