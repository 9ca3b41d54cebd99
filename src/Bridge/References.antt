-- ===== src/Bridge/References.antt =====
-- The life of a session of the bridge (gslib/src/main/cpp/jni_bridge.cpp).
use open_ipc_mobile_gs.Prelude.{
  ℕ, ◌≡◌, refl, ap, ◌∙◌, inl, inr, Bool, false, none, List, [], ◌∷◌, ◌++◌, Bytes, Bool-cases,
}
use open_ipc_mobile_gs.Prelude.Int.{ℤ}
use open_ipc_mobile_gs.Mavlink.Router.{fd_list}
use open_ipc_mobile_gs.Wfb.Receiver.{Aggregator}
use open_ipc_mobile_gs.Alink.Scoring.{AlinkConfig}
use open_ipc_mobile_gs.Ground.{GsConfig, PacketSource, GroundStation}
use open_ipc_mobile_gs.Ground.Lifecycle.{StartCalls, stop_station}
use open_ipc_mobile_gs.Bridge.{
  StartArguments, AlinkArguments, Session, native_create, native_start, native_stop, native_destroy,
  native_set_channel, native_set_video_codec, native_set_mavlink_endpoints, native_set_alink,
}

-- The calls of the application on a session.
pub data NativeCall (D : Type 0) : Type 0 where
  start_call : StartCalls → GsConfig D → StartArguments → ℕ → NativeCall D
  stop_call : NativeCall D
  channel_call : ℤ → ℤ → NativeCall D
  codec_call : ℤ → NativeCall D
  endpoints_call : List ℤ → List Bytes → List ℤ → List Bool → NativeCall D
  alink_call : AlinkConfig D → AlinkArguments D → NativeCall D

module _ {D : Type 0} {A : Type 0} {S : Type 0} (agg : Aggregator A)
    (sources : PacketSource S) where
  pub call_native : Session D A S → NativeCall D → Session D A S
  call_native s (start_call calls defaults a reference) =
      (native_start agg sources calls defaults a reference s).0
  call_native s stop_call = native_stop agg sources s
  call_native s (channel_call channel bandwidth) =
      (native_set_channel agg sources channel bandwidth s).0
  call_native s (codec_call codec) = native_set_video_codec codec s
  call_native s (endpoints_call kinds hosts ports uplinks) =
      native_set_mavlink_endpoints kinds hosts ports uplinks s
  call_native s (alink_call defaults a) = native_set_alink defaults a s

  abbrev pub call_all : Session D A S → List (NativeCall D) → Session D A S
  call_all s [] = s
  call_all s (c ∷ cs) = call_all (call_native s c) cs

  -- The references created are those deleted and the one held.
  abbrev Referenced : Session D A S → Type 0
  Referenced s = s.created ≡ s.deleted ++ fd_list s.listener

  call_native-Referenced :
      (s : Session D A S) (c : NativeCall D) → Referenced s → Referenced (call_native s c)
  unfolding call_native native_start native_stop native_set_channel native_set_video_codec
      native_set_mavlink_endpoints native_set_alink
  call_native-Referenced s (start_call calls defaults a reference) v = ap (◌++ (reference ∷ [])) v
  call_native-Referenced s stop_call v = v
  call_native-Referenced s (channel_call channel bandwidth) v = v
  call_native-Referenced s (codec_call codec) v = v
  call_native-Referenced s (endpoints_call kinds hosts ports uplinks) v = v
  call_native-Referenced s (alink_call defaults a) v = v

  call_all-Referenced :
      (s : Session D A S) (cs : List (NativeCall D)) → Referenced s → Referenced (call_all s cs)
  call_all-Referenced s [] v = v
  call_all-Referenced s (c ∷ cs) v =
      call_all-Referenced (call_native s c) cs (call_native-Referenced s c v)

  stop_station-off : (g : GroundStation D A S) → (stop_station agg sources g).running ≡ false
  unfolding stop_station
  stop_station-off g = elim (Bool-cases g.running) [
    | inl on ↦ rw (on, stop_station) refl
    | inr off ↦
        let same : stop_station agg sources g ≡ g = rw (off, stop_station) refl in
        ap (λ (h : GroundStation D A S). h.running) same ∙ off
  ]

  -- However the application uses a session, starts that fail and repeated starts included, a session
  -- that is destroyed has a station that does not run, and each global reference that it created has
  -- been deleted, once and in order.
  pub native_destroy-native_create :
      (station : GroundStation D A S) (cs : List (NativeCall D))
      → let s = native_destroy agg sources (call_all (native_create station) cs) in
        (s.station.running ≡ false) × (s.listener ≡ none) × (s.created ≡ s.deleted)
  unfolding native_destroy
  native_destroy-native_create station cs =
      let s = call_all (native_create station) cs in
      (stop_station-off s.station, refl, call_all-Referenced (native_create station) cs refl)
