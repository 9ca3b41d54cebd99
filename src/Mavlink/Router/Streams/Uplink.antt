-- ===== src/Mavlink/Router/Streams/Uplink.antt =====
-- What goes up to the aircraft of the reads from one endpoint: whole frames.
use open_ipc_mobile_gs.Prelude.{
  ℕ, zero, suc, ◌+◌, ◌≡◌, ◌<◌, true, false, not, ◌||◌, refl, sym, ap, ◌∙◌, List, [], ◌∷◌, ◌++◌,
  Bytes, arith, if◌then◌else◌, length, drop, add64, add64-add64, add64-zero, add64-lt, u64_mod,
  drop-append_length, inl, inr,
}
use mathlib.Core.Path.{subst}
use mathlib.Core.List.{append_assoc, append-nil}
use open_ipc_mobile_gs.Mavlink.Framer.{
  MavlinkFramer, MavlinkMessage, inspect, message_at, deliver, drop_byte, loop, guard_size,
}
use open_ipc_mobile_gs.Mavlink.Framer as Framer
use open_ipc_mobile_gs.Mavlink.Framer.Window.{Round-cases}
use open_ipc_mobile_gs.Mavlink.Framer.Stream.{
  push-append, push_lem, loop_skip, loop_wait, loop_frame,
}
use open_ipc_mobile_gs.Mavlink.Framer.Frames.{
  Item, IsStream, wire, messages_of, IsLive, push-wire, drop_byte-IsLive, deliver-IsLive,
}
use open_ipc_mobile_gs.Mavlink.Framer.Account.{push-Accounts}
use open_ipc_mobile_gs.Mavlink.Router.{Endpoint, MavlinkRouter}
use open_ipc_mobile_gs.Mavlink.Router.Traffic.{uplink, uplink_all, handle_endpoint_data}
use open_ipc_mobile_gs.Mavlink.Router.Streams.{concat}

-- Reads from one endpoint, one after another.
abbrev pub handle_reads : MavlinkRouter × Endpoint → List Bytes → MavlinkRouter × Endpoint
handle_reads d [] = d
handle_reads d (bytes ∷ reads) = handle_reads (handle_endpoint_data d.0 d.1 bytes) reads

abbrev pub frames_of : List MavlinkMessage → List Bytes
frames_of [] = []
frames_of (m ∷ ms) = m.bytes ∷ frames_of ms

abbrev pub sizes_of : List MavlinkMessage → ℕ
sizes_of [] = 0
sizes_of (m ∷ ms) = m.size + sizes_of ms

loop-IsLive : (n : ℕ) (f : MavlinkFramer) (xs : Bytes) → IsLive f → IsLive (loop n f xs).0
unfolding loop
loop-IsLive zero f xs v = v
loop-IsLive (suc n) f [] v = v
loop-IsLive (suc n) f (b ∷ xs) v = elim (Round-cases (inspect (b ∷ xs))) [
  | inl e ↦ rw (loop_skip n f b xs e) (loop-IsLive n (drop_byte f) xs (drop_byte-IsLive f v))
  | inr (inl e) ↦ rw (loop_wait n f b xs e) v
  | inr (inr (len, e)) ↦
      let m = message_at (b ∷ xs) len in
      rw (loop_frame n f b xs len e)
        (loop-IsLive n (deliver f m) (drop len (b ∷ xs)) (deliver-IsLive f m v))
]

push-IsLive : (f : MavlinkFramer) (xs : Bytes) → IsLive f → IsLive (Framer.push f xs)
push-IsLive f xs v =
    let n = length (f.buffer ++ xs) in
    let u = loop-IsLive n f (f.buffer ++ xs) v in
    rw (push_lem f xs n (omega arith))
      (record { listens = u.listens; messages_fit = u.messages_fit; dropped_fit = u.dropped_fit })

uplink_all-uplinked :
    (r : MavlinkRouter) (ms : List MavlinkMessage)
    → (uplink_all r ms).uplinked ≡ r.uplinked ++ frames_of ms
unfolding uplink
uplink_all-uplinked r [] = sym (append-nil r.uplinked)
uplink_all-uplinked r (m ∷ ms) =
    uplink_all-uplinked (uplink r m) ms ∙ append_assoc r.uplinked (m.bytes ∷ []) (frames_of ms)

uplink_all-uplink_bytes :
    (r : MavlinkRouter) (ms : List MavlinkMessage)
    → r.uplink_bytes < u64_mod
    → (uplink_all r ms).uplink_bytes ≡ add64 r.uplink_bytes (sizes_of ms)
unfolding uplink
uplink_all-uplink_bytes r [] h = sym (add64-zero _ h)
uplink_all-uplink_bytes r (m ∷ ms) h =
    uplink_all-uplink_bytes (uplink r m) ms (add64-lt r.uplink_bytes m.size)
    ∙ add64-add64 r.uplink_bytes m.size (sizes_of ms)

uplink_all-uplink_set :
    (r : MavlinkRouter) (ms : List MavlinkMessage) → (uplink_all r ms).uplink_set ≡ r.uplink_set
unfolding uplink
uplink_all-uplink_set r [] = refl
uplink_all-uplink_set r (m ∷ ms) = uplink_all-uplink_set (uplink r m) ms

frames_of-append :
    (ms ns : List MavlinkMessage) → frames_of (ms ++ ns) ≡ frames_of ms ++ frames_of ns
frames_of-append [] ns = refl
frames_of-append (m ∷ ms) ns = ap (m.bytes ∷◌) (frames_of-append ms ns)

sizes_of-append : (ms ns : List MavlinkMessage) → sizes_of (ms ++ ns) ≡ sizes_of ms + sizes_of ns
sizes_of-append [] ns = omega arith
sizes_of-append (m ∷ ms) ns = omega (arith, sizes_of-append ms ns)

-- The framer once its callback is set.
abbrev live : MavlinkFramer → MavlinkFramer
live f = record f { callback_set = true }

-- A framer that ends as `g` has delivered `news`, and these went up.
record Lifts (r : MavlinkRouter) (f g : MavlinkFramer) (d : MavlinkRouter × Endpoint) : Type 0 where
  pub news : List MavlinkMessage
  pub framer : d.1.framer ≡ g
  pub delivered : g.delivered ≡ f.delivered ++ news
  pub uplinked : d.0.uplinked ≡ r.uplinked ++ frames_of news
  pub bytes : d.0.uplink_bytes ≡ add64 r.uplink_bytes (sizes_of news)

-- One read from an endpoint that may send up.
handle_endpoint_data_on :
    (r : MavlinkRouter) (e : Endpoint) (bytes : Bytes) (news : List MavlinkMessage)
    → e.config.allow_uplink ≡ true
    → r.uplink_set ≡ true
    → (Framer.push (live e.framer) bytes).delivered ≡ e.framer.delivered ++ news
    → handle_endpoint_data r e bytes
      ≡ (uplink_all r news, record e { framer = Framer.push (live e.framer) bytes })
unfolding handle_endpoint_data
handle_endpoint_data_on r e bytes news allow set h =
    let cut : drop (length e.framer.delivered) (Framer.push (live e.framer) bytes).delivered
        ≡ news =
      ap (drop (length e.framer.delivered)) h ∙ drop-append_length e.framer.delivered news in
    let done : List MavlinkMessage → MavlinkRouter × Endpoint =
      λ ms. (uplink_all r ms, record e { framer = Framer.push (live e.framer) bytes }) in
    λ i. if not (allow i) || not (set i) then (r, e) else done (cut i)

handle_reads-Lifts :
    (r : MavlinkRouter) (e : Endpoint) (bytes : Bytes) (reads : List Bytes)
    → e.config.allow_uplink ≡ true
    → r.uplink_set ≡ true
    → IsLive (live e.framer)
    → r.uplink_bytes < u64_mod
    → Lifts r e.framer
        (Framer.push (live e.framer) (bytes ++ concat reads))
        (handle_reads (r, e) (bytes ∷ reads))
handle_reads-Lifts r e bytes [] allow set v h =
    let a = push-Accounts (live e.framer) bytes v in
    rw (handle_endpoint_data_on r e bytes a.news allow set a.delivered, append-nil bytes)
      (record {
        news = a.news;
        framer = refl;
        delivered = a.delivered;
        uplinked = uplink_all-uplinked r a.news;
        bytes = uplink_all-uplink_bytes r a.news h;
      })
handle_reads-Lifts r e bytes (more ∷ reads) allow set v h =
    let a = push-Accounts (live e.framer) bytes v in
    let f = Framer.push (live e.framer) bytes in
    let u = push-IsLive (live e.framer) bytes v in
    let same : live f ≡ f = λ i. record f { callback_set = sym u.listens i } in
    let sent = uplink_all-uplink_bytes r a.news h in
    let next =
      handle_reads-Lifts (uplink_all r a.news) (record e { framer = f }) more reads allow
        (uplink_all-uplink_set r a.news ∙ set) (subst IsLive (sym same) u)
        (subst (λ (n : ℕ). n < u64_mod) (sym sent) (add64-lt r.uplink_bytes (sizes_of a.news))) in
    let whole : Framer.push (live f) (more ++ concat reads)
        ≡ Framer.push (live e.framer) (bytes ++ (more ++ concat reads)) =
      ap (λ (g : MavlinkFramer). Framer.push g (more ++ concat reads)) same
      ∙ push-append (live e.framer) bytes (more ++ concat reads) in
    rw (handle_endpoint_data_on r e bytes a.news allow set a.delivered) (record {
      news = a.news ++ next.news;
      framer = next.framer ∙ whole;
      delivered =
          ap (λ (g : MavlinkFramer). g.delivered) (sym whole)
          ∙ next.delivered
          ∙ ap (λ (l : List MavlinkMessage). l ++ next.news) a.delivered
          ∙ append_assoc e.framer.delivered a.news next.news;
      uplinked =
          next.uplinked
          ∙ ap (λ (l : List Bytes). l ++ frames_of next.news) (uplink_all-uplinked r a.news)
          ∙ append_assoc r.uplinked (frames_of a.news) (frames_of next.news)
          ∙ ap (r.uplinked ++◌) (sym (frames_of-append a.news next.news));
      bytes =
          next.bytes
          ∙ ap (λ (n : ℕ). add64 n (sizes_of next.news)) sent
          ∙ add64-add64 r.uplink_bytes (sizes_of a.news) (sizes_of next.news)
          ∙ ap (add64 r.uplink_bytes) (sym (sizes_of-append a.news next.news));
    })

-- An endpoint just opened that may send up, in a router whose uplink callback is set: of a stream of
-- well-formed frames with bytes between them that are neither 0xfe nor 0xfd, up to the end of a frame
-- or of such bytes, however it is cut into reads, each frame goes up, once and in order, and nothing
-- else; the uplink's byte count grows by the frames' sizes modulo 2^64.
pub handle_reads-wire :
    (r : MavlinkRouter) (e : Endpoint) (bytes : Bytes) (reads : List Bytes) (is : List Item)
    → e.config.allow_uplink ≡ true
    → r.uplink_set ≡ true
    → e.framer ≡ Framer.initial false
    → r.uplink_bytes < u64_mod
    → IsStream is
    → bytes ++ concat reads ≡ wire is
    → ((handle_reads (r, e) (bytes ∷ reads)).0.uplinked ≡ r.uplinked ++ frames_of (messages_of is))
      × ((handle_reads (r, e) (bytes ∷ reads)).0.uplink_bytes
          ≡ add64 r.uplink_bytes (sizes_of (messages_of is)))
handle_reads-wire r e bytes reads is allow set new h s cut =
    let fresh = Framer.initial true in
    let start : live e.framer ≡ fresh = ap live new in
    let v : IsLive fresh = record {
      listens = refl;
      messages_fit = omega arith;
      dropped_fit = omega arith;
    } in
    let a = handle_reads-Lifts r e bytes reads allow set (subst IsLive (sym start) v) h in
    let read : (Framer.push (live e.framer) (bytes ++ concat reads)).delivered ≡ messages_of is =
      (λ i. (Framer.push (start i) (cut i)).delivered) ∙ (push-wire fresh is refl s v).0 in
    let none_before : e.framer.delivered ≡ [] = ap (λ (f : MavlinkFramer). f.delivered) new in
    let news : a.news ≡ messages_of is =
      sym (ap (λ (l : List MavlinkMessage). l ++ a.news) none_before) ∙ sym a.delivered ∙ read in
    (
      a.uplinked ∙ ap (λ (l : List MavlinkMessage). r.uplinked ++ frames_of l) news,
      a.bytes ∙ ap (λ (l : List MavlinkMessage). add64 r.uplink_bytes (sizes_of l)) news,
    )
