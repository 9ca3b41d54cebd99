-- ===== src/Lib.antt =====
-- OpenIPC mobile ground station: a verification library for the C++ core.
--
-- The program receives the radio link of an OpenIPC air unit on a phone. A packet source (a USB
-- adapter or a UDP socket) delivers frames; wfb-ng's aggregator decrypts and repairs them and
-- hands the payload of each radio port on: video is RTP, which the depacketiser turns into NAL
-- units for the decoder; telemetry is MAVLink, which the router frames, decodes and forwards to
-- ground control software, and MSP DisplayPort, from which the OSD's grid of characters is drawn.
-- What ground control software sends goes up again in frames that the ground station builds.
--
-- What models what (paths from the repository's root):
--   Prelude           names and lemmas that all share: lists, octets, wrap-around counters, integers
--   Rtp.Header        core/src/rtp/depacketizer.cpp: ParseRtp, PayloadSize, DetectCodec; against
--                     the packet layout of RFC 3550 in Rtp.Header.Layout
--   Rtp.Depacketizer  core/src/rtp/depacketizer.cpp: RtpDepacketizer. Push with EmitNal,
--                     HandleH264, HandleH265 (handle_fragment and aggregate are the parts that
--                     the two have in common) and the tracking of sequence numbers
--   Mavlink.Framer    core/src/mavlink/router.cpp: MavlinkFramer. Push is `push`, its loop `loop`
--                     with the tests of a round in `inspect`
--   Mavlink.Router    core/src/mavlink/router.cpp: MavlinkRouter. Opening has ResolveIpv4 and
--                     RebuildEndpoints, Traffic has HandleEndpointData and FeedDownlink, Poll has
--                     PollLoop as `poll_once`, a round at a time; Display has the telemetry behind
--                     the downlink
--   Mavlink.Telemetry core/src/mavlink/router.cpp: TelemetryDecoder
--   Msp.Canvas        core/include/openipc/msp_osd.h and core/src/msp/displayport.cpp: OsdFrame,
--                     SetCanvas, Clear and the loop of WRITE_STRING
--   Msp.Checksum      core/src/msp/displayport.cpp: Crc8DvbS2 and the XOR of MSP v1
--   Msp.Decoder       core/src/msp/displayport.cpp: MspOsdDecoder. HandleByte is `handle_byte`,
--                     one clause of `handle_in` for each state, HandleDisplayPort
--                     `handle_display_port`
--   Wfb.Frame         core/include/openipc/config.h: ChannelId; core/src/wfb/wfb_receiver.cpp:
--                     ClassifyFrame; gslib/src/main/cpp/ground_station.cpp: the frame that
--                     SendUplink builds
--   Wfb.Signal        core/src/wfb/wfb_receiver.cpp: AccumulateSignal, ResetSignal and what
--                     TakeSnapshot makes of the paths
--   Wfb.Receiver      core/src/wfb/wfb_receiver.cpp: AddStream, ProcessFrame, TakeSnapshot and
--                     session_established over the aggregator as a parameter; Wfb.Link has the
--                     LinkSnapshot of core/include/openipc/link_stats.h
--   Alink.Scoring     core/src/alink/alink.cpp: KalmanUpdate, AdjustFecRecovered and the
--                     arithmetic of Update
--   Alink.Message     core/src/alink/alink.cpp: the text that Update writes, and its reader
--   Alink.Controller  core/src/alink/alink.cpp: MakeIdrCode and Update, with the keyframe requests
--   Alink.Framing     core/src/alink/alink.cpp: Frame
--   Keys              core/src/wfb/session_keys.cpp: ValidateGsKey and GenerateKeyPair
--   Ground            gslib/src/main/cpp/ground_station.cpp: GroundStation. Lifecycle has Start
--                     and Stop, Payloads the callbacks of the source and the streams, Stats the
--                     body of StatsLoop; SendUplink and the settings stand in Ground itself
--   Udp               gslib/src/main/cpp/udp_source.cpp: UdpSource
--   Usb               gslib/src/main/cpp/devourer_source.cpp: DevourerSource
--   Bridge            gslib/src/main/cpp/jni_bridge.cpp: the conversions, and the calls of a session
--
-- The router uses the framer twice: one for the downlink, whose callback feeds the telemetry, and
-- one for each endpoint, whose callback sends up. The ground station owns one of each part: its
-- source calls the receiver, or the depacketiser for a UDP source; the receiver's streams call the
-- depacketiser, the router and the OSD decoder; a round of its statistics takes the receiver's
-- snapshot, gives it to adaptive link, and sends the message up.
--
-- How the code is modelled. An object is a record, a method a function from the record and its
-- arguments to the record and what the method returns. A buffer with a size is a list of numbers,
-- one for each byte. A call of a callback or of the system is an entry in a log field of the
-- record; where the code tests whether a callback is set, a Boolean field says so. Counters of 64
-- bits wrap around (`add64`), sequence numbers modulo 2^16, the sums of Wfb.Signal in 32 bits with a
-- sign (`int32_of`); signed integers are `ℤ`. Mutexes and
-- threads are not modelled: a run is a sequence of calls (`Reachable` in
-- Mavlink.Router.Descriptors, `Event` in Wfb.Receiver.Session, `Call` in Ground.Lifecycle.Usage,
-- `Work` in Usb.Session, `NativeCall` in
-- Bridge.References).
--
-- Fuel. `Mavlink.Framer.loop` and `Rtp.Depacketizer.aggregate` run on the length of their input as
-- fuel. Each round consumes a byte (two in `aggregate`), so the fuel does not run out: a run of the
-- framer's loop with any more fuel is the same (`loop_fuel` in Mavlink.Framer.Stream). The digits of
-- a number in Alink.Message run on the number and one. Every other loop is structural.
--
-- Parameters. The answers of the system's calls on sockets and files, of libsodium, libusb and the
-- USB driver; the aggregator of wfb-ng (`Aggregator`); the packet source of the station
-- (`PacketSource`); floating point (`Float` in the telemetry, `Double` in adaptive link); the clock
-- and the draws of the random number generator.
--
-- Not modelled: wfb-ng's aggregator, libsodium, libusb and the USB driver are submodules; what the
-- mutexes and the atomic flags guard between threads; what JNI itself does (strings, local references,
-- the attachment of threads); the application is Kotlin.

pub mod Prelude
pub mod Mavlink
pub mod Rtp
pub mod Wfb
pub mod Alink
pub mod Ground
pub mod Keys
pub mod Udp
pub mod Usb
pub mod Bridge
pub mod Msp
