-- ===== src/Lib.antt =====
-- sip-exporter watches SIP and RTP traffic and exports what it sees as Prometheus metrics. A capture
-- loop (internal/exporter/exporter.go) takes packets from a ring that it shares with the kernel,
-- parses SIP itself, keeps the active dialogs in a store, feeds the fraud detectors, and hands media
-- packets to the RTP and RTCP decoders and to the statistics of their stream.
--
-- Rtp: internal/rtp/header.go, codec.go. `parse_header` is `ParseHeader`; an error is a value of
--   `Result`. The codec tables are `static_codec_name`, `codec_name`, `is_audio_codec`.
-- Rtcp: internal/rtcp/parser.go. The names are those of the source; `parse_loop` and
--   `parse_blocks` are its loops. A slice or an index that is out of range is a panic, here `none`.
-- Stream: internal/mediatracker/stream.go. `observe` is `StreamState.observe`, one definition for
--   each of its branches. float64 is a type parameter with the operations that the code uses, so
--   nothing is said of rounding.
-- Dialogs: internal/service/dialogs.go. `delete_dialog` is `Delete`; the other names are those of
--   the source. A map is an association list, whose order stands for the order of iteration.
-- Fraud: internal/exporter/fraud.go. Fraud.Scan is `registerScanTracker`, Fraud.Burst is
--   `inviteBurstTracker`, Fraud.Answer is `fasTracker`.
-- Ring: internal/exporter/packet_ring.go. `request`, `decode_block` and `next` are
--   `packetRingGeometry.request`, `packetRing.decodeBlock` and `packetRingFrameIterator.next`; Ring.Runs
--   is `enqueueBlock`, over a queue that is a parameter, and Ring.Queue is `packetBatchQueue`, its runs
--   as counts of packets: `enter_sip` and `try_sip` are the parts of `enqueueSIPRun`. The sizes that
--   the kernel interface has, and the byte order of the host, are fields of `Uapi`.
-- Tracker: internal/mediatracker/tracker.go, endpoint.go. Each table of `Tracker` is a field; a nil
--   inner map is the empty one. `register`, `observe_packet`, `record_rtcp` and the other operations
--   work on endpoint keys, as the code does below its exported methods; Tracker.Text has those, with
--   net/netip as the parameter `Netip`. `Owners` is what the RTP and the RTCP tables of owners have
--   in common. `Calls` has the exported methods as steps. Tracker.Index is `Cleanup` and
--   `removeSSRCIndex`, Tracker.Alias is `learnSourceAlias`. The history of an endpoint
--   in Tracker.Owned is read from the calls, not from the tables.
-- Layers: internal/exporter/exporter.go. `is_sip_packet` is `isSIPPacket`, the test by which a ring
--   block is cut into runs; `parse_ethernet`, `parse_ipv4_header` and `parse_udp_offset` are the steps
--   by which `parseRawPacket` reaches the payload.
-- Endpoints: internal/exporter/exporter.go. The references of media endpoints: `retain_key`,
--   `release_key`, `set_presence` and `reconcile` are `retainRTPEndpoint`, `releaseRTPEndpoint`,
--   `setRTPEndpointPresence` and `reconcileRTPEndpoints`; the maps of the kernel filter are a
--   parameter, `Kernel`, with the effects of an LRU hash map, which at its capacity evicts keys.
-- Invites: internal/exporter/exporter.go. `observe_invite`, `classify_response`, `close_invites` and
--   `cleanup_invites` are `observeInviteTransaction`, `classifyInviteResponse`,
--   `closeInviteTransactions` and `cleanupInviteTransactions`.
-- Sdp: internal/sdp/parser.go, with the names of the source. `scan_lines` is the loop of `parseMedia`,
--   whose variables are the fields of `Scan`; `parse_line` is one round of the loop of `Parse`.
-- Sip: internal/exporter/sipuri.go and the SIP parser of internal/exporter/exporter.go.
--   `sip_packet_parse` is `sipPacketParse`, `put_header` the switch of `parseHeaders`.
--   The slice of a tag that is out of range is the error `tag_out_of_range`, a panic in the source.
-- E164: internal/geoip/e164.go; the generated table of prefixes is a parameter.
-- Delays: internal/exporter/exporter.go. The tables of requests that wait for a response:
--   `handle_provisional_response`, `measure_options_time`, `measure_bye_time`, `handle_register_200` and
--   `handle_register_non_200` give the delays that the code hands to its metrics. A call is one step.
-- Payloads: internal/exporter/exporter.go. `parse_raw_packet` is `parseRawPacket` over the steps of
--   Layers; the call of a handler that ends it is a value of `Handled`.
-- Text: what Sdp and Sip use of Go's packages bytes, strings and strconv, on lists of bytes.
-- Prelude has what these share: list and number lemmas, machine words and masks, signed integers,
-- association lists, and the two error monads. Examples has the witnesses and test runs.
--
-- A byte is a natural number; where a theorem needs it below 256, it says so. The counters of a
-- stream wrap at 2 ^ 64 and its sequence numbers at 2 ^ 16, as in Go. Times are nanoseconds since
-- some origin, and the clock that a call reads is an argument of it. Every method that takes a
-- mutex is one step. `parse_loop` has as much fuel as the payload has bytes; a round takes four
-- bytes at least, so it is enough. That of Sdp has
-- one round more than the description has lines. `enqueue_loop` has one round more than the
-- block promises frames.
--
-- Not modelled: sockets, the set-up of the packet ring and its block references, logging, metrics,
-- configuration, start-up, the GeoIP database and the kernel filter; what Go's text
-- functions do with bytes above 127, in headers and descriptions; the rest of the message handlers of the exporter, its offers and
-- registrations; the MOS estimate, which is floating point throughout.
pub mod Prelude
pub mod Text
pub mod Sdp
pub mod Sip
pub mod E164
pub mod Delays
pub mod Payloads
pub mod Rtp
pub mod Rtcp
pub mod Stream
pub mod Dialogs
pub mod Fraud
pub mod Ring
pub mod Tracker
pub mod Layers
pub mod Endpoints
pub mod Invites
mod Examples
