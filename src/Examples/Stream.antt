-- ===== src/Examples/Stream.antt =====
-- internal/mediatracker/stream.go at concrete inputs, with whole numbers for float64.
use sip_exporter.Prelude.{ℕ, ◌+◌, ◌-◌, ◌*◌, ◌/◌, ◌≡◌, refl, true, false, List, [], ◌∷◌, arith, u16}
use sip_exporter.Rtp.{Header}
use sip_exporter.Stream.{FloatOps, StreamState, new_stream_state, observe}
use sip_exporter.Stream.Counters.{Inv, observe-Inv}
use sip_exporter.Stream.Sequence.{Packet, run, base_after, run_fills}
use sip_exporter.Stream.Timing.{SameTiming, observe-SameTiming}

instance abbrev whole : FloatOps ℕ
whole = record {
  of_ℕ = λ n. n;
  add = λ a b. a + b;
  sub = λ a b. a - b;
  mul = λ a b. a * b;
  div = λ a b. a / b;
}

abbrev header : ℕ → Header
header seq = record {
  version = 2;
  padding = false;
  extension = false;
  csrc_count = 0;
  marker = false;
  payload_type = 8;
  sequence_number = seq;
  timestamp = 160;
  ssrc = 7;
}

abbrev packet : ℕ → Packet
packet seq = record { header = header seq; arrival = 20_000_000; is_audio = true }

abbrev start : StreamState ℕ
start = record {
  ssrc = 7;
  codec = "PCMA";
  clock_rate = 8000;
  max_seq = 0;
  last_ts = 0;
  last_arrival = 0;
  jitter_ticks = 0;
  last_packet_delay_variation_ms = 0;
  packets_total = 0;
  packets_lost = 0;
  packets_duplicate = 0;
  packets_reorder = 0;
  burst_loss = 0;
  gap_loss = 0;
  loss_run = 0;
  has_prev = false;
}

-- Two packets are lost across the wrap of the sequence number, and one comes late.
abbrev across : List Packet
across = packet 65535 ∷ packet 2 ∷ packet 1 ∷ []

run_fills_example :
    u16 (
      base_after 0 start (packet 65534 ∷ across)
      + (run start (packet 65534 ∷ across)).packets_total
      + (run start (packet 65534 ∷ across)).packets_lost)
    ≡ u16 ((run start (packet 65534 ∷ across)).max_seq + 1)
run_fills_example =
    run_fills start 7 "PCMA" 8000 0 (packet 65534) across (unfold new_stream_state in refl)
      (omega arith)

observe-Inv_example : Inv (observe start (header 5) 20_000_000 true)
observe-Inv_example = observe-Inv start (header 5) 20_000_000 true (omega arith)

abbrev running : StreamState ℕ
running = record start { packets_total = 1; max_seq = 5; has_prev = true }

observe-SameTiming_example : SameTiming running (observe running (header 8) 20_000_000 false)
observe-SameTiming_example = observe-SameTiming running (header 8) 20_000_000 refl
