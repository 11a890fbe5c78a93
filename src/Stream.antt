-- ===== src/Stream.antt =====
-- internal/mediatracker/stream.go: the statistics of one RTP stream. Times are nanoseconds.
-- float64 is a type `F` with the operations that the code uses: the counters do not depend on it.
pub mod Counters
pub mod Sequence
pub mod Timing
use sip_exporter.Prelude.{
  ℕ, ◌+◌, ◌-◌, ◌*◌, ◌^◌, Bool, true, false, not, String, if◌then◌else◌, ltb, leb, ◌==◌, sub16,
  sub32, u64,
}
use sip_exporter.Prelude.Int.{ℤ, sub_ℕ, ◌-ℤ◌, scale_ℤ, quot_ℤ, signed_32, wrap_64, abs_ℤ}
use sip_exporter.Rtp.{Header}

pub record FloatOps (F : Type 0) : Type 0 where
  pub of_ℕ : ℕ → F
  pub add : F → F → F
  pub sub : F → F → F
  pub mul : F → F → F
  pub div : F → F → F

abbrev pub jitter_gain : ℕ
jitter_gain = 16

abbrev pub max_gap : ℕ
max_gap = 1000

abbrev pub seq_half : ℕ
seq_half = 2 ^ 15

abbrev pub burst_threshold : ℕ
burst_threshold = 3

-- `loss_run` is an int that stays below `max_gap`.
pub record StreamState (F : Type 0) : Type 0 where
  pub ssrc : ℕ
  pub codec : String
  pub clock_rate : ℕ
  pub max_seq : ℕ
  pub last_ts : ℕ
  pub last_arrival : ℕ
  pub jitter_ticks : F
  pub last_packet_delay_variation_ms : F
  pub packets_total : ℕ
  pub packets_lost : ℕ
  pub packets_duplicate : ℕ
  pub packets_reorder : ℕ
  pub burst_loss : ℕ
  pub gap_loss : ℕ
  pub loss_run : ℕ
  pub has_prev : Bool

-- The inter-arrival difference of RFC 3550, A.8, in timestamp units.
unfoldable pub transit_difference : ℕ → ℕ → ℕ → ℕ → ℕ → ℕ
transit_difference clock_rate arrival last_arrival timestamp last_ts =
    let elapsed = wrap_64 (scale_ℤ (sub_ℕ arrival last_arrival) clock_rate) in
    abs_ℤ (quot_ℤ elapsed 1_000_000_000 -ℤ signed_32 (sub32 timestamp last_ts))

module _ {F : Type 0} where
  unfoldable pub save_baseline : StreamState F → Header → ℕ → StreamState F
  save_baseline s h arrival = record s {
    last_arrival = arrival;
    last_ts = h.timestamp;
    has_prev = true;
  }

  -- `classifyLossRun`
  unfoldable pub classify_loss_run : StreamState F → StreamState F
  classify_loss_run s =
      if s.loss_run == 0
      then s
      else if leb burst_threshold s.loss_run
      then record s { burst_loss = u64 (s.burst_loss + s.loss_run); loss_run = 0 }
      else record s { gap_loss = u64 (s.gap_loss + s.loss_run); loss_run = 0 }

module _ {F : Type 0} ⦃fl : FloatOps F⦄ where
  unfoldable pub new_stream_state : ℕ → String → ℕ → ℕ → StreamState F
  new_stream_state ssrc codec clock_rate now = record {
    ssrc = ssrc;
    codec = codec;
    clock_rate = clock_rate;
    max_seq = 0;
    last_ts = 0;
    last_arrival = now;
    jitter_ticks = fl.of_ℕ 0;
    last_packet_delay_variation_ms = fl.of_ℕ 0;
    packets_total = 0;
    packets_lost = 0;
    packets_duplicate = 0;
    packets_reorder = 0;
    burst_loss = 0;
    gap_loss = 0;
    loss_run = 0;
    has_prev = false;
  }

  -- The value that `updateJitter` returns, and the state that it leaves.
  unfoldable pub delay_variation : StreamState F → Header → ℕ → F
  delay_variation s h arrival =
      if s.clock_rate == 0
      then fl.of_ℕ 0
      else fl.mul
          (fl.div
            (fl.of_ℕ (transit_difference s.clock_rate arrival s.last_arrival h.timestamp s.last_ts))
            (fl.of_ℕ s.clock_rate))
          (fl.of_ℕ 1000)

  unfoldable pub update_jitter : StreamState F → Header → ℕ → StreamState F
  update_jitter s h arrival =
      let d =
        fl.of_ℕ (transit_difference s.clock_rate arrival s.last_arrival h.timestamp s.last_ts) in
      if s.clock_rate == 0 then s else record s {
        jitter_ticks =
            fl.add s.jitter_ticks (fl.div (fl.sub d s.jitter_ticks) (fl.of_ℕ jitter_gain));
      }

  -- The first packet of a stream.
  unfoldable pub observe_first : StreamState F → Header → ℕ → StreamState F
  unfolding save_baseline
  observe_first s h arrival =
      save_baseline
        (record s { packets_total = u64 (s.packets_total + 1); max_seq = h.sequence_number }) h
        arrival

  unfoldable pub observe_reordered : StreamState F → Header → ℕ → Bool → StreamState F
  unfolding update_jitter
  observe_reordered s h arrival is_audio =
      let t = record s { packets_reorder = u64 (s.packets_reorder + 1) } in
      if is_audio then update_jitter t h arrival else t

  -- A gap above `max_gap`: the stream is taken to have restarted.
  unfoldable pub observe_restart : StreamState F → Header → ℕ → StreamState F
  unfolding save_baseline
  observe_restart s h arrival =
      save_baseline
        (record s {
          jitter_ticks = fl.of_ℕ 0;
          last_packet_delay_variation_ms = fl.of_ℕ 0;
          packets_lost = 0;
          packets_duplicate = 0;
          packets_reorder = 0;
          burst_loss = 0;
          gap_loss = 0;
          loss_run = 0;
          packets_total = 1;
          max_seq = h.sequence_number;
        })
        h arrival

  -- The timing of a packet that moves the stream forward.
  unfoldable pub forward_timing : StreamState F → Header → ℕ → Bool → StreamState F
  unfolding save_baseline update_jitter
  forward_timing s h arrival is_audio =
      if is_audio
      then save_baseline
          (record (update_jitter s h arrival) {
            last_packet_delay_variation_ms = delay_variation s h arrival;
          })
          h arrival
      else s

  unfoldable pub observe_forward : StreamState F → Header → ℕ → ℕ → Bool → StreamState F
  unfolding classify_loss_run forward_timing
  observe_forward s h arrival delta is_audio =
      let t = forward_timing (classify_loss_run s) h arrival is_audio in
      let counted = record t { packets_total = u64 (t.packets_total + 1) } in
      let lossy =
        if ltb 1 delta
        then record counted {
          packets_lost = u64 (counted.packets_lost + (delta - 1));
          loss_run = counted.loss_run + (delta - 1);
        }
        else counted in
      record lossy { max_seq = h.sequence_number }

  unfoldable pub observe_duplicate : StreamState F → Header → ℕ → Bool → StreamState F
  unfolding update_jitter
  observe_duplicate s h arrival is_audio =
      let t = record s { packets_duplicate = u64 (s.packets_duplicate + 1) } in
      if is_audio then update_jitter t h arrival else t

  -- `observe`: `Observe` is this with `is_audio` true, `ObserveNonAudio` with false.
  unfoldable pub observe : StreamState F → Header → ℕ → Bool → StreamState F
  observe s h arrival is_audio =
      let delta = sub16 h.sequence_number s.max_seq in
      if not s.has_prev
      then observe_first s h arrival
      else if leb seq_half delta
      then observe_reordered s h arrival is_audio
      else if ltb max_gap delta
      then observe_restart s h arrival
      else if ltb 0 delta
      then observe_forward s h arrival delta is_audio
      else observe_duplicate s h arrival is_audio

  -- The divisions that metrics are exported through.
  unfoldable pub jitter_ms : StreamState F → F
  jitter_ms s =
      if s.clock_rate == 0
      then fl.of_ℕ 0
      else fl.mul (fl.div s.jitter_ticks (fl.of_ℕ s.clock_rate)) (fl.of_ℕ 1000)

  unfoldable pub loss_rate : StreamState F → F
  loss_rate s =
      let expected = u64 (s.packets_total + s.packets_lost) in
      if expected == 0 then fl.of_ℕ 0 else fl.div (fl.of_ℕ s.packets_lost) (fl.of_ℕ expected)

  unfoldable pub burst_loss_density : StreamState F → F
  burst_loss_density s =
      let total = u64 (s.burst_loss + s.gap_loss) in
      if total == 0
      then fl.of_ℕ 0
      else fl.mul (fl.div (fl.of_ℕ s.burst_loss) (fl.of_ℕ total)) (fl.of_ℕ 100)

  unfoldable pub gap_loss_density : StreamState F → F
  gap_loss_density s =
      let total = u64 (s.burst_loss + s.gap_loss) in
      if total == 0
      then fl.of_ℕ 0
      else fl.mul (fl.div (fl.of_ℕ s.gap_loss) (fl.of_ℕ total)) (fl.of_ℕ 100)
