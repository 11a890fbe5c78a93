-- ===== src/Stream/Timing.antt =====
-- Which packets may touch the timing of a stream.
use sip_exporter.Prelude.{ℕ, ◌≡◌, true, false, arith}
use sip_exporter.Rtp.{Header}
use sip_exporter.Stream.{
  FloatOps, StreamState, observe, observe_first, observe_reordered, observe_restart,
  observe_forward, observe_duplicate,
}
use sip_exporter.Stream.Sequence.{restarts}

module _ {F : Type 0} ⦃fl : FloatOps F⦄ where
  abbrev pub SameTiming : StreamState F → StreamState F → Type 0
  SameTiming s t =
      (t.jitter_ticks ≡ s.jitter_ticks)
      × (t.last_packet_delay_variation_ms ≡ s.last_packet_delay_variation_ms)
      × (t.last_ts ≡ s.last_ts)
      × (t.last_arrival ≡ s.last_arrival)

  abbrev pub SameCounters : StreamState F → StreamState F → Type 0
  SameCounters s t =
      (t.packets_total ≡ s.packets_total)
      × (t.packets_lost ≡ s.packets_lost)
      × (t.packets_duplicate ≡ s.packets_duplicate)
      × (t.packets_reorder ≡ s.packets_reorder)
      × (t.burst_loss ≡ s.burst_loss)
      × (t.gap_loss ≡ s.gap_loss)
      × (t.loss_run ≡ s.loss_run)
      × (t.max_seq ≡ s.max_seq)

  -- A packet that carries no audio changes the counters just as one with audio does.
  pub observe-SameCounters :
      (s : StreamState F) (h : Header) (arrival : ℕ)
      → SameCounters (observe s h arrival true) (observe s h arrival false)
  unfolding observe observe_first observe_reordered observe_restart observe_forward
      observe_duplicate
  observe-SameCounters s h arrival = ground arith

  -- A packet that carries no audio and neither starts nor restarts the stream leaves jitter, delay
  -- variation and the reference times alone.
  pub observe-SameTiming :
      (s : StreamState F) (h : Header) (arrival : ℕ)
      → restarts s h ≡ false
      → SameTiming s (observe s h arrival false)
  unfolding observe observe_first observe_reordered observe_restart observe_forward
      observe_duplicate
  observe-SameTiming s h arrival e = ground arith
