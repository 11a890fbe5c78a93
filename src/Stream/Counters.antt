-- ===== src/Stream/Counters.antt =====
-- What the counters of a stream add up to.
use sip_exporter.Prelude.{ℕ, ◌+◌, ◌≤◌, ◌<◌, ◌≡◌, Bool, String, arith, u64}
use sip_exporter.Rtp.{Header}
use sip_exporter.Stream.{
  FloatOps, StreamState, max_gap, new_stream_state, classify_loss_run, observe, observe_first,
  observe_reordered, observe_restart, observe_forward, observe_duplicate,
}

module _ {F : Type 0} ⦃fl : FloatOps F⦄ where
  -- Every lost packet is in a burst, in a gap, or in the run that is still open; the run is short.
  pub record Inv (s : StreamState F) : Type 0 where
    pub lost_split : u64 (s.burst_loss + s.gap_loss + s.loss_run) ≡ s.packets_lost
    pub run_short : s.loss_run < max_gap

  pub new-Inv :
      (ssrc : ℕ) (codec : String) (rate now : ℕ) → Inv (new_stream_state ssrc codec rate now)
  unfolding new_stream_state
  new-Inv ssrc codec rate now = ground arith

  pub classify-Inv : (s : StreamState F) → Inv s → Inv (classify_loss_run s)
  unfolding classify_loss_run
  classify-Inv s v = ground arith

  observe_forward-Inv :
      (s : StreamState F) (h : Header) (arrival delta : ℕ) (is_audio : Bool)
      → delta ≤ max_gap
      → Inv s
      → Inv (observe_forward s h arrival delta is_audio)
  unfolding observe_forward
  observe_forward-Inv s h arrival delta is_audio d v = ground arith

  -- Every packet, of any kind, keeps the losses accounted for.
  pub observe-Inv :
      (s : StreamState F) (h : Header) (arrival : ℕ) (is_audio : Bool)
      → Inv s
      → Inv (observe s h arrival is_audio)
  unfolding observe observe_first observe_reordered observe_restart observe_forward
      observe_duplicate
  observe-Inv s h arrival is_audio v = ground arith
