-- ===== src/Tracker/Reported.antt =====
-- What `observe` of internal/mediatracker/tracker.go reports of the packets of one stream.
use sip_exporter.Prelude.{
  ℕ, ◌+◌, ◌-◌, ◌*◌, ◌<◌, ◌≤◌, ◌≡◌, ◌^◌, Bool, true, false, ◌&&◌, String, List, [], ◌∷◌, Option,
  arith, ltb, leb, if◌then◌else◌, sub16, length, subst, refl, u64, Bool-cases, inl, inr,
}
use sip_exporter.Rtp.{Header, is_audio_codec}
use sip_exporter.Stream.{
  FloatOps, StreamState, max_gap, seq_half, new_stream_state, observe, observe_first,
  observe_reordered, observe_restart, observe_forward, observe_duplicate,
}
use sip_exporter.Stream.Sequence.{Packet, HasRoom, restarts, observe-CountsOne, observe-restarts}
use sip_exporter.Tracker.{Endpoint, MediaLabels, StreamEntry}
use sip_exporter.Tracker.Rtp.{Match, ObserveResult, new_entry, observe_entry, observe_result}

-- A packet that the stream gets: its header, its arrival and its codec.
pub record Seen : Type 0 where
  pub header : Header
  pub arrival : ℕ
  pub codec : String

abbrev pub one : Bool → ℕ
one b = if b then 1 else 0

-- In how many ways the packet is reported.
abbrev pub ways : {F : Type 0} → ObserveResult F → ℕ
ways r = one r.counted + one r.duplicate + one r.reorder

-- The difference that is reported, of a counter that grows by the gap or does not grow.
reported_loss :
    (old new gap : ℕ) (moving : Bool)
    → (moving ≡ true → new ≡ old + gap)
    → (moving ≡ false → new ≤ old)
    → (if leb old new then new - old else 0) ≡ (if moving then gap else 0)
reported_loss old new gap true moves stays = ground (arith, moves refl)
reported_loss old new gap false moves stays = ground (arith, stays refl)

module _ {F : Type 0} ⦃fl : FloatOps F⦄ where
  abbrev pub next_entry : StreamEntry F → Seen → StreamEntry F
  next_entry e p = observe_entry e p.header p.arrival p.codec

  abbrev pub after : StreamEntry F → List Seen → StreamEntry F
  after e [] = e
  after e (p ∷ ps) = after (next_entry e p) ps

  -- How far the packet is ahead of the highest number, modulo 2^16.
  abbrev pub ahead : StreamState F → Header → ℕ
  ahead s h = sub16 h.sequence_number s.max_seq

  -- A gap above `max_gap` of a running stream.
  abbrev pub jumps : StreamState F → Header → Bool
  jumps s h = s.has_prev && ltb max_gap (ahead s h) && ltb (ahead s h) seq_half

  abbrev pub moves_forward : StreamState F → Header → Bool
  moves_forward s h = s.has_prev && ltb 0 (ahead s h) && leb (ahead s h) max_gap

  -- No counter is above what this many packets can make it.
  record Bounded (n : ℕ) (s : StreamState F) : Type 0 where
    total_bound : s.packets_total ≤ n
    duplicate_bound : s.packets_duplicate ≤ n
    reorder_bound : s.packets_reorder ≤ n
    lost_bound : s.packets_lost ≤ max_gap * n
    running : s.has_prev ≡ true → 0 < s.packets_total

  observe-Bounded :
      (n : ℕ) (s : StreamState F) (h : Header) (arrival : ℕ) (is_audio : Bool)
      → max_gap * (n + 1) < 2 ^ 64
      → Bounded n s
      → Bounded (n + 1) (observe s h arrival is_audio)
  unfolding observe observe_first observe_reordered observe_restart observe_forward
      observe_duplicate
  observe-Bounded n s h arrival is_audio room v = ground arith

  after-Bounded :
      (n : ℕ) (e : StreamEntry F) (ps : List Seen)
      → max_gap * (n + length ps) < 2 ^ 64
      → Bounded n e.state
      → Bounded (n + length ps) (after e ps).state
  after-Bounded n e [] room v = subst (λ k. Bounded k e.state) (omega arith) v
  after-Bounded n e (p ∷ ps) room v =
      subst (λ k. Bounded k (after (next_entry e p) ps).state) (omega arith)
        (after-Bounded (n + 1) (next_entry e p) ps (omega (arith, room)) (
          observe-Bounded n e.state p.header p.arrival (is_audio_codec p.codec)
            (omega (arith, room)) v))

  observe_moving :
      (n : ℕ) (s : StreamState F) (h : Header) (arrival : ℕ) (is_audio : Bool)
      → max_gap * (n + 1) < 2 ^ 64
      → s.packets_lost ≤ max_gap * n
      → moves_forward s h ≡ true
      → (observe s h arrival is_audio).packets_lost ≡ s.packets_lost + (ahead s h - 1)
  unfolding observe observe_first observe_reordered observe_restart observe_forward
      observe_duplicate
  observe_moving n s h arrival is_audio room bound moving = ground arith

  observe_still :
      (s : StreamState F) (h : Header) (arrival : ℕ) (is_audio : Bool)
      → moves_forward s h ≡ false
      → (observe s h arrival is_audio).packets_lost ≤ s.packets_lost
  unfolding observe observe_first observe_reordered observe_restart observe_forward
      observe_duplicate
  observe_still s h arrival is_audio still = ground arith

  observe_starting :
      (s : StreamState F) (h : Header) (arrival : ℕ) (is_audio : Bool)
      → s.has_prev ≡ false
      → let t = observe s h arrival is_audio in
        (t.packets_total ≡ u64 (s.packets_total + 1))
        × (t.packets_duplicate ≡ s.packets_duplicate)
        × (t.packets_reorder ≡ s.packets_reorder)
  unfolding observe observe_first
  observe_starting s h arrival is_audio first = ground arith

  report_ways :
      (n : ℕ) (s : StreamState F) (h : Header) (arrival : ℕ) (is_audio : Bool) (m : Match)
      (codec : String) (learned : Option Endpoint)
      → max_gap * (n + 1) < 2 ^ 64
      → Bounded n s
      → ways (observe_result s (observe s h arrival is_audio) m codec learned)
        ≡ (if jumps s h then 0 else 1)
  report_ways n s h arrival is_audio m codec learned room v =
      let p : Packet = record { header = h; arrival = arrival; is_audio = is_audio } in
      let fits : HasRoom s = record {
        total_room = omega (arith, room, v.total_bound);
        duplicate_room = omega (arith, room, v.duplicate_bound);
        reorder_room = omega (arith, room, v.reorder_bound);
      } in
      elim (Bool-cases s.has_prev) [
        | inr first ↦
            let started = observe_starting s h arrival is_audio first in
            ground (arith, first, started, room, v.total_bound)
        | inl running ↦ elim (Bool-cases (restarts s h)) [
          | inl again ↦
              let anew = observe-restarts s p running again in
              ground (arith, running, again, anew, v.running running)
          | inr on ↦ let once = observe-CountsOne s p fits on in ground (arith, running, on, once)
        ]
      ]

  report_loss :
      (n : ℕ) (s : StreamState F) (h : Header) (arrival : ℕ) (is_audio : Bool) (m : Match)
      (codec : String) (learned : Option Endpoint)
      → max_gap * (n + 1) < 2 ^ 64
      → Bounded n s
      → (observe_result s (observe s h arrival is_audio) m codec learned).lost
        ≡ (if moves_forward s h then ahead s h - 1 else 0)
  report_loss n s h arrival is_audio m codec learned room v =
      reported_loss s.packets_lost (observe s h arrival is_audio).packets_lost (ahead s h - 1)
        (moves_forward s h) (observe_moving n s h arrival is_audio room v.lost_bound)
        (observe_still s h arrival is_audio)

  new-Bounded :
      (h : Header) (codec : String) (labels : MediaLabels) (arrival : ℕ)
      → Bounded 0 (new_entry h codec labels arrival).state
  unfolding new_stream_state
  new-Bounded h codec labels arrival = ground arith

module _ (F : Type 0) ⦃fl : FloatOps F⦄ where
  -- Whatever packets a new stream has got, as long as no 64-bit counter can wrap around, the next is
  -- reported in exactly one way, as counted, as a duplicate or as late, but in none of them where it
  -- jumps ahead of a running stream by more than the largest gap and by less than half of the
  -- numbers. The loss reported with it is the gap that it leaves where it moves a running stream
  -- forward by no more than the largest gap, and nothing otherwise.
  pub observe_result-after :
      (h : Header) (codec : String) (labels : MediaLabels) (arrival : ℕ) (ps : List Seen) (p : Seen)
      (m : Match) (learned : Option Endpoint)
      → max_gap * (length ps + 1) < 2 ^ 64
      → let e : StreamEntry F = after (new_entry h codec labels arrival) ps in
        let r = observe_result e.state (next_entry e p).state m p.codec learned in
        (ways r ≡ (if jumps e.state p.header then 0 else 1))
        × (r.lost ≡ (if moves_forward e.state p.header then ahead e.state p.header - 1 else 0))
  observe_result-after h codec labels arrival ps p m learned room =
      let start : StreamEntry F = new_entry h codec labels arrival in
      let v : Bounded (length ps) (after start ps).state =
        subst (λ k. Bounded k (after start ps).state) (omega arith)
          (after-Bounded 0 start ps (omega (arith, room)) (new-Bounded h codec labels arrival)) in
      let e = after start ps in
      (
        report_ways (length ps) e.state p.header p.arrival (is_audio_codec p.codec) m p.codec
            learned room v,
        report_loss (length ps) e.state p.header p.arrival (is_audio_codec p.codec) m p.codec
            learned room v,
      )
