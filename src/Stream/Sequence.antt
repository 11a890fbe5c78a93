-- ===== src/Stream/Sequence.antt =====
-- Packet counts against 16-bit sequence numbers that wrap around.
use sip_exporter.Prelude.{
  ℕ, ◌+◌, ◌<◌, ◌≡◌, ◌^◌, ◌-◌, ◌⊎◌, Bool, true, false, String, List, [], ◌∷◌, arith, u16, u64, sub16,
  not, ◌||◌, ◌&&◌, ltb, if◌then◌else◌, All,
}
use sip_exporter.Rtp.{Header}
use sip_exporter.Stream.{
  FloatOps, StreamState, max_gap, seq_half, new_stream_state, observe, observe_first,
  observe_reordered, observe_restart, observe_forward, observe_duplicate,
}

-- A packet as the stream sees it: its header, its arrival, and whether its codec is audio.
pub record Packet : Type 0 where
  pub header : Header
  pub arrival : ℕ
  pub is_audio : Bool

abbrev pub IsPacket : Packet → Type 0
IsPacket p = p.header.sequence_number < 2 ^ 16

fill_one :
    (base total lost old new : ℕ)
    → old < 2 ^ 16
    → new < 2 ^ 16
    → sub16 new old ≡ 1
    → u16 (base + total + lost) ≡ u16 (old + 1)
    → u16 (base + u64 (total + 1) + lost) ≡ u16 (new + 1)
fill_one base total lost old new h k d e = omega arith

fill_more :
    (base total lost old new delta : ℕ)
    → old < 2 ^ 16
    → new < 2 ^ 16
    → sub16 new old ≡ delta
    → 0 < delta
    → u16 (base + total + lost) ≡ u16 (old + 1)
    → u16 (base + u64 (total + 1) + u64 (lost + (delta - 1))) ≡ u16 (new + 1)
fill_more base total lost old new delta h k d pos e = omega arith

module _ {F : Type 0} ⦃fl : FloatOps F⦄ where
  abbrev pub run : StreamState F → List Packet → StreamState F
  run s [] = s
  run s (p ∷ ps) = run (observe s p.header p.arrival p.is_audio) ps

  -- The packet starts the count anew: it is the first, or comes after a gap above `max_gap`.
  abbrev pub restarts : StreamState F → Header → Bool
  restarts s h =
      let delta = sub16 h.sequence_number s.max_seq in
      not s.has_prev || (ltb max_gap delta && ltb delta seq_half)

  -- The sequence number from which the stream counts.
  abbrev pub base_after : ℕ → StreamState F → List Packet → ℕ
  base_after base s [] = base
  base_after base s (p ∷ ps) =
      base_after (if restarts s p.header then p.header.sequence_number else base)
        (observe s p.header p.arrival p.is_audio) ps

  -- Received and lost packets together fill the range from `base` to the highest number seen.
  pub record Fills (base : ℕ) (s : StreamState F) : Type 0 where
    pub seq_fits : s.max_seq < 2 ^ 16
    pub fresh : s.has_prev ≡ false → (s.packets_total ≡ 0) × (s.packets_lost ≡ 0)
    pub filled :
        s.has_prev ≡ true → u16 (base + s.packets_total + s.packets_lost) ≡ u16 (s.max_seq + 1)

  observe_forward-Fills :
      (base : ℕ) (s : StreamState F) (p : Packet) (delta : ℕ)
      → IsPacket p
      → s.has_prev ≡ true
      → sub16 p.header.sequence_number s.max_seq ≡ delta
      → 0 < delta
      → Fills base s
      → Fills base (observe_forward s p.header p.arrival delta p.is_audio)
  unfolding observe_forward
  observe_forward-Fills base s p delta w old d pos v = ground (
    arith,
    fill_one base s.packets_total s.packets_lost s.max_seq p.header.sequence_number,
    fill_more base s.packets_total s.packets_lost s.max_seq p.header.sequence_number delta,
    v.filled,
  )

  observe_start-Fills :
      (base : ℕ) (s : StreamState F) (p : Packet)
      → IsPacket p
      → s.has_prev ≡ false
      → s.packets_total ≡ 0
      → s.packets_lost ≡ 0
      → Fills p.header.sequence_number (observe_first s p.header p.arrival)
  unfolding observe_first
  observe_start-Fills base s p w new t l = ground arith

  observe_restart-Fills :
      (s : StreamState F) (p : Packet)
      → IsPacket p
      → Fills p.header.sequence_number (observe_restart s p.header p.arrival)
  unfolding observe_restart
  observe_restart-Fills s p w = ground arith

  observe_reordered-Fills :
      (base : ℕ) (s : StreamState F) (p : Packet)
      → Fills base s
      → Fills base (observe_reordered s p.header p.arrival p.is_audio)
  unfolding observe_reordered
  observe_reordered-Fills base s p v = ground (arith, v.filled)

  observe_duplicate-Fills :
      (base : ℕ) (s : StreamState F) (p : Packet)
      → Fills base s
      → Fills base (observe_duplicate s p.header p.arrival p.is_audio)
  unfolding observe_duplicate
  observe_duplicate-Fills base s p v = ground (arith, v.filled)

  observe-Fills :
      (base : ℕ) (s : StreamState F) (p : Packet)
      → IsPacket p
      → Fills base s
      → Fills
          (if restarts s p.header then p.header.sequence_number else base)
          (observe s p.header p.arrival p.is_audio)
  unfolding observe
  observe-Fills base s p w v = ground (
    arith,
    v.fresh,
    observe_start-Fills base s p w,
    observe_restart-Fills s p w,
    observe_reordered-Fills base s p v,
    observe_duplicate-Fills base s p v,
    observe_forward-Fills base s p (sub16 p.header.sequence_number s.max_seq) w,
  )

  run-Fills :
      (base : ℕ) (s : StreamState F) (ps : List Packet)
      → All IsPacket ps
      → Fills base s
      → Fills (base_after base s ps) (run s ps)
  run-Fills base s [] w v = v
  run-Fills base s (p ∷ ps) w v =
      run-Fills (if restarts s p.header then p.header.sequence_number else base)
        (observe s p.header p.arrival p.is_audio) ps w.1 (observe-Fills base s p w.0 v)

  new-Fills :
      (ssrc : ℕ) (codec : String) (rate now : ℕ) → Fills 0 (new_stream_state ssrc codec rate now)
  unfolding new_stream_state
  new-Fills ssrc codec rate now = ground arith

  observe-has_prev :
      (s : StreamState F) (p : Packet) → (observe s p.header p.arrival p.is_audio).has_prev ≡ true
  unfolding observe observe_first observe_reordered observe_restart observe_forward
      observe_duplicate
  observe-has_prev s p = ground arith

  run-has_prev :
      (s : StreamState F) (ps : List Packet) → s.has_prev ≡ true → (run s ps).has_prev ≡ true
  run-has_prev s [] h = h
  run-has_prev s (p ∷ ps) h =
      run-has_prev (observe s p.header p.arrival p.is_audio) ps (observe-has_prev s p)

  -- After any packets, in any order and with any repeats, received and lost packets of a stream
  -- fill the sequence numbers from its last restart to the highest, modulo 2 ^ 16.
  pub run_fills :
      (start : StreamState F) (ssrc : ℕ) (codec : String) (rate now : ℕ) (p : Packet)
      (ps : List Packet)
      → start ≡ new_stream_state ssrc codec rate now
      → All IsPacket (p ∷ ps)
      → u16 (
          base_after 0 start (p ∷ ps)
          + (run start (p ∷ ps)).packets_total
          + (run start (p ∷ ps)).packets_lost)
        ≡ u16 ((run start (p ∷ ps)).max_seq + 1)
  run_fills start ssrc codec rate now p ps e w =
      (run-Fills 0 start (p ∷ ps) w (rw e (new-Fills ssrc codec rate now))).filled
        (run-has_prev (observe start p.header p.arrival p.is_audio) ps (observe-has_prev start p))

  -- The counters of received, repeated and late packets.
  abbrev pub CountsOne : StreamState F → StreamState F → Type 0
  CountsOne s t =
      ((t.packets_total ≡ s.packets_total + 1)
        × (t.packets_duplicate ≡ s.packets_duplicate)
        × (t.packets_reorder ≡ s.packets_reorder))
      ⊎ ((t.packets_total ≡ s.packets_total)
          × (t.packets_duplicate ≡ s.packets_duplicate + 1)
          × (t.packets_reorder ≡ s.packets_reorder)
          × (t.packets_lost ≡ s.packets_lost))
      ⊎ ((t.packets_total ≡ s.packets_total)
          × (t.packets_duplicate ≡ s.packets_duplicate)
          × (t.packets_reorder ≡ s.packets_reorder + 1)
          × (t.packets_lost ≡ s.packets_lost))

  pub record HasRoom (s : StreamState F) : Type 0 where
    pub total_room : s.packets_total + 1 < 2 ^ 64
    pub duplicate_room : s.packets_duplicate + 1 < 2 ^ 64
    pub reorder_room : s.packets_reorder + 1 < 2 ^ 64

  -- While no counter is full, a packet that neither starts nor restarts the stream is counted once:
  -- as received, as a duplicate or as late. The latter two leave the losses alone.
  pub observe-CountsOne :
      (s : StreamState F) (p : Packet)
      → HasRoom s
      → restarts s p.header ≡ false
      → CountsOne s (observe s p.header p.arrival p.is_audio)
  unfolding observe observe_first observe_reordered observe_restart observe_forward
      observe_duplicate
  observe-CountsOne s p r h = ground arith

  -- A packet that restarts a running stream leaves one received packet and no loss, duplicate or
  -- late packet, and becomes the highest number.
  pub observe-restarts :
      (s : StreamState F) (p : Packet)
      → s.has_prev ≡ true
      → restarts s p.header ≡ true
      → let t = observe s p.header p.arrival p.is_audio in
        (t.packets_total ≡ 1)
        × (t.packets_lost ≡ 0)
        × (t.packets_duplicate ≡ 0)
        × (t.packets_reorder ≡ 0)
        × (t.loss_run ≡ 0)
        × (t.max_seq ≡ p.header.sequence_number)
  unfolding observe observe_first observe_reordered observe_restart observe_forward
      observe_duplicate
  observe-restarts s p h r = ground arith
