-- ===== src/Ring/Runs.antt =====
-- `enqueueBlock` of internal/exporter/packet_ring.go: the frames of a block go to the queue in runs
-- of SIP and of other packets. The queue is any state with an enqueue operation, whose `false` says
-- that it has stopped; `is_sip` is `isSIPPacket` with the ports.
pub mod Grouping
pub mod Walks
pub mod Whole
use sip_exporter.Prelude.{
  ℕ, zero, suc, ◌+◌, Bool, true, false, not, ◌&&◌, List, [], ◌∷◌, ◌++◌, Option, none, some, Result,
  ok, err, ltb, ◌==◌, if◌then◌else◌, length, drop,
}
use sip_exporter.Prelude.Partial.{◌>>=◌}
use sip_exporter.Ring.{Uapi, RingError, Block, Frame, FrameIterator, frames, next}

abbrev pub same_class : Bool → Bool → Bool
same_class true b = b
same_class false b = not b

-- What `enqueueBlock` returns, with the queue that it leaves.
pub record Enqueued (Q : Type 0) : Type 0 where
  pub queue : Q
  pub running : Bool
  pub error : Option RingError

-- The frames so far, where the current run starts among them, and its class.
pub record Pending : Type 0 where
  pub seen : List Frame
  pub run_start : ℕ
  pub run_sip : Bool

module _ {Q : Type 0} (u : Uapi) (is_sip : Frame → Bool)
    (enqueue_run : Q → List Frame → Bool → Q × Bool) where
  -- `runStart < len(frames) && !q.enqueueRun(...)` at the end of the frames: a stop hides the error.
  abbrev pub finish : Q → Pending → Option RingError → Enqueued Q
  finish q p error =
      if ltb p.run_start (length p.seen)
      then (let (after, running) = enqueue_run q (drop p.run_start p.seen) p.run_sip in
          record { queue = after; running = running; error = if running then error else none })
      else record { queue = q; running = true; error = error }

  abbrev pub add : Pending → Frame → Pending
  add p f = record p { seen = p.seen ++ (f ∷ []) }

  abbrev pub open_run : Pending → Frame → Pending
  open_run p f = record { seen = p.seen ++ (f ∷ []); run_start = length p.seen; run_sip = is_sip f }

  -- The loop. A round takes a frame, so the fuel counts frames.
  unfoldable pub enqueue_loop : ℕ → FrameIterator → Pending → Q → Option (Enqueued Q)
  enqueue_loop zero i p q = none
  enqueue_loop (suc fuel) i p q = do
    (later, read) ← next u i
    elim read [
      | err e ↦ some (finish q p (some e))
      | ok none ↦ some (finish q p none)
      | ok (some f) ↦
          let go_on = enqueue_loop fuel later in
          if length p.seen == 0
          then go_on (record (add p f) { run_sip = is_sip f }) q
          else if same_class (is_sip f) p.run_sip
          then go_on (add p f) q
          else let (after, running) = enqueue_run q (drop p.run_start p.seen) p.run_sip in
            if running
            then go_on (open_run p f) after
            else some (record { queue = after; running = false; error = none })
    ]

  unfoldable pub enqueue_block : Block → Q → Option (Enqueued Q)
  unfolding enqueue_loop
  enqueue_block b q =
      enqueue_loop (suc b.packet_count) (frames b)
        (record { seen = []; run_start = 0; run_sip = false }) q
