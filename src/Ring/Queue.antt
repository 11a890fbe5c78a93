-- ===== src/Ring/Queue.antt =====
-- `packetBatchQueue` of internal/exporter/packet_ring.go with its accounting. An atomic operation,
-- and a stretch of code under the admission lock, is one step. A loop that ends in a
-- `CompareAndSwap` is one step at the moment when that succeeds. The channel never blocks, since it
-- has room for as many runs as packets are admitted.
pub mod Accounted
pub mod Tickets
pub mod Turns
pub mod Order
use sip_exporter.Prelude.{
  ℕ, zero, suc, ◌+◌, ◌-◌, Bool, true, false, not, ◌&&◌, ◌||◌, List, [], ◌∷◌, ◌++◌, Option, none,
  some, ltb, leb, ◌==◌, if◌then◌else◌, get_elem?, get_or, set, min, u64, take, drop,
}

pub record Accounting : Type 0 where
  pub max_packets : ℕ
  pub queued_packets : ℕ

-- What is taken of `requested`.
unfoldable pub reserve : Accounting → ℕ → Accounting × ℕ
reserve a requested =
    let accepted = min requested (a.max_packets - a.queued_packets) in
    if requested == 0 || leb a.max_packets a.queued_packets
    then (a, 0)
    else (record a { queued_packets = a.queued_packets + accepted }, accepted)

unfoldable pub reserve_all : Accounting → ℕ → Accounting × Bool
reserve_all a requested =
    if ltb a.max_packets (a.queued_packets + requested)
    then (a, false)
    else (record a { queued_packets = a.queued_packets + requested }, true)

-- In Go the difference may be negative; here it stops at 0.
unfoldable pub release : Accounting → ℕ → Accounting
release a packet_count = record a { queued_packets = a.queued_packets - packet_count }

-- A thread in `enqueueSIPRun`, between the visits that it pays to the lock.
pub record Waiter : Type 0 where
  pub ticket : ℕ
  pub packet_count : ℕ

-- `runs` has what remains of each run, in the channel or with a worker.
pub record Queue : Type 0 where
  pub accounting : Accounting
  pub runs : List ℕ
  pub waiting : List Waiter
  pub pending_sip : ℕ
  pub next_sip : ℕ
  pub serving_sip : ℕ
  pub stopped : Bool
  pub dropped : ℕ

unfoldable pub new_queue : ℕ → Queue
new_queue capacity = record {
  accounting = record { max_packets = capacity; queued_packets = 0 };
  runs = [];
  waiting = [];
  pending_sip = 0;
  next_sip = 0;
  serving_sip = 0;
  stopped = false;
  dropped = 0;
}

abbrev pub remove : ℕ → List Waiter → List Waiter
remove k ws = take k ws ++ drop (suc k) ws

-- `enqueueSIPRun` up to its loop: a ticket is taken.
unfoldable pub enter_sip : Queue → ℕ → Queue
enter_sip q packet_count = if q.stopped then q else record q {
  waiting = q.waiting ++ (record { ticket = q.next_sip; packet_count = packet_count } ∷ []);
  pending_sip = q.pending_sip + 1;
  next_sip = u64 (q.next_sip + 1);
}

-- One round of that loop, by the k-th thread that waits.
unfoldable pub try_sip : Queue → ℕ → Queue
try_sip q k = elim (get_elem? q.waiting k) [
  | none ↦ q
  | some w ↦
      let gone = record q { waiting = remove k q.waiting; pending_sip = q.pending_sip - 1 } in
      let (accounting, admitted) = reserve_all q.accounting w.packet_count in
      if q.stopped
      then gone
      else if w.ticket == q.serving_sip && admitted
      then record gone {
        accounting = accounting;
        runs = q.runs ++ (w.packet_count ∷ []);
        serving_sip = u64 (q.serving_sip + 1);
      }
      else q
]

-- `enqueueRTPRun`
unfoldable pub enqueue_rtp : Queue → ℕ → Queue
enqueue_rtp q packet_count =
    let (accounting, accepted) =
      if q.pending_sip == 0 then reserve q.accounting packet_count else (q.accounting, 0) in
    if q.stopped then q else record q {
      accounting = accounting;
      dropped = q.dropped + (packet_count - accepted);
      runs = if accepted == 0 then q.runs else q.runs ++ (accepted ∷ []);
    }

-- `packetRingFrameRun.dequeueFrame` on the k-th run. A run that was released has nothing left.
unfoldable pub dequeue_frame : Queue → ℕ → Queue
dequeue_frame q k =
    let remaining = get_or q.runs k 0 in
    if remaining == 0
    then q
    else record q { accounting = release q.accounting 1; runs = set q.runs k (remaining - 1) }

-- `packetRingFrameRun.release` on the k-th run.
unfoldable pub release_run : Queue → ℕ → Queue
release_run q k = record q {
  accounting = release q.accounting (get_or q.runs k 0);
  runs = set q.runs k 0;
}

unfoldable pub stop : Queue → Queue
stop q = record q { stopped = true }
