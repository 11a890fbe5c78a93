-- ===== src/Ring/Queue/Accounted.antt =====
-- The queue under any interleaving of its users.
use sip_exporter.Prelude.{
  ℕ, zero, suc, ◌+◌, ◌-◌, ◌≤◌, ◌≡◌, List, [], ◌∷◌, ◌++◌, some, get_elem?, get_or, set, length,
  length-append, arith, Option-cases, inl, inr,
}
use sip_exporter.Ring.Queue.{
  Queue, Waiter, reserve, reserve_all, release, new_queue, remove, enter_sip, try_sip, enqueue_rtp,
  dequeue_frame, release_run, stop,
}

pub data Action : Type 0 where
  enters tries rtp takes releases : ℕ → Action
  stops : Action

abbrev pub step : Queue → Action → Queue
step q (enters n) = enter_sip q n
step q (tries k) = try_sip q k
step q (rtp n) = enqueue_rtp q n
step q (takes k) = dequeue_frame q k
step q (releases k) = release_run q k
step q stops = stop q

abbrev pub steps : Queue → List Action → Queue
steps q [] = q
steps q (a ∷ xs) = steps (step q a) xs

abbrev pub sum : List ℕ → ℕ
sum [] = 0
sum (n ∷ ns) = n + sum ns

sum-append_one : (ns : List ℕ) (n : ℕ) → sum (ns ++ (n ∷ [])) ≡ sum ns + n
sum-append_one [] n = omega arith
sum-append_one (m ∷ ns) n = omega (arith, sum-append_one ns n)

sum-set :
    (ns : List ℕ) (k v : ℕ) → v ≤ get_or ns k 0 → sum (set ns k v) + get_or ns k 0 ≡ sum ns + v
sum-set [] k v h = omega arith
sum-set (n ∷ ns) zero v h = omega arith
sum-set (n ∷ ns) (suc k) v h = omega (arith, sum-set ns k v h)

get_or-le-sum : (ns : List ℕ) (k : ℕ) → get_or ns k 0 ≤ sum ns
get_or-le-sum [] k = omega arith
get_or-le-sum (n ∷ ns) zero = omega arith
get_or-le-sum (n ∷ ns) (suc k) = omega (arith, get_or-le-sum ns k)

pub length-remove :
    (ws : List Waiter) (k : ℕ) (w : Waiter)
    → get_elem? ws k ≡ some w
    → length (remove k ws) + 1 ≡ length ws
length-remove [] k w e = absurd (ground arith)
length-remove (v ∷ ws) zero w e = omega arith
length-remove (v ∷ ws) (suc k) w e = omega (arith, length-remove ws k w e)

-- What remains of the admitted runs is what is queued, and no more than the capacity; every thread
-- that waits is counted.
pub record Accounted (capacity : ℕ) (q : Queue) : Type 0 where
  pub same_capacity : q.accounting.max_packets ≡ capacity
  pub queued_exact : sum q.runs ≡ q.accounting.queued_packets
  pub bounded : q.accounting.queued_packets ≤ capacity
  pub pending_exact : q.pending_sip ≡ length q.waiting

enter_sip-Accounted : (c : ℕ) (q : Queue) (n : ℕ) → Accounted c q → Accounted c (enter_sip q n)
unfolding enter_sip
enter_sip-Accounted c q n v =
    ground (arith, length-append q.waiting (record { ticket = q.next_sip; packet_count = n } ∷ []))

try_sip-Accounted : (c : ℕ) (q : Queue) (k : ℕ) → Accounted c q → Accounted c (try_sip q k)
unfolding try_sip reserve_all
try_sip-Accounted c q k v = elim (Option-cases (get_elem? q.waiting k)) [
  | inl absent ↦ rw (absent, try_sip) v
  | inr (w, found) ↦
      rw (found, try_sip)
        (ground (arith, length-remove q.waiting k w found, sum-append_one q.runs w.packet_count))
]

enqueue_rtp-Accounted : (c : ℕ) (q : Queue) (n : ℕ) → Accounted c q → Accounted c (enqueue_rtp q n)
unfolding enqueue_rtp reserve
enqueue_rtp-Accounted c q n v = ground (arith, sum-append_one q.runs (reserve q.accounting n).1)

dequeue_frame-Accounted :
    (c : ℕ) (q : Queue) (k : ℕ) → Accounted c q → Accounted c (dequeue_frame q k)
unfolding dequeue_frame release
dequeue_frame-Accounted c q k v =
    ground (arith, sum-set q.runs k (get_or q.runs k 0 - 1), get_or-le-sum q.runs k)

release_run-Accounted : (c : ℕ) (q : Queue) (k : ℕ) → Accounted c q → Accounted c (release_run q k)
unfolding release_run release
release_run-Accounted c q k v = ground (arith, sum-set q.runs k 0, get_or-le-sum q.runs k)

stop-Accounted : (c : ℕ) (q : Queue) → Accounted c q → Accounted c (stop q)
unfolding stop
stop-Accounted c q v = ground arith

step-Accounted : (c : ℕ) (q : Queue) (a : Action) → Accounted c q → Accounted c (step q a)
step-Accounted c q (enters n) v = enter_sip-Accounted c q n v
step-Accounted c q (tries k) v = try_sip-Accounted c q k v
step-Accounted c q (rtp n) v = enqueue_rtp-Accounted c q n v
step-Accounted c q (takes k) v = dequeue_frame-Accounted c q k v
step-Accounted c q (releases k) v = release_run-Accounted c q k v
step-Accounted c q stops v = stop-Accounted c q v

steps-Accounted_from :
    (c : ℕ) (q : Queue) (xs : List Action) → Accounted c q → Accounted c (steps q xs)
steps-Accounted_from c q [] v = v
steps-Accounted_from c q (a ∷ xs) v = steps-Accounted_from c (step q a) xs (step-Accounted c q a v)

-- After any interleaving of the steps of a new queue, what remains of the admitted runs is what is
-- queued, it is no more than the capacity, and every thread that waits is counted as pending.
pub steps-Accounted :
    (capacity : ℕ) (xs : List Action) → Accounted capacity (steps (new_queue capacity) xs)
unfolding new_queue
steps-Accounted capacity xs = steps-Accounted_from capacity _ xs (omega arith)
