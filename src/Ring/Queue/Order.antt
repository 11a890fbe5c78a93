-- ===== src/Ring/Queue/Order.antt =====
-- The order in which threads with SIP runs are admitted.
use sip_exporter.Prelude.{
  ℕ, suc, ◌+◌, ◌^◌, ◌<◌, ◌≡◌, ◌≢◌, ◌⊎◌, refl, Bool-cases, true, false, List, [], ◌∷◌, some,
  get_elem?, length, arith, Option-cases, inl, inr,
}
use sip_exporter.Ring.Queue.{
  Queue, Waiter, new_queue, try_sip, enqueue_rtp, dequeue_frame, release_run, stop,
}
use sip_exporter.Ring.Queue.Accounted.{
  Action, enters, tries, rtp, takes, releases, stops, step, steps,
}
use sip_exporter.Ring.Queue.Turns.{
  Ordered, served_first, enter_sip-Ordered, try_sip-Ordered, try_absent,
}

-- The other steps leave the tickets alone.
record SameTickets (q r : Queue) : Type 0 where
  same_waiting : r.waiting ≡ q.waiting
  same_next : r.next_sip ≡ q.next_sip
  same_serving : r.serving_sip ≡ q.serving_sip
  still_running : r.stopped ≡ false → q.stopped ≡ false

SameTickets-Ordered : (n : ℕ) (q r : Queue) → SameTickets q r → Ordered n q → Ordered (n + 1) r
SameTickets-Ordered n q r same v = record {
  few = rw same.same_waiting (omega (arith, v.few));
  fits = rw same.same_serving v.fits;
  in_order = λ e.
      rw (same.same_waiting, same.same_next, same.same_serving) (v.in_order (same.still_running e));
}

enqueue_rtp-SameTickets : (q : Queue) (m : ℕ) → SameTickets q (enqueue_rtp q m)
unfolding enqueue_rtp
enqueue_rtp-SameTickets q m = ground arith

dequeue_frame-SameTickets : (q : Queue) (k : ℕ) → SameTickets q (dequeue_frame q k)
unfolding dequeue_frame
dequeue_frame-SameTickets q k = ground arith

release_run-SameTickets : (q : Queue) (k : ℕ) → SameTickets q (release_run q k)
unfolding release_run
release_run-SameTickets q k = ground arith

stop-SameTickets : (q : Queue) → SameTickets q (stop q)
unfolding stop
stop-SameTickets q = ground arith

step-Ordered :
    (n : ℕ) (q : Queue) (a : Action) → n < 2 ^ 64 → Ordered n q → Ordered (n + 1) (step q a)
step-Ordered n q (enters m) h v = enter_sip-Ordered n q m v
step-Ordered n q (tries k) h v = try_sip-Ordered n q k h v
step-Ordered n q (rtp m) h v = SameTickets-Ordered n q _ (enqueue_rtp-SameTickets q m) v
step-Ordered n q (takes k) h v = SameTickets-Ordered n q _ (dequeue_frame-SameTickets q k) v
step-Ordered n q (releases k) h v = SameTickets-Ordered n q _ (release_run-SameTickets q k) v
step-Ordered n q stops h v = SameTickets-Ordered n q _ (stop-SameTickets q) v

steps-Ordered :
    (n : ℕ) (q : Queue) (actions : List Action)
    → n + length actions < 2 ^ 64
    → Ordered n q
    → Ordered (n + length actions) (steps q actions)
steps-Ordered n q [] h v = let e : n + 0 ≡ n = omega arith in rw e v
steps-Ordered n q (a ∷ actions) h v =
    let e : n + suc (length actions) ≡ n + 1 + length actions = omega arith in
    rw e (
      steps-Ordered (n + 1) (step q a) actions (omega (arith, h))
        (step-Ordered n q a (omega (arith, h)) v))

-- A round that admits nobody leaves the turn as it was.
turn_kept :
    (q : Queue) (k : ℕ) (w : Waiter)
    → get_elem? q.waiting k ≡ some w
    → (q.stopped ≡ true) ⊎ (w.ticket ≢ q.serving_sip)
    → (try_sip q k).serving_sip ≡ q.serving_sip
unfolding try_sip
turn_kept q k w found h = ground arith

waits_on :
    (n : ℕ) (q : Queue) (k : ℕ)
    → n < 2 ^ 64
    → Ordered n q
    → k ≢ 0
    → (try_sip q k).serving_sip ≡ q.serving_sip
waits_on n q k bound v behind = elim (Option-cases (get_elem? q.waiting k)) [
  | inl absent ↦ rw (try_absent q k absent) refl
  | inr (w, found) ↦ elim (Bool-cases q.stopped) [
    | inl stopped ↦ turn_kept q k w found (inl stopped)
    | inr running ↦
        turn_kept q k w found (inr (λ up. behind (served_first n q k w bound v running found up)))
  ]
]

new_queue-Ordered : (capacity : ℕ) → Ordered 0 (new_queue capacity)
unfolding new_queue
new_queue-Ordered capacity = record { few = omega arith; fits = omega arith; in_order = λ e. refl }

-- After fewer than 2 ^ 64 steps of a new queue, in any interleaving, only the thread that has waited
-- longest can be admitted: a round of any other thread that waits leaves the turn as it was.
pub steps_in_order :
    (capacity : ℕ) (actions : List Action) (k : ℕ)
    → length actions < 2 ^ 64
    → k ≢ 0
    → (try_sip (steps (new_queue capacity) actions) k).serving_sip
      ≡ (steps (new_queue capacity) actions).serving_sip
steps_in_order capacity actions k h behind =
    waits_on (0 + length actions) (steps (new_queue capacity) actions) k (omega (arith, h))
      (steps-Ordered 0 (new_queue capacity) actions (omega (arith, h)) (new_queue-Ordered capacity))
      behind
