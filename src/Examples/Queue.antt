-- ===== src/Examples/Queue.antt =====
-- A queue of three packets, with two threads that wait.
use sip_exporter.Prelude.{◌≡◌, refl, List, [], ◌∷◌, arith}
use sip_exporter.Ring.Queue.{
  new_queue, try_sip, enter_sip, enqueue_rtp, reserve, reserve_all, dequeue_frame, release,
}
use sip_exporter.Ring.Queue.Accounted.{
  Action, enters, tries, rtp, takes, steps, Accounted, steps-Accounted,
}
use sip_exporter.Ring.Queue.Order.{steps_in_order}

-- RTP fills the queue; two SIP runs wait; a frame is taken; the first is admitted.
abbrev users : List Action
users = rtp 5 ∷ enters 1 ∷ enters 1 ∷ tries 0 ∷ takes 0 ∷ rtp 1 ∷ tries 1 ∷ tries 0 ∷ []

users_run : (steps (new_queue 3) users).runs ≡ 2 ∷ 1 ∷ []
unfolding new_queue try_sip enter_sip enqueue_rtp reserve reserve_all dequeue_frame release
users_run = refl

steps-Accounted_example : Accounted 3 (steps (new_queue 3) users)
steps-Accounted_example = steps-Accounted 3 users

steps_in_order_example :
    (try_sip (steps (new_queue 3) users) 1).serving_sip ≡ (steps (new_queue 3) users).serving_sip
steps_in_order_example = steps_in_order 3 users 1 (omega arith) (omega arith)
