-- ===== src/Ring/Queue/Turns.antt =====
-- The turn of a thread that waits.
use sip_exporter.Prelude.{
  ℕ, ◌+◌, ◌-◌, ◌^◌, ◌≤◌, ◌<◌, ◌≡◌, refl, Bool, Bool-cases, true, false, [], ◌∷◌, ◌++◌, none, some,
  ◌==◌, ◌&&◌, if◌then◌else◌, get_elem?, u64, length, length-append, arith, Option-cases, inl, inr,
  subst, sym,
}
use sip_exporter.Ring.Queue.{Queue, Waiter, reserve_all, remove, enter_sip, try_sip}
use sip_exporter.Ring.Queue.Accounted.{length-remove}
use sip_exporter.Ring.Queue.Tickets.{
  Consecutive, Consecutive-append, Consecutive-ticket, Consecutive-remove,
}

-- `n` bounds the steps so far.
pub record Ordered (n : ℕ) (q : Queue) : Type 0 where
  pub few : length q.waiting ≤ n
  pub fits : q.serving_sip < 2 ^ 64
  pub in_order : q.stopped ≡ false → Consecutive q.serving_sip q.waiting q.next_sip

longer : (n : ℕ) (q : Queue) → Ordered n q → Ordered (n + 1) q
longer n q v = record { few = omega (arith, v.few); fits = v.fits; in_order = v.in_order }

enter_stopped : (q : Queue) (m : ℕ) → q.stopped ≡ true → enter_sip q m ≡ q
unfolding enter_sip
enter_stopped q m e = rw e refl

enter_running :
    (q : Queue) (m : ℕ)
    → q.stopped ≡ false
    → enter_sip q m ≡ record q {
      waiting = q.waiting ++ (record { ticket = q.next_sip; packet_count = m } ∷ []);
      pending_sip = q.pending_sip + 1;
      next_sip = u64 (q.next_sip + 1);
    }
unfolding enter_sip
enter_running q m e = rw e refl

pub enter_sip-Ordered : (n : ℕ) (q : Queue) (m : ℕ) → Ordered n q → Ordered (n + 1) (enter_sip q m)
unfolding enter_sip
enter_sip-Ordered n q m v =
    let newcomer : Waiter = record { ticket = q.next_sip; packet_count = m } in
    elim (Bool-cases q.stopped) [
      | inl stopped ↦ subst (Ordered (n + 1)) (sym (enter_stopped q m stopped)) (longer n q v)
      | inr running ↦ subst (Ordered (n + 1)) (sym (enter_running q m running)) (record {
        few = omega (arith, length-append q.waiting (newcomer ∷ []), v.few);
        fits = v.fits;
        in_order =
            λ e. Consecutive-append q.serving_sip q.next_sip m q.waiting (v.in_order running);
      })
    ]

-- The thread whose ticket is up waits longest.
pub served_first :
    (n : ℕ) (q : Queue) (k : ℕ) (w : Waiter)
    → n < 2 ^ 64
    → Ordered n q
    → q.stopped ≡ false
    → get_elem? q.waiting k ≡ some w
    → w.ticket ≡ q.serving_sip
    → k ≡ 0
served_first n q k w bound v running found up =
    let (ticket, short) =
      Consecutive-ticket q.serving_sip q.next_sip k q.waiting w (v.in_order running) v.fits found in
    omega (arith, ticket, short, up, v.fits, v.few)

-- What a round of a thread that waits comes to.
abbrev served : Queue → ℕ → Waiter → Queue
served q k w = record q {
  waiting = remove k q.waiting;
  pending_sip = q.pending_sip - 1;
  accounting = (reserve_all q.accounting w.packet_count).0;
  runs = q.runs ++ (w.packet_count ∷ []);
  serving_sip = u64 (q.serving_sip + 1);
}

pub try_absent : (q : Queue) (k : ℕ) → get_elem? q.waiting k ≡ none → try_sip q k ≡ q
unfolding try_sip
try_absent q k e = rw (e, try_sip) refl

try_stopped :
    (q : Queue) (k : ℕ) (w : Waiter)
    → get_elem? q.waiting k ≡ some w
    → q.stopped ≡ true
    → try_sip q k ≡ record q { waiting = remove k q.waiting; pending_sip = q.pending_sip - 1 }
unfolding try_sip
try_stopped q k w found stopped = rw (found, stopped, try_sip) refl

try_running :
    (q : Queue) (k : ℕ) (w : Waiter)
    → get_elem? q.waiting k ≡ some w
    → q.stopped ≡ false
    → try_sip q k ≡ (
        if w.ticket == q.serving_sip && (reserve_all q.accounting w.packet_count).1
        then served q k w
        else q)
unfolding try_sip
try_running q k w found running = rw (found, running, try_sip) refl

up_next : (a b : ℕ) (fits : Bool) → (a == b && fits) ≡ true → a ≡ b
up_next a b fits e = ground arith

served-Ordered :
    (n : ℕ) (q : Queue) (k : ℕ) (w : Waiter)
    → n < 2 ^ 64
    → Ordered n q
    → q.stopped ≡ false
    → get_elem? q.waiting k ≡ some w
    → w.ticket ≡ q.serving_sip
    → Ordered (n + 1) (served q k w)
served-Ordered n q k w bound v running found up =
    let head : k ≡ 0 = served_first n q k w bound v running found up in
    record {
      few = omega (arith, length-remove q.waiting k w found, v.few);
      fits = omega arith;
      in_order = λ e.
          subst (λ j. Consecutive (u64 (q.serving_sip + 1)) (remove j q.waiting) q.next_sip)
            (sym head)
            (Consecutive-remove q.serving_sip q.next_sip q.waiting w (v.in_order running)
              (subst (λ j. get_elem? q.waiting j ≡ some w) head found));
    }

pub try_sip-Ordered :
    (n : ℕ) (q : Queue) (k : ℕ) → n < 2 ^ 64 → Ordered n q → Ordered (n + 1) (try_sip q k)
try_sip-Ordered n q k bound v = elim (Option-cases (get_elem? q.waiting k)) [
  | inl absent ↦ subst (Ordered (n + 1)) (sym (try_absent q k absent)) (longer n q v)
  | inr (w, found) ↦ elim (Bool-cases q.stopped) [
    | inl stopped ↦ subst (Ordered (n + 1)) (sym (try_stopped q k w found stopped)) (record {
      few = omega (arith, length-remove q.waiting k w found, v.few);
      fits = v.fits;
      in_order = λ e. absurd (ground (arith, e, stopped));
    })
    | inr running ↦
        let admitted = w.ticket == q.serving_sip && (reserve_all q.accounting w.packet_count).1 in
        subst (Ordered (n + 1)) (sym (try_running q k w found running))
          (elim (Bool-cases admitted) [
            | inl up ↦ rw up (
                served-Ordered n q k w bound v running found
                  (up_next w.ticket q.serving_sip (reserve_all q.accounting w.packet_count).1 up))
            | inr later ↦ rw later (longer n q v)
          ])
  ]
]
