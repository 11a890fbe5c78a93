-- ===== src/Ring/Queue/Tickets.antt =====
-- Tickets that were drawn one after another, modulo 2 ^ 64.
use sip_exporter.Prelude.{
  ℕ, zero, suc, ◌+◌, ◌^◌, ◌<◌, ◌≡◌, List, [], ◌∷◌, ◌++◌, some, get_elem?, u64, length, arith,
}
use sip_exporter.Ring.Queue.{Waiter, remove}

-- The tickets of the threads that wait, longest first, run from `from` to before `to`.
abbrev pub Consecutive : ℕ → List Waiter → ℕ → Type 0
Consecutive from [] to = from ≡ to
Consecutive from (w ∷ ws) to = (w.ticket ≡ from) × Consecutive (u64 (from + 1)) ws to

pub Consecutive-append :
    (from to n : ℕ) (ws : List Waiter)
    → Consecutive from ws to
    → Consecutive from (ws ++ (record { ticket = to; packet_count = n } ∷ [])) (u64 (to + 1))
Consecutive-append from to n [] h = ground arith
Consecutive-append from to n (w ∷ ws) h = (h.0, Consecutive-append (u64 (from + 1)) to n ws h.1)

pub Consecutive-ticket :
    (from to k : ℕ) (ws : List Waiter) (w : Waiter)
    → Consecutive from ws to
    → from < 2 ^ 64
    → get_elem? ws k ≡ some w
    → (w.ticket ≡ u64 (from + k)) × (k < length ws)
Consecutive-ticket from to k [] w h fits e = absurd (ground arith)
Consecutive-ticket from to zero (v ∷ ws) w h fits e = ground arith
Consecutive-ticket from to (suc k) (v ∷ ws) w h fits e =
    let (ticket, short) = Consecutive-ticket (u64 (from + 1)) to k ws w h.1 (omega arith) e in
    (omega (arith, ticket), omega (arith, short))

pub Consecutive-remove :
    (from to : ℕ) (ws : List Waiter) (w : Waiter)
    → Consecutive from ws to
    → get_elem? ws 0 ≡ some w
    → Consecutive (u64 (from + 1)) (remove 0 ws) to
Consecutive-remove from to [] w h e = absurd (ground arith)
Consecutive-remove from to (v ∷ ws) w h e = h.1
