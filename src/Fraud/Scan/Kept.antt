-- ===== src/Fraud/Scan/Kept.antt =====
-- The stored accounts of one source against all that it ever registered.
use sip_exporter.Prelude.{
  ℕ, ◌<◌, ◌≤◌, ◌≡◌, refl, ◌∙◌, Bool, [], ◌∷◌, arith, String, string_key, Option, none, some, length,
}
use sip_exporter.Prelude.Assoc.{
  lookup, insert, delete, retain, IsMap, lookup-insert, lookup-delete, insert-IsMap, delete-IsMap,
  retain-IsMap, length-delete,
}
use sip_exporter.Fraud.Scan.{Accounts, recent, recorded, register_scan_max_entries_per_ip}
use sip_exporter.Fraud.Scan.Signals.{
  in_window, lookup-recent, lookup-recorded, active_count, length-recent,
}

-- Two maps with the same entries are equally long.
length-same :
    (m m' : Accounts)
    → IsMap m
    → IsMap m'
    → ((a : String) → lookup a m ≡ lookup a m')
    → length m ≡ length m'
unfolding lookup
length-same [] [] h h' e = refl
length-same [] ((a, ts) ∷ m') h h' e = absurd (ground (arith, e a))
length-same ((a, ts) ∷ m) m' h h' e =
    let found : lookup a m' ≡ some ts = ground (arith, e a) in
    let rest =
      length-same m (delete a m') h.1 (delete-IsMap a m' h')
        (λ b. ground (arith, h.0, e b, lookup-delete a b m')) in
    omega (arith, rest, length-delete a ts m' h' found)

length-retain-le : (p : String → ℕ → Bool) (m : Accounts) → length (retain p m) ≤ length m
unfolding retain
length-retain-le p [] = omega arith
length-retain-le p ((a, ts) ∷ m) = ground (arith, length-retain-le p m)

in_window_later :
    (window now later : ℕ) (x : Option ℕ)
    → now ≤ later
    → in_window window later (in_window window now x) ≡ in_window window later x
in_window_later window now later none h = refl
in_window_later window now later (some ts) h = ground arith

-- The stored accounts say the same as the history to every window from now on.
pub record Stands (window last : ℕ) (accounts seen : Accounts) : Type 0 where
  pub once_each : IsMap accounts
  pub seen_once : IsMap seen
  pub same_within :
      (now : ℕ) (a : String)
      → last ≤ now
      → in_window window now (lookup a accounts) ≡ in_window window now (lookup a seen)

pub later-Stands :
    (window last now : ℕ) (accounts seen : Accounts)
    → last ≤ now
    → Stands window last accounts seen
    → Stands window now accounts seen
later-Stands window last now accounts seen h v = record {
  once_each = v.once_each;
  seen_once = v.seen_once;
  same_within = λ later a g. v.same_within later a (omega arith);
}

recent-IsMap :
    (window now : ℕ) (accounts : Accounts) → IsMap accounts → IsMap (recent window now accounts)
unfolding recent
recent-IsMap window now accounts m = retain-IsMap _ accounts m

length-recent-le :
    (window now : ℕ) (accounts : Accounts) → length (recent window now accounts) ≤ length accounts
unfolding recent
length-recent-le window now accounts = length-retain-le _ accounts

pub recent-Stands :
    (window last now : ℕ) (accounts seen : Accounts)
    → last ≤ now
    → Stands window last accounts seen
    → Stands window now (recent window now accounts) seen
recent-Stands window last now accounts seen h v = record {
  once_each = recent-IsMap window now accounts v.once_each;
  seen_once = v.seen_once;
  same_within = λ later a g. ground (
    arith,
    lookup-recent window now a accounts v.once_each,
    in_window_later window now later (lookup a accounts) g,
    v.same_within later a (omega arith),
  );
}

-- What the window holds of the stored accounts is as long as what it holds of the history.
recent_room :
    (window last now : ℕ) (accounts seen : Accounts)
    → last ≤ now
    → Stands window last accounts seen
    → length (recent window now accounts) ≤ length seen
recent_room window last now accounts seen h v =
    let same =
      length-same (recent window now accounts) (recent window now seen)
        (recent-IsMap window now accounts v.once_each) (recent-IsMap window now seen v.seen_once)
        (λ a. ground (
          arith,
          lookup-recent window now a accounts v.once_each,
          lookup-recent window now a seen v.seen_once,
          v.same_within now a h,
        )) in
    omega (arith, same, length-recent-le window now seen)

recorded-IsMap :
    (window now : ℕ) (aor : String) (accounts : Accounts)
    → IsMap accounts
    → IsMap (recorded window now aor accounts)
unfolding recorded
recorded-IsMap window now aor accounts m = ground (
  arith,
  recent-IsMap window now accounts m,
  insert-IsMap aor now (recent window now accounts) (recent-IsMap window now accounts m),
)

pub recorded-Stands :
    (window last now : ℕ) (aor : String) (accounts seen : Accounts)
    → last ≤ now
    → length seen < register_scan_max_entries_per_ip
    → Stands window last accounts seen
    → Stands window now (recorded window now aor accounts) (insert aor now seen)
recorded-Stands window last now aor accounts seen h room v =
    let fits : length (recent window now accounts) < register_scan_max_entries_per_ip =
      omega (arith, room, recent_room window last now accounts seen h v) in
    record {
      once_each = recorded-IsMap window now aor accounts v.once_each;
      seen_once = insert-IsMap aor now seen v.seen_once;
      same_within = λ later a g. ground (
        arith,
        lookup-recorded window now aor a accounts v.once_each fits,
        lookup-insert aor a now seen,
        in_window_later window now later (lookup a accounts) g,
        v.same_within later a (omega arith),
      );
    }

-- The accounts after a registration, counted in the history.
pub length-recorded :
    (window last now : ℕ) (aor : String) (accounts seen : Accounts)
    → last ≤ now
    → length seen < register_scan_max_entries_per_ip
    → Stands window last accounts seen
    → length (recorded window now aor accounts) ≡ active_count window now (insert aor now seen)
length-recorded window last now aor accounts seen h room v =
    let new = recorded-Stands window last now aor accounts seen h room v in
    let fits : length (recent window now accounts) < register_scan_max_entries_per_ip =
      omega (arith, room, recent_room window last now accounts seen h v) in
    length-same (recorded window now aor accounts) (recent window now (insert aor now seen))
      new.once_each (recent-IsMap window now (insert aor now seen) new.seen_once)
      (λ a. ground (
        arith,
        lookup-recorded window now aor a accounts v.once_each fits,
        lookup-recent window now a (insert aor now seen) new.seen_once,
        lookup-insert aor a now seen,
        v.same_within now a h,
      ))
    ∙ length-recent window now (insert aor now seen)

pub empty-Stands : (window : ℕ) → Stands window 0 [] []
empty-Stands window = record { once_each = tt; seen_once = tt; same_within = λ now a h. refl }
