-- ===== src/Dialogs/Tally.antt =====
-- `Counts` against a count made for one label set at a time.
use sip_exporter.Prelude.{
  ℕ, ◌+◌, ◌≡◌, List, [], ◌∷◌, ite, arith, length, some_or, Option-cases, inl, inr,
}
use sip_exporter.Prelude.Assoc.{lookup, insert, lookup-insert}
use sip_exporter.Dialogs.{
  Storage, CountKey, CountKey-discrete, count_key, key_of, bump, counts_from, counts, size,
}

-- How many dialogs carry these labels.
abbrev pub labelled : CountKey → Storage → ℕ
labelled k [] = 0
labelled k ((id, e) ∷ c) = ite (CountKey-discrete (key_of e) k) 1 0 + labelled k c

abbrev pub total : List (CountKey × ℕ) → ℕ
total [] = 0
total ((k, n) ∷ tmp) = n + total tmp

lookup-bump :
    (k j : CountKey) (tmp : List (CountKey × ℕ))
    → some_or (lookup j (bump k tmp)) 0 ≡ ite (CountKey-discrete k j) 1 0 + some_or (lookup j tmp) 0
unfolding bump
lookup-bump k j tmp = elim (Option-cases (lookup k tmp)) [
  | inl e ↦ ground (arith, lookup-insert k j 1 tmp)
  | inr (n, e) ↦ ground (arith, lookup-insert k j (n + 1) tmp)
]

lookup-counts_from :
    (k : CountKey) (c : Storage) (tmp : List (CountKey × ℕ))
    → some_or (lookup k (counts_from c tmp)) 0 ≡ labelled k c + some_or (lookup k tmp) 0
unfolding counts_from
lookup-counts_from k [] tmp = omega arith
lookup-counts_from k ((id, e) ∷ c) tmp =
    omega (arith, lookup-counts_from k c (bump (key_of e) tmp), lookup-bump (key_of e) k tmp)

total-insert :
    (k : CountKey) (n : ℕ) (tmp : List (CountKey × ℕ))
    → total (insert k n tmp) + some_or (lookup k tmp) 0 ≡ total tmp + n
unfolding insert lookup
total-insert k n [] = omega arith
total-insert k n ((j, m) ∷ tmp) = ground (arith, total-insert k n tmp)

total-bump : (k : CountKey) (tmp : List (CountKey × ℕ)) → total (bump k tmp) ≡ total tmp + 1
unfolding bump
total-bump k tmp = elim (Option-cases (lookup k tmp)) [
  | inl e ↦ ground (arith, total-insert k 1 tmp)
  | inr (n, e) ↦ ground (arith, total-insert k (n + 1) tmp)
]

total-counts_from :
    (c : Storage) (tmp : List (CountKey × ℕ)) → total (counts_from c tmp) ≡ length c + total tmp
unfolding counts_from
total-counts_from [] tmp = omega arith
total-counts_from ((id, e) ∷ c) tmp =
    omega (arith, total-counts_from c (bump (key_of e) tmp), total-bump (key_of e) tmp)

-- The count under every label set is the number of dialogs that carry it, and the counts add up to
-- the size of the store.
pub counts_exact :
    (c : Storage) (k : CountKey)
    → (some_or (lookup k (counts c)) 0 ≡ labelled k c) × (total (counts c) ≡ size c)
unfolding counts size lookup
counts_exact c k = (omega (arith, lookup-counts_from k c []), omega (arith, total-counts_from c []))
