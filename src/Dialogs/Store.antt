-- ===== src/Dialogs/Store.antt =====
-- The calls of the store as operations on a finite map.
use mathlib.Core.Path.{fun_ext}
use sip_exporter.Prelude.{
  ℕ, ◌+◌, ◌≡◌, not, String, Option, none, some, ite, arith, string_key, String-discrete, List, [],
  ◌∷◌, if◌then◌else◌, ltb, refl, ap, subst, sym, ◌∙◌, Option-cases, inl, inr,
}
use sip_exporter.Prelude.Assoc.{
  lookup, insert, IsMap, lookup-insert, lookup-delete, lookup-retain, insert-IsMap, delete-IsMap,
  retain-IsMap, length-insert, length-delete,
}
use sip_exporter.Dialogs.{
  Storage, DialogEntry, DialogParams, create, refresh, delete_dialog, cleanup, size,
  has_active_dialog, is_expired,
}

-- A call of the interface that changes the store, with the clock that it reads.
pub data Call : Type 0 where
  creates : DialogParams → Call
  deletes : ℕ → String → Call
  refreshes : String → ℕ → Call
  cleans : ℕ → Call

abbrev pub step : Storage → Call → Storage
step c (creates p) = create c p
step c (deletes now id) = (delete_dialog c now id).0
step c (refreshes id expires_at) = (refresh c id expires_at).0
step c (cleans now) = (cleanup c now).0

-- The abstract store: which dialog is active, with which entry.
abbrev pub Table : Type 0
Table = String → Option DialogEntry

abbrev pub table : Storage → Table
table c id = lookup id c

abbrev keep_first : Option DialogEntry → DialogEntry → Option DialogEntry
keep_first none new = some new
keep_first (some old) new = some old

abbrev renew : ℕ → Option DialogEntry → Option DialogEntry
renew expires_at none = none
renew expires_at (some e) = some (record e { expires_at = expires_at })

abbrev drop_expired : ℕ → Option DialogEntry → Option DialogEntry
drop_expired now none = none
drop_expired now (some e) = if ltb e.expires_at now then none else some e

-- What a call does to one dialog of the abstract store.
abbrev pub spec : Table → Call → Table
spec t (creates p) id = ite (String-discrete p.dialog_id id) (keep_first (t id) p.entry) (t id)
spec t (deletes now d) id = ite (String-discrete d id) none (t id)
spec t (refreshes d expires_at) id = ite (String-discrete d id) (renew expires_at (t id)) (t id)
spec t (cleans now) id = drop_expired now (t id)

refresh_missing : (c : Storage) (id : String) (t : ℕ) → lookup id c ≡ none → (refresh c id t).0 ≡ c
unfolding refresh
refresh_missing c id t e = rw (e, refresh)

refresh_found :
    (c : Storage) (id : String) (t : ℕ) (e : DialogEntry)
    → lookup id c ≡ some e
    → (refresh c id t).0 ≡ insert id (record e { expires_at = t }) c
unfolding refresh
refresh_found c id t e h = rw (h, refresh)

pub step-IsMap : (c : Storage) (x : Call) → IsMap c → IsMap (step c x)
unfolding create delete_dialog cleanup
step-IsMap c (creates p) m = ground (arith, insert-IsMap p.dialog_id p.entry c m)
step-IsMap c (deletes now id) m = ground (arith, delete-IsMap id c m)
step-IsMap c (refreshes id expires_at) m = elim (Option-cases (lookup id c)) [
  | inl absent ↦ subst (λ s. IsMap s) (sym (refresh_missing c id expires_at absent)) m
  | inr (e, present) ↦
      subst (λ s. IsMap s) (sym (refresh_found c id expires_at e present))
        (insert-IsMap id (record e { expires_at = expires_at }) c m)
]
step-IsMap c (cleans now) m = retain-IsMap (λ id e. not (is_expired now e)) c m

table-step_at :
    (c : Storage) (x : Call) (id : String) → IsMap c → table (step c x) id ≡ spec (table c) x id
unfolding create refresh delete_dialog cleanup
table-step_at c (creates p) id m = ground (arith, lookup-insert p.dialog_id id p.entry c)
table-step_at c (deletes now d) id m = ground (arith, lookup-delete d id c)
table-step_at c (refreshes d expires_at) id m = elim (Option-cases (lookup d c)) [
  | inl absent ↦ ground arith
  | inr (e, present) ↦ ground (arith, lookup-insert d id (record e { expires_at = expires_at }) c)
]
table-step_at c (cleans now) id m =
    ground (arith, lookup-retain (λ id e. not (is_expired now e)) id c m)

-- Every call does to the store what the abstract store says, for all dialogs at once: `Create`
-- keeps the first entry of a dialog, `Refresh` changes no more than its expiry, `Delete` removes
-- one dialog and `Cleanup` all that expired before `now` and no other.
pub table-step : (c : Storage) (x : Call) → IsMap c → table (step c x) ≡ spec (table c) x
table-step c x m = fun_ext (λ id. table-step_at c x id m)

abbrev pub steps : Storage → List Call → Storage
steps c [] = c
steps c (x ∷ xs) = steps (step c x) xs

abbrev pub specs : Table → List Call → Table
specs t [] = t
specs t (x ∷ xs) = specs (spec t x) xs

table-steps_from :
    (c : Storage) (xs : List Call) → IsMap c → table (steps c xs) ≡ specs (table c) xs
table-steps_from c [] m = refl
table-steps_from c (x ∷ xs) m =
    table-steps_from (step c x) xs (step-IsMap c x m) ∙ ap (λ t. specs t xs) (table-step c x m)

-- After any calls on a new store it holds what the abstract store holds.
pub table-steps : (xs : List Call) → table (steps [] xs) ≡ specs (table []) xs
table-steps xs = table-steps_from [] xs tt

-- How many dialogs each call leaves, and what it answers.
pub size-create :
    (c : Storage) (p : DialogParams)
    → size (create c p) ≡ (if has_active_dialog c p.dialog_id then size c else size c + 1)
unfolding create size has_active_dialog
size-create c p = ground (arith, length-insert p.dialog_id p.entry c)

pub size-delete_dialog :
    (c : Storage) (now : ℕ) (id : String)
    → IsMap c
    → size (delete_dialog c now id).0 + (if has_active_dialog c id then 1 else 0) ≡ size c
unfolding delete_dialog size has_active_dialog
size-delete_dialog c now id m = elim (Option-cases (lookup id c)) [
  | inl absent ↦ ground arith
  | inr (e, present) ↦ ground (arith, length-delete id e c m present)
]
