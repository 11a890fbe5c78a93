-- ===== src/Prelude/Assoc.antt =====
-- Go maps as association lists. A `range` over a map goes through the list in its order.
use Prim.Native.Nat.{◌+◌}
use mathlib.Core.Path.{◌≡◌, refl}
use mathlib.Core.Bool.{Bool}
use mathlib.Core.Logic.{ite}
use mathlib.Core.List.{List, [], ◌∷◌}
use mathlib.Core.Option.{Option, none, some}
use native.Mathlib.Omega.{arith}
use sip_exporter.Prelude.Tests.{if◌then◌else◌}
use sip_exporter.Prelude.Lists.{length}
use sip_exporter.Prelude.Keys.{Key}

module _ {ℓ} {K V : Type ℓ} ⦃e : Key K⦄ where
  -- `m[k]`; `none` for `_, ok := m[k]` with `ok` false.
  unfoldable pub lookup : K → List (K × V) → Option V
  lookup k [] = none
  lookup k ((j, v) ∷ m) = ite (e.same j k) (some v) (lookup k m)

  -- `m[k] = v`
  unfoldable pub insert : K → V → List (K × V) → List (K × V)
  insert k v [] = (k, v) ∷ []
  insert k v ((j, w) ∷ m) = ite (e.same j k) ((k, v) ∷ m) ((j, w) ∷ insert k v m)

  -- `delete(m, k)`
  unfoldable pub delete : K → List (K × V) → List (K × V)
  delete k [] = []
  delete k ((j, w) ∷ m) = ite (e.same j k) (delete k m) ((j, w) ∷ delete k m)

  -- The entries that a loop with `delete` under a test leaves.
  unfoldable pub retain : (K → V → Bool) → List (K × V) → List (K × V)
  retain p [] = []
  retain p ((j, w) ∷ m) = if p j w then (j, w) ∷ retain p m else retain p m

  -- No key stands twice.
  abbrev pub IsMap : List (K × V) → Type ℓ
  IsMap [] = Unit
  IsMap ((j, w) ∷ m) = (lookup j m ≡ none) × IsMap m

  pub lookup-insert :
      (k j : K) (v : V) (m : List (K × V))
      → lookup j (insert k v m) ≡ ite (e.same k j) (some v) (lookup j m)
  unfolding lookup insert
  lookup-insert k j v [] = refl
  lookup-insert k j v ((i, w) ∷ m) = ground (arith, lookup-insert k j v m)

  pub lookup-delete :
      (k j : K) (m : List (K × V)) → lookup j (delete k m) ≡ ite (e.same k j) none (lookup j m)
  unfolding lookup delete
  lookup-delete k j [] = ground arith
  lookup-delete k j ((i, w) ∷ m) = ground (arith, lookup-delete k j m)

  pub lookup-delete_self : (k : K) (m : List (K × V)) → lookup k (delete k m) ≡ none
  lookup-delete_self k m = ground (arith, lookup-delete k k m)

  lookup-retain-none :
      (p : K → V → Bool) (k : K) (m : List (K × V))
      → lookup k m ≡ none
      → lookup k (retain p m) ≡ none
  unfolding lookup retain
  lookup-retain-none p k [] h = refl
  lookup-retain-none p k ((i, w) ∷ m) h = ground (arith, lookup-retain-none p k m)

  -- The value under `k` if the test passes it.
  abbrev pub passed : (K → V → Bool) → K → Option V → Option V
  passed p k none = none
  passed p k (some v) = if p k v then some v else none

  pub lookup-retain :
      (p : K → V → Bool) (k : K) (m : List (K × V))
      → IsMap m
      → lookup k (retain p m) ≡ passed p k (lookup k m)
  unfolding lookup retain
  lookup-retain p k [] h = refl
  lookup-retain p k ((i, w) ∷ m) h =
      ground (arith, lookup-retain p k m h.1, lookup-retain-none p k m)

  pub insert-IsMap : (k : K) (v : V) (m : List (K × V)) → IsMap m → IsMap (insert k v m)
  unfolding insert
  insert-IsMap k v [] h = (unfold lookup in refl, h)
  insert-IsMap k v ((i, w) ∷ m) h = ground (arith, insert-IsMap k v m h.1, lookup-insert k i v m)

  pub delete-IsMap : (k : K) (m : List (K × V)) → IsMap m → IsMap (delete k m)
  unfolding delete
  delete-IsMap k [] h = h
  delete-IsMap k ((i, w) ∷ m) h = ground (arith, delete-IsMap k m h.1, lookup-delete k i m)

  pub retain-IsMap : (p : K → V → Bool) (m : List (K × V)) → IsMap m → IsMap (retain p m)
  unfolding retain
  retain-IsMap p [] h = h
  retain-IsMap p ((i, w) ∷ m) h = ground (arith, retain-IsMap p m h.1, lookup-retain-none p i m)

  pub length-insert :
      (k : K) (v : V) (m : List (K × V)) → lookup k m ≡ none → length (insert k v m) ≡ length m + 1
  unfolding lookup insert
  length-insert k v [] h = omega arith
  length-insert k v ((i, w) ∷ m) h = ground (arith, length-insert k v m)

  pub length-insert_present :
      (k : K) (v w : V) (m : List (K × V)) → lookup k m ≡ some w → length (insert k v m) ≡ length m
  unfolding lookup insert
  length-insert_present k v w [] h = cc
  length-insert_present k v w ((i, u) ∷ m) h = ground (arith, length-insert_present k v w m)

  pub delete_absent : (k : K) (m : List (K × V)) → lookup k m ≡ none → delete k m ≡ m
  unfolding lookup delete
  delete_absent k [] h = refl
  delete_absent k ((i, w) ∷ m) h = ground (arith, delete_absent k m)

  pub length-delete :
      (k : K) (v : V) (m : List (K × V))
      → IsMap m
      → lookup k m ≡ some v
      → length (delete k m) + 1 ≡ length m
  unfolding lookup delete
  length-delete k v [] h q = cc
  length-delete k v ((i, w) ∷ m) h q = ground (arith, length-delete k v m h.1, delete_absent k m)

-- `len(m[k])` and `range m[k]` on a missing key see the empty list.
abbrev pub lookup_list {ℓ} : {K A : Type ℓ} ⦃e : Key K⦄ → K → List (K × List A) → List A
lookup_list k m = elim (lookup k m) [ none ↦ [] | some xs ↦ xs ]

module _ {ℓ} {K A : Type ℓ} ⦃e : Key K⦄ where
  pub lookup_list-insert :
      (k j : K) (xs : List A) (m : List (K × List A))
      → lookup_list j (insert k xs m) ≡ ite (e.same k j) xs (lookup_list j m)
  lookup_list-insert k j xs m = ground (arith, lookup-insert k j xs m)

  pub lookup_list-delete :
      (k j : K) (m : List (K × List A))
      → lookup_list j (delete k m) ≡ ite (e.same k j) [] (lookup_list j m)
  lookup_list-delete k j m = ground (arith, lookup-delete k j m)
