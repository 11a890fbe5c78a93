-- ===== src/Tracker/Owned/Gone.antt =====
-- A call that gives up its endpoints.
use sip_exporter.Prelude.{
  ◌≡◌, ◌<◌, refl, ◌∙◌, String, List, [], ◌∷◌, Option, none, some, some_or, is_some, ite,
  if◌then◌else◌, arith, ltb, length, String-discrete, string_key, Bool-cases, inl, inr,
}
use sip_exporter.Prelude.Assoc.{
  lookup, lookup_list, IsMap, lookup-insert, lookup-delete, lookup_list-insert, lookup_list-delete,
}
use sip_exporter.Tracker.{Endpoint, Endpoint-discrete, endpoint_key}
use sip_exporter.Tracker.Media.{
  Owners, remove_owner, last_owner, leave_owners, disown, disown_all, disown_call,
}
use sip_exporter.Tracker.Owned.{
  Owned, count_owner, count_owner-remove_owner, count_owner-last_owner,
}

module _ {L : Type 0} where
  -- What an endpoint resolves to for the owners that are left.
  abbrev pub left_label :
      L → Endpoint → List (String × List (Endpoint × L)) → List String → Option L
  left_label blank k per_call [] = none
  left_label blank k per_call (first ∷ rest) =
      some (some_or (lookup k (lookup_list (last_owner first rest) per_call)) blank)

  leave_owners_owners :
      (blank : L) (k j : Endpoint) (left : List String) (o : Owners L)
      → lookup_list j (leave_owners blank k left o).owners
        ≡ ite (Endpoint-discrete k j) left (lookup_list j o.owners)
  unfolding leave_owners
  leave_owners_owners blank k j [] o = lookup_list-delete k j o.owners
  leave_owners_owners blank k j (first ∷ rest) o = lookup_list-insert k j (first ∷ rest) o.owners

  leave_owners_resolved :
      (blank : L) (k j : Endpoint) (left : List String) (o : Owners L)
      → lookup j (leave_owners blank k left o).resolved
        ≡ ite (Endpoint-discrete k j) (left_label blank k o.per_call left) (lookup j o.resolved)
  unfolding leave_owners
  leave_owners_resolved blank k j [] o = lookup-delete k j o.resolved
  leave_owners_resolved blank k j (first ∷ rest) o = lookup-insert k j _ o.resolved

  leave_owners_per_call :
      (blank : L) (k : Endpoint) (left : List String) (o : Owners L)
      → (leave_owners blank k left o).per_call ≡ o.per_call
  unfolding leave_owners
  leave_owners_per_call blank k [] o = refl
  leave_owners_per_call blank k (first ∷ rest) o = refl

  disown_owners :
      (blank : L) (c : String) (k j : Endpoint) (o : Owners L)
      → lookup_list j (disown blank c k o).owners
        ≡ ite
            (Endpoint-discrete k j)
            (remove_owner (lookup_list k o.owners) c)
            (lookup_list j o.owners)
  unfolding disown
  disown_owners blank c k j o =
      leave_owners_owners blank k j (remove_owner (lookup_list k o.owners) c) o

  disown_resolved :
      (blank : L) (c : String) (k j : Endpoint) (o : Owners L)
      → lookup j (disown blank c k o).resolved
        ≡ ite
            (Endpoint-discrete k j)
            (left_label blank k o.per_call (remove_owner (lookup_list k o.owners) c))
            (lookup j o.resolved)
  unfolding disown
  disown_resolved blank c k j o =
      leave_owners_resolved blank k j (remove_owner (lookup_list k o.owners) c) o

  disown_per_call :
      (blank : L) (c : String) (k : Endpoint) (o : Owners L)
      → (disown blank c k o).per_call ≡ o.per_call
  unfolding disown
  disown_per_call blank c k o =
      leave_owners_per_call blank k (remove_owner (lookup_list k o.owners) c) o

  -- The whole loop, at one endpoint.
  all_owners :
      (blank : L) (c : String) (xs : List (Endpoint × L)) (j : Endpoint) (o : Owners L)
      → IsMap xs
      → lookup_list j (disown_all blank c xs o).owners ≡ (
          if is_some (lookup j xs)
          then remove_owner (lookup_list j o.owners) c
          else lookup_list j o.owners)
  unfolding disown_all lookup
  all_owners blank c [] j o v = refl
  all_owners blank c ((k, l) ∷ xs) j o v =
      ground
        (arith, v.0, all_owners blank c xs j (disown blank c k o) v.1, disown_owners blank c k j o)

  pub all_per_call :
      (blank : L) (c : String) (xs : List (Endpoint × L)) (o : Owners L)
      → (disown_all blank c xs o).per_call ≡ o.per_call
  unfolding disown_all
  all_per_call blank c [] o = refl
  all_per_call blank c ((k, l) ∷ xs) o =
      all_per_call blank c xs (disown blank c k o) ∙ disown_per_call blank c k o

  all_resolved :
      (blank : L) (c : String) (xs : List (Endpoint × L)) (j : Endpoint) (o : Owners L)
      → IsMap xs
      → lookup j (disown_all blank c xs o).resolved ≡ (
          if is_some (lookup j xs)
          then left_label blank j o.per_call (remove_owner (lookup_list j o.owners) c)
          else lookup j o.resolved)
  unfolding disown_all lookup
  all_resolved blank c [] j o v = refl
  all_resolved blank c ((k, l) ∷ xs) j o v = ground (
    arith,
    v.0,
    all_resolved blank c xs j (disown blank c k o) v.1,
    disown_resolved blank c k j o,
    disown_owners blank c k j o,
    disown_per_call blank c k o,
  )

  left_label-some :
      (blank : L) (k : Endpoint) (per_call : List (String × List (Endpoint × L)))
      (left : List String)
      → is_some (left_label blank k per_call left) ≡ ltb 0 (length left)
  left_label-some blank k per_call [] = refl
  left_label-some blank k per_call (first ∷ rest) = ground arith

  -- The owner that the label comes from.
  left_label_from :
      (blank : L) (k : Endpoint) (per_call : List (String × List (Endpoint × L)))
      (left : List String) (l : L)
      → left_label blank k per_call left ≡ some l
      → (c : String) × (0 < count_owner c left)
        × (some_or (lookup k (lookup_list c per_call)) blank ≡ l)
  left_label_from blank k per_call [] l h = absurd (ground arith)
  left_label_from blank k per_call (first ∷ rest) l h =
      (last_owner first rest, count_owner-last_owner first rest, ground arith)

lookup_nil : {L : Type 0} (j : Endpoint) → lookup {V = L} j [] ≡ none
unfolding lookup
lookup_nil j = refl

module _ {L : Type 0} (name : L → String) (blank : L) (c : String) (o : Owners L)
    (v : Owned name o) where
  abbrev endpoints : List (Endpoint × L)
  endpoints = lookup_list c o.per_call

  pub gone_owners :
      (j : Endpoint)
      → lookup_list j (disown_call blank c o).owners ≡ (
          if is_some (lookup j endpoints)
          then remove_owner (lookup_list j o.owners) c
          else lookup_list j o.owners)
  unfolding disown_call
  gone_owners j = all_owners blank c endpoints j o (v.keyed c)

  pub gone_resolved :
      (j : Endpoint)
      → lookup j (disown_call blank c o).resolved ≡ (
          if is_some (lookup j endpoints)
          then left_label blank j o.per_call (remove_owner (lookup_list j o.owners) c)
          else lookup j o.resolved)
  unfolding disown_call
  gone_resolved j = all_resolved blank c endpoints j o (v.keyed c)

  gone_per_call :
      (c' : String)
      → lookup_list c' (disown_call blank c o).per_call
        ≡ ite (String-discrete c c') [] (lookup_list c' o.per_call)
  unfolding disown_call
  gone_per_call c' = ground (
    arith,
    lookup_list-delete c c' o.per_call,
    all_per_call blank c endpoints o,
    lookup_list-delete c c' (disown_all blank c endpoints o).per_call,
  )

  pub gone_label :
      (c' : String) (j : Endpoint)
      → lookup j (lookup_list c' (disown_call blank c o).per_call)
        ≡ ite (String-discrete c c') none (lookup j (lookup_list c' o.per_call))
  gone_label c' j = ground (arith, gone_per_call c', lookup_nil {L = L} j)

  gone_said :
      (j : Endpoint) (l : L)
      → lookup j (disown_call blank c o).resolved ≡ some l
      → lookup j (lookup_list (name l) (disown_call blank c o).per_call) ≡ some l
  gone_said j l h = elim (Bool-cases (is_some (lookup j endpoints))) [
    | inl owned ↦
        let left = remove_owner (lookup_list j o.owners) c in
        let (c', some_left, label) =
          left_label_from blank j o.per_call left l (ground (arith, h, owned, gone_resolved j)) in
        ground (
          arith,
          owned,
          some_left,
          label,
          v.counted j c,
          v.counted j c',
          v.named j c' l,
          count_owner-remove_owner c' c (lookup_list j o.owners),
          gone_label (name l) j,
        )
    | inr other ↦ ground (arith, h, other, v.said j l, gone_resolved j, gone_label (name l) j)
  ]

  gone_inner : (c' : String) → IsMap (lookup_list c' (disown_call blank c o).per_call)
  gone_inner c' = elim (String-discrete c c') [
    | yes p ↦
        let e : lookup_list c' (disown_call blank c o).per_call ≡ [] =
          ground (arith, gone_per_call c') in
        rw e tt
    | no n ↦
        let e : lookup_list c' (disown_call blank c o).per_call ≡ lookup_list c' o.per_call =
          ground (arith, gone_per_call c') in
        rw e (v.keyed c')
  ]

  pub disown_call-Owned : Owned name (disown_call blank c o)
  disown_call-Owned = record {
    counted = λ j c'. ground (
      arith,
      v.counted j c',
      gone_owners j,
      gone_label c' j,
      count_owner-remove_owner c' c (lookup_list j o.owners),
    );
    resolves = λ j. ground (
      arith,
      v.resolves j,
      gone_owners j,
      gone_resolved j,
      left_label-some blank j o.per_call (remove_owner (lookup_list j o.owners) c),
    );
    said = gone_said;
    named = λ j c' l h. ground (arith, h, v.named j c' l, gone_label c' j);
    keyed = gone_inner;
  }
