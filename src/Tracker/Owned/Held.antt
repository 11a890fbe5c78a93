-- ===== src/Tracker/Owned/Held.antt =====
-- The history of one endpoint: which dialogs hold it, and what it stands for.
use sip_exporter.Prelude.{
  ◌≡◌, refl, subst, ite, String, List, [], ◌∷◌, ◌++◌, Option, none, some, is_some, arith, true,
  if◌then◌else◌, ◌≢◌, string_key, Option-cases, inl, inr,
}
use sip_exporter.Prelude.Assoc.{
  lookup, insert, delete, lookup_list, IsMap, insert-IsMap, delete-IsMap, lookup-insert,
  lookup-delete, delete_absent,
}
use sip_exporter.Tracker.{Endpoint, Endpoint-discrete, endpoint_key}
use sip_exporter.Tracker.Media.{Owners, own, remove_owner, last_owner, disown_call}
use sip_exporter.Tracker.Owned.{Owned, own_per_call, own_owners, own_resolved}
use sip_exporter.Tracker.Owned.Gone.{left_label, gone_owners, gone_resolved, gone_label}

-- The dialogs that registered the endpoint and have not given it up, in the order in which they
-- came, with what each said last, and what was said or fell back to last.
pub record Held (L : Type 0) : Type 0 where
  pub holders : List (String × L)
  pub current : Option L

module _ {L : Type 0} where
  abbrev pub last_of : List (String × L) → Option L
  last_of [] = none
  last_of ((c, l) ∷ []) = some l
  last_of ((c, l) ∷ (d, m) ∷ hs) = last_of ((d, m) ∷ hs)

  abbrev pub nobody : Held L
  nobody = record { holders = []; current = none }

  -- A dialog says what the endpoint is.
  abbrev pub take_over : String → L → Held L → Held L
  take_over c l h = record { holders = insert c l h.holders; current = some l }

  -- A dialog says what endpoint `k` is: nothing changes for another endpoint `j`.
  abbrev pub hear : Endpoint → Endpoint → String → L → Held L → Held L
  hear j k c l h = ite (Endpoint-discrete k j) (take_over c l h) h

  -- A holder gives the endpoint up: the last of the others has it.
  abbrev pub give_up : String → Held L → Held L
  give_up c h =
      if is_some (lookup c h.holders)
      then record { holders = delete c h.holders; current = last_of (delete c h.holders) }
      else h

  abbrev pub ids : List (String × L) → List String
  ids [] = []
  ids ((c, l) ∷ hs) = c ∷ ids hs

  ids-insert :
      (c : String) (l : L) (hs : List (String × L))
      → ids (insert c l hs) ≡ (if is_some (lookup c hs) then ids hs else ids hs ++ (c ∷ []))
  unfolding lookup insert
  ids-insert c l [] = refl
  ids-insert c l ((d, m) ∷ hs) = ground (arith, ids-insert c l hs)

  ids-delete :
      (c : String) (hs : List (String × L)) → IsMap hs → remove_owner (ids hs) c ≡ ids (delete c hs)
  unfolding lookup delete remove_owner
  ids-delete c [] v = refl
  ids-delete c ((d, m) ∷ hs) v = ground (arith, v.0, ids-delete c hs v.1, delete_absent c hs)

  lookup-last_owner :
      (c : String) (l : L) (hs : List (String × L))
      → IsMap ((c, l) ∷ hs)
      → (lookup (last_owner c (ids hs)) ((c, l) ∷ hs) ≡ last_of ((c, l) ∷ hs))
        × (is_some (last_of ((c, l) ∷ hs)) ≡ true)
  unfolding lookup
  lookup-last_owner c l [] v = (ground arith, refl)
  lookup-last_owner c l ((d, m) ∷ hs) v =
      let rest = lookup-last_owner d m hs v.1 in (ground (arith, v.0, rest.0, rest.1), rest.1)

  -- What the table of owners of this endpoint and the history of the endpoint agree on.
  pub record Agrees (k : Endpoint) (o : Owners L) (h : Held L) : Type 0 where
    pub same_owners : lookup_list k o.owners ≡ ids h.holders
    pub same_labels : (c : String) → lookup k (lookup_list c o.per_call) ≡ lookup c h.holders
    pub same_current : lookup k o.resolved ≡ h.current
    pub once_each : IsMap h.holders

  own-Agrees :
      (c : String) (k : Endpoint) (l : L) (o : Owners L) (h : Held L)
      → Agrees k o h
      → Agrees k (own c k l o) (take_over c l h)
  own-Agrees c k l o h a = record {
    same_owners =
        ground
          (arith, a.same_owners, a.same_labels c, own_owners c k k l o, ids-insert c l h.holders);
    same_labels = λ c'. ground (
      arith,
      a.same_labels c,
      a.same_labels c',
      own_per_call c c' k k l o,
      lookup-insert c c' l h.holders,
    );
    same_current = ground (arith, own_resolved c k k l o);
    once_each = insert-IsMap c l h.holders a.once_each;
  }

  own-Agrees_other :
      (c : String) (k j : Endpoint) (l : L) (o : Owners L) (h : Held L)
      → k ≢ j
      → Agrees j o h
      → Agrees j (own c k l o) h
  own-Agrees_other c k j l o h n a = record {
    same_owners = ground (arith, n, a.same_owners, own_owners c k j l o);
    same_labels =
        λ c'. ground (arith, n, a.same_labels c', a.same_labels c, own_per_call c c' k j l o);
    same_current = ground (arith, n, a.same_current, own_resolved c k j l o);
    once_each = a.once_each;
  }

  pub own-hear :
      (c : String) (k j : Endpoint) (l : L) (o : Owners L) (h : Held L)
      → Agrees j o h
      → Agrees j (own c k l o) (hear j k c l h)
  own-hear c k j l o h a =
      elim (Endpoint-discrete k j)
        as (λ d. Agrees j (own c k l o) (ite {C = Held L} d (take_over c l h) h)) [
          | yes p ↦
              subst (λ i. Agrees i o h → Agrees i (own c k l o) (take_over c l h)) p
                (own-Agrees c k l o h) a
          | no n ↦ own-Agrees_other c k j l o h n a
        ]

  last_label :
      (blank : L) (k : Endpoint) (per_call : List (String × List (Endpoint × L)))
      (hs : List (String × L))
      → IsMap hs
      → ((c : String)
          → is_some (lookup c hs) ≡ true
          → lookup k (lookup_list c per_call) ≡ lookup c hs)
      → left_label blank k per_call (ids hs) ≡ last_of hs
  last_label blank k per_call [] v e = refl
  last_label blank k per_call ((c, l) ∷ hs) v e =
      let q = last_owner c (ids hs) in
      let r = lookup-last_owner c l hs v in ground (arith, r.0, r.1, e q)

module _ {L : Type 0} (name : L → String) (blank : L) (c : String) (o : Owners L) (v : Owned name o)
    (k : Endpoint) (h : Held L) (a : Agrees k o h) where
  pub disown_call-Agrees : Agrees k (disown_call blank c o) (give_up c h)
  disown_call-Agrees = elim (Option-cases (lookup c h.holders)) [
    | inl free ↦
        rw (free, give_up)
          (record {
            same_owners =
                ground
                  (arith, free, a.same_labels c, a.same_owners, gone_owners name blank c o v k);
            same_labels =
                λ c'. ground (arith, free, a.same_labels c', gone_label name blank c o v c' k);
            same_current =
                ground
                  (arith, free, a.same_labels c, a.same_current, gone_resolved name blank c o v k);
            once_each = a.once_each;
          })
    | inr (l, held) ↦
        let rest = delete c h.holders in
        let kept_map = delete-IsMap c h.holders a.once_each in
        let left : left_label blank k o.per_call (ids rest) ≡ last_of rest =
          last_label blank k o.per_call rest kept_map
            (λ c' s. ground (arith, s, a.same_labels c', lookup-delete c c' h.holders)) in
        rw (held, give_up)
          (record {
            same_owners = ground (
              arith,
              held,
              a.same_labels c,
              a.same_owners,
              gone_owners name blank c o v k,
              ids-delete c h.holders a.once_each,
            );
            same_labels = λ c'. ground (
              arith,
              a.same_labels c',
              gone_label name blank c o v c' k,
              lookup-delete c c' h.holders,
            );
            same_current = ground (
              arith,
              held,
              left,
              a.same_labels c,
              a.same_owners,
              gone_resolved name blank c o v k,
              ids-delete c h.holders a.once_each,
            );
            once_each = kept_map;
          })
  ]
