-- ===== src/Tracker/Owned.antt =====
-- Endpoints that several dialogs register: owners, and what an endpoint resolves to.
pub mod Gone
pub mod Steps
pub mod Held
pub mod Refines
use sip_exporter.Prelude.{
  ℕ, zero, suc, ◌+◌, ◌-◌, ◌≡◌, ◌≢◌, ◌<◌, ◌≤◌, refl, sym, ◌∙◌, subst, Bool, true, false, ◌&&◌, not,
  String, List, [], ◌∷◌, ◌++◌, Option, none, some, some_or, is_some, ite, ◌==◌, if◌then◌else◌,
  arith, ltb, length, String-discrete, string_key, Option-cases, Bool-cases, inl, inr,
}
use sip_exporter.Prelude.Assoc.{
  lookup, insert, delete, lookup_list, IsMap, insert-IsMap, lookup-insert, lookup-delete,
  lookup_list-insert, lookup_list-delete,
}
use sip_exporter.Tracker.{Endpoint, Endpoint-discrete, endpoint_key}
use sip_exporter.Tracker.Media.{
  Owners, is_owned, own, remove_owner, last_owner, disown, disown_all, disown_call,
}

abbrev pub count_owner : String → List String → ℕ
count_owner c [] = 0
count_owner c (o ∷ owners) = ite (String-discrete o c) 1 0 + count_owner c owners

count_owner-append_one :
    (c o : String) (owners : List String)
    → count_owner c (owners ++ (o ∷ [])) ≡ count_owner c owners + ite (String-discrete o c) 1 0
count_owner-append_one c o [] = omega arith
count_owner-append_one c o (p ∷ owners) = omega (arith, count_owner-append_one c o owners)

pub count_owner-remove_owner :
    (c o : String) (owners : List String)
    → count_owner c (remove_owner owners o) ≡ count_owner c owners - ite (String-discrete o c) 1 0
unfolding remove_owner
count_owner-remove_owner c o [] = omega arith
count_owner-remove_owner c o (p ∷ owners) = ground (arith, count_owner-remove_owner c o owners)

pub count_owner-last_owner :
    (first : String) (rest : List String) → 0 < count_owner (last_owner first rest) (first ∷ rest)
count_owner-last_owner first [] = ground arith
count_owner-last_owner first (o ∷ rest) = omega (arith, count_owner-last_owner o rest)

length_one_more : (xs : List String) (c : String) → ltb 0 (length (xs ++ (c ∷ []))) ≡ true
length_one_more [] c = refl
length_one_more (x ∷ xs) c = ground arith

pub counted_nonempty :
    (c : String) (xs : List String) → 0 < count_owner c xs → ltb 0 (length xs) ≡ true
counted_nonempty c [] h = absurd (omega arith)
counted_nonempty c (x ∷ xs) h = ground arith

module _ {L : Type 0} where
  pub own_per_call :
      (c c' : String) (k k' : Endpoint) (l : L) (o : Owners L)
      → lookup k' (lookup_list c' (own c k l o).per_call)
        ≡ ite
            (String-discrete c c')
            (ite (Endpoint-discrete k k') (some l) (lookup k' (lookup_list c o.per_call)))
            (lookup k' (lookup_list c' o.per_call))
  unfolding own
  own_per_call c c' k k' l o = ground (
    arith,
    lookup_list-insert c c' (insert k l (lookup_list c o.per_call)) o.per_call,
    lookup-insert k k' l (lookup_list c o.per_call),
  )

  own_same :
      (c c' : String) (k : Endpoint) (l : L) (o : Owners L)
      → c ≡ c'
      → lookup_list c' (own c k l o).per_call ≡ insert k l (lookup_list c o.per_call)
  unfolding own
  own_same c c' k l o p =
      ground (arith, lookup_list-insert c c' (insert k l (lookup_list c o.per_call)) o.per_call)

  own_other :
      (c c' : String) (k : Endpoint) (l : L) (o : Owners L)
      → c ≢ c'
      → lookup_list c' (own c k l o).per_call ≡ lookup_list c' o.per_call
  unfolding own
  own_other c c' k l o n =
      ground (arith, lookup_list-insert c c' (insert k l (lookup_list c o.per_call)) o.per_call)

  pub own_owners :
      (c : String) (k k' : Endpoint) (l : L) (o : Owners L)
      → lookup_list k' (own c k l o).owners
        ≡ ite
            (Endpoint-discrete k k')
            (if is_owned c k o then lookup_list k o.owners else lookup_list k o.owners ++ (c ∷ []))
            (lookup_list k' o.owners)
  unfolding own
  own_owners c k k' l o =
      ground (arith, lookup_list-insert k k' (lookup_list k o.owners ++ (c ∷ [])) o.owners)

  pub own_resolved :
      (c : String) (k k' : Endpoint) (l : L) (o : Owners L)
      → lookup k' (own c k l o).resolved
        ≡ ite (Endpoint-discrete k k') (some l) (lookup k' o.resolved)
  unfolding own
  own_resolved c k k' l o = lookup-insert k k' l o.resolved

module _ {L : Type 0} (name : L → String) where
  -- Each call that has an endpoint owns it once; an endpoint resolves where it has an owner, and to
  -- what the named owner registered for it.
  pub record Owned (o : Owners L) : Type 0 where
    pub counted :
        (k : Endpoint) (c : String)
        → count_owner c (lookup_list k o.owners) ≡ (if is_owned c k o then 1 else 0)
    pub resolves :
        (k : Endpoint) → is_some (lookup k o.resolved) ≡ ltb 0 (length (lookup_list k o.owners))
    pub said :
        (k : Endpoint) (l : L)
        → lookup k o.resolved ≡ some l
        → lookup k (lookup_list (name l) o.per_call) ≡ some l
    pub named :
        (k : Endpoint) (c : String) (l : L)
        → lookup k (lookup_list c o.per_call) ≡ some l
        → name l ≡ c
    pub keyed : (c : String) → IsMap (lookup_list c o.per_call)

  pub own-Owned :
      (c : String) (k : Endpoint) (l : L) (o : Owners L)
      → name l ≡ c
      → Owned o
      → Owned (own c k l o)
  own-Owned c k l o e v = record {
    counted = λ k' c'. ground (
      arith,
      v.counted k' c',
      own_per_call c c' k k' l o,
      own_owners c k k' l o,
      count_owner-append_one c' c (lookup_list k o.owners),
    );
    resolves = λ k'. ground (
      arith,
      v.resolves k',
      v.counted k c,
      own_owners c k k' l o,
      own_resolved c k k' l o,
      length_one_more (lookup_list k o.owners) c,
      counted_nonempty c (lookup_list k o.owners),
    );
    said = λ k' l' h.
        ground (arith, e, v.said k' l', own_resolved c k k' l o, own_per_call c (name l') k k' l o);
    named = λ k' c' l' h. ground (arith, e, v.named k' c' l', own_per_call c c' k k' l o);
    keyed = λ c'. elim (String-discrete c c') [
      | yes p ↦ rw (own_same c c' k l o p) (insert-IsMap k l _ (v.keyed c))
      | no n ↦ rw (own_other c c' k l o n) (v.keyed c')
    ];
  }
