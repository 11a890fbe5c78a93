-- ===== src/Endpoints/Presence.antt =====
-- References against what the maps have.
use sip_exporter.Prelude.{
  ℕ, ◌-◌, ◌≡◌, ◌≢◌, ◌∙◌, refl, sym, ap, subst, Bool, true, false, ◌||◌, List, [], ◌∷◌, none, some,
  some_or, is_some, ite, if◌then◌else◌, arith, ltb, Option-cases, Bool-cases, inl, inr,
}
use sip_exporter.Prelude.Assoc.{
  lookup, insert, delete, IsMap, lookup-insert, lookup-delete, insert-IsMap, delete-IsMap,
}
use sip_exporter.Endpoints.{
  EndpointKey, EndpointKey-discrete, kernel_key, Kernel, KernelLaws, Endpoints, set_in_maps,
  set_presence, retain_key, release_key, set_all,
}

-- Each pair is what its key waits for.
abbrev pub AllPending : List (EndpointKey × Bool) → List (EndpointKey × ℕ) → Type 0
AllPending [] refs = Unit {0}
AllPending ((k, p) ∷ rest) refs = (p ≡ is_some (lookup k refs)) × AllPending rest refs

pub all_pending :
    (xs : List (EndpointKey × Bool)) (refs : List (EndpointKey × ℕ))
    → IsMap xs
    → ((k : EndpointKey) (p : Bool) → lookup k xs ≡ some p → p ≡ is_some (lookup k refs))
    → AllPending xs refs
unfolding lookup
all_pending [] refs v h = tt
all_pending ((k, p) ∷ xs) refs v h =
    (h k p (ground arith), all_pending xs refs v.1 (λ j q e. ground (arith, e, v.0, h j q)))

module _ {M : Type 0} (kernel : Kernel M) where
  -- The map has the key unless it evicted it, or does not have it.
  abbrev pub HasAs : EndpointKey → Bool → M → Type 0
  HasAs k true m = kernel.has m k || kernel.evicted m k ≡ true
  HasAs k false m = kernel.has m k ≡ false

  -- The same of every map.
  abbrev pub AllHave : EndpointKey → Bool → List M → Type 0
  AllHave k b [] = Unit {0}
  AllHave k b (m ∷ maps) = HasAs k b m × AllHave k b maps

  -- A key that is not dirty is in all maps or in none, as it has references or not, and a dirty key
  -- waits for just that.
  pub record TrackedAt (k : EndpointKey) (t : Endpoints M) : Type 0 where
    pub settled : lookup k t.dirty ≡ none → AllHave k (is_some (lookup k t.refs)) t.maps
    pub pending : (p : Bool) → lookup k t.dirty ≡ some p → p ≡ is_some (lookup k t.refs)

  pub record Tracked (t : Endpoints M) : Type 0 where
    pub tracked : (k : EndpointKey) → TrackedAt k t
    pub keyed : IsMap t.dirty

module _ {M : Type 0} (kernel : Kernel M) (laws : KernelLaws kernel) where
  set_in_maps_self :
      (present : Bool) (k : EndpointKey) (maps : List M)
      → (set_in_maps kernel present k maps).1 ≡ true
      → AllHave kernel k present (set_in_maps kernel present k maps).0
  unfolding set_in_maps
  set_in_maps_self present k [] h = tt
  set_in_maps_self true k (m ∷ maps) h =
      (ground (arith, h, laws.updated m k), set_in_maps_self true k maps (ground (arith, h)))
  set_in_maps_self false k (m ∷ maps) h =
      (ground (arith, h, laws.deleted m k), set_in_maps_self false k maps (ground (arith, h)))

  update_as :
      (k j : EndpointKey) (b : Bool) (m : M)
      → k ≢ j
      → HasAs kernel j b m
      → HasAs kernel j b (kernel.update_key m k).0
  update_as k j true m n h = laws.update_keeps m k j n h
  update_as k j false m n h = laws.update_adds m k j n h

  delete_as :
      (k j : EndpointKey) (b : Bool) (m : M)
      → k ≢ j
      → HasAs kernel j b m
      → HasAs kernel j b (kernel.delete_key m k).0
  delete_as k j true m n h = ground (arith, h, laws.delete_others m k j n)
  delete_as k j false m n h = ground (arith, h, laws.delete_others m k j n)

  set_in_maps_others :
      (present : Bool) (k j : EndpointKey) (b : Bool) (maps : List M)
      → k ≢ j
      → AllHave kernel j b maps
      → AllHave kernel j b (set_in_maps kernel present k maps).0
  unfolding set_in_maps
  set_in_maps_others present k j b [] n h = tt
  set_in_maps_others true k j b (m ∷ maps) n h =
      (update_as k j b m n h.0, set_in_maps_others true k j b maps n h.1)
  set_in_maps_others false k j b (m ∷ maps) n h =
      (delete_as k j b m n h.0, set_in_maps_others false k j b maps n h.1)

  dirty_after :
      (k j : EndpointKey) (p : Bool) (t : Endpoints M)
      → lookup j (set_presence kernel k p t).dirty
        ≡ ite
            (EndpointKey-discrete k j)
            (if (set_in_maps kernel p k t.maps).1 then none else some p)
            (lookup j t.dirty)
  unfolding set_presence
  dirty_after k j p t = ground (arith, lookup-insert k j p t.dirty, lookup-delete k j t.dirty)

  set_presence_self :
      (k : EndpointKey) (p : Bool) (t : Endpoints M)
      → p ≡ is_some (lookup k t.refs)
      → TrackedAt kernel k (set_presence kernel k p t)
  unfolding set_presence
  set_presence_self k p t e = record {
    settled = λ h.
        subst (λ b. AllHave kernel k b (set_in_maps kernel p k t.maps).0) e
          (set_in_maps_self p k t.maps (ground (arith, h, dirty_after k k p t)));
    pending = λ q h. ground (arith, e, h, dirty_after k k p t);
  }

  set_presence_others :
      (k j : EndpointKey) (p : Bool) (t : Endpoints M)
      → k ≢ j
      → TrackedAt kernel j t
      → TrackedAt kernel j (set_presence kernel k p t)
  unfolding set_presence
  set_presence_others k j p t n v =
      let after : lookup j (set_presence kernel k p t).dirty ≡ lookup j t.dirty =
        ground (arith, n, dirty_after k j p t) in
      record {
        settled = λ h.
            set_in_maps_others p k j (is_some (lookup j t.refs)) t.maps n
              (v.settled (sym after ∙ h));
        pending = λ q h. v.pending q (sym after ∙ h);
      }

  -- A change of the references of other keys.
  refs_others :
      (j : EndpointKey) (refs : List (EndpointKey × ℕ)) (t : Endpoints M)
      → lookup j refs ≡ lookup j t.refs
      → TrackedAt kernel j t
      → TrackedAt kernel j (record t { refs = refs })
  refs_others j refs t e v = record {
    settled = λ h. rw e (v.settled h);
    pending = λ q h. v.pending q h ∙ ap is_some (sym e);
  }

  -- A change of references that leaves a key with some.
  refs_same :
      (k : EndpointKey) (refs : List (EndpointKey × ℕ)) (t : Endpoints M)
      → is_some (lookup k refs) ≡ is_some (lookup k t.refs)
      → TrackedAt kernel k t
      → TrackedAt kernel k (record t { refs = refs })
  refs_same k refs t e v = record {
    settled = λ h. rw e (v.settled h);
    pending = λ q h. v.pending q h ∙ sym e;
  }

  -- Presence is set to what the references of the key have become.
  update_one :
      (k j : EndpointKey) (p : Bool) (refs : List (EndpointKey × ℕ)) (t : Endpoints M)
      → p ≡ is_some (lookup k refs)
      → (k ≢ j → lookup j refs ≡ lookup j t.refs)
      → TrackedAt kernel j t
      → TrackedAt kernel j (set_presence kernel k p (record t { refs = refs }))
  update_one k j p refs t e same v = elim (EndpointKey-discrete k j) [
    | yes here ↦
        subst (λ x. TrackedAt kernel x (set_presence kernel k p (record t { refs = refs }))) here
          (set_presence_self k p (record t { refs = refs }) e)
    | no n ↦
        set_presence_others k j p (record t { refs = refs }) n (refs_others j refs t (same n) v)
  ]

  retain_first :
      (k j : EndpointKey) (t : Endpoints M)
      → TrackedAt kernel j t
      → TrackedAt kernel j (set_presence kernel k true (record t { refs = insert k 1 t.refs }))
  retain_first k j t v =
      update_one k j true (insert k 1 t.refs) t (ground (arith, lookup-insert k k 1 t.refs))
        (λ n. ground (arith, n, lookup-insert k j 1 t.refs)) v

  release_last :
      (k j : EndpointKey) (t : Endpoints M)
      → TrackedAt kernel j t
      → TrackedAt kernel j (set_presence kernel k false (record t { refs = delete k t.refs }))
  release_last k j t v =
      update_one k j false (delete k t.refs) t (ground (arith, lookup-delete k k t.refs))
        (λ n. ground (arith, n, lookup-delete k j t.refs)) v

  recount :
      (k j : EndpointKey) (n : ℕ) (t : Endpoints M)
      → is_some (lookup k t.refs) ≡ true
      → TrackedAt kernel j t
      → TrackedAt kernel j (record t { refs = insert k n t.refs })
  recount k j n t some_refs v =
      refs_same j (insert k n t.refs) t (ground (arith, some_refs, lookup-insert k j n t.refs)) v

  pub retain_key-TrackedAt :
      (k j : EndpointKey) (t : Endpoints M)
      → TrackedAt kernel j t
      → TrackedAt kernel j (retain_key kernel k t)
  unfolding retain_key
  retain_key-TrackedAt k j t v = elim (Bool-cases (ltb 0 (some_or (lookup k t.refs) 0))) [
    | inl more ↦ rw more (recount k j _ t (ground (arith, more)) v)
    | inr first ↦ rw first (retain_first k j t v)
  ]

  pub release_key-TrackedAt :
      (k j : EndpointKey) (t : Endpoints M)
      → TrackedAt kernel j t
      → TrackedAt kernel j (release_key kernel k t)
  unfolding release_key
  release_key-TrackedAt k j t v = elim (Option-cases (lookup k t.refs)) [
    | inl absent ↦ rw (absent, release_key) v
    | inr (n, present) ↦ elim (Bool-cases (ltb 1 n)) [
      | inl more ↦
          rw (present, release_key, more) (recount k j (n - 1) t (ground (arith, present)) v)
      | inr last ↦ rw (present, release_key, last) (release_last k j t v)
    ]
  ]

  pub set_all-TrackedAt :
      (xs : List (EndpointKey × Bool)) (j : EndpointKey) (t : Endpoints M)
      → AllPending xs t.refs
      → TrackedAt kernel j t
      → TrackedAt kernel j (set_all kernel xs t)
  unfolding set_all set_presence
  set_all-TrackedAt [] j t h v = v
  set_all-TrackedAt ((k, p) ∷ xs) j t h v =
      set_all-TrackedAt xs j (set_presence kernel k p t) h.1
        (update_one k j p t.refs t h.0 (λ n. refl) v)

  pub set_presence_keyed :
      (k : EndpointKey) (p : Bool) (t : Endpoints M)
      → IsMap t.dirty
      → IsMap (set_presence kernel k p t).dirty
  unfolding set_presence
  set_presence_keyed k p t v = elim (Bool-cases (set_in_maps kernel p k t.maps).1) [
    | inl converged ↦ rw converged (delete-IsMap k t.dirty v)
    | inr some_failed ↦ rw some_failed (insert-IsMap k p t.dirty v)
  ]
