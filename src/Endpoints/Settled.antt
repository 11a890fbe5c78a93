-- ===== src/Endpoints/Settled.antt =====
-- The maps of the kernel filter after any calls.
use sip_exporter.Prelude.{
  ◌≡◌, refl, ap, Bool, true, false, List, [], ◌∷◌, none, some_or, is_some, arith, ltb, Option-cases,
  Bool-cases, inl, inr,
}
use sip_exporter.Prelude.Assoc.{lookup, insert, delete, IsMap, delete_absent}
use sip_exporter.Endpoints.{
  EndpointKey, kernel_key, Kernel, KernelLaws, Endpoints, ip_port_to_key, set_in_maps, set_presence,
  retain_key, release_key, retain_endpoint, release_endpoint, set_all, reconcile, new_endpoints,
  EndpointCall, retains, releases, reconciles, endpoint_step, endpoint_steps,
}
use sip_exporter.Endpoints.Presence.{
  AllHave, Tracked, set_presence_keyed, retain_key-TrackedAt, release_key-TrackedAt,
  set_all-TrackedAt, all_pending,
}

module _ {M : Type 0} (kernel : Kernel M) where
  abbrev pub AllUp : List M → Type 0
  AllUp [] = Unit {0}
  AllUp (m ∷ maps) = (kernel.is_up m ≡ true) × AllUp maps

module _ {M : Type 0} (kernel : Kernel M) (laws : KernelLaws kernel) where
  retain_key-Tracked :
      (k : EndpointKey) (t : Endpoints M)
      → Tracked kernel t
      → Tracked kernel (retain_key kernel k t)
  unfolding retain_key
  retain_key-Tracked k t v = record {
    tracked = λ j. retain_key-TrackedAt kernel laws k j t (v.tracked j);
    keyed = elim (Bool-cases (ltb 0 (some_or (lookup k t.refs) 0))) [
      | inl more ↦ rw more v.keyed
      | inr first ↦
          rw first
            (set_presence_keyed kernel laws k true (record t { refs = insert k 1 t.refs }) v.keyed)
    ];
  }

  release_key-Tracked :
      (k : EndpointKey) (t : Endpoints M)
      → Tracked kernel t
      → Tracked kernel (release_key kernel k t)
  unfolding release_key
  release_key-Tracked k t v = record {
    tracked = λ j. release_key-TrackedAt kernel laws k j t (v.tracked j);
    keyed = elim (Option-cases (lookup k t.refs)) [
      | inl absent ↦ rw (absent, release_key) v.keyed
      | inr (n, present) ↦ elim (Bool-cases (ltb 1 n)) [
        | inl more ↦ rw (present, release_key, more) v.keyed
        | inr last ↦
            rw (present, release_key, last)
              (set_presence_keyed kernel laws k false (record t { refs = delete k t.refs }) v.keyed)
      ]
    ];
  }

  set_all_keyed :
      (xs : List (EndpointKey × Bool)) (t : Endpoints M)
      → IsMap t.dirty
      → IsMap (set_all kernel xs t).dirty
  unfolding set_all
  set_all_keyed [] t v = v
  set_all_keyed ((k, p) ∷ xs) t v =
      set_all_keyed xs (set_presence kernel k p t) (set_presence_keyed kernel laws k p t v)

  reconcile-Tracked : (t : Endpoints M) → Tracked kernel t → Tracked kernel (reconcile kernel t)
  unfolding reconcile
  reconcile-Tracked t v =
      let waits = all_pending t.dirty t.refs v.keyed (λ k. (v.tracked k).pending) in
      record {
        tracked = λ j. set_all-TrackedAt kernel laws t.dirty j t waits (v.tracked j);
        keyed = set_all_keyed t.dirty t v.keyed;
      }

  endpoint_step-Tracked :
      (t : Endpoints M) (x : EndpointCall)
      → Tracked kernel t
      → Tracked kernel (endpoint_step kernel t x)
  endpoint_step-Tracked t (retains ip port) v =
      elim (Option-cases (ip_port_to_key kernel ip port)) [
        | inl unread ↦ rw (unread, endpoint_step, retain_endpoint) v
        | inr (k, known) ↦ rw (known, endpoint_step, retain_endpoint) (retain_key-Tracked k t v)
      ]
  endpoint_step-Tracked t (releases ip port) v =
      elim (Option-cases (ip_port_to_key kernel ip port)) [
        | inl unread ↦ rw (unread, endpoint_step, release_endpoint) v
        | inr (k, known) ↦ rw (known, endpoint_step, release_endpoint) (release_key-Tracked k t v)
      ]
  endpoint_step-Tracked t reconciles v = reconcile-Tracked t v

  endpoint_steps-Tracked :
      (t : Endpoints M) (xs : List EndpointCall)
      → Tracked kernel t
      → Tracked kernel (endpoint_steps kernel t xs)
  endpoint_steps-Tracked t [] v = v
  endpoint_steps-Tracked t (x ∷ xs) v =
      endpoint_steps-Tracked (endpoint_step kernel t x) xs (endpoint_step-Tracked t x v)

  new_endpoints-Tracked :
      (maps : List M)
      → ((k : EndpointKey) → AllHave kernel k false maps)
      → Tracked kernel (new_endpoints maps)
  unfolding lookup
  new_endpoints-Tracked maps empty = record {
    tracked = λ k. record { settled = λ h. empty k; pending = λ p h. absurd (ground arith) };
    keyed = tt;
  }

  -- After any calls that retain and release endpoints and reconcile the maps, whichever operations of
  -- the maps fail, an endpoint that does not wait to be reconciled is in no map if it has no references,
  -- and otherwise in every map but those that evicted it to make room. The maps are empty at first.
  pub endpoint_steps_settled :
      (maps : List M) (xs : List EndpointCall) (k : EndpointKey)
      → ((j : EndpointKey) → AllHave kernel j false maps)
      → lookup k (endpoint_steps kernel (new_endpoints maps) xs).dirty ≡ none
      → let t = endpoint_steps kernel (new_endpoints maps) xs in
        AllHave kernel k (is_some (lookup k t.refs)) t.maps
  endpoint_steps_settled maps xs k empty clean =
      ((endpoint_steps-Tracked (new_endpoints maps) xs (new_endpoints-Tracked maps empty)).tracked
          k).settled
        clean

  set_in_maps_up :
      (p : Bool) (k : EndpointKey) (maps : List M)
      → AllUp kernel maps
      → ((set_in_maps kernel p k maps).1 ≡ true) × AllUp kernel (set_in_maps kernel p k maps).0
  unfolding set_in_maps
  set_in_maps_up p k [] u = (refl, tt)
  set_in_maps_up true k (m ∷ maps) u =
      let (rest, up) = set_in_maps_up true k maps u.1 in
      let (now, later) = laws.up_update m k u.0 in (ground (arith, rest, now), (later, up))
  set_in_maps_up false k (m ∷ maps) u =
      let (rest, up) = set_in_maps_up false k maps u.1 in
      let (now, later) = laws.up_delete m k u.0 in (ground (arith, rest, now), (later, up))

  set_all_up :
      (xs : List (EndpointKey × Bool)) (t : Endpoints M)
      → t.dirty ≡ xs
      → IsMap xs
      → AllUp kernel t.maps
      → (set_all kernel xs t).dirty ≡ []
  unfolding set_all set_presence delete
  set_all_up [] t e v u = e
  set_all_up ((k, p) ∷ xs) t e v u =
      let (converged, up) = set_in_maps_up p k t.maps u in
      set_all_up xs (set_presence kernel k p t)
        (ground (arith, converged, e, v.0, delete_absent k xs v.0)) v.1 up

  -- After any such calls, once the maps carry out what they are asked, one reconciliation leaves no
  -- endpoint waiting: every endpoint is in no map if it has no references, and otherwise in every map
  -- but those that evicted it to make room.
  pub reconcile_settles :
      (maps : List M) (xs : List EndpointCall) (k : EndpointKey)
      → ((j : EndpointKey) → AllHave kernel j false maps)
      → AllUp kernel (endpoint_steps kernel (new_endpoints maps) xs).maps
      → let t = reconcile kernel (endpoint_steps kernel (new_endpoints maps) xs) in
        (t.dirty ≡ []) × AllHave kernel k (is_some (lookup k t.refs)) t.maps
  unfolding lookup reconcile
  reconcile_settles maps xs k empty up =
      let t = endpoint_steps kernel (new_endpoints maps) xs in
      let v = endpoint_steps-Tracked (new_endpoints maps) xs (new_endpoints-Tracked maps empty) in
      let clean = set_all_up t.dirty t refl v.keyed up in
      (clean, ((reconcile-Tracked t v).tracked k).settled (ap (lookup k) clean))
