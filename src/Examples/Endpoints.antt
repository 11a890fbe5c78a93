-- ===== src/Examples/Endpoints.antt =====
-- The endpoint references of internal/exporter/exporter.go with maps that fail some operations.
use sip_exporter.Prelude.{
  ℕ, ◌-◌, ◌≡◌, refl, true, false, List, [], ◌∷◌, ◌++◌, ◌||◌, length, ltb, none, some, is_some, ite,
  ◌==◌, if◌then◌else◌, arith, String-discrete, ℕ_discrete,
}
use sip_exporter.Prelude.Assoc.{lookup, insert, delete, lookup-insert, lookup-delete}
use sip_exporter.Endpoints.{
  EndpointKey, EndpointKey-discrete, kernel_key, Outcome, done, missing, failed, Kernel, KernelLaws,
  set_in_maps, set_presence, retain_key, release_key, set_all, reconcile, new_endpoints,
  EndpointCall, retains, releases, reconciles, endpoint_steps,
}
use sip_exporter.Endpoints.Presence.{AllHave}
use sip_exporter.Endpoints.Settled.{AllUp, endpoint_steps_settled, reconcile_settles}

-- A map that still fails so many operations, with room for one key: an update evicts the others.
record FlakyMap : Type 0 where
  keys : List (EndpointKey × Unit {0})
  gone : List (EndpointKey × Unit {0})
  failures : ℕ

abbrev flaky_update : FlakyMap → EndpointKey → FlakyMap × Outcome
flaky_update m k =
    if m.failures == 0
    then (record m { keys = insert k tt []; gone = delete k (m.keys ++ m.gone) }, done)
    else (record m { failures = m.failures - 1 }, failed)

abbrev flaky_delete : FlakyMap → EndpointKey → FlakyMap × Outcome
flaky_delete m k =
    if m.failures == 0
    then (record m { keys = delete k m.keys }, if is_some (lookup k m.keys) then done else missing)
    else (record m { failures = m.failures - 1 }, failed)

abbrev flaky : Kernel FlakyMap
flaky = record {
  parse_ip4 = λ s. ite (String-discrete s "10.0.0.1") (some 167772161) none;
  update_key = flaky_update;
  delete_key = flaky_delete;
  has = λ m k. is_some (lookup k m.keys);
  evicted = λ m k. is_some (lookup k m.gone);
  is_full = λ m. ltb 0 (length m.keys);
  is_up = λ m. m.failures == 0;
}

lookup-append :
    (k : EndpointKey) (xs ys : List (EndpointKey × Unit {0}))
    → is_some (lookup k (xs ++ ys)) ≡ is_some (lookup k xs) || is_some (lookup k ys)
unfolding lookup
lookup-append k [] ys = refl
lookup-append k ((j, v) ∷ xs) ys = ground (arith, lookup-append k xs ys)

lookup_nothing : (k : EndpointKey) → is_some (lookup {V = Unit {0}} k []) ≡ false
unfolding lookup
lookup_nothing k = refl

lookup_full :
    (k : EndpointKey) (xs : List (EndpointKey × Unit {0}))
    → is_some (lookup k xs) ≡ true
    → ltb 0 (length xs) ≡ true
unfolding lookup
lookup_full k [] h = absurd (ground (arith, h))
lookup_full k (x ∷ xs) h = ground arith

flaky-KernelLaws : KernelLaws flaky
flaky-KernelLaws = record {
  updated = λ m k h. ground (arith, h, lookup-insert k k tt []);
  deleted = λ m k h. ground (arith, h, lookup-delete k k m.keys);
  update_adds = λ m k j n h. ground (arith, n, h, lookup-insert k j tt [], lookup_nothing j);
  update_keeps = λ m k j n h.
      ground (arith, n, h, lookup-delete k j (m.keys ++ m.gone), lookup-append j m.keys m.gone);
  update_evicts = λ m k j h g. ground (
    arith,
    h,
    g,
    lookup-delete k j (m.keys ++ m.gone),
    lookup-append j m.keys m.gone,
    lookup_full j m.keys,
  );
  delete_others = λ m k j n.
      (ground (arith, n, lookup-delete k j m.keys), ground (arith, n, lookup-delete k j m.keys));
  up_update = λ m k h. (ground (arith, h), ground (arith, h));
  up_delete = λ m k h. (ground (arith, h), ground (arith, h));
}

-- The first of two maps fails once.
abbrev two_maps : List FlakyMap
two_maps =
    record { keys = []; gone = []; failures = 1 }
    ∷ record { keys = []; gone = []; failures = 0 }
    ∷ []

two_maps_empty : (j : EndpointKey) → AllHave flaky j false two_maps
unfolding lookup
two_maps_empty j = (refl, (refl, tt))

abbrev key : EndpointKey
key = record { ip = 167772161; port = 4000 }

abbrev retained : List EndpointCall
retained = retains "10.0.0.1" 4000 ∷ retains "10.0.0.1" 4000 ∷ retains "nonsense" 4000 ∷ []

abbrev mended : List EndpointCall
mended =
    retains "10.0.0.1" 4000 ∷ retains "10.0.0.1" 4000 ∷ reconciles ∷ releases "10.0.0.1" 4000 ∷ []

is_clean : lookup key (endpoint_steps flaky (new_endpoints two_maps) mended).dirty ≡ none
unfolding lookup insert delete set_in_maps set_presence retain_key release_key set_all reconcile
    String-discrete EndpointKey-discrete ℕ_discrete
is_clean = refl

waits : lookup key (endpoint_steps flaky (new_endpoints two_maps) retained).dirty ≡ some true
unfolding lookup insert delete set_in_maps set_presence retain_key release_key set_all reconcile
    String-discrete EndpointKey-discrete ℕ_discrete
waits = refl

endpoint_steps_settled_example :
    let t = endpoint_steps flaky (new_endpoints two_maps) mended in
    AllHave flaky key (is_some (lookup key t.refs)) t.maps
endpoint_steps_settled_example =
    endpoint_steps_settled flaky flaky-KernelLaws two_maps mended key two_maps_empty is_clean

is_mended : AllUp flaky (endpoint_steps flaky (new_endpoints two_maps) retained).maps
unfolding lookup insert delete set_in_maps set_presence retain_key release_key set_all reconcile
    String-discrete EndpointKey-discrete ℕ_discrete
is_mended = (refl, (refl, tt))

reconcile_settles_example :
    let t = reconcile flaky (endpoint_steps flaky (new_endpoints two_maps) retained) in
    (t.dirty ≡ []) × AllHave flaky key (is_some (lookup key t.refs)) t.maps
reconcile_settles_example =
    reconcile_settles flaky flaky-KernelLaws two_maps retained key two_maps_empty is_mended
