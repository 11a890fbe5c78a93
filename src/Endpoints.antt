-- ===== src/Endpoints.antt =====
-- internal/exporter/exporter.go: the references of media endpoints and their presence in the maps of
-- the kernel filter.
pub mod Presence
pub mod Settled
use sip_exporter.Prelude.{
  ℕ, ◌+◌, ◌-◌, Bool, true, false, ◌&&◌, ◌||◌, ◌≡◌, ◌≢◌, String, List, [], ◌∷◌, Option, none, some,
  some_or, if◌then◌else◌, ltb, Key, ℕ_discrete,
}
use sip_exporter.Prelude.Assoc.{lookup, insert, delete}

-- `rtpEndpointKey`, without its padding.
pub record EndpointKey : Type 0 where
  pub ip : ℕ
  pub port : ℕ

unfoldable pub EndpointKey-discrete : Discrete EndpointKey
EndpointKey-discrete = hlevel ℕ_discrete

instance abbrev pub kernel_key : Key EndpointKey
kernel_key = record { same = EndpointKey-discrete }

-- The error of a map operation: none, `ebpf.ErrKeyNotExist`, or another one.
pub data Outcome : Type 0 where
  done missing failed : Outcome

-- What the code uses of `net.ParseIP` with `To4`, and of a map of the cilium/ebpf library.
pub record Kernel (M : Type 0) : Type 0 where
  pub parse_ip4 : String → Option ℕ
  pub update_key : M → EndpointKey → M × Outcome
  pub delete_key : M → EndpointKey → M × Outcome
  -- Whether the map has the key, whether it evicted the key since it was put, whether it is at its
  -- capacity, and whether it carries out what it is asked from now on.
  pub has : M → EndpointKey → Bool
  pub evicted : M → EndpointKey → Bool
  pub is_full : M → Bool
  pub is_up : M → Bool

-- The documented effects on an LRU hash map, which `rtp_endpoints` is: an operation without an error has
-- its effect, a deletion fails with `ErrKeyNotExist` on a key that is not there and touches no other
-- key, and an update adds no other key, but at its capacity the map may evict others to make room.
pub record KernelLaws {M : Type 0} (kernel : Kernel M) : Type 0 where
  pub updated :
      (m : M) (k : EndpointKey)
      → (kernel.update_key m k).1 ≡ done
      → kernel.has (kernel.update_key m k).0 k ≡ true
  pub deleted :
      (m : M) (k : EndpointKey)
      → (kernel.delete_key m k).1 ≢ failed
      → kernel.has (kernel.delete_key m k).0 k ≡ false
  pub update_adds :
      (m : M) (k j : EndpointKey)
      → k ≢ j
      → kernel.has m j ≡ false
      → kernel.has (kernel.update_key m k).0 j ≡ false
  pub update_keeps :
      (m : M) (k j : EndpointKey)
      → k ≢ j
      → kernel.has m j || kernel.evicted m j ≡ true
      → kernel.has (kernel.update_key m k).0 j || kernel.evicted (kernel.update_key m k).0 j ≡ true
  pub update_evicts :
      (m : M) (k j : EndpointKey)
      → kernel.evicted m j ≡ false
      → kernel.evicted (kernel.update_key m k).0 j ≡ true
      → kernel.is_full m ≡ true
  pub delete_others :
      (m : M) (k j : EndpointKey)
      → k ≢ j
      → (kernel.has (kernel.delete_key m k).0 j ≡ kernel.has m j)
        × (kernel.evicted (kernel.delete_key m k).0 j ≡ kernel.evicted m j)
  pub up_update :
      (m : M) (k : EndpointKey)
      → kernel.is_up m ≡ true
      → ((kernel.update_key m k).1 ≡ done) × (kernel.is_up (kernel.update_key m k).0 ≡ true)
  pub up_delete :
      (m : M) (k : EndpointKey)
      → kernel.is_up m ≡ true
      → ((kernel.delete_key m k).1 ≢ failed) × (kernel.is_up (kernel.delete_key m k).0 ≡ true)

-- The fields of `exporter` for its endpoints.
pub record Endpoints (M : Type 0) : Type 0 where
  pub maps : List M
  pub refs : List (EndpointKey × ℕ)
  pub dirty : List (EndpointKey × Bool)

-- `err == nil`, or a deletion of a key that is not there.
abbrev pub is_converged : Bool → Outcome → Bool
is_converged present done = true
is_converged true missing = false
is_converged false missing = true
is_converged present failed = false

module _ {M : Type 0} (kernel : Kernel M) where
  abbrev pub ip_port_to_key : String → ℕ → Option EndpointKey
  ip_port_to_key ip port = elim (kernel.parse_ip4 ip) [
    | none ↦ none
    | some a ↦ some (record { ip = a; port = port })
  ]

  -- The loop of `setRTPEndpointPresence`: the maps, and `converged`.
  unfoldable pub set_in_maps : Bool → EndpointKey → List M → List M × Bool
  set_in_maps present key [] = ([], true)
  set_in_maps present key (m ∷ maps) =
      let (after, outcome) = if present then kernel.update_key m key else kernel.delete_key m key in
      let (rest, converged) = set_in_maps present key maps in
      (after ∷ rest, is_converged present outcome && converged)

  unfoldable pub set_presence : EndpointKey → Bool → Endpoints M → Endpoints M
  unfolding set_in_maps
  set_presence key present t =
      let (maps, converged) = set_in_maps present key t.maps in
      record t {
        maps = maps;
        dirty = if converged then delete key t.dirty else insert key present t.dirty;
      }

  -- `retainRTPEndpoint` and `releaseRTPEndpoint`, from the key on.
  unfoldable pub retain_key : EndpointKey → Endpoints M → Endpoints M
  unfolding set_presence
  retain_key key t =
      let n = some_or (lookup key t.refs) 0 in
      if ltb 0 n
      then record t { refs = insert key (n + 1) t.refs }
      else set_presence key true (record t { refs = insert key 1 t.refs })

  unfoldable pub release_key : EndpointKey → Endpoints M → Endpoints M
  unfolding set_presence
  release_key key t = elim (lookup key t.refs) [
    | none ↦ t
    | some n ↦
        if ltb 1 n
        then record t { refs = insert key (n - 1) t.refs }
        else set_presence key false (record t { refs = delete key t.refs })
  ]

  abbrev pub retain_endpoint : String → ℕ → Endpoints M → Endpoints M
  retain_endpoint ip port t = elim (ip_port_to_key ip port) [
    | none ↦ t
    | some key ↦ retain_key key t
  ]

  abbrev pub release_endpoint : String → ℕ → Endpoints M → Endpoints M
  release_endpoint ip port t = elim (ip_port_to_key ip port) [
    | none ↦ t
    | some key ↦ release_key key t
  ]

  -- The loop of `reconcileRTPEndpoints`, over the keys that are dirty when it starts.
  unfoldable pub set_all : List (EndpointKey × Bool) → Endpoints M → Endpoints M
  unfolding set_presence
  set_all [] t = t
  set_all ((key, present) ∷ rest) t = set_all rest (set_presence key present t)

  unfoldable pub reconcile : Endpoints M → Endpoints M
  unfolding set_all
  reconcile t = set_all t.dirty t

abbrev pub new_endpoints : {M : Type 0} → List M → Endpoints M
new_endpoints maps = record { maps = maps; refs = []; dirty = [] }

pub data EndpointCall : Type 0 where
  retains releases : String → ℕ → EndpointCall
  reconciles : EndpointCall

module _ {M : Type 0} (kernel : Kernel M) where
  abbrev pub endpoint_step : Endpoints M → EndpointCall → Endpoints M
  endpoint_step t (retains ip port) = retain_endpoint kernel ip port t
  endpoint_step t (releases ip port) = release_endpoint kernel ip port t
  endpoint_step t reconciles = reconcile kernel t

  abbrev pub endpoint_steps : Endpoints M → List EndpointCall → Endpoints M
  endpoint_steps t [] = t
  endpoint_steps t (x ∷ xs) = endpoint_steps (endpoint_step t x) xs
