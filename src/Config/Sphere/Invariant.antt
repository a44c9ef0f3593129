-- ===== src/Config/Sphere/Invariant.antt =====
-- What holds of the rings and volumes of a sphere after any sequence of events.
use datom.Common.{ℕ, suc, ◌+◌, ◌*◌, ◌≤◌, ◌<◌, ◌≡◌, some, List, [], ◌∷◌, length, All}
use datom.Status.{Status}
use datom.Exec.{Outcome, returned, thrown, aborted}
use datom.Config.{VolumeInfo, RingInfo}
use datom.Config.Sphere.{SphereMgr, Event, service_added, ring_created}

-- The id was handed out, and the ring has as many members as the replica factor.
abbrev pub IsRing : ℕ → ℕ → RingInfo → Type 0
IsRing factor next r = (r.id < next) × (length r.member_ids ≡ factor)

-- The volume's id was handed out, and the id of its ring too.
abbrev pub IsPlaced : ℕ → ℕ → VolumeInfo → Type 0
IsPlaced next next_ring v = (v.id < next) × (v.ring_id < next_ring)

-- `added` is the number of services that were added.
pub record IsSound (added : ℕ) (s : SphereMgr) : Type 0 where
  pub waiting : length s.pending_services < s.replica_factor
  pub conserved : length s.pending_services + s.replica_factor * s.next_add_ring_id ≡ added
  pub table : All (λ (kv : ℕ × RingInfo). IsRing s.replica_factor s.next_add_ring_id kv.1) s.rings
  pub creating : All (IsRing s.replica_factor s.next_add_ring_id) s.rings_in_flight
  pub few : length s.rings + length s.rings_in_flight ≤ s.next_add_ring_id
  pub placed :
      All (λ (kv : ℕ × VolumeInfo). IsPlaced s.next_resource_id s.next_add_ring_id kv.1) s.resources
  pub placing : All (IsPlaced s.next_resource_id s.next_add_ring_id) s.resources_in_flight

-- The call did not fail an assertion, and left the sphere sound.
abbrev Fine : ℕ → Outcome (Unit {0}) × SphereMgr → Type 0
Fine added (aborted, s) = ⊥
Fine added (thrown e, s) = IsSound added s
Fine added (returned a, s) = IsSound added s

-- The create of a ring does not fail.
abbrev pub Succeeds : Event → Type 0
Succeeds (ring_created n (some e)) = ⊥
Succeeds _ = Unit {0}

abbrev count : Event → ℕ → ℕ
count (service_added info) n = suc n
count _ n = n

-- `n` and one for each service that the events add.
abbrev pub services_added : List Event → ℕ → ℕ
services_added [] n = n
services_added (e ∷ events) n = services_added events (count e n)

abbrev Ends : ℕ → List Event → Outcome (Unit {0}) × SphereMgr → Type 0
Ends added events o = (o.0 ≡ returned tt) × IsSound (services_added events added) o.1
