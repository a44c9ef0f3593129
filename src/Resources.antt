-- ===== src/Resources.antt =====
-- The resource manager of a service: src/infra/PBResourceMgr.tcc, for volumes. A replica is the data
-- that its constructor takes; the updates of the topic come one at a time.
pub mod Handover
pub mod Holdings
pub mod Ownership
pub mod Placement
use datom.Common.{
  ℕ, String, str_eq, Bool, true, false, ◌==◌, Option, none, some, List, [], ◌∷◌, if◌then◌else◌,
}
use datom.Status.{Status, invalid_key, invalid_resource, is_invalid_key}
use datom.Exec.{Exec, Outcome, returned, thrown, aborted, pure, throw_status}
use datom.Config.{VolumeInfo, RingInfo, put, find}

pub record ResourceReplica : Type 0 where
  pub info : VolumeInfo
  pub member_ids : List String
  pub quorum : ℕ

pub record ResourceMgr : Type 0 where
  pub service_id : String
  pub ring_table : List (ℕ × RingInfo)
  pub resource_table : List (ℕ × ResourceReplica)

-- Whether the service is in a ring.
unfoldable pub is_ring_member : List String → String → Bool
is_ring_member [] id = false
is_ring_member (m ∷ ms) id = if str_eq m id then true else is_ring_member ms id

-- ringTable_[id], which makes an empty ring where there is none.
abbrev pub ring_or_empty : Option RingInfo → RingInfo
ring_or_empty none = record { id = 0; member_ids = [] }
ring_or_empty (some ring) = ring

abbrev pub ring_at : ℕ → ResourceMgr → RingInfo
ring_at id s = ring_or_empty (find ◌==◌ id s.ring_table)

abbrev pub touch_ring : ℕ → ResourceMgr → ResourceMgr
touch_ring id s = record s { ring_table = put ◌==◌ id (ring_at id s) s.ring_table }

unfoldable pub add_resource_replica_if_owned : VolumeInfo → ResourceMgr → ResourceMgr
unfolding is_ring_member
add_resource_replica_if_owned info s =
    let ring = ring_at info.ring_id s in
    let t = touch_ring info.ring_id s in
    if is_ring_member ring.member_ids s.service_id
    then record t {
      resource_table =
          put ◌==◌ info.id (record { info = info; member_ids = ring.member_ids; quorum = 2 })
            t.resource_table;
    }
    else t

-- applyResourceUpdate of a volume's replica is DCHECK(!"unimplemented").
abbrev pub update_resource : Option ResourceReplica → VolumeInfo → Exec ResourceMgr (Unit {0})
unfolding add_resource_replica_if_owned
update_resource none info s = (returned tt, add_resource_replica_if_owned info s)
update_resource (some replica) info s = (aborted, s)

unfoldable pub handle_resource_config_table_update : VolumeInfo → Exec ResourceMgr (Unit {0})
unfolding add_resource_replica_if_owned
handle_resource_config_table_update info s =
    update_resource (find ◌==◌ info.id s.resource_table) info s

abbrev pub found_or_throw : Option ResourceReplica → Exec ResourceMgr ResourceReplica
found_or_throw none = throw_status invalid_resource
found_or_throw (some replica) = pure replica

unfoldable pub get_resource_or_throw : ℕ → Exec ResourceMgr ResourceReplica
get_resource_or_throw id s = found_or_throw (find ◌==◌ id s.resource_table) s

abbrev pub add_rings : List (ℕ × RingInfo) → ResourceMgr → ResourceMgr
add_rings [] s = s
add_rings ((id, ring) ∷ rings) s =
    add_rings rings (record s { ring_table = put ◌==◌ id ring s.ring_table })

unfoldable pub add_resources : List VolumeInfo → ResourceMgr → ResourceMgr
unfolding add_resource_replica_if_owned
add_resources [] s = s
add_resources (info ∷ infos) s = add_resources infos (add_resource_replica_if_owned info s)

-- What the coordination client answers for the children of a path.
pub data Children (A : Type 0) : Type 0 where
  children : List A → Children A
  failed : Status → Children A

abbrev pub pull_resources : Children VolumeInfo → Exec ResourceMgr (Unit {0})
unfolding add_resources
pull_resources (children infos) s = (returned tt, add_resources infos s)
pull_resources (failed e) s = if is_invalid_key e then (returned tt, s) else throw_status e s

unfoldable pub pull_resource_config_table :
    Children (ℕ × RingInfo) → Children VolumeInfo → Exec ResourceMgr (Unit {0})
unfolding add_resources
pull_resource_config_table (children rings) resources s =
    pull_resources resources (add_rings rings s)
pull_resource_config_table (failed e) resources s = throw_status e s
