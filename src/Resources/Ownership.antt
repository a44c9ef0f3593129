-- ===== src/Resources/Ownership.antt =====
-- Which volumes a service holds a replica of.
use datom.Common.{
  ℕ, String, ◌≡◌, refl, ap, ◌∙◌, sym, subst, inl, inr, true, Bool-cases, ◌==◌, ==_iff, Option, none,
  some, List, [], ◌∷◌, arith, All,
}
use datom.Status.{is_invalid_key}
use datom.Config.{VolumeInfo, RingInfo, put, find}
use datom.Config.Sphere.Tables.{All-put}
use datom.Resources.{
  ResourceMgr, ResourceReplica, is_ring_member, ring_or_empty, ring_at, touch_ring,
  add_resource_replica_if_owned, update_resource, handle_resource_config_table_update, add_rings,
  add_resources, Children, children, failed, pull_resources, pull_resource_config_table,
}

-- A replica among the members of whose ring the service is.
abbrev pub IsOwned : String → ResourceReplica → Type 0
IsOwned id r = is_ring_member r.member_ids id ≡ true

abbrev pub AllOwned : ResourceMgr → Type 0
AllOwned s = All (λ (kv : ℕ × ResourceReplica). IsOwned s.service_id kv.1) s.resource_table

add_replica-AllOwned :
    (info : VolumeInfo) (s : ResourceMgr)
    → AllOwned s
    → AllOwned (add_resource_replica_if_owned info s)
unfolding add_resource_replica_if_owned
add_replica-AllOwned info s a =
    elim (Bool-cases (is_ring_member (ring_at info.ring_id s).member_ids s.service_id)) [
      | inl e ↦ rw e (All-put (IsOwned s.service_id) info.id _ s.resource_table a e)
      | inr e ↦ rw e a
    ]

add_resources-AllOwned :
    (infos : List VolumeInfo) (s : ResourceMgr) → AllOwned s → AllOwned (add_resources infos s)
unfolding add_resources
add_resources-AllOwned [] s a = a
add_resources-AllOwned (info ∷ infos) s a =
    add_resources-AllOwned infos (add_resource_replica_if_owned info s)
      (add_replica-AllOwned info s a)

add_rings-AllOwned :
    (rings : List (ℕ × RingInfo)) (s : ResourceMgr) → AllOwned s → AllOwned (add_rings rings s)
add_rings-AllOwned [] s a = a
add_rings-AllOwned ((id, ring) ∷ rings) s a =
    add_rings-AllOwned rings (record s { ring_table = put ◌==◌ id ring s.ring_table }) a

-- The updates of the topic.
abbrev pub on_topic_updates : List VolumeInfo → ResourceMgr → ResourceMgr
on_topic_updates [] s = s
on_topic_updates (info ∷ infos) s =
    on_topic_updates infos (handle_resource_config_table_update info s).1

update-AllOwned :
    (info : VolumeInfo) (s : ResourceMgr)
    → AllOwned s
    → AllOwned (handle_resource_config_table_update info s).1
unfolding handle_resource_config_table_update
update-AllOwned info s a = go (find ◌==◌ info.id s.resource_table)
  where
    go : (o : Option ResourceReplica) → AllOwned (update_resource o info s).1
    go none = add_replica-AllOwned info s a
    go (some r) = a

on_topic_updates-AllOwned :
    (infos : List VolumeInfo) (s : ResourceMgr) → AllOwned s → AllOwned (on_topic_updates infos s)
on_topic_updates-AllOwned [] s a = a
on_topic_updates-AllOwned (info ∷ infos) s a =
    on_topic_updates-AllOwned infos (handle_resource_config_table_update info s).1
      (update-AllOwned info s a)

pull_resources-AllOwned :
    (resources : Children VolumeInfo) (s : ResourceMgr)
    → AllOwned s
    → AllOwned (pull_resources resources s).1
unfolding pull_resources add_resources
pull_resources-AllOwned (children infos) s a = add_resources-AllOwned infos s a
pull_resources-AllOwned (failed e) s a = elim (Bool-cases (is_invalid_key e)) [
  | inl h ↦ rw h a
  | inr h ↦ rw h a
]

-- A service that starts with an empty table, pulls the rings and volumes, whatever the answers, and
-- then takes any updates holds only replicas of volumes in whose ring it is.
pub pulled-AllOwned :
    (rings : Children (ℕ × RingInfo)) (resources : Children VolumeInfo) (updates : List VolumeInfo)
    (s : ResourceMgr)
    → s.resource_table ≡ []
    → AllOwned (on_topic_updates updates (pull_resource_config_table rings resources s).1)
unfolding pull_resource_config_table
pulled-AllOwned (children rings) resources updates s e =
    on_topic_updates-AllOwned updates (pull_resources resources (add_rings rings s)).1 (
      pull_resources-AllOwned resources (add_rings rings s)
        (add_rings-AllOwned rings s (empty s e)))
  where
    empty : (t : ResourceMgr) → t.resource_table ≡ [] → AllOwned t
    empty t e = subst (All (λ (kv : ℕ × ResourceReplica). IsOwned t.service_id kv.1)) (sym e) tt
pulled-AllOwned (failed x) resources updates s e =
    on_topic_updates-AllOwned updates s
      (subst (All (λ (kv : ℕ × ResourceReplica). IsOwned s.service_id kv.1)) (sym e) tt)

find-put_same :
    (id : ℕ) (ring : RingInfo) (t : List (ℕ × RingInfo))
    → find ◌==◌ id (put ◌==◌ id ring t) ≡ some ring
find-put_same id ring [] = ground (arith, ==_iff id id)
find-put_same id ring ((j, r) ∷ t) = ground (arith, ==_iff id id, find-put_same id ring t)

-- The service does not know the ring, or takes it for empty.
abbrev pub IsUnknown : ℕ → ResourceMgr → Type 0
IsUnknown ring s = (ring_at ring s).member_ids ≡ []

unknown_ring :
    (info : VolumeInfo) (s : ResourceMgr)
    → IsUnknown info.ring_id s
    → add_resource_replica_if_owned info s ≡ touch_ring info.ring_id s
unfolding add_resource_replica_if_owned is_ring_member
unknown_ring info s e = rw e refl

IsUnknown-update :
    (info : VolumeInfo) (s : ResourceMgr)
    → IsUnknown info.ring_id s
    → ((handle_resource_config_table_update info s).1.resource_table ≡ s.resource_table)
      × IsUnknown info.ring_id (handle_resource_config_table_update info s).1
unfolding handle_resource_config_table_update
IsUnknown-update info s e = go (find ◌==◌ info.id s.resource_table)
  where
    touched : IsUnknown info.ring_id (touch_ring info.ring_id s)
    touched =
        ap (λ o. (ring_or_empty o).member_ids)
          (find-put_same info.ring_id (ring_at info.ring_id s) s.ring_table)
        ∙ e

    go :
        (o : Option ResourceReplica)
        → ((update_resource o info s).1.resource_table ≡ s.resource_table)
          × IsUnknown info.ring_id (update_resource o info s).1
    go none = (
      ap (λ t. t.resource_table) (unknown_ring info s e),
      subst (IsUnknown info.ring_id) (sym (unknown_ring info s e)) touched,
    )
    go (some r) = (refl, e)

-- A service that does not know a ring when its updates begin takes none of the volumes that are
-- placed on that ring: the updates of those volumes leave its table as it was.
pub late_ring_ignored :
    (ring : ℕ) (updates : List VolumeInfo) (s : ResourceMgr)
    → find ◌==◌ ring s.ring_table ≡ none
    → All (λ info. info.ring_id ≡ ring) updates
    → (on_topic_updates updates s).resource_table ≡ s.resource_table
late_ring_ignored ring updates s e k = go updates s (ap (λ o. (ring_or_empty o).member_ids) e) k
  where
    go :
        (infos : List VolumeInfo) (t : ResourceMgr)
        → IsUnknown ring t
        → All (λ info. info.ring_id ≡ ring) infos
        → (on_topic_updates infos t).resource_table ≡ t.resource_table
    go [] t u k = refl
    go (info ∷ infos) t u k =
        let (a, b) = IsUnknown-update info t (subst (λ r. IsUnknown r t) (sym k.0) u) in
        go infos (handle_resource_config_table_update info t).1
          (subst (λ r. IsUnknown r (handle_resource_config_table_update info t).1) k.0 b) k.1
        ∙ a
