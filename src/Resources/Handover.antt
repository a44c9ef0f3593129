-- ===== src/Resources/Handover.antt =====
-- Volumes reach a service in two ways: it pulls those that are in the configuration tree when it
-- starts, and the topic brings those that are published later.
use datom.Common.{
  ℕ, false, ◌≡◌, refl, sym, ap, ◌∙◌, inl, inr, Bool-cases, ◌==◌, none, some, List, [], ◌∷◌, ◌++◌,
  All,
}
use datom.Exec.{returned, aborted}
use datom.Config.{VolumeInfo, RingInfo, find}
use datom.Config.Sphere.Tables.{AllDistinct, IsNew, distinct-split}
use datom.Resources.{
  ResourceMgr, ResourceReplica, is_ring_member, ring_at, add_resource_replica_if_owned, add_rings,
  add_resources, handle_resource_config_table_update, children, pull_resource_config_table,
}
use datom.Resources.Ownership.{on_topic_updates}
use datom.Resources.Holdings.{find-put_nat, add_rings_keeps, owned, pulled_holds}

abbrev pub volume_id : VolumeInfo → ℕ
volume_id i = i.id

-- The table has no volume with the id.
abbrev IsFree : ℕ → ResourceMgr → Type 0
IsFree k s = find ◌==◌ k s.resource_table ≡ none

add_replica-IsFree :
    (k : ℕ) (info : VolumeInfo) (s : ResourceMgr)
    → info.id == k ≡ false
    → IsFree k s
    → IsFree k (add_resource_replica_if_owned info s)
unfolding add_resource_replica_if_owned
add_replica-IsFree k info s n f =
    elim (Bool-cases (is_ring_member (ring_at info.ring_id s).member_ids s.service_id)) [
      | inl e ↦ rw e (
          find-put_nat k info.id
            (record { info = info; member_ids = (ring_at info.ring_id s).member_ids; quorum = 2 })
            s.resource_table
          ∙ rw n f)
      | inr e ↦ rw e f
    ]

add_resources-IsFree :
    (k : ℕ) (infos : List VolumeInfo) (s : ResourceMgr)
    → All (λ (i : VolumeInfo). i.id == k ≡ false) infos
    → IsFree k s
    → IsFree k (add_resources infos s)
unfolding add_resources
add_resources-IsFree k [] s n f = f
add_resources-IsFree k (info ∷ infos) s (n, ns) f =
    add_resources-IsFree k infos (add_resource_replica_if_owned info s) ns
      (add_replica-IsFree k info s n f)

add_resources-append :
    (xs ys : List VolumeInfo) (s : ResourceMgr)
    → add_resources (xs ++ ys) s ≡ add_resources ys (add_resources xs s)
unfolding add_resources
add_resources-append [] ys s = refl
add_resources-append (x ∷ xs) ys s = add_resources-append xs ys (add_resource_replica_if_owned x s)

-- An update of a volume that the table does not have adds it, as the pull would.
update_new :
    (info : VolumeInfo) (s : ResourceMgr)
    → IsFree info.id s
    → handle_resource_config_table_update info s
      ≡ (returned tt, add_resource_replica_if_owned info s)
unfolding handle_resource_config_table_update
update_new info s f = rw f refl

updates-eq-add_resources :
    (infos : List VolumeInfo) (s : ResourceMgr)
    → AllDistinct volume_id infos
    → All (λ (i : VolumeInfo). IsFree i.id s) infos
    → on_topic_updates infos s ≡ add_resources infos s
unfolding add_resources
updates-eq-add_resources [] s d f = refl
updates-eq-add_resources (info ∷ infos) s (n, d) (f, fs) =
    ap (λ r. on_topic_updates infos r.1) (update_new info s f)
    ∙ updates-eq-add_resources infos (add_resource_replica_if_owned info s) d (free infos n fs)
  where
    free :
        (is : List VolumeInfo)
        → IsNew volume_id info is
        → All (λ (i : VolumeInfo). IsFree i.id s) is
        → All (λ (i : VolumeInfo). IsFree i.id (add_resource_replica_if_owned info s)) is
    free [] n f = tt
    free (i ∷ is) (n, ns) (f, fs) = (add_replica-IsFree i.id info s n f, free is ns fs)

-- Which volumes are pulled and which come later by the topic makes no difference to a service whose
-- table is empty when it pulls, if each volume comes once and the ids are distinct.
pub updates-eq-pulled :
    (rings : List (ℕ × RingInfo)) (pulled published : List VolumeInfo) (s : ResourceMgr)
    → s.resource_table ≡ []
    → AllDistinct volume_id (pulled ++ published)
    → on_topic_updates published (pull_resource_config_table (children rings) (children pulled) s).1
      ≡ (pull_resource_config_table (children rings) (children (pulled ++ published)) s).1
unfolding pull_resource_config_table
updates-eq-pulled rings pulled published s e d =
    let t = add_rings rings s in
    let (ds, apart) = distinct-split volume_id pulled published d in
    updates-eq-add_resources published (add_resources pulled t) ds (free published apart)
    ∙ sym (add_resources-append pulled published t)
  where
    none_yet : (k : ℕ) → IsFree k (add_rings rings s)
    none_yet k = ap (find ◌==◌ k) ((add_rings_keeps rings s).1 ∙ e)

    free :
        (is : List VolumeInfo)
        → All (λ (i : VolumeInfo). All (λ (j : VolumeInfo). j.id == i.id ≡ false) pulled) is
        → All (λ (i : VolumeInfo). IsFree i.id (add_resources pulled (add_rings rings s))) is
    free [] a = tt
    free (i ∷ is) (a, rest) =
        (add_resources-IsFree i.id pulled (add_rings rings s) a (none_yet i.id), free is rest)

-- A volume of the service's rings that was pulled ends the process when the topic brings it too.
pulled_and_published_aborts :
    (rings : List (ℕ × RingInfo)) (pulled : List VolumeInfo) (info : VolumeInfo)
    (replica : ResourceReplica) (s : ResourceMgr)
    → s.ring_table ≡ []
    → s.resource_table ≡ []
    → AllDistinct (λ (r : ℕ × RingInfo). r.0) rings
    → AllDistinct volume_id pulled
    → owned s.service_id rings pulled info.id ≡ some replica
    → let t = (pull_resource_config_table (children rings) (children pulled) s).1 in
      handle_resource_config_table_update info t ≡ (aborted, t)
unfolding handle_resource_config_table_update
pulled_and_published_aborts rings pulled info replica s no_rings none_held d e o =
    rw (pulled_holds rings pulled s info.id no_rings none_held d e ∙ o) refl
