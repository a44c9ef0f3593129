-- ===== src/Resources/Holdings.antt =====
-- Which replicas a service holds after it has pulled the rings and the volumes.
use datom.Common.{
  ℕ, String, Bool, true, false, if◌then◌else◌, ◌≡◌, refl, sym, ap, ◌∙◌, inl, inr, Bool-cases, ◌==◌,
  ==_iff, Option, none, some, List, [], ◌∷◌, arith, All,
}
use datom.Config.{VolumeInfo, RingInfo, put, find}
use datom.Config.Sphere.Tables.{All-put, AllDistinct}
use datom.Resources.{
  ResourceMgr, ResourceReplica, is_ring_member, ring_or_empty, ring_at,
  add_resource_replica_if_owned, add_rings, add_resources, children, pull_resource_config_table,
}

abbrev pub replica_of : List (ℕ × RingInfo) → VolumeInfo → ResourceReplica
replica_of rings info = record {
  info = info;
  member_ids = (ring_or_empty (find ◌==◌ info.ring_id rings)).member_ids;
  quorum = 2;
}

abbrev pub if_member : String → ResourceReplica → Option ResourceReplica
if_member me r = if is_ring_member r.member_ids me then some r else none

-- The replica of the volume with an id, if the service is a member of the volume's ring.
abbrev pub owned : String → List (ℕ × RingInfo) → List VolumeInfo → ℕ → Option ResourceReplica
owned me rings [] id = none
owned me rings (info ∷ infos) id =
    if info.id == id then if_member me (replica_of rings info) else owned me rings infos id

pub find-put_nat :
    {V : Type 0} (k j : ℕ) (v : V) (t : List (ℕ × V))
    → find ◌==◌ k (put ◌==◌ j v t) ≡ (if j == k then some v else find ◌==◌ k t)
find-put_nat k j v [] = refl
find-put_nat k j v ((i, w) ∷ t) =
    ground (arith, find-put_nat k j v t, ==_iff i j, ==_iff i k, ==_iff j k)

-- The rings that a manager sees.
abbrev Sees : ResourceMgr → (ℕ → RingInfo) → Type 0
Sees s ring = (id : ℕ) → ring_at id s ≡ ring id

put-Sees :
    (id : ℕ) (r : RingInfo) (s : ResourceMgr) (ring : ℕ → RingInfo)
    → r ≡ ring id
    → Sees s ring
    → (k : ℕ) → ring_or_empty (find ◌==◌ k (put ◌==◌ id r s.ring_table)) ≡ ring k
put-Sees id r s ring e h k =
    ap ring_or_empty (find-put_nat k id r s.ring_table) ∙ chosen (id == k) refl
  where
    chosen :
        (b : Bool)
        → (id == k) ≡ b
        → ring_or_empty (if b then some r else find ◌==◌ k s.ring_table) ≡ ring k
    chosen true same = e ∙ ap ring ((==_iff id k).0 same)
    chosen false other = h k

abbrev or_else : {A : Type 0} → Option A → Option A → Option A
or_else none o = o
or_else (some a) o = some a

module _ (k : ℕ) where
  ring_unlisted :
      (j : ℕ) (rings : List (ℕ × RingInfo))
      → All (λ (r : ℕ × RingInfo). j == r.0 ≡ false) rings
      → j == k ≡ true
      → find ◌==◌ k rings ≡ none
  ring_unlisted j [] a e = refl
  ring_unlisted j ((i, r) ∷ rings) (n, a) e =
      ground (arith, ring_unlisted j rings a e, ==_iff i k, ==_iff j k, ==_iff j i)

  find-add_rings :
      (rings : List (ℕ × RingInfo)) (s : ResourceMgr)
      → AllDistinct (λ (r : ℕ × RingInfo). r.0) rings
      → find ◌==◌ k (add_rings rings s).ring_table
        ≡ or_else (find ◌==◌ k rings) (find ◌==◌ k s.ring_table)
  find-add_rings [] s d = refl
  find-add_rings ((j, r) ∷ rings) s (n, d) =
      find-add_rings rings (record s { ring_table = put ◌==◌ j r s.ring_table }) d
      ∙ ap (or_else (find ◌==◌ k rings)) (find-put_nat k j r s.ring_table)
      ∙ chosen (j == k) refl
    where
      chosen :
          (b : Bool)
          → j == k ≡ b
          → or_else (find ◌==◌ k rings) (if b then some r else find ◌==◌ k s.ring_table)
            ≡ or_else (if b then some r else find ◌==◌ k rings) (find ◌==◌ k s.ring_table)
      chosen true e = rw (ring_unlisted j rings n e) refl
      chosen false e = refl

  unowned :
      (me : String) (rings : List (ℕ × RingInfo)) (j : ℕ) (infos : List VolumeInfo)
      → All (λ (i : VolumeInfo). j == i.id ≡ false) infos
      → j == k ≡ true
      → owned me rings infos k ≡ none
  unowned me rings j [] a e = refl
  unowned me rings j (i ∷ infos) (n, a) e = elim (Bool-cases (i.id == k)) [
    | inl h ↦
        absurd (clash (sym n ∙ (==_iff j i.id).1 ((==_iff j k).0 e ∙ sym ((==_iff i.id k).0 h))))
    | inr h ↦ rw h (unowned me rings j infos a e)
  ]
    where
      clash : false ≡ true → ⊥
      clash e = cc

  module _ (rings : List (ℕ × RingInfo)) where
    abbrev named : ℕ → RingInfo
    named id = ring_or_empty (find ◌==◌ id rings)

    -- One volume: the manager sees the same rings, and the table has the replica if it is owned.
    find-add_replica :
        (info : VolumeInfo) (s : ResourceMgr)
        → Sees s named
        → Sees (add_resource_replica_if_owned info s) named
          × (find ◌==◌ k (add_resource_replica_if_owned info s).resource_table
              ≡ or_else
                  (if info.id == k then if_member s.service_id (replica_of rings info) else none)
                  (find ◌==◌ k s.resource_table))
          × ((add_resource_replica_if_owned info s).service_id ≡ s.service_id)
    unfolding add_resource_replica_if_owned
    find-add_replica info s h =
        rw (h info.ring_id) (elim (Bool-cases (is_ring_member mine.member_ids s.service_id)) [
          | inl e ↦ rw e (
            seen,
            find-put_nat k info.id (replica_of rings info) s.resource_table ∙ taken (info.id == k),
            refl,
          )
          | inr e ↦ rw e (seen, left (info.id == k), refl)
        ])
      where
        mine : RingInfo
        mine = named info.ring_id

        seen :
            (id : ℕ)
            → ring_or_empty (find ◌==◌ id (put ◌==◌ info.ring_id mine s.ring_table)) ≡ named id
        seen = put-Sees info.ring_id mine s named refl h

        taken :
            (b : Bool)
            → (if b then some (replica_of rings info) else find ◌==◌ k s.resource_table)
              ≡ or_else
                  (if b then some (replica_of rings info) else none)
                  (find ◌==◌ k s.resource_table)
        taken true = refl
        taken false = refl

        left :
            (b : Bool)
            → find ◌==◌ k s.resource_table
              ≡ or_else {A = ResourceReplica}
                  (if b then none else none)
                  (find ◌==◌ k s.resource_table)
        left true = refl
        left false = refl

    find-add_resources :
        (infos : List VolumeInfo) (s : ResourceMgr)
        → AllDistinct (λ (i : VolumeInfo). i.id) infos
        → Sees s named
        → find ◌==◌ k (add_resources infos s).resource_table
          ≡ or_else (owned s.service_id rings infos k) (find ◌==◌ k s.resource_table)
    unfolding add_resources
    find-add_resources [] s d h = refl
    find-add_resources (info ∷ infos) s (n, d) h =
        let t = add_resource_replica_if_owned info s in
        let (seen, found, me) = find-add_replica info s h in
        find-add_resources infos t d seen
        ∙ ap (λ o. or_else (owned t.service_id rings infos k) o) found
        ∙ ap
            (λ i. or_else (owned i rings infos k) (
              or_else
                (if info.id == k then if_member s.service_id (replica_of rings info) else none)
                (find ◌==◌ k s.resource_table)))
            me
        ∙ chosen (info.id == k) refl
      where
        rest : Option ResourceReplica
        rest = owned s.service_id rings infos k

        old : Option ResourceReplica
        old = find ◌==◌ k s.resource_table

        mine : Option ResourceReplica
        mine = if_member s.service_id (replica_of rings info)

        pass : (o : Option ResourceReplica) → or_else o (or_else none old) ≡ or_else o old
        pass o = refl

        chosen :
            (b : Bool)
            → info.id == k ≡ b
            → or_else rest (or_else (if b then mine else none) old)
              ≡ or_else (if b then mine else rest) old
        chosen true e = rw (unowned s.service_id rings info.id infos n e) refl
        chosen false e = refl

pub add_rings_keeps :
    (rings : List (ℕ × RingInfo)) (s : ResourceMgr)
    → ((add_rings rings s).service_id ≡ s.service_id)
      × ((add_rings rings s).resource_table ≡ s.resource_table)
add_rings_keeps [] s = (refl, refl)
add_rings_keeps ((j, r) ∷ rings) s =
    add_rings_keeps rings (record s { ring_table = put ◌==◌ j r s.ring_table })

-- What holds of each replica that the volumes can give holds of the table.
pub add_resources-All :
    (P : ResourceReplica → Type 0) (infos : List VolumeInfo) (s : ResourceMgr)
    → All
        (λ (i : VolumeInfo).
          (members : List String) → P (record { info = i; member_ids = members; quorum = 2 }))
        infos
    → All (λ (kv : ℕ × ResourceReplica). P kv.1) s.resource_table
    → All (λ (kv : ℕ × ResourceReplica). P kv.1) (add_resources infos s).resource_table
unfolding add_resources add_resource_replica_if_owned
add_resources-All P [] s p a = a
add_resources-All P (info ∷ infos) s (p, ps) a =
    add_resources-All P infos (add_resource_replica_if_owned info s) ps
      (elim (Bool-cases (is_ring_member (ring_at info.ring_id s).member_ids s.service_id)) [
        | inl e ↦ rw e (
            All-put P info.id
              (record { info = info; member_ids = (ring_at info.ring_id s).member_ids; quorum = 2 })
              s.resource_table a (p (ring_at info.ring_id s).member_ids))
        | inr e ↦ rw e a
      ])

-- A service whose tables are empty and that pulls its rings and volumes, with distinct ids, holds
-- exactly the replicas of the volumes in whose rings it is, with the members of those rings.
pub pulled_holds :
    (rings : List (ℕ × RingInfo)) (infos : List VolumeInfo) (s : ResourceMgr) (id : ℕ)
    → s.ring_table ≡ []
    → s.resource_table ≡ []
    → AllDistinct (λ (r : ℕ × RingInfo). r.0) rings
    → AllDistinct (λ (i : VolumeInfo). i.id) infos
    → find ◌==◌ id (pull_resource_config_table (children rings) (children infos) s).1.resource_table
      ≡ owned s.service_id rings infos id
unfolding pull_resource_config_table
pulled_holds rings infos s id no_rings no_replicas d e =
    let t = add_rings rings s in
    let (me, table) = add_rings_keeps rings s in
    find-add_resources id rings infos t e seen
    ∙ ap (λ i. or_else (owned i rings infos id) (find ◌==◌ id t.resource_table)) me
    ∙ ap (λ x. or_else (owned s.service_id rings infos id) (find ◌==◌ id x)) (table ∙ no_replicas)
    ∙ or_none (owned s.service_id rings infos id)
  where
    or_none : {A : Type 0} (o : Option A) → or_else o none ≡ o
    or_none none = refl
    or_none (some a) = refl

    seen : (k : ℕ) → ring_at k (add_rings rings s) ≡ named k rings k
    seen k = ap ring_or_empty (
        find-add_rings k rings s d
        ∙ ap (λ x. or_else (find ◌==◌ k rings) (find ◌==◌ k x)) no_rings
        ∙ or_none (find ◌==◌ k rings))
