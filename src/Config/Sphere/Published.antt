-- ===== src/Config/Sphere/Published.antt =====
-- The volumes that the configuration service publishes, and its rings, have distinct ids.
use datom.Common.{
  ℕ, String, zero, suc, ◌<◌, ◌≡◌, refl, subst, sym, ap, inl, inr, Bool-cases, false, ◌==◌, Option,
  none, some, List, [], ◌∷◌, ◌++◌, arith, length, All, leb,
}
use datom.Status.{Status}
use datom.Exec.{Outcome, returned, thrown, aborted}
use datom.Config.{ServiceInfo, VolumeInfo, RingInfo, put}
use datom.Config.Sphere.{
  SphereMgr, new_sphere, add_service, take_at, keep, ring_answer, ring_answered, has_name,
  start_resource, add_resource, throw_on_pre_add_resource_check_failures, resource_answer,
  resource_answered, Event, service_added, resource_added, ring_created, resource_created, step,
  resume, run,
}
use datom.Config.Sphere.Tables.{
  All-mono, All-snoc, Taken, take_at-Taken, AllDistinct, IsNew, differ_sym, distinct-snoc,
}

abbrev pub volume_id : VolumeInfo → ℕ
volume_id v = v.id

abbrev pub ring_key : ℕ × RingInfo → ℕ
ring_key kv = kv.0

-- The volumes that were published, oldest first.
abbrev pub infos_of : List (VolumeInfo × ℕ) → List VolumeInfo
infos_of [] = []
infos_of ((v, version) ∷ rest) = v ∷ infos_of rest

infos_of-append :
    (xs : List (VolumeInfo × ℕ)) (v : VolumeInfo) (version : ℕ)
    → infos_of (xs ++ (v, version) ∷ []) ≡ infos_of xs ++ v ∷ []
infos_of-append [] v version = refl
infos_of-append ((w, n) ∷ xs) v version = ap (◌∷◌ w) (infos_of-append xs v version)

put-IsNew :
    (r : ℕ × RingInfo) (k : ℕ) (v : RingInfo) (t : List (ℕ × RingInfo))
    → r.0 == k ≡ false
    → IsNew ring_key r t
    → IsNew ring_key r (put ◌==◌ k v t)
put-IsNew r k v [] e n = (e, tt)
put-IsNew r k v ((j, w) ∷ t) e (n, ns) = elim (Bool-cases (j == k)) [
  | inl h ↦ rw h (n, ns)
  | inr h ↦ rw h (n, put-IsNew r k v t e ns)
]

put-AllDistinct :
    (k : ℕ) (v : RingInfo) (t : List (ℕ × RingInfo))
    → AllDistinct ring_key t
    → AllDistinct ring_key (put ◌==◌ k v t)
put-AllDistinct k v [] d = (tt, tt)
put-AllDistinct k v ((j, w) ∷ t) (n, d) = elim (Bool-cases (j == k)) [
  | inl h ↦ rw h (n, d)
  | inr h ↦ rw h (put-IsNew (j, w) k v t h n, put-AllDistinct k v t d)
]

-- An element that is taken out differs from those that are left.
abbrev Parted : Option (VolumeInfo × List VolumeInfo) → Type 0
Parted none = Unit {0}
Parted (some (x, rest)) = IsNew volume_id x rest × AllDistinct volume_id rest

keep-Parted :
    (y : VolumeInfo) (xs : List VolumeInfo) (o : Option (VolumeInfo × List VolumeInfo))
    → Taken (λ z. y.id == z.id ≡ false) xs o
    → Parted o
    → Parted (keep y o)
keep-Parted y xs none t p = tt
keep-Parted y xs (some (x, rest)) (e, a, l) (n, d) = ((differ_sym volume_id y x e, n), (a, d))

take_at-Parted : (n : ℕ) (xs : List VolumeInfo) → AllDistinct volume_id xs → Parted (take_at n xs)
take_at-Parted n [] d = tt
take_at-Parted zero (x ∷ xs) d = d
take_at-Parted (suc n) (x ∷ xs) (e, d) =
    keep-Parted x xs (take_at n xs) (take_at-Taken _ n xs e) (take_at-Parted n xs d)

pub record IsIssued (s : SphereMgr) : Type 0 where
  pub rings : AllDistinct ring_key s.rings
  pub creating : AllDistinct volume_id s.resources_in_flight
  pub announced : AllDistinct volume_id (infos_of s.published)
  pub apart :
      All (λ (v : VolumeInfo). IsNew volume_id v (infos_of s.published)) s.resources_in_flight
  pub creating_below : All (λ (v : VolumeInfo). v.id < s.next_resource_id) s.resources_in_flight
  pub announced_below : All (λ (v : VolumeInfo). v.id < s.next_resource_id) (infos_of s.published)

below_differs : (n : ℕ) (v : VolumeInfo) → v.id < n → n == v.id ≡ false
below_differs n v l = ground arith

start_resource-IsIssued :
    (info : VolumeInfo) (s : SphereMgr) → IsIssued s → IsIssued (start_resource info s)
start_resource-IsIssued info s i = record {
  rings = i.rings;
  creating =
      distinct-snoc volume_id s.resources_in_flight _ i.creating
        (All-mono _ s.resources_in_flight (below_differs s.next_resource_id) i.creating_below);
  announced = i.announced;
  apart =
      All-snoc _ s.resources_in_flight _ i.apart
        (All-mono _ (infos_of s.published) (below_differs s.next_resource_id) i.announced_below);
  creating_below =
      All-snoc _ s.resources_in_flight _
        (All-mono _ s.resources_in_flight (λ v l. omega (arith, l)) i.creating_below) (omega arith);
  announced_below = All-mono _ (infos_of s.published) (λ v l. omega (arith, l)) i.announced_below;
}

module _ (s : SphereMgr) (i : IsIssued s) where
  -- Nothing of the volumes changes.
  with_rings :
      (t : List (ℕ × RingInfo)) (flight : List RingInfo) (waiting : List String) (next : ℕ)
      → AllDistinct ring_key t
      → IsIssued (record s {
        rings = t;
        rings_in_flight = flight;
        pending_services = waiting;
        next_add_ring_id = next;
      })
  with_rings t flight waiting next d = record {
    rings = d;
    creating = i.creating;
    announced = i.announced;
    apart = i.apart;
    creating_below = i.creating_below;
    announced_below = i.announced_below;
  }

  failed_create :
      (x : VolumeInfo) (rest : List VolumeInfo)
      → AllDistinct volume_id rest
      → All (λ (v : VolumeInfo). IsNew volume_id v (infos_of s.published)) rest
      → All (λ (v : VolumeInfo). v.id < s.next_resource_id) rest
      → IsIssued (record s { resources_in_flight = rest })
  failed_create x rest d a b = record {
    rings = i.rings;
    creating = d;
    announced = i.announced;
    apart = a;
    creating_below = b;
    announced_below = i.announced_below;
  }

  differ_each :
      (x : VolumeInfo) (rest : List VolumeInfo)
      → IsNew volume_id x rest
      → All (λ (v : VolumeInfo). IsNew volume_id v (infos_of s.published)) rest
      → All (λ (v : VolumeInfo). IsNew volume_id v (infos_of s.published ++ x ∷ [])) rest
  differ_each x [] n a = tt
  differ_each x (v ∷ rest) (e, n) (a, as') =
      (All-snoc _ (infos_of s.published) x a (differ_sym volume_id x v e), differ_each x rest n as')

  answer-IsIssued :
      (o : Option (VolumeInfo × List VolumeInfo)) (error : Option Status)
      → Parted o
      → Taken (λ (v : VolumeInfo). IsNew volume_id v (infos_of s.published)) s.resources_in_flight o
      → Taken (λ (v : VolumeInfo). v.id < s.next_resource_id) s.resources_in_flight o
      → IsIssued (resource_answer o error s).1
  answer-IsIssued none error p a b = i
  answer-IsIssued (some (x, rest)) (some e) (n, d) (q, a, l) (b, bs, m) =
      failed_create x rest d a bs
  answer-IsIssued (some (x, rest)) none (n, d) (q, a, l) (b, bs, m) =
      let e = sym (infos_of-append s.published x 0) in
      record {
        rings = i.rings;
        creating = d;
        announced =
            subst (AllDistinct volume_id) e
              (distinct-snoc volume_id (infos_of s.published) x i.announced q);
        apart =
            subst (λ is. All (λ (v : VolumeInfo). IsNew volume_id v is) rest) e
              (differ_each x rest n a);
        creating_below = bs;
        announced_below =
            subst (All (λ (v : VolumeInfo). v.id < s.next_resource_id)) e
              (All-snoc _ (infos_of s.published) x i.announced_below b);
      }

  ring_answer-IsIssued :
      (o : Option (RingInfo × List RingInfo)) (error : Option Status)
      → IsIssued (ring_answer o error s).1
  ring_answer-IsIssued none error = i
  ring_answer-IsIssued (some (ring, rest)) (some e) =
      with_rings s.rings rest s.pending_services s.next_add_ring_id i.rings
  ring_answer-IsIssued (some (ring, rest)) none =
      with_rings (put ◌==◌ ring.id ring s.rings) rest s.pending_services s.next_add_ring_id
        (put-AllDistinct ring.id ring s.rings i.rings)

  add_service-IsIssued : (info : ServiceInfo) → IsIssued (add_service info s).1
  unfolding add_service
  add_service-IsIssued info =
      let waiting = s.pending_services ++ info.id ∷ [] in
      let same = with_rings s.rings s.rings_in_flight waiting s.next_add_ring_id i.rings in
      elim (Bool-cases (leb s.replica_factor (length waiting))) [
        | inl full ↦ elim (Bool-cases (length waiting == s.replica_factor)) [
          | inl exact ↦
              rw (full, exact)
                (with_rings s.rings
                  (s.rings_in_flight
                    ++ record { id = s.next_add_ring_id; member_ids = waiting } ∷ [])
                  [] (suc s.next_add_ring_id) i.rings)
          | inr more ↦ rw (full, more) same
        ]
        | inr few ↦ rw few same
      ]

  add_resource-IsIssued : (info : VolumeInfo) → IsIssued (add_resource info s).1
  unfolding add_resource throw_on_pre_add_resource_check_failures
  add_resource-IsIssued info = elim (Bool-cases (length s.rings == 0)) [
    | inl empty ↦ rw empty i
    | inr some_ring ↦ elim (Bool-cases (has_name info.name s.resources)) [
      | inl taken ↦ rw (some_ring, taken) i
      | inr free ↦ rw (some_ring, free) (start_resource-IsIssued info s i)
    ]
  ]

step-IsIssued : (e : Event) (s : SphereMgr) → IsIssued s → IsIssued (step e s).1
unfolding step ring_answered resource_answered
step-IsIssued (service_added info) s i = add_service-IsIssued s i info
step-IsIssued (resource_added info) s i = add_resource-IsIssued s i info
step-IsIssued (ring_created n error) s i =
    ring_answer-IsIssued s i (take_at n s.rings_in_flight) error
step-IsIssued (resource_created n error) s i =
    answer-IsIssued s i (take_at n s.resources_in_flight) error
      (take_at-Parted n s.resources_in_flight i.creating)
      (take_at-Taken _ n s.resources_in_flight i.apart)
      (take_at-Taken _ n s.resources_in_flight i.creating_below)

resume-IsIssued :
    (r : Outcome (Unit {0})) (t : SphereMgr) (rest : Outcome (Unit {0}) × SphereMgr)
    → IsIssued t
    → IsIssued rest.1
    → IsIssued (resume r t rest).1
resume-IsIssued (returned a) t rest i j = j
resume-IsIssued (thrown e) t rest i j = j
resume-IsIssued aborted t rest i j = i

pub run-IsIssued : (es : List Event) (s : SphereMgr) → IsIssued s → IsIssued (run es s).1
unfolding run
run-IsIssued [] s i = i
run-IsIssued (e ∷ es) s i =
    let (r, t) = step e s in
    let j = step-IsIssued e s i in resume-IsIssued r t (run es t) j (run-IsIssued es t j)

pub new_sphere-IsIssued : IsIssued new_sphere
new_sphere-IsIssued = record {
  rings = tt;
  creating = tt;
  announced = tt;
  apart = tt;
  creating_below = tt;
  announced_below = tt;
}
