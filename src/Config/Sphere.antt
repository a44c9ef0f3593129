-- ===== src/Config/Sphere.antt =====
-- PBResourceSphereConfigMgr and PBVolumeConfigMgr of src/configservice/ConfigService.cpp: services
-- wait until they make a ring, and volumes are spread over the rings. A create in the configuration
-- tree is answered later, in any order: an answer names the create by its place among those in
-- flight. The path and the text of a create are not modelled.
pub mod Tables
pub mod Invariant
pub mod Names
pub mod Published
use datom.Common.{
  ℕ, zero, suc, ◌+◌, ◌%◌, String, str_eq, Bool, true, false, ◌==◌, leb, Option, none, some, List,
  [], ◌∷◌, ◌++◌, length, if◌then◌else◌,
}
use datom.Status.{
  Status, invalid, duplicate_volume, status_exception, of_message, invalid_key, of_status,
}
use datom.Exec.{
  Exec, Outcome, returned, thrown, aborted, pure, throw_exception, throw_status, abort, check,
  modify, ◌>>◌, ◌>>=◌,
}
use datom.Config.{ServiceInfo, VolumeInfo, RingInfo, put, values_of}

pub record SphereMgr : Type 0 where
  pub replica_factor : ℕ
  pub pending_services : List String
  pub rings : List (ℕ × RingInfo)
  pub next_add_ring_id : ℕ
  pub resources : List (ℕ × VolumeInfo)
  pub next_resource_id : ℕ
  pub rings_in_flight : List RingInfo
  pub resources_in_flight : List VolumeInfo
  -- publishMessage: the resource and the version
  pub published : List (VolumeInfo × ℕ)

-- The constructor of PBResourceSphereConfigMgr, with the 3 of DatasphereConfigMgr::init.
abbrev pub new_sphere : SphereMgr
new_sphere = record {
  replica_factor = 3;
  pending_services = [];
  rings = [];
  next_add_ring_id = 0;
  resources = [];
  next_resource_id = 0;
  rings_in_flight = [];
  resources_in_flight = [];
  published = [];
}

abbrev pub Act : Type 0 → Type 0
Act A = Exec SphereMgr A

-- The new ring, and the start of addRing_.
abbrev pub start_ring : SphereMgr → SphereMgr
start_ring s = record s {
  pending_services = [];
  next_add_ring_id = suc s.next_add_ring_id;
  rings_in_flight =
      s.rings_in_flight ++ record { id = s.next_add_ring_id; member_ids = s.pending_services } ∷ [];
}

abbrev pub when_full : Act (Unit {0})
when_full s = (do check (length s.pending_services == s.replica_factor); modify start_ring) s

unfoldable pub add_service : ServiceInfo → Act (Unit {0})
add_service info s =
    let t = record s { pending_services = s.pending_services ++ info.id ∷ [] } in
    if leb t.replica_factor (length t.pending_services) then when_full t else (returned tt, t)

abbrev pub keep : {A : Type 0} → A → Option (A × List A) → Option (A × List A)
keep x none = none
keep x (some (y, ys)) = some (y, x ∷ ys)

-- The element at a place of a list, and the list without it.
abbrev pub take_at : {A : Type 0} → ℕ → List A → Option (A × List A)
take_at n [] = none
take_at zero (x ∷ xs) = some (x, xs)
take_at (suc n) (x ∷ xs) = keep x (take_at n xs)

-- The `then` of addRing_, or, with an error, the onError of addService.
abbrev pub ring_answer : Option (RingInfo × List RingInfo) → Option Status → Act (Unit {0})
ring_answer none error s = (returned tt, s)
ring_answer (some (ring, rest)) none s =
    (returned tt, record s { rings = put ◌==◌ ring.id ring s.rings; rings_in_flight = rest })
ring_answer (some (ring, rest)) (some e) s = (aborted, record s { rings_in_flight = rest })

unfoldable pub ring_answered : ℕ → Option Status → Act (Unit {0})
ring_answered n error s = ring_answer (take_at n s.rings_in_flight) error s

abbrev pub has_name : String → List (ℕ × VolumeInfo) → Bool
has_name name [] = false
has_name name ((k, v) ∷ rest) = if str_eq v.name name then true else has_name name rest

unfoldable pub throw_on_pre_add_resource_check_failures : VolumeInfo → Act (Unit {0})
throw_on_pre_add_resource_check_failures info s =
    if has_name info.name s.resources
    then throw_exception (of_message (status_exception duplicate_volume) "duplicate volume name") s
    else (returned tt, s)

abbrev pub start_resource : VolumeInfo → SphereMgr → SphereMgr
start_resource info s = record s {
  next_resource_id = suc s.next_resource_id;
  resources_in_flight =
      s.resources_in_flight
      ++ record info { id = s.next_resource_id; ring_id = s.next_resource_id % length s.rings }
        ∷ [];
}

unfoldable pub add_resource : VolumeInfo → Act (Unit {0})
unfolding throw_on_pre_add_resource_check_failures
add_resource info s =
    if length s.rings == 0
    then throw_exception (of_message (status_exception invalid) "Zero size service rings") s
    else (throw_on_pre_add_resource_check_failures info >> modify (start_resource info)) s

-- The `then` of addResource; a create that failed throws to the caller.
abbrev pub resource_answer : Option (VolumeInfo × List VolumeInfo) → Option Status → Act (Unit {0})
resource_answer none error s = (returned tt, s)
resource_answer (some (resource, rest)) none s = (
  returned tt,
  record s {
    resources = put ◌==◌ resource.id resource s.resources;
    resources_in_flight = rest;
    published = s.published ++ (resource, 0) ∷ [];
  },
)
resource_answer (some (resource, rest)) (some e) s =
    throw_status e (record s { resources_in_flight = rest })

unfoldable pub resource_answered : ℕ → Option Status → Act (Unit {0})
resource_answered n error s = resource_answer (take_at n s.resources_in_flight) error s

unfoldable pub get_resources : Act (List VolumeInfo)
get_resources s = (returned (values_of s.resources), s)

unfoldable pub get_rings : Act (List RingInfo)
get_rings s = (returned (values_of s.rings), s)

-- What the manager's event base runs.
pub data Event : Type 0 where
  service_added : ServiceInfo → Event
  resource_added : VolumeInfo → Event
  ring_created : ℕ → Option Status → Event
  resource_created : ℕ → Option Status → Event

unfoldable pub step : Event → Act (Unit {0})
step (service_added info) = add_service info
step (resource_added info) = add_resource info
step (ring_created n error) = ring_answered n error
step (resource_created n error) = resource_answered n error

-- An exception goes to the caller and the loop runs on; a failed assertion ends the process.
abbrev pub resume :
    Outcome (Unit {0}) → SphereMgr → Outcome (Unit {0}) × SphereMgr → Outcome (Unit {0}) × SphereMgr
resume aborted t rest = (aborted, t)
resume (thrown e) t rest = rest
resume (returned a) t rest = rest

unfoldable pub run : List Event → Act (Unit {0})
run [] s = (returned tt, s)
run (e ∷ events) s = let (r, t) = step e s in resume r t (run events t)
