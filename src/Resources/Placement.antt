-- ===== src/Resources/Placement.antt =====
-- From the configuration service (src/configservice/ConfigService.cpp) to the services of its rings:
-- the volumes that the first has created and published, and the replicas that the second hold.
use datom.Common.{ℕ, String, ◌≡◌, refl, ap, subst, ◌∙◌, ◌==◌, List, [], ◌++◌}
use datom.Config.{VolumeInfo, find}
use datom.Config.Sphere.{new_sphere, Event, run}
use datom.Config.Sphere.Published.{infos_of, volume_id, run-IsIssued, new_sphere-IsIssued}
use datom.Config.Sphere.Tables.{AllDistinct}
use datom.Resources.{ResourceMgr, children, pull_resource_config_table}
use datom.Resources.Ownership.{on_topic_updates}
use datom.Resources.Handover.{updates-eq-pulled}
use datom.Resources.Holdings.{owned, pulled_holds}

abbrev pub new_manager : String → ResourceMgr
new_manager id = record { service_id = id; ring_table = []; resource_table = [] }

-- Whatever services and volumes were added to a sphere and however the creates were answered: a
-- service that starts when the rings of the sphere are in the configuration tree, that pulls the
-- first of the published volumes and is told the rest, in the order of their publication, ends with
-- a replica of exactly the published volumes in whose rings it is, each with its ring's members,
-- wherever the line between the two lies.
pub published_volumes_held :
    (events : List Event) (me : String) (pulled told : List VolumeInfo) (id : ℕ)
    → infos_of (run events new_sphere).1.published ≡ pulled ++ told
    → let rings = (run events new_sphere).1.rings in
      find ◌==◌ id
        (on_topic_updates told
          (pull_resource_config_table
            (children rings)
            (children pulled)
            (new_manager me)).1).resource_table
      ≡ owned me rings (pulled ++ told) id
published_volumes_held events me pulled told id e =
    let i = run-IsIssued events new_sphere new_sphere-IsIssued in
    let rings = (run events new_sphere).1.rings in
    let d : AllDistinct volume_id (pulled ++ told) = subst (AllDistinct volume_id) e i.announced in
    ap (λ m. find ◌==◌ id m.resource_table)
      (updates-eq-pulled rings pulled told (new_manager me) refl d)
    ∙ pulled_holds rings (pulled ++ told) (new_manager me) id refl refl i.rings d
