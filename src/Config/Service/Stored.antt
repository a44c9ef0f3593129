-- ===== src/Config/Service/Stored.antt =====
-- The calls of the configuration service over src/infra/ZooKafkaClient.cpp.
use datom.Common.{
  String, str_eq, ◌||◌, if◌then◌else◌, Bool-cases, ◌≡◌, refl, inl, inr, Option, none, some, List,
  [], ◌∷◌, All,
}
use datom.Status.{
  duplicate_key, StatusException, invalid, status_exception, of_status, of_message, other,
}
use datom.Exec.{Outcome, returned, thrown, aborted}
use datom.Config.{DataSphereInfo, put}
use datom.Config.Sphere.{new_sphere}
use datom.Config.Service.{
  TreePath, datasphere_root, Coordination, ConfigService, Datasphere, add_data_sphere,
}
use datom.ZooKafka.{ZooKeeper, create_including_ancestors}
use datom.ZooKafka.Ancestors.{path_key, nodes_below, elem, NodeStore}
use datom.ZooKafka.Ancestors.Refinement.{create_including_ancestors-Inserts}

-- The exception of a create. Creates throw nothing but StatusException.
abbrev pub error_of : Outcome String → Option StatusException
error_of (returned key) = none
error_of (thrown (of_status e)) = some e
error_of (thrown (of_message e text)) = some e
error_of (thrown other) = some (status_exception invalid)
error_of aborted = some (status_exception invalid)

-- The coordination client of the service: `render` is folly::sformat of a path, `payload` the
-- Thrift JSON that is stored there.
module _ (zoo : ZooKeeper) (render payload : TreePath → String) where
  abbrev pub zoo_coordination : Coordination
  zoo_coordination = record {
    Tree = zoo.Tree;
    create_including_ancestors = λ path t.
        let (r, t') = create_including_ancestors zoo (render path) (payload path) t in
        (error_of r, t');
  }

  module _ (store : NodeStore zoo) where
    abbrev pub new_datasphere : DataSphereInfo → Datasphere
    new_datasphere info = record { info = info; service_cache = []; volumes = new_sphere }

    -- Over ZooKeeper, a datasphere whose path has the names `name ∷ names` is added, and its path
    -- created with its ancestors, if the path's node does not exist; if it exists, the call throws
    -- STATUS_DUPLICATE_KEY and the table of dataspheres stays as it was. Either way the nodes of the
    -- tree are then the ones before, the path's and its ancestors'.
    pub add_data_sphere-stored :
        (info : DataSphereInfo) (name : String) (names : List String)
        (s : ConfigService zoo_coordination)
        → render (datasphere_root info.id) ≡ path_key (name ∷ names)
        → All store.IsName (name ∷ names)
        → let exists = store.has s.tree (path_key (name ∷ names)) in
          let after = add_data_sphere zoo_coordination info s in
          (after.0 ≡ (
            if exists
            then thrown (
                of_status
                  (record { status = duplicate_key; original_status = zoo.codes.znodeexists }))
            else returned tt))
          × (after.1.datasphere_table ≡ (
              if exists
              then s.datasphere_table
              else put str_eq info.id (new_datasphere info) s.datasphere_table))
          × ((q : String)
              → store.has after.1.tree q
                ≡ elem q (nodes_below "" (name ∷ names)) || store.has s.tree q)
    unfolding add_data_sphere
    add_data_sphere-stored info name names s r ns =
        let (result, added) =
          create_including_ancestors-Inserts zoo store (payload (datasphere_root info.id)) name
            names s.tree ns in
        elim (Bool-cases (store.has s.tree (path_key (name ∷ names)))) [
          | inl e ↦ rw (r, result, e) (refl, refl, added)
          | inr e ↦ rw (r, result, e) (refl, refl, added)
        ]
