-- ===== src/Config/Service/Dataspheres.antt =====
-- Calls of the configuration service on one datasphere: a datasphere that is not there, and the others.
use datom.Common.{
  String, str_eq, eq_iff, ◌≡◌, refl, ap, ◌∙◌, inl, inr, false, Option, none, some, Option-cases,
  List, [], ◌∷◌, arith,
}
use datom.Status.{invalid_datasphere, status_exception, of_status, StatusException}
use datom.Exec.{Outcome, returned, thrown, aborted}
use datom.Config.{ServiceInfo, ServiceType, volume_server, cli, test, VolumeInfo, put, find}
use datom.Config.Sphere.{SphereMgr, add_service}
use datom.Config.Service.{
  Coordination, ConfigService, Datasphere, service_root, add_service_to, add_volume, list_services,
  list_volumes, list_volume_rings, get_service_info, add_to_datasphere, place_service, cached,
  store, create_ring, after_add, get_datasphere_or_throw,
}

pub find-put :
    {V : Type 0} (k : String) (v : V) (t : List (String × V))
    → find str_eq k (put str_eq k v t) ≡ some v
find-put k v [] = ground (arith, eq_iff k k)
find-put k v ((j, w) ∷ t) = ground (arith, find-put k v t)

pub find-put-other :
    {V : Type 0} (k j : String) (v : V) (t : List (String × V))
    → str_eq j k ≡ false
    → find str_eq k (put str_eq j v t) ≡ find str_eq k t
find-put-other k j v [] e = rw e refl
find-put-other k j v ((i, w) ∷ t) e =
    ground (arith, find-put-other k j v t, eq_iff i j, eq_iff i k, eq_iff j k)

module _ (client : Coordination) where
  -- A call on a datasphere that is not in the table throws STATUS_INVALID_DATASPHERE, and nothing
  -- is created or changed.
  pub unknown_datasphere :
      (id service : String) (info : ServiceInfo) (volume : VolumeInfo) (s : ConfigService client)
      → find str_eq id s.datasphere_table ≡ none
      → info.data_sphere_id ≡ id
      → volume.datasphere_id ≡ id
      → (add_service_to client info s
          ≡ (thrown (of_status (status_exception invalid_datasphere)), s))
        × (add_volume client volume s
            ≡ (thrown (of_status (status_exception invalid_datasphere)), s))
        × (list_services client id s
            ≡ (thrown (of_status (status_exception invalid_datasphere)), s))
        × (list_volumes client id s ≡ (thrown (of_status (status_exception invalid_datasphere)), s))
        × (list_volume_rings client id s
            ≡ (thrown (of_status (status_exception invalid_datasphere)), s))
        × (get_service_info client id service s
            ≡ (thrown (of_status (status_exception invalid_datasphere)), s))
  unfolding add_service_to add_volume list_services list_volumes list_volume_rings get_service_info
      get_datasphere_or_throw
  unknown_datasphere id service info volume s n e f =
      (rw (e, n) refl, rw (f, n) refl, rw n refl, rw n refl, rw n refl, rw n refl)

  abbrev entry : String → ConfigService client → Option Datasphere
  entry id s = find str_eq id s.datasphere_table

  after_add_others :
      (r : Outcome (Unit {0})) (id k : String) (d : Datasphere) (m : SphereMgr)
      (s : ConfigService client)
      → str_eq id k ≡ false
      → entry k (after_add client r id d m s).1 ≡ entry k s
  after_add_others (returned a) id k d m s e = find-put-other k id _ s.datasphere_table e
  after_add_others (thrown x) id k d m s e = find-put-other k id _ s.datasphere_table e
  after_add_others aborted id k d m s e = find-put-other k id _ s.datasphere_table e

  after_add_caches :
      (r : Outcome (Unit {0})) (id : String) (d : Datasphere) (m : SphereMgr)
      (s : ConfigService client)
      → (d' : Datasphere) × (d'.service_cache ≡ d.service_cache)
        × (entry id (after_add client r id d m s).1 ≡ some d')
  after_add_caches (returned a) id d m s =
      let (q, m', tree) = create_ring client m.rings_in_flight d.info m s.tree in
      (record d { volumes = m' }, refl, find-put id _ s.datasphere_table)
  after_add_caches (thrown x) id d m s =
      (record d { volumes = m }, refl, find-put id _ s.datasphere_table)
  after_add_caches aborted id d m s =
      (record d { volumes = m }, refl, find-put id _ s.datasphere_table)

  place_service_others :
      (type : ServiceType) (id k : String) (info : ServiceInfo) (d : Datasphere)
      (s : ConfigService client)
      → str_eq id k ≡ false
      → entry k (place_service client type id info d s).1 ≡ entry k s
  place_service_others volume_server id k info d s e =
      after_add_others (add_service info d.volumes).0 id k d (add_service info d.volumes).1 s e
  place_service_others cli id k info d s e = refl
  place_service_others test id k info d s e = refl

  abbrev created : ServiceInfo → ConfigService client → Option StatusException
  created info s =
      (client.create_including_ancestors (service_root info.data_sphere_id info.id) s.tree).0

  -- The datasphere's table after the create of a service went through.
  abbrev after_create :
      ServiceInfo → Datasphere → client.Tree → ConfigService client → ConfigService client
  after_create info d tree s =
      store client info.data_sphere_id (cached client info d) (record s { tree = tree })

  add_created :
      (info : ServiceInfo) (d : Datasphere) (s : ConfigService client)
      → created info s ≡ none
      → add_to_datasphere client info d s
        ≡ place_service client info.type info.data_sphere_id info (cached client info d) (
            after_create info d
              (client.create_including_ancestors
                (service_root info.data_sphere_id info.id)
                s.tree).1
              s)
  add_created info d s c = rw c refl

  add_others :
      (info : ServiceInfo) (k : String) (d : Datasphere) (s : ConfigService client)
      → str_eq info.data_sphere_id k ≡ false
      → entry k (add_to_datasphere client info d s).1 ≡ entry k s
  add_others info k d s e = elim (Option-cases (created info s)) [
    | inl c ↦
        ap (λ x. entry k x.1) (add_created info d s c)
        ∙ place_service_others info.type info.data_sphere_id k info (cached client info d) _ e
        ∙ find-put-other k info.data_sphere_id (cached client info d) s.datasphere_table e
    | inr (x, c) ↦ rw c refl
  ]

  -- Adding a service leaves every other datasphere as it was, whatever the outcome.
  pub add_service_others :
      (info : ServiceInfo) (k : String) (s : ConfigService client)
      → str_eq info.data_sphere_id k ≡ false
      → find str_eq k (add_service_to client info s).1.datasphere_table
        ≡ find str_eq k s.datasphere_table
  unfolding add_service_to get_datasphere_or_throw
  add_service_others info k s e = elim (Option-cases (entry info.data_sphere_id s)) [
    | inl n ↦ rw n refl
    | inr (d, n) ↦ rw n (add_others info k d s e)
  ]

  place_service_caches :
      (type : ServiceType) (info : ServiceInfo) (d : Datasphere) (s : ConfigService client)
      → entry info.data_sphere_id s ≡ some d
      → (d' : Datasphere) × (d'.service_cache ≡ d.service_cache)
        × (entry info.data_sphere_id (place_service client type info.data_sphere_id info d s).1
            ≡ some d')
  place_service_caches volume_server info d s e =
      after_add_caches (add_service info d.volumes).0 info.data_sphere_id d
        (add_service info d.volumes).1 s
  place_service_caches cli info d s e = (d, refl, e)
  place_service_caches test info d s e = (d, refl, e)

  get_cached :
      (d : Datasphere) (id : String) (info : ServiceInfo) (s : ConfigService client)
      → entry id s ≡ some d
      → find str_eq info.id d.service_cache ≡ some info
      → get_service_info client id info.id s ≡ (returned info, s)
  unfolding get_service_info get_datasphere_or_throw
  get_cached d id info s e f = rw (e, f) refl

  added_cached :
      (d : Datasphere) (info : ServiceInfo) (s : ConfigService client)
      → created info s ≡ none
      → get_service_info client info.data_sphere_id info.id (add_to_datasphere client info d s).1
        ≡ (returned info, (add_to_datasphere client info d s).1)
  added_cached d info s c =
      let t =
        after_create info d
          (client.create_including_ancestors (service_root info.data_sphere_id info.id) s.tree).1
          s in
      let (d', f, e) =
        place_service_caches info.type info (cached client info d) t
          (find-put info.data_sphere_id (cached client info d) s.datasphere_table) in
      get_cached d' info.data_sphere_id info (add_to_datasphere client info d s).1
        (ap (λ x. entry info.data_sphere_id x.1) (add_created info d s c) ∙ e)
        (ap (find str_eq info.id) f ∙ find-put info.id info d.service_cache)

  -- A service that was added to a known datasphere, and whose create went through, is the one that
  -- is found under its id.
  pub get_service_info-add_service :
      (d : Datasphere) (info : ServiceInfo) (s : ConfigService client)
      → find str_eq info.data_sphere_id s.datasphere_table ≡ some d
      → (client.create_including_ancestors (service_root info.data_sphere_id info.id) s.tree).0
        ≡ none
      → get_service_info client info.data_sphere_id info.id (add_service_to client info s).1
        ≡ (returned info, (add_service_to client info s).1)
  unfolding add_service_to get_datasphere_or_throw
  get_service_info-add_service d info s n c = rw n (added_cached d info s c)
