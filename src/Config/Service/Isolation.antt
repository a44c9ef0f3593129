-- ===== src/Config/Service/Isolation.antt =====
-- The calls of ConfigApiHandler (src/configservice/ConfigService.cpp) on different dataspheres.
use datom.Common.{
  String, str_eq, ◌≡◌, refl, ap, ◌∙◌, inl, inr, false, Option, Option-cases, List, [], ◌∷◌, All,
}
use datom.Exec.{Outcome, returned, thrown, aborted, then_pure}
use datom.Config.{DataSphereInfo, VolumeInfo, find}
use datom.Config.Sphere.{SphereMgr, add_resource, resource_answered}
use datom.Config.Service.{
  Coordination, ConfigService, Datasphere, add_data_sphere, add_service_to, add_volume,
  list_services, list_volumes, list_volume_rings, get_datasphere_or_throw, resource_root,
  datasphere_root, create_volume, volume_call, status_of,
}
use datom.Config.Service.Api.{
  ConfigCall, add_datasphere_call, add_service_call, add_volume_call, list_services_call,
  list_volumes_call, list_volume_rings_call, ConfigAnswer, done, services, volumes, rings, handle,
  serve, and_then, datasphere_of,
}
use datom.Config.Service.Dataspheres.{find-put-other, add_service_others}

module _ (client : Coordination) (k : String) where
  abbrev entry : ConfigService client → Option Datasphere
  entry s = find str_eq k s.datasphere_table

  abbrev volume_reply :
      Outcome (Unit {0})
      → VolumeInfo
      → ConfigService client
      → Outcome VolumeInfo × ConfigService client
  volume_reply q v s = elim q [
    | returned a ↦ (returned v, s)
    | thrown e ↦ (thrown e, s)
    | aborted ↦ (aborted, s)
  ]

  volume_created_others :
      (q : Outcome (Unit {0})) (v : VolumeInfo) (s : ConfigService client)
      → (volume_reply q v s).1 ≡ s
  volume_created_others (returned a) v s = refl
  volume_created_others (thrown e) v s = refl
  volume_created_others aborted v s = refl

  create_volume_others :
      (vs : List VolumeInfo) (id : String) (d : Datasphere) (m : SphereMgr)
      (s : ConfigService client)
      → str_eq id k ≡ false
      → entry (create_volume client vs id d m s).1 ≡ entry s
  create_volume_others [] id d m s e = refl
  create_volume_others (v ∷ rest) id d m s e =
      let (error, tree) = client.create_including_ancestors (resource_root d.info.id v.id) s.tree in
      let (r, m') = resource_answered 0 (status_of error) m in
      ap entry (volume_created_others r v _) ∙ find-put-other k id _ s.datasphere_table e

  volume_call_others :
      (q : Outcome (Unit {0})) (id : String) (d : Datasphere) (m : SphereMgr)
      (s : ConfigService client)
      → str_eq id k ≡ false
      → entry (volume_call client q id d m s).1 ≡ entry s
  volume_call_others (returned a) id d m s e = create_volume_others m.resources_in_flight id d m s e
  volume_call_others (thrown x) id d m s e = refl
  volume_call_others aborted id d m s e = refl

  add_volume_others :
      (info : VolumeInfo) (s : ConfigService client)
      → str_eq info.datasphere_id k ≡ false
      → entry (add_volume client info s).1 ≡ entry s
  unfolding add_volume get_datasphere_or_throw
  add_volume_others info s e =
      elim (Option-cases (find str_eq info.datasphere_id s.datasphere_table)) [
        | inl n ↦ rw n refl
        | inr (d, n) ↦ rw n (
            volume_call_others (add_resource info d.volumes).0 info.datasphere_id d
              (add_resource info d.volumes).1 s e)
      ]

  add_data_sphere_others :
      (info : DataSphereInfo) (s : ConfigService client)
      → str_eq info.id k ≡ false
      → entry (add_data_sphere client info s).1 ≡ entry s
  unfolding add_data_sphere
  add_data_sphere_others info s e =
      elim (Option-cases (client.create_including_ancestors (datasphere_root info.id) s.tree).0) [
        | inl n ↦ rw n (find-put-other k info.id _ s.datasphere_table e)
        | inr (x, n) ↦ rw n refl
      ]

  module _ (id : String) (s : ConfigService client) where
    list_services_state : (list_services client id s).1 ≡ s
    unfolding list_services get_datasphere_or_throw
    list_services_state = elim (Option-cases (find str_eq id s.datasphere_table)) [
      | inl n ↦ rw n refl
      | inr (d, n) ↦ rw n refl
    ]

    list_volumes_state : (list_volumes client id s).1 ≡ s
    unfolding list_volumes get_datasphere_or_throw
    list_volumes_state = elim (Option-cases (find str_eq id s.datasphere_table)) [
      | inl n ↦ rw n refl
      | inr (d, n) ↦ rw n refl
    ]

    list_volume_rings_state : (list_volume_rings client id s).1 ≡ s
    unfolding list_volume_rings get_datasphere_or_throw
    list_volume_rings_state = elim (Option-cases (find str_eq id s.datasphere_table)) [
      | inl n ↦ rw n refl
      | inr (d, n) ↦ rw n refl
    ]

  handle_others :
      (c : ConfigCall) (s : ConfigService client)
      → str_eq (datasphere_of c) k ≡ false
      → entry (handle client c s).1 ≡ entry s
  unfolding handle
  handle_others (add_datasphere_call info) s e =
      ap entry (then_pure (add_data_sphere client info) (λ _. done) s)
      ∙ add_data_sphere_others info s e
  handle_others (add_service_call info) s e =
      ap entry (then_pure (add_service_to client info) (λ _. done) s)
      ∙ add_service_others client info k s e
  handle_others (add_volume_call info) s e =
      ap entry (then_pure (add_volume client info) (λ _. done) s) ∙ add_volume_others info s e
  handle_others (list_services_call id) s e =
      ap entry (then_pure (list_services client id) services s ∙ list_services_state id s)
  handle_others (list_volumes_call id) s e =
      ap entry (then_pure (list_volumes client id) volumes s ∙ list_volumes_state id s)
  handle_others (list_volume_rings_call id) s e =
      ap entry (then_pure (list_volume_rings client id) rings s ∙ list_volume_rings_state id s)

  and_then_others :
      (r : Outcome ConfigAnswer) (o : Option Datasphere) (t : ConfigService client)
      (rest : List (Outcome ConfigAnswer) × ConfigService client)
      → entry t ≡ o
      → entry rest.1 ≡ o
      → entry (and_then client r t rest).1 ≡ o
  and_then_others (returned a) o t rest e f = f
  and_then_others (thrown x) o t rest e f = f
  and_then_others aborted o t rest e f = e

  serve_others :
      (calls : List ConfigCall) (s : ConfigService client)
      → All (λ c. str_eq (datasphere_of c) k ≡ false) calls
      → entry (serve client calls s).1 ≡ entry s
  unfolding serve
  serve_others [] s ds = refl
  serve_others (c ∷ calls) s (d, ds) =
      let (r, t) = handle client c s in
      and_then_others r (entry s) t (serve client calls t) (handle_others c s d)
        (serve_others calls t ds ∙ handle_others c s d)

  answers_alike :
      (s t : ConfigService client)
      → entry t ≡ entry s
      → ((list_services client k t).0 ≡ (list_services client k s).0)
        × ((list_volumes client k t).0 ≡ (list_volumes client k s).0)
        × ((list_volume_rings client k t).0 ≡ (list_volume_rings client k s).0)
  unfolding list_services list_volumes list_volume_rings get_datasphere_or_throw
  answers_alike s t e = elim (Option-cases (entry s)) [
    | inl n ↦ rw (e, n) (refl, refl, refl)
    | inr (d, n) ↦ rw (e, n) (refl, refl, refl)
  ]

  -- Calls about other dataspheres, however many and whatever their outcomes, leave a datasphere's
  -- entry as it was, and its services, volumes and rings are listed with the same answers.
  pub calls_isolated :
      (calls : List ConfigCall) (s : ConfigService client)
      → All (λ c. str_eq (datasphere_of c) k ≡ false) calls
      → let t = (serve client calls s).1 in
        (find str_eq k t.datasphere_table ≡ find str_eq k s.datasphere_table)
        × ((list_services client k t).0 ≡ (list_services client k s).0)
        × ((list_volumes client k t).0 ≡ (list_volumes client k s).0)
        × ((list_volume_rings client k t).0 ≡ (list_volume_rings client k s).0)
  calls_isolated calls s ds =
      let e = serve_others calls s ds in
      let (same_services, same_volumes, same_rings) = answers_alike s (serve client calls s).1 e in
      (e, same_services, same_volumes, same_rings)
