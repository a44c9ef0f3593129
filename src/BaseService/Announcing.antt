-- ===== src/BaseService/Announcing.antt =====
-- When a service announces itself. The calls that change or read the coordination service are
-- recorded, and the record is compared with a protocol.
use datom.Common.{
  ℤ, negsuc, ◌⊎◌, inl, inr, String, Bool, true, false, ◌≡◌, refl, List, [], ◌∷◌, ◌++◌,
}
use datom.Status.{Exception, Status}
use datom.Exec.{Exec, Outcome, returned, thrown, aborted}
use datom.Config.{ServiceInfo}
use datom.Buffers.{KvBuffer}
use datom.BaseService.{
  CoordinationClient, Formats, topic_services, Service, announcement, init_coordination_client,
  ensure_datasphere_membership, connection_cache_init, publish_service_information, init,
}

pub data Entry : Type 0 where
  got : String → Outcome KvBuffer → Entry
  was_created : String → Entry
  was_set : String → String → ℤ → Outcome ℤ → Entry
  published : String → String → Outcome Status → Entry
  subscribed : String → Entry

module _ (client : CoordinationClient) where
  abbrev pub recorded :
      {A : Type 0} → (Outcome A → Entry) → Exec client.World A → Exec (client.World × List Entry) A
  recorded entry call (w, trace) = let (r, w') = call w in (r, (w', trace ++ entry r ∷ []))

  -- The client, with a record of its calls after init.
  abbrev pub traced : CoordinationClient
  traced = record {
    World = client.World × List Entry;
    init = λ (w, trace). let (r, w') = client.init w in (r, (w', trace));
    get = λ key. recorded (got key) (client.get key);
    create = λ key value. recorded (λ r. was_created key) (client.create key value);
    set = λ key value version. recorded (was_set key value version) (client.set key value version);
    publish_message =
        λ topic message. recorded (published topic message) (client.publish_message topic message);
    subscribe_to_topic =
        λ topic. recorded (λ r. subscribed topic) (client.subscribe_to_topic topic);
  }

-- How far a start has come.
pub data Stage : Type 0 where
  -- the entry has not been read
  starting : Stage
  -- the entry was there
  member : Stage
  -- the set returned this version
  stored : ℤ → Stage
  announced : Stage

module _ (formats : Formats) (key : String) (info : ServiceInfo) where
  -- The protocol: the entry is read first; it is set, with no expected version, only if the read
  -- found it; the version that the set returned is announced once, and nothing follows a failure or
  -- the announcement.
  abbrev pub Follows : Stage → List Entry → Type 0
  Follows stage [] = Unit
  Follows starting (got k (returned kvb) ∷ es) = (k ≡ key) × Follows member es
  Follows starting (got k (thrown e) ∷ es) = (k ≡ key) × (es ≡ [])
  Follows starting (got k aborted ∷ es) = (k ≡ key) × (es ≡ [])
  Follows member (subscribed topic ∷ es) = (topic ≡ topic_services) × Follows member es
  Follows member (was_set k value version (returned v) ∷ es) =
      (k ≡ key) × (value ≡ formats.info_json info) × (version ≡ negsuc 0) × Follows (stored v) es
  Follows member (was_set k value version (thrown e) ∷ es) = (k ≡ key) × (es ≡ [])
  Follows member (was_set k value version aborted ∷ es) = (k ≡ key) × (es ≡ [])
  Follows (stored v) (published topic text r ∷ es) =
      (topic ≡ topic_services) × (text ≡ announcement formats info v) × Follows announced es
  Follows _ (_ ∷ _) = ⊥

abbrev pub is_returned : {A : Type 0} → Outcome A → Bool
is_returned (returned a) = true
is_returned (thrown e) = false
is_returned aborted = false

-- Whether the record ends in an announcement that was accepted.
abbrev pub ends_announced : List Entry → Bool
ends_announced [] = false
ends_announced (published topic text (returned answer) ∷ []) = true
ends_announced (_ ∷ es) = ends_announced es

Outcome-cases :
    {A : Type 0} (r : Outcome A)
    → (((a : A) × (r ≡ returned a)) ⊎ ((e : Exception) × (r ≡ thrown e))) ⊎ (r ≡ aborted)
Outcome-cases (returned a) = inl (inl (a, refl))
Outcome-cases (thrown e) = inl (inr (e, refl))
Outcome-cases aborted = inr refl

module _ (formats : Formats) (client : CoordinationClient)
    (s : Service formats (traced client)) where
  abbrev pub Announces : String → Outcome (Unit {0}) × Service formats (traced client) → Type 0
  Announces key after =
      Follows formats key s.service_info starting after.1.world.1
      × (is_returned after.0 ≡ ends_announced after.1.world.1)

  abbrev pub entry_key : String
  entry_key = formats.service_root_path s.service_info.data_sphere_id s.service_info.id

  -- The calls of init in their order, from the world that it starts in.
  module _ (w : client.World) (e : s.world ≡ (w, [])) (c : s.coordinated ≡ true) where
    abbrev reading : Outcome KvBuffer × client.World
    reading = client.get entry_key (client.init w).1

    abbrev subscribing : Outcome Status × client.World
    subscribing = client.subscribe_to_topic topic_services reading.1

    abbrev storing : Outcome ℤ × client.World
    storing = client.set entry_key (formats.info_json s.service_info) (negsuc 0) subscribing.1

    abbrev publishing : ℤ → Outcome Status × client.World
    publishing v =
        client.publish_message topic_services (announcement formats s.service_info v) storing.1

    stored-Announces :
        (v : ℤ) (a : Unit {0}) (kvb : KvBuffer) (b : Status)
        → (client.init w).0 ≡ returned a
        → reading.0 ≡ returned kvb
        → subscribing.0 ≡ returned b
        → storing.0 ≡ returned v
        → Announces entry_key (init formats (traced client) s)
    unfolding init init_coordination_client ensure_datasphere_membership connection_cache_init
        publish_service_information
    stored-Announces v a kvb b i g t u = elim (Outcome-cases (publishing v).0) [
      | inl (inl (d, p)) ↦
          rw (e, c, i, g, t, u, p) ((refl, (refl, (refl, refl, refl, (refl, refl, tt)))), refl)
      | inl (inr (x, p)) ↦
          rw (e, c, i, g, t, u, p) ((refl, (refl, (refl, refl, refl, (refl, refl, tt)))), refl)
      | inr p ↦
          rw (e, c, i, g, t, u, p) ((refl, (refl, (refl, refl, refl, (refl, refl, tt)))), refl)
    ]

    subscribed-Announces :
        (a : Unit {0}) (kvb : KvBuffer) (b : Status)
        → (client.init w).0 ≡ returned a
        → reading.0 ≡ returned kvb
        → subscribing.0 ≡ returned b
        → Announces entry_key (init formats (traced client) s)
    unfolding init init_coordination_client ensure_datasphere_membership connection_cache_init
        publish_service_information
    subscribed-Announces a kvb b i g t = elim (Outcome-cases storing.0) [
      | inl (inl (v, u)) ↦ stored-Announces v a kvb b i g t u
      | inl (inr (x, u)) ↦ rw (e, c, i, g, t, u) ((refl, (refl, (refl, refl))), refl)
      | inr u ↦ rw (e, c, i, g, t, u) ((refl, (refl, (refl, refl))), refl)
    ]

    member-Announces :
        (a : Unit {0}) (kvb : KvBuffer)
        → (client.init w).0 ≡ returned a
        → reading.0 ≡ returned kvb
        → Announces entry_key (init formats (traced client) s)
    unfolding init init_coordination_client ensure_datasphere_membership connection_cache_init
    member-Announces a kvb i g = elim (Outcome-cases subscribing.0) [
      | inl (inl (b, t)) ↦ subscribed-Announces a kvb b i g t
      | inl (inr (x, t)) ↦ rw (e, c, i, g, t) ((refl, (refl, tt)), refl)
      | inr t ↦ rw (e, c, i, g, t) ((refl, (refl, tt)), refl)
    ]

    started-Announces :
        (a : Unit {0})
        → (client.init w).0 ≡ returned a
        → Announces entry_key (init formats (traced client) s)
    unfolding init init_coordination_client ensure_datasphere_membership
    started-Announces a i = elim (Outcome-cases reading.0) [
      | inl (inl (kvb, g)) ↦ member-Announces a kvb i g
      | inl (inr (x, g)) ↦ rw (e, c, i, g) ((refl, refl), refl)
      | inr g ↦ rw (e, c, i, g) ((refl, refl), refl)
    ]

  -- A service with a coordination client announces itself only as the protocol Follows allows,
  -- whatever the client answers: init reads the service's entry first, sets it only if it was there,
  -- and publishes, once, the version that the set returned; and init returns exactly if the
  -- announcement was made and answered.
  pub init-Announces :
      (w : client.World)
      → s.world ≡ (w, [])
      → s.coordinated ≡ true
      → Announces entry_key (init formats (traced client) s)
  unfolding init init_coordination_client
  init-Announces w e c = elim (Outcome-cases (client.init w).0) [
    | inl (inl (a, i)) ↦ started-Announces w e c a i
    | inl (inr (x, i)) ↦ rw (e, c, i) (tt, refl)
    | inr i ↦ rw (e, c, i) (tt, refl)
  ]
