-- ===== src/Volume/Server/Serving.antt =====
-- What a volume server serves once it has started.
use datom.Common.{
  ℕ, ℤ, pos, String, ◌==◌, eqb_ℤ, Bool-cases, ◌≡◌, refl, sym, subst, ap, ◌∙◌, inl, inr, Option,
  none, some, List, [], ◌∷◌, All, arith,
}
use datom.Exec.{returned}
use datom.Config.{VolumeInfo, RingInfo, find}
use datom.BaseService.{CoordinationClient, Formats, Service, init}
use datom.Dispatch.{ServiceApiHandler}
use datom.Member.{
  switch_state, follower_wait_to_join_group, invalid_value, register_watch, create_member_root,
}
use datom.Member.Loop.{new_member, init as member_init}
use datom.Resources.{ResourceMgr, ResourceReplica, children, add_rings, pull_resource_config_table}
use datom.Config.Sphere.Tables.{AllDistinct}
use datom.Resources.Holdings.{owned, pulled_holds, add_resources-All, add_rings_keeps}
use datom.Volume.{Rocks, VolumeReplica}
use datom.Volume.Server.{VolumeServer, Codecs, register_handlers}
use datom.Volume.Server.Startup.{
  Host, new_replica, init_replica, make_replicas, Starting, volume_server_init,
}

abbrev pub map_option : {A B : Type 0} → (A → B) → Option A → Option B
map_option f none = none
map_option f (some a) = some (f a)

module _ (rocks : Rocks) (host : Host rocks) (my_id : String) (db_of : ℕ → rocks.Store) where
  -- A replica that has just joined its group: an empty journal, the database at its path, and a
  -- member that waits for a leader, has asked to watch the group and has made its own node.
  abbrev pub joined_replica : ResourceReplica → VolumeReplica rocks
  joined_replica r = record {
    member = record {
      resource_id = pos r.info.id;
      group_key = host.group_key r.info.id;
      member_ids = r.member_ids;
      my_id = my_id;
      leader_id = "";
      quorum = r.quorum;
      state = follower_wait_to_join_group;
      version = host.old_version;
      term_id = invalid_value;
      last_election_timepoint = 0;
      op_id = host.old_op_id;
      commit_id = invalid_value;
      leader_ctx = none;
      sent =
          register_watch (host.group_key r.info.id)
          ∷ create_member_root (host.group_key r.info.id) my_id
          ∷ [];
    };
    journal = record { entries = [] };
    db = db_of r.info.id;
  }

  abbrev pub Opens : ℕ → Type 0
  Opens id = host.open_db (host.db_path id) ≡ some (db_of id)

  abbrev IsReady : ResourceReplica → Type 0
  IsReady r = (r.quorum ≡ 2) × Opens r.info.id

  abbrev joined_all : List (ℕ × ResourceReplica) → List (ℤ × VolumeReplica rocks)
  joined_all [] = []
  joined_all ((id, r) ∷ rest) = (pos id, joined_replica r) ∷ joined_all rest

  make_one :
      (r : ResourceReplica)
      → IsReady r
      → init_replica rocks host (new_replica rocks host my_id r) ≡ returned (joined_replica r)
  unfolding new_replica new_member member_init switch_state
  make_one r (q, o) = rw (o, q) refl

  make_replicas_lem :
      (table : List (ℕ × ResourceReplica))
      → All (λ (kv : ℕ × ResourceReplica). IsReady kv.1) table
      → make_replicas rocks host my_id table ≡ returned (joined_all table)
  unfolding make_replicas
  make_replicas_lem [] a = refl
  make_replicas_lem ((id, r) ∷ rest) (a, rs) = rw (make_one r a, make_replicas_lem rest rs) refl

  same_key : (a b : ℕ) → eqb_ℤ (pos a) (pos b) ≡ (a == b)
  same_key a b = ground arith

  joined_find :
      (id : ℕ) (table : List (ℕ × ResourceReplica))
      → find eqb_ℤ (pos id) (joined_all table) ≡ map_option joined_replica (find ◌==◌ id table)
  joined_find id [] = refl
  joined_find id ((j, r) ∷ rest) = elim (Bool-cases (j == id)) [
    | inl e ↦ rw (same_key j id, e) refl
    | inr e ↦ rw (same_key j id, e) (joined_find id rest)
  ]

  pulled-IsReady :
      (rings : List (ℕ × RingInfo)) (infos : List VolumeInfo) (s : ResourceMgr)
      → s.resource_table ≡ []
      → All (λ (i : VolumeInfo). Opens i.id) infos
      → All
          (λ (kv : ℕ × ResourceReplica). IsReady kv.1)
          (pull_resource_config_table (children rings) (children infos) s).1.resource_table
  unfolding pull_resource_config_table
  pulled-IsReady rings infos s e o =
      add_resources-All IsReady infos (add_rings rings s) (ready infos o) (
        subst (All (λ (kv : ℕ × ResourceReplica). IsReady kv.1))
          (sym ((add_rings_keeps rings s).1 ∙ e)) tt)
    where
      ready :
          (is : List VolumeInfo)
          → All (λ (i : VolumeInfo). Opens i.id) is
          → All
              (λ (i : VolumeInfo).
                (members : List String)
                → IsReady (record { info = i; member_ids = members; quorum = 2 }))
              is
      ready [] o = tt
      ready (i ∷ is) (o, os) = (λ members. (refl, o), ready is os)

module _ (rocks : Rocks) (host : Host rocks) (formats : Formats) (client : CoordinationClient)
    (codecs : Codecs) where
  -- A volume server whose service starts, that has a handler of calls, and that can open the database
  -- of each volume it pulls: its start returns, the handlers of all messages are registered, and it
  -- holds a replica for exactly the volumes in whose rings it is, with the members of the ring, an
  -- empty journal and the volume's database; the replica's member waits for a leader, has asked to
  -- watch its group and has made its own node. The rings and volumes that it pulls have distinct ids.
  pub volume_server_serves :
      (rings : List (ℕ × RingInfo)) (infos : List VolumeInfo) (db_of : ℕ → rocks.Store)
      (handler : ServiceApiHandler (VolumeServer rocks))
      (s : Starting rocks host formats client codecs) (started : Service formats client)
      → init formats client s.service ≡ (returned tt, started)
      → s.handlers ≡ some handler
      → AllDistinct (λ (r : ℕ × RingInfo). r.0) rings
      → AllDistinct (λ (i : VolumeInfo). i.id) infos
      → All (λ (i : VolumeInfo). host.open_db (host.db_path i.id) ≡ some (db_of i.id)) infos
      → let me = started.service_info.id in
        let after =
          volume_server_init rocks host formats client codecs (children rings) (children infos) s in
        (after.0 ≡ returned tt)
        × (after.1.handlers ≡ some (register_handlers rocks codecs handler))
        × ((id : ℕ)
            → find eqb_ℤ (pos id) after.1.server.replicas
              ≡ map_option (joined_replica rocks host me db_of) (owned me rings infos id))
  unfolding volume_server_init pull_resource_config_table
  volume_server_serves rings infos db_of handler s started b h d e o =
      let me = started.service_info.id in
      let m : ResourceMgr = record { service_id = me; ring_table = []; resource_table = [] } in
      let table =
        (pull_resource_config_table (children rings) (children infos) m).1.resource_table in
      let made =
        make_replicas_lem rocks host me db_of table
          (pulled-IsReady rocks host me db_of rings infos m refl o) in
      rw (b, made, h)
        (
          refl,
          refl,
          λ id.
              joined_find rocks host me db_of id table
              ∙ ap (map_option (joined_replica rocks host me db_of))
                  (pulled_holds rings infos m id refl refl d e),
        )
