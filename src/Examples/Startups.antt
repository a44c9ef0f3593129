-- ===== src/Examples/Startups.antt =====
-- The theorem on the start of a volume server at a concrete node.
use datom.Common.{ℕ, pos, eqb_ℤ, ◌≡◌, refl, some, List, [], ◌∷◌, true, false}
use datom.Status.{status_ok}
use datom.Exec.{returned}
use datom.Config.{VolumeInfo, RingInfo, find}
use datom.Buffers.{empty_kvb}
use datom.BaseService.{CoordinationClient, init}
use datom.Resources.{children}
use datom.Resources.Holdings.{owned}
use datom.Volume.Server.{register_handlers}
use datom.Volume.Server.Startup.{Host, Starting, volume_server_init}
use datom.Volume.Server.Serving.{joined_replica, map_option, volume_server_serves}
use datom.Examples.{log_store, service, volume}
use datom.Examples.Announcements.{formats}
use datom.Examples.Servers.{codecs, no_handlers}

-- A client that answers every call.
abbrev client : CoordinationClient
client = record {
  World = Unit {0};
  init = λ w. (returned tt, w);
  get = λ key w. (returned empty_kvb, w);
  create = λ key value w. (returned key, w);
  set = λ key value version w. (returned (pos 1), w);
  publish_message = λ topic message w. (returned status_ok, w);
  subscribe_to_topic = λ topic w. (returned status_ok, w);
}

abbrev host : Host log_store
host = record {
  open_db = λ path. some [];
  db_path = λ id. "/volumes/db";
  group_key = λ id. "/resources/v";
  old_version = pos 0;
  old_op_id = pos 0;
}

abbrev new_server : Starting log_store host formats client codecs
new_server = record {
  service = record {
    service_info = service "1" "a";
    service_entry_key = "";
    coordinated = true;
    datom_configured = false;
    world = tt;
  };
  threads = record { io_threadpool = false; server = some false; server_thread = false };
  manager = record { service_id = ""; ring_table = []; resource_table = [] };
  server = record { replicas = [] };
  handlers = some no_handlers;
}

abbrev two_rings : List (ℕ × RingInfo)
two_rings =
    (0, record { id = 0; member_ids = "1" ∷ "2" ∷ "3" ∷ [] })
    ∷ (1, record { id = 1; member_ids = "4" ∷ "5" ∷ "6" ∷ [] })
    ∷ []

-- The second volume is on the ring of other services.
abbrev two_volumes : List VolumeInfo
two_volumes = volume "v" ∷ record (volume "w") { id = 1; ring_id = 1 } ∷ []

volume_server_serves_example :
    let after =
      volume_server_init log_store host formats client codecs
        (children two_rings)
        (children two_volumes)
        new_server in
    (after.0 ≡ returned tt)
    × (after.1.handlers ≡ some (register_handlers log_store codecs no_handlers))
    × ((id : ℕ)
        → find eqb_ℤ (pos id) after.1.server.replicas
          ≡ map_option
              (joined_replica log_store host "1" (λ volume_id. []))
              (owned "1" two_rings two_volumes id))
unfolding init
volume_server_serves_example =
    volume_server_serves log_store host formats client codecs two_rings two_volumes
      (λ volume_id. []) no_handlers new_server (init formats client new_server.service).1 refl refl
      ((refl, tt), (tt, tt)) ((refl, tt), (tt, tt)) (refl, (refl, tt))
