-- ===== src/Examples.antt =====
-- Concrete members, replicas and services on which the theorems are applied. The applications are
-- in the modules below. It models no code of its own.
pub mod Groups
pub mod Elections
pub mod Volumes
pub mod Configs
pub mod Announcements
pub mod Startups
pub mod Clients
pub mod Services
pub mod Servers
use datom.Common.{
  ℕ, ℤ, pos, negsuc, String, str_eq, Bool, true, false, Option, none, some, List, [], ◌∷◌, ◌++◌,
  if◌then◌else◌,
}
use datom.Journal.{Journal, Record}
use datom.Member.{
  PbMember, PbMemberState, PeerInfo, LeaderCtx, GetMemberStateRespMsg, leader_functional,
  follower_functional, follower_syncing, follower_wait_to_join_group,
}
use datom.Volume.{Rocks, IsAtomic, VolumeReplica, UpdateBlobMetaMsg, BlobKvPair}
use datom.Config.{ServiceInfo, volume_server, VolumeInfo}

-- Node 2 is functional and node 3 waits to join.
abbrev pub two_peers : List PeerInfo
two_peers =
    record { id = "2"; state = follower_functional; version = pos 4 }
    ∷ record { id = "3"; state = follower_wait_to_join_group; version = negsuc 0 }
    ∷ []

abbrev pub leader_ctx : LeaderCtx
leader_ctx = record { op_id = pos 7; commit_id = pos 7; peers = two_peers }

-- Node 1 of three, which leads with a quorum of two.
abbrev pub leader : PbMember
leader = record {
  resource_id = pos 1;
  group_key = "/1";
  member_ids = "1" ∷ "2" ∷ "3" ∷ [];
  my_id = "1";
  leader_id = "1";
  quorum = 2;
  state = leader_functional;
  version = pos 0;
  term_id = pos 5;
  last_election_timepoint = 0;
  op_id = negsuc 0;
  commit_id = negsuc 0;
  leader_ctx = some leader_ctx;
  sent = [];
}

-- Node 2, which waits to join.
abbrev pub joining : PbMember
joining = record leader {
  my_id = "2";
  leader_id = "";
  state = follower_wait_to_join_group;
  leader_ctx = none;
}

abbrev pub answer_of : String → ℤ → GetMemberStateRespMsg
answer_of id commit = record {
  id = id;
  commit_id = commit;
  version = pos 0;
  state = follower_wait_to_join_group;
}

abbrev pub one_record : Journal
one_record = record { entries = record { id = pos 7; type = "UpdateBlobMetaMsg"; buf = "x" } ∷ [] }

-- A store that keeps every batch, and one that takes none.
abbrev pub log_store : Rocks
log_store = record {
  Store = List (List ℕ × String);
  write = λ batch s. (true, s ++ batch);
  scan = λ key s. s;
}

pub log_IsAtomic : IsAtomic log_store
log_IsAtomic batch s e = absurd (cc)

abbrev pub full_store : Rocks
full_store = record {
  Store = List (List ℕ × String);
  write = λ batch s. (false, s);
  scan = λ key s. s;
}

abbrev pub update_of : ℤ → UpdateBlobMetaMsg
update_of commit = record {
  resource_id = pos 1;
  blob_id = pos 9;
  op_id = commit;
  commit_id = commit;
  chunk_list = record { offset = pos 256; chunk_id = "c" } ∷ [];
}

abbrev pub serialize : UpdateBlobMetaMsg → String
serialize msg = "payload"

-- Reads "8" and "9".
abbrev pub decode : String → UpdateBlobMetaMsg
decode buffer = if str_eq buffer "8" then update_of (pos 8) else update_of (pos 9)

abbrev pub replica : VolumeReplica log_store
replica = record { member = leader; journal = one_record; db = [] }

abbrev pub full_replica : VolumeReplica full_store
full_replica = record { member = leader; journal = one_record; db = [] }

abbrev pub service : String → String → ServiceInfo
service id ip = record {
  id = id;
  data_sphere_id = "d";
  node_id = "n";
  type = volume_server;
  ip = ip;
  port = pos 80;
  root_path = "";
}

abbrev pub volume : String → VolumeInfo
volume name = record { id = 0; name = name; datasphere_id = "d"; ring_id = 0 }
