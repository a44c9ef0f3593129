-- ===== src/Member.antt =====
-- A member of a primary-backup group: the data of src/infra/PBMember.h and src/idls/pbapi.thrift,
-- the tests on a member's state, and the calls that a member makes. Handlers and proofs are in the
-- modules below.
pub mod Peers
pub mod Write
pub mod Group
pub mod Election
pub mod Messages
pub mod Loop
pub mod Watch
pub mod Cluster
use datom.Common.{
  ℕ, ℤ, negsuc, String, Bool, true, false, ◌&&◌, Option, none, some, List, [], ◌∷◌, ◌++◌, ltb,
  ltb_ℤ, ◌==◌,
}
use datom.Status.{invalid_term, not_leader}
use datom.Exec.{Exec, returned, pure, throw_status}

pub data PbMemberState : Type 0 where
  uninitialized follower_begin follower_wait_to_join_group follower_syncing : PbMemberState
  follower_functional follower_end ec_begin ec_acquire_lock ec_waiting_for_quorum : PbMemberState
  ec_election_in_progress ec_end leader_begin leader_waiting_for_quorum : PbMemberState
  leader_functional leader_end : PbMemberState

-- The value of the enumerator.
abbrev pub state_code : PbMemberState → ℕ
state_code uninitialized = 0
state_code follower_begin = 1
state_code follower_wait_to_join_group = 2
state_code follower_syncing = 3
state_code follower_functional = 4
state_code follower_end = 5
state_code ec_begin = 6
state_code ec_acquire_lock = 7
state_code ec_waiting_for_quorum = 8
state_code ec_election_in_progress = 9
state_code ec_end = 10
state_code leader_begin = 11
state_code leader_waiting_for_quorum = 12
state_code leader_functional = 13
state_code leader_end = 14

-- state == other, on the enumerators' values
abbrev pub same_state : PbMemberState → PbMemberState → Bool
same_state s t = state_code s == state_code t

unfoldable pub is_follower_state : PbMemberState → Bool
is_follower_state s =
    ltb (state_code follower_begin) (state_code s) && ltb (state_code s) (state_code follower_end)

unfoldable pub is_elector_state : PbMemberState → Bool
is_elector_state s =
    ltb (state_code ec_begin) (state_code s) && ltb (state_code s) (state_code ec_end)

unfoldable pub is_leader_state : PbMemberState → Bool
is_leader_state s =
    ltb (state_code leader_begin) (state_code s) && ltb (state_code s) (state_code leader_end)

-- commontypes_constants::INVALID_VALUE and INVALID_VERSION
abbrev pub invalid_value : ℤ
invalid_value = negsuc 0

abbrev pub invalid_version : ℤ
invalid_version = negsuc 0

pub record PeerInfo : Type 0 where
  pub id : String
  pub state : PbMemberState
  pub version : ℤ

pub record LeaderCtx : Type 0 where
  pub op_id : ℤ
  pub commit_id : ℤ
  pub peers : List PeerInfo

abbrev pub new_leader_ctx : LeaderCtx
new_leader_ctx = record { op_id = invalid_value; commit_id = invalid_value; peers = [] }

pub record GetMemberStateMsg : Type 0 where
  pub group_type : String
  pub resource_id : ℤ
  pub term_id : ℤ

pub record GetMemberStateRespMsg : Type 0 where
  pub id : String
  pub commit_id : ℤ
  pub version : ℤ
  pub state : PbMemberState

pub record BecomeLeaderMsg : Type 0 where
  pub resource_id : ℤ
  pub term_id : ℤ
  pub functional_members : List GetMemberStateRespMsg

pub record GroupInfoUpdateMsg : Type 0 where
  pub resource_id : ℤ
  pub term_id : ℤ
  pub leader_id : String
  pub functional_members : List GetMemberStateRespMsg

pub record AddToGroupMsg : Type 0 where
  pub resource_id : ℤ
  pub term_id : ℤ
  pub member_id : String
  pub member_version : ℤ
  pub member_state : PbMemberState

pub record AddToGroupRespMsg : Type 0 where
  pub sync_commit_id : ℤ

pub record PullJournalEntriesMsg : Type 0 where
  pub resource_id : ℤ
  pub term_id : ℤ
  pub from_id : ℤ
  pub to_id : ℤ
  pub max_bytes_in_resp : ℤ

-- The calls that a member issues and whose answer, if any, comes back as a later event. A path is
-- its list of segments under the coordination root.
pub data Request : Type 0 where
  -- getChildrenSimple(groupKey_, watch): the answer is dropped in `init`
  register_watch : String → Request
  -- createEphemeral("groupKey_/myId_:", myId_, sequential)
  create_member_root : String → String → Request
  -- createEphemeral("groupKey_/LOCK", lock type)
  create_lock : String → String → Request
  -- del("groupKey_/LOCK", -1)
  delete_lock : String → Request
  -- set(groupKey_, "", -1), whose answer is the new version of the key
  set_group_key : String → Request
  -- getChildrenSimple(groupKey_) with no watch
  get_children : String → Request
  send_get_member_state : String → GetMemberStateMsg → Request
  send_become_leader : String → BecomeLeaderMsg → Request
  send_add_to_group : String → AddToGroupMsg → Request
  send_pull : String → PullJournalEntriesMsg → Request
  -- future_handleKVBMessage of a KVBuffer with this type and payload, on the client of a peer
  send_kvb : String → String → String → Request
  -- runAfterDelay(watchCb_, milliseconds)
  run_after_delay : ℕ → Request
  run_sync_protocol : Request

pub record PbMember : Type 0 where
  pub resource_id : ℤ
  pub group_key : String
  pub member_ids : List String
  pub my_id : String
  pub leader_id : String
  pub quorum : ℕ  -- uint32_t
  pub state : PbMemberState
  pub version : ℤ
  pub term_id : ℤ
  pub last_election_timepoint : ℕ  -- milliseconds of the steady clock
  pub op_id : ℤ
  pub commit_id : ℤ
  pub leader_ctx : Option LeaderCtx
  -- what was sent so far, oldest first
  pub sent : List Request

abbrev pub Action : Type 0 → Type 0
Action A = Exec PbMember A

unfoldable pub switch_state : PbMemberState → Action (Unit {0})
switch_state new_state m = (returned tt, record m { state = new_state })

abbrev pub send : Request → Action (Unit {0})
send r m = (returned tt, record m { sent = m.sent ++ r ∷ [] })

-- if (term < termId_) throw StatusException(STATUS_INVALID_TERM)
unfoldable pub throw_if_invalid_term : ℤ → Action (Unit {0})
throw_if_invalid_term term m = elim (ltb_ℤ term m.term_id) [
  | true ↦ throw_status invalid_term m
  | false ↦ pure tt m
]

abbrev pub has_ctx : Option LeaderCtx → Bool
has_ctx none = false
has_ctx (some ctx) = true

-- THROW_IFNOT_LEADER
unfoldable pub throw_ifnot_leader : Action (Unit {0})
throw_ifnot_leader m = elim (is_leader_state m.state && has_ctx m.leader_ctx) [
  | true ↦ pure tt m
  | false ↦ throw_status not_leader m
]
