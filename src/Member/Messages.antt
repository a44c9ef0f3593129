-- ===== src/Member/Messages.antt =====
-- The messages that a member handles: handleGetMemberStateMsg, handleBecomeLeaderMsg with its
-- continuation, handleAddToGroupMsg and handleGroupInfoUpdateMsg of src/infra/PBMember.cpp, with the
-- dispatch of registerHandlers_ in src/volumeserver/VolumeServer.cpp.
pub mod Terms
pub mod Leadership
use datom.Common.{
  ℕ, ℤ, pos, String, str_eq, Bool, true, false, not, ◌&&◌, Option, none, some, List, [], ◌∷◌, ◌++◌,
  leb, ltb_ℤ, eqb_ℤ, length, find_if, if◌then◌else◌,
}
use datom.Exec.{Exec, Outcome, returned, thrown, aborted, pure, abort, check, modify, ◌>>=◌, ◌>>◌}
use datom.Member.{
  PbMember, PbMemberState, Action, PeerInfo, LeaderCtx, new_leader_ctx, GetMemberStateMsg,
  GetMemberStateRespMsg, BecomeLeaderMsg, GroupInfoUpdateMsg, AddToGroupMsg, AddToGroupRespMsg,
  run_sync_protocol, same_state, send, switch_state, throw_if_invalid_term, throw_ifnot_leader,
  is_follower_state, invalid_version, follower_wait_to_join_group, follower_syncing,
  leader_functional, leader_waiting_for_quorum,
}
use datom.Member.Peers.{change_peer_state}
use datom.Member.Election.{acquire_lock}

unfoldable pub handle_get_member_state_msg : GetMemberStateMsg → Action GetMemberStateRespMsg
unfolding throw_if_invalid_term
handle_get_member_state_msg req m =
    (do
      throw_if_invalid_term req.term_id
      pure (record { id = m.my_id; commit_id = m.commit_id; version = pos 0; state = m.state }))
      m

abbrev pub lock_type_leader : String
lock_type_leader = "leader"

unfoldable pub handle_become_leader_msg : BecomeLeaderMsg → Action (Unit {0})
unfolding throw_if_invalid_term acquire_lock
handle_become_leader_msg req = throw_if_invalid_term req.term_id >> acquire_lock lock_type_leader

abbrev pub peer_from : String → Option GetMemberStateRespMsg → PeerInfo
peer_from id none = record {
  id = id;
  state = follower_wait_to_join_group;
  version = invalid_version;
}
peer_from id (some r) = record { id = id; state = r.state; version = r.version }

-- The loop over memberIds_, which passes over the member itself.
unfoldable pub make_peers : String → List GetMemberStateRespMsg → List String → List PeerInfo
make_peers my_id functional [] = []
make_peers my_id functional (id ∷ ids) =
    let rest = make_peers my_id functional ids in
    if str_eq id my_id then rest else peer_from id (find_if (λ r. str_eq id r.id) functional) ∷ rest

-- functionalMembers[0] of an empty vector is undefined.
abbrev pub leads_group : List GetMemberStateRespMsg → PbMember → Bool
leads_group [] m = false
leads_group (r ∷ rs) m = str_eq r.id m.my_id && eqb_ℤ r.commit_id m.commit_id

abbrev take_lead : List GetMemberStateRespMsg → PbMember → PbMember
unfolding make_peers
take_lead functional m = record m {
  leader_ctx = some (record new_leader_ctx { peers = make_peers m.my_id functional m.member_ids });
  leader_id = m.my_id;
}

-- .then after acquireLock_
unfoldable pub on_leader_lock : List GetMemberStateRespMsg → Action (Unit {0})
unfolding make_peers switch_state
on_leader_lock functional m =
    (do
      check (leads_group functional m)
      modify (take_lead functional)
      switch_state (
          if leb m.quorum (length functional)
          then leader_functional
          else leader_waiting_for_quorum))
      m

unfoldable pub handle_add_to_group_msg : AddToGroupMsg → Action AddToGroupRespMsg
unfolding throw_if_invalid_term throw_ifnot_leader
handle_add_to_group_msg req m =
    (do
      throw_if_invalid_term req.term_id
      throw_ifnot_leader
      change_peer_state req.member_id req.member_version req.member_state
      pure (record { sync_commit_id = m.commit_id }))
      m

abbrev is_listed : String → List GetMemberStateRespMsg → Bool
is_listed id [] = false
is_listed id (r ∷ rs) = if str_eq r.id id then true else is_listed id rs

abbrev raise_term : ℤ → PbMember → PbMember
raise_term term m = if ltb_ℤ m.term_id term then record m { term_id = term } else m

abbrev join_by_sync : GroupInfoUpdateMsg → Action (Unit {0})
unfolding switch_state
join_by_sync req = do
  modify (λ n. record n { leader_id = req.leader_id })
  switch_state follower_syncing
  modify (raise_term req.term_id)
  send run_sync_protocol

abbrev update_member : GroupInfoUpdateMsg → Action (Unit {0})
unfolding is_follower_state switch_state
update_member req m =
    if same_state m.state follower_syncing
    then pure tt m
    else if is_follower_state m.state && not (is_listed m.my_id req.functional_members)
    then join_by_sync req m
    else pure tt m

unfoldable pub handle_group_info_update_msg : GroupInfoUpdateMsg → Action (Unit {0})
unfolding throw_if_invalid_term is_follower_state switch_state
handle_group_info_update_msg req = throw_if_invalid_term req.term_id >> update_member req

pub data GroupMsg : Type 0 where
  get_member_state : GetMemberStateMsg → GroupMsg
  become_leader : BecomeLeaderMsg → GroupMsg
  add_to_group : AddToGroupMsg → GroupMsg
  group_info_update : GroupInfoUpdateMsg → GroupMsg

-- The answer, `unit` where the message is one-way.
pub data GroupReply : Type 0 where
  unit : GroupReply
  member_state : GetMemberStateRespMsg → GroupReply
  added : AddToGroupRespMsg → GroupReply

-- A one-way handler returns when it has put its work on the event base: the future of that work, with
-- an exception that it throws, is dropped.
abbrev pub unseen : Outcome (Unit {0}) → Outcome GroupReply
unseen aborted = aborted
unseen _ = returned unit

abbrev pub one_way : Action (Unit {0}) → Action GroupReply
one_way act m = let (r, n) = act m in (unseen r, n)

-- The handler that registerHandlers_ installs for each type, on the replica that it looks up.
unfoldable pub deliver : GroupMsg → Action GroupReply
unfolding handle_get_member_state_msg handle_become_leader_msg handle_add_to_group_msg
    handle_group_info_update_msg
deliver (get_member_state req) = do r ← handle_get_member_state_msg req; pure (member_state r)
deliver (become_leader req) = one_way (handle_become_leader_msg req)
deliver (add_to_group req) = do r ← handle_add_to_group_msg req; pure (added r)
deliver (group_info_update req) = one_way (handle_group_info_update_msg req)

abbrev pub term_of : GroupMsg → ℤ
term_of (get_member_state req) = req.term_id
term_of (become_leader req) = req.term_id
term_of (add_to_group req) = req.term_id
term_of (group_info_update req) = req.term_id
