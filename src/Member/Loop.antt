-- ===== src/Member/Loop.antt =====
-- A member's event loop: every event that reaches it, in any order. The answers of the coordination
-- service and of peers are events too, and an answer may come at any time.
pub mod Invariant
pub mod Leading
pub mod Told
pub mod Frame
use datom.Common.{ℕ, ltb, if◌then◌else◌, ℤ, String, Bool, Option, none, some, List, [], ◌∷◌}
use datom.Exec.{Outcome, returned, thrown, aborted, ◌>>◌, ◌>>=◌, pure}
use datom.Member.{
  PbMember, Action, GetMemberStateRespMsg, switch_state, follower_functional, uninitialized,
  invalid_value, follower_wait_to_join_group, send, register_watch, create_member_root,
}
use datom.Member.Group.{Conv}
use datom.Member.Election.{
  handle_group_watch_event, on_elector_lock, on_term, on_elector_children, on_election_responses,
  on_lock_removed, handle_error,
}
use datom.Member.Messages.{GroupMsg, GroupReply, deliver, on_leader_lock}

-- The constructor. It leaves version_ and opId_ as they are in memory: `version` and `op_id`.
unfoldable pub new_member : ℤ → String → List String → String → ℕ → ℤ → ℤ → Outcome PbMember
new_member resource_id group_key members my_id quorum version op_id =
    if ltb 0 quorum
    then returned (record {
      resource_id = resource_id;
      group_key = group_key;
      member_ids = members;
      my_id = my_id;
      leader_id = "";
      quorum = quorum;
      state = uninitialized;
      version = version;
      term_id = invalid_value;
      last_election_timepoint = 0;
      op_id = op_id;
      commit_id = invalid_value;
      leader_ctx = none;
      sent = [];
    })
    else aborted

-- `init`: the first state, the watch and the member's own node.
unfoldable pub init : Action (Unit {0})
unfolding switch_state
init m =
    (do
      switch_state follower_wait_to_join_group
      send (register_watch m.group_key)
      send (create_member_root m.group_key m.my_id))
      m

pub data Event : Type 0 where
  -- watchCb_: the clock and the children of the group key
  group_watch : ℕ → List String → Event
  elector_lock_created : Event
  term_set : ℤ → Event
  elector_children : List String → Event
  election_answers : ℕ → List (Option GetMemberStateRespMsg) → Event
  lock_removed : List GetMemberStateRespMsg → Event
  leader_lock_created : List GetMemberStateRespMsg → Event
  message : GroupMsg → Event
  -- an onError clause, of any of the above
  call_failed : Event

abbrev ignore {ℓ} : {A : Type ℓ} → Outcome A × PbMember → Outcome (Unit {0}) × PbMember
ignore (returned a, m) = (returned tt, m)
ignore (thrown e, m) = (thrown e, m)
ignore (aborted, m) = (aborted, m)

unfoldable pub step : Conv → Event → Action (Unit {0})
unfolding handle_error
step conv (group_watch now children) m = handle_group_watch_event conv now children m
step conv elector_lock_created m = on_elector_lock m
step conv (term_set term) m = on_term term m
step conv (elector_children children) m = on_elector_children conv children m
step conv (election_answers now tries) m = ignore (on_election_responses now tries m)
step conv (lock_removed members) m = on_lock_removed members m
step conv (leader_lock_created members) m = on_leader_lock members m
step conv (message msg) m = ignore (deliver msg m)
step conv call_failed m = handle_error m

-- The member after a sequence of events; it is gone after an abort.
unfoldable pub run : Conv → List Event → PbMember → PbMember
run conv [] m = m
run conv (e ∷ es) m = run conv es (step conv e m).1
