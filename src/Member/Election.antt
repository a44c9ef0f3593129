-- ===== src/Member/Election.antt =====
-- The elector: handleGroupWatchEvent with its continuations, issueElectionRequest_,
-- handleElectionResponse and sendBecomeLeaderMsg_ of src/infra/PBMember.cpp. Each `then` that waits
-- for the coordination service or for peers is a function of its own, run when the answer comes.
pub mod Responses
use datom.Common.{
  ℕ, ℤ, String, Bool, true, false, not, ◌&&◌, Option, none, some, List, [], ◌∷◌, ◌++◌, map, leb,
  ltb_ℤ, eqb_ℤ, length, if◌then◌else◌,
}
use datom.Exec.{
  Exec, Outcome, returned, thrown, aborted, pure, throw_exception, abort, check, modify, gets,
  ◌>>=◌, ◌>>◌,
}
use datom.Status.{other}
use datom.Member.{
  PbMember, PbMemberState, Action, GetMemberStateMsg, GetMemberStateRespMsg, BecomeLeaderMsg,
  Request, same_state, send, switch_state, create_lock, delete_lock, set_group_key, get_children,
  send_get_member_state, send_become_leader, run_after_delay, follower_wait_to_join_group,
  follower_functional, ec_acquire_lock, ec_waiting_for_quorum, ec_election_in_progress,
}
use datom.Member.Group.{
  Conv, has_lock, can_i_be_elector, has_quorum_member_count, groupwatch_interval_ms,
}

-- An Option test that may have thrown.
abbrev pub try_test : Option Bool → Action Bool
try_test none = throw_exception other
try_test (some b) = pure b

abbrev pub in_state : PbMemberState → Action (Unit {0})
in_state s m = check (same_state m.state s) m

abbrev pub lock_type_elector : String
lock_type_elector = "elector"

abbrev group_type_volumes : String
group_type_volumes = "volumes"

unfoldable pub acquire_lock : String → Action (Unit {0})
acquire_lock lock_type m = send (create_lock m.group_key lock_type) m

unfoldable pub remove_lock : Action (Unit {0})
remove_lock m = send (delete_lock m.group_key) m

unfoldable pub increase_term : Action (Unit {0})
increase_term m = send (set_group_key m.group_key) m

abbrev pub state_msg : PbMember → GetMemberStateMsg
state_msg m = record {
  group_type = group_type_volumes;
  resource_id = m.resource_id;
  term_id = m.term_id;
}

-- One message to each member of the group, itself included.
unfoldable pub issue_election_request : Action (Unit {0})
issue_election_request m = (
  returned tt,
  record m { sent = m.sent ++ map (λ id. send_get_member_state id (state_msg m)) m.member_ids },
)

unfoldable pub schedule_group_watch_event : Action (Unit {0})
schedule_group_watch_event = send (run_after_delay groupwatch_interval_ms)

-- .then after acquireLock_
unfoldable pub on_elector_lock : Action (Unit {0})
unfolding increase_term
on_elector_lock = in_state ec_acquire_lock >> increase_term

-- .then after increaseTerm_
unfoldable pub on_term : ℤ → Action (Unit {0})
on_term term m =
    (do
      in_state ec_acquire_lock
      modify (λ n. record n { term_id = term })
      send (get_children m.group_key))
      m

module _ (conv : Conv) where
  -- `quorum met`, in both places that issue the request.
  unfoldable pub elect_if_quorum : List String → Action (Unit {0})
  unfolding has_quorum_member_count switch_state issue_election_request
  elect_if_quorum children m =
      (do
        met ← try_test (has_quorum_member_count conv children m)
        if met then (switch_state ec_election_in_progress >> issue_election_request) else pure tt)
        m

  -- !hasLock_(children) && canIBeElector_(children)
  unfoldable pub may_start_election : ℕ → List String → PbMember → Option Bool
  unfolding has_lock can_i_be_elector
  may_start_election now children m =
      if has_lock children then some false else can_i_be_elector conv now children m

  abbrev watch_waiting : ℕ → List String → Action (Unit {0})
  unfolding may_start_election switch_state acquire_lock
  watch_waiting now children m =
      (do
        start ← try_test (may_start_election now children m)
        if start then (switch_state ec_acquire_lock >> acquire_lock lock_type_elector) else pure tt)
        m

  abbrev pub watch_in : PbMemberState → ℕ → List String → Action (Unit {0})
  unfolding may_start_election switch_state acquire_lock elect_if_quorum has_lock
  watch_in follower_wait_to_join_group now children = watch_waiting now children
  watch_in ec_waiting_for_quorum now children =
      check (has_lock children) >> elect_if_quorum children
  watch_in _ now children = pure tt

  -- The switch on the state.
  unfoldable pub handle_group_watch_event : ℕ → List String → Action (Unit {0})
  unfolding may_start_election acquire_lock elect_if_quorum
  handle_group_watch_event now children m = watch_in m.state now children m

  -- .then after getChildrenSimple
  unfoldable pub on_elector_children : List String → Action (Unit {0})
  unfolding has_lock switch_state elect_if_quorum
  on_elector_children children = do
    in_state ec_acquire_lock
    check (has_lock children)
    switch_state ec_waiting_for_quorum
    elect_if_quorum children

-- handleError_ is CHECK(!"Unimplemented").
unfoldable pub handle_error : Action (Unit {0})
handle_error = abort

-- values[memberResp.commitId].push_back(memberResp), on a std::map in the order of its keys.
unfoldable pub add_response :
    GetMemberStateRespMsg
    → List (ℤ × List GetMemberStateRespMsg)
    → List (ℤ × List GetMemberStateRespMsg)
add_response r [] = (r.commit_id, r ∷ []) ∷ []
add_response r ((k, rs) ∷ values) =
    let rest = add_response r values in
    if ltb_ℤ r.commit_id k
    then (r.commit_id, r ∷ []) ∷ (k, rs) ∷ values
    else if eqb_ℤ r.commit_id k
    then (k, rs ++ r ∷ []) ∷ values
    else (k, rs) ∷ rest

-- The loop over the tries; `none` is a peer that answered with an exception.
unfoldable pub group_responses :
    List (Option GetMemberStateRespMsg)
    → List (ℤ × List GetMemberStateRespMsg)
    → List (ℤ × List GetMemberStateRespMsg)
group_responses [] values = values
group_responses (none ∷ tries) values = group_responses tries values
group_responses (some r ∷ tries) values = group_responses tries (add_response r values)

-- values.size() > 0 && values.begin()->second.size() >= quorum_; the members, if so.
unfoldable pub elected :
    ℕ → List (ℤ × List GetMemberStateRespMsg) → Option (List GetMemberStateRespMsg)
elected quorum [] = none
elected quorum ((k, rs) ∷ values) = if leb quorum (length rs) then some rs else none

abbrev after_election :
    ℕ → Option (List GetMemberStateRespMsg) → Action (Option (List GetMemberStateRespMsg))
unfolding remove_lock switch_state
after_election now (some members) = do
  modify (λ n. record n { last_election_timepoint = now })
  remove_lock
  pure (some members)
after_election now none = do switch_state ec_waiting_for_quorum; pure none

-- Returns the members that the continuation of removeLock_ captures.
unfoldable pub handle_election_response :
    ℕ → List (ℤ × List GetMemberStateRespMsg) → Action (Option (List GetMemberStateRespMsg))
unfolding elected remove_lock switch_state
handle_election_response now values m =
    (in_state ec_election_in_progress >> after_election now (elected m.quorum values)) m

-- .then after collectAll
unfoldable pub on_election_responses :
    ℕ → List (Option GetMemberStateRespMsg) → Action (Option (List GetMemberStateRespMsg))
unfolding handle_election_response group_responses
on_election_responses now tries = handle_election_response now (group_responses tries [])

abbrev pub mark_functional : GetMemberStateRespMsg → GetMemberStateRespMsg
mark_functional r = record r { state = follower_functional }

abbrev pub become_leader_msg : PbMember → List GetMemberStateRespMsg → BecomeLeaderMsg
become_leader_msg m rs = record {
  resource_id = m.resource_id;
  term_id = m.term_id;
  functional_members = rs;
}

-- functionalMembers[0] of an empty vector is undefined.
unfoldable pub send_become_leader_msg : List GetMemberStateRespMsg → Action (Unit {0})
unfolding schedule_group_watch_event
send_become_leader_msg [] m = abort m
send_become_leader_msg (r ∷ rs) m =
    (send (send_become_leader r.id (become_leader_msg m (r ∷ rs))) >> schedule_group_watch_event) m

-- .then after removeLock_
unfoldable pub on_lock_removed : List GetMemberStateRespMsg → Action (Unit {0})
unfolding switch_state send_become_leader_msg
on_lock_removed [] = abort
on_lock_removed (r ∷ rs) =
    switch_state follower_wait_to_join_group
    >> send_become_leader_msg (map mark_functional (r ∷ rs))
