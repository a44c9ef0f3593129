-- ===== src/Member/Loop/Invariant.antt =====
-- What holds of a member between two events.
use datom.Common.{ℕ, ℤ, pos, String, ◌≡◌, refl, true, false, Option, List, [], ◌∷◌, arith}
use datom.Member.{
  GroupInfoUpdateMsg, switch_state, follower_syncing, follower_wait_to_join_group, ec_acquire_lock,
  ec_waiting_for_quorum, PbMember, PbMemberState, GetMemberStateRespMsg, is_leader_state, has_ctx,
  ec_election_in_progress,
}
use datom.Member.Peers.Frame.{IsSound, change_peer_state-IsSound}
use datom.Member.Group.{Conv}
use datom.Member.Election.{
  handle_group_watch_event, on_elector_lock, on_term, on_elector_children, on_election_responses,
  on_lock_removed, elect_if_quorum, may_start_election, acquire_lock, watch_in,
}
use datom.Member.Messages.{
  GroupMsg, get_member_state, become_leader, add_to_group, group_info_update, deliver,
  on_leader_lock, handle_group_info_update_msg,
}
use datom.Member.Loop.{
  Event, group_watch, elector_lock_created, term_set, elector_children, election_answers,
  lock_removed, leader_lock_created, message, call_failed, step, run, init,
}

-- The states that handlers switch to outside the leader role.
pub not_leader_states :
    (is_leader_state follower_syncing ≡ false)
    × (is_leader_state follower_wait_to_join_group ≡ false)
    × (is_leader_state ec_acquire_lock ≡ false)
    × (is_leader_state ec_waiting_for_quorum ≡ false)
    × (is_leader_state ec_election_in_progress ≡ false)
unfolding is_leader_state
not_leader_states = (refl, refl, refl, refl, refl)

join_by_sync-IsSound :
    (req : GroupInfoUpdateMsg) (m : PbMember)
    → IsSound m
    → IsSound (handle_group_info_update_msg req m).1
unfolding handle_group_info_update_msg switch_state
join_by_sync-IsSound req m h = ground (arith, not_leader_states)

deliver-IsSound : (msg : GroupMsg) (m : PbMember) → IsSound m → IsSound (deliver msg m).1
unfolding deliver
deliver-IsSound (get_member_state req) m h = ground arith
deliver-IsSound (become_leader req) m h = ground arith
deliver-IsSound (add_to_group req) m h =
    ground (arith, change_peer_state-IsSound req.member_id req.member_version req.member_state m h)
deliver-IsSound (group_info_update req) m h = ground (arith, join_by_sync-IsSound req m h)

elect_if_quorum-IsSound :
    (conv : Conv) (children : List String) (m : PbMember)
    → IsSound m
    → IsSound (elect_if_quorum conv children m).1
unfolding elect_if_quorum switch_state
elect_if_quorum-IsSound conv children m h = ground (arith, not_leader_states)

watch-IsSound :
    (conv : Conv) (now : ℕ) (children : List String) (s : PbMemberState) (m : PbMember)
    → IsSound m
    → IsSound (watch_in conv s now children m).1
unfolding may_start_election elect_if_quorum acquire_lock
watch-IsSound conv now children follower_wait_to_join_group m h = ground (arith, not_leader_states)
watch-IsSound conv now children ec_waiting_for_quorum m h = ground (arith, not_leader_states)
watch-IsSound conv now children _ m h = h

handle_group_watch_event-IsSound :
    (conv : Conv) (now : ℕ) (children : List String) (m : PbMember)
    → IsSound m
    → IsSound (handle_group_watch_event conv now children m).1
unfolding handle_group_watch_event
handle_group_watch_event-IsSound conv now children m h = watch-IsSound conv now children m.state m h

on_term-IsSound :
    (term : ℤ) (m : PbMember)
    → IsSound m
    → IsSound (on_term term m).1 × IsSound (on_elector_lock m).1
unfolding on_term on_elector_lock
on_term-IsSound term m h = ground arith

on_elector_children-IsSound :
    (conv : Conv) (children : List String) (m : PbMember)
    → IsSound m
    → IsSound (on_elector_children conv children m).1
unfolding on_elector_children
on_elector_children-IsSound conv children m h = ground (arith, not_leader_states)

on_election_responses-IsSound :
    (now : ℕ) (tries : List (Option GetMemberStateRespMsg)) (m : PbMember)
    → IsSound m
    → IsSound (on_election_responses now tries m).1
unfolding on_election_responses
on_election_responses-IsSound now tries m h = ground (arith, not_leader_states)

on_lock_removed-IsSound :
    (members : List GetMemberStateRespMsg) (m : PbMember)
    → IsSound m
    → IsSound (on_lock_removed members m).1
unfolding on_lock_removed
on_lock_removed-IsSound [] m h = h
on_lock_removed-IsSound (r ∷ rs) m h = ground (arith, not_leader_states)

on_leader_lock-IsSound :
    (members : List GetMemberStateRespMsg) (m : PbMember)
    → IsSound m
    → IsSound (on_leader_lock members m).1
unfolding on_leader_lock
on_leader_lock-IsSound members m h = ground arith

step-IsSound : (conv : Conv) (e : Event) (m : PbMember) → IsSound m → IsSound (step conv e m).1
unfolding step
step-IsSound conv (group_watch now children) m h =
    handle_group_watch_event-IsSound conv now children m h
step-IsSound conv elector_lock_created m h = (on_term-IsSound (pos 0) m h).1
step-IsSound conv (term_set term) m h = (on_term-IsSound term m h).0
step-IsSound conv (elector_children children) m h = on_elector_children-IsSound conv children m h
step-IsSound conv (election_answers now tries) m h =
    ground (arith, on_election_responses-IsSound now tries m h)
step-IsSound conv (lock_removed members) m h = on_lock_removed-IsSound members m h
step-IsSound conv (leader_lock_created members) m h = on_leader_lock-IsSound members m h
step-IsSound conv (message msg) m h = ground (arith, deliver-IsSound msg m h)
step-IsSound conv call_failed m h = h

run-IsSound : (conv : Conv) (es : List Event) (m : PbMember) → IsSound m → IsSound (run conv es m)
unfolding run
run-IsSound conv [] m h = h
run-IsSound conv (e ∷ es) m h = run-IsSound conv es (step conv e m).1 (step-IsSound conv e m h)

init-IsSound : (m : PbMember) → IsSound (init m).1
unfolding init is_leader_state
init-IsSound m h = absurd (cc)

-- After `init` and any events in any order, a member in a leader state has a leader context: the
-- pointer that changePeerState_, getPeerRef_ and getWritablePeers_ read is not null.
pub run_leader_has_ctx :
    (conv : Conv) (es : List Event) (m : PbMember)
    → is_leader_state (run conv es (init m).1).state ≡ true
    → has_ctx (run conv es (init m).1).leader_ctx ≡ true
run_leader_has_ctx conv es m h = run-IsSound conv es (init m).1 (init-IsSound m) h
