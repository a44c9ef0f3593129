-- ===== src/Member/Loop/Leading.antt =====
-- A member leads only by the leader lock.
use datom.Common.{
  ℕ, ℤ, pos, String, ◌≡◌, refl, sym, ap, ◌∙◌, inl, inr, Bool-cases, true, false, Option, List, [],
  ◌∷◌, ◌++◌, arith, ◌⊎◌,
}
use datom.Member.{
  GroupInfoUpdateMsg, switch_state, throw_ifnot_leader, throw_if_invalid_term, PbMember,
  PbMemberState, GetMemberStateRespMsg, is_leader_state, follower_wait_to_join_group,
  ec_waiting_for_quorum, AddToGroupMsg,
}
use datom.Member.Group.{Conv}
use datom.Member.Election.{
  handle_group_watch_event, on_elector_lock, on_term, on_elector_children, on_election_responses,
  on_lock_removed, elect_if_quorum, may_start_election, acquire_lock, watch_in,
}
use datom.Member.Messages.{
  GroupMsg, get_member_state, become_leader, add_to_group, group_info_update, deliver,
  on_leader_lock, handle_group_info_update_msg, handle_add_to_group_msg, leads_group,
}
use datom.Member.Loop.{
  Event, group_watch, elector_lock_created, term_set, elector_children, election_answers,
  lock_removed, leader_lock_created, message, call_failed, step, run, init,
}
use datom.Member.Loop.Invariant.{not_leader_states}

abbrev pub NotLeading : PbMember → Type 0
NotLeading m = is_leader_state m.state ≡ false

join_by_sync-NotLeading :
    (req : GroupInfoUpdateMsg) (m : PbMember)
    → NotLeading m
    → NotLeading (handle_group_info_update_msg req m).1
unfolding handle_group_info_update_msg switch_state
join_by_sync-NotLeading req m h = ground (arith, not_leader_states)

add_to_group_refused :
    (req : AddToGroupMsg) (m : PbMember)
    → NotLeading m
    → NotLeading (deliver (add_to_group req) m).1
unfolding deliver handle_add_to_group_msg throw_ifnot_leader throw_if_invalid_term
add_to_group_refused req m h = ground arith

deliver-NotLeading : (msg : GroupMsg) (m : PbMember) → NotLeading m → NotLeading (deliver msg m).1
unfolding deliver
deliver-NotLeading (get_member_state req) m h = ground arith
deliver-NotLeading (become_leader req) m h = ground arith
deliver-NotLeading (add_to_group req) m h = add_to_group_refused req m h
deliver-NotLeading (group_info_update req) m h = ground (arith, join_by_sync-NotLeading req m h)

elect_if_quorum-NotLeading :
    (conv : Conv) (children : List String) (m : PbMember)
    → NotLeading m
    → NotLeading (elect_if_quorum conv children m).1
unfolding elect_if_quorum switch_state
elect_if_quorum-NotLeading conv children m h = ground (arith, not_leader_states)

watch-NotLeading :
    (conv : Conv) (now : ℕ) (children : List String) (s : PbMemberState) (m : PbMember)
    → NotLeading m
    → NotLeading (watch_in conv s now children m).1
unfolding may_start_election elect_if_quorum acquire_lock
watch-NotLeading conv now children follower_wait_to_join_group m h =
    ground (arith, not_leader_states)
watch-NotLeading conv now children ec_waiting_for_quorum m h = ground (arith, not_leader_states)
watch-NotLeading conv now children _ m h = h

handle_group_watch_event-NotLeading :
    (conv : Conv) (now : ℕ) (children : List String) (m : PbMember)
    → NotLeading m
    → NotLeading (handle_group_watch_event conv now children m).1
unfolding handle_group_watch_event
handle_group_watch_event-NotLeading conv now children m h =
    watch-NotLeading conv now children m.state m h

on_term-NotLeading :
    (term : ℤ) (m : PbMember)
    → NotLeading m
    → NotLeading (on_term term m).1 × NotLeading (on_elector_lock m).1
unfolding on_term on_elector_lock
on_term-NotLeading term m h = ground arith

on_elector_children-NotLeading :
    (conv : Conv) (children : List String) (m : PbMember)
    → NotLeading m
    → NotLeading (on_elector_children conv children m).1
unfolding on_elector_children
on_elector_children-NotLeading conv children m h = ground (arith, not_leader_states)

on_election_responses-NotLeading :
    (now : ℕ) (tries : List (Option GetMemberStateRespMsg)) (m : PbMember)
    → NotLeading m
    → NotLeading (on_election_responses now tries m).1
unfolding on_election_responses
on_election_responses-NotLeading now tries m h = ground (arith, not_leader_states)

on_lock_removed-NotLeading :
    (members : List GetMemberStateRespMsg) (m : PbMember)
    → NotLeading m
    → NotLeading (on_lock_removed members m).1
unfolding on_lock_removed
on_lock_removed-NotLeading [] m h = h
on_lock_removed-NotLeading (r ∷ rs) m h = ground (arith, not_leader_states)

-- The event is an answer to the create of the leader lock that the member accepts.
abbrev IsGrant : Event → PbMember → Type 0
IsGrant e m =
    (functional : List GetMemberStateRespMsg) × (e ≡ leader_lock_created functional)
    × (leads_group functional m ≡ true)

granted_or_not :
    (functional : List GetMemberStateRespMsg) (m : PbMember)
    → NotLeading m
    → (leads_group functional m ≡ true) ⊎ NotLeading (on_leader_lock functional m).1
unfolding on_leader_lock
granted_or_not functional m h = elim (Bool-cases (leads_group functional m)) [
  | inl e ↦ inl e
  | inr e ↦ inr (rw e h)
]

-- The member was granted the leader lock in the course of the events, with functional members of which
-- the first had its id and its commit id.
abbrev pub IsGranted : Conv → List Event → PbMember → Type 0
IsGranted conv es m =
    (before : List Event) × (after : List Event) × (functional : List GetMemberStateRespMsg) × (es
      ≡ before ++ leader_lock_created functional ∷ after)
    × (leads_group functional (run conv before m) ≡ true)

step-NotLeading :
    (conv : Conv) (e : Event) (m : PbMember)
    → NotLeading m
    → IsGrant e m ⊎ NotLeading (step conv e m).1
unfolding step
step-NotLeading conv (group_watch now children) m h =
    inr (handle_group_watch_event-NotLeading conv now children m h)
step-NotLeading conv elector_lock_created m h = inr (on_term-NotLeading (pos 0) m h).1
step-NotLeading conv (term_set term) m h = inr (on_term-NotLeading term m h).0
step-NotLeading conv (elector_children children) m h =
    inr (on_elector_children-NotLeading conv children m h)
step-NotLeading conv (election_answers now tries) m h =
    inr (ground (arith, on_election_responses-NotLeading now tries m h))
step-NotLeading conv (lock_removed members) m h = inr (on_lock_removed-NotLeading members m h)
step-NotLeading conv (leader_lock_created functional) m h = elim (granted_or_not functional m h) [
  | inl e ↦ inl (functional, refl, e)
  | inr n ↦ inr n
]
step-NotLeading conv (message msg) m h = inr (ground (arith, deliver-NotLeading msg m h))
step-NotLeading conv call_failed m h = inr h

run-NotLeading :
    (conv : Conv) (es : List Event) (m : PbMember)
    → NotLeading m
    → IsGranted conv es m ⊎ NotLeading (run conv es m)
unfolding run
run-NotLeading conv [] m h = inr h
run-NotLeading conv (e ∷ es) m h =
    go (step-NotLeading conv e m h) (run-NotLeading conv es (step conv e m).1)
  where
    later :
        IsGranted conv es (step conv e m).1 ⊎ NotLeading (run conv es (step conv e m).1)
        → IsGranted conv (e ∷ es) m ⊎ NotLeading (run conv es (step conv e m).1)
    later (inl (before, after, functional, p, l)) =
        inl (e ∷ before, after, functional, ap (◌∷◌ e) p, l)
    later (inr n) = inr n

    go :
        IsGrant e m ⊎ NotLeading (step conv e m).1
        → (NotLeading (step conv e m).1
            → IsGranted conv es (step conv e m).1 ⊎ NotLeading (run conv es (step conv e m).1))
        → IsGranted conv (e ∷ es) m ⊎ NotLeading (run conv es (step conv e m).1)
    go (inl (functional, p, l)) rest = inl ([], es, functional, ap (λ x. x ∷ es) p, l)
    go (inr n) rest = later (rest n)

init-NotLeading : (m : PbMember) → NotLeading (init m).1
unfolding init is_leader_state
init-NotLeading m = refl

-- A member that is in a leader state after `init` and any events in any order was granted the leader
-- lock in their course, with functional members of which the first had its id and the commit id that
-- it had at that time.
pub leads-IsGranted :
    (conv : Conv) (es : List Event) (m : PbMember)
    → is_leader_state (run conv es (init m).1).state ≡ true
    → IsGranted conv es (init m).1
leads-IsGranted conv es m h = elim (run-NotLeading conv es (init m).1 (init-NotLeading m)) [
  | inl g ↦ g
  | inr n ↦ absurd (clash (sym n ∙ h))
]
  where
    clash : false ≡ true → ⊥
    clash e = cc
