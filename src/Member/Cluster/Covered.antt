-- ===== src/Member/Cluster/Covered.antt =====
-- A member whose session has not expired is in a state that takes the lock only between the create of
-- its lock and the request to delete it.
use datom.Common.{
  ℕ, String, Bool, true, false, ◌&&◌, not, ◌||◌, ◌≡◌, ◌≢◌, refl, sym, ap, ◌∙◌, Option, none, some,
  List, [], ◌∷◌, arith,
}
use datom.Exec.{aborted}
use datom.Member.{
  PbMember, PbMemberState, GroupInfoUpdateMsg, AddToGroupMsg, GetMemberStateRespMsg,
  is_leader_state, same_state, switch_state, throw_ifnot_leader, throw_if_invalid_term,
  follower_syncing, follower_wait_to_join_group, ec_acquire_lock, ec_waiting_for_quorum,
  ec_election_in_progress,
}
use datom.Member.Group.{Conv, has_lock}
use datom.Member.Election.{
  handle_group_watch_event, may_start_election, acquire_lock, watch_in, on_lock_removed, elected,
  group_responses, on_election_responses, handle_election_response, remove_lock, elect_if_quorum,
}
use datom.Member.Messages.{
  GroupMsg, get_member_state, become_leader, add_to_group, group_info_update, deliver,
  handle_group_info_update_msg, handle_add_to_group_msg,
}
use datom.Member.Loop.{
  Event, group_watch, elector_lock_created, term_set, elector_children, election_answers,
  lock_removed, leader_lock_created, message, call_failed, init, step,
}
use datom.Member.Cluster.{has_it, Node, CanGet, asks_delete, found_members, after, fresh}

-- The states that a member is in only while it holds the lock and has not asked for its delete.
abbrev pub needs_lock : PbMemberState → Bool
unfolding is_leader_state
needs_lock s = is_leader_state s || same_state s ec_waiting_for_quorum

abbrev pub NeedsNone : PbMember → Type 0
NeedsNone m = needs_lock m.state ≡ false

abbrev pub IsCovered : Node → Type 0
IsCovered n = has_it n ≡ false → NeedsNone n.member

free_states : (needs_lock follower_syncing ≡ false) × (needs_lock ec_acquire_lock ≡ false)
unfolding needs_lock
free_states = (refl, refl)

pub not_leading : (s : PbMemberState) → needs_lock s ≡ false → is_leader_state s ≡ false
unfolding needs_lock
not_leading s h = ground arith

group_info_keeps :
    (req : GroupInfoUpdateMsg) (m : PbMember)
    → NeedsNone m
    → NeedsNone (handle_group_info_update_msg req m).1
unfolding handle_group_info_update_msg switch_state
group_info_keeps req m h = ground (arith, free_states)

add_to_group_keeps :
    (req : AddToGroupMsg) (m : PbMember) → NeedsNone m → NeedsNone (deliver (add_to_group req) m).1
unfolding deliver handle_add_to_group_msg throw_ifnot_leader throw_if_invalid_term
add_to_group_keeps req m h = ground (arith, not_leading m.state h)

message_keeps :
    (conv : Conv) (msg : GroupMsg) (m : PbMember)
    → NeedsNone m
    → NeedsNone (step conv (message msg) m).1
unfolding step deliver
message_keeps conv (get_member_state req) m h = ground arith
message_keeps conv (become_leader req) m h = ground arith
message_keeps conv (add_to_group req) m h = ground (arith, add_to_group_keeps req m h)
message_keeps conv (group_info_update req) m h = ground (arith, group_info_keeps req m h)

watch_keeps :
    (conv : Conv) (now : ℕ) (children : List String) (s : PbMemberState) (m : PbMember)
    → m.state ≡ s
    → NeedsNone m
    → NeedsNone (watch_in conv s now children m).1
unfolding may_start_election elect_if_quorum acquire_lock switch_state has_lock is_leader_state
watch_keeps conv now children follower_wait_to_join_group m e h = ground (arith, free_states)
watch_keeps conv now children ec_waiting_for_quorum m e h =
    absurd (clash (sym (ap needs_lock e) ∙ h))
  where
    clash : true ≡ false → ⊥
    clash q = cc
watch_keeps conv now children _ m e h = h

removed_keeps :
    (members : List GetMemberStateRespMsg) (m : PbMember)
    → NeedsNone m
    → NeedsNone (on_lock_removed members m).1
unfolding on_lock_removed switch_state needs_lock
removed_keeps [] m h = h
removed_keeps (r ∷ rs) m h = refl

electing_needs_none :
    (s : PbMemberState) → same_state s ec_election_in_progress ≡ true → needs_lock s ≡ false
unfolding needs_lock
electing_needs_none s h = ground arith

-- A delete is asked for in an election only.
asks_in_election :
    (conv : Conv) (now : ℕ) (tries : List (Option GetMemberStateRespMsg)) (m : PbMember)
    → found_members (elected m.quorum (group_responses tries [])) ≡ true
    → (step conv (election_answers now tries) m).0 ≢ aborted
    → NeedsNone (step conv (election_answers now tries) m).1
unfolding step on_election_responses handle_election_response remove_lock
asks_in_election conv now tries m f r = go (elected m.quorum (group_responses tries [])) refl
  where
    go :
        (found : Option (List GetMemberStateRespMsg))
        → elected m.quorum (group_responses tries []) ≡ found
        → NeedsNone (step conv (election_answers now tries) m).1
    go none e = absurd (clash (sym (ap found_members e) ∙ f))
      where
        clash : false ≡ true → ⊥
        clash q = cc
    go (some members) e = ground (arith, electing_needs_none m.state)

drop_false : (x h d : Bool) → x || h && not (d || false) ≡ false → x || h && not d ≡ false
drop_false x h d p = ground arith

drop_true : (x h d : Bool) → x || h && not d ≡ true → x || h && not (d || false) ≡ false → ⊥
drop_true x h d p q = clash (sym (drop_false x h d q) ∙ p)
  where
    clash : false ≡ true → ⊥
    clash e = cc

pub step_keeps :
    (conv : Conv) (e : Event) (n : Node)
    → CanGet e n
    → (step conv e n.member).0 ≢ aborted
    → IsCovered n
    → IsCovered (after e (step conv e n.member).1 n)
unfolding step handle_group_watch_event asks_delete
step_keeps conv (group_watch now children) n g r h q =
    watch_keeps conv now children n.member.state n.member refl
      (h (drop_false n.expired n.holding n.deleting q))
step_keeps conv elector_lock_created n g r h q =
    absurd (drop_true n.expired n.holding n.deleting g q)
step_keeps conv (term_set term) n g r h q = absurd (drop_true n.expired n.holding n.deleting g q)
step_keeps conv (elector_children children) n g r h q =
    absurd (drop_true n.expired n.holding n.deleting g q)
step_keeps conv (election_answers now tries) n g r h q =
    go (found_members (elected n.member.quorum (group_responses tries []))) refl
  where
    go :
        (b : Bool)
        → found_members (elected n.member.quorum (group_responses tries [])) ≡ b
        → NeedsNone (step conv (election_answers now tries) n.member).1
    go true f = asks_in_election conv now tries n.member f r
    go false f = absurd (
        drop_true n.expired n.holding n.deleting g
          (sym (ap (λ b. n.expired || n.holding && not (n.deleting || b)) f) ∙ q))
step_keeps conv (lock_removed members) n g r h q =
    removed_keeps members n.member (h (drop_false n.expired n.holding n.deleting q))
step_keeps conv (leader_lock_created members) n g r h q =
    absurd (drop_true n.expired n.holding n.deleting g q)
step_keeps conv (message msg) n g r h q =
    message_keeps conv msg n.member (h (drop_false n.expired n.holding n.deleting q))
step_keeps conv call_failed n g r h q = absurd g

pub fresh-IsCovered : (m : PbMember) → IsCovered (fresh m)
unfolding init needs_lock is_leader_state fresh
fresh-IsCovered m q = refl

pub granted-IsCovered : (n : Node) → IsCovered n → IsCovered (record n { holding = true })
granted-IsCovered n h q = h (weaken n.expired n.holding n.deleting q)
  where
    weaken : (x b d : Bool) → x || true && not d ≡ false → x || b && not d ≡ false
    weaken x b d e = ground arith

pub deleted-IsCovered :
    (n : Node)
    → n.holding && n.deleting ≡ true
    → IsCovered n
    → IsCovered (record n { holding = false; deleting = false })
deleted-IsCovered n asked h q = h (asked_to n.expired n.holding n.deleting asked q)
  where
    asked_to :
        (x b d : Bool) → b && d ≡ true → x || false && not false ≡ false → x || b && not d ≡ false
    asked_to x b d e f = ground arith

pub expired-IsCovered :
    (n : Node) → IsCovered (record n { holding = false; deleting = false; expired = true })
expired-IsCovered n q = absurd (clash q)
  where
    clash : true ≡ false → ⊥
    clash e = cc
