-- ===== src/Member/Loop/Frame.antt =====
-- What the events of a member leave alone: its commit id, and of what it has sent the reads that set a
-- watch, and the scheduled calls beside the BecomeLeaderMsg that they follow.
use datom.Common.{ℕ, ℤ, ◌+◌, ◌≤◌, String, ◌≡◌, refl, ◌∙◌, Option, List, [], ◌∷◌, ◌++◌, map, arith}
use datom.Member.{
  PbMember, PbMemberState, Request, register_watch, create_lock, delete_lock, set_group_key,
  get_children, send_get_member_state, send_become_leader, run_after_delay, run_sync_protocol,
  GetMemberStateMsg, GetMemberStateRespMsg, BecomeLeaderMsg, switch_state,
  follower_wait_to_join_group, ec_waiting_for_quorum,
}
use datom.Member.Peers.Frame.{change_peer_state-SameBut}
use datom.Member.Group.{Conv, has_lock, groupwatch_interval_ms}
use datom.Member.Election.{
  handle_group_watch_event, on_elector_lock, on_term, on_elector_children, on_election_responses,
  on_lock_removed, elect_if_quorum, may_start_election, acquire_lock, watch_in, increase_term,
  issue_election_request, state_msg, lock_type_elector, send_become_leader_msg, remove_lock,
  handle_election_response, become_leader_msg, mark_functional, schedule_group_watch_event,
}
use datom.Member.Messages.{
  GroupMsg, get_member_state, become_leader, add_to_group, group_info_update, deliver,
  on_leader_lock, handle_group_info_update_msg, handle_become_leader_msg, lock_type_leader,
}
use datom.Member.Loop.{
  Event, group_watch, elector_lock_created, term_set, elector_children, election_answers,
  lock_removed, leader_lock_created, message, call_failed, step, run,
}

abbrev count : (Request → ℕ) → List Request → ℕ
count w [] = 0
count w (r ∷ rs) = w r + count w rs

abbrev of_read : Request → ℕ
of_read (register_watch key) = 1
of_read _ = 0

abbrev of_delay : Request → ℕ
of_delay (run_after_delay ms) = 1
of_delay _ = 0

abbrev of_lead : Request → ℕ
of_lead (send_become_leader id msg) = 1
of_lead _ = 0

-- The reads that name a watcher, the calls of runAfterDelay, and the BecomeLeaderMsg sent.
abbrev pub count_reads : List Request → ℕ
count_reads = count of_read

abbrev pub count_delays : List Request → ℕ
count_delays = count of_delay

abbrev pub count_leads : List Request → ℕ
count_leads = count of_lead

count-append :
    (w : Request → ℕ) (xs ys : List Request) → count w (xs ++ ys) ≡ count w xs + count w ys
count-append w [] ys = omega arith
count-append w (x ∷ xs) ys = omega (arith, count-append w xs ys)

-- No read with a watch more, and as many scheduled calls more as messages to lead.
pub record IsEven (xs ys : List Request) : Type 0 where
  pub reads : count_reads ys ≡ count_reads xs
  pub delays : count_delays ys + count_leads xs ≡ count_leads ys + count_delays xs
  pub grown : count_delays xs ≤ count_delays ys

IsEven-refl : (xs : List Request) → IsEven xs xs
IsEven-refl xs = record { reads = refl; delays = omega arith; grown = omega arith }

IsEven-append : (xs ys : List Request) → IsEven [] ys → IsEven xs (xs ++ ys)
IsEven-append xs ys h = record {
  reads = omega (arith, count-append of_read xs ys, h.reads);
  delays = omega (arith, count-append of_delay xs ys, count-append of_lead xs ys, h.delays);
  grown = omega (arith, count-append of_delay xs ys);
}

elections_IsEven :
    (msg : GetMemberStateMsg) (ids : List String)
    → IsEven [] (map (λ id. send_get_member_state id msg) ids)
elections_IsEven msg [] = IsEven-refl []
elections_IsEven msg (id ∷ ids) =
    let h = elections_IsEven msg ids in
    record { reads = omega (arith, h.reads); delays = omega (arith, h.delays); grown = omega arith }

pub record IsFramed (m n : PbMember) : Type 0 where
  pub commit_id : n.commit_id ≡ m.commit_id
  pub sent : IsEven m.sent n.sent

-- One more request of another kind.
other :
    (xs : List Request) (r : Request)
    → of_read r ≡ 0
    → of_delay r ≡ of_lead r
    → IsEven xs (xs ++ r ∷ [])
other xs r h k =
    IsEven-append xs (r ∷ [])
      (record { reads = omega (arith, h); delays = omega (arith, k); grown = omega arith })

on_elector_lock-IsFramed : (m : PbMember) → IsFramed m (on_elector_lock m).1
unfolding on_elector_lock increase_term
on_elector_lock-IsFramed m =
    ground (arith, IsEven-refl m.sent, other m.sent (set_group_key m.group_key) refl refl)

on_term-IsFramed : (term : ℤ) (m : PbMember) → IsFramed m (on_term term m).1
unfolding on_term
on_term-IsFramed term m =
    ground (arith, IsEven-refl m.sent, other m.sent (get_children m.group_key) refl refl)

elect_if_quorum-IsFramed :
    (conv : Conv) (children : List String) (m : PbMember)
    → IsFramed m (elect_if_quorum conv children m).1
unfolding elect_if_quorum switch_state issue_election_request
elect_if_quorum-IsFramed conv children m = ground (
  arith,
  IsEven-refl m.sent,
  IsEven-append m.sent (map (λ id. send_get_member_state id (state_msg m)) m.member_ids)
      (elections_IsEven (state_msg m) m.member_ids),
)

watch-IsFramed :
    (conv : Conv) (now : ℕ) (children : List String) (s : PbMemberState) (m : PbMember)
    → IsFramed m (watch_in conv s now children m).1
unfolding may_start_election elect_if_quorum acquire_lock switch_state has_lock
watch-IsFramed conv now children follower_wait_to_join_group m =
    ground (
      arith,
      IsEven-refl m.sent,
      other m.sent (create_lock m.group_key lock_type_elector) refl refl,
    )
watch-IsFramed conv now children ec_waiting_for_quorum m =
    ground (arith, IsEven-refl m.sent, elect_if_quorum-IsFramed conv children m)
watch-IsFramed conv now children _ m = record { commit_id = refl; sent = IsEven-refl m.sent }

on_elector_children-IsFramed :
    (conv : Conv) (children : List String) (m : PbMember)
    → IsFramed m (on_elector_children conv children m).1
unfolding on_elector_children switch_state
on_elector_children-IsFramed conv children m = ground (
  arith,
  IsEven-refl m.sent,
  elect_if_quorum-IsFramed conv children (record m { state = ec_waiting_for_quorum }),
)

on_election_responses-IsFramed :
    (now : ℕ) (tries : List (Option GetMemberStateRespMsg)) (m : PbMember)
    → IsFramed m (on_election_responses now tries m).1
unfolding on_election_responses handle_election_response remove_lock
on_election_responses-IsFramed now tries m =
    ground (arith, IsEven-refl m.sent, other m.sent (delete_lock m.group_key) refl refl)

on_leader_lock-IsFramed :
    (functional : List GetMemberStateRespMsg) (m : PbMember)
    → IsFramed m (on_leader_lock functional m).1
unfolding on_leader_lock switch_state
on_leader_lock-IsFramed functional m = ground (arith, IsEven-refl m.sent)

deliver-IsFramed : (msg : GroupMsg) (m : PbMember) → IsFramed m (deliver msg m).1
unfolding deliver handle_become_leader_msg handle_group_info_update_msg acquire_lock
deliver-IsFramed (get_member_state req) m = ground (arith, IsEven-refl m.sent)
deliver-IsFramed (become_leader req) m =
    ground
      (arith, IsEven-refl m.sent, other m.sent (create_lock m.group_key lock_type_leader) refl refl)
deliver-IsFramed (add_to_group req) m = ground (
  arith,
  IsEven-refl m.sent,
  change_peer_state-SameBut req.member_id req.member_version req.member_state m,
)
deliver-IsFramed (group_info_update req) m =
    ground (arith, IsEven-refl m.sent, other m.sent run_sync_protocol refl refl)

lead_then_delay :
    (xs : List Request) (id : String) (msg : BecomeLeaderMsg) (ms : ℕ)
    → IsEven xs ((xs ++ send_become_leader id msg ∷ []) ++ run_after_delay ms ∷ [])
lead_then_delay xs id msg ms =
    let ys = xs ++ send_become_leader id msg ∷ [] in
    let zs = run_after_delay ms ∷ [] in
    record {
      reads = omega (
        arith,
        count-append of_read ys zs,
        count-append of_read xs (send_become_leader id msg ∷ []),
      );
      delays = omega (
        arith,
        count-append of_delay ys zs,
        count-append of_delay xs (send_become_leader id msg ∷ []),
        count-append of_lead ys zs,
        count-append of_lead xs (send_become_leader id msg ∷ []),
      );
      grown = omega (
        arith,
        count-append of_delay ys zs,
        count-append of_delay xs (send_become_leader id msg ∷ []),
      );
    }

-- Each message to lead goes with a scheduled call.
on_lock_removed-IsFramed :
    (members : List GetMemberStateRespMsg) (m : PbMember) → IsFramed m (on_lock_removed members m).1
unfolding on_lock_removed switch_state send_become_leader_msg schedule_group_watch_event
on_lock_removed-IsFramed [] m = record { commit_id = refl; sent = IsEven-refl m.sent }
on_lock_removed-IsFramed (r ∷ rs) m =
    let n : PbMember = record m { state = follower_wait_to_join_group } in
    record {
      commit_id = refl;
      sent =
          lead_then_delay m.sent r.id (become_leader_msg n (map mark_functional (r ∷ rs)))
            groupwatch_interval_ms;
    }

pub step-IsFramed : (conv : Conv) (e : Event) (m : PbMember) → IsFramed m (step conv e m).1
unfolding step handle_group_watch_event
step-IsFramed conv (group_watch now children) m = watch-IsFramed conv now children m.state m
step-IsFramed conv elector_lock_created m = on_elector_lock-IsFramed m
step-IsFramed conv (term_set term) m = on_term-IsFramed term m
step-IsFramed conv (elector_children children) m = on_elector_children-IsFramed conv children m
step-IsFramed conv (election_answers now tries) m =
    ground (arith, on_election_responses-IsFramed now tries m)
step-IsFramed conv (lock_removed members) m = on_lock_removed-IsFramed members m
step-IsFramed conv (leader_lock_created functional) m = on_leader_lock-IsFramed functional m
step-IsFramed conv (message msg) m = ground (arith, deliver-IsFramed msg m)
step-IsFramed conv call_failed m = record { commit_id = refl; sent = IsEven-refl m.sent }

-- No event changes the commit id.
pub run_commit_id :
    (conv : Conv) (es : List Event) (m : PbMember) → (run conv es m).commit_id ≡ m.commit_id
unfolding run
run_commit_id conv [] m = refl
run_commit_id conv (e ∷ es) m =
    run_commit_id conv es (step conv e m).1 ∙ (step-IsFramed conv e m).commit_id

-- One more read with a watch.
pub count-watch :
    (xs : List Request) (key : String)
    → (count_reads (xs ++ register_watch key ∷ []) ≡ 1 + count_reads xs)
      × (count_delays (xs ++ register_watch key ∷ []) ≡ count_delays xs)
      × (count_leads (xs ++ register_watch key ∷ []) ≡ count_leads xs)
count-watch xs key =
    let ys = register_watch key ∷ [] in
    (
      omega (arith, count-append of_read xs ys),
      omega (arith, count-append of_delay xs ys),
      omega (arith, count-append of_lead xs ys),
    )
