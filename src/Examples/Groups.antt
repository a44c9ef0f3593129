-- ===== src/Examples/Groups.antt =====
-- The theorems on the leader's peers, its writes and its messages at concrete members.
use datom.Common.{
  pos, negsuc, ◌≡◌, ◌⊎◌, inl, refl, true, false, none, some, List, [], ◌∷◌, ◌++◌, arith, length,
  leb, count_if, All, if◌then◌else◌,
}
use datom.Status.{invalid_term, status_exception, of_status}
use datom.Exec.{returned, thrown, aborted}
use datom.Member.{
  PbMember, BecomeLeaderMsg, throw_if_invalid_term, PeerInfo, leader_functional,
  leader_waiting_for_quorum, follower_functional, follower_syncing, follower_wait_to_join_group,
  is_leader_state, GetMemberStateRespMsg, has_ctx,
}
use datom.Member.Peers.{get_peer_ref, get_writable_peers, change_peer_state, is_functional}
use datom.Member.Peers.Quorum.{group_state, IsMoved, change_peer_state_lem}
use datom.Member.Peers.Transition.{Advances}
use datom.Member.Write.{WriteState, write_to_peers, run_responses}
use datom.Member.Write.Promise.{verdict}
use datom.Member.Write.Responses.{values}
use datom.Member.Write.Settles.{writes, write_to_peers_settles}
use datom.Member.Messages.{
  GroupMsg, become_leader, handle_become_leader_msg, leads_group, get_member_state,
  group_info_update, deliver, on_leader_lock,
}
use datom.Member.Messages.Terms.{RaisesTerm, deliver_stale, deliver_term}
use datom.Member.Messages.Leadership.{LeadsGroup, on_leader_lock_lem, ids, others, FromMessage}
use datom.Member.Group.{Conv}
use datom.Member.Loop.{Event, message, leader_lock_created, run, init}
use datom.Member.Watch.{Watched, answered, fire, here, next, started}
use datom.Member.Cluster
use datom.Member.Cluster.{
  Cluster, new_cluster, fresh, asks_delete, with_node, after, grants, handles, expires,
}
use datom.Member.Cluster.Exclusion.{one_leader}
use datom.Member.Loop.Told.{Capture, IsTold, leads-IsTold}
use datom.Member.Loop.Invariant.{run_leader_has_ctx}
use datom.Examples.{leader, leader_ctx, two_peers, joining, answer_of}

abbrev third : PeerInfo
third = record { id = "3"; state = follower_wait_to_join_group; version = negsuc 0 }

change_peer_state_lem_example :
    (ps : List PeerInfo) × (change_peer_state "3" (pos 2) follower_functional leader ≡ (
      returned tt,
      record leader {
        leader_ctx = some (record leader_ctx { peers = ps });
        state = group_state (count_if is_functional ps) 2;
      },
    ))
    × Advances two_peers ps
    × IsMoved "3" (pos 2) follower_functional third ps
unfolding get_peer_ref is_leader_state
change_peer_state_lem_example =
    change_peer_state_lem leader leader_ctx "3" (pos 2) follower_functional third refl refl refl

abbrev second : PeerInfo
second = record { id = "2"; state = follower_functional; version = pos 4 }

write_to_peers_settles_example :
    (s t : WriteState) × (write_to_peers "t" "b" leader ≡ (returned s.ctx, s.member))
    × (s.member.sent ≡ [] ++ writes "t" "b" (get_writable_peers two_peers))
    × (run_responses ((second, true) ∷ []) s ≡ (returned tt, t))
    × (t.ctx.promise ≡ verdict 2 (values ((second, true) ∷ [])))
unfolding get_peer_ref get_writable_peers
write_to_peers_settles_example =
    write_to_peers_settles leader leader_ctx "t" "b" ((second, true) ∷ []) refl refl
      ((second, refl), tt) refl

abbrev old_message : GroupMsg
old_message =
    get_member_state (record { group_type = "volumes"; resource_id = pos 1; term_id = pos 4 })

deliver_stale_example :
    deliver old_message leader ≡ (thrown (of_status (status_exception invalid_term)), leader)
deliver_stale_example = deliver_stale old_message leader (omega arith)

abbrev group_update : GroupMsg
group_update =
    group_info_update
      (record { resource_id = pos 1; term_id = pos 8; leader_id = "1"; functional_members = [] })

deliver_term_example :
    (RaisesTerm group_update joining × ((deliver group_update joining).1.term_id ≡ pos 8))
    ⊎ ((¬ RaisesTerm group_update joining) × ((deliver group_update joining).1.term_id ≡ pos 5))
deliver_term_example = deliver_term group_update joining

abbrev granted : List GetMemberStateRespMsg
granted = answer_of "2" (negsuc 0) ∷ answer_of "3" (negsuc 0) ∷ []

on_leader_lock_lem_example :
    (LeadsGroup granted joining
      × ((ps : List PeerInfo) × (on_leader_lock granted joining ≡ (
        returned tt,
        record joining {
          leader_ctx = some (record { op_id = negsuc 0; commit_id = negsuc 0; peers = ps });
          leader_id = "2";
          state = if leb 2 (length granted) then leader_functional else leader_waiting_for_quorum;
        },
      ))
          × (ids ps ≡ others "2" ("1" ∷ "2" ∷ "3" ∷ []))
          × All (FromMessage granted) ps))
    ⊎ ((¬ LeadsGroup granted joining) × (on_leader_lock granted joining ≡ (aborted, joining)))
on_leader_lock_lem_example = on_leader_lock_lem granted joining

abbrev no_conv : Conv
no_conv = record { split = λ d text. []; to_uint64 = λ text. none }

run_leader_has_ctx_example :
    has_ctx (run no_conv (leader_lock_created granted ∷ []) (init joining).1).leader_ctx ≡ true
unfolding run is_leader_state init datom.Member.Loop.step on_leader_lock
run_leader_has_ctx_example =
    run_leader_has_ctx no_conv (leader_lock_created granted ∷ []) joining refl

abbrev to_lead : BecomeLeaderMsg
to_lead = record { resource_id = pos 1; term_id = pos 6; functional_members = granted }

abbrev told_and_granted : List Event
told_and_granted = message (become_leader to_lead) ∷ leader_lock_created granted ∷ []

leads-IsTold_example :
    (before : List Event) × (after : List Event) × (functional : Capture) × (told_and_granted
      ≡ before ++ leader_lock_created functional ∷ after)
    × (leads_group functional (run no_conv before (init joining).1) ≡ true)
    × IsTold no_conv functional before (init joining).1
unfolding run is_leader_state init datom.Member.Loop.step on_leader_lock deliver
    handle_become_leader_msg throw_if_invalid_term
leads-IsTold_example = leads-IsTold no_conv told_and_granted joining (tt, (inl refl, tt)) refl

-- The read of `init` is answered, and the group changes.
abbrev watching : Watched
watching = fire 1 (record (started joining) { first = answered; watches = 0 })

abbrev like_members : Cluster
unfolding new_cluster fresh init
like_members = new_cluster (λ i. joining)

abbrev granted_cluster : Cluster
unfolding like_members
granted_cluster =
    with_node 1 (record (like_members.node 1) { holding = true }) (some 1) like_members

abbrev new_leader : PbMember
unfolding datom.Member.Loop.step on_leader_lock init
new_leader = (datom.Member.Loop.step no_conv (leader_lock_created granted) (init joining).1).1

-- The second of the members has got the leader lock.
abbrev led_cluster : Cluster
unfolding granted_cluster new_leader asks_delete
led_cluster =
    with_node 1 (after (leader_lock_created granted) new_leader (granted_cluster.node 1)) (some 1)
      granted_cluster

abbrev expired_cluster : Cluster
unfolding led_cluster
expired_cluster =
    with_node 1 (record (led_cluster.node 1) { holding = false; deleting = false; expired = true })
      none led_cluster

abbrev granted_again : Cluster
unfolding expired_cluster
granted_again =
    with_node 0 (record (expired_cluster.node 0) { holding = true }) (some 0) expired_cluster

-- The session of the second has expired, and the first leads.
abbrev led_again : Cluster
unfolding granted_again new_leader asks_delete
led_again =
    with_node 0 (after (leader_lock_created granted) new_leader (granted_again.node 0)) (some 0)
      granted_again

one_leader_example :
    (is_leader_state (led_again.node 1).member.state ≡ false) ⊎ ((led_again.node 1).expired ≡ true)
unfolding led_again granted_again expired_cluster led_cluster granted_cluster like_members
    new_leader new_cluster fresh init is_leader_state asks_delete datom.Member.Loop.step
    on_leader_lock
one_leader_example =
    one_leader no_conv (λ i. joining) led_again 0 1
      (datom.Member.Cluster.next
        (datom.Member.Cluster.next
          (datom.Member.Cluster.next
            (datom.Member.Cluster.next
              (datom.Member.Cluster.next datom.Member.Cluster.here (grants like_members 1 refl))
              (handles granted_cluster 1 (leader_lock_created granted) (returned tt) new_leader refl
                refl (λ e. cc)))
            (expires led_cluster 1))
          (grants expired_cluster 0 refl))
        (handles granted_again 0 (leader_lock_created granted) (returned tt) new_leader refl refl
          (λ e. cc)))
      refl refl (λ e. ground arith)
