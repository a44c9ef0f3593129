-- ===== src/Member/Messages/Terms.antt =====
-- The terms of messages and of the member.
use datom.Common.{
  ℤ, ◌<ℤ◌, ltb_ℤ, ◌≡◌, refl, sym, ◌∙◌, ◌⊎◌, inl, inr, arith, String, str_eq, eq_iff, Bool,
  Bool-cases, true, false, not, ◌&&◌, List, [], ◌∷◌,
}
use datom.Status.{invalid_term, of_status, status_exception}
use datom.Exec.{Outcome, returned, thrown}
use datom.Member.{
  PbMember, GetMemberStateMsg, GetMemberStateRespMsg, BecomeLeaderMsg, AddToGroupMsg,
  GroupInfoUpdateMsg, throw_if_invalid_term, switch_state, same_state, is_follower_state,
  follower_syncing,
}
use datom.Member.Peers.Frame.{change_peer_state-SameBut}
use datom.Member.Messages.{
  GroupMsg, get_member_state, become_leader, add_to_group, group_info_update, GroupReply, unit,
  deliver, term_of, is_listed, handle_group_info_update_msg,
}

stale_throws :
    (term : ℤ) (m : PbMember)
    → term <ℤ m.term_id
    → throw_if_invalid_term term m ≡ (thrown (of_status (status_exception invalid_term)), m)
unfolding throw_if_invalid_term
stale_throws term m h = ground arith

-- The answer to a message of an older term: none of the one-way messages has an error.
abbrev pub refusal : GroupMsg → Outcome GroupReply
refusal (get_member_state req) = thrown (of_status (status_exception invalid_term))
refusal (become_leader req) = returned unit
refusal (add_to_group req) = thrown (of_status (status_exception invalid_term))
refusal (group_info_update req) = returned unit

-- A message of an older term leaves the member as it was: a request for its state or to join its group
-- is answered with STATUS_INVALID_TERM, and the sender of a one-way message, to lead or of a change of
-- the group, gets the same answer as if it had been taken.
pub deliver_stale :
    (msg : GroupMsg) (m : PbMember) → term_of msg <ℤ m.term_id → deliver msg m ≡ (refusal msg, m)
unfolding deliver
deliver_stale (get_member_state req) m h = rw (stale_throws req.term_id m h)
deliver_stale (become_leader req) m h = rw (stale_throws req.term_id m h)
deliver_stale (add_to_group req) m h = rw (stale_throws req.term_id m h)
deliver_stale (group_info_update req) m h = rw (stale_throws req.term_id m h)

abbrev pub Listed : String → List GetMemberStateRespMsg → Type 0
Listed id [] = ⊥
Listed id (r ∷ rs) = (r.id ≡ id) ⊎ Listed id rs

not_here :
    (r : GetMemberStateRespMsg) (id : String) (rs : List GetMemberStateRespMsg)
    → str_eq r.id id ≡ false
    → (¬ Listed id rs)
    → Listed id (r ∷ rs)
    → ⊥
not_here r id rs e h (inl q) = cc ((eq_iff r.id id).1 q)
not_here r id rs e h (inr q) = h q

is_listed_iff :
    (id : String) (rs : List GetMemberStateRespMsg)
    → ((is_listed id rs ≡ true) × Listed id rs) ⊎ ((is_listed id rs ≡ false) × (¬ Listed id rs))
is_listed_iff id [] = inr (refl, λ x. x)
is_listed_iff id (r ∷ rs) = elim (Bool-cases (str_eq r.id id)) [
  | inl e ↦ inl (rw e refl, inl ((eq_iff r.id id).0 e))
  | inr e ↦ elim (is_listed_iff id rs) [
    | inl (l, h) ↦ inl (rw e l, inr h)
    | inr (l, h) ↦ inr (rw e l, λ x. not_here r id rs e h x)
  ]
]

-- A change of the group that a follower outside it takes: it is newer, the member is a follower that
-- does not sync, and its id is not among the functional members.
abbrev pub RaisesTerm : GroupMsg → PbMember → Type 0
RaisesTerm (group_info_update req) m =
    (m.term_id <ℤ req.term_id)
    × (is_follower_state m.state ≡ true)
    × (same_state m.state follower_syncing ≡ false)
    × (¬ Listed m.my_id req.functional_members)
RaisesTerm _ m = ⊥

get_state_term :
    (req : GetMemberStateMsg) (m : PbMember)
    → (deliver (get_member_state req) m).1.term_id ≡ m.term_id
unfolding deliver
get_state_term req m = ground arith

lead_term :
    (req : BecomeLeaderMsg) (m : PbMember) → (deliver (become_leader req) m).1.term_id ≡ m.term_id
unfolding deliver
lead_term req m = ground arith

add_term :
    (req : AddToGroupMsg) (m : PbMember) → (deliver (add_to_group req) m).1.term_id ≡ m.term_id
unfolding deliver
add_term req m =
    ground (arith, change_peer_state-SameBut req.member_id req.member_version req.member_state m)

group_term_when :
    (req : GroupInfoUpdateMsg) (m : PbMember)
    → ((m.term_id <ℤ req.term_id)
        × (is_follower_state m.state ≡ true)
        × (same_state m.state follower_syncing ≡ false)
        × (is_listed m.my_id req.functional_members ≡ false)
        × ((deliver (group_info_update req) m).1.term_id ≡ req.term_id))
      ⊎ ((ltb_ℤ m.term_id req.term_id
              && is_follower_state m.state
              && not (same_state m.state follower_syncing)
              && not (is_listed m.my_id req.functional_members)
            ≡ false)
          × ((deliver (group_info_update req) m).1.term_id ≡ m.term_id))
unfolding deliver handle_group_info_update_msg switch_state
group_term_when req m = ground arith

clash : false ≡ true → ⊥
clash e = cc

not_all :
    (a b : ℤ) (f s l : Bool)
    → a <ℤ b
    → f ≡ true
    → s ≡ false
    → l ≡ false
    → ltb_ℤ a b && f && not s && not l ≡ false
    → ⊥
not_all a b f s l p q r t e = ground arith

group_term :
    (req : GroupInfoUpdateMsg) (m : PbMember)
    → (RaisesTerm (group_info_update req) m
        × ((deliver (group_info_update req) m).1.term_id ≡ req.term_id))
      ⊎ ((¬ RaisesTerm (group_info_update req) m)
          × ((deliver (group_info_update req) m).1.term_id ≡ m.term_id))
group_term req m = elim (is_listed_iff m.my_id req.functional_members) [
  | inl (l, h) ↦ elim (group_term_when req m) [
    | inl (a, b, c, d, e) ↦ absurd (clash (sym d ∙ l))
    | inr (t, e) ↦ inr (λ x. x.3 h, e)
  ]
  | inr (l, h) ↦ elim (group_term_when req m) [
    | inl (a, b, c, d, e) ↦ inl ((a, b, c, h), e)
    | inr (t, e) ↦ inr (
      λ x.
          not_all m.term_id req.term_id (is_follower_state m.state)
            (same_state m.state follower_syncing) (is_listed m.my_id req.functional_members) x.0 x.1
            x.2 l t,
      e,
    )
  ]
]

-- A message raises the member's term if it is a change of the group of a newer term that a follower
-- gets which does not sync and is not listed in it, and then to the term of the message; any other
-- message, one to lead of a newer term among them, leaves the term as it was.
pub deliver_term :
    (msg : GroupMsg) (m : PbMember)
    → (RaisesTerm msg m × ((deliver msg m).1.term_id ≡ term_of msg))
      ⊎ ((¬ RaisesTerm msg m) × ((deliver msg m).1.term_id ≡ m.term_id))
unfolding deliver
deliver_term (get_member_state req) m = inr (λ x. x, get_state_term req m)
deliver_term (become_leader req) m = inr (λ x. x, lead_term req m)
deliver_term (add_to_group req) m = inr (λ x. x, add_term req m)
deliver_term (group_info_update req) m = group_term req m
