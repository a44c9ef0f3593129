-- ===== src/Member/Loop/Told.antt =====
-- A member that leads was told to: the BecomeLeaderMsg behind the lock that it was granted.
use datom.Common.{
  ◌≤ℤ◌, ltb_ℤ, ◌≡◌, refl, sym, ap, subst, inl, inr, true, List, [], ◌∷◌, ◌++◌, arith, ◌⊎◌,
}
use datom.Exec.{Outcome, returned}
use datom.Member.{
  PbMember, GetMemberStateRespMsg, BecomeLeaderMsg, is_leader_state, throw_if_invalid_term,
}
use datom.Member.Group.{Conv}
use datom.Member.Election.{acquire_lock}
use datom.Member.Messages.{become_leader, handle_become_leader_msg, leads_group}
use datom.Member.Loop.{Event, leader_lock_created, message, step, run, init}
use datom.Member.Loop.Leading.{leads-IsGranted}

-- The functional members that the continuation of a create of the leader lock captures.
abbrev pub Capture : Type 0
Capture = List GetMemberStateRespMsg

abbrev captured : Outcome (Unit {0}) → Capture → List Capture
captured (returned a) functional = functional ∷ []
captured _ functional = []

-- handleBecomeLeaderMsg asks for the lock.
abbrev pub asks : Event → PbMember → List Capture
asks (message (become_leader req)) m =
    captured (handle_become_leader_msg req m).0 req.functional_members
asks _ m = []

abbrev IsAmong : Capture → List Capture → Type 0
IsAmong f [] = ⊥
IsAmong f (g ∷ gs) = (f ≡ g) ⊎ IsAmong f gs

abbrev AnswersOne : Event → List Capture → Type 0
AnswersOne (leader_lock_created functional) pending = IsAmong functional pending
AnswersOne _ pending = Unit {0}

-- The leader lock is granted only to a member that has asked for it, with what it captured then.
abbrev pub IsCaused : Conv → List Event → PbMember → List Capture → Type 0
IsCaused conv [] m pending = Unit {0}
IsCaused conv (e ∷ es) m pending =
    AnswersOne e pending × IsCaused conv es (step conv e m).1 (asks e m ++ pending)

-- A message to lead, with these functional members and a term that is not old, was handled.
abbrev pub IsTold : Conv → Capture → List Event → PbMember → Type 0
IsTold conv functional es m =
    (before : List Event) × (after : List Event) × (req : BecomeLeaderMsg) × (es
      ≡ before ++ message (become_leader req) ∷ after)
    × (req.functional_members ≡ functional)
    × ((run conv before m).term_id ≤ℤ req.term_id)

asks_by_term :
    (req : BecomeLeaderMsg) (m : PbMember)
    → ((ltb_ℤ req.term_id m.term_id ≡ true) × (asks (message (become_leader req)) m ≡ []))
      ⊎ ((m.term_id ≤ℤ req.term_id)
          × (asks (message (become_leader req)) m ≡ req.functional_members ∷ []))
unfolding handle_become_leader_msg throw_if_invalid_term acquire_lock
asks_by_term req m = ground arith

asked_when :
    (functional : Capture) (e : Event) (m : PbMember)
    → IsAmong functional (asks e m)
    → (req : BecomeLeaderMsg) × (e ≡ message (become_leader req))
      × (req.functional_members ≡ functional)
      × (m.term_id ≤ℤ req.term_id)
asked_when functional (message (become_leader req)) m h = elim (asks_by_term req m) [
  | inl (_, e) ↦ absurd (subst (IsAmong functional) e h)
  | inr (l, e) ↦ (req, refl, only (subst (IsAmong functional) e h), l)
]
  where
    only : {f g : Capture} → IsAmong f (g ∷ []) → g ≡ f
    only (inl e) = sym e
    only (inr x) = absurd x
asked_when functional _ m h = absurd h

among-append :
    (f : Capture) (gs hs : List Capture) → IsAmong f (gs ++ hs) → IsAmong f gs ⊎ IsAmong f hs
among-append f [] hs h = inr h
among-append f (g ∷ gs) hs (inl e) = inl (inl e)
among-append f (g ∷ gs) hs (inr h) = elim (among-append f gs hs h) [
  | inl k ↦ inl (inr k)
  | inr k ↦ inr k
]

told :
    (conv : Conv) (before after : List Event) (functional : Capture) (m : PbMember)
    (pending : List Capture)
    → IsCaused conv (before ++ leader_lock_created functional ∷ after) m pending
    → IsAmong functional pending ⊎ IsTold conv functional before m
unfolding run
told conv [] after functional m pending c = inl c.0
told conv (e ∷ es) after functional m pending c =
    go (told conv es after functional (step conv e m).1 (asks e m ++ pending) c.1)
  where
    go :
        IsAmong functional (asks e m ++ pending) ⊎ IsTold conv functional es (step conv e m).1
        → IsAmong functional pending ⊎ IsTold conv functional (e ∷ es) m
    go (inr (before, later, req, p, q, l)) = inr (e ∷ before, later, req, ap (◌∷◌ e) p, q, l)
    go (inl h) = elim (among-append functional (asks e m) pending h) [
      | inr k ↦ inl k
      | inl k ↦
          let (req, p, q, l) = asked_when functional e m k in
          inr ([], es, req, ap (λ x. x ∷ es) p, q, l)
    ]

-- A member that is in a leader state after `init` and any events, in any order but for a grant of the
-- leader lock, which comes after the handling of the message that asks for it: in their course it
-- handled a BecomeLeaderMsg whose term was not below its own, and after that it was granted the
-- leader lock for this message, of whose functional members the first had its id and the commit id
-- that it had when the grant came.
pub leads-IsTold :
    (conv : Conv) (es : List Event) (m : PbMember)
    → IsCaused conv es (init m).1 []
    → is_leader_state (run conv es (init m).1).state ≡ true
    → (before : List Event) × (after : List Event) × (functional : Capture) × (es
        ≡ before ++ leader_lock_created functional ∷ after)
      × (leads_group functional (run conv before (init m).1) ≡ true)
      × IsTold conv functional before (init m).1
leads-IsTold conv es m c h =
    let (before, later, functional, p, l) = leads-IsGranted conv es m h in
    (
      before,
      later,
      functional,
      p,
      l,
      from (
          told conv before later functional (init m).1 []
            (subst (λ x. IsCaused conv x (init m).1 []) p c)),
    )
  where
    from :
        {functional : Capture} {before : List Event}
        → IsAmong functional [] ⊎ IsTold conv functional before (init m).1
        → IsTold conv functional before (init m).1
    from (inl x) = absurd x
    from (inr t) = t
