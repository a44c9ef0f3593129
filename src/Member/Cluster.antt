-- ===== src/Member/Cluster.antt =====
-- The members of a group together, and the lock that they share: acquireLock_ and removeLock_ of
-- src/infra/PBMember.cpp create and delete one ephemeral node. ZooKeeper is third-party code: a create
-- succeeds if the node does not exist, and the node goes when its owner's delete comes, when the
-- process that made it has ended, or when that process's session expires, of which it is not told.
pub mod Covered
pub mod Exclusion
use datom.Common.{
  ℕ, ℤ, String, Bool, true, false, if◌then◌else◌, ◌==◌, ◌&&◌, not, ◌||◌, ◌≡◌, ◌≢◌, Option, none,
  some, List, [], ◌∷◌,
}
use datom.Exec.{Outcome, aborted}
use datom.Member.{
  PbMember, PbMemberState, GetMemberStateRespMsg, is_leader_state, same_state,
  ec_waiting_for_quorum, ec_election_in_progress,
}
use datom.Member.Group.{Conv}
use datom.Member.Election.{elected, group_responses}
use datom.Member.Loop.{
  Event, group_watch, elector_lock_created, term_set, elector_children, election_answers,
  lock_removed, leader_lock_created, message, call_failed, init, step,
}

-- A member, whether it made the node of the lock, whether it has asked for its delete, and whether its
-- session has expired since it started.
pub record Node : Type 0 where
  pub member : PbMember
  pub holding : Bool
  pub deleting : Bool
  pub expired : Bool

pub record Cluster : Type 0 where
  pub node : ℕ → Node
  pub lock : Option ℕ

abbrev pub with_node : ℕ → Node → Option ℕ → Cluster → Cluster
with_node i n owner c = record { node = λ j. if i == j then n else c.node j; lock = owner }

-- The lock is its, and not asked back; or its session has expired.
abbrev pub has_it : Node → Bool
has_it n = n.expired || n.holding && not n.deleting

-- The events that a node can get. Those of an election and the leader's create come between the create
-- of the lock and the request to delete it; an answer to that request, messages and changes of the
-- group come at any time. To a member whose session has expired any answer may come. A call that fails ends the process: that is `restarts`.
abbrev pub CanGet : Event → Node → Type 0
CanGet (group_watch now children) n = Unit {0}
CanGet elector_lock_created n = has_it n ≡ true
CanGet (term_set term) n = has_it n ≡ true
CanGet (elector_children children) n = has_it n ≡ true
CanGet (election_answers now tries) n = has_it n ≡ true
CanGet (lock_removed members) n = Unit {0}
CanGet (leader_lock_created members) n = has_it n ≡ true
CanGet (message msg) n = Unit {0}
CanGet call_failed n = ⊥

abbrev pub found_members : Option (List GetMemberStateRespMsg) → Bool
found_members none = false
found_members (some members) = true

-- handleElectionResponse has found enough members and asks for the delete.
unfoldable pub asks_delete : Event → PbMember → Bool
unfolding elected group_responses
asks_delete (election_answers now tries) m =
    found_members (elected m.quorum (group_responses tries []))
asks_delete _ m = false

unfoldable pub fresh : PbMember → Node
unfolding init
fresh m = record { member = (init m).1; holding = false; deleting = false; expired = false }

-- The node of the lock goes with its owner.
abbrev pub freed : ℕ → Option ℕ → Option ℕ
freed i none = none
freed i (some j) = if i == j then none else some j

abbrev pub after : Event → PbMember → Node → Node
after e m n = record {
  member = m;
  holding = n.holding;
  deleting = n.deleting || asks_delete e n.member;
  expired = n.expired;
}

pub data Step (conv : Conv) : Cluster → Cluster → Type 0 where
  grants :
      (c : Cluster) (i : ℕ)
      → c.lock ≡ none
      → Step conv c (with_node i (record (c.node i) { holding = true }) (some i) c)
  deletes :
      (c : Cluster) (i : ℕ)
      → (c.node i).holding && (c.node i).deleting ≡ true
      → Step conv c (with_node i (record (c.node i) { holding = false; deleting = false }) none c)
  handles :
      (c : Cluster) (i : ℕ) (e : Event) (r : Outcome (Unit {0})) (m : PbMember)
      → CanGet e (c.node i)
      → step conv e (c.node i).member ≡ (r, m)
      → r ≢ aborted
      → Step conv c (with_node i (after e m (c.node i)) c.lock c)
  expires :
      (c : Cluster) (i : ℕ)
      → Step conv c (
          with_node i
            (record (c.node i) { holding = false; deleting = false; expired = true })
            (freed i c.lock)
            c)
  -- a process ends, and the member starts again
  restarts :
      (c : Cluster) (i : ℕ) (m : PbMember) → Step conv c (with_node i (fresh m) (freed i c.lock) c)

pub data Reaches (conv : Conv) (c : Cluster) : Cluster → Type 0 where
  here : Reaches conv c c
  next : {d d' : Cluster} → Reaches conv c d → Step conv d d' → Reaches conv c d'

unfoldable pub new_cluster : (ℕ → PbMember) → Cluster
unfolding fresh
new_cluster members = record { node = λ i. fresh (members i); lock = none }
