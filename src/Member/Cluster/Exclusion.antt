-- ===== src/Member/Cluster/Exclusion.antt =====
-- At most one member of a group leads it.
use datom.Common.{
  ◌⊎◌, ◌||◌, ℕ, Bool, true, false, if◌then◌else◌, ◌==◌, ==_iff, ◌&&◌, not, ◌≡◌, ◌≢◌, refl, sym, ap,
  subst, ◌∙◌, inl, inr, Bool-cases, Option, none, some, arith,
}
use datom.Member.{PbMember, is_leader_state}
use datom.Member.Group.{Conv}
use datom.Member.Cluster.{
  Node, Cluster, with_node, after, fresh, freed, Step, grants, deletes, expires, handles, restarts,
  Reaches, here, next, new_cluster,
}
use datom.Member.Cluster.Covered.{
  IsCovered, not_leading, step_keeps, fresh-IsCovered, granted-IsCovered, deleted-IsCovered,
  expired-IsCovered,
}

-- The node of the lock is that of whoever holds it.
abbrev IsOwned : Cluster → Type 0
IsOwned c = (i : ℕ) → (c.node i).holding ≡ true → c.lock ≡ some i

abbrev AllCovered : Cluster → Type 0
AllCovered c = (i : ℕ) → IsCovered (c.node i)

clash : false ≡ true → ⊥
clash e = cc

with_node-AllCovered :
    (i : ℕ) (n : Node) (owner : Option ℕ) (c : Cluster)
    → AllCovered c
    → IsCovered n
    → AllCovered (with_node i n owner c)
with_node-AllCovered i n owner c h hn j = elim (Bool-cases (i == j)) [
  | inl e ↦ subst (λ b. IsCovered (if b then n else c.node j)) (sym e) hn
  | inr e ↦ subst (λ b. IsCovered (if b then n else c.node j)) (sym e) (h j)
]

with_node-IsOwned :
    (i : ℕ) (n : Node) (owner : Option ℕ) (c : Cluster)
    → (n.holding ≡ true → owner ≡ some i)
    → ((j : ℕ) → i == j ≡ false → (c.node j).holding ≡ true → owner ≡ some j)
    → IsOwned (with_node i n owner c)
with_node-IsOwned i n owner c hn h j = elim (Bool-cases (i == j)) [
  | inl e ↦
      subst (λ b. (if b then n else c.node j).holding ≡ true → owner ≡ some j) (sym e)
        (λ p. hn p ∙ ap some ((==_iff i j).0 e))
  | inr e ↦ subst (λ b. (if b then n else c.node j).holding ≡ true → owner ≡ some j) (sym e) (h j e)
]

freed_other : (i j : ℕ) → i == j ≡ false → freed i (some j) ≡ some j
freed_other i j e = rw e refl

held_by_one : (i j : ℕ) (lock : Option ℕ) → lock ≡ some i → lock ≡ some j → i ≡ j
held_by_one i j lock p q = cc

not_other : (i j : ℕ) → i == j ≡ false → i ≢ j
not_other i j e p = clash (sym e ∙ (==_iff i j).1 p)

Step-AllCovered : (conv : Conv) (c d : Cluster) → Step conv c d → AllCovered c → AllCovered d
Step-AllCovered conv _ _ (grants c i free) h =
    with_node-AllCovered i (record (c.node i) { holding = true }) (some i) c h
      (granted-IsCovered (c.node i) (h i))
Step-AllCovered conv _ _ (deletes c i asked) h =
    with_node-AllCovered i (record (c.node i) { holding = false; deleting = false }) none c h
      (deleted-IsCovered (c.node i) asked (h i))
Step-AllCovered conv _ _ (handles c i e r m can ran ok) h =
    with_node-AllCovered i (after e m (c.node i)) c.lock c h (
      subst (λ n. IsCovered (after e n (c.node i))) (ap (λ p. p.1) ran)
        (step_keeps conv e (c.node i) can (λ q. ok (sym (ap (λ p. p.0) ran) ∙ q)) (h i)))
Step-AllCovered conv _ _ (expires c i) h =
    with_node-AllCovered i (record (c.node i) { holding = false; deleting = false; expired = true })
      (freed i c.lock) c h (expired-IsCovered (c.node i))
Step-AllCovered conv _ _ (restarts c i m) h =
    with_node-AllCovered i (fresh m) (freed i c.lock) c h (fresh-IsCovered m)

Step-IsOwned : (conv : Conv) (c d : Cluster) → Step conv c d → IsOwned c → IsOwned d
unfolding fresh
Step-IsOwned conv _ _ (grants c i free) h =
    with_node-IsOwned i (record (c.node i) { holding = true }) (some i) c (λ p. refl)
      (λ j o p. absurd (free_not_held (sym free ∙ h j p)))
  where
    free_not_held : {j : ℕ} → none ≡ some j → ⊥
    free_not_held e = cc
Step-IsOwned conv _ _ (deletes c i asked) h =
    with_node-IsOwned i (record (c.node i) { holding = false; deleting = false }) none c
      (λ p. absurd (clash p))
      (λ j o p. absurd (
        not_other i j o (
          held_by_one i j c.lock (h i (holds (c.node i).holding (c.node i).deleting asked))
            (h j p))))
  where
    holds : (b d : Bool) → b && d ≡ true → b ≡ true
    holds b d e = ground arith
Step-IsOwned conv _ _ (handles c i e r m can ran ok) h =
    with_node-IsOwned i (after e m (c.node i)) c.lock c (h i) (λ j o p. h j p)
Step-IsOwned conv _ _ (expires c i) h =
    with_node-IsOwned i (record (c.node i) { holding = false; deleting = false; expired = true })
      (freed i c.lock) c (λ p. absurd (clash p)) (λ j o p. ap (freed i) (h j p) ∙ freed_other i j o)
Step-IsOwned conv _ _ (restarts c i m) h =
    with_node-IsOwned i (fresh m) (freed i c.lock) c (λ p. absurd (clash p))
      (λ j o p. ap (freed i) (h j p) ∙ freed_other i j o)

Reaches-AllCovered :
    (conv : Conv) (members : ℕ → PbMember) (c : Cluster)
    → Reaches conv (new_cluster members) c
    → AllCovered c × IsOwned c
unfolding new_cluster fresh
Reaches-AllCovered conv members _ here = (λ i. fresh-IsCovered (members i), λ i p. absurd (clash p))
Reaches-AllCovered conv members c (next {d} r s) =
    let (h, o) = Reaches-AllCovered conv members d r in
    (Step-AllCovered conv d c s h, Step-IsOwned conv d c s o)

not_had : (x h d : Bool) → x ≡ false → h ≡ false → x || h && not d ≡ false
not_had x h d p q = ground arith

leads-IsHolder :
    (n : Node)
    → IsCovered n
    → n.expired ≡ false
    → is_leader_state n.member.state ≡ true
    → n.holding ≡ true
leads-IsHolder n h x l = elim (Bool-cases n.holding) [
  | inl e ↦ e
  | inr e ↦ absurd (
      clash (sym (not_leading n.member.state (h (not_had n.expired n.holding n.deleting x e))) ∙ l))
]

-- In a group whose members start with `init`, get messages and changes of the group in any order and
-- the answers of calls as the node of the lock allows, lose their sessions unnoticed, and end and start
-- again, all at any time: beside a member in a leader state whose session has not expired since its
-- start, each other member in a leader state is one whose session has.
pub one_leader :
    (conv : Conv) (members : ℕ → PbMember) (c : Cluster) (i j : ℕ)
    → Reaches conv (new_cluster members) c
    → is_leader_state (c.node i).member.state ≡ true
    → (c.node i).expired ≡ false
    → i ≢ j
    → (is_leader_state (c.node j).member.state ≡ false) ⊎ ((c.node j).expired ≡ true)
one_leader conv members c i j r p x other =
    go (Bool-cases (is_leader_state (c.node j).member.state)) (Bool-cases (c.node j).expired)
  where
    both_hold : (is_leader_state (c.node j).member.state ≡ true) → (c.node j).expired ≡ false → ⊥
    both_hold q y =
        let (h, o) = Reaches-AllCovered conv members c r in
        other (
          held_by_one i j c.lock (o i (leads-IsHolder (c.node i) (h i) x p))
            (o j (leads-IsHolder (c.node j) (h j) y q)))

    go :
        (is_leader_state (c.node j).member.state ≡ true)
          ⊎ (is_leader_state (c.node j).member.state ≡ false)
        → ((c.node j).expired ≡ true) ⊎ ((c.node j).expired ≡ false)
        → (is_leader_state (c.node j).member.state ≡ false) ⊎ ((c.node j).expired ≡ true)
    go (inr q) _ = inl q
    go (inl q) (inl y) = inr y
    go (inl q) (inr y) = absurd (both_hold q y)
