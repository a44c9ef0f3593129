-- ===== src/Member/Election/Responses.antt =====
-- Whom an election elects.
use mathlib.Core.List.{append-nil, append_assoc, Mem, mem-cons, not-mem-nil}
use mathlib.Core.Logic.Or
use native.Mathlib.Bridge.{le_prop}
use datom.Common.{
  ℕ, ◌≤◌, ℤ, ◌≤ℤ◌, ◌<ℤ◌, ◌≡◌, refl, ap, sym, ◌∙◌, inl, inr, Option, none, some, List, [], ◌∷◌, ◌++◌,
  arith, leb_iff, ltb_ℤ, eqb_ℤ, eqb_ℤ_iff, length, All, if◌then◌else◌, Bool-cases,
}
use datom.Member.{GetMemberStateRespMsg}
use datom.Member.Election.{add_response, group_responses, elected}

-- The peers that answered, in the order of the requests.
unfoldable pub responders : List (Option GetMemberStateRespMsg) → List GetMemberStateRespMsg
responders [] = []
responders (none ∷ tries) = responders tries
responders (some r ∷ tries) = r ∷ responders tries

unfoldable pub with_commit : ℤ → List GetMemberStateRespMsg → List GetMemberStateRespMsg
with_commit k [] = []
with_commit k (r ∷ rs) =
    let rest = with_commit k rs in if eqb_ℤ r.commit_id k then r ∷ rest else rest

abbrev pub IsLeast : ℤ → List GetMemberStateRespMsg → Type 0
IsLeast k = All (λ r. k ≤ℤ r.commit_id)

-- The first key is the least commit id, and its group is complete and in order.
abbrev HeadOk : List (ℤ × List GetMemberStateRespMsg) → List GetMemberStateRespMsg → Type 0
HeadOk [] rs = rs ≡ []
HeadOk ((k, g) ∷ values) rs = (g ≡ with_commit k rs) × IsLeast k rs

with_commit-append :
    (k : ℤ) (rs : List GetMemberStateRespMsg) (r : GetMemberStateRespMsg)
    → with_commit k (rs ++ r ∷ [])
      ≡ with_commit k rs ++ (if eqb_ℤ r.commit_id k then r ∷ [] else [])
unfolding with_commit
with_commit-append k [] r = refl
with_commit-append k (q ∷ rs) r = elim (Bool-cases (eqb_ℤ q.commit_id k)) [
  | inl e ↦ simp e (ap (◌∷◌ q) (with_commit-append k rs r))
  | inr e ↦ simp e (with_commit-append k rs r)
]

with_commit_below :
    (c k : ℤ) (rs : List GetMemberStateRespMsg) → c <ℤ k → IsLeast k rs → with_commit c rs ≡ []
unfolding with_commit
with_commit_below c k [] h l = refl
with_commit_below c k (r ∷ rs) h l =
    ground (arith, eqb_ℤ_iff r.commit_id c, with_commit_below c k rs h l.1)

IsLeast-append :
    (k : ℤ) (rs : List GetMemberStateRespMsg) (r : GetMemberStateRespMsg)
    → IsLeast k rs
    → k ≤ℤ r.commit_id
    → IsLeast k (rs ++ r ∷ [])
IsLeast-append k [] r l h = (h, tt)
IsLeast-append k (q ∷ rs) r l h = (l.0, IsLeast-append k rs r l.1 h)

IsLeast-mono : (c k : ℤ) (rs : List GetMemberStateRespMsg) → c ≤ℤ k → IsLeast k rs → IsLeast c rs
IsLeast-mono c k [] h l = tt
IsLeast-mono c k (r ∷ rs) h l = (omega arith, IsLeast-mono c k rs h l.1)

add_response-HeadOk :
    (r : GetMemberStateRespMsg) (v : List (ℤ × List GetMemberStateRespMsg))
    (rs : List GetMemberStateRespMsg)
    → HeadOk v rs
    → HeadOk (add_response r v) (rs ++ r ∷ [])
unfolding add_response with_commit
add_response-HeadOk r [] rs h =
    rw h (ground (arith, eqb_ℤ_iff r.commit_id r.commit_id), (omega arith, tt))
add_response-HeadOk r ((k, g) ∷ v) rs (e, l) = elim (Bool-cases (ltb_ℤ r.commit_id k)) [
  | inl lower ↦
      let below : r.commit_id <ℤ k = ground arith in
      simp lower (
        sym (
            with_commit-append r.commit_id rs r
            ∙ rw (
              with_commit_below r.commit_id k rs below l,
              (eqb_ℤ_iff r.commit_id r.commit_id).1 refl,
            )),
        IsLeast-append r.commit_id rs r (IsLeast-mono r.commit_id k rs (omega arith) l)
            (omega arith),
      )
  | inr not_lower ↦ elim (Bool-cases (eqb_ℤ r.commit_id k)) [
    | inl same ↦
        simp (not_lower, same)
          (sym (with_commit-append k rs r ∙ simp (same, e)), IsLeast-append k rs r l (ground arith))
    | inr other ↦
        simp (not_lower, other)
          (
            sym (with_commit-append k rs r ∙ rw other (append-nil (with_commit k rs)) ∙ sym e),
            IsLeast-append k rs r l (ground arith),
          )
  ]
]

group_responses-HeadOk :
    (tries : List (Option GetMemberStateRespMsg)) (v : List (ℤ × List GetMemberStateRespMsg))
    (rs : List GetMemberStateRespMsg)
    → HeadOk v rs
    → HeadOk (group_responses tries v) (rs ++ responders tries)
unfolding group_responses responders
group_responses-HeadOk [] v rs h = rw (append-nil rs) h
group_responses-HeadOk (none ∷ tries) v rs h = group_responses-HeadOk tries v rs h
group_responses-HeadOk (some r ∷ tries) v rs h =
    rw (append_assoc rs (r ∷ []) (responders tries)) at (
      group_responses-HeadOk tries (add_response r v) (rs ++ r ∷ []) (add_response-HeadOk r v rs h))

-- The election's choice: everybody that answered with the least commit id, if they are a quorum.
abbrev pub Chosen : ℕ → List GetMemberStateRespMsg → List GetMemberStateRespMsg → Type 0
Chosen quorum rs ms = (k : ℤ) × (ms ≡ with_commit k rs) × IsLeast k rs × (quorum ≤ length ms)

elected_of_HeadOk :
    (quorum : ℕ) (v : List (ℤ × List GetMemberStateRespMsg)) (rs ms : List GetMemberStateRespMsg)
    → HeadOk v rs
    → elected quorum v ≡ some ms
    → Chosen quorum rs ms
unfolding elected
elected_of_HeadOk quorum [] rs ms h e = cc
elected_of_HeadOk quorum ((k, g) ∷ v) rs ms (f, l) e =
    let same : g ≡ ms = ground arith in
    (k, sym same ∙ f, l, ground (arith, leb_iff quorum (length g)))

-- An election that succeeds chooses all who answered with the least commit id among the answers,
-- in the order of the members, and they are at least `quorum`.
pub elected-Chosen :
    (quorum : ℕ) (tries : List (Option GetMemberStateRespMsg)) (ms : List GetMemberStateRespMsg)
    → elected quorum (group_responses tries []) ≡ some ms
    → Chosen quorum (responders tries) ms
elected-Chosen quorum tries ms e =
    elected_of_HeadOk quorum (group_responses tries []) (responders tries) ms
      (group_responses-HeadOk tries [] [] refl) e

least_mem :
    (k : ℤ) (rs : List GetMemberStateRespMsg) (r : GetMemberStateRespMsg)
    → IsLeast k rs
    → Mem r rs
    → k ≤ℤ r.commit_id
least_mem k [] r l m = absurd (not-mem-nil m)
least_mem k (q ∷ rs) r l m = Or.elim le_prop (mem-cons.0 m) (λ e. rw e l.0) (least_mem k rs r l.1)

lt_of_IsLeast : (k b a : ℤ) → k ≤ℤ b → b <ℤ a → k <ℤ a
lt_of_IsLeast k b a h l = omega arith

abbrev AllBelow : GetMemberStateRespMsg → List GetMemberStateRespMsg → Type 0
AllBelow r = All (λ q. q.commit_id <ℤ r.commit_id)

with_commit-AllBelow :
    (k : ℤ) (r : GetMemberStateRespMsg) (rs : List GetMemberStateRespMsg)
    → k <ℤ r.commit_id
    → AllBelow r (with_commit k rs)
unfolding with_commit
with_commit-AllBelow k r [] h = tt
with_commit-AllBelow k r (q ∷ rs) h = elim (Bool-cases (eqb_ℤ q.commit_id k)) [
  | inl e ↦ simp e (rw ((eqb_ℤ_iff q.commit_id k).0 e) h, with_commit-AllBelow k r rs h)
  | inr e ↦ simp e (with_commit-AllBelow k r rs h)
]

-- So an answer with a commit id above another's is never chosen: if one responder is behind
-- another and an election succeeds, all that it chooses are behind the latter.
pub elected_behind :
    (quorum : ℕ) (tries : List (Option GetMemberStateRespMsg)) (ms : List GetMemberStateRespMsg)
    (behind ahead : GetMemberStateRespMsg)
    → Mem behind (responders tries)
    → behind.commit_id <ℤ ahead.commit_id
    → elected quorum (group_responses tries []) ≡ some ms
    → All (λ q. q.commit_id <ℤ ahead.commit_id) ms
elected_behind quorum tries ms behind ahead b h e =
    let (k, f, l, _) = elected-Chosen quorum tries ms e in
    rw f (
      with_commit-AllBelow k ahead (responders tries) (
        lt_of_IsLeast k behind.commit_id ahead.commit_id (least_mem k (responders tries) behind l b)
          h))
