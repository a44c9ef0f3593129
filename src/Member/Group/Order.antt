-- ===== src/Member/Group/Order.antt =====
-- Who may become the elector.
use datom.Common.{
  ℕ, ◌-◌, ◌≤◌, ◌<◌, String, eq_iff, ◌≡◌, ap, sym, subst, ◌∙◌, true, some, List, [], ◌∷◌, arith,
  Option-cases, inl, inr,
}
use mathlib.Core.Option.{some-injective}
use datom.Member.{PbMember}
use datom.Member.Group.{
  Conv, Child, ignored, malformed, member, map_put, parse_child, classify, parse_from,
  parse_members, can_i_be_elector, first_is, groupwatch_interval_ms,
}

module _ {ℓ} {A : Type ℓ} where
  abbrev pub AllAbove : ℕ → List (ℕ × A) → Type 0
  AllAbove k [] = Unit {0}
  AllAbove k ((j, v) ∷ m) = (k < j) × AllAbove k m

  -- The keys ascend.
  abbrev pub IsSorted : List (ℕ × A) → Type 0
  IsSorted [] = Unit {0}
  IsSorted ((k, v) ∷ m) = AllAbove k m × IsSorted m

  AllAbove-mono : (j k : ℕ) (m : List (ℕ × A)) → j < k → AllAbove k m → AllAbove j m
  AllAbove-mono j k [] h a = tt
  AllAbove-mono j k ((i, v) ∷ m) h a = (omega arith, AllAbove-mono j k m h a.1)

  AllAbove-map_put :
      (j k : ℕ) (v : A) (m : List (ℕ × A)) → j < k → AllAbove j m → AllAbove j (map_put k v m)
  unfolding map_put
  AllAbove-map_put j k v [] h a = (h, tt)
  AllAbove-map_put j k v ((i, w) ∷ m) h a = ground (arith, AllAbove-map_put j k v m h a.1)

  map_put-IsSorted : (k : ℕ) (v : A) (m : List (ℕ × A)) → IsSorted m → IsSorted (map_put k v m)
  unfolding map_put
  map_put-IsSorted k v [] s = (tt, tt)
  map_put-IsSorted k v ((i, w) ∷ m) s =
      ground (arith, map_put-IsSorted k v m s.1, AllAbove-map_put i k v m, AllAbove-mono k i m)

module _ (conv : Conv) where
  -- One child keeps the map sorted.
  parse_child-IsSorted :
      (child : Child) (ret out : List (ℕ × String))
      → IsSorted ret
      → parse_child conv child ret ≡ some out
      → IsSorted out
  unfolding map_put
  parse_child-IsSorted ignored ret out s e = subst IsSorted (some-injective ret out e) s
  parse_child-IsSorted malformed ret out s e = absurd (cc)
  parse_child-IsSorted (member k id) ret out s e =
      subst IsSorted (some-injective (map_put k id ret) out e) (map_put-IsSorted k id ret s)

  parse_from-IsSorted :
      (children : List String) (ret out : List (ℕ × String))
      → IsSorted ret
      → parse_from conv children ret ≡ some out
      → IsSorted out
  unfolding parse_from
  parse_from-IsSorted [] ret out s e = subst IsSorted (some-injective ret out e) s
  parse_from-IsSorted (c ∷ cs) ret out s e =
      elim (Option-cases (parse_child conv (classify conv (conv.split ":" c)) ret)) [
        | inl f ↦ absurd (cc)
        | inr (mid, f) ↦
            parse_from-IsSorted cs mid out
              (parse_child-IsSorted (classify conv (conv.split ":" c)) ret mid s f) (rw f at e)
      ]

  parse_members-IsSorted :
      (children : List String) (out : List (ℕ × String))
      → parse_members conv children ≡ some out
      → IsSorted out
  unfolding parse_members
  parse_members-IsSorted children out e = parse_from-IsSorted children [] out tt e

  -- What makes a member the elector.
  pub record Elects (now : ℕ) (children : List String) (m : PbMember) : Type 0 where
    pub sequence : ℕ
    pub rest : List (ℕ × String)
    pub parsed : parse_members conv children ≡ some ((sequence, m.my_id) ∷ rest)
    pub least : AllAbove sequence rest
    pub rested : groupwatch_interval_ms ≤ now - m.last_election_timepoint

  first_is_lem :
      (id : String) (members : List (ℕ × String))
      → first_is conv id members ≡ true
      → (k : ℕ) × (rest : List (ℕ × String)) × (members ≡ (k, id) ∷ rest)
  first_is_lem id [] e = absurd (cc)
  first_is_lem id ((k, first) ∷ rest) e =
      (k, rest, ap (λ (x : String). (k, x) ∷ rest) ((eq_iff first id).0 e))

  can_i_be_elector_parsed :
      (now : ℕ) (children : List String) (m : PbMember)
      → can_i_be_elector conv now children m ≡ some true
      → (groupwatch_interval_ms ≤ now - m.last_election_timepoint)
        × ((members : List (ℕ × String)) × (parse_members conv children ≡ some members)
            × (first_is conv m.my_id members ≡ true))
  unfolding can_i_be_elector
  can_i_be_elector_parsed now children m e = elim (Option-cases (parse_members conv children)) [
    | inl f ↦ absurd (ground arith)
    | inr (members, f) ↦ (ground arith, (members, f, ground arith))
  ]

  -- A member that may be the elector is the one whose node has the least sequence number among the
  -- members listed, and 10 seconds have passed since its last successful election.
  pub can_i_be_elector-Elects :
      (now : ℕ) (children : List String) (m : PbMember)
      → can_i_be_elector conv now children m ≡ some true
      → Elects now children m
  can_i_be_elector-Elects now children m e =
      let (r, (members, p, f)) = can_i_be_elector_parsed now children m e in
      let (k, rest, g) = first_is_lem m.my_id members f in
      record {
        sequence = k;
        rest = rest;
        parsed = p ∙ ap some g;
        least = (parse_members-IsSorted children ((k, m.my_id) ∷ rest) (p ∙ ap some g)).0;
        rested = r;
      }

  -- Two members that see the same children cannot both be the elector.
  pub one_elector :
      (now later : ℕ) (children : List String) (m n : PbMember)
      → can_i_be_elector conv now children m ≡ some true
      → can_i_be_elector conv later children n ≡ some true
      → m.my_id ≡ n.my_id
  one_elector now later children m n e f =
      let a = can_i_be_elector-Elects now children m e in
      let b = can_i_be_elector-Elects later children n f in
      same_first a.sequence b.sequence m.my_id n.my_id a.rest b.rest (sym a.parsed ∙ b.parsed)
    where
      same_first :
          (i j : ℕ) (x y : String) (xs ys : List (ℕ × String))
          → some ((i, x) ∷ xs) ≡ some ((j, y) ∷ ys)
          → x ≡ y
      same_first i j x y xs ys p = cc
