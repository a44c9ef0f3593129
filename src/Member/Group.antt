-- ===== src/Member/Group.antt =====
-- The children of the group key: hasLock_, parseMembers_, canIBeElector_ and hasQuorumMemberCount_
-- of src/infra/PBMember.cpp.
pub mod Order
use datom.Common.{
  ℕ, ◌-◌, ◌<◌, String, str_eq, ◌≡◌, Bool, true, false, ◌&&◌, Option, none, some, List, [], ◌∷◌, ltb,
  leb, ◌==◌, find_if, length, if◌then◌else◌,
}
use datom.Member.{PbMember}

-- folly::split(delimiter, text, v) and folly::to<uint64_t>, where `none` is its exception. Both
-- are third-party code.
pub record Conv : Type 0 where
  pub split : String → String → List String
  pub to_uint64 : String → Option ℕ

abbrev pub pb_lock_key : String
pb_lock_key = "LOCK"

abbrev pub groupwatch_interval_ms : ℕ
groupwatch_interval_ms = 10000

-- std::find(children, PB_LOCK_KEY) != end
unfoldable pub has_lock : List String → Bool
has_lock [] = false
has_lock (c ∷ cs) = if str_eq c pb_lock_key then true else has_lock cs

-- ret[key] = id on a std::map, which is kept in the order of its keys.
unfoldable pub map_put {ℓ} : {A : Type ℓ} → ℕ → A → List (ℕ × A) → List (ℕ × A)
map_put k v [] = (k, v) ∷ []
map_put k v ((j, w) ∷ m) =
    let rest = map_put k v m in
    if ltb k j then (k, v) ∷ (j, w) ∷ m else if k == j then (k, v) ∷ m else (j, w) ∷ rest

-- A child by the pieces of its name: not two pieces, a number that folly::to refuses, or a member.
pub data Child : Type 0 where
  ignored malformed : Child
  member : ℕ → String → Child

abbrev numbered : String → Option ℕ → Child
numbered id none = malformed
numbered id (some k) = member k id

module _ (conv : Conv) where
  unfoldable pub classify : List String → Child
  classify (id ∷ sequence ∷ []) = numbered id (conv.to_uint64 sequence)
  classify _ = ignored

  abbrev parse_child : Child → List (ℕ × String) → Option (List (ℕ × String))
  unfolding map_put
  parse_child ignored ret = some ret
  parse_child malformed ret = none
  parse_child (member k id) ret = some (map_put k id ret)

  abbrev next_child :
      Option (List (ℕ × String))
      → (List (ℕ × String) → Option (List (ℕ × String)))
      → Option (List (ℕ × String))
  next_child none k = none
  next_child (some ret) k = k ret

  -- The loop of parseMembers_; `none` is the exception of folly::to.
  unfoldable pub parse_from : List String → List (ℕ × String) → Option (List (ℕ × String))
  unfolding classify map_put
  parse_from [] ret = some ret
  parse_from (c ∷ cs) ret =
      next_child (parse_child (classify (conv.split ":" c)) ret) (parse_from cs)

  unfoldable pub parse_members : List String → Option (List (ℕ × String))
  unfolding parse_from
  parse_members children = parse_from children []

  abbrev first_is : String → List (ℕ × String) → Bool
  first_is id [] = false
  first_is id ((k, first) ∷ rest) = str_eq first id

  -- `now` is what the steady clock reads; `none` is an exception.
  unfoldable pub can_i_be_elector : ℕ → List String → PbMember → Option Bool
  unfolding parse_members
  can_i_be_elector now children m =
      if ltb (now - m.last_election_timepoint) groupwatch_interval_ms
      then some false
      else elim (parse_members children) [
        | none ↦ none
        | some members ↦ some (first_is m.my_id members)
      ]

  unfoldable pub has_quorum_member_count : List String → PbMember → Option Bool
  unfolding parse_members
  has_quorum_member_count children m = elim (parse_members children) [
    | none ↦ none
    | some members ↦ some (leb m.quorum (length members))
  ]
