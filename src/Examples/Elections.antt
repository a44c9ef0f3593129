-- ===== src/Examples/Elections.antt =====
-- The theorems on electors and elections at concrete groups.
use datom.Common.{pos, str_eq, refl, Option, none, some, List, [], ◌∷◌, if◌then◌else◌}
use datom.Member.{GetMemberStateRespMsg}
use datom.Member.Group.{Conv, can_i_be_elector}
use datom.Member.Group.Order.{Elects, can_i_be_elector-Elects}
use datom.Member.Election.{elected, group_responses}
use datom.Member.Election.Responses.{responders, Chosen, elected-Chosen}
use datom.Examples.{joining, answer_of}

-- Reads the two children below.
abbrev conv : Conv
conv = record {
  split = λ d text. if str_eq text "2:7" then "2" ∷ "7" ∷ [] else "3" ∷ "9" ∷ [];
  to_uint64 = λ text. if str_eq text "7" then some 7 else some 9;
}

can_i_be_elector-Elects_example : Elects conv 20000 ("3:9" ∷ "2:7" ∷ []) joining
unfolding can_i_be_elector
can_i_be_elector-Elects_example =
    can_i_be_elector-Elects conv 20000 ("3:9" ∷ "2:7" ∷ []) joining refl

-- Node 1 does not answer, and node 3 is ahead.
abbrev tries : List (Option GetMemberStateRespMsg)
tries = none ∷ some (answer_of "2" (pos 4)) ∷ some (answer_of "3" (pos 6)) ∷ []

elected-Chosen_example : Chosen 1 (responders tries) (answer_of "2" (pos 4) ∷ [])
unfolding elected group_responses datom.Member.Election.add_response
elected-Chosen_example = elected-Chosen 1 tries (answer_of "2" (pos 4) ∷ []) refl
