-- ===== src/Member/Watch/Registered.antt =====
-- How many watches a member has on its group.
use datom.Common.{ℕ, ◌+◌, ◌<◌, ◌≤◌, ◌≡◌}
use datom.Member.Loop.Frame.{count_reads, count_delays, count_leads}
use datom.Member.Watch.{FirstRead, asked, answered, refused, Watched}

-- The watch that the read of `init` has set.
abbrev pub set_by_init : FirstRead → ℕ
set_by_init asked = 0
set_by_init answered = 1
set_by_init refused = 0

-- The reads with a watch that are sent are that of `init` and those of watchCb_.
pub record IsBalanced (s : Watched) : Type 0 where
  pub balance :
      s.watches + count_reads s.member.sent
      ≡ 1 + s.answered_reads + s.delays_ended + set_by_init s.first
  pub answers : s.answered_reads < count_reads s.member.sent
  pub ended : s.delays_ended ≤ count_delays s.member.sent
  pub scheduled : count_delays s.member.sent ≡ count_leads s.member.sent

-- What `fire` leaves alone, and what it adds.
pub record Fired (n : ℕ) (s t : Watched) : Type 0 where
  pub watches : t.watches ≡ s.watches
  pub first : t.first ≡ s.first
  pub answers : t.answered_reads ≡ s.answered_reads
  pub ended : t.delays_ended ≡ s.delays_ended
  pub reads : count_reads t.member.sent ≡ n + count_reads s.member.sent
  pub delays : count_delays t.member.sent ≡ count_delays s.member.sent
  pub leads : count_leads t.member.sent ≡ count_leads s.member.sent
