-- ===== src/Member/Watch.antt =====
-- The watch of a member on its group: watchCb_ and scheduleGroupWatchEvent_ of
-- src/infra/PBMember.cpp over watcherFn of src/infra/ZooKafkaClient.cpp. ZooKeeper is third-party
-- code: a read that names a watcher sets one more watch when it succeeds, and none when it fails; the
-- next change of the group fires each watch that is set, once.
pub mod Registered
use datom.Common.{ℕ, String, zero, suc, ◌+◌, ◌<◌, ◌≡◌, ◌≢◌, List, [], ◌∷◌}
use datom.Exec.{Outcome, returned, aborted}
use datom.Member.{PbMember, Request, register_watch, run_after_delay, send}
use datom.Member.Group.{Conv}
use datom.Member.Election.{handle_group_watch_event}
use datom.Member.Loop.{Event, group_watch, call_failed, init, step}
use datom.Member.Loop.Frame.{count_reads, count_delays}

-- The read of `init`, whose answer is dropped: it is awaited, or it succeeded, or it failed.
pub data FirstRead : Type 0 where
  asked answered refused : FirstRead

-- A member with its watches that are set, how many of its reads from watchCb_ are answered, and how
-- often runAfterDelay has called watchCb_. What it has asked for is in `member.sent`.
pub record Watched : Type 0 where
  pub member : PbMember
  pub first : FirstRead
  pub watches : ℕ
  pub answered_reads : ℕ
  pub delays_ended : ℕ

-- watchCb_: the read of the children names a watcher again.
abbrev pub watch_cb : Watched → Watched
watch_cb s = record s { member = (send (register_watch s.member.group_key) s.member).1 }

-- watcherFn for each of the watches: the callback is called once and its context deleted.
abbrev pub fire : ℕ → Watched → Watched
fire zero s = s
fire (suc n) s = fire n (watch_cb s)

-- Events of the member's loop other than the answers to watchCb_.
abbrev pub IsOther : Event → Type 0
IsOther (group_watch now children) = ⊥
IsOther call_failed = ⊥
IsOther _ = Unit {0}

pub data Step (conv : Conv) : Watched → Watched → Type 0 where
  first_answered :
      (s : Watched)
      → s.first ≡ asked
      → 0 < count_reads s.member.sent
      → Step conv s (record s { first = answered; watches = suc s.watches })
  first_refused : (s : Watched) → s.first ≡ asked → Step conv s (record s { first = refused })
  group_changes : (s : Watched) → Step conv s (fire s.watches (record s { watches = 0 }))
  delay_ends :
      (s : Watched)
      → s.delays_ended < count_delays s.member.sent
      → Step conv s (watch_cb (record s { delays_ended = suc s.delays_ended }))
  -- a read that is sent, beside that of `init`, and not answered; the onError clauses end the process,
  -- so the next states are those of reads that succeed
  read_answered :
      (s : Watched) (now : ℕ) (children : List String) (m : PbMember)
      → 1 + s.answered_reads < count_reads s.member.sent
      → handle_group_watch_event conv now children s.member ≡ (returned tt, m)
      → Step conv s
          (record s { member = m; answered_reads = suc s.answered_reads; watches = suc s.watches })
  other_event :
      (s : Watched) (e : Event) (r : Outcome (Unit {0})) (m : PbMember)
      → IsOther e
      → step conv e s.member ≡ (r, m)
      → r ≢ aborted
      → Step conv s (record s { member = m })

pub data Reaches (conv : Conv) (s : Watched) : Watched → Type 0 where
  here : Reaches conv s s
  next : {t u : Watched} → Reaches conv s t → Step conv t u → Reaches conv s u

-- A member after `init`.
abbrev pub started : PbMember → Watched
unfolding init
started m = record {
  member = (init m).1;
  first = asked;
  watches = 0;
  answered_reads = 0;
  delays_ended = 0;
}
