-- ===== src/Volume/Replica/Catchup.antt =====
-- A follower that replays what the leader answered to its pull.
use mathlib.Core.List.{reverse}
use datom.Common.{
  suc_ℤ, String, str_eq, ◌≡◌, refl, Bool, false, true, Bool-cases, inl, inr, ◌&&◌, ap, sym, ◌∙◌,
  subst, List, [], ◌∷◌, All,
}
use datom.Exec.{Outcome, returned, thrown}
use datom.Status.{Exception, of_status, status_exception, not_leader}
use datom.Member.{PbMember, PullJournalEntriesMsg, throw_ifnot_leader, is_leader_state, has_ctx}
use datom.Journal.{JournalEntry, retrieve_entries, to_entry}
use datom.Journal.Sequence.{IsConsecutive}
use datom.Journal.Retrieval.{select}
use datom.Journal.Descent.{
  reverse-Descends, select-Descends, retrieve_entries-select, All-retrieved,
}
use datom.Volume.{Rocks, IsAtomic, VolumeReplica, UpdateBlobMetaMsg}
use datom.Volume.Replica.{apply_op_batch, handle_pull_journal_entries_msg, type_str}
use datom.Volume.Replica.Replay.{Succeeded, replay_newest_first_fails}

module _ (rocks : Rocks) (atomic : IsAtomic rocks) (decode : String → UpdateBlobMetaMsg) where
  -- A record of the journal that holds the write with its id.
  abbrev pub HoldsWrite : JournalEntry → Type 0
  HoldsWrite e = (str_eq e.msg_id type_str ≡ true) × ((decode e.buffer).commit_id ≡ e.entry_id)

  abbrev entries_of : Outcome (List JournalEntry) → List JournalEntry
  entries_of (returned entries) = entries
  entries_of _ = []

  thrown-returned : (x : Exception) (xs : List JournalEntry) → thrown x ≡ returned xs → ⊥
  thrown-returned x xs e = cc

  abbrev leads : VolumeReplica rocks → Bool
  leads leader = is_leader_state leader.member.state && has_ctx leader.member.leader_ctx

  lets_leaders :
      (m : PbMember)
      → is_leader_state m.state && has_ctx m.leader_ctx ≡ true
      → throw_ifnot_leader m ≡ (returned tt, m)
  unfolding throw_ifnot_leader
  lets_leaders m b = rw (b, throw_ifnot_leader) refl

  stops_others :
      (m : PbMember)
      → is_leader_state m.state && has_ctx m.leader_ctx ≡ false
      → throw_ifnot_leader m ≡ (thrown (of_status (status_exception not_leader)), m)
  unfolding throw_ifnot_leader
  stops_others m b = rw (b, throw_ifnot_leader) refl

  leader_answers :
      (msg : PullJournalEntriesMsg) (leader : VolumeReplica rocks)
      → leads leader ≡ true
      → (handle_pull_journal_entries_msg rocks msg leader).0
        ≡ returned
            (retrieve_entries msg.from_id msg.to_id msg.max_bytes_in_resp leader.journal []).1
  unfolding handle_pull_journal_entries_msg
  leader_answers msg leader b = rw (lets_leaders leader.member b) refl

  others_throw :
      (msg : PullJournalEntriesMsg) (leader : VolumeReplica rocks)
      → leads leader ≡ false
      → (handle_pull_journal_entries_msg rocks msg leader).0
        ≡ thrown (of_status (status_exception not_leader))
  unfolding handle_pull_journal_entries_msg
  others_throw msg leader b = rw (stops_others leader.member b) refl

  -- An answer to a pull is the range, read from the journal's end.
  pull-answer :
      (msg : PullJournalEntriesMsg) (leader : VolumeReplica rocks) (xs : List JournalEntry)
      → (handle_pull_journal_entries_msg rocks msg leader).0 ≡ returned xs
      → select msg.from_id msg.to_id (reverse leader.journal.entries) ≡ xs
  pull-answer msg leader xs h = elim (Bool-cases (leads leader)) [
    | inl b ↦
        let answer =
          retrieve_entries-select msg.from_id msg.to_id msg.max_bytes_in_resp leader.journal in
        sym (ap (λ x. x.1) answer) ∙ ap entries_of (sym (leader_answers msg leader b) ∙ h)
    | inr b ↦ absurd (thrown-returned _ xs (sym (others_throw msg leader b) ∙ h))
  ]

  -- If the leader's journal has consecutive ids and holds the writes with these ids, then a batch of
  -- two entries or more that the leader answers to a pull never succeeds at a follower, whatever the
  -- follower holds.
  pub pulled_batch_fails :
      (msg : PullJournalEntriesMsg) (leader s : VolumeReplica rocks) (e f : JournalEntry)
      (rest : List JournalEntry)
      → IsConsecutive leader.journal.entries
      → All (λ r. HoldsWrite (to_entry r)) leader.journal.entries
      → (handle_pull_journal_entries_msg rocks msg leader).0 ≡ returned (e ∷ f ∷ rest)
      → ¬ Succeeded (apply_op_batch rocks decode (e ∷ f ∷ rest) s).0
  pulled_batch_fails msg leader s e f rest c w h =
      let answered = pull-answer msg leader (e ∷ f ∷ rest) h in
      let held =
        subst (All HoldsWrite) answered
          (All-retrieved HoldsWrite msg.from_id msg.to_id leader.journal.entries w) in
      let adjacent =
        select-Descends msg.from_id msg.to_id (reverse leader.journal.entries) e f rest
          (reverse-Descends leader.journal.entries c) answered in
      replay_newest_first_fails rocks atomic decode e f rest s held.0.0 held.1.0.0
        (held.0.1 ∙ (adjacent ∙ ap suc_ℤ (sym held.1.0.1)))
