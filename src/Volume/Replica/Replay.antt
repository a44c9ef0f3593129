-- ===== src/Volume/Replica/Replay.antt =====
-- A batch of pulled journal entries at the follower that replays it.
use datom.Common.{
  subst, ℕ, ℤ, String, str_eq, ◌≡◌, refl, ap, ◌∙◌, sym, inl, inr, Bool, true, false, Option, some,
  List, [], ◌∷◌, ◌++◌, arith, back?, back?-append, suc_ℤ, parts-suc_ℤ, pos_part, neg_part, All,
}
use mathlib.Core.List.{append-nil, append_assoc}
use datom.Exec.{Outcome, returned, thrown, aborted}
use datom.Journal.{Record, JournalEntry}
use datom.Journal.Sequence.{Follows, appended}
use datom.Volume.{Rocks, IsAtomic, VolumeReplica, UpdateBlobMetaMsg}
use datom.Volume.MetaDb.{make_batch}
use datom.Volume.Replica.{handle_metadata_write, apply_op_batch, collected, type_str}
use datom.Volume.Replica.Writes.{outcome_of, handle_metadata_write_lem}

-- Whether a call returned.
abbrev pub Succeeded : Outcome (Unit {0}) → Type 0
Succeeded (returned a) = Unit {0}
Succeeded (thrown e) = ⊥
Succeeded aborted = ⊥

collected_parts : (r t : Outcome (Unit {0})) → Succeeded (collected r t) → Succeeded r × Succeeded t
collected_parts (returned a) t k = (tt, k)
collected_parts (thrown e) t k = absurd k
collected_parts aborted t k = absurd k

true-false : (b : Bool) → b ≡ true → b ≡ false → ⊥
true-false b e f = cc

pub ids_differ : (a b : ℤ) → a ≡ suc_ℤ b → suc_ℤ a ≡ b → ⊥
ids_differ a b e f = omega (
  arith,
  parts-suc_ℤ a,
  parts-suc_ℤ b,
  ap pos_part e,
  ap neg_part e,
  ap pos_part f,
  ap neg_part f,
)

module _ (rocks : Rocks) (atomic : IsAtomic rocks) (decode : String → UpdateBlobMetaMsg) where
  abbrev commit_of : JournalEntry → ℤ
  commit_of e = (decode e.buffer).commit_id

  -- An operation this replica has a handler for.
  abbrev pub IsUpdate : JournalEntry → Type 0
  IsUpdate e = str_eq e.msg_id type_str ≡ true

  batch_cons :
      (e : JournalEntry) (entries : List JournalEntry) (s : VolumeReplica rocks)
      → IsUpdate e
      → apply_op_batch rocks decode (e ∷ entries) s ≡ (
        collected
            (handle_metadata_write rocks (decode e.buffer) e.buffer s).0
            (apply_op_batch rocks decode entries
              (handle_metadata_write rocks (decode e.buffer) e.buffer s).1).0,
        (apply_op_batch rocks decode entries
            (handle_metadata_write rocks (decode e.buffer) e.buffer s).1).1,
      )
  unfolding apply_op_batch
  batch_cons e entries s h = rw h refl

  -- A write that returns has put its commit id at the end of the journal.
  Succeeded-last :
      (msg : UpdateBlobMetaMsg) (buffer : String) (s : VolumeReplica rocks)
      → Succeeded (handle_metadata_write rocks msg buffer s).0
      → (r : Record) × (r.id ≡ msg.commit_id)
        × (back? (handle_metadata_write rocks msg buffer s).1.journal.entries ≡ some r)
        × Follows (back? s.journal.entries) msg.commit_id
  Succeeded-last msg buffer s k = elim (handle_metadata_write_lem rocks atomic msg buffer s) [
    | inl (f, _, e) ↦
        let r : Record = record { id = msg.commit_id; type = type_str; buf = buffer } in
        (r, refl, rw e (back?-append s.journal.entries r), f)
    | inr (inl (_, _, e)) ↦ absurd (rw e at k)
    | inr (inr (_, e)) ↦ absurd (rw e at k)
  ]

  Follows-last :
      (o : Option Record) (r : Record) (i : ℤ) → o ≡ some r → Follows o i → suc_ℤ r.id ≡ i
  Follows-last o r i e f = rw e at f

  -- A batch whose first two operations stand newest first does not succeed, whatever the follower
  -- holds: their commit ids are i + 1 and then i.
  pub replay_newest_first_fails :
      (e f : JournalEntry) (rest : List JournalEntry) (s : VolumeReplica rocks)
      → IsUpdate e
      → IsUpdate f
      → commit_of e ≡ suc_ℤ (commit_of f)
      → ¬ Succeeded (apply_op_batch rocks decode (e ∷ f ∷ rest) s).0
  replay_newest_first_fails e f rest s he hf d k =
      let s' = (handle_metadata_write rocks (decode e.buffer) e.buffer s).1 in
      let (a, b) =
        collected_parts _ _ (subst (λ x. Succeeded x.0) (batch_cons e (f ∷ rest) s he) k) in
      let (c, _) = collected_parts _ _ (subst (λ x. Succeeded x.0) (batch_cons f rest s' hf) b) in
      let (r, i, l, _) = Succeeded-last (decode e.buffer) e.buffer s a in
      let (_, _, _, g) = Succeeded-last (decode f.buffer) f.buffer s' c in
      ids_differ (commit_of e) (commit_of f) d
        (ap suc_ℤ (sym i) ∙ Follows-last (back? s'.journal.entries) r (commit_of f) l g)

  abbrev record_of : JournalEntry → Record
  record_of e = record { id = commit_of e; type = type_str; buf = e.buffer }

  abbrev pub records_of : List JournalEntry → List Record
  records_of [] = []
  records_of (e ∷ es) = record_of e ∷ records_of es

  -- Each commit id follows the one before it, the first of them the end of the journal.
  abbrev pub InSequence : Option Record → List JournalEntry → Type 0
  InSequence o [] = Unit {0}
  InSequence o (e ∷ es) = Follows o (commit_of e) × InSequence (some (record_of e)) es

  write_succeeds :
      (e : JournalEntry) (s : VolumeReplica rocks)
      → ((batch : List (List ℕ × String)) (db : rocks.Store) → (rocks.write batch db).0 ≡ true)
      → Follows (back? s.journal.entries) (commit_of e)
      → handle_metadata_write rocks (decode e.buffer) e.buffer s ≡ (
        returned tt,
        record s {
          journal = appended s.journal (record_of e);
          db = (outcome_of rocks atomic (decode e.buffer) s.db).1;
        },
      )
  write_succeeds e s w f =
      elim (handle_metadata_write_lem rocks atomic (decode e.buffer) e.buffer s) [
        | inl (_, _, h) ↦ h
        | inr (inl (_, n, _)) ↦ absurd (
            true-false
              (rocks.write (make_batch (decode e.buffer).blob_id (decode e.buffer).chunk_list)
                s.db).0
              (w _ _) n)
        | inr (inr (n, _)) ↦ absurd (n f)
      ]

  -- With a database that takes every batch, operations whose commit ids continue the follower's
  -- journal in ascending order are all applied, and the journal ends with them, in that order.
  pub replay_in_order :
      (entries : List JournalEntry) (s : VolumeReplica rocks)
      → ((batch : List (List ℕ × String)) (db : rocks.Store) → (rocks.write batch db).0 ≡ true)
      → All IsUpdate entries
      → InSequence (back? s.journal.entries) entries
      → ((apply_op_batch rocks decode entries s).0 ≡ returned tt)
        × ((apply_op_batch rocks decode entries s).1.journal.entries
            ≡ s.journal.entries ++ records_of entries)
  unfolding apply_op_batch
  replay_in_order [] s w u q = (refl, sym (append-nil s.journal.entries))
  replay_in_order (e ∷ entries) s w u q =
      let t : VolumeReplica rocks = record s {
        journal = appended s.journal (record_of e);
        db = (outcome_of rocks atomic (decode e.buffer) s.db).1;
      } in
      let (a, b) = replay_in_order entries t w u.1 (
        subst (λ o. InSequence o entries) (sym (back?-append s.journal.entries (record_of e)))
          q.1) in
      rw (u.0, write_succeeds e s w q.0)
        (a, b ∙ append_assoc s.journal.entries (record_of e ∷ []) (records_of entries))
