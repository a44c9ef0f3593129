-- ===== src/Volume/Replica/Writes.antt =====
-- A write at one replica, on every branch.
use datom.Common.{String, ◌≡◌, ap, ◌∙◌, ◌⊎◌, inl, inr, Bool, true, false, back?, Bool-cases}
use datom.Status.{status_ok, invalid_commit, db_write_failure, status_exception, of_status}
use datom.Exec.{Outcome, returned, thrown}
use datom.Journal.{Journal, Record, add_entry, remove_last_entry}
use datom.Journal.Sequence.{Follows, appended, add_entry_lem}
use datom.Volume.{Rocks, IsAtomic, VolumeReplica, UpdateBlobMetaMsg}
use datom.Volume.MetaDb.{make_batch, apply_update}
use datom.Volume.Replica.{handle_metadata_write, type_str}

module _ (rocks : Rocks) (atomic : IsAtomic rocks) where
  abbrev entry_of : UpdateBlobMetaMsg → String → Record
  entry_of msg buffer = record { id = msg.commit_id; type = type_str; buf = buffer }

  abbrev pub outcome_of : UpdateBlobMetaMsg → rocks.Store → Bool × rocks.Store
  outcome_of msg db = rocks.write (make_batch msg.blob_id msg.chunk_list) db

  -- What a write at one replica does.
  abbrev pub Written : UpdateBlobMetaMsg → String → VolumeReplica rocks → Type 0
  Written msg buffer s =
      (Follows (back? s.journal.entries) msg.commit_id
        × ((outcome_of msg s.db).0 ≡ true)
        × (handle_metadata_write rocks msg buffer s ≡ (
          returned tt,
          record s {
            journal = appended s.journal (entry_of msg buffer);
            db = (outcome_of msg s.db).1;
          },
        )))
      ⊎ (Follows (back? s.journal.entries) msg.commit_id
          × ((outcome_of msg s.db).0 ≡ false)
          × (handle_metadata_write rocks msg buffer s
              ≡ (thrown (of_status (status_exception db_write_failure)), s)))
      ⊎ ((¬ Follows (back? s.journal.entries) msg.commit_id)
          × (handle_metadata_write rocks msg buffer s
              ≡ (thrown (of_status (status_exception invalid_commit)), s)))

  write_ok :
      (msg : UpdateBlobMetaMsg) (buffer : String) (s : VolumeReplica rocks) (j : Journal)
      → add_entry msg.commit_id type_str buffer s.journal ≡ (status_ok, j)
      → (outcome_of msg s.db).0 ≡ true
      → handle_metadata_write rocks msg buffer s
        ≡ (returned tt, record s { journal = j; db = (outcome_of msg s.db).1 })
  unfolding handle_metadata_write apply_update
  write_ok msg buffer s j e w = rw (e, w)

  write_failed :
      (msg : UpdateBlobMetaMsg) (buffer : String) (s : VolumeReplica rocks) (j : Journal)
      → add_entry msg.commit_id type_str buffer s.journal ≡ (status_ok, j)
      → (outcome_of msg s.db).0 ≡ false
      → remove_last_entry j ≡ s.journal
      → handle_metadata_write rocks msg buffer s
        ≡ (thrown (of_status (status_exception db_write_failure)), s)
  unfolding handle_metadata_write apply_update
  write_failed msg buffer s j e w r =
      rw (e, w)
        (ap (λ k. failed_with (record s { journal = k; db = (outcome_of msg s.db).1 })) r
          ∙ ap (λ d. failed_with (record s { db = d }))
              (atomic (make_batch msg.blob_id msg.chunk_list) s.db w))
    where
      failed_with : VolumeReplica rocks → Outcome (Unit {0}) × VolumeReplica rocks
      failed_with t = (thrown (of_status (status_exception db_write_failure)), t)

  write_refused :
      (msg : UpdateBlobMetaMsg) (buffer : String) (s : VolumeReplica rocks)
      → add_entry msg.commit_id type_str buffer s.journal ≡ (invalid_commit, s.journal)
      → handle_metadata_write rocks msg buffer s
        ≡ (thrown (of_status (status_exception invalid_commit)), s)
  unfolding handle_metadata_write
  write_refused msg buffer s e = rw e

  -- A write at one replica: it is journalled and stored; or the database fails, and the replica is
  -- as it was; or its commit id does not follow the last one, and the replica is as it was.
  pub handle_metadata_write_lem :
      (msg : UpdateBlobMetaMsg) (buffer : String) (s : VolumeReplica rocks) → Written msg buffer s
  handle_metadata_write_lem msg buffer s =
      elim (add_entry_lem msg.commit_id type_str buffer s.journal) [
        | inl (f, e, r) ↦ elim (Bool-cases (outcome_of msg s.db).0) [
          | inl w ↦ inl (f, w, write_ok msg buffer s (appended s.journal (entry_of msg buffer)) e w)
          | inr w ↦ inr (
              inl
                (f, w, write_failed msg buffer s (appended s.journal (entry_of msg buffer)) e w r))
        ]
        | inr (n, e) ↦ inr (inr (n, write_refused msg buffer s e))
      ]
