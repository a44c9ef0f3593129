-- ===== src/Journal/Sequence.antt =====
-- The ids of a journal, and addEntry and removeLastEntry on every branch.
use datom.Common.{
  ℤ, String, ◌≡◌, ap, Option, none, some, List, [], ◌∷◌, ◌++◌, arith, suc_ℤ, back?, pop_back,
  pop_back-append, eqb_ℤ_iff, inl, inr, ◌⊎◌, sym, Bool-cases, true, false,
}
use datom.Status.{status_ok, invalid_commit}
use datom.Journal.{Record, Journal, add_entry, remove_last_entry, breaks_sequence}

-- Each id is the successor of the one before it.
abbrev pub IsConsecutive : List Record → Type 0
IsConsecutive [] = Unit {0}
IsConsecutive (x ∷ []) = Unit {0}
IsConsecutive (x ∷ y ∷ r) = (y.id ≡ suc_ℤ x.id) × IsConsecutive (y ∷ r)

-- `id` may follow the last entry.
abbrev pub Follows : Option Record → ℤ → Type 0
Follows none id = Unit {0}
Follows (some last) id = suc_ℤ last.id ≡ id

Follows-of_test : (o : Option Record) (id : ℤ) → breaks_sequence o id ≡ false → Follows o id
Follows-of_test none id h = tt
Follows-of_test (some last) id h = ground (arith, eqb_ℤ_iff (suc_ℤ last.id) id)

pub append-IsConsecutive :
    (xs : List Record) (r : Record)
    → IsConsecutive xs
    → Follows (back? xs) r.id
    → IsConsecutive (xs ++ r ∷ [])
append-IsConsecutive [] r c f = tt
append-IsConsecutive (x ∷ []) r c f = (sym f, tt)
append-IsConsecutive (x ∷ y ∷ xs) r c f = (c.0, append-IsConsecutive (y ∷ xs) r c.1 f)

pop_back-IsConsecutive : (xs : List Record) → IsConsecutive xs → IsConsecutive (pop_back xs)
pop_back-IsConsecutive [] c = tt
pop_back-IsConsecutive (x ∷ []) c = tt
pop_back-IsConsecutive (x ∷ y ∷ []) c = tt
pop_back-IsConsecutive (x ∷ y ∷ z ∷ xs) c = (c.0, pop_back-IsConsecutive (y ∷ z ∷ xs) c.1)

-- `add_entry` with the outcome of its test.
pub add_entry_accepts :
    (id : ℤ) (type buffer : String) (j : Journal)
    → breaks_sequence (back? j.entries) id ≡ false
    → add_entry id type buffer j ≡ (
      status_ok,
      record { entries = j.entries ++ record { id = id; type = type; buf = buffer } ∷ [] },
    )
unfolding add_entry
add_entry_accepts id type buffer j h = rw h

pub add_entry_refuses :
    (id : ℤ) (type buffer : String) (j : Journal)
    → breaks_sequence (back? j.entries) id ≡ true
    → add_entry id type buffer j ≡ (invalid_commit, j)
unfolding add_entry
add_entry_refuses id type buffer j h = rw h

-- Adding an entry, accepted or refused, and removing the last one keep the ids consecutive.
pub add_remove-IsConsecutive :
    (id : ℤ) (type buffer : String) (j : Journal)
    → IsConsecutive j.entries
    → IsConsecutive (add_entry id type buffer j).1.entries
      × IsConsecutive (remove_last_entry j).entries
unfolding remove_last_entry
add_remove-IsConsecutive id type buffer j c = (
  elim (Bool-cases (breaks_sequence (back? j.entries) id)) [
    | inl e ↦ rw (add_entry_refuses id type buffer j e) c
    | inr e ↦
        rw (add_entry_accepts id type buffer j e)
          (append-IsConsecutive j.entries _ c (Follows-of_test (back? j.entries) id e))
  ],
  pop_back-IsConsecutive j.entries c,
)

-- The journal with one more entry.
abbrev pub appended : Journal → Record → Journal
appended j r = record { entries = j.entries ++ r ∷ [] }

not_Follows : (o : Option Record) (i : ℤ) → breaks_sequence o i ≡ true → Follows o i → ⊥
not_Follows none i e f = cc
not_Follows (some last) i e f = ground (arith, eqb_ℤ_iff (suc_ℤ last.id) i)

-- `add_entry` appends the entry exactly when its id follows the last one (any id follows an empty
-- journal), and `remove_last_entry` then restores the journal; otherwise it answers
-- STATUS_INVALID_COMMIT, and the journal is as it was.
pub add_entry_lem :
    (id : ℤ) (type buffer : String) (j : Journal)
    → let r : Record = record { id = id; type = type; buf = buffer } in
      (Follows (back? j.entries) id
        × (add_entry id type buffer j ≡ (status_ok, appended j r))
        × (remove_last_entry (appended j r) ≡ j))
      ⊎ ((¬ Follows (back? j.entries) id) × (add_entry id type buffer j ≡ (invalid_commit, j)))
unfolding remove_last_entry
add_entry_lem id type buffer j = elim (Bool-cases (breaks_sequence (back? j.entries) id)) [
  | inl e ↦ inr (not_Follows (back? j.entries) id e, add_entry_refuses id type buffer j e)
  | inr e ↦ inl (
    Follows-of_test (back? j.entries) id e,
    add_entry_accepts id type buffer j e,
    ap (λ xs. record { entries = xs }) (pop_back-append j.entries _),
  )
]
