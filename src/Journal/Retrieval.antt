-- ===== src/Journal/Retrieval.antt =====
-- What retrieveEntries answers, and in which order.
use mathlib.Core.List.{reverse, reverse-cons, append_assoc, append-nil}
use datom.Common.{ℤ, ◌≡◌, refl, List, [], ◌∷◌, ◌++◌, Bool, true, false, if◌then◌else◌, sym}
use datom.Status.{status_ok}
use datom.Journal.{Record, Journal, JournalEntry, in_range, to_entry, collect, retrieve_entries}

-- The entries of the range in journal order, oldest first.
unfoldable pub select : ℤ → ℤ → List Record → List JournalEntry
select from_id to_id [] = []
select from_id to_id (r ∷ rs) =
    let rest = select from_id to_id rs in
    if in_range from_id to_id r then to_entry r ∷ rest else rest

collect-append :
    (a b : ℤ) (xs ys : List Record) (ret : List JournalEntry)
    → collect a b (xs ++ ys) ret ≡ collect a b ys (collect a b xs ret)
collect-append a b [] ys ret = refl
collect-append a b (x ∷ xs) ys ret =
    collect-append a b xs ys (if in_range a b x then ret ++ to_entry x ∷ [] else ret)

collect-reverse :
    (a b : ℤ) (xs : List Record) (ret : List JournalEntry)
    → collect a b (reverse xs) ret ≡ ret ++ reverse (select a b xs)
unfolding select
collect-reverse a b [] ret = sym (append-nil ret)
collect-reverse a b (x ∷ xs) ret =
    rw (reverse-cons x xs, collect-append a b (reverse xs) (x ∷ []) ret, collect-reverse a b xs ret)
      (step (in_range a b x))
  where
    step :
        (t : Bool)
        → (if t
            then (ret ++ reverse (select a b xs)) ++ to_entry x ∷ []
            else ret ++ reverse (select a b xs))
          ≡ ret ++ reverse (if t then to_entry x ∷ select a b xs else select a b xs)
    step true =
        rw (reverse-cons (to_entry x) (select a b xs))
          (append_assoc ret (reverse (select a b xs)) (to_entry x ∷ []))
    step false = refl

-- The answer is the requested range, newest entry first, appended to what the response held; the
-- size limit `max_bytes_in_resp` has no effect on it.
pub retrieve_entries-eq-reverse :
    (from_id to_id max_bytes_in_resp : ℤ) (j : Journal) (ret : List JournalEntry)
    → retrieve_entries from_id to_id max_bytes_in_resp j ret
      ≡ (status_ok, ret ++ reverse (select from_id to_id j.entries))
unfolding retrieve_entries
retrieve_entries-eq-reverse from_id to_id max_bytes_in_resp j ret =
    rw (collect-reverse from_id to_id j.entries ret)
