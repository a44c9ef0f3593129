-- ===== src/Journal/Descent.antt =====
-- The ids of what retrieveEntries answers.
use mathlib.Core.List.{
  reverse, reverse-cons, append_assoc, append-nil, nil≢cons, head-eq_of_cons-eq, tail-eq_of_cons-eq,
}
use datom.Common.{
  ℤ, suc_ℤ, parts-suc_ℤ, pos_part, neg_part, ◌&&◌, leb_ℤ, ◌≡◌, refl, ap, sym, ◌∙◌, Option, none,
  some, List, [], ◌∷◌, ◌++◌, Bool, true, false, Bool-cases, inl, inr, back?, back?-append, All,
  arith,
}
use datom.Status.{status_ok}
use datom.Journal.{Record, Journal, JournalEntry, in_range, to_entry, collect, retrieve_entries}
use datom.Journal.Sequence.{IsConsecutive}
use datom.Journal.Retrieval.{select}

-- Each id is the predecessor of the one before it.
abbrev pub Descends : List Record → Type 0
Descends [] = Unit {0}
Descends (x ∷ []) = Unit {0}
Descends (x ∷ y ∷ r) = (x.id ≡ suc_ℤ y.id) × Descends (y ∷ r)

abbrev id_of : ℤ → Option Record → ℤ
id_of d none = d
id_of d (some r) = r.id

append-Descends :
    (xs : List Record) (x y : Record)
    → Descends xs
    → back? xs ≡ some y
    → y.id ≡ suc_ℤ x.id
    → Descends (xs ++ x ∷ [])
append-Descends [] x y d b e = tt
append-Descends (a ∷ []) x y d b e = (ap (id_of x.id) b ∙ e, tt)
append-Descends (a ∷ c ∷ xs) x y d b e = (d.0, append-Descends (c ∷ xs) x y d.1 b e)

-- A journal with consecutive ids descends when it is read from its end.
pub reverse-Descends : (xs : List Record) → IsConsecutive xs → Descends (reverse xs)
reverse-Descends [] c = tt
reverse-Descends (x ∷ []) c = tt
reverse-Descends (x ∷ y ∷ r) (e, c) = rw (reverse-cons x (y ∷ r)) (
    append-Descends (reverse (y ∷ r)) x y (reverse-Descends (y ∷ r) c)
      (rw (reverse-cons y r) (back?-append (reverse r) y)) e)

collect-select :
    (a b : ℤ) (rs : List Record) (ret : List JournalEntry)
    → collect a b rs ret ≡ ret ++ select a b rs
unfolding select
collect-select a b [] ret = sym (append-nil ret)
collect-select a b (r ∷ rs) ret = elim (Bool-cases (in_range a b r)) [
  | inl e ↦ rw e (
      collect-select a b rs (ret ++ to_entry r ∷ [])
      ∙ append_assoc ret (to_entry r ∷ []) (select a b rs))
  | inr e ↦ rw e (collect-select a b rs ret)
]

leb_down : (a x y : ℤ) → x ≡ suc_ℤ y → leb_ℤ a x ≡ false → leb_ℤ a y ≡ false
leb_down a x y e l =
    let p = ap pos_part e in let n = ap neg_part e in ground (arith, p, n, parts-suc_ℤ y, l)

leb_up : (b x y : ℤ) → x ≡ suc_ℤ y → leb_ℤ x b ≡ true → leb_ℤ y b ≡ true
leb_up b x y e l =
    let p = ap pos_part e in let n = ap neg_part e in ground (arith, p, n, parts-suc_ℤ y, l)

below :
    (a b : ℤ) (r : Record) (rs : List Record)
    → Descends (r ∷ rs)
    → leb_ℤ a r.id ≡ false
    → select a b (r ∷ rs) ≡ []
unfolding select
below a b r [] d l = rw l refl
below a b r (s ∷ rs) (e, d) l = rw l (below a b s rs d (leb_down a r.id s.id e l))

and_right : (x y : Bool) → x && y ≡ true → y ≡ true
and_right x y e = ground arith

and_left_fails : (x y : Bool) → x && y ≡ false → y ≡ true → x ≡ false
and_left_fails x y e f = ground arith

-- The entry after the first one has the id before it, as the range is an interval.
next_entry :
    (a b : ℤ) (r : Record) (rs : List Record) (f : JournalEntry) (rest : List JournalEntry)
    → Descends (r ∷ rs)
    → in_range a b r ≡ true
    → select a b rs ≡ f ∷ rest
    → r.id ≡ suc_ℤ f.entry_id
unfolding select
next_entry a b r [] f rest d i e = absurd (nil≢cons e)
next_entry a b r (s ∷ rs) f rest (d, ds) i e = elim (Bool-cases (in_range a b s)) [
  | inl k ↦ d ∙ ap (λ x. suc_ℤ x.entry_id) (head-eq_of_cons-eq (rw k at e))
  | inr k ↦
      let upper = leb_up b r.id s.id d (and_right (leb_ℤ a r.id) (leb_ℤ r.id b) i) in
      let lower = and_left_fails (leb_ℤ a s.id) (leb_ℤ s.id b) k upper in
      absurd (nil≢cons (sym (below a b s rs ds lower) ∙ e))
]

tail-Descends : (r : Record) (rs : List Record) → Descends (r ∷ rs) → Descends rs
tail-Descends r [] d = tt
tail-Descends r (s ∷ rs) d = d.1

All-snoc :
    (P : Record → Type 0) (xs : List Record) (x : Record) → All P xs → P x → All P (xs ++ x ∷ [])
All-snoc P [] x a p = (p, tt)
All-snoc P (y ∷ ys) x (q, qs) p = (q, All-snoc P ys x qs p)

-- The first two entries that are selected have adjacent ids.
pub select-Descends :
    (a b : ℤ) (rs : List Record) (e f : JournalEntry) (rest : List JournalEntry)
    → Descends rs
    → select a b rs ≡ e ∷ f ∷ rest
    → e.entry_id ≡ suc_ℤ f.entry_id
unfolding select
select-Descends a b [] e f rest d h = absurd (nil≢cons h)
select-Descends a b (r ∷ rs) e f rest d h = elim (Bool-cases (in_range a b r)) [
  | inl k ↦
      let h' : to_entry r ∷ select a b rs ≡ e ∷ f ∷ rest = rw k at h in
      ap (λ x. x.entry_id) (sym (head-eq_of_cons-eq h'))
      ∙ next_entry a b r rs f rest d k (tail-eq_of_cons-eq h')
  | inr k ↦ select-Descends a b rs e f rest (tail-Descends r rs d) (rw k at h)
]

All-reverse : (P : Record → Type 0) (xs : List Record) → All P xs → All P (reverse xs)
All-reverse P [] a = tt
All-reverse P (x ∷ xs) (p, ps) =
    rw (reverse-cons x xs) (All-snoc P (reverse xs) x (All-reverse P xs ps) p)

-- What holds of the records holds of the entries that are made from them.
All-select :
    (P : JournalEntry → Type 0) (a b : ℤ) (rs : List Record)
    → All (λ r. P (to_entry r)) rs
    → All P (select a b rs)
unfolding select
All-select P a b [] ps = tt
All-select P a b (r ∷ rs) (p, ps) = elim (Bool-cases (in_range a b r)) [
  | inl k ↦ rw k (p, All-select P a b rs ps)
  | inr k ↦ rw k (All-select P a b rs ps)
]

-- The answer of retrieveEntries, from the records read from the end.
pub retrieve_entries-select :
    (from_id to_id max_bytes_in_resp : ℤ) (j : Journal)
    → retrieve_entries from_id to_id max_bytes_in_resp j []
      ≡ (status_ok, select from_id to_id (reverse j.entries))
unfolding retrieve_entries
retrieve_entries-select from_id to_id max_bytes_in_resp j =
    ap (λ x. (status_ok, x)) (collect-select from_id to_id (reverse j.entries) [])

pub All-retrieved :
    (P : JournalEntry → Type 0) (a b : ℤ) (rs : List Record)
    → All (λ r. P (to_entry r)) rs
    → All P (select a b (reverse rs))
All-retrieved P a b rs ps = All-select P a b (reverse rs) (All-reverse (λ r. P (to_entry r)) rs ps)
