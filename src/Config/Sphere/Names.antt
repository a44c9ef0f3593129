-- ===== src/Config/Sphere/Names.antt =====
-- The names of the volumes of a sphere: additions that wait for each other, and two that overlap.
use datom.Common.{
  ℕ, suc, ◌<◌, ◌%◌, ◌⊎◌, subst, String, str_eq, eq_iff, ◌≡◌, refl, ap, ◌∙◌, sym, inl, inr, Bool,
  true, false, Bool-cases, Option, none, some, List, [], ◌∷◌, ◌++◌, arith, length, All, ◌==◌,
  if◌then◌else◌,
}
use mathlib.Core.List.{append_assoc}
use datom.Status.{Status, of_status, of_message, invalid, duplicate_volume, status_exception}
use datom.Exec.{Outcome, returned, thrown, aborted}
use datom.Config.{VolumeInfo, put}
use datom.Config.Sphere.{
  SphereMgr, has_name, start_resource, add_resource, resource_answer, resource_answered, take_at,
  Event, resource_added, resource_created, step, run,
}

-- No two volumes have the same name.
abbrev pub Distinct : List (ℕ × VolumeInfo) → Type 0
Distinct [] = Unit {0}
Distinct ((k, v) ∷ rest) = (has_name v.name rest ≡ false) × Distinct rest

has_name-put :
    (name : String) (k : ℕ) (v : VolumeInfo) (t : List (ℕ × VolumeInfo))
    → has_name name t ≡ false
    → str_eq v.name name ≡ false
    → has_name name (put ◌==◌ k v t) ≡ false
has_name-put name k v [] h e = rw e
has_name-put name k v ((j, w) ∷ t) h e = ground (arith, has_name-put name k v t)

tail_name : (a b : Bool) → (if a then true else b) ≡ false → b ≡ false
tail_name true b e = absurd (cc)
tail_name false b e = e

put-Distinct :
    (k : ℕ) (v : VolumeInfo) (t : List (ℕ × VolumeInfo))
    → Distinct t
    → has_name v.name t ≡ false
    → Distinct (put ◌==◌ k v t)
put-Distinct k v [] d h = (refl, tt)
put-Distinct k v ((j, w) ∷ t) d h = elim (Bool-cases (j == k)) [
  | inl e ↦ rw e (tail_name (str_eq w.name v.name) (has_name v.name t) h, d.1)
  | inr e ↦ rw e (
    has_name-put w.name k v t d.0 (ground (arith, eq_iff v.name w.name, eq_iff w.name v.name)),
    put-Distinct k v t d.1 (tail_name (str_eq w.name v.name) (has_name v.name t) h),
  )
]

-- Additions of volumes, each with the answer to its create before the next one starts.
abbrev pub in_turn : List (VolumeInfo × Option Status) → List Event
in_turn [] = []
in_turn ((info, error) ∷ rest) = resource_added info ∷ resource_created 0 error ∷ in_turn rest

-- Names are distinct and no create is in flight.
abbrev pub AtRest : SphereMgr → Type 0
AtRest s = Distinct s.resources × (s.resources_in_flight ≡ [])

run_on :
    (e : Event) (events : List Event) (s t : SphereMgr) (o : Outcome (Unit {0}))
    → step e s ≡ (o, t)
    → ¬ (o ≡ aborted)
    → run (e ∷ events) s ≡ run events t
unfolding run
run_on e events s t aborted p n = absurd (n refl)
run_on e events s t (thrown x) p n = rw p refl
run_on e events s t (returned a) p n = rw p refl

-- Either nothing happens, or the name is free and the create starts.
adding :
    (info : VolumeInfo) (events : List Event) (s : SphereMgr)
    → (run (resource_added info ∷ events) s ≡ run events s)
      ⊎ ((has_name info.name s.resources ≡ false)
          × (run (resource_added info ∷ events) s ≡ run events (start_resource info s)))
unfolding step add_resource
adding info events s = elim (Bool-cases (length s.rings == 0)) [
  | inl h ↦ inl (
      run_on (resource_added info) events s s
        (thrown (of_message (status_exception invalid) "Zero size service rings")) (rw h refl)
        (λ e. cc))
  | inr h ↦ elim (Bool-cases (has_name info.name s.resources)) [
    | inl n ↦ inl (
        run_on (resource_added info) events s s
          (thrown (of_message (status_exception duplicate_volume) "duplicate volume name"))
          (rw (h, n) refl) (λ e. cc))
    | inr n ↦ inr (
      n,
      run_on (resource_added info) events s (start_resource info s) (returned tt) (rw (h, n) refl)
          (λ e. cc),
    )
  ]
]

answering :
    (error : Option Status) (events : List Event) (s : SphereMgr) (f : List VolumeInfo)
    → s.resources_in_flight ≡ f
    → run (resource_created 0 error ∷ events) s
      ≡ run events (resource_answer (take_at 0 f) error s).1
unfolding step resource_answered
answering error events s [] e =
    run_on (resource_created 0 error) events s _ (returned tt) (rw e refl) (λ x. cc)
answering none events s (v ∷ f) e =
    run_on (resource_created 0 none) events s _ (returned tt) (rw e refl) (λ x. cc)
answering (some x) events s (v ∷ f) e =
    run_on (resource_created 0 (some x)) events s _ (thrown (of_status (status_exception x)))
      (rw e refl) (λ x. cc)

answered-AtRest :
    (error : Option Status) (v : VolumeInfo) (s : SphereMgr)
    → Distinct s.resources
    → has_name v.name s.resources ≡ false
    → AtRest (resource_answer (some (v, [])) error s).1
answered-AtRest none v s d h = (put-Distinct v.id v s.resources d h, refl)
answered-AtRest (some x) v s d h = (d, refl)

-- The volume that `start_resource` puts in flight.
abbrev pub made : VolumeInfo → SphereMgr → VolumeInfo
made info s = record info { id = s.next_resource_id; ring_id = s.next_resource_id % length s.rings }

-- Additions of volumes that wait for each other, whatever the answers, keep the names distinct.
pub in_turn-Distinct :
    (volumes : List (VolumeInfo × Option Status)) (s : SphereMgr)
    → Distinct s.resources
    → s.resources_in_flight ≡ []
    → Distinct (run (in_turn volumes) s).1.resources
unfolding run
in_turn-Distinct [] s d f = d
in_turn-Distinct ((info, error) ∷ rest) s d f =
    elim (adding info (resource_created 0 error ∷ in_turn rest) s) [
      | inl e ↦
          subst (λ x. Distinct x.1.resources) (sym (e ∙ answering error (in_turn rest) s [] f))
            (in_turn-Distinct rest s d f)
      | inr (n, e) ↦
          let t = start_resource info s in
          let a = answered-AtRest error (made info s) t d n in
          subst (λ x. Distinct x.1.resources)
            (sym (
              e
              ∙ answering error (in_turn rest) t (made info s ∷ [])
                  (ap (λ l. l ++ made info s ∷ []) f)))
            (in_turn-Distinct rest (resource_answer (some (made info s, [])) error t).1 a.0 a.1)
    ]

put_fresh :
    (k : ℕ) (v : VolumeInfo) (t : List (ℕ × VolumeInfo))
    → All (λ (kv : ℕ × VolumeInfo). kv.0 < k) t
    → put ◌==◌ k v t ≡ t ++ (k, v) ∷ []
put_fresh k v [] a = refl
put_fresh k v ((j, w) ∷ t) a = rw (differs j k a.0) (ap (◌∷◌ (j, w)) (put_fresh k v t a.1))
  where
    differs : (m n : ℕ) → m < n → (m == n) ≡ false
    differs m n l = ground (arith, l)

fresh_after :
    (k : ℕ) (v : VolumeInfo) (t : List (ℕ × VolumeInfo))
    → All (λ (kv : ℕ × VolumeInfo). kv.0 < k) t
    → All (λ (kv : ℕ × VolumeInfo). kv.0 < suc k) (t ++ (k, v) ∷ [])
fresh_after k v [] a = (omega arith, tt)
fresh_after k v ((j, w) ∷ t) a = (omega (arith, a.0), fresh_after k v t a.1)

put_twice :
    (n : ℕ) (x y : VolumeInfo) (t : List (ℕ × VolumeInfo))
    → All (λ (kv : ℕ × VolumeInfo). kv.0 < n) t
    → put ◌==◌ (suc n) y (put ◌==◌ n x t) ≡ t ++ (n, x) ∷ (suc n, y) ∷ []
put_twice n x y t a =
    ap (put ◌==◌ (suc n) y) (put_fresh n x t a)
    ∙ put_fresh (suc n) y (t ++ (n, x) ∷ []) (fresh_after n x t a)
    ∙ append_assoc t ((n, x) ∷ []) ((suc n, y) ∷ [])

add_starts :
    (info : VolumeInfo) (events : List Event) (s : SphereMgr)
    → 0 < length s.rings
    → has_name info.name s.resources ≡ false
    → run (resource_added info ∷ events) s ≡ run events (start_resource info s)
unfolding step add_resource
add_starts info events s l n =
    run_on (resource_added info) events s (start_resource info s) (returned tt)
      (rw (positive (length s.rings) l, n) refl) (λ e. cc)
  where
    positive : (m : ℕ) → 0 < m → (m == 0) ≡ false
    positive m l = ground (arith, l)

-- Two additions of volumes of one name, of which the second starts before the create of the first
-- is answered, both succeed: the table ends with two volumes of that name.
pub overlapping_adds :
    (a b : VolumeInfo) (s : SphereMgr)
    → a.name ≡ b.name
    → 0 < length s.rings
    → has_name a.name s.resources ≡ false
    → s.resources_in_flight ≡ []
    → All (λ (kv : ℕ × VolumeInfo). kv.0 < s.next_resource_id) s.resources
    → (x y : VolumeInfo) × (x.name ≡ a.name)
      × (y.name ≡ a.name)
      × ((run
            (resource_added a
              ∷ resource_added b
              ∷ resource_created 0 none
              ∷ resource_created 0 none
              ∷ [])
            s).1.resources
          ≡ s.resources ++ (s.next_resource_id, x) ∷ (suc s.next_resource_id, y) ∷ [])
unfolding run
overlapping_adds a b s e l n f k =
    let t = start_resource a s in
    let u = start_resource b t in
    let x = made a s in
    let y = made b t in
    let u1 : SphereMgr = (resource_answer (some (x, y ∷ [])) none u).1 in
    let u2 : SphereMgr = (resource_answer (some (y, [])) none u1).1 in
    let path =
      add_starts a (resource_added b ∷ resource_created 0 none ∷ resource_created 0 none ∷ []) s l n
      ∙ add_starts b (resource_created 0 none ∷ resource_created 0 none ∷ []) t l
          (subst (λ z. has_name z s.resources ≡ false) e n)
      ∙ answering none (resource_created 0 none ∷ []) u (x ∷ y ∷ [])
          (ap (λ w. (w ++ x ∷ []) ++ y ∷ []) f)
      ∙ answering none [] u1 (y ∷ []) refl in
    (
      x,
      y,
      refl,
      sym e,
      ap (λ w. w.1.resources) path ∙ put_twice s.next_resource_id x y s.resources k,
    )
