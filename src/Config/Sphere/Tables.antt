-- ===== src/Config/Sphere/Tables.antt =====
-- Predicates on the entries of tables and of the lists of creates in flight.
use datom.Common.{
  ℕ, zero, suc, ◌≤◌, ◌≡◌, refl, ap, inl, inr, Bool-cases, Option, none, some, List, [], ◌∷◌, ◌++◌,
  arith, length, All, ◌==◌, ==_iff, false,
}
use datom.Config.{put}
use datom.Config.Sphere.{keep, take_at}

module _ {A : Type 0} (P : A → Type 0) where
  pub All-mono : {Q : A → Type 0} (xs : List A) → ((x : A) → P x → Q x) → All P xs → All Q xs
  All-mono [] f a = tt
  All-mono (x ∷ xs) f a = (f x a.0, All-mono xs f a.1)

  pub All-snoc : (xs : List A) (x : A) → All P xs → P x → All P (xs ++ x ∷ [])
  All-snoc [] x a p = (p, tt)
  All-snoc (y ∷ xs) x a p = (a.0, All-snoc xs x a.1 p)

  pub All-put :
      (k : ℕ) (v : A) (t : List (ℕ × A))
      → All (λ (kv : ℕ × A). P kv.1) t
      → P v
      → All (λ (kv : ℕ × A). P kv.1) (put ◌==◌ k v t)
  All-put k v [] a p = (p, tt)
  All-put k v ((j, w) ∷ t) a p = elim (Bool-cases (j == k)) [
    | inl e ↦ rw e (p, a.1)
    | inr e ↦ rw e (a.0, All-put k v t a.1 p)
  ]

  -- What `take_at` leaves of a list.
  abbrev pub Taken : List A → Option (A × List A) → Type 0
  Taken xs none = Unit {0}
  Taken xs (some (x, rest)) = P x × All P rest × (length xs ≡ suc (length rest))

  keep-Taken :
      (y : A) (xs : List A) (o : Option (A × List A)) → P y → Taken xs o → Taken (y ∷ xs) (keep y o)
  keep-Taken y xs none p t = tt
  keep-Taken y xs (some (x, rest)) p (q, a, e) = (q, (p, a), ap suc e)

  pub take_at-Taken : (n : ℕ) (xs : List A) → All P xs → Taken xs (take_at n xs)
  take_at-Taken n [] a = tt
  take_at-Taken zero (x ∷ xs) a = (a.0, a.1, refl)
  take_at-Taken (suc n) (x ∷ xs) a = keep-Taken x xs (take_at n xs) a.0 (take_at-Taken n xs a.1)

pub length-put :
    {A : Type 0} (k : ℕ) (v : A) (t : List (ℕ × A)) → length (put ◌==◌ k v t) ≤ suc (length t)
length-put k v [] = omega arith
length-put k v ((j, w) ∷ t) = ground (arith, length-put k v t)

pub All-split :
    {A : Type 0} (P : A → Type 0) (xs ys : List A) → All P (xs ++ ys) → All P xs × All P ys
All-split P [] ys a = (tt, a)
All-split P (x ∷ xs) ys (p, a) = let (b, c) = All-split P xs ys a in ((p, b), c)

pub All-both :
    {A : Type 0} (P Q : A → Type 0) (xs : List A) → All P xs → All Q xs → All (λ x. P x × Q x) xs
All-both P Q [] a b = tt
All-both P Q (x ∷ xs) (p, a) (q, b) = ((p, q), All-both P Q xs a b)

pub All-each : {A : Type 0} (P : A → Type 0) (xs : List A) → ((x : A) → P x) → All P xs
All-each P [] f = tt
All-each P (x ∷ xs) f = (f x, All-each P xs f)

-- Elements that have keys, of which no two are the same.
module _ {A : Type 0} (key : A → ℕ) where
  -- The key of `x` is none of those of the list.
  abbrev pub IsNew : A → List A → Type 0
  IsNew x xs = All (λ y. key x == key y ≡ false) xs

  abbrev pub AllDistinct : List A → Type 0
  AllDistinct [] = Unit
  AllDistinct (x ∷ xs) = IsNew x xs × AllDistinct xs

  pub differ_sym : (x y : A) → key x == key y ≡ false → key y == key x ≡ false
  differ_sym x y e = ground (arith, ==_iff (key x) (key y), ==_iff (key y) (key x))

  pub distinct-snoc :
      (xs : List A) (x : A) → AllDistinct xs → IsNew x xs → AllDistinct (xs ++ x ∷ [])
  distinct-snoc [] x d n = (tt, tt)
  distinct-snoc (y ∷ xs) x (f, d) (e, n) =
      (All-snoc (λ z. key y == key z ≡ false) xs x f (differ_sym x y e), distinct-snoc xs x d n)

  -- Two lists that together have no key twice.
  pub distinct-split :
      (xs ys : List A)
      → AllDistinct (xs ++ ys)
      → AllDistinct ys × All (λ y. All (λ x. key x == key y ≡ false) xs) ys
  distinct-split [] ys d = (d, All-each (λ y. Unit {0}) ys (λ y. tt))
  distinct-split (x ∷ xs) ys (n, d) =
      let (ds, apart) = distinct-split xs ys d in
      (
        ds,
        All-both (λ y. key x == key y ≡ false) (λ y. All (λ z. key z == key y ≡ false) xs) ys
            (All-split (λ y. key x == key y ≡ false) xs ys n).1 apart,
      )
