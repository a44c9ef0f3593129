-- ===== src/ZooKafka/Ancestors/Creates.antt =====
-- What one create of src/infra/ZooKafkaClient.cpp does to the set of the tree's nodes.
use Prim.Native.String.{[], ◌∷◌}
use datom.Common.{
  ℤ, eqb_ℤ, eqb_ℤ_iff, String, str_eq, eq_iff, Bool, true, false, ◌||◌, if◌then◌else◌, Bool-cases,
  ◌≡◌, ◌⊎◌, inl, inr, refl, sym, subst, ◌∙◌, List, [], ◌∷◌,
}
use datom.Status.{duplicate_key, of_status}
use datom.Exec.{Outcome, returned, thrown}
use datom.ZooKafka.{ZooKeeper, complete, to_status_exception, create_common, create}
use datom.ZooKafka.Ancestors.{child, elem, NodeStore}

eqb_ℤ-refl : (a : ℤ) → eqb_ℤ a a ≡ true
eqb_ℤ-refl a = (eqb_ℤ_iff a a).1 refl

with_none : (a b : Bool) → a || b ≡ a || false || b
with_none true b = refl
with_none false b = refl

-- A member that is inserted again.
absorb :
    (has : String → Bool) (key q : String) → has key ≡ true → has q ≡ str_eq q key || false || has q
absorb has key q e = elim (Bool-cases (str_eq q key)) [
  | inl f ↦ rw f (subst (λ x. has x ≡ true) (sym ((eq_iff q key).0 f)) e)
  | inr f ↦ rw f refl
]

module _ (zoo : ZooKeeper) (store : NodeStore zoo) where
  -- What a create answers for a node that exists.
  abbrev pub duplicate : Outcome String
  duplicate =
      thrown
        (of_status (record { status = duplicate_key; original_status = zoo.codes.znodeexists }))

  abbrev pub Inserts : Outcome String × zoo.Tree → String → List String → zoo.Tree → Type 0
  Inserts after key nodes t =
      (after.0 ≡ (if store.has t key then duplicate else returned key))
      × ((q : String) → store.has after.1 q ≡ elem q nodes || store.has t q)

  abbrev pub Exists : zoo.Tree → String → Type 0
  Exists t parent = (parent ≡ "") ⊎ (store.has t parent ≡ true)

  create_existing-Inserts :
      (key value : String) (t : zoo.Tree)
      → store.has t key ≡ true
      → Inserts (create zoo key value t) key (key ∷ []) t
  unfolding create create_common complete to_status_exception
  create_existing-Inserts key value t e =
      let (sent, rc, same) = store.create_existing key value t e in
      (
        rw
            (
              sent,
              rc,
              eqb_ℤ-refl zoo.codes.zok,
              store.exists-ne-ok,
              store.exists-ne-none,
              eqb_ℤ-refl zoo.codes.znodeexists,
              e,
            )
            refl,
        λ q. same q ∙ absorb (store.has t) key q e,
      )

  create_new-Inserts :
      (parent name value : String) (t : zoo.Tree)
      → store.IsName name
      → Exists t parent
      → store.has t (child parent name) ≡ false
      → Inserts
          (create zoo (child parent name) value t)
          (child parent name)
          (child parent name ∷ [])
          t
  unfolding create create_common complete to_status_exception
  create_new-Inserts parent name value t n p e =
      let (sent, rc, made, added) = store.create_child parent name value t n p e in
      (
        rw (sent, rc, eqb_ℤ-refl zoo.codes.zok, made, e) refl,
        λ q. added q ∙ with_none (str_eq q (child parent name)) (store.has t q),
      )

  -- One create inserts one node.
  pub create-Inserts :
      (parent name value : String) (t : zoo.Tree)
      → store.IsName name
      → Exists t parent
      → Inserts
          (create zoo (child parent name) value t)
          (child parent name)
          (child parent name ∷ [])
          t
  create-Inserts parent name value t n p = elim (Bool-cases (store.has t (child parent name))) [
    | inl e ↦ create_existing-Inserts (child parent name) value t e
    | inr e ↦ create_new-Inserts parent name value t n p e
  ]
