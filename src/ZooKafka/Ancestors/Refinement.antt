-- ===== src/ZooKafka/Ancestors/Refinement.antt =====
-- createIncludingAncestors inserts a key and its ancestors into the set of the tree's nodes.
use Prim.Native.String.{[], ◌∷◌, ◌++◌}
use text.Mathlib.TextLemmas.{
  nil-append, cons-append, append-nil, append_assoc, append_cancel_left, cons-ne-nil,
}
use datom.Common.{
  String, str_eq, eq_iff, Bool, true, false, ◌||◌, if◌then◌else◌, Bool-cases, ◌≡◌, ◌⊎◌, inl, inr,
  refl, sym, ap, subst, ◌∙◌, List, [], ◌∷◌, All, arith,
}
use datom.Exec.{Outcome, returned}
use datom.ZooKafka.{ZooKeeper, create, link, chain, create_including_ancestors}
use datom.ZooKafka.Ancestors.{
  no_slash, child, slash, path_key, nodes_below, elem, NodeStore, paths_of-path_key,
}
use datom.ZooKafka.Ancestors.Creates.{duplicate, Inserts, Exists, create-Inserts}

child-path_key :
    (parent name : String) (names : List String)
    → child parent name ++ path_key names ≡ parent ++ path_key (name ∷ names)
child-path_key parent name names =
    append_assoc (parent ++ "/") name (path_key names)
    ∙ (append_assoc parent "/" (name ++ path_key names)
        ∙ ap (λ x. parent ++ x)
            (cons-append slash "" (name ++ path_key names)
              ∙ ap (λ x. slash ∷ x) (nil-append (name ++ path_key names))))

longer :
    (key name : String) (names : List String) → str_eq (key ++ path_key (name ∷ names)) key ≡ false
longer key name names =
    let rest = path_key (name ∷ names) in
    elim (Bool-cases (str_eq (key ++ rest) key)) [
      | inl e ↦
          let same = (eq_iff (key ++ rest) key).0 e ∙ sym (append-nil key) in
          absurd (cons-ne-nil slash (name ++ path_key names) (append_cancel_left key rest "" same))
      | inr e ↦ e
    ]

regroup : (a b c : Bool) → b || (a || false || c) ≡ (a || b) || c
regroup a b c = ground arith

module _ (zoo : ZooKeeper) (store : NodeStore zoo) where
  -- The results that the continuation of the next path goes on from.
  abbrev Passes : Outcome String → Type 0
  Passes f = (f ≡ duplicate zoo store) ⊎ ((a : String) × (f ≡ returned a))

  link-Passes :
      (value path : String) (f : Outcome String) (t : zoo.Tree)
      → Passes f
      → link zoo value f path t ≡ create zoo path value t
  unfolding link
  link-Passes value path f t (inl e) = rw e refl
  link-Passes value path f t (inr (a, e)) = rw e refl

  inserted-Passes :
      (b : Bool) (key : String) → Passes (if b then duplicate zoo store else returned key)
  inserted-Passes true key = inl refl
  inserted-Passes false key = inr (key, refl)

  -- What two steps insert, where the second one's key is not the first one's.
  Inserts-then :
      (first second : Outcome String × zoo.Tree) (node key : String) (nodes : List String)
      (t : zoo.Tree)
      → str_eq key node ≡ false
      → Inserts zoo store first node (node ∷ []) t
      → Inserts zoo store second key nodes first.1
      → Inserts zoo store second key (node ∷ nodes) t
  Inserts-then first second node key nodes t e (_, one) (result, rest) = (
    result
        ∙ ap (λ b. if b then duplicate zoo store else returned key)
            (one key ∙ ap (λ b. b || false || store.has t key) e),
    λ q.
        rest q
        ∙ ap (λ b. elem q nodes || b) (one q)
        ∙ regroup (str_eq q node) (elem q nodes) (store.has t q),
  )

  plain : (names : List String) → All store.IsName names → All (λ s. no_slash s ≡ true) names
  plain [] _ = tt
  plain (name ∷ names) (n, ns) = (store.no_slash-IsName name n, plain names ns)

  chain-Inserts :
      (value parent name : String) (names : List String) (f : Outcome String) (t : zoo.Tree)
      → All store.IsName (name ∷ names)
      → Exists zoo store t parent
      → Passes f
      → Inserts zoo store
          (chain zoo value (nodes_below parent (name ∷ names)) f t)
          (parent ++ path_key (name ∷ names))
          (nodes_below parent (name ∷ names))
          t
  unfolding chain
  chain-Inserts value parent name [] f t (n, _) p ok =
      subst (λ r. Inserts zoo store r (parent ++ path_key (name ∷ [])) (child parent name ∷ []) t)
        (sym (link-Passes value (child parent name) f t ok))
        (subst
          (λ k.
            Inserts zoo store (create zoo (child parent name) value t) k (child parent name ∷ []) t)
          (sym (append-nil (child parent name)) ∙ child-path_key parent name [])
          (create-Inserts zoo store parent name value t n p))
  chain-Inserts value parent name (next ∷ names) f t (n, ns) p ok =
      let key = child parent name in
      let rest = nodes_below key (next ∷ names) in
      let (result, added) = create-Inserts zoo store parent name value t n p in
      let after = create zoo key value t in
      let later =
        chain-Inserts value key next names after.0 after.1 ns
          (inr (added key ∙ ap (λ b. b || false || store.has t key) ((eq_iff key key).1 refl)))
          (subst Passes (sym result) (inserted-Passes (store.has t key) key)) in
      subst
        (λ r.
          Inserts zoo store (chain zoo value rest r.0 r.1)
            (parent ++ path_key (name ∷ next ∷ names)) (key ∷ rest) t)
        (sym (link-Passes value key f t ok))
        (subst (λ k. Inserts zoo store (chain zoo value rest after.0 after.1) k (key ∷ rest) t)
          (child-path_key parent name (next ∷ names))
          (Inserts-then after (chain zoo value rest after.0 after.1) key
            (key ++ path_key (next ∷ names)) rest t (longer key next names) (result, added) later))

  -- If ZooKeeper creates nodes as it documents, then createIncludingAncestors of the key with the
  -- names `name ∷ names` leaves a tree whose nodes are those that were there, the key's and its
  -- ancestors'; it throws STATUS_DUPLICATE_KEY if the key's node was there before, and returns the
  -- key if it was not.
  pub create_including_ancestors-Inserts :
      (value name : String) (names : List String) (t : zoo.Tree)
      → All store.IsName (name ∷ names)
      → Inserts zoo store
          (create_including_ancestors zoo (path_key (name ∷ names)) value t)
          (path_key (name ∷ names))
          (nodes_below "" (name ∷ names))
          t
  unfolding create_including_ancestors
  create_including_ancestors-Inserts value name names t ns =
      subst
        (λ ps.
          Inserts zoo store (chain zoo value ps (returned "") t) (path_key (name ∷ names))
            (nodes_below "" (name ∷ names)) t)
        (sym (paths_of-path_key name names (plain (name ∷ names) ns)))
        (subst
          (λ k.
            Inserts zoo store (chain zoo value (nodes_below "" (name ∷ names)) (returned "") t) k
              (nodes_below "" (name ∷ names)) t)
          (nil-append (path_key (name ∷ names)))
          (chain-Inserts value "" name names (returned "") t ns (inl refl) (inr ("", refl))))
