-- ===== src/ZooKafka/Ancestors.antt =====
-- createIncludingAncestors of src/infra/ZooKafkaClient.cpp against the nodes of the tree as a set.
pub mod Creates
pub mod Refinement
use Prim.Native.String.{[], ◌∷◌, ◌++◌}
use Prim.Native.Char.{Char, code}
use text.Mathlib.TextLemmas.{nil-append, cons-append, append-nil, append_assoc, append_cancel_left}
use datom.Common.{
  ℤ, eqb_ℤ, eqb_ℤ_iff, String, str_eq, eq_iff, ◌==◌, Bool, true, false, not, ◌&&◌, ◌||◌,
  if◌then◌else◌, Bool-cases, ◌≡◌, ◌≢◌, ◌⊎◌, inl, inr, refl, sym, ap, subst, ◌∙◌, List, [], ◌∷◌, All,
  arith,
}
use datom.Status.{duplicate_key, StatusException, Exception, of_status}
use datom.Exec.{Outcome, returned, thrown}
use datom.ZooKafka.{
  ZooKeeper, Reply, no_flags, is_ok, complete, to_status_exception, scan, paths_of, create_common,
  create, link, chain, create_including_ancestors,
}

abbrev pub no_slash : String → Bool
no_slash [] = true
no_slash (c ∷ s) = not (code c == b'/') && no_slash s

-- The key of a node's child.
abbrev pub child : String → String → String
child parent name = (parent ++ "/") ++ name

abbrev pub slash : Char
slash = "/"

-- A key, from the names on it.
abbrev pub path_key : List String → String
path_key [] = ""
path_key (name ∷ names) = slash ∷ (name ++ path_key names)

-- The node's ancestors below `parent`, and the node itself.
abbrev pub nodes_below : String → List String → List String
nodes_below parent [] = []
nodes_below parent (name ∷ names) = child parent name ∷ nodes_below (child parent name) names

abbrev pub elem : String → List String → Bool
elem q [] = false
elem q (k ∷ ks) = str_eq q k || elem q ks

-- What ZooKeeper documents of a create: NodeStore names the nodes that a tree has and the names that
-- a node may have. A create of a node that exists fails and changes nothing; a create of a child of
-- the root or of a node that exists adds that child.
pub record NodeStore (zoo : ZooKeeper) : Type 1 where
  pub has : zoo.Tree → String → Bool
  pub IsName : String → Type 0
  pub no_slash-IsName : (name : String) → IsName name → no_slash name ≡ true
  pub exists-ne-ok : eqb_ℤ zoo.codes.znodeexists zoo.codes.zok ≡ false
  pub exists-ne-none : eqb_ℤ zoo.codes.znodeexists zoo.codes.znonode ≡ false
  pub create_existing :
      (key value : String) (t : zoo.Tree)
      → has t key ≡ true
      → let answer = zoo.zoo_acreate key value no_flags t in
        (answer.0.sent ≡ zoo.codes.zok)
        × (answer.0.rc ≡ zoo.codes.znodeexists)
        × ((q : String) → has answer.1 q ≡ has t q)
  pub create_child :
      (parent name value : String) (t : zoo.Tree)
      → IsName name
      → (parent ≡ "") ⊎ (has t parent ≡ true)
      → has t (child parent name) ≡ false
      → let answer = zoo.zoo_acreate (child parent name) value no_flags t in
        (answer.0.sent ≡ zoo.codes.zok)
        × (answer.0.rc ≡ zoo.codes.zok)
        × (answer.0.value ≡ child parent name)
        × ((q : String) → has answer.1 q ≡ (str_eq q (child parent name) || has t q))

scan_name :
    (seen name rest : String)
    → no_slash name ≡ true
    → scan seen (name ++ rest) ≡ scan (seen ++ name) rest
unfolding scan
scan_name seen [] rest n = rw (append-nil seen, nil-append rest) refl
scan_name seen (c ∷ name) rest n = elim (Bool-cases (code c == b'/')) [
  | inl e ↦ absurd (ground (arith, e, n))
  | inr e ↦
      rw (cons-append c name rest, e)
        (scan_name (seen ++ (c ∷ [])) name rest (ground (arith, e, n))
          ∙ ap (λ x. scan x rest)
              (append_assoc seen (c ∷ []) name
                ∙ ap (λ x. seen ++ x) (cons-append c [] name ∙ ap (λ x. c ∷ x) (nil-append name))))
]

scan_names :
    (seen : String) (names : List String)
    → All (λ s. no_slash s ≡ true) names
    → scan seen (path_key names) ≡ seen ∷ nodes_below seen names
unfolding scan
scan_names seen [] n = refl
scan_names seen (name ∷ names) (n, ns) =
    ap (◌∷◌ seen)
      (scan_name (seen ++ "/") name (path_key names) n ∙ scan_names (child seen name) names ns)

pub paths_of-path_key :
    (name : String) (names : List String)
    → All (λ s. no_slash s ≡ true) (name ∷ names)
    → paths_of (path_key (name ∷ names)) ≡ nodes_below "" (name ∷ names)
unfolding paths_of scan
paths_of-path_key name names (n, ns) =
    scan_name "/" name (path_key names) n ∙ (scan_names ("/" ++ name) names ns)
