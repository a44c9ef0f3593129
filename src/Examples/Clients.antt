-- ===== src/Examples/Clients.antt =====
-- The theorems on the coordination client, Kafka client, buffers and dispatch at concrete values.
use datom.Common.{
  ℕ, pos, negsuc, String, true, false, if◌then◌else◌, ◌≡◌, refl, ap, zero, suc, ◌<◌, ◌≤◌, Option,
  none, some, List, [], ◌∷◌, arith,
}
use datom.Exec.{returned}
use datom.Buffers.{Numerals, Codec}
use datom.ZooKafka.{ZkCodes, ZooKeeper, create_including_ancestors}
use datom.ZooKafka.Ancestors.{no_slash, child, elem, NodeStore}
use datom.ZooKafka.Ancestors.Creates.{Inserts}
use datom.ZooKafka.Ancestors.Refinement.{create_including_ancestors-Inserts}
use datom.ZooKafka.Connect.{Session, is_settled, is_connected, init}
use datom.ZooKafka.Connect.Waiting.{init_reaches, wait-Ends, Ends, ConnectsAfter, Fails}

abbrev pub digits : Numerals
digits = record { show = λ v. "4"; read = λ text. some (pos 4) }

abbrev pub bytes : Codec String
bytes = record { type_str = "string"; serialize = λ s. s; deserialize = λ s. some s }

abbrev pub codes : ZkCodes
codes = record {
  zok = pos 0;
  znonode = negsuc 100;
  znodeexists = negsuc 109;
  zinvalidstate = negsuc 8;
  zoo_connecting_state = pos 1;
  zoo_associating_state = pos 2;
  zoo_connected_state = pos 3;
  zoo_expired_session_state = negsuc 111;
  zoo_auth_failed_state = negsuc 112;
  zoo_created_event = pos 1;
  zoo_deleted_event = pos 2;
  zoo_changed_event = pos 3;
  zoo_child_event = pos 4;
  zoo_session_event = negsuc 0;
  zoo_notwatching_event = negsuc 1;
}

-- A tree is the list of its keys; the calls that the theorem does not use answer ZOK.
abbrev pub nodes : ZooKeeper
nodes = record {
  Tree = List String;
  codes = codes;
  zoo_acreate = λ key value flags t. (
    record { sent = pos 0; rc = if elem key t then negsuc 109 else pos 0; value = key },
    if elem key t then t else key ∷ t,
  );
  zoo_aset = λ key value version t. (record { sent = pos 0; rc = pos 0; value = pos 1 }, t);
  zoo_adelete = λ key version t. (record { sent = pos 0; rc = pos 0; value = tt }, t);
  zoo_awget = λ key t. (record { sent = pos 0; rc = pos 0; value = (pos 0, "") }, t);
  zoo_awget_children = λ key watch t. (record { sent = pos 0; rc = pos 0; value = none }, t);
}

abbrev pub node_store : NodeStore nodes
node_store = record {
  has = λ t q. elem q t;
  IsName = λ name. no_slash name ≡ true;
  no_slash-IsName = λ name n. n;
  exists-ne-ok = refl;
  exists-ne-none = refl;
  create_existing = λ key value t e. (
    refl,
    ap (λ b. if b then negsuc 109 else pos 0) e,
    λ q. ap (λ b. elem q (if b then t else key ∷ t)) e,
  );
  create_child = λ parent name value t n p e. (
    refl,
    ap (λ b. if b then negsuc 109 else pos 0) e,
    refl,
    λ q. ap (λ b. elem q (if b then t else child parent name ∷ t)) e,
  );
}

create_including_ancestors-Inserts_example :
    Inserts nodes node_store
      (create_including_ancestors nodes "/datom/services/1" "info" ("/datom" ∷ []))
      "/datom/services/1"
      ("/datom" ∷ "/datom/services" ∷ "/datom/services/1" ∷ [])
      ("/datom" ∷ [])
create_including_ancestors-Inserts_example =
    create_including_ancestors-Inserts nodes node_store "info" "datom" ("services" ∷ "1" ∷ [])
      ("/datom" ∷ []) (refl, (refl, (refl, tt)))

-- A session that connects at the third answer, after one that stays closed.
abbrev late : Session
late zero = pos 1
late (suc zero) = pos 2
late (suc (suc n)) = pos 3

abbrev two_handles : ℕ → Option Session
two_handles zero = some (λ n. pos 0)
two_handles (suc k) = some late

late-pending : (j : ℕ) → j < 2 → is_settled codes (late j) ≡ false
late-pending zero l = refl
late-pending (suc zero) l = refl
late-pending (suc (suc j)) l = absurd (omega (arith, l))

late-connected : (j : ℕ) → 2 ≤ j → is_connected codes (late j) ≡ true
late-connected zero l = absurd (omega (arith, l))
late-connected (suc zero) l = absurd (omega (arith, l))
late-connected (suc (suc j)) l = refl

first-Fails : (j : ℕ) → j < 1 → Fails codes (two_handles j)
first-Fails zero l = (λ n. pos 0, refl, λ i. refl)
first-Fails (suc j) l = absurd (omega (arith, l))

late-ConnectsAfter : ConnectsAfter codes 2 late
late-ConnectsAfter = record { pending = late-pending; connected = late-connected }

init_reaches_example : init codes 2 two_handles (some (returned tt)) ≡ some (returned tt, 1)
init_reaches_example =
    init_reaches codes 2 two_handles 1 2 late (returned tt) (omega arith) first-Fails refl
      late-ConnectsAfter (omega arith)

wait-Ends_example : Ends codes 4 late 5 0 0
wait-Ends_example = wait-Ends codes 4 late 5 0 0 (omega arith) (omega arith)
