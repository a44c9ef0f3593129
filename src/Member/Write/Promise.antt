-- ===== src/Member/Write/Promise.antt =====
-- When a callback settles the promise of a replicated write, and how.
use datom.Common.{
  ℕ, ◌+◌, ◌<◌, ◌≡◌, refl, ◌∙◌, Bool, true, false, ◌&&◌, Option, none, some, List, [], ◌∷◌, arith,
  ltb, leb, length, count_if, if◌then◌else◌,
}
use native.Mathlib.Nat.{add_assoc, zero-add}
use datom.Member.Peers.{backup_quorum}
use datom.Member.Write.{Settled, fulfilled, failed, WriteCtx, on_ack, new_write_ctx}

-- A sequence of answers.
unfoldable pub run_acks : ℕ → List Bool → WriteCtx → WriteCtx
run_acks quorum [] c = c
run_acks quorum (b ∷ bs) c = run_acks quorum bs (on_ack quorum b c)

abbrev pub successes : List Bool → ℕ
successes = count_if (λ b. b)

-- The last answer is an exception.
abbrev pub last_failed : List Bool → Bool
last_failed [] = false
last_failed (true ∷ []) = false
last_failed (false ∷ []) = true
last_failed (b ∷ c ∷ bs) = last_failed (c ∷ bs)

-- Fulfilled once enough peers answered with a value.
abbrev early : ℕ → ℕ → Option Settled
early quorum n =
    if ltb 0 (backup_quorum quorum) && leb (backup_quorum quorum) n then some fulfilled else none

-- The promise after all answers.
pub verdict : ℕ → List Bool → Option Settled
verdict quorum acks =
    if ltb 0 (backup_quorum quorum) && leb (backup_quorum quorum) (successes acks)
    then some fulfilled
    else if last_failed acks
    then some failed
    else none

verdict_from : ℕ → ℕ → List Bool → Option Settled
verdict_from quorum n acks =
    if ltb 0 (backup_quorum quorum) && leb (backup_quorum quorum) (n + successes acks)
    then some fulfilled
    else if last_failed acks
    then some failed
    else none

on_ack_counts :
    (quorum : ℕ) (b : Bool) (c : WriteCtx)
    → ((on_ack quorum b c).n_acked ≡ c.n_acked + 1)
      × ((on_ack quorum b c).n_success ≡ c.n_success + (if b then 1 else 0))
      × ((on_ack quorum b c).n_peers ≡ c.n_peers)
unfolding on_ack
on_ack_counts quorum true c = (refl, refl, refl)
on_ack_counts quorum false c = (refl, omega arith, refl)

on_ack-early :
    (quorum : ℕ) (b : Bool) (c : WriteCtx)
    → c.n_acked + 1 < c.n_peers
    → c.promise ≡ early quorum c.n_success
    → (on_ack quorum b c).promise ≡ early quorum (on_ack quorum b c).n_success
unfolding on_ack
on_ack-early quorum true c h e = ground arith
on_ack-early quorum false c h e = ground arith

on_ack_last :
    (quorum : ℕ) (b : Bool) (c : WriteCtx)
    → c.n_acked + 1 ≡ c.n_peers
    → c.promise ≡ early quorum c.n_success
    → (on_ack quorum b c).promise ≡ verdict_from quorum c.n_success (b ∷ [])
unfolding on_ack verdict_from
on_ack_last quorum true c h e = ground arith
on_ack_last quorum false c h e = ground arith

verdict_from-on_ack :
    (quorum : ℕ) (b d : Bool) (bs : List Bool) (c : WriteCtx)
    → verdict_from quorum (on_ack quorum b c).n_success (d ∷ bs)
      ≡ verdict_from quorum c.n_success (b ∷ d ∷ bs)
unfolding on_ack verdict_from
verdict_from-on_ack quorum true d bs c = rw (add_assoc c.n_success 1 (successes (d ∷ bs)))
verdict_from-on_ack quorum false d bs c = rw (zero-add (successes (d ∷ bs)))

run_acks_from :
    (quorum : ℕ) (b : Bool) (bs : List Bool) (c : WriteCtx)
    → c.n_acked + length (b ∷ bs) ≡ c.n_peers
    → c.promise ≡ early quorum c.n_success
    → (run_acks quorum (b ∷ bs) c).promise ≡ verdict_from quorum c.n_success (b ∷ bs)
unfolding run_acks
run_acks_from quorum b [] c h e = on_ack_last quorum b c (omega arith) e
run_acks_from quorum b (d ∷ bs) c h e =
    run_acks_from quorum d bs (on_ack quorum b c) (omega (arith, on_ack_counts quorum b c))
      (on_ack-early quorum b c (omega arith) e)
    ∙ verdict_from-on_ack quorum b d bs c

-- After the answers of all peers the promise is fulfilled if at least quorum - 1 of them are
-- values and quorum - 1 is not 0; failing that, it is failed if the last answer is an exception;
-- failing that, no callback has settled it.
pub run_acks-eq-verdict :
    (quorum : ℕ) (acks : List Bool)
    → (run_acks quorum acks (new_write_ctx (length acks))).promise ≡ verdict quorum acks
unfolding verdict verdict_from run_acks
run_acks-eq-verdict quorum [] = ground arith
run_acks-eq-verdict quorum (b ∷ bs) =
    run_acks_from quorum b bs (new_write_ctx (length (b ∷ bs))) (omega arith) (ground arith)
    ∙ rw (zero-add (successes (b ∷ bs)))
