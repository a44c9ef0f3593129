-- ===== src/ZooKafka/Connect/Waiting.antt =====
-- The wait for a connection ends, and what it decides.
use datom.Common.{
  ℕ, zero, suc, ltb, leb, sym, subst, ◌+◌, ◌*◌, ◌≤◌, ◌<◌, Bool, true, false, ◌||◌, Bool-cases, not,
  ◌&&◌, ◌≡◌, refl, ◌∙◌, ap, inl, inr, Option, some, arith,
}
use datom.Status.{of_status}
use datom.Exec.{Outcome, returned, thrown}
use datom.ZooKafka.{ZkCodes, to_status_exception}
use datom.ZooKafka.Connect.{
  Session, is_connected, is_settled, wait, tested, block_until_connected_or_timed_out, round,
  connect, init,
}

or_false : (a b : Bool) → a || b ≡ false → (a ≡ false) × (b ≡ false)
or_false a b e = ground arith

module _ (codes : ZkCodes) where
  -- The `k` answers from the n-th on are neither closed nor connected.
  abbrev pub none_settled : Session → ℕ → ℕ → Bool
  none_settled states n zero = true
  none_settled states n (suc k) = not (is_settled codes (states n)) && none_settled states (suc n) k

  -- How a wait ends: after `k` sleeps.
  abbrev pub Ends : ℕ → Session → ℕ → ℕ → ℕ → Type 0
  Ends fuel states seconds elapsed n =
      (k : ℕ) × (wait codes fuel states seconds elapsed n ≡ some (elapsed + 2 * k, suc (n + k)))
      × (elapsed + 2 * k ≤ seconds + 2)
      × (none_settled states n k ≡ true)
      × (is_settled codes (states (n + k)) || ltb seconds (elapsed + 2 * k) ≡ true)

  now-Ends :
      (fuel : ℕ) (states : Session) (seconds elapsed n : ℕ)
      → elapsed ≤ seconds + 2
      → is_settled codes (states n) || ltb seconds elapsed ≡ true
      → Ends (suc fuel) states seconds elapsed n
  unfolding wait
  now-Ends fuel states seconds elapsed n b e =
      let no_rounds : elapsed + 2 * 0 ≡ elapsed = omega arith in
      let same_call : n + 0 ≡ n = omega arith in
      (0, rw (e, no_rounds, same_call) refl, omega (arith, b), refl, rw (no_rounds, same_call) e)

  later-Ends :
      (fuel : ℕ) (states : Session) (seconds elapsed n : ℕ)
      → is_settled codes (states n) || ltb seconds elapsed ≡ false
      → Ends fuel states seconds (elapsed + 2) (suc n)
      → Ends (suc fuel) states seconds elapsed n
  unfolding wait
  later-Ends fuel states seconds elapsed n e (k, w, l, before, last) =
      let rounds : elapsed + 2 * suc k ≡ elapsed + 2 + 2 * k = omega arith in
      let none_now = (or_false (is_settled codes (states n)) (ltb seconds elapsed) e).0 in
      let call : n + suc k ≡ suc n + k = omega arith in
      (
        suc k,
        rw (e, rounds, call) w,
        omega (arith, l),
        rw (none_now, before) refl,
        rw (rounds, call) last,
      )

  -- A wait that has slept `elapsed` seconds so far ends, whatever the answers of zoo_state, if twice
  -- the fuel is more than `seconds + 2 - elapsed`. It sleeps for two seconds in each round but the
  -- last, and has then slept at most `seconds + 2` in all; every answer but the last was neither
  -- closed nor connected, and the last one was, or more than `seconds` had passed.
  pub wait-Ends :
      (fuel : ℕ) (states : Session) (seconds elapsed n : ℕ)
      → seconds + 2 < elapsed + 2 * fuel
      → elapsed ≤ seconds + 2
      → Ends fuel states seconds elapsed n
  unfolding wait
  wait-Ends zero states seconds elapsed n f b = absurd (omega (arith, f, b))
  wait-Ends (suc fuel) states seconds elapsed n f b =
      elim (Bool-cases (is_settled codes (states n) || ltb seconds elapsed)) [
        | inl e ↦ now-Ends fuel states seconds elapsed n b e
        | inr e ↦ later-Ends fuel states seconds elapsed n e (
            wait-Ends fuel states seconds (elapsed + 2) (suc n) (omega (arith, f))
              (ground (arith, (or_false (is_settled codes (states n)) (ltb seconds elapsed) e).1)))
      ]

  -- A session that is being set up for the first `k` answers of zoo_state and is connected from
  -- then on.
  pub record ConnectsAfter (k : ℕ) (states : Session) : Type 0 where
    pub pending : (j : ℕ) → j < k → is_settled codes (states j) ≡ false
    pub connected : (j : ℕ) → k ≤ j → is_connected codes (states j) ≡ true

  calls_reach :
      (states : Session) (seconds k j : ℕ)
      → ConnectsAfter k states
      → 2 * k ≤ seconds + 2
      → is_settled codes (states (0 + j)) || ltb seconds (0 + 2 * j) ≡ true
      → k ≤ j
  calls_reach states seconds k j c l last = elim (Bool-cases (leb k j)) [
    | inl e ↦ ground (arith, e)
    | inr e ↦
        let pending = c.pending (0 + j) (ground (arith, e)) in
        absurd (ground (arith, e, last, pending, l))
  ]

  tested_connected :
      (fuel : ℕ) (states : Session) (seconds k : ℕ)
      → ConnectsAfter k states
      → 2 * k ≤ seconds + 2
      → Ends fuel states seconds 0 0
      → tested codes states (wait codes fuel states seconds 0 0) ≡ some (returned tt)
  tested_connected fuel states seconds k c l (j, w, _, _, last) =
      let reached = calls_reach states seconds k j c l last in
      rw (w, c.connected (suc (0 + j)) (omega (arith, reached))) refl

  -- The wait succeeds if the session connects within the time that the wait may take.
  pub waits_for_connection :
      (fuel : ℕ) (states : Session) (seconds k : ℕ)
      → seconds + 2 < 2 * fuel
      → ConnectsAfter k states
      → 2 * k ≤ seconds + 2
      → block_until_connected_or_timed_out codes fuel states seconds ≡ some (returned tt)
  unfolding block_until_connected_or_timed_out
  waits_for_connection fuel states seconds k f c l =
      tested_connected fuel states seconds k c l
        (wait-Ends fuel states seconds 0 0 (omega (arith, f)) (omega arith))

  tested_in_vain :
      (fuel : ℕ) (states : Session) (seconds : ℕ)
      → ((j : ℕ) → is_connected codes (states j) ≡ false)
      → Ends fuel states seconds 0 0
      → tested codes states (wait codes fuel states seconds 0 0)
        ≡ some (thrown (of_status (to_status_exception codes codes.zinvalidstate)))
  tested_in_vain fuel states seconds c (j, w, _, _, _) = rw (w, c (suc (0 + j))) refl

  -- A session that never connects makes the wait throw the status of ZINVALIDSTATE.
  pub waits_in_vain :
      (fuel : ℕ) (states : Session) (seconds : ℕ)
      → seconds + 2 < 2 * fuel
      → ((j : ℕ) → is_connected codes (states j) ≡ false)
      → block_until_connected_or_timed_out codes fuel states seconds
        ≡ some (thrown (of_status (to_status_exception codes codes.zinvalidstate)))
  unfolding block_until_connected_or_timed_out
  waits_in_vain fuel states seconds f c =
      tested_in_vain fuel states seconds c
        (wait-Ends fuel states seconds 0 0 (omega (arith, f)) (omega arith))

  -- A handle whose session never connects.
  abbrev pub Fails : Option Session → Type 0
  Fails handle = (s : Session) × (handle ≡ some s) × ((i : ℕ) → is_connected codes (s i) ≡ false)

  round-Fails :
      (handle : Option Session) (k : ℕ) (again : Option (Outcome (Unit {0}) × ℕ))
      → Fails handle
      → round codes handle k again ≡ again
  round-Fails handle k again (s, h, c) = rw (h, waits_in_vain 4 s 5 (omega arith) c) refl

  connect_reaches :
      (fuel : ℕ) (handles : ℕ → Option Session) (k n calls : ℕ) (states : Session)
      → n < fuel
      → ((j : ℕ) → j < n → Fails (handles (k + j)))
      → handles (k + n) ≡ some states
      → ConnectsAfter calls states
      → calls ≤ 3
      → connect codes fuel handles k ≡ some (returned tt, k + n)
  unfolding connect
  connect_reaches zero handles k n calls states f vain h c l = absurd (omega (arith, f))
  connect_reaches (suc fuel) handles k zero calls states f vain h c l =
      let same : k + 0 ≡ k = omega arith in
      let h' = subst (λ i. handles i ≡ some states) same h in
      rw (h', same, waits_for_connection 4 states 5 calls (omega arith) c (omega (arith, l))) refl
  connect_reaches (suc fuel) handles k (suc n) calls states f vain h c l =
      let next : k + suc n ≡ suc k + n = omega arith in
      let first : k + 0 ≡ k = omega arith in
      round-Fails (handles k) k (connect codes fuel handles (suc k))
        (subst (λ i. Fails (handles i)) first (vain 0 (omega arith)))
      ∙ (connect_reaches fuel handles (suc k) n calls states (omega (arith, f))
            (λ j m.
              let shift : k + suc j ≡ suc k + j = omega arith in
              subst (λ i. Fails (handles i)) shift (vain (suc j) (omega (arith, m))))
            (subst (λ i. handles i ≡ some states) next h) c l
          ∙ ap (λ i. some (returned tt, i)) (sym next))

  -- If the first `n` handles never connect and the session of the next one connects by the fourth
  -- answer of zoo_state, then init opens exactly `n + 1` handles and ends at that one, with the
  -- outcome of the Kafka client's init.
  pub init_reaches :
      (fuel : ℕ) (handles : ℕ → Option Session) (n calls : ℕ) (states : Session)
      (kafka : Outcome (Unit {0}))
      → n < fuel
      → ((j : ℕ) → j < n → Fails (handles j))
      → handles n ≡ some states
      → ConnectsAfter calls states
      → calls ≤ 3
      → init codes fuel handles (some kafka) ≡ some (kafka, n)
  unfolding init connect
  init_reaches fuel handles n calls states kafka f vain h c l =
      let reached =
        connect_reaches fuel handles 0 n calls states f
          (λ j m.
            let same : j ≡ 0 + j = omega arith in subst (λ i. Fails (handles i)) same (vain j m))
          (let same : n ≡ 0 + n = omega arith in subst (λ i. handles i ≡ some states) same h) c l in
      let total : 0 + n ≡ n = omega arith in rw (reached, total) refl
