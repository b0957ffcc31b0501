-- ===== src/CoreWasm/OpfsProbe/Ends.antt =====
-- packages/core-wasm/src/opfs-probe.mjs: the wait comes to its end, and tells what it saw.
use slothfulchat_web.Prelude.{
  ℕ, zero, suc, ◌+◌, ◌-◌, ◌≤◌, ◌<◌, ◌≡◌, refl, ap, ◌⊎◌, inl, inr, Bool, true, false, Option, some,
  arith, ltb, Bool-cases, leb,
}
use slothfulchat_web.CoreWasm.OpfsProbe.{
  Probe, settles, throws, never, Outcome, ready, locked, hung, failed, Report, ended, elapsed,
  raced, rounds, probe_until_deadline,
}

-- A probe that found the handles free, and one that may keep the wait from ending in time.
abbrev pub found_free : Probe → Bool
found_free (settles d free) = free
found_free (throws d) = false
found_free never = false

abbrev pub threw : Probe → Bool
threw (settles d free) = false
threw (throws d) = true
threw never = false

-- What the last of some probes must have been for an outcome.
abbrev pub Tells : Outcome → ℕ → Probe → Type 0
Tells ready n p = found_free p ≡ true
Tells failed n p = threw p ≡ true
Tells locked n p = (n ≡ 0) ⊎ (found_free p ≡ false)
Tells hung n p = 1 ≤ n

module _ (probe_once : ℕ → Probe) (until retry_ms : ℕ) where
  pub record IsEnd (r : Report) : Type 0 where
    pub in_time : r.at ≤ until
    pub tells : Tells r.outcome r.probes (probe_once (r.probes - 1))

  last_probe : (n : ℕ) → probe_once (suc n - 1) ≡ probe_once n
  last_probe n = ap probe_once (omega arith)

  raced-IsEnd :
      (p : Probe) (now n : ℕ) (again : Option Report)
      → probe_once n ≡ p
      → now < until
      → (now + elapsed p + retry_ms < until
          → found_free p ≡ false
          → (r : Report) × (again ≡ some r) × IsEnd r)
      → (r : Report) × (raced probe_once until retry_ms p now (suc n) again ≡ some r) × IsEnd r
  unfolding raced
  raced-IsEnd never now n again e h more =
      (ended hung until (suc n), refl, record { in_time = omega arith; tells = omega arith })
  raced-IsEnd (throws d) now n again e h more = elim (Bool-cases (ltb (until - now) d)) [
    | inl y ↦
        (ended hung until (suc n), rw y refl, record { in_time = omega arith; tells = omega arith })
    | inr z ↦ (
      ended failed (now + d) (suc n),
      rw z refl,
      record { in_time = ground arith; tells = simp (last_probe n, e) refl },
    )
  ]
  raced-IsEnd (settles d free) now n again e h more = elim (Bool-cases (ltb (until - now) d)) [
    | inl y ↦
        (ended hung until (suc n), rw y refl, record { in_time = omega arith; tells = omega arith })
    | inr z ↦ elim (Bool-cases free) [
      | inl f ↦ (
        ended ready (now + d) (suc n),
        rw (z, f) refl,
        record { in_time = ground arith; tells = simp (last_probe n, e) f },
      )
      | inr g ↦ elim (Bool-cases (leb (until - (now + d)) retry_ms)) [
        | inl l ↦ (
          ended locked (now + d) (suc n),
          rw (z, g, l) refl,
          record { in_time = ground arith; tells = inr (simp (last_probe n, e) g) },
        )
        | inr m ↦ let (r, er, k) = more (ground arith) g in (r, rw (z, g, m) er, k)
      ]
    ]
  ]

  rounds-IsEnd :
      (fuel now n : ℕ)
      → 1 ≤ retry_ms
      → now ≤ until
      → until - now < fuel
      → (n ≡ 0) ⊎ (found_free (probe_once (n - 1)) ≡ false)
      → (r : Report) × (rounds probe_once until retry_ms fuel now n ≡ some r) × IsEnd r
  unfolding rounds
  rounds-IsEnd zero now n pos h f prev = absurd (omega arith)
  rounds-IsEnd (suc fuel) now n pos h f prev = elim (Bool-cases (leb until now)) [
    | inl y ↦ (ended locked now n, rw y refl, record { in_time = h; tells = prev })
    | inr z ↦
        let (r, e, k) = raced-IsEnd (probe_once n) now n _ refl (ground arith) (λ l g.
          rounds-IsEnd fuel (now + elapsed (probe_once n) + retry_ms) (suc n) pos (omega arith)
            (omega arith) (inr (simp (last_probe n) g))) in
        (r, rw z e, k)
  ]

-- With a pause between probes, a deadline's number of rounds and one more is enough: whatever the probes do,
-- the wait ends by its deadline. It reports `ready` only if the last probe found the handles free, an error
-- only if that threw, and `locked` only if it did not find them free or there was none.
pub probe_until_deadline-ends :
    (probe_once : ℕ → Probe) (start deadline_ms retry_ms : ℕ)
    → 1 ≤ retry_ms
    → (r : Report) × (probe_until_deadline probe_once start deadline_ms retry_ms ≡ some r)
      × IsEnd probe_once (start + deadline_ms) retry_ms r
unfolding probe_until_deadline
probe_until_deadline-ends probe_once start deadline_ms retry_ms pos =
    rounds-IsEnd probe_once (start + deadline_ms) retry_ms (suc deadline_ms) start 0 pos
      (omega arith) (omega arith) (inl refl)
