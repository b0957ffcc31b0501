-- ===== src/CoreWasm/OpfsProbe.antt =====
-- packages/core-wasm/src/opfs-probe.mjs: the wait until the sync access handles are free. Time is counted in
-- milliseconds, and timers are exact. A probe, by its number, settles or throws after a while, or never does;
-- one that settles with the deadline still beats it. The loop runs on fuel.
pub mod Ends
use slothfulchat_web.Prelude.{
  ℕ, zero, suc, ◌+◌, ◌-◌, Bool, Option, none, some, ltb, if◌then◌else◌, leb,
}

pub data Probe : Type 0 where
  settles : ℕ → Bool → Probe
  throws : ℕ → Probe
  never : Probe

pub data Outcome : Type 0 where
  ready locked hung failed : Outcome

-- What came of it, when, and how many probes were started.
pub record Report : Type 0 where
  pub outcome : Outcome
  pub at : ℕ
  pub probes : ℕ

abbrev pub opfs_probe_deadline_ms : ℕ
opfs_probe_deadline_ms = 30000

abbrev pub opfs_probe_retry_ms : ℕ
opfs_probe_retry_ms = 500

abbrev pub ended : Outcome → ℕ → ℕ → Report
ended outcome at probes = record { outcome = outcome; at = at; probes = probes }

abbrev pub elapsed : Probe → ℕ
elapsed (settles d free) = d
elapsed (throws d) = d
elapsed never = 0

module _ (probe_once : ℕ → Probe) (until retry_ms : ℕ) where
  -- The race of a probe that was started at `now` with the timer, where `again` is the next round.
  unfoldable pub raced : Probe → ℕ → ℕ → Option Report → Option Report
  raced never now n again = some (ended hung until n)
  raced (throws d) now n again =
      if ltb (until - now) d then some (ended hung until n) else some (ended failed (now + d) n)
  raced (settles d free) now n again =
      if ltb (until - now) d
      then some (ended hung until n)
      else (if free
          then some (ended ready (now + d) n)
          else (if leb (until - (now + d)) retry_ms
              then some (ended locked (now + d) n)
              else again))

  -- `n` probes were started before. `none` where the fuel runs out.
  unfoldable pub rounds : ℕ → ℕ → ℕ → Option Report
  rounds zero now n = none
  rounds (suc fuel) now n =
      let again = rounds fuel (now + elapsed (probe_once n) + retry_ms) (suc n) in
      let race = raced (probe_once n) now (suc n) again in
      if leb until now then some (ended locked now n) else race

unfoldable pub probe_until_deadline : (ℕ → Probe) → ℕ → ℕ → ℕ → Option Report
probe_until_deadline probe_once start deadline_ms retry_ms =
    rounds probe_once (start + deadline_ms) retry_ms (suc deadline_ms) start 0
