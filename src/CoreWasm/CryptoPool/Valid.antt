-- ===== src/CoreWasm/CryptoPool/Valid.antt =====
-- packages/core-wasm/src/worker.ts: what holds of a `CryptoPool` between its events.
use Prim.Native.String.{String, ◌++◌ as str_append}
use slothfulchat_web.Prelude.{
  ℕ, zero, suc, ◌+◌, ◌≤◌, ◌<◌, ◌≡◌, refl, ◌∙◌, ◌⊎◌, inl, inr, Bool, true, false, Option, none, some,
  List, [], ◌∷◌, arith, ltb, ◌==◌, Bool-cases, is_some, length, count_if,
}
use slothfulchat_web.CoreWasm.CryptoPool.{
  PoolEffect, job_resolved, job_rejected, CryptoJob, CryptoPool, Attempt, made, throws, Browser,
  disarm_active, jobs, rejections, terminate, bury, adopt_worker, die, perish,
}

abbrev pub settles : ℕ → PoolEffect → Bool
settles n (job_resolved m r) = m == n
settles n (job_rejected m e) = m == n
settles n _ = false

-- How often the promise of job `n` was settled.
abbrev pub settlements : ℕ → List PoolEffect → ℕ
settlements n [] = 0
settlements n (x ∷ l) = count_if (settles n x) + settlements n l

abbrev pub refuses : ℕ → PoolEffect → Bool
refuses n (job_rejected m e) = m == n
refuses n _ = false

-- How often the promise of job `n` was rejected.
abbrev pub refusals : ℕ → List PoolEffect → ℕ
refusals n [] = 0
refusals n (x ∷ l) = count_if (refuses n x) + refusals n l

abbrev pub occurrences : ℕ → List CryptoJob → ℕ
occurrences n [] = 0
occurrences n (j ∷ js) = count_if (j.id == n) + occurrences n js

-- Job `n`, settled or not.
abbrev pub accounted : ℕ → CryptoPool → ℕ
accounted n c = settlements n c.log + occurrences n (jobs c)

abbrev pub running : CryptoPool → List CryptoJob
running c = elim c.active [ none ↦ [] | some j ↦ j ∷ [] ]

-- Without a worker the respawns are used up, and nothing waits.
pub record IsSound (c : CryptoPool) : Type 0 where
  pub dead : c.worker ≡ none → (3 < c.spawn_failures) × (jobs c ≡ [])
  pub alive : is_some c.worker ≡ true → c.spawn_failures ≤ 3
  pub room : length c.queue ≤ 8
  pub armed : c.deadlines ≡ running c

-- Nothing waits behind a free slot.
pub record IsValid (c : CryptoPool) : Type 0 where
  pub sound : IsSound c
  pub slot : c.active ≡ none → c.queue ≡ []

-- What the end of a worker leaves: no job, every job of before rejected once.
pub record Ends (c d : CryptoPool) : Type 0 where
  pub active : d.active ≡ none
  pub queue : d.queue ≡ []
  pub deadlines : d.deadlines ≡ []
  pub next_id : d.next_id ≡ c.next_id
  pub accounts : (n : ℕ) → accounted n d ≡ accounted n c
  pub refused : (n : ℕ) → refusals n d.log ≡ refusals n c.log + occurrences n (jobs c)

rejections-settlements :
    (n : ℕ) (m : String) (js : List CryptoJob) (l : List PoolEffect)
    → settlements n (rejections m js l) ≡ settlements n l + occurrences n js
rejections-settlements n m [] l = omega arith
rejections-settlements n m (j ∷ js) l =
    omega (arith, rejections-settlements n m js (job_rejected j.id m ∷ l))

rejections-refusals :
    (n : ℕ) (m : String) (js : List CryptoJob) (l : List PoolEffect)
    → refusals n (rejections m js l) ≡ refusals n l + occurrences n js
rejections-refusals n m [] l = omega arith
rejections-refusals n m (j ∷ js) l =
    omega (arith, rejections-refusals n m js (job_rejected j.id m ∷ l))

terminate-refusals :
    (n : ℕ) (w : Option ℕ) (c : CryptoPool) → refusals n (terminate w c).log ≡ refusals n c.log
terminate-refusals n none c = refl
terminate-refusals n (some w) c = omega arith

disarm_active-refusals :
    (n : ℕ) (j : Option CryptoJob) (c : CryptoPool)
    → refusals n (disarm_active j c).log ≡ refusals n c.log
disarm_active-refusals n none c = refl
disarm_active-refusals n (some j) c = omega arith

terminate-settlements :
    (n : ℕ) (w : Option ℕ) (c : CryptoPool)
    → settlements n (terminate w c).log ≡ settlements n c.log
terminate-settlements n none c = refl
terminate-settlements n (some w) c = omega arith

disarm_active-settlements :
    (n : ℕ) (j : Option CryptoJob) (c : CryptoPool)
    → settlements n (disarm_active j c).log ≡ settlements n c.log
disarm_active-settlements n none c = refl
disarm_active-settlements n (some j) c = omega arith

abbrev pub Disarmable : CryptoPool → Type 0
Disarmable c = (disarm_active c.active c).deadlines ≡ []

bury-Ends : (m : String) (c : CryptoPool) → Disarmable c → Ends c (bury m c)
unfolding bury
bury-Ends m c h = record {
  active = ground arith;
  queue = ground arith;
  deadlines = ground arith;
  next_id = ground arith;
  accounts =
      λ n. grind (arith, terminate-settlements, disarm_active-settlements, rejections-settlements);
  refused = λ n. grind (arith, terminate-refusals, disarm_active-refusals, rejections-refusals);
}

bury-worker : (m : String) (c : CryptoPool) → (bury m c).worker ≡ none
unfolding bury
bury-worker m c = ground arith

bury-spawn_failures :
    (m : String) (c : CryptoPool) → (bury m c).spawn_failures ≡ suc c.spawn_failures
unfolding bury
bury-spawn_failures m c = ground arith

Ends-occurrences : {c d : CryptoPool} (n : ℕ) → Ends c d → occurrences n (jobs d) ≡ 0
Ends-occurrences n h = ground arith

Ends-trans : {c d e : CryptoPool} → Ends c d → Ends d e → Ends c e
Ends-trans h k = record {
  active = k.active;
  queue = k.queue;
  deadlines = k.deadlines;
  next_id = k.next_id ∙ h.next_id;
  accounts = λ n. k.accounts n ∙ h.accounts n;
  refused = λ n. omega (arith, h.refused n, k.refused n, Ends-occurrences n h);
}

pub Ends-IsValid :
    {c : CryptoPool} (d : CryptoPool)
    → Ends c d
    → (d.worker ≡ none → 3 < d.spawn_failures)
    → (is_some d.worker ≡ true → d.spawn_failures ≤ 3)
    → IsValid d
Ends-IsValid d h k l = record {
  sound = record {
    dead = λ w. (k w, ground arith);
    alive = l;
    room = ground arith;
    armed = ground arith;
  };
  slot = λ a. h.queue;
}

pub adopt_worker-Ends :
    {c : CryptoPool} (d : CryptoPool) (w : ℕ) → Ends c d → Ends c (adopt_worker w d)
adopt_worker-Ends d w h = record {
  active = h.active;
  queue = h.queue;
  deadlines = h.deadlines;
  next_id = h.next_id;
  accounts = λ n. omega (arith, h.accounts n);
  refused = λ n. omega (arith, h.refused n);
}

Ends-Disarmable : {c d : CryptoPool} → Ends c d → Disarmable d
Ends-Disarmable h = ground arith

pub Attempt-cases : (a : Attempt) → ((w : ℕ) × (a ≡ made w)) ⊎ ((e : String) × (a ≡ throws e))
Attempt-cases (made w) = inl (w, refl)
Attempt-cases (throws e) = inr (e, refl)

-- What an event that kills the worker comes to.
abbrev pub Dies : CryptoPool → Option CryptoPool → Type 0
Dies c r = (d : CryptoPool) × (r ≡ some d) × Ends c d × IsValid d

-- Each round counts a failure, so the fuel outlasts the respawns.
die-Dies :
    (n : ℕ) (b : Browser) (m : String) (c : CryptoPool)
    → 1 ≤ n
    → 4 ≤ n + c.spawn_failures
    → Disarmable c
    → Dies c (die n b m c)
unfolding die
die-Dies zero b m c h k l = absurd (omega arith)
die-Dies (suc n) b m c h k l =
    let d = bury m c in
    let ends = bury-Ends m c l in
    let failures = bury-spawn_failures m c in
    let no_worker = bury-worker m c in
    elim (Bool-cases (ltb 3 d.spawn_failures)) [
      | inl y ↦ (d, rw y, ends, Ends-IsValid d ends (λ w. ground arith) (λ w. ground arith))
      | inr y ↦ elim (Attempt-cases (b.makes_worker d.spawn_failures)) [
        | inl (w, q) ↦ (
          adopt_worker w d,
          rw (y, q),
          adopt_worker-Ends d w ends,
          Ends-IsValid _ (adopt_worker-Ends d w ends) (λ x. ground arith) (λ x. ground arith),
        )
        | inr (e, q) ↦
            let (x, r, g, v) =
              die-Dies n b (str_append "crypto worker spawn failed: " e) d (ground arith)
                (ground arith) (Ends-Disarmable ends) in
            (x, rw (y, q) r, Ends-trans ends g, v)
      ]
    ]

pub perish-Dies : (b : Browser) (m : String) (c : CryptoPool) → Disarmable c → Dies c (perish b m c)
perish-Dies b m c h = die-Dies 4 b m c (omega arith) (omega arith) h

pub IsSound-Disarmable : (c : CryptoPool) → IsSound c → Disarmable c
IsSound-Disarmable c h = ground arith
