-- ===== src/CoreWasm/Core/Shutdown.antt =====
-- packages/core-wasm/src/index.ts: what the failure of the core worker settles.
use Prim.Native.String.{String}
use slothfulchat_web.Prelude.{
  ℕ, ◌+◌, ◌≤◌, ◌≡◌, refl, sym, ap, ◌∙◌, inl, inr, Bool, true, false, ◌&&◌, Option, none, some, List,
  [], ◌∷◌, arith, ltb, ◌==◌, Bool-cases, is_some, Option-cases, count_if, count,
}
use slothfulchat_web.CoreWasm.Core.{
  emptied, kept, CoreEffect, fs_resolved, fs_rejected, rpc_rejected, fatal_notice, Core, reject_rpc,
  fail_transport, settle, error_response, settle_all, shut, fail, rounds,
}

abbrev pub settles : ℕ → CoreEffect → Bool
settles n (fs_resolved m) = m == n
settles n (fs_rejected m e) = m == n
settles n _ = false

-- How often the promise of request `n` was settled.
abbrev pub settlements : ℕ → List CoreEffect → ℕ
settlements n [] = 0
settlements n (x ∷ l) = count_if (settles n x) + settlements n l

abbrev pub is_notice : CoreEffect → Bool
is_notice (fatal_notice m) = true
is_notice _ = false

abbrev pub notices : List CoreEffect → ℕ
notices [] = 0
notices (x ∷ l) = count_if (is_notice x) + notices l

abbrev pub refuses : ℕ → CoreEffect → Bool
refuses n (fs_rejected m e) = m == n
refuses n _ = false

-- How often the promise of request `n` to the file system was rejected.
abbrev pub refusals : ℕ → List CoreEffect → ℕ
refusals n [] = 0
refusals n (x ∷ l) = count_if (refuses n x) + refusals n l

abbrev pub rejects : ℕ → CoreEffect → Bool
rejects n (rpc_rejected m e) = m == n
rejects n _ = false

-- How often the promise of JSON-RPC request `n` was rejected.
abbrev pub rejections : ℕ → List CoreEffect → ℕ
rejections n [] = 0
rejections n (x ∷ l) = count_if (rejects n x) + rejections n l

abbrev pub issued : ℕ → ℕ → ℕ
issued n next = count_if (ltb 0 n && ltb n next)

pub record Accounts (c : Core) : Type 0 where
  pub numbered : 1 ≤ c.next_id
  pub settled : (n : ℕ) → settlements n c.log + count n c.pending ≡ issued n c.next_id
  pub gone : is_some c.dead ≡ true → c.pending ≡ []
  pub noticed : notices c.log ≡ count_if (is_some c.dead)
  pub joined : is_some c.transport.dead ≡ is_some c.dead

reject_rpc-quiet :
    (m : String) (n : ℕ) (ns : List ℕ) (l : List CoreEffect)
    → (settlements n (reject_rpc m ns l) ≡ settlements n l)
      × (notices (reject_rpc m ns l) ≡ notices l)
      × (refusals n (reject_rpc m ns l) ≡ refusals n l)
reject_rpc-quiet m n [] l = (refl, refl, refl)
reject_rpc-quiet m n (k ∷ ns) l = ground (arith, reject_rpc-quiet m n ns (rpc_rejected k m ∷ l))

reject_rpc-rejections :
    (m : String) (n : ℕ) (ns : List ℕ) (l : List CoreEffect)
    → rejections n (reject_rpc m ns l) ≡ rejections n l + count n ns
reject_rpc-rejections m n [] l = omega arith
reject_rpc-rejections m n (k ∷ ns) l =
    omega (arith, reject_rpc-rejections m n ns (rpc_rejected k m ∷ l))

record Settles (ns : List ℕ) (c d : Core) : Type 0 where
  next_id : d.next_id ≡ c.next_id
  dead : d.dead ≡ c.dead
  transport : d.transport ≡ c.transport
  settled : (n : ℕ) → settlements n d.log ≡ settlements n c.log + count n ns
  refused : (n : ℕ) → refusals n d.log ≡ refusals n c.log + count n ns
  rejected : (n : ℕ) → rejections n d.log ≡ rejections n c.log
  noticed : notices d.log ≡ notices c.log

settle_all-Settles : (m : String) (ns : List ℕ) (c : Core) → Settles ns c (settle_all m ns c)
settle_all-Settles m [] c = record {
  next_id = refl;
  dead = refl;
  transport = refl;
  settled = λ n. omega arith;
  refused = λ n. omega arith;
  rejected = λ n. refl;
  noticed = refl;
}
settle_all-Settles m (k ∷ ns) c =
    let s = settle_all-Settles m ns (settle (error_response m k) c) in
    record {
      next_id = s.next_id;
      dead = s.dead;
      transport = s.transport;
      settled = λ n. omega (arith, s.settled n);
      refused = λ n. omega (arith, s.refused n);
      rejected = λ n. omega (arith, s.rejected n);
      noticed = omega (arith, s.noticed);
    }

record Shuts (c d : Core) : Type 0 where
  next_id : d.next_id ≡ c.next_id
  pending : d.pending ≡ c.pending
  dead : d.dead ≡ c.dead
  settled : (n : ℕ) → settlements n d.log ≡ settlements n c.log
  refused : (n : ℕ) → refusals n d.log ≡ refusals n c.log
  noticed : notices d.log ≡ notices c.log

fail_transport-Shuts : (m : String) (c : Core) → Shuts c (fail_transport m c)
unfolding fail_transport
fail_transport-Shuts m c = elim (Bool-cases (is_some c.transport.dead)) [
  | inl y ↦ simp y (record {
    next_id = refl;
    pending = refl;
    dead = refl;
    settled = λ n. refl;
    refused = λ n. refl;
    noticed = refl;
  })
  | inr q ↦ simp q (record {
    next_id = refl;
    pending = refl;
    dead = refl;
    settled = λ n. (reject_rpc-quiet m n (kept c.transport) c.log).0;
    refused = λ n. (reject_rpc-quiet m n (kept c.transport) c.log).2;
    noticed = (reject_rpc-quiet m 0 (kept c.transport) c.log).1;
  })
]

fail_transport-alive :
    (m : String) (c : Core)
    → is_some c.transport.dead ≡ false
    → ((fail_transport m c).transport
        ≡ record { dead = some m; requests = emptied c.transport.requests })
      × ((fail_transport m c).log ≡ reject_rpc m (kept c.transport) c.log)
unfolding fail_transport
fail_transport-alive m c h = simp h (refl, refl)

fail_transport-dead : (m : String) (c : Core) → is_some (fail_transport m c).transport.dead ≡ true
unfolding fail_transport
fail_transport-dead m c = elim (Bool-cases (is_some c.transport.dead)) [
  | inl y ↦ simp y refl
  | inr n ↦ simp n refl
]

-- The core whose requests `shut` has settled.
abbrev settled_core : String → Core → Core
settled_core m c = let d = fail_transport m (record c { dead = some m }) in settle_all m d.pending d

-- What it makes of the core.
record Closes (m : String) (c d : Core) : Type 0 where
  next_id : d.next_id ≡ c.next_id
  dead : d.dead ≡ some m
  transport : is_some d.transport.dead ≡ true
  settled : (n : ℕ) → settlements n d.log ≡ settlements n c.log + count n c.pending
  refused : (n : ℕ) → refusals n d.log ≡ refusals n c.log + count n c.pending
  noticed : notices d.log ≡ notices c.log

settled_core-Closes : (m : String) (c : Core) → Closes m c (settled_core m c)
settled_core-Closes m c =
    let d = fail_transport m (record c { dead = some m }) in
    let t = fail_transport-Shuts m (record c { dead = some m }) in
    let s = settle_all-Settles m d.pending d in
    record {
      next_id = s.next_id ∙ t.next_id;
      dead = s.dead ∙ t.dead;
      transport =
          ap (λ w. is_some w.dead) s.transport ∙ fail_transport-dead m (record c { dead = some m });
      settled = λ n. s.settled n ∙ omega (arith, t.settled n, ap (count n) t.pending);
      refused = λ n. s.refused n ∙ omega (arith, t.refused n, ap (count n) t.pending);
      noticed = s.noticed ∙ t.noticed;
    }

alive-notices :
    (c : Core) → c.dead ≡ none → notices c.log ≡ count_if (is_some c.dead) → notices c.log ≡ 0
alive-notices c h k = ground arith

shut-dead : (m : String) (c : Core) → is_some (shut m c).dead ≡ true
unfolding shut
shut-dead m c = ap is_some (settled_core-Closes m c).dead

shut-Accounts : (m : String) (c : Core) → c.dead ≡ none → Accounts c → Accounts (shut m c)
unfolding shut
shut-Accounts m c h a =
    let s = settled_core-Closes m c in
    record {
      numbered = omega (arith, s.next_id, a.numbered);
      settled = λ n. omega (arith, s.settled n, a.settled n) ∙ sym (ap (issued n) s.next_id);
      gone = λ x. refl;
      noticed =
          omega (arith, s.noticed, alive-notices c h a.noticed)
          ∙ sym (ap (λ o. count_if (is_some o)) s.dead);
      joined = s.transport ∙ sym (ap is_some s.dead);
    }

kept-emptied :
    (m : String) (o : Option (List ℕ)) → kept (record { dead = some m; requests = emptied o }) ≡ []
kept-emptied m none = refl
kept-emptied m (some ns) = refl

-- A worker that fails while the core is alive takes every JSON-RPC request with it.
pub shut-rejections :
    (m : String) (n : ℕ) (c : Core)
    → is_some c.transport.dead ≡ false
    → (kept (shut m c).transport ≡ [])
      × (rejections n (shut m c).log ≡ rejections n c.log + count n (kept c.transport))
unfolding shut
shut-rejections m n c h =
    let d = fail_transport m (record c { dead = some m }) in
    let (gone, told) = fail_transport-alive m (record c { dead = some m }) h in
    let s = settle_all-Settles m d.pending d in
    (
      ap kept (s.transport ∙ gone) ∙ kept-emptied m c.transport.requests,
      omega (
        arith,
        s.rejected n,
        ap (rejections n) told,
        reject_rpc-rejections m n (kept c.transport) c.log,
      ),
    )

pub shut-refusals :
    (m : String) (n : ℕ) (c : Core)
    → ((shut m c).pending ≡ []) × (refusals n (shut m c).log ≡ refusals n c.log + count n c.pending)
unfolding shut
shut-refusals m n c = (refl, omega (arith, (settled_core-Closes m c).refused n))

-- The listener of the failure's own notice finds the core dead.
pub fail-alive : (m : String) (c : Core) → c.dead ≡ none → fail rounds m c ≡ some (shut m c)
unfolding fail
fail-alive m c h = ground (arith, shut-dead m c)

pub fail-Accounts :
    (m : String) (c : Core)
    → Accounts c
    → (d : Core) × (fail rounds m c ≡ some d) × Accounts d × (is_some d.dead ≡ true)
unfolding fail
fail-Accounts m c h = elim (Option-cases c.dead) [
  | inr (e, q) ↦ (c, ground arith, h, ground arith)
  | inl q ↦ (shut m c, ground (arith, shut-dead m c), shut-Accounts m c q h, shut-dead m c)
]
