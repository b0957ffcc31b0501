-- ===== src/CoreWasm/Core/Failure.antt =====
-- packages/core-wasm/src/index.ts: no request to the file system is left without an answer.
use Prim.Native.String.{String}
use slothfulchat_web.Prelude.{
  ℕ, suc, ◌+◌, ◌≤◌, ◌≡◌, refl, ap, inl, inr, true, false, not, Option, none, some, List, [], ◌∷◌,
  ◌++◌, arith, ◌==◌, ==_iff, Bool-cases, keep, member, count_if, count, count-append, count-member,
  member-count, count-drop,
}
use slothfulchat_web.CoreWasm.Core.{
  CoreEffect, fs_posted, FsResponse, Core, log_effect, start_core, request_of, request, fail,
  rounds, on_fs_message, fs_request_of, fs_request, CoreEvent, calls_fs, calls_rpc, fs_message,
  worker_errs, cannot_clone, worker_died, library_sets, step, steps,
}
use slothfulchat_web.CoreWasm.Core.Shutdown.{settles, is_notice, issued, Accounts, fail-Accounts}

log-Accounts :
    (x : CoreEffect) (c : Core)
    → ((n : ℕ) → settles n x ≡ false)
    → is_notice x ≡ false
    → Accounts c
    → Accounts (log_effect x c)
log-Accounts x c k l h = record {
  numbered = h.numbered;
  settled = λ n. rw (k n) (omega (arith, h.settled n));
  gone = h.gone;
  noticed = rw l (omega (arith, h.noticed));
  joined = h.joined;
}

issued-suc : (n k : ℕ) → 1 ≤ k → issued n (suc k) ≡ issued n k + count_if (k == n)
issued-suc n k h = ground arith

post-Accounts :
    (c : Core)
    → c.dead ≡ none
    → Accounts c
    → Accounts (
        log_effect
          (fs_posted c.next_id)
          (record c { next_id = suc c.next_id; pending = c.pending ++ c.next_id ∷ [] }))
post-Accounts c q h = record {
  numbered = omega arith;
  settled = λ n. omega (
    arith,
    count-append n c.pending (c.next_id ∷ []),
    h.settled n,
    issued-suc n c.next_id h.numbered,
  );
  gone = ground arith;
  noticed = omega (arith, h.noticed);
  joined = h.joined;
}

-- A pending request is pending once.
pending-count : (c : Core) (n : ℕ) → Accounts c → member n c.pending ≡ true → count n c.pending ≡ 1
pending-count c n h m = ground (arith, h.settled n, member-count n c.pending m)

take-count :
    (n i : ℕ) (ns : List ℕ)
    → member n ns ≡ true
    → count n ns ≡ 1
    → count_if (n == i) + count i (keep (λ k. not (k == n)) ns) ≡ count i ns
take-count n i ns m h = elim (Bool-cases (n == i)) [
  | inl y ↦ ground (arith, count-drop i n ns, ap (λ k. count k ns) ((==_iff n i).0 y))
  | inr q ↦ ground (arith, count-drop i n ns)
]

drop-count :
    (n i : ℕ) (ns : List ℕ)
    → member n ns ≡ false
    → count i (keep (λ k. not (k == n)) ns) ≡ count i ns
drop-count n i ns m = elim (Bool-cases (n == i)) [
  | inl y ↦
      ground
        (arith, count-drop i n ns, count-member n ns m, ap (λ k. count k ns) ((==_iff n i).0 y))
  | inr q ↦ ground (arith, count-drop i n ns)
]

take-Accounts :
    (n : ℕ) (x : CoreEffect) (c : Core)
    → ((k : ℕ) → settles k x ≡ (n == k))
    → is_notice x ≡ false
    → member n c.pending ≡ true
    → Accounts c
    → Accounts (log_effect x (record c { pending = keep (λ k. not (k == n)) c.pending }))
take-Accounts n x c k l m h = record {
  numbered = h.numbered;
  settled = λ i.
      rw (k i) (omega (arith, h.settled i, take-count n i c.pending m (pending-count c n h m)));
  gone = λ d. ground (arith, h.gone d);
  noticed = rw l (omega (arith, h.noticed));
  joined = h.joined;
}

drop-Accounts :
    (n : ℕ) (c : Core)
    → member n c.pending ≡ false
    → Accounts c
    → Accounts (record c { pending = keep (λ k. not (k == n)) c.pending })
drop-Accounts n c m h = record {
  numbered = h.numbered;
  settled = λ i. omega (arith, h.settled i, drop-count n i c.pending m);
  gone = λ d. ground (arith, h.gone d);
  noticed = h.noticed;
  joined = h.joined;
}

fs_request_of-Accounts :
    (o : Option String) (c : Core) → c.dead ≡ o → Accounts c → Accounts (fs_request_of o c)
fs_request_of-Accounts none c q h = post-Accounts c q h
fs_request_of-Accounts (some m) c q h = log-Accounts _ c (λ n. refl) refl h

fs_request-Accounts : (c : Core) → Accounts c → Accounts (fs_request c)
unfolding fs_request
fs_request-Accounts c h = fs_request_of-Accounts c.dead c refl h

on_fs_message-Accounts : (r : FsResponse) (c : Core) → Accounts c → Accounts (on_fs_message r c)
unfolding on_fs_message
on_fs_message-Accounts r c h = elim (Bool-cases (member r.id c.pending)) [
  | inr n ↦ simp n (drop-Accounts r.id c n h)
  | inl y ↦ elim (Bool-cases r.is_ok) [
    | inl o ↦ simp (y, o) (take-Accounts r.id _ c (λ k. refl) refl y h)
    | inr o ↦ simp (y, o) (take-Accounts r.id _ c (λ k. refl) refl y h)
  ]
]

request_of-Accounts : (o : Option String) (c : Core) → Accounts c → Accounts (request_of o c)
request_of-Accounts none c h = log-Accounts _ c (λ n. refl) refl h
request_of-Accounts (some m) c h = log-Accounts _ c (λ n. refl) refl h

request-Accounts : (c : Core) → Accounts c → Accounts (request c)
unfolding request
request-Accounts c h = request_of-Accounts c.transport.dead c h

abbrev pub Handles : Option Core → Type 0
Handles r = (d : Core) × (r ≡ some d) × Accounts d

fail-Handles : (m : String) (c : Core) → Accounts c → Handles (fail rounds m c)
fail-Handles m c h = let (d, q, g, dead) = fail-Accounts m c h in (d, q, g)

step-Handles : (x : CoreEvent) (c : Core) → Accounts c → Handles (step x c)
unfolding step
step-Handles calls_fs c h = (fs_request c, refl, fs_request-Accounts c h)
step-Handles calls_rpc c h = (request c, refl, request-Accounts c h)
step-Handles (fs_message r) c h = (on_fs_message r c, refl, on_fs_message-Accounts r c h)
step-Handles (worker_errs m) c h = fail-Handles _ c h
step-Handles cannot_clone c h = fail-Handles _ c h
step-Handles (worker_died m) c h = fail-Handles _ c h
step-Handles (library_sets ns) c h = (
  _,
  refl,
  record {
    numbered = h.numbered;
    settled = h.settled;
    gone = h.gone;
    noticed = h.noticed;
    joined = h.joined;
  },
)

pub steps-Handles : (xs : List CoreEvent) (c : Core) → Accounts c → Handles (steps xs c)
unfolding steps
steps-Handles [] c h = (c, refl, h)
steps-Handles (x ∷ xs) c h = let (d, q, g) = step-Handles x c h in rw q (steps-Handles xs d g)

pub start-Accounts : Accounts start_core
unfolding start_core
start-Accounts = record {
  numbered = omega arith;
  settled = λ n. ground arith;
  gone = λ x. refl;
  noticed = refl;
  joined = refl;
}
