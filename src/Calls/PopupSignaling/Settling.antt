-- ===== src/Calls/PopupSignaling/Settling.antt =====
-- packages/calls/bridge/popup-signaling.ts: how often the promises of the popup's client settle.
use slothfulchat_web.Prelude.{
  ℕ, ◌+◌, ◌≤◌, ◌≡◌, refl, true, List, [], ◌∷◌, ◌++◌, map, arith, ltb, ◌==◌, count_if, count,
  count-append, count-member, member-count, count-drop,
}
use slothfulchat_web.Calls.PopupSignaling.{
  Arg, PopupRpcMethod, RpcResult, error, Effect, post, settle, refuse, PopupRpcClient, new_client,
  call, on_result, dispose,
}

pub data Event (V : Type 0) : Type 0 where
  calls : PopupRpcMethod → List Arg → Event V
  answers : ℕ → RpcResult V → Event V
  disposes : Event V

module _ {V : Type 0} where
  unfoldable pub step : PopupRpcClient → Event V → PopupRpcClient × List (Effect V)
  step c (calls m args) = call m args c
  step c (answers i r) = on_result i r c
  step c disposes = dispose c

  unfoldable pub run : PopupRpcClient → List (Event V) → PopupRpcClient × List (Effect V)
  run c [] = (c, [])
  run c (e ∷ es) = let (c', did) = step c e in let (final, rest) = run c' es in (final, did ++ rest)

  -- How often an id is posted, and how often it is settled.
  abbrev pub posts : ℕ → List (Effect V) → ℕ
  posts i [] = 0
  posts i (post r ∷ es) = count_if (r.id == i) + posts i es
  posts i (settle j r ∷ es) = posts i es
  posts i (refuse ∷ es) = posts i es

  abbrev pub settles : ℕ → List (Effect V) → ℕ
  settles i [] = 0
  settles i (post r ∷ es) = settles i es
  settles i (settle j r ∷ es) = count_if (j == i) + settles i es
  settles i (refuse ∷ es) = settles i es

  posts-append : (i : ℕ) (xs ys : List (Effect V)) → posts i (xs ++ ys) ≡ posts i xs + posts i ys
  posts-append i [] ys = omega arith
  posts-append i (post r ∷ xs) ys = omega (arith, posts-append i xs ys)
  posts-append i (settle j r ∷ xs) ys = posts-append i xs ys
  posts-append i (refuse ∷ xs) ys = posts-append i xs ys

  settles-append :
      (i : ℕ) (xs ys : List (Effect V)) → settles i (xs ++ ys) ≡ settles i xs + settles i ys
  settles-append i [] ys = omega arith
  settles-append i (settle j r ∷ xs) ys = omega (arith, settles-append i xs ys)
  settles-append i (post r ∷ xs) ys = settles-append i xs ys
  settles-append i (refuse ∷ xs) ys = settles-append i xs ys

  settles-map :
      (i : ℕ) (r : RpcResult V) (xs : List ℕ) → settles i (map (λ k. settle k r) xs) ≡ count i xs
  settles-map i r [] = refl
  settles-map i r (x ∷ xs) = omega (arith, settles-map i r xs)

  posts-map : (i : ℕ) (r : RpcResult V) (xs : List ℕ) → posts i (map (λ k. settle k r) xs) ≡ 0
  posts-map i r [] = refl
  posts-map i r (x ∷ xs) = posts-map i r xs

-- A pending id was handed out, and is pending once.
record IsFresh (c : PopupRpcClient) (i : ℕ) : Type 0 where
  once : count i c.pending ≤ 1
  handed : c.next_id ≤ i → count i c.pending ≡ 0

new-IsFresh : (i : ℕ) → IsFresh new_client i
new-IsFresh i = record { once = omega arith; handed = λ h. refl }

abbrev below : ℕ → ℕ → ℕ
below i n = count_if (ltb i n)

module _ {V : Type 0} (i : ℕ) where
  step-IsFresh : (c : PopupRpcClient) (e : Event V) → IsFresh c i → IsFresh (step c e).0 i
  unfolding step call on_result dispose
  step-IsFresh c (calls m args) h = ground (arith, count-append i c.pending (c.next_id ∷ []))
  step-IsFresh c (answers j r) h = ground (arith, count-drop i j c.pending)
  step-IsFresh c disposes h = ground arith

  step-settles :
      (c : PopupRpcClient) (e : Event V)
      → IsFresh c i
      → settles i (step c e).1 + count i (step c e).0.pending
        ≡ posts i (step c e).1 + count i c.pending
  unfolding step call on_result dispose
  step-settles c (calls m args) h = ground (arith, count-append i c.pending (c.next_id ∷ []))
  step-settles c (answers j r) h =
      ground (arith, count-drop i j c.pending, count-member i c.pending, member-count i c.pending)
  step-settles c disposes h = omega (
    arith,
    settles-map {V = V} i (error "PopupRpcClient: relay closed") c.pending,
    posts-map {V = V} i (error "PopupRpcClient: relay closed") c.pending,
  )

  step-posts :
      (c : PopupRpcClient) (e : Event V)
      → posts i (step c e).1 + below i c.next_id ≡ below i (step c e).0.next_id
  unfolding step call on_result dispose
  step-posts c (calls m args) = ground arith
  step-posts c (answers j r) = ground arith
  step-posts c disposes =
      omega (arith, posts-map {V = V} i (error "PopupRpcClient: relay closed") c.pending)

  run_lem :
      (c : PopupRpcClient) (es : List (Event V))
      → IsFresh c i
      → (settles i (run c es).1 + count i (run c es).0.pending
          ≡ posts i (run c es).1 + count i c.pending)
        × (posts i (run c es).1 + below i c.next_id ≡ below i (run c es).0.next_id)
  unfolding run
  run_lem c [] h = (omega arith, omega arith)
  run_lem c (e ∷ es) h =
      let (settled, posted) = run_lem (step c e).0 es (step-IsFresh c e h) in
      let appended = settles-append i (step c e).1 (run (step c e).0 es).1 in
      let appended' = posts-append i (step c e).1 (run (step c e).0 es).1 in
      (
        omega (arith, settled, appended, appended', step-settles c e h),
        omega (arith, posted, appended', step-posts c e),
      )

  -- An id is posted at most once, and its promise settles at most once: it is pending exactly while it
  -- was posted and has not settled, whatever answers the opener sends, in whatever order.
  pub settled_once :
      (es : List (Event V))
      → (posts i (run new_client es).1 ≤ 1)
        × (settles i (run new_client es).1 + count i (run new_client es).0.pending
            ≡ posts i (run new_client es).1)
  settled_once es =
      let (settled, posted) = run_lem new_client es (new-IsFresh i) in
      (ground (arith, posted), ground (arith, settled))

  closed-step :
      (c : PopupRpcClient) (e : Event V)
      → c.closed ≡ true
      → c.pending ≡ []
      → ((step c e).0.closed ≡ true) × ((step c e).0.pending ≡ [])
  unfolding step call on_result dispose
  closed-step c e h k = ground arith

  closed-run :
      (c : PopupRpcClient) (es : List (Event V))
      → c.closed ≡ true
      → c.pending ≡ []
      → (run c es).0.pending ≡ []
  unfolding run
  closed-run c [] h k = k
  closed-run c (e ∷ es) h k = let (h', k') = closed-step c e h k in closed-run (step c e).0 es h' k'

  disposed-run :
      (c : PopupRpcClient) (es later : List (Event V))
      → (run c (es ++ disposes ∷ later)).0.pending ≡ []
  unfolding run step dispose
  disposed-run c [] later = closed-run _ later refl refl
  disposed-run c (e ∷ es) later = disposed-run (step c e).0 es later

  -- No awaited call hangs once the relay is torn down: after `dispose`, every id has settled as often as
  -- it was posted.
  pub dispose-settles :
      (es later : List (Event V))
      → settles i (run new_client (es ++ disposes ∷ later)).1
        ≡ posts i (run new_client (es ++ disposes ∷ later)).1
  dispose-settles es later =
      let (once, settled) = settled_once (es ++ disposes ∷ later) in
      let empty = disposed-run new_client es later in ground (arith, settled, empty)
