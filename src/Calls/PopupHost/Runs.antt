-- ===== src/Calls/PopupHost/Runs.antt =====
-- packages/calls/bridge/popup-host.ts: how a popup's host ends.
use slothfulchat_web.Prelude.{
  ℕ, ◌+◌, ◌≤◌, ◌≡◌, refl, Bool, true, false, not, ◌||◌, Option, some, List, [], ◌∷◌, ◌++◌, arith,
  length, keep, count_if,
}
use slothfulchat_web.Calls.PopupHost.{
  Effect, on_ready, on_fallback, close_port, end_call, on_ended, CallPopupHost, open_call_popup,
  teardown, on_ready_message, on_popup_ended, on_popup_closed_abruptly, on_ready_timeout,
  on_closed_poll, forward_event, forward_answer, forward_remote_ended, forward_accepted_elsewhere,
  close, Event, popup_ready, ready_timer_fires, forwards_remote_ended, forwards_accepted_elsewhere,
  closes, popup_ended, call_placed, closed_poll_fires, forwards_answer, step, run,
}

-- The reports that end a host: `onEnded` and `onFallback`.
abbrev pub is_verdict : Effect → Bool
is_verdict (on_ended b) = true
is_verdict on_fallback = true
is_verdict _ = false

abbrev pub is_port_closing : Effect → Bool
is_port_closing close_port = true
is_port_closing _ = false

abbrev pub is_end_call : Effect → Bool
is_end_call (end_call account msg) = true
is_end_call _ = false

abbrev pub is_readiness : Effect → Bool
is_readiness on_ready = true
is_readiness _ = false

abbrev pub number_of : (Effect → Bool) → List Effect → ℕ
number_of p es = length (keep p es)

abbrev pub is_fallback : Effect → Bool
is_fallback on_fallback = true
is_fallback _ = false

number_of-append :
    (p : Effect → Bool) (xs ys : List Effect)
    → number_of p (xs ++ ys) ≡ number_of p xs + number_of p ys
number_of-append p [] ys = omega arith
number_of-append p (x ∷ xs) ys = ground (arith, number_of-append p xs ys)

-- What may come of a step or of a run, from the host that it starts with to the one it ends with.
-- The port is closed when the host becomes done; a verdict and a safety net come then or not at all;
-- readiness is reported when the host becomes ready, and a fall-back only before.
pub record Ends (g h : CallPopupHost) (did : List Effect) : Type 0 where
  pub port : number_of is_port_closing did + count_if g.done ≡ count_if h.done
  pub verdict : number_of is_verdict did + count_if g.done ≤ count_if h.done
  pub safety : number_of is_end_call did + count_if g.done ≤ count_if h.done
  pub readiness : number_of is_readiness did + count_if g.ready ≡ count_if h.ready
  pub fallback :
      number_of is_readiness did + number_of is_fallback did + count_if (g.ready || g.done)
      ≤ count_if (h.ready || h.done)

step-Ends : (h : CallPopupHost) (e : Event) → Ends h (step h e).0 (step h e).1
unfolding step on_ready_message on_popup_ended on_ready_timeout on_closed_poll
    on_popup_closed_abruptly forward_event forward_answer forward_remote_ended
    forward_accepted_elsewhere close teardown
step-Ends h popup_ready = ground arith
step-Ends h (popup_ended reached) = ground arith
step-Ends h (call_placed msg) = ground arith
step-Ends h ready_timer_fires = ground arith
step-Ends h (closed_poll_fires b) = ground arith
step-Ends h (forwards_answer info) = ground arith
step-Ends h forwards_remote_ended = ground arith
step-Ends h forwards_accepted_elsewhere = ground arith
step-Ends h closes = ground arith

run-Ends : (h : CallPopupHost) (es : List Event) → Ends h (run h es).0 (run h es).1
unfolding run
run-Ends h [] = ground arith
run-Ends h (e ∷ es) = Ends-append _ _ (step-Ends h e) (run-Ends (step h e).0 es)
  where
    Ends-append :
        {f g k : CallPopupHost} (xs ys : List Effect)
        → Ends f g xs
        → Ends g k ys
        → Ends f k (xs ++ ys)
    Ends-append xs ys a b = record {
      port = omega (arith, a.port, b.port, number_of-append is_port_closing xs ys);
      verdict = omega (arith, a.verdict, b.verdict, number_of-append is_verdict xs ys);
      safety = omega (arith, a.safety, b.safety, number_of-append is_end_call xs ys);
      readiness = omega (arith, a.readiness, b.readiness, number_of-append is_readiness xs ys);
      fallback = omega (
        arith,
        a.fallback,
        b.fallback,
        number_of-append is_readiness xs ys,
        number_of-append is_fallback xs ys,
      );
    }

opened_lem :
    (account : ℕ) (msg : Option ℕ) (h : CallPopupHost)
    → open_call_popup false account msg ≡ some h
    → (h.done ≡ false) × (h.ready ≡ false) × (h.listens ≡ true)
unfolding open_call_popup
opened_lem account msg h o = ground arith

-- However messages, timers and calls of the opener arrive, a host that was opened closes its port
-- once when it is done and not before; it reports at most one of an end and a fall-back, sends at
-- most one `endCall` of its own, and never both reports readiness and falls back.
pub host_ends_once :
    (account : ℕ) (msg : Option ℕ) (h : CallPopupHost) (es : List Event)
    → open_call_popup false account msg ≡ some h
    → let did = (run h es).1 in
      (number_of is_port_closing did ≡ count_if (run h es).0.done)
      × (number_of is_verdict did ≤ 1)
      × (number_of is_end_call did ≤ 1)
      × (number_of is_readiness did + number_of is_fallback did ≤ 1)
host_ends_once account msg h es o =
    let (d, r, _) = opened_lem account msg h o in
    let ends = run-Ends h es in
    (
      ground (arith, ends.port),
      ground (arith, ends.verdict),
      ground (arith, ends.safety),
      ground (arith, ends.fallback),
    )

-- A host that is done does not listen.
abbrev Listens : CallPopupHost → Type 0
Listens h = h.listens ≡ not h.done

step-Listens : (h : CallPopupHost) (e : Event) → Listens h → Listens (step h e).0
unfolding step on_ready_message on_popup_ended on_ready_timeout on_closed_poll
    on_popup_closed_abruptly forward_event forward_answer forward_remote_ended
    forward_accepted_elsewhere close teardown
step-Listens h e l = ground arith

run-Listens : (h : CallPopupHost) (es : List Event) → Listens h → Listens (run h es).0
unfolding run
run-Listens h [] l = l
run-Listens h (e ∷ es) l = run-Listens (step h e).0 es (step-Listens h e l)

-- A host that needs no safety net.
abbrev IsSafe : CallPopupHost → Type 0
IsSafe h = (h.ended_cleanly || h.done) ≡ true

step-IsSafe :
    (h : CallPopupHost) (e : Event)
    → IsSafe h
    → IsSafe (step h e).0 × (number_of is_end_call (step h e).1 ≡ 0)
unfolding step on_ready_message on_popup_ended on_ready_timeout on_closed_poll
    on_popup_closed_abruptly forward_event forward_answer forward_remote_ended
    forward_accepted_elsewhere close teardown
step-IsSafe h popup_ready l = ground arith
step-IsSafe h (popup_ended reached) l = ground arith
step-IsSafe h (call_placed msg) l = ground arith
step-IsSafe h ready_timer_fires l = ground arith
step-IsSafe h (closed_poll_fires b) l = ground arith
step-IsSafe h (forwards_answer info) l = ground arith
step-IsSafe h forwards_remote_ended l = ground arith
step-IsSafe h forwards_accepted_elsewhere l = ground arith
step-IsSafe h closes l = ground arith

run-IsSafe :
    (h : CallPopupHost) (es : List Event) → IsSafe h → number_of is_end_call (run h es).1 ≡ 0
unfolding run
run-IsSafe h [] l = refl
run-IsSafe h (e ∷ es) l =
    let (safe, silent) = step-IsSafe h e l in
    omega (
      arith,
      silent,
      run-IsSafe (step h e).0 es safe,
      number_of-append is_end_call (step h e).1 (run (step h e).0 es).1,
    )

-- The far end or the popup has ended the call itself, or the opener closes the popup.
abbrev pub is_ending : Event → Bool
is_ending (popup_ended reached) = true
is_ending forwards_remote_ended = true
is_ending forwards_accepted_elsewhere = true
is_ending closes = true
is_ending _ = false

ending-IsSafe :
    (h : CallPopupHost) (e : Event) → Listens h → is_ending e ≡ true → IsSafe (step h e).0
unfolding step on_ready_message on_popup_ended on_ready_timeout on_closed_poll
    on_popup_closed_abruptly forward_event forward_answer forward_remote_ended
    forward_accepted_elsewhere close teardown
ending-IsSafe h e l i = ground arith

-- Once the popup has reported its end, the far end has hung up, the call was accepted on another
-- device, or the opener has closed the popup, no later event makes the host send its own `endCall`.
pub no_late_end_call :
    (account : ℕ) (msg : Option ℕ) (h : CallPopupHost) (before later : List Event) (e : Event)
    → open_call_popup false account msg ≡ some h
    → is_ending e ≡ true
    → number_of is_end_call (run (step (run h before).0 e).0 later).1 ≡ 0
no_late_end_call account msg h before later e o i =
    let (d, _, l) = opened_lem account msg h o in
    let listens = run-Listens h before (rw (d, l) refl) in
    run-IsSafe _ later (ending-IsSafe (run h before).0 e listens i)
