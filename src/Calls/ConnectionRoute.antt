-- ===== src/Calls/ConnectionRoute.antt =====
-- packages/calls/engine/connection-route.ts: is the active candidate pair relayed?
pub mod Monitor
use Prim.Native.String.{String}
use package.text.Mathlib.Text.{◌==◌ as str_eq}
use mathlib.Core.List.{Memᴰ}
use slothfulchat_web.Prelude.{
  ◌≡◌, refl, ◌⊎◌, inl, inr, Bool, true, false, ◌&&◌, ◌||◌, Option, none, some, List, [], ◌∷◌, arith,
  if◌then◌else◌, find, keep, is_some, find-some, find-none, mem-keep, Option-cases, All, sym, ◌≢◌,
  ◌↔◌,
}

pub data ConnectionRoute : Type 0 where
  direct relay unknown : ConnectionRoute

-- A property of a statistics entry.
pub data Value : Type 0 where
  text : String → Value
  flag : Bool → Value
  other : Value

pub record RtcStatsEntry : Type 0 where
  pub id : String
  pub type : String
  pub nominated : Value
  pub state : Value
  pub local_candidate_id : Value
  pub remote_candidate_id : Value
  pub candidate_type : Value

-- `v === "…"` and `v === true`
abbrev pub is_text : Value → String → Bool
is_text (text t) s = str_eq t s
is_text _ s = false

abbrev pub is_true : Value → Bool
is_true (flag b) = b
is_true _ = false

-- `new Map(entries.map(e => [e.id, e])).get(id)`: the last entry with the id.
unfoldable pub by_id : List RtcStatsEntry → String → Option RtcStatsEntry
by_id [] i = none
by_id (e ∷ es) i = elim (by_id es i) [
  | some later ↦ some later
  | none ↦ if str_eq e.id i then some e else none
]

-- `typeof id === 'string' ? byId.get(id) : undefined`
unfoldable pub candidate : List RtcStatsEntry → Value → Option RtcStatsEntry
candidate es (text i) = by_id es i
candidate es _ = none

abbrev pub is_relayed : Option RtcStatsEntry → Bool
is_relayed none = false
is_relayed (some e) = is_text e.candidate_type "relay"

abbrev pub succeeded : RtcStatsEntry → Bool
succeeded p = is_text p.state "succeeded"

abbrev pub chosen : RtcStatsEntry → Bool
chosen p = is_true p.nominated && is_text p.state "succeeded"

-- `pairs.find(nominated and succeeded) ?? pairs.find(succeeded)`
unfoldable pub active_pair : List RtcStatsEntry → Option RtcStatsEntry
active_pair entries =
    let pairs = keep (λ e. is_text (text e.type) "candidate-pair") entries in
    elim (find chosen pairs) [ some p ↦ some p | none ↦ find succeeded pairs ]

unfoldable pub route_of : Option RtcStatsEntry → Option RtcStatsEntry → ConnectionRoute
route_of local remote =
    if is_relayed local || is_relayed remote
    then relay
    else if is_some local || is_some remote
    then direct
    else unknown

-- `none` is a `getStats()` that fails, or a report whose values cannot be listed.
unfoldable pub get_active_connection_route : Option (List RtcStatsEntry) → ConnectionRoute
get_active_connection_route none = unknown
get_active_connection_route (some entries) = elim (active_pair entries) [
  | none ↦ unknown
  | some pair ↦
      route_of (candidate entries pair.local_candidate_id)
        (candidate entries pair.remote_candidate_id)
]

abbrev pub is_pair : RtcStatsEntry → Bool
is_pair e = str_eq e.type "candidate-pair"

-- The pair in use: one that succeeded and was nominated or, if the report has no such pair, one
-- that succeeded.
pub record IsActive (entries : List RtcStatsEntry) (p : RtcStatsEntry) : Type 0 where
  pub listed : Memᴰ p entries
  pub pair : is_pair p ≡ true
  pub works : succeeded p ≡ true
  pub best : (chosen p ≡ true) ⊎ All (λ q. chosen q ≡ false) (keep is_pair entries)

active_pair-IsActive :
    (entries : List RtcStatsEntry) (p : RtcStatsEntry)
    → active_pair entries ≡ some p
    → IsActive entries p
unfolding active_pair
active_pair-IsActive entries p h = elim (Option-cases (find chosen (keep is_pair entries))) [
  | inr (q, e) ↦
      let (seen, good) = find-some chosen (keep is_pair entries) p (ground arith) in
      let (listed, pair) = mem-keep is_pair entries p seen in
      record { listed = listed; pair = pair; works = ground arith; best = inl good }
  | inl e ↦
      let (seen, good) = find-some succeeded (keep is_pair entries) p (ground arith) in
      let (listed, pair) = mem-keep is_pair entries p seen in
      record {
        listed = listed;
        pair = pair;
        works = good;
        best = inr (find-none chosen (keep is_pair entries) e);
      }
]

relayed :
    (l r : Option RtcStatsEntry)
    → route_of l r ≡ relay ↔ (is_relayed l ≡ true) ⊎ (is_relayed r ≡ true)
unfolding route_of
relayed l r = (ground arith, ground arith)

-- A report gives a route other than `unknown` only through a pair in use that it lists; the route
-- is `relay` exactly when that pair's local or remote candidate is a relay.
pub get_active_connection_route_lem :
    (entries : List RtcStatsEntry)
    → get_active_connection_route (some entries) ≢ unknown
    → (p : RtcStatsEntry) × IsActive entries p
      × (get_active_connection_route (some entries) ≡ relay
          ↔ (is_relayed (candidate entries p.local_candidate_id) ≡ true)
            ⊎ (is_relayed (candidate entries p.remote_candidate_id) ≡ true))
unfolding get_active_connection_route
get_active_connection_route_lem entries h = elim (Option-cases (active_pair entries)) [
  | inl e ↦ absurd (h (rw (e, get_active_connection_route)))
  | inr (p, e) ↦ (
    p,
    active_pair-IsActive entries p e,
    rw (e, get_active_connection_route)
        (relayed (candidate entries p.local_candidate_id)
          (candidate entries p.remote_candidate_id)),
  )
]
