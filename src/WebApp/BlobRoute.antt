-- ===== src/WebApp/BlobRoute.antt =====
-- packages/web-app/src/blob-route.ts: which path of the memfs a request may read, and the path that the
-- page reads for it (runtime.ts). A match of an expression that is not anchored is the first suffix of
-- the path name at which the rest matches. Numbers are exact below 2 ^ 53.
pub mod Memfs
pub mod Splitting
pub mod Confined
use slothfulchat_web.Prelude.{
  ℕ, Bool, true, false, not, ◌&&◌, ◌||◌, Option, none, some, List, [], ◌∷◌, ◌++◌, ◌==◌,
  if◌then◌else◌, is_some, any, Text, codes, is_blank, text_eq, after_prefix, parts, split,
}
use slothfulchat_web.WebApp.DecodeUri.{decode_uri_component}
use slothfulchat_web.WebApp.BlobResponse.{digits, number}

abbrev pub is_slash : ℕ → Bool
is_slash c = c == 47

abbrev pub is_separator : ℕ → Bool
is_separator c = (c == 47) || (c == 92)

abbrev pub dot_dot : Text
dot_dot = 46 ∷ 46 ∷ []

unfoldable pub traversal : Text → Bool
traversal value = any (text_eq dot_dot) (split is_separator value)

abbrev pub check_segment : Bool → Text → Option Text
check_segment allow_slashes decoded =
    if any (λ c. c == 0) decoded
    then none
    else (if traversal decoded
        then none
        else (if not allow_slashes && any is_slash decoded then none else some decoded))

unfoldable pub safe_segment : Bool → Text → Option Text
safe_segment allow_slashes raw = elim (decode_uri_component raw) [
  | none ↦ none
  | some decoded ↦ check_segment allow_slashes decoded
]

-- The first suffix at which `m` matches.
abbrev pub first_match {ℓ} : {A : Type ℓ} → (Text → Option A) → Text → Option A
first_match m [] = m []
first_match m (c ∷ s) =
    let later = first_match m s in elim (m (c ∷ s)) [ none ↦ later | some a ↦ some a ]

-- `[^/]+` up to the end or a slash, and what follows it.
abbrev pub segment : Text → Text × Text
segment [] = ([], [])
segment (c ∷ s) = let (seg, rest) = segment s in if is_slash c then ([], c ∷ s) else (c ∷ seg, rest)

-- `.`
abbrev pub is_terminator : ℕ → Bool
is_terminator c = (c == 10) || (c == 13) || (c == 8232) || (c == 8233)

abbrev pub last_segment : Text → Option Text
last_segment s =
    let (seg, rest) = segment s in if is_blank seg || not (is_blank rest) then none else some seg

-- `/\/blobs\/([^/]+)\/(.+)$/`
abbrev pub blob_groups : Text → Option (Text × Text)
blob_groups s = elim (after_prefix (codes "/blobs/") s) [
  | none ↦ none
  | some t ↦ elim (after_prefix (codes "/") (segment t).1) [
    | none ↦ none
    | some rest ↦
        if is_blank (segment t).0 || is_blank rest || any is_terminator rest
        then none
        else some ((segment t).0, rest)
  ]
]

abbrev pub group_behind : Text → Text → Option Text
group_behind p s = elim (after_prefix p s) [ none ↦ none | some t ↦ last_segment t ]

-- `/\/webxdc-icon\/(\d+)\/(\d+)$/`
abbrev pub icon_groups : Text → Option (Text × Text)
icon_groups s = elim (after_prefix (codes "/webxdc-icon/") s) [
  | none ↦ none
  | some t ↦ elim (after_prefix (codes "/") (digits t).1) [
    | none ↦ none
    | some u ↦
        if is_blank (digits t).0 || is_blank (digits u).0 || not (is_blank (digits u).1)
        then none
        else some ((digits t).0, (digits u).0)
  ]
]

pub data BlobRoute : Type 0 where
  blob : Text → Text → BlobRoute
  backup : Text → Text → BlobRoute
  by_path : Text → Text → BlobRoute
  xdc_icon : ℕ → ℕ → BlobRoute

unfoldable pub is_blob_route : Text → Bool
is_blob_route pathname =
    is_some (first_match (after_prefix (codes "/blobs/")) pathname)
    || is_some (first_match (after_prefix (codes "/download-backup/")) pathname)
    || is_some (first_match (after_prefix (codes "/blob-path/")) pathname)
    || is_some (first_match (after_prefix (codes "/webxdc-icon/")) pathname)

-- A string that is there and not empty.
abbrev pub non_empty : Option Text → Option Text
non_empty none = none
non_empty (some []) = none
non_empty (some (c ∷ s)) = some (c ∷ s)

abbrev pub blob_of : Option Text → Option Text → Option BlobRoute
blob_of (some account) (some filename) = some (blob account filename)
blob_of _ _ = none

unfoldable pub resolve_blob : Text → Text → Option BlobRoute
resolve_blob a f = blob_of (non_empty (safe_segment false a)) (non_empty (safe_segment true f))

abbrev pub backup_of : Option Text → Option BlobRoute
backup_of none = none
backup_of (some filename) = some (backup filename (codes "/exports/" ++ filename))

unfoldable pub resolve_backup : Text → Option BlobRoute
resolve_backup f = backup_of (non_empty (safe_segment false f))

-- `split('/').pop()`
abbrev pub last_part : Text → List Text → Text
last_part h [] = h
last_part h (p ∷ ps) = last_part p ps

abbrev pub by_path_of : Option Text → Option BlobRoute
by_path_of none = none
by_path_of (some []) = none
by_path_of (some (c ∷ s)) =
    if is_slash c
    then some (by_path (last_part (parts is_slash (c ∷ s)).0 (parts is_slash (c ∷ s)).1) (c ∷ s))
    else none

unfoldable pub resolve_by_path : Text → Option BlobRoute
resolve_by_path f = by_path_of (safe_segment true f)

abbrev pub resolve_icon : Option (Text × Text) → Option BlobRoute
resolve_icon none = none
resolve_icon (some (a, m)) = some (xdc_icon (number a) (number m))

-- The matches of the four expressions, of which the first decides.
abbrev pub resolve_groups :
    Option (Text × Text) → Option Text → Option Text → Option (Text × Text) → Option BlobRoute
resolve_groups (some (a, f)) backup_file path icon = resolve_blob a f
resolve_groups none (some f) path icon = resolve_backup f
resolve_groups none none (some f) icon = resolve_by_path f
resolve_groups none none none icon = resolve_icon icon

unfoldable pub resolve_blob_route : Text → Option BlobRoute
resolve_blob_route pathname =
    resolve_groups (first_match blob_groups pathname)
      (first_match (group_behind (codes "/download-backup/")) pathname)
      (first_match (group_behind (codes "/blob-path/")) pathname) (first_match icon_groups pathname)

-- The path that the page reads for a route, if it reads one.
unfoldable pub read_path : BlobRoute → Option Text
read_path (blob account filename) =
    some (codes "/accounts/" ++ (account ++ (codes "/dc.db-blobs/" ++ filename)))
read_path (backup filename path) = some path
read_path (by_path filename path) = some path
read_path (xdc_icon a m) = none
