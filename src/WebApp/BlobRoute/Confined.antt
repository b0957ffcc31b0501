-- ===== src/WebApp/BlobRoute/Confined.antt =====
-- packages/web-app/src/blob-route.ts with the memfs: a request reads nothing outside its directory.
use mathlib.Core.Path.{subst}
use slothfulchat_web.Prelude.{
  ℕ, ◌≡◌, refl, ap, ◌∙◌, inl, inr, Bool, true, false, not, ◌&&◌, Option, none, some, List, [], ◌∷◌,
  ◌++◌, arith, ◌==◌, Bool-cases, keep, any, Text, codes, text_eq, parts, split,
}
use slothfulchat_web.WebApp.DecodeUri.{decode_uri_component}
use slothfulchat_web.WebApp.BlobResponse.{number}
use slothfulchat_web.WebApp.BlobRoute.{
  is_slash, is_separator, dot_dot, traversal, check_segment, safe_segment, BlobRoute, blob, backup,
  by_path, xdc_icon, non_empty, blob_of, resolve_blob, backup_of, resolve_backup, last_part,
  by_path_of, resolve_by_path, resolve_icon, resolve_groups, resolve_blob_route, read_path,
}
use slothfulchat_web.WebApp.BlobRoute.Memfs.{is_named, walk, normalize, walk-stays}
use slothfulchat_web.WebApp.BlobRoute.Splitting.{split-append, split-single, split-finer}

-- A segment that is safe to join onto a directory.
record IsSafe (allow_slashes : Bool) (s : Text) : Type 0 where
  no_nul : any (λ c. c == 0) s ≡ false
  no_climb : any (text_eq dot_dot) (split is_slash s) ≡ false
  flat : allow_slashes ≡ false → any is_slash s ≡ false

separators_lem : (c : ℕ) → is_slash c ≡ true → is_separator c ≡ true
separators_lem c h = rw h refl

traversal_lem : (s : Text) → traversal s ≡ false → any (text_eq dot_dot) (split is_slash s) ≡ false
unfolding traversal
traversal_lem s h = split-finer is_separator is_slash separators_lem dot_dot s refl h

check_segment-IsSafe : (a : Bool) (d s : Text) → check_segment a d ≡ some s → IsSafe a s × (d ≡ s)
check_segment-IsSafe a d s h = elim (Bool-cases (any (λ c. c == 0) d)) [
  | inl y ↦ cc (simp y at h)
  | inr n ↦ elim (Bool-cases (traversal d)) [
    | inl y ↦ cc (simp (n, y) at h)
    | inr m ↦ elim (Bool-cases (not a && any is_slash d)) [
      | inl y ↦ cc (simp (n, m, y) at h)
      | inr q ↦
          let same : d ≡ s = cc (simp (n, m, q) at h) in
          (
            rw (← same)
                (record { no_nul = n; no_climb = traversal_lem d m; flat = λ e. ground arith }),
            same,
          )
    ]
  ]
]

decoded-IsSafe :
    (a : Bool) (o : Option Text) (s : Text)
    → elim o [ none ↦ none | some d ↦ check_segment a d ] ≡ some s
    → IsSafe a s
decoded-IsSafe a none s h = cc
decoded-IsSafe a (some d) s h = (check_segment-IsSafe a d s h).0

safe_segment-IsSafe : (a : Bool) (raw s : Text) → safe_segment a raw ≡ some s → IsSafe a s
unfolding safe_segment
safe_segment-IsSafe a raw s h = decoded-IsSafe a (decode_uri_component raw) s h

non_empty_lem : (o : Option Text) (s : Text) → non_empty o ≡ some s → o ≡ some s
non_empty_lem none s h = cc
non_empty_lem (some []) s h = cc
non_empty_lem (some (c ∷ t)) s h = h

-- The directory of an account's blobs, or of the exports: no component that is `..`.
flat-dots :
    (s : Text)
    → any is_slash s ≡ false
    → any (text_eq dot_dot) (split is_slash s) ≡ false
    → text_eq dot_dot s ≡ false
flat-dots s h k = ground (arith, ap (any (text_eq dot_dot)) (split-single is_slash s h))

-- What follows a directory in a path.
abbrev pub Under : List Text → List Text → Type 0
Under dir path = (rest : List Text) × (path ≡ dir ++ rest)

-- Where the memfs looks for the path that the page reads for a route.
abbrev pub IsConfined : BlobRoute → Type 0
IsConfined (blob account filename) =
    (p : Text) × (read_path (blob account filename) ≡ some p)
    × Under (codes "accounts" ∷ keep is_named (account ∷ []) ++ codes "dc.db-blobs" ∷ [])
        (normalize p)
IsConfined (backup filename path) =
    (p : Text) × (read_path (backup filename path) ≡ some p)
    × (normalize p ≡ codes "exports" ∷ keep is_named (filename ∷ []))
IsConfined (by_path filename path) =
    (p : Text) × (read_path (by_path filename path) ≡ some p)
    × (normalize p ≡ keep is_named (split is_slash p))
IsConfined (xdc_icon a m) = read_path (xdc_icon a m) ≡ none

blob_path-split :
    (a f : Text)
    → any is_slash a ≡ false
    → split is_slash (codes "/accounts/" ++ (a ++ (codes "/dc.db-blobs/" ++ f)))
      ≡ [] ∷ codes "accounts" ∷ a ∷ codes "dc.db-blobs" ∷ split is_slash f
blob_path-split a f h =
    ap (λ ps. [] ∷ codes "accounts" ∷ ps)
      (split-append is_slash 47 a (codes "dc.db-blobs/" ++ f) refl
        ∙ ap (λ ps. ps ++ codes "dc.db-blobs" ∷ split is_slash f) (split-single is_slash a h))

blob-walk :
    (a : Text) (ps : List Text)
    → text_eq dot_dot a ≡ false
    → any (text_eq dot_dot) ps ≡ false
    → walk [] ([] ∷ codes "accounts" ∷ a ∷ codes "dc.db-blobs" ∷ ps)
      ≡ (codes "accounts" ∷ keep is_named (a ∷ []) ++ codes "dc.db-blobs" ∷ []) ++ keep is_named ps
blob-walk a ps h k = elim (Bool-cases (is_named a)) [
  | inl y ↦ rw (y, h) (walk-stays ps (codes "accounts" ∷ a ∷ codes "dc.db-blobs" ∷ []) k)
  | inr n ↦ rw n (walk-stays ps (codes "accounts" ∷ codes "dc.db-blobs" ∷ []) k)
]

backup-walk :
    (f : Text)
    → text_eq dot_dot f ≡ false
    → walk [] ([] ∷ codes "exports" ∷ f ∷ []) ≡ codes "exports" ∷ keep is_named (f ∷ [])
backup-walk f h = ground arith

blob-IsConfined : (a f : Text) → IsSafe false a → IsSafe true f → IsConfined (blob a f)
unfolding read_path normalize
blob-IsConfined a f h k =
    let single = h.flat refl in
    let dots = flat-dots a single h.no_climb in
    (
      _,
      refl,
      (
        keep is_named (split is_slash f),
        ap (walk []) (blob_path-split a f single) ∙ blob-walk a (split is_slash f) dots k.no_climb,
      ),
    )

backup-IsConfined : (f : Text) → IsSafe false f → IsConfined (backup f (codes "/exports/" ++ f))
unfolding read_path normalize
backup-IsConfined f h =
    let single = h.flat refl in
    let dots = flat-dots f single h.no_climb in
    (
      _,
      refl,
      ap (λ ps. walk [] ([] ∷ codes "exports" ∷ ps)) (split-single is_slash f single)
          ∙ backup-walk f dots,
    )

by_path-IsConfined : (f p : Text) → IsSafe true p → IsConfined (by_path f p)
unfolding read_path normalize
by_path-IsConfined f p h = (p, refl, walk-stays (split is_slash p) [] h.no_climb)

blob_of-IsConfined :
    (o q : Option Text) (r : BlobRoute)
    → ((s : Text) → o ≡ some s → IsSafe false s)
    → ((s : Text) → q ≡ some s → IsSafe true s)
    → blob_of o q ≡ some r
    → IsConfined r
blob_of-IsConfined none q r f g h = cc
blob_of-IsConfined (some a) none r f g h = cc
blob_of-IsConfined (some a) (some b) r f g h =
    let same : blob a b ≡ r = cc in
    subst IsConfined same (blob-IsConfined a b (f a refl) (g b refl))

backup_of-IsConfined :
    (o : Option Text) (r : BlobRoute)
    → ((s : Text) → o ≡ some s → IsSafe false s)
    → backup_of o ≡ some r
    → IsConfined r
backup_of-IsConfined none r f h = cc
backup_of-IsConfined (some a) r f h =
    let same : backup a (codes "/exports/" ++ a) ≡ r = cc in
    subst IsConfined same (backup-IsConfined a (f a refl))

by_path_of-IsConfined :
    (o : Option Text) (r : BlobRoute)
    → ((s : Text) → o ≡ some s → IsSafe true s)
    → by_path_of o ≡ some r
    → IsConfined r
by_path_of-IsConfined none r f h = cc
by_path_of-IsConfined (some []) r f h = cc
by_path_of-IsConfined (some (c ∷ s)) r f h = elim (Bool-cases (is_slash c)) [
  | inr n ↦ cc (simp n at h)
  | inl y ↦
      let file = last_part (parts is_slash (c ∷ s)).0 (parts is_slash (c ∷ s)).1 in
      let same : by_path file (c ∷ s) ≡ r = cc (simp y at h) in
      subst IsConfined same (by_path-IsConfined file (c ∷ s) (f (c ∷ s) refl))
]

resolve_icon-IsConfined :
    (o : Option (Text × Text)) (r : BlobRoute) → resolve_icon o ≡ some r → IsConfined r
unfolding read_path
resolve_icon-IsConfined none r h = cc
resolve_icon-IsConfined (some (a, m)) r h =
    let same : xdc_icon (number a) (number m) ≡ r = cc in subst IsConfined same refl

named_segment : (a : Bool) (raw s : Text) → non_empty (safe_segment a raw) ≡ some s → IsSafe a s
named_segment a raw s h = safe_segment-IsSafe a raw s (non_empty_lem _ s h)

resolve_groups-IsConfined :
    (b : Option (Text × Text)) (d p : Option Text) (i : Option (Text × Text)) (r : BlobRoute)
    → resolve_groups b d p i ≡ some r
    → IsConfined r
unfolding resolve_blob resolve_backup resolve_by_path
resolve_groups-IsConfined (some (a, f)) d p i r h =
    blob_of-IsConfined _ _ r (named_segment false a) (named_segment true f) h
resolve_groups-IsConfined none (some f) p i r h = backup_of-IsConfined _ r (named_segment false f) h
resolve_groups-IsConfined none none (some f) i r h =
    by_path_of-IsConfined _ r (safe_segment-IsSafe true f) h
resolve_groups-IsConfined none none none i r h = resolve_icon-IsConfined i r h

-- Whatever path name a request has, also with escaped dots and slashes, the path that the page reads for
-- it, as the memfs resolves it, lies below the blobs of the named account, or is one file of the exports,
-- or is an absolute path that climbs nowhere.
pub resolve_blob_route-IsConfined :
    (pathname : Text) (r : BlobRoute) → resolve_blob_route pathname ≡ some r → IsConfined r
unfolding resolve_blob_route
resolve_blob_route-IsConfined pathname r h = resolve_groups-IsConfined _ _ _ _ r h
