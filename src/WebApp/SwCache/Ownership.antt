-- ===== src/WebApp/SwCache/Ownership.antt =====
-- packages/web-app/src/sw-cache.ts: a deploy owns its caches, and no other deploy's.
use slothfulchat_web.Prelude.{
  ◌≡◌, refl, sym, ap, ◌∙◌, ◌↔◌, inl, inr, true, false, Option, none, some, [], ◌∷◌, ◌++◌,
  append_assoc, arith, ◌==◌, ==_iff, Bool-cases, any, Text, after_prefix,
}
use slothfulchat_web.WebApp.SwCache.{is_slash, cache_name, is_flat, is_own_cache}

-- A prefix that ends with a slash leaves a slash in the text.
slash_in_prefix :
    (a v rest : Text) → after_prefix (a ++ 47 ∷ []) v ≡ some rest → any is_slash v ≡ true
slash_in_prefix [] [] rest h = cc
slash_in_prefix [] (d ∷ v) rest h = ground arith
slash_in_prefix (c ∷ a) [] rest h = cc
slash_in_prefix (c ∷ a) (d ∷ v) rest h = ground (arith, slash_in_prefix a v rest)

slash_inside : (b v : Text) → any is_slash (b ++ 47 ∷ v) ≡ true
slash_inside [] v = refl
slash_inside (d ∷ b) v = ground (arith, slash_inside b v)

-- The last slash of a text ends only one of its prefixes.
last_slash :
    (a b v rest : Text)
    → any is_slash v ≡ false
    → any is_slash rest ≡ false
    → after_prefix (a ++ 47 ∷ []) (b ++ 47 ∷ v) ≡ some rest
    → a ≡ b
last_slash [] [] v rest n m h = refl
last_slash [] (d ∷ b) v rest n m h = elim (Bool-cases (47 == d)) [
  | inl y ↦
      let same : b ++ 47 ∷ v ≡ rest = cc (simp y at h) in
      cc (slash_inside b v, ap (any is_slash) same, m)
  | inr q ↦ cc (simp q at h)
]
last_slash (c ∷ a) [] v rest n m h = elim (Bool-cases (c == 47)) [
  | inl y ↦ cc (slash_in_prefix a v rest (simp y at h), n)
  | inr q ↦ cc (simp q at h)
]
last_slash (c ∷ a) (d ∷ b) v rest n m h = elim (Bool-cases (c == d)) [
  | inl y ↦ rw ((==_iff c d).0 y, last_slash a b v rest n m (simp y at h)) refl
  | inr q ↦ cc (simp q at h)
]

flat_lem :
    (o : Option Text) (a b v : Text)
    → after_prefix (a ++ 47 ∷ []) (b ++ 47 ∷ v) ≡ o
    → any is_slash v ≡ false
    → is_flat o ≡ true
    → a ≡ b
flat_lem none a b v q n h = cc
flat_lem (some rest) a b v q n h = last_slash a b v rest n (ground arith) q

after_own_prefix : (a v : Text) → after_prefix (a ++ 47 ∷ []) (a ++ 47 ∷ v) ≡ some v
after_own_prefix [] v = refl
after_own_prefix (c ∷ a) v = ground (arith, after_own_prefix a v)

-- A name with a scope is not one of the old names.
scoped_lem :
    (a b version : Text)
    → is_own_cache (cache_name (b ++ 47 ∷ []) version) (a ++ 47 ∷ [])
      ≡ is_flat (after_prefix (a ++ 47 ∷ []) (b ++ 47 ∷ version))
unfolding is_own_cache cache_name
scoped_lem a b version =
    rw (append_assoc b (47 ∷ []) version) (ground (arith, slash_inside b version))

-- A cache of the deploy at the scope `b/`, of a version without slashes, belongs to the deploy at the
-- scope `a/` exactly if the two scopes are the same, whether or not one lies below the other.
pub is_own_cache_iff :
    (a b version : Text)
    → any is_slash version ≡ false
    → (is_own_cache (cache_name (b ++ 47 ∷ []) version) (a ++ 47 ∷ []) ≡ true) ↔ (a ≡ b)
is_own_cache_iff a b version n = (
  λ h. flat_lem _ a b version refl n (sym (scoped_lem a b version) ∙ h),
  λ h. rw (scoped_lem a b version, h, after_own_prefix b version, n) refl,
)
