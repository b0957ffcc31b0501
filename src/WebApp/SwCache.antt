-- ===== src/WebApp/SwCache.antt =====
-- packages/web-app/src/sw-cache.ts: which caches the service worker owns, and what it may do with a request.
-- A manifest counts by the paths that it has an entry for.
pub mod Ownership
use slothfulchat_web.Prelude.{
  ℕ, Bool, false, not, ◌&&◌, ◌||◌, Option, none, some, List, ◌++◌, ◌==◌, if◌then◌else◌, is_some,
  any, Text, codes, text_eq, after_prefix, starts_with,
}

abbrev pub is_slash : ℕ → Bool
is_slash c = c == 47

abbrev pub cache_prefix : Text
cache_prefix = codes "slothful-shell-"

unfoldable pub cache_name : Text → Text → Text
cache_name scope_path version = cache_prefix ++ (scope_path ++ version)

-- A remainder that is there and has no slash.
abbrev pub is_flat : Option Text → Bool
is_flat none = false
is_flat (some rest) = not (any is_slash rest)

unfoldable pub is_own_cache : Text → Text → Bool
is_own_cache name scope_path =
    is_flat (after_prefix (cache_prefix ++ scope_path) name)
    || (is_some (after_prefix cache_prefix name) && not (any is_slash name))

pub data ShellRole : Type 0 where
  precache lazy runtime shell : ShellRole

abbrev pub role_in_scope : Text → List Text → Bool → List Text → Option ShellRole
role_in_scope file manifest is_navigate lazy_files =
    if any (text_eq file) manifest
    then some precache
    else (if any (text_eq file) lazy_files
        then some lazy
        else (if starts_with (codes "fonts/emoji-sets/") file || starts_with (codes "harper/") file
            then some runtime
            else (if is_navigate then some shell else none)))

unfoldable pub shell_role : Text → Text → List Text → Bool → List Text → Option ShellRole
shell_role pathname scope_path manifest is_navigate lazy_files =
    elim (after_prefix scope_path pathname) [
      | none ↦ none
      | some file ↦ role_in_scope file manifest is_navigate lazy_files
    ]
