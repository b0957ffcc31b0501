-- ===== src/WebApp/TempPaths.antt =====
-- packages/web-app/src/temp-paths.ts: which path of the memfs is deleted for a staged file.
use slothfulchat_web.Prelude.{
  not, ◌||◌, Option, none, some, ◌++◌, if◌then◌else◌, or_else, Text, codes, is_blank, after_prefix,
  includes,
}
use slothfulchat_web.WebApp.BlobRoute.{segment}

-- `/^(\/tmp\/[^/]+)\/[^/]+$/`, the group.
abbrev staged_parent : Text → Option Text
staged_parent name = elim (after_prefix (codes "/tmp/") name) [
  | none ↦ none
  | some t ↦
      let (parent, rest) = segment t in
      if is_blank parent then none else elim (after_prefix (codes "/") rest) [
        | none ↦ none
        | some u ↦
            if is_blank (segment u).0 || not (is_blank (segment u).1)
            then none
            else some (codes "/tmp/" ++ parent)
      ]
]

unfoldable pub temp_removal_path : Option Text → Option Text
temp_removal_path none = none
temp_removal_path (some name) =
    if not (includes (codes "tmp") name) || includes (codes "..") name
    then none
    else some (or_else (staged_parent name) name)
