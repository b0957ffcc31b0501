-- ===== src/WebApp/BlobRoute/Memfs.antt =====
-- crates/tokio-wasm-shim/src/fs.rs: `normalize`, by which the memfs reads a path, on the components that
-- `Path::components` gives: the parts between slashes, less the empty ones and `.`.
use slothfulchat_web.Prelude.{
  ◌≡◌, refl, sym, Bool, false, not, ◌||◌, List, [], ◌∷◌, ◌++◌, append_assoc, append-nil, arith,
  if◌then◌else◌, keep, any, Text, codes, is_blank, text_eq, split,
}
use slothfulchat_web.WebApp.BlobRoute.{is_slash, dot_dot}

abbrev pub is_named : Text → Bool
is_named c = not (is_blank c || text_eq (codes ".") c)

-- `out.pop()`
abbrev pub pop : List Text → List Text
pop [] = []
pop (c ∷ []) = []
pop (c ∷ d ∷ cs) = c ∷ pop (d ∷ cs)

abbrev pub enter : List Text → Text → List Text
enter out c = if is_named c then (if text_eq dot_dot c then pop out else out ++ c ∷ []) else out

abbrev pub walk : List Text → List Text → List Text
walk out [] = out
walk out (c ∷ cs) = walk (enter out c) cs

-- The components below the root.
unfoldable pub normalize : Text → List Text
normalize path = walk [] (split is_slash path)

climbs_test : normalize (codes "/exports/../accounts/./1") ≡ codes "accounts" ∷ codes "1" ∷ []
unfolding normalize
climbs_test = refl

-- A path without a `..` is where it says.
pub walk-stays :
    (cs out : List Text) → any (text_eq dot_dot) cs ≡ false → walk out cs ≡ out ++ keep is_named cs
walk-stays [] out h = sym (append-nil out)
walk-stays (c ∷ cs) out h = grind (arith, walk-stays cs, append_assoc)
