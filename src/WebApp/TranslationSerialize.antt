-- ===== src/WebApp/TranslationSerialize.antt =====
-- packages/web-app/src/translation-serialize.ts: merging, matching and serializing translations. An object
-- is a list of its keys and values in their order; a value of the overlay that is no entry is `none`. Keys
-- that look like numbers, which an object lists first, do not occur.
pub mod RoundTrip
use mathlib.Core.List.{flat_map}
use slothfulchat_web.Prelude.{
  ℕ, Bool, true, false, ◌&&◌, ◌||◌, Option, none, some, List, [], ◌∷◌, ◌++◌, map, ltb, ◌==◌,
  if◌then◌else◌, or_else, length, any, Text, codes, is_blank, text_eq, trim,
}
use slothfulchat_web.WebApp.Events.{join}

abbrev pub Entry : Type 0
Entry = List (Text × Text)

module _ {A : Type 0} where
  unfoldable pub get_value : Text → List (Text × A) → Option A
  get_value k [] = none
  get_value k ((j, v) ∷ rest) = if text_eq j k then some v else get_value k rest

  unfoldable pub set_value : Text → A → List (Text × A) → List (Text × A)
  set_value k v [] = (k, v) ∷ []
  set_value k v ((j, w) ∷ rest) = if text_eq j k then (j, v) ∷ rest else (j, w) ∷ set_value k v rest

-- `{ ...a, ...b }`
unfoldable pub spread : Entry → Entry → Entry
spread a [] = a
spread a ((k, v) ∷ b) = spread (set_value k v a) b

abbrev entry_at : Text → List (Text × Entry) → Entry
entry_at key messages = or_else (get_value key messages) []

unfoldable pub merge_keys : List (Text × Option Entry) → List (Text × Entry) → List (Text × Entry)
merge_keys [] out = out
merge_keys ((key, none) ∷ rest) out = merge_keys rest out
merge_keys ((key, some entry) ∷ rest) out =
    merge_keys rest (set_value key (spread (entry_at key out) entry) out)

unfoldable pub merge_overlay :
    Option (List (Text × Option Entry)) → List (Text × Entry) → List (Text × Entry)
merge_overlay none messages = messages
merge_overlay (some overlay) messages = merge_keys overlay messages

-- `replace` of a character by a text, everywhere.
abbrev pub substitute : ℕ → Text → ℕ → Text
substitute c t d = if d == c then t else d ∷ []

abbrev pub replace : ℕ → Text → Text → Text
replace c t s = flat_map (substitute c t) s

unfoldable pub escape_android : Text → Text
escape_android s = replace 34 (92 ∷ 34 ∷ []) (
    replace 39 (92 ∷ 39 ∷ []) (
      replace 10 (codes "\\n") (
        replace 92 (92 ∷ 92 ∷ [])
          (replace 62 (codes "&gt;") (replace 60 (codes "&lt;") (replace 38 (codes "&amp;") s))))))

abbrev below : Text → Text → Bool
below [] [] = false
below [] (d ∷ t) = true
below (c ∷ s) [] = false
below (c ∷ s) (d ∷ t) = ltb c d || ((c == d) && below s t)

-- A stable sort by insertion, where `before` says what must stand before.
module _ {A : Type 0} (before : A → A → Bool) where
  unfoldable pub insert : A → List A → List A
  insert x [] = x ∷ []
  insert x (y ∷ ys) = if before y x then y ∷ insert x ys else x ∷ (y ∷ ys)

  unfoldable pub sort : List A → List A
  sort [] = []
  sort (x ∷ xs) = insert x (sort xs)

abbrev sort_texts : List Text → List Text
sort_texts ts = sort (λ s t. below s t) ts

abbrev pub Row : Type 0
Row = Text × List Text

abbrev hit : Text → Option (List Text) → List Row → List Row
hit text none rows = rows
hit text (some []) rows = rows
hit text (some (k ∷ ks)) rows = (text, sort_texts (k ∷ ks)) ∷ rows

unfoldable pub match_rows : List (Text × List Text) → List Text → List Text → List Row
match_rows registry seen [] = []
match_rows registry seen (s ∷ strings) =
    let text = trim s in
    let skipped = match_rows registry seen strings in
    let kept = hit text (get_value text registry) (match_rows registry (text ∷ seen) strings) in
    if is_blank text || any (text_eq text) seen then skipped else kept

-- Longest text first.
unfoldable pub match_keys : List (Text × List Text) → List Text → List Row
match_keys registry strings =
    sort (λ (a b : Row). ltb (length b.0) (length a.0)) (match_rows registry [] strings)

abbrev item_line : Text × Text → Text
item_line (quantity, form) =
    codes "        <item quantity=\""
    ++ (quantity ++ (codes "\">" ++ (escape_android form ++ codes "</item>")))

abbrev entry_lines : Text × Entry → List Text
entry_lines (key, entry) = elim (get_value (codes "message") entry) [
  | some message ↦
      (codes "    <string name=\""
        ++ (key ++ (codes "\">" ++ (escape_android message ++ codes "</string>"))))
      ∷ []
  | none ↦
      (codes "    <plurals name=\"" ++ (key ++ codes "\">"))
      ∷ (map item_line entry ++ (codes "    </plurals>" ∷ []))
]

unfoldable pub to_android_xml : List (Text × Entry) → Text
unfolding flat_map
to_android_xml entries =
    let by_key = sort (λ (a b : Text × Entry). below a.0 b.0) entries in
    join (10 ∷ []) (
      codes "<?xml version=\"1.0\" encoding=\"utf-8\"?>"
      ∷ codes "<resources>"
      ∷ (flat_map entry_lines by_key ++ (codes "</resources>" ∷ [] ∷ [])))
