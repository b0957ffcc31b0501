-- ===== src/WebApp/TranslationSerialize/RoundTrip.antt =====
-- packages/web-app/src/translation-serialize.ts: what `escapeAndroid` writes is read back as it was.
use mathlib.Core.List.{flat_map}
use slothfulchat_web.Prelude.{
  ℕ, ◌≡◌, refl, ap, ◌∙◌, Bool, true, false, ◌||◌, Option, none, some, [], ◌∷◌, ◌++◌, append_assoc,
  arith, ◌==◌, if◌then◌else◌, Text, codes, text_eq,
}
use slothfulchat_web.WebApp.TranslationSerialize.{escape_android}

abbrev entity : Text → Option ℕ
entity name =
    if text_eq name (codes "amp")
    then some 38
    else (if text_eq name (codes "lt")
        then some 60
        else (if text_eq name (codes "gt") then some 62 else none))

abbrev cons : ℕ → Option Text → Option Text
cons c none = none
cons c (some s) = some (c ∷ s)

-- The entities `&amp;`, `&lt;` and `&gt;` decoded, behind the start of an entity's name or not. A raw `<` or
-- `>` is refused, and so is any other entity or one that does not end.
unfoldable pub decode_entities : Option Text → Text → Option Text
decode_entities none [] = some []
decode_entities none (c ∷ s) = elim (c == 38) [
  | true ↦ decode_entities (some []) s
  | false ↦ elim ((c == 60) || (c == 62)) [ true ↦ none | false ↦ cons c (decode_entities none s) ]
]
decode_entities (some name) [] = none
decode_entities (some name) (c ∷ s) = elim (c == 59) [
  | true ↦ elim (entity name) [ none ↦ none | some d ↦ cons d (decode_entities none s) ]
  | false ↦ decode_entities (some (name ++ (c ∷ []))) s
]

-- The escapes of a line feed, of the two quotes and of the backslash decoded, behind a backslash or not. A
-- bare quote or line feed is refused, and so is any other escape or one that does not end.
unfoldable pub decode_escapes : Bool → Text → Option Text
decode_escapes false [] = some []
decode_escapes false (c ∷ s) = elim (c == 92) [
  | true ↦ decode_escapes true s
  | false ↦ elim ((c == 39) || ((c == 34) || (c == 10))) [
    | true ↦ none
    | false ↦ cons c (decode_escapes false s)
  ]
]
decode_escapes true [] = none
decode_escapes true (c ∷ s) = elim (c == 110) [
  | true ↦ cons 10 (decode_escapes false s)
  | false ↦ elim ((c == 39) || ((c == 34) || (c == 92))) [
    | true ↦ cons c (decode_escapes false s)
    | false ↦ none
  ]
]

abbrev decode_found : Option Text → Option Text
decode_found none = none
decode_found (some t) = decode_escapes false t

unfoldable pub unescape : Text → Option Text
unescape s = decode_found (decode_entities none s)

-- A character escaped by a backslash, and by an entity too.
abbrev hide_android : ℕ → Text
hide_android c =
    if c == 92
    then 92 ∷ 92 ∷ []
    else (if c == 10
        then 92 ∷ 110 ∷ []
        else (if c == 39 then 92 ∷ 39 ∷ [] else (if c == 34 then 92 ∷ 34 ∷ [] else c ∷ [])))

abbrev hide : ℕ → Text
hide c =
    if c == 38
    then codes "&amp;"
    else (if c == 60 then codes "&lt;" else (if c == 62 then codes "&gt;" else hide_android c))

flat_map-append : (f : ℕ → Text) (s t : Text) → flat_map f (s ++ t) ≡ flat_map f s ++ flat_map f t
unfolding flat_map
flat_map-append f [] t = refl
flat_map-append f (c ∷ s) t = simp (flat_map-append f s t, append_assoc)

flat_map-flat_map :
    (f g : ℕ → Text) (s : Text) → flat_map f (flat_map g s) ≡ flat_map (λ c. flat_map f (g c)) s
unfolding flat_map
flat_map-flat_map f g [] = refl
flat_map-flat_map f g (c ∷ s) =
    simp (flat_map-append f (g c) (flat_map g s), flat_map-flat_map f g s)

-- The seven replacements of one character.
passes : (c : ℕ) → escape_android (c ∷ []) ≡ hide c
unfolding escape_android flat_map
passes c = ground arith

escape_android-append :
    (s t : Text) → escape_android (s ++ t) ≡ escape_android s ++ escape_android t
unfolding escape_android
escape_android-append s t = simp flat_map-append refl

escape_android-flat_map : (s : Text) → escape_android s ≡ flat_map hide s
unfolding flat_map
escape_android-flat_map [] = unfold escape_android in refl
escape_android-flat_map (c ∷ s) =
    escape_android-append (c ∷ []) s
    ∙ (ap (λ t. t ++ escape_android s) (passes c)
        ∙ ap (λ t. hide c ++ t) (escape_android-flat_map s))

decode_entities-hide :
    (c : ℕ) (rest t : Text)
    → decode_entities none rest ≡ some t
    → decode_entities none (hide c ++ rest) ≡ some (hide_android c ++ t)
unfolding decode_entities
decode_entities-hide c rest t h = ground arith

decode_entities-flat_map :
    (s : Text) → decode_entities none (flat_map hide s) ≡ some (flat_map hide_android s)
unfolding flat_map
decode_entities-flat_map [] = unfold decode_entities in refl
decode_entities-flat_map (c ∷ s) =
    decode_entities-hide c (flat_map hide s) (flat_map hide_android s) (decode_entities-flat_map s)

decode_escapes-hide :
    (c : ℕ) (rest t : Text)
    → decode_escapes false rest ≡ some t
    → decode_escapes false (hide_android c ++ rest) ≡ some (c ∷ t)
unfolding decode_escapes
decode_escapes-hide c rest t h = ground arith

decode_escapes-flat_map : (s : Text) → decode_escapes false (flat_map hide_android s) ≡ some s
unfolding flat_map
decode_escapes-flat_map [] = unfold decode_escapes in refl
decode_escapes-flat_map (c ∷ s) =
    decode_escapes-hide c (flat_map hide_android s) s (decode_escapes-flat_map s)

-- Every text, escaped, is read back unchanged by a reader that decodes the three entities and then the four
-- backslash escapes: so what is written has no raw `<` or `>` and no `&` but of an entity, and behind the
-- entities no quote, line feed or backslash but as part of an escape, since the reader refuses all of these.
-- What a parser of XML or Android does beyond that is not said: with control characters and carriage
-- returns, with white space that it collapses, or with a leading `@` or `?`.
pub unescape-escape : (s : Text) → unescape (escape_android s) ≡ some s
unfolding unescape
unescape-escape s =
    ap (λ t. decode_found (decode_entities none t)) (escape_android-flat_map s)
    ∙ (ap decode_found (decode_entities-flat_map s) ∙ decode_escapes-flat_map s)
