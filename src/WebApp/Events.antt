-- ===== src/WebApp/Events.antt =====
-- packages/web-app/src/events.ts and emoji-sets.ts: the catalogue of the events that may be sent, and
-- the test that an event conforms to it. An entry's explanation, which is only displayed, is left out.
-- Values of properties are texts, as `String` renders them.
use mathlib.Core.Option
use Prim.Native.String.{String}
use slothfulchat_web.Prelude.{
  ◌≡◌, refl, Bool, true, false, ◌&&◌, Option, none, some, List, [], ◌∷◌, ◌++◌, map, ◌==◌,
  if◌then◌else◌, find, keep, any, Text, codes, is_blank, text_eq, drop_spaces, trim, parts, split,
}

pub record EmojiSet : Type 0 where
  pub id : Text
  pub track : Bool
  pub fonts : Text

abbrev set_of : String → Bool → String → EmojiSet
set_of id track fonts = record { id = codes id; track = track; fonts = codes fonts }

abbrev pub emoji_sets : List EmojiSet
emoji_sets =
    set_of "standard" false "'Apple Color Emoji', 'SlothNotoColor'"
    ∷ set_of "noto_color" true "'SlothNotoColor'"
    ∷ set_of "noto_mono" true "'SlothNotoMono'"
    ∷ set_of "twemoji" true "'SlothTwemoji'"
    ∷ set_of "native" true
        "'Apple Color Emoji', 'Segoe UI Emoji', 'Segoe UI Symbol', 'Noto Color Emoji', 'Twemoji Mozilla'"
    ∷ []

abbrev pub default_emoji_set : Text
default_emoji_set = codes "standard"

abbrev fonts_of : Text → Option Text
fonts_of id = Option.map (λ (s : EmojiSet). s.fonts) (find (λ s. text_eq s.id id) emoji_sets)

unfoldable pub emoji_fonts : Text → Option Text
emoji_fonts id = elim (fonts_of id) [ none ↦ fonts_of default_emoji_set | some f ↦ some f ]

abbrev pub tracked_emoji_sets : List Text
tracked_emoji_sets = map (λ (s : EmojiSet). s.id) (keep (λ s. s.track) emoji_sets)

-- `join`
abbrev pub join : Text → List Text → Text
join separator [] = []
join separator (s ∷ []) = s
join separator (s ∷ t ∷ ts) = s ++ (separator ++ join separator (t ∷ ts))

pub record CatalogEvent : Type 0 where
  pub name : Text
  pub props : Option Text

abbrev with_props : String → String → CatalogEvent
with_props name props = record { name = codes name; props = some (codes props) }

abbrev plain : String → CatalogEvent
plain name = record { name = codes name; props = none }

abbrev emoji_event : CatalogEvent
emoji_event = record {
  name = codes "emoji_set";
  props = some (codes "set = " ++ join (codes " · ") tracked_emoji_sets);
}

abbrev pub events : List CatalogEvent
events =
    with_props "pageview" "mode = new · returning · unknown; display = standalone · browser"
    ∷ with_props "onboarding"
        "step = welcome · method · configuring · success · failed; method = chatmail · qr · manual · webimap; reason = network · auth · other"
    ∷ with_props "account_created"
        "transport = imap · webimap; method = chatmail (default relay) · manual (email login) · qr · webimap"
    ∷ with_props "send"
        "type = text · image · voice · audio · file · sticker · video · other; transport = imap · webimap; chatmail = yes · no"
    ∷ plain "qr_scan"
    ∷ plain "community"
    ∷ with_props "link_preview" "action = accept · dismiss"
    ∷ with_props "bridge" "kind = local · provided · custom"
    ∷ with_props "link" "target = imprint · github · changelog · donate"
    ∷ emoji_event
    ∷ with_props "chats" "milestone = first · ten"
    ∷ with_props "backup" "action = export · import"
    ∷ with_props "keys" "action = export · import"
    ∷ with_props "startup" "bucket = <0.5s · 0.5-1s · 1-2s · 2-4s · >4s; mode = cold · warm"
    ∷ with_props "boot_error"
        "kind = opfs-locked · storage-blocked · init-error · no-wasm · migration-error"
    ∷ with_props "chat_export" "custom_range = yes · no"
    ∷ with_props "call"
        "direction = outgoing · incoming; has_video = yes · no; result = connected · missed · busy · declined · timeout · cancelled · error"
    ∷ []

-- `\s*\([^)]*\)$` at the start of a text.
abbrev is_gloss : Text → Bool
is_gloss s = elim (drop_spaces s) [
  | [] ↦ false
  | c ∷ t ↦ (c == 40) && elim (parts (λ d. d == 41) t).1 [
    | [] ↦ false
    | last ∷ more ↦ elim more [ [] ↦ is_blank last | _ ∷ _ ↦ false ]
  ]
]

abbrev strip_gloss : Text → Text
strip_gloss [] = []
strip_gloss (c ∷ s) = if is_gloss (c ∷ s) then [] else c ∷ strip_gloss s

-- A text before and behind its first `=`.
abbrev cut_at_equals : Text → Option (Text × Text)
cut_at_equals [] = none
cut_at_equals (c ∷ s) =
    if c == 61
    then some ([], s)
    else elim (cut_at_equals s) [ none ↦ none | some (h, t) ↦ some (c ∷ h, t) ]

-- The values of each key; a later entry for a key stands before an earlier one.
abbrev pub Spec : Type 0
Spec = List (Text × List Text)

abbrev values_of : Text → List Text
values_of s = map (λ v. strip_gloss (trim v)) (split (λ c. c == 183) s)

abbrev set_part : Option (Text × Text) → Spec → Spec
set_part none m = m
set_part (some (key, values)) m = (trim key, values_of values) ∷ m

set_parts : List Text → Spec → Spec
set_parts [] m = m
set_parts (part ∷ rest) m = set_parts rest (set_part (cut_at_equals part) m)

unfoldable pub parse_spec : Text → Spec
unfolding set_parts
parse_spec spec = set_parts (split (λ c. c == 59) spec) []

-- The properties of an event, as `Object.entries` lists them.
abbrev pub Props : Type 0
Props = List (Text × Text)

abbrev pub get : Text → Spec → Option (List Text)
get k [] = none
get k ((j, vs) ∷ m) = if text_eq j k then some vs else get k m

abbrev pub allows : Option (List Text) → Text → Bool
allows none v = false
allows (some vs) v = any (text_eq v) vs

abbrev pub all_allowed : Spec → Props → Bool
all_allowed m [] = true
all_allowed m ((k, v) ∷ props) = allows (get k m) v && all_allowed m props

abbrev pub no_props : Props → Bool
no_props [] = true
no_props (p ∷ ps) = false

conforms : Option CatalogEvent → Props → Bool
conforms none props = false
conforms (some entry) props = elim entry.props [
  | none ↦ no_props props
  | some spec ↦ if is_blank spec then no_props props else all_allowed (parse_spec spec) props
]

-- Absent properties are no properties.
unfoldable pub is_catalog_event : Text → Props → Bool
unfolding parse_spec conforms
is_catalog_event name props =
    conforms (find (λ (e : CatalogEvent). text_eq e.name name) events) props

gloss_test :
    is_catalog_event (codes "account_created") ((codes "method", codes "chatmail") ∷ []) ≡ true
unfolding is_catalog_event
gloss_test = refl

free_text_test : is_catalog_event (codes "send") ((codes "type", codes "hello") ∷ []) ≡ false
unfolding is_catalog_event
free_text_test = refl
