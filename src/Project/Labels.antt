-- ===== src/Project/Labels.antt =====
-- The labels of channels in bridge/internal/project/parser.go and keywords.go: what a channel's text
-- and its words mean.
pub mod Grammar
use phcremote_control.Prelude.{
  Bool, true, false, ◌||◌, Option, none, some, List, [], ◌∷◌, any, if◌then◌else◌,
}
use phcremote_control.Prelude.Int.{ℤ, pos}
use phcremote_control.Text.{
  Text, codes, ◌==ₜ◌, contains, trim_space, fields, split, join, cut, Unicode, to_lower,
}
use phcremote_control.Text.Decimal.{atoi}
use phcremote_control.Domain.{DeviceKind, light, outlet, shutter}

pub record ChannelParts : Type 0 where
  pub sort_index : ℤ
  pub floor : Text
  pub category : Text
  pub label : Text

-- parseIntOr
unfoldable pub parse_int_or : Text → ℤ → ℤ
parse_int_or value fallback = elim (atoi (trim_space value)) [ none ↦ fallback | some a ↦ a ]

abbrev pub is_blank : Text → Bool
is_blank [] = true
is_blank (c ∷ s) = false

-- From the trimmed prefix on: the number before the first dot, and the floor after it.
unfoldable pub parse_prefix : Text → Text → Text → Option ChannelParts
parse_prefix prefix category label =
    let (number, floors) = split b'.' prefix in
    let floor = trim_space (join (codes ".") floors) in
    if is_blank floor
    then none
    else some (record {
      sort_index = parse_int_or number (pos 99);
      floor = floor;
      category = category;
      label = label;
    })

unfoldable pub parse_tail : Text → Text → Option ChannelParts
parse_tail before after = elim (cut b'>' after) [
  | none ↦ none
  | some (middle, last) ↦
      let category = trim_space middle in
      let label = trim_space last in
      if is_blank category || is_blank label
      then none
      else parse_prefix (trim_space before) category label
]

-- parseChannelParts
unfoldable pub parse_channel_parts : Text → Option ChannelParts
parse_channel_parts text = elim (cut b':' text) [
  | none ↦ none
  | some (before, after) ↦ parse_tail before after
]

shutter_keywords : List Text
shutter_keywords =
    codes "roll"
    ∷ codes "jalousie"
    ∷ codes "shutter"
    ∷ codes "blind"
    ∷ codes "raffstore"
    ∷ codes "markise"
    ∷ codes "beschattung"
    ∷ codes "sonnenschutz"
    ∷ codes "store"
    ∷ []

motorized_window_keywords : List Text
motorized_window_keywords =
    codes "lüftung fenster"
    ∷ codes "luftung fenster"
    ∷ codes "dachfenster"
    ∷ codes "fensterantrieb"
    ∷ codes "roof window"
    ∷ codes "window opener"
    ∷ []

outlet_keywords : List Text
outlet_keywords =
    codes "steckdose"
    ∷ codes "dose"
    ∷ codes "schuko"
    ∷ codes "stecker"
    ∷ codes "outlet"
    ∷ codes "socket"
    ∷ codes "receptacle"
    ∷ codes "plug"
    ∷ codes "pumpe"
    ∷ codes "pump"
    ∷ codes "zirkulation"
    ∷ []

unfoldable pub matches_keyword : ⦃u : Unicode⦄ → Text → List Text → Bool
matches_keyword text keywords = any (contains (to_lower text)) keywords

unfoldable pub classify_output : ⦃u : Unicode⦄ → Text → DeviceKind
unfolding shutter_keywords motorized_window_keywords outlet_keywords
classify_output category =
    if matches_keyword category shutter_keywords
      || matches_keyword category motorized_window_keywords
    then shutter
    else if matches_keyword category outlet_keywords
    then outlet
    else light

pub data Direction : Type 0 where
  up down : Direction

down_direction_words : List Text
down_direction_words =
    codes "senken"
    ∷ codes "lower"
    ∷ codes "down"
    ∷ codes "zu"
    ∷ codes "close"
    ∷ codes "closing"
    ∷ codes "schliessen"
    ∷ codes "schließen"
    ∷ []

up_direction_words : List Text
up_direction_words =
    codes "heben"
    ∷ codes "raise"
    ∷ codes "up"
    ∷ codes "auf"
    ∷ codes "open"
    ∷ codes "opening"
    ∷ codes "offnen"
    ∷ codes "oeffnen"
    ∷ codes "öffnen"
    ∷ []

-- The direction that a normalized word stands for.
unfoldable pub direction_of : Text → Option Direction
unfolding down_direction_words up_direction_words
direction_of word =
    if any (◌==ₜ◌ word) down_direction_words
    then some down
    else if any (◌==ₜ◌ word) up_direction_words
    then some up
    else none

unfoldable pub normalize_direction_word : ⦃u : Unicode⦄ → Text → Text
normalize_direction_word value = to_lower (trim_space value)

-- The words but the last, and the last.
abbrev pub unsnoc : Text → List Text → List Text × Text
unsnoc w [] = ([], w)
unsnoc w (v ∷ ws) = let (front, last) = unsnoc v ws in (w ∷ front, last)

abbrev direction_in : ⦃u : Unicode⦄ → List Text → Option Direction
direction_in [] = none
direction_in (w ∷ ws) = direction_of (normalize_direction_word (unsnoc w ws).1)

-- motorDirection
unfoldable pub motor_direction : ⦃u : Unicode⦄ → Text → Option Direction
motor_direction label = direction_in (fields label)

abbrev strip_in : ⦃u : Unicode⦄ → Text → List Text → Text
strip_in label [] = trim_space label
strip_in label (w ∷ ws) =
    let (front, last) = unsnoc w ws in
    elim (direction_of (normalize_direction_word last)) [
      | none ↦ trim_space label
      | some d ↦ join (codes " ") front
    ]

-- stripMotorDirectionSuffix
unfoldable pub strip_motor_direction_suffix : ⦃u : Unicode⦄ → Text → Text
strip_motor_direction_suffix label = strip_in label (fields label)
