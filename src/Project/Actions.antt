-- ===== src/Project/Actions.antt =====
-- The words of an action of bridge/internal/project/tools.go: its kind, its texts, and which of its
-- candidates is preferred.
use phcremote_control.Prelude.{
  Bool, true, false, ◌||◌, Option, none, some, List, [], ◌∷◌, if◌then◌else◌,
}
use phcremote_control.Prelude.Int.{ℤ, pos, ltb_ℤ}
use phcremote_control.Prelude.Dict.{Dict, lookup, insert}
use phcremote_control.Text.{
  Text, text_key, codes, ◌==ₜ◌, contains, has_prefix, trim_prefix, trim_space, join, Unicode,
  to_lower,
}
use phcremote_control.Domain.{ChannelRef}
use phcremote_control.Project.Labels.{is_blank, matches_keyword}
use phcremote_control.Prelude.Sorts.{sort_stable}
use phcremote_control.Project.Reader.{Attr}

pub data ActionKind : Type 0 where
  panic presence : ActionKind

pub record ToolCandidate : Type 0 where
  pub index : ℤ
  pub ref : ChannelRef
  pub is_push_button : Bool

abbrev pub Attributes : Type 0
Attributes = Dict Text Text

-- A missing key reads as the empty string.
abbrev pub value_of : Attributes → Text → Text
value_of m key = elim (lookup key m) [ none ↦ [] | some value ↦ value ]

abbrev pub put_attributes : List Attr → Attributes → Attributes
put_attributes [] m = m
put_attributes (a ∷ as') m = put_attributes as' (insert a.name a.value m)

-- attributesMap
unfoldable pub attributes_map : List Attr → Attributes
attributes_map attrs = put_attributes attrs []

panic_keywords : List Text
panic_keywords =
    codes "panik"
    ∷ codes "panic"
    ∷ codes "alarm"
    ∷ codes "notfall"
    ∷ codes "notruf"
    ∷ codes "emergency"
    ∷ codes "sos"
    ∷ codes "security"
    ∷ codes "sicherheit"
    ∷ []

presence_simulation_keywords : List Text
presence_simulation_keywords =
    codes "anwesenheit"
    ∷ codes "anwesenheitssimulation"
    ∷ codes "presence"
    ∷ codes "presence simulation"
    ∷ codes "vacation"
    ∷ codes "holiday"
    ∷ codes "urlaub"
    ∷ codes "abwesend"
    ∷ codes "away"
    ∷ codes "simulation"
    ∷ []

abbrev pub haystack_of : Attributes → Text
haystack_of m = join (codes " ") (
    value_of m (codes "internalName")
    ∷ value_of m (codes "name")
    ∷ value_of m (codes "bez")
    ∷ value_of m (codes "grp")
    ∷ value_of m (codes "comfortSoftwareGroupType")
    ∷ [])

-- toolActionKind; `none` is a nil map.
unfoldable pub tool_action_kind : ⦃u : Unicode⦄ → Option Attributes → Option ActionKind
unfolding panic_keywords presence_simulation_keywords
tool_action_kind none = none
tool_action_kind (some m) =
    if value_of m (codes "enable") ==ₜ codes "false"
    then none
    else if matches_keyword (haystack_of m) panic_keywords
    then some panic
    else if matches_keyword (haystack_of m) presence_simulation_keywords
        || contains (to_lower (haystack_of m)) (codes "infratec.tools.anwesenheitssimulation")
    then some presence
    else none

unfoldable pub candidate_less : ToolCandidate → ToolCandidate → Bool
candidate_less a b =
    if a.is_push_button
    then (if b.is_push_button then ltb_ℤ a.index b.index else true)
    else (if b.is_push_button then false else ltb_ℤ a.index b.index)

abbrev pub first_of : ToolCandidate → List ToolCandidate → ToolCandidate
first_of c [] = c
first_of c (d ∷ ds) = d

-- ordered[0], of at least one candidate
unfoldable pub preferred_tool_candidate : ToolCandidate → List ToolCandidate → ToolCandidate
preferred_tool_candidate c cs = first_of c (sort_stable candidate_less (c ∷ cs))

unfoldable pub action_category : ActionKind → Text
action_category panic = codes "Security"
action_category presence = codes "Presence Simulation"

unfoldable pub default_action_floor : ActionKind → Text
default_action_floor panic = codes "Security"
default_action_floor presence = codes "Automation"

unfoldable pub default_action_name : ActionKind → Text
default_action_name panic = codes "Panic Button"
default_action_name presence = codes "Presence Simulation"

unfoldable pub action_sort_index : ActionKind → ℤ
action_sort_index panic = pos 0
action_sort_index presence = pos 90

unfoldable pub clean_action_name : Text → ActionKind → Text
clean_action_name name panic = trim_space name
clean_action_name name presence =
    let trimmed = trim_space name in
    if has_prefix trimmed (codes "Anwesenheitssimulation ")
    then trim_prefix trimmed (codes "Anwesenheitssimulation ")
    else if has_prefix trimmed (codes "Presence Simulation ")
    then trim_prefix trimmed (codes "Presence Simulation ")
    else trimmed

unfoldable pub first_non_empty : List Text → Text
first_non_empty [] = []
first_non_empty (v ∷ vs) = if is_blank (trim_space v) then first_non_empty vs else trim_space v
