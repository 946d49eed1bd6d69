-- ===== src/Project/Tools.antt =====
-- bridge/internal/project/tools.go: collectToolActions, over the tokens that the XML decoder gives.
pub mod Sound
pub mod Limits
use phcremote_control.Prelude.{
  ℕ, Bool, true, false, not, ◌&&◌, ◌||◌, Option, none, some, List, [], ◌∷◌, ◌++◌, length, ltb,
  if◌then◌else◌,
}
use phcremote_control.Prelude.Int.{ℤ, pos, ltb_ℤ}
use phcremote_control.Text.{Text, text_key, codes, ◌==ₜ◌, contains, Unicode, to_lower}
use phcremote_control.Text.Decimal.{atoi}
use phcremote_control.Domain.{emd}
use phcremote_control.Project.Errors.{
  Result, ok, err, ◌>>=◌, empty_tpfx, tpfx_too_large, bad_xml, too_deep, too_many_candidates,
  too_many_actions,
}
use phcremote_control.Project.Labels.{parse_int_or, is_blank}
use phcremote_control.Project.Channels.{ToolAction}
use phcremote_control.Project.Reader.{Attr, attribute, max_project_xml_bytes}
use phcremote_control.Project.Actions.{
  ActionKind, ToolCandidate, Attributes, value_of, attributes_map, tool_action_kind,
  preferred_tool_candidate, action_category, default_action_floor, default_action_name,
  action_sort_index, clean_action_name, first_non_empty,
}

pub data ToolToken : Type 0 where
  start : Text → List Attr → ToolToken
  end_of : Text → ToolToken
  other fails : ToolToken

-- The variables of the loop; a slice that is used as a stack is kept with its last element first.
pub record Tools : Type 0 where
  pub locations : List Text
  pub location_elements : List Bool
  pub tool : Option Attributes
  pub node : Option Attributes
  pub candidates : List ToolCandidate
  pub actions : List ToolAction

abbrev pub no_tools : Tools
no_tools = record {
  locations = [];
  location_elements = [];
  tool = none;
  node = none;
  candidates = [];
  actions = [];
}

abbrev pub max_tool_actions : ℕ
max_tool_actions = 256

abbrev pub max_tool_candidates : ℕ
max_tool_candidates = 4096

abbrev pub max_location_depth : ℕ
max_location_depth = 64

unfoldable pub enter_location : Text → Tools → Result Tools
enter_location name t =
    if is_blank name
    then ok (record t { location_elements = false ∷ t.location_elements })
    else if not (ltb (length t.locations) max_location_depth)
    then err too_deep
    else ok (record t {
      locations = name ∷ t.locations;
      location_elements = true ∷ t.location_elements;
    })

abbrev pub drop_first {ℓ} : {A : Type ℓ} → List A → List A
drop_first [] = []
drop_first (x ∷ xs) = xs

abbrev pub leave_element : List Bool → Tools → Tools
leave_element [] t = t
leave_element (true ∷ bs) t = record t {
  locations = drop_first t.locations;
  location_elements = bs;
}
leave_element (false ∷ bs) t = record t { location_elements = bs }

unfoldable pub leave_location : Tools → Tools
leave_location t = leave_element t.location_elements t

abbrev pub candidate_for : ⦃u : Unicode⦄ → Attributes → ℤ → ℤ → ToolCandidate
candidate_for node module_addr channel = record {
  index = parse_int_or (value_of node (codes "index")) (pos 99);
  ref = record { module_class = emd; dip = module_addr; channel = channel };
  is_push_button =
      contains (to_lower (value_of node (codes "comfortSoftwareObjects"))) (codes "pushbutton")
      || contains (to_lower (value_of node (codes "name"))) (codes "taster");
}

-- What comes after the tests of a VAR element whose numbers are given.
unfoldable pub add_candidate : ⦃u : Unicode⦄ → Attributes → ℤ → ℤ → Tools → Result Tools
add_candidate node module_addr channel t =
    if ltb_ℤ module_addr (pos 0) || ltb_ℤ channel (pos 0)
    then ok t
    else if not (ltb (length t.candidates) max_tool_candidates)
    then err too_many_candidates
    else ok (record t { candidates = t.candidates ++ candidate_for node module_addr channel ∷ [] })

abbrev pub is_input_var : Attributes → List Attr → Bool
is_input_var node attrs =
    value_of node (codes "ntype") ==ₜ codes "ntInput"
    && attribute attrs (codes "modGrp") ==ₜ codes "Eingangsmodule"
    && attribute attrs (codes "chGrp") ==ₜ codes "Eingang"

abbrev pub numbered : ⦃u : Unicode⦄ → Attributes → Option ℤ → Option ℤ → Tools → Result Tools
numbered node (some module_addr) (some channel) t = add_candidate node module_addr channel t
numbered node _ _ t = ok t

abbrev pub variable_in :
    ⦃u : Unicode⦄ → Option ActionKind → Option Attributes → List Attr → Tools → Result Tools
variable_in (some kind) (some node) attrs t =
    if is_input_var node attrs
    then numbered node (atoi (attribute attrs (codes "mod"))) (atoi (attribute attrs (codes "cha")))
        t
    else ok t
variable_in _ _ attrs t = ok t

unfoldable pub start_tool_element : ⦃u : Unicode⦄ → Text → List Attr → Tools → Result Tools
start_tool_element name attrs t =
    if name ==ₜ codes "PAGE" || name ==ₜ codes "LAYER"
    then enter_location (attribute attrs (codes "name")) t
    else if name ==ₜ codes "TOOL"
    then ok (record t { tool = some (attributes_map attrs); candidates = [] })
    else if name ==ₜ codes "NODE"
    then ok (record t { node = some (attributes_map attrs) })
    else if name ==ₜ codes "VAR"
    then variable_in (tool_action_kind t.tool) t.node attrs t
    else ok t

abbrev pub floor_in : ActionKind → List Text → Text
floor_in kind [] = default_action_floor kind
floor_in kind (l ∷ ls) = l

abbrev pub tool_value : Option Attributes → Text → Text
tool_value none key = []
tool_value (some m) key = value_of m key

abbrev pub action_for : ActionKind → ToolCandidate → Tools → ToolAction
action_for kind candidate t = record {
  name =
      clean_action_name
        (first_non_empty (
          tool_value t.tool (codes "bez")
          ∷ tool_value t.tool (codes "name")
          ∷ default_action_name kind
          ∷ []))
        kind;
  category = action_category kind;
  floor = floor_in kind t.locations;
  sort_index = action_sort_index kind;
  ref = candidate.ref;
}

unfoldable pub add_action : Option ActionKind → List ToolCandidate → Tools → Result Tools
add_action (some kind) (c ∷ cs) t =
    if not (ltb (length t.actions) max_tool_actions)
    then err too_many_actions
    else ok
        (record t { actions = t.actions ++ action_for kind (preferred_tool_candidate c cs) t ∷ [] })
add_action _ _ t = ok t

abbrev pub end_tool : Tools → Tools
end_tool t = record t { tool = none; candidates = [] }

unfoldable pub end_tool_element : ⦃u : Unicode⦄ → Text → Tools → Result Tools
end_tool_element name t =
    if name ==ₜ codes "TOOL"
    then (add_action (tool_action_kind t.tool) t.candidates t >>= (λ t'. ok (end_tool t')))
    else if name ==ₜ codes "NODE"
    then ok (record t { node = none })
    else if name ==ₜ codes "PAGE" || name ==ₜ codes "LAYER"
    then ok (leave_location t)
    else ok t

unfoldable pub tool_token : ⦃u : Unicode⦄ → ToolToken → Tools → Result Tools
tool_token (start name attrs) t = start_tool_element name attrs t
tool_token (end_of name) t = end_tool_element name t
tool_token other t = ok t
tool_token fails t = err bad_xml

unfoldable pub tool_tokens : ⦃u : Unicode⦄ → List ToolToken → Tools → Result Tools
tool_tokens [] t = ok t
tool_tokens (x ∷ xs) t = tool_token x t >>= tool_tokens xs

-- The file has `bytes` bytes and decodes to these tokens.
unfoldable pub collect_tool_actions : ⦃u : Unicode⦄ → ℕ → List ToolToken → Result (List ToolAction)
collect_tool_actions bytes tokens =
    if not (ltb 0 bytes)
    then err empty_tpfx
    else if ltb max_project_xml_bytes bytes
    then err tpfx_too_large
    else (tool_tokens tokens no_tools >>= (λ t. ok t.actions))
