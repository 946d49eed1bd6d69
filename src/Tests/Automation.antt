-- ===== src/Tests/Automation.antt =====
-- The theorems on bridge/internal/project/tools.go, for a small tool file.
use phcremote_control.Prelude.{◌≡◌, refl, List, [], ◌∷◌}
use phcremote_control.Prelude.Int.{pos}
use phcremote_control.Prelude.Dict.{insert, lookup}
use phcremote_control.Text.{Text, codes, is_space}
use phcremote_control.Text.Decimal.{atoi}
use phcremote_control.Domain.{emd}
use phcremote_control.Project.Errors.{ok}
use phcremote_control.Project.Labels.{matches_keyword}
use phcremote_control.Project.Channels.{ToolAction}
use phcremote_control.Project.Reader.{Attr, attribute}
use phcremote_control.Project.Tools.{
  ToolToken, start, end_of, collect_tool_actions, tool_tokens, tool_token, start_tool_element,
  add_candidate, end_tool_element, add_action,
}
use phcremote_control.Project.Actions.{
  tool_action_kind, attributes_map, clean_action_name, action_category, default_action_floor,
  action_sort_index, preferred_tool_candidate, first_non_empty,
}
use phcremote_control.Project.Tools.Sound.{AreActions}
use phcremote_control.Project.Tools.Limits.{collect_tool_actions-AreActions}
use phcremote_control.Tests.Data.{ascii}

abbrev attr : Text → Text → Attr
attr name value = record { name = name; value = value }

abbrev tokens : List ToolToken
tokens =
    start (codes "TOOL") (attr (codes "name") (codes "Panik") ∷ [])
    ∷ start (codes "NODE") (attr (codes "ntype") (codes "ntInput") ∷ [])
    ∷ start (codes "VAR") (
        attr (codes "modGrp") (codes "Eingangsmodule")
        ∷ attr (codes "chGrp") (codes "Eingang")
        ∷ attr (codes "mod") (codes "4")
        ∷ attr (codes "cha") (codes "5")
        ∷ [])
    ∷ end_of (codes "NODE")
    ∷ end_of (codes "TOOL")
    ∷ []

abbrev alarm : ToolAction
alarm = record {
  name = codes "Panik";
  category = codes "Security";
  floor = codes "Security";
  sort_index = pos 0;
  ref = record { module_class = emd; dip = pos 4; channel = pos 5 };
}

tokens-collected : collect_tool_actions 100 tokens ≡ ok (alarm ∷ [])
unfolding collect_tool_actions tool_tokens tool_token start_tool_element tool_action_kind lookup
    attributes_map insert matches_keyword attribute atoi add_candidate end_tool_element add_action
    clean_action_name action_category default_action_floor action_sort_index
    preferred_tool_candidate first_non_empty is_space
tokens-collected = refl

collect_tool_actions-AreActions_example : AreActions (alarm ∷ [])
collect_tool_actions-AreActions_example =
    collect_tool_actions-AreActions 100 tokens (alarm ∷ []) tokens-collected
