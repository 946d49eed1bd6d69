-- ===== src/Tests/Parsing.antt =====
-- The theorems on bridge/internal/project/parser.go and on the start, for a small project file.
use mathlib.Core.List.Permᴰ as Perm
use phcremote_control.Prelude.{◌≡◌, ◌≤◌, refl, true, false, All, none, some, List, [], ◌∷◌, arith}
use phcremote_control.Prelude.Int.{pos}
use phcremote_control.Prelude.Dict.{Dict, insert, lookup}
use phcremote_control.Text.{Text, codes, is_space, to_lower}
use phcremote_control.Text.Decimal.{itoa, atoi}
use phcremote_control.Domain.{Project, light, stable_device_id, stable_floor_id}
use phcremote_control.Domain.Counts.{count_floors}
use phcremote_control.Project.Errors.{ok}
use phcremote_control.Project.Labels.{
  ChannelParts, parse_channel_parts, parse_tail, parse_prefix, parse_int_or, classify_output,
  matches_keyword,
}
use phcremote_control.Project.Labels.Grammar.{IsReadable, channel_text, parse-channel_text}
use phcremote_control.Project.Builder.{
  FloorBuilder, build_project, add_all, add_outputs, add_output, add, pair_motors, collect_motors,
  add_virtuals, add_buttons, add_actions, finish_floors, place,
}
use phcremote_control.Project.Channels.{RawChannel}
use phcremote_control.Project.Motors.{MotorKey, MotorChannel}
use phcremote_control.Project.Builder.Identities.{build_project-once}
use phcremote_control.Project.Builder.References.{FloorsIdentified, build_project-FloorsIdentified}
use phcremote_control.Project.Reader.{
  Attr, Token, start, channel, end_of, collect_ppfx, read_tokens, read_token, add_channel,
  attribute, start_element, end_element,
}
use phcremote_control.Project.Reader.Bounds.{IsBounded, collect_ppfx-IsBounded}
use phcremote_control.Project.Order.{natural_less, natural_from, natural_round, compare_digits}
use phcremote_control.Project.Order.Laws.{natural_less-asym}
use phcremote_control.Project.Order.Total.{natural_less-total}
use phcremote_control.Controller.Types as Types
use phcremote_control.Controller.Build.{Controller, new}
use phcremote_control.Startup.{InRange, new-build_project}
use phcremote_control.Tests.Commands.{normalized-settings}
use phcremote_control.Tests.Data.{ascii, lamp_ref, defaults, settings}

abbrev parts : ChannelParts
parts = record {
  sort_index = pos 1;
  floor = codes "EG";
  category = codes "Light";
  label = codes "Lamp 2";
}

parts-IsReadable : IsReadable parts
unfolding itoa is_space
parts-IsReadable = record {
  number = omega arith;
  prefix = refl;
  floor = refl;
  floor_there = λ e. absurd cc;
  floor_colon = (omega arith, (omega arith, tt));
  category = refl;
  category_there = λ e. absurd cc;
  category_arrow = (omega arith, (omega arith, (omega arith, (omega arith, (omega arith, tt)))));
  label = refl;
  label_there = λ e. absurd cc;
}

parse-channel_text_example : parse_channel_parts (channel_text parts) ≡ some parts
parse-channel_text_example = parse-channel_text parts parts-IsReadable

abbrev attr : Text → Text → Attr
attr name value = record { name = name; value = value }

abbrev pub tokens : List Token
tokens =
    start (codes "MODS") (attr (codes "grp") (codes "Ausgangsmodule") ∷ [])
    ∷ start (codes "MOD")
        (attr (codes "name") (codes "AMD_8") ∷ (attr (codes "adr") (codes "3") ∷ []))
    ∷ start (codes "CHAS") (attr (codes "grp") (codes "Ausgang") ∷ [])
    ∷ channel (attr (codes "visu") (codes "true") ∷ (attr (codes "adr") (codes "2") ∷ []))
        (codes " 1.EG:Light>Lamp 2 ")
    ∷ end_of (codes "CHAS")
    ∷ end_of (codes "MOD")
    ∷ end_of (codes "MODS")
    ∷ []

abbrev pub raw : RawChannel
raw = record {
  module_group = codes "Ausgangsmodule";
  module_name = codes "AMD_8";
  module_addr = pos 3;
  channel_group = codes "Ausgang";
  channel_addr = pos 2;
  text = codes "1.EG:Light>Lamp 2";
}

pub tokens-read : collect_ppfx 200 tokens ≡ ok (codes "PHC", raw ∷ [])
unfolding collect_ppfx read_tokens read_token add_channel attribute is_space start_element
    end_element parse_int_or atoi
tokens-read = refl

collect_ppfx-IsBounded_example : IsBounded (raw ∷ [])
collect_ppfx-IsBounded_example =
    collect_ppfx-IsBounded 200 tokens (codes "PHC") (raw ∷ []) tokens-read

abbrev range_motors : Dict MotorKey MotorChannel → List (MotorKey × MotorChannel)
range_motors m = m

abbrev range_floors : Dict Text FloorBuilder → List (Text × FloorBuilder)
range_floors m = m

abbrev pub project : Project
project = record {
  name = codes "PHC";
  floors =
      record {
        id = codes "floor:v1:RUc";
        name = codes "EG";
        sort_index = pos 1;
        devices =
            record {
              id = codes "device:v1:amd:3:2";
              name = codes "Lamp 2";
              kind = light;
              category = codes "Light";
              ref = lamp_ref;
              up_ref = none;
            }
            ∷ [];
      }
      ∷ [];
}

built-project : build_project range_motors range_floors (codes "PHC") (raw ∷ []) [] ≡ ok project
unfolding build_project add_all add_outputs parse_channel_parts parse_tail is_space parse_prefix
    add_output classify_output matches_keyword add pair_motors collect_motors add_virtuals
    add_buttons add_actions finish_floors place insert stable_floor_id lookup parse_int_or
    stable_device_id atoi itoa
built-project = refl

build_project-once_example : count_floors (codes "device:v1:amd:3:2") project.floors ≤ 1
build_project-once_example =
    build_project-once range_motors range_floors Perm.refl (codes "PHC") (raw ∷ []) [] project
      built-project (codes "device:v1:amd:3:2")

build_project-FloorsIdentified_example : FloorsIdentified project.floors
build_project-FloorsIdentified_example =
    build_project-FloorsIdentified range_motors range_floors Perm.refl (codes "PHC") (raw ∷ []) []
      project built-project

lamps-ordered : natural_less (codes "Lamp 2") (codes "Lamp 10") ≡ true
unfolding natural_less natural_from natural_round compare_digits
lamps-ordered = refl

natural_less-asym_example : natural_less (codes "Lamp 10") (codes "Lamp 2") ≡ false
natural_less-asym_example = natural_less-asym (codes "Lamp 2") (codes "Lamp 10") lamps-ordered

project-InRange : All (λ f. All InRange f.devices) project.floors
project-InRange = ((λ output. (omega arith, omega arith), tt), tt)

new-build_project_example : (k : Controller) × (new project defaults ≡ Types.ok k)
new-build_project_example =
    new-build_project range_motors range_floors Perm.refl (codes "PHC") (raw ∷ []) [] project
      built-project project-InRange defaults settings normalized-settings

floors-unordered : natural_less (codes "EG") (codes "eg") ≡ false
unfolding natural_less natural_from natural_round compare_digits
floors-unordered = refl

floors-unordered_back : natural_less (codes "eg") (codes "EG") ≡ false
unfolding natural_less natural_from natural_round compare_digits
floors-unordered_back = refl

natural_less-total_example : to_lower (codes "EG") ≡ to_lower (codes "eg")
natural_less-total_example =
    natural_less-total (codes "EG") (codes "eg") floors-unordered floors-unordered_back
