-- ===== src/Project/Parse.antt =====
-- Parse of bridge/internal/project/parser.go on the data of the two files.
use phcremote_control.Prelude.{ℕ, Option, none, some, List, [], length}
use phcremote_control.Prelude.Dict.{Dict}
use phcremote_control.Text.{Text, Unicode}
use phcremote_control.Domain.{Project}
use phcremote_control.Project.Errors.{Result, ok, ◌>>=◌}
use phcremote_control.Project.Archive.{Files}
use phcremote_control.Project.Builder.{FloorBuilder, build_project}
use phcremote_control.Project.Channels.{ToolAction}
use phcremote_control.Project.Motors.{MotorKey, MotorChannel}
use phcremote_control.Project.Reader.{Token, collect_ppfx}
use phcremote_control.Project.Tools.{ToolToken, collect_tool_actions}

-- What the package uses of Go: the XML decoder on each of the two files, and the orders of ranging
-- over the two maps.
pub record Decoders : Type 0 where
  pub ppfx_tokens : List ℕ → List Token
  pub tpfx_tokens : List ℕ → List ToolToken
  pub range_motors : Dict MotorKey MotorChannel → List (MotorKey × MotorChannel)
  pub range_floors : Dict Text FloorBuilder → List (Text × FloorBuilder)

module _ ⦃u : Unicode⦄ (d : Decoders) where
  tool_actions : Option (List ℕ) → Result (List ToolAction)
  tool_actions none = ok []
  tool_actions (some tpfx) = collect_tool_actions (length tpfx) (d.tpfx_tokens tpfx)

  unfoldable pub parse : List ℕ → Option (List ℕ) → Result Project
  unfolding tool_actions
  parse ppfx tpfx = collect_ppfx (length ppfx) (d.ppfx_tokens ppfx) >>= (λ (name, channels).
      tool_actions tpfx >>= build_project d.range_motors d.range_floors name channels)

  -- ParsePPFX
  unfoldable pub parse_ppfx : List ℕ → Result Project
  unfolding parse
  parse_ppfx ppfx = parse ppfx none

  -- Of the files that Extract gives, project.ppfx is there.
  unfoldable pub parse_files : Files → Result Project
  unfolding parse
  parse_files f = elim f.ppfx [ none ↦ parse [] f.tpfx | some ppfx ↦ parse ppfx f.tpfx ]
