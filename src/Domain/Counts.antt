-- ===== src/Domain/Counts.antt =====
-- How often an identity stands in a project of bridge/internal/domain/model.go.
use phcremote_control.Prelude.{ℕ, ◌+◌, List, [], ◌∷◌, if◌then◌else◌}
use phcremote_control.Text.{Text, ◌==ₜ◌}
use phcremote_control.Domain.{Device, Floor}

abbrev pub is_id : Text → Device → ℕ
is_id i d = if d.id ==ₜ i then 1 else 0

-- How many devices have an identity.
abbrev pub count_ids : Text → List Device → ℕ
count_ids i [] = 0
count_ids i (d ∷ ds) = is_id i d + count_ids i ds

abbrev pub count_floors : Text → List Floor → ℕ
count_floors i [] = 0
count_floors i (f ∷ fs) = count_ids i f.devices + count_floors i fs
