-- ===== src/Project/Builder.antt =====
-- projectBuilder and buildProject of bridge/internal/project/parser.go. Go ranges over a map in any
-- order: the two orders that buildProject meets are arguments.
pub mod Loops
pub mod Identities
pub mod References
use phcremote_control.Prelude.{
  Bool, not, ◌||◌, Option, none, some, List, [], ◌∷◌, ◌++◌, any, ltb, ◌==◌, if◌then◌else◌, arith,
}
use phcremote_control.Prelude.Int.{ℤ, pos, ltb_ℤ, eq_ℤ}
use phcremote_control.Prelude.Dict.{Dict, lookup, insert}
use phcremote_control.Text.{Text, text_key, ◌==ₜ◌, Unicode}
use phcremote_control.Domain.{
  emd, amd, shutter, scene, button, ChannelRef, stable_device_id, stable_floor_id, Device, Floor,
  Project,
}
use phcremote_control.Project.Errors.{Result, ok, err, ◌>>=◌, invalid_address, duplicate_identity}
use phcremote_control.Project.Labels.{
  ChannelParts, parse_channel_parts, classify_output, motor_direction, strip_motor_direction_suffix,
  is_blank,
}
use phcremote_control.Project.Order.{natural_less, kind_rank}
use phcremote_control.Prelude.Sorts.{sort_stable}
use phcremote_control.Project.Motors.{MotorKey, MotorChannel, motor_key, Motors, put_motor}
use phcremote_control.Project.Channels.{RawChannel, ToolAction}
use phcremote_control.Project.Channels.{
  device_for, ref_to, is_shutter, same_ref, is_output, is_input, is_virtual,
}

pub record FloorBuilder : Type 0 where
  pub sort_index : ℤ
  pub devices : List Device

pub record ProjectBuilder : Type 0 where
  pub floors : Dict Text FloorBuilder
  pub seen_ids : List Text

abbrev pub new_project_builder : ProjectBuilder
new_project_builder = record { floors = []; seen_ids = [] }

-- device.ID = domain.StableDeviceID(device.Ref), if it is empty.
abbrev pub with_id : Device → Device
with_id d = if is_blank d.id then record d { id = stable_device_id d.ref } else d

abbrev pub floor_or_new : Option FloorBuilder → FloorBuilder
floor_or_new none = record { sort_index = pos 0; devices = [] }
floor_or_new (some f) = f

-- The last part of `add`.
unfoldable pub place : ChannelParts → Device → ProjectBuilder → ProjectBuilder
place parts d b =
    let old = floor_or_new (lookup parts.floor b.floors) in
    record {
      seen_ids = d.id ∷ b.seen_ids;
      floors =
          insert parts.floor
            (record { sort_index = parts.sort_index; devices = old.devices ++ d ∷ [] }) b.floors;
    }

unfoldable pub add : ChannelParts → Device → ProjectBuilder → Result ProjectBuilder
add parts d b =
    if ltb_ℤ d.ref.dip (pos 0) || ltb_ℤ d.ref.channel (pos 0)
    then err invalid_address
    else if any (◌==ₜ◌ (with_id d).id) b.seen_ids
    then err duplicate_identity
    else ok (place parts (with_id d) b)

module _ ⦃u : Unicode⦄ where
  unfoldable pub add_output : RawChannel → ChannelParts → ProjectBuilder → Result ProjectBuilder
  add_output channel parts b =
      let kind = classify_output parts.category in
      if is_shutter kind
      then ok b
      else add parts (device_for parts.label kind parts.category (ref_to amd channel) none) b

  -- The first loop.
  unfoldable pub add_outputs : List RawChannel → ProjectBuilder → Result ProjectBuilder
  add_outputs [] b = ok b
  add_outputs (channel ∷ cs) b =
      let now =
        if is_output channel
        then elim (parse_channel_parts channel.text) [
          | none ↦ ok b
          | some parts ↦ add_output channel parts b
        ]
        else ok b in
      now >>= add_outputs cs

-- What the builder has, with representedInputs.
pub record Progress : Type 0 where
  pub builder : ProjectBuilder
  pub represented : List ChannelRef

abbrev pub is_represented : ChannelRef → List ChannelRef → Bool
is_represented r refs = any (same_ref r) refs

abbrev pub emd_ref : MotorChannel → ChannelRef
emd_ref m = record { module_class = emd; dip = m.module_addr; channel = m.channel }

-- builder.add, and then representedInputs[ref] = struct{}{} for these references.
unfoldable pub add_represented :
    ChannelParts → Device → List ChannelRef → Progress → Result Progress
add_represented parts d refs p =
    add parts d p.builder
    >>= (λ b. ok (record { builder = b; represented = refs ++ p.represented }))

-- The loop over the down channels, in the order in which they come.
unfoldable pub pair_motors :
    Dict MotorKey MotorChannel → List (MotorKey × MotorChannel) → Progress → Result Progress
pair_motors ups [] p = ok p
pair_motors ups ((key, lowered) ∷ downs) p =
    let now : Result Progress = elim (lookup key ups) [
      | none ↦ ok p
      | some raised ↦
          add_represented
            (record {
              sort_index = key.sort_index;
              floor = key.floor;
              category = key.category;
              label = key.label;
            })
            (device_for key.label shutter key.category (emd_ref lowered) (some (emd_ref raised)))
            (emd_ref lowered ∷ (emd_ref raised ∷ [])) p
    ] in
    now >>= pair_motors ups downs

module _ ⦃u : Unicode⦄ where
  -- The second loop, on the parts of an input channel.
  unfoldable pub note_motor : RawChannel → ChannelParts → Motors → Motors
  note_motor channel parts ms = elim (motor_direction parts.label) [
    | none ↦ ms
    | some direction ↦
        let base = strip_motor_direction_suffix parts.label in
        if is_blank base
        then ms
        else put_motor direction
            (record {
              sort_index = parts.sort_index;
              floor = parts.floor;
              category = parts.category;
              label = base;
            })
            (record { module_addr = channel.module_addr; channel = channel.channel_addr }) ms
  ]

  unfoldable pub collect_motors : List RawChannel → Motors → Motors
  collect_motors [] ms = ms
  collect_motors (channel ∷ cs) ms =
      let now =
        if is_input channel
        then elim (parse_channel_parts channel.text) [
          | none ↦ ms
          | some parts ↦
              if is_shutter (classify_output parts.category)
              then note_motor channel parts ms
              else ms
        ]
        else ms in
      collect_motors cs now

  unfoldable pub add_virtual : RawChannel → ChannelParts → Progress → Result Progress
  add_virtual channel parts p =
      let ref = ref_to emd channel in
      if is_shutter (classify_output parts.category)
      then ok p
      else add_represented parts (device_for parts.label scene parts.category ref none) (ref ∷ []) p

  -- The loop over the virtual inputs.
  unfoldable pub add_virtuals : List RawChannel → Progress → Result Progress
  add_virtuals [] p = ok p
  add_virtuals (channel ∷ cs) p =
      let now =
        if is_virtual channel
        then elim (parse_channel_parts channel.text) [
          | none ↦ ok p
          | some parts ↦ add_virtual channel parts p
        ]
        else ok p in
      now >>= add_virtuals cs

unfoldable pub add_button : RawChannel → ChannelParts → Progress → Result Progress
add_button channel parts p =
    let ref = ref_to emd channel in
    if is_represented ref p.represented
    then ok p
    else add_represented parts (device_for parts.label button parts.category ref none) (ref ∷ []) p

-- The loop over the other inputs.
unfoldable pub add_buttons : List RawChannel → Progress → Result Progress
add_buttons [] p = ok p
add_buttons (channel ∷ cs) p =
    let now =
      if is_input channel
      then elim (parse_channel_parts channel.text) [
        | none ↦ ok p
        | some parts ↦ add_button channel parts p
      ]
      else ok p in
    now >>= add_buttons cs

-- The loop over the actions of the tools.
unfoldable pub add_actions : List ToolAction → Progress → Result Progress
add_actions [] p = ok p
add_actions (a ∷ rest) p =
    let now =
      if is_represented a.ref p.represented
      then ok p
      else add_represented
          (record {
            sort_index = a.sort_index;
            floor = a.floor;
            category = a.category;
            label = a.name;
          })
          (device_for a.name scene a.category a.ref none) [] p in
    now >>= add_actions rest

module _ ⦃u : Unicode⦄ where
  unfoldable pub device_less : Device → Device → Bool
  device_less l r =
      if not (kind_rank l.kind == kind_rank r.kind)
      then ltb (kind_rank l.kind) (kind_rank r.kind)
      else if not (l.category ==ₜ r.category)
      then natural_less l.category r.category
      else natural_less l.name r.name

  unfoldable pub floor_less : Floor → Floor → Bool
  floor_less l r =
      if not (eq_ℤ l.sort_index r.sort_index)
      then ltb_ℤ l.sort_index r.sort_index
      else natural_less l.name r.name

  unfoldable pub finish_floors : List (Text × FloorBuilder) → List Floor
  finish_floors [] = []
  finish_floors ((name, f) ∷ fs) =
      record {
        id = stable_floor_id name;
        name = name;
        devices = sort_stable device_less f.devices;
        sort_index = f.sort_index;
      }
      ∷ finish_floors fs

  module _ (range_motors : Dict MotorKey MotorChannel → List (MotorKey × MotorChannel)) where
    -- The loops, one after the other.
    unfoldable pub add_all : List RawChannel → List ToolAction → Result Progress
    add_all channels actions =
        let ms = collect_motors channels (record { downs = []; ups = [] }) in
        add_outputs channels new_project_builder
        >>= (λ b.
            pair_motors ms.ups (range_motors ms.downs) (record { builder = b; represented = [] }))
        >>= add_virtuals channels
        >>= add_buttons channels
        >>= add_actions actions

    unfoldable pub build_project :
        (Dict Text FloorBuilder → List (Text × FloorBuilder))
        → Text
        → List RawChannel
        → List ToolAction
        → Result Project
    build_project range_floors name channels actions = add_all channels actions >>= (λ p.
        ok (record {
          name = name;
          floors = sort_stable floor_less (finish_floors (range_floors p.builder.floors));
        }))
