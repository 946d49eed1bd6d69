-- ===== src/Project/Channels.antt =====
-- The channels and the actions that buildProject of bridge/internal/project/parser.go gets.
use phcremote_control.Prelude.{Bool, true, false, ◌&&◌, Option, []}
use phcremote_control.Prelude.Int.{ℤ, eq_ℤ}
use phcremote_control.Text.{Text, codes, text_key, ◌==ₜ◌, has_prefix}
use phcremote_control.Domain.{ModuleClass, emd, amd, jrm, DeviceKind, shutter, ChannelRef, Device}
use phcremote_control.Project.Motors.{motor_key}

pub record RawChannel : Type 0 where
  pub module_group : Text
  pub module_name : Text
  pub module_addr : ℤ
  pub channel_group : Text
  pub channel_addr : ℤ
  pub text : Text

pub record ToolAction : Type 0 where
  pub name : Text
  pub category : Text
  pub floor : Text
  pub sort_index : ℤ
  pub ref : ChannelRef

-- A device that has no identity yet.
abbrev pub device_for : Text → DeviceKind → Text → ChannelRef → Option ChannelRef → Device
device_for name kind category ref up_ref = record {
  id = [];
  name = name;
  kind = kind;
  category = category;
  ref = ref;
  up_ref = up_ref;
}

abbrev pub ref_to : ModuleClass → RawChannel → ChannelRef
ref_to m channel = record {
  module_class = m;
  dip = channel.module_addr;
  channel = channel.channel_addr;
}

abbrev pub is_shutter : DeviceKind → Bool
is_shutter shutter = true
is_shutter _ = false

abbrev pub same_class : ModuleClass → ModuleClass → Bool
same_class emd emd = true
same_class amd amd = true
same_class jrm jrm = true
same_class _ _ = false

abbrev pub same_ref : ChannelRef → ChannelRef → Bool
same_ref a b =
    same_class a.module_class b.module_class && eq_ℤ a.dip b.dip && eq_ℤ a.channel b.channel

-- The channels that the loops `continue` past are the ones that the tests reject.
abbrev pub is_output : RawChannel → Bool
is_output channel =
    channel.module_group ==ₜ codes "Ausgangsmodule"
    && channel.channel_group ==ₜ codes "Ausgang"
    && has_prefix channel.module_name (codes "AMD")

abbrev pub is_input : RawChannel → Bool
is_input channel =
    channel.module_group ==ₜ codes "Eingangsmodule" && channel.channel_group ==ₜ codes "Eingang"

abbrev pub is_virtual : RawChannel → Bool
is_virtual channel =
    channel.module_name ==ₜ codes "EMD_VIR" && channel.channel_group ==ₜ codes "Eingang"
