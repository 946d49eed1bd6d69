-- ===== src/Web/Devices.antt =====
-- makeDeviceView and the grouping of floorViews of bridge/internal/web/pages.go.
use phcremote_control.Prelude.{
  Bool, true, false, ◌&&◌, Option, none, some, List, [], ◌∷◌, ◌++◌, if◌then◌else◌,
}
use phcremote_control.Prelude.Dict.{Dict, lookup, insert}
use phcremote_control.Text.{Text, text_key, Unicode, to_lower}
use phcremote_control.Domain.{Device}
use phcremote_control.Controller.Types.{
  Action, on, off, toggle, Capability, PowerState, Snapshot, Result, ok, err,
}
use phcremote_control.Project.Order.{text_less}
use phcremote_control.Prelude.Sorts.{sort_stable}
use phcremote_control.Web.Translations.{Translations}
use phcremote_control.Web.Views.{ActionView, DeviceView, CategoryView}
use phcremote_control.Web.Labels.{
  power_presentation, kind_label, action_label, action_symbol, is_security_action,
}

-- The actions that the switch of a device with a state replaces.
is_switch : Action → Bool
is_switch on = true
is_switch off = true
is_switch toggle = true
is_switch _ = false

action_view : Bool → Capability → Translations → ActionView
unfolding action_label action_symbol
action_view secure c t = record {
  action = c.action;
  label = action_label c.action t;
  symbol = action_symbol c.action;
  experimental = c.experimental;
  confirm = if secure then t.confirmation else [];
}

unfoldable pub action_views : Bool → Bool → List Capability → Translations → List ActionView
unfolding is_switch action_view
action_views capable secure [] t = []
action_views capable secure (c ∷ cs) t =
    let rest = action_views capable secure cs t in
    if capable && is_switch c.action then rest else action_view secure c t ∷ rest

abbrev found : Result (List Capability) → List Capability
found (ok cs) = cs
found (err e) = []

abbrev is_some : Option PowerState → Bool
is_some none = false
is_some (some p) = true

unfoldable pub make_device_view :
    ⦃u : Unicode⦄ → Result (List Capability) → Device → Snapshot → Translations → DeviceView
unfolding power_presentation kind_label is_security_action action_views
make_device_view capabilities d s t =
    let power = lookup d.id s.devices in
    let (label, action, pressed) = power_presentation power t in
    record {
      id = d.id;
      name = d.name;
      kind = d.kind;
      kind_label = kind_label d.kind t;
      category = d.category;
      power = power;
      power_label = label;
      power_action = action;
      power_pressed = pressed;
      state_capable = is_some power;
      security_action = is_security_action d;
      actions = action_views (is_some power) (is_security_action d) (found capabilities) t;
      state_label = t.state;
      favourite_label = t.favourite;
      experimental_label = t.experimental;
    }

-- byCategory and categoryOrder.
pub record Groups : Type 0 where
  pub by_category : Dict Text (List DeviceView)
  pub category_order : List Text

abbrev pub no_groups : Groups
no_groups = record { by_category = []; category_order = [] }

abbrev pub devices_in : Option (List DeviceView) → List DeviceView
devices_in none = []
devices_in (some vs) = vs

abbrev with_category : Option (List DeviceView) → Text → List Text → List Text
with_category none c order = order ++ c ∷ []
with_category (some _) c order = order

unfoldable pub add_view : DeviceView → Groups → Groups
add_view v g = record {
  by_category =
      insert v.category (devices_in (lookup v.category g.by_category) ++ v ∷ []) g.by_category;
  category_order = with_category (lookup v.category g.by_category) v.category g.category_order;
}

unfoldable pub group_views : List DeviceView → Groups → Groups
group_views [] g = g
group_views (v ∷ vs) g = group_views vs (add_view v g)

unfoldable pub name_less : ⦃u : Unicode⦄ → DeviceView → DeviceView → Bool
name_less a b = text_less (to_lower a.name) (to_lower b.name)

unfoldable pub category_views :
    ⦃u : Unicode⦄ → List Text → Dict Text (List DeviceView) → List CategoryView
category_views [] m = []
category_views (c ∷ cs) m =
    record { name = c; devices = sort_stable name_less (devices_in (lookup c m)) }
    ∷ category_views cs m

unfoldable pub categories_of : ⦃u : Unicode⦄ → List DeviceView → List CategoryView
categories_of vs = let g = group_views vs no_groups in category_views g.category_order g.by_category
