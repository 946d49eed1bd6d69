-- ===== src/Web/Views.antt =====
-- The data of the pages of bridge/internal/web/pages.go.
use phcremote_control.Prelude.{ℕ, Bool, Option, List}
use phcremote_control.Text.{Text}
use phcremote_control.Domain.{DeviceKind, Project}
use phcremote_control.Controller.Types.{Action, PowerState, Snapshot}
use phcremote_control.Web.Translations.{Translations}

pub record ActionView : Type 0 where
  pub action : Action
  pub label : Text
  pub symbol : Text
  pub experimental : Bool
  pub confirm : Text

-- A device without a state has no power; Go's zero value is the empty string.
pub record DeviceView : Type 0 where
  pub id : Text
  pub name : Text
  pub kind : DeviceKind
  pub kind_label : Text
  pub category : Text
  pub power : Option PowerState
  pub power_label : Text
  pub power_action : Text
  pub power_pressed : Bool
  pub state_capable : Bool
  pub security_action : Bool
  pub actions : List ActionView
  pub state_label : Text
  pub favourite_label : Text
  pub experimental_label : Text

pub record CategoryView : Type 0 where
  pub name : Text
  pub devices : List DeviceView

pub record FloorView : Type 0 where
  pub id : Text
  pub name : Text
  pub url : Text
  pub device_count : ℕ
  pub categories : List CategoryView

pub record FavouriteView : Type 0 where
  pub device : DeviceView
  pub floor : Text
  pub url : Text

pub record PageData : Type 0 where
  pub page : Text
  pub lang : Text
  pub title : Text
  pub text : Translations
  pub project : Project
  pub snapshot : Snapshot
  pub floors : List FloorView
  pub floor : Option FloorView
  pub all_devices : List FavouriteView
  pub stm_address : Text
  pub public_origin : Text
  pub connection_key : Text
