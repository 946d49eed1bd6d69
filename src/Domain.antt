-- ===== src/Domain.antt =====
-- bridge/internal/domain/model.go and input_events.go: the project model that the parser, the
-- controller and the web layer share.
pub mod Ids
pub mod FloorIds
pub mod Counts
use phcremote_control.Prelude.{
  ℕ, ◌+◌, ◌-◌, ◌*◌, ◌/◌, ◌%◌, Option, List, [], ◌∷◌, ◌++◌, map, ltb, ◌==◌, if◌then◌else◌,
}
use phcremote_control.Prelude.Int.{ℤ}
use phcremote_control.Text.{Text, codes}
use phcremote_control.Text.Decimal.{itoa}

-- The constants of the two string types; a value of another text does not occur.
pub data ModuleClass : Type 0 where
  emd amd jrm : ModuleClass

pub data DeviceKind : Type 0 where
  light dimmer outlet shutter scene button : DeviceKind

pub record ChannelRef : Type 0 where
  pub module_class : ModuleClass
  pub dip : ℤ
  pub channel : ℤ

unfoldable pub module_class_text : ModuleClass → Text
module_class_text emd = codes "emd"
module_class_text amd = codes "amd"
module_class_text jrm = codes "jrm"

-- fmt.Sprintf("device:v1:%s:%d:%d", …)
unfoldable pub stable_device_id : ChannelRef → Text
unfolding module_class_text
stable_device_id ref =
    codes "device:v1:"
    ++ (module_class_text ref.module_class ++ b':' ∷ (itoa ref.dip ++ b':' ∷ itoa ref.channel))

-- The bytes of a text, []byte(name): UTF-8.
rune_bytes : ℕ → List ℕ
rune_bytes c =
    if ltb c 0x80
    then c ∷ []
    else if ltb c 0x800
    then (0xc0 + c / 64) ∷ (0x80 + c % 64) ∷ []
    else if ltb c 0x10000
    then (0xe0 + c / 4096) ∷ (0x80 + c / 64 % 64) ∷ (0x80 + c % 64) ∷ []
    else (0xf0 + c / 262144) ∷ (0x80 + c / 4096 % 64) ∷ (0x80 + c / 64 % 64) ∷ (0x80 + c % 64) ∷ []

unfoldable pub utf8 : Text → List ℕ
unfolding rune_bytes
utf8 [] = []
utf8 (c ∷ s) = rune_bytes c ++ utf8 s

-- base64.RawURLEncoding: six bits to a letter, and no padding.
base64_letter : ℕ → ℕ
base64_letter v =
    if ltb v 26
    then b'A' + v
    else if ltb v 52
    then b'a' + (v - 26)
    else if ltb v 62
    then b'0' + (v - 52)
    else if v == 62
    then b'-'
    else b'_'

sextets : List ℕ → List ℕ
sextets [] = []
sextets (a ∷ []) = (a / 4) ∷ (a % 4 * 16) ∷ []
sextets (a ∷ (b ∷ [])) = (a / 4) ∷ (a % 4 * 16 + b / 16) ∷ (b % 16 * 4) ∷ []
sextets (a ∷ (b ∷ (c ∷ s))) =
    (a / 4) ∷ (a % 4 * 16 + b / 16) ∷ (b % 16 * 4 + c / 64) ∷ (c % 64) ∷ sextets s

unfoldable pub raw_url_base64 : List ℕ → Text
unfolding base64_letter sextets
raw_url_base64 s = map base64_letter (sextets s)

unfoldable pub stable_floor_id : Text → Text
unfolding utf8 raw_url_base64
stable_floor_id name = codes "floor:v1:" ++ raw_url_base64 (utf8 name)

pub record Device : Type 0 where
  pub id : Text
  pub name : Text
  pub kind : DeviceKind
  pub category : Text
  pub ref : ChannelRef
  pub up_ref : Option ChannelRef

pub record Floor : Type 0 where
  pub id : Text
  pub name : Text
  pub devices : List Device
  pub sort_index : ℤ

pub record Project : Type 0 where
  pub name : Text
  pub floors : List Floor

pub data InputEvent : Type 0 where
  press long_press release double_press : InputEvent

-- The values of the constants.
unfoldable pub input_event_code : InputEvent → ℕ
input_event_code press = 2
input_event_code long_press = 3
input_event_code release = 4
input_event_code double_press = 5

unfoldable pub short_press_events : List InputEvent
short_press_events = press ∷ release ∷ double_press ∷ []

unfoldable pub long_press_events : List InputEvent
long_press_events = press ∷ long_press ∷ []

unfoldable pub tip_events : List InputEvent
tip_events = press ∷ release ∷ []
