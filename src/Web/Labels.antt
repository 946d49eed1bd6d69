-- ===== src/Web/Labels.antt =====
-- The words of bridge/internal/web/pages.go: the language of a page and the labels.
use phcremote_control.Prelude.{
  ℕ, Bool, true, false, not, Option, some, List, [], ◌∷◌, ◌++◌, any, ◌==◌, if◌then◌else◌,
}
use phcremote_control.Prelude.Int.{pos}
use phcremote_control.Text.{Text, codes, ◌==ₜ◌, text_key, contains, has_prefix, Unicode, to_lower}
use phcremote_control.Text.Decimal.{itoa}
use phcremote_control.Domain.{DeviceKind, light, dimmer, outlet, shutter, scene, button, Device}
use phcremote_control.Controller.Types.{
  Action, on, off, toggle, raise, lower, stop, tilt_open, tilt_close, short_press, long_press,
  activate, other, PowerState, power_off, power_on, connected, disconnected, ConnectionStatus,
  Snapshot,
}
use phcremote_control.Web.Server.{Request}
use phcremote_control.Web.Translations.{Translations, english, german}

unfoldable pub page_language : ⦃u : Unicode⦄ → Request → Text × Translations
page_language r =
    if r.lang ==ₜ codes "de"
    then (codes "de", german)
    else if r.lang ==ₜ codes "en"
    then (codes "en", english)
    else if has_prefix (to_lower r.accept_language) (codes "de")
    then (codes "de", german)
    else (codes "en", english)

unfoldable pub language_query : Text → Text
language_query lang = codes "?lang=" ++ lang

unfoldable pub power_presentation : Option PowerState → Translations → Text × Text × Bool
power_presentation (some power_on) t = (t.on, t.turn_off, true)
power_presentation (some power_off) t = (t.off, t.turn_on, false)
power_presentation _ t = (t.unknown, t.turn_on, false)

unfoldable pub kind_label : DeviceKind → Translations → Text
kind_label light t = t.light
kind_label outlet t = t.outlet
kind_label shutter t = t.shutter
kind_label scene t = t.scene
kind_label button t = t.button
kind_label dimmer t = t.dimmer

unfoldable pub action_label : Action → Translations → Text
action_label on t = t.turn_on
action_label off t = t.turn_off
action_label toggle t = codes "toggle"
action_label raise t = t.raise
action_label stop t = t.stop
action_label lower t = t.lower
action_label tilt_open t = t.tilt_open
action_label tilt_close t = t.tilt_close
action_label short_press t = t.short_press
action_label long_press t = t.long_press
action_label activate t = t.activate
action_label (other s) t = s

unfoldable pub action_symbol : Action → Text
action_symbol raise = codes "up"
action_symbol lower = codes "down"
action_symbol stop = codes "stop"
action_symbol tilt_open = codes "tilt-open"
action_symbol tilt_close = codes "tilt-close"
action_symbol _ = []

security_words : List Text
security_words =
    codes "panic" ∷ codes "panik" ∷ codes "security" ∷ codes "sicherheit" ∷ codes "alarm" ∷ []

unfoldable pub is_security_action : ⦃u : Unicode⦄ → Device → Bool
unfolding security_words
is_security_action d = any (contains (to_lower (d.category ++ b' ' ∷ d.name))) security_words

is_connected : ConnectionStatus → Bool
is_connected connected = true
is_connected disconnected = false

unfoldable pub connection_class : Snapshot → Text
unfolding is_connected
connection_class s =
    if not (is_connected s.connection)
    then codes "disconnected"
    else if s.stale
    then codes "stale"
    else codes "connected"

unfoldable pub device_count_label : ℕ → Translations → Text
device_count_label n t =
    if n == 1 then codes "1 " ++ t.device_singular else itoa (pos n) ++ b' ' ∷ t.devices
