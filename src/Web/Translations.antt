-- ===== src/Web/Translations.antt =====
-- The two languages of bridge/internal/web/pages.go.
use phcremote_control.Prelude.{◌++◌}
use phcremote_control.Text.{Text, codes}

-- translations
pub record Translations : Type 0 where
  pub app_name : Text
  pub floors : Text
  pub settings : Text
  pub acknowledgments : Text
  pub home_title : Text
  pub no_favourites : Text
  pub favourites : Text
  pub favourite : Text
  pub remove_favourite : Text
  pub reorder : Text
  pub move_earlier : Text
  pub move_later : Text
  pub devices : Text
  pub device_singular : Text
  pub back : Text
  pub connection : Text
  pub connected : Text
  pub disconnected : Text
  pub stale : Text
  pub state : Text
  pub on : Text
  pub off : Text
  pub unknown : Text
  pub turn_on : Text
  pub turn_off : Text
  pub raise : Text
  pub stop : Text
  pub lower : Text
  pub tilt_open : Text
  pub tilt_close : Text
  pub experimental : Text
  pub activate : Text
  pub short_press : Text
  pub long_press : Text
  pub command_sent : Text
  pub command_accepted : Text
  pub command_failed : Text
  pub unsupported : Text
  pub device_missing : Text
  pub stm_unavailable : Text
  pub command_timeout : Text
  pub reload_project : Text
  pub reloading : Text
  pub project : Text
  pub bridge_address : Text
  pub stm_address : Text
  pub storage_title : Text
  pub storage_text : Text
  pub no_javascript : Text
  pub language : Text
  pub english : Text
  pub german : Text
  pub open_source : Text
  pub license_text : Text
  pub about_text : Text
  pub confirmation : Text
  pub light : Text
  pub outlet : Text
  pub shutter : Text
  pub scene : Text
  pub button : Text
  pub dimmer : Text
  pub live_interrupted : Text
  pub reload_failed : Text

abbrev pub english : Translations
english = record {
  app_name = codes "PHC Remote";
  floors = codes "Floors";
  settings = codes "Settings";
  acknowledgments = codes "Acknowledgments";
  home_title = codes "Home";
  no_favourites = codes "No favourites yet.";
  favourites = codes "Favourites";
  favourite = codes "Add to favourites";
  remove_favourite = codes "Remove from favourites";
  reorder = codes "Drag to reorder";
  move_earlier = codes "Move earlier";
  move_later = codes "Move later";
  devices = codes "devices";
  device_singular = codes "device";
  back = codes "All floors";
  connection = codes "Connection";
  connected = codes "STM connected";
  disconnected = codes "STM unavailable";
  stale = codes "State data is stale";
  state = codes "State";
  on = codes "On";
  off = codes "Off";
  unknown = codes "Unknown";
  turn_on = codes "Turn on";
  turn_off = codes "Turn off";
  raise = codes "Raise";
  stop = codes "Stop";
  lower = codes "Lower";
  tilt_open = codes "Open slats";
  tilt_close = codes "Close slats";
  experimental = codes "Experimental";
  activate = codes "Activate";
  short_press = codes "Short press";
  long_press = codes "Long press";
  command_sent = codes "Command sent";
  command_accepted = codes "Command accepted";
  command_failed = codes "Command failed";
  unsupported = codes "Action not supported";
  device_missing = codes "Device no longer exists";
  stm_unavailable = codes "STM unavailable";
  command_timeout = codes "STM operation timed out";
  reload_project = codes "Reload from STM";
  reloading = codes "Reloading project";
  project = codes "Project";
  bridge_address = codes "Website address";
  stm_address = codes "STM address";
  storage_title = codes "Favourites";
  storage_text =
      codes "Favourites are stored only in this browser. They do not sync and are lost when "
      ++ codes "browser storage is cleared.";
  no_javascript =
      codes "Control requires JavaScript. Project navigation and current information remain "
      ++ codes "available.";
  language = codes "Language";
  english = codes "English";
  german = codes "German";
  open_source = codes "Open-source licenses";
  license_text =
      codes "This bridge uses only the Go standard library. The PHC Remote logo includes "
      ++ codes "artwork derived from Mono Icons (MIT) and Material Design Icons (Apache 2.0).";
  about_text = codes "A local website for controlling a PEHA/Honeywell PHC installation.";
  confirmation = codes "Run this security-sensitive action?";
  light = codes "Light";
  outlet = codes "Outlet";
  shutter = codes "Shutter";
  scene = codes "Scene";
  button = codes "Button";
  dimmer = codes "Dimmer";
  live_interrupted = codes "Live updates interrupted";
  reload_failed = codes "Project reload failed";
}

abbrev pub german : Translations
german = record {
  app_name = codes "PHC Remote";
  floors = codes "Stockwerke";
  settings = codes "Einstellungen";
  acknowledgments = codes "Danksagungen";
  home_title = codes "Zuhause";
  no_favourites = codes "Noch keine Favoriten.";
  favourites = codes "Favoriten";
  favourite = codes "Zu Favoriten hinzufügen";
  remove_favourite = codes "Aus Favoriten entfernen";
  reorder = codes "Zum Neuordnen ziehen";
  move_earlier = codes "Nach vorne";
  move_later = codes "Nach hinten";
  devices = codes "Geräte";
  device_singular = codes "Gerät";
  back = codes "Alle Stockwerke";
  connection = codes "Verbindung";
  connected = codes "STM verbunden";
  disconnected = codes "STM nicht erreichbar";
  stale = codes "Zustandsdaten sind veraltet";
  state = codes "Status";
  on = codes "Ein";
  off = codes "Aus";
  unknown = codes "Unbekannt";
  turn_on = codes "Einschalten";
  turn_off = codes "Ausschalten";
  raise = codes "Hoch";
  stop = codes "Stop";
  lower = codes "Herunter";
  tilt_open = codes "Lamellen öffnen";
  tilt_close = codes "Lamellen schließen";
  experimental = codes "Experimentell";
  activate = codes "Aktivieren";
  short_press = codes "Kurzer Tastendruck";
  long_press = codes "Langer Tastendruck";
  command_sent = codes "Befehl gesendet";
  command_accepted = codes "Befehl angenommen";
  command_failed = codes "Befehl fehlgeschlagen";
  unsupported = codes "Aktion nicht unterstützt";
  device_missing = codes "Gerät ist nicht mehr vorhanden";
  stm_unavailable = codes "STM nicht erreichbar";
  command_timeout = codes "STM-Zeitüberschreitung";
  reload_project = codes "Vom STM neu laden";
  reloading = codes "Projekt wird neu geladen";
  project = codes "Projekt";
  bridge_address = codes "Website-Adresse";
  stm_address = codes "STM-Adresse";
  storage_title = codes "Favoriten";
  storage_text =
      codes "Favoriten werden nur in diesem Browser gespeichert. Sie werden nicht "
      ++ codes "synchronisiert und gehen beim Löschen der Browserdaten verloren.";
  no_javascript =
      codes "Die Steuerung benötigt JavaScript. Projektnavigation und aktuelle Informationen "
      ++ codes "bleiben verfügbar.";
  language = codes "Sprache";
  english = codes "Englisch";
  german = codes "Deutsch";
  open_source = codes "Open-Source-Lizenzen";
  license_text =
      codes "Diese Bridge verwendet nur die Go-Standardbibliothek. Das PHC-Remote-Logo "
      ++ codes "enthält abgeleitete Grafiken aus Mono Icons (MIT) und Material Design Icons "
      ++ codes "(Apache 2.0).";
  about_text = codes "Eine lokale Website zur Steuerung einer PEHA/Honeywell-PHC-Anlage.";
  confirmation = codes "Diese sicherheitsrelevante Aktion ausführen?";
  light = codes "Licht";
  outlet = codes "Steckdose";
  shutter = codes "Rollladen";
  scene = codes "Szene";
  button = codes "Taster";
  dimmer = codes "Dimmer";
  live_interrupted = codes "Live-Aktualisierung unterbrochen";
  reload_failed = codes "Projekt konnte nicht neu geladen werden";
}
