-- ===== src/Tests/Data.antt =====
-- A house with a lamp and an awning, and an STM that counts its calls.
use phcremote_control.Prelude.{ℕ, ◌+◌, false, none, some, [], ◌∷◌, leb, ◌&&◌, if◌then◌else◌}
use phcremote_control.Prelude.Int.{pos}
use phcremote_control.Text.{codes, Unicode}
use phcremote_control.Domain.{amd, emd, light, shutter, ChannelRef, Device, Project}
use phcremote_control.Controller.Types.{ok, Config, unknown, PolledChannel}
use phcremote_control.Controller.Commands.{StmClient}
use phcremote_control.Controller.Build.{Tables, Controller, assemble}

-- Lower case on ASCII.
instance abbrev pub ascii : Unicode
ascii = record { lower = λ c. if leb b'A' c && leb c b'Z' then c + 32 else c }

abbrev pub stm : StmClient ℕ
stm = record {
  send_telegram = λ i address content w. (ok (pos 4 ∷ []), w + 1);
  sim_input_event = λ i dip channel event key w. (ok tt, w + 1);
}

abbrev pub lamp_ref : ChannelRef
lamp_ref = record { module_class = amd; dip = pos 3; channel = pos 2 }

abbrev pub lamp : Device
lamp = record {
  id = codes "lamp";
  name = codes "Lamp";
  kind = light;
  category = codes "Light";
  ref = lamp_ref;
  up_ref = none;
}

abbrev pub awning : Device
awning = record {
  id = codes "awning";
  name = codes "Awning";
  kind = shutter;
  category = codes "Jalousie";
  ref = record { module_class = emd; dip = pos 1; channel = pos 0 };
  up_ref = some (record { module_class = emd; dip = pos 1; channel = pos 1 });
}

abbrev pub house : Project
house = record {
  name = codes "House";
  floors =
      record {
        id = codes "eg";
        name = codes "EG";
        devices = lamp ∷ (awning ∷ []);
        sort_index = pos 1;
      }
      ∷ [];
}

abbrev pub defaults : Config
defaults = record {
  active_poll_interval = pos 0;
  subscriber_grace = pos 0;
  operation_timeout = pos 0;
  idle_health_interval = pos 0;
  queue_depth = pos 0;
  event_buffer = pos 0;
  disable_refresh = false;
}

abbrev pub settings : Config
settings = record {
  active_poll_interval = pos 2_500_000_000;
  subscriber_grace = pos 15_000_000_000;
  operation_timeout = pos 10_000_000_000;
  idle_health_interval = pos 0;
  queue_depth = pos 64;
  event_buffer = pos 32;
  disable_refresh = false;
}

abbrev pub lamp_channel : PolledChannel
lamp_channel = record { device_id = codes "lamp"; channel = pos 2 }

abbrev pub tables : Tables
tables = record {
  devices = (codes "lamp", lamp) ∷ ((codes "awning", awning) ∷ []);
  modules = (67, lamp_channel ∷ []) ∷ [];
  device_modules = (codes "lamp", 67) ∷ [];
  states = (codes "lamp", unknown) ∷ [];
}

abbrev pub built : Controller
built = assemble house settings tables
