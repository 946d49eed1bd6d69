-- ===== src/Controller/Build.antt =====
-- New of bridge/internal/controller/controller.go: the tables of a controller from a project.
pub mod Polled
pub mod Accepts
use phcremote_control.Prelude.{
  ℕ, ◌+◌, ◌≡◌, Bool, true, false, Option, none, some, List, [], ◌∷◌, ◌++◌, leb, if◌then◌else◌,
}
use phcremote_control.Prelude.Dict.{Dict, nat_key, lookup, insert}
use phcremote_control.Text.{Text, text_key}
use phcremote_control.Domain.{Device, Floor, Project}
use phcremote_control.Controller.Types.{
  nil_client, device_without_id, duplicate_device, Result, ok, err, ◌>>=◌, >>=-eq-ok, ok_injective,
  Config, normalized, PowerState, unknown, disconnected, PolledChannel, is_amd, amd_bus_address,
}
use phcremote_control.Controller.State.{State, polled}
use phcremote_control.Controller.Subscribers.{Subscribers, no_subscribers}

-- The maps that the loop over the devices fills.
pub record Tables : Type 0 where
  pub devices : Dict Text Device
  pub modules : Dict ℕ (List PolledChannel)
  pub device_modules : Dict Text ℕ
  pub states : Dict Text PowerState

abbrev pub no_tables : Tables
no_tables = record { devices = []; modules = []; device_modules = []; states = [] }

-- c.modules[address] = append(c.modules[address], …), and what is kept for the device.
unfoldable pub add_output : Device → ℕ → Tables → Tables
unfolding polled
add_output d address t =
    let entry : PolledChannel = record { device_id = d.id; channel = d.ref.channel } in
    record t {
      modules = insert address (polled t.modules address ++ entry ∷ []) t.modules;
      device_modules = insert d.id address t.device_modules;
      states = insert d.id unknown t.states;
    }

abbrev is_present {ℓ} : {A : Type ℓ} → Option A → Bool
is_present none = false
is_present (some a) = true

abbrev is_blank : Text → Bool
is_blank [] = true
is_blank (c ∷ s) = false

-- The body of the loop.
unfoldable pub add_device : Device → Tables → Result Tables
unfolding add_output
add_device d t =
    if is_blank d.id
    then err device_without_id
    else if is_present (lookup d.id t.devices)
    then err duplicate_device
    else let t' = record t { devices = insert d.id d t.devices } in
      if is_amd d.ref.module_class
      then (do address ← amd_bus_address d.ref; ok (add_output d address t'))
      else ok t'

unfoldable pub add_devices : List Device → Tables → Result Tables
add_devices [] t = ok t
add_devices (d ∷ ds) t = do t' ← add_device d t; add_devices ds t'

unfoldable pub add_floors : List Floor → Tables → Result Tables
unfolding add_devices add_device
add_floors [] t = ok t
add_floors (f ∷ fs) t = do t' ← add_devices f.devices t; add_floors fs t'

unfoldable pub insert_sorted : ℕ → List ℕ → List ℕ
insert_sorted a [] = a ∷ []
insert_sorted a (b ∷ bs) = if leb a b then a ∷ (b ∷ bs) else b ∷ insert_sorted a bs

-- The keys of the modules in the order of sort.Ints.
unfoldable pub sorted_keys : Dict ℕ (List PolledChannel) → List ℕ
unfolding insert_sorted
sorted_keys [] = []
sorted_keys ((a, cs) ∷ m) = insert_sorted a (sorted_keys m)

pub record Controller : Type 0 where
  pub project : Project
  pub config : Config
  pub devices : Dict Text Device
  pub modules : Dict ℕ (List PolledChannel)
  pub module_addresses : List ℕ
  pub device_modules : Dict Text ℕ
  pub stopped : Bool
  pub command_id : ℕ
  pub state : State
  pub subscribers : Subscribers
  -- pollWake, a channel of one place
  pub poll_wake : Bool
  -- refreshModule, a channel of config.queue_depth places
  pub refresh_module : List ℕ

unfoldable pub assemble : Project → Config → Tables → Controller
assemble p c t = record {
  project = p;
  config = c;
  devices = t.devices;
  modules = t.modules;
  module_addresses = sorted_keys t.modules;
  device_modules = t.device_modules;
  stopped = false;
  command_id = 0;
  state = record { revision = 0; connection = disconnected; stale = true; states = t.states };
  subscribers = no_subscribers;
  poll_wake = false;
  refresh_module = [];
}

-- New for a client that is not nil.
unfoldable pub new : Project → Config → Result Controller
new p c = do c' ← normalized c; t ← add_floors p.floors no_tables; ok (assemble p c' t)

-- New with its client, which may be nil.
unfoldable pub new_for {ℓ} : {C : Type ℓ} → Option C → Project → Config → Result Controller
unfolding new
new_for none p c = err nil_client
new_for (some client) p c = new p c

-- A controller that was built has an accepted configuration and the tables of its project.
pub new-assemble :
    (p : Project) (c : Config) (k : Controller)
    → new p c ≡ ok k
    → (c' : Config) × (t : Tables) × (normalized c ≡ ok c')
      × (add_floors p.floors no_tables ≡ ok t)
      × (assemble p c' t ≡ k)
unfolding new
new-assemble p c k e =
    let (c', one, rest) = >>=-eq-ok (normalized c) _ e in
    let (t, two, last) = >>=-eq-ok (add_floors p.floors no_tables) _ rest in
    (c', t, one, two, ok_injective _ _ last)
