-- ===== src/Probe/Addresses.antt =====
-- The addresses that bridge/cmd/stm-probe/main.go reads, beside those that a controller polls.
use phcremote_control.Prelude.{
  ℕ, ◌≡◌, refl, ◌∙◌, ap, true, inl, inr, List, [], ◌∷◌, map, if◌then◌else◌, arith,
}
use phcremote_control.Prelude.Int.{ℤ, pos, ltb_ℤ}
use phcremote_control.Prelude.Dict.{Dict, nat_key, insert}
use phcremote_control.Prelude.Sorts.{insert_by, sort_stable}
use phcremote_control.Domain.{ChannelRef, Device, Floor, Project}
use phcremote_control.Controller.Types.{
  ok, >>=-eq-ok, Config, PolledChannel, is_amd, amd_bus_address,
}
use phcremote_control.Controller.Build.{
  Tables, no_tables, add_output, add_device, add_devices, add_floors, insert_sorted, sorted_keys,
  Controller, assemble, new, new-assemble,
}
use phcremote_control.Controller.Build.Polled.{add_device-Added}
use phcremote_control.Probe.{
  int_key, or_0x40, device_addresses, floor_addresses, keys_of, pollable_module_addresses,
}

abbrev Modules : Type 0
Modules = Dict ℕ (List PolledChannel)

-- The same addresses, first seen in the same order.
abbrev SameKeys : Dict ℤ (Unit {0}) → Modules → Type 0
SameKeys s m = keys_of s ≡ map pos (keys_of m)

keys-insert :
    (a : ℕ) (cs : List PolledChannel) (s : Dict ℤ (Unit {0})) (m : Modules)
    → SameKeys s m
    → SameKeys (insert (pos a) tt s) (insert a cs m)
unfolding insert
keys-insert a cs [] [] h = refl
keys-insert a cs [] ((b, bs) ∷ m) h = absurd cc
keys-insert a cs ((z, _) ∷ s) [] h = absurd cc
keys-insert a cs ((z, _) ∷ s) ((b, bs) ∷ m) h = ground (arith, keys-insert a cs s m)

or_0x40-address :
    (r : ChannelRef) (a : ℕ)
    → amd_bus_address r ≡ ok a
    → (or_0x40 r.dip ≡ pos a) × (is_amd r.module_class ≡ true)
unfolding or_0x40 amd_bus_address
or_0x40-address r a e = ground arith

add_device-SameKeys :
    (d : Device) (s : Dict ℤ (Unit {0})) (t u : Tables)
    → SameKeys s t.modules
    → add_device d t ≡ ok u
    → SameKeys (if is_amd d.ref.module_class then insert (or_0x40 d.ref.dip) tt s else s) u.modules
unfolding add_output
add_device-SameKeys d s t u h e = elim ((add_device-Added d t u e).1) [
  | inl (other, same) ↦ rw (other, same) h
  | inr (a, address, same) ↦
      let (equal, here) = or_0x40-address d.ref a address in
      rw (here, equal, same) (keys-insert a _ s t.modules h)
]

add_devices-SameKeys :
    (ds : List Device) (s : Dict ℤ (Unit {0})) (t u : Tables)
    → SameKeys s t.modules
    → add_devices ds t ≡ ok u
    → SameKeys (device_addresses ds s) u.modules
unfolding add_devices device_addresses
add_devices-SameKeys [] s t u h e = ground arith
add_devices-SameKeys (d ∷ ds) s t u h e =
    let (t', one, rest) = >>=-eq-ok (add_device d t) (add_devices ds) e in
    add_devices-SameKeys ds _ t' u (add_device-SameKeys d s t t' h one) rest

add_floors-SameKeys :
    (fs : List Floor) (s : Dict ℤ (Unit {0})) (t u : Tables)
    → SameKeys s t.modules
    → add_floors fs t ≡ ok u
    → SameKeys (floor_addresses fs s) u.modules
unfolding add_floors floor_addresses
add_floors-SameKeys [] s t u h e = ground arith
add_floors-SameKeys (x ∷ fs) s t u h e =
    let (t', one, rest) = >>=-eq-ok (add_devices x.devices t) (add_floors fs) e in
    add_floors-SameKeys fs _ t' u (add_devices-SameKeys x.devices s t t' h one) rest

insert_by-pos :
    (a : ℕ) (bs : List ℕ) → insert_by ltb_ℤ (pos a) (map pos bs) ≡ map pos (insert_sorted a bs)
unfolding insert_sorted
insert_by-pos a [] = refl
insert_by-pos a (b ∷ bs) = ground (arith, insert_by-pos a bs)

sort_stable-keys : (m : Modules) → sort_stable ltb_ℤ (map pos (keys_of m)) ≡ map pos (sorted_keys m)
unfolding sorted_keys
sort_stable-keys [] = refl
sort_stable-keys ((a, cs) ∷ m) =
    ap (insert_by ltb_ℤ (pos a)) (sort_stable-keys m) ∙ insert_by-pos a (sorted_keys m)

-- Of a project from which New builds a controller, the probe reads exactly the modules that the
-- controller polls, in the same order.
pub pollable_module_addresses-new :
    (p : Project) (c : Config) (k : Controller)
    → new p c ≡ ok k
    → pollable_module_addresses p ≡ map pos k.module_addresses
unfolding pollable_module_addresses assemble
pollable_module_addresses-new p c k e =
    let (c', t, one, two, same) = new-assemble p c k e in
    let keys = add_floors-SameKeys p.floors [] no_tables t refl two in
    ap (sort_stable ltb_ℤ) keys
    ∙ sort_stable-keys t.modules
    ∙ ap (λ (x : Controller). map pos x.module_addresses) same
