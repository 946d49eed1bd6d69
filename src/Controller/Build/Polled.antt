-- ===== src/Controller/Build/Polled.antt =====
-- New of bridge/internal/controller/controller.go: the modules that are polled.
use phcremote_control.Prelude.{
  ℕ, ◌≡◌, ◌≢◌, refl, sym, subst, if◌then◌else◌, ◌==◌, ==_iff, ◌⊎◌, inl, inr, none, some, false,
  List, [], ◌∷◌, ◌++◌, arith, All, All-append, All-mono, Bool-cases,
}
use phcremote_control.Prelude.Dict.{
  Dict, nat_key, lookup, insert, lookup-insert, lookup-insert_self,
}
use phcremote_control.Text.{Text, text_key, ==ₜ_iff}
use phcremote_control.Domain.{Device, Floor, Project}
use phcremote_control.Controller.Types.{
  Result-cases, ok, >>=-eq-ok, Config, PolledChannel, is_amd, amd_bus_address,
}
use phcremote_control.Controller.State.{polled}
use phcremote_control.Controller.State.Power.{Distinct}
use phcremote_control.Controller.Build.{
  Tables, no_tables, add_output, add_device, add_devices, add_floors, Controller, assemble, new,
  new-assemble,
}

-- The polled channel is one of a device with that address.
abbrev pub BelongsTo : Dict Text Device → ℕ → PolledChannel → Type 0
BelongsTo devices address c =
    (d : Device) × (lookup c.device_id devices ≡ some d)
    × (d.id ≡ c.device_id)
    × (amd_bus_address d.ref ≡ ok address)
    × (d.ref.channel ≡ c.channel)

-- At each address no device is polled twice, and what is polled belongs to it.
pub record Fits (t : Tables) : Type 0 where
  pub distinct : (address : ℕ) → Distinct (polled t.modules address)
  pub belong : (address : ℕ) → All (BelongsTo t.devices address) (polled t.modules address)

Distinct-append :
    (cs : List PolledChannel) (c : PolledChannel)
    → Distinct cs
    → All (λ x. x.device_id ≢ c.device_id) cs
    → Distinct (cs ++ c ∷ [])
Distinct-append [] c d h = (tt, tt)
Distinct-append (x ∷ cs) c d h =
    (All-append _ cs (c ∷ []) d.0 (λ e. h.0 (sym e), tt), Distinct-append cs c d.1 h.1)

polled-insert :
    (a b : ℕ) (cs : List PolledChannel) (m : Dict ℕ (List PolledChannel))
    → polled (insert a cs m) b ≡ (if a == b then cs else polled m b)
unfolding polled
polled-insert a b cs m = ground (arith, lookup-insert a b cs m)

module _ (d : Device) (t : Tables) where
  abbrev pub with_device : Tables
  with_device = record t { devices = insert d.id d t.devices }

  abbrev pub Added : Tables → Type 0
  Added u =
      ((is_amd d.ref.module_class ≡ false) × (u ≡ with_device))
      ⊎ ((a : ℕ) × (amd_bus_address d.ref ≡ ok a) × (u ≡ add_output d a with_device))

  pub add_device-Added :
      (u : Tables) → add_device d t ≡ ok u → (lookup d.id t.devices ≡ none) × Added u
  unfolding add_device
  add_device-Added u e = elim (Result-cases (amd_bus_address d.ref)) [
    | inl (a, f) ↦ elim (Bool-cases (is_amd d.ref.module_class)) [
      | inl here ↦ (ground arith, inr (a, f, ground arith))
      | inr other ↦ (ground arith, inl (other, ground arith))
    ]
    | inr (x, f) ↦ (ground arith, inl (ground arith, ground arith))
  ]

  module _ (fresh : lookup d.id t.devices ≡ none) where
    BelongsTo-new :
        (a : ℕ) (c : PolledChannel)
        → BelongsTo t.devices a c
        → BelongsTo (insert d.id d t.devices) a c
    BelongsTo-new a c (x, found, same, address, channel) = (
      x,
      ground (arith, lookup-insert d.id c.device_id d t.devices, ==ₜ_iff d.id c.device_id),
      same,
      address,
      channel,
    )

    not_polled : (a : ℕ) (c : PolledChannel) → BelongsTo t.devices a c → c.device_id ≢ d.id
    not_polled a c (x, found, same, address, channel) e = ground (arith)

    with_device-Fits : Fits t → Fits with_device
    with_device-Fits f = record {
      distinct = f.distinct;
      belong = λ a. All-mono (BelongsTo-new a) _ (f.belong a);
    }

    add_output-Fits :
        (a : ℕ) → amd_bus_address d.ref ≡ ok a → Fits t → Fits (add_output d a with_device)
    unfolding add_output
    add_output-Fits a e f =
        let g = with_device-Fits f in
        let c : PolledChannel = record { device_id = d.id; channel = d.ref.channel } in
        record {
          distinct = λ b. elim (Bool-cases (a == b)) [
            | inl hit ↦
                rw (polled-insert a b _ t.modules, hit)
                  (Distinct-append _ c (f.distinct a) (All-mono (not_polled a) _ (f.belong a)))
            | inr miss ↦ rw (polled-insert a b _ t.modules, miss) (f.distinct b)
          ];
          belong = λ b. elim (Bool-cases (a == b)) [
            | inl hit ↦
                rw (polled-insert a b _ t.modules, hit)
                  (subst (λ x. All (BelongsTo with_device.devices x) (polled t.modules a ++ c ∷ []))
                    ((==_iff a b).0 hit)
                    (All-append _ (polled t.modules a) (c ∷ []) (g.belong a)
                      ((d, lookup-insert_self d.id d t.devices, refl, e, refl), tt)))
            | inr miss ↦ rw (polled-insert a b _ t.modules, miss) (g.belong b)
          ];
        }

  add_device-Fits : (u : Tables) → Fits t → add_device d t ≡ ok u → Fits u
  add_device-Fits u f e =
      let (fresh, added) = add_device-Added u e in
      elim added [
        | inl (_, same) ↦ rw same (with_device-Fits fresh f)
        | inr (a, address, same) ↦ rw same (add_output-Fits fresh a address f)
      ]

add_devices-Fits : (ds : List Device) (t u : Tables) → Fits t → add_devices ds t ≡ ok u → Fits u
unfolding add_devices
add_devices-Fits [] t u f e = ground arith
add_devices-Fits (d ∷ ds) t u f e =
    let (t', one, rest) = >>=-eq-ok (add_device d t) (add_devices ds) e in
    add_devices-Fits ds t' u (add_device-Fits d t t' f one) rest

add_floors-Fits : (fs : List Floor) (t u : Tables) → Fits t → add_floors fs t ≡ ok u → Fits u
unfolding add_floors
add_floors-Fits [] t u f e = ground arith
add_floors-Fits (x ∷ fs) t u f e =
    let (t', one, rest) = >>=-eq-ok (add_devices x.devices t) (add_floors fs) e in
    add_floors-Fits fs t' u (add_devices-Fits x.devices t t' f one) rest

no_tables-Fits : Fits no_tables
unfolding polled lookup
no_tables-Fits = record { distinct = λ a. tt; belong = λ a. tt }

-- A controller that was built polls no device twice at an address, and each polled channel is that of
-- a device of the controller with that bus address.
pub new-polled :
    (p : Project) (c : Config) (k : Controller)
    → new p c ≡ ok k
    → (address : ℕ)
    → Distinct (polled k.modules address)
      × All (BelongsTo k.devices address) (polled k.modules address)
unfolding assemble
new-polled p c k e address =
    let (c', t, one, two, same) = new-assemble p c k e in
    let f = add_floors-Fits p.floors no_tables t no_tables-Fits two in
    subst
      (λ x.
        Distinct (polled x.modules address)
        × All (BelongsTo x.devices address) (polled x.modules address))
      same (f.distinct address, f.belong address)
