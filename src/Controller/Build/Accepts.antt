-- ===== src/Controller/Build/Accepts.antt =====
-- New of bridge/internal/controller/controller.go: the projects that it accepts.
use phcremote_control.Prelude.{
  ℕ, ◌+◌, ◌≤◌, ◌≡◌, ◌≢◌, refl, ◌∙◌, true, inl, inr, none, List, [], ◌∷◌, arith, All, Bool-cases,
}
use phcremote_control.Prelude.Dict.{Dict, lookup, insert, lookup-insert}
use phcremote_control.Text.{Text, text_key, ==ₜ_iff}
use phcremote_control.Domain.{Device, Floor, Project}
use phcremote_control.Domain.Counts.{is_id, count_ids, count_floors}
use phcremote_control.Controller.Types.{
  ok, Result-cases, is_ok, Config, normalized, is_amd, amd_bus_address,
}
use phcremote_control.Controller.Build.{
  Tables, no_tables, add_output, add_device, add_devices, add_floors, Controller, assemble, new,
}

-- The identity is there, and an output has a bus address.
pub record IsAcceptable (d : Device) : Type 0 where
  pub id : d.id ≢ []
  pub address : is_amd d.ref.module_class ≡ true → is_ok (amd_bus_address d.ref) ≡ true

-- The tables after a device: it was not there, and the others are as they were.
abbrev Adds : Device → Tables → Tables → Type 0
Adds d t t' =
    (add_device d t ≡ ok t')
    × ((i : Text) → is_id i d ≡ 0 → lookup i t'.devices ≡ lookup i t.devices)

others-insert :
    (d : Device) (m : Dict Text Device) (i : Text)
    → is_id i d ≡ 0
    → lookup i (insert d.id d m) ≡ lookup i m
others-insert d m i h = ground (arith, h, lookup-insert d.id i d m, ==ₜ_iff d.id i)

add_device-Adds :
    (d : Device) (t : Tables)
    → IsAcceptable d
    → lookup d.id t.devices ≡ none
    → (t' : Tables) × Adds d t t'
unfolding add_device add_output
add_device-Adds d t a fresh = elim (Bool-cases (is_amd d.ref.module_class)) [
  | inr input ↦ (
    record t { devices = insert d.id d t.devices },
    (ground (arith, a, fresh, input), others-insert d t.devices),
  )
  | inl output ↦ elim (Result-cases (amd_bus_address d.ref)) [
    | inl (address, e) ↦ (
      add_output d address (record t { devices = insert d.id d t.devices }),
      (ground (arith, a, fresh, output, e), others-insert d t.devices),
    )
    | inr (x, e) ↦ absurd (ground (arith, a, output, e))
  ]
]

-- The devices are not in the tables yet, and no two have the same identity.
record AreFresh (count : Text → ℕ) (t : Tables) : Type 0 where
  once : (i : Text) → count i ≤ 1
  absent : (i : Text) → 1 ≤ count i → lookup i t.devices ≡ none

own_id : (d : Device) → is_id d.id d ≡ 1
own_id d = ground (arith, ==ₜ_iff d.id d.id)

-- What is left after the devices that `added` counts.
after-AreFresh :
    (added rest : Text → ℕ) (t t' : Tables)
    → ((i : Text) → added i ≡ 0 → lookup i t'.devices ≡ lookup i t.devices)
    → AreFresh (λ i. added i + rest i) t
    → AreFresh rest t'
after-AreFresh added rest t t' keep f = record {
  once = λ i. omega (arith, f.once i);
  absent = λ i h. keep i (omega (arith, f.once i)) ∙ f.absent i (omega (arith, f.once i));
}

add_devices-accepts :
    (ds : List Device) (rest : Text → ℕ) (t : Tables)
    → All IsAcceptable ds
    → AreFresh (λ i. count_ids i ds + rest i) t
    → (t' : Tables) × (add_devices ds t ≡ ok t') × AreFresh rest t'
unfolding add_devices
add_devices-accepts [] rest t a f = (
  t,
  refl,
  record { once = λ i. omega (arith, f.once i); absent = λ i h. f.absent i (omega (arith, h)) },
)
add_devices-accepts (d ∷ ds) rest t a f =
    let own = own_id d in
    let (t', adds) = add_device-Adds d t a.0 (f.absent d.id (omega (arith, own))) in
    let (one, keep) = adds in
    let later : AreFresh (λ i. count_ids i ds + rest i) t' =
      after-AreFresh (λ i. is_id i d) (λ i. count_ids i ds + rest i) t t' keep
        (record {
          once = λ i. omega (arith, f.once i);
          absent = λ i h. f.absent i (omega (arith, h));
        }) in
    let (t'', all, fresh) = add_devices-accepts ds rest t' a.1 later in
    (t'', ground (arith, one, all), fresh)

add_floors-accepts :
    (fs : List Floor) (t : Tables)
    → All (λ f. All IsAcceptable f.devices) fs
    → AreFresh (λ i. count_floors i fs) t
    → (t' : Tables) × (add_floors fs t ≡ ok t')
unfolding add_floors
add_floors-accepts [] t a f = (t, refl)
add_floors-accepts (x ∷ fs) t a f =
    let (t', one, later) = add_devices-accepts x.devices (λ i. count_floors i fs) t a.0 f in
    let (t'', all) = add_floors-accepts fs t' a.1 later in (t'', ground (arith, one, all))

-- With an accepted configuration, New builds a controller for each project whose devices have
-- identities of their own, and whose outputs have bus addresses.
pub new-accepts :
    (p : Project) (c c' : Config)
    → normalized c ≡ ok c'
    → All (λ f. All IsAcceptable f.devices) p.floors
    → ((i : Text) → count_floors i p.floors ≤ 1)
    → (k : Controller) × (new p c ≡ ok k)
unfolding new
new-accepts p c c' e a once =
    let (t, built) =
      add_floors-accepts p.floors no_tables a
        (record { once = once; absent = λ i h. unfold lookup in refl }) in
    (assemble p c' t, ground (arith, e, built))
