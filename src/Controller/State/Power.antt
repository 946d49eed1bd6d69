-- ===== src/Controller/State/Power.antt =====
-- updateModuleState of bridge/internal/controller/events.go: a module's reply and its devices.
use phcremote_control.Prelude.{
  ◌≡◌, ◌≢◌, refl, sym, ap, ◌∙◌, subst, inl, inr, Bool-cases, some, List, [], ◌∷◌, ◌++◌, arith, All,
  if◌then◌else◌,
}
use phcremote_control.Prelude.Int.{ℤ}
use phcremote_control.Prelude.Dict.{Dict, lookup, lookup-insert}
use phcremote_control.Text.{Text, text_key, ==ₜ_iff}
use phcremote_control.Controller.Types.{PowerState, Event, state, PolledChannel}
use phcremote_control.Controller.State.Masks.{HasPower, power_at-HasPower, already-same}
use phcremote_control.Controller.State.{State, already, set_power, power_at, update_channels}

set_power-lookup :
    (id j : Text) (p : PowerState) (s : State)
    → lookup j (set_power id p s).0.states
      ≡ (if text_key.beq id j then some p else lookup j s.states)
unfolding set_power
set_power-lookup id j p s = ground (arith, lookup-insert id j p s.states, ==ₜ_iff id j)

-- What the state events of a list say.
abbrev pub told : List Event → List (Text × PowerState)
told [] = []
told (state r id p ∷ es) = (id, p) ∷ told es
told (_ ∷ es) = told es

told-append : (xs ys : List Event) → told (xs ++ ys) ≡ told xs ++ told ys
told-append [] ys = refl
told-append (state r id p ∷ xs) ys = ap (◌∷◌ (id, p)) (told-append xs ys)
told-append (_ ∷ xs) ys = told-append xs ys

told-set_power :
    (id : Text) (p : PowerState) (s : State)
    → told (set_power id p s).1 ≡ (if already (lookup id s.states) p then [] else (id, p) ∷ [])
unfolding set_power
told-set_power id p s = ground arith

abbrev Elsewhere : Text → List PolledChannel → Type 0
Elsewhere j = All (λ c. c.device_id ≢ j)

-- No device is read twice.
abbrev pub Distinct : List PolledChannel → Type 0
Distinct [] = Unit
Distinct (c ∷ cs) = Elsewhere c.device_id cs × Distinct cs

module _ (bitmask : ℤ) where
  pub update_others :
      (j : Text) (cs : List PolledChannel) (s : State)
      → Elsewhere j cs
      → lookup j (update_channels bitmask cs s).0.states ≡ lookup j s.states
  unfolding update_channels
  update_others j [] s h = refl
  update_others j (c ∷ cs) s h =
      let p = power_at bitmask c.channel in
      let t = (set_power c.device_id p s).0 in
      ground
        (arith, update_others j cs t h.1, set_power-lookup c.device_id j p s, ==ₜ_iff c.device_id j)

  -- If the channels of a module are distinct devices, each has the power of its bit after a reply.
  pub update_members :
      (cs : List PolledChannel) (s : State)
      → Distinct cs
      → All
          (λ c.
            lookup c.device_id (update_channels bitmask cs s).0.states
            ≡ some (power_at bitmask c.channel))
          cs
  unfolding update_channels
  update_members [] s d = tt
  update_members (c ∷ cs) s d =
      let p = power_at bitmask c.channel in
      let t = (set_power c.device_id p s).0 in
      (
        ground (
          arith,
          update_others c.device_id cs t d.0,
          set_power-lookup c.device_id c.device_id p s,
          ==ₜ_iff c.device_id c.device_id,
        ),
        update_members cs t d.1,
      )

  -- What a reply tells, from the states before it: each device of the module in turn, with the power
  -- of its bit, unless it had that power.
  pub data Tells (m : Dict Text PowerState)
      : List PolledChannel → List (Text × PowerState) → Type 0 where
    ends : Tells m [] []
    skips :
        {c : PolledChannel} {cs : List PolledChannel} {es : List (Text × PowerState)}
        (p : PowerState)
        → HasPower bitmask c.channel p
        → lookup c.device_id m ≡ some p
        → Tells m cs es
        → Tells m (c ∷ cs) es
    tells :
        {c : PolledChannel} {cs : List PolledChannel} {es : List (Text × PowerState)}
        (p : PowerState)
        → HasPower bitmask c.channel p
        → lookup c.device_id m ≢ some p
        → Tells m cs es
        → Tells m (c ∷ cs) ((c.device_id, p) ∷ es)

  -- The devices of these channels have the states that they have in the dictionary.
  abbrev Agrees : Dict Text PowerState → State → List PolledChannel → Type 0
  Agrees m s = All (λ c. lookup c.device_id s.states ≡ lookup c.device_id m)

  Agrees-set_power :
      (m : Dict Text PowerState) (id : Text) (p : PowerState) (s : State) (cs : List PolledChannel)
      → Elsewhere id cs
      → Agrees m s cs
      → Agrees m (set_power id p s).0 cs
  Agrees-set_power m id p s [] h g = tt
  Agrees-set_power m id p s (c ∷ cs) h g = (
    ground (arith, h, g, set_power-lookup id c.device_id p s, ==ₜ_iff id c.device_id),
    Agrees-set_power m id p s cs h.1 g.1,
  )

  Agrees-all : (s : State) (cs : List PolledChannel) → Agrees s.states s cs
  Agrees-all s [] = tt
  Agrees-all s (c ∷ cs) = (refl, Agrees-all s cs)

  told-Tells :
      (m : Dict Text PowerState) (cs : List PolledChannel) (s : State)
      → Distinct cs
      → Agrees m s cs
      → Tells m cs (told (update_channels bitmask cs s).1)
  unfolding update_channels
  told-Tells m [] s d g = ends
  told-Tells m (c ∷ cs) s d g =
      let p = power_at bitmask c.channel in
      let r = set_power c.device_id p s in
      let rest = told (update_channels bitmask cs r.0).1 in
      let more = told-Tells m cs r.0 d.1 (Agrees-set_power m c.device_id p s cs d.0 g.1) in
      let bit = power_at-HasPower bitmask c.channel in
      let now = told-set_power c.device_id p s in
      let whole = told-append r.1 (update_channels bitmask cs r.0).1 in
      elim (Bool-cases (already (lookup c.device_id s.states) p)) [
        | inl same ↦
            subst (Tells m (c ∷ cs)) (sym (whole ∙ ground (arith, now, same)))
              (skips p bit (sym g.0 ∙ (already-same _ p).0 same) more)
        | inr other ↦ subst (Tells m (c ∷ cs)) (sym (whole ∙ ground (arith, now, other))) (
            tells p bit
              (λ e.
                absurd (ground (arith, already-same (lookup c.device_id s.states) p, e, g, other)))
              more)
      ]

  -- If the channels of a module are distinct devices, the state events of a reply are one for each
  -- device whose power before the reply is not that of its bit in the mask, in the order of the
  -- module, with the power of that bit.
  pub told-update :
      (cs : List PolledChannel) (s : State)
      → Distinct cs
      → Tells s.states cs (told (update_channels bitmask cs s).1)
  told-update cs s d = told-Tells s.states cs s d (Agrees-all s cs)
