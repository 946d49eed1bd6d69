-- ===== src/Project/Builder/Loops.antt =====
-- The loops of buildProject of bridge/internal/project/parser.go, and a property that each addition
-- of a device keeps.
use phcremote_control.Prelude.{
  ◌≡◌, refl, subst, Bool, true, false, ◌⊎◌, inl, inr, Option, none, some, List, [], ◌∷◌, arith,
  if◌then◌else◌, Bool-cases, Option-cases,
}
use phcremote_control.Prelude.Dict.{Dict, lookup}
use phcremote_control.Text.{Unicode}
use phcremote_control.Domain.{ChannelRef, Device, emd, amd, shutter, scene, button}
use phcremote_control.Project.Errors.{Result, ok, >>=-eq-ok, ok-same}
use phcremote_control.Project.Labels.{ChannelParts, parse_channel_parts, classify_output}
use phcremote_control.Project.Builder.{
  ProjectBuilder, new_project_builder, is_represented, emd_ref, add, Progress, add_output,
  add_outputs, add_represented, pair_motors, add_virtual, add_virtuals, add_button, add_buttons,
  add_actions, add_all,
}
use phcremote_control.Project.Channels.{
  is_shutter, is_output, is_input, is_virtual, device_for, ref_to,
}
use phcremote_control.Project.Channels.{RawChannel, ToolAction}
use phcremote_control.Project.Motors.{MotorKey, MotorChannel, motor_key}

-- A round of a loop adds nothing, or adds the device for the parts of a channel.
optional_round {ℓ} :
    {X : Type ℓ} (test : Bool) (found : Option ChannelParts) (f : ChannelParts → Result X)
    (x x' : X)
    → (if test then elim found [ none ↦ ok x | some parts ↦ f parts ] else ok x) ≡ ok x'
    → (x ≡ x') ⊎ ((parts : ChannelParts) × (f parts ≡ ok x'))
optional_round true none f x x' e = inl (ok-same e)
optional_round true (some parts) f x x' e = inr (parts, e)
optional_round false found f x x' e = inl (ok-same e)

abbrev parts_of : MotorKey → ChannelParts
parts_of key = record {
  sort_index = key.sort_index;
  floor = key.floor;
  category = key.category;
  label = key.label;
}

abbrev motor_device : MotorKey → MotorChannel → MotorChannel → Device
motor_device key lowered raised =
    device_for key.label shutter key.category (emd_ref lowered) (some (emd_ref raised))

abbrev action_parts : ToolAction → ChannelParts
action_parts a = record {
  sort_index = a.sort_index;
  floor = a.floor;
  category = a.category;
  label = a.name;
}

module _ (P : ProjectBuilder → Type 0)
    (keeps : (parts : ChannelParts) (d : Device) (b b' : ProjectBuilder)
      → d.id ≡ []
      → add parts d b ≡ ok b'
      → P b
      → P b') where
  keeps-add_represented :
      (parts : ChannelParts) (d : Device) (refs : List ChannelRef) (p p' : Progress)
      → d.id ≡ []
      → add_represented parts d refs p ≡ ok p'
      → P p.builder
      → P p'.builder
  unfolding add_represented
  keeps-add_represented parts d refs p p' blank e k =
      let (b, added, last) = >>=-eq-ok (add parts d p.builder) _ e in
      subst (λ (q : Progress). P q.builder) (ok-same last) (keeps parts d p.builder b blank added k)

  keeps-add_output :
      ⦃u : Unicode⦄ (channel : RawChannel) (parts : ChannelParts) (b b' : ProjectBuilder)
      → add_output channel parts b ≡ ok b'
      → P b
      → P b'
  unfolding add_output
  keeps-add_output channel parts b b' e k =
      elim (Bool-cases (is_shutter (classify_output parts.category))) [
        | inl motor ↦ subst P (ok-same (ground (arith, e, motor))) k
        | inr plain ↦
            let d =
              device_for parts.label (classify_output parts.category) parts.category
                (ref_to amd channel) none in
            let added : add parts d b ≡ ok b' = ground (arith, e, plain) in
            keeps parts d b b' refl added k
      ]

  keeps-add_outputs :
      ⦃u : Unicode⦄ (cs : List RawChannel) (b b' : ProjectBuilder)
      → add_outputs cs b ≡ ok b'
      → P b
      → P b'
  unfolding add_outputs
  keeps-add_outputs [] b b' e k = subst P (ok-same e) k
  keeps-add_outputs (c ∷ cs) b b' e k =
      let (mid, now, rest) = >>=-eq-ok _ (add_outputs cs) e in
      keeps-add_outputs cs mid b' rest
        (elim (optional_round (is_output c) (parse_channel_parts c.text)
          (λ parts. add_output c parts b) b mid now) [
            | inl same ↦ subst P same k
            | inr (parts, added) ↦ keeps-add_output c parts b mid added k
          ])

  abbrev Q : Progress → Type 0
  Q p = P p.builder

  keeps-same : (p p' : Progress) → Result.ok p ≡ ok p' → Q p → Q p'
  keeps-same p p' e k = subst Q (ok-same e) k

  keeps-pair_motors :
      (ups : Dict MotorKey MotorChannel) (downs : List (MotorKey × MotorChannel)) (p p' : Progress)
      → pair_motors ups downs p ≡ ok p'
      → Q p
      → Q p'
  unfolding pair_motors
  keeps-pair_motors ups [] p p' e k = subst Q (ok-same e) k
  keeps-pair_motors ups ((key, lowered) ∷ downs) p p' e k =
      let (mid, now, rest) = >>=-eq-ok _ (pair_motors ups downs) e in
      keeps-pair_motors ups downs mid p' rest (elim (Option-cases (lookup key ups)) [
        | inl alone ↦ keeps-same p mid (ground (arith, now, alone)) k
        | inr (raised, paired) ↦
            let added : add_represented (parts_of key) (motor_device key lowered raised)
                  (emd_ref lowered ∷ (emd_ref raised ∷ [])) p
                ≡ ok mid =
              ground (arith, now, paired) in
            keeps-add_represented _ _ _ p mid refl added k
      ])

  keeps-add_virtual :
      ⦃u : Unicode⦄ (channel : RawChannel) (parts : ChannelParts) (p p' : Progress)
      → add_virtual channel parts p ≡ ok p'
      → Q p
      → Q p'
  unfolding add_virtual
  keeps-add_virtual channel parts p p' e k =
      elim (Bool-cases (is_shutter (classify_output parts.category))) [
        | inl motor ↦ keeps-same p p' (ground (arith, e, motor)) k
        | inr plain ↦
            let ref = ref_to emd channel in
            let added : add_represented parts (device_for parts.label scene parts.category ref none)
                  (ref ∷ []) p
                ≡ ok p' =
              ground (arith, e, plain) in
            keeps-add_represented _ _ _ p p' refl added k
      ]

  keeps-add_virtuals :
      ⦃u : Unicode⦄ (cs : List RawChannel) (p p' : Progress)
      → add_virtuals cs p ≡ ok p'
      → Q p
      → Q p'
  unfolding add_virtuals
  keeps-add_virtuals [] p p' e k = subst Q (ok-same e) k
  keeps-add_virtuals (c ∷ cs) p p' e k =
      let (mid, now, rest) = >>=-eq-ok _ (add_virtuals cs) e in
      keeps-add_virtuals cs mid p' rest
        (elim (optional_round (is_virtual c) (parse_channel_parts c.text)
          (λ parts. add_virtual c parts p) p mid now) [
            | inl same ↦ subst Q same k
            | inr (parts, added) ↦ keeps-add_virtual c parts p mid added k
          ])

  keeps-add_button :
      (channel : RawChannel) (parts : ChannelParts) (p p' : Progress)
      → add_button channel parts p ≡ ok p'
      → Q p
      → Q p'
  unfolding add_button
  keeps-add_button channel parts p p' e k =
      elim (Bool-cases (is_represented (ref_to emd channel) p.represented)) [
        | inl known ↦ keeps-same p p' (ground (arith, e, known)) k
        | inr fresh ↦
            let ref = ref_to emd channel in
            let added : add_represented parts
                  (device_for parts.label button parts.category ref none) (ref ∷ []) p
                ≡ ok p' =
              ground (arith, e, fresh) in
            keeps-add_represented _ _ _ p p' refl added k
      ]

  keeps-add_buttons :
      (cs : List RawChannel) (p p' : Progress) → add_buttons cs p ≡ ok p' → Q p → Q p'
  unfolding add_buttons
  keeps-add_buttons [] p p' e k = subst Q (ok-same e) k
  keeps-add_buttons (c ∷ cs) p p' e k =
      let (mid, now, rest) = >>=-eq-ok _ (add_buttons cs) e in
      keeps-add_buttons cs mid p' rest
        (elim (optional_round (is_input c) (parse_channel_parts c.text)
          (λ parts. add_button c parts p) p mid now) [
            | inl same ↦ subst Q same k
            | inr (parts, added) ↦ keeps-add_button c parts p mid added k
          ])

  keeps-add_actions :
      (acts : List ToolAction) (p p' : Progress) → add_actions acts p ≡ ok p' → Q p → Q p'
  unfolding add_actions
  keeps-add_actions [] p p' e k = subst Q (ok-same e) k
  keeps-add_actions (a ∷ acts) p p' e k =
      let (mid, now, rest) = >>=-eq-ok _ (add_actions acts) e in
      keeps-add_actions acts mid p' rest (elim (Bool-cases (is_represented a.ref p.represented)) [
        | inl known ↦ keeps-same p mid (ground (arith, now, known)) k
        | inr fresh ↦
            let added : add_represented (action_parts a)
                  (device_for a.name scene a.category a.ref none) [] p
                ≡ ok mid =
              ground (arith, now, fresh) in
            keeps-add_represented _ _ _ p mid refl added k
      ])

  pub keeps-add_all :
      ⦃u : Unicode⦄ (range : Dict MotorKey MotorChannel → List (MotorKey × MotorChannel))
      (channels : List RawChannel) (actions : List ToolAction) (p : Progress)
      → add_all range channels actions ≡ ok p
      → P new_project_builder
      → P p.builder
  unfolding add_all
  keeps-add_all range channels actions p e k =
      let (four, e4, last) = >>=-eq-ok _ (add_actions actions) e in
      let (three, e3, buttons) = >>=-eq-ok _ (add_buttons channels) e4 in
      let (two, e2, virtuals) = >>=-eq-ok _ (add_virtuals channels) e3 in
      let (one, outputs, motors) = >>=-eq-ok (add_outputs channels new_project_builder) _ e2 in
      keeps-add_actions actions four p last (
        keeps-add_buttons channels three four buttons (
          keeps-add_virtuals channels two three virtuals
            (keeps-pair_motors _ _ _ two motors (keeps-add_outputs channels _ one outputs k))))
