-- ===== src/Controller/Polling/Reads.antt =====
-- pollModule of bridge/internal/controller/polling.go: what a reading leaves in the state.
use phcremote_control.Prelude.{
  ℕ, ◌≡◌, ◌≢◌, ◌⊎◌, inl, inr, refl, sym, ap, subst, length, All-mono, ◌∙◌, Option, none, some, List,
  [], ◌∷◌, arith, All,
}
use phcremote_control.Prelude.Int.{ℤ}
use phcremote_control.Prelude.Dict.{lookup}
use phcremote_control.Text.{Text, text_key}
use phcremote_control.Controller.Types.{
  Error, bad_reply_length, Result, ok, err, connected, PolledChannel, PowerState,
}
use phcremote_control.Controller.Commands.{StmClient}
use phcremote_control.Controller.State.{
  State, record_connected, power_at, polled, set_power, update_channels, update_module_state,
}
use phcremote_control.Controller.State.Masks.{HasPower, power_at-HasPower}
use phcremote_control.Controller.State.Power.{Distinct, update_members}
use phcremote_control.Controller.Build.{Controller}
use phcremote_control.Controller.Run.{Turn, runs, refuses, abandons, scheduled, apply}
use phcremote_control.Controller.Run.Outcomes.{
  AfterError, note_error-AfterError, record_connected-connection,
}
use phcremote_control.Controller.Polling.{
  mask_of, then_mask, read_module, note_reading, poll_module,
}

set_power-connection :
    (id : Text) (p : PowerState) (s : State)
    → ((set_power id p s).0.connection ≡ s.connection) × ((set_power id p s).0.stale ≡ s.stale)
unfolding set_power
set_power-connection id p s = ground arith

update_channels-connection :
    (mask : ℤ) (cs : List PolledChannel) (s : State)
    → ((update_channels mask cs s).0.connection ≡ s.connection)
      × ((update_channels mask cs s).0.stale ≡ s.stale)
unfolding update_channels
update_channels-connection mask [] s = (refl, refl)
update_channels-connection mask (c ∷ cs) s =
    let p = power_at mask c.channel in
    ground (
      arith,
      set_power-connection c.device_id p s,
      update_channels-connection mask cs (set_power c.device_id p s).0,
    )

record_connected-stale : (s : State) → (record_connected s).0.stale ≡ s.stale
unfolding record_connected
record_connected-stale s = ground arith

-- Where a telegram's reply fails: with the telegram's own error, or with that of its length.
abbrev IsFault : Result (List ℤ) → Error → Type 0
IsFault (err y) x = x ≡ y
IsFault (ok reply) x = (length reply ≢ 5) × (x ≡ bad_reply_length (length reply))

-- After a reply of five values the state is connected, each device of the module has the power of its
-- bit in the fifth, and staleness is as it was; any other answer is an error, which leaves what it
-- leaves after a command.
abbrev pub Reading :
    {W : Type 0} → ℕ → Controller → Result (List ℤ) × W → Option Error × Controller × W → Type 0
Reading a c (reply, w') (e, c', w'') =
    (w'' ≡ w')
    × (((h : ℤ) × (i : ℤ) × (j : ℤ) × (k : ℤ) × (mask : ℤ) × (reply
            ≡ ok (h ∷ (i ∷ (j ∷ (k ∷ (mask ∷ []))))))
          × (e ≡ none)
          × (c'.state.connection ≡ connected)
          × (c'.state.stale ≡ c.state.stale)
          × All
              (λ x.
                (p : PowerState) × (HasPower mask x.channel p)
                × (lookup x.device_id c'.state.states ≡ some p))
              (polled c.modules a))
        ⊎ ((x : Error) × (IsFault reply x) × (e ≡ some x) × AfterError x c c'))

-- What a reply is, and what is taken from it.
Reply-cases :
    (reply : List ℤ)
    → ((h : ℤ) × (i : ℤ) × (j : ℤ) × (k : ℤ) × (mask : ℤ) × (reply
          ≡ h ∷ (i ∷ (j ∷ (k ∷ (mask ∷ [])))))
        × (mask_of reply ≡ ok mask))
      ⊎ ((length reply ≢ 5) × (mask_of reply ≡ err (bad_reply_length (length reply))))
unfolding mask_of
Reply-cases [] = inr (ground arith, refl)
Reply-cases (h ∷ []) = inr (ground arith, refl)
Reply-cases (h ∷ (i ∷ [])) = inr (ground arith, refl)
Reply-cases (h ∷ (i ∷ (j ∷ []))) = inr (ground arith, refl)
Reply-cases (h ∷ (i ∷ (j ∷ (k ∷ [])))) = inr (ground arith, refl)
Reply-cases (h ∷ (i ∷ (j ∷ (k ∷ (mask ∷ []))))) = inl (h, i, j, k, mask, refl, refl)
Reply-cases (h ∷ (i ∷ (j ∷ (k ∷ (mask ∷ (l ∷ more)))))) = inr (ground arith, refl)

module _ {W : Type 0} (client : StmClient W) where
  -- The telegram of a poll, as the scheduler answers it.
  abbrev pub telegram : Turn → ℕ → W → Result (List ℤ) × W
  telegram turn a w = scheduled turn (client.send_telegram 0 a 1) w

  abbrev masked : Result (List ℤ) × W → Result ℤ × W
  masked (ok reply, w) = (mask_of reply, w)
  masked (err e, w) = (err e, w)

  then_mask-masked : (r : Result (List ℤ) × W) → then_mask r ≡ masked r
  unfolding then_mask
  then_mask-masked (ok reply, w) = refl
  then_mask-masked (err e, w) = refl

  masked-world : (r : Result (List ℤ) × W) → (masked r).1 ≡ r.1
  masked-world (ok reply, w) = refl
  masked-world (err e, w) = refl

  masked-read : (a : ℕ) (w : W) → read_module client a w ≡ masked (client.send_telegram 0 a 1 w)
  unfolding read_module
  masked-read a w = then_mask-masked (client.send_telegram 0 a 1 w)

  scheduled-masked :
      (turn : Turn) (a : ℕ) (w : W)
      → scheduled turn (read_module client a) w ≡ masked (telegram turn a w)
  unfolding scheduled
  scheduled-masked runs a w = masked-read a w
  scheduled-masked (refuses e) a w = refl
  scheduled-masked (abandons e) a w =
      ap (λ r. (err e, r.1)) (masked-read a w)
      ∙ ap (λ v. (err e, v)) (masked-world (client.send_telegram 0 a 1 w))

  note_mask :
      (a : ℕ) (c : Controller) (mask : ℤ)
      → Distinct (polled c.modules a)
      → let (e, c') = note_reading a (ok mask) c in
        (e ≡ none)
        × (c'.state.connection ≡ connected)
        × (c'.state.stale ≡ c.state.stale)
        × All
            (λ x.
              (p : PowerState) × (HasPower mask x.channel p)
              × (lookup x.device_id c'.state.states ≡ some p))
            (polled c.modules a)
  unfolding note_reading apply update_module_state
  note_mask a c mask d =
      let s = (record_connected c.state).0 in
      let (same, stale) = update_channels-connection mask (polled c.modules a) s in
      (
        refl,
        same ∙ record_connected-connection c.state,
        stale ∙ record_connected-stale c.state,
        All-mono (λ x e. (power_at mask x.channel, power_at-HasPower mask x.channel, e)) _
            (update_members mask (polled c.modules a) s d),
      )

  note_fault :
      (a : ℕ) (c : Controller) (x : Error)
      → let (e, c') = note_reading a (err x) c in (e ≡ some x) × AfterError x c c'
  unfolding note_reading
  note_fault a c x = (refl, note_error-AfterError x c)

  note_reading-Reading :
      (a : ℕ) (c : Controller)
      → Distinct (polled c.modules a)
      → (r : Result (List ℤ) × W)
      → let (answer, w') = masked r in
        let (e, c') = note_reading a answer c in Reading a c r (e, c', w')
  note_reading-Reading a c d (err x, w') =
      let (failed, after) = note_fault a c x in (refl, inr (x, refl, failed, after))
  note_reading-Reading a c d (ok reply, w') = elim (Reply-cases reply) [
    | inl (h, i, j, k, mask, shape, got) ↦
        let five : ok reply ≡ ok (h ∷ (i ∷ (j ∷ (k ∷ (mask ∷ []))))) = ap ok shape in
        let (none_failed, linked, stale, powers) = note_mask a c mask d in
        rw got (refl, inl (h, i, j, k, mask, five, none_failed, linked, stale, powers))
    | inr (wrong, got) ↦
        let x = bad_reply_length (length reply) in
        let (failed, after) = note_fault a c x in
        rw got (refl, inr (x, (wrong, refl), failed, after))
  ]

  -- The outcome of a poll of a module whose devices are distinct: it sends the telegram with content 1
  -- to the module. If the scheduler answers with a reply of five values, the state is connected, each
  -- device has the power of its bit in the fifth, and staleness is as it was. Any other answer is an
  -- error, of the telegram or of the reply's length, which comes back and leaves what it leaves after a
  -- command.
  pub poll_module-Reading :
      (turn : Turn) (a : ℕ) (c : Controller) (w : W)
      → Distinct (polled c.modules a)
      → Reading a c (telegram turn a w) (poll_module client turn a c w)
  unfolding poll_module
  poll_module-Reading turn a c w d =
      subst
        (λ (r : Result ℤ × W).
          Reading a c (telegram turn a w) (let (e, c') = note_reading a r.0 c in (e, c', r.1)))
        (sym (scheduled-masked turn a w)) (note_reading-Reading a c d (telegram turn a w))
