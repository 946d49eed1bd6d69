-- ===== src/Controller/Polling.antt =====
-- bridge/internal/controller/polling.go: reading the modules, and the loop that decides when.
pub mod Reads
use phcremote_control.Prelude.{
  ℕ, Bool, true, false, not, ◌&&◌, ◌||◌, Option, none, some, List, [], ◌∷◌, length, ◌==◌,
  if◌then◌else◌,
}
use phcremote_control.Prelude.Int.{ℤ, pos, ltb_ℤ}
use phcremote_control.Prelude.Dict.{Dict}
use phcremote_control.Controller.Types.{Error, bad_reply_length, Result, ok, err}
use phcremote_control.Controller.Commands.{StmClient}
use phcremote_control.Controller.State.{set_stale, record_connected, update_module_state}
use phcremote_control.Controller.Subscribers.{Subscriber}
use phcremote_control.Controller.Build.{Controller}
use phcremote_control.Controller.Run.{Turn, scheduled, apply, note_error}

-- A reply has five values, and the last one is the bit mask of the outputs.
unfoldable pub mask_of : List ℤ → Result ℤ
mask_of (a ∷ (b ∷ (c ∷ (d ∷ (mask ∷ []))))) = ok mask
mask_of reply = err (bad_reply_length (length reply))

then_mask : {W : Type 0} → Result (List ℤ) × W → Result ℤ × W
then_mask (ok reply, w) = (mask_of reply, w)
then_mask (err e, w) = (err e, w)

-- The operation of a module poll: the telegram with content 1.
unfoldable pub read_module : {W : Type 0} → StmClient W → ℕ → W → Result ℤ × W
unfolding then_mask
read_module client address w = then_mask (client.send_telegram 0 address 1 w)

unfoldable pub note_reading : ℕ → Result ℤ → Controller → Option Error × Controller
note_reading address (err e) c = (some e, note_error e c)
note_reading address (ok mask) c =
    (none, apply (update_module_state c.modules address mask) (apply record_connected c))

module _ {W : Type 0} (client : StmClient W) where
  -- The error of pollModule, if any.
  unfoldable pub poll_module : Turn → ℕ → Controller → W → Option Error × Controller × W
  poll_module turn address c w =
      let (answer, w') = scheduled turn (read_module client address) w in
      let (e, c') = note_reading address answer c in (e, c', w')

  -- The loop of pollSweep, with the scheduler's turn for each address: `none` where the controller
  -- is already closed. Whether all modules answered comes back too; `none` after an early return.
  unfoldable pub sweep_from :
      (ℕ → Option Turn) → List ℕ → Controller → W → Option Bool × Controller × W
  sweep_from turns [] c w = (some true, c, w)
  sweep_from turns (a ∷ as') c w = elim (turns a) [
    | none ↦ (none, c, w)
    | some turn ↦
        let (e, c', w') = poll_module turn a c w in
        let rest = sweep_from turns as' c' w' in
        elim e [ some x ↦ (some false, c', w') | none ↦ rest ]
  ]

  unfoldable pub finish_sweep : Option Bool × Controller × W → Controller × W
  finish_sweep (some true, c, w) = (apply (set_stale false) c, w)
  finish_sweep (some false, c, w) = (c, w)
  finish_sweep (none, c, w) = (c, w)

  unfoldable pub poll_sweep : (ℕ → Option Turn) → Controller → W → Controller × W
  unfolding finish_sweep
  poll_sweep turns c w = finish_sweep (sweep_from turns c.module_addresses c w)

-- The loop's variables. A timer is armed from its reset until its tick is taken or it is stopped.
pub record Loop : Type 0 where
  pub active : Bool
  pub seen_epoch : ℕ
  pub poll_timer : Bool
  pub grace_timer : Bool
  pub health_timer : Bool

is_nil : List ℕ → Bool
is_nil [] = true
is_nil (a ∷ as') = false

-- idleHealth
unfoldable pub idle_health : Controller → Bool
unfolding is_nil
idle_health c = ltb_ℤ (pos 0) c.config.idle_health_interval && not (is_nil c.module_addresses)

unfoldable pub start_loop : Controller → Loop
start_loop c = record {
  active = false;
  seen_epoch = 0;
  poll_timer = false;
  grace_timer = false;
  health_timer = idle_health c;
}

-- The controller, its loop and the STM.
pub record System (W : Type 0) : Type 0 where
  pub controller : Controller
  pub loop : Loop
  pub world : W

abbrev pub has_subscribers : Dict ℕ Subscriber → Bool
has_subscribers [] = false
has_subscribers (x ∷ m) = true

module _ {W : Type 0} (client : StmClient W) where
  sweep_now : (ℕ → Option Turn) → System W → System W
  sweep_now turns s =
      let (c, w) = poll_sweep client turns s.controller s.world in
      record s { controller = c; world = w }

  -- A new epoch: sweep at once and start the poll timer.
  activate : (ℕ → Option Turn) → System W → System W
  unfolding sweep_now
  activate turns s =
      let s' = sweep_now turns s in
      record s' {
        loop = record s'.loop {
          seen_epoch = s.controller.subscribers.epoch;
          active = true;
          grace_timer = false;
          health_timer = false;
          poll_timer = true;
        };
      }

  take_wake : System W → System W
  take_wake s = record s { controller = record s.controller { poll_wake = false } }

  -- case <-c.pollWake
  unfoldable pub on_wake : (ℕ → Option Turn) → System W → System W
  unfolding activate take_wake
  on_wake turns s =
      let t = take_wake s in
      let subs = s.controller.subscribers in
      if has_subscribers subs.entries
      then if subs.epoch == s.loop.seen_epoch
        then record t { loop = record s.loop { grace_timer = false } }
        else activate turns t
      else if s.loop.active
      then record t { loop = record s.loop { grace_timer = true } }
      else t

  -- case <-pollTimer.C
  unfoldable pub on_poll_tick : (ℕ → Option Turn) → System W → System W
  unfolding sweep_now
  on_poll_tick turns s =
      if s.loop.active
      then (let s' = sweep_now turns s in record s' { loop = record s'.loop { poll_timer = true } })
      else record s { loop = record s.loop { poll_timer = false } }

  -- case <-graceTimer.C
  unfoldable pub on_grace_tick : System W → System W
  on_grace_tick s =
      if has_subscribers s.controller.subscribers.entries
      then record s { loop = record s.loop { grace_timer = false } }
      else record s {
        loop = record s.loop {
          grace_timer = false;
          active = false;
          poll_timer = false;
          health_timer = s.loop.health_timer || idle_health s.controller;
        };
      }

  unfoldable pub probe : Turn → List ℕ → System W → System W
  probe turn [] s = s
  probe turn (a ∷ as') s =
      let (e, c, w) = poll_module client turn a s.controller s.world in
      record s { controller = c; world = w }

  -- case <-healthTimer.C
  unfoldable pub on_health_tick : Turn → System W → System W
  on_health_tick turn s =
      if not s.loop.active && idle_health s.controller
      then (let s' = probe turn s.controller.module_addresses s in
          record s' { loop = record s'.loop { health_timer = true } })
      else record s { loop = record s.loop { health_timer = false } }

  unfoldable pub refresh : Turn → List ℕ → System W → System W
  refresh turn [] s = s
  refresh turn (a ∷ as') s =
      let (e, c, w) =
        poll_module client turn a (record s.controller { refresh_module = as' }) s.world in
      record s { controller = c; world = w }

  -- case busAddress := <-c.refreshModule
  unfoldable pub on_refresh : Turn → System W → System W
  on_refresh turn s = refresh turn s.controller.refresh_module s
