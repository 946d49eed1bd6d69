-- ===== src/Controller/Scheduler/Priority.antt =====
-- next of bridge/internal/controller/scheduler.go: commands before background operations.
use phcremote_control.Prelude.{ℕ, ◌+◌, ◌≤◌, ◌≡◌, ◌≢◌, some, []}
use phcremote_control.Controller.Scheduler.{
  Place, waiting, Scheduler, submit_command, submit_poll, cancel, Choice, poll, turn,
}

-- A background operation is started where the goroutine waits for either queue.
abbrev pub starts_poll : Place → Choice → ℕ
starts_poll waiting poll = 1
starts_poll _ _ = 0

-- Steps in which no command is taken, with the number of background operations taken.
pub data Waits (s : Scheduler) : ℕ → Scheduler → Type 0 where
  here : {n : ℕ} → n ≡ 0 → Waits s n s
  submits :
      {n : ℕ} {t u : Scheduler} (r : ℕ) → Waits s n t → submit_command r t ≡ some u → Waits s n u
  polls : {n : ℕ} {t u : Scheduler} (r : ℕ) → Waits s n t → submit_poll r t ≡ some u → Waits s n u
  cancels : {n : ℕ} {t : Scheduler} → Waits s n t → Waits s n (cancel t)
  -- the goroutine's turn leaves the queue of commands as it was
  turns :
      {n m : ℕ} {t u : Scheduler} (c : Choice)
      → Waits s n t
      → turn c t ≡ some u
      → u.commands ≡ t.commands
      → m ≡ n + starts_poll t.place c
      → Waits s m u

abbrev pub allowance : Place → ℕ
allowance waiting = 1
allowance _ = 0

abbrev Bounded : ℕ → Scheduler → Scheduler → Type 0
Bounded n s t = (t.commands ≢ []) × (n + allowance t.place ≤ allowance s.place)
