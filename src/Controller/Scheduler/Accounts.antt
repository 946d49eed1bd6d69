-- ===== src/Controller/Scheduler/Accounts.antt =====
-- bridge/internal/controller/scheduler.go: where the requests are in a run.
use phcremote_control.Prelude.{
  ℕ, ◌+◌, ◌≤◌, ◌≡◌, refl, ap, ◌∙◌, true, false, Bool, some, List, [], ◌∷◌, ◌++◌, arith, ◌==◌,
  if◌then◌else◌, length, length-append,
}
use phcremote_control.Prelude.Int.{ℤ}
use phcremote_control.Controller.Scheduler.{
  Place, top, checking, waiting, chosen, running, draining, finished, Reply, Scheduler,
  new_scheduler, submit_command, submit_poll, cancel, Choice, command, poll, stop, ends, turn,
  turn_at, drain_one,
}

abbrev pub count : ℕ → List ℕ → ℕ
count r [] = 0
count r (x ∷ xs) = (if x == r then 1 else 0) + count r xs

count-append : (r : ℕ) (xs ys : List ℕ) → count r (xs ++ ys) ≡ count r xs + count r ys
count-append r [] ys = omega arith
count-append r (x ∷ xs) ys = omega (arith, count-append r xs ys)

abbrev pub current : ℕ → Place → ℕ
current r (chosen x) = if x == r then 1 else 0
current r (running x) = if x == r then 1 else 0
current r _ = 0

abbrev pub replied : ℕ → List (ℕ × Reply) → ℕ
replied r [] = 0
replied r ((x, a) ∷ xs) = (if x == r then 1 else 0) + replied r xs

replied-append :
    (r : ℕ) (xs ys : List (ℕ × Reply)) → replied r (xs ++ ys) ≡ replied r xs + replied r ys
replied-append r [] ys = omega arith
replied-append r ((x, a) ∷ xs) ys = omega (arith, replied-append r xs ys)

-- How often a request is queued, in work or replied to.
abbrev pub held : ℕ → Scheduler → ℕ
held r s = count r s.commands + count r s.background + current r s.place + replied r s.replies

-- The runs of a scheduler, with the requests that were enqueued.
pub data Runs (s : Scheduler) : List ℕ → Scheduler → Type 0 where
  here : Runs s [] s
  submits :
      {rs : List ℕ} {t u : Scheduler} (r : ℕ)
      → Runs s rs t
      → submit_command r t ≡ some u
      → Runs s (r ∷ rs) u
  polls :
      {rs : List ℕ} {t u : Scheduler} (r : ℕ)
      → Runs s rs t
      → submit_poll r t ≡ some u
      → Runs s (r ∷ rs) u
  cancels : {rs : List ℕ} {t : Scheduler} → Runs s rs t → Runs s rs (cancel t)
  turns :
      {rs : List ℕ} {t u : Scheduler} (c : Choice) → Runs s rs t → turn c t ≡ some u → Runs s rs u

submit-held :
    (r x : ℕ) (t u : Scheduler)
    → submit_command x t ≡ some u
    → held r u ≡ count r (x ∷ []) + held r t
unfolding submit_command
submit-held r x t u e = ground (arith, count-append r t.commands (x ∷ []))

submit_poll-held :
    (r x : ℕ) (t u : Scheduler) → submit_poll x t ≡ some u → held r u ≡ count r (x ∷ []) + held r t
unfolding submit_poll
submit_poll-held r x t u e = ground (arith, count-append r t.background (x ∷ []))

drain-held :
    (r : ℕ) (c : Choice) (cs bs : List ℕ) (t u : Scheduler)
    → t.place ≡ draining
    → t.commands ≡ cs
    → t.background ≡ bs
    → drain_one c cs bs t ≡ some u
    → held r u ≡ held r t
unfolding drain_one
drain-held r command (x ∷ cs) bs t u p k l e =
    ground (arith, replied-append r t.replies ((x, Reply.stopped) ∷ []))
drain-held r poll cs (x ∷ bs) t u p k l e =
    ground (arith, replied-append r t.replies ((x, Reply.stopped) ∷ []))
drain-held r ends [] [] t u p k l e = ground arith
drain-held r _ _ _ t u p k l e = cc

turn-held :
    (r : ℕ) (p : Place) (c : Choice) (t u : Scheduler)
    → t.place ≡ p
    → turn_at p c t ≡ some u
    → held r u ≡ held r t
unfolding turn_at
turn-held r top c t u p e = ground arith
turn-held r checking c t u p e = ground arith
turn-held r waiting command t u p e = ground arith
turn-held r waiting poll t u p e = ground arith
turn-held r waiting stop t u p e = ground arith
turn-held r waiting ends t u p e = cc
turn-held r (chosen x) ends t u p e =
    ground (arith, replied-append r t.replies ((x, Reply.context_ended) ∷ []))
turn-held r (chosen x) _ t u p e = ground arith
turn-held r (running x) c t u p e =
    ground (arith, replied-append r t.replies ((x, Reply.outcome) ∷ []))
turn-held r draining c t u p e = drain-held r c t.commands t.background t u p refl refl e
turn-held r finished c t u p e = cc

-- At any time each request is queued, in work or replied to exactly as often as it was enqueued:
-- none is lost, run twice or answered twice.
pub Runs-held :
    (s : Scheduler) {rs : List ℕ} {t : Scheduler}
    → Runs s rs t
    → (r : ℕ) → held r t ≡ count r rs + held r s
unfolding cancel turn
Runs-held s here r = omega arith
Runs-held s (submits {t = t} {u = u} x w e) r =
    omega (arith, submit-held r x t u e, Runs-held s w r)
Runs-held s (polls {t = t} {u = u} x w e) r =
    omega (arith, submit_poll-held r x t u e, Runs-held s w r)
Runs-held s (cancels w) r = Runs-held s w r
Runs-held s (turns {t = t} {u = u} c w e) r = turn-held r t.place c t u refl e ∙ Runs-held s w r

abbrev is_over : Place → Bool
is_over draining = true
is_over finished = true
is_over _ = false

-- The queues stay within their depth, and only a scheduler that was cancelled stops.
pub record IsOrderly (s : Scheduler) : Type 0 where
  pub commands : length s.commands ≤ s.depth
  pub background : length s.background ≤ s.depth
  pub over : is_over s.place ≡ true → s.cancelled ≡ true

submit-IsOrderly :
    (x : ℕ) (t u : Scheduler) → submit_command x t ≡ some u → IsOrderly t → IsOrderly u
unfolding submit_command
submit-IsOrderly x t u e o = ground (arith, length-append t.commands (x ∷ []))

submit_poll-IsOrderly :
    (x : ℕ) (t u : Scheduler) → submit_poll x t ≡ some u → IsOrderly t → IsOrderly u
unfolding submit_poll
submit_poll-IsOrderly x t u e o = ground (arith, length-append t.background (x ∷ []))

drain-IsOrderly :
    (c : Choice) (cs bs : List ℕ) (t u : Scheduler)
    → t.place ≡ draining
    → t.commands ≡ cs
    → t.background ≡ bs
    → drain_one c cs bs t ≡ some u
    → IsOrderly t
    → IsOrderly u
unfolding drain_one
drain-IsOrderly command (x ∷ cs) bs t u p k l e o = ground (arith, ap length k)
drain-IsOrderly poll cs (x ∷ bs) t u p k l e o = ground (arith, ap length l)
drain-IsOrderly ends [] [] t u p k l e o = ground arith
drain-IsOrderly _ _ _ t u p k l e o = cc

turn-IsOrderly :
    (p : Place) (c : Choice) (t u : Scheduler)
    → t.place ≡ p
    → turn_at p c t ≡ some u
    → IsOrderly t
    → IsOrderly u
unfolding turn_at
turn-IsOrderly top c t u p e o = ground arith
turn-IsOrderly checking c t u p e o = ground arith
turn-IsOrderly waiting command t u p e o = ground arith
turn-IsOrderly waiting poll t u p e o = ground arith
turn-IsOrderly waiting stop t u p e o = ground arith
turn-IsOrderly waiting ends t u p e o = cc
turn-IsOrderly (chosen x) ends t u p e o = ground arith
turn-IsOrderly (chosen x) _ t u p e o = ground arith
turn-IsOrderly (running x) c t u p e o = ground arith
turn-IsOrderly draining c t u p e o = drain-IsOrderly c t.commands t.background t u p refl refl e o
turn-IsOrderly finished c t u p e o = cc

Runs-IsOrderly :
    (s : Scheduler) {rs : List ℕ} {t : Scheduler} → Runs s rs t → IsOrderly s → IsOrderly t
unfolding cancel turn
Runs-IsOrderly s here o = o
Runs-IsOrderly s (submits {t = t} {u = u} x w e) o = submit-IsOrderly x t u e (Runs-IsOrderly s w o)
Runs-IsOrderly s (polls {t = t} {u = u} x w e) o =
    submit_poll-IsOrderly x t u e (Runs-IsOrderly s w o)
Runs-IsOrderly s (cancels w) o = ground (arith, Runs-IsOrderly s w o)
Runs-IsOrderly s (turns {t = t} {u = u} c w e) o =
    turn-IsOrderly t.place c t u refl e (Runs-IsOrderly s w o)

-- In every run of a new scheduler the queues stay within their depth, only a cancelled scheduler
-- drains and finishes, and each request is queued, in work or replied to exactly as often as it was
-- enqueued, so none is lost, run twice or answered twice.
pub run_accounts :
    (depth : ℤ) {rs : List ℕ} {t : Scheduler}
    → Runs (new_scheduler depth) rs t
    → IsOrderly t × ((r : ℕ) → held r t ≡ count r rs)
unfolding new_scheduler
run_accounts depth {rs} w = (
  Runs-IsOrderly (new_scheduler depth) w (ground arith),
  λ r. omega (arith, Runs-held (new_scheduler depth) w r),
)
