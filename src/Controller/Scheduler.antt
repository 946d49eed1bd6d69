-- ===== src/Controller/Scheduler.antt =====
-- bridge/internal/controller/scheduler.go: two bounded queues of STM operations and the one
-- goroutine that runs them. A request is its number; each turn of the goroutine between two channel
-- operations is one function, and `none` means that it cannot go on that way.
pub mod Priority
pub mod Accounts
use phcremote_control.Prelude.{
  ℕ, ◌+◌, Bool, true, false, Option, none, some, List, [], ◌∷◌, ◌++◌, length, ltb, if◌then◌else◌,
}
use phcremote_control.Prelude.Int.{ℤ, pos, pos_part, ltb_ℤ}

-- Where the goroutine of `run` stands.
pub data Place : Type 0 where
  -- at the head of `next`
  top : Place
  -- at the select that takes a command already in the queue
  checking : Place
  -- at the select that waits for either queue
  waiting : Place
  -- with a request, before the test of its context
  chosen : ℕ → Place
  -- in the operation of a request
  running : ℕ → Place
  -- in `drain`, and after it
  draining finished : Place

-- What is sent on the result channel of a request, which has room for it.
pub data Reply : Type 0 where
  -- the operation's own result
  outcome : Reply
  -- the error of the request's context, which ended before the operation was run
  context_ended : Reply
  -- ErrSchedulerStopped
  stopped : Reply

pub record Scheduler : Type 0 where
  pub depth : ℕ
  pub commands : List ℕ
  pub background : List ℕ
  pub cancelled : Bool
  pub place : Place
  pub replies : List (ℕ × Reply)

unfoldable pub new_scheduler : ℤ → Scheduler
new_scheduler depth = record {
  depth = if ltb_ℤ depth (pos 1) then 64 else pos_part depth;
  commands = [];
  background = [];
  cancelled = false;
  place = top;
  replies = [];
}

-- The first select of `submit`; the other cases of it enqueue nothing.
unfoldable pub submit_command : ℕ → Scheduler → Option Scheduler
submit_command r s =
    if ltb (length s.commands) s.depth
    then some (record s { commands = s.commands ++ r ∷ [] })
    else none

unfoldable pub submit_poll : ℕ → Scheduler → Option Scheduler
submit_poll r s =
    if ltb (length s.background) s.depth
    then some (record s { background = s.background ++ r ∷ [] })
    else none

-- `close` cancels the scheduler's context.
unfoldable pub cancel : Scheduler → Scheduler
cancel s = record s { cancelled = true }

reply : ℕ → Reply → Scheduler → Scheduler
reply r a s = record s { replies = s.replies ++ (r, a) ∷ [] }

go_to : Place → Scheduler → Scheduler
go_to p s = record s { place = p }

-- Which ready case a select takes, and what the chosen request meets.
pub data Choice : Type 0 where
  command poll stop : Choice
  ends : Choice

take_command : Scheduler → Option Scheduler
unfolding go_to
take_command s = elim s.commands [
  | [] ↦ none
  | r ∷ rs ↦ some (record s { commands = rs; place = chosen r })
]

take_poll : Scheduler → Option Scheduler
take_poll s = elim s.background [
  | [] ↦ none
  | r ∷ rs ↦ some (record s { background = rs; place = chosen r })
]

-- The default case of the second select is taken only if no command is ready.
check_commands : List ℕ → Scheduler → Scheduler
unfolding go_to
check_commands [] s = go_to waiting s
check_commands (r ∷ rs) s = record s { commands = rs; place = chosen r }

if_cancelled : Scheduler → Option Scheduler
unfolding go_to
if_cancelled s = if s.cancelled then some (go_to draining s) else none

drain_one : Choice → List ℕ → List ℕ → Scheduler → Option Scheduler
unfolding go_to reply
drain_one command (r ∷ rs) bs s = some (record (reply r stopped s) { commands = rs })
drain_one poll cs (b ∷ bs) s = some (record (reply b stopped s) { background = bs })
drain_one ends [] [] s = some (go_to finished s)
drain_one _ _ _ s = none

-- One turn of the goroutine.
turn_at : Place → Choice → Scheduler → Option Scheduler
unfolding go_to reply take_command take_poll check_commands if_cancelled drain_one
turn_at top c s = some (go_to (if s.cancelled then draining else checking) s)
turn_at checking c s = some (check_commands s.commands s)
turn_at waiting command s = take_command s
turn_at waiting poll s = take_poll s
turn_at waiting stop s = if_cancelled s
turn_at waiting ends s = none
turn_at (chosen r) ends s = some (go_to top (reply r context_ended s))
turn_at (chosen r) _ s = some (go_to (running r) s)
turn_at (running r) c s = some (go_to top (reply r outcome s))
turn_at draining c s = drain_one c s.commands s.background s
turn_at finished c s = none

unfoldable pub turn : Choice → Scheduler → Option Scheduler
unfolding turn_at
turn c s = turn_at s.place c s
