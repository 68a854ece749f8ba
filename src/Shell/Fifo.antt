-- ===== src/Shell/Fifo.antt =====
-- web/privasys-shell.js, `enqueue` of installSealedTransport: the promise chain behind which every
-- sealed request waits. Job `i` is the promise `run` of the call `i`; the promise `chain` that the
-- call leaves, `run.then(noop, noop)`, settles in a later turn, which is the step `release`.
pub mod Laws
pub mod Order
use attested_harness.Common.{
  ◌≡◌, ℕ, zero, suc, Bool, true, false, not, ◌&&◌, Option, none, some, List, [], ◌∷◌, ◌++◌, map,
  if◌then◌else◌,
}

-- Where a call stands: behind the chain, with its request on the wire, with its own promise
-- settled, or with the chain that it left settled too.
pub data Status : Type 0 where
  queued started released : Status
  settled : (fulfilled : Bool) → Status

abbrev pub Job : Type 0
Job = ℕ × Status

-- The calls so far, the oldest first, and the requests that went out, in that order. A task is
-- named by a number.
pub record Chain : Type 0 where
  pub jobs : List Job
  pub sent : List ℕ

abbrev pub idle : Chain
idle = record { jobs = []; sent = [] }

pub data Action : Type 0 where
  enqueue : (task : ℕ) → Action
  begin release : (call : ℕ) → Action
  settle : (call : ℕ) (fulfilled : Bool) → Action

abbrev is_released : Status → Bool
is_released released = true
is_released _ = false

-- What one turn does to a call. `chain.then(task, task)` runs the task when the chain settles,
-- whatever way; `none` where that turn cannot happen.
abbrev pub begin_job : Bool → Job → Option Job
begin_job true (task, queued) = some (task, started)
begin_job _ _ = none

abbrev settle_job : Bool → Bool → Job → Option Job
settle_job fulfilled ready (task, started) = some (task, settled fulfilled)
settle_job fulfilled ready _ = none

abbrev release_job : Bool → Job → Option Job
release_job ready (task, settled fulfilled) = some (task, released)
release_job ready _ = none

abbrev pub put_first : List Job → Option Job → Option (List Job)
put_first js none = none
put_first js (some j) = some (j ∷ js)

abbrev pub put_behind : Job → Option (List Job) → Option (List Job)
put_behind j none = none
put_behind j (some js) = some (j ∷ js)

-- A turn of the call with this number. The flag says whether the promise that the first call of
-- the list waits on has settled.
unfoldable pub at_call : (Bool → Job → Option Job) → Bool → ℕ → List Job → Option (List Job)
at_call turn ready call [] = none
at_call turn ready zero (j ∷ js) = put_first js (turn ready j)
at_call turn ready (suc call) (j ∷ js) = put_behind j (at_call turn (is_released j.1) call js)

abbrev pub task_at : ℕ → List Job → List ℕ
task_at call [] = []
task_at zero (j ∷ js) = j.0 ∷ []
task_at (suc call) (j ∷ js) = task_at call js

abbrev pub set_jobs : Chain → List ℕ → Option (List Job) → Option Chain
set_jobs s sent none = none
set_jobs s sent (some js) = some (record { jobs = js; sent = sent })

-- One turn of the event loop; `chain` starts out settled.
unfoldable pub step : Action → Chain → Option Chain
unfolding at_call
step (enqueue task) s = some (record s { jobs = s.jobs ++ ((task, queued) ∷ []) })
step (begin call) s =
    set_jobs s (s.sent ++ task_at call s.jobs) (at_call begin_job true call s.jobs)
step (settle call fulfilled) s = set_jobs s s.sent (at_call (settle_job fulfilled) true call s.jobs)
step (release call) s = set_jobs s s.sent (at_call release_job true call s.jobs)

-- A history of turns.
pub data Reach : List Action → Chain → Type 0 where
  begun : Reach [] idle
  turn :
      {past : List Action} {s t : Chain} (a : Action)
      → Reach past s
      → step a s ≡ some t
      → Reach (past ++ (a ∷ [])) t

-- The tasks that the page enqueued, in order.
abbrev task_of : Action → List ℕ
task_of (enqueue task) = task ∷ []
task_of _ = []

unfoldable pub enqueued : List Action → List ℕ
enqueued [] = []
enqueued (a ∷ past) = task_of a ++ enqueued past
