-- ===== src/Shell/Fifo/Order.antt =====
-- web/privasys-shell.js: order, exclusion and progress of the sealed requests, for every history.
use mathlib.Core.List.{map-append}
use attested_harness.Common.{
  ℕ, suc, ◌≤◌, ◌≡◌, refl, sym, ap, ◌∙◌, ◌⊎◌, inl, inr, true, Option, none, some, List, [], ◌∷◌,
  ◌++◌, append-nil, append_assoc, subst, Bool, arith, map,
}
use attested_harness.Shell.Fifo.{
  queued, started, released, settled, Job, Chain, Action, enqueue, begin, release, settle,
  begin_job, release_job, at_call, task_at, set_jobs, step, Reach, begun, turn, enqueued, task_of,
}
use attested_harness.Shell.Fifo.Laws.{
  Shape, AllQueued, out_of, tasks, waiting, in_flight, Keeps, begin-Keeps, settle-Keeps,
  release-Keeps, enqueue-Keeps, Shape-facts,
}

record Inv (past : List Action) (s : Chain) : Type 0 where
  shape : Shape s.jobs
  went_out : s.sent ≡ out_of s.jobs
  all_tasks : tasks s.jobs ≡ enqueued past

enqueued-append :
    (past more : List Action) → enqueued (past ++ more) ≡ enqueued past ++ enqueued more
unfolding enqueued
enqueued-append [] more = refl
enqueued-append (a ∷ past) more =
    ap (λ l. task_of a ++ l) (enqueued-append past more)
    ∙ sym (append_assoc (task_of a) (enqueued past) (enqueued more))

enqueued-snoc :
    (past : List Action) (a : Action) → enqueued (past ++ (a ∷ [])) ≡ enqueued past ++ task_of a
enqueued-snoc past a =
    enqueued-append past (a ∷ [])
    ∙ ap (λ l. enqueued past ++ l) (unfold enqueued in append-nil (task_of a))

set_jobs-eq-some :
    (s : Chain) (sent : List ℕ) (o : Option (List Job)) {t : Chain}
    → set_jobs s sent o ≡ some t
    → (js : List Job) × (o ≡ some js) × (t ≡ record { jobs = js; sent = sent })
set_jobs-eq-some s sent none h = absurd (cc)
set_jobs-eq-some s sent (some js) h = (js, refl, cc)

Inv-of_Keeps :
    (past : List Action) (a : Action) (s : Chain) (js : List Job) (sent more : List ℕ)
    → Inv past s
    → task_of a ≡ []
    → sent ≡ s.sent ++ more
    → Keeps s.jobs js more
    → Inv (past ++ (a ∷ [])) (record { jobs = js; sent = sent })
Inv-of_Keeps past a s js sent more inv quiet e k = record {
  shape = k.shape;
  went_out = e ∙ ap (λ l. l ++ more) inv.went_out ∙ sym k.went_out;
  all_tasks =
      k.same_tasks
      ∙ inv.all_tasks
      ∙ sym
          (enqueued-snoc past a ∙ ap (λ l. enqueued past ++ l) quiet ∙ append-nil (enqueued past));
}

step-Inv :
    (past : List Action) (a : Action) (s t : Chain)
    → Inv past s
    → step a s ≡ some t
    → Inv (past ++ (a ∷ [])) t
unfolding step
step-Inv past (enqueue task) s t inv h =
    let (shape', out) = enqueue-Keeps task s.jobs inv.shape in
    let e : record { jobs = s.jobs ++ ((task, queued) ∷ []); sent = s.sent } ≡ t = cc in
    subst (Inv (past ++ (enqueue task ∷ []))) e (record {
      shape = shape';
      went_out = inv.went_out ∙ sym out;
      all_tasks =
          map-append (λ (j : Job). j.0) s.jobs ((task, queued) ∷ [])
          ∙ ap (λ l. l ++ (task ∷ [])) inv.all_tasks
          ∙ sym (enqueued-snoc past (enqueue task));
    })
step-Inv past (begin call) s t inv h =
    let (js, e, e') = set_jobs-eq-some s (s.sent ++ task_at call s.jobs) _ h in
    rw e' (
      Inv-of_Keeps past (begin call) s js (s.sent ++ task_at call s.jobs) (task_at call s.jobs) inv
        refl refl (begin-Keeps call s.jobs js inv.shape e))
step-Inv past (settle call b) s t inv h =
    let (js, e, e') = set_jobs-eq-some s s.sent _ h in
    rw e' (
      Inv-of_Keeps past (settle call b) s js s.sent [] inv refl (sym (append-nil s.sent))
        (settle-Keeps b call s.jobs js inv.shape e))
step-Inv past (release call) s t inv h =
    let (js, e, e') = set_jobs-eq-some s s.sent _ h in
    rw e' (
      Inv-of_Keeps past (release call) s js s.sent [] inv refl (sym (append-nil s.sent))
        (release-Keeps call s.jobs js inv.shape e))

Reach-Inv : {past : List Action} {s : Chain} → Reach past s → Inv past s
Reach-Inv begun = record { shape = tt; went_out = refl; all_tasks = unfold enqueued in refl }
Reach-Inv (turn {past} {s} {t} a r h) = step-Inv past a s t (Reach-Inv r) h

-- In every history the requests that went out, followed by those that wait, are the enqueued ones
-- in the order of the calls; and at most one is on the wire.
pub chain_order :
    (past : List Action) (s : Chain)
    → Reach past s
    → (s.sent ++ waiting s.jobs ≡ enqueued past) × (in_flight s.jobs ≤ 1)
chain_order past s r =
    let inv = Reach-Inv r in
    let (order, alone) = Shape-facts s.jobs inv.shape in
    (ap (λ l. l ++ waiting s.jobs) inv.went_out ∙ order ∙ inv.all_tasks, alone)

-- The turns follow one another from the one state to the other.
pub data Turns : List Action → Chain → Chain → Type 0 where
  no_turn : {s : Chain} → Turns [] s s
  one_turn :
      {a : Action} {more : List Action} {s m t : Chain}
      → step a s ≡ some m
      → Turns more m t
      → Turns (a ∷ more) s t

-- A call can begin, and it is that of the task.
abbrev Ready : List Job → ℕ → Type 0
Ready js task =
    (call : ℕ) × (js' : List Job) × (at_call begin_job true call js ≡ some js')
    × (task_at call js ≡ task ∷ [])

-- The chain of an earlier call can settle, and then the call can begin.
abbrev Releases : List Job → ℕ → Type 0
Releases js task =
    (call : ℕ) × (js' : List Job) × (at_call release_job true call js ≡ some js') × Ready js' task

Ready-cons : (t task : ℕ) (js : List Job) → Ready js task → Ready ((t, released) ∷ js) task
unfolding at_call
Ready-cons t task js (call, js', e, at) = (suc call, (t, released) ∷ js', rw e refl, at)

-- Behind a call that has settled, whatever way, the first waiting one can go out.
behind_settled :
    (t : ℕ) (fulfilled : Bool) (js : List Job) (task : ℕ) (later : List ℕ)
    → AllQueued js
    → waiting js ≡ task ∷ later
    → Releases ((t, settled fulfilled) ∷ js) task
unfolding at_call
behind_settled t b [] task later q h = absurd (cc)
behind_settled t b ((u, queued) ∷ js) task later q h =
    (0, (t, released) ∷ (u, queued) ∷ js, refl, (1, (t, released) ∷ (u, started) ∷ js, refl, cc))
behind_settled t b ((u, started) ∷ js) task later (e, q) h = absurd (cc)
behind_settled t b ((u, settled b') ∷ js) task later (e, q) h = absurd (cc)
behind_settled t b ((u, released) ∷ js) task later (e, q) h = absurd (cc)

next_begins :
    (js : List Job) (task : ℕ) (later : List ℕ)
    → Shape js
    → in_flight js ≡ 0
    → waiting js ≡ task ∷ later
    → Ready js task ⊎ Releases js task
unfolding at_call
next_begins [] task later s q h = absurd (cc)
next_begins ((t, queued) ∷ js) task later s q h = inl (0, (t, started) ∷ js, refl, cc)
next_begins ((t, started) ∷ js) task later s q h = absurd (omega (arith, q))
next_begins ((t, settled b) ∷ js) task later s q h = inr (behind_settled t b js task later s h)
next_begins ((t, released) ∷ js) task later s q h = elim (next_begins js task later s q h) [
  | inl ready ↦ inl (Ready-cons t task js ready)
  | inr (call, js', e, ready) ↦
      inr (suc call, (t, released) ∷ js', rw e refl, Ready-cons t task js' ready)
]

-- A request never waits for nothing: whenever no request is on the wire, however the calls before
-- it ended, turns in which chains settle lead to a state where the first waiting request can go
-- out, and it is that one which goes out.
pub chain_progress :
    (past : List Action) (s : Chain) (task : ℕ) (later : List ℕ)
    → Reach past s
    → in_flight s.jobs ≡ 0
    → waiting s.jobs ≡ task ∷ later
    → (settling : List ℕ) × (m : Chain) × Turns (map (λ c. release c) settling) s m
      × ((call : ℕ) × (t : Chain) × (step (begin call) m ≡ some t)
          × (t.sent ≡ s.sent ++ (task ∷ [])))
unfolding step
chain_progress past s task later r q w =
    elim (next_begins s.jobs task later (Reach-Inv r).shape q w) [
      | inl (call, js, e, at) ↦ (
        [],
        s,
        no_turn,
        (
          call,
          record { jobs = js; sent = s.sent ++ task_at call s.jobs },
          rw e refl,
          ap (λ l. s.sent ++ l) at,
        ),
      )
      | inr (call, js, e, (next, js', e', at)) ↦ (
        call ∷ [],
        record s { jobs = js },
        one_turn (rw e refl) no_turn,
        (
          next,
          record { jobs = js'; sent = s.sent ++ task_at next js },
          rw e' refl,
          ap (λ l. s.sent ++ l) at,
        ),
      )
    ]
