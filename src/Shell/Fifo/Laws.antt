-- ===== src/Shell/Fifo/Laws.antt =====
-- web/privasys-shell.js: the promise chain sends the sealed requests first come, first served.
use attested_harness.Common.{
  subst, append-nil, some, sym, true, Option, ℕ, zero, suc, ◌≤◌, ◌≡◌, refl, ap, ◌∙◌, Bool, false,
  none, List, [], ◌∷◌, ◌++◌, map, All, arith,
}
use attested_harness.Shell.Fifo.{
  task_at, put_behind, Status, queued, started, released, settled, Job, begin_job, settle_job,
  release_job, at_call,
}

abbrev pub AllQueued : List Job → Type 0
AllQueued js = All (λ j. j.1 ≡ queued) js

-- Released calls, then at most one that is under way, then waiting ones.
abbrev pub Shape : List Job → Type 0
Shape [] = Unit
Shape ((t, queued) ∷ js) = AllQueued js
Shape ((t, started) ∷ js) = AllQueued js
Shape ((t, settled b) ∷ js) = AllQueued js
Shape ((t, released) ∷ js) = Shape js

abbrev pub out_of : List Job → List ℕ
out_of [] = []
out_of ((t, queued) ∷ js) = out_of js
out_of ((t, started) ∷ js) = t ∷ out_of js
out_of ((t, settled b) ∷ js) = t ∷ out_of js
out_of ((t, released) ∷ js) = t ∷ out_of js

-- The tasks that wait behind the chain.
abbrev pub waiting : List Job → List ℕ
waiting [] = []
waiting ((t, queued) ∷ js) = t ∷ waiting js
waiting ((t, started) ∷ js) = waiting js
waiting ((t, settled b) ∷ js) = waiting js
waiting ((t, released) ∷ js) = waiting js

-- How many requests are on the wire.
abbrev pub in_flight : List Job → ℕ
in_flight [] = 0
in_flight ((t, queued) ∷ js) = in_flight js
in_flight ((t, started) ∷ js) = suc (in_flight js)
in_flight ((t, settled b) ∷ js) = in_flight js
in_flight ((t, released) ∷ js) = in_flight js

abbrev pub tasks : List Job → List ℕ
tasks js = map (λ j. j.0) js

pub queued_facts :
    (js : List Job)
    → AllQueued js
    → Shape js × (out_of js ≡ []) × (waiting js ≡ tasks js) × (in_flight js ≡ 0)
queued_facts [] h = (tt, refl, refl, refl)
queued_facts ((t, queued) ∷ js) (_, h) =
    let (_, o, w, f) = queued_facts js h in (h, o, ap (λ l. t ∷ l) w, f)
queued_facts ((t, started) ∷ js) (e, _) = absurd (cc)
queued_facts ((t, settled b) ∷ js) (e, _) = absurd (cc)
queued_facts ((t, released) ∷ js) (e, _) = absurd (cc)

pub Shape-facts :
    (js : List Job) → Shape js → (out_of js ++ waiting js ≡ tasks js) × (in_flight js ≤ 1)
Shape-facts [] h = (refl, omega arith)
Shape-facts ((t, queued) ∷ js) h =
    let (_, o, w, f) = queued_facts js h in
    (ap (λ l. l ++ (t ∷ waiting js)) o ∙ ap (λ l. t ∷ l) w, omega arith)
Shape-facts ((t, started) ∷ js) h =
    let (_, o, w, f) = queued_facts js h in
    (ap (λ l. t ∷ (l ++ waiting js)) o ∙ ap (λ l. t ∷ l) w, omega arith)
Shape-facts ((t, settled b) ∷ js) h =
    let (_, o, w, f) = queued_facts js h in
    (ap (λ l. t ∷ (l ++ waiting js)) o ∙ ap (λ l. t ∷ l) w, omega arith)
Shape-facts ((t, released) ∷ js) h = let (o, f) = Shape-facts js h in (ap (λ l. t ∷ l) o, f)

-- A turn of a call cannot happen in a list of waiting calls that the chain holds up.
begin_blocked : (c : ℕ) (js : List Job) → AllQueued js → at_call begin_job false c js ≡ none
unfolding at_call
begin_blocked c [] h = refl
begin_blocked zero ((t, st) ∷ js) h = refl
begin_blocked (suc c) ((t, queued) ∷ js) (e, h) = rw (begin_blocked c js h)
begin_blocked (suc c) ((t, started) ∷ js) (e, h) = absurd (cc)
begin_blocked (suc c) ((t, settled b) ∷ js) (e, h) = absurd (cc)
begin_blocked (suc c) ((t, released) ∷ js) (e, h) = absurd (cc)

settle_blocked :
    (b r : Bool) (c : ℕ) (js : List Job) → AllQueued js → at_call (settle_job b) r c js ≡ none
unfolding at_call
settle_blocked b r c [] h = refl
settle_blocked b r zero ((t, queued) ∷ js) h = refl
settle_blocked b r (suc c) ((t, queued) ∷ js) (e, h) = rw (settle_blocked b false c js h)
settle_blocked b r c ((t, started) ∷ js) (e, h) = absurd (cc)
settle_blocked b r c ((t, settled b') ∷ js) (e, h) = absurd (cc)
settle_blocked b r c ((t, released) ∷ js) (e, h) = absurd (cc)

release_blocked :
    (r : Bool) (c : ℕ) (js : List Job) → AllQueued js → at_call release_job r c js ≡ none
unfolding at_call
release_blocked r c [] h = refl
release_blocked r zero ((t, queued) ∷ js) h = refl
release_blocked r (suc c) ((t, queued) ∷ js) (e, h) = rw (release_blocked false c js h)
release_blocked r c ((t, started) ∷ js) (e, h) = absurd (cc)
release_blocked r c ((t, settled b') ∷ js) (e, h) = absurd (cc)
release_blocked r c ((t, released) ∷ js) (e, h) = absurd (cc)

put_behind-eq-some :
    (j : Job) (o : Option (List Job)) {js' : List Job}
    → put_behind j o ≡ some js'
    → (rest : List Job) × (o ≡ some rest) × (js' ≡ j ∷ rest)
put_behind-eq-some j none h = cc
put_behind-eq-some j (some rest) h = (rest, refl, cc)

-- What a turn keeps: the tasks, the shape, and what went out but for the request that it sends.
pub record Keeps (js js' : List Job) (more : List ℕ) : Type 0 where
  pub shape : Shape js'
  pub went_out : out_of js' ≡ out_of js ++ more
  pub same_tasks : tasks js' ≡ tasks js

Keeps-cons :
    (t : ℕ) {js js' : List Job} {more : List ℕ}
    → Keeps js js' more
    → Keeps ((t, released) ∷ js) ((t, released) ∷ js') more
Keeps-cons t k = record {
  shape = k.shape;
  went_out = ap (λ l. t ∷ l) k.went_out;
  same_tasks = ap (λ l. t ∷ l) k.same_tasks;
}

blocked_absurd :
    {P : Type 0} (j : Job) (o : Option (List Job)) {js' : List Job}
    → o ≡ none
    → put_behind j o ≡ some js'
    → P
blocked_absurd j none e h = cc
blocked_absurd j (some rest) e h = cc

pub begin-Keeps :
    (c : ℕ) (js js' : List Job)
    → Shape js
    → at_call begin_job true c js ≡ some js'
    → Keeps js js' (task_at c js)
unfolding at_call
begin-Keeps c [] js' s h = absurd (cc)
begin-Keeps zero ((t, queued) ∷ js) js' s h =
    let (_, o, _, _) = queued_facts js s in
    let e : ((t, started) ∷ js) ≡ js' = cc in
    subst (λ l. Keeps ((t, queued) ∷ js) l (t ∷ [])) e
      (record {
        shape = s;
        went_out = ap (λ l. t ∷ l) o ∙ sym (ap (λ l. l ++ (t ∷ [])) o);
        same_tasks = refl;
      })
begin-Keeps zero ((t, started) ∷ js) js' s h = absurd (cc)
begin-Keeps zero ((t, settled b) ∷ js) js' s h = absurd (cc)
begin-Keeps zero ((t, released) ∷ js) js' s h = absurd (cc)
begin-Keeps (suc c) ((t, queued) ∷ js) js' s h =
    blocked_absurd (t, queued) _ (begin_blocked c js s) h
begin-Keeps (suc c) ((t, started) ∷ js) js' s h =
    blocked_absurd (t, started) _ (begin_blocked c js s) h
begin-Keeps (suc c) ((t, settled b) ∷ js) js' s h =
    blocked_absurd (t, settled b) _ (begin_blocked c js s) h
begin-Keeps (suc c) ((t, released) ∷ js) js' s h =
    let (rest, e, e') = put_behind-eq-some (t, released) _ h in
    rw e' (Keeps-cons t (begin-Keeps c js rest s e))

Keeps-of_AllQueued :
    (t : ℕ) (st st' : Status) (js : List Job)
    → AllQueued js
    → Shape ((t, st') ∷ js)
    → out_of ((t, st') ∷ js) ≡ out_of ((t, st) ∷ js)
    → Keeps ((t, st) ∷ js) ((t, st') ∷ js) []
Keeps-of_AllQueued t st st' js q s e = record {
  shape = s;
  went_out = e ∙ sym (append-nil _);
  same_tasks = refl;
}

pub settle-Keeps :
    (b : Bool) (c : ℕ) (js js' : List Job)
    → Shape js
    → at_call (settle_job b) true c js ≡ some js'
    → Keeps js js' []
unfolding at_call
settle-Keeps b c [] js' s h = absurd (cc)
settle-Keeps b zero ((t, started) ∷ js) js' s h =
    subst (λ l. Keeps ((t, started) ∷ js) l []) (cc)
      (Keeps-of_AllQueued t started (settled b) js s s refl)
settle-Keeps b zero ((t, queued) ∷ js) js' s h = absurd (cc)
settle-Keeps b zero ((t, settled b') ∷ js) js' s h = absurd (cc)
settle-Keeps b zero ((t, released) ∷ js) js' s h = absurd (cc)
settle-Keeps b (suc c) ((t, queued) ∷ js) js' s h =
    blocked_absurd (t, queued) _ (settle_blocked b false c js s) h
settle-Keeps b (suc c) ((t, started) ∷ js) js' s h =
    blocked_absurd (t, started) _ (settle_blocked b false c js s) h
settle-Keeps b (suc c) ((t, settled b') ∷ js) js' s h =
    blocked_absurd (t, settled b') _ (settle_blocked b false c js s) h
settle-Keeps b (suc c) ((t, released) ∷ js) js' s h =
    let (rest, e, e') = put_behind-eq-some (t, released) _ h in
    rw e' (Keeps-cons t (settle-Keeps b c js rest s e))

pub release-Keeps :
    (c : ℕ) (js js' : List Job)
    → Shape js
    → at_call release_job true c js ≡ some js'
    → Keeps js js' []
unfolding at_call
release-Keeps c [] js' s h = absurd (cc)
release-Keeps zero ((t, settled b) ∷ js) js' s h =
    subst (λ l. Keeps ((t, settled b) ∷ js) l []) (cc)
      (Keeps-of_AllQueued t (settled b) released js s (queued_facts js s).0 refl)
release-Keeps zero ((t, queued) ∷ js) js' s h = absurd (cc)
release-Keeps zero ((t, started) ∷ js) js' s h = absurd (cc)
release-Keeps zero ((t, released) ∷ js) js' s h = absurd (cc)
release-Keeps (suc c) ((t, queued) ∷ js) js' s h =
    blocked_absurd (t, queued) _ (release_blocked false c js s) h
release-Keeps (suc c) ((t, started) ∷ js) js' s h =
    blocked_absurd (t, started) _ (release_blocked false c js s) h
release-Keeps (suc c) ((t, settled b) ∷ js) js' s h =
    blocked_absurd (t, settled b) _ (release_blocked false c js s) h
release-Keeps (suc c) ((t, released) ∷ js) js' s h =
    let (rest, e, e') = put_behind-eq-some (t, released) _ h in
    rw e' (Keeps-cons t (release-Keeps c js rest s e))

AllQueued-snoc : (task : ℕ) (js : List Job) → AllQueued js → AllQueued (js ++ ((task, queued) ∷ []))
AllQueued-snoc task [] h = (refl, tt)
AllQueued-snoc task (j ∷ js) (e, h) = (e, AllQueued-snoc task js h)

pub enqueue-Keeps :
    (task : ℕ) (js : List Job)
    → Shape js
    → Shape (js ++ ((task, queued) ∷ [])) × (out_of (js ++ ((task, queued) ∷ [])) ≡ out_of js)
enqueue-Keeps task [] s = (tt, refl)
enqueue-Keeps task ((t, queued) ∷ js) s =
    (AllQueued-snoc task js s, (enqueue-Keeps task js (queued_facts js s).0).1)
enqueue-Keeps task ((t, started) ∷ js) s =
    (AllQueued-snoc task js s, ap (λ l. t ∷ l) (enqueue-Keeps task js (queued_facts js s).0).1)
enqueue-Keeps task ((t, settled b) ∷ js) s =
    (AllQueued-snoc task js s, ap (λ l. t ∷ l) (enqueue-Keeps task js (queued_facts js s).0).1)
enqueue-Keeps task ((t, released) ∷ js) s =
    let (s', o) = enqueue-Keeps task js s in (s', ap (λ l. t ∷ l) o)
