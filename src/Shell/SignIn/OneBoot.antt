-- ===== src/Shell/SignIn/OneBoot.antt =====
-- web/privasys-shell.js and web/overlay/apps-web/main.ts: how often a page starts the application.
use attested_harness.Common.{
  ℕ, suc, ◌+◌, ◌≤◌, ◌≡◌, Bool, true, false, List, [], ◌∷◌, arith, if◌then◌else◌, zero, refl, ◌∙◌,
  subst, ◌&&◌, Option, none, some, if_split, Text,
}
use attested_harness.Shell.SignIn.{
  bare, Boot, Connected, Effect, Failure, Install, Page, Reach, Turn, after, after_reject, at_load,
  boot_fails, boot_missing, boot_ok, boot_threw, booted, can_run, clear_settled, connect_settled,
  finish_logout, hid_gate, install_fails, install_ok, install_threw, is_cancelled, is_fallback,
  logout_called, no_boot, on_authenticated, published, rejected, reloaded, resolved, run_called,
  settle_pending, settle_run, showed_chrome, start_logout, start_run, step, transport_set,
  unpublished,
}

-- The module's variable `booted` of main.ts, and how often the application was run.
pub record Entry : Type 0 where
  pub booted : Bool
  pub runs : ℕ

-- `window.__PRIVASYS_BOOT__`.
unfoldable pub boot_entry : Entry → Entry
boot_entry e = if e.booted then e else record { booted = true; runs = suc e.runs }

abbrev pub boot_times : ℕ → Entry
boot_times zero = record { booted = false; runs = 0 }
boot_times (suc n) = boot_entry (boot_times n)

-- However often the start is called, the application runs once.
pub boot_times_once : (n : ℕ) → boot_times (suc n) ≡ record { booted = true; runs = 1 }
unfolding boot_entry
boot_times_once zero = refl
boot_times_once (suc n) = rw (boot_times_once n) refl

module _ {S : Type 0} where
  abbrev start : Effect S → ℕ
  start booted = 1
  start boot_threw = 1
  start hid_gate = 0
  start showed_chrome = 0
  start (published s) = 0
  start transport_set = 0
  start install_threw = 0
  start boot_missing = 0
  start unpublished = 0
  start reloaded = 0

  -- How often the page called the application's start.
  abbrev pub starts : List (Effect S) → ℕ
  starts [] = 0
  starts (e ∷ before) = start e + starts before

  -- How far the page is: no frame made yet; a connect pending behind the toast; the
  -- fallback panel; or a session handed over.
  pub data Phase (p : Page S) : Type 0 where
    fresh : p.has_frame ≡ false → p.connecting ≡ 0 → starts p.effects ≡ 0 → Phase p
    waiting :
        p.has_frame ≡ true
        → is_fallback p.gate ≡ false
        → p.connecting ≡ 1
        → starts p.effects ≡ 0
        → Phase p
    failed : p.connecting ≡ 0 → starts p.effects ≡ 0 → Phase p
    handed_over :
        p.has_frame ≡ true
        → is_fallback p.gate ≡ false
        → p.connecting ≡ 0
        → starts p.effects ≤ 1
        → Phase p

  start-on_authenticated :
      (s : S) (i : Install) (b : Boot) (p : Page S)
      → starts p.effects ≡ 0
      → starts (on_authenticated s i b p).effects ≤ 1
  unfolding on_authenticated
  start-on_authenticated s install_ok boot_ok p h = omega (arith, h)
  start-on_authenticated s install_ok boot_fails p h = omega (arith, h)
  start-on_authenticated s install_ok no_boot p h = omega (arith, h)
  start-on_authenticated s install_fails boot_ok p h = omega (arith, h)
  start-on_authenticated s install_fails boot_fails p h = omega (arith, h)
  start-on_authenticated s install_fails no_boot p h = omega (arith, h)

  module _ (name_of : Text → Option Text) where
    run-Phase :
        (sdk makes : Bool) (p : Page S) → can_run p ≡ true → Phase p → Phase (start_run sdk makes p)
    unfolding start_run
    run-Phase true true p can (fresh frame idle none_yet) =
        waiting refl refl (omega (arith, idle)) none_yet
    run-Phase true false p can (fresh frame idle none_yet) = fresh frame idle none_yet
    run-Phase false makes p can (fresh frame idle none_yet) = failed idle none_yet
    run-Phase true true p can (failed idle none_yet) =
        waiting refl refl (omega (arith, idle)) none_yet
    run-Phase true false p can (failed idle none_yet) = failed idle none_yet
    run-Phase false makes p can (failed idle none_yet) = failed idle none_yet
    run-Phase sdk makes p can (waiting frame gate_up one none_yet) =
        absurd (cc (rw (frame, gate_up) at can))
    run-Phase sdk makes p can (handed_over frame gate_up idle few) =
        absurd (cc (rw (frame, gate_up) at can))

    reject-Phase :
        (c : Bool) (e : Failure) (p : Page S)
        → p.connecting ≡ 0
        → starts p.effects ≡ 0
        → Phase (after_reject c e p)
    reject-Phase true e p idle none_yet = failed idle none_yet
    reject-Phase false e p idle none_yet = failed idle none_yet

    settle-Phase :
        (i : Install) (b : Boot) (c : Connected S) (p : Page S)
        → p.has_frame ≡ true
        → p.connecting ≡ 0
        → starts p.effects ≡ 0
        → Phase (settle_run name_of i b c p)
    unfolding settle_run on_authenticated
    settle-Phase i b (resolved token none) p frame idle none_yet = failed idle none_yet
    settle-Phase i b (resolved token (some s)) p frame idle none_yet =
        handed_over frame refl idle (start-on_authenticated s i b p none_yet)
    settle-Phase i b (rejected e) p frame idle none_yet =
        reject-Phase (is_cancelled e.code) e (record p { gate = bare }) idle none_yet

    -- A page that differs only in what sign-out changes is as far.
    same-Phase :
        (p : Page S) (sealed global : Option S) (out clearing : Bool) (es : List (Effect S))
        → starts es ≡ starts p.effects
        → Phase p
        → Phase (record p {
          sealed = sealed;
          global = global;
          logging_out = out;
          clearing = clearing;
          effects = es;
        })
    same-Phase p sl g o c es e (fresh frame idle none_yet) = fresh frame idle (e ∙ none_yet)
    same-Phase p sl g o c es e (waiting frame gate_up one none_yet) =
        waiting frame gate_up one (e ∙ none_yet)
    same-Phase p sl g o c es e (failed idle none_yet) = failed idle (e ∙ none_yet)
    same-Phase p sl g o c es e (handed_over frame gate_up idle few) =
        handed_over frame gate_up idle (omega (arith, e, few))

    finish-Phase : (p : Page S) → Phase p → Phase (finish_logout p)
    unfolding finish_logout
    finish-Phase p h =
        same-Phase p none none p.logging_out false (reloaded ∷ unpublished ∷ p.effects)
          (omega arith) h

    logout-Phase : (clears : Bool) (p : Page S) → Phase p → Phase (start_logout clears p)
    unfolding start_logout
    logout-Phase clears p h =
        if_split Phase p.logging_out p _ (λ _. h)
          (λ _.
            if_split Phase (p.has_frame && clears)
              (record p { logging_out = true; clearing = true })
              (finish_logout (record p { logging_out = true }))
              (λ _. same-Phase p p.sealed p.global true true p.effects refl h)
              (λ _.
                finish-Phase (record p { logging_out = true })
                  (same-Phase p p.sealed p.global true p.clearing p.effects refl h)))

    pending-Phase :
        (n : ℕ) (i : Install) (b : Boot) (c : Connected S) (p q : Page S)
        → p.connecting ≡ n
        → Phase p
        → settle_pending n (settle_run name_of i b c) p ≡ some q
        → Phase q
    pending-Phase zero i b c p q e v h = absurd (cc)
    pending-Phase (suc n) i b c p q e (waiting frame gate_up one none_yet) h =
        let settled : settle_run name_of i b c (record p { connecting = n }) ≡ q = cc in
        subst Phase settled
          (settle-Phase i b c (record p { connecting = n }) frame (omega (arith, e, one)) none_yet)
    pending-Phase (suc n) i b c p q e (fresh frame idle none_yet) h =
        absurd (omega (arith, e, idle))
    pending-Phase (suc n) i b c p q e (failed idle none_yet) h = absurd (omega (arith, e, idle))
    pending-Phase (suc n) i b c p q e (handed_over frame gate_up idle few) h =
        absurd (omega (arith, e, idle))

    run_if-Phase :
        (can sdk makes : Bool) (p q : Page S)
        → can_run p ≡ can
        → Phase p
        → (if can then some (start_run sdk makes p) else none) ≡ some q
        → Phase q
    run_if-Phase true sdk makes p q e v h =
        let started : start_run sdk makes p ≡ q = cc in
        subst Phase started (run-Phase sdk makes p e v)
    run_if-Phase false sdk makes p q e v h = absurd (cc)

    clear_if-Phase :
        (pending : Bool) (p q : Page S)
        → Phase p
        → (if pending then some (finish_logout p) else none) ≡ some q
        → Phase q
    clear_if-Phase true p q v h =
        let finished : finish_logout p ≡ q = cc in subst Phase finished (finish-Phase p v)
    clear_if-Phase false p q v h = absurd (cc)

    step-Phase : (t : Turn S) (p q : Page S) → Phase p → step name_of t p ≡ some q → Phase q
    unfolding step
    step-Phase (run_called sdk makes) p q v h = run_if-Phase (can_run p) sdk makes p q refl v h
    step-Phase (connect_settled i b c) p q v h = pending-Phase p.connecting i b c p q refl v h
    step-Phase (logout_called clears) p q v h =
        let out : start_logout clears p ≡ q = cc in subst Phase out (logout-Phase clears p v)
    step-Phase clear_settled p q v h = clear_if-Phase p.clearing p q v h

    pub Reach-Phase : {p : Page S} → Reach name_of p → Phase p
    Reach-Phase at_load = fresh refl refl refl
    Reach-Phase (after {p} {q} t r h) = step-Phase t p q (Reach-Phase r) h

  -- A page asks for one connection at a time, and starts the application at most once.
  pub few-of_Phase : (p : Page S) → Phase p → (p.connecting ≤ 1) × (starts p.effects ≤ 1)
  few-of_Phase p (fresh frame idle none_yet) = (omega (arith, idle), omega (arith, none_yet))
  few-of_Phase p (waiting frame gate_up one none_yet) =
      (omega (arith, one), omega (arith, none_yet))
  few-of_Phase p (failed idle none_yet) = (omega (arith, idle), omega (arith, none_yet))
  few-of_Phase p (handed_over frame gate_up idle few) = (omega (arith, idle), few)
