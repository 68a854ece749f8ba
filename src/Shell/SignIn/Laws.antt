-- ===== src/Shell/SignIn/Laws.antt =====
-- web/privasys-shell.js: what holds of the page after every history of turns.
use attested_harness.Common.{
  one_if, ℕ, ◌+◌, ◌≡◌, ◌≢◌, refl, ap, ◌⊎◌, inl, inr, Bool, true, false, Option, none, some, there,
  here, In, Text, codes, arith, same_iff, ◌≤◌,
}
use attested_harness.Shell.SignIn.{
  bare, fallback, published, Page, Failure, Connected, resolved, rejected, Install, Boot,
  settle_run, Reach, after_reject, is_cancelled,
}
use attested_harness.Shell.SignIn.OneBoot.{starts, Reach-Phase, few-of_Phase}
use attested_harness.Shell.SignIn.Invariant.{SealedFirst, reloads, Reach-Inv}

is_cancelled_code : (o : Option Text) → is_cancelled o ≡ true → o ≡ some (codes "cancelled")
is_cancelled_code none h = absurd (cc)
is_cancelled_code (some c) h = ap (λ t. some t) ((same_iff c (codes "cancelled")).0 h)

module _ {S : Type 0} where
  module _ (name_of : Text → Option Text) where
    -- In every history of the page: the application is started only behind a published sealed
    -- session and an installed or attempted transport, and at most once, and at most one connection
    -- is asked for at a time; the gate is hidden only if a session was published; the global and
    -- the module's own session are the same.
    pub Reach-SealedFirst :
        (p : Page S)
        → Reach name_of p
        → SealedFirst p.effects
          × ((p.gate_hidden ≡ false) ⊎ ((s : S) × In (published s) p.effects))
          × (p.global ≡ p.sealed)
          × (p.connecting ≤ 1)
          × (starts p.effects ≤ 1)
    Reach-SealedFirst p r =
        let v = Reach-Inv name_of r in
        let (one_connect, one_start) = few-of_Phase p (Reach-Phase name_of r) in
        (v.sealed_first, v.gated, v.one_session, one_connect, one_start)

    -- However often sign-out is asked for, and however the clearing of the session ends, the page
    -- is told to reload at most once: never before a sign-out, and otherwise as soon as the
    -- clearing of the session has settled, and not while it has not.
    pub Reach-one_reload :
        (p : Page S)
        → Reach name_of p
        → ((p.logging_out ≡ false) × (reloads p.effects ≡ 0))
          ⊎ ((p.logging_out ≡ true) × (p.clearing ≡ false) × (reloads p.effects ≡ 1))
          ⊎ ((p.logging_out ≡ true) × (p.clearing ≡ true) × (reloads p.effects ≡ 0))
    Reach-one_reload p r =
        exactly p.clearing p.logging_out (reloads p.effects) (Reach-Inv name_of r).one_reload
      where
        exactly :
            (clearing out : Bool) (n : ℕ)
            → n + one_if clearing ≡ one_if out
            → ((out ≡ false) × (n ≡ 0))
              ⊎ ((out ≡ true) × (clearing ≡ false) × (n ≡ 1))
              ⊎ ((out ≡ true) × (clearing ≡ true) × (n ≡ 0))
        exactly clearing false n h = inl (refl, omega arith)
        exactly false true n h = inr (inl (refl, refl, omega arith))
        exactly true true n h = inr (inr (refl, refl, omega arith))

    after_reject-fallback :
        (cancelled : Bool) (e : Failure) (p : Page S)
        → is_cancelled e.code ≡ cancelled
        → (m : Text) × (closed : Bool) × ((after_reject cancelled e p).gate ≡ fallback m closed)
          × (closed ≡ true → e.code ≡ some (codes "cancelled"))
          × ((after_reject cancelled e p).gate_hidden ≡ false)
          × ((after_reject cancelled e p).effects ≡ p.effects)
    after_reject-fallback true e p h = (_, _, refl, λ c. is_cancelled_code e.code h, refl, refl)
    after_reject-fallback false e p h = (_, _, refl, λ c. absurd (cc), refl, refl)

    -- However `connect` settles, the page is never left blank: either it returned a session, the
    -- gate is hidden and that session is the published one; or it returned none, the gate shows a
    -- panel with its sign-in button, which reads as closed only for the code "cancelled", and
    -- nothing was started.
    pub settle_run_cases :
        (i : Install) (b : Boot) (c : Connected S) (p : Page S)
        → let q = settle_run name_of i b c p in
          ((token : Text) × (s : S) × (c ≡ resolved token (some s))
            × (q.gate_hidden ≡ true)
            × (q.global ≡ some s)
            × In (published s) q.effects)
          ⊎ (((token : Text) (s : S) → c ≢ resolved token (some s))
              × ((m : Text) × (closed : Bool) × (q.gate ≡ fallback m closed)
                  × (closed ≡ true
                      → (e : Failure) × (c ≡ rejected e) × (e.code ≡ some (codes "cancelled")))
                  × (q.gate_hidden ≡ false)
                  × (q.effects ≡ p.effects)))
    unfolding settle_run
    settle_run_cases i b (resolved token none) p =
        inr (λ t s e. absurd (cc), (_, _, refl, λ c. absurd (cc), refl, refl))
    settle_run_cases i b (resolved token (some s)) p =
        inl (token, s, refl, refl, refl, there (there (here refl)))
    settle_run_cases i b (rejected e) p =
        let (m, closed, shown, code, hidden, same_effects) =
          after_reject-fallback (is_cancelled e.code) e (record p { gate = bare }) refl in
        inr (λ t s h. absurd (cc), (m, closed, shown, λ c. (e, refl, code c), hidden, same_effects))
