-- ===== src/Shell/SignIn/Invariant.antt =====
-- web/privasys-shell.js: the invariant of the page's variables and effects.
use attested_harness.Common.{
  one_if, subst, ℕ, zero, suc, ◌+◌, ◌≡◌, refl, ap, ◌∙◌, ◌⊎◌, inl, inr, Bool, true, false, ◌&&◌,
  Option, none, some, List, [], ◌∷◌, In, here, there, Text, if◌then◌else◌, arith,
}
use attested_harness.Shell.SignIn.{
  can_run, Gate, bare, Effect, published, transport_set, install_threw, booted, boot_threw,
  unpublished, reloaded, Page, loaded, Failure, Connected, resolved, rejected, Install, install_ok,
  install_fails, Boot, boot_ok, boot_fails, no_boot, start_run, on_authenticated, settle_run,
  start_logout, finish_logout, Turn, run_called, connect_settled, logout_called, clear_settled,
  settle_pending, step, Reach, at_load, after, after_reject, is_cancelled,
}

bits_of_pending : (n : ℕ) (out : Bool) → n + 1 ≡ one_if out → (n ≡ 0) × (out ≡ true)
bits_of_pending n true h = (omega (arith, h), refl)
bits_of_pending n false h = absurd (omega (arith, h))

module _ {S : Type 0} where
  -- A session was published, and the transport was installed or at least tried.
  abbrev pub Prepared : List (Effect S) → Type 0
  Prepared before =
      (s : S) × In (published s) before × (In transport_set before ⊎ In install_threw before)

  -- The application was never started before that.
  abbrev pub SealedFirst : List (Effect S) → Type 0
  SealedFirst [] = Unit
  SealedFirst (booted ∷ before) = Prepared before × SealedFirst before
  SealedFirst (boot_threw ∷ before) = Prepared before × SealedFirst before
  SealedFirst (_ ∷ before) = SealedFirst before

  -- How often the page was told to reload.
  abbrev pub reloads : List (Effect S) → ℕ
  reloads [] = 0
  reloads (reloaded ∷ before) = suc (reloads before)
  reloads (_ ∷ before) = reloads before

  pub record Inv (p : Page S) : Type 0 where
    pub one_session : p.global ≡ p.sealed
    pub gated : (p.gate_hidden ≡ false) ⊎ ((s : S) × In (published s) p.effects)
    pub sealed_first : SealedFirst p.effects
    pub one_reload : reloads p.effects + one_if p.clearing ≡ one_if p.logging_out

  module _ (name_of : Text → Option Text) where
    Inv-start : (sdk makes : Bool) (p : Page S) → Inv p → Inv (start_run sdk makes p)
    unfolding start_run
    Inv-start true true p v = record {
      one_session = v.one_session;
      gated = inl refl;
      sealed_first = v.sealed_first;
      one_reload = v.one_reload;
    }
    Inv-start true false p v = record {
      one_session = v.one_session;
      gated = inl refl;
      sealed_first = v.sealed_first;
      one_reload = v.one_reload;
    }
    Inv-start false makes p v = record {
      one_session = v.one_session;
      gated = inl refl;
      sealed_first = v.sealed_first;
      one_reload = v.one_reload;
    }

    SealedFirst-boot :
        (s : S) (i : Install) (b : Boot) (es : List (Effect S))
        → SealedFirst es
        → SealedFirst (on_authenticated s i b (record (loaded S) { effects = es })).effects
    unfolding on_authenticated
    SealedFirst-boot s install_ok boot_ok es h = ((s, there (here refl), inl (here refl)), h)
    SealedFirst-boot s install_ok boot_fails es h = ((s, there (here refl), inl (here refl)), h)
    SealedFirst-boot s install_ok no_boot es h = h
    SealedFirst-boot s install_fails boot_ok es h = ((s, there (here refl), inr (here refl)), h)
    SealedFirst-boot s install_fails boot_fails es h = ((s, there (here refl), inr (here refl)), h)
    SealedFirst-boot s install_fails no_boot es h = h

    reloads-boot :
        (s : S) (i : Install) (b : Boot) (es : List (Effect S))
        → reloads (on_authenticated s i b (record (loaded S) { effects = es })).effects ≡ reloads es
    unfolding on_authenticated
    reloads-boot s install_ok boot_ok es = refl
    reloads-boot s install_ok boot_fails es = refl
    reloads-boot s install_ok no_boot es = refl
    reloads-boot s install_fails boot_ok es = refl
    reloads-boot s install_fails boot_fails es = refl
    reloads-boot s install_fails no_boot es = refl

    Inv-reject : (c : Bool) (e : Failure) (p : Page S) → Inv p → Inv (after_reject c e p)
    Inv-reject true e p v = record {
      one_session = v.one_session;
      gated = inl refl;
      sealed_first = v.sealed_first;
      one_reload = v.one_reload;
    }
    Inv-reject false e p v = record {
      one_session = v.one_session;
      gated = inl refl;
      sealed_first = v.sealed_first;
      one_reload = v.one_reload;
    }

    -- What does not show in the invariant may change.
    Inv-same :
        (p : Page S) (g : Gate) (n : Option Text) (k : ℕ)
        → Inv p
        → Inv (record p { gate = g; user_name = n; connecting = k })
    Inv-same p g n k v = record {
      one_session = v.one_session;
      gated = v.gated;
      sealed_first = v.sealed_first;
      one_reload = v.one_reload;
    }

    Inv-settle :
        (i : Install) (b : Boot) (c : Connected S) (p : Page S)
        → Inv p
        → Inv (settle_run name_of i b c p)
    unfolding settle_run
    Inv-settle i b (resolved token none) p v = record {
      one_session = v.one_session;
      gated = inl refl;
      sealed_first = v.sealed_first;
      one_reload = v.one_reload;
    }
    Inv-settle i b (resolved token (some s)) p v = record {
      one_session = refl;
      gated = inr (s, there (there (here refl)));
      sealed_first = SealedFirst-boot s i b p.effects v.sealed_first;
      one_reload = ap (λ n. n + one_if p.clearing) (reloads-boot s i b p.effects) ∙ v.one_reload;
    }
    Inv-settle i b (rejected e) p v =
        Inv-reject (is_cancelled e.code) e (record p { gate = bare })
          (Inv-same p bare p.user_name p.connecting v)

    gated_later :
        (p : Page S) (e : Effect S)
        → (p.gate_hidden ≡ false) ⊎ ((s : S) × In (published s) p.effects)
        → (p.gate_hidden ≡ false) ⊎ ((s : S) × In (published s) (e ∷ p.effects))
    gated_later p e (inl h) = inl h
    gated_later p e (inr (s, i)) = inr (s, there i)

    -- A sign-out ends once: while its clearing is pending, or at once where it is the first.
    Inv-finish :
        (p : Page S)
        → reloads p.effects ≡ 0
        → ((p.gate_hidden ≡ false) ⊎ ((s : S) × In (published s) p.effects))
        → SealedFirst p.effects
        → p.logging_out ≡ true
        → Inv (finish_logout p)
    unfolding finish_logout
    Inv-finish p none_yet hidden first out = record {
      one_session = refl;
      gated =
          gated_later (record p { effects = unpublished ∷ p.effects }) reloaded
            (gated_later p unpublished hidden);
      sealed_first = first;
      one_reload = omega (arith, none_yet, ap one_if out);
    }

    Inv-logout_from :
        (again waits : Bool) (p : Page S)
        → p.logging_out ≡ again
        → Inv p
        → Inv (
            if again
            then p
            else if waits
            then record p { logging_out = true; clearing = true }
            else finish_logout (record p { logging_out = true }))
    Inv-logout_from true waits p e v = v
    Inv-logout_from false true p e v = record {
      one_session = v.one_session;
      gated = v.gated;
      sealed_first = v.sealed_first;
      one_reload = omega (arith, v.one_reload ∙ ap one_if e);
    }
    Inv-logout_from false false p e v =
        Inv-finish (record p { logging_out = true }) (omega (arith, v.one_reload ∙ ap one_if e))
          v.gated v.sealed_first refl

    Inv-logout : (clears : Bool) (p : Page S) → Inv p → Inv (start_logout clears p)
    unfolding start_logout
    Inv-logout clears p v = Inv-logout_from p.logging_out (p.has_frame && clears) p refl v

    Inv-settle_pending :
        (n : ℕ) (i : Install) (b : Boot) (c : Connected S) (p q : Page S)
        → Inv p
        → settle_pending n (settle_run name_of i b c) p ≡ some q
        → Inv q
    Inv-settle_pending zero i b c p q v h = absurd (cc)
    Inv-settle_pending (suc n) i b c p q v h =
        let e : settle_run name_of i b c (record p { connecting = n }) ≡ q = cc in
        subst Inv e
          (Inv-settle i b c (record p { connecting = n }) (Inv-same p p.gate p.user_name n v))

    cleared : (p : Page S) → p.clearing ≡ true → Inv p → Inv (finish_logout p)
    cleared p e v =
        let (none_yet, out) =
          bits_of_pending (reloads p.effects) p.logging_out
            (omega (arith, v.one_reload, ap one_if e)) in
        Inv-finish p none_yet v.gated v.sealed_first out

    Inv-run_if :
        (can sdk makes : Bool) (p q : Page S)
        → Inv p
        → (if can then some (start_run sdk makes p) else none) ≡ some q
        → Inv q
    Inv-run_if true sdk makes p q v h =
        let e : start_run sdk makes p ≡ q = cc in subst Inv e (Inv-start sdk makes p v)
    Inv-run_if false sdk makes p q v h = absurd (cc)

    Inv-clear_if :
        (pending : Bool) (p q : Page S)
        → p.clearing ≡ pending
        → Inv p
        → (if pending then some (finish_logout p) else none) ≡ some q
        → Inv q
    Inv-clear_if true p q e v h =
        let same_page : finish_logout p ≡ q = cc in subst Inv same_page (cleared p e v)
    Inv-clear_if false p q e v h = absurd (cc)

    step-Inv : (t : Turn S) (p q : Page S) → Inv p → step name_of t p ≡ some q → Inv q
    unfolding step
    step-Inv (run_called sdk makes) p q v h = Inv-run_if (can_run p) sdk makes p q v h
    step-Inv (connect_settled i b c) p q v h = Inv-settle_pending p.connecting i b c p q v h
    step-Inv (logout_called clears) p q v h =
        let e : start_logout clears p ≡ q = cc in subst Inv e (Inv-logout clears p v)
    step-Inv clear_settled p q v h = Inv-clear_if p.clearing p q refl v h

    loaded-Inv : Inv (loaded S)
    loaded-Inv = record {
      one_session = refl;
      gated = inl refl;
      sealed_first = tt;
      one_reload = refl;
    }

    pub Reach-Inv : {p : Page S} → Reach name_of p → Inv p
    Reach-Inv at_load = loaded-Inv
    Reach-Inv (after {p} {q} t r h) = step-Inv t p q (Reach-Inv r) h
