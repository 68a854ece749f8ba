-- ===== src/Shell/SignIn.antt =====
-- web/privasys-shell.js: the sign-in flow, the hand-over of the sealed session to the page's
-- application, and sign-out. The SDK's answers and what throws are inputs of the steps.
pub mod Claims
pub mod OneBoot
pub mod Invariant
pub mod Laws
use attested_harness.Common.{
  ◌≡◌, ℕ, zero, suc, ◌+◌, Bool, true, false, not, ◌&&◌, ◌||◌, Option, none, some, List, [], ◌∷◌,
  ◌++◌, Text, codes, same, if◌then◌else◌, here, there,
}

-- What fills the gate: nothing, the connecting toast, or the fallback panel.
pub data Gate : Type 0 where
  bare toast : Gate
  fallback : (message : Text) (closed : Bool) → Gate

-- What the page sees happen, in order.
pub data Effect (S : Type 0) : Type 0 where
  hid_gate showed_chrome : Effect S
  published : S → Effect S
  transport_set install_threw : Effect S
  booted boot_threw boot_missing : Effect S
  unpublished reloaded : Effect S

-- The module's variables and the globals that it writes; the newest effect comes first.
-- `connecting` counts the calls of `connect` that have not settled, and `clearing` is true while
-- `clearSession` has not.
pub record Page (S : Type 0) : Type 0 where
  pub gate : Gate
  pub gate_hidden : Bool
  pub has_frame : Bool
  pub sealed : Option S
  pub global : Option S
  pub user_name : Option Text
  pub logging_out : Bool
  pub clearing : Bool
  pub connecting : ℕ
  pub effects : List (Effect S)

abbrev pub loaded : (S : Type 0) → Page S
loaded S = record {
  gate = bare;
  gate_hidden = false;
  has_frame = false;
  sealed = none;
  global = none;
  user_name = none;
  logging_out = false;
  clearing = false;
  connecting = 0;
  effects = [];
}

-- `err`, as the handler reads it: its code, its message and its own text, missing where falsy.
pub record Failure : Type 0 where
  pub code : Option Text
  pub message : Option Text
  pub as_text : Option Text

-- How `connect()` settles.
pub data Connected (S : Type 0) : Type 0 where
  resolved : (token : Text) (session : Option S) → Connected S
  rejected : Failure → Connected S

-- What installing the transport and booting the application do.
pub data Install : Type 0 where
  install_ok install_fails : Install

pub data Boot : Type 0 where
  boot_ok boot_fails no_boot : Boot

-- `showAuthFallback`.
abbrev pub show_fallback : {S : Type 0} → Text → Bool → Page S → Page S
show_fallback message closed p = record p { gate = fallback message closed; gate_hidden = false }

-- The ways into `run`: with the SDK's script loaded or not, and with the frame made or its
-- constructor throwing, which `run` does not catch: the toast stays, and `frame` is as it was.
unfoldable pub start_run : {S : Type 0} → (sdk makes_frame : Bool) → Page S → Page S
start_run true true p = record p {
  gate = toast;
  gate_hidden = false;
  has_frame = true;
  connecting = suc p.connecting;
}
start_run true false p = record p { gate = toast; gate_hidden = false }
start_run false makes_frame p =
    show_fallback (codes "The Privasys authentication script did not load. Reload the page.") false
      p

abbrev install_effect : {S : Type 0} → Install → Effect S
install_effect install_ok = transport_set
install_effect install_fails = install_threw

abbrev boot_effect : {S : Type 0} → Boot → Effect S
boot_effect boot_ok = booted
boot_effect boot_fails = boot_threw
boot_effect no_boot = boot_missing

-- `onAuthenticated`: the gate goes first, then the session is published, the transport installed
-- and the application booted; neither of the last two stops the other.
unfoldable pub on_authenticated : {S : Type 0} → S → Install → Boot → Page S → Page S
on_authenticated s i b p = record p {
  gate = bare;
  gate_hidden = true;
  sealed = some s;
  global = some s;
  effects = boot_effect b ∷ install_effect i ∷ published s ∷ showed_chrome ∷ hid_gate ∷ p.effects;
}

abbrev no_session_text : Text
no_session_text =
    codes
      "Signed in, but the enclave returned no sealed session. The harness requires end-to-end encryption. Please try again."

abbrev first_of : Option Text → Text → Text
first_of none t = t
first_of (some s) t = s

-- `String(err?.message || err || 'Sign-in failed') + '.'`.
abbrev failure_text : Failure → Text
failure_text e = first_of e.message (first_of e.as_text (codes "Sign-in failed")) ++ codes "."

abbrev is_cancelled : Option Text → Bool
is_cancelled none = false
is_cancelled (some c) = same c (codes "cancelled")

abbrev after_reject : {S : Type 0} → Bool → Failure → Page S → Page S
after_reject true e p = show_fallback (codes "Sign-in was closed.") true p
after_reject false e p = show_fallback (failure_text e) false p

-- The rest of `run`, behind `await frame.connect()`. The claim decoder is a parameter here.
unfoldable pub settle_run :
    {S : Type 0} → (Text → Option Text) → Install → Boot → Connected S → Page S → Page S
unfolding on_authenticated
settle_run name_of i b (resolved token none) p =
    show_fallback no_session_text false (record p { gate = bare; user_name = name_of token })
settle_run name_of i b (resolved token (some s)) p =
    on_authenticated s i b (record p { gate = bare; user_name = name_of token })
settle_run name_of i b (rejected e) p =
    after_reject (is_cancelled e.code) e (record p { gate = bare })

-- The end of `logout`, behind the clearing of the session, whatever came of that.
unfoldable pub finish_logout : {S : Type 0} → Page S → Page S
finish_logout p = record p {
  clearing = false;
  sealed = none;
  global = none;
  effects = reloaded ∷ unpublished ∷ p.effects;
}

-- `logout` up to its `await`, or to its end where there is nothing to wait for: no frame, or one
-- whose `clearSession` is missing or throws at once. A second call does nothing.
unfoldable pub start_logout : {S : Type 0} → (clears : Bool) → Page S → Page S
unfolding finish_logout
start_logout clears p =
    if p.logging_out
    then p
    else if p.has_frame && clears
    then record p { logging_out = true; clearing = true }
    else finish_logout (record p { logging_out = true })

-- One turn of the page.
pub data Turn (S : Type 0) : Type 0 where
  run_called : (sdk makes_frame : Bool) → Turn S
  connect_settled : Install → Boot → Connected S → Turn S
  logout_called : (clears : Bool) → Turn S
  clear_settled : Turn S

abbrev pub is_fallback : Gate → Bool
is_fallback (fallback message closed) = true
is_fallback _ = false

abbrev pub is_bare : Gate → Bool
is_bare bare = true
is_bare _ = false

-- `run` is called when the page loads, where the gate is still bare, and by the button of the
-- fallback panel.
abbrev pub can_run : {S : Type 0} → Page S → Bool
can_run p = (not p.has_frame && is_bare p.gate) || is_fallback p.gate

abbrev settle_pending : {S : Type 0} → ℕ → (Page S → Page S) → Page S → Option (Page S)
settle_pending zero f p = none
settle_pending (suc n) f p = some (f (record p { connecting = n }))

-- A turn that can happen: a promise settles only if it is pending.
unfoldable pub step : {S : Type 0} → (Text → Option Text) → Turn S → Page S → Option (Page S)
unfolding start_run settle_run start_logout finish_logout
step name_of (run_called sdk makes_frame) p =
    if can_run p then some (start_run sdk makes_frame p) else none
step name_of (connect_settled i b c) p = settle_pending p.connecting (settle_run name_of i b c) p
step name_of (logout_called clears) p = some (start_logout clears p)
step name_of clear_settled p = if p.clearing then some (finish_logout p) else none

pub data Reach {S : Type 0} (name_of : Text → Option Text) : Page S → Type 0 where
  at_load : Reach name_of (loaded S)
  after :
      {p q : Page S} (t : Turn S) → Reach name_of p → step name_of t p ≡ some q → Reach name_of q
