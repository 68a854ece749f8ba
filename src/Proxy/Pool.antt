-- ===== src/Proxy/Pool.antt =====
-- proxy/internal/attested: the connections of the transport's pool, idle and in use, over the
-- refreshes of the dependency set. main.go wires OnChange to CloseIdleConnections, which closes the
-- idle ones and leaves those in use. A connection that was closed for another reason is only
-- missing from the pool, so that it is not modelled.
pub mod Laws
use attested_harness.Common.{
  Bool, true, false, Option, none, some, List, [], ◌∷◌, Text, ℕ, zero, suc, ◌||◌, map,
}
use attested_harness.Proxy.{DepSet, Answer, refresh, Refreshed, dial_admits}

-- A verified connection: its peer, the digest that its host expects, whether a dependency set was
-- loaded when its dial passed the gates, and whether it was in use when OnChange last closed the
-- idle ones.
pub record Conn (P : Type 0) : Type 0 where
  pub peer : P
  pub expected : Option Text
  pub gated : Bool
  pub left_open : Bool

-- `due` stands for a change of the set whose OnChange has not been call_on_change yet.
pub record Proxy (E P : Type 0) : Type 0 where
  pub deps : DepSet E
  pub idle : List (Conn P)
  pub in_use : List (Conn P)
  pub due : Bool

abbrev pub started : {E P : Type 0} → DepSet E → Proxy E P
started d = record { deps = d; idle = []; in_use = []; due = false }

-- A refresh up to the call of OnChange, and that call; a dial, at the moment of its gates; and the
-- pool's own moves of a connection, by its place: the end of its request, and its next request.
pub data Action (E P : Type 0) : Type 0 where
  refreshed : Answer E → Action E P
  on_change : Action E P
  dialled : P → (expected : Option Text) → Action E P
  returned reused : (place : ℕ) → Action E P

abbrev pub behind_first : {A : Type 0} → A → Option (A × List A) → Option (A × List A)
behind_first x none = none
behind_first x (some (y, rest)) = some (y, x ∷ rest)

-- The element at the place, and the others.
abbrev pub pick : {A : Type 0} → ℕ → List A → Option (A × List A)
pick place [] = none
pick zero (x ∷ xs) = some (x, xs)
pick (suc place) (x ∷ xs) = behind_first x (pick place xs)

abbrev pub put_idle : {E P : Type 0} → Proxy E P → Option (Conn P × List (Conn P)) → Proxy E P
put_idle s none = s
put_idle s (some (c, rest)) = record s { idle = c ∷ s.idle; in_use = rest }

abbrev pub put_in_use : {E P : Type 0} → Proxy E P → Option (Conn P × List (Conn P)) → Proxy E P
put_in_use s none = s
put_in_use s (some (c, rest)) = record s { idle = rest; in_use = c ∷ s.in_use }

-- `CloseIdleConnections`.
unfoldable pub close_idle : {E P : Type 0} → Proxy E P → Proxy E P
close_idle s = record s {
  idle = [];
  in_use = map (λ (c : Conn _). record c { left_open = true }) s.in_use;
}

abbrev pub call_on_change : {E P : Type 0} → Bool → Proxy E P → Proxy E P
call_on_change true s = record (close_idle s) { due = false }
call_on_change false s = s

abbrev pub after_refresh : {E P : Type 0} → Refreshed E → Proxy E P → Proxy E P
after_refresh r s = record s { deps = r.next; due = s.due || r.changed }

abbrev pub put_dialled : {E P : Type 0} → Bool → P → Option Text → Proxy E P → Proxy E P
put_dialled false peer expected s = s
put_dialled true peer expected s = record s {
  in_use =
      record { peer = peer; expected = expected; gated = s.deps.loaded; left_open = false }
      ∷ s.in_use;
}

module _ {E P : Type 0} (entry_id : E → Text) (app_id : P → Text) (code_hash : P → Option Text)
    (matches : P → E → Bool) (fold : List E → Text) where
  unfoldable pub step : Action E P → Proxy E P → Proxy E P
  unfolding refresh dial_admits close_idle
  step (refreshed a) s = after_refresh (refresh entry_id app_id code_hash matches fold a s.deps) s
  step on_change s = call_on_change s.due s
  step (dialled peer expected) s =
      put_dialled (dial_admits entry_id app_id code_hash matches fold s.deps expected peer) peer
        expected s
  step (returned place) s = put_idle s (pick place s.in_use)
  step (reused place) s = put_in_use s (pick place s.idle)

  unfoldable pub run : List (Action E P) → Proxy E P → Proxy E P
  unfolding step
  run [] s = s
  run (a ∷ actions) s = run actions (step a s)
