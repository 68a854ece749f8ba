-- ===== src/Inspect/Mint.antt =====
-- web/overlay/brand/PrivasysAttestation.tsx and web/overlay/trajectory/PrivasysAttestationTab.tsx,
-- stableAttestationToken: the token that verifies a quote, asked for by every render.
use attested_harness.Common.{
  ℕ, suc, ◌≡◌, refl, Bool, true, false, Option, none, some, List, [], ◌∷◌, All, ap, if◌then◌else◌,
}

-- A promise: that of the numbered call of getTokenForAudience, or the one that was rejected since
-- there is no such function.
pub data Promise : Type 0 where
  of_call : (call : ℕ) → Promise
  not_ready : Promise

-- `mintPromise`, and how often a token was requested.
pub record Mint : Type 0 where
  pub promise : Option Promise
  pub calls : ℕ

abbrev pub unminted : Mint
unminted = record { promise = none; calls = 0 }

abbrev request : Bool → Mint → Promise × Mint
request true m = (of_call m.calls, record { promise = some (of_call m.calls); calls = suc m.calls })
request false m = (not_ready, record m { promise = some not_ready })

abbrev reuse_or_request : Option Promise → Bool → Mint → Promise × Mint
reuse_or_request none ready m = request ready m
reuse_or_request (some p) ready m = (p, m)

-- `stableAttestationToken`; the flag says whether the shell has getTokenForAudience by then.
unfoldable pub stable_attestation_token : Bool → Mint → Promise × Mint
stable_attestation_token ready m = reuse_or_request m.promise ready m

-- The promises that a row of renders gets, and the variables after it.
unfoldable pub ask_all : List Bool → Mint → List Promise × Mint
unfolding stable_attestation_token
ask_all [] m = ([], m)
ask_all (ready ∷ rest) m =
    let (p, next) = stable_attestation_token ready m in
    let (ps, end) = ask_all rest next in (p ∷ ps, end)

ask_all-memo :
    (later : List Bool) (p : Promise) (n : ℕ)
    → let (ps, end) = ask_all later (record { promise = some p; calls = n }) in
      All (λ q. q ≡ p) ps × (end ≡ record { promise = some p; calls = n })
unfolding ask_all
ask_all-memo [] p n = (tt, refl)
ask_all-memo (ready ∷ later) p n =
    let (same_promise, end) = ask_all-memo later p n in ((refl, same_promise), end)

-- However many renders ask, and whether or not the shell was ready for each, all get one and the
-- same promise, that of the first, and a token is requested once if the shell was ready for the
-- first and never if it was not.
pub ask_all-single :
    (first : Bool) (later : List Bool)
    → let (ps, end) = ask_all (first ∷ later) unminted in
      All (λ p. p ≡ (if first then of_call 0 else not_ready)) ps
      × (end.calls ≡ (if first then 1 else 0))
unfolding ask_all
ask_all-single true later =
    let (same_promise, end) = ask_all-memo later (of_call 0) 1 in
    ((refl, same_promise), ap (λ m. m.calls) end)
ask_all-single false later =
    let (same_promise, end) = ask_all-memo later not_ready 0 in
    ((refl, same_promise), ap (λ m. m.calls) end)
