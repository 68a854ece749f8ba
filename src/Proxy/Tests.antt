-- ===== src/Proxy/Tests.antt =====
-- The egress proxy at concrete dependency sets. A peer and an entry are numbers: the app id is the
-- text of that one code, and a peer meets its entry if it is below ten.
use attested_harness.Common.{
  ◌≡◌, refl, ap, ◌⊎◌, ℕ, Bool, true, false, Option, none, some, List, [], ◌∷◌, Text, All, codes,
  ltb,
}
use attested_harness.Proxy.{
  DepSet, Answer, failed, answered, enabled, refresh, dial_admits, verify_peer, verify_entries,
  fold_of,
}
use attested_harness.Proxy.Gate.{Declares, Unlisted, RunsExpected, dial_admits-Declares}
use attested_harness.Proxy.Refresh.{refresh_all, refresh_all-last_good}
use attested_harness.Proxy.Pool.{
  Action, refreshed, on_change, dialled, returned, step, run, started, close_idle,
}
use attested_harness.Proxy.Pool.Laws.{Current, FoldDecides, run-Current}

tested : Unit {0}
unfolding enabled refresh dial_admits verify_peer verify_entries refresh_all step run close_idle
tested = tt

abbrev id_of : ℕ → Text
id_of n = n ∷ []

abbrev hash_of : ℕ → Option Text
hash_of n = some (codes "ab")

abbrev meets : ℕ → ℕ → Bool
meets peer entry = ltb peer 10

-- A fold that keeps every entry.
abbrev all_ids : List ℕ → Text
all_ids es = es

abbrev set_of : List ℕ → DepSet ℕ
set_of es = record { entries = es; loaded = true; configured = true }

declared_test : dial_admits id_of id_of hash_of meets all_ids (set_of (4 ∷ 5 ∷ [])) none 5 ≡ true
unfolding tested
declared_test = refl

undeclared_test : dial_admits id_of id_of hash_of meets all_ids (set_of (4 ∷ 5 ∷ [])) none 6 ≡ false
unfolding tested
undeclared_test = refl

granted_test :
    dial_admits id_of id_of hash_of meets all_ids (set_of (4 ∷ [])) (some (codes "AB")) 6 ≡ true
unfolding tested
granted_test = refl

-- A loaded set that is empty admits every peer.
emptied_test : dial_admits id_of id_of hash_of meets all_ids (set_of []) none 6 ≡ true
unfolding tested
emptied_test = refl

dial_admits-Declares_example :
    ((some (codes "AB") ≡ none)
      ⊎ RunsExpected id_of id_of hash_of meets all_ids (some (codes "AB")) 6)
    × (Declares id_of id_of hash_of meets all_ids (4 ∷ []) 6
        ⊎ (Unlisted id_of id_of hash_of meets all_ids (4 ∷ []) 6
            × RunsExpected id_of id_of hash_of meets all_ids (some (codes "AB")) 6))
unfolding tested
dial_admits-Declares_example =
    dial_admits-Declares id_of id_of hash_of meets all_ids (set_of (4 ∷ [])) (some (codes "AB")) 6
      refl refl

abbrev history : List (Answer ℕ)
history = failed ∷ answered 200 (some (some (4 ∷ []))) ∷ answered 500 none ∷ answered 404 none ∷ []

refresh_all-last_good_example :
    ((refresh_all id_of id_of hash_of meets all_ids history (set_of (5 ∷ []))).entries ≡ 4 ∷ [])
    × ((set_of (5 ∷ [])).loaded ≡ true
        → (refresh_all id_of id_of hash_of meets all_ids history (set_of (5 ∷ []))).loaded ≡ true)
refresh_all-last_good_example =
    refresh_all-last_good id_of id_of hash_of meets all_ids history (set_of (5 ∷ [])) refl

ids_decide : FoldDecides id_of id_of hash_of meets all_ids
ids_decide es es' loaded on expected peer h =
    ap
      (λ l.
        dial_admits id_of id_of hash_of meets all_ids
          (record { entries = l; loaded = loaded; configured = on }) expected peer)
      (same_ids es es' h)
  where
    same_ids :
        (es es' : List ℕ)
        → fold_of id_of id_of hash_of meets all_ids es
          ≡ fold_of id_of id_of hash_of meets all_ids es'
        → es ≡ es'
    same_ids [] [] h = refl
    same_ids [] (e ∷ es) h = h
    same_ids (e ∷ es) [] h = h
    same_ids (e ∷ es) (e' ∷ es') h = h

-- Peer 4 is in use over a change of the set, and idles afterwards; peer 5 is dialled under it.
abbrev over_a_change : List (Action ℕ ℕ)
over_a_change =
    dialled 4 none
    ∷ refreshed (answered 200 (some (some (5 ∷ []))))
    ∷ on_change
    ∷ returned 0
    ∷ dialled 5 none
    ∷ []

run-Current_example :
    let s = run id_of id_of hash_of meets all_ids over_a_change (started (set_of (4 ∷ []))) in
    All (Current id_of id_of hash_of meets all_ids s.deps) s.idle
    × All (Current id_of id_of hash_of meets all_ids s.deps) s.in_use
unfolding tested
run-Current_example =
    run-Current id_of id_of hash_of meets all_ids over_a_change (set_of (4 ∷ [])) ids_decide refl

-- A connection that was in use over a change of the set idles under a set that refuses its peer.
late_test :
    (run id_of id_of hash_of meets all_ids over_a_change (started (set_of (4 ∷ [])))).idle
    ≡ record { peer = 4; expected = none; gated = true; left_open = true } ∷ []
unfolding tested
late_test = refl

refused_test : dial_admits id_of id_of hash_of meets all_ids (set_of (5 ∷ [])) none 4 ≡ false
unfolding tested
refused_test = refl

-- So does one that was dialled before the first load, which asks for no OnChange.
early_test :
    (run id_of id_of hash_of meets all_ids
      (dialled 6 none
        ∷ returned 0
        ∷ refreshed (answered 200 (some (some (4 ∷ []))))
        ∷ on_change
        ∷ [])
      (started (record { entries = []; loaded = false; configured = true }))).idle
    ≡ record { peer = 6; expected = none; gated = false; left_open = false } ∷ []
unfolding tested
early_test = refl
