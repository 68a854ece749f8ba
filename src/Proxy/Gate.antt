-- ===== src/Proxy/Gate.antt =====
-- proxy/internal/attested, VerifyPeer and dialVerified: which peers get a connection.
use attested_harness.Common.{
  ◌≡◌, refl, ◌⊎◌, inl, inr, Bool, true, false, Option, none, some, List, [], ◌∷◌, map, In, here,
  there, Text, same_iff, Bool-cases, &&_parts,
}
use attested_harness.Proxy.{
  DepSet, enabled, Verdict, admitted, mismatched, undeclared, verdict_of, unlisted, lower,
  digest_or, verify_entries, verify_peer, is_admitted, dial_admits, has_id,
}

module _ {E P : Type 0} (entry_id : E → Text) (app_id : P → Text) (code_hash : P → Option Text)
    (matches : P → E → Bool) (fold : List E → Text) where
  -- The entry declares the peer, and the attestation library finds that the peer meets it.
  abbrev pub Declares : List E → P → Type 0
  Declares es peer = (e : E) × In e es × (entry_id e ≡ app_id peer) × (matches peer e ≡ true)

  -- No entry has the peer's app id, or the peer has none.
  abbrev pub Unlisted : List E → P → Type 0
  Unlisted es peer =
      (e : E) → In e es → has_id entry_id app_id code_hash matches fold peer e ≡ false

  Declares-later : (e : E) (es : List E) (peer : P) → Declares es peer → Declares (e ∷ es) peer
  Declares-later e es peer (d, i, same_id, m) = (d, there i, same_id, m)

  Unlisted-later :
      (e : E) (es : List E) (peer : P)
      → has_id entry_id app_id code_hash matches fold peer e ≡ false
      → Unlisted es peer
      → Unlisted (e ∷ es) peer
  Unlisted-later e es peer h u d (here same_entry) = rw same_entry h
  Unlisted-later e es peer h u d (there i) = u d i

  verdict_true : (b : Bool) → verdict_of b ≡ admitted → b ≡ true
  verdict_true true h = refl
  verdict_true false h = absurd (cc)

  unlisted-true : (b : Bool) → unlisted b ≡ admitted → b ≡ true
  unlisted-true true h = refl
  unlisted-true false h = absurd (cc)

  verify_entries_sound :
      (es : List E) (peer : P) (grant : Bool)
      → verify_entries entry_id app_id code_hash matches fold es peer grant ≡ admitted
      → Declares es peer ⊎ (Unlisted es peer × (grant ≡ true))
  unfolding verify_entries
  verify_entries_sound [] peer grant h = inr (λ e i. elim i [ ], unlisted-true grant h)
  verify_entries_sound (e ∷ es) peer grant h =
      elim (Bool-cases (has_id entry_id app_id code_hash matches fold peer e)) [
        | inl hit ↦
            let (same_id, _) = &&_parts _ _ hit in
            inl
              (e, here refl, (same_iff _ _).0 same_id, verdict_true (matches peer e) (rw hit at h))
        | inr missed ↦ elim (verify_entries_sound es peer grant (rw missed at h)) [
          | inl d ↦ inl (Declares-later e es peer d)
          | inr (u, g) ↦ inr (Unlisted-later e es peer missed u, g)
        ]
      ]

  verify_peer_sound :
      (d : DepSet E) (peer : P) (grant : Bool)
      → enabled d ≡ true
      → verify_peer entry_id app_id code_hash matches fold d peer grant ≡ admitted
      → Declares d.entries peer ⊎ (Unlisted d.entries peer × (grant ≡ true))
  unfolding verify_peer
  verify_peer_sound d peer grant on h = verify_entries_sound d.entries peer grant (rw on at h)

  admitted_of : (v : Verdict) → is_admitted v ≡ true → v ≡ admitted
  admitted_of admitted h = refl
  admitted_of mismatched h = absurd (cc)
  admitted_of undeclared h = absurd (cc)

  -- The peer runs the workload that the host was granted for.
  abbrev pub RunsExpected : Option Text → P → Type 0
  RunsExpected expected peer =
      (want : Text) × (expected ≡ some want)
      × (map lower (digest_or (code_hash peer)) ≡ map lower want)

  -- Once a set that is not empty is loaded, only two kinds of peer get a connection: one that an
  -- entry with its app id declares and that meets the entry, or one that no entry names, on a host
  -- with a grant, and running the digest that the grant expects. In the first case too, it runs
  -- the expected digest if the host has one.
  pub dial_admits-Declares :
      (d : DepSet E) (expected : Option Text) (peer : P)
      → enabled d ≡ true
      → dial_admits entry_id app_id code_hash matches fold d expected peer ≡ true
      → ((expected ≡ none) ⊎ RunsExpected expected peer)
        × (Declares d.entries peer ⊎ (Unlisted d.entries peer × RunsExpected expected peer))
  unfolding dial_admits
  dial_admits-Declares d none peer on h =
      let (gate, _) = &&_parts _ _ h in
      elim (verify_peer_sound d peer false on (admitted_of _ gate)) [
        | inl declared' ↦ (inl refl, inl declared')
        | inr (u, g) ↦ absurd (cc)
      ]
  dial_admits-Declares d (some want) peer on h =
      let (gate, pin) = &&_parts _ _ h in
      let runs : RunsExpected (some want) peer = (want, refl, (same_iff _ _).0 pin) in
      elim (verify_peer_sound d peer true on (admitted_of _ gate)) [
        | inl declared' ↦ (inr runs, inl declared')
        | inr (u, g) ↦ (inr runs, inr (u, runs))
      ]
