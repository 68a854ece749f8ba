-- ===== src/Proxy/Pool/Laws.antt =====
-- proxy/internal/attested: which connections of the transport's pool pass the gates of the
-- dependency set as it is.
use attested_harness.Common.{
  ◌≡◌, refl, sym, ap, ◌∙◌, inl, inr, Bool, true, false, Option, none, some, List, [], ◌∷◌, Text,
  All, All-mono, ℕ, zero, suc, ◌||◌, map, arith, same, same_iff, ◌==◌, Bool-cases, if◌then◌else◌,
}
use attested_harness.Proxy.{
  DepSet, Answer, failed, answered, declared, refresh, Refreshed, dial_admits, fold_of, install,
  decode, take_answer,
}
use attested_harness.Proxy.Pool.{
  Conn, Proxy, started, Action, refreshed, on_change, dialled, returned, reused, behind_first, pick,
  put_idle, put_in_use, close_idle, call_on_change, put_dialled, step, run,
}

module _ {E P : Type 0} (entry_id : E → Text) (app_id : P → Text) (code_hash : P → Option Text)
    (matches : P → E → Bool) (fold : List E → Text) where
  -- A connection passes the gates of the set, if it was dialled under a loaded set and was not in
  -- use when OnChange closed the idle ones.
  abbrev pub Current : DepSet E → Conn P → Type 0
  Current d c =
      c.gated ≡ true
      → c.left_open ≡ false
      → (d.loaded ≡ true)
        × (dial_admits entry_id app_id code_hash matches fold d c.expected c.peer ≡ true)

  -- Two sets with the same fold admit the same peers.
  abbrev pub FoldDecides : Type 0
  FoldDecides =
      (es es' : List E) (loaded on : Bool) (expected : Option Text) (peer : P)
      → fold_of entry_id app_id code_hash matches fold es
        ≡ fold_of entry_id app_id code_hash matches fold es'
      → dial_admits entry_id app_id code_hash matches fold
          (record { entries = es; loaded = loaded; configured = on }) expected peer
        ≡ dial_admits entry_id app_id code_hash matches fold
            (record { entries = es'; loaded = loaded; configured = on }) expected peer

  kept-Current :
      (next : List E) (d : DepSet E) (c : Conn P)
      → FoldDecides
      → fold_of entry_id app_id code_hash matches fold d.entries
        ≡ fold_of entry_id app_id code_hash matches fold next
      → Current d c
      → Current (record d { entries = next; loaded = true }) c
  kept-Current next d c decides e h g still =
      let (loaded, admits) = h g still in
      (
        refl,
        ap
              (λ b.
                dial_admits entry_id app_id code_hash matches fold
                  (record { entries = next; loaded = b; configured = d.configured }) c.expected
                  c.peer)
              (sym loaded)
            ∙ sym (decides d.entries next d.loaded d.configured c.expected c.peer e)
            ∙ admits,
      )

  install-Current :
      (next : List E) (d : DepSet E) (pool : List (Conn P))
      → FoldDecides
      → All (Current d) pool
      → let r = install entry_id app_id code_hash matches fold next d in
        All (Current r.next) (if r.changed then [] else pool)
  install-Current next d pool decides h = elim (Bool-cases d.loaded) [
    | inl on ↦
        elim (Bool-cases (
          same (fold_of entry_id app_id code_hash matches fold d.entries)
            (fold_of entry_id app_id code_hash matches fold next))) [
              | inl equal ↦
                  simp (on, equal)
                    (All-mono (Current d) (Current (record d { entries = next; loaded = true }))
                      pool (λ c. kept-Current next d c decides ((same_iff _ _).0 equal)) h)
              | inr moved ↦ simp (on, moved) tt
            ]
    | inr off ↦ simp off (
        All-mono (Current d) (Current (record d { entries = next; loaded = true })) pool
          (λ c cur g still. absurd (cc ((cur g still).0, off))) h)
  ]

  -- A refresh that does not ask for OnChange keeps what passes the set.
  abbrev Fine : Refreshed E → List (Conn P) → Type 0
  Fine r pool = All (Current r.next) (if r.changed then [] else pool)

  if-Fine :
      (b : Bool) (r r' : Refreshed E) (pool : List (Conn P))
      → Fine r pool
      → Fine r' pool
      → Fine (if b then r else r') pool
  if-Fine true r r' pool h h' = h
  if-Fine false r r' pool h h' = h'

  decode-Fine :
      (payload : Option (Option (List E))) (d : DepSet E) (pool : List (Conn P))
      → FoldDecides
      → All (Current d) pool
      → Fine (decode entry_id app_id code_hash matches fold payload d) pool
  decode-Fine none d pool decides h = h
  decode-Fine (some payload) d pool decides h = install-Current (declared payload) d pool decides h

  take_answer-Fine :
      (a : Answer E) (d : DepSet E) (pool : List (Conn P))
      → FoldDecides
      → All (Current d) pool
      → Fine (take_answer entry_id app_id code_hash matches fold a d) pool
  take_answer-Fine failed d pool decides h = h
  take_answer-Fine (answered status payload) d pool decides h =
      if-Fine (status == 404) _ _ pool h
        (if-Fine (status == 200) _ _ pool (decode-Fine payload d pool decides h) h)

  refresh-Fine :
      (a : Answer E) (d : DepSet E) (pool : List (Conn P))
      → FoldDecides
      → All (Current d) pool
      → Fine (refresh entry_id app_id code_hash matches fold a d) pool
  unfolding refresh
  refresh-Fine a d pool decides h =
      if-Fine d.configured _ _ pool (take_answer-Fine a d pool decides h) h

  -- While no call of OnChange is due, every connection passes the set.
  abbrev Inv : Proxy E P → Type 0
  Inv s = s.due ≡ false → All (Current s.deps) s.idle × All (Current s.deps) s.in_use

  or_false : (a b : Bool) → (a || b) ≡ false → (a ≡ false) × (b ≡ false)
  or_false a b h = ground arith

  unchanged-All :
      (r : Refreshed E) (pool : List (Conn P))
      → r.changed ≡ false
      → Fine r pool
      → All (Current r.next) pool
  unchanged-All r pool e h = rw e at h

  refreshed-Inv :
      (a : Answer E) (s : Proxy E P)
      → FoldDecides
      → Inv s
      → Inv (step entry_id app_id code_hash matches fold (refreshed a) s)
  unfolding step
  refreshed-Inv a s decides h quiet =
      let r = refresh entry_id app_id code_hash matches fold a s.deps in
      let (before, unchanged) = or_false s.due r.changed quiet in
      let (idle_fine, in_use_fine) = h before in
      (
        unchanged-All r s.idle unchanged (refresh-Fine a s.deps s.idle decides idle_fine),
        unchanged-All r s.in_use unchanged (refresh-Fine a s.deps s.in_use decides in_use_fine),
      )

  left_open-All :
      (d : DepSet E) (cs : List (Conn P))
      → All (Current d) (map (λ (c : Conn P). record c { left_open = true }) cs)
  left_open-All d [] = tt
  left_open-All d (c ∷ cs) = (λ g still. absurd (cc), left_open-All d cs)

  call_on_change-Inv : (due : Bool) (s : Proxy E P) → Inv s → Inv (call_on_change due s)
  unfolding close_idle
  call_on_change-Inv true s h quiet = (tt, left_open-All s.deps s.in_use)
  call_on_change-Inv false s h quiet = h quiet

  put_dialled-Inv :
      (b : Bool) (peer : P) (expected : Option Text) (s : Proxy E P)
      → dial_admits entry_id app_id code_hash matches fold s.deps expected peer ≡ b
      → Inv s
      → Inv (put_dialled b peer expected s)
  put_dialled-Inv false peer expected s e h quiet = h quiet
  put_dialled-Inv true peer expected s e h quiet =
      let (idle_fine, in_use_fine) = h quiet in (idle_fine, (λ g still. (g, e), in_use_fine))

  abbrev Picked : DepSet E → Option (Conn P × List (Conn P)) → Type 0
  Picked d none = Unit
  Picked d (some (c, rest)) = Current d c × All (Current d) rest

  pick-Picked :
      (d : DepSet E) (place : ℕ) (cs : List (Conn P))
      → All (Current d) cs
      → Picked d (pick place cs)
  pick-Picked d place [] h = tt
  pick-Picked d zero (c ∷ cs) h = h
  pick-Picked d (suc place) (c ∷ cs) (h, hs) = behind (pick place cs) (pick-Picked d place cs hs)
    where
      behind : (o : Option (Conn P × List (Conn P))) → Picked d o → Picked d (behind_first c o)
      behind none p = tt
      behind (some (x, rest)) (px, prest) = (px, (h, prest))

  put_idle-Inv :
      (s : Proxy E P) (o : Option (Conn P × List (Conn P)))
      → (s.due ≡ false → Picked s.deps o)
      → Inv s
      → Inv (put_idle s o)
  put_idle-Inv s none p h quiet = h quiet
  put_idle-Inv s (some (c, rest)) p h quiet =
      let (here', others) = p quiet in ((here', (h quiet).0), others)

  put_in_use-Inv :
      (s : Proxy E P) (o : Option (Conn P × List (Conn P)))
      → (s.due ≡ false → Picked s.deps o)
      → Inv s
      → Inv (put_in_use s o)
  put_in_use-Inv s none p h quiet = h quiet
  put_in_use-Inv s (some (c, rest)) p h quiet =
      let (here', others) = p quiet in (others, (here', (h quiet).1))

  step-Inv :
      (a : Action E P) (s : Proxy E P)
      → FoldDecides
      → Inv s
      → Inv (step entry_id app_id code_hash matches fold a s)
  unfolding step
  step-Inv (refreshed a) s decides h = refreshed-Inv a s decides h
  step-Inv on_change s decides h = call_on_change-Inv s.due s h
  step-Inv (dialled peer expected) s decides h = put_dialled-Inv _ peer expected s refl h
  step-Inv (returned place) s decides h =
      put_idle-Inv s (pick place s.in_use) (λ quiet. pick-Picked s.deps place s.in_use (h quiet).1)
        h
  step-Inv (reused place) s decides h =
      put_in_use-Inv s (pick place s.idle) (λ quiet. pick-Picked s.deps place s.idle (h quiet).0) h

  run-Inv :
      (actions : List (Action E P)) (s : Proxy E P)
      → FoldDecides
      → Inv s
      → Inv (run entry_id app_id code_hash matches fold actions s)
  unfolding run
  run-Inv [] s decides h = h
  run-Inv (a ∷ actions) s decides h =
      run-Inv actions (step entry_id app_id code_hash matches fold a s) decides
        (step-Inv a s decides h)

  -- Where the fold decides whom a set admits: in every history of refreshes, dials and requests
  -- from an empty pool, whenever no call of OnChange is due, each connection, idle or in use,
  -- passes the gates of the set as it is now, unless it was dialled while no set was loaded or was
  -- in use when OnChange closed the idle ones.
  pub run-Current :
      (actions : List (Action E P)) (d : DepSet E)
      → FoldDecides
      → (run entry_id app_id code_hash matches fold actions (started d)).due ≡ false
      → let s = run entry_id app_id code_hash matches fold actions (started d) in
        All (Current s.deps) s.idle × All (Current s.deps) s.in_use
  run-Current actions d decides quiet = run-Inv actions (started d) decides (λ _. (tt, tt)) quiet
