-- ===== src/Proxy/Refresh.antt =====
-- proxy/internal/attested/depset.go, Refresh: the set after a row of refreshes.
use attested_harness.Common.{
  ◌≡◌, refl, ap, ◌∙◌, Bool, true, Option, none, some, List, [], ◌∷◌, Text, ◌==◌, ==_iff, Bool-cases,
  inl, inr, if◌then◌else◌,
}
use attested_harness.Proxy.{DepSet, Answer, failed, answered, declared, refresh}

-- The dependencies that an answer declares, if it is the manager's and can be read.
abbrev pub good : {E : Type 0} → Answer E → Option (List E)
good failed = none
good (answered status none) = none
good (answered status (some payload)) = if status == 200 then some (declared payload) else none

abbrev or_else : {A : Type 0} → Option A → A → A
or_else none a = a
or_else (some b) a = b

-- What the last readable answer declares.
abbrev pub last_good : {E : Type 0} → List (Answer E) → List E → List E
last_good [] es = es
last_good (a ∷ rest) es = last_good rest (or_else (good a) es)

module _ {E P : Type 0} (entry_id : E → Text) (app_id : P → Text) (code_hash : P → Option Text)
    (matches : P → E → Bool) (fold : List E → Text) where
  -- The set after the refreshes of a row of answers.
  unfoldable pub refresh_all : List (Answer E) → DepSet E → DepSet E
  unfolding refresh
  refresh_all [] d = d
  refresh_all (a ∷ rest) d =
      refresh_all rest (refresh entry_id app_id code_hash matches fold a d).next

  refresh-entries :
      (a : Answer E) (d : DepSet E)
      → d.configured ≡ true
      → let d' = (refresh entry_id app_id code_hash matches fold a d).next in
        (d'.entries ≡ or_else (good a) d.entries)
        × (d'.configured ≡ true)
        × (d.loaded ≡ true → d'.loaded ≡ true)
  unfolding refresh
  refresh-entries failed d on = rw on (refl, refl, λ l. l)
  refresh-entries (answered status none) d on = rw on (elim (Bool-cases (status == 404)) [
    | inl gone ↦ rw gone (refl, refl, λ l. l)
    | inr other ↦ rw other (elim (Bool-cases (status == 200)) [
      | inl fine ↦ rw fine (refl, refl, λ l. l)
      | inr bad ↦ rw bad (refl, refl, λ l. l)
    ])
  ])
  refresh-entries (answered status (some payload)) d on = rw on (elim (Bool-cases (status == 200)) [
    | inl fine ↦ let e : status ≡ 200 = (==_iff status 200).0 fine in rw e (refl, refl, λ l. refl)
    | inr bad ↦ rw bad (elim (Bool-cases (status == 404)) [
      | inl gone ↦ rw gone (refl, refl, λ l. l)
      | inr other ↦ rw other (refl, refl, λ l. l)
    ])
  ])

  -- On the platform, after any row of refreshes the set is what the last readable answer declared,
  -- whatever failed since, and a set that was loaded stays loaded.
  pub refresh_all-last_good :
      (answers : List (Answer E)) (d : DepSet E)
      → d.configured ≡ true
      → ((refresh_all answers d).entries ≡ last_good answers d.entries)
        × (d.loaded ≡ true → (refresh_all answers d).loaded ≡ true)
  unfolding refresh_all
  refresh_all-last_good [] d on = (refl, λ l. l)
  refresh_all-last_good (a ∷ answers) d on =
      let (set, on', stays) = refresh-entries a d on in
      let d' = (refresh entry_id app_id code_hash matches fold a d).next in
      let (rest_set, rest_stays) = refresh_all-last_good answers d' on' in
      (rest_set ∙ ap (λ es. last_good answers es) set, λ l. rest_stays (stays l))
