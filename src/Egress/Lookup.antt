-- ===== src/Egress/Lookup.antt =====
-- proxy/cmd/egress-proxy: reading a header map behind `Set` and `Del`.
use attested_harness.Common.{
  ◌≡◌, refl, ap, ◌∙◌, inl, inr, true, false, [], ◌∷◌, if◌then◌else◌, Bool-cases, Text, same,
  same_iff, same_refl,
}
use attested_harness.Egress.{Headers, get, set, del, is_empty}

same_key : (k name other : Text) → same k name ≡ true → same k other ≡ same name other
same_key k name other h = ap (λ t. same t other) ((same_iff k name).0 h)

pub get-del_other :
    (name other : Text) (h : Headers)
    → same name other ≡ false
    → get other (del name h) ≡ get other h
get-del_other name other [] ne = refl
get-del_other name other ((k, v) ∷ h) ne = elim (Bool-cases (same k name)) [
  | inl e ↦
      let f : same k other ≡ false = same_key k name other e ∙ ne in
      rw (e, f) (get-del_other name other h ne)
  | inr e ↦ rw e (ap (λ t. if same k other then v else t) (get-del_other name other h ne))
]

pub get-del_self : (name : Text) (h : Headers) → get name (del name h) ≡ []
get-del_self name [] = refl
get-del_self name ((k, v) ∷ h) = elim (Bool-cases (same k name)) [
  | inl e ↦ rw e (get-del_self name h)
  | inr e ↦ rw (e, e) (get-del_self name h)
]

pub get-set_self : (name value : Text) (h : Headers) → get name (set name value h) ≡ value
get-set_self name value h = rw (same_refl name)

pub get-set_other :
    (name other value : Text) (h : Headers)
    → same name other ≡ false
    → get other (set name value h) ≡ get other h
get-set_other name other value h ne = rw ne (get-del_other name other h ne)

pub nil_of_is_empty : (s : Text) → is_empty s ≡ true → s ≡ []
nil_of_is_empty [] h = refl
nil_of_is_empty (c ∷ s) h = absurd (cc)
