-- ===== src/Common/Strings.antt =====
-- Text as the list of its code units, as the programs walk it.
use Prim.Native.Nat.{ℕ, zero, suc}
use Prim.Native.Char.{code}
use Prim.Native.String.{String}
use mathlib.Core.Path.{◌≡◌, refl, sym, ap}
use mathlib.Core.Logic.{◌↔◌, inl, inr}
use mathlib.Core.Bool.{Bool, true, false, ◌&&◌}
use mathlib.Core.Option.{Option, none, some}
use mathlib.Core.List.{List, [], ◌∷◌, ◌++◌}
use native.Mathlib.Omega.{arith}
use attested_harness.Common.Tests.{◌==◌, ==_iff, Bool-cases, Option-cases}
use attested_harness.Common.Lists.{length, any, In, here, there}

-- A text: its UTF-16 code units. No literal of the sources leaves the first plane, where a code
-- unit is a code point.
abbrev pub Text : Type 0
Text = List ℕ

abbrev pub codes : String → Text
codes String.[] = []
codes (String.◌∷◌ c s) = code c ∷ codes s

-- A text written in pieces.
abbrev pub text : List String → Text
text [] = []
text (s ∷ more) = codes s ++ text more

-- `s === t`.
abbrev pub same : Text → Text → Bool
same [] [] = true
same [] (d ∷ t) = false
same (c ∷ s) [] = false
same (c ∷ s) (d ∷ t) = c == d && same s t

pub same_iff : (s t : Text) → (same s t ≡ true) ↔ (s ≡ t)
same_iff [] [] = (λ _. refl, λ _. refl)
same_iff [] (d ∷ t) = (λ h. cc, λ h. cc)
same_iff (c ∷ s) [] = (λ h. cc, λ h. cc)
same_iff (c ∷ s) (d ∷ t) = (λ h. ground (arith, same_iff s t), λ h. ground (arith, same_iff s t))

pub same_refl : (s : Text) → same s s ≡ true
same_refl s = (same_iff s s).1 refl

-- What is left of `s` behind the prefix `f`.
unfoldable pub strip_prefix : Text → Text → Option Text
strip_prefix [] s = some s
strip_prefix (c ∷ f) [] = none
strip_prefix (c ∷ f) (d ∷ s) = elim (c == d) [ true ↦ strip_prefix f s | false ↦ none ]

pub strip_prefix-append : (f s : Text) → strip_prefix f (f ++ s) ≡ some s
unfolding strip_prefix
strip_prefix-append [] s = refl
strip_prefix-append (c ∷ f) s = rw ((==_iff c c).1 refl, strip_prefix) (strip_prefix-append f s)

pub strip_prefix_sound : (f s r : Text) → strip_prefix f s ≡ some r → s ≡ f ++ r
unfolding strip_prefix
strip_prefix_sound [] s r h = cc
strip_prefix_sound (c ∷ f) [] r h = cc
strip_prefix_sound (c ∷ f) (d ∷ s) r h = ground (arith, strip_prefix_sound f s r)

-- `s.startsWith(f)`.
abbrev pub starts_with : Text → Text → Bool
starts_with s f = elim (strip_prefix f s) [ none ↦ false | some _ ↦ true ]

abbrev before : ℕ → Option (Text × Text) → Option (Text × Text)
before c none = none
before c (some (p, q)) = some (c ∷ p, q)

-- `s` cut at the first occurrence of `f`: what stands before and behind it. `s.indexOf(f)` is the
-- length of the first part, and -1 where the result is `none`.
unfoldable pub cut : Text → Text → Option (Text × Text)
cut f [] = elim (strip_prefix f []) [ some r ↦ some ([], r) | none ↦ none ]
cut f (c ∷ s) = elim (strip_prefix f (c ∷ s)) [ some r ↦ some ([], r) | none ↦ before c (cut f s) ]

-- `s.includes(f)`.
abbrev pub includes : Text → Text → Bool
includes s f = elim (cut f s) [ none ↦ false | some _ ↦ true ]

-- No occurrence of `f` in `s` begins before place `n`.
abbrev pub NoneBefore : Text → ℕ → Text → Type 0
NoneBefore f zero s = Unit
NoneBefore f (suc n) [] = Unit
NoneBefore f (suc n) (c ∷ s) = (strip_prefix f (c ∷ s) ≡ none) × NoneBefore f n s

before-eq-some :
    (c : ℕ) (m : Option (Text × Text)) {p q : Text}
    → before c m ≡ some (p, q)
    → (p' : Text) × (m ≡ some (p', q)) × (p ≡ c ∷ p')
before-eq-some c none h = cc
before-eq-some c (some (p', q')) h = (p', ground arith, ground arith)

-- What `cut` finds is the first occurrence.
pub cut_sound :
    (f s p q : Text) → cut f s ≡ some (p, q) → (s ≡ p ++ (f ++ q)) × NoneBefore f (length p) s
unfolding cut
cut_sound f [] p q h = elim (Option-cases (strip_prefix f [])) [
  | inl missed ↦ ground arith
  | inr (r, hit) ↦
      let e : p ≡ [] = ground arith in
      let e' : q ≡ r = ground arith in rw (e, e') (strip_prefix_sound f [] r hit, tt)
]
cut_sound f (c ∷ s) p q h = elim (Option-cases (strip_prefix f (c ∷ s))) [
  | inl missed ↦
      let (p', found, e) = before-eq-some c (cut f s) (rw (missed, cut) at h) in
      let (eq, first) = cut_sound f s p' q found in rw e (ap (λ t. c ∷ t) eq, (missed, first))
  | inr (r, hit) ↦
      let e : p ≡ [] = ground arith in
      let e' : q ≡ r = ground arith in rw (e, e') (strip_prefix_sound f (c ∷ s) r hit, tt)
]

pub cut-hit : (f s r : Text) → strip_prefix f s ≡ some r → cut f s ≡ some ([], r)
unfolding cut
cut-hit f [] r h = ground arith
cut-hit f (c ∷ s) r h = ground arith

-- The first occurrence is what `cut` finds.
pub cut_complete :
    (f p q : Text) → NoneBefore f (length p) (p ++ (f ++ q)) → cut f (p ++ (f ++ q)) ≡ some (p, q)
unfolding cut
cut_complete f [] q h = cut-hit f (f ++ q) q (strip_prefix-append f q)
cut_complete f (c ∷ p) q (missed, h) = rw (missed, cut) (rw (cut_complete f p q h))

-- Where `f` stands in the text, `cut` finds an occurrence.
pub includes-append : (f p q : Text) → includes (p ++ (f ++ q)) f ≡ true
unfolding cut
includes-append f [] q = rw (cut-hit f (f ++ q) q (strip_prefix-append f q), includes)
includes-append f (c ∷ p) q = ground (arith, includes-append f p q)

pub cut-of-includes :
    (f s : Text) → includes s f ≡ true → (p : Text) × (q : Text) × (cut f s ≡ some (p, q))
cut-of-includes f s h = elim (Option-cases (cut f s)) [
  | inl e ↦ absurd (ground arith)
  | inr ((p, q), e) ↦ (p, q, e)
]

pub any-In : (p : Text) (ps : List Text) → any (λ q. same q p) ps ≡ true → In p ps
any-In p [] h = absurd (cc)
any-In p (q ∷ ps) h = elim (Bool-cases (same q p)) [
  | inl e ↦ here (sym ((same_iff q p).0 e))
  | inr e ↦ there (any-In p ps (rw e at h))
]

pub In-any : (p : Text) (ps : List Text) → In p ps → any (λ q. same q p) ps ≡ true
In-any p [] i = elim i [ ]
In-any p (q ∷ ps) (here e) = rw ((same_iff q p).1 (sym e)) refl
In-any p (q ∷ ps) (there i) = elim (Bool-cases (same q p)) [
  | inl e ↦ rw e refl
  | inr e ↦ rw (e, In-any p ps i) refl
]
