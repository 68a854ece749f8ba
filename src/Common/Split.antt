-- ===== src/Common/Split.antt =====
-- `s.split(c)`, `xs.join(c)` and the trimming of white space.
use mathlib.Core.Path.{◌≡◌, refl, ap, ◌∙◌}
use mathlib.Core.Logic.{inl, inr}
use mathlib.Core.Bool.{Bool, false, ◌&&◌, ◌||◌}
use mathlib.Core.List.{List, [], ◌∷◌, ◌++◌}
use Prim.Native.Nat.{ℕ}
use native.Mathlib.Omega.{arith}
use attested_harness.Common.Tests.{◌==◌, leb, if◌then◌else◌, Bool-cases, ==_iff}
use attested_harness.Common.Lists.{All}
use attested_harness.Common.Strings.{Text}

abbrev extend : ℕ → List Text → List Text
extend c [] = (c ∷ []) ∷ []
extend c (part ∷ parts) = (c ∷ part) ∷ parts

-- `s.split(c)` at a single code unit: never the empty list.
unfoldable pub split : ℕ → Text → List Text
split d [] = [] ∷ []
split d (c ∷ s) = let parts = split d s in if c == d then [] ∷ parts else extend c parts

-- `parts.join(c)`.
unfoldable pub join : ℕ → List Text → Text
join d [] = []
join d (part ∷ []) = part
join d (part ∷ next ∷ parts) = part ++ (d ∷ join d (next ∷ parts))

-- A text without the code unit.
abbrev pub Free : ℕ → Text → Type 0
Free d [] = Unit
Free d (c ∷ s) = ((c == d) ≡ false) × Free d s

join-extend : (d c : ℕ) (parts : List Text) → join d (extend c parts) ≡ c ∷ join d parts
unfolding join
join-extend d c [] = refl
join-extend d c (part ∷ []) = refl
join-extend d c (part ∷ next ∷ parts) = refl

join-break : (d : ℕ) (p : Text) (ps : List Text) → join d ([] ∷ p ∷ ps) ≡ d ∷ join d (p ∷ ps)
unfolding join
join-break d p ps = refl

extend-append :
    (c : ℕ) (l m : List Text) (p : Text) (ps : List Text)
    → l ≡ p ∷ ps
    → extend c (l ++ m) ≡ extend c l ++ m
extend-append c l m p ps e = rw e

extend-Free :
    (d c : ℕ) (l : List Text) → (c == d) ≡ false → All (Free d) l → All (Free d) (extend c l)
extend-Free d c [] h f = ((h, tt), tt)
extend-Free d c (p ∷ ps) h (f, fs) = ((h, f), fs)

-- `split` never returns the empty list.
pub split-cons : (d : ℕ) (s : Text) → (p : Text) × (ps : List Text) × (split d s ≡ p ∷ ps)
unfolding split
split-cons d [] = ([], [], refl)
split-cons d (c ∷ s) =
    let (p, ps, e) = split-cons d s in
    elim (Bool-cases (c == d)) [
      | inl at_break ↦ ([], split d s, rw at_break)
      | inr inside ↦ (c ∷ p, ps, rw (inside, e))
    ]

join-empty_cons : (d : ℕ) (s : Text) → join d ([] ∷ split d s) ≡ d ∷ join d (split d s)
join-empty_cons d s = let (p, ps, e) = split-cons d s in rw e (join-break d p ps)

-- Joining what was split gives the text back.
pub join-split : (d : ℕ) (s : Text) → join d (split d s) ≡ s
unfolding split
join-split d [] = unfold join in refl
join-split d (c ∷ s) = elim (Bool-cases (c == d)) [
  | inl at_break ↦ rw at_break (join-empty_cons d s ∙ cc (join-split d s, (==_iff c d).0 at_break))
  | inr inside ↦ rw inside (join-extend d c (split d s) ∙ ap (λ t. c ∷ t) (join-split d s))
]

pub split-append_break : (d : ℕ) (p s : Text) → Free d p → split d (p ++ (d ∷ s)) ≡ p ∷ split d s
unfolding split
split-append_break d [] s h = ground arith
split-append_break d (c ∷ p) s (h, hs) = rw (h, split-append_break d p s hs)

split_unbroken : (d : ℕ) (p : Text) → Free d p → split d p ≡ p ∷ []
unfolding split
split_unbroken d [] h = refl
split_unbroken d (c ∷ p) (h, hs) = rw (h, split_unbroken d p hs)

-- Splitting what was joined gives the parts back, where no part holds the separator.
pub split-join :
    (d : ℕ) (part : Text) (parts : List Text)
    → All (Free d) (part ∷ parts)
    → split d (join d (part ∷ parts)) ≡ part ∷ parts
unfolding join
split-join d part [] (h, _) = split_unbroken d part h
split-join d part (next ∷ parts) (h, hs) =
    rw (split-append_break d part (join d (next ∷ parts)) h) (rw (split-join d next parts hs))

-- Splitting at a separator that stands there.
pub split-append : (d : ℕ) (s t : Text) → split d (s ++ (d ∷ t)) ≡ split d s ++ split d t
unfolding split
split-append d [] t = rw ((==_iff d d).1 refl)
split-append d (c ∷ s) t = elim (Bool-cases (c == d)) [
  | inl at_break ↦ rw at_break (ap (λ l. [] ∷ l) (split-append d s t))
  | inr inside ↦
      let (p, ps, e) = split-cons d s in
      rw inside
        (ap (extend c) (split-append d s t) ∙ extend-append c (split d s) (split d t) p ps e)
]

-- A code unit put behind the last part.
abbrev pub snoc_last : ℕ → List Text → List Text
snoc_last c [] = (c ∷ []) ∷ []
snoc_last c (p ∷ []) = (p ++ (c ∷ [])) ∷ []
snoc_last c (p ∷ q ∷ ps) = p ∷ snoc_last c (q ∷ ps)

extend-snoc_last :
    (e c : ℕ) (p : Text) (ps : List Text)
    → extend e (snoc_last c (p ∷ ps)) ≡ snoc_last c (extend e (p ∷ ps))
extend-snoc_last e c p [] = refl
extend-snoc_last e c p (q ∷ ps) = refl

cons-snoc_last :
    (p : Text) (c : ℕ) (l : List Text) (q : Text) (qs : List Text)
    → l ≡ q ∷ qs
    → p ∷ snoc_last c l ≡ snoc_last c (p ∷ l)
cons-snoc_last p c l q qs e = rw e

-- A text that grows by what is no separator grows in its last part.
pub split-snoc :
    (d c : ℕ) (s : Text) → (c == d) ≡ false → split d (s ++ (c ∷ [])) ≡ snoc_last c (split d s)
unfolding split
split-snoc d c [] h = rw h
split-snoc d c (e ∷ s) h =
    let (p, ps, eq) = split-cons d s in
    elim (Bool-cases (e == d)) [
      | inl at_break ↦
          rw at_break
            (ap (λ l. [] ∷ l) (split-snoc d c s h) ∙ cons-snoc_last [] c (split d s) p ps eq)
      | inr inside ↦
          rw inside (ap (extend e) (split-snoc d c s h) ∙ rw eq (extend-snoc_last e c p ps))
    ]

-- The parts hold no separator.
pub split-Free : (d : ℕ) (s : Text) → All (Free d) (split d s)
unfolding split
split-Free d [] = (tt, tt)
split-Free d (c ∷ s) = elim (Bool-cases (c == d)) [
  | inl at_break ↦ rw at_break (tt, split-Free d s)
  | inr inside ↦ rw inside (extend-Free d c (split d s) inside (split-Free d s))
]

-- `\s` of a regular expression, and what `trim` removes: white space and line ends.
unfoldable pub is_space : ℕ → Bool
is_space c =
    (leb 9 c && leb c 13)
    || c == 32
    || c == 160
    || c == 0x1680
    || (leb 0x2000 c && leb c 0x200a)
    || c == 0x2028
    || c == 0x2029
    || c == 0x202f
    || c == 0x205f
    || c == 0x3000
    || c == 0xfeff

abbrev pub trim_cons : ℕ → Text → Text
trim_cons c [] = if is_space c then [] else c ∷ []
trim_cons c (d ∷ t) = c ∷ d ∷ t

-- The white space at the end goes: `s.trimEnd()`, `s.replace(/\s+$/, '')`.
unfoldable pub trim_end : Text → Text
trim_end [] = []
trim_end (c ∷ s) = trim_cons c (trim_end s)

-- The white space at the head goes: `s.trimStart()`.
unfoldable pub trim_start : Text → Text
trim_start [] = []
trim_start (c ∷ s) = let rest = trim_start s in if is_space c then rest else c ∷ s

-- `s.trim()`.
unfoldable pub trim : Text → Text
unfolding trim_start trim_end is_space
trim s = trim_end (trim_start s)
