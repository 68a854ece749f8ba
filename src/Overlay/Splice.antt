-- ===== src/Overlay/Splice.antt =====
-- web/apply-overlay.mjs, the loop of `edit`: what a list of anchored replacements does to a text.
use attested_harness.Common.{
  ◌≡◌, refl, sym, subst, ◌≢◌, ap, ◌∙◌, ◌↔◌, inl, inr, true, false, List, [], ◌∷◌, ◌++◌, Text, arith,
  includes, cut_sound, cut_complete, cut-of-includes, includes-append, NoneBefore, length, Free,
  All, Bool-cases,
}
use attested_harness.Overlay.{Transform, expand, replace_first, transform_all, rewritten, missing}

-- A replacement text without a dollar stands for itself.
pub expand-plain : (found pre post by : Text) → Free b'$' by → expand found pre post by ≡ by
unfolding expand
expand-plain found pre post [] h = refl
expand-plain found pre post (c ∷ []) h = refl
expand-plain found pre post (c ∷ d ∷ t) (hc, h) =
    ground (arith, hc, expand-plain found pre post (d ∷ t) h)

-- Where the anchor stands first, a replacement without a dollar takes its place, and nothing else
-- changes.
pub replace_first-plain :
    (find by pre post : Text)
    → Free b'$' by
    → NoneBefore find (length pre) (pre ++ (find ++ post))
    → replace_first find by (pre ++ (find ++ post)) ≡ pre ++ (by ++ post)
unfolding replace_first
replace_first-plain find by pre post plain first =
    rw (cut_complete find pre post first, replace_first) (rw (expand-plain find pre post by plain))

-- What `edit` promises, said without a search: each transform in turn replaces the first place at
-- which its anchor stands.
pub data Applies : List Transform → Text → Text → Type 0 where
  no_more : {src : Text} → Applies [] src src
  splice :
      {t : Transform} {ts : List Transform} {src out : Text} (pre post : Text)
      → src ≡ pre ++ (t.find ++ post)
      → NoneBefore t.find (length pre) src
      → Applies ts (pre ++ (t.replace ++ post)) out
      → Applies (t ∷ ts) src out

-- No replacement text holds a dollar, so none is a pattern.
abbrev pub IsPlain : List Transform → Type 0
IsPlain ts = All (λ t. Free b'$' t.replace) ts

includes_of_splice :
    (find src pre post : Text) → src ≡ pre ++ (find ++ post) → includes src find ≡ true
includes_of_splice find src pre post e = rw e (includes-append find pre post)

replace_of_splice :
    (find by src pre post : Text)
    → Free b'$' by
    → src ≡ pre ++ (find ++ post)
    → NoneBefore find (length pre) src
    → replace_first find by src ≡ pre ++ (by ++ post)
replace_of_splice find by src pre post plain e first =
    rw e (replace_first-plain find by pre post plain (rw e at first))

transform_all-hit :
    (t : Transform) (ts : List Transform) (src : Text)
    → includes src t.find ≡ true
    → transform_all (t ∷ ts) src ≡ transform_all ts (replace_first t.find t.replace src)
unfolding transform_all
transform_all-hit t ts src h = rw h

transform_all-miss :
    (t : Transform) (ts : List Transform) (src : Text)
    → includes src t.find ≡ false
    → transform_all (t ∷ ts) src ≡ missing t.label
unfolding transform_all
transform_all-miss t ts src h = rw h

-- The transforms succeed with what the specification names.
pub transform_all_complete :
    (ts : List Transform) (src out : Text)
    → IsPlain ts
    → Applies ts src out
    → transform_all ts src ≡ rewritten out
transform_all_complete [] src out plain no_more = unfold transform_all in refl
transform_all_complete (t ∷ ts) src out (p, ps) (splice pre post e first rest) =
    transform_all-hit t ts src (includes_of_splice t.find src pre post e)
    ∙ rw (replace_of_splice t.find t.replace src pre post p e first)
        (transform_all_complete ts (pre ++ (t.replace ++ post)) out ps rest)

pub transform_all_sound :
    (ts : List Transform) (src out : Text)
    → IsPlain ts
    → transform_all ts src ≡ rewritten out
    → Applies ts src out
transform_all_sound [] src out plain h =
    let e : src ≡ out = unfold transform_all in cc in subst (λ o. Applies [] src o) e no_more
transform_all_sound (t ∷ ts) src out (p, ps) h = elim (Bool-cases (includes src t.find)) [
  | inl found ↦
      let (pre, post, e) = cut-of-includes t.find src found in
      let (eq, first) = cut_sound t.find src pre post e in
      splice pre post eq first (
        transform_all_sound ts (pre ++ (t.replace ++ post)) out ps (
          rw (← replace_of_splice t.find t.replace src pre post p eq first)
            (sym (transform_all-hit t ts src found) ∙ h)))
  | inr lost ↦ absurd (cc (transform_all-miss t ts src lost, h))
]

-- The anchor stands nowhere in the text.
abbrev pub Absent : Text → Text → Type 0
Absent find src = (pre post : Text) → src ≢ pre ++ (find ++ post)

-- The transforms before one of them apply, and its anchor is then absent.
pub data Stuck : List Transform → Text → Text → Type 0 where
  stuck_here :
      {t : Transform} {ts : List Transform} {src label : Text}
      → Absent t.find src
      → t.label ≡ label
      → Stuck (t ∷ ts) src label
  stuck_later :
      {t : Transform} {ts : List Transform} {src label : Text} (pre post : Text)
      → src ≡ pre ++ (t.find ++ post)
      → NoneBefore t.find (length pre) src
      → Stuck ts (pre ++ (t.replace ++ post)) label
      → Stuck (t ∷ ts) src label

includes_of_Absent : (find src : Text) → Absent find src → includes src find ≡ false
includes_of_Absent find src none_at = elim (Bool-cases (includes src find)) [
  | inl found ↦
      let (pre, post, e) = cut-of-includes find src found in
      absurd (none_at pre post (cut_sound find src pre post e).0)
  | inr lost ↦ lost
]

pub Absent-of_includes : (find src : Text) → includes src find ≡ false → Absent find src
Absent-of_includes find src lost pre post e = cc (includes_of_splice find src pre post e, lost)

pub transform_all-Stuck :
    (ts : List Transform) (src label : Text)
    → IsPlain ts
    → Stuck ts src label
    → transform_all ts src ≡ missing label
transform_all-Stuck [] src label plain stuck = elim stuck [ ]
transform_all-Stuck (t ∷ ts) src label plain (stuck_here gone e) =
    transform_all-miss t ts src (includes_of_Absent t.find src gone) ∙ ap missing e
transform_all-Stuck (t ∷ ts) src label (p, ps) (stuck_later pre post e first rest) =
    transform_all-hit t ts src (includes_of_splice t.find src pre post e)
    ∙ rw (replace_of_splice t.find t.replace src pre post p e first)
        (transform_all-Stuck ts (pre ++ (t.replace ++ post)) label ps rest)

pub Stuck-of_missing :
    (ts : List Transform) (src label : Text)
    → IsPlain ts
    → transform_all ts src ≡ missing label
    → Stuck ts src label
Stuck-of_missing [] src label plain h = absurd (unfold transform_all in cc)
Stuck-of_missing (t ∷ ts) src label (p, ps) h = elim (Bool-cases (includes src t.find)) [
  | inl found ↦
      let (pre, post, e) = cut-of-includes t.find src found in
      let (eq, first) = cut_sound t.find src pre post e in
      stuck_later pre post eq first (
        Stuck-of_missing ts (pre ++ (t.replace ++ post)) label ps (
          rw (← replace_of_splice t.find t.replace src pre post p eq first)
            (sym (transform_all-hit t ts src found) ∙ h)))
  | inr lost ↦
      stuck_here (Absent-of_includes t.find src lost) (cc (transform_all-miss t ts src lost, h))
]

-- For replacements without a dollar, the loop of `edit` writes a text exactly when each transform
-- in turn finds its anchor and the text is the one with every first occurrence replaced; and it
-- throws for a label exactly when that transform's anchor is absent after those before it applied.
pub transform_all_iff :
    (ts : List Transform) (src : Text)
    → IsPlain ts
    → ((out : Text) → (transform_all ts src ≡ rewritten out) ↔ Applies ts src out)
      × ((label : Text) → (transform_all ts src ≡ missing label) ↔ Stuck ts src label)
transform_all_iff ts src plain = (
  λ out. (transform_all_sound ts src out plain, transform_all_complete ts src out plain),
  λ label. (Stuck-of_missing ts src label plain, transform_all-Stuck ts src label plain),
)
