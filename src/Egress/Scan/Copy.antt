-- ===== src/Egress/Scan/Copy.antt =====
-- proxy/cmd/egress-proxy/repro.go: the scanned body is the upstream body.
use mathlib.Core.Path.{ap₂}
use attested_harness.Common.{
  ℕ, zero, suc, ◌≤◌, ◌<◌, ◌≡◌, refl, sym, ap, ◌∙◌, inl, inr, true, Option, [], ◌∷◌, ◌++◌, arith,
  ◌==◌, Bool-cases, length, take, drop, Text, subst, Bool, append_assoc, if◌then◌else◌,
  length-append,
}
use attested_harness.Egress.{is_empty}
use attested_harness.Egress.Scan.{
  Json, Body, new_repro_scan_body, read_line, fill_buf, refill, read, copy_body,
}

read_line-parts : (s : Text) → (read_line s).0 ++ (read_line s).1 ≡ s
unfolding read_line
read_line-parts [] = refl
read_line-parts (c ∷ s) = elim (Bool-cases (c == b'\n')) [
  | inl e ↦ rw e refl
  | inr e ↦ rw e (ap (λ t. c ∷ t) (read_line-parts s))
]

read_line-nil : (s : Text) → (read_line s).0 ≡ [] → s ≡ []
unfolding read_line
read_line-nil [] h = refl
read_line-nil (c ∷ s) h = elim (Bool-cases (c == b'\n')) [
  | inl e ↦ absurd (cc (rw e at h))
  | inr e ↦ absurd (cc (rw e at h))
]

append_nil_parts : (s t : Text) → s ≡ [] → t ≡ [] → s ++ t ≡ []
append_nil_parts s t e f = rw (e, f) refl

take-drop_parts : (n : ℕ) (s : Text) → take n s ++ drop n s ≡ s
take-drop_parts zero s = refl
take-drop_parts (suc n) [] = refl
take-drop_parts (suc n) (c ∷ s) = ap (λ t. c ∷ t) (take-drop_parts n s)

take-nil : (n : ℕ) → take {A = ℕ} n [] ≡ []
take-nil zero = refl
take-nil (suc n) = refl

nil_of_append : (s t : Text) → s ++ t ≡ [] → t ≡ []
nil_of_append [] t h = h
nil_of_append (c ∷ s) t h = absurd (cc)

length-drop_cons : (n : ℕ) (c : ℕ) (s : Text) → 0 < n → length (drop n (c ∷ s)) ≤ length s
length-drop_cons zero c s h = absurd (omega (arith, h))
length-drop_cons (suc zero) c s h = omega arith
length-drop_cons (suc (suc n)) c [] h = omega arith
length-drop_cons (suc (suc n)) c (d ∷ s) h =
    omega (arith, length-drop_cons (suc n) d s (omega arith))

module _ (decode : Text → Option Json) (block_of : Text → Option (Option Text)) where
  -- What the client has still to get.
  abbrev left : Body → Text
  left b = b.buf ++ b.source

  fill_buf-left :
      (line rest : Text) (b : Body)
      → b.buf ≡ []
      → line ++ rest ≡ b.source
      → (line ≡ [] → b.source ≡ [])
      → (left (fill_buf decode block_of (line, rest) b) ≡ left b)
        × ((fill_buf decode block_of (line, rest) b).buf ≡ [] → left b ≡ [])
  fill_buf-left [] rest b e parts done = (refl, λ h. append_nil_parts b.buf b.source e (done refl))
  fill_buf-left (c ∷ line) rest b e parts done =
      (parts ∙ sym (ap (λ t. t ++ b.source) e), λ h. absurd (cc))

  refill-left :
      (buf : Text) (b : Body)
      → b.buf ≡ buf
      → (left (refill decode block_of buf b) ≡ left b)
        × ((refill decode block_of buf b).buf ≡ [] → left b ≡ [])
  refill-left [] b e =
      fill_buf-left (read_line b.source).0 (read_line b.source).1 b e (read_line-parts b.source)
        (read_line-nil b.source)
  refill-left (c ∷ buf) b e = (refl, λ h. absurd (cc (e, h)))

  abbrev filled : Body → Body
  filled b = refill decode block_of b.buf b

  abbrev served : ℕ → Text → Body → Body
  served size buf f = record f { buf = drop size buf }

  -- A round of the loop, with the buffer that it serves.
  abbrev round : ℕ → ℕ → Text → Body → (Text × Bool) × Body
  round fuel size buf f =
      let ((rest, over), last) = copy_body decode block_of fuel size (served size buf f) in
      if is_empty buf
      then ((take size buf, true), served size buf f)
      else ((take size buf ++ rest, over), last)

  round-left :
      (fuel size : ℕ) (buf : Text) (f : Body)
      → 0 < size
      → (buf ≡ [] → f.source ≡ [])
      → length (buf ++ f.source) < suc fuel
      → ((c : Body)
          → length (left c) < fuel
          → (copy_body decode block_of fuel size c).0 ≡ (left c, true))
      → (round fuel size buf f).0 ≡ (buf ++ f.source, true)
  round-left fuel size [] f pos done enough again =
      ap₂ (λ (s : Text) (b : Bool). (s, b)) (take-nil size ∙ sym (done refl)) refl
  round-left fuel size (c ∷ buf) f pos done enough again =
      let short : length (drop size (c ∷ buf) ++ f.source) < fuel = omega (
        arith,
        enough,
        length-append buf f.source,
        length-append (drop size (c ∷ buf)) f.source,
        length-drop_cons size c buf pos,
      ) in
      let rest = again (served size (c ∷ buf) f) short in
      ap (λ (r : Text × Bool). (take size (c ∷ buf) ++ r.0, r.1)) rest
      ∙ ap (λ (s : Text). (s, true))
          (sym (append_assoc (take size (c ∷ buf)) (drop size (c ∷ buf)) f.source)
            ∙ ap (λ t. t ++ f.source) (take-drop_parts size (c ∷ buf)))

  copy_body-left :
      (fuel size : ℕ) (b : Body)
      → 0 < size
      → length (left b) < fuel
      → (copy_body decode block_of fuel size b).0 ≡ (left b, true)
  unfolding copy_body read
  copy_body-left zero size b pos enough = absurd (omega (arith, enough))
  copy_body-left (suc fuel) size b pos enough =
      let (same_left, done) = refill-left b.buf b refl in
      let gone : (filled b).buf ≡ [] → (filled b).source ≡ [] =
        λ e. nil_of_append _ _ (same_left ∙ done e) in
      round-left fuel size (filled b).buf (filled b) pos gone
        (subst (λ s. length s < suc fuel) (sym same_left) enough)
        (λ c h. copy_body-left fuel size c pos h)
      ∙ ap (λ (s : Text). (s, true)) same_left

  -- The client gets the upstream body, byte for byte, and the loop comes to its end, for every
  -- buffer that is not empty: one round for each byte, and one for the end, are enough.
  pub copy_body-same :
      (size : ℕ) (source : Text)
      → 0 < size
      → (copy_body decode block_of (suc (length source)) size (new_repro_scan_body source)).0
        ≡ (source, true)
  copy_body-same size source pos =
      copy_body-left (suc (length source)) size (new_repro_scan_body source) pos (omega arith)
