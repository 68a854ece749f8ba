-- ===== src/Inspect/Hex.antt =====
-- web/overlay/trajectory/PrivasysAttestationTab.tsx, dashed and base64ToHex.
use mathlib.Core.Path.{ap₂}
use attested_harness.Common.{
  zero, suc, ℕ, ◌+◌, ◌-◌, ◌/◌, ◌%◌, ◌<◌, ◌≡◌, refl, sym, ap, ◌∙◌, not, Option, some, [], ◌∷◌, ◌++◌,
  take, drop, filter, All, Free, Text, ltb, ◌==◌, if◌then◌else◌, arith,
}
use attested_harness.Inspect.{digit, hex_of, base64_to_hex, dashed, hex_or}

digit_value : ℕ → ℕ
digit_value c = if ltb c 58 then c - 48 else c - 87

digit_value-digit : (d : ℕ) → d < 16 → digit_value (digit d) ≡ d
unfolding digit_value
digit_value-digit d h = ground arith

digit_injective : (d e : ℕ) → d < 16 → e < 16 → digit d ≡ digit e → d ≡ e
digit_injective d e hd he h =
    sym (digit_value-digit d hd) ∙ ap digit_value h ∙ digit_value-digit e he

byte_of_digits :
    (c d : ℕ)
    → c < 256
    → d < 256
    → digit (c / 16) ≡ digit (d / 16)
    → digit (c % 16) ≡ digit (d % 16)
    → c ≡ d
byte_of_digits c d hc hd high low =
    let h = digit_injective (c / 16) (d / 16) (omega arith) (omega arith) high in
    let l = digit_injective (c % 16) (d % 16) (omega arith) (omega arith) low in omega (arith, h, l)

abbrev pub IsBytes : Text → Type 0
IsBytes raw = All (λ c. c < 256) raw

pub hex_of_injective : (s t : Text) → IsBytes s → IsBytes t → hex_of s ≡ hex_of t → s ≡ t
unfolding hex_of
hex_of_injective [] [] hs ht e = refl
hex_of_injective [] (d ∷ t) hs ht e = absurd (cc)
hex_of_injective (c ∷ s) [] hs ht e = absurd (cc)
hex_of_injective (c ∷ s) (d ∷ t) (hc, hs) (hd, ht) e =
    let high : digit (c / 16) ≡ digit (d / 16) = cc in
    let low : digit (c % 16) ≡ digit (d % 16) = cc in
    let rest : hex_of s ≡ hex_of t = cc in
    ap₂ (λ (x : ℕ) (l : Text). x ∷ l) (byte_of_digits c d hc hd high low)
      (hex_of_injective s t hs ht rest)

module _ (atob : Text → Option Text) where
  -- Two hashes that decode to bytes and show as the same hex are the same bytes: comparing in hex
  -- confuses no two digests.
  pub base64_to_hex_injective :
      (v w s t : Text)
      → atob v ≡ some s
      → atob w ≡ some t
      → IsBytes s
      → IsBytes t
      → base64_to_hex atob v ≡ base64_to_hex atob w
      → s ≡ t
  unfolding base64_to_hex
  base64_to_hex_injective v w s t ev ew hs ht e =
      hex_of_injective s t hs ht (sym (ap (hex_or v) ev) ∙ e ∙ ap (hex_or w) ew)

-- A text without its dashes.
abbrev pub undash : Text → Text
undash s = filter (λ c. not (c == b'-')) s

undash-Free : (s : Text) → Free b'-' s → undash s ≡ s
undash-Free [] h = refl
undash-Free (c ∷ s) (h, hs) = rw h (ap (λ l. c ∷ l) (undash-Free s hs))

undash-take :
    (n : ℕ) (s r : Text) → Free b'-' s → undash (take n s ++ (b'-' ∷ r)) ≡ take n s ++ undash r
undash-take zero s r h = refl
undash-take (suc n) [] r h = refl
undash-take (suc n) (c ∷ s) r (h, hs) = rw h (ap (λ l. c ∷ l) (undash-take n s r hs))

Free-drop : (n : ℕ) (s : Text) → Free b'-' s → Free b'-' (drop n s)
Free-drop zero s h = h
Free-drop (suc n) [] h = tt
Free-drop (suc n) (c ∷ s) (h, hs) = Free-drop n s hs

take-drop : (n : ℕ) (s : Text) → take n s ++ drop n s ≡ s
take-drop zero s = refl
take-drop (suc n) [] = refl
take-drop (suc n) (c ∷ s) = ap (λ l. c ∷ l) (take-drop n s)

drop-nil : (n : ℕ) → drop {A = ℕ} n [] ≡ []
drop-nil zero = refl
drop-nil (suc n) = refl

drop-drop : (n k m : ℕ) (s : Text) → k + n ≡ m → drop n (drop k s) ≡ drop m s
drop-drop n zero m s h = ap (λ i. drop i s) (omega (arith, h))
drop-drop n (suc k) zero s h = absurd (omega (arith, h))
drop-drop n (suc k) (suc m) [] h = drop-nil n
drop-drop n (suc k) (suc m) (c ∷ s) h = drop-drop n k m s (omega (arith, h))

-- The slice of a hyphenated id is put back in front of what follows it.
undash_step :
    (n k m : ℕ) (s r : Text)
    → k + n ≡ m
    → Free b'-' s
    → undash r ≡ drop m s
    → undash (take n (drop k s) ++ (b'-' ∷ r)) ≡ drop k s
undash_step n k m s r h f e =
    undash-take n (drop k s) r (Free-drop k s f)
    ∙ ap (λ l. take n (drop k s) ++ l) (e ∙ sym (drop-drop n k m s h))
    ∙ take-drop n (drop k s)

-- The dashes lose nothing: the dashed form of an id that has none, without its dashes, is the id.
pub undash-dashed : (hex : Text) → Free b'-' hex → undash (dashed hex) ≡ hex
unfolding dashed
undash-dashed hex h = undash_step 8 0 8 hex _ refl h (
    undash_step 4 8 12 hex _ refl h (
      undash_step 4 12 16 hex _ refl h
        (undash_step 4 16 20 hex _ refl h (undash-Free (drop 20 hex) (Free-drop 20 hex h)))))
