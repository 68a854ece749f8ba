-- ===== src/Egress/Scan/Finite.antt =====
-- proxy/cmd/egress-proxy/repro.go: the second test on a number's spelling finds no number of JSON.
use attested_harness.Common.{
  cut-of-includes, ℕ, ◌+◌, ◌≡◌, refl, ap, ◌∙◌, ◌⊎◌, inl, inr, Bool, true, false, ◌||◌, Option, none,
  some, List, [], ◌∷◌, ◌++◌, arith, ◌==◌, Bool-cases, any, Text, codes, cut, cut_sound, includes,
}
use attested_harness.Egress.Scan.{is_not_finite}
use attested_harness.Egress.Scan.Numbers.{
  Number, IsNumber, print, print_digits, print_sign, print_fraction, print_exponent, AreDigits,
  IsExponent, fraction_digits,
}

abbrev is_n : ℕ → Bool
is_n c = c == b'n' || c == b'N'

or_true : (b : Bool) → (b || true) ≡ true
or_true true = refl
or_true false = refl

any-append : (p : ℕ → Bool) (s t : Text) → any p (s ++ t) ≡ (any p s || any p t)
any-append p [] t = refl
any-append p (c ∷ s) t = elim (Bool-cases (p c)) [
  | inl e ↦ rw e refl
  | inr e ↦ rw e (any-append p s t)
]

no_n-digits : (ds : List ℕ) → AreDigits ds → any is_n (print_digits ds) ≡ false
no_n-digits [] small = refl
no_n-digits (d ∷ ds) (small, rest) =
    let e : is_n (b'0' + d) ≡ false = ground arith in rw (e, no_n-digits ds rest) refl

no_n-fraction :
    (f : Option (List ℕ)) → AreDigits (fraction_digits f) → any is_n (print_fraction f) ≡ false
no_n-fraction none small = refl
no_n-fraction (some ds) small = no_n-digits ds small

no_n-append : (s t : Text) → any is_n s ≡ false → any is_n t ≡ false → any is_n (s ++ t) ≡ false
no_n-append s t e f = any-append is_n s t ∙ rw (e, f) refl

no_n-mark : (e : ℕ) → (e ≡ b'e') ⊎ (e ≡ b'E') → is_n e ≡ false
no_n-mark e h = ground arith

no_n-sign :
    (sign : Text) → (sign ≡ []) ⊎ (sign ≡ b'+' ∷ []) ⊎ (sign ≡ b'-' ∷ []) → any is_n sign ≡ false
no_n-sign sign (inl e) = rw e refl
no_n-sign sign (inr (inl e)) = rw e refl
no_n-sign sign (inr (inr e)) = rw e refl

no_n-exponent :
    (x : Option (ℕ × Text × List ℕ)) → IsExponent x → any is_n (print_exponent x) ≡ false
no_n-exponent none h = refl
no_n-exponent (some (e, sign, ds)) (mark, sign_ok, small) =
    rw (no_n-mark e mark)
      (no_n-append sign (print_digits ds) (no_n-sign sign sign_ok) (no_n-digits ds small))

no_n-print_sign : (negative : Bool) → any is_n (print_sign negative) ≡ false
no_n-print_sign true = refl
no_n-print_sign false = refl

no_n-print : (n : Number) → IsNumber n → any is_n (print n) ≡ false
no_n-print n (some_digit, whole, fraction, exponent) =
    no_n-append (print_sign n.negative) _ (no_n-print_sign n.negative) (
      no_n-append (print_digits n.whole) _ (no_n-digits n.whole whole) (
        no_n-append (print_fraction n.fraction) _ (no_n-fraction n.fraction fraction)
          (no_n-exponent n.exponent exponent)))

inf_has_n : (p q : Text) → any is_n (p ++ (codes "Inf" ++ q)) ≡ true
inf_has_n p q = any-append is_n p (codes "Inf" ++ q) ∙ or_true (any is_n p)

no_inf : (s : Text) → any is_n s ≡ false → includes s (codes "Inf") ≡ false
unfolding cut
no_inf s h = elim (Bool-cases (includes s (codes "Inf"))) [
  | inl e ↦
      let (p, q, f) = cut-of-includes (codes "Inf") s e in
      let (g, first) = cut_sound (codes "Inf") s p q f in
      absurd (cc (h, ap (any is_n) g, inf_has_n p q))
  | inr e ↦ e
]

-- The second test finds no number of JSON.
pub is_not_finite-print : (n : Number) → IsNumber n → is_not_finite (print n) ≡ false
unfolding is_not_finite
is_not_finite-print n number = let e = no_n-print n number in rw (e, no_inf (print n) e) refl
