-- ===== src/Egress/Scan/Numbers.antt =====
-- proxy/cmd/egress-proxy/repro.go: the tests on a number's spelling, against the numbers of JSON.
use attested_harness.Common.{
  ℕ, ◌+◌, ◌*◌, ◌<◌, ◌≡◌, ◌≢◌, refl, ◌↔◌, ◌⊎◌, Bool, true, false, ◌||◌, Option, none, some, List, [],
  ◌∷◌, ◌++◌, map, arith, ◌==◌, All, Text, ap, ◌∙◌, inl, inr, append-nil, &&_parts, all, sym, codes,
  strip_prefix, split, join,
}
use attested_harness.Egress.Scan.{
  signed_zero, is_negative_zero, mantissa, is_all_zero, is_zero_char,
}

-- A number of JSON: a sign, digits, digits behind a point, and an exponent with its own sign.
pub record Number : Type 0 where
  pub negative : Bool
  pub whole : List ℕ
  pub fraction : Option (List ℕ)
  pub exponent : Option (ℕ × Text × List ℕ)

abbrev pub print_digits : List ℕ → Text
print_digits ds = map (λ d. b'0' + d) ds

abbrev pub print_sign : Bool → Text
print_sign true = b'-' ∷ []
print_sign false = []

abbrev pub print_fraction : Option (List ℕ) → Text
print_fraction none = []
print_fraction (some ds) = b'.' ∷ print_digits ds

abbrev pub print_exponent : Option (ℕ × Text × List ℕ) → Text
print_exponent none = []
print_exponent (some (e, sign, ds)) = e ∷ sign ++ print_digits ds

abbrev pub print : Number → Text
print n =
    print_sign n.negative
    ++ (print_digits n.whole ++ (print_fraction n.fraction ++ print_exponent n.exponent))

abbrev pub AreDigits : List ℕ → Type 0
AreDigits ds = All (λ d. d < 10) ds

abbrev pub IsExponent : Option (ℕ × Text × List ℕ) → Type 0
IsExponent none = Unit
IsExponent (some (e, sign, ds)) =
    ((e ≡ b'e') ⊎ (e ≡ b'E'))
    × ((sign ≡ []) ⊎ (sign ≡ b'+' ∷ []) ⊎ (sign ≡ b'-' ∷ []))
    × AreDigits ds

abbrev pub fraction_digits : Option (List ℕ) → List ℕ
fraction_digits none = []
fraction_digits (some ds) = ds

abbrev pub IsNumber : Number → Type 0
IsNumber n =
    (n.whole ≢ [])
    × AreDigits n.whole
    × AreDigits (fraction_digits n.fraction)
    × IsExponent n.exponent

-- The value of the digits behind others of value `acc`.
abbrev value_from : ℕ → List ℕ → ℕ
value_from acc [] = acc
value_from acc (d ∷ ds) = value_from (10 * acc + d) ds

-- The number without its sign, its point and its exponent. The number is zero where this is.
abbrev pub significand : Number → ℕ
significand n = value_from 0 (n.whole ++ fraction_digits n.fraction)

zero_value_from :
    (acc : ℕ) (ds : List ℕ) → (value_from acc ds ≡ 0) ↔ ((acc ≡ 0) × All (λ d. d ≡ 0) ds)
zero_value_from acc [] = (λ h. (h, tt), λ (h, t). h)
zero_value_from acc (d ∷ ds) =
    let (back, forth) = zero_value_from (10 * acc + d) ds in
    (
      λ h. let (e, rest) = back h in (omega (arith, e), (omega (arith, e), rest)),
      λ (e, (f, rest)). forth (omega (arith, e, f), rest),
    )

digit_zero : (d : ℕ) → (is_zero_char (b'0' + d) ≡ true) → (d < 10) → d ≡ 0
digit_zero d h small = ground arith

is_all_zero-digits :
    (ds : List ℕ) → AreDigits ds → (is_all_zero (print_digits ds) ≡ true) ↔ All (λ d. d ≡ 0) ds
is_all_zero-digits [] small = (λ h. tt, λ h. refl)
is_all_zero-digits (d ∷ ds) (small, rest) =
    let (back, forth) = is_all_zero-digits ds rest in
    (
      λ h.
          let (e, f) = &&_parts (is_zero_char (b'0' + d)) (is_all_zero (print_digits ds)) h in
          (digit_zero d e small, back f),
      λ (e, f). rw (e, forth f) refl,
    )

not_mark : (d : ℕ) → d < 10 → ((b'0' + d == b'e') || (b'0' + d == b'E')) ≡ false
not_mark d h = ground arith

mantissa-digits :
    (ds : List ℕ) (t : Text)
    → AreDigits ds
    → mantissa (print_digits ds ++ t) ≡ print_digits ds ++ mantissa t
mantissa-digits [] t small = refl
mantissa-digits (d ∷ ds) t (small, rest) =
    rw (not_mark d small) (ap (λ s. (b'0' + d) ∷ s) (mantissa-digits ds t rest))

mantissa-exponent :
    (x : Option (ℕ × Text × List ℕ)) → IsExponent x → mantissa (print_exponent x) ≡ []
mantissa-exponent none h = refl
mantissa-exponent (some (e, sign, ds)) (inl lower, sign_ok, rest) = rw lower refl
mantissa-exponent (some (e, sign, ds)) (inr upper, sign_ok, rest) = rw upper refl

mantissa-fraction :
    (f : Option (List ℕ)) (x : Option (ℕ × Text × List ℕ))
    → AreDigits (fraction_digits f)
    → IsExponent x
    → mantissa (print_fraction f ++ print_exponent x) ≡ print_fraction f
mantissa-fraction none x small h = mantissa-exponent x h
mantissa-fraction (some ds) x small h =
    ap (λ t. b'.' ∷ t)
      (mantissa-digits ds (print_exponent x) small
        ∙ ap (λ t. print_digits ds ++ t) (mantissa-exponent x h)
        ∙ append-nil (print_digits ds))

all-append :
    (p : ℕ → Bool) (s t : Text) → (all p (s ++ t) ≡ true) ↔ ((all p s ≡ true) × (all p t ≡ true))
all-append p [] t = (λ h. (refl, h), λ (e, f). f)
all-append p (c ∷ s) t =
    let (back, forth) = all-append p s t in
    (
      λ h.
          let (e, f) = &&_parts (p c) (all p (s ++ t)) h in
          let (g, i) = back f in (rw (e, g) refl, i),
      λ (e, f). let (g, i) = &&_parts (p c) (all p s) e in rw (g, forth (i, f)) refl,
    )

zero_fraction :
    (f : Option (List ℕ))
    → AreDigits (fraction_digits f)
    → (is_all_zero (print_fraction f) ≡ true) ↔ All (λ d. d ≡ 0) (fraction_digits f)
zero_fraction none small = (λ h. tt, λ h. refl)
zero_fraction (some ds) small = is_all_zero-digits ds small

All-append_iff : (P : ℕ → Type 0) (xs ys : List ℕ) → All P (xs ++ ys) ↔ (All P xs × All P ys)
All-append_iff P [] ys = (λ h. (tt, h), λ (h, k). k)
All-append_iff P (x ∷ xs) ys =
    let (back, forth) = All-append_iff P xs ys in
    (λ (h, hs). let (k, l) = back hs in ((h, k), l), λ ((h, k), l). (h, forth (k, l)))

abbrev magnitude : Number → Text
magnitude n = print_digits n.whole ++ (print_fraction n.fraction ++ print_exponent n.exponent)

mantissa-magnitude :
    (n : Number)
    → IsNumber n
    → mantissa (magnitude n) ≡ print_digits n.whole ++ print_fraction n.fraction
mantissa-magnitude n (some_digit, whole, fraction, exponent) =
    mantissa-digits n.whole _ whole
    ∙ ap (λ t. print_digits n.whole ++ t)
        (mantissa-fraction n.fraction n.exponent fraction exponent)

zero_mantissa :
    (n : Number) → IsNumber n → (is_all_zero (mantissa (magnitude n)) ≡ true) ↔ (significand n ≡ 0)
zero_mantissa n number =
    let (some_digit, whole, fraction, exponent) = number in
    let e = mantissa-magnitude n number in
    let (split, join) =
      all-append is_zero_char (print_digits n.whole) (print_fraction n.fraction) in
    let (back, forth) = is_all_zero-digits n.whole whole in
    let (back', forth') = zero_fraction n.fraction fraction in
    let (parts, whole_of) = All-append_iff (λ d. d ≡ 0) n.whole (fraction_digits n.fraction) in
    let (zeros, value) = zero_value_from 0 (n.whole ++ fraction_digits n.fraction) in
    (
      λ h.
          let (f, g) = split (ap is_all_zero (sym e) ∙ h) in
          value (refl, whole_of (back f, back' g)),
      λ h. let (f, g) = parts (zeros h).1 in ap is_all_zero e ∙ join (forth f, forth' g),
    )

not_minus : (d : ℕ) → (45 == b'0' + d) ≡ false
not_minus d = ground arith

unsigned_stripped :
    (ds : List ℕ) (t : Text) → ds ≢ [] → strip_prefix (codes "-") (print_digits ds ++ t) ≡ none
unfolding strip_prefix
unsigned_stripped [] t some_digit = absurd (some_digit refl)
unsigned_stripped (d ∷ ds) t some_digit = rw (not_minus d, strip_prefix) refl

signed_zero-sign :
    (negative : Bool) (t : Text)
    → strip_prefix (codes "-") t ≡ none
    → (signed_zero (strip_prefix (codes "-") (print_sign negative ++ t)) ≡ true)
      ↔ ((negative ≡ true) × (is_all_zero (mantissa t) ≡ true))
unfolding strip_prefix
signed_zero-sign true t e = (λ h. (refl, h), λ (f, g). g)
signed_zero-sign false t e = (λ h. absurd (cc (rw e at h)), λ (f, g). absurd (cc))

-- The first test finds the number negative zero in every spelling that JSON has, and no other.
pub is_negative_zero_iff :
    (n : Number)
    → IsNumber n
    → (is_negative_zero (print n) ≡ true) ↔ ((n.negative ≡ true) × (significand n ≡ 0))
unfolding is_negative_zero
is_negative_zero_iff n number =
    let (some_digit, whole, fraction, exponent) = number in
    let stripped =
      unsigned_stripped n.whole (print_fraction n.fraction ++ print_exponent n.exponent)
        some_digit in
    let (back, forth) = signed_zero-sign n.negative (magnitude n) stripped in
    let (zero', nought) = zero_mantissa n number in
    (λ h. let (e, f) = back h in (e, zero' f), λ (e, f). forth (e, nought f))
