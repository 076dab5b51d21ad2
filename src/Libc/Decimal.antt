-- ===== src/Libc/Decimal.antt =====
-- `%d` of an int that is not negative. The fuel `n + 1` is enough, since each round divides by ten.
use computer_networks_lab.Prelude.{
  ℕ, zero, suc, ◌+◌, ◌-◌, ◌*◌, ◌/◌, ◌%◌, ◌<◌, ◌≡◌, refl, true, false, [], ◌∷◌, ◌++◌, arith, ltb,
  if◌then◌else◌, All, sym, ap, ◌&&◌, leb, Bool, ◌∙◌, ◌^◌, ◌≤◌, length,
}
use computer_networks_lab.Libc.Text.{Bytes, IsText, codes}

unfoldable pub digits_onto : ℕ → ℕ → Bytes → Bytes
digits_onto zero n out = out
digits_onto (suc fuel) n out =
    let more = digits_onto fuel (n / 10) ((b'0' + n % 10) ∷ out) in
    if ltb n 10 then (b'0' + n) ∷ out else more

unfoldable pub decimal : ℕ → Bytes
unfolding digits_onto
decimal n = digits_onto (suc n) n []

abbrev pub is_digit : ℕ → Bool
is_digit c = leb b'0' c && leb c b'9'

-- The value of the digits at the start of a text, behind the value `acc` of those before them.
unfoldable pub scan_digits : ℕ → Bytes → ℕ
scan_digits acc [] = acc
scan_digits acc (c ∷ s) =
    let more = scan_digits (acc * 10 + (c - b'0')) s in if is_digit c then more else acc

-- The text does not begin with a digit.
abbrev pub Stops : Bytes → Type 0
Stops [] = Unit
Stops (c ∷ s) = is_digit c ≡ false

pub scan_digits-Stops : (n : ℕ) (s : Bytes) → Stops s → scan_digits n s ≡ n
unfolding scan_digits
scan_digits-Stops n [] h = refl
scan_digits-Stops n (c ∷ s) h = ground arith

scan_last : (n : ℕ) (out : Bytes) → scan_digits (n / 10) ((b'0' + n % 10) ∷ out) ≡ scan_digits n out
unfolding scan_digits
scan_last n out = ground arith

scan_first : (n : ℕ) (out : Bytes) → n < 10 → scan_digits 0 ((b'0' + n) ∷ out) ≡ scan_digits n out
unfolding scan_digits
scan_first n out h = ground arith

scan_digits-digits_onto :
    (fuel n : ℕ) (out : Bytes)
    → n < fuel
    → scan_digits 0 (digits_onto fuel n out) ≡ scan_digits n out
unfolding digits_onto
scan_digits-digits_onto zero n out h = absurd (omega arith)
scan_digits-digits_onto (suc fuel) n out h = ground (
  arith,
  scan_first n out,
  scan_last n out,
  scan_digits-digits_onto fuel (n / 10) ((b'0' + n % 10) ∷ out),
)

digits_onto-append :
    (fuel n : ℕ) (out r : Bytes) → digits_onto fuel n out ++ r ≡ digits_onto fuel n (out ++ r)
unfolding digits_onto
digits_onto-append zero n out r = refl
digits_onto-append (suc fuel) n out r =
    ground (arith, digits_onto-append fuel (n / 10) ((b'0' + n % 10) ∷ out) r)

-- Reading the digits of `decimal n` back gives `n`, whatever text follows that is not a digit.
pub scan_digits-decimal : (n : ℕ) (r : Bytes) → Stops r → scan_digits 0 (decimal n ++ r) ≡ n
unfolding decimal
scan_digits-decimal n r h =
    ap (scan_digits 0) (digits_onto-append (suc n) n [] r)
    ∙ (scan_digits-digits_onto (suc n) n r (omega arith) ∙ scan_digits-Stops n r h)

abbrev pub IsDigit : ℕ → Type 0
IsDigit c = is_digit c ≡ true

digits_onto-digits :
    (fuel n : ℕ) (out : Bytes) → All IsDigit out → All IsDigit (digits_onto fuel n out)
unfolding digits_onto
digits_onto-digits zero n out h = h
digits_onto-digits (suc fuel) n out h =
    ground (arith, digits_onto-digits fuel (n / 10) ((b'0' + n % 10) ∷ out))

digit-IsText : (s : Bytes) → All IsDigit s → IsText s
digit-IsText [] h = tt
digit-IsText (c ∷ s) h = ground (arith, digit-IsText s h.1)

pub decimal-digits : (n : ℕ) → All IsDigit (decimal n)
unfolding decimal
decimal-digits n = digits_onto-digits (suc n) n [] tt

pub decimal-IsText : (n : ℕ) → IsText (decimal n)
decimal-IsText n = digit-IsText (decimal n) (decimal-digits n)

pub decimal_one_digit : (n : ℕ) → n < 10 → decimal n ≡ (b'0' + n) ∷ []
unfolding decimal digits_onto
decimal_one_digit n h = ground arith

-- Numbers with the same print are equal.
pub decimal-injective :
    (m n : ℕ) (r t : Bytes) → Stops r → Stops t → decimal m ++ r ≡ decimal n ++ t → m ≡ n
decimal-injective m n r t hr ht e =
    sym (scan_digits-decimal m r hr) ∙ (ap (scan_digits 0) e ∙ scan_digits-decimal n t ht)

decimal_print : decimal 2026 ≡ codes "2026"
unfolding decimal
decimal_print = refl

length-digits_onto :
    (k fuel n : ℕ) (out : Bytes)
    → n < 10 ^ suc k
    → length (digits_onto fuel n out) ≤ suc k + length out
unfolding digits_onto
length-digits_onto k zero n out h = omega arith
length-digits_onto zero (suc fuel) n out h = ground arith
length-digits_onto (suc k) (suc fuel) n out h =
    ground (arith, length-digits_onto k fuel (n / 10) ((b'0' + n % 10) ∷ out) (omega arith))

-- A number below a power of ten has no more digits than the power's exponent.
pub length-decimal : (k n : ℕ) → n < 10 ^ suc k → length (decimal n) ≤ suc k
unfolding decimal
length-decimal k n h = omega (arith, length-digits_onto k (suc n) n [] h)
