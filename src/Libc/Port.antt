-- ===== src/Libc/Port.antt =====
-- The port argument of the programs of week0/q1 to q3: `portno = atoi (argv[i])` and
-- `sin_port = htons (portno)`.
use computer_networks_lab.Prelude.{
  ℕ, zero, suc, ◌-◌, ◌/◌, ◌%◌, ◌^◌, ◌≡◌, refl, sym, [], ◌∷◌, arith, leb, if◌then◌else◌, ap, ◌∙◌,
  ◌==◌, ◌||◌, ◌&&◌, Bool, All, append-nil,
}
use computer_networks_lab.Libc.Text.{Bytes, codes}
use computer_networks_lab.Libc.Decimal.{
  decimal, scan_digits, scan_digits-decimal, IsDigit, decimal-digits,
}

-- `negsuc n` is -(n + 1).
pub data ℤ : Type 0 where
  pos : ℕ → ℤ
  negsuc : ℕ → ℤ

abbrev pub negate : ℕ → ℤ
negate zero = pos 0
negate (suc n) = negsuc n

is_space : ℕ → Bool
is_space c = c == b' ' || (leb 9 c && leb c 13)

signed : Bytes → ℤ
signed [] = pos 0
signed (c ∷ s) =
    if c == b'-'
    then negate (scan_digits 0 s)
    else if c == b'+'
    then pos (scan_digits 0 s)
    else pos (scan_digits 0 (c ∷ s))

-- atoi: leading white space, a sign, digits up to the first other byte. A value that an int does
-- not hold is undefined in C; here it is the number that the digits spell.
unfoldable pub atoi : Bytes → ℤ
unfolding is_space signed
atoi [] = pos 0
atoi (c ∷ s) = if is_space c then atoi s else signed (c ∷ s)

-- The conversion of an int to the uint16_t parameter of htons.
abbrev pub u16 : ℤ → ℕ
u16 (pos n) = n % 2 ^ 16
u16 (negsuc n) = 2 ^ 16 - 1 - n % 2 ^ 16

-- The two bytes of the field sin_port: network byte order, high byte first.
abbrev pub htons : ℤ → Bytes
htons p = (u16 p / 256) ∷ (u16 p % 256) ∷ []

atoi_digits : (s : Bytes) → All IsDigit s → atoi s ≡ pos (scan_digits 0 s)
unfolding atoi scan_digits
atoi_digits [] h = refl
atoi_digits (c ∷ s) h = ground arith

-- A port given in decimal is read as that number.
pub atoi-decimal : (n : ℕ) → atoi (decimal n) ≡ pos n
atoi-decimal n =
    atoi_digits (decimal n) (decimal-digits n)
    ∙ ap pos (ap (scan_digits 0) (sym (append-nil (decimal n))) ∙ scan_digits-decimal n [] tt)

port_names : (atoi (codes " -1") ≡ negsuc 0) × (htons (atoi (codes "8080x")) ≡ 31 ∷ 144 ∷ [])
unfolding atoi scan_digits
port_names = (refl, refl)
