-- ===== src/Libc/Input.antt =====
-- fgets on standard input. The input is the list of the bytes still to be read.
use computer_networks_lab.Prelude.{
  ℕ, zero, suc, ◌-◌, ◌≤◌, ◌<◌, ◌≡◌, refl, ap, ◌≢◌, some, [], ◌∷◌, ◌++◌, arith, ◌==◌, if◌then◌else◌,
  length, All, replicate, drop, append_assoc, ◌∙◌,
}
use computer_networks_lab.Libc.Text.{
  Bytes, store, IsText, c_string, c_string-store, c_string-cleared, c_string-terminated,
}

abbrev pub newline : ℕ
newline = b'\n'

abbrev first : ℕ → Bytes × Bytes → Bytes × Bytes
first c (line, rest) = (c ∷ line, rest)

-- At most `n` bytes, up to and including a newline, and the input behind them.
unfoldable pub take_line : ℕ → Bytes → Bytes × Bytes
take_line zero input = ([], input)
take_line (suc n) [] = ([], [])
take_line (suc n) (c ∷ input) =
    if c == newline then (c ∷ [], input) else first c (take_line n input)

-- fgets (b, n, stdin) for 0 < n: the new buffer and the input left. At the end of the input it
-- returns NULL and leaves the buffer as it was.
unfoldable pub fgets : Bytes → ℕ → Bytes → Bytes × Bytes
unfolding take_line
fgets b n [] = (b, [])
fgets b n (c ∷ input) =
    let (line, rest) = take_line (n - 1) (c ∷ input) in (store (line ++ 0 ∷ []) b, rest)

pub length-take_line : (n : ℕ) (input : Bytes) → length (take_line n input).0 ≤ n
unfolding take_line
length-take_line zero input = omega arith
length-take_line (suc n) [] = omega arith
length-take_line (suc n) (c ∷ input) = ground (arith, length-take_line n input)

pub take_line-IsText : (n : ℕ) (input : Bytes) → IsText input → IsText (take_line n input).0
unfolding take_line
take_line-IsText zero input h = tt
take_line-IsText (suc n) [] h = tt
take_line-IsText (suc n) (c ∷ input) h = ground (arith, take_line-IsText n input h.1)

-- A whole line that fits is read as it is.
pub take_line-append :
    (s rest : Bytes) (n : ℕ)
    → All (λ c. c ≢ newline) s
    → length s < n
    → take_line n (s ++ newline ∷ rest) ≡ (s ++ newline ∷ [], rest)
unfolding take_line
take_line-append s rest zero h fits = absurd (omega arith)
take_line-append [] rest (suc n) h fits = refl
take_line-append (c ∷ s) rest (suc n) h fits = ground (arith, take_line-append s rest n h.1)

-- fgets leaves a string in the buffer, whatever was there before.
pub c_string-fgets :
    (b : Bytes) (n c : ℕ) (input : Bytes)
    → IsText (c ∷ input)
    → c_string (fgets b n (c ∷ input)).0 ≡ some (take_line (n - 1) (c ∷ input)).0
unfolding fgets
c_string-fgets b n c input h =
    c_string-store (take_line (n - 1) (c ∷ input)).0 [] b (take_line-IsText (n - 1) (c ∷ input) h)

-- A cleared buffer holds a string after fgets, also at the end of the input.
pub c_string-fgets_cleared :
    (n k : ℕ) (input : Bytes)
    → 0 < k
    → (t : Bytes) × (c_string (fgets (replicate k 0) n input).0 ≡ some t)
unfolding fgets store
c_string-fgets_cleared n k [] h = c_string-cleared [] k h
c_string-fgets_cleared n k (c ∷ input) h =
    let line = (take_line (n - 1) (c ∷ input)).0 in
    let tail = drop (length (line ++ 0 ∷ [])) (replicate k 0) in
    let (t, e) = c_string-terminated line tail in
    (t, ap c_string (append_assoc line (0 ∷ []) tail) ∙ e)
