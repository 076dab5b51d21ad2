-- ===== src/Libc/Text.antt =====
-- Text in a `char` buffer: `%s` and strlen, strncmp, the stores of recv, memset and snprintf.
use Prim.Native.Char.{code}
use Prim.Native.String.{String}
use computer_networks_lab.Prelude.{
  ℕ, zero, suc, ◌-◌, ◌≤◌, ◌<◌, min, ◌≡◌, refl, ap, ◌≢◌, Bool-cases, inl, inr, Bool, true, false,
  Option, none, some, List, [], ◌∷◌, ◌++◌, append_assoc, ◌∙◌, subst, some-eq, arith, ◌==◌,
  if◌then◌else◌, length, take, drop, replicate, All, length-append, length-drop, take_of_le,
  drop_of_le,
}

abbrev pub Bytes : Type 0
Bytes = List ℕ

-- The bytes of a literal, without its terminating NUL.
abbrev pub codes : String → Bytes
codes String.[] = []
codes (String.◌∷◌ c s) = code c ∷ codes s

abbrev prepend : ℕ → Option Bytes → Option Bytes
prepend c none = none
prepend c (some s) = some (c ∷ s)

-- What `%s`, strlen and strcmp read from a buffer: the bytes before the first NUL. `none` is a
-- read past the end of the buffer, which C leaves undefined.
unfoldable pub c_string : Bytes → Option Bytes
c_string [] = none
c_string (c ∷ b) = if c == 0 then some [] else prepend c (c_string b)

-- strncmp (s, t, n) == 0, for buffers of at least n bytes.
unfoldable pub strncmp_eq : ℕ → Bytes → Bytes → Bool
strncmp_eq zero s t = true
strncmp_eq (suc n) [] t = false
strncmp_eq (suc n) (a ∷ s) [] = false
strncmp_eq (suc n) (a ∷ s) (b ∷ t) =
    if a == b then (if a == 0 then true else strncmp_eq n s t) else false

-- A call that stores the bytes `s` at the start of a buffer and leaves the rest of it alone.
unfoldable pub store : Bytes → Bytes → Bytes
store s b = s ++ drop (length s) b

-- memset (b, v, n)
unfoldable pub memset : Bytes → ℕ → ℕ → Bytes
unfolding store
memset b v n = store (replicate (min n (length b)) v) b

-- snprintf (b, n, …) where the format gives the text `s`, for 0 < n: at most n - 1 bytes and a NUL.
unfoldable pub snprintf : Bytes → ℕ → Bytes → Bytes
unfolding store
snprintf b n s = store (take (n - 1) s ++ 0 ∷ []) b

-- A text holds no NUL.
abbrev pub IsText : Bytes → Type 0
IsText = All (λ c. c ≢ 0)

pub c_string-append : (s r : Bytes) → IsText s → c_string (s ++ 0 ∷ r) ≡ some s
unfolding c_string
c_string-append [] r h = refl
c_string-append (c ∷ s) r h = ground (arith, c_string-append s r h.1)

pub c_string-text : (s : Bytes) → IsText s → c_string s ≡ none
unfolding c_string
c_string-text [] h = refl
c_string-text (c ∷ s) h = ground (arith, c_string-text s h.1)

prepend-IsText :
    (c : ℕ) (r : Option Bytes) {s : Bytes}
    → c ≢ 0
    → ((t : Bytes) → r ≡ some t → IsText t)
    → prepend c r ≡ some s
    → IsText s
prepend-IsText c none n h e = cc
prepend-IsText c (some t) n h e = subst IsText (some-eq e) (n, h t refl)

c_string_nul : (c : ℕ) (b : Bytes) → (c == 0) ≡ true → some [] ≡ c_string (c ∷ b)
unfolding c_string
c_string_nul c b z = rw z refl

c_string_other : (c : ℕ) (b : Bytes) → (c == 0) ≡ false → prepend c (c_string b) ≡ c_string (c ∷ b)
unfolding c_string
c_string_other c b n = rw n refl

-- A string that has been read holds no NUL.
pub c_string-IsText : (b : Bytes) {s : Bytes} → c_string b ≡ some s → IsText s
unfolding c_string
c_string-IsText [] e = cc
c_string-IsText (c ∷ b) {s} e = elim (Bool-cases (c == 0)) [
  | inl z ↦ subst IsText (some-eq (c_string_nul c b z ∙ e)) tt
  | inr n ↦
      prepend-IsText c (c_string b) (λ z. ground arith) (λ t h. c_string-IsText b h)
        (c_string_other c b n ∙ e)
]

pub length-store : (s b : Bytes) → length s ≤ length b → length (store s b) ≡ length b
unfolding store
length-store s b h = omega (arith, length-append s (drop (length s) b), length-drop (length s) b)

pub store_all : (s b : Bytes) → length b ≤ length s → store s b ≡ s ++ []
unfolding store
store_all s b h = ap (◌++◌ s) (drop_of_le (length s) b h)

-- What is read back from a store that holds a NUL does not depend on the buffer before it.
pub c_string-store : (s r b : Bytes) → IsText s → c_string (store (s ++ 0 ∷ r) b) ≡ some s
unfolding store
c_string-store s r b h =
    let tail = drop (length (s ++ 0 ∷ r)) b in
    ap c_string (append_assoc s (0 ∷ r) tail) ∙ c_string-append s (r ++ tail) h

pub c_string-snprintf_fits :
    (b s : Bytes) (n : ℕ) → IsText s → length s < n → c_string (snprintf b n s) ≡ some s
unfolding snprintf
c_string-snprintf_fits b s n h fits =
    ap (λ t. c_string (store (t ++ 0 ∷ []) b)) (take_of_le (n - 1) s (omega arith))
    ∙ c_string-store s [] b h

pub strncmp_eq-append : (n : ℕ) (s r : Bytes) → n ≡ length s → strncmp_eq n (s ++ r) s ≡ true
unfolding strncmp_eq
strncmp_eq-append zero s r h = refl
strncmp_eq-append (suc n) [] r h = absurd (omega arith)
strncmp_eq-append (suc n) (c ∷ s) r h = ground (arith, strncmp_eq-append n s r)

-- A buffer with a NUL in it always holds a string.
pub c_string-terminated : (s r : Bytes) → (t : Bytes) × (c_string (s ++ 0 ∷ r) ≡ some t)
unfolding c_string
c_string-terminated [] r = ([], refl)
c_string-terminated (c ∷ s) r = elim (Bool-cases (c == 0)) [
  | inl e ↦ ([], rw e)
  | inr e ↦ let (t, h) = c_string-terminated s r in (c ∷ t, rw (e, h))
]

pub drop-replicate :
    (n k : ℕ) → n < k → (m : ℕ) × (drop {A = ℕ} n (replicate k 0) ≡ 0 ∷ replicate m 0)
drop-replicate n zero h = absurd (omega arith)
drop-replicate zero (suc k) h = (k, refl)
drop-replicate (suc n) (suc k) h = drop-replicate n k (omega arith)

-- So does a cleared buffer into which fewer bytes are stored than it has.
pub c_string-cleared :
    (s : Bytes) (k : ℕ) → length s < k → (t : Bytes) × (c_string (store s (replicate k 0)) ≡ some t)
unfolding store
c_string-cleared s k h =
    let (m, e) = drop-replicate (length s) k h in
    let (t, p) = c_string-terminated s (replicate m 0) in (t, ap (λ r. c_string (s ++ r)) e ∙ p)

pub c_string-cleared_text :
    (s : Bytes) (k : ℕ) → IsText s → length s < k → c_string (store s (replicate k 0)) ≡ some s
unfolding store
c_string-cleared_text s k text h =
    let (m, e) = drop-replicate (length s) k h in
    ap (λ r. c_string (s ++ r)) e ∙ c_string-append s (replicate m 0) text
