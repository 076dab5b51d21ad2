-- ===== src/Lab/Calendar.antt =====
-- What the client of week0/q2 prints, and what can be read from it.
use computer_networks_lab.Prelude.{
  take-append_of_ge, take_of_le, drop, append_assoc, ℕ, List, [], ◌∷◌, ◌++◌, ◌+◌, ◌^◌, ◌≤◌, ◌<◌,
  ◌≡◌, refl, ◌∙◌, sym, ap, arith, length, take, some, length-append, All-append,
}
use computer_networks_lab.Libc.Text.{
  Bytes, codes, store, c_string, snprintf, IsText, c_string-store, c_string-cleared_text,
}
use computer_networks_lab.Libc.Decimal.{
  decimal, decimal-IsText, decimal-injective, length-decimal, Stops,
}
use computer_networks_lab.Libc.Port.{atoi, htons}
use computer_networks_lab.Os.{Call, Kernel, done, stream, result}
use computer_networks_lab.Lab.Opening.{buffer_size, empty_buffer, accept_one, connect_one}
use computer_networks_lab.Lab.Greeting.{show_ack}
use computer_networks_lab.Lab.Runs.{Serves}
use computer_networks_lab.Lab.Civil.{Civil, IsCivil, broken_down, shown_date}
use computer_networks_lab.Lab.Date.{Tm, date_text, request, send_date, date_server, date_client}

append-cancel : (s r t : Bytes) → s ++ r ≡ s ++ t → r ≡ t
append-cancel [] r t e = e
append-cancel (c ∷ s) r t e = append-cancel s r t cc

-- Two prints of a number, each before a text that does not begin with a digit.
decimal-next :
    (m n : ℕ) (r t : Bytes)
    → Stops r
    → Stops t
    → decimal m ++ r ≡ decimal n ++ t
    → (m ≡ n) × (r ≡ t)
decimal-next m n r t hr ht e =
    let same = decimal-injective m n r t hr ht e in
    (same, append-cancel (decimal n) r t (ap (λ k. decimal k ++ r) (sym same) ∙ e))

-- Different times have different texts, so the six numbers can be read back from what is printed.
date_text-injective : (a b : Tm) → date_text a ≡ date_text b → a ≡ b
unfolding date_text
date_text-injective a b e =
    let (day, e1) =
      decimal-next a.tm_mday b.tm_mday _ _ refl refl (append-cancel (codes "now ") _ _ e) in
    let (mon, e2) =
      decimal-next a.tm_mon b.tm_mon _ _ refl refl (append-cancel (codes "-") _ _ e1) in
    let (year, e3) =
      decimal-next a.tm_year b.tm_year _ _ refl refl (append-cancel (codes "-") _ _ e2) in
    let (hour, e4) =
      decimal-next a.tm_hour b.tm_hour _ _ refl refl (append-cancel (codes " ") _ _ e3) in
    let (min, e5) =
      decimal-next a.tm_min b.tm_min _ _ refl refl (append-cancel (codes ":") _ _ e4) in
    let (sec, e6) = decimal-next a.tm_sec b.tm_sec [] [] tt tt (append-cancel (codes ":") _ _ e5) in
    cc

-- An int that is not negative.
abbrev pub IsInt : ℕ → Type 0
IsInt n = n < 2 ^ 31

pub record IsTm (t : Tm) : Type 0 where
  pub day : IsInt t.tm_mday
  pub month : IsInt t.tm_mon
  pub year : IsInt t.tm_year
  pub hour : IsInt t.tm_hour
  pub minute : IsInt t.tm_min
  pub second : IsInt t.tm_sec

digits : (n : ℕ) → IsInt n → length (decimal n) ≤ 10
digits n h = length-decimal 9 n (omega arith)

length-field :
    (s r : Bytes) (n k : ℕ)
    → IsInt n
    → length r ≤ k
    → length (s ++ (decimal n ++ r)) ≤ length s + (10 + k)
length-field s r n k h short =
    omega (arith, length-append s (decimal n ++ r), length-append (decimal n) r, digits n h)

length-date_text : (t : Tm) → IsTm t → length (date_text t) ≤ 69
unfolding date_text
length-date_text t h = length-field (codes "now ") _ t.tm_mday 55 h.day (
    length-field (codes "-") _ t.tm_mon 44 h.month (
      length-field (codes "-") _ t.tm_year 33 h.year (
        length-field (codes " ") _ t.tm_hour 22 h.hour (
          length-field (codes ":") _ t.tm_min 11 h.minute
            (length-field (codes ":") [] t.tm_sec 0 h.second (omega arith))))))

field-IsText : (s r : Bytes) (n : ℕ) → IsText s → IsText r → IsText (s ++ (decimal n ++ r))
field-IsText s r n hs hr =
    All-append _ s (decimal n ++ r) hs (All-append _ (decimal n) r (decimal-IsText n) hr)

date_text-IsText : (t : Tm) → IsText (date_text t)
unfolding date_text
date_text-IsText t = field-IsText (codes "now ") _ t.tm_mday (omega arith) (
    field-IsText (codes "-") _ t.tm_mon (omega arith) (
      field-IsText (codes "-") _ t.tm_year (omega arith) (
        field-IsText (codes " ") _ t.tm_hour (omega arith) (
          field-IsText (codes ":") _ t.tm_min (omega arith)
            (field-IsText (codes ":") [] t.tm_sec (omega arith) tt)))))

-- What the client has in its buffer, of the 256 bytes that the server wrote.
pub c_string-date :
    (t : Tm) (date : Bytes)
    → IsTm t
    → c_string (store (take 255 (snprintf date buffer_size (date_text t))) empty_buffer)
      ≡ some (date_text t)
unfolding snprintf store
c_string-date t date h =
    let s = date_text t in
    let (m, e) =
      take-append_of_ge (s ++ 0 ∷ []) (drop (length (s ++ 0 ∷ [])) date) 255
        (omega (arith, length-append s (0 ∷ []), length-date_text t h)) in
    let rest = take m (drop (length (s ++ 0 ∷ [])) date) in
    ap (λ x. c_string (store (take 255 (store (x ++ 0 ∷ []) date)) empty_buffer))
      (take_of_le 255 s (omega (arith, length-date_text t h)))
    ∙ (ap (λ x. c_string (store x empty_buffer)) (e ∙ append_assoc s (0 ∷ []) rest)
        ∙ c_string-store s rest empty_buffer (date_text-IsText t))

-- The calls of the q2 client succeed, and its read gives `bytes`.
pub record Asks (kernel : Kernel) (fd : ℕ) (address bytes : Bytes) : Type 0 where
  pub opens : (calls : List Call) → kernel (Call.socket stream ∷ calls) ≡ result fd []
  pub resolves :
      (host : Bytes) (calls : List Call)
      → kernel (Call.gethostbyname host ∷ calls) ≡ result 0 address
  pub connects :
      (port : Bytes) (calls : List Call)
      → kernel (Call.connect fd address port ∷ calls) ≡ result 0 []
  pub writes :
      (line : Bytes) (calls : List Call)
      → kernel (Call.write fd line ∷ calls) ≡ result (length line) []
  pub reads : (calls : List Call) → kernel (Call.read fd 255 ∷ calls) ≡ result (length bytes) bytes

-- The 256 bytes that the server writes.
abbrev pub date_frame : Bytes → Bytes → Bytes
date_frame text date = snprintf date buffer_size text

abbrev pub date_server_calls : ℕ → ℕ → Bytes → Bytes → Bytes → List Call
date_server_calls fd new port text date =
    Call.write new (date_frame text date)
    ∷ Call.localtime
    ∷ Call.printf (codes "Client: " ++ request ++ codes "\n")
    ∷ Call.read new 255
    ∷ Call.accept fd
    ∷ Call.printf (codes "Waiting for client to connect...\n")
    ∷ Call.listen fd 5
    ∷ Call.bind fd (htons (atoi port))
    ∷ Call.socket stream
    ∷ []

abbrev pub date_client_calls : ℕ → Bytes → Bytes → Bytes → Bytes → List Call
date_client_calls fd address host port text =
    Call.printf (text ++ codes "\n")
    ∷ Call.read fd 255
    ∷ Call.write fd request
    ∷ Call.connect fd address (htons (atoi port))
    ∷ Call.gethostbyname host
    ∷ Call.socket stream
    ∷ []

-- The calls of both, for any answer of localtime.
exchange_of_tm :
    (k l : Kernel) (fd new cfd : ℕ) (port host address date : Bytes) (now : Tm)
    → IsTm now
    → Serves k fd new request
    → Asks l cfd address (take 255 (date_frame (date_text now) date))
    → (date_server k now date (codes "server" ∷ port ∷ []) []
        ≡ (date_server_calls fd new port (date_text now) date, done 0))
      × (date_client l (codes "client" ∷ host ∷ port ∷ []) []
          ≡ (date_client_calls cfd address host port (date_text now), done 0))
unfolding date_server accept_one send_date date_client connect_one show_ack
exchange_of_tm k l fd new cfd port host address date now int s c = (
  rw (s.opens, s.binds, s.accepts, s.reads)
      (rw (c_string-cleared_text request buffer_size (omega arith) (omega arith), s.writes)),
  rw (c.opens, c.resolves, c.connects)
      (rw (c_string-store request [] empty_buffer (omega arith), c.writes, c.reads)
        (rw (c_string-date now date int))),
)

-- The server and the client of q2 together, at a date from 1900 on, when no call fails, the server's
-- read gives the request and the client's the first 255 of the bytes that the server wrote: the server
-- prints the request, and the client prints the day, the month and the year of the date and its time,
-- but with the month one too small and the year 1900 too small; it prints nothing of the uninitialised
-- rest of the server's buffer.
pub date_exchange :
    (k l : Kernel) (fd new cfd : ℕ) (port host address date : Bytes) (d : Civil)
    → IsCivil d
    → Serves k fd new request
    → Asks l cfd address (take 255 (date_frame (shown_date d) date))
    → (date_server k (broken_down d) date (codes "server" ∷ port ∷ []) []
        ≡ (date_server_calls fd new port (shown_date d) date, done 0))
      × (date_client l (codes "client" ∷ host ∷ port ∷ []) []
          ≡ (date_client_calls cfd address host port (shown_date d), done 0))
unfolding date_text
date_exchange k l fd new cfd port host address date d civil s c =
    exchange_of_tm k l fd new cfd port host address date (broken_down d)
      (record {
        day = omega (arith, civil.days);
        month = omega (arith, civil.last);
        year = omega (arith, civil.until);
        hour = omega (arith, civil.hours);
        minute = omega (arith, civil.minutes);
        second = omega (arith, civil.seconds);
      })
      s c
