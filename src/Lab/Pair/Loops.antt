-- ===== src/Lab/Pair/Loops.antt =====
-- How the programs of week0/q3/tcp end, with both loops.
use computer_networks_lab.Prelude.{
  ℕ, zero, suc, List, [], ◌∷◌, ◌++◌, ◌≡◌, refl, ◌∙◌, sym, subst, ap, ◌⊎◌, inl, inr, length, ◌≤◌,
  some, arith, drop, append_assoc, length-append, length-drop, replicate,
}
use computer_networks_lab.Libc.Text.{Bytes, codes, store, c_string, c_string-terminated}
use computer_networks_lab.Os.{
  Call, Answer, failed, result, Kernel, Outcome, done, exited, faulted, Program, ask, continue,
  ◌>>=◌,
}
use computer_networks_lab.Lab.Opening.{Bounded, empty_buffer}
use computer_networks_lab.Lab.Exchange.{accept_one-FailStop, connect_one-FailStop}
use computer_networks_lab.Lab.FailStop.{
  Clean, Reported, Ends, FailStop, >>=-FailStop, return-FailStop, tell-FailStop, checked-FailStop,
  need->>=-FailStop, answered-Ends,
}
use computer_networks_lab.Lab.Pair.{
  Talk, ended, sent, hear_frame, memset_none, Side, server_side, client_side, arrived, heard,
  hear_rounds, bye, talked, talk_frames, pair_loop, pair_server, pair_client,
}

-- The buffer has 256 bytes, the last of which is NUL.
record Closed (buffer : Bytes) : Type 0 where
  text : Bytes
  size : length text ≡ 255
  whole : buffer ≡ text ++ 0 ∷ []

drop-append_of_le :
    {A : Type 0} (n : ℕ) (xs ys : List A) → n ≤ length xs → drop n (xs ++ ys) ≡ drop n xs ++ ys
drop-append_of_le zero xs ys h = refl
drop-append_of_le (suc n) [] ys h = absurd (omega arith)
drop-append_of_le (suc n) (x ∷ xs) ys h = drop-append_of_le n xs ys (omega arith)

-- A read of 255 bytes leaves the NUL alone.
store-Closed :
    (bytes buffer : Bytes) → length bytes ≤ 255 → Closed buffer → Closed (store bytes buffer)
unfolding store
store-Closed bytes buffer short c = record {
  text = bytes ++ drop (length bytes) c.text;
  size = omega (
    arith,
    length-append bytes (drop (length bytes) c.text),
    length-drop (length bytes) c.text,
    c.size,
  );
  whole =
      ap (λ b. bytes ++ drop (length bytes) b) c.whole
      ∙ (ap (λ b. bytes ++ b)
            (drop-append_of_le (length bytes) c.text (0 ∷ []) (omega (arith, c.size)))
          ∙ sym (append_assoc bytes (drop (length bytes) c.text) (0 ∷ [])));
}

c_string-Closed : {buffer : Bytes} → Closed buffer → (t : Bytes) × (c_string buffer ≡ some t)
c_string-Closed c = rw c.whole (c_string-terminated c.text [])

module _ (kernel : Kernel) (side : Side) {A : Type 0} where
  -- The program has been stopped by a failing call, or has said goodbye.
  abbrev pub Closes : List Call × Outcome A → Type 0
  Closes (calls, done a) = Clean kernel calls
  Closes (calls, exited n) =
      ((n ≡ side.status) × Reported kernel calls)
      ⊎ ((n ≡ 0)
          × ((pid : ℕ) × (rest : List Call) × (calls ≡ bye side pid ∷ rest) × Clean kernel rest))
  Closes (calls, faulted) = ⊥

  pub record Leaves (m : Program A) : Type 0 where
    pub run : (calls : List Call) → Clean kernel calls → Closes (m calls)

module _ (kernel : Kernel) (side : Side) where
  Ends-Closes :
      {A : Type 0} (r : List Call × Outcome A) → Ends kernel side.status r → Closes kernel side r
  Ends-Closes (calls, done a) h = h
  Ends-Closes (calls, exited n) h = inl h
  Ends-Closes (calls, faulted) h = h

  FailStop-Leaves :
      {A : Type 0} {m : Program A} → FailStop kernel side.status m → Leaves kernel side m
  FailStop-Leaves {m = m} h = record {
    run = λ calls clean. Ends-Closes (m calls) (h.run calls clean);
  }

  continue-Closes :
      {A B : Type 0} (r : List Call × Outcome A) (f : A → Program B)
      → Ends kernel side.status r
      → ((a : A) → Leaves kernel side (f a))
      → Closes kernel side (continue r f)
  continue-Closes (calls, done a) f h k = (k a).run calls h
  continue-Closes (calls, exited n) f h k = inl h
  continue-Closes (calls, faulted) f h k = h

  >>=-Leaves :
      {A B : Type 0} {m : Program A} {f : A → Program B}
      → FailStop kernel side.status m
      → ((a : A) → Leaves kernel side (f a))
      → Leaves kernel side (m >>= f)
  >>=-Leaves {m = m} {f = f} h k = record {
    run = λ calls clean. continue-Closes (m calls) f (h.run calls clean) k;
  }

module _ (kernel : Kernel) (bounded : Bounded kernel) (side : Side) (fd : ℕ) where
  hear_rounds-FailStop :
      (n : ℕ) (buffer : Bytes)
      → Closed buffer
      → FailStop kernel side.status (hear_rounds kernel side fd n buffer)
  unfolding hear_rounds hear_frame
  hear_rounds-FailStop zero buffer c = return-FailStop buffer
  hear_rounds-FailStop (suc n) buffer c =
      answered-Ends (Call.read fd 255)
        (λ a. arrived kernel side fd a >>= λ bytes.
          heard kernel side fd (hear_rounds kernel side fd n) (hear_frame buffer bytes))
        (λ calls h. (refl, h))
        λ k bytes calls e h.
          let c' = store-Closed bytes buffer (bounded.read_bounded fd 255 k bytes calls e) c in
          let (text, read) = c_string-Closed c' in
          let rest =
            subst (λ b. FailStop kernel side.status (hear_rounds kernel side fd n b))
              (sym (memset_none (store bytes buffer)))
              (hear_rounds-FailStop n (store bytes buffer) c') in
          (need->>=-FailStop _ read (
              >>=-FailStop (tell-FailStop (Call.printf (side.other ++ text)) refl)
                λ printed. rest)).run
            _ h

  talked-Leaves :
      (pid : ℕ) (rounds : Bytes → Program Bytes) (t : Talk)
      → ((buffer : Bytes) → Leaves kernel side (rounds buffer))
      → Leaves kernel side (talked kernel side fd pid rounds t)
  talked-Leaves pid rounds ended k = record {
    run = λ calls clean. inr (refl, (pid, calls, refl, clean));
  }
  talked-Leaves pid rounds (sent frame buffer input) k =
      >>=-Leaves kernel side
        (checked-FailStop (codes "ERROR writing to socket") (Call.write fd frame)) λ n. k buffer

  talk_frames-Leaves :
      (n pid : ℕ) (buffer : Bytes) → Leaves kernel side (talk_frames kernel side fd n pid buffer)
  unfolding talk_frames
  talk_frames-Leaves zero pid buffer = FailStop-Leaves kernel side (return-FailStop buffer)
  talk_frames-Leaves (suc n) pid buffer = record {
    run = λ calls clean.
        (talked-Leaves pid (talk_frames kernel side fd n pid) _ (talk_frames-Leaves n pid)).run
          (Call.stdin 255 ∷ calls) (inl refl, clean);
  }

  empty_buffer-Closed : Closed empty_buffer
  empty_buffer-Closed = record { text = replicate 255 0; size = refl; whole = refl }

  pair_loop-Leaves :
      (n : ℕ) → Leaves kernel side (ask kernel Call.fork >>= pair_loop kernel side fd n)
  pair_loop-Leaves n = record {
    run = λ calls clean. go calls clean (kernel (Call.fork ∷ calls)) refl;
  }
    where
      go :
          (calls : List Call)
          → Clean kernel calls
          → (a : Answer) → kernel (Call.fork ∷ calls) ≡ a
          → Closes kernel side
              (pair_loop kernel side fd n (kernel (Call.fork ∷ calls)) (Call.fork ∷ calls))
      go calls clean failed e = rw e (inl (refl, (e, clean)))
      go calls clean (result zero bytes) e = rw e (
          (FailStop-Leaves kernel side
              (hear_rounds-FailStop n empty_buffer empty_buffer-Closed)).run
            (Call.fork ∷ calls) (inr (λ h. absurd (cc (e, h))), clean))
      go calls clean (result (suc pid) bytes) e = rw e (
          (talk_frames-Leaves n (suc pid) empty_buffer).run (Call.fork ∷ calls)
            (inr (λ h. absurd (cc (e, h))), clean))

-- For any number of rounds of their loops, and in both processes, the server and the client of q3 stop
-- at the first failing call that they check, a fork that fails included, report it at once, and exit
-- with 1 and 0; or they print the number of the child, and exit at once with 0. They never print past
-- the end of a buffer, whatever the kernel answers, if reads are bounded.
pub pair-Leaves :
    (kernel : Kernel) (n : ℕ) (argv : List Bytes)
    → Bounded kernel
    → Leaves kernel server_side (pair_server kernel n argv)
      × Leaves kernel client_side (pair_client kernel n argv)
unfolding pair_server pair_client
pair-Leaves kernel n argv bounded = (
  >>=-Leaves kernel server_side (accept_one-FailStop kernel argv) λ fd.
      >>=-Leaves kernel server_side
        (tell-FailStop (Call.printf (codes "Connection establised!\n")) refl)
        λ told. pair_loop-Leaves kernel bounded server_side fd n,
  >>=-Leaves kernel client_side (connect_one-FailStop kernel argv)
      λ fd. pair_loop-Leaves kernel bounded client_side fd n,
)
