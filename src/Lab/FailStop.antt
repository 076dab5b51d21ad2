-- ===== src/Lab/FailStop.antt =====
-- How a program deals with failing calls, as a property that its parts have.
use computer_networks_lab.Prelude.{
  ℕ, List, [], ◌∷◌, ◌≡◌, ◌≢◌, refl, ◌⊎◌, inl, inr, Option, some, Bool, true, false, length, ◌≤◌,
}
use computer_networks_lab.Libc.Text.{Bytes, codes, store}
use computer_networks_lab.Os.{
  Call, Answer, failed, result, Kernel, Outcome, done, exited, faulted, Program, ◌>>=◌, return,
  tell, ask, continue, need,
}
use computer_networks_lab.Lab.Opening.{
  check, checked, port_argument, host_arguments, host_address, resolved, filled, read_into, Bounded,
}

-- Output, input from the user, listen, close, the greetings and threads of the group chat server: no
-- failure of these is looked at.
abbrev pub is_unchecked : Call → Bool
is_unchecked (Call.listen fd backlog) = true
is_unchecked (Call.close fd) = true
is_unchecked (Call.printf text) = true
is_unchecked (Call.stderr text) = true
is_unchecked (Call.perror text) = true
is_unchecked (Call.stdin count) = true
is_unchecked Call.localtime = true
is_unchecked (Call.send fd bytes) = true
is_unchecked (Call.pthread_create id sockfd) = true
is_unchecked c = false

module _ (kernel : Kernel) where
  abbrev pub Passed : Call → List Call → Type 0
  Passed c calls = (is_unchecked c ≡ true) ⊎ (kernel (c ∷ calls) ≢ failed)

  -- No checked call has failed.
  abbrev pub Clean : List Call → Type 0
  Clean [] = Unit
  Clean (c ∷ calls) = Passed c calls × Clean calls

  -- The newest call has failed, and no checked call before it.
  abbrev pub LastFailed : List Call → Type 0
  LastFailed [] = ⊥
  LastFailed (c ∷ calls) = (kernel (c ∷ calls) ≡ failed) × Clean calls

  -- The newest call is the message of the failure just before it, or of a usage error.
  abbrev pub Reported : List Call → Type 0
  Reported (Call.perror text ∷ calls) = LastFailed calls
  Reported (Call.stderr text ∷ calls) = Clean calls ⊎ LastFailed calls
  Reported calls = ⊥

  module _ (status : ℕ) {A : Type 0} where
    abbrev pub Ends : List Call × Outcome A → Type 0
    Ends (calls, done a) = Clean calls
    Ends (calls, exited n) = (n ≡ status) × Reported calls
    Ends (calls, faulted) = ⊥

    -- The program makes no call after a checked call has failed but the message for it, ends then
    -- with the given status, and never leaves a buffer.
    pub record FailStop (m : Program A) : Type 0 where
      pub run : (calls : List Call) → Clean calls → Ends (m calls)

module _ {kernel : Kernel} {status : ℕ} where
  continue-Ends :
      {A B : Type 0} (r : List Call × Outcome A) (f : A → Program B)
      → Ends kernel status r
      → ((a : A) → FailStop kernel status (f a))
      → Ends kernel status (continue r f)
  continue-Ends (calls, done a) f h k = (k a).run calls h
  continue-Ends (calls, exited n) f h k = h
  continue-Ends (calls, faulted) f h k = h

  pub >>=-FailStop :
      {A B : Type 0} {m : Program A} {f : A → Program B}
      → FailStop kernel status m
      → ((a : A) → FailStop kernel status (f a))
      → FailStop kernel status (m >>= f)
  >>=-FailStop {m = m} {f = f} h k = record {
    run = λ calls clean. continue-Ends (m calls) f (h.run calls clean) k;
  }

  pub return-FailStop : {A : Type 0} (a : A) → FailStop kernel status (return a)
  return-FailStop a = record { run = λ calls clean. clean }

  pub tell-FailStop : (c : Call) → is_unchecked c ≡ true → FailStop kernel status (tell c)
  tell-FailStop c h = record { run = λ calls clean. (inl h, clean) }

  pub ask-FailStop : (c : Call) → is_unchecked c ≡ true → FailStop kernel status (ask kernel c)
  ask-FailStop c h = record { run = λ calls clean. (inl h, clean) }

  pub need-FailStop :
      {A : Type 0} {o : Option A} {a : A} → o ≡ some a → FailStop kernel status (need o)
  need-FailStop e = rw e (record { run = λ calls clean. clean })

  pub need->>=-FailStop :
      {A B : Type 0} {o : Option A} {a : A} (f : A → Program B)
      → o ≡ some a
      → FailStop kernel status (f a)
      → FailStop kernel status (need o >>= f)
  need->>=-FailStop f e h = rw e (record { run = λ calls clean. h.run calls clean })

  -- An answer to a call that was just made, and the program that looks at it.
  pub answered-Ends :
      {A : Type 0} (c : Call) (f : Answer → Program A)
      → ((calls : List Call) → LastFailed kernel calls → Ends kernel status (f failed calls))
      → ((n : ℕ) (bytes : Bytes) (calls : List Call)
          → kernel (c ∷ calls) ≡ result n bytes
          → Clean kernel (c ∷ calls)
          → Ends kernel status (f (result n bytes) (c ∷ calls)))
      → FailStop kernel status (ask kernel c >>= f)
  answered-Ends c f bad good = record {
    run = λ calls clean. go calls clean (kernel (c ∷ calls)) refl;
  }
    where
      go :
          (calls : List Call)
          → Clean kernel calls
          → (a : Answer) → kernel (c ∷ calls) ≡ a
          → Ends kernel status (f (kernel (c ∷ calls)) (c ∷ calls))
      go calls clean failed e = rw e (bad (c ∷ calls) (e, clean))
      go calls clean (result n bytes) e =
          rw e (good n bytes calls e (inr (λ h. absurd (cc (e, h))), clean))

  pub checked-FailStop :
      (text : Bytes) (c : Call) → FailStop kernel status (checked kernel status text c)
  checked-FailStop text c =
      answered-Ends c (check status text) (λ calls h. (refl, h)) (λ n bytes calls e h. h)

  -- A read of at most `count` bytes, and what comes after it.
  pub read_into-FailStop :
      {A : Type 0} (bounded : Bounded kernel) (buffer : Bytes) (fd count : ℕ)
      (f : Bytes → Program A)
      → ((bytes : Bytes) → length bytes ≤ count → FailStop kernel status (f (store bytes buffer)))
      → FailStop kernel status (read_into kernel status buffer fd count >>= f)
  read_into-FailStop bounded buffer fd count f k =
      answered-Ends (Call.read fd count)
        (λ a. filled status (codes "ERROR reading from socket") buffer a >>= f)
        (λ calls h. (refl, h))
        (λ n bytes calls e h. (k bytes (bounded.read_bounded fd count n bytes calls e)).run _ h)

pub port_argument-FailStop :
    (kernel : Kernel) (argv : List Bytes) → FailStop kernel 1 (port_argument argv)
port_argument-FailStop kernel [] = record { run = λ calls clean. (refl, inl clean) }
port_argument-FailStop kernel (name ∷ []) = record { run = λ calls clean. (refl, inl clean) }
port_argument-FailStop kernel (name ∷ port ∷ rest) = record { run = λ calls clean. clean }

pub host_arguments-FailStop :
    (kernel : Kernel) (argv : List Bytes) → FailStop kernel 0 (host_arguments argv)
host_arguments-FailStop kernel [] = record { run = λ calls clean. (refl, inl clean) }
host_arguments-FailStop kernel (name ∷ []) = record { run = λ calls clean. (refl, inl clean) }
host_arguments-FailStop kernel (name ∷ host ∷ []) = record {
  run = λ calls clean. (refl, inl clean);
}
host_arguments-FailStop kernel (name ∷ host ∷ port ∷ rest) = record { run = λ calls clean. clean }

pub resolved-FailStop : (kernel : Kernel) (host : Bytes) → FailStop kernel 0 (resolved kernel host)
resolved-FailStop kernel host =
    answered-Ends (Call.gethostbyname host) host_address (λ calls h. (refl, inr h))
      (λ n bytes calls e h. h)
