-- ===== src/GroupServer/Main/Welcome.antt =====
-- What the calls of main say of the clients that it has accepted.
use computer_networks_lab.Prelude.{
  ℕ, zero, suc, ◌<◌, ◌≡◌, refl, ap, List, [], ◌∷◌, ◌++◌, arith, length, set, take, map,
}
use computer_networks_lab.Libc.Text.{codes}
use computer_networks_lab.Libc.Decimal.{decimal}
use computer_networks_lab.Os.{Call, Answer, failed, result, Kernel}
use computer_networks_lab.GroupServer.Table.{Client, Send}

-- The entries that threads have been created for, the oldest first.
abbrev pub created : List Call → List Client
created [] = []
created (Call.pthread_create id sockfd ∷ calls) =
    created calls ++ record { id = id; sockfd = sockfd } ∷ []
created (c ∷ calls) = created calls

-- The greetings that have been sent, the oldest first.
abbrev pub greeted : List Call → List Send
greeted [] = []
greeted (Call.send to bytes ∷ calls) = greeted calls ++ record { to = to; bytes = bytes } ∷ []
greeted (c ∷ calls) = greeted calls

abbrev pub welcome : Client → Send
welcome c = record { to = c.sockfd; bytes = codes "You are Client" ++ decimal c.id ++ codes "\n" }

abbrev pub socket_of : Answer → List ℕ
socket_of failed = []
socket_of (result newsockfd peer) = newsockfd ∷ []

-- The sockets that the kernel has given to the calls of accept, the oldest first.
abbrev pub given : Kernel → List Call → List ℕ
given kernel [] = []
given kernel (Call.accept fd ∷ calls) =
    given kernel calls ++ socket_of (kernel (Call.accept fd ∷ calls))
given kernel (c ∷ calls) = given kernel calls

-- These clients are the connections that have been accepted, in their order; each has been greeted on
-- its own socket with its own number, and has a thread for its entry, once.
pub record Welcomes (kernel : Kernel) (calls : List Call) (clients : List Client) : Type 0 where
  pub sockets : given kernel calls ≡ map (λ c. c.sockfd) clients
  pub greetings : greeted calls ≡ map welcome clients
  pub threads : created calls ≡ clients

pub take-set :
    {A : Type 0} (xs : List A) (i : ℕ) (x : A)
    → i < length xs
    → take (suc i) (set xs i x) ≡ take i xs ++ x ∷ []
take-set [] i x h = absurd (omega arith)
take-set (y ∷ xs) zero x h = refl
take-set (y ∷ xs) (suc i) x h = ap (◌∷◌ y) (take-set xs i x (omega arith))
