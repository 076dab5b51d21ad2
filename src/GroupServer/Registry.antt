-- ===== src/GroupServer/Registry.antt =====
-- The table of clients as the main thread fills it.
use native.Mathlib.Numerals.{add-one}
use computer_networks_lab.Prelude.{
  ℕ, zero, suc, ◌+◌, ◌≤◌, ◌<◌, ◌≡◌, refl, ◌∙◌, none, some, List, [], ◌∷◌, ◌++◌, arith, length, set,
  get_elem?_of_lt, get_elem?_of_le, length-set,
}
use computer_networks_lab.Libc.Text.{Bytes, codes, c_string, c_string-snprintf_fits}
use computer_networks_lab.Libc.Decimal.{decimal, decimal_one_digit}
use computer_networks_lab.GroupServer.Table.{
  max_num_client, buffer_len, Client, Server, init, greeting, accept_client,
}

-- The first `n` entries carry the numbers from `i` on.
abbrev pub Numbered : ℕ → ℕ → List Client → Type 0
Numbered i zero cs = Unit
Numbered i (suc n) [] = ⊥
Numbered i (suc n) (c ∷ cs) = (c.id ≡ i) × Numbered (suc i) n cs

pub record Inv (s : Server) : Type 0 where
  pub size : length s.clients ≡ max_num_client
  pub room : s.client_id ≤ max_num_client
  pub numbered : Numbered 0 s.client_id s.clients

pub init-Inv : Inv init
unfolding init
init-Inv = record { size = refl; room = omega arith; numbered = tt }

Numbered-set :
    (i n : ℕ) (cs : List Client) (c : Client)
    → n < length cs
    → Numbered i n cs
    → c.id ≡ i + n
    → Numbered i (suc n) (set cs n c)
Numbered-set i n [] c h k e = absurd (omega arith)
Numbered-set i zero (x ∷ cs) c h k e = (omega arith, tt)
Numbered-set i (suc n) (x ∷ cs) c h k e =
    (k.0, Numbered-set (suc i) n cs c (omega arith) k.1 (omega arith))

greeting_text :
    (id : ℕ) (auth : Bytes)
    → id < 10
    → c_string (greeting id auth) ≡ some (codes "You are Client" ++ decimal id ++ codes "\n")
unfolding greeting
greeting_text id auth h = rw (decimal_one_digit id h) (
    c_string-snprintf_fits auth (codes "You are Client" ++ ((b'0' + id) ∷ codes "\n")) buffer_len
      (omega arith) (omega arith))

-- While the table has room, a connection gets the next number, an entry with its socket, and its
-- greeting; the entries before it stay as they were and the table stays well formed.
pub accept_client_lem :
    (s : Server) (newsockfd : ℕ) (auth : Bytes)
    → Inv s
    → s.client_id < max_num_client
    → let client : Client = record { id = s.client_id; sockfd = newsockfd } in
      let s' : Server = record {
        clients = set s.clients s.client_id client;
        client_id = s.client_id + 1;
      } in
      (accept_client s newsockfd auth
        ≡ some (
          s',
          record {
            to = newsockfd;
            bytes = codes "You are Client" ++ decimal s.client_id ++ codes "\n";
          },
          client,
        ))
      × Inv s'
unfolding accept_client
accept_client_lem s newsockfd auth inv room =
    let (old, e) = get_elem?_of_lt s.clients s.client_id (omega (arith, inv.size)) in
    (
      rw e (rw (greeting_text s.client_id auth room)),
      record {
        size = length-set s.clients s.client_id _ ∙ inv.size;
        room = omega arith;
        numbered = rw add-one (
            Numbered-set 0 s.client_id s.clients _ (omega (arith, inv.size)) inv.numbered
              (omega arith));
      },
    )

-- Once ten clients have been accepted, the next one is written past the end of the table.
pub accept_client_full :
    (s : Server) (newsockfd : ℕ) (auth : Bytes)
    → Inv s
    → s.client_id ≡ max_num_client
    → accept_client s newsockfd auth ≡ none
unfolding accept_client
accept_client_full s newsockfd auth inv full =
    rw (get_elem?_of_le s.clients s.client_id (omega (arith, inv.size)))
