-- ===== src/Beej/Exchange.antt =====
-- The programs of week0/beej up to their chats: how they end, and the greeting of simple/.
use computer_networks_lab.Prelude.{ℕ, suc, List, [], ◌∷◌, ◌++◌, ◌≡◌, refl, inl, inr, length}
use computer_networks_lab.Libc.Text.{Bytes, codes, store, c_string}
use computer_networks_lab.Os.{Call, stream, result, Kernel, done, exited, ask, ◌>>=◌}
use computer_networks_lab.Lab.FailStop.{
  FailStop, >>=-FailStop, return-FailStop, tell-FailStop, checked-FailStop, answered-Ends,
}
use computer_networks_lab.Beej.Opening.{
  service, client_arguments, addresses, connected, bind_server, open_server, accepted, accept_next,
  open_client,
}
use computer_networks_lab.Beej.Mains.{
  world, greet, serve_one, serve, simple_client, chat_server, chat_client, group_client, peer_of,
  udp_chat_server, udp_chat_client,
}

client_arguments-FailStop :
    (kernel : Kernel) (argv : List Bytes) → FailStop kernel 1 (client_arguments argv)
client_arguments-FailStop kernel [] = record { run = λ calls clean. (refl, inl clean) }
client_arguments-FailStop kernel (name ∷ []) = record { run = λ calls clean. (refl, inl clean) }
client_arguments-FailStop kernel (name ∷ host ∷ []) = record {
  run = λ calls clean. (refl, inl clean);
}
client_arguments-FailStop kernel (name ∷ host ∷ port ∷ []) = record { run = λ calls clean. clean }
client_arguments-FailStop kernel (name ∷ host ∷ port ∷ more ∷ rest) = record {
  run = λ calls clean. (refl, inl clean);
}

module _ (kernel : Kernel) (gai_strerror : Bytes) (ntop : Bytes → Bytes) where
  addresses-FailStop :
      (host port : Bytes)
      → FailStop kernel 1
          (ask kernel (Call.getaddrinfo host port) >>= addresses kernel gai_strerror ntop)
  addresses-FailStop host port =
      answered-Ends (Call.getaddrinfo host port) (addresses kernel gai_strerror ntop)
        (λ calls h. (refl, inr h)) (λ n bytes calls e h. h)

  bind_server-FailStop :
      (argv : List Bytes) → FailStop kernel 1 (bind_server kernel gai_strerror ntop argv)
  unfolding bind_server
  bind_server-FailStop argv = >>=-FailStop (addresses-FailStop [] (service argv)) λ address.
      >>=-FailStop (checked-FailStop (codes "server: socket") (Call.socket stream)) λ fd.
        >>=-FailStop (checked-FailStop (codes "setsockopt") (Call.setsockopt fd)) λ set.
          >>=-FailStop (checked-FailStop (codes "server: bind") (Call.bind_to fd address))
            λ bound. return-FailStop fd

  pub open_server-FailStop :
      (argv : List Bytes) → FailStop kernel 1 (open_server kernel gai_strerror ntop argv)
  unfolding open_server
  open_server-FailStop argv = >>=-FailStop (bind_server-FailStop argv) λ fd.
      >>=-FailStop (tell-FailStop (Call.listen fd 5) refl) λ listens.
        >>=-FailStop (tell-FailStop (Call.printf (codes "Waiting for connections...\n")) refl)
          λ told. return-FailStop fd

  pub accept_next-FailStop : (fd : ℕ) → FailStop kernel 1 (accept_next kernel gai_strerror ntop fd)
  unfolding accept_next
  accept_next-FailStop fd =
      answered-Ends (Call.accept fd) (accepted kernel gai_strerror ntop) (λ calls h. (refl, h))
        (λ n bytes calls e h. (inl refl, h))

  open_client-FailStop :
      (argv : List Bytes) → FailStop kernel 1 (open_client kernel gai_strerror ntop argv)
  unfolding open_client
  open_client-FailStop argv = >>=-FailStop (client_arguments-FailStop kernel argv) λ (host, port).
      >>=-FailStop (addresses-FailStop host port) λ address.
        >>=-FailStop (checked-FailStop (codes "socket") (Call.socket stream)) λ fd.
          >>=-FailStop (checked-FailStop (codes "connect") (Call.connect_to fd address)) λ joined.
            >>=-FailStop (tell-FailStop (connected kernel gai_strerror ntop address) refl)
              λ told. return-FailStop fd

  chat_server-FailStop :
      (argv : List Bytes) → FailStop kernel 1 (chat_server kernel gai_strerror ntop argv)
  unfolding chat_server
  chat_server-FailStop argv =
      >>=-FailStop (open_server-FailStop argv)
        λ fd. >>=-FailStop (accept_next-FailStop fd) λ new. return-FailStop (new, codes "CLIENT")

  chat_client-FailStop :
      (argv : List Bytes) → FailStop kernel 1 (chat_client kernel gai_strerror ntop argv)
  unfolding chat_client
  chat_client-FailStop argv =
      >>=-FailStop (open_client-FailStop argv) λ fd. return-FailStop (fd, codes "SERVER")

  udp_chat_server-FailStop :
      (newsockfd : ℕ) (argv : List Bytes)
      → FailStop kernel 1 (udp_chat_server kernel gai_strerror ntop newsockfd argv)
  unfolding udp_chat_server
  udp_chat_server-FailStop newsockfd argv = >>=-FailStop (bind_server-FailStop argv) λ fd.
      >>=-FailStop
        (answered-Ends (Call.recvfrom fd 256) (peer_of kernel gai_strerror ntop)
          (λ calls h. (refl, h)) (λ n bytes calls e h. h))
        λ peer.
          >>=-FailStop (tell-FailStop (connected kernel gai_strerror ntop peer) refl)
            λ told. return-FailStop (newsockfd, codes "CLIENT")

  udp_chat_client-FailStop :
      (argv : List Bytes) → FailStop kernel 1 (udp_chat_client kernel gai_strerror ntop argv)
  unfolding udp_chat_client
  udp_chat_client-FailStop argv =
      >>=-FailStop (client_arguments-FailStop kernel argv) λ (host, port).
        >>=-FailStop (addresses-FailStop host port) λ address.
          >>=-FailStop (checked-FailStop (codes "socket") (Call.socket stream)) λ fd.
            >>=-FailStop
              (checked-FailStop (codes "connect") (Call.sendto fd (codes "!" ++ 0 ∷ []) address []))
              λ n.
                >>=-FailStop (tell-FailStop (connected kernel gai_strerror ntop address) refl)
                  λ told. return-FailStop (fd, codes "SERVER")

  -- The servers and the clients of chat and chat/udp, up to their chat, and the client of group_chat
  -- stop at the first failing call that they check, report it at once and exit with status 1, whatever
  -- the kernel answers.
  pub mains-FailStop :
      (newsockfd : ℕ) (argv : List Bytes)
      → FailStop kernel 1 (chat_server kernel gai_strerror ntop argv)
        × (FailStop kernel 1 (chat_client kernel gai_strerror ntop argv)
            × (FailStop kernel 1 (group_client kernel gai_strerror ntop argv)
                × (FailStop kernel 1 (udp_chat_server kernel gai_strerror ntop newsockfd argv)
                    × FailStop kernel 1 (udp_chat_client kernel gai_strerror ntop argv))))
  unfolding group_client
  mains-FailStop newsockfd argv = (
    chat_server-FailStop argv,
    (
      chat_client-FailStop argv,
      (
        open_client-FailStop argv,
        (udp_chat_server-FailStop newsockfd argv, udp_chat_client-FailStop argv),
      ),
    ),
  )

-- The calls of simple/client.c succeed, and it receives `bytes`.
pub record Joins (kernel : Kernel) (fd : ℕ) (address bytes : Bytes) : Type 0 where
  pub resolves :
      (host port : Bytes) (calls : List Call)
      → kernel (Call.getaddrinfo host port ∷ calls) ≡ result 0 address
  pub opens : (calls : List Call) → kernel (Call.socket stream ∷ calls) ≡ result fd []
  pub connects : (calls : List Call) → kernel (Call.connect_to fd address ∷ calls) ≡ result 0 []
  pub reads : (calls : List Call) → kernel (Call.read fd 100 ∷ calls) ≡ result (length bytes) bytes

-- The child of simple/server.c sends once after a connection and exits with 0.
pub record Forks (kernel : Kernel) (fd new : ℕ) (address : Bytes) : Type 0 where
  pub accepts : (calls : List Call) → kernel (Call.accept fd ∷ calls) ≡ result new address
  pub forks : (calls : List Call) → kernel (Call.fork ∷ calls) ≡ result 0 []
  pub writes :
      (text : Bytes) (calls : List Call)
      → kernel (Call.write new text ∷ calls) ≡ result (length text) []

-- In simple/, the child that the server forks for a connection, in any later round of the parent's
-- loop, sends the greeting and exits, and a client that receives these bytes prints the greeting,
-- whatever its buffer held before.
pub world_exchange :
    (k l : Kernel) (gai_strerror : Bytes) (ntop : Bytes → Bytes) (n fd new cfd : ℕ)
    (peer host port address buffer : Bytes) (calls : List Call)
    → Forks k fd new peer
    → Joins l cfd address world
    → (serve k gai_strerror ntop (suc n) fd calls ≡ (
      Call.write new world
          ∷ Call.close fd
          ∷ Call.fork
          ∷ connected k gai_strerror ntop peer
          ∷ Call.accept fd
          ∷ calls,
      exited 0,
    ))
      × (simple_client l gai_strerror ntop buffer (codes "client" ∷ host ∷ port ∷ []) [] ≡ (
        Call.printf (codes "Server sent: Hello World!\n")
            ∷ Call.read cfd 100
            ∷ connected l gai_strerror ntop address
            ∷ Call.connect_to cfd address
            ∷ Call.socket stream
            ∷ Call.getaddrinfo host port
            ∷ [],
        done 0,
      ))
unfolding serve serve_one accept_next greet simple_client open_client store c_string
world_exchange k l gai_strerror ntop n fd new cfd peer host port address buffer calls s c =
    (rw (s.accepts, s.forks, s.writes) refl, rw (c.resolves, c.opens, c.connects, c.reads) refl)
