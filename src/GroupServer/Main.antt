-- ===== src/GroupServer/Main.antt =====
-- main of week0/beej/group_chat/server.c as a program of one thread. What the other threads do to the
-- process is in Threads; they never write the table.
use computer_networks_lab.Prelude.{ℕ, zero, suc, List, [], ◌∷◌, ◌++◌}
use computer_networks_lab.Libc.Text.{Bytes, codes}
use computer_networks_lab.Os.{Call, Kernel, Program, return, tell, need, ◌>>=◌, ◌>>◌}
use computer_networks_lab.Lab.Opening.{checked}
use computer_networks_lab.Beej.Opening.{open_server, accept_next}
use computer_networks_lab.GroupServer.Table.{Server, init, accept_client}
pub mod Welcome
pub mod Joins

-- `auth` is what the buffer of the greeting holds before it is written, in each round.
module _ (kernel : Kernel) (gai_strerror : Bytes) (ntop : Bytes → Bytes) (auth : ℕ → Bytes) where
  -- The loop of main, in rounds.
  unfoldable pub accept_rounds : ℕ → ℕ → Server → Program Server
  unfolding accept_next accept_client
  accept_rounds zero fd s = return s
  accept_rounds (suc n) fd s = do
    newsockfd ← accept_next kernel gai_strerror ntop fd
    (t, greeting, client) ← need (accept_client s newsockfd (auth s.client_id))
    tell (Call.send greeting.to greeting.bytes)
    tell (Call.pthread_create client.id client.sockfd)
    accept_rounds n fd t

  unfoldable pub group_server : ℕ → List Bytes → Program Server
  unfolding open_server accept_rounds
  group_server n argv = do
    fd ← open_server kernel gai_strerror ntop argv
    _ ← checked kernel 1 (codes "mutex") Call.pthread_mutex_init
    accept_rounds n fd init
