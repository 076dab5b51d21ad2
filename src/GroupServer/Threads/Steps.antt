-- ===== src/GroupServer/Threads/Steps.antt =====
-- A step of one thread keeps the invariant of the threads.
use computer_networks_lab.Prelude.{ℕ, suc, ◌<◌, ◌≡◌, ◌≢◌, ap, ◌∙◌, sym, some, Option, List, ◌++◌}
use computer_networks_lab.GroupServer.Table.{Client, Server, Send}
use computer_networks_lab.GroupServer.Registry as Registry
use computer_networks_lab.GroupServer.Registry.{Numbered}
use computer_networks_lab.GroupServer.Threads.{Hearer, MainPc, counting, System, update}
use computer_networks_lab.GroupServer.Threads.History.{Log, Chronicle}
use computer_networks_lab.GroupServer.Threads.Invariant.{
  members, partial, pending, IsInside, Ready, Inv, update_all, pending-update,
}

module _ {log : Log} {s : System} (inv : Inv log s) where
  -- A state in which thread `k` has become `x`, and as many clients are counted.
  pub replaced-Inv :
      {log' : Log} (k : ℕ) (x : Hearer) (clients : List Client) (main_pc : MainPc) (lock : Option ℕ)
      (sends greetings before : List Send)
      → let server : Server = record { clients = clients; client_id = s.server.client_id } in
        Registry.Inv server
        → (main_pc ≡ counting
            → (server.client_id < 10) × Numbered 0 (suc server.client_id) server.clients)
        → x.id < 10
        → Ready s.server.client_id x.pc
        → ((j : ℕ) → j ≢ k → IsInside (s.hearers j).pc → lock ≡ some j)
        → (IsInside x.pc → lock ≡ some k)
        → Chronicle log' (members server) before
        → sends ≡ before ++ pending (members server) (update s.hearers k x) lock
        → Inv log' (record {
          server = server;
          main_pc = main_pc;
          lock = lock;
          hearers = update s.hearers k x;
          sends = sends;
          greetings = greetings;
        })
  replaced-Inv k x clients main_pc lock sends greetings before table waiting small ready rest own
        explained told =
      record {
        table = table;
        waiting = waiting;
        small = update_all (λ j h. h.id < 10) s.hearers k x (λ j ne. inv.small j) small;
        ready =
            update_all (λ j h. Ready s.server.client_id h.pc) s.hearers k x (λ j ne. inv.ready j)
              ready;
        holder = update_all (λ j h. IsInside h.pc → lock ≡ some j) s.hearers k x rest own;
        before = before;
        explained = explained;
        told = told;
      }

  -- A step of thread `k` that sends nothing and stays outside the mutex.
  pub moved-Inv :
      (k : ℕ) (x : Hearer)
      → x.id < 10
      → Ready s.server.client_id x.pc
      → (IsInside x.pc → s.lock ≡ some k)
      → partial (members s.server) x.id x.pc
        ≡ partial (members s.server) (s.hearers k).id (s.hearers k).pc
      → Inv log (record s { hearers = update s.hearers k x })
  moved-Inv k x small ready own same =
      replaced-Inv k x s.server.clients s.main_pc s.lock s.sends s.greetings inv.before inv.table
        inv.waiting small ready (λ j ne. inv.holder j) own inv.explained
        (inv.told
          ∙ ap (λ out. inv.before ++ out)
              (sym (pending-update (members s.server) s.hearers s.lock k x same)))
