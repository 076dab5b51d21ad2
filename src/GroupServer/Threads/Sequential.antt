-- ===== src/GroupServer/Threads/Sequential.antt =====
-- The rounds of shout in a thread, one after the other.
use computer_networks_lab.Prelude.{ℕ, zero, suc, none, some, Option, List, [], ◌++◌}
use computer_networks_lab.GroupServer.Table.{◌>>=◌, Server, Send}
use computer_networks_lab.GroupServer.Registry as Registry
use computer_networks_lab.GroupServer.Threads.{Pc, shouting, unlocking, shout_round}

abbrev pub before : List Send → Option (List Send) → Option (List Send)
before out none = none
before out (some later) = some (out ++ later)

-- What a thread sends until it releases the mutex, in at most `n` steps, if the table stays as it is.
unfoldable pub run_shout : ℕ → Server → ℕ → Pc → Option (List Send)
unfolding shout_round
run_shout zero s id pc = none
run_shout (suc n) s id (shouting text i msg) =
    shout_round s id text i msg >>= λ r. before r.1 (run_shout n s id r.0)
run_shout (suc n) s id unlocking = some []
run_shout (suc n) s id pc = none
