-- ===== src/GroupServer/Threads/Saying.antt =====
-- What each client has said in a run of the threads: a shout counts as made when its loop ends.
use computer_networks_lab.Prelude.{ℕ, []}
use computer_networks_lab.Libc.Text.{Bytes}
use computer_networks_lab.GroupServer.Threads.{
  Pc, unborn, receiving, locking, shouting, unlocking, System, Step, goes, Reach, here, next,
  main_accept, main_count, hear_recv, hear_lock, hear_shout, hear_unlock,
}
use computer_networks_lab.GroupServer.Threads.History.{Log, says}

-- After a round of the shout of `text`, which has led to this place.
abbrev pub after_round : Log → ℕ → Bytes → Pc → Log
after_round log id text unborn = log
after_round log id text receiving = log
after_round log id text locking = log
after_round log id text (shouting t i msg) = log
after_round log id text unlocking = says log id text

abbrev pub after_step : {s t : System} → Log → Step s (goes t) → Log
after_step log (main_accept k newsockfd auth buffer t greeting client idle fresh fills e) = log
after_step log (main_count e) = log
after_step log (hear_recv k bytes fits at) = log
after_step log (hear_lock k text msg at free read size room) = log
after_step {s} log (hear_shout k i text msg pc out at e) = after_round log (s.hearers k).id text pc
after_step log (hear_unlock k at) = log

abbrev pub after_run : {s t : System} → Log → Reach s t → Log
after_run log here = log
after_run log (next r st) = after_step (after_run log r) st

abbrev pub silence : Log
silence id = []
