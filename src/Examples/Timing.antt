-- ===== src/Examples/Timing.antt =====
-- The paced sender under a scheduler with a clock: two packets of 1040 bytes at 1 Mbps.
use mathlib.Core.List.Memᴰ
use computer_networks_lab.Prelude.{
  ℕ, suc, ◌+◌, ◌*◌, ◌^◌, ◌/◌, ◌<◌, ◌==◌, ◌≡◌, refl, if◌then◌else◌, none, some, [], ◌∷◌, arith,
}
use computer_networks_lab.MyApp.Simulator.{
  Delay, Simulator, Agenda, agenda_running, agenda_schedule, agenda_remove, agenda_null,
  agenda_runs, agenda_only, agenda_stops, agenda_keeps, no_events,
}
use computer_networks_lab.MyApp.App.{World, setup, t_next, start_application, send_packet}
use computer_networks_lab.MyApp.System.{started, expired, install}
use computer_networks_lab.MyApp.Trace.{Config}
use computer_networks_lab.MyApp.Timing.{
  Clock, paced_from, begun, after, timed_start, timed_fire, timed_elsewhere,
}
use computer_networks_lab.MyApp.Timing.Pace.{TimedReached}
use computer_networks_lab.MyApp.Timing.Count.{TimedReached-paced_from}

record Timetable : Type 0 where
  agenda : Agenda
  now : ℕ
  due : ℕ → ℕ

-- Nanoseconds.
abbrev nanoseconds : Delay → ℕ
nanoseconds d = d.bits * 10 ^ 9 / d.bit_rate

abbrev timed : Simulator
timed = record {
  State = Timetable;
  EventId = ℕ;
  null = 0;
  is_running = λ e s. agenda_running e s.agenda;
  schedule = λ d s. (
    suc s.agenda.last,
    record s {
      agenda = (agenda_schedule d s.agenda).1;
      due = λ e. if e == suc s.agenda.last then s.now + nanoseconds d else s.due e;
    },
  );
  cancel = λ e s. record s { agenda = agenda_remove e s.agenda };
  expire = λ e s. record s { agenda = agenda_remove e s.agenda; now = s.due e };
  null_idle = λ s. agenda_null s.agenda;
  schedule_runs = λ d s. agenda_runs d s.agenda;
  schedule_only = λ d s. agenda_only d s.agenda;
  cancel_stops = λ e s. agenda_stops e s.agenda;
  cancel_only = λ x s. agenda_keeps x s.agenda;
  expire_stops = λ e s. agenda_stops e s.agenda;
  expire_only = λ x s. agenda_keeps x s.agenda;
}

due_timed :
    (d : Delay) (s : Timetable)
    → (timed.schedule d s).1.due (timed.schedule d s).0 ≡ s.now + nanoseconds d
due_timed d s = ground arith

abbrev clock : Clock timed
clock = record {
  ticks = nanoseconds;
  now = Timetable.now;
  due = λ e s. s.due e;
  due_schedule = due_timed;
  now_expire = λ e s h. refl;
}

abbrev config : Config
config = record { socket = 3; peer = 7; packet_size = 1040; n_packets = 2; data_rate = 1_000_000 }

-- The application is started a second after the beginning.
abbrev dawn : Timetable
dawn = record { agenda = no_events; now = 10 ^ 9; due = λ e. 0 }

small : config.n_packets < 2 ^ 32
small = omega arith

abbrev first_sent : World timed
unfolding install start_application
first_sent = elim (start_application timed (install timed 3 7 1040 2 1_000_000 dawn)) [
  | none ↦ install timed 3 7 1040 2 1_000_000 dawn
  | some w ↦ w
]

abbrev second_sent : World timed
unfolding install start_application send_packet
second_sent = elim (send_packet timed (expired timed first_sent 1)) [
  | none ↦ first_sent
  | some w ↦ w
]

-- Something else happens between the two packets.
two_packets :
    TimedReached timed clock config dawn small second_sent
      (1_008_320_000 ∷ 1_000_000_000 ∷ [])
      started
unfolding install start_application setup send_packet t_next
two_packets =
    after
      (after (after begun (timed_start refl)) (
        timed_elsewhere (record first_sent.sim { now = 1_003_000_000 }) (λ e m. refl)
          (λ e m. refl)))
      (timed_fire 1 (Memᴰ.head refl) refl refl)

TimedReached-paced_from_example :
    (first : ℕ) × ((1_008_320_000 ∷ 1_000_000_000 ∷ [])
      ≡ paced_from first 8_320_000 second_sent.app.packets_sent)
TimedReached-paced_from_example = TimedReached-paced_from timed clock config dawn small two_packets
