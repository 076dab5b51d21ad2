-- ===== src/MyApp/Simulator.antt =====
-- The calls of the ns-3 scheduler that `MyApp` makes: Simulator::Schedule, Simulator::Cancel and
-- EventId::IsRunning. ns-3 is not part of the repository, so its state and events are unknown, and
-- the laws are what its manual says of an event: it runs from Schedule until it expires or is
-- cancelled, and no call makes another event run.
use computer_networks_lab.Prelude.{
  ℕ, suc, ◌≡◌, refl, ◌⊎◌, Bool, true, false, arith, ◌==◌, if◌then◌else◌,
}

-- The argument of Seconds (): the quotient of bits and a bit rate, kept as a fraction.
pub record Delay : Type 0 where
  pub bits : ℕ
  pub bit_rate : ℕ

pub record Simulator : Type 1 where
  pub State : Type 0
  pub EventId : Type 0
  pub null : EventId
  pub is_running : EventId → State → Bool
  pub schedule : Delay → State → EventId × State
  pub cancel : EventId → State → State
  -- The scheduler takes an event off its list when its time has come, and then calls it.
  pub expire : EventId → State → State
  pub null_idle : (s : State) → is_running null s ≡ false
  pub schedule_runs : (d : Delay) (s : State) → is_running (schedule d s).0 (schedule d s).1 ≡ true
  pub schedule_only :
      (d : Delay) (s : State) (e : EventId)
      → is_running e (schedule d s).1 ≡ true
      → (e ≡ (schedule d s).0) ⊎ (is_running e s ≡ true)
  pub cancel_stops : (e : EventId) (s : State) → is_running e (cancel e s) ≡ false
  pub cancel_only :
      (x : EventId) (s : State) (e : EventId)
      → is_running e (cancel x s) ≡ true
      → is_running e s ≡ true
  pub expire_stops : (e : EventId) (s : State) → is_running e (expire e s) ≡ false
  pub expire_only :
      (x : EventId) (s : State) (e : EventId)
      → is_running e (expire x s) ≡ true
      → is_running e s ≡ true

-- A scheduler that meets the laws: events are numbered from 1, and 0 is the null event.
pub record Agenda : Type 0 where
  pub last : ℕ
  pub waits : ℕ → Bool

abbrev pub agenda_running : ℕ → Agenda → Bool
agenda_running e s = if e == 0 then false else s.waits e

abbrev pub agenda_schedule : Delay → Agenda → ℕ × Agenda
agenda_schedule d s = (
  suc s.last,
  record { last = suc s.last; waits = λ e. if e == suc s.last then true else s.waits e },
)

abbrev pub agenda_remove : ℕ → Agenda → Agenda
agenda_remove x s = record s { waits = λ e. if e == x then false else s.waits e }

pub agenda_null : (s : Agenda) → agenda_running 0 s ≡ false
agenda_null s = refl

pub agenda_runs :
    (d : Delay) (s : Agenda) → agenda_running (agenda_schedule d s).0 (agenda_schedule d s).1 ≡ true
agenda_runs d s = ground arith

pub agenda_only :
    (d : Delay) (s : Agenda) (e : ℕ)
    → agenda_running e (agenda_schedule d s).1 ≡ true
    → (e ≡ (agenda_schedule d s).0) ⊎ (agenda_running e s ≡ true)
agenda_only d s e h = ground arith

pub agenda_stops : (e : ℕ) (s : Agenda) → agenda_running e (agenda_remove e s) ≡ false
agenda_stops e s = ground arith

pub agenda_keeps :
    (x : ℕ) (s : Agenda) (e : ℕ)
    → agenda_running e (agenda_remove x s) ≡ true
    → agenda_running e s ≡ true
agenda_keeps x s e h = ground arith

abbrev pub agenda : Simulator
agenda = record {
  State = Agenda;
  EventId = ℕ;
  null = 0;
  is_running = agenda_running;
  schedule = agenda_schedule;
  cancel = agenda_remove;
  expire = agenda_remove;
  null_idle = agenda_null;
  schedule_runs = agenda_runs;
  schedule_only = agenda_only;
  cancel_stops = agenda_stops;
  cancel_only = agenda_keeps;
  expire_stops = agenda_stops;
  expire_only = agenda_keeps;
}

abbrev pub no_events : Agenda
no_events = record { last = 0; waits = λ e. false }
