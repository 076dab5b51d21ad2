-- ===== src/MyApp/Invariant/Defs.antt =====
-- What is known of the application in each phase.
use mathlib.Core.List.{Memᴰ}
use computer_networks_lab.Prelude.{
  ℕ, suc, ◌^◌, ◌≤◌, ◌<◌, max, ◌≡◌, ◌⊎◌, inl, inr, ◌≢◌, true, false, none, List, [], ◌∷◌,
}
use computer_networks_lab.MyApp.Simulator.{Simulator}
use computer_networks_lab.MyApp.App.{Action, send, World}
use computer_networks_lab.MyApp.System.{Phase, loaded, started, stopped}

pub not-Memᴰ-nil {ℓ} : {A : Type ℓ} {a : A} → ¬ Memᴰ a []
not-Memᴰ-nil m = elim m [ ]

pub Memᴰ-cases {ℓ} : {A : Type ℓ} {a x : A} {xs : List A} → Memᴰ a (x ∷ xs) → (a ≡ x) ⊎ Memᴰ a xs
Memᴰ-cases (Memᴰ.head p) = inl p
Memᴰ-cases (Memᴰ.tail m) = inr m

abbrev pub sends : List Action → ℕ
sends [] = 0
sends (send socket size ∷ xs) = suc (sends xs)
sends (x ∷ xs) = sends xs

module _ (S : Simulator) where
  open S use {
    State, EventId, null, is_running, schedule, cancel, expire, null_idle, schedule_runs,
    schedule_only, cancel_stops, cancel_only, expire_stops, expire_only,
  }

  -- No event of the application is outstanding but `m_sendEvent`.
  abbrev pub OnlyEvent : World S → Type 0
  OnlyEvent w =
      (e : EventId) → Memᴰ e w.callbacks → is_running e w.sim ≡ true → e ≡ w.app.send_event

  abbrev pub Quiet : World S → Type 0
  Quiet w = (e : EventId) → Memᴰ e w.callbacks → is_running e w.sim ≡ false

  -- A phase fixes what is known of `m_running`, of the count and of the outstanding event.
  abbrev pub Known : World S → Phase → Type 0
  Known w loaded =
      (w.app.running ≡ false)
      × (w.app.packets_sent ≡ 0)
      × (w.callbacks ≡ [])
      × (sends w.actions ≡ 0)
  Known w started =
      (w.app.running ≡ true)
      × (0 < w.app.packets_sent)
      × (w.app.packets_sent < w.app.n_packets
          → Memᴰ w.app.send_event w.callbacks × (is_running w.app.send_event w.sim ≡ true))
      × (w.app.n_packets ≤ w.app.packets_sent → Quiet w)
  Known w stopped = (w.app.running ≡ false) × Quiet w

  pub record Inv (w : World S) (p : Phase) : Type 0 where
    pub socket : w.app.socket ≢ none
    pub small : w.app.n_packets < 2 ^ 32
    pub own : (w.app.send_event ≡ null) ⊎ Memᴰ w.app.send_event w.callbacks
    pub only : OnlyEvent w
    pub counted : sends w.actions ≡ w.app.packets_sent
    pub bounded : w.app.packets_sent ≤ max 1 w.app.n_packets
    pub known : Known w p
