-- ===== src/Ns3/Spokes.antt =====
-- The loop over the spokes of a star, and the version that first-ipv6.cc is asked for.
use computer_networks_lab.Prelude.{
  ◌∙◌, ℕ, zero, suc, List, [], ◌∷◌, ◌++◌, ◌+◌, ◌≤◌, ◌==◌, lt→ltb, Bool, true, ◌&&◌, ◌≡◌, refl, inl,
  inr, Bool-cases, if◌then◌else◌, arith, Option, none, some, ltb, leb,
}
use computer_networks_lab.Libc.Text.{Bytes, codes}
use computer_networks_lab.Ns3.Script.{
  Script, Node, spoke, hub_address, Command, install, Application, on_off, tcp, start, stop,
  populate_routes, observe, run, destroy,
}
use computer_networks_lab.Ns3.Check.{received, IsSound, every, start_time, stop_time, answered}
use computer_networks_lab.Ns3.Wires.{same_bytes, same_node, wired_from, no_wires, Wires}
use computer_networks_lab.Ns3.Star.{spoke_apps, star_main, always, never}
use computer_networks_lab.Ns3.Echo.{first_ipv6, addressing, remote, v4, v6}

start_time-spoke_apps :
    (apps t port n i : ℕ) (s : Script)
    → start_time apps t (spoke_apps port n i ++ s) ≡ start_time apps t s
unfolding spoke_apps
start_time-spoke_apps apps t port zero i s = refl
start_time-spoke_apps apps t port (suc n) i s = start_time-spoke_apps apps t port n (i + 1) s

stop_time-spoke_apps :
    (apps : ℕ) (t : Option ℕ) (port n i : ℕ) (s : Script)
    → stop_time apps t (spoke_apps port n i ++ s) ≡ stop_time apps t s
unfolding spoke_apps
stop_time-spoke_apps apps t port zero i s = refl
stop_time-spoke_apps apps t port (suc n) i s = stop_time-spoke_apps apps t port n (i + 1) s

-- What star.cc has set up before its loop.
abbrev star_wires : ℕ → Wires
star_wires n = record no_wires { has_star = true; spokes = n; stack = true; laid = true }

wired_from-spoke_apps :
    (k port n i : ℕ) (s : Script)
    → i + n ≤ k
    → wired_from (star_wires k) (spoke_apps port n i ++ s) ≡ wired_from (star_wires k) s
unfolding spoke_apps wired_from
wired_from-spoke_apps k port zero i s h = refl
wired_from-spoke_apps k port (suc n) i s h =
    let same : (i == i) ≡ true = ground arith in
    rw (lt→ltb i k (omega (arith, h)), same)
      (wired_from-spoke_apps k port n (i + 1) s (omega (arith, h)))

every-spoke_apps :
    (p : Command → Bool) (port n i : ℕ) (s : Script)
    → ((j : ℕ) → p (install 1 (spoke j) (on_off tcp (hub_address j) port always never)) ≡ true)
    → every p (spoke_apps port n i ++ s) ≡ every p s
unfolding spoke_apps
every-spoke_apps p port zero i s h = refl
every-spoke_apps p port (suc n) i s h = rw (h i) (every-spoke_apps p port n (i + 1) s h)

abbrev last_calls : Script
last_calls = start 1 1 ∷ stop 1 10 ∷ populate_routes ∷ observe (codes "star") ∷ run ∷ destroy ∷ []

spoke_answered :
    (n j : ℕ)
    → answered (star_main n) (install 1 (spoke j) (on_off tcp (hub_address j) 50_000 always never))
      ≡ true
unfolding star_main
spoke_answered n j =
    rw
      (
        start_time-spoke_apps 0 1 50_000 n 0 last_calls,
        start_time-spoke_apps 1 0 50_000 n 0 last_calls,
        stop_time-spoke_apps 0 (some 10) 50_000 n 0 last_calls,
        stop_time-spoke_apps 1 none 50_000 n 0 last_calls,
      )
      refl

star-IsSound : (n_spokes : ℕ) → IsSound (star_main n_spokes)
unfolding star_main received wired_from
star-IsSound n = record {
  is_wired = wired_from-spoke_apps n 50_000 n 0 last_calls (omega arith);
  is_received = every-spoke_apps (answered (star_main n)) 50_000 n 0 _ (spoke_answered n);
}

-- The applications that a script installs on a node.
abbrev pub apps_on : Node → Script → List Application
apps_on n [] = []
apps_on n (install apps n' app ∷ s) = if same_node n n' then app ∷ apps_on n s else apps_on n s
apps_on n (c ∷ s) = apps_on n s

apps_on-spoke_apps :
    (k port n i : ℕ) (s : Script)
    → apps_on (spoke k) s ≡ []
    → apps_on (spoke k) (spoke_apps port n i ++ s)
      ≡ (if leb i k && ltb k (i + n) then on_off tcp (hub_address k) port always never ∷ [] else [])
unfolding spoke_apps
apps_on-spoke_apps k port zero i s h = rw h (ground arith)
apps_on-spoke_apps k port (suc n) i s h = ground (arith, apps_on-spoke_apps k port n (i + 1) s h)

-- Each spoke of star.cc has one application, which sends to the hub's address on the link of this
-- very spoke; no other spoke has one.
star-apps_on :
    (n_spokes k : ℕ)
    → apps_on (spoke k) (star_main n_spokes)
      ≡ (if ltb k n_spokes then on_off tcp (hub_address k) 50_000 always never ∷ [] else [])
unfolding star_main
star-apps_on n k = apps_on-spoke_apps k 50_000 n 0 _ refl ∙ ground arith

-- For every number of spokes the calls of star.cc fit together: every application is put on a node of
-- the star, and sends to an address that has been given out, where a sink listens from its start to its
-- end. Each spoke has one application, which sends to the hub's address on the link of this very spoke,
-- and no other number has one.
pub star_main_lem :
    (n_spokes : ℕ)
    → IsSound (star_main n_spokes)
      × ((k : ℕ)
          → apps_on (spoke k) (star_main n_spokes)
            ≡ (if ltb k n_spokes then on_off tcp (hub_address k) 50_000 always never ∷ [] else []))
star_main_lem n = (star-IsSound n, λ k. star-apps_on n k)

-- first-ipv6.cc asks an empty container for the address of its client, with either version and with
-- any other text: the addresses that were assigned are in containers of an inner block.
first_ipv6_undefined : (ip : Bytes) → first_ipv6 ip ≡ none
unfolding first_ipv6 addressing remote
first_ipv6_undefined ip = elim (Bool-cases (same_bytes ip v6)) [
  | inl e ↦ rw e refl
  | inr e ↦ elim (Bool-cases (same_bytes ip v4)) [
    | inl e' ↦ rw (e, e') refl
    | inr e' ↦ rw (e, e') refl
  ]
]
