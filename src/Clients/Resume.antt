-- ===== src/Clients/Resume.antt =====
-- No process group is left stopped on the way out.
use swaylock_plugin.Base.{
  ℕ, ◌≡◌, ◌<◌, ap, ◌∙◌, Bool, true, false, not, ◌||◌, List, [], ◌∷◌, ◌==◌, arith, All, Bool-cases,
  inl, inr,
}
use swaylock_plugin.Clients.{
  BgClient, Host, set_client_paused, signal, same_bool, resume_all_clients,
}

-- A client whose group is not stopped unless it is marked as paused, and can be signalled if so.
pub record Known (host : Host) (c : BgClient) : Type 0 where
  pub awake : c.paused ≡ false → host.stopped c.pid ≡ false
  pub reachable : c.paused ≡ true → (0 < c.pid) × (host.kill c.pid ≡ true)

-- The ways through `set_client_paused` with `false`.
data Resuming (host : Host) (c : BgClient) : Type 0 where
  left_alone :
      ((c.pid == 0 || not c.paused) ≡ true)
      → set_client_paused host c false ≡ (c, host)
      → Resuming host c
  unreachable :
      (host.kill c.pid ≡ false)
      → (c.paused ≡ true)
      → set_client_paused host c false ≡ (c, host)
      → Resuming host c
  woken :
      set_client_paused host c false ≡ (record c { paused = false }, signal c.pid false host)
      → Resuming host c

resuming : (host : Host) (c : BgClient) → Resuming host c
unfolding set_client_paused same_bool
resuming host c = elim (Bool-cases (c.pid == 0)) [
  | inl zero_pid ↦ left_alone (simp zero_pid) (simp zero_pid)
  | inr nz ↦ elim (Bool-cases c.paused) [
    | inr going ↦ left_alone (simp (nz, going)) (simp (nz, going, set_client_paused, same_bool))
    | inl held ↦ elim (Bool-cases (host.kill c.pid)) [
      | inl ok ↦ woken (simp (nz, held, ok, set_client_paused, same_bool))
      | inr bad ↦ unreachable bad held (simp (nz, held, bad, set_client_paused, same_bool))
    ]
  ]
]

kill-resumed : (host : Host) (c : BgClient) → (set_client_paused host c false).1.kill ≡ host.kill
unfolding signal
kill-resumed host c = elim (resuming host c) [
  | left_alone _ e ↦ ap (λ r. r.1.kill) e
  | unreachable _ _ e ↦ ap (λ r. r.1.kill) e
  | woken e ↦ ap (λ r. r.1.kill) e
]

signal_off :
    (host : Host) (q p : ℕ) → host.stopped p ≡ false → (signal q false host).stopped p ≡ false
unfolding signal
signal_off host q p h = elim (Bool-cases (p == q)) [ inl e ↦ simp e | inr e ↦ simp (e, h) ]

signal_same : (host : Host) (p : ℕ) → (signal p false host).stopped p ≡ false
unfolding signal
signal_same host p = let e : (p == p) ≡ true = ground arith in simp e

-- Waking one client stops no group.
resumed_stays :
    (host : Host) (c : BgClient) (p : ℕ)
    → host.stopped p ≡ false
    → (set_client_paused host c false).1.stopped p ≡ false
resumed_stays host c p h = elim (resuming host c) [
  | left_alone _ e ↦ ap (λ r. r.1.stopped p) e ∙ h
  | unreachable _ _ e ↦ ap (λ r. r.1.stopped p) e ∙ h
  | woken e ↦ ap (λ r. r.1.stopped p) e ∙ signal_off host c.pid p h
]

resume_all_clients_stays :
    (host : Host) (cs : List BgClient) (p : ℕ)
    → host.stopped p ≡ false
    → (resume_all_clients host cs).1.stopped p ≡ false
unfolding resume_all_clients
resume_all_clients_stays host [] p h = h
resume_all_clients_stays host (c ∷ cs) p h =
    resume_all_clients_stays (set_client_paused host c false).1 cs p (resumed_stays host c p h)

going :
    (host : Host) (c : BgClient)
    → Known host c
    → (c.pid == 0 || not c.paused) ≡ true
    → c.paused ≡ false
going host c k why = elim (Bool-cases c.paused) [
  | inr e ↦ e
  | inl held ↦ let pos = (k.reachable held).0 in ground arith
]

resumed_wakes :
    (host : Host) (c : BgClient)
    → Known host c
    → (set_client_paused host c false).1.stopped c.pid ≡ false
resumed_wakes host c k = elim (resuming host c) [
  | left_alone why e ↦ ap (λ r. r.1.stopped c.pid) e ∙ k.awake (going host c k why)
  | unreachable bad held e ↦ cc (bad, (k.reachable held).1)
  | woken e ↦ ap (λ r. r.1.stopped c.pid) e ∙ signal_same host c.pid
]

Known-resumed :
    (host : Host) (c d : BgClient) → Known host d → Known (set_client_paused host c false).1 d
Known-resumed host c d k = record {
  awake = λ e. resumed_stays host c d.pid (k.awake e);
  reachable = λ e.
      ((k.reachable e).0, ap (λ (f : ℕ → Bool). f d.pid) (kill-resumed host c) ∙ (k.reachable e).1);
}

Knowns-resumed :
    (host : Host) (c : BgClient) (cs : List BgClient)
    → All (Known host) cs
    → All (Known (set_client_paused host c false).1) cs
Knowns-resumed host c [] h = tt
Knowns-resumed host c (d ∷ ds) (k, ks) = (Known-resumed host c d k, Knowns-resumed host c ds ks)

abbrev pub IsAwake : Host → BgClient → Type 0
IsAwake host c = host.stopped c.pid ≡ false

-- If for every client the group is not stopped unless the client is marked as paused, and a
-- paused client has a positive pid whose group can be signalled, then after resume_all_clients
-- no client's group is stopped.
pub resume_all_clients_wakes :
    (host : Host) (cs : List BgClient)
    → All (Known host) cs
    → All (IsAwake (resume_all_clients host cs).1) cs
unfolding resume_all_clients
resume_all_clients_wakes host [] h = tt
resume_all_clients_wakes host (c ∷ cs) (k, ks) =
    let host₁ = (set_client_paused host c false).1 in
    (
      resume_all_clients_stays host₁ cs c.pid (resumed_wakes host c k),
      resume_all_clients_wakes host₁ cs (Knowns-resumed host c cs ks),
    )
