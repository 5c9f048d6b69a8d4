-- ===== src/Session/Ties.antt =====
-- What the lists of clients and of outputs tell of an address or a name, and what the operations on
-- the lists make of it.
use swaylock_plugin.Base.{
  ℕ, ◌≡◌, refl, ap, Bool, true, false, List, [], ◌∷◌, Option, none, some, arith, ◌==◌,
  if◌then◌else◌, Bool-cases, inl, inr,
}
use swaylock_plugin.EventLoop.{Timespec, Loop}
use swaylock_plugin.Clients.{
  BgClient, Surface, Host, set_client_paused, resume_all_clients, check_clients, client_is_hidden,
}
use swaylock_plugin.Session.{
  ClientCall, find_client, unlink_client, update_client, find_surface, unlink_surface,
  update_surface, cancel_timers, remove_timer, render_fallback_surface, reply_and_fill, fall_back,
  fall_back_all,
}

-- The record of a client but for its address and its pause.
pub record Tie : Type 0 where
  pub pid : ℕ
  pub output : Option ℕ
  pub registry : Bool
  pub timer : Option ℕ

abbrev pub tie_of : BgClient → Tie
tie_of c = record {
  pid = c.pid;
  output = c.unique_output;
  registry = c.made_a_registry;
  timer = c.client_connect_timer;
}

abbrev pub tie : ℕ → List BgClient → Option Tie
tie a [] = none
tie a (c ∷ cs) = let rest = tie a cs in if c.address == a then some (tie_of c) else rest

-- What ties an output to the rest.
pub record Hold : Type 0 where
  pub client : Option ℕ
  pub timer : Option ℕ

abbrev pub hold_of : Surface → Hold
hold_of f = record { client = f.client; timer = f.client_submission_timer }

abbrev pub hold : ℕ → List Surface → Option Hold
hold n [] = none
hold n (f ∷ fs) =
    let rest = hold n fs in if f.output_global_name == n then some (hold_of f) else rest

abbrev pub mapped {ℓ} : {A : Type ℓ} → (A → A) → Option A → Option A
mapped f none = none
mapped f (some a) = some (f a)

pub find_client-tie :
    (a : ℕ) (cs : List BgClient) (t : Tie)
    → tie a cs ≡ some t
    → (c : BgClient) × (find_client a cs ≡ some c) × (tie_of c ≡ t)
unfolding find_client
find_client-tie a [] t h = cc h
find_client-tie a (c ∷ cs) t h = elim (Bool-cases (c.address == a)) [
  | inl e ↦
      let same : Path (Option Tie) (some (tie_of c)) (some t) = rw e at h in (c, rw e refl, cc same)
  | inr e ↦ let (d, f, g) = find_client-tie a cs t (rw e at h) in (d, rw e f, g)
]

pub find_surface-hold :
    (n : ℕ) (fs : List Surface) (h : Hold)
    → hold n fs ≡ some h
    → (f : Surface) × (find_surface n fs ≡ some f) × (hold_of f ≡ h)
unfolding find_surface
find_surface-hold n [] h e = cc e
find_surface-hold n (f ∷ fs) h k = elim (Bool-cases (f.output_global_name == n)) [
  | inl e ↦
      let same : Path (Option Hold) (some (hold_of f)) (some h) = rw e at k in
      (f, rw e refl, cc same)
  | inr e ↦ let (d, p, q) = find_surface-hold n fs h (rw e at k) in (d, rw e p, q)
]

pub tie-unlink_client :
    (a b : ℕ) (cs : List BgClient)
    → tie b (unlink_client a cs) ≡ (if b == a then none else tie b cs)
unfolding unlink_client
tie-unlink_client a b [] = ground arith
tie-unlink_client a b (c ∷ cs) = ground (arith, tie-unlink_client a b cs)

pub hold-unlink_surface :
    (m n : ℕ) (fs : List Surface)
    → hold n (unlink_surface m fs) ≡ (if n == m then none else hold n fs)
unfolding unlink_surface
hold-unlink_surface m n [] = ground arith
hold-unlink_surface m n (f ∷ fs) = ground (arith, hold-unlink_surface m n fs)

-- A write that keeps the address, and does `g` to what ties the client.
pub tie-update_client :
    (f : BgClient → BgClient) (g : Tie → Tie)
    → ((c : BgClient) → ((f c).address ≡ c.address) × (tie_of (f c) ≡ g (tie_of c)))
    → (a b : ℕ) (cs : List BgClient)
    → tie b (update_client a f cs) ≡ (if b == a then mapped g (tie b cs) else tie b cs)
unfolding update_client
tie-update_client f g k a b [] = ground arith
tie-update_client f g k a b (c ∷ cs) =
    let (p, q) = k c in
    let p' : (f c).address ≡ c.address = p in
    let q' : tie_of (f c) ≡ g (tie_of c) = q in
    elim (Bool-cases (c.address == a)) [
      | inl e ↦ elim (Bool-cases (c.address == b)) [
        | inl e' ↦
            let same : (b == a) ≡ true = ground arith in
            rw (e, same, e', mapped) (rw (p', e') (ap some q'))
        | inr e' ↦ rw (e, e') (rw (p', e') (tie-update_client f g k a b cs))
      ]
      | inr e ↦ elim (Bool-cases (c.address == b)) [
        | inl e' ↦ let same : (b == a) ≡ false = ground arith in rw (e, e', same) refl
        | inr e' ↦ rw (e, e') (tie-update_client f g k a b cs)
      ]
    ]

pub hold-update_surface :
    (f : Surface → Surface) (g : Hold → Hold)
    → ((s : Surface)
        → ((f s).output_global_name ≡ s.output_global_name) × (hold_of (f s) ≡ g (hold_of s)))
    → (m n : ℕ) (fs : List Surface)
    → hold n (update_surface m f fs) ≡ (if n == m then mapped g (hold n fs) else hold n fs)
unfolding update_surface
hold-update_surface f g k m n [] = ground arith
hold-update_surface f g k m n (s ∷ fs) =
    let (p, q) = k s in
    let p' : (f s).output_global_name ≡ s.output_global_name = p in
    let q' : hold_of (f s) ≡ g (hold_of s) = q in
    elim (Bool-cases (s.output_global_name == m)) [
      | inl e ↦ elim (Bool-cases (s.output_global_name == n)) [
        | inl e' ↦
            let same : (n == m) ≡ true = ground arith in
            rw (e, same, e', mapped) (rw (p', e') (ap some q'))
        | inr e' ↦ rw (e, e') (rw (p', e') (hold-update_surface f g k m n fs))
      ]
      | inr e ↦ elim (Bool-cases (s.output_global_name == n)) [
        | inl e' ↦ let same : (n == m) ≡ false = ground arith in rw (e, e', same) refl
        | inr e' ↦ rw (e, e') (hold-update_surface f g k m n fs)
      ]
    ]

-- Pausing changes neither the address nor a tie.
pub same_but_paused :
    (host : Host) (c : BgClient) (p : Bool)
    → ((set_client_paused host c p).0.address ≡ c.address)
      × (tie_of (set_client_paused host c p).0 ≡ tie_of c)
unfolding set_client_paused
same_but_paused host c p = ground arith

pub tie-resume_all_clients :
    (b : ℕ) (host : Host) (cs : List BgClient) → tie b (resume_all_clients host cs).0 ≡ tie b cs
unfolding resume_all_clients
tie-resume_all_clients b host [] = refl
tie-resume_all_clients b host (c ∷ cs) =
    let (p, q) = same_but_paused host c false in
    rw (p, q, tie-resume_all_clients b (set_client_paused host c false).1 cs) refl

pub tie-check_clients :
    (b : ℕ) (clock : ℕ → ℕ → Timespec) (timeout : ℕ) (main : Option ℕ) (fs : List Surface)
    (host : Host) (cs : List BgClient)
    → tie b (check_clients clock timeout main fs host cs).0 ≡ tie b cs
unfolding check_clients
tie-check_clients b clock timeout main fs host [] = refl
tie-check_clients b clock timeout main fs host (c ∷ cs) =
    let hidden = client_is_hidden (clock c.address) timeout main fs c in
    let (p, q) = same_but_paused host c hidden in
    let ih = tie-check_clients b clock timeout main fs (set_client_paused host c hidden).1 cs in
    rw (p, q, ih) refl

pub hold-cancel_timers :
    (n : ℕ) (fs : List Surface) (loop : Loop ℕ ClientCall)
    → hold n (cancel_timers fs loop).0 ≡ mapped (λ h. record h { timer = none }) (hold n fs)
unfolding cancel_timers
hold-cancel_timers n [] loop = refl
hold-cancel_timers n (f ∷ fs) loop =
    let ih = hold-cancel_timers n fs (remove_timer f.client_submission_timer loop) in
    elim (Bool-cases (f.output_global_name == n)) [ inl e ↦ rw (e, mapped) refl | inr e ↦ rw e ih ]

fall_back-hold :
    (ok : Bool) (f : Surface)
    → ((fall_back ok f).0.output_global_name ≡ f.output_global_name)
      × (hold_of (fall_back ok f).0 ≡ hold_of f)
unfolding fall_back reply_and_fill render_fallback_surface
fall_back-hold ok f = ground arith

pub hold-fall_back_all :
    (n : ℕ) (can : ℕ → Bool) (fs : List Surface) → hold n (fall_back_all can fs).0 ≡ hold n fs
unfolding fall_back_all
hold-fall_back_all n can [] = refl
hold-fall_back_all n can (f ∷ fs) =
    let (p, q) = fall_back-hold (can f.output_global_name) f in
    rw (p, q, hold-fall_back_all n can fs) refl
