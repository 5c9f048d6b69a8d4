-- ===== src/EventLoop/Poll.antt =====
-- loop.c: how long `loop_poll` waits.
use swaylock_plugin.Base.{
  ℕ, suc, ◌+◌, ◌-◌, ◌*◌, ◌/◌, ◌%◌, ◌<◌, ◌≡◌, refl, ap, ◌∙◌, ◌⊎◌, inl, inr, true, false, List, [],
  ◌∷◌, arith, ltb, if◌then◌else◌, Bool-cases, All, subst, sym, ltb→le, ℤ, pos, negsuc, pos_part,
  neg_part, minus, ltb_ℤ,
}
use swaylock_plugin.EventLoop.{Timespec, Expiry, LoopTimer}
use swaylock_plugin.EventLoop.Timers.{to_ns, IsNormal}

-- The conversion of a wider integer to an `int`.
pub signed : ℕ → ℤ
signed p = if ltb p 2147483648 then pos p else negsuc (4294967295 - p)

pub to_int : ℤ → ℤ
unfolding signed
to_int (pos n) = signed (n % 4294967296)
to_int (negsuc k) = signed (4294967295 - k % 4294967296)

-- The quotient by a million, rounded towards 0.
pub in_ms : ℤ → ℤ
in_ms (pos n) = pos (n / 1000000)
in_ms (negsuc k) = minus 0 (suc k / 1000000)

abbrev pub sum : ℤ → ℤ → ℤ
sum x y = minus (pos_part x + pos_part y) (neg_part x + neg_part y)

-- The milliseconds from `now` to an expiry.
pub timer_ms : Timespec → Expiry → ℤ
unfolding to_int in_ms
timer_ms now e =
    let ms = to_int (minus (e.tv_sec * 1000) (now.tv_sec * 1000)) in
    to_int (sum ms (in_ms (sum e.tv_nsec (minus 0 now.tv_nsec))))

module _ {T : Type 0} where
  pub least_ms : Timespec → List (LoopTimer T) → ℤ → ℤ
  unfolding timer_ms
  least_ms now [] ms = ms
  least_ms now (t ∷ ts) ms =
      let this = timer_ms now t.expiry in least_ms now ts (if ltb_ℤ this ms then this else ms)

  -- What `poll` is given; INT_MAX without a timer.
  unfoldable pub poll_timeout : Timespec → List (LoopTimer T) → ℕ
  unfolding least_ms
  poll_timeout now ts = pos_part (least_ms now ts (pos 2147483647))

-- The instant of an expiry, and that it lies within 2147482 seconds of the clock.
abbrev pub due : Expiry → ℕ
due e = e.tv_sec * 1000000000 + pos_part e.tv_nsec

abbrev pub IsNear : Timespec → Expiry → Type 0
IsNear now e =
    (neg_part e.tv_nsec ≡ 0)
    × (pos_part e.tv_nsec < 1000000000)
    × (due e < to_ns now + 2147482 * 1000000000)
    × (to_ns now < due e + 2147482 * 1000000000)

to_int_same : (z : ℤ) → pos_part z < 2147483648 → neg_part z < 2147483649 → to_int z ≡ z
unfolding to_int signed
to_int_same (pos n) p q = ground arith
to_int_same (negsuc k) p q = ground arith

minus_parts :
    (a b : ℕ)
    → (pos_part (minus a b) + b ≡ neg_part (minus a b) + a)
      × (pos_part (minus a b) < a + 1)
      × (neg_part (minus a b) < b + 1)
minus_parts a b = ground arith

sum_parts :
    (x y : ℤ)
    → (pos_part (sum x y) + neg_part x + neg_part y ≡ neg_part (sum x y) + pos_part x + pos_part y)
      × (pos_part (sum x y) < pos_part x + pos_part y + 1)
      × (neg_part (sum x y) < neg_part x + neg_part y + 1)
      × ((pos_part (sum x y) ≡ 0) ⊎ (neg_part (sum x y) ≡ 0))
sum_parts x y = ground arith

in_ms_close :
    (z : ℤ)
    → (pos_part (in_ms z) * 1000000 + neg_part z
        < neg_part (in_ms z) * 1000000 + pos_part z + 1000000)
      × (neg_part (in_ms z) * 1000000 + pos_part z
          < pos_part (in_ms z) * 1000000 + neg_part z + 1000000)
unfolding in_ms
in_ms_close (pos n) = omega arith
in_ms_close (negsuc k) = ground arith

sized : (z : ℤ) → (pos_part z ≡ 0) ⊎ (neg_part z ≡ 0)
sized (pos n) = inr refl
sized (negsuc k) = inl refl

-- The computed milliseconds are within one of the true distance.
timer_ms_close :
    (now : Timespec) (e : Expiry)
    → IsNormal now
    → IsNear now e
    → (to_ns now + pos_part (timer_ms now e) * 1000000
        < due e + neg_part (timer_ms now e) * 1000000 + 1000000)
      × (due e + neg_part (timer_ms now e) * 1000000
          < to_ns now + pos_part (timer_ms now e) * 1000000 + 1000000)
unfolding timer_ms
timer_ms_close now e normal (whole, small, above, below) =
    let secs : ℤ = minus (e.tv_sec * 1000) (now.tv_sec * 1000) in
    let nanos : ℤ = sum e.tv_nsec (minus 0 now.tv_nsec) in
    let (s₀, _, _) = minus_parts (e.tv_sec * 1000) (now.tv_sec * 1000) in
    let (m₀, _, _) = minus_parts 0 now.tv_nsec in
    let (n₀, n₁, n₂, n₃) = sum_parts e.tv_nsec (minus 0 now.tv_nsec) in
    let (q₀, q₁) = in_ms_close nanos in
    let (t₀, t₁, t₂, t₃) = sum_parts secs (in_ms nanos) in
    let whole_secs : to_int secs ≡ secs =
      to_int_same secs (omega (arith, s₀, sized secs)) (omega (arith, s₀, sized secs)) in
    let fits : (pos_part (sum secs (in_ms nanos)) < 2147483648)
        × (neg_part (sum secs (in_ms nanos)) < 2147483649) =
      omega (arith, s₀, m₀, n₀, q₀, q₁, t₀, t₃) in
    let same : timer_ms now e ≡ sum secs (in_ms nanos) =
      ap (λ m. to_int (sum m (in_ms nanos))) whole_secs
      ∙ to_int_same (sum secs (in_ms nanos)) fits.0 fits.1 in
    rw same (omega (arith, s₀, m₀, n₀, q₀, q₁, t₀))

below_both : (x y z : ℤ) → ltb_ℤ x y ≡ true → ltb_ℤ x z ≡ false → ltb_ℤ y z ≡ false
below_both x y z p q = ground arith

module _ {T : Type 0} where
  -- With `ms` milliseconds the wait ends less than one after the timer, if there is a wait.
  abbrev Punctual : Timespec → ℤ → LoopTimer T → Type 0
  Punctual now ms t =
      to_ns now + pos_part ms * 1000000 < due t.expiry + neg_part ms * 1000000 + 1000000

  -- And not more than one before it.
  abbrev Needed : Timespec → ℤ → LoopTimer T → Type 0
  Needed now ms t =
      due t.expiry + neg_part ms * 1000000 < to_ns now + pos_part ms * 1000000 + 1000000

  abbrev pub InTime : Timespec → ℕ → LoopTimer T → Type 0
  InTime now wait t = (wait ≡ 0) ⊎ (to_ns now + wait * 1000000 < due t.expiry + 1000000)

  abbrev pub IsDue : Timespec → ℕ → LoopTimer T → Type 0
  IsDue now wait t = due t.expiry < to_ns now + wait * 1000000 + 1000000

  abbrev pub Near : Timespec → LoopTimer T → Type 0
  Near now t = IsNear now t.expiry

  abbrev pub Any : (LoopTimer T → Type 0) → List (LoopTimer T) → Type 0
  Any P [] = ⊥
  Any P (t ∷ ts) = P t ⊎ Any P ts

  earlier :
      (now : Timespec) (x y : ℤ) (t : LoopTimer T)
      → ltb_ℤ x y ≡ false
      → Punctual now x t
      → Punctual now y t
  earlier now x y t le p =
      omega (arith, ltb→le (pos_part x + neg_part y) (neg_part x + pos_part y) le)

  all-InTime :
      (now : Timespec) (ms : ℤ) (ts : List (LoopTimer T))
      → All (Punctual now ms) ts
      → All (InTime now (pos_part ms)) ts
  all-InTime now ms [] p = tt
  all-InTime now ms (t ∷ ts) p = (
    elim (sized ms) [ inl z ↦ inl z | inr z ↦ let q = p.0 in inr (omega (arith, q, z)) ],
    all-InTime now ms ts p.1,
  )

  Any-IsDue :
      (now : Timespec) (ms : ℤ) (ts : List (LoopTimer T))
      → Any (Needed now ms) ts
      → Any (IsDue now (pos_part ms)) ts
  Any-IsDue now ms [] p = p
  Any-IsDue now ms (t ∷ ts) (inl p) = inl (omega (arith, p))
  Any-IsDue now ms (t ∷ ts) (inr p) = inr (Any-IsDue now ms ts p)

  first_found :
      (now : Timespec) (this : ℤ) (t : LoopTimer T) (ts : List (LoopTimer T)) (ms : ℤ)
      → Needed now this t
      → (ms ≡ this) ⊎ Any (Needed now ms) ts
      → Any (Needed now ms) (t ∷ ts)
  first_found now this t ts ms late (inl e) = inl (subst (λ x. Needed now x t) (sym e) late)
  first_found now this t ts ms late (inr a) = inr a

  -- `m` is no more than `ms`, comes in time for each timer, and is `ms` or needed for one.
  abbrev Found : Timespec → ℤ → List (LoopTimer T) → ℤ → Type 0
  Found now ms ts m =
      (ltb_ℤ ms m ≡ false) × All (Punctual now m) ts × ((m ≡ ms) ⊎ Any (Needed now m) ts)

  least_ms-Found :
      (now : Timespec) (ts : List (LoopTimer T)) (ms : ℤ)
      → IsNormal now
      → All (Near now) ts
      → Found now ms ts (least_ms now ts ms)
  unfolding least_ms
  least_ms-Found now [] ms normal near = (ground arith, tt, inl refl)
  least_ms-Found now (t ∷ ts) ms normal (here, rest) =
      let this : ℤ = timer_ms now t.expiry in
      let (early, late) = timer_ms_close now t.expiry normal here in
      elim (Bool-cases (ltb_ℤ this ms)) [
        | inl less ↦
            let m : ℤ = least_ms now ts this in
            let (below, all, found) = least_ms-Found now ts this normal rest in
            let step : least_ms now (t ∷ ts) ms ≡ m =
              ap (λ b. least_ms now ts (if b then this else ms)) less in
            subst (Found now ms (t ∷ ts)) (sym step) (
              below_both this ms m less below,
              (earlier now this m t below early, all),
              inr (first_found now this t ts m late found),
            )
        | inr more ↦
            let m : ℤ = least_ms now ts ms in
            let (below, all, found) = least_ms-Found now ts ms normal rest in
            let step : least_ms now (t ∷ ts) ms ≡ m =
              ap (λ b. least_ms now ts (if b then this else ms)) more in
            let kept : (m ≡ ms) ⊎ Any (Needed now m) (t ∷ ts) = elim found [
              | inl e ↦ inl e
              | inr a ↦ inr (inr a)
            ] in
            subst (Found now ms (t ∷ ts)) (sym step)
              (below, (earlier now ms m t below (earlier now this ms t more early), all), kept)
      ]

  -- Where the clock reading has fewer than 10^9 nanoseconds and every timer has from 0 to
  -- fewer than 10^9 nanoseconds and is within 2147482 seconds of it, and there is a timer, the
  -- wait is 0 or ends less than a millisecond after each timer, and some timer is due before a
  -- millisecond past its end.
  pub poll_timeout-punctual :
      (now : Timespec) (t : LoopTimer T) (ts : List (LoopTimer T))
      → IsNormal now
      → All (Near now) (t ∷ ts)
      → All (InTime now (poll_timeout now (t ∷ ts))) (t ∷ ts)
        × Any (IsDue now (poll_timeout now (t ∷ ts))) (t ∷ ts)
  unfolding poll_timeout
  poll_timeout-punctual now t ts normal near =
      let ms : ℤ = least_ms now (t ∷ ts) (pos 2147483647) in
      let (_, all, found) = least_ms-Found now (t ∷ ts) (pos 2147483647) normal near in
      (
        all-InTime now ms (t ∷ ts) all,
        elim found [
          | inr a ↦ Any-IsDue now ms (t ∷ ts) a
          | inl e ↦
              let p : Punctual now (pos 2147483647) t = subst (λ x. Punctual now x t) e all.0 in
              let (_, _, _, before) = near.0 in
              let above = near.0.2 in absurd (omega (arith, p, above))
        ],
      )
