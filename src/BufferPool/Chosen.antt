-- ===== src/BufferPool/Chosen.antt =====
-- What the caller of get_next_buffer gets.
use swaylock_plugin.Base.{
  ℕ, ◌*◌, ◌≡◌, refl, sym, ap, subst, Bool, true, false, not, ◌&&◌, ◌||◌, Option, none, some, ◌==◌,
  if◌then◌else◌, u32, arith, Bool-cases, inl, inr,
}
use swaylock_plugin.BufferPool.{
  PoolBuffer, ShmAnswers, destroy_buffer, create_buffer, resize_buffer, ensure_buffer, mark_busy,
  prepare_buffer, get_next_buffer,
}

-- The buffer is of the wanted size and kept from the next caller.
pub record Fresh (b : PoolBuffer) (width height : ℕ) : Type 0 where
  pub taken : b.busy ≡ true
  pub wide : b.width ≡ width
  pub high : b.height ≡ height

-- The memory of a buffer of that size, which is not empty, cannot be had.
abbrev pub Unmapped : ShmAnswers → ℕ → ℕ → Type 0
Unmapped shm width height =
    ((u32 (u32 (width * 4) * height) == 0) ≡ false) × ((shm.opened && shm.truncated) ≡ false)

-- A result: the chosen buffer was free and is fresh, and the other one is as it was; or nothing,
-- where none is free or there is no memory.
pub data Chosen (shm : ShmAnswers) (a b : PoolBuffer) (width height : ℕ)
    : (PoolBuffer × PoolBuffer) × Option Bool → Type 0 where
  second :
      (b' : PoolBuffer)
      → b.busy ≡ false
      → Fresh b' width height
      → Chosen shm a b width height ((a, b'), some true)
  first :
      (a' : PoolBuffer)
      → a.busy ≡ false
      → Fresh a' width height
      → Chosen shm a b width height ((a', b), some false)
  both_busy : a.busy ≡ true → b.busy ≡ true → Chosen shm a b width height ((a, b), none)
  second_failed :
      (b' : PoolBuffer)
      → b.busy ≡ false
      → Unmapped shm width height
      → Chosen shm a b width height ((a, b'), none)
  first_failed :
      (a' : PoolBuffer)
      → a.busy ≡ false
      → Unmapped shm width height
      → Chosen shm a b width height ((a', b), none)

-- A buffer prepared, by the result of `prepare_buffer`.
abbrev Prepared : ShmAnswers → ℕ → ℕ → PoolBuffer × Bool → Type 0
Prepared shm width height (b, true) = Fresh b width height
Prepared shm width height (b, false) = Unmapped shm width height

mark_busy-Prepared :
    (shm : ShmAnswers) (width height : ℕ) (b : PoolBuffer)
    → b.width ≡ width
    → b.height ≡ height
    → Prepared shm width height (mark_busy (b, true))
unfolding mark_busy
mark_busy-Prepared shm width height b w h = record { taken = refl; wide = w; high = h }

mark_busy_failed :
    (shm : ShmAnswers) (width height : ℕ) (b : PoolBuffer)
    → Unmapped shm width height
    → Prepared shm width height (mark_busy (b, false))
unfolding mark_busy
mark_busy_failed shm width height b u = u

create-Prepared :
    (shm : ShmAnswers) (b : PoolBuffer) (width height : ℕ)
    → Prepared shm width height (mark_busy (create_buffer shm b width height))
unfolding create_buffer
create-Prepared shm b width height =
    let size = u32 (u32 (width * 4) * height) in
    let void : PoolBuffer = record b {
      size = size;
      width = width;
      height = height;
      mapped = false;
    } in
    let made : PoolBuffer = record b {
      buffer = true;
      size = size;
      width = width;
      height = height;
      mapped = true;
    } in
    go void made (size == 0) (shm.opened && shm.truncated) refl refl refl refl (λ e f. (e, f))
  where
    go :
        (void made : PoolBuffer) (empty ok : Bool)
        → void.width ≡ width
        → void.height ≡ height
        → made.width ≡ width
        → made.height ≡ height
        → (empty ≡ false → ok ≡ false → Unmapped shm width height)
        → Prepared shm width height
            (mark_busy (if empty then (void, true) else if ok then (made, true) else (b, false)))
    go void made true ok a b c d u = mark_busy-Prepared shm width height void a b
    go void made false true a b c d u = mark_busy-Prepared shm width height made c d
    go void made false false a b c d u = mark_busy_failed shm width height _ (u refl refl)

ensure-Prepared :
    (shm : ShmAnswers) (b : PoolBuffer) (width height : ℕ)
    → (b.buffer ≡ true → (b.width ≡ width) × (b.height ≡ height))
    → Prepared shm width height (mark_busy (ensure_buffer shm b width height))
unfolding ensure_buffer
ensure-Prepared shm b width height right = elim (Bool-cases b.buffer) [
  | inl made ↦
      subst (λ r. Prepared shm width height (mark_busy r))
        (sym (ap (λ c. if c then (b, true) else create_buffer shm b width height) made))
        (mark_busy-Prepared shm width height b (right made).0 (right made).1)
  | inr unmade ↦
      subst (λ r. Prepared shm width height (mark_busy r))
        (sym (ap (λ c. if c then (b, true) else create_buffer shm b width height) unmade))
        (create-Prepared shm b width height)
]

-- A buffer that is still there after `resize_buffer` has the wanted size.
resized :
    (b : PoolBuffer) (width height : ℕ)
    → (resize_buffer b width height).buffer ≡ true
    → ((resize_buffer b width height).width ≡ width)
      × ((resize_buffer b width height).height ≡ height)
unfolding resize_buffer destroy_buffer
resized b width height there =
    elim (Bool-cases (not (b.width == width) || not (b.height == height))) [
      | inl differs ↦ cc (simp differs at there)
      | inr same ↦ simp same (ground arith, ground arith)
    ]

prepare-Prepared :
    (shm : ShmAnswers) (b : PoolBuffer) (width height : ℕ)
    → Prepared shm width height (prepare_buffer shm b width height)
unfolding prepare_buffer
prepare-Prepared shm b width height =
    ensure-Prepared shm (resize_buffer b width height) width height (resized b width height)

second-Chosen :
    (shm : ShmAnswers) (a b : PoolBuffer) (width height : ℕ) (r : PoolBuffer × Bool)
    → b.busy ≡ false
    → Prepared shm width height r
    → Chosen shm a b width height ((a, r.0), if r.1 then some true else none)
second-Chosen shm a b width height (b', true) free fresh = second b' free fresh
second-Chosen shm a b width height (b', false) free fresh = second_failed b' free fresh

first-Chosen :
    (shm : ShmAnswers) (a b : PoolBuffer) (width height : ℕ) (r : PoolBuffer × Bool)
    → a.busy ≡ false
    → Prepared shm width height r
    → Chosen shm a b width height ((r.0, b), if r.1 then some false else none)
first-Chosen shm a b width height (a', true) free fresh = first a' free fresh
first-Chosen shm a b width height (a', false) free fresh = first_failed a' free fresh

-- get_next_buffer returns a buffer that was not busy, now busy and of the wanted size, and
-- leaves the other one as it was; or none, where both are busy and are left as they were, or
-- where the memory of a free one, of a size that is not 0, could not be opened or sized.
pub get_next_buffer-Chosen :
    (shm : ShmAnswers) (a b : PoolBuffer) (width height : ℕ)
    → Chosen shm a b width height (get_next_buffer shm (a, b) width height)
unfolding get_next_buffer
get_next_buffer-Chosen shm a b width height = elim (Bool-cases b.busy) [
  | inr free ↦
      simp free (second-Chosen shm a b width height _ free (prepare-Prepared shm b width height))
  | inl held ↦ elim (Bool-cases a.busy) [
    | inr free ↦
        simp (held, free)
          (first-Chosen shm a b width height _ free (prepare-Prepared shm a width height))
    | inl held' ↦ simp (held, held') (both_busy held' held)
  ]
]
