-- ===== src/EventLoop.antt =====
-- loop.c and include/loop.h: the event loop's table of file descriptors with the list of their
-- events, and its timers. A callback with its `data` pointer is a value of `F` or `T`; a timer's
-- address is the number of the allocation that made it. What the clock and the allocator answer
-- comes from outside and is an `Env`.
pub mod Fds
pub mod Aligned
pub mod Timers
pub mod Live
pub mod Freed
pub mod Order
pub mod Poll
use swaylock_plugin.Base.{
  ℕ, zero, suc, ◌+◌, ◌-◌, ◌*◌, ◌/◌, ◌%◌, Bool, true, false, not, ◌&&◌, ◌||◌, List, [], ◌∷◌, ◌++◌,
  Option, none, some, ltb, leb, ◌==◌, if◌then◌else◌, length, take, drop, set, replicate, get_elem?,
  ℤ, pos, negsuc, minus, ltb_ℤ, ◌-ℤ◌, Outcome, returns, faults,
}

-- The poll flags that the program uses.
pub record Mask : Type 0 where
  pub pollin : Bool
  pub pollerr : Bool
  pub pollhup : Bool

abbrev pub no_events : Mask
no_events = record { pollin = false; pollerr = false; pollhup = false }

abbrev pub want_in : Mask
want_in = record { pollin = true; pollerr = false; pollhup = false }

-- `fd` is the 32-bit pattern of an int.
pub record Pollfd : Type 0 where
  pub fd : ℕ
  pub events : Mask
  pub revents : Mask

pub record Timespec : Type 0 where
  pub tv_sec : ℕ
  pub tv_nsec : ℕ

-- The expiry of a timer; its nanoseconds are negative where the timer was given fewer than 0 ms.
pub record Expiry : Type 0 where
  pub tv_sec : ℕ
  pub tv_nsec : ℤ

-- The answers of `clock_gettime` and `calloc` at the n-th allocation of the loop.
pub record Env : Type 0 where
  pub clock : ℕ → Timespec
  pub calloc : ℕ → Bool

-- `struct loop_fd_event`.
pub record LoopFdEvent (F : Type 0) : Type 0 where
  pub callback : F
  pub removed : Bool

-- `struct loop_timer`, with its address.
pub record LoopTimer (T : Type 0) : Type 0 where
  pub address : ℕ
  pub callback : T
  pub expiry : Expiry
  pub removed : Bool

-- `struct loop`. `fds` is the whole allocation, `fd_capacity` cells of it; `allocs` counts the
-- allocations of events and timers.
pub record Loop (F T : Type 0) : Type 0 where
  pub fds : List Pollfd
  pub fd_length : ℕ
  pub fd_capacity : ℕ
  pub fd_events : List (LoopFdEvent F)
  pub timers : List (LoopTimer T)
  pub allocs : ℕ

-- `memmove(&fds[i], &fds[i + 1], n)`, n in cells.
pub memmove_down : List Pollfd → ℕ → ℕ → List Pollfd
memmove_down fds i n = take i fds ++ (take n (drop (i + 1) fds) ++ drop (i + n) fds)

-- The instant `ms` milliseconds after `now`, as `loop_add_timer` computes it; the quotient and the
-- remainder of a negative `ms` are those of C, rounded towards 0.
unfoldable pub expiry_after : Timespec → ℤ → Expiry
expiry_after now (pos ms) =
    let sec = now.tv_sec + ms / 1000 in
    let nsec = now.tv_nsec + ms % 1000 * 1000000 in
    if leb 1000000000 nsec
    then record { tv_sec = sec + 1; tv_nsec = minus nsec 1000000000 }
    else record { tv_sec = sec; tv_nsec = pos nsec }
expiry_after now (negsuc k) =
    let sec = now.tv_sec - suc k / 1000 in
    let nsec = minus now.tv_nsec (suc k % 1000 * 1000000) in
    if ltb_ℤ nsec (pos 1000000000)
    then record { tv_sec = sec; tv_nsec = nsec }
    else record { tv_sec = sec + 1; tv_nsec = nsec -ℤ pos 1000000000 }

-- The test of the timer dispatch in `loop_poll`.
unfoldable pub expired : Expiry → Timespec → Bool
expired expiry now =
    ltb expiry.tv_sec now.tv_sec
    || (expiry.tv_sec == now.tv_sec && ltb_ℤ expiry.tv_nsec (pos now.tv_nsec))

module _ {F : Type 0} where
  -- The scan of `loop_remove_fd`, from cell `fd_index` on: it marks the first event whose cell has
  -- the descriptor. A read outside the table is `none`.
  pub mark_fd : List Pollfd → ℕ → ℕ → List (LoopFdEvent F) → Option (List (LoopFdEvent F) × Bool)
  mark_fd fds fd_index fd [] = some ([], false)
  mark_fd fds fd_index fd (event ∷ events) =
      let more = mark_fd fds (fd_index + 1) fd events in
      elim (get_elem? fds fd_index) [
        | none ↦ none
        | some pfd ↦
            if pfd.fd == fd
            then some (record event { removed = true } ∷ events, true)
            else elim more [ none ↦ none | some (events', found) ↦ some (event ∷ events', found) ]
      ]

  -- `Free removed fd events` in `loop_poll`: the events kept, the table and its length.
  pub free_removed :
      List (LoopFdEvent F) → ℕ → List Pollfd → ℕ → List (LoopFdEvent F) × List Pollfd × ℕ
  free_removed [] fd_index fds fd_length = ([], fds, fd_length)
  free_removed (event ∷ events) fd_index fds fd_length = elim event.removed [
    | true ↦
        free_removed events fd_index (memmove_down fds fd_index (fd_length - 1 - fd_index))
          (fd_length - 1)
    | false ↦
        let (events', fds', n) = free_removed events (fd_index + 1) fds fd_length in
        (event ∷ events', fds', n)
  ]

module _ {T : Type 0} where
  pub mark_timer : ℕ → List (LoopTimer T) → List (LoopTimer T) × Bool
  mark_timer address [] = ([], false)
  mark_timer address (timer ∷ timers) =
      let (timers', found) = mark_timer address timers in
      if timer.address == address
      then (record timer { removed = true } ∷ timers, true)
      else (timer ∷ timers', found)

module _ {F T : Type 0} where
  -- `malloc` leaves its cells with what was there before, `junk`.
  unfoldable pub loop_create : Pollfd → Loop F T
  loop_create junk = record {
    fds = replicate 10 junk;
    fd_length = 0;
    fd_capacity = 10;
    fd_events = [];
    timers = [];
    allocs = 0;
  }

  -- The `realloc` of `loop_add_fd`, where it succeeds.
  pub grow : Pollfd → Loop F T → Loop F T
  grow junk loop =
      if loop.fd_length == loop.fd_capacity
      then record loop { fd_capacity = loop.fd_capacity + 10; fds = loop.fds ++ replicate 10 junk }
      else loop

  -- The event goes to the end of the list, and its pollfd to the first free cell.
  pub add_event : Pollfd → Loop F T → ℕ → Mask → F → Loop F T
  unfolding grow
  add_event junk loop fd mask callback =
      let event : LoopFdEvent F = record { callback = callback; removed = false } in
      let pfd : Pollfd = record { fd = fd; events = mask; revents = no_events } in
      let loop' = grow junk loop in
      record loop' {
        fd_events = loop.fd_events ++ event ∷ [];
        fds = set loop'.fds loop'.fd_length pfd;
        fd_length = loop'.fd_length + 1;
        allocs = suc loop.allocs;
      }

  -- `realloc_ok` is whether `realloc` succeeds; the cell is written through its result unchecked.
  pub loop_add_fd : Env → Bool → Pollfd → Loop F T → ℕ → Mask → F → Outcome (Loop F T)
  unfolding add_event
  loop_add_fd env realloc_ok junk loop fd mask callback =
      if not (env.calloc loop.allocs)
      then returns (record loop { allocs = suc loop.allocs })
      else if loop.fd_length == loop.fd_capacity && not realloc_ok
      then faults
      else returns (add_event junk loop fd mask callback)

  unfoldable pub loop_remove_fd : Loop F T → ℕ → Option (Loop F T × Bool)
  unfolding mark_fd
  loop_remove_fd loop fd = elim (mark_fd loop.fds 0 fd loop.fd_events) [
    | none ↦ none
    | some (events, found) ↦ some (record loop { fd_events = events }, found)
  ]

  pub free_removed_fds : Loop F T → Loop F T
  unfolding free_removed
  free_removed_fds loop =
      let (events, fds, n) = free_removed loop.fd_events 0 loop.fds loop.fd_length in
      record loop { fd_events = events; fds = fds; fd_length = n }

  -- The new timer goes to the front. `none` is the null pointer.
  unfoldable pub loop_add_timer : Env → Loop F T → ℤ → T → Loop F T × Option ℕ
  unfolding expiry_after
  loop_add_timer env loop ms callback =
      if not (env.calloc loop.allocs)
      then (record loop { allocs = suc loop.allocs }, none)
      else (let timer : LoopTimer T = record {
        address = loop.allocs;
        callback = callback;
        expiry = expiry_after (env.clock loop.allocs) ms;
        removed = false;
      } in
          (
            record loop { timers = timer ∷ loop.timers; allocs = suc loop.allocs },
            some loop.allocs,
          ))

  unfoldable pub loop_remove_timer : Loop F T → ℕ → Loop F T × Bool
  unfolding mark_timer
  loop_remove_timer loop address =
      let (timers, found) = mark_timer address loop.timers in
      (record loop { timers = timers }, found)
