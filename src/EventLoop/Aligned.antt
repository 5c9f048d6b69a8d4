-- ===== src/EventLoop/Aligned.antt =====
-- The operations of loop.c on descriptors, against a plain list of entries.
use swaylock_plugin.Base.{
  ℕ, ◌<◌, ◌≡◌, refl, sym, ap, ◌∙◌, Bool, true, false, not, ◌&&◌, returns, faults, List, [], ◌∷◌,
  ◌++◌, some, arith, ◌==◌, length, drop, set, replicate, length-append, length-set, set-append_zero,
  set-zero_drop, append_assoc, Bool-cases, inl, inr,
}
use swaylock_plugin.EventLoop.{
  Mask, Pollfd, Env, LoopFdEvent, Loop, no_events, loop_create, add_event, loop_add_fd,
  loop_remove_fd, loop_remove_timer, free_removed_fds, grow, mark_fd, free_removed,
}
use swaylock_plugin.EventLoop.Fds.{
  Entry, cells, events, length-cells, cells-append, events-append, kept, marked, has_fd,
  cells-marked, length-marked, mark_fd-marked, free_removed-Swept,
}

-- An entry more than `es`.
abbrev pub with_entry : {F : Type 0} → List (Entry F) → ℕ → Mask → F → List (Entry F)
with_entry es fd mask callback =
    es
    ++ (
      record { fd = fd; events = mask; revents = no_events },
      record { callback = callback; removed = false },
    )
      ∷ []

module _ {F T : Type 0} where
  -- The table is the cells of the entries `es` and then unused cells, the list is their events,
  -- and the length and the capacity are the true ones.
  pub record Aligned (loop : Loop F T) (es : List (Entry F)) : Type 0 where
    pub unused : List Pollfd
    pub table : loop.fds ≡ cells es ++ unused
    pub list : loop.fd_events ≡ events es
    pub count : loop.fd_length ≡ length es
    pub capacity : loop.fd_capacity ≡ length loop.fds

  pub loop_create-Aligned : (junk : Pollfd) → Aligned (loop_create junk) []
  unfolding loop_create
  loop_create-Aligned junk = record {
    unused = replicate 10 junk;
    table = refl;
    list = refl;
    count = refl;
    capacity = refl;
  }

  -- After the growth there is a free cell.
  grow-room :
      (junk : Pollfd) (loop : Loop F T) (es : List (Entry F))
      → Aligned loop es
      → (free : List Pollfd) × ((grow junk loop).fds ≡ cells es ++ free)
        × (0 < length free)
        × ((grow junk loop).fd_capacity ≡ length (grow junk loop).fds)
        × ((grow junk loop).fd_length ≡ length es)
  unfolding grow
  grow-room junk loop es a = elim (Bool-cases (loop.fd_length == loop.fd_capacity)) [
    | inl full ↦
        rw (grow, full)
          (
            a.unused ++ replicate 10 junk,
            (ap (λ fds. fds ++ replicate 10 junk) a.table
                ∙ append_assoc (cells es) a.unused (replicate 10 junk)),
            omega (arith, length-append a.unused (replicate 10 junk)),
            omega (arith, a.capacity, length-append loop.fds (replicate 10 junk)),
            a.count,
          )
    | inr room ↦
        rw (grow, room)
          (
            a.unused,
            a.table,
            ground (
              arith,
              a.capacity,
              a.count,
              ap length a.table,
              length-append (cells es) a.unused,
              length-cells es,
            ),
            a.capacity,
            a.count,
          )
  ]

  add_event-Aligned :
      (junk : Pollfd) (loop : Loop F T) (es : List (Entry F)) (fd : ℕ) (mask : Mask) (callback : F)
      → Aligned loop es
      → Aligned (add_event junk loop fd mask callback) (with_entry es fd mask callback)
  unfolding add_event
  add_event-Aligned junk loop es fd mask callback a =
      let (free, table, some_free, capacity, count) = grow-room junk loop es a in
      let pfd : Pollfd = record { fd = fd; events = mask; revents = no_events } in
      let event : LoopFdEvent F = record { callback = callback; removed = false } in
      let at : length (cells es) ≡ (grow junk loop).fd_length = length-cells es ∙ sym count in
      record {
        unused = drop 1 free;
        table =
            (ap (λ fds. set fds (grow junk loop).fd_length pfd) table)
            ∙ set-append_zero (cells es) free _ pfd at
            ∙ ap (◌++◌ (cells es)) (set-zero_drop free pfd some_free)
            ∙ sym (append_assoc (cells es) (pfd ∷ []) (drop 1 free))
            ∙ ap (λ c. c ++ drop 1 free) (sym (cells-append es ((pfd, event) ∷ [])));
        list = ap (λ l. l ++ event ∷ []) a.list ∙ sym (events-append es ((pfd, event) ∷ []));
        count = omega (arith, count, length-append es ((pfd, event) ∷ []));
        capacity = capacity ∙ sym (length-set (grow junk loop).fds (grow junk loop).fd_length pfd);
      }

  -- On an aligned loop, where calloc succeeds, adding a descriptor returns with one entry
  -- appended where the table has a free cell, and where it is full and realloc succeeds; where
  -- it is full and realloc fails, it faults.
  pub loop_add_fd-Aligned :
      (env : Env) (junk : Pollfd) (loop : Loop F T) (es : List (Entry F)) (fd : ℕ) (mask : Mask)
      (callback : F)
      → Aligned loop es
      → env.calloc loop.allocs ≡ true
      → ((realloc_ok : Bool)
          → (loop.fd_length == loop.fd_capacity && not realloc_ok) ≡ false
          → (loop' : Loop F T) × (loop_add_fd env realloc_ok junk loop fd mask callback
              ≡ returns loop')
            × Aligned loop' (with_entry es fd mask callback))
        × ((loop.fd_length == loop.fd_capacity) ≡ true
            → loop_add_fd env false junk loop fd mask callback ≡ faults)
  unfolding loop_add_fd
  loop_add_fd-Aligned env junk loop es fd mask callback a ok = (
    λ realloc_ok room. (
      add_event junk loop fd mask callback,
      simp (ok, room),
      add_event-Aligned junk loop es fd mask callback a,
    ),
    λ full. simp (ok, full),
  )

  -- On an aligned loop, removing a descriptor reads only inside the table, marks the first
  -- entry that has it, and answers whether there is one.
  pub loop_remove_fd-Aligned :
      (loop : Loop F T) (es : List (Entry F)) (fd : ℕ)
      → Aligned loop es
      → (loop' : Loop F T) × (loop_remove_fd loop fd ≡ some (loop', has_fd fd es))
        × Aligned loop' (marked fd es)
  unfolding loop_remove_fd
  loop_remove_fd-Aligned loop es fd a =
      let run = mark_fd-marked [] a.unused 0 fd es refl in
      let run' : mark_fd loop.fds 0 fd loop.fd_events ≡ some (events (marked fd es), has_fd fd es) =
        rw (a.table, a.list) run in
      (
        record loop { fd_events = events (marked fd es) },
        rw (run', loop_remove_fd),
        record {
          unused = a.unused;
          table = a.table ∙ ap (λ c. c ++ a.unused) (sym (cells-marked fd es));
          list = refl;
          count = a.count ∙ sym (length-marked fd es);
          capacity = a.capacity;
        },
      )

  -- On a loop whose cells and events are aligned, the sweep after the dispatch drops exactly
  -- the marked entries, keeps the order of the others, and each kept event still has its own
  -- cell.
  pub free_removed_fds-Aligned :
      (loop : Loop F T) (es : List (Entry F))
      → Aligned loop es
      → Aligned (free_removed_fds loop) (kept es)
  unfolding free_removed_fds
  free_removed_fds-Aligned loop es a =
      let (unused, run, size) =
        free_removed-Swept [] a.unused 0 loop.fd_length es refl (omega (arith, a.count)) in
      let run' : free_removed loop.fd_events 0 loop.fds loop.fd_length
          ≡ (events (kept es), cells (kept es) ++ unused, length (kept es)) =
        rw (a.table, a.list)
          (run ∙ ap (λ n. (events (kept es), cells (kept es) ++ unused, n)) (omega arith)) in
      record {
        unused = unused;
        table = ap (λ r. r.1) run';
        list = ap (λ r. r.0) run';
        count = ap (λ r. r.2) run';
        capacity = omega (
          arith,
          a.capacity,
          ap length a.table,
          length-append (cells es) a.unused,
          length-cells es,
          ap length (ap (λ r. r.1) run'),
          length-append (cells (kept es)) unused,
          length-cells (kept es),
          size,
        );
      }

  -- Timers do not touch the descriptors.
  pub loop_remove_timer-Aligned :
      (loop : Loop F T) (a : ℕ) (es : List (Entry F))
      → Aligned loop es
      → Aligned (loop_remove_timer loop a).0 es
  unfolding loop_remove_timer
  loop_remove_timer-Aligned loop a es h = record {
    unused = h.unused;
    table = h.table;
    list = h.list;
    count = h.count;
    capacity = h.capacity;
  }
