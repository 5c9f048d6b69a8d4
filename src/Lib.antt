-- ===== src/Lib.antt =====
-- swaylock-plugin: a screen locker for Wayland whose background is drawn by another program.
--
-- The program's parts. main.c sets up the session lock, runs the event loop of loop.c and reacts
-- to its descriptors and timers. seat.c turns keyboard events into calls of swaylock_handle_key
-- of password.c, which edits the password buffer with the UTF-8 routines of unicode.c and
-- submits it. comm.c sends the password through a pipe to a child process that checks it (pam.c
-- or shadow.c) and reads the answer, which comm_in of main.c turns into the end of the lock.
-- forward.c and forward-client.c are the Wayland server that the background program talks to.
--
-- What is modelled where:
--   Base and its children: numbers as Boolean tests, lists over the native numbers, bit masks of
--     a byte, `Outcome` (a call that returns, exits, aborts by an assertion, waits for ever, or
--     reads outside an allocation).
--   Unicode: unicode.c. utf8_chsize, utf8_encode, utf8_last_size and utf8_size with their names.
--     A string is the list of the bytes of its allocation.
--   Password: the buffer operations of password.c (clear_buffer, clear_password_buffer,
--     backspace, append_ch) on `SwaylockPassword`, which is struct swaylock_password.
--   EventLoop: loop.c. `Loop` is struct loop; its wl_lists are lists, a timer's address is the
--     number of the allocation that made it, and the clock and calloc are the parameter `Env`.
--     EventLoop.Poll: how long loop_poll waits, with the conversions to int.
--   Comm: comm.c. A pipe is the list of the bytes in it, and what each read or write call
--     answers is a script from outside.
--   Lock: the part of struct swaylock_state that the callbacks below change.
--   Lock.Keys: the timers, the callbacks and swaylock_handle_key of password.c.
--   Lock.Input: seat.c. What xkbcommon computes of a key, of a keymap and of the modifiers is
--     given with the event; one seat is modelled; the float comparison with
--     grace_pointer_hysteresis is the field `far`.
--   Lock.Handlers: the callbacks of main.c on the compositor, the password checker, SIGUSR1,
--     SIGUSR2, the sleep watcher and the grace timer, and the step function `step` of everything
--     above.
--   Lock.Dispatch: the timer dispatch of loop_poll with the callbacks of the lock screen.
--   Lock.Timed: the fields of the state that hold timers, and what they point to; the list of
--     timers is a heap of nodes named by the allocation that made them.
--   Checker: password-buffer.c (Checker.Memory), the conversation and the loop of pam.c
--     (Checker.Pam), and shadow.c (Checker.Shadow). What PAM does is any value of `Dialog`, and
--     crypt is any function.
--   Clients: the pausing of background clients in main.c. What kill(2) answers is the field
--     `kill` of `Host`.
--   Session: main.c. The background programs, the nested server that they draw to, and the
--     outputs. A pointer to a client or an output is the number it is known by, looked up in the
--     list of its kind: what is freed is not found, and its use is a fault. `display` is whether
--     the nested server stands, the event loop is that of EventLoop, what wl_client_destroy does
--     to the objects of forward.c is left out, and what socketpair, spawn_command, calloc and
--     wl_client_create answer to the n-th start is the field `run` of `Outside`.
--   Session.Commands: run_plugin_command, client_resource_create and client_destroyed.
--     Session.Handlers: the timeouts, the check for hidden clients, dispatch_nested and
--     global_filter. Session.Outputs: an output as it comes, is created and goes.
--     Session.Frames: an output as it is configured, shows a frame and is presented.
--   Session.Linked, Session.Reached: the invariant of clients, outputs and timers, and the
--     events that lead from one state to the next. Session.Fresh, Session.Ready, Session.Readied
--     and Session.Presented are about what is kept of every output.
--   Configure: the configure events of the compositor, their copies for the background program
--     with serials of their own, the acknowledgements and the commits of layer surfaces, in
--     main.c and forward.c. What is sent is a log of `Message`; a commit applies the updates of
--     the surface by apply_pending_surface_updates of Forward, whose requests are one message.
--   Forward: forward.c. A surface of the background program with its pending and committed
--     state, the subsurfaces, buffers and image descriptions that it refers to, and the requests
--     that it causes, the newest first. An integer is its 32-bit pattern, a pointer to another
--     object a number, a link in a wl_list the number of its surface.
--   Forward.Requests, Forward.Subsurfaces and Forward.Buffers: the requests of the background
--     program.
--   Forward.Roles: which surface is whose parent, in subcompositor_get_subsurface. The loop over
--     the ancestors runs on fuel; the theorem on it gives how much is enough.
--   Forward.Apply, Forward.Content and Forward.Commit: apply_pending_surface_updates in the
--     order of its parts.
--   Forward.Mirror and Forward.Stack: what the compositor makes of the requests by its
--     protocols, as functions of the log; both describe that side only and have no counterpart
--     in the repository.
--   BufferPool: pool-buffer.c. The two buffers are records of which pointers are set; what
--     shm_open and ftruncate answer is an argument.
--   SleepWatcher: sleep-watcher.c. The userdata of the signal handler may be NULL, and is where
--     run adds the match. What it closes and waits for is a log of `Act`; the answers of D-Bus
--     and of poll are a script.
--   Witnesses: the theorems at concrete inputs.
--
-- Numbers. The nanoseconds and seconds of ms_since are those of a clock that does not go back. A
-- size_t is a number taken modulo 2^64 where the source adds or subtracts, a uint32_t modulo
-- 2^32; tv_sec is unbounded, and the milliseconds of a timer and the nanoseconds of an expiry
-- are signed. Descriptors are 32-bit patterns. Loops are structural recursions on the bytes, the
-- list or the script they consume, so no fuel is chosen but for the ancestors of a subsurface;
-- the loops of the checkers consume a script with one entry for each request, and wait where it
-- ends.
--
-- Not modelled: drawing (render.c, cairo.c, background-image.c), logging, option parsing and the
-- Wayland objects of main.c, the forwarding of globals (forward-client.c) and the rest of
-- forward.c: the creation and destruction of its objects, shared memory pools, dmabuf, DRM, and
-- the parameters of image descriptions. In Session an output's frames are events; the serials
-- and sizes that decide whether a frame is shown, and the background program's copies of a
-- configure, are in Configure, and are not tied to it. Also not modelled are the arguments and
-- the environment that spawn_command gives its child, the other listeners of outputs, PAM and
-- crypt themselves (other programs' code), and the descriptor dispatch of loop_poll, and
-- loop_destroy.
pub mod Base
pub mod BufferPool
pub mod Checker
pub mod Clients
pub mod Comm
pub mod Configure
pub mod EventLoop
pub mod Forward
pub mod Lock
pub mod Password
pub mod Session
pub mod SleepWatcher
pub mod Unicode
pub mod Witnesses
