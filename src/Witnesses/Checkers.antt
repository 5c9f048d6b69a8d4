-- ===== src/Witnesses/Checkers.antt =====
-- Two requests: a refused one and an accepted one.
use swaylock_plugin.Base.{
  ℕ, ◌≡◌, ◌⊎◌, refl, List, [], ◌∷◌, arith, replicate, true, false, Option, some, returns,
}
use swaylock_plugin.Comm.{Reader, Writer, wrote, got}
use swaylock_plugin.Comm.Transfer.{c_string}
use swaylock_plugin.Checker.Memory.{
  eagain, eperm, password_buffer_lock, password_buffer_lock-decided,
}
use swaylock_plugin.Checker.Pam.{
  prompt_echo_off, text_info, Allocator, Dialog, verdict, ask, Turn, Child, text_of,
  pam_authenticate, pam_loop,
}
use swaylock_plugin.Checker.Pam.Handed.{pam_authenticate_once}
use swaylock_plugin.Checker.Pam.Replies.{Answered, replies_to, messages, pam_loop-Answered}
use swaylock_plugin.Checker.Shadow.{Guard, shadow_loop}
use swaylock_plugin.Checker.Shadow.Serve.{
  hashed_none, hashed_one, Served, verdicts, shadow_loop-Served,
}

password_buffer_lock-decided_example :
    (password_buffer_lock (eagain ∷ eagain ∷ eperm ∷ []) true ≡ returns (false, true))
    × (password_buffer_lock (eagain ∷ eagain ∷ eagain ∷ eagain ∷ eagain ∷ []) true
        ≡ returns (true, false))
password_buffer_lock-decided_example =
    password_buffer_lock-decided 2 eperm [] true (omega arith) (λ e. cc)

abbrev plenty : Allocator
plenty = record { calloc = true; strdup = true }

-- It asks twice in one conversation and once more in another.
abbrev greedy : ℕ → Dialog
greedy status =
    ask plenty (prompt_echo_off ∷ text_info ∷ prompt_echo_off ∷ [])
      (λ s r. ask plenty (prompt_echo_off ∷ []) (λ s r. verdict status))

pam_authenticate_once_example :
    ((pam_authenticate (greedy 0) (some (0x61 ∷ 0 ∷ []))).1 ≡ [])
    ⊎ ((pam_authenticate (greedy 0) (some (0x61 ∷ 0 ∷ []))).1 ≡ text_of (0x61 ∷ 0 ∷ []) ∷ [])
pam_authenticate_once_example = pam_authenticate_once (greedy 0) (0x61 ∷ 0 ∷ [])

abbrev queue : List (List ℕ)
queue = (0x61 ∷ []) ∷ (0x62 ∷ []) ∷ []

abbrev writer : Writer
writer = record { script = wrote 1 ∷ wrote 1 ∷ []; pipe = [] }

abbrev reader : Reader
reader = record { script = replicate 24 (got 0); pipe = messages queue; closed = true }

abbrev turns : List Turn
turns =
    record { created = true; dialog = verdict 7 }
    ∷ record { created = true; dialog = verdict 0 }
    ∷ record { created = true; dialog = verdict 0 }
    ∷ []

abbrev child : Child
child = record { reader = reader; writer = writer; freed = [] }

pam_loop-Answered_example : Answered child (replies_to queue turns) (pam_loop turns child)
pam_loop-Answered_example =
    pam_loop-Answered child queue turns
      (record {
        queue = refl;
        hung_up = refl;
        small = (omega arith, (omega arith, tt));
        reads = (
          tt,
          (
            tt,
            (
              tt,
              (
                tt,
                (
                  tt,
                  (
                    tt,
                    (
                      tt,
                      (
                        tt,
                        (
                          tt,
                          (
                            tt,
                            (
                              tt,
                              (
                                tt,
                                (
                                  tt,
                                  (
                                    tt,
                                    (tt, (tt, (tt, (tt, (tt, (tt, (tt, (tt, (tt, (tt, tt)))))))))),
                                  ),
                                ),
                              ),
                            ),
                          ),
                        ),
                      ),
                    ),
                  ),
                ),
              ),
            ),
          ),
        );
        enough_reads = omega arith;
        writes = (omega arith, (omega arith, tt));
        enough_writes = omega arith;
        blank = tt;
      })
      (refl, (refl, (refl, tt))) (omega arith)

-- A hash that is the string itself.
abbrev plain : List ℕ → List ℕ → Option (List ℕ)
plain text salt = some text

abbrev guard : Guard
guard = record { reader = reader; writer = writer; encpw = 0x62 ∷ []; freed = [] }

shadow_loop-Served_example :
    Served guard
      (verdicts plain
        (0x62 ∷ [])
        (text_of (c_string (0x61 ∷ [])) ∷ text_of (c_string (0x62 ∷ [])) ∷ []))
      (shadow_loop plain (true ∷ true ∷ true ∷ []) guard)
shadow_loop-Served_example =
    shadow_loop-Served plain guard queue
      (text_of (c_string (0x61 ∷ [])) ∷ text_of (c_string (0x62 ∷ [])) ∷ [])
      (hashed_one refl (hashed_one refl hashed_none))
      (record {
        queue = refl;
        hung_up = refl;
        small = (omega arith, (omega arith, tt));
        reads = (
          tt,
          (
            tt,
            (
              tt,
              (
                tt,
                (
                  tt,
                  (
                    tt,
                    (
                      tt,
                      (
                        tt,
                        (
                          tt,
                          (
                            tt,
                            (
                              tt,
                              (
                                tt,
                                (
                                  tt,
                                  (
                                    tt,
                                    (tt, (tt, (tt, (tt, (tt, (tt, (tt, (tt, (tt, (tt, tt)))))))))),
                                  ),
                                ),
                              ),
                            ),
                          ),
                        ),
                      ),
                    ),
                  ),
                ),
              ),
            ),
          ),
        );
        enough_reads = omega arith;
        writes = (omega arith, (omega arith, tt));
        enough_writes = omega arith;
        blank = tt;
      })
