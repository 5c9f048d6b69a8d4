-- ===== src/Witnesses/Buffers.antt =====
-- A pool whose second buffer is held by the compositor.
use swaylock_plugin.Base.{true, false}
use swaylock_plugin.BufferPool.{PoolBuffer, ShmAnswers, get_next_buffer}
use swaylock_plugin.BufferPool.Chosen.{Chosen, get_next_buffer-Chosen}

abbrev old : PoolBuffer
old = record { buffer = true; width = 100; height = 100; size = 40000; mapped = true; busy = false }

abbrev held : PoolBuffer
held = record old { busy = true }

abbrev shm : ShmAnswers
shm = record { opened = true; truncated = true }

get_next_buffer-Chosen_example :
    Chosen shm old held 200 100 (get_next_buffer shm (old, held) 200 100)
get_next_buffer-Chosen_example = get_next_buffer-Chosen shm old held 200 100
