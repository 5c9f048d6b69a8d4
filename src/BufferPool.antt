-- ===== src/BufferPool.antt =====
-- pool-buffer.c: the choice of one of the two buffers that the indicator is drawn into, and when it
-- is made anew. What shm_open(3) and ftruncate(2) answer comes from outside.
pub mod Chosen
use swaylock_plugin.Base.{
  ℕ, zero, suc, ◌*◌, ◌%◌, ◌^◌, Bool, true, false, not, ◌&&◌, ◌||◌, Option, none, some, ◌==◌,
  if◌then◌else◌, u32,
}

-- `struct pool_buffer`; `buffer` and `mapped` (for `data`) are whether the pointers are set.
pub record PoolBuffer : Type 0 where
  pub buffer : Bool
  pub width : ℕ
  pub height : ℕ
  pub size : ℕ
  pub mapped : Bool
  pub busy : Bool

pub record ShmAnswers : Type 0 where
  pub opened : Bool
  pub truncated : Bool

unfoldable pub buffer_release : PoolBuffer → PoolBuffer
buffer_release b = record b { busy = false }

pub destroy_buffer : PoolBuffer → PoolBuffer
destroy_buffer b = record {
  buffer = false;
  width = 0;
  height = 0;
  size = 0;
  mapped = false;
  busy = false;
}

-- The stride and the size are products of 32-bit numbers. No memory is mapped for an empty size.
-- The second result is whether the buffer could be created.
pub create_buffer : ShmAnswers → PoolBuffer → ℕ → ℕ → PoolBuffer × Bool
create_buffer shm b width height =
    let size = u32 (u32 (width * 4) * height) in
    if size == 0
    then (record b { size = size; width = width; height = height; mapped = false }, true)
    else if shm.opened && shm.truncated
    then (
      record b { buffer = true; size = size; width = width; height = height; mapped = true },
      true,
    )
    else (b, false)

-- `get_next_buffer` on the buffer it chose: its size, its creation, and `busy`.
pub resize_buffer : PoolBuffer → ℕ → ℕ → PoolBuffer
unfolding destroy_buffer
resize_buffer b width height =
    if not (b.width == width) || not (b.height == height) then destroy_buffer b else b

pub ensure_buffer : ShmAnswers → PoolBuffer → ℕ → ℕ → PoolBuffer × Bool
unfolding create_buffer
ensure_buffer shm b width height = if b.buffer then (b, true) else create_buffer shm b width height

pub mark_busy : PoolBuffer × Bool → PoolBuffer × Bool
mark_busy (b, true) = (record b { busy = true }, true)
mark_busy (b, false) = (b, false)

pub prepare_buffer : ShmAnswers → PoolBuffer → ℕ → ℕ → PoolBuffer × Bool
unfolding resize_buffer ensure_buffer mark_busy
prepare_buffer shm b width height =
    mark_busy (ensure_buffer shm (resize_buffer b width height) width height)

-- The two buffers, and which of them is returned: the loop takes the last that is not busy.
pub get_next_buffer :
    ShmAnswers → PoolBuffer × PoolBuffer → ℕ → ℕ → (PoolBuffer × PoolBuffer) × Option Bool
unfolding prepare_buffer
get_next_buffer shm (a, b) width height =
    if not b.busy
    then (let (b', ok) = prepare_buffer shm b width height in
        ((a, b'), if ok then some true else none))
    else if not a.busy
    then (let (a', ok) = prepare_buffer shm a width height in
        ((a', b), if ok then some false else none))
    else ((a, b), none)
