-- ===== src/Comm.antt =====
-- comm.c: the two pipes between the lock screen and the process that checks passwords. A pipe is
-- the bytes in it; what each read(2) or write(2) call answers is a script from outside.
pub mod Bytes
pub mod Pipe
pub mod Transfer
use swaylock_plugin.Base.{
  ℕ, zero, suc, ◌+◌, ◌-◌, ◌*◌, ◌/◌, ◌%◌, ◌^◌, Bool, true, false, List, [], ◌∷◌, ◌++◌, Option, none,
  some, ◌==◌, if◌then◌else◌, length, take, drop, get_elem?, min, size_t, Outcome, returns, exits,
  aborts, blocks, faults, ◌>>=◌,
}
use swaylock_plugin.Password.{SwaylockPassword, clear_password_buffer}

-- A write(2) takes `n` bytes, or is interrupted, or fails.
pub data WriteAnswer : Type 0 where
  wrote : ℕ → WriteAnswer
  write_eintr write_error : WriteAnswer

-- A read(2) gives at most `n + 1` bytes, or is interrupted, or fails. At an empty pipe it waits
-- while the other end is open and answers 0 when it is closed.
pub data ReadAnswer : Type 0 where
  got : ℕ → ReadAnswer
  read_eintr read_error : ReadAnswer

-- The script that is left, and the pipe.
pub record Writer : Type 0 where
  pub script : List WriteAnswer
  pub pipe : List ℕ

pub record Reader : Type 0 where
  pub script : List ReadAnswer
  pub pipe : List ℕ
  pub closed : Bool

-- The loop of `write_full` over the bytes that are left. A script that ends is a call that never
-- answers.
pub write_loop : List WriteAnswer → List ℕ → List ℕ → Outcome (Writer × Bool)
write_loop script pipe [] = returns (record { script = script; pipe = pipe }, true)
write_loop [] pipe (b ∷ bs) = blocks
write_loop (wrote n ∷ script) pipe (b ∷ bs) =
    let rest = write_loop script (pipe ++ take n (b ∷ bs)) (drop n (b ∷ bs)) in
    if n == 0 then aborts else rest
write_loop (write_eintr ∷ script) pipe (b ∷ bs) = write_loop script pipe (b ∷ bs)
write_loop (write_error ∷ script) pipe (b ∷ bs) =
    returns (record { script = script; pipe = pipe }, false)

unfoldable pub write_full : Writer → List ℕ → Outcome (Writer × Bool)
unfolding write_loop
write_full w src = write_loop w.script w.pipe src

-- The value of `read_full`: -1, 0, or the bytes read.
pub data ReadResult : Type 0 where
  failed eof : ReadResult
  bytes_read : List ℕ → ReadResult

-- The loop of `read_full`: `buf` is what has been read, `left` how many bytes are still wanted.
pub read_loop : List ReadAnswer → List ℕ → Bool → List ℕ → ℕ → Outcome (Reader × ReadResult)
read_loop script pipe closed buf zero =
    returns (record { script = script; pipe = pipe; closed = closed }, bytes_read buf)
read_loop [] pipe closed buf (suc left) = blocks
read_loop (read_eintr ∷ script) pipe closed buf (suc left) =
    read_loop script pipe closed buf (suc left)
read_loop (read_error ∷ script) pipe closed buf (suc left) =
    returns (record { script = script; pipe = pipe; closed = closed }, failed)
read_loop (got n ∷ script) [] false buf (suc left) = blocks
read_loop (got n ∷ script) [] true [] (suc left) =
    returns (record { script = script; pipe = []; closed = true }, eof)
read_loop (got n ∷ script) [] true (b ∷ buf) (suc left) =
    returns (record { script = script; pipe = []; closed = true }, failed)
read_loop (got n ∷ script) (c ∷ pipe) closed buf (suc left) =
    let k = min (n + 1) (suc left) in
    let chunk = take k (c ∷ pipe) in
    read_loop script (drop k (c ∷ pipe)) closed (buf ++ chunk) (suc left - length chunk)

-- `offset == 0` is asked of the offset, which is the length of `buf`.
pub read_full : Reader → ℕ → Outcome (Reader × ReadResult)
unfolding read_loop
read_full r size = read_loop r.script r.pipe r.closed [] size

-- A `size_t` in memory: eight bytes, the lowest first.
pub size_bytes : ℕ → ℕ → List ℕ
size_bytes zero n = []
size_bytes (suc k) n = n % 256 ∷ size_bytes k (n / 256)

pub size_value : List ℕ → ℕ
size_value [] = 0
size_value (b ∷ bs) = b + 256 * size_value bs

-- `write_comm_request`: the size with the terminator, then that many bytes of the buffer. The
-- password is cleared on every way out.
unfoldable pub write_comm_request :
    Writer → SwaylockPassword → Outcome (Writer × SwaylockPassword × Bool)
unfolding write_full size_bytes
write_comm_request w pw = do
  let size = size_t (pw.len + 1)
  (w', sized) ← write_full w (size_bytes 8 size)
  if sized
      then (do
        (w'', sent) ← write_full w' (take size pw.buffer)
        returns (w'', clear_password_buffer pw, sent))
      else returns (w', clear_password_buffer pw, false)

-- What `read_comm_request` returns: -1, 0, or the buffer with its size.
pub data Request : Type 0 where
  broken closed : Request
  request : List ℕ → Request

-- After the body: a last byte that is not the terminator fails the assertion.
pub finish_request : ℕ → Reader × ReadResult → Outcome (Reader × Request)
finish_request size (r, failed) = returns (r, broken)
finish_request size (r, eof) = returns (r, broken)
finish_request size (r, bytes_read buf) = elim (get_elem? buf (size - 1)) [
  | none ↦ faults
  | some last ↦ if last == 0 then returns (r, request buf) else aborts
]

-- After the size: a size of 0 fails the assertion. `created` is whether `password_buffer_create`
-- succeeds.
pub read_body : Bool → Reader × ReadResult → Outcome (Reader × Request)
unfolding finish_request
read_body created (r, failed) = returns (r, broken)
read_body created (r, eof) = returns (r, closed)
read_body created (r, bytes_read bs) =
    let size = size_value bs in
    if size == 0
    then aborts
    else if created
    then read_full r size >>= finish_request size
    else returns (r, broken)

pub read_comm_request : Reader → Bool → Outcome (Reader × Request)
unfolding read_full size_value read_body
read_comm_request r created = read_full r 8 >>= read_body created

-- The reply is one byte, a `bool`.
pub write_comm_reply : Writer → Bool → Outcome (Writer × Bool)
unfolding write_full
write_comm_reply w success = write_full w ((if success then 1 else 0) ∷ [])

-- `none` is a reply that could not be read.
unfoldable pub read_comm_reply : Reader → Outcome (Reader × Option Bool)
unfolding read_full
read_comm_reply r = do
  (r', reply) ← read_full r 1
  elim reply [
    | failed ↦ returns (r', none)
    | eof ↦ returns (r', none)
    | bytes_read [] ↦ returns (r', none)
    | bytes_read (b ∷ _) ↦ returns (r', some (if b == 0 then false else true))
  ]
