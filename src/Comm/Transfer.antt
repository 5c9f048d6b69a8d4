-- ===== src/Comm/Transfer.antt =====
-- A password goes through the pipe to the process that checks it, and nowhere else.
use swaylock_plugin.Base.{
  ℕ, ◌+◌, ◌-◌, ◌<◌, ◌≤◌, ◌≡◌, ◌^◌, refl, ap, ◌∙◌, List, [], ◌∷◌, ◌++◌, arith, Bool, true, false,
  if◌then◌else◌, ◌==◌, length, take, drop, get_elem?, All, append_assoc, length-append, take-append,
  drop-append, get_elem?-append, some, returns, replicate, size_t, ◌>>=◌,
}
use swaylock_plugin.Password.{SwaylockPassword, clear_password_buffer}
use swaylock_plugin.Password.Text.{Holds, bytes, length-buffer, clear_password_buffer-Holds}
use swaylock_plugin.Comm.{
  Writer, Reader, request, read_full, write_comm_request, read_comm_request, read_body,
  finish_request, size_bytes, ReadAnswer, closed, write_comm_reply, size_value, bytes_read,
}
use swaylock_plugin.Comm.Bytes.{length-size_bytes, size_value-size_bytes}
use swaylock_plugin.Comm.Pipe.{
  WriteGoes, ReadGoes, write_calls, read_calls, write_full_completes, read_full_completes,
  read_full-closed, Written,
}

-- The C string of the characters `cs`.
abbrev pub c_string : List ℕ → List ℕ
c_string cs = bytes cs ++ 0 ∷ []

one_more : (cs : List ℕ) → length (c_string cs) ≡ length (bytes cs) + 1
one_more cs = length-append (bytes cs) (0 ∷ [])

c_string-last : (cs : List ℕ) → get_elem? (c_string cs) (length (c_string cs) - 1) ≡ some 0
c_string-last cs =
    let e : length (c_string cs) - 1 ≡ length (bytes cs) + 0 = omega (arith, one_more cs) in
    rw e (get_elem?-append (bytes cs) (0 ∷ []) 0 _ refl)

-- A request as it lies in the pipe.
pub message : List ℕ → List ℕ
message cs = size_bytes 8 (length (c_string cs)) ++ c_string cs

module _ (pw : SwaylockPassword) (cs : List ℕ) (h : Holds pw cs) where
  c_string-take : take (size_t (pw.len + 1)) pw.buffer ≡ c_string cs
  c_string-take =
      let n : length (c_string cs) ≡ size_t (pw.len + 1) =
        omega
          (arith, length-append (bytes cs) (0 ∷ []), h.counted, h.small, length-buffer pw cs h) in
      rw (h.layout, ← append_assoc (bytes cs) (0 ∷ []) h.rest)
        (take-append (c_string cs) h.rest _ n)

  length-c_string : size_t (pw.len + 1) ≡ length (c_string cs)
  length-c_string =
      omega (arith, length-append (bytes cs) (0 ∷ []), h.counted, h.small, length-buffer pw cs h)

  -- For a buffer that holds the characters cs, and writes that each take at least one byte or
  -- are interrupted, with at least eight more of them than the bytes of the C string,
  -- write_comm_request returns true, has appended exactly the size and the C string to the
  -- pipe, and leaves the password cleared, every byte of its buffer zero.
  pub write_comm_request_sends :
      (w : Writer)
      → All WriteGoes w.script
      → length (c_string cs) + 8 ≤ write_calls w.script
      → (w' : Writer) × (write_comm_request w pw ≡ returns (w', clear_password_buffer pw, true))
        × (w'.pipe ≡ w.pipe ++ message cs)
        × ((clear_password_buffer pw).buffer ≡ replicate pw.buffer_len 0)
  unfolding write_comm_request message
  write_comm_request_sends w goes calls =
      let size = size_t (pw.len + 1) in
      let (s₁, run₁, goes₁, calls₁) =
        write_full_completes w (size_bytes 8 size) goes (omega (arith, length-size_bytes 8 size)) in
      let w₁ : Writer = record { script = s₁; pipe = w.pipe ++ size_bytes 8 size } in
      let (s₂, run₂, goes₂, calls₂) =
        write_full_completes w₁ (take size pw.buffer) goes₁
          (omega (arith, calls₁, length-size_bytes 8 size, ap length c_string-take)) in
      (
        record { script = s₂; pipe = (w.pipe ++ size_bytes 8 size) ++ take size pw.buffer },
        rw (run₁, run₂),
        rw (c_string-take, length-c_string) (append_assoc w.pipe _ (c_string cs)),
        (clear_password_buffer-Holds pw cs h).0,
      )

read_body_size :
    (r : Reader) (bs : List ℕ) (n : ℕ)
    → size_value bs ≡ n
    → (n == 0) ≡ false
    → read_body true (r, bytes_read bs) ≡ (read_full r n >>= finish_request n)
unfolding read_body
read_body_size r bs n value pos = rw (value, read_body, pos)

finish_request_last :
    (r : Reader) (buf : List ℕ) (n : ℕ)
    → get_elem? buf (n - 1) ≡ some 0
    → finish_request n (r, bytes_read buf) ≡ returns (r, request buf)
unfolding finish_request
finish_request_last r buf n last = rw (last, finish_request)

-- The same with what is left of the reader: its script goes on, with few calls used.
pub read_comm_request_reads :
    (r : Reader) (cs rest : List ℕ)
    → r.pipe ≡ message cs ++ rest
    → length (c_string cs) < 2 ^ 63
    → All ReadGoes r.script
    → length (c_string cs) + 8 ≤ read_calls r.script
    → (r' : Reader) × (read_comm_request r true ≡ returns (r', request (c_string cs)))
      × (r'.pipe ≡ rest)
      × (r'.closed ≡ r.closed)
      × All ReadGoes r'.script
      × (read_calls r.script ≤ read_calls r'.script + (length (c_string cs) + 8))
unfolding read_comm_request message
read_comm_request_reads r cs rest e small goes calls =
    let n = length (c_string cs) in
    let head = size_bytes 8 n in
    let eight = length-size_bytes 8 n in
    let whole : r.pipe ≡ head ++ (c_string cs ++ rest) = e ∙ append_assoc head (c_string cs) rest in
    let room : length r.pipe ≡ 8 + (n + length rest) = omega (
      arith,
      ap length whole,
      length-append head (c_string cs ++ rest),
      length-append (c_string cs) rest,
      eight,
    ) in
    let (s₁, run₁, goes₁, calls₁) = read_full_completes r 8 goes (omega arith) (omega arith) in
    let got₁ : take 8 r.pipe ≡ head = rw whole (take-append head _ 8 eight) in
    let left₁ : drop 8 r.pipe ≡ c_string cs ++ rest = rw whole (drop-append head _ 8 eight) in
    let r₁ : Reader = record { script = s₁; pipe = drop 8 r.pipe; closed = r.closed } in
    let (s₂, run₂, goes₂, calls₂) =
      read_full_completes r₁ n goes₁ (omega (arith, calls₁))
        (omega (arith, ap length left₁, length-append (c_string cs) rest)) in
    let got₂ : take n (drop 8 r.pipe) ≡ c_string cs =
      rw left₁ (take-append (c_string cs) rest n refl) in
    let left₂ : drop n (drop 8 r.pipe) ≡ rest = rw left₁ (drop-append (c_string cs) rest n refl) in
    let value : size_value head ≡ n = size_value-size_bytes 8 n (omega arith) in
    let r₂ : Reader = record { script = s₂; pipe = drop n (drop 8 r.pipe); closed = r.closed } in
    let some_bytes : (n == 0) ≡ false = ground (arith, one_more cs) in
    let last : get_elem? (c_string cs) (n - 1) ≡ some 0 = c_string-last cs in
    (
      r₂,
      ap (λ o. o >>= read_body true) run₁
          ∙ read_body_size r₁ (take 8 r.pipe) n (ap size_value got₁ ∙ value) some_bytes
          ∙ ap (λ o. o >>= finish_request n) run₂
          ∙ ap (λ buf. finish_request n (r₂, bytes_read buf)) got₂
          ∙ finish_request_last r₂ (c_string cs) n last,
      left₂,
      refl,
      goes₂,
      omega (arith, calls₁, calls₂),
    )

-- From a pipe that starts with the message of cs, of fewer than 2^63 bytes, with reads that give
-- bytes or are interrupted, at least eight more of them than the bytes of the C string, and a
-- buffer that can be created, read_comm_request returns exactly the C string of cs and leaves
-- the rest of the pipe.
pub read_comm_request_receives :
    (r : Reader) (cs rest : List ℕ)
    → r.pipe ≡ message cs ++ rest
    → length (c_string cs) < 2 ^ 63
    → All ReadGoes r.script
    → length (c_string cs) + 8 ≤ read_calls r.script
    → (r' : Reader) × (read_comm_request r true ≡ returns (r', request (c_string cs)))
      × (r'.pipe ≡ rest)
read_comm_request_receives r cs rest e small goes calls =
    let (r', run, left, _, _, _) = read_comm_request_reads r cs rest e small goes calls in
    (r', run, left)

-- At the end of a closed pipe there is no request.
pub read_comm_request-closed :
    (script : List ReadAnswer) (created : Bool)
    → All ReadGoes script
    → 0 < read_calls script
    → (r : Reader) × (read_comm_request
          (record { script = script; pipe = []; closed = true })
          created
        ≡ returns (r, closed))
unfolding read_comm_request read_body
read_comm_request-closed script created goes some_call =
    let (rest, run) = read_full-closed script 8 (omega arith) goes some_call in
    (record { script = rest; pipe = []; closed = true }, ap (λ o. o >>= read_body created) run)

-- A reply is one byte.
pub write_comm_reply_sends :
    (w : Writer) (success : Bool)
    → All WriteGoes w.script
    → 0 < write_calls w.script
    → Written w.script w.pipe ((if success then 1 else 0) ∷ []) (write_comm_reply w success)
unfolding write_comm_reply
write_comm_reply_sends w success goes some_call =
    write_full_completes w ((if success then 1 else 0) ∷ []) goes (omega arith)
