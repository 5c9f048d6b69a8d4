-- ===== src/Comm/Pipe.antt =====
-- `read_full` and `write_full` under short, interrupted and failing calls.
use swaylock_plugin.Base.{
  ℕ, zero, suc, ◌+◌, ◌-◌, ◌<◌, ◌≤◌, ◌≡◌, refl, sym, ap, ◌∙◌, subst, Bool, true, false, List, [],
  ◌∷◌, ◌++◌, arith, ◌==◌, length, take, drop, min, All, append_assoc, append-nil, length-drop,
  length-take, take-append-drop, take-add, drop-add, Outcome, returns,
}
use swaylock_plugin.Comm.{
  WriteAnswer, wrote, write_eintr, write_error, ReadAnswer, got, read_eintr, read_error, Writer,
  Reader, write_loop, write_full, read_loop, read_full, ReadResult, bytes_read, eof,
}

-- A call that makes progress or is interrupted.
abbrev pub WriteGoes : WriteAnswer → Type 0
WriteGoes (wrote n) = 0 < n
WriteGoes write_eintr = Unit
WriteGoes write_error = ⊥

abbrev pub ReadGoes : ReadAnswer → Type 0
ReadGoes (got n) = Unit
ReadGoes read_eintr = Unit
ReadGoes read_error = ⊥

-- How many calls of the script are answered with bytes.
abbrev pub write_calls : List WriteAnswer → ℕ
write_calls [] = 0
write_calls (wrote n ∷ s) = suc (write_calls s)
write_calls (write_eintr ∷ s) = write_calls s
write_calls (write_error ∷ s) = write_calls s

abbrev pub read_calls : List ReadAnswer → ℕ
read_calls [] = 0
read_calls (got n ∷ s) = suc (read_calls s)
read_calls (read_eintr ∷ s) = read_calls s
read_calls (read_error ∷ s) = read_calls s

-- All of `src` is written, and each call that it cost is paid by a byte of it.
abbrev pub Written : List WriteAnswer → List ℕ → List ℕ → Outcome (Writer × Bool) → Type 0
Written script pipe src r =
    (rest : List WriteAnswer) × (r ≡ returns (record { script = rest; pipe = pipe ++ src }, true))
    × All WriteGoes rest
    × (write_calls script ≤ write_calls rest + length src)

Written-wrote :
    (n : ℕ) (script : List WriteAnswer) (pipe : List ℕ) (b : ℕ) (bs : List ℕ)
    → Written script
        (pipe ++ b ∷ take n bs)
        (drop n bs)
        (write_loop script (pipe ++ b ∷ take n bs) (drop n bs))
    → Written
        (wrote (suc n) ∷ script)
        pipe
        (b ∷ bs)
        (write_loop (wrote (suc n) ∷ script) pipe (b ∷ bs))
unfolding write_loop
Written-wrote n script pipe b bs (rest, run, goes, calls) =
    let pos : (suc n == 0) ≡ false = ground arith in
    let whole : (pipe ++ b ∷ take n bs) ++ drop n bs ≡ pipe ++ b ∷ bs =
      append_assoc pipe (b ∷ take n bs) (drop n bs)
      ∙ ap (λ l. pipe ++ b ∷ l) (take-append-drop n bs) in
    (rest, rw (pos, run, whole), goes, omega (arith, calls, length-drop n bs))

write_loop-Written :
    (script : List WriteAnswer) (pipe src : List ℕ)
    → All WriteGoes script
    → length src ≤ write_calls script
    → Written script pipe src (write_loop script pipe src)
unfolding write_loop
write_loop-Written script pipe [] g h = (script, rw append-nil, g, omega arith)
write_loop-Written [] pipe (b ∷ bs) g h = absurd (omega arith)
write_loop-Written (wrote zero ∷ script) pipe (b ∷ bs) g h = absurd (omega (arith, g.0))
write_loop-Written (wrote (suc n) ∷ script) pipe (b ∷ bs) g h = Written-wrote n script pipe b bs (
    write_loop-Written script (pipe ++ b ∷ take n bs) (drop n bs) g.1
      (omega (arith, length-drop n bs)))
write_loop-Written (write_eintr ∷ script) pipe (b ∷ bs) g h =
    write_loop-Written script pipe (b ∷ bs) g.1 h
write_loop-Written (write_error ∷ script) pipe (b ∷ bs) g h = absurd g.0

-- The first `left` bytes of the pipe are read.
abbrev pub WasRead :
    List ReadAnswer → List ℕ → Bool → List ℕ → ℕ → Outcome (Reader × ReadResult) → Type 0
WasRead script pipe closed buf left r =
    (rest : List ReadAnswer) × (r
      ≡ returns (
        record { script = rest; pipe = drop left pipe; closed = closed },
        bytes_read (buf ++ take left pipe),
      ))
    × All ReadGoes rest
    × (read_calls script ≤ read_calls rest + left)

read_step :
    (n : ℕ) (script : List ReadAnswer) (c : ℕ) (pipe : List ℕ) (closed : Bool) (buf : List ℕ)
    (left k : ℕ)
    → min (n + 1) (suc left) ≡ k
    → suc left ≤ suc (length pipe)
    → read_loop (got n ∷ script) (c ∷ pipe) closed buf (suc left)
      ≡ read_loop script (drop k (c ∷ pipe)) closed (buf ++ take k (c ∷ pipe)) (suc left - k)
unfolding read_loop
read_step n script c pipe closed buf left k hk fits =
    let K = min (n + 1) (suc left) in
    let full : length (take K (c ∷ pipe)) ≡ K = length-take K (c ∷ pipe) ∙ omega arith in
    subst
      (λ j.
        read_loop script (drop K (c ∷ pipe)) closed (buf ++ take K (c ∷ pipe))
          (suc left - length (take K (c ∷ pipe)))
        ≡ read_loop script (drop j (c ∷ pipe)) closed (buf ++ take j (c ∷ pipe)) (suc left - j))
      hk
      (ap
        (λ m. read_loop script (drop K (c ∷ pipe)) closed (buf ++ take K (c ∷ pipe)) (suc left - m))
        full)

WasRead-got :
    (n : ℕ) (script : List ReadAnswer) (c : ℕ) (pipe : List ℕ) (closed : Bool) (buf : List ℕ)
    (left k more : ℕ)
    → min (n + 1) (suc left) ≡ k
    → k + more ≡ suc left
    → suc left ≤ suc (length pipe)
    → WasRead script
        (drop k (c ∷ pipe))
        closed
        (buf ++ take k (c ∷ pipe))
        more
        (read_loop script (drop k (c ∷ pipe)) closed (buf ++ take k (c ∷ pipe)) more)
    → WasRead
        (got n ∷ script)
        (c ∷ pipe)
        closed
        buf
        (suc left)
        (read_loop (got n ∷ script) (c ∷ pipe) closed buf (suc left))
WasRead-got n script c pipe closed buf left k more hk sum fits (rest, run, goes, calls) =
    let rem : suc left - k ≡ more = omega arith in
    let gone : drop (suc left) (c ∷ pipe) ≡ drop more (drop k (c ∷ pipe)) =
      drop-add k more (suc left) (c ∷ pipe) sum in
    let read : buf ++ take (suc left) (c ∷ pipe)
        ≡ (buf ++ take k (c ∷ pipe)) ++ take more (drop k (c ∷ pipe)) =
      ap (◌++◌ buf) (take-add k more (suc left) (c ∷ pipe) sum)
      ∙ sym (append_assoc buf (take k (c ∷ pipe)) (take more (drop k (c ∷ pipe)))) in
    (
      rest,
      rw (read_step n script c pipe closed buf left k hk fits, rem, gone, read) run,
      goes,
      omega (arith, calls),
    )

read_loop-WasRead :
    (script : List ReadAnswer) (pipe : List ℕ) (closed : Bool) (buf : List ℕ) (left : ℕ)
    → All ReadGoes script
    → left ≤ read_calls script
    → left ≤ length pipe
    → WasRead script pipe closed buf left (read_loop script pipe closed buf left)
unfolding read_loop
read_loop-WasRead script pipe closed buf zero g h p = (script, rw append-nil, g, omega arith)
read_loop-WasRead [] pipe closed buf (suc left) g h p = absurd (omega arith)
read_loop-WasRead (read_eintr ∷ script) pipe closed buf (suc left) g h p =
    read_loop-WasRead script pipe closed buf (suc left) g.1 h p
read_loop-WasRead (read_error ∷ script) pipe closed buf (suc left) g h p = absurd g.0
read_loop-WasRead (got n ∷ script) [] closed buf (suc left) g h p = absurd (omega arith)
read_loop-WasRead (got n ∷ script) (c ∷ pipe) closed buf (suc left) g h p =
    let k = min (n + 1) (suc left) in
    let more = suc left - k in
    WasRead-got n script c pipe closed buf left k more refl (omega arith) p (
      read_loop-WasRead script (drop k (c ∷ pipe)) closed (buf ++ take k (c ∷ pipe)) more g.1
        (omega arith) (omega (arith, length-drop k (c ∷ pipe))))

-- Over a script of writes that each take at least one byte or are interrupted, with no fewer
-- writes than bytes, write_full returns true, has appended exactly the bytes, and used no more
-- calls that took bytes than there are bytes.
pub write_full_completes :
    (w : Writer) (src : List ℕ)
    → All WriteGoes w.script
    → length src ≤ write_calls w.script
    → Written w.script w.pipe src (write_full w src)
unfolding write_full
write_full_completes w src g h = write_loop-Written w.script w.pipe src g h

-- Over a script of reads that give bytes or are interrupted, with no fewer reads than bytes
-- wanted, read_full returns exactly the first bytes of a pipe that has as many, leaves the rest,
-- and used no more calls that gave bytes than bytes wanted.
pub read_full_completes :
    (r : Reader) (size : ℕ)
    → All ReadGoes r.script
    → size ≤ read_calls r.script
    → size ≤ length r.pipe
    → WasRead r.script r.pipe r.closed [] size (read_full r size)
unfolding read_full
read_full_completes r size g h p = read_loop-WasRead r.script r.pipe r.closed [] size g h p

-- At a pipe that is empty and closed `read_full` reads the end.
read_loop-closed :
    (script : List ReadAnswer) (left : ℕ)
    → All ReadGoes script
    → 0 < read_calls script
    → (rest : List ReadAnswer) × (read_loop script [] true [] (suc left)
        ≡ returns (record { script = rest; pipe = []; closed = true }, eof))
unfolding read_loop
read_loop-closed [] left goes some_call = absurd (omega arith)
read_loop-closed (got n ∷ script) left goes some_call = (script, refl)
read_loop-closed (read_eintr ∷ script) left (_, goes) some_call =
    read_loop-closed script left goes some_call
read_loop-closed (read_error ∷ script) left (bad, goes) some_call = absurd bad

pub read_full-closed :
    (script : List ReadAnswer) (size : ℕ)
    → 0 < size
    → All ReadGoes script
    → 0 < read_calls script
    → (rest : List ReadAnswer) × (read_full
          (record { script = script; pipe = []; closed = true })
          size
        ≡ returns (record { script = rest; pipe = []; closed = true }, eof))
unfolding read_full
read_full-closed script zero pos goes some_call = absurd (omega arith)
read_full-closed script (suc left) pos goes some_call = read_loop-closed script left goes some_call
