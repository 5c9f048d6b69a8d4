-- ===== src/Checker/Pam/Replies.antt =====
-- The whole life of the process that checks passwords, over a queue of requests.
use swaylock_plugin.Base.{
  ℕ, ◌+◌, ◌<◌, ◌≤◌, ◌≡◌, ◌^◌, inl, inr, refl, sym, ap, ◌∙◌, subst, Bool, true, false, not, List, [],
  ◌∷◌, ◌++◌, some, ◌==◌, if◌then◌else◌, Bool-cases, arith, All, All-append, append_assoc,
  append-nil, length-replicate, replicate, length, Outcome, returns, ◌>>=◌,
}
use swaylock_plugin.Comm.{Reader, Writer, request, read_comm_request, write_comm_reply}
use swaylock_plugin.Comm.Pipe.{WriteGoes, ReadGoes, write_calls, read_calls}
use swaylock_plugin.Comm.Transfer.{
  c_string, message, read_comm_request_reads, read_comm_request-closed, write_comm_reply_sends,
}
use swaylock_plugin.Checker.Memory.{password_buffer_destroy_zero, password_buffer_destroy}
use swaylock_plugin.Checker.Pam.{
  Dialog, Turn, Child, pam_authenticate, pam_round, pam_loop, reply_written,
}

-- Whether PAM accepts the password of the characters `cs`.
abbrev pub accepts : Dialog → List ℕ → Bool
accepts dialog cs = (pam_authenticate dialog (some (c_string cs))).0 == 0

-- The replies that the queue `css` ought to get: one byte each, up to the first success.
abbrev pub replies_to : List (List ℕ) → List Turn → List ℕ
replies_to [] turns = []
replies_to (cs ∷ css) [] = []
replies_to (cs ∷ css) (turn ∷ turns) =
    let more = replies_to css turns in if accepts turn.dialog cs then 1 ∷ [] else 0 ∷ more

abbrev pub messages : List (List ℕ) → List ℕ
messages [] = []
messages (cs ∷ css) = message cs ++ messages css

abbrev pub cost : List (List ℕ) → ℕ
cost [] = 1
cost (cs ∷ css) = length (c_string cs) + 8 + cost css

abbrev pub IsSmall : List ℕ → Type 0
IsSmall cs = length (c_string cs) < 2 ^ 63

abbrev pub IsCreated : Turn → Type 0
IsCreated turn = turn.created ≡ true

abbrev pub IsBlank : List ℕ → Type 0
IsBlank bs = bs ≡ replicate (length bs) 0

-- The requests are in the pipe, whose other end is closed; reads and writes go on, and there are
-- enough of them.
pub record Ready (child : Child) (css : List (List ℕ)) : Type 0 where
  pub queue : child.reader.pipe ≡ messages css
  pub hung_up : child.reader.closed ≡ true
  pub small : All IsSmall css
  pub reads : All ReadGoes child.reader.script
  pub enough_reads : cost css ≤ read_calls child.reader.script
  pub writes : All WriteGoes child.writer.script
  pub enough_writes : length css ≤ write_calls child.writer.script
  pub blank : All IsBlank child.freed

-- What the loop leaves: the replies are written, and every freed buffer is blank.
abbrev pub Answered : Child → List ℕ → Outcome Child → Type 0
Answered child replies o =
    (child' : Child) × (o ≡ returns child')
    × (child'.writer.pipe ≡ child.writer.pipe ++ replies)
    × All IsBlank child'.freed

pub destroyed-IsBlank : (buf : List ℕ) → IsBlank (password_buffer_destroy buf (length buf))
destroyed-IsBlank buf =
    password_buffer_destroy_zero buf
    ∙ ap (λ n. replicate n 0)
        (sym (ap length (password_buffer_destroy_zero buf) ∙ length-replicate (length buf) 0))

-- A round on a request whose reply can be written.
round_request :
    (dialog : Dialog) (child : Child) (r : Reader) (buf : List ℕ) (w : Writer) (success : Bool)
    → ((pam_authenticate dialog (some buf)).0 == 0) ≡ success
    → write_comm_reply child.writer success ≡ returns (w, true)
    → pam_round dialog child (r, request buf)
      ≡ returns (
        record child {
          reader = r;
          writer = w;
          freed = child.freed ++ password_buffer_destroy buf (length buf) ∷ [];
        },
        not success,
      )
unfolding pam_round reply_written
round_request dialog child r buf w success e run =
    let child' : Child = record child {
      reader = r;
      freed = child.freed ++ password_buffer_destroy buf (length buf) ∷ [];
    } in
    ap (λ b. write_comm_reply child.writer b >>= reply_written child' b) e
    ∙ ap (λ o. o >>= reply_written child' success) run

-- A round on the head of the queue: one reply, a blank buffer, and the rest of the queue.
queue_round :
    (child : Child) (cs : List ℕ) (css : List (List ℕ)) (turn : Turn) (success : Bool)
    → Ready child (cs ∷ css)
    → IsCreated turn
    → accepts turn.dialog cs ≡ success
    → (child' : Child) × ((read_comm_request child.reader turn.created
          >>= pam_round turn.dialog child)
        ≡ returns (child', not success))
      × Ready child' css
      × (child'.writer.pipe ≡ child.writer.pipe ++ (if success then 1 else 0) ∷ [])
queue_round child cs css turn success h made e =
    let (small, smalls) = h.small in
    let (r, read, left, shut, goes, calls) =
      read_comm_request_reads child.reader cs (messages css) h.queue small h.reads
        (omega (arith, h.enough_reads)) in
    let (script, write, goes', calls') =
      write_comm_reply_sends child.writer success h.writes (omega (arith, h.enough_writes)) in
    let w : Writer = record {
      script = script;
      pipe = child.writer.pipe ++ (if success then 1 else 0) ∷ [];
    } in
    let buf = c_string cs in
    (
      record child {
        reader = r;
        writer = w;
        freed = child.freed ++ password_buffer_destroy buf (length buf) ∷ [];
      },
      ap (λ o. o >>= pam_round turn.dialog child) (ap (read_comm_request child.reader) made ∙ read)
          ∙ round_request turn.dialog child r buf w success e write,
      record {
        queue = left;
        hung_up = shut ∙ h.hung_up;
        small = smalls;
        reads = goes;
        enough_reads = omega (arith, h.enough_reads, calls);
        writes = goes';
        enough_writes = omega (arith, h.enough_writes, calls');
        blank = All-append IsBlank child.freed _ h.blank (destroyed-IsBlank buf, tt);
      },
      refl,
    )

-- At the end of the queue the loop is left.
closed_round :
    (child : Child) (turn : Turn)
    → Ready child []
    → (child' : Child) × ((read_comm_request child.reader turn.created
          >>= pam_round turn.dialog child)
        ≡ returns (child', false))
      × (child'.writer ≡ child.writer)
      × (child'.freed ≡ child.freed)
unfolding pam_round
closed_round child turn h =
    let (r, run) =
      read_comm_request-closed child.reader.script turn.created h.reads
        (omega (arith, h.enough_reads)) in
    let start : child.reader ≡ record { script = child.reader.script; pipe = []; closed = true } =
      ap (λ p. record child.reader { pipe = p }) h.queue
      ∙ ap (λ c. record child.reader { pipe = []; closed = c }) h.hung_up in
    (
      record child { reader = r },
      ap (λ o. o >>= pam_round turn.dialog child)
          (ap (λ x. read_comm_request x turn.created) start ∙ run),
      refl,
      refl,
    )

-- For a queue of requests in the pipe, each shorter than 2^63 bytes, whose other end is closed,
-- with reads and writes that go on and are enough, buffers that can be created, and more turns
-- than requests, the loop of the PAM process ends and has written one byte for each request, 0
-- for a password that PAM refused and 1 for the first that it accepted, and nothing for the
-- requests behind that one; every buffer that it freed holds only zeros, if those freed before
-- did.
pub pam_loop-Answered :
    (child : Child) (css : List (List ℕ)) (turns : List Turn)
    → Ready child css
    → All IsCreated turns
    → length css < length turns
    → Answered child (replies_to css turns) (pam_loop turns child)
unfolding pam_loop
pam_loop-Answered child [] [] h created more = absurd (omega arith)
pam_loop-Answered child [] (turn ∷ turns) h created more =
    let (child', run, same, freed) = closed_round child turn h in
    (
      child',
      ap (λ o. o >>= λ (c, go_on). if go_on then pam_loop turns c else returns c) run,
      ap (λ w. w.pipe) same ∙ sym (append-nil child.writer.pipe),
      subst (All IsBlank) (sym freed) h.blank,
    )
pam_loop-Answered child (cs ∷ css) [] h created more = absurd (omega arith)
pam_loop-Answered child (cs ∷ css) (turn ∷ turns) h (made, created) more =
    elim (Bool-cases (accepts turn.dialog cs)) [
      | inl ok ↦
          let (child', run, ready, pipe) = queue_round child cs css turn true h made ok in
          (
            child',
            ap (λ o. o >>= λ (c, go_on). if go_on then pam_loop turns c else returns c) run,
            rw ok pipe,
            ready.blank,
          )
      | inr bad ↦
          let (child', run, ready, pipe) = queue_round child cs css turn false h made bad in
          let (last, run', pipe', blank) =
            pam_loop-Answered child' css turns ready created (omega (arith, more)) in
          (
            last,
            ap (λ o. o >>= λ (c, go_on). if go_on then pam_loop turns c else returns c) run ∙ run',
            rw bad (
                pipe'
                ∙ ap (λ p. p ++ replies_to css turns) pipe
                ∙ append_assoc child.writer.pipe (0 ∷ []) (replies_to css turns)),
            blank,
          )
    ]
