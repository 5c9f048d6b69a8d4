-- ===== src/Checker/Shadow/Serve.antt =====
-- The whole life of the process that checks passwords with crypt, over a queue of requests.
use swaylock_plugin.Base.{
  ℕ, suc, ◌≤◌, ◌≡◌, refl, sym, ap, ◌∙◌, subst, true, false, List, [], ◌∷◌, ◌++◌, Option, some,
  if◌then◌else◌, arith, All, All-append, append_assoc, append-nil, replicate, length, Outcome,
  returns, ◌>>=◌,
}
use swaylock_plugin.Comm.{Reader, Writer, request, read_comm_request, write_comm_reply}
use swaylock_plugin.Comm.Pipe.{WriteGoes, ReadGoes, write_calls, read_calls}
use swaylock_plugin.Comm.Transfer.{
  c_string, read_comm_request_reads, read_comm_request-closed, write_comm_reply_sends,
}
use swaylock_plugin.Checker.Memory.{password_buffer_destroy}
use swaylock_plugin.Checker.Pam.{text_of}
use swaylock_plugin.Checker.Pam.Replies.{messages, cost, IsSmall, IsBlank, destroyed-IsBlank}
use swaylock_plugin.Checker.Shadow.{
  same_string, Guard, shadow_round, shadow_loop, compare_hash, reply_sent,
}

module _ (crypt : List ℕ → List ℕ → Option (List ℕ)) (encpw : List ℕ) where
  -- The hash of the characters `cs`.
  abbrev pub hash_of : List ℕ → Option (List ℕ)
  hash_of cs = crypt (text_of (c_string cs)) encpw

  -- A password that crypt can hash, with its hash.
  pub data Hashed : List (List ℕ) → List (List ℕ) → Type 0 where
    hashed_none : Hashed [] []
    hashed_one :
        {cs h : List ℕ} {css hs : List (List ℕ)}
        → hash_of cs ≡ some h
        → Hashed css hs
        → Hashed (cs ∷ css) (h ∷ hs)

  -- One byte for each hash: whether it is the user's.
  abbrev pub verdicts : List (List ℕ) → List ℕ
  verdicts [] = []
  verdicts (h ∷ hs) = (if same_string h encpw then 1 else 0) ∷ verdicts hs

-- The requests are in the pipe, whose other end is closed; reads and writes go on, and there are
-- enough of them.
pub record Waiting (guard : Guard) (css : List (List ℕ)) : Type 0 where
  pub queue : guard.reader.pipe ≡ messages css
  pub hung_up : guard.reader.closed ≡ true
  pub small : All IsSmall css
  pub reads : All ReadGoes guard.reader.script
  pub enough_reads : cost css ≤ read_calls guard.reader.script
  pub writes : All WriteGoes guard.writer.script
  pub enough_writes : length css ≤ write_calls guard.writer.script
  pub blank : All IsBlank guard.freed

abbrev pub Served : Guard → List ℕ → Outcome Guard → Type 0
Served guard replies o =
    (guard' : Guard) × (o ≡ returns guard')
    × (guard'.writer.pipe ≡ guard.writer.pipe ++ replies)
    × All IsBlank guard'.freed

module _ (crypt : List ℕ → List ℕ → Option (List ℕ)) where
  hash_round :
      (guard : Guard) (r : Reader) (buf hash : List ℕ) (w : Writer)
      → crypt (text_of buf) guard.encpw ≡ some hash
      → write_comm_reply guard.writer (same_string hash guard.encpw) ≡ returns (w, true)
      → shadow_round crypt guard (r, request buf)
        ≡ returns (
          record guard {
            reader = r;
            writer = w;
            freed = guard.freed ++ password_buffer_destroy buf (length buf) ∷ [];
          },
          true,
        )
  unfolding shadow_round compare_hash reply_sent
  hash_round guard r buf hash w e run =
      let guard' : Guard = record guard {
        reader = r;
        freed = guard.freed ++ password_buffer_destroy buf (length buf) ∷ [];
      } in
      ap (compare_hash crypt guard') e ∙ ap (λ o. o >>= reply_sent crypt guard') run

  serve_one :
      (guard : Guard) (cs : List ℕ) (css : List (List ℕ)) (hash : List ℕ)
      → Waiting guard (cs ∷ css)
      → hash_of crypt guard.encpw cs ≡ some hash
      → (guard' : Guard) × ((read_comm_request guard.reader true >>= shadow_round crypt guard)
          ≡ returns (guard', true))
        × Waiting guard' css
        × (guard'.encpw ≡ guard.encpw)
        × (guard'.writer.pipe
            ≡ guard.writer.pipe ++ (if same_string hash guard.encpw then 1 else 0) ∷ [])
  serve_one guard cs css hash h e =
      let (small, smalls) = h.small in
      let (r, read, left, shut, goes, calls) =
        read_comm_request_reads guard.reader cs (messages css) h.queue small h.reads
          (omega (arith, h.enough_reads)) in
      let (script, write, goes', calls') =
        write_comm_reply_sends guard.writer (same_string hash guard.encpw) h.writes
          (omega (arith, h.enough_writes)) in
      let w : Writer = record {
        script = script;
        pipe = guard.writer.pipe ++ (if same_string hash guard.encpw then 1 else 0) ∷ [];
      } in
      let buf = c_string cs in
      (
        record guard {
          reader = r;
          writer = w;
          freed = guard.freed ++ password_buffer_destroy buf (length buf) ∷ [];
        },
        ap (λ o. o >>= shadow_round crypt guard) read ∙ hash_round guard r buf hash w e write,
        record {
          queue = left;
          hung_up = shut ∙ h.hung_up;
          small = smalls;
          reads = goes;
          enough_reads = omega (arith, h.enough_reads, calls);
          writes = goes';
          enough_writes = omega (arith, h.enough_writes, calls');
          blank = All-append IsBlank guard.freed _ h.blank (destroyed-IsBlank buf, tt);
        },
        refl,
        refl,
      )

  serve_none :
      (guard : Guard)
      → Waiting guard []
      → (guard' : Guard) × ((read_comm_request guard.reader true >>= shadow_round crypt guard)
          ≡ returns (guard', false))
        × (guard'.writer ≡ guard.writer)
        × (guard'.freed ≡ guard.freed)
  unfolding shadow_round
  serve_none guard h =
      let (r, run) =
        read_comm_request-closed guard.reader.script true h.reads (omega (arith, h.enough_reads)) in
      let start : guard.reader ≡ record { script = guard.reader.script; pipe = []; closed = true } =
        ap (λ p. record guard.reader { pipe = p }) h.queue
        ∙ ap (λ c. record guard.reader { pipe = []; closed = c }) h.hung_up in
      (
        record guard { reader = r },
        ap (λ o. o >>= shadow_round crypt guard) (ap (λ x. read_comm_request x true) start ∙ run),
        refl,
        refl,
      )

  served :
      (guard : Guard) (encpw : List ℕ) (css hs : List (List ℕ))
      → guard.encpw ≡ encpw
      → Hashed crypt encpw css hs
      → Waiting guard css
      → Served guard
          (verdicts crypt encpw hs)
          (shadow_loop crypt (replicate (suc (length css)) true) guard)
  unfolding shadow_loop
  served guard encpw [] hs same hashed_none h =
      let (guard', run, w, freed) = serve_none guard h in
      (
        guard',
        ap (λ o. o >>= λ (g, go_on). if go_on then shadow_loop crypt [] g else returns g) run,
        ap (λ w. w.pipe) w ∙ sym (append-nil guard.writer.pipe),
        subst (All IsBlank) (sym freed) h.blank,
      )
  served guard encpw (cs ∷ css) [] same y h = elim y [ ]
  served guard encpw (cs ∷ css) (x ∷ hs) same (hashed_one e rest) h =
      let (guard', run, waiting, keeps, pipe) =
        serve_one guard cs css x h (ap (crypt (text_of (c_string cs))) same ∙ e) in
      let (last, run', pipe', blank) = served guard' encpw css hs (keeps ∙ same) rest waiting in
      (
        last,
        ap
              (λ o. o >>= λ (g, go_on).
                if go_on
                then shadow_loop crypt (replicate (suc (length css)) true) g
                else returns g)
              run
            ∙ run',
        pipe'
            ∙ ap (λ p. p ++ verdicts crypt encpw hs)
                (pipe ∙ ap (λ k. guard.writer.pipe ++ (if same_string x k then 1 else 0) ∷ []) same)
            ∙ append_assoc guard.writer.pipe _ (verdicts crypt encpw hs),
        blank,
      )

  -- For a queue of requests in the pipe, each shorter than 2^63 bytes, whose other end is
  -- closed, with reads and writes that go on and are enough, buffers that can be created, and
  -- a crypt that hashes each password, the loop of the shadow process ends and has written one
  -- byte for each request, 1 exactly for a hash equal to the user's; every buffer that it
  -- freed holds only zeros, if those freed before did.
  pub shadow_loop-Served :
      (guard : Guard) (css hs : List (List ℕ))
      → Hashed crypt guard.encpw css hs
      → Waiting guard css
      → Served guard
          (verdicts crypt guard.encpw hs)
          (shadow_loop crypt (replicate (suc (length css)) true) guard)
  shadow_loop-Served guard css hs hashed h = served guard guard.encpw css hs refl hashed h
