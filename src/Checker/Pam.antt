-- ===== src/Checker/Pam.antt =====
-- pam.c: the conversation with PAM, and the loop of the process that checks passwords. What PAM
-- does is a parameter: a dialog, which asks its messages and goes on with any use of the answers.
pub mod Handed
pub mod Replies
use swaylock_plugin.Base.{
  ℕ, zero, suc, Bool, true, false, not, List, [], ◌∷◌, ◌++◌, Option, none, some, ◌==◌,
  if◌then◌else◌, replicate, length, Outcome, returns, exits, blocks, aborts, faults, ◌>>=◌,
}
use swaylock_plugin.Comm.{
  Reader, Writer, Request, broken, closed, request, read_comm_request, write_comm_reply,
}
use swaylock_plugin.Checker.Memory.{password_buffer_destroy}

pub data MsgStyle : Type 0 where
  prompt_echo_off prompt_echo_on error_msg text_info other_style : MsgStyle

-- The values of `handle_conversation`.
pub data ConvStatus : Type 0 where
  conv_success conv_abort : ConvStatus

-- `strdup` of a string in memory: its bytes before the terminator.
pub text_of : List ℕ → List ℕ
text_of [] = []
text_of (b ∷ bs) = let rest = text_of bs in if b == 0 then [] else b ∷ rest

-- What a conversation gives: the value, the replies, and the password that the state keeps.
pub record Conversation : Type 0 where
  pub status : ConvStatus
  pub replies : List (Option (List ℕ))
  pub password : Option (List ℕ)

abbrev nulls : ℕ → List (Option (List ℕ))
nulls n = replicate n none

-- One message that asks for the password, with what the messages after it give once the password
-- is used. After an abort the replies that follow stay null.
pub prompted : Bool → ℕ → Option (List ℕ) → Conversation → Conversation
unfolding text_of
prompted strdup left none rest = record {
  status = conv_abort;
  replies = none ∷ nulls left;
  password = none;
}
prompted strdup left (some password) rest =
    if strdup
    then record rest { replies = some (text_of password) ∷ rest.replies }
    else record { status = conv_abort; replies = none ∷ nulls left; password = some password }

-- The loop of `handle_conversation`. `strdup` is whether it has memory.
pub converse : Bool → List MsgStyle → Option (List ℕ) → Conversation
unfolding prompted
converse strdup [] pw = record { status = conv_success; replies = []; password = pw }
converse strdup (prompt_echo_off ∷ msgs) pw =
    prompted strdup (length msgs) pw (converse strdup msgs none)
converse strdup (prompt_echo_on ∷ msgs) pw =
    prompted strdup (length msgs) pw (converse strdup msgs none)
converse strdup (error_msg ∷ msgs) pw =
    let rest = converse strdup msgs pw in record rest { replies = none ∷ rest.replies }
converse strdup (text_info ∷ msgs) pw =
    let rest = converse strdup msgs pw in record rest { replies = none ∷ rest.replies }
converse strdup (other_style ∷ msgs) pw =
    let rest = converse strdup msgs pw in record rest { replies = none ∷ rest.replies }

-- Whether `calloc` and `strdup` have memory during a conversation.
pub record Allocator : Type 0 where
  pub calloc : Bool
  pub strdup : Bool

pub handle_conversation : Allocator → List MsgStyle → Option (List ℕ) → Conversation
unfolding converse
handle_conversation alloc msgs pw =
    if alloc.calloc
    then converse alloc.strdup msgs pw
    else record { status = conv_abort; replies = []; password = pw }

-- What PAM does in one authentication: it ends with a status, 0 for PAM_SUCCESS, or asks.
pub data Dialog : Type 0 where
  verdict : ℕ → Dialog
  ask : Allocator → List MsgStyle → (ConvStatus → List (Option (List ℕ)) → Dialog) → Dialog

-- The strings among the replies.
pub strings : List (Option (List ℕ)) → List (List ℕ)
strings [] = []
strings (none ∷ rs) = strings rs
strings (some t ∷ rs) = t ∷ strings rs

-- `pam_authenticate` with a password in the state: its value, and every string that PAM was given.
pub pam_authenticate : Dialog → Option (List ℕ) → ℕ × List (List ℕ)
unfolding handle_conversation strings
pam_authenticate (verdict status) pw = (status, [])
pam_authenticate (ask alloc msgs next) pw =
    let conv = handle_conversation alloc msgs pw in
    let (status, given) = pam_authenticate (next conv.status conv.replies) conv.password in
    (status, strings conv.replies ++ given)

-- What one round of the loop meets: whether `password_buffer_create` succeeds, and PAM.
pub record Turn : Type 0 where
  pub created : Bool
  pub dialog : Dialog

pub record Child : Type 0 where
  pub reader : Reader
  pub writer : Writer
  pub freed : List (List ℕ)  -- what the freed buffers hold

-- After the reply: exit if it failed, leave the loop after a success.
pub reply_written : Child → Bool → Writer × Bool → Outcome (Child × Bool)
reply_written child success (w, false) = exits 1
reply_written child success (w, true) = returns (record child { writer = w }, not success)

-- One round, after the request was read. The second result is whether the loop goes on.
pub pam_round : Dialog → Child → Reader × Request → Outcome (Child × Bool)
unfolding reply_written pam_authenticate
pam_round dialog child (r, broken) = exits 1
pam_round dialog child (r, closed) = returns (record child { reader = r }, false)
pam_round dialog child (r, request buf) =
    let success = (pam_authenticate dialog (some buf)).0 == 0 in
    let child' : Child = record child {
      reader = r;
      freed = child.freed ++ password_buffer_destroy buf (length buf) ∷ [];
    } in
    write_comm_reply child.writer success >>= reply_written child' success

-- The loop of `run_pw_backend_child`. The script of turns ends where the process goes on waiting.
pub pam_loop : List Turn → Child → Outcome Child
unfolding pam_round
pam_loop [] child = blocks
pam_loop (turn ∷ turns) child =
    let more = pam_loop turns in
    (read_comm_request child.reader turn.created >>= pam_round turn.dialog child)
    >>= λ (child', go_on). if go_on then more child' else returns child'

-- `ended` is whether `pam_end` succeeds. The status that the exit looks at is the outer variable,
-- which the loop does not assign.
unfoldable pub run_pw_backend_child : List Turn → Bool → Child → Outcome Child
unfolding pam_loop
run_pw_backend_child turns ended child =
    pam_loop turns child >>= λ child'. if ended then exits 0 else exits 1
