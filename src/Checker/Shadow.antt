-- ===== src/Checker/Shadow.antt =====
-- shadow.c: the loop of the process that checks passwords with crypt. What `crypt` computes is a
-- parameter, from the string and the hash; `none` is a null pointer.
pub mod Serve
use swaylock_plugin.Base.{
  ℕ, zero, suc, Bool, true, false, ◌&&◌, List, [], ◌∷◌, ◌++◌, Option, none, some, ◌==◌,
  if◌then◌else◌, length, Outcome, returns, exits, blocks, aborts, faults, ◌>>=◌,
}
use swaylock_plugin.Password.{clear_buffer}
use swaylock_plugin.Comm.{
  Reader, Writer, Request, broken, closed, request, read_comm_request, write_comm_reply,
}
use swaylock_plugin.Checker.Memory.{password_buffer_destroy}
use swaylock_plugin.Checker.Pam.{text_of}

-- `strcmp(a, b) == 0` of two strings without their terminators.
pub same_string : List ℕ → List ℕ → Bool
same_string [] [] = true
same_string [] (b ∷ bs) = false
same_string (a ∷ rest) [] = false
same_string (a ∷ rest) (b ∷ bs) = a == b && same_string rest bs

-- The process: its pipes, its hash, and what the freed buffers hold.
pub record Guard : Type 0 where
  pub reader : Reader
  pub writer : Writer
  pub encpw : List ℕ
  pub freed : List (List ℕ)

-- What `initialize_pw_backend` meets: the password field of the user, the shadow entry, and whether
-- the calls that drop the privileges succeed.
pub record Accounts : Type 0 where
  pub pw_passwd : Option (List ℕ)
  pub sp_pwdp : Option (List ℕ)
  pub setgid_self : Bool
  pub setuid_self : Bool
  pub setuid_root : Bool
  pub setgid_root : Bool

-- The hash: the shadow entry where the field is "x".
pub find_hash : Accounts → Outcome (List ℕ)
unfolding same_string
find_hash accounts = elim accounts.pw_passwd [
  | none ↦ exits 1
  | some pw ↦
      if same_string pw (0x78 ∷ [])
      then elim accounts.sp_pwdp [ none ↦ exits 1 | some hash ↦ returns hash ]
      else returns pw
]

-- The hash is read as root; then the group and the user are dropped, and must not come back.
-- `spawned` is what `spawn_comm_child` returns in the parent, which wipes its copy of the hash.
unfoldable pub initialize_pw_backend : Accounts → Bool → Outcome (List ℕ × List ℕ)
unfolding find_hash
initialize_pw_backend accounts spawned = do
  hash ← find_hash accounts
  if accounts.setgid_self
      then (if accounts.setuid_self
          then (if accounts.setuid_root
              then exits 1
              else (if accounts.setgid_root
                  then exits 1
                  else if spawned
                  then returns (hash, clear_buffer hash (length hash))
                  else exits 1))
          else exits 1)
      else exits 1

module _ (crypt : List ℕ → List ℕ → Option (List ℕ)) where
  -- After the reply: a failed write ends the process, otherwise it sleeps and goes on.
  pub reply_sent : Guard → Writer × Bool → Outcome (Guard × Bool)
  reply_sent guard (w, false) = exits 1
  reply_sent guard (w, true) = returns (record guard { writer = w }, true)

  -- The comparison, after the buffer is destroyed.
  pub compare_hash : Guard → Option (List ℕ) → Outcome (Guard × Bool)
  unfolding reply_sent same_string
  compare_hash guard none = exits 1
  compare_hash guard (some c) =
      write_comm_reply guard.writer (same_string c guard.encpw) >>= reply_sent guard

  pub shadow_round : Guard → Reader × Request → Outcome (Guard × Bool)
  unfolding compare_hash
  shadow_round guard (r, broken) = exits 1
  shadow_round guard (r, closed) = returns (record guard { reader = r }, false)
  shadow_round guard (r, request buf) =
      compare_hash
        (record guard {
          reader = r;
          freed = guard.freed ++ password_buffer_destroy buf (length buf) ∷ [];
        })
        (crypt (text_of buf) guard.encpw)

  -- The loop. The script says for each request whether its buffer can be created; it ends where the
  -- process goes on waiting.
  pub shadow_loop : List Bool → Guard → Outcome Guard
  unfolding shadow_round
  shadow_loop [] guard = blocks
  shadow_loop (created ∷ script) guard =
      let more = shadow_loop script in
      (read_comm_request guard.reader created >>= shadow_round guard) >>= λ (guard', go_on).
      if go_on then more guard' else returns guard'

  -- After the loop the hash is wiped; the process exits with 0.
  unfoldable pub wipe_hash : Guard → Guard
  wipe_hash guard = record guard { encpw = clear_buffer guard.encpw (length guard.encpw) }
