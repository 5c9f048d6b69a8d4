-- ===== src/Password.antt =====
-- The password buffer of password.c: an allocation of `buffer_len` bytes that holds a C string of
-- `len` bytes. A `char *` is the allocation itself; a read outside it is the fault `none`.
pub mod Text
pub mod Edits
use swaylock_plugin.Base.{
  ℕ, zero, suc, ◌+◌, ◌-◌, ◌%◌, ◌^◌, Bool, true, false, List, [], ◌∷◌, Option, none, some, leb, ◌==◌,
  if◌then◌else◌, set, size_t, size_t_sub,
}
use swaylock_plugin.Unicode.{utf8_chsize, utf8_encode, utf8_last_size}

-- `struct swaylock_password`.
pub record SwaylockPassword : Type 0 where
  pub len : ℕ  -- size_t
  pub buffer_len : ℕ  -- size_t
  pub buffer : List ℕ

-- `for (i = 0; i < size; ++i) buffer[i] = 0`, from `i` on with `n` rounds left.
pub clear_from : ℕ → ℕ → List ℕ → List ℕ
clear_from zero i buf = buf
clear_from (suc n) i buf = clear_from n (i + 1) (set buf i 0)

pub clear_buffer : List ℕ → ℕ → List ℕ
unfolding clear_from
clear_buffer buf size = clear_from size 0 buf

unfoldable pub clear_password_buffer : SwaylockPassword → SwaylockPassword
clear_password_buffer pw = record pw { buffer = clear_buffer pw.buffer pw.buffer_len; len = 0 }

unfoldable pub backspace : SwaylockPassword → Option (SwaylockPassword × Bool)
backspace pw = if pw.len == 0 then some (pw, false) else elim (utf8_last_size pw.buffer) [
  | none ↦ none
  | some n ↦
      let len = size_t_sub pw.len n in
      some (record pw { len = len; buffer = set pw.buffer len 0 }, true)
]

pub append_ch : SwaylockPassword → ℕ → SwaylockPassword
append_ch pw codepoint =
    let utf8_size = utf8_chsize codepoint in
    if leb pw.buffer_len (size_t (pw.len + utf8_size + 1))
    then pw
    else (let (buf, n) = utf8_encode pw.buffer pw.len codepoint in
        record pw {
          buffer = set buf (size_t (pw.len + utf8_size)) 0;
          len = size_t (pw.len + utf8_size);
        })
