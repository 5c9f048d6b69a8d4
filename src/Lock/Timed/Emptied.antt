-- ===== src/Lock/Timed/Emptied.antt =====
-- Where the password buffer becomes empty.
use swaylock_plugin.Base.{
  ℕ, ◌≡◌, refl, ap, subst, inl, inr, Bool, true, false, Option, none, some, Bool-cases,
  Option-cases, ==_iff, ◌==◌, if◌then◌else◌, Outcome, returns, exits, aborts, blocks, faults, ◌>>=◌,
  take, size_t, ◌+◌,
}
use swaylock_plugin.Unicode.{utf8_last_size}
use swaylock_plugin.Password
use swaylock_plugin.Password.{SwaylockPassword, clear_password_buffer}
use swaylock_plugin.Comm.{Writer, write_full, write_comm_request, size_bytes}

found_len : ℕ → Option (SwaylockPassword × Bool) → ℕ
found_len n none = n
found_len n (some (pw, b)) = pw.len

pub erased_none :
    (pw pw' : SwaylockPassword) → Password.backspace pw ≡ some (pw', false) → pw'.len ≡ 0
unfolding Password.backspace found_len
erased_none pw pw' e = elim (Bool-cases (pw.len == 0)) [
  | inl z ↦
      let same : Path (Option (SwaylockPassword × Bool)) (some (pw, false)) (some (pw', false)) =
        simp z at e in
      subst (λ n. n ≡ 0) (ap (found_len pw.len) same) ((==_iff pw.len 0).0 z)
  | inr z ↦ elim (Option-cases (utf8_last_size pw.buffer)) [
    | inl n ↦ cc (simp (z, n) at e)
    | inr (k, n) ↦ cc (simp (z, n) at e)
  ]
]

-- The password in a result of `write_comm_request` is empty.
abbrev pub Emptied : Outcome (Writer × SwaylockPassword × Bool) → Type 0
Emptied (returns (w, pw, b)) = pw.len ≡ 0
Emptied (exits n) = Unit
Emptied aborts = Unit
Emptied blocks = Unit
Emptied faults = Unit

>>=-Emptied {ℓ} :
    {A : Type ℓ} (m : Outcome A) (f : A → Outcome (Writer × SwaylockPassword × Bool))
    → ((a : A) → Emptied (f a))
    → Emptied (m >>= f)
>>=-Emptied (returns a) f k = k a
>>=-Emptied (exits n) f k = tt
>>=-Emptied aborts f k = tt
>>=-Emptied blocks f k = tt
>>=-Emptied faults f k = tt

if-Emptied :
    (b : Bool) (x y : Outcome (Writer × SwaylockPassword × Bool))
    → Emptied x
    → Emptied y
    → Emptied (if b then x else y)
if-Emptied true x y p q = p
if-Emptied false x y p q = q

body-Emptied :
    (w : Writer) (pw : SwaylockPassword) (size : ℕ)
    → Emptied (
        write_full w (take size pw.buffer) >>= λ (w', sent).
        returns (w', clear_password_buffer pw, sent))
unfolding clear_password_buffer
body-Emptied w pw size =
    >>=-Emptied (write_full w (take size pw.buffer))
      (λ (w', sent). returns (w', clear_password_buffer pw, sent)) (λ (w', sent). refl)

pub write_comm_request-Emptied :
    (w : Writer) (pw : SwaylockPassword) → Emptied (write_comm_request w pw)
unfolding write_comm_request clear_password_buffer
write_comm_request-Emptied w pw =
    let size = size_t (pw.len + 1) in
    >>=-Emptied (write_full w (size_bytes 8 size)) _ (λ (w', sized).
      if-Emptied sized
        (write_full w' (take size pw.buffer) >>= λ (w'', sent).
          returns (w'', clear_password_buffer pw, sent))
        (returns (w', clear_password_buffer pw, false)) (body-Emptied w' pw size) refl)
