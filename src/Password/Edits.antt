-- ===== src/Password/Edits.antt =====
-- The password buffer refines a stack of characters, over any sequence of edits.
use swaylock_plugin.Base.{
  ℕ, ◌+◌, ◌<◌, ◌≤◌, ◌≡◌, refl, List, [], ◌∷◌, arith, ltb, if◌then◌else◌, length, All, Option, none,
  some, inl, inr, Bool-cases, ltb→lt, ltb→le, subst, ◌∙◌, Bool, true,
}
use swaylock_plugin.Unicode.{utf8_chsize}
use swaylock_plugin.Password.{SwaylockPassword, clear_password_buffer, backspace, append_ch}
use swaylock_plugin.Password.Text.{
  IsCode, bytes, Holds, backspace-Holds, append_ch-Holds, append_ch_full, backspace_empty,
  clear_password_buffer-Holds,
}

-- What a key press does to the password.
pub data Edit : Type 0 where
  letter : ℕ → Edit
  erase : Edit
  wipe : Edit

abbrev pub IsEdit : Edit → Type 0
IsEdit (letter c) = IsCode c
IsEdit erase = Unit
IsEdit wipe = Unit

-- The operations of password.c.
pub edit : SwaylockPassword → Edit → Option SwaylockPassword
edit pw (letter c) = some (append_ch pw c)
edit pw erase = elim (backspace pw) [ none ↦ none | some (pw', _) ↦ some pw' ]
edit pw wipe = some (clear_password_buffer pw)

pub edits : SwaylockPassword → List Edit → Option SwaylockPassword
edits pw [] = some pw
edits pw (e ∷ es) = elim (edit pw e) [ none ↦ none | some pw' ↦ edits pw' es ]

-- The specification: a stack of characters whose encoding, the terminator and one more byte fit
-- in `size` bytes.
abbrev pub stack : ℕ → List ℕ → Edit → List ℕ
stack size cs (letter c) = if ltb (length (bytes cs) + utf8_chsize c + 1) size then c ∷ cs else cs
stack size [] erase = []
stack size (c ∷ cs) erase = cs
stack size cs wipe = []

abbrev pub stacks : ℕ → List ℕ → List Edit → List ℕ
stacks size cs [] = cs
stacks size cs (e ∷ es) = stacks size (stack size cs e) es

buffer_len-append_ch : (pw : SwaylockPassword) (c : ℕ) → (append_ch pw c).buffer_len ≡ pw.buffer_len
unfolding append_ch
buffer_len-append_ch pw c = ground arith

buffer_len-backspace :
    (pw pw' : SwaylockPassword) (b : Bool)
    → backspace pw ≡ some (pw', b)
    → pw'.buffer_len ≡ pw.buffer_len
unfolding backspace
buffer_len-backspace pw pw' b h = ground arith

buffer_len-clear : (pw : SwaylockPassword) → (clear_password_buffer pw).buffer_len ≡ pw.buffer_len
unfolding clear_password_buffer
buffer_len-clear pw = refl

abbrev pub Refines : SwaylockPassword → List ℕ → Option SwaylockPassword → Type 0
Refines pw cs o =
    (pw' : SwaylockPassword) × (o ≡ some pw') × Holds pw' cs × (pw'.buffer_len ≡ pw.buffer_len)

letter-Refines :
    (pw : SwaylockPassword) (cs : List ℕ) (c : ℕ)
    → Holds pw cs
    → IsCode c
    → Refines pw (stack pw.buffer_len cs (letter c)) (some (append_ch pw c))
letter-Refines pw cs c h ok =
    elim (Bool-cases (ltb (length (bytes cs) + utf8_chsize c + 1) pw.buffer_len)) [
      | inl fits ↦
          let room : pw.len + utf8_chsize c + 1 < pw.buffer_len = rw h.counted (ltb→lt _ _ fits) in
          rw fits
            (append_ch pw c, refl, append_ch-Holds pw c cs h ok room, buffer_len-append_ch pw c)
      | inr full ↦
          let none_left : pw.buffer_len ≤ pw.len + utf8_chsize c + 1 =
            rw h.counted (ltb→le _ _ full) in
          rw (full, append_ch_full pw c cs h none_left) (pw, refl, h, refl)
    ]

edit-Holds :
    (pw : SwaylockPassword) (cs : List ℕ) (e : Edit)
    → Holds pw cs
    → IsEdit e
    → Refines pw (stack pw.buffer_len cs e) (edit pw e)
unfolding edit
edit-Holds pw cs (letter c) h ok = letter-Refines pw cs c h ok
edit-Holds pw [] erase h ok = rw (edit, backspace_empty pw h) (pw, refl, h, refl)
edit-Holds pw (c ∷ cs) erase h ok =
    let (pw', e, h') = backspace-Holds pw c cs h in
    rw (edit, e) (pw', refl, h', buffer_len-backspace pw pw' true e)
edit-Holds pw cs wipe h ok =
    (clear_password_buffer pw, refl, (clear_password_buffer-Holds pw cs h).1, buffer_len-clear pw)

-- Any sequence of letters (code points from 1 to below 2^21), erases and wipes, from a buffer
-- that holds the characters cs, runs without a fault and leaves the buffer holding exactly the
-- characters of a stack on which a letter is pushed if its bytes fit and dropped if not, an
-- erase pops one whole character, and a wipe empties it; the allocation keeps its size.
pub edits-Holds :
    (pw : SwaylockPassword) (cs : List ℕ) (es : List Edit)
    → Holds pw cs
    → All IsEdit es
    → Refines pw (stacks pw.buffer_len cs es) (edits pw es)
unfolding edits
edits-Holds pw cs [] h ok = (pw, refl, h, refl)
edits-Holds pw cs (e ∷ es) h ok =
    let (pw', run, h', same) = edit-Holds pw cs e h ok.0 in
    let (pw'', runs, h'', same') = edits-Holds pw' (stack pw.buffer_len cs e) es h' ok.1 in
    rw (edits, run)
      (
        pw'',
        runs,
        subst (λ n. Holds pw'' (stacks n (stack pw.buffer_len cs e) es)) same h'',
        same' ∙ same,
      )
