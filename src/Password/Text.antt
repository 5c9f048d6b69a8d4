-- ===== src/Password/Text.antt =====
-- The buffer as the stack of characters that the user has typed, the newest first.
use swaylock_plugin.Base.{
  ℕ, zero, suc, ◌+◌, ◌^◌, ◌<◌, ◌≤◌, ◌≡◌, refl, sym, ap, ◌∙◌, List, [], ◌∷◌, ◌++◌, arith, leb, true,
  false, length, All, All-append, set, take, drop, replicate, set-append_zero, set-zero_drop,
  length-append, take-append-drop, length-take, length-drop, length-replicate, append_assoc, some,
  ◌==◌, size_t, size_t_sub,
}
use swaylock_plugin.Unicode.{utf8_chsize, utf8_encode, utf8_last_size}
use swaylock_plugin.Unicode.Encode.{utf8, length-utf8, chsize_bounds, utf8_encode-writes}
use swaylock_plugin.Unicode.Scan.{IsText, utf8-IsText, utf8_last_size-utf8}
use swaylock_plugin.Password.{
  SwaylockPassword, clear_from, clear_buffer, clear_password_buffer, backspace, append_ch,
}

-- The code points that xkbcommon hands over: not 0, and within UTF-8's 21 bits.
abbrev pub IsCode : ℕ → Type 0
IsCode c = (0 < c) × (c < 0x200000)

-- The bytes of the characters, oldest first.
abbrev pub bytes : List ℕ → List ℕ
bytes [] = []
bytes (c ∷ cs) = bytes cs ++ utf8 c

-- The buffer holds exactly the characters `cs`, then the terminator, then `rest` of the allocation.
pub record Holds (pw : SwaylockPassword) (cs : List ℕ) : Type 0 where
  pub rest : List ℕ
  pub layout : pw.buffer ≡ bytes cs ++ 0 ∷ rest
  pub counted : pw.len ≡ length (bytes cs)
  pub sized : pw.buffer_len ≡ length pw.buffer
  pub small : pw.buffer_len < 2 ^ 63
  pub codes : All IsCode cs

bytes-IsText : (cs : List ℕ) → All IsCode cs → All IsText (bytes cs)
bytes-IsText [] h = tt
bytes-IsText (c ∷ cs) h =
    All-append IsText (bytes cs) (utf8 c) (bytes-IsText cs h.1) (utf8-IsText c h.0.0 h.0.1)

set-zero_append : (l r : List ℕ) (v : ℕ) → 0 < length l → set (l ++ r) 0 v ≡ v ∷ (drop 1 l ++ r)
set-zero_append [] r v h = absurd (omega arith)
set-zero_append (x ∷ l) r v h = refl

pub length-buffer :
    (pw : SwaylockPassword) (cs : List ℕ) (h : Holds pw cs)
    → pw.buffer_len ≡ pw.len + 1 + length h.rest
length-buffer pw cs h =
    h.sized ∙ ap length h.layout ∙ omega (arith, length-append (bytes cs) (0 ∷ h.rest), h.counted)

module _ (pw : SwaylockPassword) (c : ℕ) (cs : List ℕ) where
  -- What a backspace leaves: the character's first byte becomes the terminator.
  pub shorter : List ℕ → SwaylockPassword
  shorter rest = record pw {
    len = length (bytes cs);
    buffer = bytes cs ++ 0 ∷ (drop 1 (utf8 c) ++ 0 ∷ rest);
  }

  backspace_runs : (h : Holds pw (c ∷ cs)) → backspace pw ≡ some (shorter h.rest, true)
  unfolding backspace shorter
  backspace_runs h =
      let pos : 1 ≤ length (utf8 c) = omega (arith, length-utf8 c, chsize_bounds c) in
      let len : pw.len ≡ length (bytes cs) + utf8_chsize c =
        omega (arith, h.counted, length-append (bytes cs) (utf8 c), length-utf8 c) in
      let ne : (pw.len == 0) ≡ false = ground (arith, len, chsize_bounds c) in
      let str : pw.buffer ≡ bytes cs ++ (utf8 c ++ 0 ∷ h.rest) =
        h.layout ∙ append_assoc (bytes cs) (utf8 c) (0 ∷ h.rest) in
      let scan : utf8_last_size pw.buffer ≡ some (utf8_chsize c) = rw str (
        utf8_last_size-utf8 (bytes cs) h.rest c (bytes-IsText cs h.codes.1) h.codes.0.0
          h.codes.0.1) in
      let fits : length (bytes cs) + utf8_chsize c < 2 ^ 63 =
        omega (arith, length-buffer pw (c ∷ cs) h, h.small, len) in
      let back : size_t_sub pw.len (utf8_chsize c) ≡ length (bytes cs) = rw len (omega arith) in
      rw (ne, scan, backspace, back, str, set-append_zero (bytes cs) _ _ 0 refl)
        (rw (set-zero_append (utf8 c) (0 ∷ h.rest) 0 pos))

  -- What a character that fits leaves.
  pub longer : List ℕ → SwaylockPassword
  longer rest = record pw {
    len = pw.len + utf8_chsize c;
    buffer = (bytes cs ++ utf8 c) ++ 0 ∷ drop 1 (drop (utf8_chsize c) (0 ∷ rest));
  }

  append_ch_runs :
      (h : Holds pw cs)
      → IsCode c
      → pw.len + utf8_chsize c + 1 < pw.buffer_len
      → append_ch pw c ≡ longer h.rest
  unfolding append_ch longer
  append_ch_runs h ok fits =
      let n = utf8_chsize c in
      let old : List ℕ = 0 ∷ h.rest in
      let split : pw.buffer ≡ bytes cs ++ (take n old ++ drop n old) =
        h.layout ∙ ap (◌++◌ (bytes cs)) (sym (take-append-drop n old)) in
      let room : n + 1 < length old = omega (arith, length-buffer pw cs h) in
      let slots : length (take n old) ≡ n = length-take n old ∙ omega arith in
      let left : 0 < length (drop n old) = rw (length-drop n old) (omega arith) in
      let test : leb pw.buffer_len (size_t (pw.len + n + 1)) ≡ false = ground (arith, h.small) in
      let wrap : size_t (pw.len + n) ≡ pw.len + n = omega (arith, h.small) in
      let body : utf8_encode pw.buffer pw.len c ≡ (bytes cs ++ (utf8 c ++ drop n old), n) =
        rw split (
          utf8_encode-writes (bytes cs) (take n old) (drop n old) c pw.len ok.1 (sym h.counted)
            slots) in
      let at_end : (bytes cs ++ (utf8 c ++ drop n old)) ≡ (bytes cs ++ utf8 c) ++ drop n old =
        sym (append_assoc (bytes cs) (utf8 c) (drop n old)) in
      let end : length (bytes cs ++ utf8 c) ≡ pw.len + n =
        omega (arith, length-append (bytes cs) (utf8 c), length-utf8 c, h.counted) in
      rw (test, body, wrap, at_end, set-append_zero (bytes cs ++ utf8 c) (drop n old) _ 0 end)
        (rw (set-zero_drop (drop n old) 0 left))

  length-shorter :
      (rest : List ℕ) → length (bytes cs ++ (utf8 c ++ 0 ∷ rest)) ≡ length (shorter rest).buffer
  unfolding shorter
  length-shorter rest = omega (
    arith,
    length-append (bytes cs) (utf8 c ++ 0 ∷ rest),
    length-append (utf8 c) (0 ∷ rest),
    length-append (bytes cs) (0 ∷ (drop 1 (utf8 c) ++ 0 ∷ rest)),
    length-append (drop 1 (utf8 c)) (0 ∷ rest),
    length-drop 1 (utf8 c),
    length-utf8 c,
    chsize_bounds c,
  )

  -- Backspace succeeds and drops the newest character, all of its bytes and nothing else.
  pub backspace-Holds :
      Holds pw (c ∷ cs)
      → (pw' : SwaylockPassword) × (backspace pw ≡ some (pw', true)) × Holds pw' cs
  unfolding shorter
  backspace-Holds h = (
    shorter h.rest,
    backspace_runs h,
    record {
      rest = drop 1 (utf8 c) ++ 0 ∷ h.rest;
      layout = refl;
      counted = refl;
      sized =
          h.sized
          ∙ ap length (h.layout ∙ append_assoc (bytes cs) (utf8 c) (0 ∷ h.rest))
          ∙ length-shorter h.rest;
      small = h.small;
      codes = h.codes.1;
    },
  )

  -- A character that fits below the size limit is pushed; the terminator follows it.
  pub append_ch-Holds :
      Holds pw cs
      → IsCode c
      → pw.len + utf8_chsize c + 1 < pw.buffer_len
      → Holds (append_ch pw c) (c ∷ cs)
  append_ch-Holds h ok fits = rw (append_ch_runs h ok fits) (
      unfold longer in
      record {
        rest = drop 1 (drop (utf8_chsize c) (0 ∷ h.rest));
        layout = refl;
        counted = omega (arith, length-append (bytes cs) (utf8 c), length-utf8 c, h.counted);
        sized = omega (
          arith,
          length-buffer pw cs h,
          h.counted,
          length-append (bytes cs ++ utf8 c) (0 ∷ drop 1 (drop (utf8_chsize c) (0 ∷ h.rest))),
          length-append (bytes cs) (utf8 c),
          length-drop 1 (drop (utf8_chsize c) (0 ∷ h.rest)),
          length-drop (utf8_chsize c) (0 ∷ h.rest),
          length-utf8 c,
        );
        small = h.small;
        codes = (ok, h.codes);
      })

  -- A character that does not fit is dropped and the password is left as it was.
  pub append_ch_full :
      Holds pw cs → pw.buffer_len ≤ pw.len + utf8_chsize c + 1 → append_ch pw c ≡ pw
  unfolding append_ch
  append_ch_full h full =
      let test : leb pw.buffer_len (size_t (pw.len + utf8_chsize c + 1)) ≡ true =
        ground (arith, h.small, length-buffer pw cs h, chsize_bounds c) in
      rw test

-- On an empty password backspace reports that nothing was erased.
pub backspace_empty : (pw : SwaylockPassword) → Holds pw [] → backspace pw ≡ some (pw, false)
unfolding backspace
backspace_empty pw h = let e : (pw.len == 0) ≡ true = ground (arith, h.counted) in rw e

clear_from-append :
    (pre mid : List ℕ) (n i : ℕ)
    → length pre ≡ i
    → length mid ≡ n
    → clear_from n i (pre ++ mid) ≡ pre ++ replicate n 0
unfolding clear_from
clear_from-append pre [] zero i p q = refl
clear_from-append pre [] (suc n) i p q = absurd (omega arith)
clear_from-append pre (x ∷ mid) zero i p q = absurd (omega arith)
clear_from-append pre (x ∷ mid) (suc n) i p q =
    rw
      (
        set-append_zero pre (x ∷ mid) i 0 p,
        ← append_assoc pre (0 ∷ []) mid,
        clear_from-append (pre ++ 0 ∷ []) mid n (i + 1) (omega (arith, length-append pre (0 ∷ [])))
            (omega arith),
      )
      (append_assoc pre (0 ∷ []) (replicate n 0))

-- Every byte of a buffer is zero after it is cleared over its whole size.
pub clear_buffer_zero : (buf : List ℕ) (n : ℕ) → length buf ≡ n → clear_buffer buf n ≡ replicate n 0
unfolding clear_buffer
clear_buffer_zero buf n h = clear_from-append [] buf n 0 refl h

length-split : (a b : ℕ) → a + 1 + b ≡ suc (a + b)
length-split a b = omega arith

-- Clearing a buffer that holds the characters cs leaves every byte of the allocation zero, and
-- the empty password.
pub clear_password_buffer-Holds :
    (pw : SwaylockPassword) (cs : List ℕ)
    → Holds pw cs
    → ((clear_password_buffer pw).buffer ≡ replicate pw.buffer_len 0)
      × Holds (clear_password_buffer pw) []
unfolding clear_password_buffer
clear_password_buffer-Holds pw cs h = (
  zeros,
  record {
    rest = replicate (pw.len + length h.rest) 0;
    layout = rw (zeros, length-buffer pw cs h, length-split pw.len (length h.rest));
    counted = refl;
    sized = rw zeros (sym (length-replicate pw.buffer_len 0));
    small = h.small;
    codes = tt;
  },
)
  where
    zeros : clear_buffer pw.buffer pw.buffer_len ≡ replicate pw.buffer_len 0
    zeros = clear_buffer_zero pw.buffer pw.buffer_len (sym h.sized)
