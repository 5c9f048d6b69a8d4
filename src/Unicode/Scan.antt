-- ===== src/Unicode/Scan.antt =====
-- The backward scan of unicode.c over a buffer that holds encoded characters.
use swaylock_plugin.Base.{
  ℕ, suc, ◌+◌, ◌/◌, ◌%◌, ◌<◌, ◌≡◌, refl, ap, ◌∙◌, ◌≢◌, List, [], ◌∷◌, ◌++◌, arith, Bool, true,
  false, ◌==◌, length, All, All-append, get_elem?, bit_and_top2, bit_and, some, append_assoc,
  length-append,
}
use swaylock_plugin.Unicode.{utf8_chsize, strlen, scan_back, utf8_last_size}
use swaylock_plugin.Unicode.Encode.{utf8, length-utf8}

-- A byte of a C string: not the terminator.
abbrev pub IsText : ℕ → Type 0
IsText b = (0 < b) × (b < 256)

abbrev pub is_cont : ℕ → Bool
is_cont b = bit_and b 0xc0 == 0x80

pub utf8-IsText : (c : ℕ) → 0 < c → c < 0x200000 → All IsText (utf8 c)
utf8-IsText c p h = ground arith

pub strlen-append : (xs rest : List ℕ) → All IsText xs → strlen (xs ++ 0 ∷ rest) ≡ some (length xs)
unfolding strlen
strlen-append [] rest h = refl
strlen-append (x ∷ xs) rest h = ground (arith, strlen-append xs rest h.1)

-- Over the bytes of one character, from its last to its first.
cont-is_cont : (x : ℕ) → x < 64 → is_cont (0x80 + x) ≡ true
cont-is_cont x h = rw (bit_and_top2 (0x80 + x) (omega arith)) (ground arith)

lead-is_cont : (b : ℕ) → b < 256 → b / 64 ≢ 2 → is_cont b ≡ false
lead-is_cont b h n = rw (bit_and_top2 b h) (ground arith)

-- The shape that the scan relies on: one byte that is no continuation, then continuations.
abbrev pub IsChar : List ℕ → Type 0
IsChar [] = ⊥
IsChar (b ∷ bs) = (is_cont b ≡ false) × All (λ x. is_cont x ≡ true) bs

pub utf8-IsChar : (c : ℕ) → c < 0x200000 → IsChar (utf8 c)
utf8-IsChar c h = ground (
  arith,
  lead-is_cont c,
  lead-is_cont (0xc0 + c / 64),
  lead-is_cont (0xe0 + c / 4096),
  lead-is_cont (0xf0 + c / 262144),
  cont-is_cont (c % 64),
  cont-is_cont (c / 64 % 64),
  cont-is_cont (c / 4096 % 64),
)

-- The loop's step on a byte in the buffer.
scan_cont :
    (str : List ℕ) (p k b : ℕ)
    → get_elem? str p ≡ some b
    → is_cont b ≡ true
    → scan_back str (suc p) k ≡ scan_back str p (k + 1)
unfolding scan_back
scan_cont str p k b e c = rw (e, scan_back, c)

scan_lead :
    (str : List ℕ) (p k b : ℕ)
    → get_elem? str p ≡ some b
    → is_cont b ≡ false
    → scan_back str (suc p) k ≡ some (k + 1)
unfolding scan_back
scan_lead str p k b e c = rw (e, scan_back, c)

-- The bytes `bs` stand in `str` from index `i` on.
abbrev pub Run : List ℕ → ℕ → List ℕ → Type 0
Run str i [] = Unit {0}
Run str i (b ∷ bs) = (get_elem? str i ≡ some b) × Run str (suc i) bs

Run-cons : (x : ℕ) (str : List ℕ) (i : ℕ) (bs : List ℕ) → Run str i bs → Run (x ∷ str) (suc i) bs
Run-cons x str i [] r = tt
Run-cons x str i (b ∷ bs) r = (r.0, Run-cons x str (suc i) bs r.1)

Run-self : (bs post : List ℕ) → Run (bs ++ post) 0 bs
Run-self [] post = tt
Run-self (b ∷ bs) post = (refl, Run-cons b (bs ++ post) 0 bs (Run-self bs post))

pub Run-append : (pre bs post : List ℕ) → Run (pre ++ (bs ++ post)) (length pre) bs
Run-append [] bs post = Run-self bs post
Run-append (x ∷ pre) bs post =
    Run-cons x (pre ++ (bs ++ post)) (length pre) bs (Run-append pre bs post)

scan_conts :
    (str : List ℕ) (i k : ℕ) (bs : List ℕ)
    → Run str i bs
    → All (λ x. is_cont x ≡ true) bs
    → scan_back str (i + length bs) k ≡ scan_back str i (k + length bs)
scan_conts str i k [] r h =
    let e : i + 0 ≡ i = omega arith in let f : k + 0 ≡ k = omega arith in rw (e, f)
scan_conts str i k (b ∷ bs) r h =
    let e : i + suc (length bs) ≡ suc i + length bs = omega arith in
    let f : k + length bs + 1 ≡ k + suc (length bs) = omega arith in
    rw (e, scan_conts str (suc i) k bs r.1 h.1, scan_cont str i (k + length bs) b r.0 h.0, f)

scan_char :
    (str : List ℕ) (i : ℕ) (bs : List ℕ)
    → Run str i bs
    → IsChar bs
    → scan_back str (i + length bs) 0 ≡ some (length bs)
scan_char str i [] r h = absurd h
scan_char str i (b ∷ bs) r h =
    let e : i + suc (length bs) ≡ suc i + length bs = omega arith in
    let f : 0 + length bs + 1 ≡ suc (length bs) = omega arith in
    rw (e, scan_conts str (suc i) 0 bs r.1 h.1, scan_lead str i (0 + length bs) b r.0 h.0, f)

-- In a C string that ends with a character from 1 to below 2^21, utf8_last_size returns that
-- character's size, whatever bytes other than the terminator stand before it and whatever
-- follows the terminator.
pub utf8_last_size-utf8 :
    (pre rest : List ℕ) (c : ℕ)
    → All IsText pre
    → 0 < c
    → c < 0x200000
    → utf8_last_size (pre ++ (utf8 c ++ 0 ∷ rest)) ≡ some (utf8_chsize c)
unfolding utf8_last_size
utf8_last_size-utf8 pre rest c hp pos hc =
    let text = All-append IsText pre (utf8 c) hp (utf8-IsText c pos hc) in
    let len : strlen (pre ++ (utf8 c ++ 0 ∷ rest)) ≡ some (length pre + length (utf8 c)) =
      rw (← append_assoc pre (utf8 c) (0 ∷ rest))
        (strlen-append (pre ++ utf8 c) rest text ∙ ap some (length-append pre (utf8 c))) in
    rw (len, utf8_last_size, ← length-utf8 c)
      (scan_char _ (length pre) (utf8 c) (Run-append pre (utf8 c) (0 ∷ rest)) (utf8-IsChar c hc))
