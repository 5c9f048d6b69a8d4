-- ===== src/Unicode/Encode.antt =====
-- What the encoder of unicode.c writes, against the encoding of each range given by arithmetic.
use swaylock_plugin.Base.{
  ℕ, ◌+◌, ◌/◌, ◌%◌, ◌<◌, ◌≤◌, ◌≡◌, sym, List, [], ◌∷◌, ◌++◌, arith, u8, ltb, if◌then◌else◌, length,
  set-append, set-append_zero, bit_and_low6, bit_or_cont, bit_or_lead0, bit_or_lead2, bit_or_lead3,
  bit_or_lead4, bit_and, bit_or,
}
use native.Mathlib.Nat.{add_comm}
use swaylock_plugin.Unicode.{utf8_chsize, lead, encode_tail, utf8_encode}

-- The encoding of a character, as RFC 3629 lays out its bits.
abbrev pub utf8 : ℕ → List ℕ
utf8 c =
    if ltb c 0x80
    then c ∷ []
    else if ltb c 0x800
    then (0xc0 + c / 64) ∷ (0x80 + c % 64) ∷ []
    else if ltb c 0x10000
    then (0xe0 + c / 4096) ∷ (0x80 + c / 64 % 64) ∷ (0x80 + c % 64) ∷ []
    else (0xf0 + c / 262144) ∷ (0x80 + c / 4096 % 64) ∷ (0x80 + c / 64 % 64) ∷ (0x80 + c % 64) ∷ []

cont_byte : (x : ℕ) → u8 (bit_or (bit_and x 0x3f) 0x80) ≡ 0x80 + x % 64
cont_byte x = rw (bit_and_low6 x, bit_or_cont (x % 64) (omega arith)) (omega arith)

pub length-utf8 : (c : ℕ) → length (utf8 c) ≡ utf8_chsize c
unfolding utf8_chsize
length-utf8 c = ground arith

module _ (pre post : List ℕ) (n : ℕ) (hp : length pre ≡ n) (c s₀ s₁ s₂ s₃ : ℕ) where
  encode_tail_one :
      encode_tail 1 (pre ++ s₀ ∷ s₁ ∷ post) n c ≡ (pre ++ s₀ ∷ (0x80 + c % 64) ∷ post, c / 64)
  unfolding encode_tail
  encode_tail_one = rw (set-append pre (s₀ ∷ s₁ ∷ post) 1 n _ hp, cont_byte c)

  encode_tail_two :
      encode_tail 2 (pre ++ s₀ ∷ s₁ ∷ s₂ ∷ post) n c
      ≡ (pre ++ s₀ ∷ (0x80 + c / 64 % 64) ∷ (0x80 + c % 64) ∷ post, c / 64 / 64)
  unfolding encode_tail
  encode_tail_two = rw (
    set-append pre (s₀ ∷ s₁ ∷ s₂ ∷ post) 2 n _ hp,
    cont_byte c,
    set-append pre (s₀ ∷ s₁ ∷ _ ∷ post) 1 n _ hp,
    cont_byte (c / 64),
  )

  encode_tail_three : encode_tail 3 (pre ++ s₀ ∷ s₁ ∷ s₂ ∷ s₃ ∷ post) n c ≡ (
    pre ++ s₀ ∷ (0x80 + c / 64 / 64 % 64) ∷ (0x80 + c / 64 % 64) ∷ (0x80 + c % 64) ∷ post,
    c / 64 / 64 / 64,
  )
  unfolding encode_tail
  encode_tail_three = rw (
    set-append pre (s₀ ∷ s₁ ∷ s₂ ∷ s₃ ∷ post) 3 n _ hp,
    cont_byte c,
    set-append pre (s₀ ∷ s₁ ∷ s₂ ∷ _ ∷ post) 2 n _ hp,
    cont_byte (c / 64),
    set-append pre (s₀ ∷ s₁ ∷ _ ∷ _ ∷ post) 1 n _ hp,
    cont_byte (c / 64 / 64),
  )

byte_id : (x : ℕ) → x < 256 → u8 x ≡ x
byte_id x h = omega arith

module _ (pre post : List ℕ) (n : ℕ) (hp : length pre ≡ n) (c s₀ s₁ s₂ s₃ : ℕ) where
  encode_one :
      lead c ≡ (0, 1) → c < 0x80 → utf8_encode (pre ++ s₀ ∷ post) n c ≡ (pre ++ c ∷ post, 1)
  unfolding utf8_encode encode_tail
  encode_one e h =
      rw (e, bit_or_lead0 c h, byte_id c (omega arith), set-append_zero pre (s₀ ∷ post) n c hp)

  encode_two :
      lead c ≡ (0xc0, 2)
      → c < 0x800
      → utf8_encode (pre ++ s₀ ∷ s₁ ∷ post) n c
        ≡ (pre ++ (0xc0 + c / 64) ∷ (0x80 + c % 64) ∷ post, 2)
  unfolding utf8_encode
  encode_two e h = rw (
    e,
    encode_tail_one pre post n hp c s₀ s₁ 0 0,
    bit_or_lead2 (c / 64) (omega arith),
    byte_id (c / 64 + 0xc0) (omega arith),
    set-append_zero pre (s₀ ∷ _) n (c / 64 + 0xc0) hp,
    add_comm (c / 64) 0xc0,
  )

  encode_three :
      lead c ≡ (0xe0, 3)
      → c < 0x10000
      → utf8_encode (pre ++ s₀ ∷ s₁ ∷ s₂ ∷ post) n c
        ≡ (pre ++ (0xe0 + c / 4096) ∷ (0x80 + c / 64 % 64) ∷ (0x80 + c % 64) ∷ post, 3)
  unfolding utf8_encode
  encode_three e h =
      let top : c / 64 / 64 ≡ c / 4096 = omega arith in
      rw (
        e,
        encode_tail_two pre post n hp c s₀ s₁ s₂ 0,
        top,
        bit_or_lead3 (c / 4096) (omega arith),
        byte_id (c / 4096 + 0xe0) (omega arith),
        set-append_zero pre (s₀ ∷ _) n (c / 4096 + 0xe0) hp,
        add_comm (c / 4096) 0xe0,
      )

  encode_four :
      lead c ≡ (0xf0, 4)
      → c < 0x200000
      → utf8_encode (pre ++ s₀ ∷ s₁ ∷ s₂ ∷ s₃ ∷ post) n c ≡ (
        pre
            ++ (0xf0 + c / 262144)
              ∷ (0x80 + c / 4096 % 64)
              ∷ (0x80 + c / 64 % 64)
              ∷ (0x80 + c % 64)
              ∷ post,
        4,
      )
  unfolding utf8_encode
  encode_four e h =
      let mid : c / 64 / 64 ≡ c / 4096 = omega arith in
      let top : c / 4096 / 64 ≡ c / 262144 = omega arith in
      rw (
        e,
        encode_tail_three pre post n hp c s₀ s₁ s₂ s₃,
        mid,
        top,
        bit_or_lead4 (c / 262144) (omega arith),
        byte_id (c / 262144 + 0xf0) (omega arith),
        set-append_zero pre (s₀ ∷ _) n (c / 262144 + 0xf0) hp,
        add_comm (c / 262144) 0xf0,
      )

pub chsize_bounds : (c : ℕ) → (1 ≤ utf8_chsize c) × (utf8_chsize c ≤ 4)
unfolding utf8_chsize
chsize_bounds c = ground arith

module _ (c : ℕ) where
  size_one : utf8_chsize c ≡ 1 → (lead c ≡ (0, 1)) × (c < 0x80) × (utf8 c ≡ c ∷ [])
  unfolding utf8_chsize lead
  size_one h = ground arith

  size_two :
      utf8_chsize c ≡ 2
      → (lead c ≡ (0xc0, 2)) × (c < 0x800) × (utf8 c ≡ (0xc0 + c / 64) ∷ (0x80 + c % 64) ∷ [])
  unfolding utf8_chsize lead
  size_two h = ground arith

  size_three :
      utf8_chsize c ≡ 3
      → (lead c ≡ (0xe0, 3))
        × (c < 0x10000)
        × (utf8 c ≡ (0xe0 + c / 4096) ∷ (0x80 + c / 64 % 64) ∷ (0x80 + c % 64) ∷ [])
  unfolding utf8_chsize lead
  size_three h = ground arith

  size_four :
      utf8_chsize c ≡ 4
      → (lead c ≡ (0xf0, 4))
        × (utf8 c
            ≡ (0xf0 + c / 262144)
              ∷ (0x80 + c / 4096 % 64)
              ∷ (0x80 + c / 64 % 64)
              ∷ (0x80 + c % 64)
              ∷ [])
  unfolding utf8_chsize lead
  size_four h = ground arith

-- For a character below 2^21, utf8_encode writes exactly its UTF-8 bytes over as many slots as
-- utf8_chsize says, leaves the bytes before and after them as they were, and returns that size.
pub utf8_encode-writes :
    (pre slots post : List ℕ) (c n : ℕ)
    → c < 0x200000
    → length pre ≡ n
    → length slots ≡ utf8_chsize c
    → utf8_encode (pre ++ (slots ++ post)) n c ≡ (pre ++ (utf8 c ++ post), utf8_chsize c)
utf8_encode-writes pre [] post c n hc hp hs = absurd (omega (arith, chsize_bounds c))
utf8_encode-writes pre (s₀ ∷ []) post c n hc hp hs =
    let (e, h, w) = size_one c (sym hs) in rw (w, ← hs) (encode_one pre post n hp c s₀ 0 0 0 e h)
utf8_encode-writes pre (s₀ ∷ s₁ ∷ []) post c n hc hp hs =
    let (e, h, w) = size_two c (sym hs) in rw (w, ← hs) (encode_two pre post n hp c s₀ s₁ 0 0 e h)
utf8_encode-writes pre (s₀ ∷ s₁ ∷ s₂ ∷ []) post c n hc hp hs =
    let (e, h, w) = size_three c (sym hs) in
    rw (w, ← hs) (encode_three pre post n hp c s₀ s₁ s₂ 0 e h)
utf8_encode-writes pre (s₀ ∷ s₁ ∷ s₂ ∷ s₃ ∷ []) post c n hc hp hs =
    let (e, w) = size_four c (sym hs) in rw (w, ← hs) (encode_four pre post n hp c s₀ s₁ s₂ s₃ e hc)
utf8_encode-writes pre (s₀ ∷ s₁ ∷ s₂ ∷ s₃ ∷ s₄ ∷ r) post c n hc hp hs =
    absurd (omega (arith, chsize_bounds c))
