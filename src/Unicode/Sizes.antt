-- ===== src/Unicode/Sizes.antt =====
-- The table of unicode.c that sizes a character by its first byte.
use swaylock_plugin.Base.{
  ℕ, ◌<◌, ◌≤◌, ◌≡◌, refl, ap, ◌⊎◌, ◌≢◌, List, ◌∷◌, arith, ltb, leb, if◌then◌else◌, Bool, true,
  false, not, ◌&&◌, ◌||◌, ◌==◌, all_below, all_below_sound, ==_iff, Option, none, some,
}
use swaylock_plugin.Unicode.{utf8_chsize, utf8_size}
use swaylock_plugin.Unicode.Encode.{utf8}

abbrev is_size : ℕ → Option ℕ → Bool
is_size n none = false
is_size n (some m) = m == n

abbrev code_size : ℕ → ℕ
code_size b = if ltb b 0x80 then 1 else if ltb b 0xe0 then 2 else if ltb b 0xf0 then 3 else 4

lead_table :
    all_below 0xf8 (λ b. leb 0x80 b && ltb b 0xc0 || is_size (code_size b) (utf8_size b)) ≡ true
unfolding all_below utf8_size
lead_table = refl

utf8_size-code_size :
    (b : ℕ) → b < 0xf8 → (b < 0x80) ⊎ (0xc0 ≤ b) → utf8_size b ≡ some (code_size b)
utf8_size-code_size b h k = sized (utf8_size b) (code_size b) hit
  where
    sized : (o : Option ℕ) (n : ℕ) → is_size n o ≡ true → o ≡ some n
    sized none n e = cc
    sized (some m) n e = ap some ((==_iff m n).0 e)

    outside : (leb 0x80 b && ltb b 0xc0) ≡ false
    outside = ground arith

    hit : is_size (code_size b) (utf8_size b) ≡ true
    hit = rw outside at (
        all_below_sound (λ b. leb 0x80 b && ltb b 0xc0 || is_size (code_size b) (utf8_size b)) 0xf8
          b h lead_table)

-- For a character below 2^21, utf8_size of the first byte of its encoding is utf8_chsize of the
-- character.
pub utf8_size-utf8 :
    (c b : ℕ) (bs : List ℕ) → c < 0x200000 → utf8 c ≡ b ∷ bs → utf8_size b ≡ some (utf8_chsize c)
unfolding utf8_chsize
utf8_size-utf8 c b bs h e = ground (arith, utf8_size-code_size b)

never_six_table : all_below 256 (λ b. not (is_size 6 (utf8_size b))) ≡ true
unfolding all_below utf8_size
never_six_table = refl

-- No byte is sized by the row of the table for six octets.
pub utf8_size_never_six : (b : ℕ) → b < 256 → utf8_size b ≢ some 6
utf8_size_never_six b h e =
    let no_six = all_below_sound (λ b. not (is_size 6 (utf8_size b))) 256 b h never_six_table in
    cc (rw e at no_six)
