-- ===== src/Unicode.antt =====
-- unicode.c: UTF-8 sizes, the encoder that writes into a buffer, and the backward scan that finds
-- the last character of a C string. A `char` is a number below 256; a read outside the buffer is
-- the fault `none`.
pub mod Encode
pub mod Scan
pub mod Sizes
use swaylock_plugin.Base.{
  ℕ, zero, suc, ◌+◌, ◌-◌, ◌*◌, ◌/◌, Bool, true, false, List, [], ◌∷◌, Option, none, some, bit_and,
  bit_or, u8, ltb, ◌==◌, if◌then◌else◌, set, get_elem?,
}

unfoldable pub utf8_chsize : ℕ → ℕ
utf8_chsize ch =
    if ltb ch 0x80 then 1 else if ltb ch 0x800 then 2 else if ltb ch 0x10000 then 3 else 4

-- The if-chain of `utf8_encode`: the marker bits of the first byte, and the length.
pub lead : ℕ → ℕ × ℕ
lead ch =
    if ltb ch 0x80
    then (0, 1)
    else if ltb ch 0x800
    then (0xc0, 2)
    else if ltb ch 0x10000
    then (0xe0, 3)
    else (0xf0, 4)

-- `for (i = len - 1; i > 0; --i) { str[i] = (ch & 0x3f) | 0x80; ch >>= 6; }`, with `str` the
-- buffer at `off`.
pub encode_tail : ℕ → List ℕ → ℕ → ℕ → List ℕ × ℕ
encode_tail zero buf off ch = (buf, ch)
encode_tail (suc i) buf off ch =
    encode_tail i (set buf (off + suc i) (u8 (bit_or (bit_and ch 0x3f) 0x80))) off (ch / 64)

-- Writes the character at `off` and returns the buffer and the length.
pub utf8_encode : List ℕ → ℕ → ℕ → List ℕ × ℕ
utf8_encode buf off ch =
    let (first, len) = lead ch in
    let (buf', ch') = encode_tail (len - 1) buf off ch in
    (set buf' off (u8 (bit_or ch' first)), len)

-- `strchr(str, '\0') - str`.
pub strlen : List ℕ → Option ℕ
strlen [] = none
strlen (c ∷ cs) =
    let rest = strlen cs in
    if c == 0 then some 0 else elim rest [ none ↦ none | some n ↦ some (suc n) ]

-- The `while (pos > str)` loop: `pos` is an index, and 0 is returned when it reaches the start.
pub scan_back : List ℕ → ℕ → ℕ → Option ℕ
scan_back str zero len = some 0
scan_back str (suc pos) len =
    let more = scan_back str pos (len + 1) in
    elim (get_elem? str pos) [
      | none ↦ none
      | some c ↦ if bit_and c 0xc0 == 0x80 then more else some (len + 1)
    ]

pub utf8_last_size : List ℕ → Option ℕ
unfolding strlen scan_back
utf8_last_size str = elim (strlen str) [ none ↦ none | some n ↦ scan_back str n 0 ]

-- One row of the table `sizes`; `none` is -1.
pub record SizeRow : Type 0 where
  pub mask : ℕ
  pub result : ℕ
  pub octets : Option ℕ

abbrev row : ℕ → ℕ → Option ℕ → SizeRow
row m r o = record { mask = m; result = r; octets = o }

abbrev pub sizes : List SizeRow
sizes =
    row 0x80 0x00 (some 1)
    ∷ row 0xE0 0xC0 (some 2)
    ∷ row 0xF0 0xE0 (some 3)
    ∷ row 0xF8 0xF0 (some 4)
    ∷ row 0xFC 0xF8 (some 5)
    ∷ row 0xFE 0xF8 (some 6)
    ∷ row 0x80 0x80 none
    ∷ []

pub size_in : List SizeRow → ℕ → Option ℕ
size_in [] c = none
size_in (r ∷ rs) c =
    let rest = size_in rs c in if bit_and c r.mask == r.result then r.octets else rest

-- `utf8_size` of the string that starts with byte `c`.
pub utf8_size : ℕ → Option ℕ
unfolding size_in
utf8_size c = size_in sizes c
