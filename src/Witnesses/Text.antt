-- ===== src/Witnesses/Text.antt =====
-- The password "é" in a buffer of eight bytes: its bytes, its editing and its clearing.
use swaylock_plugin.Base.{◌≡◌, refl, List, [], ◌∷◌, arith, replicate, some}
use swaylock_plugin.Unicode.{utf8_chsize, utf8_encode, utf8_last_size, utf8_size}
use swaylock_plugin.Unicode.Encode.{utf8_encode-writes}
use swaylock_plugin.Unicode.Scan.{utf8_last_size-utf8}
use swaylock_plugin.Unicode.Sizes.{utf8_size-utf8}
use swaylock_plugin.Password.{SwaylockPassword, clear_password_buffer}
use swaylock_plugin.Password.Text.{Holds, clear_password_buffer-Holds}
use swaylock_plugin.Password.Edits.{Edit, letter, erase, edits, edits-Holds, Refines}

abbrev pub typed : SwaylockPassword
typed = record { len = 2; buffer_len = 8; buffer = 0xc3 ∷ 0xa9 ∷ 0 ∷ 0 ∷ 0 ∷ 0 ∷ 0 ∷ 0 ∷ [] }

pub typed-Holds : Holds typed (0xe9 ∷ [])
typed-Holds = record {
  rest = 0 ∷ 0 ∷ 0 ∷ 0 ∷ 0 ∷ [];
  layout = refl;
  counted = refl;
  sized = refl;
  small = omega arith;
  codes = ((omega arith, omega arith), tt);
}

-- A euro sign that fits, a letter, a second euro sign that does not fit, and a backspace.
abbrev session : List Edit
session = letter 0x20ac ∷ letter 0x61 ∷ letter 0x20ac ∷ erase ∷ []

edits-Holds_example : Refines typed (0x20ac ∷ 0xe9 ∷ []) (edits typed session)
unfolding utf8_chsize
edits-Holds_example = edits-Holds typed (0xe9 ∷ []) session typed-Holds (
  (omega arith, omega arith),
  ((omega arith, omega arith), ((omega arith, omega arith), (tt, tt))),
)

clear_password_buffer-Holds_example :
    ((clear_password_buffer typed).buffer ≡ replicate 8 0) × Holds (clear_password_buffer typed) []
clear_password_buffer-Holds_example = clear_password_buffer-Holds typed (0xe9 ∷ []) typed-Holds

utf8_encode-writes_example :
    utf8_encode (0x41 ∷ 0 ∷ 0 ∷ 0 ∷ 7 ∷ []) 1 0x20ac ≡ (0x41 ∷ 0xe2 ∷ 0x82 ∷ 0xac ∷ 7 ∷ [], 3)
unfolding utf8_chsize
utf8_encode-writes_example =
    utf8_encode-writes (0x41 ∷ []) (0 ∷ 0 ∷ 0 ∷ []) (7 ∷ []) 0x20ac 1 (omega arith) refl refl

utf8_last_size-utf8_example : utf8_last_size (0x41 ∷ 0xe2 ∷ 0x82 ∷ 0xac ∷ 0 ∷ 7 ∷ []) ≡ some 3
unfolding utf8_chsize
utf8_last_size-utf8_example =
    utf8_last_size-utf8 (0x41 ∷ []) (7 ∷ []) 0x20ac ((omega arith, omega arith), tt) (omega arith)
      (omega arith)

utf8_size-utf8_example : utf8_size 0xe2 ≡ some 3
unfolding utf8_chsize
utf8_size-utf8_example = utf8_size-utf8 0x20ac 0xe2 (0x82 ∷ 0xac ∷ []) (omega arith) refl
