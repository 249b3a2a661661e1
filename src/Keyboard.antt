-- ===== src/Keyboard.antt =====
-- kernel/drivers/keyboard.c: the ring of scancodes that the interrupt fills, the modifier keys, and
-- the reading of a line. What comes from the ports is an argument.
pub mod Ring
pub mod Keys
pub mod Reading
mod Tests
use Prim.Native.Nat.{bit_and}
use os_ax.Base.{
  ℕ, zero, suc, ◌+◌, ◌-◌, ◌%◌, Bool, true, false, not, ◌&&◌, ◌||◌, Option, none, some, List, [],
  ◌∷◌, ◌==◌, ltb, leb, if◌then◌else◌, get_or, set,
}

-- The statics of the file. The flags are 0 or 1.
pub record Keyboard : Type 0 where
  pub keyboard_buffer : List ℕ
  pub kb_read_pos : ℕ
  pub kb_write_pos : ℕ
  pub shift_pressed : ℕ
  pub ctrl_pressed : ℕ
  pub alt_pressed : ℕ
  pub caps_lock : ℕ

abbrev pub scancode_to_ascii : List ℕ
scancode_to_ascii =
    0 ∷ 27 ∷ 49 ∷ 50 ∷ 51 ∷ 52 ∷ 53 ∷ 54 ∷ 55 ∷ 56 ∷ 57 ∷ 48 ∷ 45 ∷ 61 ∷ 8 ∷ 9 ∷ 113 ∷ 119 ∷ 101
    ∷ 114 ∷ 116 ∷ 121 ∷ 117 ∷ 105 ∷ 111 ∷ 112 ∷ 91 ∷ 93 ∷ 10 ∷ 0 ∷ 97 ∷ 115 ∷ 100 ∷ 102 ∷ 103 ∷ 104
    ∷ 106 ∷ 107 ∷ 108 ∷ 59 ∷ 39 ∷ 96 ∷ 0 ∷ 92 ∷ 122 ∷ 120 ∷ 99 ∷ 118 ∷ 98 ∷ 110 ∷ 109 ∷ 44 ∷ 46 ∷ 47
    ∷ 0 ∷ 42 ∷ 0 ∷ 32 ∷ []

abbrev pub scancode_to_ascii_shift : List ℕ
scancode_to_ascii_shift =
    0 ∷ 27 ∷ 33 ∷ 64 ∷ 35 ∷ 36 ∷ 37 ∷ 94 ∷ 38 ∷ 42 ∷ 40 ∷ 41 ∷ 95 ∷ 43 ∷ 8 ∷ 9 ∷ 81 ∷ 87 ∷ 69 ∷ 82
    ∷ 84 ∷ 89 ∷ 85 ∷ 73 ∷ 79 ∷ 80 ∷ 123 ∷ 125 ∷ 10 ∷ 0 ∷ 65 ∷ 83 ∷ 68 ∷ 70 ∷ 71 ∷ 72 ∷ 74 ∷ 75 ∷ 76
    ∷ 58 ∷ 34 ∷ 126 ∷ 0 ∷ 124 ∷ 90 ∷ 88 ∷ 67 ∷ 86 ∷ 66 ∷ 78 ∷ 77 ∷ 60 ∷ 62 ∷ 63 ∷ 0 ∷ 42 ∷ 0 ∷ 32
    ∷ []

-- `sizeof(scancode_to_ascii)`
abbrev pub num_keys : ℕ
num_keys = 58

abbrev pub is_shift : ℕ → Bool
is_shift scancode = (scancode == 0x2A) || (scancode == 0x36)

-- The high bit tells that a key is released.
abbrev pub is_release : ℕ → Bool
is_release scancode = not (bit_and scancode 0x80 == 0)

unfoldable pub release_key : ℕ → Keyboard → Keyboard
release_key scancode k =
    if is_shift scancode
    then record k { shift_pressed = 0 }
    else if scancode == 0x1D
    then record k { ctrl_pressed = 0 }
    else if scancode == 0x38
    then record k { alt_pressed = 0 }
    else k

-- A scancode is put into the ring, or lost when the ring is full.
unfoldable pub push_key : ℕ → Keyboard → Keyboard
push_key scancode k =
    let next_pos = (k.kb_write_pos + 1) % 256 in
    if next_pos == k.kb_read_pos then k else record k {
      keyboard_buffer = set k.keyboard_buffer k.kb_write_pos scancode;
      kb_write_pos = next_pos;
    }

-- The interrupt with a scancode from the port.
unfoldable pub keyboard_handler : ℕ → Keyboard → Keyboard
unfolding release_key push_key
keyboard_handler scancode k =
    if is_release scancode
    then release_key (bit_and scancode 0x7F) k
    else if is_shift scancode
    then record k { shift_pressed = 1 }
    else if scancode == 0x1D
    then record k { ctrl_pressed = 1 }
    else if scancode == 0x38
    then record k { alt_pressed = 1 }
    else if scancode == 0x3A
    then record k { caps_lock = if k.caps_lock == 0 then 1 else 0 }
    else if scancode == 0xE0
    then k
    else push_key scancode k

unfoldable pub keyboard_init : Keyboard → Keyboard
keyboard_init k = record k {
  kb_read_pos = 0;
  kb_write_pos = 0;
  shift_pressed = 0;
  ctrl_pressed = 0;
  alt_pressed = 0;
  caps_lock = 0;
}

abbrev pub keyboard_available : Keyboard → Bool
keyboard_available k = not (k.kb_read_pos == k.kb_write_pos)

-- `none` while the ring is empty: the code waits.
unfoldable pub keyboard_getkey : Keyboard → Option (ℕ × Keyboard)
keyboard_getkey k =
    if keyboard_available k
    then some (
      get_or k.keyboard_buffer k.kb_read_pos 0,
      record k { kb_read_pos = (k.kb_read_pos + 1) % 256 },
    )
    else none

abbrev pub is_upper : ℕ → Bool
is_upper c = leb 65 c && leb c 90

-- The character of a key that is in the tables.
unfoldable pub key_char : Keyboard → ℕ → ℕ
key_char k scancode =
    let shift = not (k.shift_pressed == 0) in
    let caps = not (k.caps_lock == 0) in
    let plain = get_or scancode_to_ascii scancode 0 in
    let shifted = get_or scancode_to_ascii_shift scancode 0 in
    if shift || caps
    then if caps && is_upper shifted && not shift then plain else shifted
    else plain

unfoldable pub keyboard_getchar : Keyboard → Option (ℕ × Keyboard)
keyboard_getchar k = elim (keyboard_getkey k) [
  | none ↦ none
  | some r ↦
      let (scancode, k') = r in some (if leb num_keys scancode then 0 else key_char k' scancode, k')
]

-- The state of `keyboard_readline`: its buffer and the position.
pub record Line : Type 0 where
  pub buffer : List ℕ
  pub pos : ℕ

-- A character that is put behind the line, if there is room for it and the NUL.
unfoldable pub add_char : ℕ → ℕ → Line → Line
add_char max_len c line =
    if not (c == 0) && ltb line.pos (max_len - 1)
    then record { buffer = set (set line.buffer line.pos c) (line.pos + 1) 0; pos = line.pos + 1 }
    else line

unfoldable pub backspace : Line → Line
backspace line =
    if line.pos == 0
    then line
    else record { buffer = set line.buffer (line.pos - 1) 0; pos = line.pos - 1 }

-- A key other than Enter.
unfoldable pub readline_key : ℕ → ℕ → Keyboard → Line → Keyboard × Line
unfolding add_char backspace key_char
readline_key max_len scancode k line =
    let released = bit_and scancode 0x7F in
    if scancode == 0x0E
    then (k, backspace line)
    else if is_release scancode
    then (if is_shift released
        then (record k { shift_pressed = 0 }, line)
        else if released == 0x1D
        then (record k { ctrl_pressed = 0 }, line)
        else (k, line))
    else if is_shift scancode
    then (record k { shift_pressed = 1 }, line)
    else if scancode == 0x1D
    then (record k { ctrl_pressed = 1 }, line)
    else if scancode == 0x3A
    then (record k { caps_lock = if k.caps_lock == 0 then 1 else 0 }, line)
    else (k, add_char max_len (if ltb scancode num_keys then key_char k scancode else 0) line)

-- The loop over the scancodes that come from the port, up to Enter; `none` while the code waits for
-- more.
unfoldable pub readline_from : ℕ → List ℕ → Keyboard → Line → Option (ℕ × Keyboard × Line)
unfolding readline_key
readline_from max_len [] k line = none
readline_from max_len (scancode ∷ scancodes) k line =
    let (k', line') = readline_key max_len scancode k line in
    let rest = readline_from max_len scancodes k' line' in
    if scancode == 0x1C
    then some (line.pos, k, record line { buffer = set line.buffer line.pos 0 })
    else rest

unfoldable pub keyboard_readline : List ℕ → ℕ → List ℕ → Keyboard → Option (ℕ × Keyboard × Line)
unfolding readline_from
keyboard_readline buffer max_len scancodes k =
    readline_from max_len scancodes k (record { buffer = set buffer 0 0; pos = 0 })
