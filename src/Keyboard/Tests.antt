-- ===== src/Keyboard/Tests.antt =====
-- kernel/drivers/keyboard.c with a few keys.
use os_ax.Base.{
  ℕ, ◌≤◌, ◌<◌, ◌≡◌, refl, none, some, List, [], ◌∷◌, ◌++◌, arith, length, get_or, replicate,
}
use os_ax.Keyboard.{Keyboard, push_key, keyboard_getkey, keyboard_readline}
use os_ax.Keyboard.Ring
use os_ax.Keyboard.Ring.{waiting, queue, push_key_lem, keyboard_getkey_lem}
use os_ax.Keyboard.Reading.{keyboard_readline-bounds}

-- One scancode waits, at the last place.
abbrev one_key : Keyboard
one_key = record {
  keyboard_buffer = replicate 256 0x1E;
  kb_read_pos = 255;
  kb_write_pos = 0;
  shift_pressed = 0;
  ctrl_pressed = 0;
  alt_pressed = 0;
  caps_lock = 1;
}

one_key-IsValid : Ring.IsValid one_key
one_key-IsValid = record { size = refl; reads = omega arith; writes = omega arith }

push_key_lem_example :
    Ring.IsValid (push_key 0x30 one_key)
    × (waiting one_key < 255 → queue (push_key 0x30 one_key) ≡ queue one_key ++ 0x30 ∷ [])
    × (waiting one_key ≡ 255 → push_key 0x30 one_key ≡ one_key)
push_key_lem_example = push_key_lem 0x30 one_key one_key-IsValid

keyboard_getkey_lem_example :
    (queue one_key ≡ [] → keyboard_getkey one_key ≡ none)
    × ((c : ℕ) (cs : List ℕ)
        → queue one_key ≡ c ∷ cs
        → (k' : Keyboard) × (keyboard_getkey one_key ≡ some (c, k'))
          × Ring.IsValid k'
          × (queue k' ≡ cs))
keyboard_getkey_lem_example = keyboard_getkey_lem one_key one_key-IsValid

abbrev caps_on : Keyboard
caps_on = record one_key { caps_lock = 1 }

abbrev read_line : List ℕ
read_line = 97 ∷ 0 ∷ 0 ∷ 7 ∷ []

-- The keys a and b, Backspace, and Enter, into four characters.
abbrev typed : List ℕ
typed = 0x1E ∷ 0x30 ∷ 0x0E ∷ 0x1C ∷ []

readline-typed :
    keyboard_readline (7 ∷ 7 ∷ 7 ∷ 7 ∷ []) 4 typed one_key
    ≡ some (1, one_key, record { buffer = read_line; pos = 1 })
unfolding keyboard_readline
readline-typed = refl

keyboard_readline-bounds_example : (1 < 4) × (get_or read_line 1 0 ≡ 0) × (4 ≤ length read_line)
keyboard_readline-bounds_example =
    keyboard_readline-bounds (7 ∷ 7 ∷ 7 ∷ 7 ∷ []) 4 typed one_key one_key
      (record { buffer = read_line; pos = 1 }) 1 (omega arith) (omega arith) readline-typed
