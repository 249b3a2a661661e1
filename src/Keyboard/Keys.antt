-- ===== src/Keyboard/Keys.antt =====
-- What the tables of kernel/drivers/keyboard.c give for a key while Caps Lock is on.
use os_ax.Base.{
  ℕ, zero, suc, ◌+◌, ◌-◌, Bool, true, not, ◌&&◌, List, [], ◌∷◌, ◌==◌, leb, if◌then◌else◌, get_or,
}
use os_ax.Keyboard.{Keyboard, scancode_to_ascii, scancode_to_ascii_shift, is_upper}

-- The rows of letters of a US keyboard, from the scancodes 16, 30 and 44 on: "qwertyuiop",
-- "asdfghjkl" and "zxcvbnm".
pub top_row : List ℕ
top_row = b'q' ∷ b'w' ∷ b'e' ∷ b'r' ∷ b't' ∷ b'y' ∷ b'u' ∷ b'i' ∷ b'o' ∷ b'p' ∷ []

pub home_row : List ℕ
home_row = b'a' ∷ b's' ∷ b'd' ∷ b'f' ∷ b'g' ∷ b'h' ∷ b'j' ∷ b'k' ∷ b'l' ∷ []

pub bottom_row : List ℕ
bottom_row = b'z' ∷ b'x' ∷ b'c' ∷ b'v' ∷ b'b' ∷ b'n' ∷ b'm' ∷ []

-- The small letter of a key, 0 for the keys that have none.
pub letter : ℕ → ℕ
letter scancode =
    if leb 44 scancode
    then get_or bottom_row (scancode - 44) 0
    else if leb 30 scancode
    then get_or home_row (scancode - 30) 0
    else if leb 16 scancode
    then get_or top_row (scancode - 16) 0
    else 0

-- What the tables say of a key, against the rows.
agrees : ℕ → Bool
agrees scancode =
    let shifted = get_or scancode_to_ascii_shift scancode 0 in
    if letter scancode == 0
    then not (is_upper shifted)
    else is_upper shifted
      && (get_or scancode_to_ascii scancode 0 == letter scancode)
      && (shifted + 32 == letter scancode)

all_below : (ℕ → Bool) → ℕ → Bool
all_below p zero = true
all_below p (suc n) = let rest = all_below p n in p n && rest

-- The characters of a key, without Shift and Caps Lock and with Shift.
abbrev plain : ℕ → ℕ
plain scancode = get_or scancode_to_ascii scancode 0

abbrev shifted : ℕ → ℕ
shifted scancode = get_or scancode_to_ascii_shift scancode 0
