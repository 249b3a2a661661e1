-- ===== src/Keyboard/Reading.antt =====
-- The line that `keyboard_readline` of kernel/drivers/keyboard.c reads.
use Prim.Native.Nat.{bit_and}
use os_ax.Base.{
  ℕ, ◌+◌, ◌-◌, ◌≤◌, ◌<◌, ◌≡◌, subst, sym, ap, inl, inr, Bool, true, false, not, ◌&&◌, Option, none,
  some, List, [], ◌∷◌, arith, ◌==◌, ltb, ltb→lt, if◌then◌else◌, Bool-cases, length, get_or, set,
  length-set, get_or-set_self,
}
use os_ax.Keyboard.{
  Keyboard, Line, add_char, backspace, readline_key, readline_from, keyboard_readline, is_release,
  is_shift, num_keys, key_char,
}

-- The line and its NUL lie in the buffer.
pub record IsValid (max_len : ℕ) (line : Line) : Type 0 where
  pub room : max_len ≤ length line.buffer
  pub inside : line.pos < max_len
  pub ends : get_or line.buffer line.pos 0 ≡ 0

both : (a b : Bool) → (a && b) ≡ true → b ≡ true
both true b h = h
both false b h = cc

add_char-IsValid :
    (max_len c : ℕ) (line : Line) → IsValid max_len line → IsValid max_len (add_char max_len c line)
unfolding add_char
add_char-IsValid max_len c line v = elim (Bool-cases (not (c == 0) && ltb line.pos (max_len - 1))) [
  | inl added ↦
      let lt =
        ltb→lt line.pos (max_len - 1) (both (not (c == 0)) (ltb line.pos (max_len - 1)) added) in
      let first = set line.buffer line.pos c in
      let same = length-set line.buffer line.pos c in
      rw added (record {
        room = omega (arith, length-set first (line.pos + 1) 0, same, v.room);
        inside = omega arith;
        ends = get_or-set_self first (line.pos + 1) 0 0 (omega (arith, same, v.room));
      })
  | inr not_added ↦ rw not_added v
]

backspace-IsValid :
    (max_len : ℕ) (line : Line) → IsValid max_len line → IsValid max_len (backspace line)
unfolding backspace
backspace-IsValid max_len line v = elim (Bool-cases (line.pos == 0)) [
  | inl start ↦ rw start v
  | inr later ↦ rw later (record {
    room = omega (arith, length-set line.buffer (line.pos - 1) 0, v.room);
    inside = omega (arith, v.inside);
    ends = get_or-set_self line.buffer (line.pos - 1) 0 0 (omega (arith, v.inside, v.room));
  })
]

enter-IsValid :
    (max_len : ℕ) (line : Line)
    → IsValid max_len line
    → IsValid max_len (record line { buffer = set line.buffer line.pos 0 })
enter-IsValid max_len line v = record {
  room = omega (arith, length-set line.buffer line.pos 0, v.room);
  inside = v.inside;
  ends = get_or-set_self line.buffer line.pos 0 0 (omega (arith, v.inside, v.room));
}

-- A key's outcome has a valid line.
Keeps : ℕ → Keyboard × Line → Type 0
Keeps max_len r = IsValid max_len r.1

keeps : (max_len : ℕ) (k : Keyboard) (line : Line) → IsValid max_len line → Keeps max_len (k, line)
unfolding Keeps
keeps max_len k line v = v

if_Keeps :
    (max_len : ℕ) (b : Bool) (x y : Keyboard × Line)
    → Keeps max_len x
    → Keeps max_len y
    → Keeps max_len (if b then x else y)
if_Keeps max_len true x y hx hy = hx
if_Keeps max_len false x y hx hy = hy

readline_key-Keeps :
    (max_len scancode : ℕ) (k : Keyboard) (line : Line)
    → IsValid max_len line
    → Keeps max_len (readline_key max_len scancode k line)
unfolding readline_key
readline_key-Keeps max_len scancode k line v =
    let kept = λ (k' : Keyboard). keeps max_len k' line v in
    if_Keeps max_len (scancode == 0x0E) _ _
      (keeps max_len k (backspace line) (backspace-IsValid max_len line v))
      (if_Keeps max_len (is_release scancode) _ _
        (if_Keeps max_len (is_shift (bit_and scancode 0x7F)) _ _
          (kept (record k { shift_pressed = 0 }))
          (if_Keeps max_len (bit_and scancode 0x7F == 0x1D) _ _
            (kept (record k { ctrl_pressed = 0 })) (kept k)))
        (if_Keeps max_len (is_shift scancode) _ _ (kept (record k { shift_pressed = 1 })) (
          if_Keeps max_len (scancode == 0x1D) _ _ (kept (record k { ctrl_pressed = 1 })) (
            if_Keeps max_len (scancode == 0x3A) _ _
              (kept (record k { caps_lock = if k.caps_lock == 0 then 1 else 0 }))
              (let c = if ltb scancode num_keys then key_char k scancode else 0 in
                keeps max_len k (add_char max_len c line) (add_char-IsValid max_len c line v))))))

readline_key-IsValid :
    (max_len scancode : ℕ) (k : Keyboard) (line : Line)
    → IsValid max_len line
    → IsValid max_len (readline_key max_len scancode k line).1
unfolding Keeps
readline_key-IsValid max_len scancode k line v = readline_key-Keeps max_len scancode k line v

returned : ℕ × Keyboard × Line → Option (ℕ × Keyboard × Line) → ℕ × Keyboard × Line
returned r none = r
returned r (some r') = r'

readline_from-IsValid :
    (max_len : ℕ) (scancodes : List ℕ) (k k' : Keyboard) (line line' : Line) (n : ℕ)
    → IsValid max_len line
    → readline_from max_len scancodes k line ≡ some (n, k', line')
    → (n ≡ line'.pos) × IsValid max_len line'
unfolding readline_from returned
readline_from-IsValid max_len [] k k' line line' n v e = cc
readline_from-IsValid max_len (scancode ∷ scancodes) k k' line line' n v e =
    elim (Bool-cases (scancode == 0x1C)) [
      | inl enter ↦
          let entered : Line = record line { buffer = set line.buffer line.pos 0 } in
          let result : ℕ × Keyboard × Line = (line.pos, k, entered) in
          let same_line = ap (λ o. (returned result o).2) (simp enter at e) in
          let same_pos = ap (λ o. (returned result o).0) (simp enter at e) in
          subst (λ (l : Line). (n ≡ l.pos) × IsValid max_len l) same_line
            (sym same_pos, enter-IsValid max_len line v)
      | inr key ↦
          let r = readline_key max_len scancode k line in
          readline_from-IsValid max_len scancodes r.0 k' r.1 line' n
            (readline_key-IsValid max_len scancode k line v) (simp key at e)
    ]

-- A buffer that holds `max_len` characters, at least one, gets a line that ends with a NUL below
-- `max_len`, at the position that is returned when Enter comes; the buffer does not shrink.
pub keyboard_readline-bounds :
    (buffer : List ℕ) (max_len : ℕ) (scancodes : List ℕ) (k k' : Keyboard) (line : Line) (n : ℕ)
    → 0 < max_len
    → max_len ≤ length buffer
    → keyboard_readline buffer max_len scancodes k ≡ some (n, k', line)
    → (n < max_len) × (get_or line.buffer n 0 ≡ 0) × (max_len ≤ length line.buffer)
unfolding keyboard_readline
keyboard_readline-bounds buffer max_len scancodes k k' line n positive room e =
    let begin : IsValid max_len (record { buffer = set buffer 0 0; pos = 0 }) = record {
      room = omega (arith, length-set buffer 0 0);
      inside = positive;
      ends = get_or-set_self buffer 0 0 0 (omega arith);
    } in
    let (place, v) = readline_from-IsValid max_len scancodes k k' _ line n begin e in
    rw place (v.inside, v.ends, v.room)
