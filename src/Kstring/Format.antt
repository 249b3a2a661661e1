-- ===== src/Kstring/Format.antt =====
-- `ksprintf` of kernel/lib/kstring_util.c. An argument that is missing or of another kind than its
-- directive, a directive cut off by the end of the format, and a write behind the end of the digit
-- buffer are faults.
use Prim.Native.Nat.{bit_and}
use os_ax.Base.{
  ℕ, zero, suc, ◌+◌, ◌-◌, ◌*◌, ◌/◌, ◌^◌, ◌≤◌, ◌<◌, ◌≡◌, ◌≢◌, inl, inr, Bool, ◌&&◌, ◌||◌, Option,
  none, some, List, [], ◌∷◌, ◌++◌, arith, ◌==◌, leb, if◌then◌else◌, length, get_or, replicate,
  Bool-cases,
}
use os_ax.Base.Outcome.{Outcome, done, fault, out_of_fuel, ◌>>=◌, bind_returns, if_returns}
use os_ax.Base.Words.{u8, u32}
use os_ax.Kstring.{CString}
use os_ax.Kstring.Number.{digits, write_back}
use os_ax.Kstring.Hex.{hex}

-- What stands behind the format in a call.
pub data Arg : Type 0 where
  num : ℕ → Arg
  text : Option CString → Arg

abbrev pub is_digit : ℕ → Bool
is_digit c = leb 48 c && leb c 57

-- The loop of `%x`: hexadecimal digits, lowest first.
unfoldable pub low_digits : ℕ → ℕ → List ℕ
low_digits zero val = []
low_digits (suc room) val =
    let rest = low_digits room (val / 2 ^ 4) in
    if val == 0 then [] else get_or hex (bit_and val 0xF) 0 ∷ rest

-- Zero is one digit.
abbrev pub some_digit : ℕ → List ℕ → List ℕ
some_digit val ds = if val == 0 then 48 ∷ [] else ds

-- The digits padded up to `width` in `buf` of 16 places, and written in the correct order.
unfoldable pub padded : ℕ → ℕ → List ℕ → Outcome CString
padded width pad_char ds =
    let buf = ds ++ replicate (width - length ds) pad_char in
    if leb (length buf) 16 then done (write_back buf []) else fault

-- The loop over the digits of the width.
unfoldable pub parse_width : CString → ℕ → ℕ × CString
parse_width [] width = (width, [])
parse_width (c ∷ s) width =
    let rest = parse_width s (width * 10 + (c - 48)) in if is_digit c then rest else (width, c ∷ s)

-- "(null)"
abbrev pub null_str : CString
null_str = 40 ∷ 110 ∷ 117 ∷ 108 ∷ 108 ∷ 41 ∷ []

-- The directives that take an argument: the characters are d, u, x, s and c.
unfoldable pub convert_arg : ℕ → ℕ → ℕ → Arg → Outcome CString
convert_arg c width pad_char (num val) =
    if (c == 100) || (c == 117)
    then padded width pad_char (some_digit (u32 val) (digits 16 (u32 val)))
    else if c == 120
    then padded width pad_char (some_digit (u32 val) (low_digits 16 (u32 val)))
    else if c == 99
    then done (u8 val ∷ [])
    else fault
convert_arg c width pad_char (text none) = if c == 115 then done null_str else fault
convert_arg c width pad_char (text (some s)) = if c == 115 then done s else fault

-- `va_arg` and what it is converted to.
unfoldable pub next_arg : ℕ → ℕ → ℕ → List Arg → Outcome (CString × List Arg)
next_arg c width pad_char [] = fault
next_arg c width pad_char (a ∷ args) = do s ← convert_arg c width pad_char a; done (s, args)

-- The `switch`: what is written for a directive, and the arguments left.
unfoldable pub convert : ℕ → ℕ → ℕ → List Arg → Outcome (CString × List Arg)
convert c width pad_char args =
    if (c == 100) || (c == 117) || (c == 120) || (c == 115) || (c == 99)
    then next_arg c width pad_char args
    else if c == 37
    then done (37 ∷ [], args)
    else done (37 ∷ c ∷ [], args)

-- `*format == '0'`, then the width.
abbrev pub directive : CString → ℕ × ℕ × CString
directive [] = (0, 32, [])
directive (c ∷ s) =
    let zero_padded = parse_width s 0 in
    let plain = parse_width (c ∷ s) 0 in
    if c == 48 then (zero_padded.0, 48, zero_padded.1) else (plain.0, 32, plain.1)

-- One directive: what it writes, the arguments and the format left.
unfoldable pub take_directive : List Arg → ℕ × ℕ × CString → Outcome (CString × List Arg × CString)
take_directive args (width, pad_char, []) = fault
take_directive args (width, pad_char, c ∷ s) = do
  r ← convert c width pad_char args
  done (r.0, r.1, s)

-- The loop over the format; each round takes at least one character of it.
unfoldable pub format_from : ℕ → CString → List Arg → Outcome CString
format_from zero format args = out_of_fuel
format_from (suc fuel) [] args = done []
format_from (suc fuel) (c ∷ []) args = done (c ∷ [])
format_from (suc fuel) (c ∷ d ∷ s) args =
    if c == 37
    then (do
      r ← take_directive args (directive (d ∷ s))
      rest ← format_from fuel r.2 r.1
      done (r.0 ++ rest))
    else (do rest ← format_from fuel (d ∷ s) args; done (c ∷ rest))

-- The characters written in front of the NUL; their number is what is returned.
unfoldable pub ksprintf : CString → List Arg → Outcome CString
ksprintf format args = format_from (suc (length format)) format args

-- What a directive leaves of the format is shorter.
parse_width-length : (s : CString) (width : ℕ) → length (parse_width s width).1 ≤ length s
unfolding parse_width
parse_width-length [] width = omega arith
parse_width-length (c ∷ s) width =
    let rest = parse_width-length s (width * 10 + (c - 48)) in
    elim (Bool-cases (is_digit c)) [ inl e ↦ simp e (omega arith) | inr e ↦ simp e (omega arith) ]

directive-length : (c : ℕ) (s : CString) → length (directive (c ∷ s)).2 ≤ suc (length s)
directive-length c s =
    let padded_left = parse_width-length s 0 in
    let plain_left = parse_width-length (c ∷ s) 0 in
    elim (Bool-cases (c == 48)) [ inl e ↦ simp e (omega arith) | inr e ↦ simp e (omega arith) ]

padded-returns : (width pad_char : ℕ) (ds : List ℕ) → padded width pad_char ds ≢ out_of_fuel
unfolding padded
padded-returns width pad_char ds =
    elim (Bool-cases (leb (length (ds ++ replicate (width - length ds) pad_char)) 16)) [
      | inl e ↦ λ x. cc (simp e at x)
      | inr e ↦ λ x. cc (simp e at x)
    ]

convert_arg-returns :
    (c width pad_char : ℕ) (a : Arg) → convert_arg c width pad_char a ≢ out_of_fuel
unfolding convert_arg
convert_arg-returns c width pad_char (num val) =
    if_returns ((c == 100) || (c == 117)) _ _ (padded-returns width pad_char _) (
      if_returns (c == 120) _ _ (padded-returns width pad_char _)
        (if_returns (c == 99) _ _ (λ e. cc) (λ e. cc)))
convert_arg-returns c width pad_char (text none) = if_returns (c == 115) _ _ (λ e. cc) (λ e. cc)
convert_arg-returns c width pad_char (text (some s)) = if_returns (c == 115) _ _ (λ e. cc) (λ e. cc)

next_arg-returns :
    (c width pad_char : ℕ) (args : List Arg) → next_arg c width pad_char args ≢ out_of_fuel
unfolding next_arg
next_arg-returns c width pad_char [] = λ e. cc
next_arg-returns c width pad_char (a ∷ args) =
    bind_returns (convert_arg c width pad_char a) _ (convert_arg-returns c width pad_char a)
      (λ s eq e. cc)

convert-returns :
    (c width pad_char : ℕ) (args : List Arg) → convert c width pad_char args ≢ out_of_fuel
unfolding convert
convert-returns c width pad_char args =
    if_returns ((c == 100) || (c == 117) || (c == 120) || (c == 115) || (c == 99)) _ _
      (next_arg-returns c width pad_char args) (if_returns (c == 37) _ _ (λ e. cc) (λ e. cc))

take_directive-returns :
    (args : List Arg) (d : ℕ × ℕ × CString) → take_directive args d ≢ out_of_fuel
unfolding take_directive
take_directive-returns args (width, pad_char, []) = λ e. cc
take_directive-returns args (width, pad_char, c ∷ s) =
    bind_returns (convert c width pad_char args) _ (convert-returns c width pad_char args)
      (λ r eq e. cc)

take_directive-left :
    (args : List Arg) (d : ℕ × ℕ × CString) (r : CString × List Arg × CString)
    → take_directive args d ≡ done r
    → length r.2 < length d.2
unfolding take_directive
take_directive-left args (width, pad_char, []) r e = cc
take_directive-left args (width, pad_char, c ∷ s) r e = left (convert c width pad_char args) e
  where
    left :
        (o : Outcome (CString × List Arg))
        → (o >>= λ p. done (p.0, p.1, s)) ≡ done r
        → length r.2 < suc (length s)
    left (done p) e = ground arith
    left fault e = cc
    left out_of_fuel e = cc

-- One round for each character is enough.
format_from-returns :
    (fuel : ℕ) (format : CString) (args : List Arg)
    → length format < fuel
    → format_from fuel format args ≢ out_of_fuel
unfolding format_from
format_from-returns zero format args h = elim h [ ]
format_from-returns (suc fuel) [] args h = λ e. cc
format_from-returns (suc fuel) (c ∷ []) args h = λ e. cc
format_from-returns (suc fuel) (c ∷ d ∷ s) args h = elim (Bool-cases (c == 37)) [
  | inl is ↦ simp is (
      bind_returns (take_directive args (directive (d ∷ s))) _
        (take_directive-returns args (directive (d ∷ s)))
        (λ r eq.
          bind_returns (format_from fuel r.2 r.1) _
            (format_from-returns fuel r.2 r.1 (
              omega
                (arith, take_directive-left args (directive (d ∷ s)) r eq, directive-length d s)))
            (λ rest _ e. cc)))
  | inr isnt ↦ simp isnt (
      bind_returns (format_from fuel (d ∷ s) args) _
        (format_from-returns fuel (d ∷ s) args (omega arith)) (λ rest _ e. cc))
]

-- One round for each character is enough for `ksprintf`, also where it ends with a fault.
pub ksprintf-returns : (format : CString) (args : List Arg) → ksprintf format args ≢ out_of_fuel
unfolding ksprintf
ksprintf-returns format args = format_from-returns (suc (length format)) format args (omega arith)
