-- ===== src/Keyboard/Ring.antt =====
-- The ring of kernel/drivers/keyboard.c as a queue of scancodes.
use os_ax.Base.{
  ℕ, zero, suc, ◌+◌, ◌-◌, ◌%◌, ◌<◌, ◌≡◌, ◌≢◌, refl, sym, ap, ◌∙◌, inl, inr, none, some, List, [],
  ◌∷◌, ◌++◌, arith, ◌==◌, ==→eq, ==_false→ne, Bool-cases, length, get_or, set, length-set,
  get_or-set_self, get_or-set_ne,
}
use os_ax.Keyboard.{Keyboard, push_key, keyboard_getkey}

pub record IsValid (k : Keyboard) : Type 0 where
  pub size : length k.keyboard_buffer ≡ 256
  pub reads : k.kb_read_pos < 256
  pub writes : k.kb_write_pos < 256

-- The scancodes at `n` places from a position on.
abbrev pub entries : ℕ → ℕ → List ℕ → List ℕ
entries zero at buffer = []
entries (suc n) at buffer = get_or buffer at 0 ∷ entries n ((at + 1) % 256) buffer

-- How many scancodes wait to be read, and which.
abbrev pub waiting : Keyboard → ℕ
waiting k = (k.kb_write_pos + 256 - k.kb_read_pos) % 256

abbrev pub queue : Keyboard → List ℕ
queue k = entries (waiting k) k.kb_read_pos k.keyboard_buffer

-- A write behind the places changes none of them.
entries-set :
    (n at : ℕ) (buffer : List ℕ) (v : ℕ)
    → n < 256
    → at < 256
    → entries n at (set buffer ((at + n) % 256) v) ≡ entries n at buffer
entries-set zero at buffer v h a = refl
entries-set (suc n) at buffer v h a =
    let here = get_or-set_ne buffer ((at + suc n) % 256) at v 0 (omega arith) in
    let same : (at + suc n) % 256 ≡ ((at + 1) % 256 + n) % 256 = omega arith in
    let rest =
      ap (λ i. entries n ((at + 1) % 256) (set buffer i v)) same
      ∙ entries-set n ((at + 1) % 256) buffer v (omega arith) (omega arith) in
    rw (here, rest) refl

entries-suc :
    (n at : ℕ) (buffer : List ℕ)
    → at < 256
    → entries (suc n) at buffer ≡ entries n at buffer ++ get_or buffer ((at + n) % 256) 0 ∷ []
entries-suc zero at buffer a = ap (λ i. get_or buffer i 0 ∷ []) (omega arith)
entries-suc (suc n) at buffer a =
    let same : ((at + 1) % 256 + n) % 256 ≡ (at + suc n) % 256 = omega arith in
    ap (λ t. get_or buffer at 0 ∷ t)
      (entries-suc n ((at + 1) % 256) buffer (omega arith)
        ∙ ap (λ i. entries n ((at + 1) % 256) buffer ++ get_or buffer i 0 ∷ []) same)

-- In a valid state a scancode is put behind those that wait while fewer than 255 do, and is lost
-- when 255 do; the state is valid after it.
pub push_key_lem :
    (scancode : ℕ) (k : Keyboard)
    → IsValid k
    → IsValid (push_key scancode k)
      × (waiting k < 255 → queue (push_key scancode k) ≡ queue k ++ scancode ∷ [])
      × (waiting k ≡ 255 → push_key scancode k ≡ k)
unfolding push_key
push_key_lem scancode k v = elim (Bool-cases ((k.kb_write_pos + 1) % 256 == k.kb_read_pos)) [
  | inl full ↦ simp full (
    v,
    (λ h. absurd (
        omega
          (arith, ==→eq ((k.kb_write_pos + 1) % 256) k.kb_read_pos full, h, v.reads, v.writes))),
    λ h. refl,
  )
  | inr room ↦
      let r = k.kb_read_pos in
      let w = k.kb_write_pos in
      let n = waiting k in
      let b = set k.keyboard_buffer w scancode in
      let apart = ==_false→ne ((w + 1) % 256) r room in
      let place : (r + n) % 256 ≡ w = omega (arith, v.reads, v.writes) in
      let next : ((w + 1) % 256 + 256 - r) % 256 ≡ suc n =
        omega (arith, apart, v.reads, v.writes) in
      let old : entries n r b ≡ queue k =
        ap (λ i. entries n r (set k.keyboard_buffer i scancode)) (sym place)
        ∙ entries-set n r k.keyboard_buffer scancode (omega arith) v.reads in
      let last : get_or b ((r + n) % 256) 0 ≡ scancode =
        ap (λ i. get_or b i 0) place
        ∙ get_or-set_self k.keyboard_buffer w scancode 0 (omega (arith, v.size, v.writes)) in
      simp room (
        record {
          size = length-set k.keyboard_buffer w scancode ∙ v.size;
          reads = v.reads;
          writes = omega arith;
        },
        (λ h.
            ap (λ m. entries m r b) next
            ∙ entries-suc n r b v.reads
            ∙ ap (λ t. t ++ get_or b ((r + n) % 256) 0 ∷ []) old
            ∙ ap (λ c. queue k ++ c ∷ []) last),
        λ h. absurd (omega (arith, apart, h, v.reads, v.writes)),
      )
]

nil_cons : {c : ℕ} {cs : List ℕ} → [] ≢ c ∷ cs
nil_cons e = cc

-- In a valid state the scancode that has waited longest is the next one that is read, which leaves
-- the others and a valid state; none is read when none waits.
pub keyboard_getkey_lem :
    (k : Keyboard)
    → IsValid k
    → (queue k ≡ [] → keyboard_getkey k ≡ none)
      × ((c : ℕ) (cs : List ℕ)
          → queue k ≡ c ∷ cs
          → (k' : Keyboard) × (keyboard_getkey k ≡ some (c, k')) × IsValid k' × (queue k' ≡ cs))
unfolding keyboard_getkey
keyboard_getkey_lem k v = elim (Bool-cases (k.kb_read_pos == k.kb_write_pos)) [
  | inl empty ↦
      let same = ==→eq k.kb_read_pos k.kb_write_pos empty in
      let zero_wait : waiting k ≡ 0 = omega (arith, same, v.reads, v.writes) in
      let nothing : queue k ≡ [] = ap (λ n. entries n k.kb_read_pos k.keyboard_buffer) zero_wait in
      ((λ e. simp empty refl), λ c cs e. absurd (nil_cons (sym nothing ∙ e)))
  | inr some_wait ↦
      let apart = ==_false→ne k.kb_read_pos k.kb_write_pos some_wait in
      let k' = record k { kb_read_pos = (k.kb_read_pos + 1) % 256 } in
      let one_less : waiting k ≡ suc (waiting k') = omega (arith, apart, v.reads, v.writes) in
      let front : queue k ≡ get_or k.keyboard_buffer k.kb_read_pos 0 ∷ queue k' =
        ap (λ n. entries n k.kb_read_pos k.keyboard_buffer) one_less in
      (
        (λ e. absurd (nil_cons (sym e ∙ front))),
        λ c cs e.
            let first : get_or k.keyboard_buffer k.kb_read_pos 0 ≡ c = cc in
            (
              k',
              simp some_wait (ap (λ x. some (x, k')) first),
              record { size = v.size; reads = omega arith; writes = v.writes },
              cc,
            ),
      )
]
