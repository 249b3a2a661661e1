-- ===== src/MetaFs/Infer.antt =====
-- What `metafs_infer_type` of kernel/fs/metafs/metafs.c tells text files to be.
use os_ax.Base.{
  ℕ, zero, suc, ◌+◌, ◌*◌, ◌/◌, ◌≤◌, ◌<◌, ◌≡◌, refl, ◌∙◌, inl, inr, true, false, List, [], ◌∷◌,
  arith, ltb, leb, if◌then◌else◌, length, min, get_or, Bool-cases, ltb-false, lt→ltb, ltb→lt,
  not-ltb→le, ne→==_false,
}
use os_ax.Base.Words.{u8}
use os_ax.MetaFs.{document, raw_data, is_printable, count_printable, infer_type}

-- The first `n` bytes are there and all printable.
unfoldable pub ArePrintable : ℕ → List ℕ → Type 0
ArePrintable zero bytes = Unit
ArePrintable (suc n) [] = ⊥
ArePrintable (suc n) (b ∷ bytes) = (is_printable b ≡ true) × ArePrintable n bytes

count_printable-ArePrintable :
    (n : ℕ) (bytes : List ℕ) (count : ℕ)
    → count < 256
    → ArePrintable n bytes
    → count_printable n bytes count ≡ u8 (count + n)
unfolding count_printable ArePrintable
count_printable-ArePrintable zero bytes count lt p = omega arith
count_printable-ArePrintable (suc n) [] count lt p = elim p [ ]
count_printable-ArePrintable (suc n) (b ∷ bytes) count lt (here, rest) =
    rw here (count_printable-ArePrintable n bytes (u8 (count + 1)) (omega arith) rest ∙ omega arith)

-- A printable byte is below 127, and starts none of the formats that are known.
printable_bound : (b : ℕ) → is_printable b ≡ true → b < 127
printable_bound b h = ground arith

ArePrintable-first :
    (n : ℕ) (bytes : List ℕ) → ArePrintable n bytes → 0 < n → get_or bytes 0 0 < 127
unfolding ArePrintable
ArePrintable-first zero bytes p h = elim h [ ]
ArePrintable-first (suc n) [] p h = elim p [ ]
ArePrintable-first (suc n) (b ∷ bytes) (here, rest) h = printable_bound b here

-- Text is told from its count of printable bytes alone.
infer_type-text :
    (bytes : List ℕ)
    → 4 ≤ length bytes
    → ArePrintable (min (length bytes) 256) bytes
    → infer_type bytes ≡ (
        if ltb (min (length bytes) 256 * 9 / 10) (u8 (min (length bytes) 256))
        then document
        else raw_data)
unfolding infer_type
infer_type-text bytes size printable =
    let first = get_or bytes 0 0 in
    let seen = min (length bytes) 256 in
    let counted : count_printable seen bytes 0 ≡ u8 seen =
      count_printable-ArePrintable seen bytes 0 (omega arith) printable ∙ omega arith in
    let low = ArePrintable-first (min (length bytes) 256) bytes printable (omega arith) in
    rw
      (
        ltb-false (length bytes) 4 size,
        ne→==_false first 0x7F (omega arith),
        ne→==_false first 0x89 (omega arith),
        ne→==_false first 0xFF (omega arith),
      )
      (elim (Bool-cases (leb 8 (length bytes))) [
        | inl long ↦ rw (long, counted) refl
        | inr short ↦ rw (short, counted) refl
      ])

-- Printable text of 4 to 255 bytes is told to be a document; of 256 bytes or more, where the count
-- comes back to zero, it is not.
pub infer_type-printable :
    (bytes : List ℕ)
    → 4 ≤ length bytes
    → ArePrintable (min (length bytes) 256) bytes
    → infer_type bytes ≡ (if ltb (length bytes) 256 then document else raw_data)
infer_type-printable bytes size printable =
    infer_type-text bytes size printable ∙ (elim (Bool-cases (ltb (length bytes) 256)) [
      | inl short ↦
          let lt = ltb→lt (length bytes) 256 short in
          let more : ltb (min (length bytes) 256 * 9 / 10) (u8 (min (length bytes) 256)) ≡ true =
            lt→ltb _ _ (omega arith) in
          rw (short, more) refl
      | inr long ↦
          let ge = not-ltb→le (length bytes) 256 long in
          let no_more : ltb (min (length bytes) 256 * 9 / 10) (u8 (min (length bytes) 256))
              ≡ false =
            ltb-false _ _ (omega arith) in
          rw (long, no_more) refl
    ])
