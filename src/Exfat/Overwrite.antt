-- ===== src/Exfat/Overwrite.antt =====
-- The loop of `exfat_write` of kernel/fs/exfat/exfat_fileops.c on a chain that is long enough.
use os_ax.Base.{
  ℕ, zero, suc, ◌+◌, ◌-◌, ◌*◌, ◌≤◌, ◌<◌, ◌≡◌, ◌≢◌, ◌⊎◌, refl, subst, sym, ap, ◌∙◌, inl, inr, true,
  false, ◌&&◌, Bool, Option, none, some, arith, leb, ltb, if◌then◌else◌, Bool-cases,
}
use native.Mathlib.Decide.{dec_lt, ℕ_discrete}
use os_ax.Exfat.Disk.{Buffer, Disk, Volume, exfat_write_cluster}
use os_ax.Exfat.Fat.{exfat_get_next_cluster}
use os_ax.Exfat.Clusters.{IsValid, byte_at, read_cluster_at, write_cluster_bytes}
use os_ax.Exfat.File.{chain_end, copy_into}
use os_ax.Exfat.Contents.{Copied-front, amounts, next_place}
use os_ax.Exfat.Write.{
  Writing, bytes_to_write, cluster_contents, end_round, write_round, write_loop, next_or_new,
}

-- The clusters `at 0`, `at 1` and so on of the bytes below `last`.
pub record IsChain (v : Volume) (at : ℕ → ℕ) (last : ℕ) : Type 0 where
  pub bounds : (k : ℕ) → k * 4096 < last → (2 ≤ at k) × (at k < v.cluster_count + 2)
  pub distinct : (i j : ℕ) → i * 4096 < last → j * 4096 < last → i ≢ j → at i ≢ at j

module _ (v : Volume) (at : ℕ → ℕ) (pos size : ℕ) (clusters : IsChain v at (pos + size))
    (src : Buffer) where
  -- The bytes of the file from `pos + m` on, up to `pos + size`, have become those of the buffer, and
  -- nothing else of the clusters has changed.
  pub record Overwritten (m : ℕ) {d d' : Disk} (valid : IsValid v d) (valid' : IsValid v d')
      : Type 0 where
    pub same_next : (k : ℕ) → exfat_get_next_cluster v k d' ≡ exfat_get_next_cluster v k d
    pub new_bytes :
        (k a : ℕ)
        → a < 4096
        → pos + m ≤ k * 4096 + a
        → k * 4096 + a < pos + size
        → byte_at valid' (at k) a ≡ src (k * 4096 + a - pos)
    pub old_bytes :
        (k a : ℕ)
        → k * 4096 < pos + size
        → a < 4096
        → (k * 4096 + a < pos + m) ⊎ (pos + size ≤ k * 4096 + a)
        → byte_at valid' (at k) a ≡ byte_at valid (at k) a
    pub other_clusters :
        (c a : ℕ)
        → 2 ≤ c
        → c < v.cluster_count + 2
        → ((k : ℕ) → k * 4096 < pos + size → c ≢ at k)
        → a < 4096
        → byte_at valid' c a ≡ byte_at valid c a

  -- A round has written `n` bytes from byte `o` of cluster `q` on.
  record Round (m q o n : ℕ) {d d' : Disk} (valid : IsValid v d) (valid' : IsValid v d')
      : Type 0 where
    same_next : (k : ℕ) → exfat_get_next_cluster v k d' ≡ exfat_get_next_cluster v k d
    inside :
        (a : ℕ)
        → a < 4096
        → byte_at valid' (at q) a
          ≡ (if leb o a && ltb a (o + n) then src (m + (a - o)) else byte_at valid (at q) a)
    others :
        (c a : ℕ)
        → 2 ≤ c
        → c < v.cluster_count + 2
        → c ≢ at q
        → a < 4096
        → byte_at valid' c a ≡ byte_at valid c a

  Overwritten-refl : {d : Disk} (valid : IsValid v d) → Overwritten size valid valid
  Overwritten-refl valid = record {
    same_next = λ k. refl;
    new_bytes = λ k a small from to. absurd (omega arith);
    old_bytes = λ k a low small out. refl;
    other_clusters = λ c a low high other small. refl;
  }

  Round-Overwritten :
      (m q o n : ℕ) {d d1 d' : Disk} (valid : IsValid v d) (valid1 : IsValid v d1)
      (valid' : IsValid v d')
      → pos + m ≡ q * 4096 + o
      → o + n ≤ 4096
      → 0 < n
      → m + n ≤ size
      → Round m q o n valid valid1
      → Overwritten (m + n) valid1 valid'
      → Overwritten m valid valid'
  Round-Overwritten m q o n valid valid1 valid' place room some_bytes within round rest = record {
    same_next = λ k. rest.same_next k ∙ round.same_next k;
    new_bytes = λ k a small from to. elim (dec_lt (k * 4096 + a) (pos + (m + n))) [
      | yes lt ↦
          let here : k ≡ q = omega arith in
          let at_source : m + (a - o) ≡ k * 4096 + a - pos = omega arith in
          let test : (leb o a && ltb a (o + n)) ≡ true = ground arith in
          rest.old_bytes k a (omega arith) small (inl lt)
          ∙ ap (λ i. byte_at valid1 (at i) a) here
          ∙ round.inside a small
          ∙ rw test (ap src at_source)
      | no ge ↦ rest.new_bytes k a small (omega arith) to
    ];
    old_bytes = λ k a low small out. elim (ℕ_discrete k q) [
      | yes e ↦
          let test : (leb o a && ltb a (o + n)) ≡ false = ground arith in
          rest.old_bytes k a low small (ground arith)
          ∙ ap (λ i. byte_at valid1 (at i) a) e
          ∙ round.inside a small
          ∙ rw test refl
          ∙ ap (λ i. byte_at valid (at i) a) (sym e)
      | no ne ↦
          let bounds = clusters.bounds k low in
          rest.old_bytes k a low small (ground arith)
          ∙ round.others (at k) a bounds.0 bounds.1 (clusters.distinct k q low (omega arith) ne)
              small
    ];
    other_clusters = λ c a low high other small.
        rest.other_clusters c a low high other small
        ∙ round.others c a low high (other q (omega arith)) small;
  }

  -- The variables before a round.
  abbrev pub before : ℕ → ℕ → ℕ → Disk → Buffer → Writing
  before m q o d scratch = record {
    bytes_written = m;
    current_cluster = at q;
    offset_in_cluster = o;
    position = pos + m;
    disk = d;
    cluster_buffer = scratch;
  }

  inside_round :
      (m q o n : ℕ) (contents : Buffer) {old : ℕ} (a : ℕ)
      → contents a ≡ old
      → copy_into o n m src contents a
        ≡ (if leb o a && ltb a (o + n) then src (m + (a - o)) else old)
  unfolding copy_into
  inside_round m q o n contents a e =
      ap (λ x. if leb o a && ltb a (o + n) then src (m + (a - o)) else x) e

  write_round-Round :
      (m q o : ℕ) {d : Disk} (valid : IsValid v d) (scratch : Buffer)
      → q * 4096 < pos + size
      → let n = bytes_to_write size v (before m q o d scratch) in
        (filled : Buffer) × (d' : Disk) × (valid' : IsValid v d') × (write_round size v src
            (before m q o d scratch)
          ≡ (true, before (m + n) q 0 d' filled))
        × Round m q o n valid valid'
  unfolding write_round end_round cluster_contents copy_into
  write_round-Round m q o {d} valid scratch low =
      let w = before m q o d scratch in
      let n = bytes_to_write size v w in
      let (lo, hi) = clusters.bounds q low in
      let (contents, read, copied) = read_cluster_at v d valid (at q) lo hi scratch in
      let filled = copy_into o n m src contents in
      let (d', valid', wrote, here, others, next) =
        write_cluster_bytes v d (at q) filled valid lo hi in
      let filling = λ (x : Option Buffer). copy_into o n m src (cluster_contents v scratch x) in
      let assoc : pos + m + n ≡ pos + (m + n) = omega arith in
      (
        filled,
        d',
        valid',
        ap (λ x. end_round n (filling x) w (exfat_write_cluster v (at q) (filling x) d)) read
            ∙ ap (end_round n filled w) wrote
            ∙ ap (λ (p : ℕ). (true, record (before (m + n) q 0 d' filled) { position = p })) assoc,
        record {
          same_next = next;
          inside = λ a small.
              here a small
              ∙ inside_round m q o n contents a
                  (Copied-front (byte_at valid (at q)) scratch contents copied a small);
          others = others;
        },
      )

  -- The loop has come to its end after `size` bytes.
  pub record Finished (m : ℕ) {d : Disk} (valid : IsValid v d) (w : Writing) : Type 0 where
    pub valid' : IsValid v w.disk
    pub all_written : w.bytes_written ≡ size
    pub moved : w.position ≡ pos + size
    pub overwritten : Overwritten m valid valid'

  pub next_or_new-some :
      (q : ℕ) (d : Disk)
      → exfat_get_next_cluster v (at q) d ≡ at (suc q)
      → at (suc q) < chain_end
      → next_or_new v (at q) d ≡ (some (at (suc q)), d)
  unfolding next_or_new
  next_or_new-some q d e low =
      let goes_on : leb chain_end (at (suc q)) ≡ false = ground arith in rw (e, goes_on) refl

  Round-Finished :
      (m q o n : ℕ) {d d1 : Disk} (valid : IsValid v d) (valid1 : IsValid v d1) (w : Writing)
      → pos + m ≡ q * 4096 + o
      → (0 < n) × (o + n ≤ 4096) × (m + n ≤ size)
      → Round m q o n valid valid1
      → Finished (m + n) valid1 w
      → Finished m valid w
  Round-Finished m q o n valid valid1 w place (some_bytes, room, within) round rest = record {
    valid' = rest.valid';
    all_written = rest.all_written;
    moved = rest.moved;
    overwritten =
        Round-Overwritten m q o n valid valid1 rest.valid' place room some_bytes within round
          rest.overwritten;
  }

  Finished-before :
      (m q : ℕ) {d : Disk} (valid : IsValid v d) (filled : Buffer)
      → m ≡ size
      → Finished m valid (before m q 0 d filled)
  Finished-before m q valid filled all = record {
    valid' = valid;
    all_written = all;
    moved = omega arith;
    overwritten = subst (λ (k : ℕ). Overwritten k valid valid) (sym all) (Overwritten-refl valid);
  }

  -- What the loop does behind a round.
  abbrev behind : ℕ → Bool × Writing → Writing
  behind fuel x =
      let found = next_or_new v x.1.current_cluster x.1.disk in
      elim (x.0 && ltb x.1.bytes_written size) [
        | false ↦ x.1
        | true ↦ elim found.0 [
          | none ↦ record x.1 { disk = found.1 }
          | some next ↦
              write_loop fuel size v src (record x.1 { current_cluster = next; disk = found.1 })
        ]
      ]

  behind-Finished :
      (fuel m q : ℕ) {d : Disk} (valid : IsValid v d) (filled : Buffer)
      → m ≤ size
      → (m < size → next_or_new v (at q) d ≡ (some (at (suc q)), d))
      → (m < size → Finished m valid (write_loop fuel size v src (before m (suc q) 0 d filled)))
      → Finished m valid (behind fuel (true, before m q 0 d filled))
  behind-Finished fuel m q {d} valid filled within found rest = elim (Bool-cases (ltb m size)) [
    | inl more ↦
        let less : m < size = ground arith in
        rw (behind, more)
          (subst
            (λ (x : Option ℕ × Disk). Finished m valid (elim x.0 [
              | none ↦ record (before m q 0 d filled) { disk = x.1 }
              | some next ↦
                  write_loop fuel size v src
                    (record (before m q 0 d filled) { current_cluster = next; disk = x.1 })
            ]))
            (sym (found less)) (rest less))
    | inr stop ↦ rw (behind, stop) (Finished-before m q valid filled (ground arith))
  ]

  pub write_loop-Finished :
      (fuel m q o : ℕ) {d : Disk} (valid : IsValid v d) (scratch : Buffer)
      → ((k : ℕ) → suc k * 4096 < pos + size → exfat_get_next_cluster v (at k) d ≡ at (suc k))
      → pos + m ≡ q * 4096 + o
      → o < 4096
      → m < size
      → size ≤ m + fuel
      → Finished m valid (write_loop fuel size v src (before m q o d scratch))
  unfolding write_loop
  write_loop-Finished zero m q o valid scratch follows place low more enough = absurd (omega arith)
  write_loop-Finished (suc fuel) m q o {d} valid scratch follows place low more enough =
      let n = bytes_to_write size v (before m q o d scratch) in
      let (filled, d1, valid1, wrote, round) =
        write_round-Round m q o valid scratch (omega arith) in
      let whole : v.bytes_per_cluster - o ≡ 4096 - o = ap (λ k. k - o) valid.cluster_bytes in
      let amount : (0 < n) × (o + n ≤ 4096) × (m + n ≤ size) × (m + n < size → n ≡ 4096 - o) =
        amounts size m o (v.bytes_per_cluster - o) whole low more in
      let follows' =
        λ (k : ℕ) (h : suc k * 4096 < pos + size). round.same_next (at k) ∙ follows k h in
      let goes_on =
        λ (less : m + n < size). next_place pos m q o n size place (amount.3 less) low less in
      let rest =
        behind-Finished fuel (m + n) q valid1 filled amount.2
          (λ less.
            let (lo, hi) = clusters.bounds (suc q) (goes_on less).1 in
            next_or_new-some q d1 (follows' q (goes_on less).1) (omega (arith, valid.fat.clusters)))
          (λ less.
            write_loop-Finished fuel (m + n) (suc q) 0 valid1 filled follows' (goes_on less).0
              (omega arith) less (omega arith)) in
      subst (λ (x : Bool × Writing). Finished m valid (behind fuel x)) (sym wrote)
        (Round-Finished m q o n valid valid1 (behind fuel (true, before (m + n) q 0 d1 filled))
          place (amount.0, amount.1, amount.2) round rest)
