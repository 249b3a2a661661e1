-- ===== src/Exfat/Contents.antt =====
-- The loop of `exfat_read` of kernel/fs/exfat/exfat_fileops.c and the bytes of a file.
use os_ax.Base.{
  ℕ, zero, suc, ◌+◌, ◌-◌, ◌*◌, ◌/◌, ◌%◌, ◌≤◌, ◌<◌, ◌≡◌, refl, subst, sym, ap, ◌∙◌, inl, inr, false,
  ◌&&◌, arith, leb, ltb, if◌then◌else◌, Bool-cases,
}
use os_ax.Exfat.Disk.{Buffer, Disk, Volume, first_sector}
use os_ax.Exfat.Fat.{exfat_get_next_cluster}
use os_ax.Exfat.Clusters.{IsValid, read_cluster_at}
use os_ax.Exfat.Sectors.{Copied}
use os_ax.Exfat.File.{Reading, chain_end, copy_into, copy_round, read_loop, bytes_to_copy}

-- The cluster that lies `k` clusters behind the first in a chain.
unfoldable pub chain : Volume → Disk → ℕ → ℕ → ℕ
chain v d first zero = first
chain v d first (suc k) = exfat_get_next_cluster v (chain v d first k) d

-- Byte `k` of the file whose chain begins with the cluster `first`.
abbrev pub file_byte : {v : Volume} {d : Disk} → IsValid v d → ℕ → ℕ → ℕ
file_byte {v} {d} valid first k =
    valid.fat.bytes (first_sector v (chain v d first (k / 4096)) * 512 + k % 4096)

-- The chain has a cluster for each of the first `length` bytes.
abbrev pub HasClusters : Volume → Disk → ℕ → ℕ → Type 0
HasClusters v d first length =
    (k : ℕ)
    → k * 4096 < length
    → (2 ≤ chain v d first k) × (chain v d first k < v.cluster_count + 2)

-- `m` bytes of the file from `pos` on are in the buffer, which holds what it held behind them.
pub record Filled {v : Volume} {d : Disk} (valid : IsValid v d) (first pos m : ℕ) (old new : Buffer)
    : Type 0 where
  pub front : (a : ℕ) → a < m → new a ≡ file_byte valid first (pos + a)
  pub behind : (a : ℕ) → m ≤ a → new a ≡ old a

pub next_place :
    (pos m q o n size : ℕ)
    → pos + m ≡ q * 4096 + o
    → n ≡ 4096 - o
    → o < 4096
    → m + n < size
    → (pos + (m + n) ≡ suc q * 4096 + 0) × (suc q * 4096 < pos + size)
next_place pos m q o n size at e low less = omega arith

pub Copied-front :
    (src old new : Buffer) → Copied 0 4096 src old new → (a : ℕ) → a < 4096 → new a ≡ src a
Copied-front src old new copied a small = ground (arith, copied a)

-- How much a round copies, out of the `whole` of a cluster from byte `o` on.
pub amounts :
    (size m o whole : ℕ)
    → whole ≡ 4096 - o
    → o < 4096
    → m < size
    → let n = (if ltb (size - m) whole then size - m else whole) in
      (0 < n) × (o + n ≤ 4096) × (m + n ≤ size) × (m + n < size → n ≡ 4096 - o)
amounts size m o whole e low more = elim (Bool-cases (ltb (size - m) whole)) [
  | inl part ↦ rw part (omega arith, ground arith, omega arith, λ less. absurd (omega arith))
  | inr all ↦ rw all (omega arith, omega arith, ground arith, λ less. e)
]

module _ (v : Volume) (d : Disk) (valid : IsValid v d) (first pos size : ℕ)
    (clusters : HasClusters v d first (pos + size)) (old : Buffer) where
  -- One round, from byte `o` of cluster `q` of the chain on.
  copy_round-Filled :
      (m q o n : ℕ) (cluster into : Buffer)
      → pos + m ≡ q * 4096 + o
      → o + n ≤ 4096
      → ((a : ℕ)
          → a < 4096
          → cluster a ≡ valid.fat.bytes (first_sector v (chain v d first q) * 512 + a))
      → Filled valid first pos m old into
      → Filled valid first pos (m + n) old (copy_into m n o cluster into)
  unfolding copy_into
  copy_round-Filled m q o n cluster into at inside copied filled = record {
    front = λ a small. elim (Bool-cases (leb m a && ltb a (m + n))) [
      | inl new ↦
          let k = o + (a - m) in
          let from_m : m ≤ a = ground arith in
          let block : q ≡ (pos + a) / 4096 = omega arith in
          let offset : k ≡ (pos + a) % 4096 = omega arith in
          rw new (
            copied k (omega arith)
            ∙ ap (λ i. valid.fat.bytes (first_sector v (chain v d first i) * 512 + k)) block
            ∙ ap
                (λ j.
                  valid.fat.bytes (first_sector v (chain v d first ((pos + a) / 4096)) * 512 + j))
                offset)
      | inr before ↦ rw before (filled.front a (ground arith))
    ];
    behind = λ a beyond. elim (Bool-cases (leb m a && ltb a (m + n))) [
      | inl new ↦ absurd (ground arith)
      | inr out ↦ rw out (filled.behind a (omega arith))
    ];
  }

  pub record Done (r : Reading) : Type 0 where
    pub all_read : r.bytes_read ≡ size
    pub moved : r.position ≡ pos + size
    pub filled : Filled valid first pos size old r.buffer

  -- The variables after a round.
  abbrev after : ℕ → ℕ → ℕ → Buffer → Buffer → Reading
  after m n cluster_number into cluster = record {
    bytes_read = m + n;
    current_cluster = cluster_number;
    offset_in_cluster = 0;
    position = pos + (m + n);
    buffer = into;
    cluster_buffer = cluster;
  }

  round-Done :
      (fuel m q n : ℕ) (into cluster : Buffer)
      → m + n ≤ size
      → Filled valid first pos (m + n) old into
      → (m + n < size → suc q * 4096 < pos + size)
      → (m + n < size
          → Done (read_loop fuel size v d (after m n (chain v d first (suc q)) into cluster)))
      → Done (
          if ltb (m + n) size
          then (if leb chain_end (chain v d first (suc q))
              then after m n (chain v d first q) into cluster
              else read_loop fuel size v d (after m n (chain v d first (suc q)) into cluster))
          else after m n (chain v d first q) into cluster)
  round-Done fuel m q n into cluster within filled next rest =
      elim (Bool-cases (ltb (m + n) size)) [
        | inl more ↦
            let less : m + n < size = ground arith in
            let low = clusters (suc q) (next less) in
            let goes_on : leb chain_end (chain v d first (suc q)) ≡ false =
              ground (arith, low.1, valid.fat.clusters) in
            rw (more, goes_on) (rest less)
        | inr stop ↦
            let whole : m + n ≡ size = ground arith in
            rw stop (record {
              all_read = whole;
              moved = omega arith;
              filled = subst (λ (k : ℕ). Filled valid first pos k old into) whole filled;
            })
      ]

  -- The variables before a round.
  abbrev pub before : ℕ → ℕ → ℕ → Buffer → Buffer → Reading
  before m q o into scratch = record {
    bytes_read = m;
    current_cluster = chain v d first q;
    offset_in_cluster = o;
    position = pos + m;
    buffer = into;
    cluster_buffer = scratch;
  }

  copy_round_at :
      (m q o n : ℕ) (into scratch cluster : Buffer)
      → bytes_to_copy size v (before m q o into scratch) ≡ n
      → copy_round size v cluster (before m q o into scratch)
        ≡ after m n (chain v d first q) (copy_into m n o cluster into) cluster
  unfolding copy_round
  copy_round_at m q o n into scratch cluster e =
      let assoc : pos + m + n ≡ pos + (m + n) = omega arith in
      ap (λ k. copy_of m q o k (pos + m + k) into cluster) e
      ∙ ap (λ p. copy_of m q o n p into cluster) assoc
    where
      copy_of : ℕ → ℕ → ℕ → ℕ → ℕ → Buffer → Buffer → Reading
      copy_of m q o k p into cluster = record {
        bytes_read = m + k;
        current_cluster = chain v d first q;
        offset_in_cluster = 0;
        position = p;
        buffer = copy_into m k o cluster into;
        cluster_buffer = cluster;
      }

  pub read_loop-Done :
      (fuel m q o : ℕ) (into scratch : Buffer)
      → pos + m ≡ q * 4096 + o
      → o < 4096
      → m < size
      → size ≤ m + fuel
      → Filled valid first pos m old into
      → Done (
          read_loop fuel size v d (record {
            bytes_read = m;
            current_cluster = chain v d first q;
            offset_in_cluster = o;
            position = pos + m;
            buffer = into;
            cluster_buffer = scratch;
          }))
  unfolding read_loop chain
  read_loop-Done zero m q o into scratch at low more enough filled = absurd (omega arith)
  read_loop-Done (suc fuel) m q o into scratch at low more enough filled =
      let here = clusters q (omega arith) in
      let (cluster, read, copy) =
        read_cluster_at v d valid (chain v d first q) here.0 here.1 scratch in
      let copied : (a : ℕ)
          → a < 4096
          → cluster a ≡ valid.fat.bytes (first_sector v (chain v d first q) * 512 + a) =
        λ a small.
          Copied-front (λ a. valid.fat.bytes (first_sector v (chain v d first q) * 512 + a)) scratch
            cluster copy a small in
      let r = before m q o into scratch in
      let n = bytes_to_copy size v r in
      let whole : v.bytes_per_cluster - o ≡ 4096 - o = ap (λ k. k - o) valid.cluster_bytes in
      let amount : (0 < n) × (o + n ≤ 4096) × (m + n ≤ size) × (m + n < size → n ≡ 4096 - o) =
        amounts size m o (v.bytes_per_cluster - o) whole low more in
      let new = copy_into m n o cluster into in
      let copied_new = copy_round-Filled m q o n cluster into at amount.1 copied filled in
      let next = exfat_get_next_cluster v (chain v d first q) d in
      let goes_on : m + n < size
          → (pos + (m + n) ≡ suc q * 4096 + 0) × (suc q * 4096 < pos + size) =
        λ less. next_place pos m q o n size at (amount.3 less) low less in
      let round =
        round-Done fuel m q n new cluster amount.2 copied_new (λ less. (goes_on less).1)
          (λ less.
            read_loop-Done fuel (m + n) (suc q) 0 new cluster (goes_on less).0 (omega arith) less
              (omega arith) copied_new) in
      rw (read_loop, read)
        (subst
          (λ (x : Reading). Done (
            if ltb x.bytes_read size
            then (if leb chain_end next
                then x
                else read_loop fuel size v d (record x { current_cluster = next }))
            else x))
          (sym (copy_round_at m q o n into scratch cluster refl)) round)
