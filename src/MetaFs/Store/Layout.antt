-- ===== src/MetaFs/Store/Layout.antt =====
-- include/fs/metafs.h: how the header of the index and its entries lie in memory, which is how they
-- are written. Padding is zero, as `memset` leaves it.
use os_ax.Base.{ℕ, List, [], ◌∷◌, ◌++◌, get_or, take, drop}
use os_ax.Base.Bytes.{le_bytes, of_bytes}
use os_ax.MetaFs.{
  ObjectType, unknown, executable, document, image, video, audio, archive, raw_data, type_code,
  IndexEntry,
}

-- `metadata_db_header_t`
pub record DbHeader : Type 0 where
  pub magic : ℕ
  pub version : ℕ
  pub num_objects : ℕ
  pub num_views : ℕ
  pub last_sync : ℕ

abbrev pub header_size : ℕ
header_size = 24

abbrev pub entry_size : ℕ
entry_size = 192

unfoldable pub header_bytes : DbHeader → List ℕ
header_bytes h =
    le_bytes 4 h.magic
    ++ (le_bytes 4 h.version
        ++ (le_bytes 4 h.num_objects ++ (le_bytes 4 h.num_views ++ le_bytes 8 h.last_sync)))

-- The `n` bytes from `at` on.
abbrev pub slice : ℕ → ℕ → List ℕ → List ℕ
slice at n bytes = take n (drop at bytes)

abbrev pub number_at : ℕ → ℕ → List ℕ → ℕ
number_at at n bytes = of_bytes (slice at n bytes)

unfoldable pub header_of : List ℕ → DbHeader
header_of b = record {
  magic = number_at 0 4 b;
  version = number_at 4 4 b;
  num_objects = number_at 8 4 b;
  num_views = number_at 12 4 b;
  last_sync = number_at 16 8 b;
}

-- A number that is no enumerator's is read as the type that is not known.
abbrev pub type_of_code : ℕ → ObjectType
type_of_code n =
    get_or (unknown ∷ executable ∷ document ∷ image ∷ video ∷ audio ∷ archive ∷ raw_data ∷ []) n
      unknown

unfoldable pub entry_bytes : IndexEntry → List ℕ
entry_bytes e =
    le_bytes 8 e.id.high
    ++ (le_bytes 8 e.id.low
        ++ (le_bytes 4 (type_code e.type)
            ++ (le_bytes 4 0
                ++ (le_bytes 8 e.data_offset
                    ++ (le_bytes 8 e.meta_offset
                        ++ (le_bytes 4 e.checksum
                            ++ (e.name ++ (e.view ++ (e.extension ++ le_bytes 4 0)))))))))

unfoldable pub entry_of : List ℕ → IndexEntry
entry_of b = record {
  id = record { high = number_at 0 8 b; low = number_at 8 8 b };
  type = type_of_code (number_at 16 4 b);
  data_offset = number_at 24 8 b;
  meta_offset = number_at 32 8 b;
  checksum = number_at 40 4 b;
  name = slice 44 64 b;
  view = slice 108 64 b;
  extension = slice 172 16 b;
}
