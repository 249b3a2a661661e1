-- ===== src/MetaFs/Path/Normal.antt =====
-- `metafs_normalize_path` of kernel/fs/metafs/metafs_wrappers.c: `.` and `..` resolved.
use os_ax.Base.{
  ℕ, zero, suc, ◌-◌, Bool, true, false, ◌||◌, Option, none, some, List, [], ◌∷◌, ◌++◌, ◌==◌, ltb,
  leb, if◌then◌else◌, length, take, drop,
}
use os_ax.Base.Outcome.{Outcome, done, fault, out_of_fuel, ◌>>=◌}
use os_ax.Kstring.{CString}
use os_ax.Kstring.Format.{text, ksprintf}
use os_ax.MetaFs.Path.{slash, same_text, skip_slash}

-- `while (*p == '/') p++;`
unfoldable pub skip_slashes : CString → CString
skip_slashes [] = []
skip_slashes (c ∷ s) = let rest = skip_slashes s in if c == slash then rest else c ∷ s

-- The characters up to a slash, at most `room`, and what is left.
unfoldable pub component : ℕ → CString → CString × CString
component zero s = ([], s)
component (suc room) [] = ([], [])
component (suc room) (c ∷ s) =
    let rest = component room s in if c == slash then ([], c ∷ s) else (c ∷ rest.0, rest.1)

-- `.` is passed over, `..` takes the last component away, all else is a component more. The last
-- component is in front.
abbrev pub step_into : CString → List CString → List CString
step_into c comps =
    if same_text c (46 ∷ [])
    then comps
    else if same_text c (46 ∷ 46 ∷ [])
    then drop 1 comps
    else c ∷ comps

-- The loop over the components: at most eight are kept.
unfoldable pub walk : ℕ → CString → List CString → Outcome (List CString)
walk zero p comps = out_of_fuel
walk (suc fuel) p comps =
    if (length p == 0) || leb 8 (length comps)
    then done comps
    else let here = skip_slashes p in
      let (c, rest) = component 63 here in
      if length here == 0 then done comps else walk fuel rest (step_into c comps)

-- The result, cut to the length of the buffer; more than two components are refused.
unfoldable pub build : List CString → ℕ → Option CString
build [] max_len = some (slash ∷ [])
build (c ∷ []) max_len = some (slash ∷ take (max_len - 2) c)
build (c ∷ b ∷ []) max_len = some (slash ∷ take (max_len - 2) (b ++ slash ∷ c))
build (c ∷ b ∷ a ∷ comps) max_len = none

abbrev pub is_absolute : CString → Bool
is_absolute [] = false
is_absolute (c ∷ s) = c == slash

-- A relative path put behind the current directory: the formats are "/%s" and "%s/%s".
unfoldable pub behind_current : CString → CString → Outcome CString
unfolding ksprintf
behind_current current_dir path =
    if same_text current_dir (slash ∷ [])
    then ksprintf (47 ∷ 37 ∷ 115 ∷ []) (text (some path) ∷ [])
    else ksprintf (37 ∷ 115 ∷ 47 ∷ 37 ∷ 115 ∷ []) (text (some current_dir) ∷ text (some path) ∷ [])

-- The text to resolve; a relative one is built in `temp[256]`.
unfoldable pub starting_point : CString → CString → Outcome CString
starting_point current_dir path = if is_absolute path then done path else do
  temp ← behind_current current_dir path
  if ltb (length temp) 256 then done temp else fault

unfoldable pub metafs_normalize_path : CString → CString → ℕ → Outcome (Option CString)
unfolding starting_point
metafs_normalize_path current_dir path max_len = if max_len == 0 then done none else do
  input ← starting_point current_dir path
  comps ← walk (suc (length input)) (skip_slash input) []
  done (build comps max_len)

unfoldable pub shell_path_is_valid : CString → CString → Outcome Bool
shell_path_is_valid current_dir path = do
  r ← metafs_normalize_path current_dir path 256
  elim r [ none ↦ done false | some p ↦ done true ]
