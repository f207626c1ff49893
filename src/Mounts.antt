-- ===== src/Mounts.antt =====
-- `find_mountpoint_for_path` of kernel/vfs.c. A mountpoint is its address and its path; paths are the
-- strings of lib/string.c. A fault (`none`) is a read outside a string.
pub mod Longest
mod Tests
use exscape_os.Prelude.{
  ℕ, suc, Bool, true, false, ◌&&◌, not, ℤ, pos, negsuc, List, [], ◌∷◌, Option, none, some, ltb, leb,
  ◌==◌, if◌then◌else◌, get_elem?, length, ◌>>=◌,
}
use exscape_os.CString.{strlen, strnicmp}

pub record Mountpoint : Type 0 where
  pub address : ℕ
  pub path : List ℕ

abbrev pub is_zero : ℤ → Bool
is_zero (pos n) = n == 0
is_zero (negsuc n) = false

-- whether a mountpoint of this length matches: its path begins the other, up to the end or a slash
unfoldable pub matches : (mp path : List ℕ) → (len : ℕ) → Option Bool
matches mp path len = do
  path_len ← strlen path
  order ← (if ltb path_len len then some (pos 1) else strnicmp mp path len)
  if not (is_zero order)
      then some false
      else (do c ← get_elem? path len; some (not (ltb 1 len && not (c == 0) && not (c == 47))))

-- the loop over the mountpoints, with the best match and its length
unfoldable pub find_best :
    List Mountpoint → (path : List ℕ) → Option ℕ → (best_match_len : ℕ) → Option (Option ℕ × ℕ)
unfolding matches
find_best [] path best best_len = some (best, best_len)
find_best (mp ∷ mounts) path best best_len = do
  len ← strlen mp.path
  yes_ ← matches mp.path path len
  (if yes_ && ltb best_len len
      then find_best mounts path (some mp.address) len
      else find_best mounts path best best_len)

-- `some none` is NULL
unfoldable pub find_mountpoint_for_path : List Mountpoint → (path : List ℕ) → Option (Option ℕ)
find_mountpoint_for_path mounts path =
    if length mounts == 0
    then some none
    else (do (best, best_len) ← find_best mounts path none 0; some best)
