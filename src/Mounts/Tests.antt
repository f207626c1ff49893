-- ===== src/Mounts/Tests.antt =====
-- The theorem on the search for a mountpoint in kernel/vfs.c, with / and /data mounted.
use exscape_os.Prelude.{ℕ, ◌≡◌, ◌⊎◌, ◌++◌, List, [], ◌∷◌, Option, none, some, arith}
use exscape_os.Mounts.{find_mountpoint_for_path}
use exscape_os.Mounts.Longest.{
  Mounted, mounted, IsLongest, IsFound, find_mountpoint_for_path-IsLongest,
}

-- "/" and "/data"
abbrev two : List Mounted
two = (100, 47 ∷ []) ∷ (200, 47 ∷ 100 ∷ 97 ∷ 116 ∷ 97 ∷ []) ∷ []

-- "/data/x"
abbrev file : List ℕ
file = 47 ∷ 100 ∷ 97 ∷ 116 ∷ 97 ∷ 47 ∷ 120 ∷ []

find_mountpoint_for_path-IsLongest_example :
    (b : Option ℕ) × (n : ℕ) × (find_mountpoint_for_path (mounted two) (file ++ 0 ∷ []) ≡ some b)
    × IsLongest file two n
    × (((b ≡ none) × (n ≡ 0)) ⊎ IsFound file two b n)
find_mountpoint_for_path-IsLongest_example =
    find_mountpoint_for_path-IsLongest two file (ground arith) (ground arith)
