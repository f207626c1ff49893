-- ===== src/CString.antt =====
-- lib/string.c. A pointer to a string is the list of the bytes from it to the end of the object it
-- points into, and a pointer that is returned is its offset from the argument. A fault (`none`) is a
-- read or a write outside the object; two objects do not overlap.
pub mod Compare
pub mod Copy
pub mod Search
mod Tests
use exscape_os.Prelude.{
  ℕ, zero, suc, ◌+◌, ◌-◌, ◌*◌, ◌%◌, ◌^◌, ℤ, pos, negsuc, Bool, true, false, ◌&&◌, ◌||◌, not, List,
  [], ◌∷◌, ◌++◌, Option, none, some, ltb, leb, ◌==◌, if◌then◌else◌, ◌>>=◌, ◌>>◌, get_elem?, set,
  length, take, drop, is_some,
}

abbrev pub char : ℕ → ℕ
char c = c % 2 ^ 8

unfoldable pub isspace : ℕ → Bool
isspace c = (c == 32) || (c == 10) || (c == 9) || (c == 11) || (c == 12) || (c == 13)

-- `c | 0x20` on an upper-case letter
unfoldable pub tolower : ℕ → ℕ
tolower c = if leb 65 c && leb c 90 then c + 32 else c

-- a byte of the result in front of those that a recursive call gives
abbrev pub cons : ℕ → Option (List ℕ) → Option (List ℕ)
cons c none = none
cons c (some bytes) = some (c ∷ bytes)

abbrev pub next : Option ℕ → Option ℕ
next none = none
next (some n) = some (n + 1)

-- the offset that a search behind the first byte finds, if it finds any
abbrev pub next_found : Option (Option ℕ) → Option (Option ℕ)
next_found none = none
next_found (some none) = some none
next_found (some (some n)) = some (some (n + 1))

unfoldable pub strcpy : (s1 s2 : List ℕ) → Option (List ℕ)
strcpy [] s2 = none
strcpy (d ∷ s1) [] = none
strcpy (d ∷ s1) (zero ∷ s2) = some (0 ∷ s1)
strcpy (d ∷ s1) (suc c ∷ s2) = cons (suc c) (strcpy s1 s2)

-- the sign of a comparison of two bytes that differ
unfoldable pub byte_order : ℕ → ℕ → ℤ
byte_order c d = if ltb c d then negsuc 0 else pos 1

unfoldable pub strcmp : List ℕ → List ℕ → Option ℤ
unfolding byte_order
strcmp [] s2 = none
strcmp (c ∷ s1) [] = none
strcmp (c ∷ s1) (d ∷ s2) =
    let rest = strcmp s1 s2 in
    if c == d then (if c == 0 then some (pos 0) else rest) else some (byte_order c d)

unfoldable pub stricmp : List ℕ → List ℕ → Option ℤ
unfolding byte_order tolower
stricmp [] s2 = none
stricmp (c ∷ s1) [] = none
stricmp (c ∷ s1) (d ∷ s2) =
    let rest = stricmp s1 s2 in
    if tolower c == tolower d
    then (if c == 0 then some (pos 0) else rest)
    else some (byte_order c d)

-- `strncmp` on two strings; `n` counts down with the loop
unfoldable pub strncmp : List ℕ → List ℕ → ℕ → Option ℤ
unfolding byte_order
strncmp s1 s2 zero = some (pos 0)
strncmp [] s2 (suc n) = none
strncmp (c ∷ s1) [] (suc n) = none
strncmp (c ∷ s1) (d ∷ s2) (suc n) =
    let rest = strncmp s1 s2 n in
    if c == d then (if (n == 0) || (c == 0) then some (pos 0) else rest) else some (byte_order c d)

unfoldable pub strnicmp : List ℕ → List ℕ → ℕ → Option ℤ
unfolding byte_order tolower
strnicmp s1 s2 zero = some (pos 0)
strnicmp [] s2 (suc n) = none
strnicmp (c ∷ s1) [] (suc n) = none
strnicmp (c ∷ s1) (d ∷ s2) (suc n) =
    let rest = strnicmp s1 s2 n in
    if tolower c == tolower d
    then (if (n == 0) || (c == 0) then some (pos 0) else rest)
    else if c == d
    then some (pos 0)
    else some (byte_order c d)

unfoldable pub memcmp : List ℕ → List ℕ → ℕ → Option ℤ
unfolding byte_order
memcmp lhs rhs zero = some (pos 0)
memcmp [] rhs (suc count) = none
memcmp (c ∷ lhs) [] (suc count) = none
memcmp (c ∷ lhs) (d ∷ rhs) (suc count) =
    let rest = memcmp lhs rhs count in if c == d then rest else some (byte_order c d)

unfoldable pub strlen : List ℕ → Option ℕ
strlen [] = none
strlen (zero ∷ str) = some 0
strlen (suc c ∷ str) = next (strlen str)

-- the loop of `strchr`; `c` may be the terminator
unfoldable pub find_char : List ℕ → ℕ → Option (Option ℕ)
find_char [] c = none
find_char (b ∷ s) c =
    let rest = find_char s c in
    if not (b == 0) && not (b == c) then next_found rest else some (if b == c then some 0 else none)

unfoldable pub strchr : List ℕ → ℕ → Option (Option ℕ)
strchr s c = find_char s (char c)

-- `while (p > s && *p != c) p--`, from the offset `i` of `p`, and the test behind it
unfoldable pub find_back : ℕ → List ℕ → ℕ → Option (Option ℕ)
find_back zero s c = do b ← get_elem? s 0; some (if b == c then some 0 else none)
find_back (suc i) s c = do
  b ← get_elem? s (suc i)
  let rest = find_back i s c
  if b == c then some (some (suc i)) else rest

unfoldable pub strrchr : List ℕ → ℕ → Option (Option ℕ)
strrchr s c = do n ← strlen s; if n == 0 then some none else find_back (n - 1) s (char c)

-- the loop that copies what fits
unfoldable pub copy_bytes : (n : ℕ) (dst src : List ℕ) → Option (List ℕ)
copy_bytes zero dst src = some dst
copy_bytes (suc n) [] src = none
copy_bytes (suc n) (d ∷ dst) [] = none
copy_bytes (suc n) (d ∷ dst) (c ∷ src) = cons c (copy_bytes n dst src)

-- a byte stored at an offset
unfoldable pub store : ℕ → ℕ → List ℕ → Option (List ℕ)
store i c bytes = if ltb i (length bytes) then some (set bytes i c) else none

-- the new contents of `dst`, and the length that is returned
unfoldable pub strlcpy : (dst src : List ℕ) (size : ℕ) → Option (List ℕ × ℕ)
strlcpy dst src size = do
  len ← strlen src
  if leb (len + 1) size
      then (do copied ← strcpy dst src; some (copied, len))
      else if size == 0
      then some (dst, len)
      else (do
        copied ← copy_bytes (size - 1) dst src
        ended ← store (size - 1) 0 copied
        some (ended, len))

-- `strdup` without the allocation: the contents of the new object, whose bytes were `fresh`
unfoldable pub strdup : (fresh s : List ℕ) → Option (List ℕ)
strdup fresh s = do len ← strlen s; (ret, n) ← strlcpy (take (len + 1) fresh) s (len + 1); some ret

unfoldable pub strlcat : (dst src : List ℕ) (size : ℕ) → Option (List ℕ × ℕ)
strlcat dst src size = do
  used ← strlen dst
  len ← strlen src
  if ltb 0 size && ltb used (size - 1)
      then (do
        let copy = if leb (size - used) len then size - used - 1 else len
        copied ← copy_bytes copy (drop used dst) src
        ended ← store (used + copy) 0 (take used dst ++ copied)
        some (ended, used + len))
      else some (dst, used + len)

-- the offset of the first byte that is in `s2`, or of the terminator
unfoldable pub strcspn : (s1 s2 : List ℕ) → Option ℕ
strcspn [] s2 = none
strcspn (zero ∷ s1) s2 = some 0
strcspn (suc c ∷ s1) s2 = do
  found ← strchr s2 (suc c)
  let rest = next (strcspn s1 s2)
  if is_some found then some 0 else rest

-- the offset of the first byte that is not in `s2`, or of the terminator
unfoldable pub strspn : (s1 s2 : List ℕ) → Option ℕ
strspn [] s2 = none
strspn (zero ∷ s1) s2 = some 0
strspn (suc c ∷ s1) s2 = do
  found ← strchr s2 (suc c)
  let rest = next (strspn s1 s2)
  if is_some found then rest else some 0

-- `strtok_r` on the bytes from `*lasts` on: the token's offset, if there is one, the bytes with
-- the token ended, and the offset of the new `*lasts`
unfoldable pub strtok_r : (bytes delimiters : List ℕ) → Option (Option ℕ × List ℕ × ℕ)
strtok_r bytes delimiters = do
  begin ← strspn bytes delimiters
  first ← get_elem? bytes begin
  if first == 0 then some (none, bytes, begin) else (do
    n ← strcspn (drop begin bytes) delimiters
    end ← get_elem? bytes (begin + n)
    if end == 0
        then some (some begin, bytes, begin + n)
        else some (some begin, set bytes (begin + n) 0, begin + n + 1))

-- `while (isspace(*str)) str++`
unfoldable pub skip_spaces : List ℕ → Option ℕ
unfolding isspace
skip_spaces [] = none
skip_spaces (c ∷ str) = let rest = next (skip_spaces str) in if isspace c then rest else some 0

-- `while (end > str && isspace(*end)) end--`, from the offset of `end`
unfoldable pub skip_back : ℕ → List ℕ → Option ℕ
unfolding isspace
skip_back zero str = some 0
skip_back (suc i) str = do
  c ← get_elem? str (suc i)
  let rest = skip_back i str
  if isspace c then rest else some (suc i)

-- the offset that `trim` returns, and the bytes it leaves
unfoldable pub trim : List ℕ → Option (ℕ × List ℕ)
trim str = do
  len ← strlen str
  start ← skip_spaces str
  first ← get_elem? str start
  if (len == 0) || (first == 0) then some (if len == 0 then 0 else start, str) else (do
    n ← strlen (drop start str)
    end ← skip_back (n - 1) (drop start str)
    trimmed ← store (end + 1) 0 (drop start str)
    some (start, take start str ++ trimmed))

-- one more byte that agrees
abbrev pub one_more : Option (ℕ × ℕ) → Option (ℕ × ℕ)
one_more none = none
one_more (some (n, e)) = some (n + 1, e)

-- `while (*p2 != 0 && *p1 == *p2)`: how far the two agree, and the byte of the needle there
unfoldable pub agree : (p1 p2 : List ℕ) → Option (ℕ × ℕ)
agree p1 [] = none
agree p1 (zero ∷ p2) = some (0, 0)
agree [] (suc d ∷ p2) = none
agree (c ∷ p1) (suc d ∷ p2) =
    let rest = agree p1 p2 in if c == suc d then one_more rest else some (0, suc d)

-- the loop of `strstr`, from the offset `at`; a round moves `p1` up by one at least
unfoldable pub strstr_from : (fuel at : ℕ) (haystack needle : List ℕ) → Option (Option ℕ)
strstr_from zero at haystack needle = none
strstr_from (suc fuel) at haystack needle = do
  c ← get_elem? haystack at
  d ← get_elem? needle 0
  if c == 0 then some none else elim (c == d) [
    | false ↦ strstr_from fuel (at + 1) haystack needle
    | true ↦ elim (agree (drop at haystack) needle) [
      | none ↦ none
      | some (n, zero) ↦ some (some at)
      | some (n, suc e) ↦ strstr_from fuel (at + n) haystack needle
    ]
  ]

unfoldable pub strstr : (haystack needle : List ℕ) → Option (Option ℕ)
strstr haystack needle = do
  d ← get_elem? needle 0
  if d == 0 then some (some 0) else strstr_from (length haystack) 0 haystack needle
