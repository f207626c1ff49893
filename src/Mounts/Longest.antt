-- ===== src/Mounts/Longest.antt =====
-- The mountpoint that `find_mountpoint_for_path` of kernel/vfs.c finds: the longest that covers the path.
use exscape_os.Prelude.{
  ℕ, zero, suc, ◌≤◌, ◌≡◌, ◌⊎◌, inl, inr, refl, ap, sym, Bool, true, false, ◌&&◌, ◌||◌, not, ℤ, pos,
  List, [], ◌∷◌, ◌++◌, Option, none, some, arith, ◌==◌, ltb, Bool-cases, get_elem?, length, All,
}
use exscape_os.CString.{strnicmp, tolower, byte_order}
use exscape_os.CString.Compare.{IsText}
use exscape_os.CString.Copy.{strlen_lem}
use exscape_os.Mounts.{Mountpoint, is_zero, matches, find_best, find_mountpoint_for_path}

-- one text begins the other, but for the case of letters
unfoldable pub starts_with : (front text : List ℕ) → Bool
starts_with [] p = true
starts_with (c ∷ m) [] = false
starts_with (c ∷ m) (d ∷ p) = (tolower c == tolower d) && starts_with m p

-- the text ends there, or goes on with a slash
unfoldable pub is_boundary : (n : ℕ) → (text : List ℕ) → Bool
is_boundary n [] = true
is_boundary zero (c ∷ p) = c == 47
is_boundary (suc n) (c ∷ p) = is_boundary n p

-- a mountpoint covers a path
abbrev pub covers : (mount path : List ℕ) → Bool
covers m p = starts_with m p && (not (ltb 1 (length m)) || is_boundary (length m) p)

byte_order_zero : (c d : ℕ) → (tolower c == tolower d) ≡ false → is_zero (byte_order c d) ≡ false
unfolding byte_order tolower
byte_order_zero c d ne = ground arith

differs : (c d : ℕ) → (tolower c == tolower d) ≡ false → (c == d) ≡ false
unfolding tolower
differs c d ne = ground arith

starts_empty : (m p : List ℕ) → (length m == 0) ≡ true → starts_with m p ≡ true
unfolding starts_with
starts_empty [] p e = refl
starts_empty (c ∷ m) p e = absurd (ground (arith, e))

de_morgan : (a x x' y : Bool) → not (x && x') ≡ y → not (a && x && x') ≡ (not a || y)
de_morgan true x x' y e = e
de_morgan false x x' y e = refl

strnicmp-starts_with :
    (m p : List ℕ)
    → IsText m
    → IsText p
    → length m ≤ length p
    → (z : ℤ) × (strnicmp (m ++ 0 ∷ []) (p ++ 0 ∷ []) (length m) ≡ some z)
      × (is_zero z ≡ starts_with m p)
unfolding strnicmp starts_with
strnicmp-starts_with [] p v w le = (pos 0, refl, refl)
strnicmp-starts_with (c ∷ m) [] v w le = absurd (omega arith)
strnicmp-starts_with (c ∷ m) (d ∷ p) v w le =
    let (z, e, iz) = strnicmp-starts_with m p v.1 w.1 (omega arith) in
    let nz : (c == 0) ≡ false = ground (arith, v.0.0) in
    elim (Bool-cases (tolower c == tolower d)) [
      | inl t ↦ elim (Bool-cases (length m == 0)) [
        | inl last ↦ (pos 0, rw (t, last) refl, rw t (sym (starts_empty m p last)))
        | inr more ↦ (z, rw (t, more, nz) e, rw t iz)
      ]
      | inr ne ↦
          let differ : (c == d) ≡ false = differs c d ne in
          (byte_order c d, rw (ne, differ) refl, rw (ne, byte_order_zero c d ne) refl)
    ]

starts_with-length : (m p : List ℕ) → starts_with m p ≡ true → length m ≤ length p
unfolding starts_with
starts_with-length [] p t = omega arith
starts_with-length (c ∷ m) [] t = cc
starts_with-length (c ∷ m) (d ∷ p) t = elim (Bool-cases (tolower c == tolower d)) [
  | inl e ↦ omega (arith, starts_with-length m p (rw e at t))
  | inr ne ↦ absurd (ground (arith, t, ne))
]

-- the byte behind the part that is compared
byte_behind :
    (n : ℕ) (p : List ℕ)
    → IsText p
    → n ≤ length p
    → (c : ℕ) × (get_elem? (p ++ 0 ∷ []) n ≡ some c)
      × (not (not (c == 0) && not (c == 47)) ≡ is_boundary n p)
unfolding is_boundary
byte_behind zero [] v le = (0, refl, refl)
byte_behind (suc n) [] v le = absurd (omega arith)
byte_behind zero (d ∷ p) v le =
    let nz : (d == 0) ≡ false = ground (arith, v.0.0) in (d, refl, rw nz (twice (d == 47)))
  where
    twice : (b : Bool) → not (not b) ≡ b
    twice true = refl
    twice false = refl
byte_behind (suc n) (d ∷ p) v le = byte_behind n p v.1 (omega arith)

matches-covers :
    (m p : List ℕ)
    → IsText m
    → IsText p
    → matches (m ++ 0 ∷ []) (p ++ 0 ∷ []) (length m) ≡ some (covers m p)
unfolding matches
matches-covers m p v w = elim (Bool-cases (ltb (length p) (length m))) [
  | inl short ↦
      let no_ : starts_with m p ≡ false = elim (Bool-cases (starts_with m p)) [
        | inl t ↦ absurd (ground (arith, starts_with-length m p t, short))
        | inr f ↦ f
      ] in
      rw (strlen_lem p [] w, short, no_) refl
  | inr enough ↦
      let le : length m ≤ length p = ground (arith, enough) in
      let (z, e, iz) = strnicmp-starts_with m p v w le in
      let (c, at, b) = byte_behind (length m) p w le in
      rw (strlen_lem p [] w, enough, e, iz)
        (elim (Bool-cases (starts_with m p)) [
          | inl t ↦
              rw (t, at)
                (ap some (
                  de_morgan (ltb 1 (length m)) (not (c == 0)) (not (c == 47))
                    (is_boundary (length m) p) b))
          | inr f ↦ rw f refl
        ])
]

-- A mountpoint of the list: its address and its path as a text.
abbrev pub Mounted : Type 0
Mounted = ℕ × List ℕ

abbrev pub mounted : List Mounted → List Mountpoint
mounted [] = []
mounted ((a, m) ∷ ms) = record { address = a; path = m ++ 0 ∷ [] } ∷ mounted ms

-- no path that covers the other is longer
abbrev pub IsLongest : (path : List ℕ) → List Mounted → (len : ℕ) → Type 0
IsLongest p [] len = Unit
IsLongest p ((a, m) ∷ ms) len = (covers m p ≡ true → length m ≤ len) × IsLongest p ms len

-- the address of a path of this length that covers the other
unfoldable pub IsFound : (path : List ℕ) → List Mounted → (best : Option ℕ) → (len : ℕ) → Type 0
IsFound p [] best len = ⊥
IsFound p ((a, m) ∷ ms) best len =
    ((best ≡ some a) × (length m ≡ len) × (covers m p ≡ true)) ⊎ IsFound p ms best len

-- What the loop returns.
Leads : (path : List ℕ) → List Mounted → (best : Option ℕ) → (len : ℕ) → Type 0
Leads p ms best len =
    (b : Option ℕ) × (n : ℕ) × (find_best (mounted ms) (p ++ 0 ∷ []) best len ≡ some (b, n))
    × (len ≤ n)
    × IsLongest p ms n
    × (((b ≡ best) × (n ≡ len)) ⊎ IsFound p ms b n)

both_true : (x y : Bool) → (x && y) ≡ true → (x ≡ true) × (y ≡ true)
both_true true y e = (refl, e)
both_true false y e = cc

and_false : (x y : Bool) → x ≡ true → (x && y) ≡ false → y ≡ false
and_false true y t e = e
and_false false y t e = cc

find_best-Leads :
    (ms : List Mounted) (p : List ℕ) (best : Option ℕ) (len : ℕ)
    → IsText p
    → All (λ m. IsText m.1) ms
    → Leads p ms best len
unfolding find_best Leads IsFound
find_best-Leads [] p best len w v = (best, len, refl, omega arith, tt, inl (refl, refl))
find_best-Leads ((a, m) ∷ ms) p best len w (v, vs) =
    let e1 = strlen_lem m [] v in
    let e2 = matches-covers m p v w in
    elim (Bool-cases (covers m p && ltb len (length m))) [
      | inl better ↦
          let (b, n, e, le, longest, found) = find_best-Leads ms p (some a) (length m) w vs in
          let (here, more) = both_true (covers m p) (ltb len (length m)) better in
          let grown : len ≤ n = ground (arith, more, le) in
          (
            b,
            n,
            rw (e1, e2, better) e,
            grown,
            (λ c. le, longest),
            elim found [ inl (now, same) ↦ inr (inl (now, sym same, here)) | inr f ↦ inr (inr f) ],
          )
      | inr not_better ↦
          let short : (n : ℕ) → len ≤ n → covers m p ≡ true → length m ≤ n = λ n le c.
            let less = and_false (covers m p) (ltb len (length m)) c not_better in
            ground (arith, less, le) in
          let (b, n, e, le, longest, found) = find_best-Leads ms p best len w vs in
          (
            b,
            n,
            rw (e1, e2, not_better) e,
            le,
            (short n le, longest),
            elim found [ inl same ↦ inl same | inr f ↦ inr (inr f) ],
          )
    ]

-- On texts the search does not fault. No mountpoint whose path covers the given one, that is begins
-- it, but for the case of letters, up to its end or a slash, is longer than the length found. It is
-- the length of a path that covers the given one, and the result is the address of its mountpoint, or
-- the length is 0 and the result NULL.
pub find_mountpoint_for_path-IsLongest :
    (ms : List Mounted) (p : List ℕ)
    → IsText p
    → All (λ m. IsText m.1) ms
    → (b : Option ℕ) × (n : ℕ) × (find_mountpoint_for_path (mounted ms) (p ++ 0 ∷ []) ≡ some b)
      × IsLongest p ms n
      × (((b ≡ none) × (n ≡ 0)) ⊎ IsFound p ms b n)
unfolding find_mountpoint_for_path Leads
find_mountpoint_for_path-IsLongest [] p w v = (none, 0, refl, tt, inl (refl, refl))
find_mountpoint_for_path-IsLongest ((a, m) ∷ ms) p w v =
    let (b, n, e, _, longest, found) = find_best-Leads ((a, m) ∷ ms) p none 0 w v in
    let some_mount : (length (mounted ((a, m) ∷ ms)) == 0) ≡ false = ground arith in
    (b, n, rw (some_mount, e) refl, longest, found)
