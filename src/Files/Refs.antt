-- ===== src/Files/Refs.antt =====
-- Reference counts of the open files (kernel/vfs.c): `count` is the number of table entries, in
-- all tasks, that point to the file.
use exscape_os.Prelude.{
  ℕ, zero, suc, ◌+◌, ◌<◌, ◌≡◌, ◌≢◌, List, [], ◌∷◌, Option, none, some, arith, ◌==◌, if◌then◌else◌,
  length, get_elem?, set, length-set, Option-cases, inl, inr, pos, negsuc, ℤ, update,
}
use exscape_os.Errno.{Ret}
use exscape_os.Files.{Kernel, OpenFile, scan, do_get_filp, grab, release, do_close, close_op, dup}

-- 1 if `a` is the file `p`, else 0
abbrev pub hit : ℕ → ℕ → ℕ
hit a p = if a == p then 1 else 0

abbrev pub refs : ℕ → List ℕ → ℕ
refs p [] = 0
refs p (a ∷ table) = hit a p + refs p table

-- a file that is not allocated counts nothing
abbrev pub count_of : Option OpenFile → ℕ
count_of none = 0
count_of (some f) = f.count

-- `others p` is the number of entries in the tables of the other tasks that point to `p`.
pub record IsCounted (max_open : ℕ) (others : ℕ → ℕ) (k : Kernel) : Type 0 where
  pub entries : length k.fdtable ≡ max_open + 1
  pub counted : (p : ℕ) → p ≢ 0 → count_of (k.files p) ≡ refs p k.fdtable + others p
  pub live : (p : ℕ) (f : OpenFile) → k.files p ≡ some f → 0 < f.count

pub refs-set :
    (table : List ℕ) (i a b p : ℕ)
    → get_elem? table i ≡ some a
    → refs p (set table i b) + hit a p ≡ refs p table + hit b p
refs-set [] i a b p h = cc
refs-set (x ∷ table) zero a b p h = ground arith
refs-set (x ∷ table) (suc i) a b p h = omega (arith, refs-set table i a b p h)

pub refs_pos : (table : List ℕ) (i p : ℕ) → get_elem? table i ≡ some p → 0 < refs p table
refs_pos [] i p h = cc
refs_pos (x ∷ table) zero p h = ground arith
refs_pos (x ∷ table) (suc i) p h = omega (arith, refs_pos table i p h)

pub scan-free :
    (n i j : ℕ) (table : List ℕ) → scan n i table ≡ some (some j) → get_elem? table j ≡ some 0
unfolding scan
scan-free zero i j table h = cc
scan-free (suc n) i j table h = elim (Option-cases (get_elem? table i)) [
  | inl e ↦ ground (arith, e)
  | inr (p, e) ↦ ground (arith, e, scan-free n (i + 1) j table)
]

-- The handlers leave the files and the table alone.
pub close_op-same :
    (file : ℕ) (f : OpenFile) (k : Kernel) {k1 : Kernel}
    → close_op file f k ≡ some k1
    → (k1.files ≡ k.files) × (k1.fdtable ≡ k.fdtable)
unfolding close_op
close_op-same file f k h = elim (Option-cases (k.pipes f.pipe)) [
  | inl e ↦ ground (arith, e)
  | inr (p, e) ↦ ground (arith, e)
]

module _ {max_open : ℕ} {others : ℕ → ℕ} where
  -- The count that a new entry adds, with the entry in place of a free one.
  pub grab-IsCounted :
      (file i : ℕ) {k k' : Kernel}
      → IsCounted max_open others k
      → file ≢ 0
      → get_elem? k.fdtable i ≡ some 0
      → grab file (record k { fdtable = set k.fdtable i file }) ≡ some k'
      → IsCounted max_open others k'
  unfolding grab
  grab-IsCounted file i {k} {k'} v ne free h = elim (Option-cases (k.files file)) [
    | inl e ↦ ground (arith, e)
    | inr (f, e) ↦
        let new : Kernel = record k {
          files = update k.files file (some (record f { count = f.count + 1 }));
          fdtable = set k.fdtable i file;
        } in
        let same : new ≡ k' = ground (arith, e) in
        let v' : IsCounted max_open others new = record {
          entries = omega (arith, length-set k.fdtable i file, v.entries);
          counted = λ p np. ground (arith, e, v.counted p np, refs-set k.fdtable i 0 file p free);
          live = λ p g eg. ground (arith, v.live p g);
        } in
        rw same at v'
  ]

  dup_found :
      (fd : ℤ) (file : ℕ) {k k' : Kernel} {r : Ret}
      → IsCounted max_open others k
      → do_get_filp max_open fd k ≡ some file
      → file ≢ 0
      → (i : ℕ) → scan max_open 0 k.fdtable ≡ some (some i)
      → dup max_open fd k ≡ some (r, k')
      → IsCounted max_open others k'
  unfolding dup
  dup_found fd file {k} {k'} v e ne i es h =
      elim (Option-cases (grab file (record k { fdtable = set k.fdtable i file }))) [
        | inl eg ↦ ground (arith, e, es, eg)
        | inr (k1, eg) ↦
            let same : k1 ≡ k' = ground (arith, e, es, eg) in
            let v' = grab-IsCounted file i v ne (scan-free max_open 0 i k.fdtable es) eg in
            rw same at v'
      ]

  -- Where `dup` returns, with an error or not, every open file's count is again the number of table
  -- entries that point to it, if it was before.
  pub dup-IsCounted :
      (fd : ℤ) {k k' : Kernel} {r : Ret}
      → IsCounted max_open others k
      → dup max_open fd k ≡ some (r, k')
      → IsCounted max_open others k'
  unfolding dup
  dup-IsCounted fd {k} {k'} v h = elim (Option-cases (do_get_filp max_open fd k)) [
    | inl e ↦ ground (arith, e)
    | inr (zero, e) ↦ let same : k ≡ k' = ground (arith, e) in rw same at v
    | inr (suc file, e) ↦ elim (Option-cases (scan max_open 0 k.fdtable)) [
      | inl es ↦ ground (arith, e, es)
      | inr (none, es) ↦ let same : k ≡ k' = ground (arith, e, es) in rw same at v
      | inr (some i, es) ↦ dup_found fd (suc file) v e (omega arith) i es h
    ]
  ]

  -- A table entry is taken out, and the file that it points to is released.
  release-IsCounted :
      (file fd : ℕ) (f : OpenFile) (k k1 : Kernel)
      → IsCounted max_open others k
      → file ≢ 0
      → get_elem? k.fdtable fd ≡ some file
      → k.files file ≡ some f
      → (k1.files ≡ k.files) × (k1.fdtable ≡ k.fdtable)
      → IsCounted max_open others (record (release file f k1) { fdtable = set k1.fdtable fd 0 })
  unfolding release
  release-IsCounted file fd f k k1 v ne at e (ef, et) =
      let pos = v.live file f e in
      record {
        entries = rw et (omega (arith, length-set k.fdtable fd 0, v.entries));
        counted = λ p np.
            rw (ef, et) (ground (arith, e, v.counted p np, refs-set k.fdtable fd file 0 p at));
        live = λ p g. rw ef (λ eg. ground (arith, v.live p g));
      }

  close_found :
      (fd file : ℕ) (f : OpenFile) {k k' : Kernel} {r : Ret}
      → IsCounted max_open others k
      → do_get_filp max_open (pos fd) k ≡ some file
      → file ≢ 0
      → k.files file ≡ some f
      → do_close max_open (pos fd) k ≡ some (r, k')
      → IsCounted max_open others k'
  unfolding do_close
  close_found fd file f {k} {k'} v e ne ef h = elim (Option-cases (close_op file f k)) [
    | inl ec ↦ ground (arith, e, ef, ec, v.live file f ef)
    | inr (k1, ec) ↦
        let at : get_elem? k.fdtable fd ≡ some file = ground (arith, e) in
        let v' = release-IsCounted file fd f k k1 v ne at ef (close_op-same file f k ec) in
        let same : record (release file f k1) { fdtable = set k1.fdtable fd 0 } ≡ k' =
          ground (arith, e, ef, ec, v.live file f ef) in
        rw same at v'
  ]

  -- Where `do_close` returns, with an error or not, every open file's count is again the number of
  -- table entries, in this task and the others, that point to it, if it was before.
  pub do_close-IsCounted :
      (fd : ℤ) {k k' : Kernel} {r : Ret}
      → IsCounted max_open others k
      → do_close max_open fd k ≡ some (r, k')
      → IsCounted max_open others k'
  unfolding do_close
  do_close-IsCounted (negsuc n) {k} {k'} v h = let same : k ≡ k' = cc in rw same at v
  do_close-IsCounted (pos fd) {k} {k'} v h = elim (Option-cases (do_get_filp max_open (pos fd) k)) [
    | inl e ↦ ground (arith, e)
    | inr (zero, e) ↦ let same : k ≡ k' = ground (arith, e) in rw same at v
    | inr (suc file, e) ↦ elim (Option-cases (k.files (suc file))) [
      | inl ef ↦ ground (arith, e, ef)
      | inr (f, ef) ↦ close_found fd (suc file) f v e (omega arith) ef h
    ]
  ]
