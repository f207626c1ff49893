-- ===== src/Files/Dup.antt =====
-- `dup2` of kernel/vfs.c: what it keeps, what it makes of the descriptors, and its fault.
use exscape_os.Prelude.{
  ℕ, zero, suc, ◌<◌, ◌≡◌, ◌≢◌, none, some, arith, get_elem?, set, leb, Bool-cases, Option-cases,
  inl, inr, pos, negsuc, ℤ, get_elem?-set_self, lt_of_get_elem?,
}
use exscape_os.Errno.{Ret, ok}
use exscape_os.Files.{
  Kernel, OpenFile, do_get_filp, grab, release, do_close, close_op, dup2, attach,
}
use exscape_os.Files.Refs.{IsCounted, grab-IsCounted, do_close-IsCounted, close_op-same}

module _ {max_open : ℕ} {others : ℕ → ℕ} where
  -- behind the `close` of the old file at `fd2`
  attach-IsCounted :
      (file fd2 : ℕ) {k k' : Kernel} {r : Ret}
      → IsCounted max_open others k
      → file ≢ 0
      → attach file fd2 k ≡ some (r, k')
      → IsCounted max_open others k'
  unfolding attach
  attach-IsCounted file fd2 {k} {k'} v ne h = elim (Option-cases (get_elem? k.fdtable fd2)) [
    | inl e ↦ ground (arith, e)
    | inr (suc now, e) ↦ ground (arith, e)
    | inr (zero, e) ↦
        elim (Option-cases (grab file (record k { fdtable = set k.fdtable fd2 file }))) [
          | inl eg ↦ ground (arith, e, eg)
          | inr (k2, eg) ↦
              let same : k2 ≡ k' = ground (arith, e, eg) in
              let v' = grab-IsCounted file fd2 v ne e eg in rw same at v'
        ]
  ]

  -- Where `dup2` returns, with an error or not, every open file's count is again the number of table
  -- entries that point to it, if it was before.
  pub dup2-IsCounted :
      (fd fd2 : ℤ) {k k' : Kernel} {r : Ret}
      → IsCounted max_open others k
      → dup2 max_open fd fd2 k ≡ some (r, k')
      → IsCounted max_open others k'
  unfolding dup2
  dup2-IsCounted fd (negsuc n) {k} {k'} v h = let same : k ≡ k' = cc in rw same at v
  dup2-IsCounted fd (pos fd2) {k} {k'} {r} v h = elim (Bool-cases (leb max_open fd2)) [
    | inl e ↦ let same : k ≡ k' = ground (arith, e) in rw same at v
    | inr inside ↦ elim (Option-cases (do_get_filp max_open fd k)) [
      | inl e ↦ ground (arith, inside, e)
      | inr (zero, e) ↦ let same : k ≡ k' = ground (arith, inside, e) in rw same at v
      | inr (suc file, e) ↦ elim (Option-cases (do_get_filp max_open (pos fd2) k)) [
        | inl et ↦ ground (arith, inside, e, et)
        | inr (zero, et) ↦
            let h' : attach (suc file) fd2 k ≡ some (r, k') = ground (arith, inside, e, et) in
            attach-IsCounted (suc file) fd2 v (omega arith) h'
        | inr (suc tmp, et) ↦ elim (Option-cases (do_close max_open (pos fd2) k)) [
          | inl ec ↦ ground (arith, inside, e, et, ec)
          | inr ((r1, k1), ec) ↦
              let h' : attach (suc file) fd2 k1 ≡ some (r, k') =
                ground (arith, inside, e, et, ec) in
              attach-IsCounted (suc file) fd2 (do_close-IsCounted (pos fd2) v ec) (omega arith) h'
        ]
      ]
    ]
  ]

-- `dup2` of a descriptor onto itself, where no other descriptor has the file and its `close`
-- operation does not fault: `do_close` returns, the file is freed then and the descriptor free, and
-- the last part of `dup2`, which counts the reference in the freed file, faults, and so `dup2`.
pub dup2_self-fault :
    {max_open : ℕ} (fd file : ℕ) (f : OpenFile) (k k1 : Kernel)
    → fd < max_open
    → file ≢ 0
    → get_elem? k.fdtable fd ≡ some file
    → k.files file ≡ some f
    → f.count ≡ 1
    → close_op file f k ≡ some k1
    → (r : Ret) × (g : Kernel) × (do_close max_open (pos fd) k ≡ some (r, g))
      × (g.files file ≡ none)
      × (get_elem? g.fdtable fd ≡ some 0)
      × (attach file fd g ≡ none)
      × (dup2 max_open (pos fd) (pos fd) k ≡ none)
unfolding dup2 do_close release attach grab
dup2_self-fault {max_open} fd file f k k1 lt ne at ef one ec =
    let (files_same, table_same) = close_op-same file f k ec in
    let inside = lt_of_get_elem? k.fdtable fd at in
    let cleared : get_elem? (set k1.fdtable fd 0) fd ≡ some 0 =
      rw table_same (get_elem?-set_self k.fdtable fd 0 inside) in
    let k2 = release file f k1 in
    let g = record k2 { fdtable = set k2.fdtable fd 0 } in
    let closes : do_close max_open (pos fd) k ≡ some (ok 0, g) = ground (arith, ec) in
    let freed : g.files file ≡ none = ground (arith, one) in
    let fault : attach file fd g ≡ none = ground (arith, cleared, freed) in
    (ok 0, g, closes, freed, cleared, fault, ground (arith, ec, cleared))
