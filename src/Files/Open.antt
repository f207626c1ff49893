-- ===== src/Files/Open.antt =====
-- `pipe()` (kernel/pipe.c) on the descriptor table: what the two new descriptors lead to.
use mathlib.Core.Option
use exscape_os.Prelude.{
  ℕ, ◌+◌, ◌≡◌, ◌≢◌, sym, ◌∙◌, none, some, arith, get_elem?, set, length-set, Option-cases, inl, inr,
  get_elem?-set_self, get_elem?-set_ne, replicate, lt_of_get_elem?, update,
}
use exscape_os.Pipe.{Pipe}
use exscape_os.Files.{Kernel, OpenFile, Fops, scan, new_filp, open_pipe, blank_file, pipe_ops}
use exscape_os.Files.Refs.{IsCounted, refs-set, scan-free}

-- `new_filp` puts a blank file at `fresh` and its address into an entry that was free.
record Fresh (fresh fd : ℕ) (k k' : Kernel) : Type 0 where
  was_free : get_elem? k.fdtable fd ≡ some 0
  state : k' ≡ record k {
    files = update k.files fresh (some blank_file);
    fdtable = set k.fdtable fd fresh;
  }

new_filp-Fresh :
    (max_open fresh : ℕ) {fd : ℕ} {k k' : Kernel}
    → new_filp max_open fresh k ≡ some (fd, k')
    → Fresh fresh fd k k'
unfolding new_filp
new_filp-Fresh max_open fresh {fd} {k} {k'} h =
    elim (Option-cases (scan (max_open + 1) 0 k.fdtable)) [
      | inl e ↦ ground (arith, e)
      | inr (none, e) ↦ ground (arith, e)
      | inr (some i, e) ↦
          let free = scan-free (max_open + 1) 0 i k.fdtable e in
          record { was_free = ground (arith, e, free); state = ground (arith, e) }
    ]

-- The two open files at `rd` and `wr` become the ends of a new pipe.
abbrev pub piped : (size rd wr at : ℕ) → Kernel → Kernel
piped size rd wr at k = record k {
  files =
      update (update k.files rd (some (record { count = 1; fops = pipe_ops; pipe = at }))) wr
        (some (record { count = 1; fops = pipe_ops; pipe = at }));
  pipes = update k.pipes at (
      some (record {
        buffer = replicate size 0;
        reader = rd;
        writer = wr;
        read_pos = 0;
        write_pos = 0;
        bytes_avail = 0;
      }));
}

-- The state behind `pipe()`, with the free entries that it took.
abbrev pub opened : (size rd wr at rfd wfd : ℕ) → Kernel → Kernel
opened size rd wr at rfd wfd k = piped size rd wr at (record k {
  files = update (update k.files rd (some blank_file)) wr (some blank_file);
  fdtable = set (set k.fdtable rfd rd) wfd wr;
})

opened_lem :
    (max_open size rd wr at : ℕ) {rfd wfd : ℕ} (k : Kernel) {k' : Kernel}
    → open_pipe max_open size rd wr at k ≡ some (rfd, wfd, k')
    → (get_elem? k.fdtable rfd ≡ some 0)
      × (get_elem? (set k.fdtable rfd rd) wfd ≡ some 0)
      × (k' ≡ opened size rd wr at rfd wfd k)
unfolding open_pipe
opened_lem max_open size rd wr at {rfd} {wfd} k {k'} h =
    elim (Option-cases (new_filp max_open rd k)) [
      | inl e ↦ ground (arith, e)
      | inr ((i, k1), e1) ↦ elim (Option-cases (new_filp max_open wr k1)) [
        | inl e ↦ ground (arith, e1, e)
        | inr ((j, k2), e2) ↦
            let f1 = new_filp-Fresh max_open rd e1 in
            let f2 = new_filp-Fresh max_open wr e2 in
            let s1 = f1.state in
            let s2 : k2 ≡ record k {
              files = update (update k.files rd (some blank_file)) wr (some blank_file);
              fdtable = set (set k.fdtable i rd) j wr;
            } =
              f2.state ∙ rw s1 in
            let ei : i ≡ rfd = ground (arith, e1, e2) in
            let ej : j ≡ wfd = ground (arith, e1, e2) in
            let ek : piped size rd wr at k2 ≡ k' = ground (arith, e1, e2) in
            (rw ei at f1.was_free, rw (← ei, ← ej) (rw s1 at f2.was_free), sym ek ∙ rw (s2, ei, ej))
      ]
    ]

-- the two ends of a pipe, and how many bytes it holds
abbrev pub ends : Pipe → ℕ × ℕ × ℕ
ends p = (p.reader, p.writer, p.bytes_avail)

-- the operations of an open file, and what it is of
abbrev pub leads_to : OpenFile → Fops × ℕ
leads_to f = (f.fops, f.pipe)

module _ {max_open : ℕ} {others : ℕ → ℕ} (size rd wr at rfd wfd : ℕ) (k : Kernel)
    (v : IsCounted max_open others k) (nr : rd ≢ 0) (nw : wr ≢ 0) (ne : rd ≢ wr)
    (er : k.files rd ≡ none) (ew : k.files wr ≡ none) where
  opened-IsCounted :
      get_elem? k.fdtable rfd ≡ some 0
      → get_elem? (set k.fdtable rfd rd) wfd ≡ some 0
      → IsCounted max_open others (opened size rd wr at rfd wfd k)
  opened-IsCounted free1 free2 = record {
    entries =
        omega
          (arith, length-set k.fdtable rfd rd, length-set (set k.fdtable rfd rd) wfd wr, v.entries);
    counted = λ p np. ground (
      arith,
      v.counted p np,
      refs-set k.fdtable rfd 0 rd p free1,
      refs-set (set k.fdtable rfd rd) wfd 0 wr p free2,
    );
    live = λ p f. ground (arith, v.live p f);
  }

  -- `pipe()` keeps the counts right, if `kmalloc` returns the addresses of no open files. Its two
  -- descriptors lead to two open files, both with the operations of a pipe, and with the address of
  -- one new pipe, that is empty and has the first as its reader and the second as its writer.
  pub open_pipe-IsCounted :
      {k' : Kernel}
      → open_pipe max_open size rd wr at k ≡ some (rfd, wfd, k')
      → IsCounted max_open others k'
        × (get_elem? k'.fdtable rfd ≡ some rd)
        × (get_elem? k'.fdtable wfd ≡ some wr)
        × (Option.map leads_to (k'.files rd) ≡ some (pipe_ops, at))
        × (Option.map leads_to (k'.files wr) ≡ some (pipe_ops, at))
        × (Option.map ends (k'.pipes at) ≡ some (rd, wr, 0))
  open_pipe-IsCounted {k'} h =
      let (free1, free2, e) = opened_lem max_open size rd wr at k h in
      let own = get_elem?-set_self k.fdtable rfd rd (lt_of_get_elem? k.fdtable rfd free1) in
      let apart : wfd ≢ rfd = λ same. nr (ground (arith, own, free2, same)) in
      rw e (
        opened-IsCounted free1 free2,
        get_elem?-set_ne (set k.fdtable rfd rd) wfd rfd wr apart ∙ own,
        get_elem?-set_self (set k.fdtable rfd rd) wfd wr (lt_of_get_elem? _ wfd free2),
        ground arith,
        ground arith,
        ground arith,
      )
