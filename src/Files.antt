-- ===== src/Files.antt =====
-- kernel/vfs.c: the descriptor table of the running task and the open files that it points to,
-- with the `close` handlers that the table calls, `pipe()` and `pipe_close` (kernel/pipe.c) among
-- them. An address is a number, 0 for NULL; `kmalloc` returns an address that the caller of the
-- model gives. `max_open` is MAX_OPEN_FILES, 128 in the source. A table has the entries 0 to
-- `max_open`, which the code touches. A fault (`none`) is a failed assertion, a panic, or an
-- access to an object that has been freed.
pub mod Refs
pub mod Dup
pub mod Fork
pub mod Open
mod Tests
use exscape_os.Prelude.{
  ℕ, zero, suc, ℤ, pos, negsuc, ◌+◌, ◌-◌, Bool, ◌&&◌, ◌||◌, List, Option, none, some, ltb, leb,
  ◌==◌, not, if◌then◌else◌, ◌>>=◌, ◌>>◌, assert, get_elem?, set, replicate, take, [], ◌∷◌, true,
  false, update,
}
use exscape_os.Errno.{Ret, ok, err, ebadf, emfile}
use exscape_os.Pipe.{Pipe}

-- The handler tables that the kernel installs in `fops`: those of the standard streams, of a pipe
-- end, and of a file on a disk or the initrd.
pub data Fops : Type 0 where
  no_ops stdio_ops pipe_ops disk_ops : Fops

-- `struct open_file`, with what the calls below read; `pipe` is `data` of a pipe end
pub record OpenFile : Type 0 where
  pub count : ℕ
  pub fops : Fops
  pub pipe : ℕ

pub record Kernel : Type 0 where
  pub files : ℕ → Option OpenFile
  pub pipes : ℕ → Option Pipe
  pub fdtable : List ℕ

-- a record as `memset` leaves it
abbrev pub blank_file : OpenFile
blank_file = record { count = 0; fops = no_ops; pipe = 0 }

-- the first free entry among `n` from `i` on, as the loops of `new_filp` and `dup` look for it
unfoldable pub scan : (n i : ℕ) → List ℕ → Option (Option ℕ)
scan zero i table = some none
scan (suc n) i table =
    let rest = scan n (i + 1) table in
    elim (get_elem? table i) [ none ↦ none | some p ↦ if p == 0 then some (some i) else rest ]

-- `file->count++`
unfoldable pub grab : ℕ → Kernel → Option Kernel
grab file k = do
  f ← k.files file
  some (record k { files = update k.files file (some (record f { count = f.count + 1 })) })

-- the end that closes is cleared if no other descriptor has it
unfoldable pub close_end : ℕ → OpenFile → Pipe → Pipe
close_end file f p =
    if p.reader == file
    then (if f.count == 1 then record p { reader = 0 } else p)
    else (if f.count == 1 then record p { writer = 0 } else p)

unfoldable pub pipe_close : ℕ → OpenFile → Kernel → Option Kernel
pipe_close file f k = do
  assert (not (f.pipe == 0))
  p ← k.pipes f.pipe
  assert ((p.reader == file) || (p.writer == file))
  let p' = close_end file f p
  some (record k {
    pipes = update k.pipes f.pipe (if (p'.reader == 0) && (p'.writer == 0) then none else some p');
  })

-- `file->fops.close(fd, file)`; `stdio_close` and those of the disks do nothing
unfoldable pub close_op : ℕ → OpenFile → Kernel → Option Kernel
unfolding pipe_close close_end
close_op file f k = elim f.fops [ no_ops ↦ none | pipe_ops ↦ pipe_close file f k | _ ↦ some k ]

unfoldable pub release : ℕ → OpenFile → Kernel → Kernel
release file f k = record k {
  files =
      update k.files file (if f.count == 1 then none else some (record f { count = f.count - 1 }));
}

-- the last part of `dup2`: the free entry `fd2` comes to point to the file
unfoldable pub attach : (file fd2 : ℕ) → Kernel → Option (Ret × Kernel)
unfolding grab
attach file fd2 k = do
  now ← get_elem? k.fdtable fd2
  assert (now == 0)
  k' ← grab file (record k { fdtable = set k.fdtable fd2 file })
  some (ok fd2, k')

-- `fork` gives the child a copy of the table and counts its entries, those below `max_open`
unfoldable pub grab_all : List ℕ → Kernel → Option Kernel
unfolding grab
grab_all [] k = some k
grab_all (file ∷ table) k = elim (file == 0) [
  | true ↦ grab_all table k
  | false ↦ elim (k.files file) [
    | none ↦ none
    | some f ↦
        if ltb f.count 1
        then none
        else (elim (grab file k) [ none ↦ none | some k' ↦ grab_all table k' ])
  ]
]

module _ (max_open : ℕ) where
  unfoldable pub do_get_filp : ℤ → Kernel → Option ℕ
  do_get_filp (negsuc n) k = some 0
  do_get_filp (pos fd) k = if ltb max_open fd then some 0 else get_elem? k.fdtable fd

  -- the descriptor; the new open file is at `fresh`
  unfoldable pub new_filp : (fresh : ℕ) → Kernel → Option (ℕ × Kernel)
  new_filp fresh k = do
    found ← scan (max_open + 1) 0 k.fdtable
    elim found [
      | none ↦ none
      | some i ↦ some (
        i,
        record k {
          files = update k.files fresh (some blank_file);
          fdtable = set k.fdtable i fresh;
        },
      )
    ]

  unfoldable pub destroy_filp : ℕ → Kernel → Option Kernel
  destroy_filp fd k = do
    assert (ltb fd max_open)
    file ← get_elem? k.fdtable fd
    assert (not (file == 0))
    f ← k.files file
    some (record k { files = update k.files file none; fdtable = set k.fdtable fd 0 })

  unfoldable pub do_close : ℤ → Kernel → Option (Ret × Kernel)
  unfolding do_get_filp release
  do_close (negsuc n) k = some (err ebadf, k)
  do_close (pos fd) k = do
    file ← do_get_filp (pos fd) k
    if file == 0 then some (err ebadf, k) else do
      f ← k.files file
      if ltb f.count 1 then some (err ebadf, k) else do
        k1 ← close_op file f k
        let k2 = release file f k1
        some (ok 0, record k2 { fdtable = set k2.fdtable fd 0 })

  unfoldable pub dup : ℤ → Kernel → Option (Ret × Kernel)
  unfolding do_get_filp grab
  dup fd k = do
    file ← do_get_filp fd k
    if file == 0 then some (err ebadf, k) else do
      found ← scan max_open 0 k.fdtable
      elim found [
        | none ↦ some (err emfile, k)
        | some i ↦ do k1 ← grab file (record k { fdtable = set k.fdtable i file }); some (ok i, k1)
      ]

  unfoldable pub dup2 : ℤ → ℤ → Kernel → Option (Ret × Kernel)
  unfolding do_get_filp attach
  dup2 fd (negsuc n) k = some (err ebadf, k)
  dup2 fd (pos fd2) k = if leb max_open fd2 then some (err ebadf, k) else do
    file ← do_get_filp fd k
    if file == 0 then some (err ebadf, k) else do
      tmp ← do_get_filp (pos fd2) k
      k1 ← if tmp == 0 then some k else (do (_, closed) ← do_close (pos fd2) k; some closed)
      attach file fd2 k1

  -- `pipe()`: the two descriptors; `rd`, `wr` and `at` are the addresses that `kmalloc` returns
  unfoldable pub open_pipe : (size rd wr at : ℕ) → Kernel → Option (ℕ × ℕ × Kernel)
  open_pipe size rd wr at k = do
    (rfd, k1) ← new_filp rd k
    (wfd, k2) ← new_filp wr k1
    some (
      rfd,
      wfd,
      record k2 {
        files =
            update (update k2.files rd (some (record { count = 1; fops = pipe_ops; pipe = at }))) wr
              (some (record { count = 1; fops = pipe_ops; pipe = at }));
        pipes = update k2.pipes at (
            some (record {
              buffer = replicate size 0;
              reader = rd;
              writer = wr;
              read_pos = 0;
              write_pos = 0;
              bytes_avail = 0;
            }));
      },
    )

  unfoldable pub fork_table : Kernel → Option (List ℕ × Kernel)
  fork_table k = do k' ← grab_all (take max_open k.fdtable) k; some (k.fdtable, k')

  -- a task that ends closes its descriptors `fd` to `fd + n - 1`
  unfoldable pub close_all : (n fd : ℕ) → Kernel → Option Kernel
  close_all zero fd k = some k
  close_all (suc n) fd k = elim (get_elem? k.fdtable fd) [
    | none ↦ none
    | some file ↦ elim (file == 0) [
      | true ↦ close_all n (fd + 1) k
      | false ↦ elim (do_close (pos fd) k) [
        | some (ok zero, k') ↦ close_all n (fd + 1) k'
        | _ ↦ none
      ]
    ]
  ]
