-- ===== src/Files/Tests.antt =====
-- Runs of the descriptor table with `max_open` 4: descriptors 0 and 2 share a file, 1 has its own.
use exscape_os.Prelude.{◌+◌, ◌≡◌, refl, [], ◌∷◌, some, none, arith, pos, get_elem?, update}
use mathlib.Core.Option
use exscape_os.Errno.{Ret, ok}
use exscape_os.Files.{
  Kernel, OpenFile, scan, do_close, close_op, dup, dup2, new_filp, open_pipe, fork_table, grab_all,
  stdio_ops, pipe_ops, attach,
}
use exscape_os.Files.Refs.{IsCounted, refs, dup-IsCounted, do_close-IsCounted}
use exscape_os.Files.Dup.{dup2-IsCounted, dup2_self-fault}
use exscape_os.Files.Fork.{fork_table-IsCounted}
use exscape_os.Files.Open.{open_pipe-IsCounted, ends, leads_to, opened}

abbrev shared : OpenFile
shared = record { count = 2; fops = stdio_ops; pipe = 0 }

abbrev single : OpenFile
single = record { count = 1; fops = stdio_ops; pipe = 0 }

abbrev three : Kernel
three = record {
  files = update (update (λ _. none) 1 (some shared)) 2 (some single);
  pipes = λ _. none;
  fdtable = 1 ∷ 2 ∷ 1 ∷ 0 ∷ 0 ∷ [];
}

three-IsCounted : IsCounted 4 (λ _. 0) three
three-IsCounted = record {
  entries = refl;
  counted = λ p np. ground arith;
  live = λ p f e. ground arith;
}

-- the states that the calls below leave
abbrev after_dup : Kernel
after_dup = record three {
  files = update three.files 2 (some (record single { count = 2 }));
  fdtable = 1 ∷ 2 ∷ 1 ∷ 2 ∷ 0 ∷ [];
}

dup-IsCounted_example : IsCounted 4 (λ _. 0) after_dup
unfolding dup scan
dup-IsCounted_example = dup-IsCounted (pos 1) {r = ok 3} three-IsCounted refl

abbrev after_close : Kernel
after_close = record three { files = update three.files 2 none; fdtable = 1 ∷ 0 ∷ 1 ∷ 0 ∷ 0 ∷ [] }

do_close-IsCounted_example : IsCounted 4 (λ _. 0) after_close
unfolding do_close close_op
do_close-IsCounted_example = do_close-IsCounted (pos 1) {r = ok 0} three-IsCounted refl

abbrev after_dup2 : Kernel
after_dup2 = record three {
  files =
      update (update three.files 1 (some (record shared { count = 1 }))) 2
        (some (record single { count = 2 }));
  fdtable = 2 ∷ 2 ∷ 1 ∷ 0 ∷ 0 ∷ [];
}

dup2-IsCounted_example : IsCounted 4 (λ _. 0) after_dup2
unfolding dup2 do_close close_op
dup2-IsCounted_example = dup2-IsCounted (pos 1) (pos 0) {r = ok 0} three-IsCounted refl

dup2_self-fault_example :
    (r : Ret) × (g : Kernel) × (do_close 4 (pos 1) three ≡ some (r, g))
    × (g.files 2 ≡ none)
    × (get_elem? g.fdtable 1 ≡ some 0)
    × (attach 2 1 g ≡ none)
    × (dup2 4 (pos 1) (pos 1) three ≡ none)
unfolding close_op
dup2_self-fault_example =
    dup2_self-fault 1 2 single three three (omega arith) (omega arith) refl refl refl refl

abbrev after_fork : Kernel
after_fork = record three {
  files =
      update
        (update (update three.files 1 (some (record shared { count = 3 }))) 2
          (some (record single { count = 2 })))
        1 (some (record shared { count = 4 }));
}

fork_table-IsCounted_example : IsCounted 4 (λ p. 0 + refs p three.fdtable) after_fork
unfolding fork_table grab_all
fork_table-IsCounted_example = fork_table-IsCounted three-IsCounted refl refl

abbrev after_pipe : Kernel
after_pipe = opened 8 5 6 7 3 4 three

open_pipe-IsCounted_example :
    IsCounted 4 (λ _. 0) after_pipe
    × (get_elem? after_pipe.fdtable 3 ≡ some 5)
    × (get_elem? after_pipe.fdtable 4 ≡ some 6)
    × (Option.map leads_to (after_pipe.files 5) ≡ some (pipe_ops, 7))
    × (Option.map leads_to (after_pipe.files 6) ≡ some (pipe_ops, 7))
    × (Option.map ends (after_pipe.pipes 7) ≡ some (5, 6, 0))
unfolding open_pipe new_filp scan
open_pipe-IsCounted_example =
    open_pipe-IsCounted 8 5 6 7 3 4 three three-IsCounted (omega arith) (omega arith) (omega arith)
      refl refl refl
