-- ===== src/Pipe/Tests.antt =====
-- Runs of kernel/pipe.c on a pipe of 8 bytes.
use exscape_os.Prelude.{
  ℕ, ◌≡◌, refl, inl, inr, List, [], ◌∷◌, ◌++◌, some, none, arith, replicate, ◌<◌, take, drop,
}
use exscape_os.Errno.{ok}
use exscape_os.Pipe.{Pipe, done, pipe_read, pipe_write}
use exscape_os.Pipe.Holds.{IsPipe, straight, wrapped}
use exscape_os.Pipe.Read.{pipe_read-take}
use exscape_os.Pipe.Overrun.{pipe_read-overrun}
use exscape_os.Pipe.Write.{pipe_write-append}
use exscape_os.Pipe.Overread.{pipe_write-overread}

-- five bytes that go round the end of the buffer
abbrev round : Pipe
round = record {
  buffer = 30 ∷ 40 ∷ 50 ∷ 0 ∷ 0 ∷ 0 ∷ 10 ∷ 20 ∷ [];
  reader = 1;
  writer = 2;
  read_pos = 6;
  write_pos = 3;
  bytes_avail = 5;
}

abbrev held : List ℕ
held = 10 ∷ 20 ∷ 30 ∷ 40 ∷ 50 ∷ []

round-IsPipe : IsPipe 8 round held
round-IsPipe = record {
  holds = wrapped (10 ∷ 20 ∷ []) (0 ∷ 0 ∷ 0 ∷ []) (30 ∷ 40 ∷ 50 ∷ []) refl refl refl refl;
  room = refl;
  avail = refl;
  read_in = omega arith;
  write_in = omega arith;
}

-- two bytes in one piece, the second in the last place but one
abbrev flat : Pipe
flat = record {
  buffer = 0 ∷ 0 ∷ 0 ∷ 0 ∷ 0 ∷ 10 ∷ 20 ∷ 0 ∷ [];
  reader = 1;
  writer = 2;
  read_pos = 5;
  write_pos = 7;
  bytes_avail = 2;
}

flat-IsPipe : IsPipe 8 flat (10 ∷ 20 ∷ [])
flat-IsPipe = record {
  holds = straight (0 ∷ 0 ∷ 0 ∷ 0 ∷ 0 ∷ []) (0 ∷ []) refl refl (inl refl);
  room = refl;
  avail = refl;
  read_in = omega arith;
  write_in = omega arith;
}

-- one byte at the start of the buffer
abbrev low : Pipe
low = record {
  buffer = 10 ∷ 0 ∷ 0 ∷ 0 ∷ 0 ∷ 0 ∷ 0 ∷ 0 ∷ [];
  reader = 1;
  writer = 2;
  read_pos = 0;
  write_pos = 1;
  bytes_avail = 1;
}

low-IsPipe : IsPipe 8 low (10 ∷ [])
low-IsPipe = record {
  holds = straight [] (replicate 7 0) refl refl (inl refl);
  room = refl;
  avail = refl;
  read_in = omega arith;
  write_in = omega arith;
}

abbrev empty : Pipe
empty = record low { write_pos = 0; bytes_avail = 0 }

empty-IsPipe : IsPipe 8 empty []
empty-IsPipe = record {
  holds = straight [] (10 ∷ replicate 7 0) refl refl (inl refl);
  room = refl;
  avail = refl;
  read_in = omega arith;
  write_in = omega arith;
}

pipe_read-take_example :
    (left : Pipe) × (pipe_read 8 1 round (replicate 7 0) 7
      ≡ some (done (ok 5) (held ++ (0 ∷ 0 ∷ [])) left))
    × IsPipe 8 left []
    × (left.reader ≡ 1)
    × (left.writer ≡ 2)
pipe_read-take_example =
    pipe_read-take (replicate 7 0) 7 round-IsPipe refl 1 (omega arith) (omega arith)
      (inr (omega arith))

pipe_read-overrun_example :
    ((n : ℕ) × (left : Pipe) × (3 < n)
      × (pipe_read 8 1 round (replicate 3 0 ++ replicate 4 7) 3
          ≡ some (done (ok n) (take n held ++ drop n (replicate 3 0 ++ replicate 4 7)) left))
      × IsPipe 8 left (drop n held))
    × (pipe_read 8 1 round (replicate 3 0) 3 ≡ none)
pipe_read-overrun_example =
    pipe_read-overrun (replicate 3 0) (replicate 4 7) 1 round-IsPipe (omega arith) (omega arith)
      (omega arith) (omega arith)

pipe_write-append_example :
    (grown : Pipe) × (pipe_write 8 4 1 2 low (7 ∷ 8 ∷ 9 ∷ []) 3
      ≡ some (done (ok 3) (7 ∷ 8 ∷ 9 ∷ []) grown))
    × IsPipe 8 grown (10 ∷ 7 ∷ 8 ∷ 9 ∷ [])
    × (grown.reader ≡ 1)
    × (grown.writer ≡ 2)
pipe_write-append_example =
    pipe_write-append (7 ∷ 8 ∷ 9 ∷ []) low-IsPipe 4 1 2 (omega arith) (omega arith) (omega arith)
      (omega arith) (inl (omega arith))

pipe_write-overread_example :
    ((n : ℕ) × (grown : Pipe) × (3 < n)
      × (pipe_write 8 4 1 2 flat ((7 ∷ 8 ∷ 9 ∷ []) ++ (1 ∷ 2 ∷ 3 ∷ [])) 3
          ≡ some (done (ok n) ((7 ∷ 8 ∷ 9 ∷ []) ++ (1 ∷ 2 ∷ 3 ∷ [])) grown))
      × IsPipe 8 grown ((10 ∷ 20 ∷ []) ++ take n ((7 ∷ 8 ∷ 9 ∷ []) ++ (1 ∷ 2 ∷ 3 ∷ []))))
    × (pipe_write 8 4 1 2 flat (7 ∷ 8 ∷ 9 ∷ []) 3 ≡ none)
pipe_write-overread_example =
    pipe_write-overread (7 ∷ 8 ∷ 9 ∷ []) (1 ∷ 2 ∷ 3 ∷ []) 4 1 2 flat-IsPipe (omega arith)
      (omega arith) (omega arith) (omega arith) (omega arith) (omega arith)
