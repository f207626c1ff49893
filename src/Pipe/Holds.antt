-- ===== src/Pipe/Holds.antt =====
-- The bytes that a pipe holds, oldest first: the abstract view of `struct pipe` (kernel/pipe.c).
use exscape_os.Prelude.{ℕ, ◌+◌, ◌<◌, ◌≡◌, ◌⊎◌, List, ◌++◌, length}
use exscape_os.Pipe.{Pipe}

-- Either the bytes lie in one piece, or they go round the end of the buffer. A position may stand
-- at the end of the buffer until the code wraps it.
pub data Holds (size : ℕ) (p : Pipe) (q : List ℕ) : Type 0 where
  straight :
      (before after : List ℕ)
      → p.buffer ≡ before ++ (q ++ after)
      → p.read_pos ≡ length before
      → (p.write_pos ≡ length before + length q)
        ⊎ ((p.write_pos ≡ 0) × (length before + length q ≡ size))
      → Holds size p q
  wrapped :
      (first gap last : List ℕ)
      → p.buffer ≡ last ++ (gap ++ first)
      → q ≡ first ++ last
      → p.read_pos ≡ length last + length gap
      → p.write_pos ≡ length last
      → Holds size p q

-- The pipe is in order and holds `q`, and both positions are inside of the buffer.
pub record IsPipe (size : ℕ) (p : Pipe) (q : List ℕ) : Type 0 where
  pub holds : Holds size p q
  pub room : length p.buffer ≡ size
  pub avail : p.bytes_avail ≡ length q
  pub read_in : p.read_pos < size
  pub write_in : p.write_pos < size
