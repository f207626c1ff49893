-- ===== src/Pipe.antt =====
-- kernel/pipe.c: reading and writing a pipe. A position is an offset from `buffer`; `size` is
-- PIPE_BUFFER_SIZE (65536 in the source) and `atomic` is PIPE_BUF, so that `max_pos` is `size`.
-- The part between `mutex_lock` and `mutex_unlock` is one step. The times are left out.
mod Holds
mod Chunks
mod Read
mod Overrun
mod Write
mod Overread
mod Tests
use exscape_os.Prelude.{
  ℕ, zero, suc, ◌+◌, ◌-◌, min, true, false, ◌&&◌, ◌||◌, List, Option, none, some, ltb, leb, ◌==◌,
  if◌then◌else◌, ◌>>=◌, ◌>>◌, assert,
}
use exscape_os.Memory.{slice, splice}
use exscape_os.Errno.{Ret, ok, err, ebadf, epipe}

-- `struct pipe`; `reader` and `writer` are the addresses of open files, 0 for NULL
pub record Pipe : Type 0 where
  pub buffer : List ℕ
  pub reader : ℕ
  pub writer : ℕ
  pub read_pos : ℕ
  pub write_pos : ℕ
  pub bytes_avail : ℕ

-- A call returns, with the caller's buffer as it left it, or sleeps with so much done.
pub data Outcome : Type 0 where
  done : Ret → List ℕ → Pipe → Outcome
  blocked : ℕ → Pipe → Outcome

module _ (size : ℕ) where
  -- one `memcpy` out of the pipe, with its two assertions and the two updates behind it
  unfoldable pub read_chunk : Pipe → List ℕ → (at n : ℕ) → Option (List ℕ × Pipe)
  read_chunk p buf at n = do
    assert (leb n p.bytes_avail)
    assert (leb (p.read_pos + n) size)
    bytes ← slice p.read_pos n p.buffer
    buf' ← splice at bytes buf
    some (buf', record p { read_pos = p.read_pos + n; bytes_avail = p.bytes_avail - n })

  unfoldable pub wrap_read : Pipe → Option Pipe
  wrap_read p =
      if leb size p.read_pos
      then assert (p.read_pos == size) >> some (record p { read_pos = 0 })
      else some p

  -- what `pipe_read` does under the lock: bytes read, the caller's buffer, the pipe
  unfoldable pub read_locked : Pipe → List ℕ → ℕ → Option (ℕ × List ℕ × Pipe)
  read_locked p buf count = do
    assert (ltb 0 p.bytes_avail)
    let n = min (min count (size - p.read_pos)) p.bytes_avail
    (buf1, p1) ← read_chunk p buf 0 n
    p2 ← wrap_read p1
    if ltb n count && ltb 0 p2.bytes_avail
        then (do
          let m = min p2.bytes_avail count
          (buf2, p3) ← read_chunk p2 buf1 n m
          some (n + m, buf2, p3))
        else some (n, buf1, p2)

  -- `pipe_read` behind the look-up of `fd`, whose open file is at `file`
  unfoldable pub pipe_read : (file : ℕ) → Pipe → List ℕ → ℕ → Option Outcome
  pipe_read file p buf count =
      if (p.writer == 0) && (p.bytes_avail == 0)
      then some (done (ok 0) buf p)
      else if file == p.writer
      then some (done (err ebadf) buf p)
      else if p.bytes_avail == 0
      then some (blocked 0 p)
      else do (n, buf', p') ← read_locked p buf count; some (done (ok n) buf' p')

  -- one `memcpy` into the pipe, with its two assertions and the two updates behind it
  unfoldable pub write_chunk : Pipe → List ℕ → (at n : ℕ) → Option Pipe
  write_chunk p buf at n = do
    assert (leb n (size - p.bytes_avail))
    assert (leb (p.write_pos + n) size)
    bytes ← slice at n buf
    buffer' ← splice p.write_pos bytes p.buffer
    some (record p {
      buffer = buffer';
      write_pos = p.write_pos + n;
      bytes_avail = p.bytes_avail + n;
    })

  unfoldable pub wrap_write : Pipe → Option Pipe
  wrap_write p =
      if leb size p.write_pos
      then assert (p.write_pos == size) >> some (record p { write_pos = 0 })
      else some p

  -- what one round of `pipe_write` does under the lock: the new `bytes_written`, the pipe
  unfoldable pub write_locked : Pipe → List ℕ → (count written : ℕ) → Option (ℕ × Pipe)
  write_locked p buf count written = do
    let n = min (min count (size - p.write_pos)) (size - p.bytes_avail)
    p1 ← write_chunk p buf 0 n
    p2 ← wrap_write p1
    if ltb (written + n) count && ltb 0 (size - p2.bytes_avail)
        then (do
          let m = min (size - p2.bytes_avail) count
          p3 ← write_chunk p2 buf (written + n) m
          some (written + n + m, p3))
        else some (written + n, p2)

  -- The `while (count > bytes_written)` loop, on fuel. `readers` is `p->reader->count`; nothing
  -- else runs between the two tests for a reader, unless the call sleeps.
  unfoldable pub write_loop :
      (atomic readers : ℕ) (fuel : ℕ) → Pipe → List ℕ → (count written : ℕ) → Option Outcome
  write_loop atomic readers zero p buf count written = none
  write_loop atomic readers (suc fuel) p buf count written = elim (ltb written count) [
    | false ↦ some (done (ok written) buf p)
    | true ↦
        if (p.reader == 0) || (readers == 0)
        then some (done (err epipe) buf p)
        else if ltb (size - p.bytes_avail) (min atomic count)
        then some (blocked written p)
        else elim (write_locked p buf count written) [
          | none ↦ none
          | some (written', p') ↦ write_loop atomic readers fuel p' buf count written'
        ]
  ]

  -- `pipe_write` behind the look-up of `fd`; every round that does not sleep writes a byte
  unfoldable pub pipe_write : (atomic readers file : ℕ) → Pipe → List ℕ → ℕ → Option Outcome
  pipe_write atomic readers file p buf count =
      if file == p.reader
      then some (done (err ebadf) buf p)
      else write_loop atomic readers (count + 1) p buf count 0
