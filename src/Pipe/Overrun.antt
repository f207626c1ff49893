-- ===== src/Pipe/Overrun.antt =====
-- `pipe_read` (kernel/pipe.c) where it goes past the end of the caller's buffer.
use exscape_os.Prelude.{
  ℕ, ◌+◌, ◌-◌, ◌≤◌, ◌<◌, ◌≡◌, min, refl, sym, ap, subst, ◌∙◌, ◌≢◌, List, ◌++◌, some, none, arith,
  length, length-append, take, drop, true, false, ltb, lt→ltb, ◌==◌, ◌&&◌,
}
use exscape_os.Memory.{cut}
use exscape_os.Errno.{ok}
use exscape_os.Pipe.{Pipe, read_locked, pipe_read, done}
use exscape_os.Pipe.Holds.{IsPipe}
use exscape_os.Pipe.Chunks.{after_read, read_chunk_lem, wrap_read_lem, read_chunk-fault}
use exscape_os.Pipe.Read.{Took, splice_front, past_parts}

module _ {size : ℕ} {p : Pipe} where
  -- the bytes go round the end of the buffer, and more are held than the caller wants
  overrun_parts :
      (a b x y : List ℕ) (count : ℕ)
      → IsPipe size p (a ++ b)
      → length x ≡ length a
      → length a ≡ size - p.read_pos
      → length x + length y ≡ count
      → length a < count
      → count < length a + length b
      → read_locked size p (x ++ y) count ≡ none
  unfolding read_locked
  overrun_parts a b x y count v lx inside room around more =
      let (chunk, h1) =
        read_chunk_lem a b (x ++ y) 0 v.holds v.room v.avail (omega (arith, v.read_in))
          (splice_front a x y lx) in
      let (r, wrap, _, _, _) = wrap_read_lem b h1 v.room (omega (arith, v.read_in)) v.write_in in
      let left_over : p.bytes_avail - length a ≡ length b =
        omega (arith, v.avail, length-append a b) in
      let e : min (min count (size - p.read_pos)) p.bytes_avail ≡ length a =
        omega (arith, v.avail, length-append a b) in
      let full : ltb 0 p.bytes_avail ≡ true =
        lt→ltb 0 p.bytes_avail (omega (arith, v.avail, length-append a b)) in
      let again : (ltb (length a) count && ltb 0 (p.bytes_avail - length a)) ≡ true =
        ground (arith, left_over) in
      let bad =
        read_chunk-fault size (record (after_read p (length a)) { read_pos = r }) (a ++ y)
          (length a) (min (p.bytes_avail - length a) count) (omega (arith, length-append a y)) in
      rw (e, full, chunk, wrap, again, bad)

module _ {size : ℕ} {p : Pipe} {q : List ℕ} (buf : List ℕ) (count : ℕ) (v : IsPipe size p q)
    (room : length buf ≡ count) where
  -- The second copy of a read is not held to what the caller still wants.
  pub read_locked-overrun :
      size - p.read_pos < count → count < length q → read_locked size p buf count ≡ none
  read_locked-overrun around more =
      let (a, b, eq, la) = cut (size - p.read_pos) q (omega arith) in
      let (x, y, eb, lx) = cut (length a) buf (omega arith) in
      rw eb (
        overrun_parts a b x y count (rw eq at v) lx la
          (omega (arith, ap length eb, length-append x y)) (omega arith)
          (omega (arith, ap length eq, length-append a b)))

-- A read of more bytes than lie before the end of the buffer, and of fewer than are held, goes past
-- the end of the caller's buffer. In an object in which that buffer is followed by enough bytes, the
-- call returns more than `count`, and so many of the oldest bytes stand at the start of the object,
-- the last of them behind the `count` bytes of the buffer. Where the object ends with the buffer it
-- faults.
pub pipe_read-overrun :
    {size : ℕ} {p : Pipe} {q : List ℕ} (buf behind : List ℕ) (file : ℕ)
    → IsPipe size p q
    → file ≢ p.writer
    → size - p.read_pos < length buf
    → length buf < length q
    → length q ≤ length (buf ++ behind)
    → ((n : ℕ) × (left : Pipe) × (length buf < n)
        × (pipe_read size file p (buf ++ behind) (length buf)
            ≡ some (done (ok n) (take n q ++ drop n (buf ++ behind)) left))
        × IsPipe size left (drop n q))
      × (pipe_read size file p buf (length buf) ≡ none)
unfolding pipe_read
pipe_read-overrun {size} {p} {q} buf behind file v ne around more room =
    let count = length buf in
    let object = buf ++ behind in
    let (a, d, eq, la) = cut (size - p.read_pos) q (omega arith) in
    let lq : length q ≡ length a + length d = ap length eq ∙ length-append a d in
    let (b, c, ed, lb) = cut (min (length d) count) d (omega arith) in
    let ld : length d ≡ length b + length c = ap length ed ∙ length-append b c in
    let (x, w, eo, lx) = cut (length a) object (omega arith) in
    let lo : length object ≡ length x + length w = ap length eo ∙ length-append x w in
    let (y, z, ew, ly) = cut (length b) w (omega arith) in
    let whole : q ≡ a ++ (b ++ c) = eq ∙ ap (λ l. a ++ l) ed in
    let place : object ≡ x ++ (y ++ z) = eo ∙ ap (λ l. x ++ l) ew in
    let t0 : Took size p (a ++ (b ++ c)) (x ++ (y ++ z)) count (length a + length b) =
      past_parts a b c x y z count (subst (IsPipe size p) whole v) lx ly la
        (omega (arith, v.read_in)) (omega arith) (omega arith) in
    let t : Took size p q object count (length a + length b) =
      subst (λ l. Took size p q l count (length a + length b)) (sym place)
        (subst (λ l. Took size p l (x ++ (y ++ z)) count (length a + length b)) (sym whole) t0) in
    let full : (p.bytes_avail == 0) ≡ false = ground (arith, v.avail) in
    let other : (file == p.writer) ≡ false = ground arith in
    let fault = read_locked-overrun buf count v refl around more in
    (
      (
        length a + length b,
        t.left,
        omega (arith, v.read_in),
        ground (arith, full, other, t.runs),
        t.keeps,
      ),
      ground (arith, v.avail, fault),
    )
