-- ===== src/Pipe/Read.antt =====
-- `pipe_read` (kernel/pipe.c) against the queue of the bytes that the pipe holds.
use exscape_os.Prelude.{
  ℕ, ◌+◌, ◌-◌, ◌≤◌, ◌<◌, ◌≡◌, min, refl, sym, ap, subst, ◌∙◌, ◌⊎◌, ◌≢◌, ◌↔◌, inl, inr, List, [],
  ◌++◌, some, arith, length, length-append, append_assoc, take, drop, take-append, take_all,
  drop-append, Bool-cases, true, false, leb, leb→le, ltb, lt→ltb, append-nil, ◌==◌, ◌&&◌,
}
use exscape_os.Memory.{splice, splice-append, cut}
use exscape_os.Errno.{ok}
use exscape_os.Pipe.{Pipe, read_locked, pipe_read, done}
use exscape_os.Pipe.Holds.{IsPipe}
use exscape_os.Pipe.Chunks.{after_read, length-le-size, read_chunk_lem, wrap_read_lem}

-- What a read of `k` bytes does: it moves the `k` oldest bytes to the front of the caller's buffer.
pub record Took (size : ℕ) (p : Pipe) (q buf : List ℕ) (count k : ℕ) : Type 0 where
  pub left : Pipe
  pub runs : read_locked size p buf count ≡ some (k, take k q ++ drop k buf, left)
  pub keeps : IsPipe size left (drop k q)
  pub ends : (left.reader ≡ p.reader) × (left.writer ≡ p.writer)

pub splice_front : (a x y : List ℕ) → length x ≡ length a → splice 0 a (x ++ y) ≡ some (a ++ y)
splice_front a x y e = splice-append [] x y a 0 refl (sym e)

drop_same : (a x y : List ℕ) → length x ≡ length a → drop (length a) (x ++ y) ≡ y
drop_same a x y e = rw (← e) (drop-append x y)

take_both : (a b : List ℕ) → take (length a + length b) (a ++ b) ≡ a ++ b
take_both a b = take_all (length a + length b) (a ++ b) (omega (arith, length-append a b))

drop_both :
    (a b x y z : List ℕ)
    → length x ≡ length a
    → length y ≡ length b
    → drop (length a + length b) (x ++ (y ++ z)) ≡ z
drop_both a b x y z lx ly =
    let e : length a + length b ≡ length (x ++ y) = omega (arith, length-append x y) in
    rw (e, ← append_assoc x y z) (drop-append (x ++ y) z)

drop_all : (a b : List ℕ) → drop (length a + length b) (a ++ b) ≡ []
drop_all a b =
    rw (← length-append a b)
      (ap (drop (length (a ++ b))) (sym (append-nil (a ++ b))) ∙ drop-append (a ++ b) [])

no_more :
    (n count avail : ℕ) → (n ≡ count) ⊎ (n ≡ avail) → (ltb n count && ltb 0 (avail - n)) ≡ false
no_more n count avail h = ground arith

module _ {size : ℕ} {p : Pipe} where
  -- no byte lies round the end of the buffer, or the caller wants none of those
  one_part :
      (a b x y : List ℕ) (count : ℕ)
      → IsPipe size p (a ++ b)
      → 0 < length (a ++ b)
      → length x ≡ length a
      → length a ≤ size - p.read_pos
      → length a ≡ min count (length (a ++ b))
      → Took size p (a ++ b) (x ++ y) count (length a)
  unfolding read_locked
  one_part a b x y count v some_bytes lx inside ek =
      let (chunk, h1) =
        read_chunk_lem a b (x ++ y) 0 v.holds v.room v.avail (omega (arith, v.read_in))
          (splice_front a x y lx) in
      let (r, wrap, h2, r_in, _) =
        wrap_read_lem b h1 v.room (omega (arith, v.read_in)) v.write_in in
      let e : min (min count (size - p.read_pos)) p.bytes_avail ≡ length a =
        omega (arith, v.avail) in
      let stop = no_more (length a) count p.bytes_avail (omega (arith, v.avail)) in
      let full : ltb 0 p.bytes_avail ≡ true = lt→ltb 0 p.bytes_avail (omega (arith, v.avail)) in
      record {
        left = record (after_read p (length a)) { read_pos = r };
        runs = rw (e, full, chunk, wrap, stop, take-append a b, drop_same a x y lx);
        keeps = rw drop-append (record {
          holds = h2;
          room = v.room;
          avail = omega (arith, v.avail, length-append a b);
          read_in = r_in;
          write_in = v.write_in;
        });
        ends = (refl, refl);
      }

  -- the bytes go round the end of the buffer, and the second copy takes those of `b`
  pub past_parts :
      (a b c x y z : List ℕ) (count : ℕ)
      → IsPipe size p (a ++ (b ++ c))
      → length x ≡ length a
      → length y ≡ length b
      → length a ≡ size - p.read_pos
      → 0 < length b
      → length a < count
      → length b ≡ min (length b + length c) count
      → Took size p (a ++ (b ++ c)) (x ++ (y ++ z)) count (length a + length b)
  unfolding read_locked
  past_parts a b c x y z count v lx ly inside more wanted take_b =
      let n1 = length-append a (b ++ c) in
      let n2 = length-append b c in
      let (chunk, h1) =
        read_chunk_lem a (b ++ c) (x ++ (y ++ z)) 0 v.holds v.room v.avail
          (omega (arith, v.read_in)) (splice_front a x (y ++ z) lx) in
      let (r, wrap, h2, r_in, r_is) =
        wrap_read_lem (b ++ c) h1 v.room (omega (arith, v.read_in)) v.write_in in
      let left_over : p.bytes_avail - length a ≡ length (b ++ c) = omega (arith, v.avail) in
      let small : length (a ++ (b ++ c)) ≤ size = length-le-size (a ++ (b ++ c)) v.holds v.room in
      let (chunk2, h3) =
        read_chunk_lem {p = record (after_read p (length a)) { read_pos = r }} b c (a ++ (y ++ z))
          (length a) h2 v.room left_over (omega (arith, v.read_in, small))
          (splice-append a y z b (length a) refl (sym ly)) in
      let e : min (min count (size - p.read_pos)) p.bytes_avail ≡ length a =
        omega (arith, v.avail) in
      let full : ltb 0 p.bytes_avail ≡ true = lt→ltb 0 p.bytes_avail (omega (arith, v.avail)) in
      let again : (ltb (length a) count && ltb 0 (p.bytes_avail - length a)) ≡ true =
        ground (arith, left_over) in
      let e2 : min (p.bytes_avail - length a) count ≡ length b = omega arith in
      let both : length a + length b ≡ length (a ++ b) = omega (arith, length-append a b) in
      let front : take (length a + length b) (a ++ (b ++ c)) ≡ a ++ b =
        rw (both, ← append_assoc a b c) (take-append (a ++ b) c) in
      let rest : drop (length a + length b) (a ++ (b ++ c)) ≡ c =
        rw (both, ← append_assoc a b c) (drop-append (a ++ b) c) in
      record {
        left = after_read (record (after_read p (length a)) { read_pos = r }) (length b);
        runs =
            rw (e, full, chunk, wrap, again, e2, chunk2, front, drop_both a b x y z lx ly)
              (simp append_assoc);
        keeps = rw rest (record {
          holds = h3;
          room = v.room;
          avail = omega (arith, v.avail);
          read_in = omega (arith, v.read_in, small);
          write_in = v.write_in;
        });
        ends = (refl, refl);
      }

  -- the bytes go round the end of the buffer, and the caller wants all of them
  two_parts :
      (a b x y z : List ℕ) (count : ℕ)
      → IsPipe size p (a ++ b)
      → length x ≡ length a
      → length y ≡ length b
      → length a ≡ size - p.read_pos
      → 0 < length b
      → length a + length b ≤ count
      → Took size p (a ++ b) (x ++ (y ++ z)) count (length a + length b)
  two_parts a b x y z count v lx ly inside more all =
      let same : a ++ (b ++ []) ≡ a ++ b = ap (λ l. a ++ l) (append-nil b) in
      subst (λ l. Took size p l (x ++ (y ++ z)) count (length a + length b)) same
        (past_parts a b [] x y z count (subst (IsPipe size p) (sym same) v) lx ly inside more
          (omega arith) (omega arith))

module _ {size : ℕ} {p : Pipe} {q : List ℕ} (buf : List ℕ) (count : ℕ) (v : IsPipe size p q)
    (room : length buf ≡ count) where
  inside_at :
      (a b x y : List ℕ) (k : ℕ)
      → q ≡ a ++ b
      → buf ≡ x ++ y
      → length a ≡ k
      → length x ≡ k
      → 0 < length q
      → k ≡ min count (length q)
      → k ≤ size - p.read_pos
      → Took size p q buf count k
  inside_at a b x y k eq eb la lx some_bytes ek inside =
      let t : Took size p (a ++ b) (x ++ y) count (length a) =
        one_part a b x y count (rw eq at v) (omega (arith, ap length eq)) (lx ∙ sym la)
          (omega arith) (omega (arith, ap length eq)) in
      rw (eq, eb, ← la) t

  around_at :
      (a b x y z : List ℕ)
      → q ≡ a ++ b
      → buf ≡ x ++ (y ++ z)
      → length a ≡ size - p.read_pos
      → length x ≡ length a
      → length y ≡ length b
      → length q ≤ count
      → size - p.read_pos < length q
      → Took size p q buf count (length q)
  around_at a b x y z eq eb la lx ly all beyond =
      let t : Took size p (a ++ b) (x ++ (y ++ z)) count (length a + length b) =
        two_parts a b x y z count (rw eq at v) lx ly la
          (omega (arith, ap length eq, length-append a b))
          (omega (arith, ap length eq, length-append a b)) in
      rw (eq, eb, length-append a b) t

  read_inside :
      0 < length q
      → min count (length q) ≤ size - p.read_pos
      → Took size p q buf count (min count (length q))
  read_inside some_bytes inside =
      let k = min count (length q) in
      let (a, b, eq, la) = cut k q (omega arith) in
      let (x, y, eb, lx) = cut k buf (omega arith) in
      inside_at a b x y k eq eb la lx some_bytes refl inside

  read_around : length q ≤ count → size - p.read_pos < length q → Took size p q buf count (length q)
  read_around all beyond =
      let (a, b, eq, la) = cut (size - p.read_pos) q (omega arith) in
      let (x, x', eb, lx) = cut (length a) buf (omega arith) in
      let (y, z, ex, ly) =
        cut (length b) x'
          (omega (arith, ap length eq, ap length eb, length-append a b, length-append x x')) in
      around_at a b x y z eq (eb ∙ ap (λ t. x ++ t) ex) la lx ly all beyond

  -- A read takes the oldest bytes, as many as are there and are asked for, and leaves the rest.
  pub read_locked_lem :
      0 < length q
      → (count ≤ size - p.read_pos) ⊎ (length q ≤ count)
      → Took size p q buf count (min count (length q))
  read_locked_lem some_bytes fits =
      elim (Bool-cases (leb (min count (length q)) (size - p.read_pos))) [
        | inl inside ↦ read_inside some_bytes (leb→le _ _ inside)
        | inr beyond ↦
            let all : length q ≤ count = ground arith in
            let e : min count (length q) ≡ length q = omega arith in
            rw e (read_around all (ground arith))
      ]

  -- A read that returns gives the oldest bytes, in order, as many as are held and asked for, and
  -- leaves the pipe in order with the others. It does so if the caller asks for no byte that lies
  -- round the end of the buffer, or for all that are held. `pipe_read` is called with bytes to
  -- read and not on the write end.
  pub pipe_read-take :
      (file : ℕ)
      → file ≢ p.writer
      → 0 < length q
      → (count ≤ size - p.read_pos) ⊎ (length q ≤ count)
      → let k = min count (length q) in
        (left : Pipe) × (pipe_read size file p buf count
          ≡ some (done (ok k) (take k q ++ drop k buf) left))
        × IsPipe size left (drop k q)
        × (left.reader ≡ p.reader)
        × (left.writer ≡ p.writer)
  unfolding pipe_read
  pipe_read-take file ne some_bytes fits =
      let t = read_locked_lem some_bytes fits in
      let full : (p.bytes_avail == 0) ≡ false = ground (arith, v.avail) in
      let other : (file == p.writer) ≡ false = ground arith in
      (t.left, ground (arith, full, other, t.runs), t.keeps, t.ends.0, t.ends.1)

-- With nothing to read, the end of the file is told from an empty pipe by the write end alone.
pub pipe_read-empty :
    {size : ℕ} {p : Pipe} (buf : List ℕ) (count file : ℕ)
    → IsPipe size p []
    → (pipe_read size file p buf count ≡ some (done (ok 0) buf p)) ↔ (p.writer ≡ 0)
unfolding pipe_read
pipe_read-empty {p = p} buf count file v =
    (λ h. ground (arith, v.avail), λ h. ground (arith, v.avail))
