-- ===== src/Pipe/Write.antt =====
-- `pipe_write` (kernel/pipe.c) against the queue of the bytes that the pipe holds.
use exscape_os.Prelude.{
  take, take-append, ℕ, suc, ◌+◌, ◌-◌, ◌≤◌, ◌<◌, ◌≡◌, ◌≢◌, min, refl, ap, subst, ◌⊎◌, inl, inr,
  List, [], ◌++◌, some, arith, length, length-append, append_assoc, append-nil, Bool-cases, leb,
  leb→le, true, false, ltb, ◌&&◌,
}
use exscape_os.Memory.{slice, slice-append, cut}
use exscape_os.Errno.{ok}
use exscape_os.Pipe.{Pipe, write_chunk, wrap_write, write_locked, write_loop, pipe_write, done}
use exscape_os.Pipe.Holds.{Holds, IsPipe}
use exscape_os.Pipe.Chunks.{after_write, length-le-size, write_chunk_lem, wrap_write_lem}

-- What a round of a write does: it puts `bytes` behind what is held.
pub record Put (size : ℕ) (p : Pipe) (q bytes buf : List ℕ) (count written : ℕ) : Type 0 where
  pub grown : Pipe
  pub runs : write_locked size p buf count written ≡ some (written + length bytes, grown)
  pub keeps : IsPipe size grown (q ++ bytes)
  pub ends : (grown.reader ≡ p.reader) × (grown.writer ≡ p.writer)

pub slice_front : (a b : List ℕ) → slice 0 (length a) (a ++ b) ≡ some a
slice_front a b = slice-append [] a b 0 (length a) refl refl

slice_back : (a b : List ℕ) → slice (length a) (length b) (a ++ b) ≡ some b
slice_back a b =
    rw (← append-nil (a ++ b), append_assoc a b [])
      (slice-append a b [] (length a) (length b) refl refl)

pub not_lt : {a b : ℕ} → b ≤ a → ltb a b ≡ false
not_lt h = ground arith

no_more :
    (n count written avail size : ℕ)
    → (n ≡ count) ⊎ (n ≡ size - avail)
    → (ltb (written + n) count && ltb 0 (size - (avail + n))) ≡ false
no_more n count written avail size h = ground arith

module _ {size : ℕ} {p : Pipe} {q : List ℕ} (v : IsPipe size p q) where
  -- A round whose bytes fit before the end of the buffer: it takes them from the front of the
  -- caller's data, whatever was written before.
  one_part :
      (a b : List ℕ) (count written : ℕ)
      → length a ≤ size - p.write_pos
      → length a ≡ min count (size - length q)
      → Put size p q a (a ++ b) count written
  unfolding write_locked
  one_part a b count written inside ek =
      let small = length-le-size q v.holds v.room in
      let (buffer', chunk, room, h1) =
        write_chunk_lem q a (a ++ b) 0 v.holds v.room v.avail (omega (arith, v.write_in))
          (omega arith) (slice_front a b) in
      let (w, wrap, h2, w_in, _) =
        wrap_write_lem (q ++ a) h1 room (omega (arith, v.write_in)) v.read_in in
      let e : min (min count (size - p.write_pos)) (size - p.bytes_avail) ≡ length a =
        omega (arith, v.avail) in
      let stop = no_more (length a) count written p.bytes_avail size (omega (arith, v.avail)) in
      record {
        grown = record (after_write p buffer' (length a)) { write_pos = w };
        runs = rw (e, chunk, wrap, stop);
        keeps = record {
          holds = h2;
          room = room;
          avail = omega (arith, v.avail, length-append q a);
          read_in = v.read_in;
          write_in = w_in;
        };
        ends = (refl, refl);
      }

  -- The second copy of a first round, which begins at the start of the buffer and takes `c`.
  past_second :
      (a c rest buffer' : List ℕ) (count w : ℕ)
      → write_chunk size p (a ++ (c ++ rest)) 0 (length a) ≡ some (after_write p buffer' (length a))
      → length buffer' ≡ size
      → wrap_write size (after_write p buffer' (length a))
        ≡ some (record (after_write p buffer' (length a)) { write_pos = w })
      → Holds size (record (after_write p buffer' (length a)) { write_pos = w }) (q ++ a)
      → w ≡ 0
      → 0 < length a
      → length a ≡ size - p.write_pos
      → length a < count
      → 0 < length c
      → length c ≡ min (size - (length q + length a)) count
      → Put size p q (a ++ c) (a ++ (c ++ rest)) count 0
  unfolding write_locked
  past_second a c rest buffer' count w chunk room wrap h2 w0 some_bytes inside wanted more take_c =
      let p2 = record (after_write p buffer' (length a)) { write_pos = w } in
      let (buffer2, chunk2, room2, h3) =
        write_chunk_lem {p = p2} (q ++ a) c (a ++ (c ++ rest)) (length a) h2 room
          (omega (arith, v.avail, length-append q a)) (omega (arith, v.write_in, v.avail))
          (omega (arith, length-append q a))
          (slice-append a c rest (length a) (length c) refl refl) in
      let e : min (min count (size - p.write_pos)) (size - p.bytes_avail) ≡ length a =
        omega (arith, v.avail) in
      let again : (ltb (length a) count && ltb 0 (size - (p.bytes_avail + length a))) ≡ true =
        ground (arith, v.avail) in
      let e2 : min (size - (p.bytes_avail + length a)) count ≡ length c = omega (arith, v.avail) in
      let from_zero : 0 + length a ≡ length a = omega arith in
      let total : 0 + length (a ++ c) ≡ length a + length c = omega (arith, length-append a c) in
      record {
        grown = after_write p2 buffer2 (length c);
        runs = rw (e, chunk, wrap, from_zero, again, e2, chunk2, total);
        keeps = record {
          holds = rw (← append_assoc q a c) h3;
          room = room2;
          avail = omega (arith, v.avail, length-append q (a ++ c), length-append a c);
          read_in = v.read_in;
          write_in = omega (arith, v.write_in);
        };
        ends = (refl, refl);
      }

  -- A first round that goes round the end of the buffer: it takes the first bytes of the object, be
  -- they in the caller's data or behind it.
  pub past_parts :
      (a c rest : List ℕ) (count : ℕ)
      → length a ≡ size - p.write_pos
      → length a < count
      → 0 < length c
      → length c ≡ min (size - (length q + length a)) count
      → Put size p q (a ++ c) (a ++ (c ++ rest)) count 0
  past_parts a c rest count inside wanted some_bytes take_c =
      let small = length-le-size q v.holds v.room in
      let (buffer', chunk, room, h1) =
        write_chunk_lem q a (a ++ (c ++ rest)) 0 v.holds v.room v.avail (omega (arith, v.write_in))
          (omega arith) (slice_front a (c ++ rest)) in
      let (w, wrap, h2, w_in, w_is) =
        wrap_write_lem (q ++ a) h1 room (omega (arith, v.write_in)) v.read_in in
      past_second a c rest buffer' count w chunk room wrap h2 (omega (arith, v.write_in))
        (omega (arith, v.write_in)) inside wanted some_bytes take_c

  -- A first round that goes round the end of the buffer and fills it.
  two_parts :
      (a b : List ℕ)
      → length a ≡ size - p.write_pos
      → 0 < length b
      → length a + length b ≡ size - length q
      → Put size p q (a ++ b) (a ++ b) (length a + length b) 0
  two_parts a b inside more fill =
      subst (λ l. Put size p q (a ++ b) (a ++ l) (length a + length b) 0) (append-nil b)
        (past_parts a b [] (length a + length b) inside (omega arith) more (omega arith))

module _ {size : ℕ} {p : Pipe} {q : List ℕ} (buf : List ℕ) (v : IsPipe size p q) where
  whole_write :
      0 < length buf
      → (length buf ≤ min (size - p.write_pos) (size - length q)) ⊎ (length buf ≡ size - length q)
      → Put size p q buf buf (length buf) 0
  whole_write some_bytes fits = elim (Bool-cases (leb (length buf) (size - p.write_pos))) [
    | inl inside ↦
        let t : Put size p q buf (buf ++ []) (length buf) 0 =
          one_part v buf [] (length buf) 0 (leb→le _ _ inside) (omega arith) in
        rw append-nil at t
    | inr beyond ↦
        let (a, b, e, la) = cut (size - p.write_pos) buf (ground arith) in
        around a b e la (ground arith) (ground arith)
  ]
    where
      around :
          (a b : List ℕ)
          → buf ≡ a ++ b
          → length a ≡ size - p.write_pos
          → size - p.write_pos < length buf
          → length buf ≡ size - length q
          → Put size p q buf buf (length buf) 0
      around a b e la more fill =
          let t : Put size p q (a ++ b) (a ++ b) (length a + length b) 0 =
            two_parts v a b la (omega (arith, ap length e, length-append a b))
              (omega (arith, ap length e, length-append a b)) in
          rw (e, length-append a b) t

  module _ (atomic readers file : ℕ) (other : file ≢ p.reader) (open_end : p.reader ≢ 0)
      (read_by : readers ≢ 0) where
    -- A write returns the number of bytes that it was given and puts them, in order, behind those
    -- that the pipe holds. It does so if they fit before the end of the buffer and into the free
    -- space, or fill the free space. The pipe has a reader, and the call is not on the read end.
    pub pipe_write-append :
        0 < length buf
        → (length buf ≤ min (size - p.write_pos) (size - length q)) ⊎ (length buf ≡ size - length q)
        → (grown : Pipe) × (pipe_write size atomic readers file p buf (length buf)
            ≡ some (done (ok (length buf)) buf grown))
          × IsPipe size grown (q ++ buf)
          × (grown.reader ≡ p.reader)
          × (grown.writer ≡ p.writer)
    unfolding pipe_write write_loop
    pipe_write-append some_bytes fits =
        let t = whole_write some_bytes fits in
        let rounds : length buf + 1 ≡ suc (suc (length buf - 1)) = omega arith in
        let free : ltb (size - p.bytes_avail) (min atomic (length buf)) ≡ false =
          not_lt (omega (arith, v.avail)) in
        (t.grown, rw rounds (ground (arith, t.runs, free)), t.keeps, t.ends.0, t.ends.1)

-- A later round of a write takes its bytes from the front of the caller's data again, and not from
-- where the last round stopped: with `written` bytes done, and free space that ends before the end
-- of the buffer and is less than the data, it puts the first bytes of the data behind those held.
pub write_locked-front :
    {size : ℕ} {p : Pipe} {q : List ℕ} (buf : List ℕ) (written : ℕ)
    → IsPipe size p q
    → size - length q ≤ size - p.write_pos
    → size - length q ≤ length buf
    → let n = size - length q in
      (grown : Pipe) × (write_locked size p buf (length buf) written ≡ some (written + n, grown))
      × IsPipe size grown (q ++ take n buf)
write_locked-front {size} {p} {q} buf written v inside small =
    front_at (cut (size - length q) buf small)
  where
    n : ℕ
    n = size - length q

    front_at :
        (a : List ℕ) × (b : List ℕ) × (buf ≡ a ++ b) × (length a ≡ n)
        → (grown : Pipe) × (write_locked size p buf (length buf) written
            ≡ some (written + n, grown))
          × IsPipe size grown (q ++ take n buf)
    front_at (a, b, e, la) =
        let t : Put size p q a (a ++ b) (length buf) written =
          one_part v a b (length buf) written (omega arith) (omega arith) in
        let front : take n buf ≡ a = rw (← la, e) (take-append a b) in
        let runs : write_locked size p buf (length buf) written ≡ some (written + n, t.grown) =
          ground (arith, t.runs, e, la) in
        (t.grown, runs, rw front t.keeps)
