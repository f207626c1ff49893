-- ===== src/Pipe/Overread.antt =====
-- `pipe_write` (kernel/pipe.c) where it goes past the end of the caller's data.
use exscape_os.Prelude.{
  take, take-append, ℕ, suc, ◌+◌, ◌-◌, ◌≤◌, ◌<◌, ◌≡◌, ◌≢◌, min, ap, sym, subst, ◌∙◌, List, ◌++◌,
  some, none, arith, length, length-append, append_assoc, true, false, ltb, ◌&&◌,
}
use exscape_os.Memory.{cut}
use exscape_os.Errno.{ok}
use exscape_os.Pipe.{Pipe, write_locked, write_loop, pipe_write, done}
use exscape_os.Pipe.Holds.{IsPipe}
use exscape_os.Pipe.Chunks.{after_write, write_chunk_lem, wrap_write_lem, write_chunk-fault}
use exscape_os.Pipe.Write.{Put, slice_front, not_lt, past_parts}

module _ {size : ℕ} {p : Pipe} {q : List ℕ} (v : IsPipe size p q) where
  -- The second copy of a round is not held to what is left of the caller's data.
  overread_parts :
      (a b : List ℕ)
      → length a ≡ size - p.write_pos
      → 0 < length b
      → length a + length b < size - length q
      → write_locked size p (a ++ b) (length a + length b) 0 ≡ none
  unfolding write_locked
  overread_parts a b inside more room_left =
      let (buffer', chunk, room, h1) =
        write_chunk_lem q a (a ++ b) 0 v.holds v.room v.avail (omega (arith, v.write_in))
          (omega arith) (slice_front a b) in
      let (w, wrap, _, _, _) =
        wrap_write_lem (q ++ a) h1 room (omega (arith, v.write_in)) v.read_in in
      let e : min (min (length a + length b) (size - p.write_pos)) (size - p.bytes_avail)
          ≡ length a =
        omega (arith, v.avail) in
      let again : (ltb (length a) (length a + length b)
            && ltb 0 (size - (p.bytes_avail + length a)))
          ≡ true =
        ground (arith, v.avail) in
      let from_zero : 0 + length a ≡ length a = omega arith in
      let bad =
        write_chunk-fault size (record (after_write p buffer' (length a)) { write_pos = w })
          (a ++ b) (length a) (min (size - (p.bytes_avail + length a)) (length a + length b))
          (omega (arith, length-append a b, v.avail)) in
      rw (e, chunk, wrap, from_zero, again, bad)

module _ {size : ℕ} {p : Pipe} {q : List ℕ} (buf : List ℕ) (v : IsPipe size p q) where
  overread :
      size - p.write_pos < length buf
      → length buf < size - length q
      → write_locked size p buf (length buf) 0 ≡ none
  overread around more = cut_at (cut (size - p.write_pos) buf (omega arith))
    where
      cut_at :
          (a : List ℕ) × (b : List ℕ) × (buf ≡ a ++ b) × (length a ≡ size - p.write_pos)
          → write_locked size p buf (length buf) 0 ≡ none
      cut_at (a, b, e, la) =
          let n = length-append a b in
          rw (e, n)
            (overread_parts v a b la (omega (arith, ap length e)) (omega (arith, ap length e)))

-- A first round that takes more bytes than there are in the caller's data is the last.
past_write :
    (size : ℕ) (p : Pipe) (object : List ℕ) (count n atomic readers file : ℕ) (grown : Pipe)
    → write_locked size p object count 0 ≡ some (0 + n, grown)
    → count < n
    → 0 < count
    → count < size - p.bytes_avail
    → file ≢ p.reader
    → p.reader ≢ 0
    → readers ≢ 0
    → pipe_write size atomic readers file p object count ≡ some (done (ok n) object grown)
unfolding pipe_write write_loop
past_write size p object count n atomic readers file grown runs past some_bytes free_bytes other
      open_end read_by =
    let rounds : count + 1 ≡ suc (suc (count - 1)) = omega arith in
    let free : ltb (size - p.bytes_avail) (min atomic count) ≡ false = not_lt (omega arith) in
    let zero_n : 0 + n ≡ n = omega arith in rw rounds (ground (arith, runs, free, zero_n))

-- A write of more bytes than lie before the end of the buffer, and of fewer than are free, goes past
-- the end of the caller's data. In an object in which that data is followed by as many bytes again,
-- the call returns more than `count`, and puts so many bytes of the object, the last of them from
-- behind the data, behind those that the pipe holds. Where the object ends with the data it faults.
pub pipe_write-overread :
    {size : ℕ} {p : Pipe} {q : List ℕ} (buf behind : List ℕ) (atomic readers file : ℕ)
    → IsPipe size p q
    → file ≢ p.reader
    → p.reader ≢ 0
    → readers ≢ 0
    → size - p.write_pos < length buf
    → length buf < size - length q
    → length buf ≤ length behind
    → ((n : ℕ) × (grown : Pipe) × (length buf < n)
        × (pipe_write size atomic readers file p (buf ++ behind) (length buf)
            ≡ some (done (ok n) (buf ++ behind) grown))
        × IsPipe size grown (q ++ take n (buf ++ behind)))
      × (pipe_write size atomic readers file p buf (length buf) ≡ none)
unfolding pipe_write write_loop
pipe_write-overread {size} {p} {q} buf behind atomic readers file v other open_end read_by around
      more room =
    let count = length buf in
    let object = buf ++ behind in
    let lo : length object ≡ count + length behind = length-append buf behind in
    let (a, d, eo, la) = cut (size - p.write_pos) object (omega arith) in
    let ld : length object ≡ length a + length d = ap length eo ∙ length-append a d in
    let (c, rest, ed, lc) = cut (min (size - (length q + length a)) count) d (omega arith) in
    let place : object ≡ a ++ (c ++ rest) = eo ∙ ap (λ l. a ++ l) ed in
    let t : Put size p q (a ++ c) object count 0 =
      subst (λ l. Put size p q (a ++ c) l count 0) (sym place)
        (past_parts v a c rest count la (omega arith) (omega (arith, v.write_in)) lc) in
    let n = length (a ++ c) in
    let ln : n ≡ length a + length c = length-append a c in
    let front : take n object ≡ a ++ c =
      ap (take n) (place ∙ sym (append_assoc a c rest)) ∙ take-append (a ++ c) rest in
    let past : count < n = omega (arith, v.write_in) in
    let run =
      past_write size p object count n atomic readers file t.grown t.runs past
        (omega (arith, v.write_in)) (omega (arith, v.avail)) other open_end read_by in
    let free : ltb (size - p.bytes_avail) (min atomic count) ≡ false =
      not_lt (omega (arith, v.avail)) in
    let rounds : count + 1 ≡ suc count = omega arith in
    let e = overread buf v around more in
    (
      (n, t.grown, past, run, subst (λ l. IsPipe size t.grown (q ++ l)) (sym front) t.keeps),
      rw rounds (ground (arith, e, free)),
    )
