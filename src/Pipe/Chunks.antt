-- ===== src/Pipe/Chunks.antt =====
-- One `memcpy` of kernel/pipe.c, on the bytes that the pipe holds.
use exscape_os.Prelude.{
  none, Option-cases, ◌<◌, ℕ, ◌+◌, ◌-◌, ◌≤◌, ◌<◌, ◌≡◌, refl, sym, ap, ◌∙◌, ◌⊎◌, inl, inr, List, [],
  ◌++◌, some, arith, Bool-cases, leb, length, length-append, append_assoc, append-nil,
}
use exscape_os.Memory.{
  length-slice, splice-fault, slice-fault, slice, splice, slice-append, splice-append, append-split,
  cut, length_zero,
}
use exscape_os.Pipe.{Pipe, read_chunk, wrap_read, write_chunk, wrap_write}
use exscape_os.Pipe.Holds.{Holds, straight, wrapped}

abbrev pub after_read : Pipe → ℕ → Pipe
after_read p n = record p { read_pos = p.read_pos + n; bytes_avail = p.bytes_avail - n }

abbrev pub after_write : Pipe → List ℕ → ℕ → Pipe
after_write p buffer' n = record p {
  buffer = buffer';
  write_pos = p.write_pos + n;
  bytes_avail = p.bytes_avail + n;
}

length_three :
    (a b c : List ℕ) {xs : List ℕ} → xs ≡ a ++ (b ++ c) → length xs ≡ length a + length b + length c
length_three a b c e = rw e (omega (arith, length-append a (b ++ c), length-append b c))

pub length-le-size :
    {size : ℕ} {p : Pipe} (q : List ℕ) → Holds size p q → length p.buffer ≡ size → length q ≤ size
length-le-size q (straight before after e r w) room = omega (arith, length_three before q after e)
length-le-size q (wrapped first gap last e eq r w) room =
    omega (arith, length_three last gap first e, ap length eq, length-append first last)

-- What a read takes is the front of what is held, and the rest stays.
module _ {size : ℕ} {p : Pipe} where
  slice-Holds :
      (a b : List ℕ)
      → Holds size p (a ++ b)
      → length p.buffer ≡ size
      → p.read_pos + length a ≤ size
      → (slice p.read_pos (length a) p.buffer ≡ some a) × Holds size (after_read p (length a)) b
  slice-Holds a b (straight before after e r w) room fits = (
    rw (e, append_assoc a b after)
        (slice-append before a (b ++ after) p.read_pos (length a) r refl),
    straight (before ++ a) after (simp (e, append_assoc)) (omega (arith, length-append before a))
        (omega (arith, length-append before a, length-append a b)),
  )
  slice-Holds a b (wrapped first gap last e q r w) room fits =
      wrapped_case (append-split a b first last q (omega (arith, length_three last gap first e)))
    where
      wrapped_case :
          (m : List ℕ) × (first ≡ a ++ m) × (b ≡ m ++ last)
          → (slice p.read_pos (length a) p.buffer ≡ some a) × Holds size (after_read p (length a)) b
      wrapped_case (m, ef, eb) =
          let shape : p.buffer ≡ (last ++ gap) ++ (a ++ m) = e ∙ rw (ef, append_assoc) in
          (
            rw shape (
                slice-append (last ++ gap) a m p.read_pos (length a)
                  (omega (arith, length-append last gap)) refl),
            wrapped m (gap ++ a) last (shape ∙ simp append_assoc) eb
                (omega (arith, length-append gap a)) w,
          )

-- The pipe after `bytes` were written at `write_pos`, over its own buffer.
abbrev Extended : ℕ → Pipe → List ℕ → List ℕ → Type 0
Extended size p q bytes =
    (buffer' : List ℕ) × (splice p.write_pos bytes p.buffer ≡ some buffer')
    × (length buffer' ≡ size)
    × Holds size (after_write p buffer' (length bytes)) (q ++ bytes)

module _ {size : ℕ} (p : Pipe) (q bytes : List ℕ) (room : length p.buffer ≡ size) where
  extend_gap :
      (first last a b : List ℕ)
      → p.buffer ≡ last ++ ((a ++ b) ++ first)
      → q ≡ first ++ last
      → p.read_pos ≡ length last + length (a ++ b)
      → p.write_pos ≡ length last
      → length a ≡ length bytes
      → Extended size p q bytes
  extend_gap first last a b e eq r w la = (
    last ++ (bytes ++ (b ++ first)),
    rw (e, append_assoc a b first) (splice-append last a (b ++ first) bytes p.write_pos w (sym la)),
    omega (
      arith,
      length_three last (a ++ b) first e,
      length-append a b,
      length_three last bytes (b ++ first) refl,
      length-append b first,
    ),
    wrapped first b (last ++ bytes) (rw append_assoc) (rw (eq, append_assoc))
        (omega (arith, length-append last bytes, length-append a b))
        (omega (arith, length-append last bytes)),
  )

  extend_behind :
      (before a b : List ℕ)
      → p.buffer ≡ before ++ (q ++ (a ++ b))
      → p.read_pos ≡ length before
      → p.write_pos ≡ length before + length q
      → length a ≡ length bytes
      → Extended size p q bytes
  extend_behind before a b e r w la = (
    (before ++ q) ++ (bytes ++ b),
    rw (e, ← append_assoc before q (a ++ b))
        (splice-append (before ++ q) a b bytes p.write_pos (omega (arith, length-append before q))
          (sym la)),
    omega (
      arith,
      length_three before q (a ++ b) e,
      length-append a b,
      length_three (before ++ q) bytes b refl,
      length-append before q,
    ),
    straight before b (simp append_assoc) r (inl (omega (arith, length-append q bytes))),
  )

  -- What a write adds goes behind what is held.
  splice-Holds :
      Holds size p q
      → p.write_pos + length bytes ≤ size
      → length q + length bytes ≤ size
      → Extended size p q bytes
  splice-Holds (straight before after e r (inl w)) fits small =
      let (a, b, ea, la) =
        cut (length bytes) after (omega (arith, length_three before q after e)) in
      extend_behind before a b (rw (← ea) e) r w la
  splice-Holds (straight before after e r (inr w)) fits small =
      let (a, b, ea, la) = cut (length bytes) before (omega arith) in
      let none_after : after ≡ [] =
        length_zero after (omega (arith, length_three before q after e)) in
      extend_gap q [] a b (rw (← ea) (e ∙ rw (none_after, append-nil))) (rw append-nil)
        (omega (arith, ap length ea)) w.0 la
  splice-Holds (wrapped first gap last e eq r w) fits small =
      let (a, b, eg, la) =
        cut (length bytes) gap
          (omega (arith, length_three last gap first e, length-append first last, ap length eq)) in
      extend_gap first last a b (rw (← eg) e) eq (rw (← eg) r) w la

module _ {size : ℕ} {p : Pipe} where
  -- A `read_chunk` of the oldest bytes: what it stores, and what is left.
  pub read_chunk_lem :
      (a b buf : List ℕ) (at : ℕ) {buf' : List ℕ}
      → Holds size p (a ++ b)
      → length p.buffer ≡ size
      → p.bytes_avail ≡ length (a ++ b)
      → p.read_pos + length a ≤ size
      → splice at a buf ≡ some buf'
      → (read_chunk size p buf at (length a) ≡ some (buf', after_read p (length a)))
        × Holds size (after_read p (length a)) b
  unfolding read_chunk
  read_chunk_lem a b buf at h room avail fits stored =
      let (cut_out, rest) = slice-Holds a b h room fits in
      (ground (arith, cut_out, stored, length-append a b), rest)

  -- A `write_chunk` of bytes that fit: they go behind those held.
  pub write_chunk_lem :
      (q bytes buf : List ℕ) (at : ℕ)
      → Holds size p q
      → length p.buffer ≡ size
      → p.bytes_avail ≡ length q
      → p.write_pos + length bytes ≤ size
      → length q + length bytes ≤ size
      → slice at (length bytes) buf ≡ some bytes
      → (buffer' : List ℕ) × (write_chunk size p buf at (length bytes)
          ≡ some (after_write p buffer' (length bytes)))
        × (length buffer' ≡ size)
        × Holds size (after_write p buffer' (length bytes)) (q ++ bytes)
  unfolding write_chunk
  write_chunk_lem q bytes buf at h room avail fits small taken =
      let (buffer', e, l, h') = splice-Holds p q bytes room h fits small in
      (buffer', ground (arith, e, taken), l, h')

  read_restart :
      {q : List ℕ}
      → Holds size p q
      → length p.buffer ≡ size
      → p.read_pos ≡ size
      → p.write_pos < size
      → Holds size (record p { read_pos = 0 }) q
  read_restart {q} (straight before after e r w) room end lt =
      let no_bytes : q ≡ [] = length_zero q (omega (arith, length_three before q after e)) in
      straight [] p.buffer (rw no_bytes) refl (inl (omega (arith, length_three before q after e)))
  read_restart (wrapped first gap last e eq r w) room end lt =
      let no_first : first ≡ [] =
        length_zero first (omega (arith, length_three last gap first e)) in
      straight [] gap (rw (eq, no_first) (rw (e, no_first, append-nil))) refl
        (inl (omega (arith, ap length eq, length-append first last, ap length no_first)))

  write_restart :
      {q : List ℕ}
      → Holds size p q
      → length p.buffer ≡ size
      → p.write_pos ≡ size
      → p.read_pos < size
      → Holds size (record p { write_pos = 0 }) q
  write_restart {q} (straight before after e r w) room end lt =
      straight before after e r (inr (refl, omega arith))
  write_restart (wrapped first gap last e eq r w) room end lt =
      absurd (omega (arith, length_three last gap first e))

  -- At the end of the buffer the read position goes back to its start.
  pub wrap_read_lem :
      (q : List ℕ)
      → Holds size p q
      → length p.buffer ≡ size
      → p.read_pos ≤ size
      → p.write_pos < size
      → (r : ℕ) × (wrap_read size p ≡ some (record p { read_pos = r }))
        × Holds size (record p { read_pos = r }) q
        × (r < size)
        × ((r ≡ p.read_pos) ⊎ ((r ≡ 0) × (p.read_pos ≡ size)))
  unfolding wrap_read
  wrap_read_lem q h room le lt = elim (Bool-cases (leb size p.read_pos)) [
    | inl end ↦ (
      0,
      ground arith,
      read_restart h room (ground arith) lt,
      ground arith,
      inr (refl, ground arith),
    )
    | inr inside ↦ (p.read_pos, rw inside, h, ground arith, inl refl)
  ]

  -- At the end of the buffer the write position goes back to its start.
  pub wrap_write_lem :
      (q : List ℕ)
      → Holds size p q
      → length p.buffer ≡ size
      → p.write_pos ≤ size
      → p.read_pos < size
      → (w : ℕ) × (wrap_write size p ≡ some (record p { write_pos = w }))
        × Holds size (record p { write_pos = w }) q
        × (w < size)
        × ((w ≡ p.write_pos) ⊎ ((w ≡ 0) × (p.write_pos ≡ size)))
  unfolding wrap_write
  wrap_write_lem q h room le lt = elim (Bool-cases (leb size p.write_pos)) [
    | inl end ↦ (
      0,
      ground arith,
      write_restart h room (ground arith) lt,
      ground arith,
      inr (refl, ground arith),
    )
    | inr inside ↦ (p.write_pos, rw inside, h, ground arith, inl refl)
  ]

module _ (size : ℕ) (p : Pipe) where
  -- A copy past the end of the caller's buffer faults.
  pub read_chunk-fault :
      (buf : List ℕ) (at n : ℕ) → length buf < at + n → read_chunk size p buf at n ≡ none
  unfolding read_chunk
  read_chunk-fault buf at n h = elim (Option-cases (slice p.read_pos n p.buffer)) [
    | inl e ↦ ground (arith, e)
    | inr (bytes, e) ↦
        ground (arith, e, length-slice p.read_pos n p.buffer e, splice-fault at bytes buf)
  ]

  -- A copy that begins beyond the end of the caller's data faults.
  pub write_chunk-fault :
      (buf : List ℕ) (at n : ℕ) → length buf < at + n → write_chunk size p buf at n ≡ none
  unfolding write_chunk
  write_chunk-fault buf at n h = ground (arith, slice-fault at n buf h)
