-- ===== src/Keyboard/Ring.antt =====
-- The ring buffer of keystrokes of kernel/keyboard.c and kernel/console.c as a queue.
use exscape_os.Prelude.{
  ℕ, zero, suc, ◌+◌, ◌-◌, ◌<◌, ◌≤◌, ◌≡◌, ◌≢◌, inl, inr, refl, ap, sym, ◌∙◌, false, List, [], ◌∷◌,
  ◌++◌, none, some, arith, ◌==◌, leb, Bool-cases, if◌then◌else◌, get_elem?, get_elem?-set_self,
  get_elem?-set_ne, set, length, length-set, length-append,
}
use exscape_os.Keyboard.{RingBuffer, wrap, put_key, getchar}

-- where the key so many places behind the first one stands
abbrev pub place : RingBuffer → ℕ → ℕ
place b i = if leb 256 (b.read_ptr + i) then b.read_ptr + i - 256 else b.read_ptr + i

-- The buffer holds these keys, the oldest first.
pub record Holds (b : RingBuffer) (keys : List ℕ) : Type 0 where
  pub size : length b.bytes ≡ 256
  pub reading : b.read_ptr < 256
  pub room : b.counter ≤ 256
  pub writing : b.write_ptr ≡ (
      if leb 256 (b.read_ptr + b.counter)
      then b.read_ptr + b.counter - 256
      else b.read_ptr + b.counter)
  pub count_is : length keys ≡ b.counter
  pub keys_are : (i : ℕ) → i < b.counter → get_elem? b.bytes (place b i) ≡ get_elem? keys i

get_elem?-front : (xs ys : List ℕ) (j : ℕ) → j < length xs → get_elem? (xs ++ ys) j ≡ get_elem? xs j
get_elem?-front [] ys j h = absurd (omega arith)
get_elem?-front (x ∷ xs) ys zero h = refl
get_elem?-front (x ∷ xs) ys (suc j) h = get_elem?-front xs ys j (omega arith)

get_elem?-last : (xs : List ℕ) (y : ℕ) → get_elem? (xs ++ y ∷ []) (length xs) ≡ some y
get_elem?-last [] y = refl
get_elem?-last (x ∷ xs) y = get_elem?-last xs y

-- A key goes behind the others if the buffer is not full.
pub put_key-Holds :
    (c : ℕ) (b : RingBuffer) (keys : List ℕ)
    → Holds b keys
    → length keys < 256
    → (b' : RingBuffer) × (put_key c b ≡ some b') × Holds b' (keys ++ c ∷ [])
unfolding put_key
put_key-Holds c b keys h room =
    let free : (b.counter == 256) ≡ false = ground (arith, h.count_is) in
    (
      record {
        bytes = set b.bytes b.write_ptr c;
        read_ptr = b.read_ptr;
        write_ptr = wrap (b.write_ptr + 1);
        counter = b.counter + 1;
      },
      rw free refl,
      record {
        size = length-set b.bytes b.write_ptr c ∙ h.size;
        reading = h.reading;
        room = omega (arith, h.count_is);
        writing = ground (arith, h.writing, h.reading, h.count_is);
        count_is = omega (arith, length-append keys (c ∷ []), h.count_is);
        keys_are = λ i lt. elim (Bool-cases (i == b.counter)) [
          | inl e ↦
              let here : place b i ≡ b.write_ptr = ground (arith, e, h.writing) in
              let last : i ≡ length keys = ground (arith, e, h.count_is) in
              rw (here, last)
                (get_elem?-set_self b.bytes b.write_ptr c
                    (ground (arith, h.size, h.writing, h.reading, h.room))
                  ∙ sym (get_elem?-last keys c))
          | inr ne ↦
              let less : i < b.counter = ground (arith, ne, lt) in
              let apart : b.write_ptr ≢ place b i =
                λ same. ground (arith, same, h.writing, h.reading, h.count_is) in
              get_elem?-set_ne b.bytes b.write_ptr (place b i) c apart
              ∙ h.keys_are i less
              ∙ sym (get_elem?-front keys (c ∷ []) i (omega (arith, h.count_is)))
        ];
      },
    )

-- The oldest key is read, and is no longer in the buffer.
pub getchar-Holds :
    (c : ℕ) (b : RingBuffer) (keys : List ℕ)
    → Holds b (c ∷ keys)
    → (b' : RingBuffer) × (getchar b ≡ some (if c == 4 then none else some c, b')) × Holds b' keys
unfolding getchar
getchar-Holds c b keys h =
    let some_key : (b.counter == 0) ≡ false = ground (arith, h.count_is) in
    let start : b.read_ptr ≡ place b 0 = ground (arith, h.reading) in
    let first : get_elem? b.bytes b.read_ptr ≡ some c =
      ap (get_elem? b.bytes) start ∙ h.keys_are 0 (omega (arith, h.count_is)) in
    (
      record b { read_ptr = wrap (b.read_ptr + 1); counter = b.counter - 1 },
      rw (some_key, first) refl,
      record {
        size = h.size;
        reading = ground (arith, h.reading);
        room = omega (arith, h.room);
        writing = ground (arith, h.writing, h.reading, h.room, h.count_is);
        count_is = omega (arith, h.count_is);
        keys_are = λ i lt.
            let next : place
                  (record b { read_ptr = wrap (b.read_ptr + 1); counter = b.counter - 1 }) i
                ≡ place b (suc i) =
              ground (arith, h.reading, h.room) in
            ap (get_elem? b.bytes) next ∙ h.keys_are (suc i) (omega arith);
      },
    )
