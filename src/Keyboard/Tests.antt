-- ===== src/Keyboard/Tests.antt =====
-- The theorems on the keyboard of kernel/keyboard.c at a buffer with a key in it.
use exscape_os.Prelude.{
  ℕ, ◌≡◌, refl, true, false, [], ◌∷◌, ◌++◌, replicate, none, some, arith, ◌==◌, if◌then◌else◌,
  length-replicate,
}
use exscape_os.Keyboard.{
  RingBuffer, Keyboard, ModKeys, empty_buffer, getchar, mod_key, keyboard_callback,
}
use exscape_os.Keyboard.Mods.{
  presses, is_down, shift_down, shift_up, ctrl_down, ctrl_up, alt_down, alt_up, presses-is_down,
}
use exscape_os.Keyboard.Ring.{Holds, getchar-Holds}

empty-Holds : Holds empty_buffer []
empty-Holds = record {
  size = length-replicate {A = ℕ} 256 0;
  reading = omega arith;
  room = omega arith;
  writing = refl;
  count_is = refl;
  keys_are = λ i lt. absurd (omega arith);
}

-- the key at the end of the buffer
abbrev at_end : RingBuffer
at_end = record { bytes = replicate 255 0 ++ 97 ∷ []; read_ptr = 255; write_ptr = 0; counter = 1 }

at_end-Holds : Holds at_end (97 ∷ [])
at_end-Holds = record {
  size = refl;
  reading = omega arith;
  room = omega arith;
  writing = refl;
  count_is = refl;
  keys_are = λ i lt. let first : i ≡ 0 = omega arith in rw first refl;
}

getchar-Holds_example :
    (b : RingBuffer) × (getchar at_end ≡ some (if 97 == 4 then none else some 97, b)) × Holds b []
getchar-Holds_example = getchar-Holds 97 at_end [] at_end-Holds

abbrev no_mods : ModKeys
no_mods = record { ctrl = false; shift = false; alt = false }

abbrev board : Keyboard
board = record { mod_keys = no_mods; keybuffer = empty_buffer }

presses-is_down_example :
    (true ≡ is_down shift_down shift_up false (0x2a ∷ 0x38 ∷ 0xb8 ∷ []))
    × (false ≡ is_down ctrl_down ctrl_up false (0x2a ∷ 0x38 ∷ 0xb8 ∷ []))
    × (false ≡ is_down alt_down alt_up false (0x2a ∷ 0x38 ∷ 0xb8 ∷ []))
unfolding presses keyboard_callback mod_key
presses-is_down_example =
    presses-is_down (λ n. true) (0x2a ∷ 0x38 ∷ 0xb8 ∷ []) board
      (record board { mod_keys = record { ctrl = false; shift = true; alt = false } }) refl
