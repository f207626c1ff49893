-- ===== src/Keyboard.antt =====
-- kernel/keyboard.c and `getchar` of kernel/console.c: the state of the modifier keys, the key maps,
-- and the ring buffer of keystrokes of the console. `read_ptr` and `write_ptr` are indices into it.
-- What a key does to the screen is an effect that the handler returns. A fault (`none`) is a failed
-- assertion or the panic on a buffer that is full.
pub mod Ring
pub mod Keys
pub mod Mods
mod Tests
use exscape_os.Prelude.{
  ℕ, zero, suc, ◌+◌, ◌-◌, ◌*◌, ◌/◌, ◌%◌, Bool, true, false, ◌&&◌, ◌||◌, not, List, [], ◌∷◌, Option,
  none, some, ltb, leb, ◌==◌, if◌then◌else◌, get_or, get_elem?, set, length, replicate, ◌>>=◌, ◌>>◌,
  assert,
}

abbrev pub keybuffer_size : ℕ
keybuffer_size = 256

pub record RingBuffer : Type 0 where
  pub bytes : List ℕ
  pub read_ptr : ℕ
  pub write_ptr : ℕ
  pub counter : ℕ

-- the three bits of `mod_keys`
pub record ModKeys : Type 0 where
  pub ctrl : Bool
  pub shift : Bool
  pub alt : Bool

pub record Keyboard : Type 0 where
  pub mod_keys : ModKeys
  pub keybuffer : RingBuffer

-- what the handler calls
pub data Effect : Type 0 where
  nothing : Effect
  reset : Effect
  console_switch : ℕ → Effect
  scrollback_up : Effect
  scrollback_down : Effect
  scrollback_pgup : Effect
  scrollback_pgdown : Effect

-- the entries of the table that are not left out, which are 0
unfoldable pub kbdmix : List ℕ
kbdmix =
    0 ∷ 27 ∷ 49 ∷ 50 ∷ 51 ∷ 52 ∷ 53 ∷ 54 ∷ 55 ∷ 56 ∷ 57 ∷ 48 ∷ 43 ∷ 0 ∷ 8 ∷ 9 ∷ 113 ∷ 119 ∷ 101
    ∷ 114 ∷ 116 ∷ 121 ∷ 117 ∷ 105 ∷ 111 ∷ 112 ∷ 91 ∷ 93 ∷ 10 ∷ 0 ∷ 97 ∷ 115 ∷ 100 ∷ 102 ∷ 103 ∷ 104
    ∷ 106 ∷ 107 ∷ 108 ∷ 59 ∷ 39 ∷ 60 ∷ 0 ∷ 92 ∷ 122 ∷ 120 ∷ 99 ∷ 118 ∷ 98 ∷ 110 ∷ 109 ∷ 44 ∷ 46 ∷ 45
    ∷ 0 ∷ 42 ∷ 0 ∷ 32 ∷ 0 ∷ 0 ∷ 0 ∷ 0 ∷ 0 ∷ 0 ∷ 0 ∷ 0 ∷ 0 ∷ 0 ∷ 0 ∷ 0 ∷ 0 ∷ 0 ∷ 0 ∷ 0 ∷ 45 ∷ 0 ∷ 0
    ∷ 0 ∷ 43 ∷ 0 ∷ 0 ∷ 0 ∷ 0 ∷ 0 ∷ 0 ∷ 0 ∷ 60 ∷ 0 ∷ 0 ∷ 0 ∷ []

-- the entries of the table that are not left out, which are 0
unfoldable pub kbdse_shift : List ℕ
kbdse_shift =
    0 ∷ 27 ∷ 33 ∷ 34 ∷ 35 ∷ 0 ∷ 37 ∷ 38 ∷ 47 ∷ 40 ∷ 41 ∷ 61 ∷ 63 ∷ 96 ∷ 8 ∷ 9 ∷ 81 ∷ 87 ∷ 69 ∷ 82
    ∷ 84 ∷ 89 ∷ 85 ∷ 73 ∷ 79 ∷ 80 ∷ 65 ∷ 65 ∷ 10 ∷ 0 ∷ 65 ∷ 83 ∷ 68 ∷ 70 ∷ 71 ∷ 72 ∷ 74 ∷ 75 ∷ 76
    ∷ 79 ∷ 39 ∷ 62 ∷ 0 ∷ 42 ∷ 90 ∷ 88 ∷ 67 ∷ 86 ∷ 66 ∷ 78 ∷ 77 ∷ 59 ∷ 58 ∷ 95 ∷ 0 ∷ 42 ∷ 0 ∷ 32 ∷ 0
    ∷ 0 ∷ 0 ∷ 0 ∷ 0 ∷ 0 ∷ 0 ∷ 0 ∷ 0 ∷ 0 ∷ 0 ∷ 0 ∷ 0 ∷ 0 ∷ 0 ∷ 0 ∷ 45 ∷ 0 ∷ 0 ∷ 0 ∷ 43 ∷ 0 ∷ 0 ∷ 0
    ∷ 0 ∷ 0 ∷ 0 ∷ 0 ∷ 62 ∷ 0 ∷ 0 ∷ 0 ∷ []

-- the entries of the table that are not left out, which are 0
unfoldable pub kbdse_alt : List ℕ
kbdse_alt =
    0 ∷ 27 ∷ 0 ∷ 64 ∷ 0 ∷ 36 ∷ 0 ∷ 0 ∷ 123 ∷ 91 ∷ 93 ∷ 125 ∷ 92 ∷ 61 ∷ 8 ∷ 9 ∷ 113 ∷ 119 ∷ 101 ∷ 114
    ∷ 116 ∷ 121 ∷ 117 ∷ 105 ∷ 111 ∷ 112 ∷ 91 ∷ 93 ∷ 10 ∷ 0 ∷ 97 ∷ 115 ∷ 100 ∷ 102 ∷ 103 ∷ 104 ∷ 106
    ∷ 107 ∷ 108 ∷ 59 ∷ 39 ∷ 96 ∷ 0 ∷ 92 ∷ 122 ∷ 120 ∷ 99 ∷ 118 ∷ 98 ∷ 110 ∷ 109 ∷ 44 ∷ 46 ∷ 47 ∷ 0
    ∷ 42 ∷ 0 ∷ 32 ∷ 0 ∷ 0 ∷ 0 ∷ 0 ∷ 0 ∷ 0 ∷ 0 ∷ 0 ∷ 0 ∷ 0 ∷ 0 ∷ 0 ∷ 0 ∷ 0 ∷ 0 ∷ 0 ∷ 45 ∷ 0 ∷ 0 ∷ 0
    ∷ 43 ∷ 0 ∷ 0 ∷ 0 ∷ 0 ∷ 0 ∷ 0 ∷ 0 ∷ 124 ∷ 0 ∷ 0 ∷ 0 ∷ []

-- `mod_keys == ...`
abbrev pub mods_are : (ctrl shift alt : Bool) → ModKeys → Bool
mods_are c s a m = same c m.ctrl && same s m.shift && same a m.alt
  where
    same : Bool → Bool → Bool
    same true b = b
    same false b = not b

-- `console_init`'s part on the buffer
abbrev pub empty_buffer : RingBuffer
empty_buffer = record {
  bytes = replicate keybuffer_size 0;
  read_ptr = 0;
  write_ptr = 0;
  counter = 0;
}

abbrev pub wrap : ℕ → ℕ
wrap p = if leb keybuffer_size p then 0 else p

-- The key goes to the ring buffer.
unfoldable pub put_key : ℕ → RingBuffer → Option RingBuffer
put_key c b = do
  assert (not (b.counter == keybuffer_size))
  some (record {
    bytes = set b.bytes b.write_ptr c;
    read_ptr = b.read_ptr;
    write_ptr = wrap (b.write_ptr + 1);
    counter = b.counter + 1;
  })

-- `getchar` when there is a key; -1 is `none`.
unfoldable pub getchar : RingBuffer → Option (Option ℕ × RingBuffer)
getchar b = do
  assert (not (b.counter == 0))
  c ← get_elem? b.bytes b.read_ptr
  some (
    if c == 4 then none else some c,
    record b { read_ptr = wrap (b.read_ptr + 1); counter = b.counter - 1 },
  )

-- The `switch` on the modifier keys: their new state, if the scancode is one of theirs.
unfoldable pub mod_key : (scancode : ℕ) → ModKeys → Option ModKeys
mod_key scancode m =
    if (scancode == 0x2a) || (scancode == 0x36)
    then some (record m { shift = true })
    else if (scancode == 0xaa) || (scancode == 0xb6)
    then some (record m { shift = false })
    else if scancode == 0x1d
    then some (record m { ctrl = true })
    else if scancode == 0x9d
    then some (record m { ctrl = false })
    else if scancode == 0x38
    then some (record m { alt = true })
    else if scancode == 0xb8
    then some (record m { alt = false })
    else none

-- the keys that scroll
unfoldable pub scroll_key : (scancode : ℕ) → ModKeys → Option Effect
scroll_key scancode m =
    if mods_are false true false m && (scancode == 0x48)
    then some scrollback_up
    else if mods_are false true false m && (scancode == 0x50)
    then some scrollback_down
    else if mods_are false true true m && (scancode == 0x48)
    then some scrollback_pgup
    else if mods_are false true true m && (scancode == 0x50)
    then some scrollback_pgdown
    else none

-- The character of a key; 0 where the handler returns without one.
unfoldable pub char_of : (scancode : ℕ) → ModKeys → ℕ
char_of scancode m =
    if leb 0x80 scancode
    then 0
    else if mods_are false false false m
    then get_or kbdmix scancode 0
    else if mods_are false true false m
    then get_or kbdse_shift scancode 0
    else if mods_are false false true m
    then get_or kbdse_alt scancode 0
    else if mods_are true false false m && (scancode == 0x20)
    then 4
    else 0

-- `keyboard_callback`; `present` tells which virtual consoles there are.
unfoldable pub keyboard_callback :
    (present : ℕ → Bool) → (scancode : ℕ) → Keyboard → Option (Effect × Keyboard)
keyboard_callback present scancode k =
    let m = k.mod_keys in
    if scancode == 0xe0
    then some (nothing, k)
    else if mods_are true false true m && (scancode == 0xd3)
    then some (reset, k)
    else if mods_are false false true m && leb 0x3b scancode && leb scancode 0x3e
    then some (if present (scancode - 0x3b) then console_switch (scancode - 0x3b) else nothing, k)
    else elim (mod_key scancode m) [
      | some m' ↦ some (nothing, record k { mod_keys = m' })
      | none ↦ elim (scroll_key scancode m) [
        | some effect ↦ some (effect, k)
        | none ↦
            let c = char_of scancode m in
            if c == 0
            then some (nothing, k)
            else (put_key c k.keybuffer >>= λ b. some (nothing, record k { keybuffer = b }))
      ]
    ]
