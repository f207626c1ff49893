-- ===== src/Keyboard/Keys.antt =====
-- `keyboard_callback` of kernel/keyboard.c: which keys arrive in the ring buffer.
use exscape_os.Prelude.{
  ℕ, ◌<◌, ◌-◌, ◌≡◌, ◌≢◌, ◌⊎◌, inl, inr, refl, Bool, true, false, List, [], ◌∷◌, ◌++◌, none, some,
  arith, ◌==◌, ◌&&◌, leb, Bool-cases, Option-cases, if◌then◌else◌, length,
}
use exscape_os.Keyboard.{
  Keyboard, ModKeys, Effect, nothing, reset, console_switch, mods_are, mod_key, scroll_key, char_of,
  keyboard_callback,
}
use exscape_os.Keyboard.Ring.{Holds, put_key-Holds}

-- a scancode that is none of those that are looked for in front of the key maps
abbrev pub IsPlain : ℕ → ModKeys → Type 0
IsPlain scancode m =
    ((scancode == 0xe0) ≡ false)
    × ((mods_are true false true m && (scancode == 0xd3)) ≡ false)
    × ((mods_are false false true m && leb 0x3b scancode && leb scancode 0x3e) ≡ false)
    × (mod_key scancode m ≡ none)
    × (scroll_key scancode m ≡ none)

-- A key with a character goes behind the keys that are in the buffer, if that is not full, and the
-- modifier keys stay.
pub keyboard_callback-Holds :
    (present : ℕ → Bool) (scancode : ℕ) (k : Keyboard) (keys : List ℕ)
    → Holds k.keybuffer keys
    → length keys < 256
    → IsPlain scancode k.mod_keys
    → char_of scancode k.mod_keys ≢ 0
    → (g : Keyboard) × (keyboard_callback present scancode k ≡ some (nothing, g))
      × Holds g.keybuffer (keys ++ char_of scancode k.mod_keys ∷ [])
      × (g.mod_keys ≡ k.mod_keys)
unfolding keyboard_callback
keyboard_callback-Holds present scancode k keys h room (p1, p2, p3, p4, p5) nz =
    let (b, eq, w) = put_key-Holds (char_of scancode k.mod_keys) k.keybuffer keys h room in
    let no : (char_of scancode k.mod_keys == 0) ≡ false = ground (arith, nz) in
    (record k { keybuffer = b }, rw (p1, p2, p3, p4, p5, no, eq) refl, w, refl)

-- Any other key leaves the buffer as it is, and no key faults while the buffer is not full.
pub keyboard_callback-total :
    (present : ℕ → Bool) (scancode : ℕ) (k : Keyboard) (keys : List ℕ)
    → Holds k.keybuffer keys
    → length keys < 256
    → (effect : Effect) × (g : Keyboard) × (keyboard_callback present scancode k ≡ some (effect, g))
      × (Holds g.keybuffer keys ⊎ Holds g.keybuffer (keys ++ char_of scancode k.mod_keys ∷ []))
unfolding keyboard_callback
keyboard_callback-total present scancode k keys h room =
    let m = k.mod_keys in
    let c = char_of scancode m in
    elim (Bool-cases (scancode == 0xe0)) [
      | inl t ↦ (nothing, k, rw t refl, inl h)
      | inr p1 ↦ elim (Bool-cases (mods_are true false true m && (scancode == 0xd3))) [
        | inl t ↦ (reset, k, rw (p1, t) refl, inl h)
        | inr p2 ↦
            elim (Bool-cases
              (mods_are false false true m && leb 0x3b scancode && leb scancode 0x3e)) [
                | inl t ↦ (
                  if present (scancode - 0x3b) then console_switch (scancode - 0x3b) else nothing,
                  k,
                  rw (p1, p2, t) refl,
                  inl h,
                )
                | inr p3 ↦ elim (Option-cases (mod_key scancode m)) [
                  | inr (m', e) ↦
                      (nothing, record k { mod_keys = m' }, rw (p1, p2, p3, e) refl, inl h)
                  | inl p4 ↦ elim (Option-cases (scroll_key scancode m)) [
                    | inr (effect, e) ↦ (effect, k, rw (p1, p2, p3, p4, e) refl, inl h)
                    | inl p5 ↦ elim (Bool-cases (c == 0)) [
                      | inl z ↦ (nothing, k, rw (p1, p2, p3, p4, p5, z) refl, inl h)
                      | inr nz ↦
                          let (b, eq, w) = put_key-Holds c k.keybuffer keys h room in
                          (
                            nothing,
                            record k { keybuffer = b },
                            rw (p1, p2, p3, p4, p5, nz, eq) refl,
                            inr w,
                          )
                    ]
                  ]
                ]
              ]
      ]
    ]
