-- ===== src/Keyboard/Mods.antt =====
-- `keyboard_callback` of kernel/keyboard.c over several keys: the state of the modifier keys.
use exscape_os.Prelude.{
  ℕ, ◌≡◌, ◌≤◌, inl, inr, refl, ap, sym, ◌∙◌, Bool, true, false, List, [], ◌∷◌, Option, none, some,
  arith, ◌==◌, ◌&&◌, ◌||◌, leb, Bool-cases, Option-cases, if◌then◌else◌, ◌>>=◌,
}
use exscape_os.Keyboard.{
  Keyboard, ModKeys, Effect, mods_are, mod_key, scroll_key, char_of, put_key, keyboard_callback,
}

-- The interrupts of the keyboard one after the other, without what they do to the screen.
unfoldable pub presses : (present : ℕ → Bool) → List ℕ → Keyboard → Option Keyboard
presses present [] k = some k
presses present (scancode ∷ rest) k =
    keyboard_callback present scancode k >>= λ (_, g). presses present rest g

-- whether a key is down, of which `down` and `up` are the scancodes
abbrev pub is_down : (down up : ℕ → Bool) → Bool → List ℕ → Bool
is_down down up b [] = b
is_down down up b (scancode ∷ rest) =
    is_down down up (if down scancode then true else if up scancode then false else b) rest

abbrev pub next_state : (down up : ℕ → Bool) → Bool → ℕ → Bool
next_state down up b scancode = if down scancode then true else if up scancode then false else b

abbrev pub shift_down : ℕ → Bool
shift_down c = (c == 0x2a) || (c == 0x36)

abbrev pub shift_up : ℕ → Bool
shift_up c = (c == 0xaa) || (c == 0xb6)

abbrev pub ctrl_down : ℕ → Bool
ctrl_down c = c == 0x1d

abbrev pub ctrl_up : ℕ → Bool
ctrl_up c = c == 0x9d

abbrev pub alt_down : ℕ → Bool
alt_down c = c == 0x38

abbrev pub alt_up : ℕ → Bool
alt_up c = c == 0xb8

-- what one scancode makes of the three keys
abbrev after : ℕ → ModKeys → ModKeys
after c m = record {
  ctrl = next_state ctrl_down ctrl_up m.ctrl c;
  shift = next_state shift_down shift_up m.shift c;
  alt = next_state alt_down alt_up m.alt c;
}

mod_key-after : (c : ℕ) (m m' : ModKeys) → mod_key c m ≡ some m' → m' ≡ after c m
unfolding mod_key
mod_key-after c m m' e = ground (arith, e)

mod_key-none : (c : ℕ) (m : ModKeys) → mod_key c m ≡ none → after c m ≡ m
unfolding mod_key
mod_key-none c m e = ground (arith, e)

and_right : (a b : Bool) → (a && b) ≡ true → b ≡ true
and_right true b e = e
and_right false b e = cc

same_mods :
    {x y : Effect} {a b : Keyboard}
    → ◌≡◌ {A = Option (Effect × Keyboard)} (some (x, a)) (some (y, b))
    → b.mod_keys ≡ a.mod_keys
same_mods {x} {y} {a} {b} e = let same : a ≡ b = cc in ap (λ (k : Keyboard). k.mod_keys) (sym same)

-- the function keys that switch consoles
range_keeps :
    (b : Bool) (c : ℕ) (m : ModKeys) → (b && leb 0x3b c && leb c 0x3e) ≡ true → after c m ≡ m
range_keeps b c m t =
    let low : 0x3b ≤ c = ground (arith, t) in
    let high : c ≤ 0x3e = ground (arith, t) in ground (arith, low, high)

callback_after :
    (present : ℕ → Bool) (c : ℕ) (k : Keyboard) {effect : Effect} {g : Keyboard}
    → keyboard_callback present c k ≡ some (effect, g)
    → g.mod_keys ≡ after c k.mod_keys
unfolding keyboard_callback
callback_after present c k {effect} {g} e =
    let m = k.mod_keys in
    elim (Bool-cases (c == 0xe0)) [
      | inl t ↦
          let is : c ≡ 0xe0 = ground (arith, t) in
          let kept : after c m ≡ m = rw is refl in same_mods (rw t at e) ∙ sym kept
      | inr p1 ↦ elim (Bool-cases (mods_are true false true m && (c == 0xd3))) [
        | inl t ↦
            let is : c ≡ 0xd3 =
              ground (arith, and_right (mods_are true false true m) (c == 0xd3) t) in
            let kept : after c m ≡ m = rw is refl in same_mods (rw (p1, t) at e) ∙ sym kept
        | inr p2 ↦ elim (Bool-cases (mods_are false false true m && leb 0x3b c && leb c 0x3e)) [
          | inl t ↦
              let kept : after c m ≡ m = range_keeps (mods_are false false true m) c m t in
              same_mods (rw (p1, p2, t) at e) ∙ sym kept
          | inr p3 ↦ elim (Option-cases (mod_key c m)) [
            | inr (m', em) ↦ same_mods (rw (p1, p2, p3, em) at e) ∙ mod_key-after c m m' em
            | inl none_of ↦
                let kept = sym (mod_key-none c m none_of) in
                elim (Option-cases (scroll_key c m)) [
                  | inr (effect', es) ↦ same_mods (rw (p1, p2, p3, none_of, es) at e) ∙ kept
                  | inl es ↦ elim (Bool-cases (char_of c m == 0)) [
                    | inl z ↦ same_mods (rw (p1, p2, p3, none_of, es, z) at e) ∙ kept
                    | inr nz ↦ elim (Option-cases (put_key (char_of c m) k.keybuffer)) [
                      | inl f ↦
                          let bad : ◌≡◌ {A = Option (Effect × Keyboard)} none (some (effect, g)) =
                            rw (p1, p2, p3, none_of, es, nz, f) at e in
                          cc
                      | inr (b, f) ↦ same_mods (rw (p1, p2, p3, none_of, es, nz, f) at e) ∙ kept
                    ]
                  ]
                ]
          ]
        ]
      ]
    ]

-- After any keys, as long as no call faults, Shift, Ctrl and Alt count as down exactly if the last
-- scancode of the key, of either Shift key for Shift, was one for going down, or there was none and
-- the key was down before.
pub presses-is_down :
    (present : ℕ → Bool) (keys : List ℕ) (k g : Keyboard)
    → presses present keys k ≡ some g
    → (g.mod_keys.shift ≡ is_down shift_down shift_up k.mod_keys.shift keys)
      × (g.mod_keys.ctrl ≡ is_down ctrl_down ctrl_up k.mod_keys.ctrl keys)
      × (g.mod_keys.alt ≡ is_down alt_down alt_up k.mod_keys.alt keys)
unfolding presses
presses-is_down present [] k g e = let same : g ≡ k = cc in rw same (refl, refl, refl)
presses-is_down present (c ∷ keys) k g e = elim (Option-cases (keyboard_callback present c k)) [
  | inl f ↦ let bad : none ≡ some g = rw f at e in cc
  | inr ((effect, k1), f) ↦
      let rest : presses present keys k1 ≡ some g = rw f at e in
      let m = callback_after present c k f in
      let (s, t, a) = presses-is_down present keys k1 g rest in
      (
        s ∙ ap (λ (x : ModKeys). is_down shift_down shift_up x.shift keys) m,
        t ∙ ap (λ (x : ModKeys). is_down ctrl_down ctrl_up x.ctrl keys) m,
        a ∙ ap (λ (x : ModKeys). is_down alt_down alt_up x.alt keys) m,
      )
]
