-- ===== src/Keyboard/Driver/Modifiers.antt =====
-- How long a Shift key counts as held.
use os_simple.Base.{
  ℕ, ◌≡◌, refl, ◌∙◌, Bool, true, false, not, ◌&&◌, List, [], ◌∷◌, ◌++◌, if◌then◌else◌, arith,
}
use os_simple.Keyboard.Keys.{is_shift, is_special_key, handle_special_key, handle_key_release}
use os_simple.Keyboard.Driver.{Keyboard, keyboard_interrupt, keyboard_interrupts}
use os_simple.Keyboard.Driver.Typing.{is_release, key_of, modifiers_after, state-keyboard_interrupt}

-- The byte that reports a Shift key going up, or down.
abbrev pub shift_up : ℕ → Bool
shift_up d = is_release d && is_shift (key_of d)

abbrev pub shift_down : ℕ → Bool
shift_down d = not (is_release d) && is_shift (key_of d)

-- No byte of the list passes the test.
abbrev pub Lacks : (ℕ → Bool) → List ℕ → Type 0
Lacks p [] = Unit {0}
Lacks p (d ∷ ds) = (p d ≡ false) × Lacks p ds

abbrev shift_of : Keyboard → Bool
shift_of k = k.state.shift_pressed

shift_step :
    (k : Keyboard) (d : ℕ)
    → shift_of (keyboard_interrupt k d).0
      ≡ (if shift_up d then false else if shift_down d then true else shift_of k)
unfolding modifiers_after is_special_key handle_special_key handle_key_release
shift_step k d = rw (state-keyboard_interrupt k d, shift_of) (ground arith)

keyboard_interrupts-append :
    (k : Keyboard) (xs ys : List ℕ)
    → keyboard_interrupts k (xs ++ ys) ≡ keyboard_interrupts (keyboard_interrupts k xs) ys
unfolding keyboard_interrupts
keyboard_interrupts-append k [] ys = refl
keyboard_interrupts-append k (d ∷ xs) ys =
    keyboard_interrupts-append (keyboard_interrupt k d).0 xs ys

stays_down :
    (k : Keyboard) (ds : List ℕ)
    → Lacks shift_up ds
    → shift_of k ≡ true
    → shift_of (keyboard_interrupts k ds) ≡ true
unfolding keyboard_interrupts
stays_down k [] h e = e
stays_down k (d ∷ ds) h e =
    stays_down (keyboard_interrupt k d).0 ds h.1 (rw (shift_step k d, h.0, e) (ground arith))

stays_up :
    (k : Keyboard) (ds : List ℕ)
    → Lacks shift_down ds
    → shift_of k ≡ false
    → shift_of (keyboard_interrupts k ds) ≡ false
unfolding keyboard_interrupts
stays_up k [] h e = e
stays_up k (d ∷ ds) h e =
    stays_up (keyboard_interrupt k d).0 ds h.1 (rw (shift_step k d, h.0, e) (ground arith))

-- After any interrupts, Shift counts as held from the press of either Shift key until a release of
-- either.
pub shift_held :
    (k : Keyboard) (xs ys : List ℕ) (d : ℕ)
    → shift_down d ≡ true
    → Lacks shift_up ys
    → (keyboard_interrupts k (xs ++ d ∷ ys)).state.shift_pressed ≡ true
unfolding keyboard_interrupts
shift_held k xs ys d down h = rw (keyboard_interrupts-append k xs (d ∷ ys)) (
    stays_down (keyboard_interrupt (keyboard_interrupts k xs) d).0 ys h
      (shift_step (keyboard_interrupts k xs) d ∙ ground arith))

-- After any interrupts, the release of either Shift key ends the effect of both, until one is
-- pressed.
pub shift_released :
    (k : Keyboard) (xs ys : List ℕ) (d : ℕ)
    → shift_up d ≡ true
    → Lacks shift_down ys
    → (keyboard_interrupts k (xs ++ d ∷ ys)).state.shift_pressed ≡ false
unfolding keyboard_interrupts
shift_released k xs ys d up h = rw (keyboard_interrupts-append k xs (d ∷ ys)) (
    stays_up (keyboard_interrupt (keyboard_interrupts k xs) d).0 ys h
      (shift_step (keyboard_interrupts k xs) d ∙ ground arith))
