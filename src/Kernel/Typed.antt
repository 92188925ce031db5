-- ===== src/Kernel/Typed.antt =====
-- The characters printed, and the text typed by a sequence of bytes.
use os_simple.Base.{
  ℕ, ◌≤◌, ◌≡◌, refl, ap, sym, ◌∙◌, List, [], ◌∷◌, ◌++◌, length, length-append, append_assoc, arith,
}
use os_simple.Base.Effects.{
  Effect, outb, clear_screen, print_string, print_bytes, print_name, print_char, print_hex,
  print_number,
}
use os_simple.Keyboard.Keys.{KeyboardState}
use os_simple.Keyboard.Driver.{Keyboard, keyboard_interrupt, keyboard_interrupts}
use os_simple.Keyboard.Driver.Typing.{typed, typed_by, modifiers_after, state-keyboard_interrupt}

-- The characters that `print_char` is called with.
abbrev pub printed : List Effect → List ℕ
printed [] = []
printed (print_char c ∷ out) = c ∷ printed out
printed (e ∷ out) = printed out

pub printed-append : (out more : List Effect) → printed (out ++ more) ≡ printed out ++ printed more
printed-append [] more = refl
printed-append (print_char c ∷ out) more = ap (λ cs. c ∷ cs) (printed-append out more)
printed-append (outb p v ∷ out) more = printed-append out more
printed-append (clear_screen ∷ out) more = printed-append out more
printed-append (print_string t ∷ out) more = printed-append out more
printed-append (print_bytes t ∷ out) more = printed-append out more
printed-append (print_name t ∷ out) more = printed-append out more
printed-append (print_hex n ∷ out) more = printed-append out more
printed-append (print_number n ∷ out) more = printed-append out more

-- The modifiers after a sequence of bytes.
abbrev pub modified : KeyboardState → List ℕ → KeyboardState
modified m [] = m
modified m (d ∷ ds) = modified (modifiers_after m d) ds

pub state-keyboard_interrupts :
    (k : Keyboard) (ds : List ℕ) → (keyboard_interrupts k ds).state ≡ modified k.state ds
unfolding keyboard_interrupts
state-keyboard_interrupts k [] = refl
state-keyboard_interrupts k (d ∷ ds) =
    state-keyboard_interrupts (keyboard_interrupt k d).0 ds
    ∙ ap (λ m. modified m ds) (state-keyboard_interrupt k d)

pub typed-append :
    (m : KeyboardState) (xs ys : List ℕ)
    → typed m (xs ++ ys) ≡ typed m xs ++ typed (modified m xs) ys
unfolding typed
typed-append m [] ys = refl
typed-append m (d ∷ xs) ys =
    ap (λ cs. typed_by m d ++ cs) (typed-append (modifiers_after m d) xs ys)
    ∙ sym (append_assoc (typed_by m d) _ _)

length-typed_by : (m : KeyboardState) (d : ℕ) → length (typed_by m d) ≤ 1
unfolding typed_by
length-typed_by m d = ground arith

pub length-typed : (m : KeyboardState) (ds : List ℕ) → length (typed m ds) ≤ length ds
unfolding typed
length-typed m [] = omega arith
length-typed m (d ∷ ds) =
    let head = length-typed_by m d in
    let tail = length-typed (modifiers_after m d) ds in rw length-append (omega arith)
