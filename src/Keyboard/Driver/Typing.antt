-- ===== src/Keyboard/Driver/Typing.antt =====
-- What typing on the keyboard puts into the buffer, and what a reader gets.
use mathlib.Core.List.{head?}
use mathlib.Core.Option
use os_simple.Base.{
  ℕ, ◌≤◌, ◌≡◌, refl, sym, ap, ◌∙◌, Bool, true, false, not, ◌||◌, List, [], ◌∷◌, ◌++◌, some, ◌==◌,
  leb, bit_and, if◌then◌else◌, length, take, take_all, take_long, take-take-append, length-append,
  append-nil, append_assoc, arith, inl, inr, Bool-cases, leb→le,
}
use os_simple.Keyboard.Buffer.{
  KeyboardBuffer, keyboard_buffer_put, keyboard_buffer_get, keyboard_buffer_is_empty,
}
use os_simple.Keyboard.Buffer.Queue
use os_simple.Keyboard.Buffer.Refine.{
  IsValid, contents, length-contents, put-IsValid, put_refines, window_of_pos,
}
use os_simple.Keyboard.Keys.{
  KeyboardState, is_special_key, handle_special_key, handle_key_release, scancode_to_ascii,
}
use os_simple.Keyboard.Driver.{
  Keyboard, handle_key_press, keyboard_interrupt, keyboard_interrupts, keyboard_getchar,
}

abbrev pub is_release : ℕ → Bool
is_release d = not (bit_and d 0x80 == 0)

abbrev pub key_of : ℕ → ℕ
key_of d = bit_and d 0x7f

-- The modifiers after the byte `d`.
unfoldable pub modifiers_after : KeyboardState → ℕ → KeyboardState
modifiers_after m d =
    if is_release d
    then handle_key_release m (key_of d)
    else (if is_special_key (key_of d) then handle_special_key m (key_of d) else m)

-- The characters, at most one, that the byte `d` stands for.
unfoldable pub typed_by : KeyboardState → ℕ → List ℕ
typed_by m d =
    if is_release d || is_special_key (key_of d)
    then []
    else (let c = scancode_to_ascii m (key_of d) in if c == 0 then [] else c ∷ [])

-- The text that a sequence of bytes types, from the modifiers `m`.
unfoldable pub typed : KeyboardState → List ℕ → List ℕ
unfolding modifiers_after typed_by
typed m [] = []
typed m (d ∷ ds) = typed_by m d ++ typed (modifiers_after m d) ds

pub state-keyboard_interrupt :
    (k : Keyboard) (d : ℕ) → (keyboard_interrupt k d).0.state ≡ modifiers_after k.state d
unfolding keyboard_interrupt handle_key_press modifiers_after
state-keyboard_interrupt k d = ground arith

pub keyboard_interrupt-IsValid :
    (k : Keyboard) (d : ℕ) → IsValid k.buffer → IsValid (keyboard_interrupt k d).0.buffer
unfolding keyboard_interrupt handle_key_press
keyboard_interrupt-IsValid k d v =
    ground (arith, put-IsValid {b = k.buffer} (scancode_to_ascii k.state (key_of d)) v)

accept-take :
    (q : List ℕ) (c : ℕ) → length q ≤ 256 → (Queue.accept q c).1 ≡ take 256 (q ++ (c ∷ []))
unfolding Queue.accept
accept-take q c h = elim (Bool-cases (leb 256 (length q))) [
  | inl full ↦ rw (full, take_long 256 q (c ∷ []) (leb→le _ _ full)) (sym (take_all 256 q h))
  | inr room ↦
      rw room (sym (take_all 256 (q ++ (c ∷ [])) (ground (arith, length-append q (c ∷ [])))))
]

contents-put :
    (b : KeyboardBuffer) (c : ℕ)
    → IsValid b
    → contents (keyboard_buffer_put b c).1 ≡ take 256 (contents b ++ (c ∷ []))
contents-put b c v =
    ap (λ p. p.1) (put_refines c v) ∙ accept-take (contents b) c (omega (arith, length-contents b))

contents_kept : (b : KeyboardBuffer) → IsValid b → contents b ≡ take 256 (contents b ++ [])
contents_kept b v =
    rw append-nil (sym (take_all 256 (contents b) (omega (arith, length-contents b))))

contents-keyboard_interrupt :
    (k : Keyboard) (d : ℕ)
    → IsValid k.buffer
    → contents (keyboard_interrupt k d).0.buffer
      ≡ take 256 (contents k.buffer ++ typed_by k.state d)
unfolding keyboard_interrupt handle_key_press typed_by
contents-keyboard_interrupt k d v = elim (Bool-cases (is_release d)) [
  | inl up ↦ rw up (contents_kept k.buffer v)
  | inr down ↦ rw down (elim (Bool-cases (is_special_key (key_of d))) [
    | inl special ↦ rw special (contents_kept k.buffer v)
    | inr plain ↦ rw plain (elim (Bool-cases (scancode_to_ascii k.state (key_of d) == 0)) [
      | inl dead ↦ rw dead (contents_kept k.buffer v)
      | inr live ↦
          rw live
            (elim (Bool-cases
              (keyboard_buffer_put k.buffer (scancode_to_ascii k.state (key_of d))).0) [
                | inl stored ↦ rw stored (contents-put k.buffer _ v)
                | inr full ↦ rw full (contents-put k.buffer _ v)
              ])
    ])
  ])
]

pub keyboard_interrupts-IsValid :
    (k : Keyboard) (ds : List ℕ) → IsValid k.buffer → IsValid (keyboard_interrupts k ds).buffer
unfolding keyboard_interrupts
keyboard_interrupts-IsValid k [] v = v
keyboard_interrupts-IsValid k (d ∷ ds) v =
    keyboard_interrupts-IsValid (keyboard_interrupt k d).0 ds (keyboard_interrupt-IsValid k d v)

-- From a valid buffer, after any sequence of keyboard interrupts with no read between, the buffer
-- holds the first 256 characters of what it held followed by the text typed.
pub contents-keyboard_interrupts :
    (k : Keyboard) (ds : List ℕ)
    → IsValid k.buffer
    → contents (keyboard_interrupts k ds).buffer ≡ take 256 (contents k.buffer ++ typed k.state ds)
unfolding keyboard_interrupts typed
contents-keyboard_interrupts k [] v = contents_kept k.buffer v
contents-keyboard_interrupts k (d ∷ ds) v =
    contents-keyboard_interrupts (keyboard_interrupt k d).0 ds (keyboard_interrupt-IsValid k d v)
    ∙ rw (
      state-keyboard_interrupt k d,
      contents-keyboard_interrupt k d v,
      take-take-append,
      append_assoc,
    )

head?-take : (xs ys : List ℕ) → head? (take 256 xs ++ ys) ≡ head? (xs ++ ys)
head?-take [] ys = refl
head?-take (x ∷ xs) ys = refl

nothing_held : (b : KeyboardBuffer) → keyboard_buffer_is_empty b ≡ true → contents b ≡ []
unfolding keyboard_buffer_is_empty
nothing_held b e = let none_left : b.count ≡ 0 = ground arith in rw none_left

head-held :
    (b : KeyboardBuffer) (ys : List ℕ)
    → IsValid b
    → keyboard_buffer_is_empty b ≡ false
    → some (keyboard_buffer_get b).0 ≡ head? (contents b ++ ys)
unfolding keyboard_buffer_is_empty keyboard_buffer_get
head-held b ys v e = ground (arith, window_of_pos b.buffer b.tail b.count)

-- From a valid buffer, a read returns the oldest character held or, when there is none, the first
-- one typed by the interrupts to come; it goes on waiting exactly when there is neither.
pub keyboard_getchar_lem :
    (k : Keyboard) (ds : List ℕ)
    → IsValid k.buffer
    → Option.map (λ r. r.0) (keyboard_getchar k ds) ≡ head? (contents k.buffer ++ typed k.state ds)
unfolding keyboard_getchar typed
keyboard_getchar_lem k [] v = elim (Bool-cases (keyboard_buffer_is_empty k.buffer)) [
  | inl e ↦ rw (e, nothing_held k.buffer e)
  | inr e ↦ rw e (head-held k.buffer [] v e)
]
keyboard_getchar_lem k (d ∷ ds) v = elim (Bool-cases (keyboard_buffer_is_empty k.buffer)) [
  | inl e ↦ rw e (
      keyboard_getchar_lem (keyboard_interrupt k d).0 ds (keyboard_interrupt-IsValid k d v)
      ∙ rw (state-keyboard_interrupt k d, contents-keyboard_interrupt k d v)
          (head?-take (contents k.buffer ++ typed_by k.state d) _
            ∙ ap head? (append_assoc (contents k.buffer) _ _)))
  | inr e ↦ rw e (head-held k.buffer _ v e)
]
