-- ===== src/Keyboard/Examples.antt =====
-- The keyboard's theorems on small inputs: the keys A, B and Shift.
use os_simple.Base.{ℕ, ◌≡◌, ◌++◌, List, [], ◌∷◌, take, arith}
use os_simple.Keyboard.Buffer.{
  keyboard_buffer_is_empty, KeyboardBuffer, keyboard_buffer_put, BufferOp, put, get, flush,
  has_input,
}
use os_simple.Keyboard.Buffer.Queue
use os_simple.Keyboard.Buffer.Interleaving.{
  after_tail, interrupted_get, put_then_get, interrupted_get-ordered,
}
use os_simple.Keyboard.Buffer.Refine.{IsValid, put-IsValid, contents, call_all, call_all_refines}
use os_simple.Keyboard.Driver.{Keyboard, no_modifiers, no_stats, keyboard_interrupts}
use os_simple.Keyboard.Driver.Typing.{typed, contents-keyboard_interrupts}

abbrev empty : KeyboardBuffer
empty = record { buffer = λ i. 0; head = 0; tail = 0; count = 0 }

abbrev pub idle : Keyboard
idle = record { state = no_modifiers; buffer = empty; stats = no_stats }

pub empty-IsValid : IsValid empty
empty-IsValid = omega arith

abbrev ops : List BufferOp
ops = put 97 ∷ put 98 ∷ get ∷ has_input ∷ flush ∷ get ∷ []

call_all_refines_example : call_all empty ops ≡ Queue.serve_all (contents empty) ops
call_all_refines_example = call_all_refines ops empty-IsValid

-- Shift, A, the release of Shift, B.
abbrev keys : List ℕ
keys = 0x2A ∷ 0x1E ∷ 0xAA ∷ 0x30 ∷ []

contents-keyboard_interrupts_example :
    contents (keyboard_interrupts idle keys).buffer
    ≡ take 256 (contents empty ++ typed no_modifiers keys)
contents-keyboard_interrupts_example = contents-keyboard_interrupts idle keys empty-IsValid

-- The buffer with the character `a`, whose read is interrupted by `b`.
abbrev holding : KeyboardBuffer
holding = (keyboard_buffer_put empty 97).1

interrupted_get-ordered_example : interrupted_get after_tail 98 holding ≡ put_then_get 98 holding
unfolding keyboard_buffer_put keyboard_buffer_is_empty
interrupted_get-ordered_example =
    interrupted_get-ordered after_tail 98 holding (put-IsValid 97 empty-IsValid)
