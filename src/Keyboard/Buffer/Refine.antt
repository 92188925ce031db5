-- ===== src/Keyboard/Buffer/Refine.antt =====
-- The ring buffer against the queue: its invariant, its contents, and the simulation.
use mathlib.Core.Path.{ap₂}
use os_simple.Base.{
  ℕ, zero, suc, ◌+◌, ◌-◌, ◌%◌, ◌≤◌, ◌<◌, ◌≡◌, refl, ap, ◌≢◌, List, [], ◌∷◌, ◌++◌, arith, length,
  update, update_ne, update_self,
}
use os_simple.Keyboard.Buffer.{
  KeyboardBuffer, BufferOp, put, get, flush, has_input, Reply, call, keyboard_buffer_put,
  keyboard_buffer_get, keyboard_has_input, keyboard_flush_buffer,
}
use os_simple.Keyboard.Buffer.Queue
use os_simple.Keyboard.Buffer.Queue.{Queue}

pub record IsValid (b : KeyboardBuffer) : Type 0 where
  pub tail_in : b.tail < 256
  pub count_in : b.count ≤ 256
  pub head_at : b.head ≡ (b.tail + b.count) % 256

-- The `n` characters from index `t` on, going round at 256.
abbrev pub window : (ℕ → ℕ) → ℕ → ℕ → Queue
window f t zero = []
window f t (suc n) = f t ∷ window f ((t + 1) % 256) n

abbrev pub contents : KeyboardBuffer → Queue
contents b = window b.buffer b.tail b.count

length-window : (f : ℕ → ℕ) (t n : ℕ) → length (window f t n) ≡ n
length-window f t zero = refl
length-window f t (suc n) = ap suc (length-window f ((t + 1) % 256) n)

pub length-contents : (b : KeyboardBuffer) → length (contents b) ≡ b.count
length-contents b = length-window b.buffer b.tail b.count

-- A write just past the window extends it by that character.
window-update :
    (f : ℕ → ℕ) (c n t i : ℕ)
    → t < 256
    → n < 256
    → i ≡ (t + n) % 256
    → window (update f i c) t (suc n) ≡ window f t n ++ (c ∷ [])
window-update f c zero t i ht hn e = let here : i ≡ t = omega arith in rw (here, update_self f t c)
window-update f c (suc n) t i ht hn e =
    ap₂ ◌∷◌ (update_ne f i t c (omega arith))
      (window-update f c n ((t + 1) % 256) i (omega arith) (omega arith) (omega arith))

pub window_of_pos :
    (f : ℕ → ℕ) (t n : ℕ) → n ≢ 0 → window f t n ≡ f t ∷ window f ((t + 1) % 256) (n - 1)
window_of_pos f t zero h = absurd (h refl)
window_of_pos f t (suc n) h = ap (λ k. f t ∷ window f ((t + 1) % 256) k) (omega arith)

-- The empty buffer that the functions leave behind is valid.
pub flush-IsValid : (b : KeyboardBuffer) → IsValid (keyboard_flush_buffer b)
unfolding keyboard_flush_buffer
flush-IsValid b = omega arith

pub put-IsValid : {b : KeyboardBuffer} (c : ℕ) → IsValid b → IsValid (keyboard_buffer_put b c).1
unfolding keyboard_buffer_put
put-IsValid c v = ground arith

pub get-IsValid : {b : KeyboardBuffer} → IsValid b → IsValid (keyboard_buffer_get b).1
unfolding keyboard_buffer_get
get-IsValid v = ground arith

pub put_refines :
    {b : KeyboardBuffer} (c : ℕ)
    → IsValid b
    → let (r, b') = keyboard_buffer_put b c in (r, contents b') ≡ Queue.accept (contents b) c
unfolding keyboard_buffer_put Queue.accept
put_refines {b} c v =
    ground (arith, length-contents b, window-update b.buffer c b.count b.tail b.head)

pub get_refines :
    {b : KeyboardBuffer}
    → IsValid b
    → let (c, b') = keyboard_buffer_get b in (c, contents b') ≡ Queue.take_oldest (contents b)
unfolding keyboard_buffer_get Queue.take_oldest
get_refines {b} v = ground (arith, window_of_pos b.buffer b.tail b.count)

pub has_input_refines : (b : KeyboardBuffer) → keyboard_has_input b ≡ Queue.nonempty (contents b)
unfolding keyboard_has_input Queue.nonempty
has_input_refines b = ground (arith, window_of_pos b.buffer b.tail b.count)

pub call-IsValid : {b : KeyboardBuffer} (op : BufferOp) → IsValid b → IsValid (call b op).1
unfolding call
call-IsValid (put c) v = put-IsValid c v
call-IsValid get v = get-IsValid v
call-IsValid {b} flush v = flush-IsValid b
call-IsValid has_input v = v

call_refines :
    {b : KeyboardBuffer} (op : BufferOp)
    → IsValid b
    → let (r, b') = call b op in (r, contents b') ≡ Queue.serve (contents b) op
unfolding call Queue.serve
call_refines (put c) v = ground (arith, put_refines c v)
call_refines get v = ground (arith, get_refines v)
call_refines {b} flush v = refl
call_refines {b} has_input v = ground (arith, has_input_refines b)

-- The replies to a sequence of calls.
unfoldable pub call_all : KeyboardBuffer → List BufferOp → List Reply
unfolding call
call_all b [] = []
call_all b (op ∷ ops) = let (r, b') = call b op in r ∷ call_all b' ops

-- From a valid buffer, any sequence of puts, gets, flushes and emptiness tests gets the replies
-- that the bounded queue of the buffer's contents gives.
pub call_all_refines :
    (ops : List BufferOp) {b : KeyboardBuffer}
    → IsValid b
    → call_all b ops ≡ Queue.serve_all (contents b) ops
unfolding call_all Queue.serve_all
call_all_refines [] v = refl
call_all_refines (op ∷ ops) v = rw (call_all_refines ops (call-IsValid op v), ← call_refines op v)
