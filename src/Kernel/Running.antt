-- ===== src/Kernel/Running.antt =====
-- `kernel_main` from the moment that it enables interrupts.
use Prim.Native.String.{String}
use os_simple.Base.{
  ℕ, zero, suc, ◌≡◌, refl, true, false, List, [], ◌∷◌, inl, inr, Bool-cases, arith,
}
use os_simple.Base.Outcome.{Returns, after_effects-Returns, bind-Returns}
use os_simple.Interrupt.Handlers.{keyboard_interrupt_handler}
use os_simple.Memory.Manager.{Memory, kmalloc, kfree}
use os_simple.Memory.Manager.Invariant as Heap
use os_simple.Memory.Manager.Requests.{kmalloc-IsValid, kfree-IsValid}
use os_simple.Keyboard.Buffer.{
  keyboard_flush_buffer, keyboard_has_input, keyboard_buffer_get, keyboard_buffer_is_empty,
}
use os_simple.Keyboard.Buffer.Refine as Buffer
use os_simple.Keyboard.Driver.{Keyboard, init_keyboard, keyboard_getchar}
use os_simple.Kernel.{Kernel}
use os_simple.Kernel.Boot.{
  Image, Arrival, deliver, echoed, test_round, test_rounds, allocate_three, ready_texts,
  memory_report, keyboard_texts, with_driver, test_memory, test_keyboard, self_test, main_round,
  main_rounds, start_up, kernel_main,
}
use os_simple.Kernel.Messages.{blocks_allocated, second_block_freed}
use os_simple.Kernel.Invariant.{IsKernel, AllLines, deliver-IsKernel}
use os_simple.Kernel.Lines.{register-calm, register-enters}
use os_simple.Kernel.StartUp.{IsLoaded, IsStarted, start_up-IsStarted}

-- Changing one component for another in order.
pub with_memory :
    (k : Kernel) (m : Memory) → Heap.IsValid m → IsKernel k → IsKernel (record k { memory = m })
with_memory k m h v = record {
  listed = v.listed;
  keyboard = v.keyboard;
  memory = h;
  calls = v.calls;
  lines = v.lines;
  entry = v.entry;
}

with_keyboard :
    (k : Kernel) (b : Keyboard)
    → Buffer.IsValid b.buffer
    → IsKernel k
    → IsKernel (record k { keyboard = b })
with_keyboard k b h v = record {
  listed = v.listed;
  keyboard = h;
  memory = v.memory;
  calls = v.calls;
  lines = v.lines;
  entry = v.entry;
}

-- Where a character waits, `keyboard_getchar` does not.
pub echoed-IsKernel :
    (text : String) (k : Kernel)
    → keyboard_has_input k.keyboard.buffer ≡ true
    → IsKernel k
    → Returns (echoed text k (keyboard_getchar k.keyboard [])) IsKernel
unfolding keyboard_has_input keyboard_getchar
echoed-IsKernel text k waits v =
    let full : keyboard_buffer_is_empty k.keyboard.buffer ≡ false = ground arith in
    rw full (
      with_keyboard k (record k.keyboard { buffer = (keyboard_buffer_get k.keyboard.buffer).1 })
        (Buffer.get-IsValid v.keyboard) v)

pub test_round-IsKernel : (k : Kernel) → IsKernel k → Returns (test_round k) IsKernel
unfolding test_round
test_round-IsKernel k v = elim (Bool-cases (keyboard_has_input k.keyboard.buffer)) [
  | inl waits ↦ rw waits (echoed-IsKernel "You pressed: " k waits v)
  | inr empty ↦ rw empty v
]

-- The interrupts that arrive at each point of a run are of the eight lines.
abbrev pub AllPoints : (ℕ → List Arrival) → Type 0
AllPoints arrivals = (point : ℕ) → AllLines (arrivals point)

test_rounds-IsKernel :
    (left : ℕ) (image : Image) (arrivals : ℕ → List Arrival) (k : Kernel)
    → AllPoints arrivals
    → IsKernel k
    → Returns (test_rounds left image arrivals k) IsKernel
unfolding test_rounds
test_rounds-IsKernel zero image arrivals k l v = v
test_rounds-IsKernel (suc left) image arrivals k l v =
    bind-Returns IsKernel IsKernel (test_round k) _ (test_round-IsKernel k v) (λ k1 v1.
      bind-Returns IsKernel IsKernel (deliver image (arrivals left) k1) _
        (deliver-IsKernel image (arrivals left) k1 (l left) v1)
        (λ k2 v2. test_rounds-IsKernel left image arrivals k2 l v2))

pub allocate_three-IsValid : (m : Memory) → Heap.IsValid m → Heap.IsValid (allocate_three m).1
unfolding allocate_three
allocate_three-IsValid m v =
    let first = kmalloc-IsValid m 1024 (omega arith) v in
    let second = kmalloc-IsValid (kmalloc m 1024).1 2048 (omega arith) first in
    kmalloc-IsValid (kmalloc (kmalloc m 1024).1 2048).1 512 (omega arith) second

pub test_memory-IsKernel :
    (image : Image) (arrivals : ℕ → List Arrival) (k : Kernel)
    → AllPoints arrivals
    → IsKernel k
    → Returns (test_memory image arrivals k) IsKernel
unfolding test_memory
test_memory-IsKernel image arrivals k l v =
    let taken = allocate_three k.memory in
    let k0 : Kernel = record k { memory = taken.1 } in
    let v0 = with_memory k taken.1 (allocate_three-IsValid k.memory v.memory) v in
    after_effects-Returns IsKernel ready_texts _ (
      after_effects-Returns IsKernel (memory_report blocks_allocated taken.1) _ (
        bind-Returns IsKernel IsKernel (deliver image (arrivals 0) k0) _
          (deliver-IsKernel image (arrivals 0) k0 (l 0) v0)
          (λ k1 v1.
            let freed = kfree k1.memory taken.0 in
            after_effects-Returns IsKernel (memory_report second_block_freed freed) _ (
              deliver-IsKernel image (arrivals 1) (record k1 { memory = freed }) (l 1)
                (with_memory k1 freed (kfree-IsValid k1.memory taken.0 v1.memory) v1)))))

-- `init_keyboard` empties the buffer and gives the line of the keyboard to the driver.
pub with_driver-IsKernel :
    (k : Kernel)
    → IsKernel k
    → IsKernel (with_driver k (init_keyboard k.keyboard k.interrupts.interrupt_handlers))
unfolding init_keyboard keyboard_flush_buffer
with_driver-IsKernel k v = record {
  listed = v.listed;
  keyboard = Buffer.flush-IsValid k.keyboard.buffer;
  memory = v.memory;
  calls = v.calls;
  lines = λ n low high.
      register-calm k.interrupts.interrupt_handlers 33 keyboard_interrupt_handler n (inr refl)
        (v.lines n low high);
  entry = λ n small other.
      register-enters k.interrupts.interrupt_handlers 33 keyboard_interrupt_handler n (inr refl)
        (v.entry n small other);
}

test_keyboard-IsKernel :
    (image : Image) (arrivals : ℕ → List Arrival) (k : Kernel)
    → AllPoints arrivals
    → IsKernel k
    → Returns (test_keyboard image arrivals k) IsKernel
unfolding test_keyboard
test_keyboard-IsKernel image arrivals k l v =
    let driver = init_keyboard k.keyboard k.interrupts.interrupt_handlers in
    let k0 : Kernel = with_driver k driver in
    after_effects-Returns IsKernel driver.2 _ (
      after_effects-Returns IsKernel keyboard_texts _ (
        bind-Returns IsKernel IsKernel (deliver image (arrivals 5) k0) _
          (deliver-IsKernel image (arrivals 5) k0 (l 5) (with_driver-IsKernel k v))
          (λ k1 v1.
            bind-Returns IsKernel IsKernel (test_rounds 5 image arrivals k1) _
              (test_rounds-IsKernel 5 image arrivals k1 l v1) (λ k2 v2. v2))))

main_round-IsKernel :
    (image : Image) (arrivals : List Arrival) (k : Kernel)
    → AllLines arrivals
    → IsKernel k
    → Returns (main_round image arrivals k) IsKernel
unfolding main_round
main_round-IsKernel image arrivals k l v =
    elim (Bool-cases (keyboard_has_input k.keyboard.buffer)) [
      | inl waits ↦ rw waits (
          bind-Returns IsKernel IsKernel (echoed "Input: " k (keyboard_getchar k.keyboard [])) _
            (echoed-IsKernel "Input: " k waits v)
            (λ k1 v1. deliver-IsKernel image arrivals k1 l v1))
      | inr empty ↦ rw empty (
          after_effects-Returns IsKernel [] (deliver image arrivals k)
            (deliver-IsKernel image arrivals k l v))
    ]

abbrev pub AllRounds : List (List Arrival) → Type 0
AllRounds [] = Unit {0}
AllRounds (arrivals ∷ more) = AllLines arrivals × AllRounds more

-- In a kernel in order, any number of rounds of the loop, with any interrupts of the eight lines,
-- come to their end and leave the kernel in order.
pub main_rounds-IsKernel :
    (image : Image) (rounds : List (List Arrival)) (k : Kernel)
    → AllRounds rounds
    → IsKernel k
    → Returns (main_rounds image rounds k) IsKernel
unfolding main_rounds
main_rounds-IsKernel image [] k l v = v
main_rounds-IsKernel image (arrivals ∷ more) k l v =
    bind-Returns IsKernel IsKernel (main_round image arrivals k) _
      (main_round-IsKernel image arrivals k l.0 v)
      (λ k1 v1. main_rounds-IsKernel image more k1 l.1 v1)

-- With contexts that have the number of one of the eight lines, `kernel_main` goes through any number
-- of rounds of its loop and leaves every component in order.
kernel_main-IsKernel :
    (image : Image) (early late : ℕ → List Arrival) (rounds : List (List Arrival)) (k : Kernel)
    → IsLoaded k
    → AllPoints early
    → AllPoints late
    → AllRounds rounds
    → Returns (kernel_main image early late rounds k) IsKernel
unfolding kernel_main self_test
kernel_main-IsKernel image early late rounds k v le ll lr =
    bind-Returns IsStarted IsKernel (start_up image k) _ (start_up-IsStarted image k v) (λ k1 v1.
      bind-Returns IsKernel IsKernel (self_test image early late k1) _
        (bind-Returns IsKernel IsKernel (test_memory image early k1) _
          (test_memory-IsKernel image early k1 le v1.order)
          (λ k2 v2. test_keyboard-IsKernel image late k2 ll v2))
        (λ k3 v3. main_rounds-IsKernel image rounds k3 lr v3))
