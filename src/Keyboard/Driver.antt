-- ===== src/Keyboard/Driver.antt =====
-- kernel/keyboard.c: the interrupt handler, reading with a wait, and the controller's ports.
pub mod Typing
pub mod Modifiers
pub mod Counts
use os_simple.Base.{
  ℕ, ◌%◌, Bool, true, false, not, ◌||◌, List, [], ◌∷◌, Option, none, some, ◌==◌, bit_and,
  if◌then◌else◌, add32,
}
use os_simple.Base.Effects.{Effect, outb, print_string, print_number}
use os_simple.Interrupt.Handlers.{
  Handler, keyboard_interrupt_handler, Handlers, register_interrupt_handler,
}
use os_simple.Keyboard.Buffer.{
  KeyboardBuffer, keyboard_buffer_put, keyboard_buffer_get, keyboard_buffer_is_empty,
  keyboard_flush_buffer,
}
use os_simple.Keyboard.Keys.{
  KeyboardState, is_special_key, handle_special_key, handle_key_release, scancode_to_ascii,
}

pub record KeyboardStats : Type 0 where
  pub total_keypresses : ℕ
  pub total_releases : ℕ
  pub special_keys : ℕ
  pub buffer_overflows : ℕ
  pub invalid_scancodes : ℕ

-- The three static variables of the driver.
pub record Keyboard : Type 0 where
  pub state : KeyboardState
  pub buffer : KeyboardBuffer
  pub stats : KeyboardStats

abbrev pub no_modifiers : KeyboardState
no_modifiers = record {
  shift_pressed = false;
  ctrl_pressed = false;
  alt_pressed = false;
  caps_lock = false;
  num_lock = false;
  scroll_lock = false;
}

abbrev pub no_stats : KeyboardStats
no_stats = record {
  total_keypresses = 0;
  total_releases = 0;
  special_keys = 0;
  buffer_overflows = 0;
  invalid_scancodes = 0;
}

unfoldable pub init_keyboard : Keyboard → Handlers → Keyboard × Handlers × List Effect
unfolding register_interrupt_handler
init_keyboard k t = (
  record {
    state = no_modifiers;
    buffer = record k.buffer { head = 0; tail = 0; count = 0 };
    stats = no_stats;
  },
  register_interrupt_handler t 33 keyboard_interrupt_handler,
  print_string "[KEYBOARD] Keyboard initialized\n" ∷ [],
)

abbrev pub count_special : KeyboardStats → KeyboardStats
count_special s = record s { special_keys = add32 s.special_keys 1 }

abbrev pub count_overflow : KeyboardStats → KeyboardStats
count_overflow s = record s { buffer_overflows = add32 s.buffer_overflows 1 }

abbrev pub count_invalid : KeyboardStats → KeyboardStats
count_invalid s = record s { invalid_scancodes = add32 s.invalid_scancodes 1 }

unfoldable pub handle_key_press : Keyboard → ℕ → Keyboard
handle_key_press k s =
    if is_special_key s
    then record k { state = handle_special_key k.state s; stats = count_special k.stats }
    else (let ascii = scancode_to_ascii k.state s in
        let (stored, b) = keyboard_buffer_put k.buffer ascii in
        if not (ascii == 0)
        then (if not stored
            then record k { buffer = b; stats = count_overflow k.stats }
            else record k { buffer = b })
        else record k { stats = count_invalid k.stats })

-- `input` is the byte that the data port gives.
unfoldable pub keyboard_interrupt : Keyboard → ℕ → Keyboard × List Effect
keyboard_interrupt k input =
    let key_released = not (bit_and input 0x80 == 0) in
    let scancode = bit_and input 0x7f in
    let k' =
      if key_released
      then record k {
        stats = record k.stats { total_releases = add32 k.stats.total_releases 1 };
        state = handle_key_release k.state scancode;
      }
      else handle_key_press
          (record k {
            stats = record k.stats { total_keypresses = add32 k.stats.total_keypresses 1 };
          })
          scancode in
    (k', outb 0x20 0x20 ∷ [])

-- The bytes of a sequence of keyboard interrupts, handled in order.
unfoldable pub keyboard_interrupts : Keyboard → List ℕ → Keyboard
keyboard_interrupts k [] = k
keyboard_interrupts k (d ∷ ds) = keyboard_interrupts (keyboard_interrupt k d).0 ds

-- `keyboard_getchar` halts until an interrupt while the buffer is empty. The list holds the bytes of
-- the keyboard interrupts to come; `none` is a wait that goes on. The result is the character, the
-- driver's state, and the interrupts still to come.
unfoldable pub keyboard_getchar : Keyboard → List ℕ → Option (ℕ × Keyboard × List ℕ)
keyboard_getchar k [] =
    if keyboard_buffer_is_empty k.buffer
    then none
    else (let (c, b) = keyboard_buffer_get k.buffer in some (c, record k { buffer = b }, []))
keyboard_getchar k (d ∷ ds) =
    let wait = keyboard_getchar (keyboard_interrupt k d).0 ds in
    if keyboard_buffer_is_empty k.buffer
    then wait
    else (let (c, b) = keyboard_buffer_get k.buffer in some (c, record k { buffer = b }, d ∷ ds))

-- The status bytes that the controller will give; the result is what is left of them after the
-- loop, or `none` while the input register stays full.
unfoldable pub wait_for_keyboard : List ℕ → Option (List ℕ)
wait_for_keyboard [] = none
wait_for_keyboard (status ∷ more) =
    let again = wait_for_keyboard more in
    if not (bit_and status 0x02 == 0) then again else some more

unfoldable pub send_keyboard_command : List ℕ → ℕ → Option (List ℕ × List Effect)
unfolding wait_for_keyboard
send_keyboard_command statuses cmd = elim (wait_for_keyboard statuses) [
  | none ↦ none
  | some more ↦ some (more, outb 0x64 cmd ∷ [])
]

abbrev pub on_off : Bool → Effect
on_off true = print_string "ON"
on_off false = print_string "OFF"

unfoldable pub print_keyboard_stats : Keyboard → List Effect
print_keyboard_stats k =
    print_string "\n=== Keyboard Statistics ===\n"
    ∷ print_string "Total keypresses: "
    ∷ print_number k.stats.total_keypresses
    ∷ print_string "\nTotal releases: "
    ∷ print_number k.stats.total_releases
    ∷ print_string "\nSpecial keys: "
    ∷ print_number k.stats.special_keys
    ∷ print_string "\nBuffer overflows: "
    ∷ print_number k.stats.buffer_overflows
    ∷ print_string "\nInvalid scancodes: "
    ∷ print_number k.stats.invalid_scancodes
    ∷ print_string "\nBuffer count: "
    ∷ print_number k.buffer.count
    ∷ print_string "\n\nKeyboard state:\n"
    ∷ print_string "Shift: "
    ∷ on_off k.state.shift_pressed
    ∷ print_string " | Ctrl: "
    ∷ on_off k.state.ctrl_pressed
    ∷ print_string " | Alt: "
    ∷ on_off k.state.alt_pressed
    ∷ print_string "\nCaps: "
    ∷ on_off k.state.caps_lock
    ∷ print_string "\n"
    ∷ []
