-- ===== src/Kernel/Echo.antt =====
-- What the loop of `kernel_main` prints of the keys that are typed.
use os_simple.Base.{
  suc, true, ◌-◌, ℕ, ◌+◌, ◌-◌, ◌≤◌, ◌≡◌, refl, ap, sym, ◌∙◌, false, List, [], ◌∷◌, if◌then◌else◌,
  inl, inr, Bool-cases, length, append-nil, arith,
}
use os_simple.Base.Effects.{print_string, print_char}
use os_simple.Base.Outcome.{Outcome, returns}
use os_simple.Keyboard.Buffer.{
  KeyboardBuffer, keyboard_has_input, keyboard_buffer_get, keyboard_buffer_is_empty,
}
use os_simple.Keyboard.Buffer.Refine as Buffer
use os_simple.Keyboard.Buffer.Refine.{contents}
use os_simple.Keyboard.Driver.{keyboard_getchar}
use os_simple.Keyboard.Driver.Typing.{typed}
use os_simple.Kernel.{Kernel}
use os_simple.Kernel.Boot.{Image, Arrival, deliver, echoed, main_round, main_rounds}
use os_simple.Kernel.Echoing.{
  AllKeyRounds, bytes_of, all_bytes, HasDriver, Echoed, held, Echoed-held, Echoed-bind,
  deliver-Echoed,
}

-- A read takes the oldest character off.
get-contents :
    (b : KeyboardBuffer)
    → Buffer.IsValid b
    → keyboard_buffer_is_empty b ≡ false
    → (keyboard_buffer_get b).0 ∷ contents (keyboard_buffer_get b).1 ≡ contents b
unfolding keyboard_buffer_get keyboard_buffer_is_empty
get-contents b v e = ground (arith, Buffer.window_of_pos b.buffer b.tail b.count)

-- The first half of a round.
abbrev read_round : Kernel → Outcome Kernel
read_round k =
    if keyboard_has_input k.keyboard.buffer
    then echoed "Input: " k (keyboard_getchar k.keyboard [])
    else returns k []

-- It takes a character off, where the buffer holds one.
read_round-Echoed :
    (k : Kernel)
    → HasDriver k
    → Buffer.IsValid k.keyboard.buffer
    → (e : Echoed k [] (read_round k)) × (held e.after ≤ held k - 1)
unfolding keyboard_has_input keyboard_getchar typed held keyboard_buffer_is_empty
read_round-Echoed k h v = elim (Bool-cases (keyboard_buffer_is_empty k.keyboard.buffer)) [
  | inl empty ↦ (
    record {
      after = k;
      out = [];
      run = rw empty refl;
      valid = v;
      driver = h;
      modifiers = refl;
      text = sym (append-nil (contents k.keyboard.buffer));
    },
    held_none k.keyboard.buffer empty,
  )
  | inr waits ↦
      let got = keyboard_buffer_get k.keyboard.buffer in
      let rest : got.0 ∷ contents got.1 ≡ contents k.keyboard.buffer =
        get-contents k.keyboard.buffer v waits in
      let fewer : suc (length (contents got.1)) ≡ held k = ap length rest in
      (
        record {
          after = record k { keyboard = record k.keyboard { buffer = got.1 } };
          out = print_string "Input: " ∷ print_char got.0 ∷ print_string "\n" ∷ [];
          run = rw waits refl;
          valid = Buffer.get-IsValid v;
          driver = h;
          modifiers = refl;
          text = rest ∙ sym (append-nil (contents k.keyboard.buffer));
        },
        omega arith,
      )
]
  where
    held_none :
        (b : KeyboardBuffer)
        → keyboard_buffer_is_empty b ≡ true
        → length (contents b) ≤ length (contents b) - 1
    held_none b e =
        let none_held : length (contents b) ≡ b.count = Buffer.length-contents b in ground arith

-- A buffer with `n` characters has room for the bytes of each round, when each round's read takes
-- one off.
abbrev pub HasRoom : ℕ → List (List Arrival) → Type 0
HasRoom n [] = Unit {0}
HasRoom n (arrivals ∷ more) =
    ((n - 1) + length arrivals ≤ 256) × HasRoom ((n - 1) + length arrivals) more

HasRoom-fewer :
    (m n : ℕ) (rounds : List (List Arrival)) → m ≤ n → HasRoom n rounds → HasRoom m rounds
HasRoom-fewer m n [] l r = tt
HasRoom-fewer m n (arrivals ∷ more) l r =
    let now = r.0 in
    (
      omega arith,
      HasRoom-fewer ((m - 1) + length arrivals) ((n - 1) + length arrivals) more (omega arith) r.1,
    )

length-bytes_of : (arrivals : List Arrival) → length (bytes_of arrivals) ≡ length arrivals
length-bytes_of [] = refl
length-bytes_of (a ∷ arrivals) = ap suc (length-bytes_of arrivals)

-- The loop of `kernel_main`, where the keyboard's line has its driver and only the keyboard
-- interrupts: if the buffer is in order, and has room for the bytes of each round when every round
-- takes one character off, every number of rounds ends, and the loop has printed or still holds,
-- once each and in order, the characters held at first and the whole text typed.
pub main_rounds-Echoed :
    (image : Image) (rounds : List (List Arrival)) (k : Kernel)
    → AllKeyRounds rounds
    → HasDriver k
    → Buffer.IsValid k.keyboard.buffer
    → HasRoom (length (contents k.keyboard.buffer)) rounds
    → Echoed k (all_bytes rounds) (main_rounds image rounds k)
unfolding main_rounds main_round held typed Echoed-bind
main_rounds-Echoed image [] k l h v room = record {
  after = k;
  out = [];
  run = refl;
  valid = v;
  driver = h;
  modifiers = refl;
  text = sym (append-nil (contents k.keyboard.buffer));
}
main_rounds-Echoed image (arrivals ∷ more) k l h v room =
    let (read, shrunk) = read_round-Echoed k h v in
    let bytes = length-bytes_of arrivals in
    let now = room.0 in
    let handled =
      deliver-Echoed image arrivals read.after l.0 read.driver read.valid (omega arith) in
    let round =
      Echoed-bind k [] (bytes_of arrivals) (read_round k) (deliver image arrivals) read handled in
    let filled = Echoed-held read.after (bytes_of arrivals) _ handled in
    Echoed-bind k (bytes_of arrivals) (all_bytes more) (main_round image arrivals k)
      (main_rounds image more) round
      (main_rounds-Echoed image more round.after l.1 round.driver round.valid (
        HasRoom-fewer (held round.after) ((held k - 1) + length arrivals) more (omega arith)
          room.1))

-- At most one interrupt in each round.
abbrev pub AllSingle : List (List Arrival) → Type 0
AllSingle [] = Unit {0}
AllSingle (arrivals ∷ more) = (length arrivals ≤ 1) × AllSingle more

HasRoom-single :
    (n : ℕ) (rounds : List (List Arrival)) → n ≤ 256 → AllSingle rounds → HasRoom n rounds
HasRoom-single n [] l s = tt
HasRoom-single n (arrivals ∷ more) l s =
    let one = s.0 in
    (omega arith, HasRoom-single ((n - 1) + length arrivals) more (omega arith) s.1)

-- So nothing that is typed is lost, in any number of rounds, where each has at most one interrupt.
pub main_rounds-single :
    (image : Image) (rounds : List (List Arrival)) (k : Kernel)
    → AllKeyRounds rounds
    → AllSingle rounds
    → HasDriver k
    → Buffer.IsValid k.keyboard.buffer
    → Echoed k (all_bytes rounds) (main_rounds image rounds k)
main_rounds-single image rounds k l s h v =
    let full = v.count_in in
    let held_all = Buffer.length-contents k.keyboard.buffer in
    main_rounds-Echoed image rounds k l h v
      (HasRoom-single (length (contents k.keyboard.buffer)) rounds (omega arith) s)
