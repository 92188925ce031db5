-- ===== src/Machine/Sector.antt =====
-- boot/boot.asm: the boot sector, by the calls of the BIOS that it makes; `boot_print_string` and
-- `boot_start` are its `print_string` and `start`. The BIOS keeps `si`.
use os_simple.Base.{
  ℕ, zero, suc, ◌+◌, ◌%◌, ◌<◌, ◌≡◌, ◌≢◌, refl, ap, List, [], ◌∷◌, Option, none, some, false, ◌==◌,
  if◌then◌else◌, length, arith,
}

-- Interrupt 0x10 with `ah` 0 and 14.
pub data BiosCall : Type 0 where
  set_mode : ℕ → BiosCall
  teletype : ℕ → BiosCall

-- `print_string` from address `si` on, with rounds to go; `none` when it has not ended.
unfoldable pub boot_print_string : ℕ → (ℕ → ℕ) → ℕ → Option (List BiosCall)
boot_print_string zero memory si = none
boot_print_string (suc left) memory si =
    let rest = boot_print_string left memory ((si + 1) % 65536) in
    let al = memory si in
    if al == 0 then some [] else elim rest [ none ↦ none | some calls ↦ some (teletype al ∷ calls) ]

-- What the sector comes to: it stays at `jmp $` after its calls, or its text has not ended.
pub data Boot : Type 0 where
  stays : List BiosCall → Boot
  prints : Boot

abbrev pub stay : Option (List BiosCall) → Boot
stay none = prints
stay (some calls) = stays (set_mode 3 ∷ calls)

-- `start`, with the address of `hi_msg`.
unfoldable pub boot_start : ℕ → (ℕ → ℕ) → ℕ → Boot
boot_start rounds memory hi_msg = stay (boot_print_string rounds memory hi_msg)

-- The text and a NUL stand in memory at the address.
abbrev pub HoldsText : (ℕ → ℕ) → ℕ → List ℕ → Type 0
HoldsText memory a [] = memory a ≡ 0
HoldsText memory a (c ∷ text) = (memory a ≡ c) × (c ≢ 0) × HoldsText memory ((a + 1) % 65536) text

pub typed : List ℕ → List BiosCall
typed [] = []
typed (c ∷ text) = teletype c ∷ typed text

boot_print_string_lem :
    (left a : ℕ) (memory : ℕ → ℕ) (text : List ℕ)
    → HoldsText memory a text
    → length text < left
    → boot_print_string left memory a ≡ some (typed text)
unfolding boot_print_string typed
boot_print_string_lem zero a memory text h l = absurd (omega arith)
boot_print_string_lem (suc left) a memory [] h l = rw h refl
boot_print_string_lem (suc left) a memory (c ∷ text) h l =
    let go : (memory a == 0) ≡ false = ground (arith, h.0, h.1) in
    let rest = boot_print_string_lem left ((a + 1) % 65536) memory text h.2 (omega arith) in
    rw (go, rest) (ap (λ x. some (teletype x ∷ typed text)) h.0)

-- The boot sector, whatever text stands at `hi_msg`: it sets the text mode, prints the text up to its
-- NUL, and then stays where it is for ever; it asks the BIOS for nothing else, so it reads no sector
-- of the kernel from the disk.
pub boot_start_lem :
    (rounds hi_msg : ℕ) (memory : ℕ → ℕ) (text : List ℕ)
    → HoldsText memory hi_msg text
    → length text < rounds
    → boot_start rounds memory hi_msg ≡ stays (set_mode 3 ∷ typed text)
unfolding boot_start
boot_start_lem rounds hi_msg memory text h l =
    ap stay (boot_print_string_lem rounds hi_msg memory text h l)
