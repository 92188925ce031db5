-- ===== src/Base/Effects.antt =====
-- What the kernel's functions do to the outside, in order: the calls of `outb`, of `clear_screen`
-- and of the print functions. A function that makes such calls returns them beside its new state.
use Prim.Native.Nat.{ℕ}
use Prim.Native.String.{String}
use mathlib.Core.List.{List}

pub data Effect : Type 0 where
  outb : ℕ → ℕ → Effect
  clear_screen : Effect
  print_string : String → Effect
  -- A literal that is not ASCII, by its UTF-8 bytes.
  print_bytes : List ℕ → Effect
  print_name : (ℕ → ℕ) → Effect
  print_char : ℕ → Effect
  print_hex : ℕ → Effect
  print_number : ℕ → Effect
