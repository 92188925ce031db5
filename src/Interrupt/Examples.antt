-- ===== src/Interrupt/Examples.antt =====
-- A descriptor table that is clear.
use os_simple.Base.{ℕ}
use os_simple.Interrupt.Gates.{IdtEntry, clear_entry}

abbrev pub blank : ℕ → IdtEntry
blank n = clear_entry
