-- ===== src/Kernel.antt =====
-- The kernel as a whole: the state of its components, and the devices that they read.
pub mod Messages
pub mod Dispatch
pub mod Boot
pub mod Invariant
pub mod Lines
pub mod StartUp
pub mod Running
pub mod Anyhow
pub mod Timer
pub mod Starvation
pub mod Typed
pub mod Echoing
pub mod Echo
pub mod Input
pub mod Exceptions
pub mod Examples
use os_simple.Base.{ℕ}
use os_simple.Interrupt.Service.{Interrupts}
use os_simple.Task.Table.{Tasks}
use os_simple.Scheduler.State.{Scheduler}
use os_simple.Memory.Manager.{Memory}
use os_simple.Keyboard.Driver.{Keyboard}
use os_simple.Syscall.{Syscalls}

-- The static variables of every file.
pub record Kernel : Type 0 where
  pub interrupts : Interrupts
  pub tasks : Tasks
  pub scheduler : Scheduler
  pub memory : Memory
  pub keyboard : Keyboard
  pub syscalls : Syscalls
