-- ===== src/Kernel/Echoing.antt =====
-- What the interrupts of the keyboard do, and what a call prints of the keys that are typed.
use mathlib.Core.Path.{ap₂}
use os_simple.Base.{
  ◌-◌, ℕ, ◌+◌, ◌-◌, ◌%◌, ◌≤◌, ◌≡◌, refl, ap, sym, subst, ◌∙◌, List, [], ◌∷◌, ◌++◌, some, length,
  length-append, append_assoc, take_all, arith,
}
use os_simple.Base.Effects.{Effect, outb}
use os_simple.Base.Outcome.{Outcome, returns, after_effects, ◌>>=◌}
use os_simple.Interrupt.Handlers.{keyboard_interrupt_handler}
use os_simple.Interrupt.Gates.{send_eoi}
use os_simple.Interrupt.Service.{InterruptContext}
use os_simple.Keyboard.Buffer.Refine as Buffer
use os_simple.Keyboard.Buffer.Refine.{contents}
use os_simple.Keyboard.Keys.{KeyboardState}
use os_simple.Keyboard.Driver.{keyboard_interrupt, keyboard_interrupts}
use os_simple.Keyboard.Driver.Typing.{
  typed, modifiers_after, contents-keyboard_interrupts, keyboard_interrupts-IsValid,
}
use os_simple.Kernel.{Kernel}
use os_simple.Kernel.Dispatch.{
  Devices, SystemEntry, run_handler, count_interrupt, run_irq, irq_handler,
}
use os_simple.Kernel.Boot.{Image, Arrival, deliver}
use os_simple.Kernel.Typed.{
  printed, printed-append, modified, state-keyboard_interrupts, typed-append, length-typed,
}

abbrev pub AllKeys : List Arrival → Type 0
AllKeys [] = Unit {0}
AllKeys (a ∷ arrivals) = (a.context.int_no ≡ 33) × AllKeys arrivals

abbrev pub AllKeyRounds : List (List Arrival) → Type 0
AllKeyRounds [] = Unit {0}
AllKeyRounds (arrivals ∷ more) = AllKeys arrivals × AllKeyRounds more

-- The bytes that the data port gives during the interrupts.
abbrev pub bytes_of : List Arrival → List ℕ
bytes_of [] = []
bytes_of (a ∷ arrivals) = a.devices.data_port ∷ bytes_of arrivals

abbrev pub all_bytes : List (List Arrival) → List ℕ
all_bytes [] = []
all_bytes (arrivals ∷ more) = bytes_of arrivals ++ all_bytes more

-- The line of the keyboard belongs to its driver.
abbrev pub HasDriver : Kernel → Type 0
HasDriver k = k.interrupts.interrupt_handlers 33 ≡ some keyboard_interrupt_handler

-- One interrupt of the keyboard.
one_key :
    (entry : SystemEntry) (c : InterruptContext) (d : Devices) (k : Kernel)
    → c.int_no ≡ 33
    → HasDriver k
    → irq_handler entry c d k
      ≡ returns
          (record (count_interrupt k) { keyboard = (keyboard_interrupt k.keyboard d.data_port).0 })
          (outb 0x20 0x20 ∷ (keyboard_interrupt k.keyboard d.data_port).1)
unfolding irq_handler run_handler send_eoi
one_key entry c d k line handler =
    ap
      (λ n.
        after_effects (send_eoi ((n + 256 - 32) % 256))
          (run_irq entry (k.interrupts.interrupt_handlers n) c d (count_interrupt k)))
      line
    ∙ ap (λ h. after_effects (send_eoi 1) (run_irq entry h c d (count_interrupt k))) handler

-- Interrupts of the keyboard come to their end, and only the driver's state follows from them.
record Keyed (image : Image) (arrivals : List Arrival) (k k' : Kernel) : Type 0 where
  out : List Effect
  run : deliver image arrivals k ≡ returns k' out
  silent : printed out ≡ []
  driver : HasDriver k'
  keyboard : k'.keyboard ≡ keyboard_interrupts k.keyboard (bytes_of arrivals)

deliver-Keyed :
    (image : Image) (arrivals : List Arrival) (k : Kernel)
    → AllKeys arrivals
    → HasDriver k
    → (k' : Kernel) × Keyed image arrivals k k'
unfolding deliver keyboard_interrupts keyboard_interrupt
deliver-Keyed image [] k l h =
    (k, record { out = []; run = refl; silent = refl; driver = h; keyboard = refl })
deliver-Keyed image (a ∷ arrivals) k l h =
    let k1 : Kernel = record (count_interrupt k) {
      keyboard = (keyboard_interrupt k.keyboard a.devices.data_port).0;
    } in
    let rest = deliver-Keyed image arrivals k1 l.1 h in
    (
      rest.0,
      record {
        out = outb 0x20 0x20 ∷ outb 0x20 0x20 ∷ rest.1.out;
        run =
            ap (λ m. m >>= deliver image arrivals)
              (one_key image.system_entry a.context a.devices k l.0 h)
            ∙ ap (after_effects (outb 0x20 0x20 ∷ outb 0x20 0x20 ∷ [])) rest.1.run;
        silent = rest.1.silent;
        driver = rest.1.driver;
        keyboard = rest.1.keyboard;
      },
    )

-- The call returns, and the characters that it prints, followed by those that the buffer then holds,
-- are those that the buffer held, followed by the text that the bytes `ds` type.
pub record Echoed (k : Kernel) (ds : List ℕ) (m : Outcome Kernel) : Type 0 where
  pub after : Kernel
  pub out : List Effect
  pub run : m ≡ returns after out
  pub valid : Buffer.IsValid after.keyboard.buffer
  pub driver : HasDriver after
  pub modifiers : after.keyboard.state ≡ modified k.keyboard.state ds
  pub text :
      printed out ++ contents after.keyboard.buffer
      ≡ contents k.keyboard.buffer ++ typed k.keyboard.state ds

unfoldable pub held : Kernel → ℕ
held k = length (contents k.keyboard.buffer)

-- The buffer gets at most a character for each byte.
pub Echoed-held :
    (k : Kernel) (ds : List ℕ) (m : Outcome Kernel) (e : Echoed k ds m)
    → held e.after ≤ held k + length ds
unfolding held
Echoed-held k ds m e =
    let total : length (printed e.out) + held e.after
        ≡ held k + length (typed k.keyboard.state ds) =
      sym (length-append (printed e.out) _)
      ∙ ap length e.text
      ∙ length-append (contents k.keyboard.buffer) _ in
    let few = length-typed k.keyboard.state ds in omega arith

unfoldable pub Echoed-bind :
    (k : Kernel) (xs ys : List ℕ) (m : Outcome Kernel) (f : Kernel → Outcome Kernel)
    (e : Echoed k xs m)
    → Echoed e.after ys (f e.after)
    → Echoed k (xs ++ ys) (m >>= f)
Echoed-bind k xs ys m f e g = record {
  after = g.after;
  out = e.out ++ g.out;
  run = ap (λ o. o >>= f) e.run ∙ ap (after_effects e.out) g.run;
  valid = g.valid;
  driver = g.driver;
  modifiers =
      g.modifiers
      ∙ ap (λ s. modified s ys) e.modifiers
      ∙ sym (modified-append k.keyboard.state xs ys);
  text =
      ap (λ cs. cs ++ contents g.after.keyboard.buffer) (printed-append e.out g.out)
      ∙ append_assoc (printed e.out) (printed g.out) _
      ∙ ap (λ cs. printed e.out ++ cs) g.text
      ∙ sym (append_assoc (printed e.out) (contents e.after.keyboard.buffer) _)
      ∙ ap₂ ◌++◌ e.text (ap (λ s. typed s ys) e.modifiers)
      ∙ append_assoc (contents k.keyboard.buffer) (typed k.keyboard.state xs) _
      ∙ ap (λ cs. contents k.keyboard.buffer ++ cs) (sym (typed-append k.keyboard.state xs ys));
}
  where
    modified-append :
        (s : KeyboardState) (us vs : List ℕ) → modified s (us ++ vs) ≡ modified (modified s us) vs
    modified-append s [] vs = refl
    modified-append s (u ∷ us) vs = modified-append (modifiers_after s u) us vs

pub deliver-Echoed :
    (image : Image) (arrivals : List Arrival) (k : Kernel)
    → AllKeys arrivals
    → HasDriver k
    → Buffer.IsValid k.keyboard.buffer
    → held k + length (bytes_of arrivals) ≤ 256
    → Echoed k (bytes_of arrivals) (deliver image arrivals k)
unfolding held
deliver-Echoed image arrivals k l h v room =
    let (k', r) = deliver-Keyed image arrivals k l h in
    let ds : List ℕ = bytes_of arrivals in
    let few : length (contents k.keyboard.buffer ++ typed k.keyboard.state ds) ≤ 256 =
      let short = length-typed k.keyboard.state ds in rw length-append (omega arith) in
    record {
      after = k';
      out = r.out;
      run = r.run;
      valid =
          subst (λ b. Buffer.IsValid b.buffer) (sym r.keyboard)
            (keyboard_interrupts-IsValid k.keyboard ds v);
      driver = r.driver;
      modifiers = ap (λ b. b.state) r.keyboard ∙ state-keyboard_interrupts k.keyboard ds;
      text =
          ap (λ cs. cs ++ contents k'.keyboard.buffer) r.silent
          ∙ ap (λ b. contents b.buffer) r.keyboard
          ∙ contents-keyboard_interrupts k.keyboard ds v
          ∙ take_all 256 _ few;
    }
