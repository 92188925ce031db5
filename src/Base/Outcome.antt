-- ===== src/Base/Outcome.antt =====
-- What a call of the kernel's code comes to: it returns, with what it has printed or sent; it stays
-- in an endless loop, after such effects; or a walk in it has used up its fuel.
use mathlib.Core.Path.{◌≡◌, refl, ap}
use mathlib.Core.List.{List, ◌++◌, append_assoc}
use mathlib.Core.Option.{Option, none, some}
use os_simple.Base.Effects.{Effect}

pub data Outcome {ℓ} (A : Type ℓ) : Type ℓ where
  returns : A → List Effect → Outcome A
  hangs : List Effect → Outcome A
  unfinished : Outcome A

-- Earlier effects before an outcome's own.
abbrev pub after_effects {ℓ} : {A : Type ℓ} → List Effect → Outcome A → Outcome A
after_effects out (returns a more) = returns a (out ++ more)
after_effects out (hangs more) = hangs (out ++ more)
after_effects out unfinished = unfinished

infixl 5 ◌>>=◌ ◌>>◌
abbrev pub ◌>>=◌ {ℓ κ} : {A : Type ℓ} {B : Type κ} → Outcome A → (A → Outcome B) → Outcome B
returns a out >>= f = after_effects out (f a)
hangs out >>= f = hangs out
unfinished >>= f = unfinished

abbrev pub ◌>>◌ {ℓ} : {B : Type ℓ} → Outcome (Unit {0}) → Outcome B → Outcome B
m >> k = m >>= λ _. k

-- A call that only prints.
abbrev pub emit : List Effect → Outcome (Unit {0})
emit out = returns tt out

-- A call that prints, whose walk may not have ended.
abbrev pub prints : Option (List Effect) → Outcome (Unit {0})
prints none = unfinished
prints (some out) = returns tt out

-- A call that returns a state and its effects.
abbrev pub runs {ℓ} : {A : Type ℓ} → A × List Effect → Outcome A
runs (a, out) = returns a out

-- A call whose walk may not have ended.
abbrev pub ends {ℓ} : {A : Type ℓ} → Option (A × List Effect) → Outcome A
ends none = unfinished
ends (some (a, out)) = returns a out

-- The outcome is a return, of a value that has the property.
abbrev pub Returns {ℓ} : {A : Type ℓ} → Outcome A → (A → Type 0) → Type 0
Returns (returns a out) P = P a
Returns (hangs out) P = ⊥
Returns unfinished P = ⊥

pub after_effects-Returns {ℓ} :
    {A : Type ℓ} (P : A → Type 0) (out : List Effect) (m : Outcome A)
    → Returns m P
    → Returns (after_effects out m) P
after_effects-Returns P out (returns a more) h = h
after_effects-Returns P out (hangs more) h = h
after_effects-Returns P out unfinished h = h

pub bind-Returns {ℓ} :
    {A B : Type ℓ} (P : A → Type 0) (Q : B → Type 0) (m : Outcome A) (f : A → Outcome B)
    → Returns m P
    → ((a : A) → P a → Returns (f a) Q)
    → Returns (m >>= f) Q
bind-Returns P Q (returns a out) f h step = after_effects-Returns Q out (f a) (step a h)
bind-Returns P Q (hangs out) f h step = h
bind-Returns P Q unfinished f h step = h

-- The outcome, if it is a return, is of a value that has the property.
abbrev pub IfReturns {ℓ} : {A : Type ℓ} → Outcome A → (A → Type 0) → Type 0
IfReturns (returns a out) P = P a
IfReturns (hangs out) P = Unit {0}
IfReturns unfinished P = Unit {0}

pub after_effects-IfReturns {ℓ} :
    {A : Type ℓ} (P : A → Type 0) (out : List Effect) (m : Outcome A)
    → IfReturns m P
    → IfReturns (after_effects out m) P
after_effects-IfReturns P out (returns a more) h = h
after_effects-IfReturns P out (hangs more) h = tt
after_effects-IfReturns P out unfinished h = tt

pub Returns-IfReturns {ℓ} :
    {A : Type ℓ} (P Q : A → Type 0) (m : Outcome A)
    → Returns m P
    → IfReturns m Q
    → Returns m (λ a. P a × Q a)
Returns-IfReturns P Q (returns a out) h i = (h, i)
Returns-IfReturns P Q (hangs out) h i = h
Returns-IfReturns P Q unfinished h i = h

-- What a return gives.
pub Returns-value {ℓ} :
    {A : Type ℓ} (P : A → Type 0) (m : Outcome A)
    → Returns m P
    → (a : A) × (out : List Effect) × (m ≡ returns a out) × P a
Returns-value P (returns a out) h = (a, out, refl, h)
Returns-value P (hangs out) h = elim h [ ]
Returns-value P unfinished h = elim h [ ]

after_effects-append {ℓ} :
    {A : Type ℓ} (out more : List Effect) (m : Outcome A)
    → after_effects (out ++ more) m ≡ after_effects out (after_effects more m)
after_effects-append out more (returns a last) = ap (returns a) (append_assoc out more last)
after_effects-append out more (hangs last) = ap hangs (append_assoc out more last)
after_effects-append out more unfinished = refl

after_effects-bind {ℓ κ} :
    {A : Type ℓ} {B : Type κ} (out : List Effect) (m : Outcome A) (f : A → Outcome B)
    → (after_effects out m >>= f) ≡ after_effects out (m >>= f)
after_effects-bind out (returns a more) f = after_effects-append out more (f a)
after_effects-bind out (hangs more) f = refl
after_effects-bind out unfinished f = refl

pub bind_assoc {ℓ κ μ} :
    {A : Type ℓ} {B : Type κ} {C : Type μ} (m : Outcome A) (f : A → Outcome B) (g : B → Outcome C)
    → ((m >>= f) >>= g) ≡ (m >>= λ a. f a >>= g)
bind_assoc (returns a out) f g = after_effects-bind out (f a) g
bind_assoc (hangs out) f g = refl
bind_assoc unfinished f g = refl
