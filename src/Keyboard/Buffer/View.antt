-- ===== src/Keyboard/Buffer/View.antt =====
-- The keyboard buffer as its callers see it: valid buffers, whatever the place of the characters in the
-- ring and whatever the free places hold.
use mathlib.Core.Equiv.{◌≃◌, Iso, iso_to_equiv}
use mathlib.Core.HLevel.{Σ_prop_path, prop→set}
use mathlib.Core.List.{append_assoc}
use mathlib.Core.Quot
use mathlib.Core.Quot.{Quot, Quot-set}
use native.Mathlib.Bridge.{le_prop}
use native.Mathlib.Nat.{ℕ_set}
use os_simple.Base.{
  ℕ, ◌+◌, ◌≤◌, ◌<◌, ◌≡◌, refl, ap, sym, ◌∙◌, Bool, true, false, [], ◌∷◌, ◌++◌, append-nil, leb,
  length, length-append, arith,
}
use os_simple.Keyboard.Buffer.{KeyboardBuffer, keyboard_buffer_put, keyboard_buffer_get}
use os_simple.Keyboard.Buffer.Queue
use os_simple.Keyboard.Buffer.Queue.{Queue}
use os_simple.Keyboard.Buffer.Refine.{
  IsValid, contents, length-contents, put-IsValid, get-IsValid, put_refines, get_refines,
}

abbrev pub Valid : Type 0
Valid = (b : KeyboardBuffer) × IsValid b

abbrev pub Same : Valid → Valid → Type 0
Same x y = contents x.0 ≡ contents y.0

-- Buffers up to their contents, and queues of at most 256 characters.
abbrev pub View : Type 0
View = Quot Same

abbrev pub Bounded : Type 0
Bounded = (q : Queue) × (length q ≤ 256)

Queue-set : IsSet Queue
Queue-set = hlevel ℕ_set

Bounded-set : IsSet Bounded
Bounded-set = hlevel (Queue-set, λ (q : Queue). prop→set {A = length q ≤ 256} le_prop)

Bounded-ext : (x y : Bounded) → x.0 ≡ y.0 → x ≡ y
Bounded-ext x y e = Σ_prop_path (λ q. le_prop) e

contents_of : Valid → Bounded
contents_of x = (contents x.0, let size = length-contents x.0 in let v = x.1 in omega arith)

queue_of : View → Bounded
unfolding contents_of
queue_of =
    Quot.lift Bounded-set contents_of (λ x y h. Bounded-ext (contents_of x) (contents_of y) h)

-- A buffer with the given characters, put one by one into an empty one.
put_all : KeyboardBuffer → Queue → KeyboardBuffer
put_all b [] = b
put_all b (c ∷ q) = put_all (keyboard_buffer_put b c).1 q

put_all-IsValid : (b : KeyboardBuffer) (q : Queue) → IsValid b → IsValid (put_all b q)
unfolding put_all
put_all-IsValid b [] v = v
put_all-IsValid b (c ∷ q) v = put_all-IsValid (keyboard_buffer_put b c).1 q (put-IsValid c v)

accept_room : (q : Queue) (c : ℕ) → length q < 256 → Queue.accept q c ≡ (true, q ++ (c ∷ []))
unfolding Queue.accept
accept_room q c l = let room : leb 256 (length q) ≡ false = ground arith in rw room refl

contents-put_all :
    (b : KeyboardBuffer) (q : Queue)
    → IsValid b
    → length (contents b) + length q ≤ 256
    → contents (put_all b q) ≡ contents b ++ q
unfolding put_all
contents-put_all b [] v l = sym (append-nil (contents b))
contents-put_all b (c ∷ q) v l =
    let stored : contents (keyboard_buffer_put b c).1 ≡ contents b ++ (c ∷ []) =
      ap (λ r. r.1) (put_refines c v ∙ accept_room (contents b) c (omega arith)) in
    let size = length-append (contents b) (c ∷ []) in
    contents-put_all (keyboard_buffer_put b c).1 q (put-IsValid c v)
      (omega (arith, ap length stored, size))
    ∙ ap (λ xs. xs ++ q) stored
    ∙ append_assoc (contents b) (c ∷ []) q

abbrev empty_buffer : KeyboardBuffer
empty_buffer = record { buffer = λ i. 0; head = 0; tail = 0; count = 0 }

empty-IsValid : IsValid empty_buffer
empty-IsValid = record { tail_in = omega arith; count_in = omega arith; head_at = refl }

stored : Queue → Valid
stored q = (put_all empty_buffer q, put_all-IsValid empty_buffer q empty-IsValid)

contents-stored : (q : Bounded) → contents (stored q.0).0 ≡ q.0
unfolding stored
contents-stored q = contents-put_all empty_buffer q.0 empty-IsValid (let l = q.1 in omega arith)

view_of : Bounded → View
view_of q = Quot.mk (stored q.0)

View-Iso : Iso View Bounded
unfolding queue_of view_of contents_of
View-Iso = record {
  fun = queue_of;
  inv = view_of;
  rinv = λ q. Bounded-ext (queue_of (view_of q)) q (contents-stored q);
  linv =
      Quot.ind (λ x. Quot-set _ _)
        (λ x. Quot.sound {a = stored (contents x.0)} {b = x} (contents-stored (contents_of x)));
}

-- `keyboard_buffer_put` and `keyboard_buffer_get` on buffers up to their contents.
put_valid : ℕ → Valid → Bool × Valid
put_valid c x = ((keyboard_buffer_put x.0 c).0, ((keyboard_buffer_put x.0 c).1, put-IsValid c x.1))

get_valid : Valid → ℕ × Valid
get_valid x = ((keyboard_buffer_get x.0).0, ((keyboard_buffer_get x.0).1, get-IsValid x.1))

abbrev shown {ℓ} : {R : Type ℓ} → R × Valid → R × View
shown (r, x) = (r, Quot.mk x)

abbrev seen {ℓ} : {R : Type ℓ} → R × Valid → R × Queue
seen (r, x) = (r, contents x.0)

-- Results that look the same are the same in the view.
shown_same {ℓ} : {R : Type ℓ} (x y : R × Valid) → seen x ≡ seen y → shown x ≡ shown y
shown_same x y e = λ i. ((e i).0, Quot.sound {a = x.1} {b = y.1} (ap (λ r. r.1) e) i)

put-Same : (c : ℕ) (x y : Valid) → Same x y → shown (put_valid c x) ≡ shown (put_valid c y)
unfolding put_valid
put-Same c x y h =
    shown_same (put_valid c x) (put_valid c y)
      (put_refines c x.1 ∙ ap (λ q. Queue.accept q c) h ∙ sym (put_refines c y.1))

get-Same : (x y : Valid) → Same x y → shown (get_valid x) ≡ shown (get_valid y)
unfolding get_valid
get-Same x y h =
    shown_same (get_valid x) (get_valid y)
      (get_refines x.1 ∙ ap Queue.take_oldest h ∙ sym (get_refines y.1))

pub view_put : ℕ → View → Bool × View
view_put c = Quot.lift (hlevel (Quot-set {r = Same})) (λ x. shown (put_valid c x)) (put-Same c)

pub view_get : View → ℕ × View
view_get = Quot.lift (hlevel (ℕ_set, Quot-set {r = Same})) (λ x. shown (get_valid x)) get-Same

-- Valid buffers up to their contents are the queues of at most 256 characters: there is an equivalence
-- between the two that gives a buffer's contents, and on both sides of it the puts and the gets
-- have the same results and lead to the same queues.
pub view_lem :
    (e : View ≃ Bounded) × ((x : Valid) → (e.0 (Quot.mk x)).0 ≡ contents x.0)
    × ((c : ℕ) (v : View) → ((view_put c v).0, (e.0 (view_put c v).1).0) ≡ Queue.accept (e.0 v).0 c)
    × ((v : View) → ((view_get v).0, (e.0 (view_get v).1).0) ≡ Queue.take_oldest (e.0 v).0)
unfolding view_put view_get queue_of contents_of put_valid get_valid View-Iso
view_lem = (
  iso_to_equiv View-Iso,
  λ x. refl,
  λ c. Quot.ind (λ v. hlevel (Queue-set)) (λ x. put_refines c x.1),
  Quot.ind (λ v. hlevel (ℕ_set, Queue-set)) (λ x. get_refines x.1),
)
