-- ===== src/Task/Listing.antt =====
-- kernel/task.c: `print_task_info` and `print_task_info_by_pid`.
use mathlib.Core.Path.{ap₂}
use os_simple.Base.{
  ℕ, zero, suc, ◌+◌, ◌-◌, ◌/◌, ◌%◌, ◌≤◌, ◌<◌, ◌≡◌, refl, ap, append_assoc, ◌∙◌, List, [], ◌∷◌, ◌++◌,
  Option, none, some, ltb, if◌then◌else◌, inl, inr, Bool-cases, length, arith,
}
use os_simple.Base.Int.{ℤ, pos, negsuc, unsigned32}
use os_simple.Base.Effects.{Effect, print_string, print_name, print_char, print_number}
use os_simple.Screen.Digits.{decimal_value, all_digits}
use os_simple.Task.Table.{Task, Tasks, TaskState, running, ready, sleeping, zombie, max_tasks}
use os_simple.Task.Lookup.{find_task}
use os_simple.Task.Chain.{Chain, find_pid, find_task_lem}

abbrev pub state_name : TaskState → Effect
state_name running = print_string "RUNNING"
state_name ready = print_string "READY"
state_name sleeping = print_string "SLEEPING"
state_name zombie = print_string "ZOMBIE"

-- The characters for a PID; `'0' + x` is cut to a byte.
unfoldable pub pid_chars : ℤ → List ℕ
pid_chars (pos n) =
    if ltb n 10 then (b'0' + n) % 256 ∷ [] else (b'0' + n / 10) % 256 ∷ (b'0' + n % 10) % 256 ∷ []
pid_chars (negsuc n) = (b'0' + 255 - n % 256) % 256 ∷ []

abbrev pub print_chars : List ℕ → List Effect
print_chars [] = []
print_chars (c ∷ cs) = print_char c ∷ print_chars cs

-- One round of the loop of `print_task_info`.
unfoldable pub print_task_line : Task → List Effect
print_task_line task =
    print_string "  PID: " ∷ print_chars (pid_chars task.pid)
    ++ print_string " Name: "
      ∷ print_name task.name
      ∷ print_string " State: "
      ∷ state_name task.state
      ∷ print_string "\n"
      ∷ []

abbrev pub before_rest : List Effect → Option (List Effect) → Option (List Effect)
before_rest out none = none
before_rest out (some rest) = some (out ++ rest)

-- The loop: `none` is a walk that has not ended.
unfoldable pub print_task_lines : ℕ → (ℕ → Task) → Option ℕ → Option (List Effect)
print_task_lines zero tasks task = none
print_task_lines (suc fuel) tasks none = some []
print_task_lines (suc fuel) tasks (some n) =
    before_rest (print_task_line (tasks n)) (print_task_lines fuel tasks (tasks n).next)

abbrev pub current_name : Tasks → Option ℕ → Effect
current_name t none = print_string "None"
current_name t (some c) = print_name (t.tasks c).name

abbrev pub with_footer : List Effect → List Effect
with_footer out = out ++ print_string "========================\n" ∷ []

abbrev pub framed : Tasks → Option (List Effect) → Option (List Effect)
framed t none = none
framed t (some lines) = some (
    with_footer (
      print_string "\n=== Task Information ===\n"
      ∷ print_string "Current task: "
      ∷ current_name t t.current_task
      ∷ print_string "\n"
      ∷ print_string "Task list:\n"
      ∷ lines))

unfoldable pub print_task_info : Tasks → Option (List Effect)
print_task_info t = framed t (print_task_lines (suc max_tasks) t.tasks t.task_list)

-- `print_number` takes its argument as a `uint32_t`.
abbrev pub described : Tasks → ℤ → Option ℕ → List Effect
described t pid none =
    print_string "[ERROR] Task with PID "
    ∷ print_number (unsigned32 pid)
    ∷ print_string " not found\n"
    ∷ []
described t pid (some n) =
    print_string "Task PID: "
    ∷ print_number (unsigned32 (t.tasks n).pid)
    ∷ print_string " Name: "
    ∷ print_name (t.tasks n).name
    ∷ print_string " State: "
    ∷ state_name (t.tasks n).state
    ∷ print_string "\n"
    ∷ []

abbrev pub described_found : Tasks → ℤ → Option (Option ℕ) → Option (List Effect)
described_found t pid none = none
described_found t pid (some task) = some (described t pid task)

unfoldable pub print_task_info_by_pid : Tasks → ℤ → Option (List Effect)
print_task_info_by_pid t pid = described_found t pid (find_task t pid)

-- The text for a task, written out: its PID, its name and its state.
abbrev pub state_word : TaskState → Effect
state_word running = print_string "RUNNING"
state_word ready = print_string "READY"
state_word sleeping = print_string "SLEEPING"
state_word zombie = print_string "ZOMBIE"

abbrev pub pid_text : ℤ → List Effect → List Effect
pid_text (pos n) out =
    if ltb n 10
    then print_char ((b'0' + n) % 256) ∷ out
    else print_char ((b'0' + n / 10) % 256) ∷ print_char ((b'0' + n % 10) % 256) ∷ out
pid_text (negsuc n) out = print_char ((b'0' + 255 - n % 256) % 256) ∷ out

abbrev pub task_text : Task → List Effect → List Effect
task_text k out =
    print_string "  PID: "
    ∷ pid_text k.pid (
        print_string " Name: "
        ∷ print_name k.name
        ∷ print_string " State: "
        ∷ state_word k.state
        ∷ print_string "\n"
        ∷ out)

-- The texts for the entries of a list, and what follows.
abbrev pub lines_of : (ℕ → Task) → List ℕ → List Effect → List Effect
lines_of f [] out = out
lines_of f (x ∷ xs) out = task_text (f x) (lines_of f xs out)

abbrev pub name_text : (ℕ → Task) → Option ℕ → Effect
name_text f none = print_string "None"
name_text f (some c) = print_name (f c).name

state_name_lem : (s : TaskState) → state_name s ≡ state_word s
state_name_lem running = refl
state_name_lem ready = refl
state_name_lem sleeping = refl
state_name_lem zombie = refl

pid_chars-text : (p : ℤ) (out : List Effect) → print_chars (pid_chars p) ++ out ≡ pid_text p out
unfolding pid_chars
pid_chars-text (pos n) out = elim (Bool-cases (ltb n 10)) [
  | inl one ↦ rw one refl
  | inr two ↦ rw two refl
]
pid_chars-text (negsuc n) out = refl

print_task_line_lem : (k : Task) (out : List Effect) → print_task_line k ++ out ≡ task_text k out
unfolding print_task_line
print_task_line_lem k out =
    let after : List Effect =
      print_string " Name: "
      ∷ print_name k.name
      ∷ print_string " State: "
      ∷ state_name k.state
      ∷ print_string "\n"
      ∷ [] in
    ap (λ x. print_string "  PID: " ∷ x)
      (append_assoc (print_chars (pid_chars k.pid)) after out
        ∙ pid_chars-text k.pid (after ++ out)
        ∙ ap
            (λ s. pid_text k.pid (
              print_string " Name: "
              ∷ print_name k.name
              ∷ print_string " State: "
              ∷ s
              ∷ print_string "\n"
              ∷ out))
            (state_name_lem k.state))

print_task_lines_lem :
    (fuel : ℕ) (f : ℕ → Task) (p : Option ℕ) (xs : List ℕ)
    → Chain f p xs
    → length xs < fuel
    → (lines : List Effect) × (print_task_lines fuel f p ≡ some lines)
      × ((out : List Effect) → lines ++ out ≡ lines_of f xs out)
unfolding print_task_lines
print_task_lines_lem zero f p xs h l = elim l [ ]
print_task_lines_lem (suc fuel) f p [] h l = ([], ap (print_task_lines (suc fuel) f) h, λ out. refl)
print_task_lines_lem (suc fuel) f p (x ∷ xs) h l =
    let rest = print_task_lines_lem fuel f (f x).next xs h.1 (omega arith) in
    (
      print_task_line (f x) ++ rest.0,
      ap (print_task_lines (suc fuel) f) h.0 ∙ ap (before_rest (print_task_line (f x))) rest.1,
      λ out.
          append_assoc (print_task_line (f x)) rest.0 out
          ∙ ap (λ y. print_task_line (f x) ++ y) (rest.2 out)
          ∙ print_task_line_lem (f x) (lines_of f xs out),
    )

current_name_lem : (t : Tasks) (c : Option ℕ) → current_name t c ≡ name_text t.tasks c
current_name_lem t none = refl
current_name_lem t (some c) = refl

-- On a task list of at most 64 entries that ends, `print_task_info` ends, and prints the name of the
-- current task, or that there is none, and then a line for each entry in the order of the list,
-- with its PID, its name and its state.
pub print_task_info_lem :
    (t : Tasks) (xs : List ℕ)
    → Chain t.tasks t.task_list xs
    → length xs ≤ 64
    → print_task_info t
      ≡ some (
          print_string "\n=== Task Information ===\n"
          ∷ print_string "Current task: "
          ∷ name_text t.tasks t.current_task
          ∷ print_string "\n"
          ∷ print_string "Task list:\n"
          ∷ lines_of t.tasks xs (print_string "========================\n" ∷ []))
unfolding print_task_info
print_task_info_lem t xs h l =
    let lines = print_task_lines_lem 65 t.tasks t.task_list xs h (omega arith) in
    ap (framed t) lines.1
    ∙ ap₂
        (λ name rest. some (
          print_string "\n=== Task Information ===\n"
          ∷ print_string "Current task: "
          ∷ name
          ∷ print_string "\n"
          ∷ print_string "Task list:\n"
          ∷ rest))
        (current_name_lem t t.current_task)
        (lines.2 (print_string "========================\n" ∷ []))

-- On such a list `print_task_info_by_pid` ends, and describes the first entry with the PID, or says
-- that there is none.
pub print_task_info_by_pid_lem :
    (t : Tasks) (pid : ℤ) (xs : List ℕ)
    → Chain t.tasks t.task_list xs
    → length xs ≤ 64
    → print_task_info_by_pid t pid ≡ some (described t pid (find_pid t.tasks pid xs))
unfolding print_task_info_by_pid
print_task_info_by_pid_lem t pid xs h l = ap (described_found t pid) (find_task_lem t pid xs h l)

digit_values :
    (n : ℕ) → n < 2080 → ((48 + n / 10) % 256 ≡ 48 + n / 10) × ((48 + n % 10) % 256 ≡ 48 + n % 10)
digit_values n l = (omega arith, omega arith)

-- The characters that `print_task_info` shows for a PID below 2080 have its value, read as decimal
-- digits, but they are digits exactly when it is below 100: the first of two characters for a
-- larger one comes after '9'.
pub pid_chars_lem :
    (n : ℕ)
    → n < 2080
    → (all_digits (pid_chars (pos n)) ≡ ltb n 100) × (decimal_value 0 (pid_chars (pos n)) ≡ n)
unfolding pid_chars
pid_chars_lem n l = elim (Bool-cases (ltb n 10)) [
  | inl one ↦
      let small : (48 + n) % 256 ≡ 48 + n = ground arith in
      (rw (one, small) (ground arith), rw (one, small) (omega arith))
  | inr two ↦
      let big : 10 ≤ n = ground arith in
      (
        rw (two, (digit_values n l).0, (digit_values n l).1) (ground arith),
        rw (two, (digit_values n l).0, (digit_values n l).1) (omega arith),
      )
]
