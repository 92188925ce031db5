-- ===== src/Keyboard/Buffer/Queue.antt =====
-- What the keyboard buffer promises: a queue of at most 256 characters, the oldest first, that
-- refuses a character when full, and gives the character 0 when empty.
use os_simple.Base.{ℕ, Bool, true, false, List, [], ◌∷◌, ◌++◌, leb, if◌then◌else◌, length}
use os_simple.Keyboard.Buffer.{
  BufferOp, put, get, flush, has_input, Reply, flag, char, done, keyboard_buffer_size,
}

abbrev pub Queue : Type 0
Queue = List ℕ

unfoldable pub accept : Queue → ℕ → Bool × Queue
accept q c = if leb keyboard_buffer_size (length q) then (false, q) else (true, q ++ (c ∷ []))

unfoldable pub take_oldest : Queue → ℕ × Queue
take_oldest [] = (0, [])
take_oldest (c ∷ q) = (c, q)

unfoldable pub nonempty : Queue → Bool
nonempty [] = false
nonempty (c ∷ q) = true

unfoldable pub serve : Queue → BufferOp → Reply × Queue
unfolding accept take_oldest nonempty
serve q (put c) = let (r, q') = accept q c in (flag r, q')
serve q get = let (c, q') = take_oldest q in (char c, q')
serve q flush = (done, [])
serve q has_input = (flag (nonempty q), q)

unfoldable pub serve_all : Queue → List BufferOp → List Reply
unfolding serve
serve_all q [] = []
serve_all q (op ∷ ops) = let (r, q') = serve q op in r ∷ serve_all q' ops
