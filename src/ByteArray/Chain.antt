-- ===== src/ByteArray/Chain.antt =====
-- The chain of blocks (ByteArray::Node) with the pointer m_cur into it, and the loops that walk it.
use hpserver_fw.Prelude.{
  ℕ, zero, suc, ◌+◌, ◌-◌, ◌^◌, ◌≤◌, ◌≡◌, Option, none, some, List, [], ◌∷◌, ◌++◌, ltb, leb, ◌==◌,
  if◌then◌else◌, length, take, drop, le→leb,
}

-- A block is the list of its bytes; `size` of the source is the length of the list.
abbrev pub Node : Type 0
Node = List ℕ

-- The chain from m_root on, with m_cur: `null` is the null pointer behind the last block.
pub data Cursor : Type 0 where
  null : List Node → Cursor
  at : List Node → Node → List Node → Cursor

-- The pointer to the first of the blocks `ahead`, behind the blocks `passed`.
unfoldable pub cursor_at : List Node → List Node → Cursor
cursor_at passed [] = null passed
cursor_at passed (n ∷ rest) = at passed n rest

unfoldable pub passed : Cursor → List Node
passed (null ns) = ns
passed (at p n r) = p

unfoldable pub ahead : Cursor → List Node
ahead (null ns) = []
ahead (at p n r) = n ∷ r

-- All blocks, from m_root on.
unfoldable pub nodes : Cursor → List Node
nodes (null ns) = ns
nodes (at p n r) = p ++ (n ∷ r)

-- `tmp->next = new Node` at the end of the chain; m_cur stays.
unfoldable pub extend : Cursor → List Node → Cursor
extend (null ns) more = null (ns ++ more)
extend (at p n r) more = at p n (r ++ more)

-- a - b in size_t.
unfoldable pub size_sub : ℕ → ℕ → ℕ
size_sub a b = if leb b a then a - b else a + 2 ^ 64 - b

pub size_sub_lem : (a b : ℕ) → b ≤ a → size_sub a b ≡ a - b
unfolding size_sub
size_sub_lem a b h = rw (le→leb b a h)

-- memcpy(n->ptr + k, src, length src), where the copy fits the block; no byte is added to it.
unfoldable pub splice : Node → ℕ → List ℕ → Node
splice [] k src = []
splice (x ∷ xs) zero [] = x ∷ xs
splice (x ∷ xs) zero (b ∷ src) = b ∷ splice xs zero src
splice (x ∷ xs) (suc k) src = x ∷ splice xs k src

-- m_cur after `if(m_cur->size == end) m_cur = m_cur->next`, with m_cur at `n`.
unfoldable pub step_over : List Node → Node → List Node → ℕ → Cursor
step_over p n rest end =
    if length n == end then cursor_at (p ++ (n ∷ [])) rest else cursor_at p (n ∷ rest)

-- The loop of `write`: `buf` is what is left from bpos on. `none`: m_cur is read while null.
unfoldable pub write_loop :
    (pos npos : ℕ) (buf : List ℕ) (p ahead : List Node) → Option (ℕ × Cursor)
unfolding size_sub splice step_over cursor_at
write_loop pos npos buf p [] = none
write_loop pos npos buf p (n ∷ rest) =
    let ncap = size_sub (length n) npos in
    let next =
      write_loop (pos + ncap) 0 (drop ncap buf) (p ++ (splice n npos (take ncap buf) ∷ [])) rest in
    if leb (length buf) ncap
    then some (pos + length buf, step_over p (splice n npos buf) rest (npos + length buf))
    else next

-- The loop of `read`: the bytes copied to the buffer, the new position and m_cur.
unfoldable pub read_loop :
    (pos npos size : ℕ) (buf : List ℕ) (p ahead : List Node) → Option (List ℕ × ℕ × Cursor)
unfolding size_sub step_over cursor_at
read_loop pos npos size buf p [] = none
read_loop pos npos size buf p (n ∷ rest) =
    let ncap = size_sub (length n) npos in
    let next =
      read_loop (pos + ncap) 0 (size - ncap) (buf ++ take ncap (drop npos n)) (p ++ (n ∷ []))
        rest in
    if leb size ncap
    then some (buf ++ take size (drop npos n), pos + size, step_over p n rest (npos + size))
    else next

-- The loop of `setPosition`.
unfoldable pub seek_loop : (val : ℕ) (p ahead : List Node) → Option Cursor
unfolding step_over cursor_at
seek_loop val p [] = none
seek_loop val p (n ∷ rest) =
    let next = seek_loop (val - length n) (p ++ (n ∷ [])) rest in
    if ltb (length n) val then next else some (step_over p n rest val)
