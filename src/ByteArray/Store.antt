-- ===== src/ByteArray/Store.antt =====
-- The class ByteArray (windgent/bytearray.cc): its state, and the operations on raw bytes.
use hpserver_fw.Prelude.{
  ℕ, zero, suc, ◌+◌, ◌-◌, ◌*◌, ◌/◌, ◌%◌, ◌≡◌, Bool, Option, none, some, List, [], ◌∷◌, ltb, leb,
  ◌==◌, if◌then◌else◌, length,
}
use hpserver_fw.ByteArray.Chain.{
  Node, Cursor, null, at, cursor_at, nodes, extend, size_sub, write_loop, read_loop, seek_loop,
}

pub data Endian : Type 0 where
  little big : Endian

-- The fields m_blocksize, m_position, m_capacity, m_size, m_endian, and m_root with m_cur.
-- `fresh i` is byte i of a new block: C++ leaves it open, so it is an input of the model.
pub record ByteArray : Type 0 where
  pub block_size : ℕ
  pub position : ℕ
  pub capacity : ℕ
  pub size : ℕ
  pub endian : Endian
  pub cursor : Cursor
  pub fresh : ℕ → ℕ

-- What a call ends in: a value and the new state, the exception std::out_of_range with the state
-- it leaves, or undefined behaviour (a null pointer is followed, or a division by zero).
pub data Outcome {ℓ} (A : Type ℓ) : Type ℓ where
  done : A → ByteArray → Outcome A
  throws : ByteArray → Outcome A
  fault : Outcome A

abbrev pub M {ℓ} : Type ℓ → Type ℓ
M A = ByteArray → Outcome A

infixl 5 ◌>>=◌ ◌>>◌
abbrev pub ◌>>=◌ {ℓ κ} : {A : Type ℓ} {B : Type κ} → M A → (A → M B) → M B
◌>>=◌ m f b = elim (m b) [ done a b' ↦ f a b' | throws b' ↦ throws b' | fault ↦ fault ]

abbrev pub ◌>>◌ {ℓ κ} : {A : Type ℓ} {B : Type κ} → M A → M B → M B
◌>>◌ m k b = elim (m b) [ done _ b' ↦ k b' | throws b' ↦ throws b' | fault ↦ fault ]

abbrev pub return {ℓ} : {A : Type ℓ} → A → M A
return a b = done a b

-- How a step of a do block ends, from how its first call does.
pub bind_done {ℓ κ} :
    {A : Type ℓ} {B : Type κ} (m : M A) (f : A → M B) (b : ByteArray) {a : A} {b' : ByteArray}
    → m b ≡ done a b'
    → (m >>= f) b ≡ f a b'
bind_done m f b e = rw (e, ◌>>=◌)

pub bind_throws {ℓ κ} :
    {A : Type ℓ} {B : Type κ} (m : M A) (f : A → M B) (b : ByteArray) {b' : ByteArray}
    → m b ≡ throws b'
    → (m >>= f) b ≡ throws b'
bind_throws m f b e = rw (e, ◌>>=◌)

pub then_done {ℓ κ} :
    {A : Type ℓ} {B : Type κ} (m : M A) (k : M B) (b : ByteArray) {a : A} {b' : ByteArray}
    → m b ≡ done a b'
    → (m >> k) b ≡ k b'
then_done m k b e = rw (e, ◌>>◌)

-- The bytes i .. i + n - 1 of new memory.
unfoldable pub new_bytes : (ℕ → ℕ) → ℕ → ℕ → List ℕ
new_bytes f i zero = []
new_bytes f i (suc n) = f i ∷ new_bytes f (suc i) n

-- `new Node(m_blocksize)`.
unfoldable pub new_node : ℕ → (ℕ → ℕ) → Node
unfolding new_bytes
new_node block_size fresh = new_bytes fresh 0 block_size

unfoldable pub new_nodes : ℕ → ℕ → (ℕ → ℕ) → List Node
unfolding new_node
new_nodes zero block_size fresh = []
new_nodes (suc k) block_size fresh = new_node block_size fresh ∷ new_nodes k block_size fresh

-- The constructor.
unfoldable pub byte_array : ℕ → (ℕ → ℕ) → ByteArray
unfolding new_node
byte_array block_size fresh = record {
  block_size = block_size;
  position = 0;
  capacity = block_size;
  size = 0;
  endian = big;
  cursor = at [] (new_node block_size fresh) [];
  fresh = fresh;
}

unfoldable pub get_read_size : ByteArray → ℕ
unfolding size_sub
get_read_size b = size_sub b.size b.position

unfoldable pub get_capacity : ByteArray → ℕ
unfolding size_sub
get_capacity b = size_sub b.capacity b.position

-- ceil(1.0 * size / m_blocksize), which is exact for sizes below 2 ^ 53.
unfoldable pub ceil_div : ℕ → ℕ → ℕ
ceil_div n d = (n + d - 1) / d

-- The new blocks hang on the last one; m_cur goes to the first of them if no capacity was left.
unfoldable pub grown_cursor : ByteArray → ℕ → List Node → Cursor
unfolding cursor_at nodes extend
grown_cursor b last_cap more =
    if last_cap == 0 then cursor_at (nodes b.cursor) more else extend b.cursor more

unfoldable pub grow : ByteArray → ℕ → ℕ → ByteArray
unfolding new_nodes grown_cursor
grow b last_cap block_cnt = record b {
  capacity = b.capacity + block_cnt * b.block_size;
  cursor = grown_cursor b last_cap (new_nodes block_cnt b.block_size b.fresh);
}

unfoldable pub add_capacity : ByteArray → ℕ → ByteArray
unfolding grow get_capacity ceil_div
add_capacity b size =
    if size == 0
    then b
    else (let last_cap = get_capacity b in
        if leb size last_cap then b else grow b last_cap (ceil_div (size - last_cap) b.block_size))

-- `if(m_position > m_size) m_size = m_position;`
unfoldable pub set_end : ByteArray → ℕ → Cursor → ByteArray
set_end b pos c = record b {
  position = pos;
  size = if ltb b.size pos then pos else b.size;
  cursor = c;
}

unfoldable pub finish_write : ByteArray → Option (ℕ × Cursor) → Outcome (Unit {0})
unfolding set_end
finish_write b none = fault
finish_write b (some (pos, c)) = done tt (set_end b pos c)

unfoldable pub write_at : ByteArray → List ℕ → Cursor → Outcome (Unit {0})
unfolding write_loop finish_write
write_at b buf (null ns) = fault
write_at b buf (at p n r) =
    finish_write b (write_loop b.position (b.position % b.block_size) buf p (n ∷ r))

unfoldable pub write : List ℕ → M (Unit {0})
unfolding add_capacity write_at
write buf b =
    if length buf == 0
    then done tt b
    else if b.block_size == 0
    then fault
    else (let b' = add_capacity b (length buf) in write_at b' buf b'.cursor)

unfoldable pub finish_read : ByteArray → Option (List ℕ × ℕ × Cursor) → Outcome (List ℕ)
finish_read b none = fault
finish_read b (some (buf, pos, c)) = done buf (record b { position = pos; cursor = c })

unfoldable pub read_at : ByteArray → ℕ → Cursor → Outcome (List ℕ)
unfolding read_loop finish_read
read_at b n (null ns) = fault
read_at b n (at p m r) =
    if n == 0
    then done [] b
    else finish_read b (read_loop b.position (b.position % b.block_size) n [] p (m ∷ r))

-- read(buf, n): the bytes that are copied to `buf`.
unfoldable pub read : ℕ → M (List ℕ)
unfolding get_read_size read_at
read n b =
    if ltb (get_read_size b) n
    then throws b
    else if b.block_size == 0
    then fault
    else read_at b n b.cursor

unfoldable pub finish_peek : ByteArray → Option (List ℕ × ℕ × Cursor) → Outcome (List ℕ)
finish_peek b none = fault
finish_peek b (some (buf, pos, c)) = done buf b

unfoldable pub peek_at : ByteArray → ℕ → ℕ → Cursor → Outcome (List ℕ)
unfolding read_loop finish_peek
peek_at b n pos (null ns) = fault
peek_at b n pos (at p m r) =
    if n == 0 then done [] b else finish_peek b (read_loop pos (pos % b.block_size) n [] p (m ∷ r))

-- read(buf, n, pos) const: it starts in the block of m_cur, whatever `pos` is.
unfoldable pub peek : ℕ → ℕ → M (List ℕ)
unfolding get_read_size peek_at
peek n pos b =
    if ltb (get_read_size b) n
    then throws b
    else if b.block_size == 0
    then fault
    else peek_at b n pos b.cursor

unfoldable pub finish_seek : ByteArray → ℕ → Option Cursor → Outcome (Unit {0})
unfolding set_end
finish_seek b val none = fault
finish_seek b val (some c) = done tt (set_end b val c)

unfoldable pub set_position : ℕ → M (Unit {0})
unfolding nodes seek_loop finish_seek
set_position val b =
    if ltb b.capacity val then throws b else finish_seek b val (seek_loop val [] (nodes b.cursor))

-- The chain behind the root block is freed.
unfoldable pub keep_root : List Node → Cursor
keep_root [] = null []
keep_root (n ∷ rest) = at [] n []

unfoldable pub clear : ByteArray → ByteArray
unfolding nodes keep_root
clear b = record b {
  position = 0;
  size = 0;
  capacity = b.block_size;
  cursor = keep_root (nodes b.cursor);
}

unfoldable pub to_string : M (List ℕ)
unfolding peek
to_string b = if get_read_size b == 0 then done [] b else peek (get_read_size b) b.position b

unfoldable pub is_little_endian : ByteArray → Bool
is_little_endian b = elim b.endian [ little ↦ Bool.true | big ↦ Bool.false ]

unfoldable pub set_is_little_endian : Bool → ByteArray → ByteArray
set_is_little_endian val b = record b { endian = if val then little else big }
