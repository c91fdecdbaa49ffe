-- ===== src/ByteArray/Fixed.antt =====
-- The fixed-width readers and writers of ByteArray. A signed or floating value is its bit pattern
-- in memory; `host` is the byte order of the machine (WINDGENT_BYTE_ORDER of windgent/endian.h).
use hpserver_fw.Prelude.{ℕ, ◌^◌, List, [], ◌∷◌}
use hpserver_fw.Prelude.Int.{ℤ, to_word, of_word}
use hpserver_fw.ByteArray.Store.{Endian, M, ◌>>=◌, return, done, write, read}
use hpserver_fw.ByteArray.Integers.{to_memory, of_memory, ordered}

-- The body that the writers of w bytes share.
unfoldable pub write_fixed : Endian → ℕ → ℕ → M (Unit {0})
unfolding to_memory ordered write
write_fixed host w v b = write (to_memory host w (ordered b.endian host w v)) b

-- The macro XX.
unfoldable pub read_fixed : Endian → ℕ → M ℕ
unfolding of_memory ordered read
read_fixed host w b =
    (do bytes ← read w; λ b'. done (ordered b'.endian host w (of_memory host bytes)) b') b

-- The first byte of a buffer that is not empty.
unfoldable pub first_byte : List ℕ → ℕ
first_byte [] = 0
first_byte (x ∷ xs) = x

unfoldable pub write_fuint8 : ℕ → M (Unit {0})
unfolding write
write_fuint8 v = write (v ∷ [])

unfoldable pub read_fuint8 : M ℕ
unfolding read first_byte
read_fuint8 = do bytes ← read 1; return (first_byte bytes)

unfoldable pub write_fint8 : ℤ → M (Unit {0})
unfolding write to_word
write_fint8 z = write (to_word (2 ^ 8) z ∷ [])

unfoldable pub read_fint8 : M ℤ
unfolding read first_byte of_word
read_fint8 = do bytes ← read 1; return (of_word (2 ^ 8) (first_byte bytes))

module _ (host : Endian) where
  unfoldable pub write_fuint16 : ℕ → M (Unit {0})
  unfolding write_fixed
  write_fuint16 v = write_fixed host 2 v

  unfoldable pub write_fuint32 : ℕ → M (Unit {0})
  unfolding write_fixed
  write_fuint32 v = write_fixed host 4 v

  unfoldable pub write_fuint64 : ℕ → M (Unit {0})
  unfolding write_fixed
  write_fuint64 v = write_fixed host 8 v

  unfoldable pub write_fint16 : ℤ → M (Unit {0})
  unfolding write_fixed to_word
  write_fint16 z = write_fixed host 2 (to_word (2 ^ 16) z)

  unfoldable pub write_fint32 : ℤ → M (Unit {0})
  unfolding write_fixed to_word
  write_fint32 z = write_fixed host 4 (to_word (2 ^ 32) z)

  unfoldable pub write_fint64 : ℤ → M (Unit {0})
  unfolding write_fixed to_word
  write_fint64 z = write_fixed host 8 (to_word (2 ^ 64) z)

  unfoldable pub read_fuint16 : M ℕ
  unfolding read_fixed
  read_fuint16 = read_fixed host 2

  unfoldable pub read_fuint32 : M ℕ
  unfolding read_fixed
  read_fuint32 = read_fixed host 4

  unfoldable pub read_fuint64 : M ℕ
  unfolding read_fixed
  read_fuint64 = read_fixed host 8

  unfoldable pub read_fint16 : M ℤ
  unfolding read_fixed of_word
  read_fint16 = do v ← read_fixed host 2; return (of_word (2 ^ 16) v)

  unfoldable pub read_fint32 : M ℤ
  unfolding read_fixed of_word
  read_fint32 = do v ← read_fixed host 4; return (of_word (2 ^ 32) v)

  unfoldable pub read_fint64 : M ℤ
  unfolding read_fixed of_word
  read_fint64 = do v ← read_fixed host 8; return (of_word (2 ^ 64) v)

  -- A float or a double is the pattern of its bits.
  unfoldable pub write_float : ℕ → M (Unit {0})
  unfolding write_fuint32
  write_float bits = write_fuint32 bits

  unfoldable pub write_double : ℕ → M (Unit {0})
  unfolding write_fuint64
  write_double bits = write_fuint64 bits

  unfoldable pub read_float : M ℕ
  unfolding read_fuint32
  read_float = read_fuint32

  unfoldable pub read_double : M ℕ
  unfolding read_fuint64
  read_double = read_fuint64
