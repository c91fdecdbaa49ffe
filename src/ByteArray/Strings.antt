-- ===== src/ByteArray/Strings.antt =====
-- The string readers and writers of ByteArray: a length, then the bytes.
use hpserver_fw.Prelude.{ℕ, ◌%◌, ◌^◌, List, length}
use hpserver_fw.ByteArray.Store.{Endian, M, ◌>>=◌, ◌>>◌, write, read}
use hpserver_fw.ByteArray.Fixed.{
  write_fuint16, write_fuint32, write_fuint64, read_fuint16, read_fuint32, read_fuint64,
}
use hpserver_fw.ByteArray.Varint.{write_uint64, read_uint64}

module _ (host : Endian) where
  -- `str.size()` is converted to the type of the length.
  unfoldable pub write_string_f16 : List ℕ → M (Unit {0})
  unfolding write_fuint16 write
  write_string_f16 str = do write_fuint16 host (length str % 2 ^ 16); write str

  unfoldable pub write_string_f32 : List ℕ → M (Unit {0})
  unfolding write_fuint32 write
  write_string_f32 str = do write_fuint32 host (length str % 2 ^ 32); write str

  unfoldable pub write_string_f64 : List ℕ → M (Unit {0})
  unfolding write_fuint64 write
  write_string_f64 str = do write_fuint64 host (length str % 2 ^ 64); write str

  unfoldable pub read_string_f16 : M (List ℕ)
  unfolding read_fuint16 read
  read_string_f16 = do size ← read_fuint16 host; read size

  unfoldable pub read_string_f32 : M (List ℕ)
  unfolding read_fuint32 read
  read_string_f32 = do size ← read_fuint32 host; read size

  unfoldable pub read_string_f64 : M (List ℕ)
  unfolding read_fuint64 read
  read_string_f64 = do size ← read_fuint64 host; read size

unfoldable pub write_string_vint : List ℕ → M (Unit {0})
unfolding write_uint64 write
write_string_vint str = do write_uint64 (length str % 2 ^ 64); write str

unfoldable pub read_string_vint : M (List ℕ)
unfolding read_uint64 read
read_string_vint = do size ← read_uint64; read size

unfoldable pub write_string_without_len : List ℕ → M (Unit {0})
unfolding write
write_string_without_len str = write str
