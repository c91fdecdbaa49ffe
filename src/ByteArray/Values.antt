-- ===== src/ByteArray/Values.antt =====
-- The typed values that a ByteArray stores, the call that writes each and the call that reads it,
-- and the bytes of its encoding.
use hpserver_fw.Prelude.{ℕ, ◌^◌, ◌<◌, List, [], ◌∷◌, ◌++◌, length}
use hpserver_fw.Prelude.Int.{ℤ, Fits, to_word}
use hpserver_fw.ByteArray.Store.{Endian, M, ◌>>=◌, return}
use hpserver_fw.ByteArray.Integers.{to_memory}
use hpserver_fw.ByteArray.Fixed.{
  write_fuint8, write_fint8, write_fuint16, write_fuint32, write_fuint64, write_fint16,
  write_fint32, write_fint64, read_fuint8, read_fint8, read_fuint16, read_fuint32, read_fuint64,
  read_fint16, read_fint32, read_fint64,
}
use hpserver_fw.ByteArray.Varint.{
  write_uint32, write_uint64, write_int32, write_int64, read_uint32, read_uint64, read_int32,
  read_int64,
}
use hpserver_fw.ByteArray.Groups.{base128}
use hpserver_fw.ByteArray.Zigzag.{zigzag, Doubles, Doubles-Fits}
use hpserver_fw.ByteArray.Strings.{
  write_string_f16, write_string_f32, write_string_f64, write_string_vint, read_string_f16,
  read_string_f32, read_string_f64, read_string_vint,
}

pub data Value : Type 0 where
  fuint8 fuint16 fuint32 fuint64 uint32 uint64 : ℕ → Value
  fint8 fint16 fint32 fint64 int32 int64 : ℤ → Value
  string_f16 string_f32 string_f64 string_vint : List ℕ → Value

-- The value fits the type of the call, and a string is not empty.
abbrev pub InRange : Value → Type 0
InRange (fuint8 v) = v < 2 ^ 8
InRange (fuint16 v) = v < 2 ^ 16
InRange (fuint32 v) = v < 2 ^ 32
InRange (fuint64 v) = v < 2 ^ 64
InRange (uint32 v) = v < 2 ^ 32
InRange (uint64 v) = v < 2 ^ 64
InRange (fint8 z) = Fits (2 ^ 8) z
InRange (fint16 z) = Fits (2 ^ 16) z
InRange (fint32 z) = Fits (2 ^ 32) z
InRange (fint64 z) = Fits (2 ^ 64) z
InRange (int32 z) = Fits (2 ^ 32) z
InRange (int64 z) = Fits (2 ^ 64) z
InRange (string_f16 s) = (0 < length s) × (length s < 2 ^ 16)
InRange (string_f32 s) = (0 < length s) × (length s < 2 ^ 32)
InRange (string_f64 s) = (0 < length s) × (length s < 2 ^ 64)
InRange (string_vint s) = (0 < length s) × (length s < 2 ^ 64)

-- The value can be written: it is in range, and a compressed signed integer can be negated and doubled.
abbrev pub IsWritable : Value → Type 0
IsWritable (fuint8 v) = v < 2 ^ 8
IsWritable (fuint16 v) = v < 2 ^ 16
IsWritable (fuint32 v) = v < 2 ^ 32
IsWritable (fuint64 v) = v < 2 ^ 64
IsWritable (uint32 v) = v < 2 ^ 32
IsWritable (uint64 v) = v < 2 ^ 64
IsWritable (fint8 z) = Fits (2 ^ 8) z
IsWritable (fint16 z) = Fits (2 ^ 16) z
IsWritable (fint32 z) = Fits (2 ^ 32) z
IsWritable (fint64 z) = Fits (2 ^ 64) z
IsWritable (int32 z) = Doubles (2 ^ 32) z
IsWritable (int64 z) = Doubles (2 ^ 64) z
IsWritable (string_f16 s) = (0 < length s) × (length s < 2 ^ 16)
IsWritable (string_f32 s) = (0 < length s) × (length s < 2 ^ 32)
IsWritable (string_f64 s) = (0 < length s) × (length s < 2 ^ 64)
IsWritable (string_vint s) = (0 < length s) × (length s < 2 ^ 64)

pub writable-InRange : (x : Value) → IsWritable x → InRange x
writable-InRange (fuint8 v) h = h
writable-InRange (fuint16 v) h = h
writable-InRange (fuint32 v) h = h
writable-InRange (fuint64 v) h = h
writable-InRange (uint32 v) h = h
writable-InRange (uint64 v) h = h
writable-InRange (fint8 z) h = h
writable-InRange (fint16 z) h = h
writable-InRange (fint32 z) h = h
writable-InRange (fint64 z) h = h
writable-InRange (int32 z) h = Doubles-Fits (2 ^ 32) z h
writable-InRange (int64 z) h = Doubles-Fits (2 ^ 64) z h
writable-InRange (string_f16 s) h = h
writable-InRange (string_f32 s) h = h
writable-InRange (string_f64 s) h = h
writable-InRange (string_vint s) h = h

-- The call that writes the value.
unfoldable pub put : Endian → Value → M (Unit {0})
put host (fuint8 v) = write_fuint8 v
put host (fuint16 v) = write_fuint16 host v
put host (fuint32 v) = write_fuint32 host v
put host (fuint64 v) = write_fuint64 host v
put host (uint32 v) = write_uint32 v
put host (uint64 v) = write_uint64 v
put host (fint8 z) = write_fint8 z
put host (fint16 z) = write_fint16 host z
put host (fint32 z) = write_fint32 host z
put host (fint64 z) = write_fint64 host z
put host (int32 z) = write_int32 z
put host (int64 z) = write_int64 z
put host (string_f16 s) = write_string_f16 host s
put host (string_f32 s) = write_string_f32 host s
put host (string_f64 s) = write_string_f64 host s
put host (string_vint s) = write_string_vint s

-- The call that reads a value of the same type.
unfoldable pub get : Endian → Value → M Value
get host (fuint8 _) = do v ← read_fuint8; return (fuint8 v)
get host (fuint16 _) = do v ← read_fuint16 host; return (fuint16 v)
get host (fuint32 _) = do v ← read_fuint32 host; return (fuint32 v)
get host (fuint64 _) = do v ← read_fuint64 host; return (fuint64 v)
get host (uint32 _) = do v ← read_uint32; return (uint32 v)
get host (uint64 _) = do v ← read_uint64; return (uint64 v)
get host (fint8 _) = do z ← read_fint8; return (fint8 z)
get host (fint16 _) = do z ← read_fint16 host; return (fint16 z)
get host (fint32 _) = do z ← read_fint32 host; return (fint32 z)
get host (fint64 _) = do z ← read_fint64 host; return (fint64 z)
get host (int32 _) = do z ← read_int32; return (int32 z)
get host (int64 _) = do z ← read_int64; return (int64 z)
get host (string_f16 _) = do s ← read_string_f16 host; return (string_f16 s)
get host (string_f32 _) = do s ← read_string_f32 host; return (string_f32 s)
get host (string_f64 _) = do s ← read_string_f64 host; return (string_f64 s)
get host (string_vint _) = do s ← read_string_vint; return (string_vint s)

-- The bytes that stand for the value in an array of this byte order.
abbrev pub encoding : Endian → Value → List ℕ
encoding e (fuint8 v) = v ∷ []
encoding e (fuint16 v) = to_memory e 2 v
encoding e (fuint32 v) = to_memory e 4 v
encoding e (fuint64 v) = to_memory e 8 v
encoding e (uint32 v) = base128 5 v
encoding e (uint64 v) = base128 10 v
encoding e (fint8 z) = to_word (2 ^ 8) z ∷ []
encoding e (fint16 z) = to_memory e 2 (to_word (2 ^ 16) z)
encoding e (fint32 z) = to_memory e 4 (to_word (2 ^ 32) z)
encoding e (fint64 z) = to_memory e 8 (to_word (2 ^ 64) z)
encoding e (int32 z) = base128 5 (zigzag z)
encoding e (int64 z) = base128 10 (zigzag z)
encoding e (string_f16 s) = to_memory e 2 (length s) ++ s
encoding e (string_f32 s) = to_memory e 4 (length s) ++ s
encoding e (string_f64 s) = to_memory e 8 (length s) ++ s
encoding e (string_vint s) = base128 10 (length s) ++ s
