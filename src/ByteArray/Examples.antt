-- ===== src/ByteArray/Examples.antt =====
-- Runs of the operations of ByteArray (windgent/bytearray.cc) on small arrays of blocks of 4 bytes.
use hpserver_fw.Prelude.{ℕ, ◌%◌, ◌+◌, ◌<◌, ◌≤◌, ◌≡◌, refl, List, [], ◌∷◌, All, arith, length}
use hpserver_fw.Prelude.Int.{negsuc}
use hpserver_fw.ByteArray.Chain.{at, nodes, passed}
use hpserver_fw.ByteArray.Store.{
  ByteArray, little, big, ◌>>◌, done, fault, byte_array, add_capacity, write, read, set_position,
}
use hpserver_fw.ByteArray.Invariant.{IsValid, stored, byte_array-IsValid}
use hpserver_fw.ByteArray.Capacity.{Grown, add_capacity-Grown}
use hpserver_fw.ByteArray.Spec.{view, overwrite, window, moved_to}
use hpserver_fw.ByteArray.Write.{Wrote, write_some}
use hpserver_fw.ByteArray.Read.{Moved, read_some}
use hpserver_fw.ByteArray.Seek.{seek-moved}
use hpserver_fw.ByteArray.Integers.{to_memory}
use hpserver_fw.ByteArray.Strings.{read_string_f16}
use hpserver_fw.ByteArray.Values.{
  Value, IsWritable, put, get, encoding, fuint32, string_f16, int32, uint32,
}
use hpserver_fw.ByteArray.Writes.{Puts, put-Puts}
use hpserver_fw.ByteArray.Reads.{Gets, get-Gets, read_string_empty_fault}
use hpserver_fw.ByteArray.Buffers.{Iovec, get_read_buffers}
use hpserver_fw.ByteArray.Lengths.{get_read_buffers-misplaced}
use hpserver_fw.ByteArray.RoundTrip.{put_all, get_all, encodings, message_round_trip}

abbrev no_bytes : ℕ → ℕ
no_bytes i = 0

abbrev empty : ByteArray
empty = byte_array 4 no_bytes

empty-IsValid : IsValid empty
empty-IsValid = byte_array-IsValid 4 no_bytes (omega arith)

-- Two blocks, of which `size` bytes are data; the position is in the first.
abbrev two_blocks : (position size : ℕ) → List ℕ → ByteArray
two_blocks position size first = record {
  block_size = 4;
  position = position;
  capacity = 8;
  size = size;
  endian = big;
  cursor = at [] first ((5 ∷ 6 ∷ 7 ∷ 8 ∷ []) ∷ []);
  fresh = no_bytes;
}

two_blocks-IsValid :
    (position size x y z w : ℕ)
    → position ≤ size
    → size ≤ 8
    → position < 4
    → IsValid (two_blocks position size (x ∷ y ∷ z ∷ w ∷ []))
two_blocks-IsValid position size x y z w h i j =
    unfold nodes passed in
    record {
      positive = omega arith;
      blocks = (refl, (refl, tt));
      rooted = omega arith;
      counted = refl;
      within = h;
      fits = i;
      points = record { below = omega arith; above = omega arith };
    }

abbrev filled : ByteArray
filled = two_blocks 2 6 (1 ∷ 2 ∷ 3 ∷ 4 ∷ [])

filled-IsValid : IsValid filled
filled-IsValid = two_blocks-IsValid 2 6 1 2 3 4 (omega arith) (omega arith) (omega arith)

abbrev message : List Value
message = fuint32 7 ∷ string_f16 (104 ∷ 105 ∷ []) ∷ int32 (negsuc 4) ∷ uint32 300 ∷ []

message-IsWritable : All IsWritable message
message-IsWritable = (omega arith, ((omega arith, omega arith), (omega arith, (omega arith, tt))))

message_round_trip_example :
    (b' : ByteArray) × ((put_all little message
          >> (set_position empty.position >> get_all big message))
        empty
      ≡ done message b')
    × IsValid b'
    × (view b' ≡ overwrite (encodings empty.endian message) (view empty))
message_round_trip_example =
    message_round_trip little big message empty empty-IsValid message-IsWritable

put-Puts_example : Puts (put little (int32 (negsuc 4))) filled (encoding big (int32 (negsuc 4)))
put-Puts_example = put-Puts little (int32 (negsuc 4)) filled filled-IsValid (omega arith)

get-Gets_example : Gets (get little (fuint32 0x03040506)) filled (fuint32 0x03040506) []
get-Gets_example =
    get-Gets little (fuint32 0x03040506) filled [] filled-IsValid (omega arith)
      (unfold stored to_memory in refl)

write_some_example :
    (b' : ByteArray) × (write (9 ∷ 9 ∷ 9 ∷ 9 ∷ 9 ∷ 9 ∷ 9 ∷ []) filled ≡ done tt b')
    × Wrote filled (9 ∷ 9 ∷ 9 ∷ 9 ∷ 9 ∷ 9 ∷ 9 ∷ []) b'
write_some_example = write_some filled (9 ∷ 9 ∷ 9 ∷ 9 ∷ 9 ∷ 9 ∷ 9 ∷ []) filled-IsValid (omega arith)

read_some_example :
    (b' : ByteArray) × (read 3 filled ≡ done (window 3 (view filled)) b') × Moved filled 5 b'
read_some_example = read_some filled 3 filled-IsValid (omega arith) (omega arith)

seek-moved_example :
    (b' : ByteArray) × (set_position 4 filled ≡ done tt b')
    × IsValid b'
    × (view b' ≡ moved_to 4 (view filled))
    × (b'.endian ≡ filled.endian)
seek-moved_example = seek-moved filled 4 filled-IsValid (omega arith)

add_capacity-Grown_example : Grown filled 20 (add_capacity filled 20)
add_capacity-Grown_example = add_capacity-Grown filled 20 filled-IsValid

abbrev with_digits : ByteArray
with_digits = two_blocks 0 6 (0xac ∷ 2 ∷ 3 ∷ 4 ∷ [])

with_digits-IsValid : IsValid with_digits
with_digits-IsValid = two_blocks-IsValid 0 6 0xac 2 3 4 (omega arith) (omega arith) (omega arith)

abbrev cut_short : ByteArray
cut_short = two_blocks 0 2 (0xac ∷ 0x82 ∷ 3 ∷ 4 ∷ [])

cut_short-IsValid : IsValid cut_short
cut_short-IsValid = two_blocks-IsValid 0 2 0xac 0x82 3 4 (omega arith) (omega arith) (omega arith)

-- A length of 9, and four bytes behind it.
abbrev half_string : ByteArray
half_string = two_blocks 0 6 (0 ∷ 9 ∷ 3 ∷ 4 ∷ [])

half_string-IsValid : IsValid half_string
half_string-IsValid = two_blocks-IsValid 0 6 0 9 3 4 (omega arith) (omega arith) (omega arith)

-- One block of two bytes that holds the length of an empty string.
abbrev empty_string : ByteArray
empty_string = record {
  block_size = 2;
  position = 0;
  capacity = 2;
  size = 2;
  endian = big;
  cursor = at [] (0 ∷ 0 ∷ []) [];
  fresh = no_bytes;
}

empty_string-IsValid : IsValid empty_string
empty_string-IsValid =
    unfold nodes passed in
    record {
      positive = omega arith;
      blocks = (refl, tt);
      rooted = omega arith;
      counted = refl;
      within = omega arith;
      fits = omega arith;
      points = record { below = omega arith; above = omega arith };
    }

read_string_empty_fault_example : read_string_f16 little empty_string ≡ fault
read_string_empty_fault_example =
    read_string_empty_fault little empty_string empty_string-IsValid
      (unfold stored to_memory in refl) refl

abbrev inside : ByteArray
inside = two_blocks 1 7 (1 ∷ 2 ∷ 3 ∷ 4 ∷ [])

inside-IsValid : IsValid inside
inside-IsValid = two_blocks-IsValid 1 7 1 2 3 4 (omega arith) (omega arith) (omega arith)

-- Three bytes from offset 3 on, in a block of four bytes.
get_read_buffers-misplaced_example :
    (first : Iovec) × (l : List Iovec) × (get_read_buffers 5 inside ≡ done (5, first ∷ l) inside)
    × (first.block ≡ length (passed inside.cursor))
    × (inside.position % inside.block_size < first.offset)
    × (inside.block_size < first.offset + first.len)
get_read_buffers-misplaced_example =
    get_read_buffers-misplaced inside 5 inside-IsValid (omega arith) (omega arith) (omega arith)
