-- ===== src/ByteArray/RoundTrip.antt =====
-- Messages: values written one after the other, and read back from where the writing began.
use hpserver_fw.Prelude.{
  ℕ, ◌+◌, ◌≡◌, refl, sym, ap, ap₂, subst, ◌∙◌, List, [], ◌∷◌, ◌++◌, arith, All, length, take, drop,
  length-append, length-take, take-append-drop, drop-append_behind, append_assoc,
}
use hpserver_fw.ByteArray.Store.{
  ByteArray, Endian, M, ◌>>=◌, ◌>>◌, return, done, set_position, then_done, bind_done,
}
use hpserver_fw.ByteArray.Invariant.{IsValid, stored, length-stored}
use hpserver_fw.ByteArray.Spec.{view, overwrite, moved_to}
use hpserver_fw.ByteArray.Write.{Wrote}
use hpserver_fw.ByteArray.Seek.{seek-moved}
use hpserver_fw.ByteArray.Stream.{left, length-left, Next}
use hpserver_fw.ByteArray.Groups.{Next-refl, Next-trans}
use hpserver_fw.ByteArray.Values.{Value, InRange, IsWritable, writable-InRange, put, get, encoding}
use hpserver_fw.ByteArray.Writes.{Wrote-trans, put-Puts}
use hpserver_fw.ByteArray.Reads.{get-Gets}

unfoldable pub put_all : Endian → List Value → M (Unit {0})
put_all host [] = return tt
put_all host (x ∷ xs) = do put host x; put_all host xs

unfoldable pub get_all : Endian → List Value → M (List Value)
get_all host [] = return []
get_all host (x ∷ xs) = do y ← get host x; ys ← get_all host xs; return (y ∷ ys)

abbrev pub encodings : Endian → List Value → List ℕ
encodings e [] = []
encodings e (x ∷ xs) = encoding e x ++ encodings e xs

Wrote-nothing : (b : ByteArray) → IsValid b → Wrote b [] b
Wrote-nothing b v = record {
  valid = v;
  refines = λ i. record { bytes = same i; position = stays i };
  same_endian = refl;
}
  where
    stays : b.position ≡ b.position + 0
    stays = omega arith

    same : stored b ≡ take b.position (stored b) ++ drop (b.position + 0) (stored b)
    same =
        sym (take-append-drop b.position (stored b))
        ∙ ap (λ t. take b.position (stored b) ++ drop t (stored b)) stays

-- Writing a message puts the encodings of its values, one behind the other.
pub put_all-Wrote :
    (host : Endian) (xs : List Value) (b : ByteArray)
    → IsValid b
    → All IsWritable xs
    → (b' : ByteArray) × (put_all host xs b ≡ done tt b') × Wrote b (encodings b.endian xs) b'
unfolding put_all
put_all-Wrote host [] b v h = (b, refl, Wrote-nothing b v)
put_all-Wrote host (x ∷ xs) b v (h, hs) =
    let (c, run, w) = put-Puts host x b v h in
    let (d, run', w') = put_all-Wrote host xs c w.valid hs in
    (
      d,
      then_done (put host x) (put_all host xs) b run ∙ run',
      Wrote-trans b c d (encoding b.endian x) (encodings b.endian xs) v w
          (subst (λ e. Wrote c (encodings e xs) d) w.same_endian w'),
    )

pub get_all-Next :
    (host : Endian) (xs : List Value) (b : ByteArray) (rest : List ℕ)
    → IsValid b
    → All InRange xs
    → left b ≡ encodings b.endian xs ++ rest
    → (b' : ByteArray) × (get_all host xs b ≡ done xs b') × Next b rest b'
unfolding get_all
get_all-Next host [] b rest v h e = (b, refl, Next-refl b rest v e)
get_all-Next host (x ∷ xs) b rest v (h, hs) e =
    let more = encodings b.endian xs ++ rest in
    let (c, run, n) = get-Gets host x b more v h (e ∙ append_assoc (encoding b.endian x) _ rest) in
    let (d, run', n') =
      get_all-Next host xs c rest n.valid hs
        (n.rest_is ∙ ap (λ t. encodings t xs ++ rest) (sym n.same_endian)) in
    (
      d,
      bind_done (get host x) (λ y. get_all host xs >>= λ ys. return (y ∷ ys)) b run
          ∙ bind_done (get_all host xs) (λ ys. return (x ∷ ys)) c run',
      Next-trans b c d more rest n n',
    )

writable_all : (xs : List Value) → All IsWritable xs → All InRange xs
writable_all [] h = tt
writable_all (x ∷ xs) (h, hs) = (writable-InRange x h, writable_all xs hs)

-- What lies behind the position once it is moved back to where a write began.
rewound :
    (b c d : ByteArray) (bytes : List ℕ)
    → IsValid b
    → Wrote b bytes c
    → view d ≡ moved_to b.position (view c)
    → left d ≡ bytes ++ drop (b.position + length bytes) (stored b)
rewound b c d bytes v w e =
    ap₂ drop (ap (λ t. t.position) e) (ap (λ t. t.bytes) e ∙ ap (λ t. t.bytes) w.refines)
    ∙ drop-append_behind b.position 0 (take b.position (stored b)) _
        (omega (arith, length-take b.position (stored b), length-stored b v, v.within))

length-written :
    (b c : ByteArray) (bytes : List ℕ)
    → IsValid b
    → Wrote b bytes c
    → length (stored c)
      ≡ b.position + length bytes + length (drop (b.position + length bytes) (stored b))
length-written b c bytes v w =
    ap (λ t. length t.bytes) w.refines
    ∙ length-append (take b.position (stored b)) _
    ∙ omega (
      arith,
      length-take b.position (stored b),
      length-stored b v,
      v.within,
      length-append bytes (drop (b.position + length bytes) (stored b)),
    )

-- The reader of all that was written ends where the writer did.
ends_behind :
    (b c d b' : ByteArray) (bytes : List ℕ)
    → IsValid b
    → Wrote b bytes c
    → stored d ≡ stored c
    → Next d (drop (b.position + length bytes) (stored b)) b'
    → view b' ≡ overwrite bytes (view b)
ends_behind b c d b' bytes v w same n =
    λ i. record { bytes = (n.same_bytes ∙ same ∙ ap (λ t. t.bytes) w.refines) i; position = ends i }
  where
    ends : b'.position ≡ b.position + length bytes
    ends = omega (
      arith,
      length-left b' n.valid,
      length-stored b' n.valid,
      ap length n.rest_is,
      ap length n.same_bytes,
      ap length same,
      length-written b c bytes v w,
    )

-- A message of values in range whose strings are not empty and whose compressed signed integers can
-- be negated and doubled without overflow, written to a well-formed array from its position on and,
-- after setPosition back to where the writing began, read by the readers of the same types, is the
-- same message, whatever the byte orders of the machine that writes and the one that reads. The
-- array stays well formed, the reader ends where the writer did, and the data is the old data with
-- the encodings over it.
pub message_round_trip :
    (host other : Endian) (xs : List Value) (b : ByteArray)
    → IsValid b
    → All IsWritable xs
    → (b' : ByteArray) × ((put_all host xs >> (set_position b.position >> get_all other xs)) b
        ≡ done xs b')
      × IsValid b'
      × (view b' ≡ overwrite (encodings b.endian xs) (view b))
message_round_trip host other xs b v h =
    let bytes = encodings b.endian xs in
    let (c, run, w) = put_all-Wrote host xs b v h in
    let reached : c.position ≡ b.position + length bytes = ap (λ t. t.position) w.refines in
    let (d, run', valid, back, same_endian) =
      seek-moved c b.position w.valid (omega (arith, reached, w.valid.within)) in
    let rest = drop (b.position + length bytes) (stored b) in
    let (b', run'', n) = get_all-Next other xs d rest valid (writable_all xs h) (
      rewound b c d bytes v w back
      ∙ ap (λ t. encodings t xs ++ rest) (sym (same_endian ∙ w.same_endian))) in
    (
      b',
      then_done (put_all host xs) (set_position b.position >> get_all other xs) b run
          ∙ then_done (set_position b.position) (get_all other xs) c run'
          ∙ run'',
      n.valid,
      ends_behind b c d b' bytes v w (ap (λ t. t.bytes) back) n,
    )
