-- ===== src/Http/Frames.antt =====
-- What a peer makes of the bytes that dump writes (windgent/http/http.cc): a start line, fields up to an
-- empty line, and the rest. The reader here is the specification that the dumps are held to.
use hpserver_fw.Prelude.{
  ℕ, zero, suc, ◌<◌, ◌≡◌, refl, ap, ap₂, ◌∙◌, Bool, true, not, ◌&&◌, Option, none, some, [], ◌∷◌,
  ◌++◌, length, ◌==◌, arith, if◌then◌else◌, append_assoc, Text,
}
use hpserver_fw.Http.Headers.{MapType}
use hpserver_fw.Http.Dump.{crlf, dump_headers}

abbrev with_left : ℕ → Option (Text × Text) → Option (Text × Text)
with_left x none = none
with_left x (some (s, t)) = some (x ∷ s, t)

-- The text around the first place where a and b follow each other.
pub cut : ℕ → ℕ → Text → Option (Text × Text)
cut a b [] = none
cut a b (x ∷ []) = none
cut a b (x ∷ (y ∷ t)) =
    let rest = cut a b (y ∷ t) in if (x == a) && (y == b) then some ([], t) else with_left x rest

-- The text has no byte c.
unfoldable pub lacks : ℕ → Text → Bool
lacks c [] = true
lacks c (x ∷ t) = not (x == c) && lacks c t

abbrev with_field : Option (Text × Text) → Option (MapType × Text) → Option (MapType × Text)
with_field none m = none
with_field (some f) none = none
with_field (some f) (some (m, body)) = some (f ∷ m, body)

abbrev field_line :
    (Text → Option (MapType × Text)) → Option (Text × Text) → Option (MapType × Text)
field_line more none = none
field_line more (some ([], rest)) = some ([], rest)
field_line more (some (x ∷ line, rest)) = with_field (cut b':' b' ' (x ∷ line)) (more rest)

-- Fields up to the empty line, with the text behind it.
pub read_fields : ℕ → Text → Option (MapType × Text)
read_fields zero t = none
read_fields (suc k) t = field_line (read_fields k) (cut b'\r' b'\n' t)

abbrev with_start : Text → Option (MapType × Text) → Option (Text × MapType × Text)
with_start s none = none
with_start s (some (m, body)) = some (s, m, body)

abbrev start_line : ℕ → Option (Text × Text) → Option (Text × MapType × Text)
start_line k none = none
start_line k (some (s, rest)) = with_start s (read_fields k rest)

pub read_frame : ℕ → Text → Option (Text × MapType × Text)
read_frame k t = start_line k (cut b'\r' b'\n' t)

unfoldable pub frame : Text → MapType → Text → Text
unfolding dump_headers
frame start fields body = start ++ (crlf ++ (dump_headers fields ++ (crlf ++ body)))

-- Keys without a line end and without a colon, values without a line end.
unfoldable pub plain_fields : MapType → Bool
unfolding lacks
plain_fields [] = true
plain_fields ((k, v) ∷ m) = lacks b'\r' k && lacks b':' k && lacks b'\r' v && plain_fields m

pub lacks-append : (c : ℕ) (s t : Text) → lacks c (s ++ t) ≡ lacks c s && lacks c t
unfolding lacks
lacks-append c [] t = refl
lacks-append c (x ∷ s) t = ground (arith, lacks-append c s t)

pub cut-append :
    (a b : ℕ) (s t : Text) → lacks a s ≡ true → cut a b (s ++ (a ∷ (b ∷ t))) ≡ some (s, t)
unfolding cut lacks
cut-append a b [] t h = ground arith
cut-append a b (x ∷ []) t h = ground arith
cut-append a b (x ∷ (y ∷ s)) t h = ground (arith, cut-append a b (y ∷ s) t (ground arith))

field_line-field :
    (more : Text → Option (MapType × Text)) (i v rest : Text)
    → field_line more (some (i ++ (b':' ∷ (b' ' ∷ v)), rest))
      ≡ with_field (cut b':' b' ' (i ++ (b':' ∷ (b' ' ∷ v)))) (more rest)
field_line-field more [] v rest = refl
field_line-field more (x ∷ i) v rest = refl

field_lacks :
    (i v : Text)
    → lacks b'\r' i ≡ true
    → lacks b'\r' v ≡ true
    → lacks b'\r' (i ++ (b':' ∷ (b' ' ∷ v))) ≡ true
unfolding lacks
field_lacks i v h g = ground (arith, lacks-append b'\r' i (b':' ∷ (b' ' ∷ v)))

first_field :
    (i v : Text) (m : MapType) (t : Text)
    → dump_headers ((i, v) ∷ m) ++ t
      ≡ (i ++ (b':' ∷ (b' ' ∷ v))) ++ (b'\r' ∷ (b'\n' ∷ (dump_headers m ++ t)))
unfolding dump_headers
first_field i v m t = simp (append_assoc)

read_fields-fields :
    (k : ℕ) (m : MapType) (body : Text)
    → length m < k
    → plain_fields m ≡ true
    → read_fields k (dump_headers m ++ (crlf ++ body)) ≡ some (m, body)
unfolding read_fields dump_headers plain_fields
read_fields-fields zero m body h p = absurd (omega arith)
read_fields-fields (suc k) [] body h p =
    ap (field_line (read_fields k)) (cut-append 13 10 [] body refl)
read_fields-fields (suc k) ((i, v) ∷ m) body h p =
    ap (λ t. field_line (read_fields k) (cut 13 10 t)) (first_field i v m (crlf ++ body))
    ∙ ap (field_line (read_fields k)) (
        cut-append 13 10 (i ++ (58 ∷ (32 ∷ v))) (dump_headers m ++ (crlf ++ body))
          (field_lacks i v (ground arith) (ground arith)))
    ∙ field_line-field (read_fields k) i v (dump_headers m ++ (crlf ++ body))
    ∙ ap₂ with_field (cut-append 58 32 i v (ground arith))
        (read_fields-fields k m body (omega arith) (ground arith))

-- A frame is read back.
pub read_frame-frame :
    (k : ℕ) (s : Text) (m : MapType) (body : Text)
    → lacks b'\r' s ≡ true
    → length m < k
    → plain_fields m ≡ true
    → read_frame k (frame s m body) ≡ some (s, m, body)
unfolding read_frame frame
read_frame-frame k s m body hs hk hm =
    ap (start_line k) (cut-append 13 10 s (dump_headers m ++ (crlf ++ body)) hs)
    ∙ ap (with_start s) (read_fields-fields k m body hk hm)
