-- ===== src/Log/Pieces.antt =====
-- Patterns as texts and directives, and what LogFormatter::init (windgent/log.cc) makes of them.
use hpserver_fw.Prelude.{
  ℕ, ◌≡◌, refl, ap, ◌∙◌, Bool, true, false, not, ◌&&◌, List, [], ◌∷◌, ◌++◌, ◌==◌, if-false, arith,
  Text, append_assoc, append-nil,
}
use hpserver_fw.Log.Patterns.{Token, scan_name, scan_format, is_alpha, ends_name}

pub data Piece : Type 0 where
  literal : Text → Piece
  bare : Text → Piece
  formatted : Text → Text → Piece

unfoldable pub print : List Piece → Text
print [] = []
print (literal t ∷ ps) = t ++ print ps
print (bare name ∷ ps) = b'%' ∷ (name ++ print ps)
print (formatted name fmt ∷ ps) = b'%' ∷ (name ++ (b'{' ∷ (fmt ++ (b'}' ∷ print ps))))

-- The token of a text, if it is not empty.
unfoldable pub as_text : Text → List Token
as_text [] = []
as_text (c ∷ t) = record { str = c ∷ t; fmt = []; is_directive = false } ∷ []

-- The tokens that are meant; neighbouring texts are one.
unfoldable pub meant : Text → List Piece → List Token
unfolding as_text
meant nstr [] = as_text nstr
meant nstr (literal t ∷ ps) = meant (nstr ++ t) ps
meant nstr (bare name ∷ ps) =
    as_text nstr ++ (record { str = name; fmt = []; is_directive = true } ∷ meant [] ps)
meant nstr (formatted name fmt ∷ ps) =
    as_text nstr ++ (record { str = name; fmt = fmt; is_directive = true } ∷ meant [] ps)

unfoldable pub without : ℕ → Text → Bool
without c [] = true
without c (x ∷ t) = not (x == c) && without c t

unfoldable pub letters : Text → Bool
unfolding is_alpha
letters [] = true
letters (x ∷ t) = is_alpha x && letters t

unfoldable pub is_name : Text → Bool
is_name [] = false
is_name (x ∷ t) = is_alpha x && letters t

-- The text begins with a character that ends a name, or is empty.
unfoldable pub apart : Text → Bool
unfolding ends_name
apart [] = true
apart (x ∷ t) = ends_name x

-- Texts have no '%', names are of letters, formats have no '}', and a name without a format is
-- followed by what ends it.
unfoldable pub is_pattern : List Piece → Bool
is_pattern [] = true
is_pattern (literal t ∷ ps) = without b'%' t && is_pattern ps
is_pattern (bare name ∷ ps) = is_name name && apart (print ps) && is_pattern ps
is_pattern (formatted name fmt ∷ ps) = is_name name && without b'}' fmt && is_pattern ps

alpha-ends_name : (c : ℕ) → is_alpha c ≡ true → ends_name c ≡ false
unfolding ends_name
alpha-ends_name c h = ground (arith, h)

alpha_brace : (c : ℕ) → is_alpha c ≡ true → (c == b'{') ≡ false
unfolding is_alpha
alpha_brace c h = ground (arith, h)

pub alpha_percent : (c : ℕ) → is_alpha c ≡ true → (c == b'%') ≡ false
unfolding is_alpha
alpha_percent c h = ground (arith, h)

scan_name-letter :
    (acc : Text) (c : ℕ) (rest : Text)
    → is_alpha c ≡ true
    → scan_name acc (c ∷ rest) ≡ scan_name (acc ++ (c ∷ [])) rest
unfolding scan_name
scan_name-letter acc c rest h =
    if-false {b = ends_name c} _ _ (alpha-ends_name c h)
    ∙ if-false {b = c == b'{'} _ _ (alpha_brace c h)

pub scan_name-bare :
    (acc name rest : Text)
    → letters name ≡ true
    → apart rest ≡ true
    → scan_name acc (name ++ rest)
      ≡ record { str = acc ++ name; fmt = []; is_open = false; rest = rest }
unfolding scan_name letters apart
scan_name-bare acc [] [] h a = rw (append-nil acc) refl
scan_name-bare acc [] (x ∷ rest) h a = rw (append-nil acc) (ground (arith, a))
scan_name-bare acc (c ∷ name) rest h a =
    scan_name-letter acc c (name ++ rest) (ground arith)
    ∙ scan_name-bare (acc ++ (c ∷ [])) name rest (ground arith) a
    ∙ ap (λ t. record { str = t; fmt = []; is_open = false; rest = rest })
        (append_assoc acc (c ∷ []) name)

scan_format-formatted :
    (str acc fmt rest : Text)
    → without b'}' fmt ≡ true
    → scan_format str acc (fmt ++ (b'}' ∷ rest))
      ≡ record { str = str; fmt = acc ++ fmt; is_open = false; rest = rest }
unfolding scan_format without
scan_format-formatted str acc [] rest h = rw (append-nil acc) refl
scan_format-formatted str acc (c ∷ fmt) rest h =
    if-false {b = c == b'}'} _ _ (ground arith)
    ∙ scan_format-formatted str (acc ++ (c ∷ [])) fmt rest (ground arith)
    ∙ ap (λ t. record { str = str; fmt = t; is_open = false; rest = rest })
        (append_assoc acc (c ∷ []) fmt)

pub scan_name-formatted :
    (acc name fmt rest : Text)
    → letters name ≡ true
    → without b'}' fmt ≡ true
    → scan_name acc (name ++ (b'{' ∷ (fmt ++ (b'}' ∷ rest))))
      ≡ record { str = acc ++ name; fmt = fmt; is_open = false; rest = rest }
unfolding scan_name letters
scan_name-formatted acc [] fmt rest h f =
    rw (append-nil acc) (scan_format-formatted acc [] fmt rest f)
scan_name-formatted acc (c ∷ name) fmt rest h f =
    scan_name-letter acc c (name ++ (b'{' ∷ (fmt ++ (b'}' ∷ rest)))) (ground arith)
    ∙ scan_name-formatted (acc ++ (c ∷ [])) name fmt rest (ground arith) f
    ∙ ap (λ t. record { str = t; fmt = fmt; is_open = false; rest = rest })
        (append_assoc acc (c ∷ []) name)
