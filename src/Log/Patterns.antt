-- ===== src/Log/Patterns.antt =====
-- LogFormatter::init (windgent/log.cc): how a pattern is cut into texts and directives.
use hpserver_fw.Prelude.{
  ℕ, zero, suc, ◌≤◌, ◌≡◌, refl, ap, Bool, true, false, not, ◌&&◌, ◌||◌, Option, none, some, List,
  [], ◌∷◌, ◌++◌, length, leb, ◌==◌, if◌then◌else◌, arith, Text, codes,
}

-- A tuple of the vector: the text or the name of a directive, its format, and whether it is a directive.
pub record Token : Type 0 where
  pub str : Text
  pub fmt : Text
  pub is_directive : Bool

-- isalpha, in the C locale.
unfoldable pub is_alpha : ℕ → Bool
is_alpha c = (leb b'A' c && leb c b'Z') || (leb b'a' c && leb c b'z')

-- What the inner loop found: str, fmt, whether fmt_status is still 1, and the pattern from n on.
pub record Scanned : Type 0 where
  pub str : Text
  pub fmt : Text
  pub is_open : Bool
  pub rest : Text

-- The inner loop once fmt_status is 1.
unfoldable pub scan_format : Text → Text → Text → Scanned
scan_format str fmt [] = record { str = str; fmt = []; is_open = true; rest = [] }
scan_format str fmt (c ∷ rest) =
    let more = scan_format str (fmt ++ (c ∷ [])) rest in
    if c == b'}' then record { str = str; fmt = fmt; is_open = false; rest = rest } else more

-- A character that ends the name of a directive.
unfoldable pub ends_name : ℕ → Bool
unfolding is_alpha
ends_name c = not (is_alpha c) && not (c == b'{') && not (c == b'}')

-- The inner loop while fmt_status is 0; `name` is what it has passed.
unfoldable pub scan_name : Text → Text → Scanned
unfolding scan_format ends_name
scan_name name [] = record { str = name; fmt = []; is_open = false; rest = [] }
scan_name name (c ∷ rest) =
    let more = scan_name (name ++ (c ∷ [])) rest in
    let format = scan_format name [] rest in
    if ends_name c
    then record { str = name; fmt = []; is_open = false; rest = c ∷ rest }
    else if c == b'{'
    then format
    else more

-- One pass of the outer loop: the tuples it adds, nstr and the pattern after it, and whether it
-- sets m_error.
pub record Pass : Type 0 where
  pub tokens : List Token
  pub nstr : Text
  pub rest : Text
  pub error : Bool

abbrev pub text_token : Text → Token
text_token t = record { str = t; fmt = []; is_directive = false }

-- `if(!nstr.empty()) vec.push_back(...)`.
unfoldable pub flushed : Text → List Token
flushed [] = []
flushed (c ∷ nstr) = text_token (c ∷ nstr) ∷ []

unfoldable pub directive : Text → Text → Scanned → Pass
unfolding flushed
directive nstr rest s =
    if s.is_open
    then record {
      tokens = record { str = codes "pattern_error"; fmt = s.fmt; is_directive = false } ∷ [];
      nstr = nstr;
      rest = rest;
      error = true;
    }
    else record {
      tokens = flushed nstr ++ (record { str = s.str; fmt = s.fmt; is_directive = true } ∷ []);
      nstr = [];
      rest = s.rest;
      error = false;
    }

-- The pattern goes on with '%'.
unfoldable pub at_percent : Text → Bool
at_percent [] = false
at_percent (c ∷ rest) = c == b'%'

unfoldable pub pass : Text → ℕ → Text → Pass
unfolding directive scan_name at_percent
pass nstr c rest =
    let d = directive nstr rest (scan_name [] rest) in
    if not (c == b'%')
    then record { tokens = []; nstr = nstr ++ (c ∷ []); rest = rest; error = false }
    else if at_percent rest
    then record { tokens = []; nstr = nstr ++ (b'%' ∷ []); rest = rest; error = false }
    else d

-- The vector, and m_error.
pub record Parsed : Type 0 where
  pub tokens : List Token
  pub error : Bool

abbrev pub with_pass : Pass → Option Parsed → Option Parsed
with_pass p none = none
with_pass p (some r) = some (record { tokens = p.tokens ++ r.tokens; error = p.error || r.error })

-- The outer loop, on fuel: none where it is spent.
unfoldable pub parse : ℕ → Text → Text → Option Parsed
unfolding pass flushed
parse k nstr [] = some (record { tokens = flushed nstr; error = false })
parse zero nstr (c ∷ rest) = none
parse (suc k) nstr (c ∷ rest) = let p = pass nstr c rest in with_pass p (parse k p.nstr p.rest)

-- The length of the pattern is fuel enough.
length-scan_format : (str fmt t : Text) → length (scan_format str fmt t).rest ≤ length t
unfolding scan_format
length-scan_format str fmt [] = omega arith
length-scan_format str fmt (c ∷ t) = ground (arith, length-scan_format str (fmt ++ (c ∷ [])) t)

length-scan_name : (name t : Text) → length (scan_name name t).rest ≤ length t
unfolding scan_name
length-scan_name name [] = omega arith
length-scan_name name (c ∷ t) =
    ground (arith, length-scan_name (name ++ (c ∷ [])) t, length-scan_format name [] t)

length-pass : (nstr : Text) (c : ℕ) (rest : Text) → length (pass nstr c rest).rest ≤ length rest
unfolding pass directive
length-pass nstr c rest = ground (arith, length-scan_name [] rest)

pub record IsParsed (k : ℕ) (nstr t : Text) : Type 0 where
  pub parsed : Parsed
  pub ended : parse k nstr t ≡ some parsed

-- The outer loop ends with fuel of at least the length of the pattern.
pub parse-ends : (k : ℕ) (nstr t : Text) → length t ≤ k → IsParsed k nstr t
unfolding parse
parse-ends k nstr [] h = record {
  parsed = record { tokens = flushed nstr; error = false };
  ended = refl;
}
parse-ends zero nstr (c ∷ rest) h = absurd (omega arith)
parse-ends (suc k) nstr (c ∷ rest) h =
    let p = pass nstr c rest in
    let r = parse-ends k p.nstr p.rest (omega (arith, length-pass nstr c rest)) in
    record {
      parsed = record { tokens = p.tokens ++ r.parsed.tokens; error = p.error || r.parsed.error };
      ended = ap (with_pass p) r.ended;
    }
