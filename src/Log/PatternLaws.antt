-- ===== src/Log/PatternLaws.antt =====
-- What LogFormatter::init (windgent/log.cc) makes of patterns.
use hpserver_fw.Prelude.{
  ℕ, zero, suc, ◌≤◌, ◌≡◌, refl, sym, ap, ◌∙◌, Bool, true, false, not, some, List, [], ◌∷◌, ◌++◌,
  length, ◌==◌, if-true, if-false, arith, Text, codes, append_assoc, append-nil, length-append,
}
use hpserver_fw.Log.Patterns.{
  Token, scan_name, Pass, text_token, flushed, directive, at_percent, pass, with_pass, parse,
}
use hpserver_fw.Log.Items.{
  string_item, init, formatter_of, items_of, with_token, with_item, find_format_item,
}
use hpserver_fw.Log.Pieces.{
  Piece, literal, bare, formatted, print, as_text, meant, without, letters, is_name, apart,
  is_pattern, alpha_percent, scan_name-bare, scan_name-formatted,
}

pass-plain :
    (nstr : Text) (c : ℕ) (rest : Text)
    → (c == b'%') ≡ false
    → pass nstr c rest ≡ record { tokens = []; nstr = nstr ++ (c ∷ []); rest = rest; error = false }
unfolding pass
pass-plain nstr c rest h = if-true {b = not (c == b'%')} _ _ (ground (arith, h))

parse-literal :
    (t : Text) (nstr rest : Text) (tokens : List Token) (error : Bool)
    → without b'%' t ≡ true
    → ((k : ℕ)
        → length rest ≤ k
        → parse k (nstr ++ t) rest ≡ some (record { tokens = tokens; error = error }))
    → (k : ℕ) → length (t ++ rest) ≤ k
    → parse k nstr (t ++ rest) ≡ some (record { tokens = tokens; error = error })
unfolding parse without
parse-literal [] nstr rest tokens error h next k b =
    ap (λ n. parse k n rest) (sym (append-nil nstr)) ∙ next k b
parse-literal (c ∷ t) nstr rest tokens error h next zero b = absurd (omega arith)
parse-literal (c ∷ t) nstr rest tokens error h next (suc k) b =
    ap (λ p. with_pass p (parse k p.nstr p.rest)) (pass-plain nstr c (t ++ rest) (ground arith))
    ∙ ap
        (with_pass
          (record { tokens = []; nstr = nstr ++ (c ∷ []); rest = t ++ rest; error = false }))
        (parse-literal t (nstr ++ (c ∷ [])) rest tokens error (ground arith)
          (λ n e. ap (λ x. parse n x rest) (append_assoc nstr (c ∷ []) t) ∙ next n e) k
          (omega arith))

flushed-as_text : (nstr : Text) → flushed nstr ≡ as_text nstr
unfolding flushed as_text
flushed-as_text [] = refl
flushed-as_text (c ∷ nstr) = refl

-- What a directive adds to what follows it.
token_pass : Text → Text → Text → Text → Pass
token_pass nstr name fmt rest = record {
  tokens = flushed nstr ++ (record { str = name; fmt = fmt; is_directive = true } ∷ []);
  nstr = [];
  rest = rest;
  error = false;
}

pass-bare :
    (nstr name rest : Text)
    → is_name name ≡ true
    → apart rest ≡ true
    → pass nstr b'%' (name ++ rest) ≡ token_pass nstr name [] rest
unfolding pass directive token_pass is_name at_percent letters
pass-bare nstr [] rest h a = absurd (ground (arith, h))
pass-bare nstr (c ∷ name) rest h a =
    if-false {b = c == b'%'} _ _ (alpha_percent c (ground arith))
    ∙ ap (directive nstr (c ∷ (name ++ rest))) (scan_name-bare [] (c ∷ name) rest h a)

pass-formatted :
    (nstr name fmt rest : Text)
    → is_name name ≡ true
    → without b'}' fmt ≡ true
    → pass nstr b'%' (name ++ (b'{' ∷ (fmt ++ (b'}' ∷ rest)))) ≡ token_pass nstr name fmt rest
unfolding pass directive token_pass is_name at_percent letters
pass-formatted nstr [] fmt rest h f = absurd (ground (arith, h))
pass-formatted nstr (c ∷ name) fmt rest h f =
    if-false {b = c == b'%'} _ _ (alpha_percent c (ground arith))
    ∙ ap (directive nstr (c ∷ (name ++ (b'{' ∷ (fmt ++ (b'}' ∷ rest))))))
        (scan_name-formatted [] (c ∷ name) fmt rest h f)

directive_tokens :
    (nstr name fmt : Text) (k : ℕ) (c : ℕ) (t rest : Text) (tokens : List Token)
    → pass nstr c t ≡ token_pass nstr name fmt rest
    → parse k [] rest ≡ some (record { tokens = tokens; error = false })
    → parse (suc k) nstr (c ∷ t)
      ≡ some (record {
        tokens = as_text nstr ++ (record { str = name; fmt = fmt; is_directive = true } ∷ tokens);
        error = false;
      })
unfolding parse token_pass
directive_tokens nstr name fmt k c t rest tokens e h =
    ap (λ p. with_pass p (parse k p.nstr p.rest)) e
    ∙ ap (with_pass (token_pass nstr name fmt rest)) h
    ∙ ap (λ l. some (record { tokens = l; error = false }))
        (append_assoc (flushed nstr) (record { str = name; fmt = fmt; is_directive = true } ∷ [])
            tokens
          ∙ ap (λ l. l ++ (record { str = name; fmt = fmt; is_directive = true } ∷ tokens))
              (flushed-as_text nstr))

-- A pattern printed from texts without '%', directives of letters with a format that has no '}',
-- and directives of letters without a format that are followed by what ends their name, is parsed
-- back, with fuel of at least its length, to exactly these directives and texts, neighbouring texts
-- as one, without an error.
pub parse-print :
    (ps : List Piece) (nstr : Text) (k : ℕ)
    → is_pattern ps ≡ true
    → length (print ps) ≤ k
    → parse k nstr (print ps) ≡ some (record { tokens = meant nstr ps; error = false })
unfolding print meant is_pattern parse
parse-print [] nstr k h b =
    ap (λ l. some (record { tokens = l; error = false })) (flushed-as_text nstr)
parse-print (literal t ∷ ps) nstr k h b =
    parse-literal t nstr (print ps) (meant (nstr ++ t) ps) false (ground arith)
      (λ n e. parse-print ps (nstr ++ t) n (ground arith) e) k b
parse-print (bare name ∷ ps) nstr zero h b = absurd (omega arith)
parse-print (bare name ∷ ps) nstr (suc k) h b =
    directive_tokens nstr name [] k b'%' (name ++ print ps) (print ps) (meant [] ps)
      (pass-bare nstr name (print ps) (ground arith) (ground arith))
      (parse-print ps [] k (ground arith) (omega (arith, length-append name (print ps))))
parse-print (formatted name fmt ∷ ps) nstr zero h b = absurd (omega arith)
parse-print (formatted name fmt ∷ ps) nstr (suc k) h b =
    let tail = b'{' ∷ (fmt ++ (b'}' ∷ print ps)) in
    directive_tokens nstr name fmt k b'%' (name ++ tail) (print ps) (meant [] ps)
      (pass-formatted nstr name fmt (print ps) (ground arith) (ground arith))
      (parse-print ps [] k (ground arith)
        (omega (arith, length-append name tail, length-append fmt (b'}' ∷ print ps))))

flushed-some : (t : Text) (c : ℕ) → flushed (t ++ (c ∷ [])) ≡ text_token (t ++ (c ∷ [])) ∷ []
unfolding flushed
flushed-some [] c = refl
flushed-some (x ∷ t) c = refl

parse-percent :
    (k : ℕ) (nstr : Text)
    → 2 ≤ k
    → parse k nstr (codes "%%")
      ≡ some (record {
        tokens =
            text_token (nstr ++ codes "%")
            ∷ (record { str = []; fmt = []; is_directive = true } ∷ []);
        error = false;
      })
unfolding parse pass directive scan_name at_percent flushed
parse-percent zero nstr h = absurd (omega arith)
parse-percent (suc zero) nstr h = absurd (omega arith)
parse-percent (suc (suc k)) nstr h =
    ap
      (λ l. some (record {
        tokens = (l ++ (record { str = []; fmt = []; is_directive = true } ∷ [])) ++ [];
        error = false;
      }))
      (flushed-some nstr b'%')

-- A pattern of a text without '%' and then "%%" is taken as the text, a '%', and a directive with
-- an empty name, which is an error, and not as the text and a '%'.
pub init-percent :
    (t : Text)
    → without b'%' t ≡ true
    → init (t ++ codes "%%")
      ≡ some (record {
        items = string_item (t ++ codes "%") ∷ (string_item (codes "<<error_format %>>") ∷ []);
        error = true;
      })
unfolding init items_of with_token with_item find_format_item
init-percent t h = ap formatter_of (
    parse-literal t [] (codes "%%")
      (text_token (t ++ codes "%") ∷ (record { str = []; fmt = []; is_directive = true } ∷ []))
      false h (λ k b. parse-percent k t b) (length (t ++ codes "%%")) (omega arith))
