-- ===== src/Log/Examples.antt =====
-- Patterns of windgent/log.cc.
use hpserver_fw.Prelude.{◌≡◌, refl, true, false, some, List, [], ◌∷◌, ◌++◌, arith, codes}
use hpserver_fw.Log.Patterns.{parse, is_alpha, ends_name}
use hpserver_fw.Log.Items.{init, string_item}
use hpserver_fw.Log.Pieces.{
  Piece, literal, bare, formatted, print, meant, is_pattern, without, letters, is_name, apart,
}
use hpserver_fw.Log.PatternLaws.{parse-print, init-percent}

abbrev pieces : List Piece
pieces =
    formatted (codes "d") (codes "%H:%M")
    ∷ literal (codes " [")
    ∷ bare (codes "p")
    ∷ literal (codes "]")
    ∷ bare (codes "m")
    ∷ bare (codes "n")
    ∷ []

parse-print_example :
    parse 30 [] (print pieces) ≡ some (record { tokens = meant [] pieces; error = false })
unfolding print is_pattern letters is_name apart without is_alpha ends_name
parse-print_example = parse-print pieces [] 30 refl (omega arith)

init-percent_example :
    init (codes "100" ++ codes "%%")
    ≡ some (record {
      items =
          string_item (codes "100" ++ codes "%") ∷ (string_item (codes "<<error_format %>>") ∷ []);
      error = true;
    })
unfolding without
init-percent_example = init-percent (codes "100") refl
