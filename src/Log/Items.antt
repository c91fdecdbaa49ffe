-- ===== src/Log/Items.antt =====
-- The items that LogFormatter::init (windgent/log.cc) makes of a pattern.
use hpserver_fw.Prelude.{
  Bool, true, Option, none, some, List, [], ◌∷◌, ◌++◌, length, if◌then◌else◌, Text, codes,
  same_text,
}
use hpserver_fw.Log.Patterns.{Token, Parsed, parse}

-- The classes of items; the format of a DateTimeFormatItem and the text of a StringFormatItem.
pub data FormatItem : Type 0 where
  message_item level_item elapse_item name_item thread_id_item new_line_item file_name_item
        line_item tab_item fiber_id_item thread_name_item :
      FormatItem
  date_time_item : Text → FormatItem
  string_item : Text → FormatItem

-- DateTimeFormatItem: an empty format stands for this one.
unfoldable pub new_date_time : Text → FormatItem
new_date_time [] = date_time_item (codes "%Y-%m-%d %H:%M:%S")
new_date_time (c ∷ format) = date_time_item (c ∷ format)

-- s_format_items.
unfoldable pub find_format_item : Text → Text → Option FormatItem
unfolding same_text new_date_time
find_format_item str fmt =
    if same_text str (codes "m")
    then some message_item
    else if same_text str (codes "p")
    then some level_item
    else if same_text str (codes "r")
    then some elapse_item
    else if same_text str (codes "c")
    then some name_item
    else if same_text str (codes "t")
    then some thread_id_item
    else if same_text str (codes "n")
    then some new_line_item
    else if same_text str (codes "d")
    then some (new_date_time fmt)
    else if same_text str (codes "f")
    then some file_name_item
    else if same_text str (codes "l")
    then some line_item
    else if same_text str (codes "T")
    then some tab_item
    else if same_text str (codes "F")
    then some fiber_id_item
    else if same_text str (codes "N")
    then some thread_name_item
    else none

-- m_items and m_error.
pub record Formatter : Type 0 where
  pub items : List FormatItem
  pub error : Bool

unfoldable pub with_item : Text → Option FormatItem → Formatter → Formatter
with_item str none f = record {
  items = string_item (codes "<<error_format %" ++ (str ++ codes ">>")) ∷ f.items;
  error = true;
}
with_item str (some i) f = record f { items = i ∷ f.items }

unfoldable pub with_token : Token → Formatter → Formatter
unfolding with_item find_format_item
with_token t f =
    let d = with_item t.str (find_format_item t.str t.fmt) f in
    if t.is_directive then d else record f { items = string_item t.str ∷ f.items }

-- The loop over the tuples.
unfoldable pub items_of : List Token → Bool → Formatter
unfolding with_token
items_of [] error = record { items = []; error = error }
items_of (t ∷ tokens) error = with_token t (items_of tokens error)

abbrev pub formatter_of : Option Parsed → Option Formatter
formatter_of none = none
formatter_of (some r) = some (items_of r.tokens r.error)

-- LogFormatter::init.
unfoldable pub init : Text → Option Formatter
unfolding parse items_of
init pattern = formatter_of (parse (length pattern) [] pattern)
