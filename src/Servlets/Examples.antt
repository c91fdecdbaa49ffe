-- ===== src/Servlets/Examples.antt =====
-- Runs of the servlet dispatcher (windgent/http/servlet.cc) with two entries. A pattern matches
-- here if it is equal to the path or is the one character `*`.
use hpserver_fw.Prelude.{same_text, ◌≡◌, ◌≢◌, refl, Bool, true, false, ◌||◌, some, [], ◌∷◌}
use hpserver_fw.Servlets.Table.{Uri, find}
use hpserver_fw.Servlets.Dispatcher.{
  function_servlet, user_servlet, not_found_servlet, Dispatcher, add_servlet, del_servlet,
  get_matched_servlet, handle,
}
use hpserver_fw.Servlets.Choice.{
  IsReady, Chosen, get_matched_servlet-Chosen, add_servlet-Matched, del_servlet-Chosen,
}

abbrev matches : Uri → Uri → Bool
matches p u = same_text p (42 ∷ []) || same_text p u

abbrev any : Uri
any = 42 ∷ []

abbrev here : Uri
here = 47 ∷ 97 ∷ []

abbrev there : Uri
there = 47 ∷ 98 ∷ []

abbrev two_entries : Dispatcher
two_entries = record {
  detects = true;
  locked = false;
  datas = (here, some (function_servlet 1)) ∷ [];
  globs = (any, some (user_servlet 2)) ∷ [];
  fallback = some (not_found_servlet []);
}

two_entries-IsReady : IsReady two_entries
two_entries-IsReady = record { free = refl; unique_datas = (tt, tt); unique_globs = (tt, tt) }

get_matched_servlet-Chosen_example :
    Chosen matches there two_entries (get_matched_servlet matches there two_entries)
get_matched_servlet-Chosen_example =
    get_matched_servlet-Chosen matches there two_entries (unfold find in refl)

add_servlet-Matched_example :
    (d' : Dispatcher) × (add_servlet there (some (user_servlet 5)) two_entries ≡ some d')
    × IsReady d'
    × (get_matched_servlet matches there d' ≡ some (user_servlet 5))
    × ((v : Uri)
        → there ≢ v
        → get_matched_servlet matches v d' ≡ get_matched_servlet matches v two_entries)
add_servlet-Matched_example =
    add_servlet-Matched matches there (some (user_servlet 5)) two_entries two_entries-IsReady

del_servlet-Chosen_example :
    (d' : Dispatcher) × (del_servlet here two_entries ≡ some d')
    × IsReady d'
    × Chosen matches here two_entries (get_matched_servlet matches here d')
    × ((v : Uri)
        → here ≢ v
        → get_matched_servlet matches v d' ≡ get_matched_servlet matches v two_entries)
del_servlet-Chosen_example = del_servlet-Chosen matches here two_entries two_entries-IsReady

-- The exact entry is called, not the pattern.
exact_first : handle matches (λ s r. s ∷ r) here two_entries [] ≡ (function_servlet 1 ∷ [], 0)
unfolding handle
exact_first = refl
