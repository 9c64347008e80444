-- ===== src/LogsView/Tests.antt =====
-- Runs of the Logs page's rules, and their theorems at concrete inputs. The browser of these runs
-- prints each unit of a parameter as the next number, and a zero after each text.
use porymcp.Base.{
  zero, suc, ◌+◌, ◌≡◌, refl, sym, ap, ◌∙◌, ◌↔◌, true, false, Option, none, some, List, [], ◌∷◌,
  ◌++◌, append-nil, append_assoc, length, Text, text, trim, decimal,
}
use porymcp.CursorPages.{last}
use porymcp.LogsView.{
  LogFilters, custom, default_filters, Dates, SearchParams, Param, param, log_query, log_params,
  page_path, sends_none, local_input, to_nanoseconds, count_line, call,
}
use porymcp.LogsView.Options.{LogFacets, option, tool_options, counted}
use porymcp.LogsView.Query.{page_params, log_query-page_path}
use porymcp.LogsView.Window.{Unasked, log_query-none_iff}

shape_tests :
    (local_input (text "2026-01-02T03:04") ≡ true)
    × (local_input (text "2026-01-02T03:04:05.6") ≡ true)
    × (local_input (text "2026-01-02") ≡ false)
    × (local_input (text "2026-01-02T03:04:") ≡ false)
    × (to_nanoseconds (text "03:04:59.999Z") ≡ text "03:04:59.999999999Z")
    × (count_line 1 call (some last) ≡ text "1 call shown. No older calls in this period.")
unfolding local_input to_nanoseconds text count_line decimal porymcp.Copy.plural
shape_tests = (refl, refl, refl, refl, refl, refl)

abbrev two_tools : LogFacets
two_tools = record {
  methods = [];
  tools = record { value = []; count = 3 } ∷ record { value = text "None"; count = 2 } ∷ [];
  statuses = [];
  truncated = false;
}

-- A tool whose name is None is told apart from no tool.
none_labels :
    tool_options (some two_tools) [] false
    ≡ option [] (text "All tools")
      ∷ option (text "none") (counted (text "None (no tool)") 3)
      ∷ option (text "tool:None") (counted (text "None") 2)
      ∷ []
unfolding tool_options text counted trim
none_labels = refl

-- A browser of this kind.
print_text : Text → Text → Text
print_text [] rest = 0 ∷ rest
print_text (c ∷ s) rest = suc c ∷ print_text s rest

print_params : List Param → Text
print_params [] = []
print_params (p ∷ ps) = print_text p.key (print_text p.value (print_params ps))

-- The text that is read, and whether it is a key's value.
parse_params : Text → Option Text → Text → List Param
parse_params acc key [] = []
parse_params acc none (zero ∷ s) = parse_params [] (some acc) s
parse_params acc (some key) (zero ∷ s) = param key acc ∷ parse_params [] none s
parse_params acc key (suc c ∷ s) = parse_params (acc ++ c ∷ []) key s

parse_params-print_text :
    (s acc rest : Text) (key : Option Text)
    → parse_params acc key (print_text s rest) ≡ parse_params (acc ++ s) key (0 ∷ rest)
unfolding parse_params print_text
parse_params-print_text [] acc rest key =
    ap (λ a. parse_params a key (0 ∷ rest)) (sym (append-nil acc))
parse_params-print_text (c ∷ s) acc rest key =
    parse_params-print_text s (acc ++ c ∷ []) rest key
    ∙ ap (λ a. parse_params a key (0 ∷ rest)) (append_assoc acc (c ∷ []) s)

parse_params-print_params : (ps : List Param) → parse_params [] none (print_params ps) ≡ ps
unfolding print_params parse_params
parse_params-print_params [] = refl
parse_params-print_params (p ∷ ps) =
    parse_params-print_text p.key [] _ none
    ∙ parse_params-print_text p.value [] (print_params ps) (some p.key)
    ∙ ap (λ l. p ∷ l) (parse_params-print_params ps)

test_browser : SearchParams
test_browser = record {
  print = print_params;
  parse = parse_params [] none;
  parse_print = parse_params-print_params;
}

test_dates : Dates
test_dates = record {
  local = λ v. some (length v);
  parse_iso = length;
  iso = decimal;
  end_of_minute = λ t. t + 59999;
  local_text = decimal;
}

abbrev one_tool : LogFilters
one_tool = record default_filters { tool = text "x&limit=200" }

abbrev one_query : Text
one_query = test_browser.print (log_params test_dates one_tool 1000000000)

asked : log_query test_dates test_browser one_tool 1000000000 ≡ some one_query
unfolding log_query sends_none
asked = refl

log_query-page_path_example :
    page_path test_browser (text "/logs") one_query (text "c2")
    ≡ text "/logs"
      ++ (b'?'
          ∷ test_browser.print
              (log_params test_dates one_tool 1000000000 ++ page_params (text "c2")))
log_query-page_path_example =
    log_query-page_path test_dates test_browser one_tool 1000000000 (text "/logs") one_query
      (text "c2") asked

abbrev no_start : LogFilters
no_start = record default_filters { period = custom }

log_query-none_iff_example :
    (log_query test_dates test_browser no_start 1000000000 ≡ none) ↔ Unasked test_dates no_start
log_query-none_iff_example = log_query-none_iff test_dates test_browser no_start 1000000000
