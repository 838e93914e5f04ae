-- ===== src/Cpplint/Required.antt =====
-- CheckForIncludeWhatYouUse of cpplint.py, with UpdateIncludeState.
mod Tables
pub mod Keys
pub mod Exact
unfoldable pub use Tables.*
use adv_database_implementat.Base.{
  ℕ, suc, Bool, true, false, ◌&&◌, ◌||◌, not, Option, none, some, List, [], ◌∷◌, ◌++◌, map, String,
  Text, codes, reverse, ◌==◌, ltb, ◌=t=◌, if◌then◌else◌, is_some, any, text_lt, text_mem, char_mem,
  ends_with, dict_put, text_key,
}
use adv_database_implementat.Regex.{
  Re, Matched, star, lazy_star, opt, alt, group, bol, eol, word_boundary, space, any_char, chr,
  none_of, lit, chars, ◌⨾◌, search_text, group_of, or_empty, sub,
}
use adv_database_implementat.Cpplint.Report.{Report}
use adv_database_implementat.Cpplint.CleansedLines.{CleansedLines}
use adv_database_implementat.Cpplint.Comments.{cleanse_comments}
use adv_database_implementat.Cpplint.FileInfo.{Files, full_name}
use adv_database_implementat.Cpplint.SameModule.{
  FileParts, Extensions, files_belong_to_same_module, get_non_header_extensions,
}
use adv_database_implementat.Cpplint.IncludeState.{IncludeState}
use adv_database_implementat.Cpplint.Includes.{include_line}

-- Header name to line number and template.
abbrev pub Requirements : Type 0
Requirements = List (Text × (ℕ × Text))

-- The first match does not stand in a namespace other than std.
abbrev pub in_std : Option Matched → Bool
in_std none = false
in_std (some m) = ends_with m.prefix (codes "std::") || not (ends_with m.prefix (codes "::"))

-- A loop over a table.
unfoldable pub require : (Re → Text → Bool) → ℕ → Text → List Entry → Requirements → Requirements
require found linenum line [] required = required
require found linenum line (e ∷ es) required =
    require found linenum line es
      (if found e.pattern line then dict_put required e.header (linenum, e.template) else required)

abbrev pub string_entry : Entry
string_entry = record {
  pattern = pattern_string;
  template = codes "string";
  header = codes "<string>";
}

abbrev pub is_found : Re → Text → Bool
is_found r line = is_some (search_text r line)

abbrev pub found_in_std : Re → Text → Bool
found_in_std r line = in_std (search_text r line)

abbrev pub is_skipped : Text → Bool
is_skipped [] = true
is_skipped (c ∷ line) = c == b'#'

-- The body of the loop over the lines.
unfoldable pub require_line : ℕ → Text → Requirements → Requirements
require_line linenum line required =
    let with_string = require found_in_std linenum line (string_entry ∷ []) required in
    let with_maybe = require is_found linenum line patterns_headers_maybe_templates with_string in
    if is_skipped line
    then required
    else if char_mem b'<' line
    then require found_in_std linenum line patterns_templates with_maybe
    else with_maybe

-- The loop, over the elided lines from a number on.
unfoldable pub require_lines : ℕ → List Text → Requirements → Requirements
require_lines linenum [] required = required
require_lines linenum (line ∷ lines) required =
    require_lines (suc linenum) lines (require_line linenum line required)

abbrev pub Includes : Type 0
Includes = List (Text × ℕ)

unfoldable pub keys : {A : Type 0} → List (Text × A) → List Text
keys [] = []
keys ((k, v) ∷ d) = k ∷ keys d

-- dict(items)
unfoldable pub dict_of : Includes → Includes → Includes
dict_of d [] = d
dict_of d ((include, linenum) ∷ items) = dict_of (dict_put d include linenum) items

unfoldable pub flattened : List (List (Text × ℕ)) → List (Text × ℕ)
flattened [] = []
flattened (sublist ∷ rest) = sublist ++ flattened rest

unfoldable pub include_dict_of : IncludeState → Includes
include_dict_of s = dict_of [] (flattened (s.earlier ++ s.current ∷ []))

unfoldable pub set_default : Includes → Text → ℕ → Includes
set_default d include linenum = if text_mem include (keys d) then d else dict_put d include linenum

abbrev pub include_of : Text → Option Matched
include_of line = search_text include_line (cleanse_comments line)

abbrev pub set_include : Option Matched → ℕ → Includes → Includes
set_include none linenum d = d
set_include (some m) linenum d = set_default d (or_empty (group_of m 2)) linenum

unfoldable pub read_includes : ℕ → List Text → Includes → Includes
read_includes linenum [] d = d
read_includes linenum (line ∷ lines) d =
    read_includes (suc linenum) lines (set_include (include_of line) linenum d)

-- The lines of the header, or IOError; whether they were read, and the includes with theirs.
unfoldable pub update_include_state : Option (List Text) → Includes → Bool × Includes
update_include_state none d = (false, d)
update_include_state (some lines) d = (true, read_includes 1 lines d)

-- The file system and the state of the program: `open_file` gives the lines of a file, `split` what
-- FileInfo.Split does.
pub record Context : Type 0 where
  pub files : Files
  pub open_file : Text → Option (List Text)
  pub split : Text → FileParts
  pub extensions : Extensions

-- _flymake\.cc$
unfoldable pub flymake : Re
flymake = lit "_flymake.cc" ⨾ eol

unfoldable pub abs_filename_of : Context → Text → Text
abs_filename_of x filename = sub flymake (λ m. codes ".cc") (full_name x.files filename)

abbrev pub load_if : Context → Bool × Text → Text → Includes → Bool × Includes
load_if x (true, common) header d = update_include_state (x.open_file (common ++ header)) d
load_if x (false, common) header d = (false, d)

unfoldable pub load_header : Context → Text → Text → Includes → Bool × Includes
load_header x abs_filename header d =
    load_if x (files_belong_to_same_module x.split x.extensions abs_filename header) header d

-- The loop over the headers: whether one was found, and the includes.
unfoldable pub load_headers : Context → Text → List Text → Bool → Includes → Bool × Includes
load_headers x abs_filename [] header_found d = (header_found, d)
load_headers x abs_filename (header ∷ rest) header_found d =
    let (loaded, d') = load_header x abs_filename header d in
    load_headers x abs_filename rest (if loaded then true else header_found) d'

-- s.strip(cs)
unfoldable pub lstrip_chars : Text → Text → Text
lstrip_chars cs [] = []
lstrip_chars cs (c ∷ s) = let rest = lstrip_chars cs s in if char_mem c cs then rest else c ∷ s

unfoldable pub bare_name : Text → Text
bare_name header =
    reverse (lstrip_chars (codes "<>\"") (reverse (lstrip_chars (codes "<>\"") header)))

-- The order of the values: line numbers, then templates.
abbrev pub value_before : ℕ × Text → ℕ × Text → Bool
value_before (n, s) (m, t) = ltb n m || (n == m && text_lt s t)

unfoldable pub insert_sorted : Text × (ℕ × Text) → Requirements → Requirements
insert_sorted r [] = r ∷ []
insert_sorted r (q ∷ qs) =
    let rest = insert_sorted r qs in if value_before q.1 r.1 then q ∷ rest else r ∷ (q ∷ qs)

-- sorted(required, key=required.__getitem__): equal values stay in order.
unfoldable pub sorted : Requirements → Requirements
sorted [] = []
sorted (r ∷ rs) = insert_sorted r (sorted rs)

unfoldable pub not_included : List Text → Requirements → Requirements
not_included included [] = []
not_included included (r ∷ rs) =
    let rest = not_included included rs in
    if text_mem (bare_name r.0) included then rest else r ∷ rest

abbrev is_source : Extensions → Text → Bool
is_source e filename =
    any (λ (extension : Text). ends_with filename (b'.' ∷ extension)) (get_non_header_extensions e)

-- The headers that are reported, each with its line and template.
unfoldable pub missing_headers : Context → Text → CleansedLines → IncludeState → Requirements
missing_headers x filename clean_lines include_state =
    let required = require_lines 0 clean_lines.elided [] in
    let include_dict = include_dict_of include_state in
    let (header_found, loaded) =
      load_headers x (abs_filename_of x filename) (keys include_dict) false include_dict in
    if not header_found && is_source x.extensions filename
    then []
    else not_included (keys loaded) (sorted required)

unfoldable pub missing_report : Text × (ℕ × Text) → Report
missing_report (header, (linenum, template)) = record {
  linenum = linenum;
  category = codes "build/include_what_you_use";
  confidence = 4;
  message = codes "Add #include " ++ (header ++ (codes " for " ++ template));
}

unfoldable pub check_for_include_what_you_use :
    Context → Text → CleansedLines → IncludeState → List Report
check_for_include_what_you_use x filename clean_lines include_state =
    map missing_report (missing_headers x filename clean_lines include_state)
