-- ===== src/Cpplint/Required/Exact.antt =====
-- Which headers CheckForIncludeWhatYouUse reports.
use adv_database_implementat.Base.{
  Bool, true, false, Option, none, some, List, ◌++◌, Text, is_some, any,
}
use adv_database_implementat.Cpplint.CleansedLines.{CleansedLines}
use adv_database_implementat.Cpplint.IncludeState.{IncludeState}
use adv_database_implementat.Cpplint.SameModule.{files_belong_to_same_module}
use adv_database_implementat.Cpplint.Required.{Context, keys, include_dict_of}
use adv_database_implementat.Cpplint.Required.Keys.{line_includes}

abbrev lines_include : Text → Option (List Text) → Bool
lines_include name none = false
lines_include name (some lines) = any (line_includes name) lines

abbrev opened : Context → Bool × Text → Text → Option (List Text)
opened x (true, common) header = x.open_file (common ++ header)
opened x (false, common) header = none

-- The lines of a header that belongs to the module of the file and can be read.
unfoldable pub own_header : Context → Text → Text → Option (List Text)
own_header x abs_filename header =
    opened x (files_belong_to_same_module x.split x.extensions abs_filename header) header

-- The headers of the module that can be read.
unfoldable pub any_header_read : Context → Text → List Text → Bool
any_header_read x abs_filename headers =
    any (λ (h : Text). is_some (own_header x abs_filename h)) headers

unfoldable pub any_header_includes : Context → Text → List Text → Text → Bool
any_header_includes x abs_filename headers name =
    any (λ (h : Text). lines_include name (own_header x abs_filename h)) headers

abbrev file_includes : IncludeState → List Text
file_includes s = keys (include_dict_of s)
