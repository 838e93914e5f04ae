-- ===== src/Cpplint/Tests/Required.antt =====
-- CheckForIncludeWhatYouUse.
use adv_database_implementat.Base.{true, none, List, [], ◌∷◌, ◌++◌, Text, codes}
use adv_database_implementat.Cpplint.SplitName.{parts_of}
use adv_database_implementat.Cpplint.CleansedLines.{CleansedLines}
use adv_database_implementat.Cpplint.IncludeState
use adv_database_implementat.Cpplint.IncludeState.{IncludeState}
use adv_database_implementat.Cpplint.Required.{Context}

abbrev context : Context
context = record {
  files = record {
    exists = λ name. true;
    abspath = λ name. codes "/db/" ++ name;
    relpath = λ a b. a;
    repository = [];
  };
  open_file = λ name. none;
  split = parts_of;
  extensions = record { hpp_headers = []; valid_extensions = [] };
}

abbrev lines : List Text
lines = codes "#include <map>" ∷ codes "std::vector<int> v;" ∷ []

abbrev clean_lines : CleansedLines
clean_lines = record {
  elided = lines;
  lines = lines;
  raw_lines = lines;
  num_lines = 2;
  lines_without_raw_strings = lines;
}
