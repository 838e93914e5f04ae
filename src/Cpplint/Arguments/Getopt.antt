-- ===== src/Cpplint/Arguments/Getopt.antt =====
-- getopt.getopt of Python's library with no short options, as ParseArguments of cpplint.py uses it.
use adv_database_implementat.Base.{
  Bool, true, false, not, ◌||◌, Option, none, some, List, [], ◌∷◌, ◌++◌, Text, codes, drop, ◌=t=◌,
  if◌then◌else◌, starts_with, ends_with, text_mem, char_mem,
}
use adv_database_implementat.Cpplint.Config.{before_char, after_char}
use adv_database_implementat.Cpplint.SameModule.{drop_end}

-- The options and the other arguments, or GetoptError.
pub data Got : Type 0 where
  got : List (Text × Text) → List Text → Got
  getopt_error : Got

-- An argument: no option, `--`, one behind `--`, or one behind `-`.
pub data Kind : Type 0 where
  plain end_mark short : Kind
  long : Text → Kind

unfoldable pub kind_of : Text → Kind
kind_of arg =
    if not (starts_with arg (codes "-")) || arg =t= codes "-"
    then plain
    else if arg =t= codes "--"
    then end_mark
    else if starts_with arg (codes "--")
    then long (drop 2 arg)
    else short

unfoldable pub starting : Text → List Text → List Text
starting opt [] = []
starting opt (o ∷ os) = if starts_with o opt then o ∷ starting opt os else starting opt os

abbrev pub unique_match : List Text → Option (Bool × Text)
unique_match [] = none
unique_match (o ∷ []) =
    if ends_with o (codes "=") then some (true, drop_end 1 o) else some (false, o)
unique_match (o ∷ p ∷ os) = none

-- Whether an option takes a value, and its name, which may be given by a beginning that no other has.
unfoldable pub long_has_args : Text → List Text → Option (Bool × Text)
long_has_args opt longopts =
    let possibilities = starting opt longopts in
    if text_mem opt possibilities
    then some (false, opt)
    else if text_mem (opt ++ codes "=") possibilities
    then some (true, opt)
    else unique_match possibilities

-- An option with its value, one that waits for the next argument, or GetoptError.
pub data Long : Type 0 where
  complete : Text → Text → Long
  waits : Text → Long
  refused : Long

abbrev pub do_long : Bool → Text → Option (Bool × Text) → Long
do_long has_value optarg none = refused
do_long has_value optarg (some (true, name)) =
    if has_value then complete name optarg else waits name
do_long has_value optarg (some (false, name)) = if has_value then refused else complete name []

abbrev pub with_option : Text → Text → Got → Got
with_option name val getopt_error = getopt_error
with_option name val (got opts filenames) = got ((codes "--" ++ name, val) ∷ opts) filenames

abbrev pub on_long : (Option Text → Got) → Long → Got
on_long next (complete name val) = with_option name val (next none)
on_long next (waits name) = next (some name)
on_long next refused = getopt_error

abbrev pub on_kind : List Text → (Option Text → Got) → Text → List Text → Kind → Got
on_kind longopts next arg rest plain = got [] (arg ∷ rest)
on_kind longopts next arg rest end_mark = got [] rest
on_kind longopts next arg rest short = getopt_error
on_kind longopts next arg rest (long text) = on_long next (
    do_long (char_mem b'=' text) (after_char b'=' text)
      (long_has_args (before_char b'=' text) longopts))

-- The arguments, where the last one is the option that waits for its value.
unfoldable pub getopt : List Text → List Text → Option Text → Got
getopt longopts [] none = got [] []
getopt longopts [] (some name) = getopt_error
getopt longopts (val ∷ rest) (some name) = with_option name val (getopt longopts rest none)
getopt longopts (arg ∷ rest) none = on_kind longopts (getopt longopts rest) arg rest (kind_of arg)
