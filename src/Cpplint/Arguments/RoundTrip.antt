-- ===== src/Cpplint/Arguments/RoundTrip.antt =====
-- The arguments that options are written as.
use adv_database_implementat.Base.{
  Bool, true, false, ◌||◌, none, some, List, [], ◌∷◌, ◌++◌, map, Text, codes, ◌=t=◌, =t=→≡, ℕ,
  if◌then◌else◌, starts_with, text_mem, char_mem, All, arith, ◌≡◌, refl, ap, ◌∙◌, Bool-cases, inl,
  inr, append-nil,
}
use adv_database_implementat.Cpplint.Config.{before_char, after_char}
use adv_database_implementat.Cpplint.Arguments.{
  Disk, Globals, parse_arguments, with_files, on_options, initial, on_got, longopts,
}
use adv_database_implementat.Cpplint.Arguments.Getopt.{
  Got, got, plain, long, kind_of, starting, long_has_args, with_option, getopt_error, getopt,
}

-- How an option is written: `--name`, `--name=val`, or `--name val`.
pub data Spelling : Type 0 where
  flag : Text → Spelling
  joined apart : Text → Text → Spelling

unfoldable pub args_of : Spelling → List Text
args_of (flag name) = (codes "--" ++ name) ∷ []
args_of (joined name val) = (codes "--" ++ (name ++ b'=' ∷ val)) ∷ []
args_of (apart name val) = (codes "--" ++ name) ∷ val ∷ []

unfoldable pub option_of : Spelling → Text × Text
option_of (flag name) = (codes "--" ++ name, [])
option_of (joined name val) = (codes "--" ++ name, val)
option_of (apart name val) = (codes "--" ++ name, val)

-- The name is a flag of `table`.
abbrev pub IsFlag : List Text → Text → Type 0
IsFlag table name =
    (char_mem b'=' name ≡ false) × (name =t= [] ≡ false) × (text_mem name table ≡ true)

-- The name is that of an option of `table` with a value.
abbrev pub IsValued : List Text → Text → Type 0
IsValued table name =
    (char_mem b'=' name ≡ false)
    × (name =t= [] ≡ false)
    × (text_mem name table ≡ false)
    × (text_mem (name ++ b'=' ∷ []) table ≡ true)

abbrev pub IsKnown : List Text → Spelling → Type 0
IsKnown table (flag name) = IsFlag table name
IsKnown table (joined name val) = IsValued table name
IsKnown table (apart name val) = IsValued table name

unfoldable pub args_of_all : List Spelling → List Text → List Text
args_of_all [] rest = rest
args_of_all (sp ∷ sps) rest = args_of sp ++ args_of_all sps rest

-- What follows the options begins with no option.
abbrev pub IsFiles : List Text → Type 0
IsFiles [] = Unit
IsFiles (f ∷ fs) = kind_of f ≡ plain

starts_with-append : (s t : Text) → starts_with (s ++ t) s ≡ true
unfolding starts_with
starts_with-append [] t = refl
starts_with-append (c ∷ s) t = ground (arith, starts_with-append s t)

starts_with_refl : (s : Text) → starts_with s s ≡ true
starts_with_refl s = rw (append-nil s) at (starts_with-append s [])

if-text_mem :
    (b : Bool) (x o : Text) (os rest : List Text)
    → (x =t= o ≡ true → b ≡ true)
    → text_mem x os ≡ text_mem x rest
    → text_mem x (if b then o ∷ os else os) ≡ text_mem x (o ∷ rest)
unfolding text_mem
if-text_mem true x o os rest h e = ap (λ b. x =t= o || b) e
if-text_mem false x o os rest h e = elim (Bool-cases (x =t= o)) [
  | inl same ↦ absurd (ground (arith, h same))
  | inr other ↦ rw other e
]

-- What begins with `opt` and is in the list is in the possibilities.
text_mem-starting :
    (opt x : Text) (os : List Text)
    → starts_with x opt ≡ true
    → text_mem x (starting opt os) ≡ text_mem x os
unfolding starting
text_mem-starting opt x [] h = refl
text_mem-starting opt x (o ∷ os) h =
    if-text_mem (starts_with o opt) x o (starting opt os) os (λ same. rw (=t=→≡ x o same) at h)
      (text_mem-starting opt x os h)

long_has_args-flag :
    (table : List Text) (name : Text)
    → text_mem name table ≡ true
    → long_has_args name table ≡ some (false, name)
unfolding long_has_args
long_has_args-flag table name h =
    rw (text_mem-starting name name table (starts_with_refl name), h) refl

long_has_args-valued :
    (table : List Text) (name : Text)
    → text_mem name table ≡ false
    → text_mem (name ++ b'=' ∷ []) table ≡ true
    → long_has_args name table ≡ some (true, name)
unfolding long_has_args
long_has_args-valued table name h k =
    rw
      (
        text_mem-starting name name table (starts_with_refl name),
        h,
        text_mem-starting name (name ++ b'=' ∷ []) table (starts_with-append name (b'=' ∷ [])),
        k,
      )
      refl

before-whole : (name : Text) → char_mem b'=' name ≡ false → before_char b'=' name ≡ name
unfolding char_mem before_char
before-whole [] h = refl
before-whole (c ∷ s) h = ground (arith, h, before-whole s)

before-value :
    (name val : Text) → char_mem b'=' name ≡ false → before_char b'=' (name ++ b'=' ∷ val) ≡ name
unfolding char_mem before_char
before-value [] val h = refl
before-value (c ∷ s) val h = ground (arith, h, before-value s val)

after-value :
    (name val : Text) → char_mem b'=' name ≡ false → after_char b'=' (name ++ b'=' ∷ val) ≡ val
unfolding char_mem after_char
after-value [] val h = refl
after-value (c ∷ s) val h = ground (arith, h, after-value s val)

has-value : (name val : Text) → char_mem b'=' (name ++ b'=' ∷ val) ≡ true
unfolding char_mem
has-value [] val = refl
has-value (c ∷ s) val = ground (arith, has-value s val)

kind_of-long : (c : ℕ) (s : Text) → kind_of (codes "--" ++ c ∷ s) ≡ long (c ∷ s)
unfolding kind_of starts_with
kind_of-long c s = refl

abbrev add_option : Text × Text → Got → Got
add_option (opt, val) (got opts filenames) = got ((opt, val) ∷ opts) filenames
add_option (opt, val) getopt_error = getopt_error

with_option-add :
    (name val : Text) (g : Got) → with_option name val g ≡ add_option (codes "--" ++ name, val) g
with_option-add name val (got opts filenames) = refl
with_option-add name val getopt_error = refl

-- One option is read as it was written, whatever follows.
getopt-spelling :
    (table : List Text) (sp : Spelling) (rest : List Text)
    → IsKnown table sp
    → getopt table (args_of sp ++ rest) none ≡ add_option (option_of sp) (getopt table rest none)
unfolding getopt args_of option_of
getopt-spelling table (flag []) rest h = absurd (ground (arith, h.1))
getopt-spelling table (flag (c ∷ s)) rest h =
    rw (kind_of-long c s, before-whole (c ∷ s) h.0, long_has_args-flag table (c ∷ s) h.2, h.0)
      (with_option-add (c ∷ s) [] (getopt table rest none))
getopt-spelling table (joined [] val) rest h = absurd (ground (arith, h.1))
getopt-spelling table (joined (c ∷ s) val) rest h =
    rw
      (
        kind_of-long c (s ++ b'=' ∷ val),
        before-value (c ∷ s) val h.0,
        after-value (c ∷ s) val h.0,
        long_has_args-valued table (c ∷ s) h.2 h.3,
        has-value (c ∷ s) val,
      )
      (with_option-add (c ∷ s) val (getopt table rest none))
getopt-spelling table (apart [] val) rest h = absurd (ground (arith, h.1))
getopt-spelling table (apart (c ∷ s) val) rest h =
    rw (kind_of-long c s, before-whole (c ∷ s) h.0, long_has_args-valued table (c ∷ s) h.2 h.3, h.0)
      (with_option-add (c ∷ s) val (getopt table rest none))

getopt-spellings :
    (table : List Text) (sps : List Spelling) (rest filenames : List Text)
    → All (IsKnown table) sps
    → getopt table rest none ≡ got [] filenames
    → getopt table (args_of_all sps rest) none ≡ got (map option_of sps) filenames
unfolding args_of_all
getopt-spellings table [] rest filenames known h = h
getopt-spellings table (sp ∷ sps) rest filenames known h =
    getopt-spelling table sp (args_of_all sps rest) known.0
    ∙ ap (add_option (option_of sp)) (getopt-spellings table sps rest filenames known.1 h)

getopt-files :
    (table filenames : List Text)
    → IsFiles filenames
    → getopt table filenames none ≡ got [] filenames
unfolding getopt
getopt-files table [] h = refl
getopt-files table (f ∷ fs) h = rw h refl

-- The names of the files, behind `--` or not; without it none may look like an option.
abbrev pub tail_of : Bool → List Text → List Text
tail_of true filenames = codes "--" ∷ filenames
tail_of false filenames = filenames

abbrev pub IsTail : Bool → List Text → Type 0
IsTail true filenames = Unit
IsTail false filenames = IsFiles filenames

getopt-tail :
    (table filenames : List Text) (marked : Bool)
    → IsTail marked filenames
    → getopt table (tail_of marked filenames) none ≡ got [] filenames
getopt-tail table filenames true start = unfold getopt kind_of starts_with in refl
getopt-tail table filenames false start = getopt-files table filenames start

-- ParseArguments takes options of its table, written in any of the three ways in any order, and then
-- names of files, the first of which does not begin with `-` (or is `-`), or `--` and any names: it works
-- through exactly these options with these values, and then the files are exactly these names.
pub parse_arguments-args_of :
    (d : Disk) (g : Globals) (sps : List Spelling) (filenames : List Text) (marked : Bool)
    → All (IsKnown longopts) sps
    → IsTail marked filenames
    → parse_arguments d (args_of_all sps (tail_of marked filenames)) g
      ≡ with_files d filenames (on_options d (map option_of sps) (initial g))
unfolding parse_arguments
parse_arguments-args_of d g sps filenames marked known start = ap (on_got d g) (
    getopt-spellings longopts sps (tail_of marked filenames) filenames known
      (getopt-tail longopts filenames marked start))
