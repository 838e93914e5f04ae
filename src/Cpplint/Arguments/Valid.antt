-- ===== src/Cpplint/Arguments/Valid.antt =====
-- The state that ParseArguments leaves.
use adv_database_implementat.Base.{
  ℤ, pos, negsuc, Bool, true, false, ◌||◌, Option, none, some, List, [], ◌∷◌, Text, codes, ◌=t=◌,
  if◌then◌else◌, text_mem, arith, ◌≡◌, refl, subst,
}
use adv_database_implementat.Cpplint.LintState.{
  LintState, set_filters, add_filters, first_unsigned, set_output_format, set_quiet,
  set_verbose_level, set_counting_style,
}
use adv_database_implementat.Cpplint.LintState.Filters.{AllSigned, first_unsigned→AllSigned}
use adv_database_implementat.Cpplint.Config.{int_of}
use adv_database_implementat.Cpplint.Arguments.{
  Disk, Globals, Locals, Exit, value_error, Next, next, exit, output_formats, counting_styles,
  on_option, on_options, go_on, set_verbosity, set_linelength, Parsed, parsed, ended, finish,
  apply_locals, with_files, on_got, parse_arguments, initial, longopts,
}
use adv_database_implementat.Cpplint.Arguments.Getopt.{Got, got, getopt_error, getopt}

-- The output format and the counting style are such as the options allow, or no style was given.
pub record IsAllowed (output_format counting_style : Text) : Type 0 where
  pub format_allowed : text_mem output_format output_formats ≡ true
  pub style_allowed : text_mem counting_style ([] ∷ counting_styles) ≡ true

unfoldable pub Allows : Next → Type 0
Allows (next l) = IsAllowed l.output_format l.counting_style
Allows (exit e) = Unit

same-Allows :
    (l l' : Locals)
    → IsAllowed l.output_format l.counting_style
    → l'.output_format ≡ l.output_format
    → l'.counting_style ≡ l.counting_style
    → Allows (next l')
unfolding Allows
same-Allows l l' h format style = record {
  format_allowed = rw format h.format_allowed;
  style_allowed = rw style h.style_allowed;
}

exit-Allows : (e : Exit) → Allows (exit e)
unfolding Allows
exit-Allows e = tt

if-Allows : (b : Bool) (x y : Next) → Allows x → Allows y → Allows (if b then x else y)
if-Allows true x y h k = h
if-Allows false x y h k = k

tested-Allows :
    (b : Bool) (l : Locals) (e : Exit)
    → (b ≡ true → IsAllowed l.output_format l.counting_style)
    → Allows (if b then next l else exit e)
unfolding Allows
tested-Allows true l e h = h refl
tested-Allows false l e h = tt

set_verbosity-Allows :
    (val : Text) (o : Option ℤ) (l : Locals)
    → IsAllowed l.output_format l.counting_style
    → Allows (set_verbosity val o l)
set_verbosity-Allows val none l h = exit-Allows (value_error val)
set_verbosity-Allows val (some n) l h = same-Allows l _ h refl refl

set_linelength-Allows :
    (o : Option ℤ) (l : Locals)
    → IsAllowed l.output_format l.counting_style
    → Allows (set_linelength o l)
set_linelength-Allows none l h = exit-Allows _
set_linelength-Allows (some n) l h = same-Allows l _ h refl refl

style-member :
    (val : Text) → text_mem val counting_styles ≡ true → text_mem val ([] ∷ counting_styles) ≡ true
unfolding text_mem
style-member val h = rw h (ground arith)

on_option-Allows :
    (d : Disk) (opt val : Text) (l : Locals)
    → IsAllowed l.output_format l.counting_style
    → Allows (on_option d opt val l)
unfolding on_option
on_option-Allows d opt val l h = if-Allows (opt =t= codes "--help") _ _ (exit-Allows _) (
    if-Allows (opt =t= codes "--version") _ _ (exit-Allows _) (
      if-Allows (opt =t= codes "--output") _ _
        (tested-Allows (text_mem val output_formats) _ _
          (λ e. record { format_allowed = e; style_allowed = h.style_allowed }))
        (if-Allows (opt =t= codes "--quiet") _ _ (same-Allows l _ h refl refl) (
          if-Allows (opt =t= codes "--verbose" || opt =t= codes "--v") _ _
            (set_verbosity-Allows val (int_of val) l h)
            (if-Allows (opt =t= codes "--filter") _ _
              (if-Allows (val =t= []) _ _ (exit-Allows _) (same-Allows l _ h refl refl))
              (if-Allows (opt =t= codes "--counting") _ _
                (tested-Allows (text_mem val counting_styles) _ _ (λ e. record {
                  format_allowed = h.format_allowed;
                  style_allowed = style-member val e;
                }))
                (if-Allows (opt =t= codes "--root") _ _ (same-Allows l _ h refl refl) (
                  if-Allows (opt =t= codes "--repository") _ _ (same-Allows l _ h refl refl) (
                    if-Allows (opt =t= codes "--linelength") _ _
                      (set_linelength-Allows (int_of val) l h)
                      (if-Allows (opt =t= codes "--exclude") _ _ (same-Allows l _ h refl refl) (
                        if-Allows (opt =t= codes "--extensions") _ _ (same-Allows l _ h refl refl) (
                          if-Allows (opt =t= codes "--headers") _ _ (same-Allows l _ h refl refl) (
                            if-Allows (opt =t= codes "--recursive") _ _
                              (same-Allows l _ h refl refl)
                              (same-Allows l _ h refl refl))))))))))))))

go_on-Allows :
    (f : Locals → Next) (n : Next)
    → Allows n
    → ((l : Locals) → IsAllowed l.output_format l.counting_style → Allows (f l))
    → Allows (go_on f n)
go_on-Allows f (next l) h rest = rest l (unfold Allows in h)
go_on-Allows f (exit e) h rest = exit-Allows e

on_options-Allows :
    (d : Disk) (opts : List (Text × Text)) (l : Locals)
    → IsAllowed l.output_format l.counting_style
    → Allows (on_options d opts l)
unfolding on_options
on_options-Allows d [] l h = same-Allows l l h refl refl
on_options-Allows d ((opt, val) ∷ opts) l h =
    go_on-Allows (on_options d opts) (on_option d opt val l) (on_option-Allows d opt val l h)
      (λ l' h'. on_options-Allows d opts l' h')

-- The output format is one of the four, the counting style one of the three or none, and each filter
-- has its sign.
pub record IsValid (s : LintState) : Type 0 where
  pub allowed : IsAllowed s.output_format s.counting
  pub signed : AllSigned s.filters

unfoldable pub EndsValid : Parsed → Type 0
EndsValid (parsed filenames g) = IsValid g.settings.lint
EndsValid (ended e) = Unit

finish-signed :
    (filenames : List Text) (g : Globals) (style : Text) (s : LintState) (unsigned : Option Text)
    → IsAllowed s.output_format style
    → first_unsigned s.filters ≡ unsigned
    → EndsValid (finish filenames g (s, unsigned) style)
unfolding EndsValid set_counting_style
finish-signed filenames g style s none h e = record {
  allowed = h;
  signed = first_unsigned→AllSigned s.filters e;
}
finish-signed filenames g style s (some filt) h e = tt

finish-valid :
    (filenames : List Text) (g : Globals) (filters style : Text) (s : LintState)
    → IsAllowed s.output_format style
    → EndsValid (finish filenames g (set_filters filters s) style)
unfolding set_filters add_filters
finish-valid filenames g filters style s h = finish-signed filenames g style _ _ h refl

apply_locals-valid :
    (filenames : List Text) (l : Locals) (n : ℤ)
    → IsAllowed l.output_format l.counting_style
    → EndsValid (apply_locals filenames l n)
apply_locals-valid filenames l (negsuc n) h = unfold EndsValid in tt
apply_locals-valid filenames l (pos n) h =
    finish-valid filenames l.globals l.filters l.counting_style _
      (unfold set_verbose_level set_quiet set_output_format in h)

with_files-valid :
    (d : Disk) (filenames : List Text) (n : Next) → Allows n → EndsValid (with_files d filenames n)
with_files-valid d filenames (exit e) h = unfold EndsValid in tt
with_files-valid d [] (next l) h = unfold EndsValid in tt
with_files-valid d (f ∷ filenames) (next l) h =
    apply_locals-valid _ l l.verbosity (unfold Allows in h)

on_got-valid :
    (d : Disk) (g : Globals) (r : Got)
    → text_mem g.settings.lint.output_format output_formats ≡ true
    → EndsValid (on_got d g r)
unfolding text_mem
on_got-valid d g getopt_error h = unfold EndsValid in tt
on_got-valid d g (got opts filenames) h =
    with_files-valid d filenames _
      (on_options-Allows d opts (initial g) (record { format_allowed = h; style_allowed = refl }))

-- Whatever the arguments are: if ParseArguments returns, the output format is one of the four that
-- there are (if it was before), the counting style one of the three or none, and every filter begins with
-- a sign, so that the assertion in _ShouldPrintError holds.
pub parse_arguments-IsValid :
    (d : Disk) (args filenames : List Text) (g g' : Globals)
    → text_mem g.settings.lint.output_format output_formats ≡ true
    → parse_arguments d args g ≡ parsed filenames g'
    → IsValid g'.settings.lint
unfolding parse_arguments EndsValid
parse_arguments-IsValid d args filenames g g' h e =
    subst EndsValid e (on_got-valid d g (getopt longopts args none) h)
