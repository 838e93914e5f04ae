-- ===== src/Cpplint/Required/Keys.antt =====
-- The headers in the dictionaries of CheckForIncludeWhatYouUse.
use adv_database_implementat.Base.{
  ℕ, suc, Bool, true, false, ◌&&◌, ◌||◌, not, Option, none, some, List, [], ◌∷◌, Text, ◌=t=◌, =t=→≡,
  =t=_refl, any, text_mem, char_mem, dict_put, text_key, arith, ◌≡◌, refl, sym, ap, Bool-cases, inl,
  inr,
}
use adv_database_implementat.Regex.{Re, Matched, group_of, or_empty}
use adv_database_implementat.Cpplint.Required.{
  Entry, Requirements, Includes, keys, require, string_entry, is_found, found_in_std, is_skipped,
  patterns_headers_maybe_templates, patterns_templates, require_line, require_lines, set_default,
  include_of, set_include, read_includes, insert_sorted, value_before, sorted, not_included,
  bare_name,
}

text_mem-same : (f x : Text) (xs : List Text) → f =t= x ≡ true → text_mem x xs ≡ text_mem f xs
text_mem-same f x xs e = ap (λ (y : Text). text_mem y xs) (sym (=t=→≡ f x e))

keys-put :
    {A : Type 0} (d : List (Text × A)) (x k : Text) (v : A)
    → text_mem x (keys (dict_put d k v)) ≡ (text_mem x (keys d) || x =t= k)
unfolding keys dict_put text_mem
keys-put [] x k v = ground arith
keys-put ((j, w) ∷ d) x k v = elim (Bool-cases (j =t= k)) [
  | inl same ↦ rw (=t=→≡ j k same, =t=_refl k) (ground arith)
  | inr other ↦ rw other (ground (arith, keys-put d x k v))
]

-- A table has an entry for the header whose pattern is found.
unfoldable pub asks_for : (Re → Text → Bool) → List Entry → Text → Text → Bool
asks_for found es header line = any (λ (e : Entry). header =t= e.header && found e.pattern line) es

keys-require :
    (found : Re → Text → Bool) (linenum : ℕ) (line header : Text) (es : List Entry)
    (required : Requirements)
    → text_mem header (keys (require found linenum line es required))
      ≡ (text_mem header (keys required) || asks_for found es header line)
unfolding require asks_for
keys-require found linenum line header [] required = ground arith
keys-require found linenum line header (e ∷ es) required =
    elim (Bool-cases (found e.pattern line)) [
      | inl hit ↦ ground (
        arith,
        hit,
        keys-require found linenum line header es
            (dict_put required e.header (linenum, e.template)),
        keys-put required header e.header (linenum, e.template),
      )
      | inr miss ↦ ground (arith, miss, keys-require found linenum line header es required)
    ]

-- A line uses something of the header: it is no preprocessor line, and an entry for the header is
-- found (for the tables that ask for it, in no namespace other than std).
unfoldable pub uses : Text → Text → Bool
uses header line =
    not (is_skipped line)
    && (asks_for found_in_std (string_entry ∷ []) header line
        || (asks_for is_found patterns_headers_maybe_templates header line
            || (char_mem b'<' line && asks_for found_in_std patterns_templates header line)))

keys-require_line :
    (linenum : ℕ) (line header : Text) (required : Requirements)
    → text_mem header (keys (require_line linenum line required))
      ≡ (text_mem header (keys required) || uses header line)
unfolding require_line uses
keys-require_line linenum line header required =
    let with_string = require found_in_std linenum line (string_entry ∷ []) required in
    let with_maybe = require is_found linenum line patterns_headers_maybe_templates with_string in
    let first = keys-require found_in_std linenum line header (string_entry ∷ []) required in
    let second =
      keys-require is_found linenum line header patterns_headers_maybe_templates with_string in
    let third = keys-require found_in_std linenum line header patterns_templates with_maybe in
    elim (Bool-cases (is_skipped line)) [
      | inl skip ↦ rw skip (ground arith)
      | inr keep ↦ rw keep (elim (Bool-cases (char_mem b'<' line)) [
        | inl angle ↦ rw (angle, third, second, first) (ground arith)
        | inr none_there ↦ rw (none_there, second, first) (ground arith)
      ])
    ]

pub keys-require_lines :
    (linenum : ℕ) (lines : List Text) (header : Text) (required : Requirements)
    → text_mem header (keys (require_lines linenum lines required))
      ≡ (text_mem header (keys required) || any (uses header) lines)
unfolding require_lines
keys-require_lines linenum [] header required = ground arith
keys-require_lines linenum (line ∷ lines) header required = ground (
  arith,
  keys-require_lines (suc linenum) lines header (require_line linenum line required),
  keys-require_line linenum line header required,
)

-- A line includes the header.
abbrev names : Text → Option Matched → Bool
names x none = false
names x (some m) = x =t= or_empty (group_of m 2)

unfoldable pub line_includes : Text → Text → Bool
line_includes x line = names x (include_of line)

keys-set_default :
    (d : Includes) (x include : Text) (linenum : ℕ)
    → text_mem x (keys (set_default d include linenum)) ≡ (text_mem x (keys d) || x =t= include)
unfolding set_default
keys-set_default d x include linenum = elim (Bool-cases (text_mem include (keys d))) [
  | inl has ↦ elim (Bool-cases (x =t= include)) [
    | inl same ↦ ground (arith, has, same, text_mem-same x include (keys d) same)
    | inr other ↦ ground (arith, has, other)
  ]
  | inr new ↦ ground (arith, new, keys-put d x include linenum)
]

keys-set_include :
    (m : Option Matched) (d : Includes) (x : Text) (linenum : ℕ)
    → text_mem x (keys (set_include m linenum d)) ≡ (text_mem x (keys d) || names x m)
keys-set_include none d x linenum = ground arith
keys-set_include (some m) d x linenum = keys-set_default d x (or_empty (group_of m 2)) linenum

pub keys-read_includes :
    (linenum : ℕ) (lines : List Text) (d : Includes) (x : Text)
    → text_mem x (keys (read_includes linenum lines d))
      ≡ (text_mem x (keys d) || any (line_includes x) lines)
unfolding read_includes line_includes
keys-read_includes linenum [] d x = ground arith
keys-read_includes linenum (line ∷ lines) d x = ground (
  arith,
  keys-read_includes (suc linenum) lines (set_include (include_of line) linenum d) x,
  keys-set_include (include_of line) d x linenum,
)

pub keys-insert_sorted :
    (r : Text × (ℕ × Text)) (rs : Requirements) (h : Text)
    → text_mem h (keys (insert_sorted r rs)) ≡ (h =t= r.0 || text_mem h (keys rs))
unfolding insert_sorted keys text_mem
keys-insert_sorted r [] h = refl
keys-insert_sorted r (q ∷ qs) h = elim (Bool-cases (value_before q.1 r.1)) [
  | inl before ↦ rw before (ground (arith, keys-insert_sorted r qs h))
  | inr behind ↦ rw behind refl
]

pub keys-sorted :
    (rs : Requirements) (h : Text) → text_mem h (keys (sorted rs)) ≡ text_mem h (keys rs)
unfolding sorted keys text_mem
keys-sorted [] h = refl
keys-sorted (r ∷ rs) h = ground (arith, keys-insert_sorted r (sorted rs) h, keys-sorted rs h)

pub keys-not_included :
    (included : List Text) (rs : Requirements) (h : Text)
    → text_mem h (keys (not_included included rs))
      ≡ (text_mem h (keys rs) && not (text_mem (bare_name h) included))
unfolding not_included keys text_mem
keys-not_included included [] h = ground arith
keys-not_included included (r ∷ rs) h = elim (Bool-cases (h =t= r.0)) [
  | inl same ↦
      rw (=t=→≡ h r.0 same) (ground (arith, keys-not_included included rs r.0, =t=_refl r.0))
  | inr other ↦ ground (arith, other, keys-not_included included rs h)
]
