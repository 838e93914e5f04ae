-- ===== src/Cpplint/Required/Tables.antt =====
-- The tables of the headers that declare templates, and the patterns that are made of them.
use adv_database_implementat.Base.{List, [], ◌∷◌, ◌++◌, map, String, Text, codes, text_key}
use adv_database_implementat.Regex.{
  Re, star, lazy_star, opt, alt, group, bol, word_boundary, space, any_char, chr, none_of, lit,
  chars, ◌⨾◌,
}

-- A pattern with the template and the header that it speaks for.
pub record Entry : Type 0 where
  pub pattern : Re
  pub template : Text
  pub header : Text

abbrev strings : List String → List Text
strings = map codes

unfoldable pub headers_containing_templates : List (Text × List Text)
headers_containing_templates =
    (codes "<deque>", strings ("deque" ∷ []))
    ∷ (
      codes "<functional>",
      strings (
          "unary_function" ∷ "binary_function" ∷ "plus" ∷ "minus" ∷ "multiplies" ∷ "divides"
          ∷ "modulus" ∷ "negate" ∷ "equal_to" ∷ "not_equal_to" ∷ "greater" ∷ "less"
          ∷ "greater_equal" ∷ "less_equal" ∷ "logical_and" ∷ "logical_or" ∷ "logical_not"
          ∷ "unary_negate" ∷ "not1" ∷ "binary_negate" ∷ "not2" ∷ "bind1st" ∷ "bind2nd"
          ∷ "pointer_to_unary_function" ∷ "pointer_to_binary_function" ∷ "ptr_fun" ∷ "mem_fun_t"
          ∷ "mem_fun" ∷ "mem_fun1_t" ∷ "mem_fun1_ref_t" ∷ "mem_fun_ref_t" ∷ "const_mem_fun_t"
          ∷ "const_mem_fun1_t" ∷ "const_mem_fun_ref_t" ∷ "const_mem_fun1_ref_t" ∷ "mem_fun_ref"
          ∷ []),
    )
    ∷ (codes "<limits>", strings ("numeric_limits" ∷ []))
    ∷ (codes "<list>", strings ("list" ∷ []))
    ∷ (codes "<map>", strings ("multimap" ∷ []))
    ∷ (
      codes "<memory>",
      strings (
          "allocator" ∷ "make_shared" ∷ "make_unique" ∷ "shared_ptr" ∷ "unique_ptr" ∷ "weak_ptr"
          ∷ []),
    )
    ∷ (codes "<queue>", strings ("queue" ∷ "priority_queue" ∷ []))
    ∷ (codes "<set>", strings ("multiset" ∷ []))
    ∷ (codes "<stack>", strings ("stack" ∷ []))
    ∷ (codes "<string>", strings ("char_traits" ∷ "basic_string" ∷ []))
    ∷ (codes "<tuple>", strings ("tuple" ∷ []))
    ∷ (codes "<unordered_map>", strings ("unordered_map" ∷ "unordered_multimap" ∷ []))
    ∷ (codes "<unordered_set>", strings ("unordered_set" ∷ "unordered_multiset" ∷ []))
    ∷ (codes "<utility>", strings ("pair" ∷ []))
    ∷ (codes "<vector>", strings ("vector" ∷ []))
    ∷ (codes "<hash_map>", strings ("hash_map" ∷ "hash_multimap" ∷ []))
    ∷ (codes "<hash_set>", strings ("hash_set" ∷ "hash_multiset" ∷ []))
    ∷ (codes "<slist>", strings ("slist" ∷ []))
    ∷ []

unfoldable pub headers_maybe_templates : List (Text × List Text)
headers_maybe_templates =
    (
      codes "<algorithm>",
      strings ("copy" ∷ "max" ∷ "min" ∷ "min_element" ∷ "sort" ∷ "transform" ∷ []),
    )
    ∷ (codes "<utility>", strings ("forward" ∷ "make_pair" ∷ "move" ∷ "swap" ∷ []))
    ∷ []

-- \bstring\b
unfoldable pub pattern_string : Re
pattern_string = word_boundary ⨾ lit "string" ⨾ word_boundary

-- [^>.]\btemplate(<.*?>)?\([^\)]
unfoldable pub called_template : Text → Re
called_template template =
    none_of ">."
    ⨾ word_boundary
    ⨾ chars template
    ⨾ opt (group 1 (chr b'<' ⨾ lazy_star any_char ⨾ chr b'>'))
    ⨾ chr b'('
    ⨾ none_of ")"

-- (\<|\b)template\s*\<
unfoldable pub opened_template : Text → Re
opened_template template =
    group 1 (alt (chr b'<') word_boundary) ⨾ chars template ⨾ star space ⨾ chr b'<'

-- [^>.]\bset\s*\<
unfoldable pub set_pattern : Re
set_pattern = none_of ">." ⨾ word_boundary ⨾ lit "set" ⨾ star space ⨾ chr b'<'

-- (std\b::\bmap\s*\<)|(^(std\b::\b)map\b\(\s*\<)
unfoldable pub map_pattern : Re
map_pattern =
    alt
      (group 1
        (lit "std" ⨾ word_boundary ⨾ lit "::" ⨾ word_boundary ⨾ lit "map" ⨾ star space ⨾ chr b'<'))
      (group 2 (
        bol
        ⨾ group 3 (lit "std" ⨾ word_boundary ⨾ lit "::" ⨾ word_boundary)
        ⨾ lit "map"
        ⨾ word_boundary
        ⨾ chr b'('
        ⨾ star space
        ⨾ chr b'<'))

unfoldable pub entries : (Text → Re) → (Text → Text) → List (Text × List Text) → List Entry
entries pattern_of name_of [] = []
entries pattern_of name_of ((header, templates) ∷ rest) =
    map (λ t. record { pattern = pattern_of t; template = name_of t; header = header }) templates
    ++ entries pattern_of name_of rest

unfoldable pub patterns_headers_maybe_templates : List Entry
patterns_headers_maybe_templates =
    entries called_template (λ t. t) headers_maybe_templates
    ++ (record { pattern = set_pattern; template = codes "set<>"; header = codes "<set>" }
        ∷ record { pattern = map_pattern; template = codes "map<>"; header = codes "<map>" }
        ∷ [])

unfoldable pub patterns_templates : List Entry
patterns_templates = entries opened_template (λ t. t ++ codes "<>") headers_containing_templates
