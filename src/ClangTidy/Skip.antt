-- ===== src/ClangTidy/Skip.antt =====
-- The files that CheckConfig.should_skip names.
use adv_database_implementat.Base.{
  Bool, true, false, ◌||◌, Text, codes, find, is_some, ◌≡◌, refl, ◌∙◌,
}
use adv_database_implementat.Regex.Laws.{AllIn, no_newline}
use adv_database_implementat.Regex.Substring.{match-find}
use adv_database_implementat.ClangTidy.{should_skip, any_match, ignore_pats}

or_false : (b : Bool) → (b || false) ≡ b
or_false true = refl
or_false false = refl

-- A path without a newline is skipped exactly if `/third_party/` occurs in it.
pub should_skip-find :
    (path : Text)
    → AllIn no_newline path
    → should_skip path ≡ is_some (find path (codes "/third_party/"))
unfolding should_skip any_match ignore_pats
should_skip-find path clean = or_false _ ∙ match-find (codes "/third_party/") path clean
