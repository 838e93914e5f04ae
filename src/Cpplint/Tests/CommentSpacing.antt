-- ===== src/Cpplint/Tests/CommentSpacing.antt =====
-- Comments behind code.
use adv_database_implementat.Base.{[], ◌∷◌, codes, is_space, ◌≡◌, refl}
use adv_database_implementat.Cpplint.CommentSpacing.{two_spaces, check_comment}
use adv_database_implementat.Cpplint.CommentSpacing.Spaces.{check_comment-spaces}

check_comment-spaces_example : check_comment (codes "i; // it") 4 0 ≡ two_spaces 4 ∷ []
unfolding is_space
check_comment-spaces_example =
    check_comment-spaces (codes "i") (codes "t") b';' 1 b'i' 4 0 (refl, (refl, tt)) refl
      (refl, refl) (refl, (refl, tt))
