-- ===== src/Cpplint/Tests/SplitName.antt =====
-- The parts of a name.
use adv_database_implementat.Base.{[], refl, codes, ◌≡◌}
use adv_database_implementat.Cpplint.Paths.{trim_head, halves, split_path}
use adv_database_implementat.Cpplint.Includes.Classify.{cut_at_dot, split_ext_name, split_ext}
use adv_database_implementat.Cpplint.SplitName.{parts_of}

-- A name with a period at its beginning only has no extension.
hidden :
    parts_of (codes ".bashrc")
    ≡ record { directory = []; base_name = codes ".bashrc"; extension = [] }
unfolding parts_of split_path halves split_ext split_ext_name cut_at_dot trim_head
hidden = refl
