-- ===== src/Cpplint/Config/Nearest.antt =====
-- The filters of the configuration file that is nearest to a file.
use adv_database_implementat.Base.{
  ℕ, zero, suc, ℤ, Bool, true, false, Option, some, none, List, [], ◌∷◌, ◌++◌, Text, codes, ◌=t=◌,
  =t=→≡, if◌then◌else◌, strip, ◌≡◌, refl, ap, sym, subst, ◌∙◌, Bool-cases, inl, inr, append-nil,
  append_assoc,
}
use adv_database_implementat.Cpplint.Paths.{split_path, join_two}
use adv_database_implementat.Cpplint.Config.{
  Host, CfgFile, readable, missing, unreadable, Walk, Found, continues, excluded, bad_pattern,
  go_on, next_round, walk, exclude, set_line_length, int_of, cfg_option, cfg_line, cfg_lines,
  read_config, before_char, after_char,
}

abbrev singleton_if : Bool → Text → List Text
singleton_if true v = v ∷ []
singleton_if false v = []

-- The value of `filter` on a line, if the line sets it.
unfoldable pub filters_of_line : Text → List Text
filters_of_line line =
    let text = before_char b'#' line in
    if strip text =t= []
    then []
    else singleton_if (strip (before_char b'=' text) =t= codes "filter")
        (strip (after_char b'=' text))

-- The values of `filter` in a file, in order.
unfoldable pub filters_of : List Text → List Text
filters_of [] = []
filters_of (line ∷ lines) = filters_of_line line ++ filters_of lines

-- What goes on has `xs` more among its filters.
unfoldable pub Adds : List Text → Walk → Found → Type 0
Adds xs w (continues w') = w'.cfg_filters ≡ w.cfg_filters ++ xs
Adds xs w (excluded w') = Unit
Adds xs w bad_pattern = Unit

if-Adds :
    (xs : List Text) (w : Walk) (b : Bool) (x y : Found)
    → Adds xs w x
    → Adds xs w y
    → Adds xs w (if b then x else y)
if-Adds xs w true x y h k = h
if-Adds xs w false x y h k = k

exclude-Adds : (w : Walk) (o : Option Bool) → Adds [] w (exclude o w)
unfolding Adds
exclude-Adds w none = tt
exclude-Adds w (some true) = tt
exclude-Adds w (some false) = sym (append-nil w.cfg_filters)

set_line_length-filters :
    (o : Option ℤ) (w : Walk) → (set_line_length o w).cfg_filters ≡ w.cfg_filters
set_line_length-filters none w = refl
set_line_length-filters (some n) w = refl

same-Adds : (w w' : Walk) → w'.cfg_filters ≡ w.cfg_filters → Adds [] w (continues w')
unfolding Adds
same-Adds w w' e = e ∙ sym (append-nil w.cfg_filters)

cfg_option-Adds :
    (h : Host) (cfg_file base_name name val : Text) (w : Walk)
    → Adds
        (singleton_if (name =t= codes "filter") val)
        w
        (cfg_option h cfg_file base_name name val w)
unfolding cfg_option
cfg_option-Adds h cfg_file base_name name val w =
    elim (Bool-cases (name =t= codes "set noparent")) [
      | inl noparent ↦
          subst
            (λ n.
              Adds (singleton_if (n =t= codes "filter") val) w
                (cfg_option h cfg_file base_name n val w))
            (sym (=t=→≡ name (codes "set noparent") noparent)) (same-Adds w _ refl)
      | inr other ↦ elim (Bool-cases (name =t= codes "filter")) [
        | inl filter ↦ rw (other, filter) (unfold Adds in refl)
        | inr no_filter ↦
            rw (other, no_filter)
              (if-Adds [] w (name =t= codes "exclude_files") _ _
                (if-Adds [] w (base_name =t= []) _ _ (same-Adds w _ refl)
                  (exclude-Adds w (h.matches val base_name)))
                (if-Adds [] w (name =t= codes "linelength") _ _
                  (same-Adds w _ (set_line_length-filters (int_of val) w))
                  (if-Adds [] w (name =t= codes "extensions") _ _ (same-Adds w _ refl) (
                    if-Adds [] w (name =t= codes "root") _ _ (same-Adds w _ refl) (
                      if-Adds [] w (name =t= codes "headers") _ _ (same-Adds w _ refl)
                        (same-Adds w _ refl))))))
      ]
    ]

cfg_line-Adds :
    (h : Host) (cfg_file base_name line : Text) (w : Walk)
    → Adds (filters_of_line line) w (cfg_line h cfg_file base_name line w)
unfolding cfg_line filters_of_line Adds
cfg_line-Adds h cfg_file base_name line w =
    elim (Bool-cases (strip (before_char b'#' line) =t= [])) [
      | inl blank ↦ rw blank (sym (append-nil w.cfg_filters))
      | inr full ↦ rw full (cfg_option-Adds h cfg_file base_name _ _ w)
    ]

further-Adds :
    (xs ys : List Text) (w w' : Walk) (found : Found)
    → w'.cfg_filters ≡ w.cfg_filters ++ xs
    → Adds ys w' found
    → Adds (xs ++ ys) w found
unfolding Adds
further-Adds xs ys w w' (continues v) e h =
    h ∙ ap (λ fs. fs ++ ys) e ∙ append_assoc w.cfg_filters xs ys
further-Adds xs ys w w' (excluded v) e h = tt
further-Adds xs ys w w' bad_pattern e h = tt

go_on-Adds :
    (f : Walk → Found) (xs ys : List Text) (w : Walk) (found : Found)
    → Adds xs w found
    → ((w' : Walk) → Adds ys w' (f w'))
    → Adds (xs ++ ys) w (go_on f found)
unfolding Adds
go_on-Adds f xs ys w (continues w') h rest = further-Adds xs ys w w' (f w') h (rest w')
go_on-Adds f xs ys w (excluded w') h rest = tt
go_on-Adds f xs ys w bad_pattern h rest = tt

cfg_lines-Adds :
    (h : Host) (cfg_file base_name : Text) (lines : List Text) (w : Walk)
    → Adds (filters_of lines) w (cfg_lines h cfg_file base_name lines w)
unfolding cfg_lines filters_of Adds
cfg_lines-Adds h cfg_file base_name [] w = sym (append-nil w.cfg_filters)
cfg_lines-Adds h cfg_file base_name (line ∷ lines) w =
    go_on-Adds (cfg_lines h cfg_file base_name lines) (filters_of_line line) (filters_of lines) w _
      (cfg_line-Adds h cfg_file base_name line w)
      (λ w'. cfg_lines-Adds h cfg_file base_name lines w')

-- The filters of a configuration file.
unfoldable pub config_filters : CfgFile → List Text
config_filters missing = []
config_filters unreadable = []
config_filters (readable lines) = filters_of lines

read_config-Adds :
    (h : Host) (cfg_file base_name : Text) (config : CfgFile) (w : Walk)
    → Adds (config_filters config) w (read_config h cfg_file base_name config w)
unfolding read_config config_filters Adds
read_config-Adds h cfg_file base_name missing w = sym (append-nil w.cfg_filters)
read_config-Adds h cfg_file base_name unreadable w = sym (append-nil w.cfg_filters)
read_config-Adds h cfg_file base_name (readable lines) w =
    cfg_lines-Adds h cfg_file base_name lines w

-- The walk only adds behind the filters that it has.
abbrev pub Extends : List Text → Option Found → Type 0
Extends fs none = Unit
Extends fs (some (continues w)) = (rest : List Text) × (w.cfg_filters ≡ fs ++ rest)
Extends fs (some (excluded w)) = Unit
Extends fs (some bad_pattern) = Unit

further-Extends : (fs xs : List Text) (o : Option Found) → Extends (fs ++ xs) o → Extends fs o
further-Extends fs xs none h = tt
further-Extends fs xs (some (continues w)) (rest, e) = (xs ++ rest, e ∙ append_assoc fs xs rest)
further-Extends fs xs (some (excluded w)) h = tt
further-Extends fs xs (some bad_pattern) h = tt

if-Extends :
    (fs : List Text) (b : Bool) (x y : Option Found)
    → Extends fs x
    → Extends fs y
    → Extends fs (if b then x else y)
if-Extends fs true x y h k = h
if-Extends fs false x y h k = k

next_round-Extends :
    (f : Walk → Option Found) (xs : List Text) (w : Walk) (found : Found)
    → Adds xs w found
    → ((w' : Walk) → Extends w'.cfg_filters (f w'))
    → Extends (w.cfg_filters ++ xs) (next_round f found)
unfolding Adds
next_round-Extends f xs w (continues w') h rest =
    if-Extends (w.cfg_filters ++ xs) w'.keep_looking (f w') (some (continues w'))
      (subst (λ fs. Extends fs (f w')) h (rest w')) ([], h ∙ sym (append-nil (w.cfg_filters ++ xs)))
next_round-Extends f xs w (excluded w') h rest = tt
next_round-Extends f xs w bad_pattern h rest = tt

walk-Extends :
    (h : Host) (fuel : ℕ) (path : Text) (w : Walk) → Extends w.cfg_filters (walk h fuel path w)
unfolding walk
walk-Extends h zero path w = tt
walk-Extends h (suc fuel) path w =
    let (dir, base) = split_path path in
    let config = h.config (join_two dir (codes "CPPLINT.cfg")) in
    if-Extends w.cfg_filters (base =t= []) (some (continues w)) _
      ([], sym (append-nil w.cfg_filters))
      (further-Extends w.cfg_filters (config_filters config) _ (
        next_round-Extends (walk h fuel dir) (config_filters config) w _
          (read_config-Adds h (join_two dir (codes "CPPLINT.cfg")) base config w)
          (λ w'. walk-Extends h fuel dir w')))

pub nearest-Extends :
    (h : Host) (fuel : ℕ) (path val : Text) (vals lines : List Text) (w : Walk)
    → (split_path path).1 =t= [] ≡ false
    → h.config (join_two (split_path path).0 (codes "CPPLINT.cfg")) ≡ readable lines
    → filters_of lines ≡ val ∷ vals
    → w.cfg_filters ≡ []
    → Extends (val ∷ vals) (walk h (suc fuel) path w)
unfolding walk config_filters
nearest-Extends h fuel path val vals lines w file found first start =
    let (dir, base) = split_path path in
    let cfg_file = join_two dir (codes "CPPLINT.cfg") in
    let config = h.config cfg_file in
    let adds = ap config_filters found ∙ first in
    rw file (
      subst (λ fs. Extends fs (next_round (walk h fuel dir) (read_config h cfg_file base config w)))
        (ap (λ fs. fs ++ config_filters config) start ∙ adds)
        (next_round-Extends (walk h fuel dir) (config_filters config) w _
          (read_config-Adds h cfg_file base config w) (λ w'. walk-Extends h fuel dir w')))
