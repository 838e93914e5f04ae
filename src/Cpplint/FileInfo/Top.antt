-- ===== src/Cpplint/FileInfo/Top.antt =====
-- The walks of FileInfo.RepositoryName up the directories.
use adv_database_implementat.Base.{
  ℕ, zero, suc, ◌+◌, ◌<◌, true, false, ◌&&◌, not, some, [], ◌∷◌, ◌++◌, Text, length, drop, ==_refl,
  codes, ◌=t=◌, =t=→≡, if◌then◌else◌, arith, ◌≡◌, ◌⊎◌, refl, ap, sym, ◌∙◌, subst, Bool-cases, inl,
  inr,
}
use adv_database_implementat.Cpplint.Paths.{dirname, join_two}
use adv_database_implementat.Cpplint.Paths.Components.{
  dirname-proper, dirname-Begins, Begins, Begins-trans, Begins-refl,
}
use adv_database_implementat.Cpplint.FileInfo.{
  Files, full_name, has_vcs, vcs_root, common_prefix, search_vcs, below_root, repository_name,
}

-- The directory `k` steps up.
unfoldable pub ancestor : ℕ → Text → Text
ancestor zero dir = dir
ancestor (suc k) dir = ancestor k (dirname dir)

-- The directory is the given one or stands above it.
abbrev pub IsAbove : Text → Text → Type 0
IsAbove top dir = (j : ℕ) × (top ≡ ancestor j dir)

-- Neither the directory nor one above it holds a repository, but for the top of the file system.
abbrev pub NoneFrom : Files → Text → Type 0
NoneFrom f dir =
    (i : ℕ)
    → (has_vcs f (ancestor i dir) && not (dirname (ancestor i dir) =t= ancestor i dir)) ≡ false

module _ (f : Files) where
  -- The highest directory with a repository that is `current` or stands above it.
  abbrev Found : Text → Text → Type 0
  Found current top = (has_vcs f top ≡ true) × IsAbove top current × NoneFrom f (dirname top)

  -- What a walk from `current` can end with: the directory at hand, or the one that it finds.
  abbrev Ends : Text → Text → Text → Type 0
  Ends root current top = ((top ≡ root) × NoneFrom f current) ⊎ Found current top

  Found-higher : (current top : Text) → Found (dirname current) top → Found current top
  unfolding ancestor
  Found-higher current top (vcs, (j, e), none_above) = (vcs, (suc j, e), none_above)

  Found-here :
      (current top : Text)
      → has_vcs f current ≡ true
      → Ends current (dirname current) top
      → Found current top
  unfolding ancestor
  Found-here current top has (inl (same, none_above)) =
      subst (Found current) (sym same) (has, (0, refl), none_above)
  Found-here current top has (inr found) = Found-higher current top found

  Ends-higher :
      (root current top : Text)
      → has_vcs f current ≡ false
      → Ends root (dirname current) top
      → Ends root current top
  unfolding ancestor
  Ends-higher root current top has_none (inr found) = inr (Found-higher current top found)
  Ends-higher root current top has_none (inl (same, none_above)) = inl (same, none_from)
    where
      none_from : NoneFrom f current
      none_from zero = rw has_none refl
      none_from (suc i) = none_above i

  ancestor-top : (k : ℕ) (dir : Text) → dirname dir ≡ dir → ancestor k dir ≡ dir
  unfolding ancestor
  ancestor-top zero dir h = refl
  ancestor-top (suc k) dir h = ap (ancestor k) h ∙ ancestor-top k dir h

  -- Above the top of the file system nothing is proper.
  none_proper :
      (k : ℕ) (dir : Text)
      → (dirname dir =t= dir) ≡ true
      → (dirname (ancestor k dir) =t= ancestor k dir) ≡ true
  none_proper k dir at_top =
      subst (λ t. (dirname t =t= t) ≡ true)
        (sym (ancestor-top k dir (=t=→≡ (dirname dir) dir at_top))) at_top

  vcs_root-Ends :
      (fuel : ℕ) (root current : Text)
      → length current < fuel
      → (top : Text) × (vcs_root f fuel root current ≡ some top) × Ends root current top
  unfolding vcs_root
  vcs_root-Ends zero root current enough = absurd (omega arith)
  vcs_root-Ends (suc fuel) root current enough =
      elim (Bool-cases (dirname current =t= current))
        as (λ x.
          (top : Text) × (vcs_root f (suc fuel) root current ≡ some top) × Ends root current top) [
            | inl at_top ↦ (
              root,
              rw at_top refl,
              inl (refl, λ i. ground (arith, none_proper i current at_top)),
            )
            | inr below ↦
                let shorter = dirname-proper current below in
                elim (Bool-cases (has_vcs f current))
                  as (λ x.
                    (top : Text) × (vcs_root f (suc fuel) root current ≡ some top)
                    × Ends root current top) [
                      | inl has ↦
                          let (top, e, h) =
                            vcs_root-Ends fuel current (dirname current)
                              (omega (arith, shorter, enough)) in
                          (top, rw (below, has) e, inr (Found-here current top has h))
                      | inr has_none ↦
                          let (top, e, h) =
                            vcs_root-Ends fuel root (dirname current)
                              (omega (arith, shorter, enough)) in
                          (top, rw (below, has_none) e, Ends-higher root current top has_none h)
                    ]
          ]

  vcs_root-at :
      (k fuel : ℕ) (root current : Text)
      → length current < fuel
      → (dirname (ancestor k current) =t= ancestor k current) ≡ false
      → has_vcs f (ancestor k current) ≡ true
      → (top : Text) × (vcs_root f fuel root current ≡ some top) × Found (ancestor k current) top
  unfolding vcs_root ancestor
  vcs_root-at k zero root current enough proper has = absurd (omega arith)
  vcs_root-at zero (suc fuel) root current enough proper has =
      let shorter = dirname-proper current proper in
      let (top, e, h) =
        vcs_root-Ends fuel current (dirname current) (omega (arith, shorter, enough)) in
      (top, rw (proper, has) e, Found-here current top has h)
  vcs_root-at (suc k) (suc fuel) root current enough proper has =
      elim (Bool-cases (dirname current =t= current))
        as (λ x.
          (top : Text) × (vcs_root f (suc fuel) root current ≡ some top)
          × Found (ancestor k (dirname current)) top) [
            | inl at_top ↦ absurd (cc (none_proper (suc k) current at_top, proper))
            | inr below ↦
                let next = if has_vcs f current then current else root in
                let (top, e, found) =
                  vcs_root-at k fuel next (dirname current)
                    (omega (arith, dirname-proper current below, enough)) proper has in
                (top, rw below e, found)
          ]

  ancestor-Begins : (k : ℕ) (dir : Text) → Begins (ancestor k dir) dir
  unfolding ancestor
  ancestor-Begins zero dir = Begins-refl dir
  ancestor-Begins (suc k) dir =
      Begins-trans (ancestor k (dirname dir)) (dirname dir) dir (ancestor-Begins k (dirname dir))
        (dirname-Begins dir)

  common_prefix-Begins : (s rest : Text) → common_prefix s (s ++ rest) ≡ s
  unfolding common_prefix
  common_prefix-Begins [] rest = refl
  common_prefix-Begins (c ∷ s) rest = rw (==_refl c, common_prefix-Begins s rest) refl

  repository_name-search :
      (filename : Text)
      → f.repository ≡ []
      → f.exists (full_name f filename) ≡ true
      → repository_name f filename
        ≡ search_vcs f (full_name f filename) (dirname (full_name f filename))
  unfolding repository_name
  repository_name-search filename no_flag here =
      let flag : (f.repository =t= []) ≡ true = ap (λ t. t =t= []) no_flag in rw (here, flag) refl

  search_vcs-found :
      (fullname dir top rest : Text)
      → f.exists (join_two dir (codes ".svn")) ≡ false
      → vcs_root f (suc (length dir)) dir dir ≡ some top
      → has_vcs f top ≡ true
      → dir ≡ top ++ rest
      → search_vcs f fullname dir ≡ some (drop (length top + 1) fullname)
  unfolding search_vcs below_root
  search_vcs-found fullname dir top rest no_svn found vcs whole =
      let common : common_prefix top dir ≡ top =
        ap (common_prefix top) whole ∙ common_prefix-Begins top rest in
      rw (no_svn, found, vcs, common) refl

  -- For a file that exists, without --repository and without `.svn` beside the file: if a
  -- directory `k` steps of os.path.dirname above that of the file, other than the top of the file
  -- system, holds a repository, then RepositoryName ends and cuts off, with the character behind
  -- it, the name of a directory that holds a repository and is that one or some further steps
  -- above it, and no directory above the one that is found holds a repository, but for the top of
  -- the file system.
  pub repository_name-top :
      (filename : Text) (k : ℕ)
      → f.repository ≡ []
      → f.exists (full_name f filename) ≡ true
      → f.exists (join_two (dirname (full_name f filename)) (codes ".svn")) ≡ false
      → (dirname (ancestor k (dirname (full_name f filename)))
          =t= ancestor k (dirname (full_name f filename)))
        ≡ false
      → has_vcs f (ancestor k (dirname (full_name f filename))) ≡ true
      → (top : Text) × (repository_name f filename
          ≡ some (drop (length top + 1) (full_name f filename)))
        × (has_vcs f top ≡ true)
        × IsAbove top (ancestor k (dirname (full_name f filename)))
        × NoneFrom f (dirname top)
  repository_name-top filename k no_flag here no_svn proper has =
      let fullname = full_name f filename in
      let dir = dirname fullname in
      let (top, e, found) = vcs_root-at k (suc (length dir)) dir dir (omega arith) proper has in
      let (vcs, (j, above), none_above) = found in
      let begins : Begins top (ancestor k dir) =
        subst (λ t. Begins t (ancestor k dir)) (sym above) (ancestor-Begins j (ancestor k dir)) in
      let (rest, whole) = Begins-trans top (ancestor k dir) dir begins (ancestor-Begins k dir) in
      (
        top,
        repository_name-search filename no_flag here
            ∙ search_vcs-found fullname dir top rest no_svn e vcs whole,
        vcs,
        (j, above),
        none_above,
      )
