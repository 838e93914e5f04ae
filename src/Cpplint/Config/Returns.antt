-- ===== src/Cpplint/Config/Returns.antt =====
-- The loop of ProcessConfigOverrides ends.
use adv_database_implementat.Base.{
  ℕ, zero, suc, ◌<◌, Bool, true, false, Option, some, none, [], Text, length, is_some, ◌=t=◌,
  if◌then◌else◌, arith, ◌≡◌, refl, Bool-cases, inl, inr,
}
use adv_database_implementat.Cpplint.Paths.{split_path}
use adv_database_implementat.Cpplint.Paths.Components.{split_path-shorter}
use adv_database_implementat.Cpplint.Config.{
  Host, Settings, Walk, Found, continues, excluded, bad_pattern, next_round, walk, outcome_of,
  process_config_overrides,
}

if-is_some :
    {A : Type 0} (b : Bool) (x y : Option A)
    → is_some x ≡ true
    → is_some y ≡ true
    → is_some (if b then x else y) ≡ true
if-is_some true x y h k = h
if-is_some false x y h k = k

next_round-returns :
    (f : Walk → Option Found) (found : Found)
    → ((w : Walk) → is_some (f w) ≡ true)
    → is_some (next_round f found) ≡ true
next_round-returns f (continues w) h =
    if-is_some w.keep_looking (f w) (some (continues w)) (h w) refl
next_round-returns f (excluded w) h = refl
next_round-returns f bad_pattern h = refl

walk-returns :
    (h : Host) (fuel : ℕ) (path : Text) (w : Walk)
    → length path < fuel
    → is_some (walk h fuel path w) ≡ true
unfolding walk
walk-returns h zero path w enough = absurd (omega arith)
walk-returns h (suc fuel) path w enough = elim (Bool-cases ((split_path path).1 =t= [])) [
  | inl top ↦ rw top refl
  | inr below ↦ rw below (
      next_round-returns (walk h fuel (split_path path).0) _ (λ w'.
        walk-returns h fuel (split_path path).0 w'
          (omega (arith, enough, split_path-shorter path below))))
]

outcome_of-returns : (o : Option Found) → is_some o ≡ true → is_some (outcome_of o) ≡ true
outcome_of-returns none h = h
outcome_of-returns (some (continues w)) h = refl
outcome_of-returns (some (excluded w)) h = refl
outcome_of-returns (some bad_pattern) h = refl

-- The loop of ProcessConfigOverrides ends, whatever the name of the file and the configuration
-- files are.
pub process_config_overrides-returns :
    (h : Host) (filename : Text) (s : Settings)
    → is_some (process_config_overrides h filename s) ≡ true
unfolding process_config_overrides
process_config_overrides-returns h filename s =
    outcome_of-returns _
      (walk-returns h (suc (length (h.abspath filename))) (h.abspath filename) _ (omega arith))
