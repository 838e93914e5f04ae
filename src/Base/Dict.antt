-- ===== src/Base/Dict.antt =====
-- Python's `dict` as an association list, over keys with a decidable equality.
use mathlib.Core.Path.{◌≡◌, refl}
use mathlib.Core.Logic.{◌↔◌}
use mathlib.Core.Bool.{Bool, true, false}
use mathlib.Core.Option.{Option, none, some}
use mathlib.Core.List.{List, [], ◌∷◌}
use native.Mathlib.Omega.{arith}
use adv_database_implementat.Base.Tests.{if◌then◌else◌}
use adv_database_implementat.Base.Str.{Text, ◌=t=◌, =t=_iff}

pub record Key {ℓ} (K : Type ℓ) : Type ℓ where
  pub key_eq : K → K → Bool
  pub key_eq_iff : (a b : K) → (key_eq a b ≡ true) ↔ (a ≡ b)

instance abbrev pub text_key : Key Text
text_key = record { key_eq = ◌=t=◌; key_eq_iff = =t=_iff }

-- The keys of `_error_suppressions`: a category, or None.
abbrev pub option_eq : Option Text → Option Text → Bool
option_eq none none = true
option_eq (some s) (some t) = s =t= t
option_eq _ _ = false

pub option_eq_iff : (a b : Option Text) → (option_eq a b ≡ true) ↔ (a ≡ b)
option_eq_iff none none = ((λ h. refl), (λ h. refl))
option_eq_iff none (some t) = ((λ h. cc), (λ h. cc))
option_eq_iff (some s) none = ((λ h. cc), (λ h. cc))
option_eq_iff (some s) (some t) = ((λ h. cc ((=t=_iff s t).0 h)), (λ h. (=t=_iff s t).1 (cc)))

instance abbrev pub option_key : Key (Option Text)
option_key = record { key_eq = option_eq; key_eq_iff = option_eq_iff }

module _ {ℓ κ} {K : Type ℓ} {V : Type κ} ⦃e : Key K⦄ where
  -- d.get(k)
  unfoldable pub dict_get : List (K × V) → K → Option V
  dict_get [] k = none
  dict_get ((j, v) ∷ d) k = if e.key_eq j k then some v else dict_get d k

  -- d[k] = v
  unfoldable pub dict_put : List (K × V) → K → V → List (K × V)
  dict_put [] k v = (k, v) ∷ []
  dict_put ((j, w) ∷ d) k v = if e.key_eq j k then (j, v) ∷ d else (j, w) ∷ dict_put d k v

  pub dict_get-put :
      (d : List (K × V)) (k j : K) (v : V)
      → dict_get (dict_put d k v) j ≡ (if e.key_eq k j then some v else dict_get d j)
  unfolding dict_get dict_put
  dict_get-put [] k j v = refl
  dict_get-put ((i, w) ∷ d) k j v =
      ground (arith, e.key_eq_iff i k, e.key_eq_iff i j, e.key_eq_iff k j, dict_get-put d k j v)
