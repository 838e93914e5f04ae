-- ===== src/Cpplint/Report.antt =====
-- What the checks of cpplint.py hand to their argument `error`: the functions of the model return
-- these in the order of the calls. The name of the file is the same in all calls and left out.
use adv_database_implementat.Base.{
  ℕ, zero, suc, ◌+◌, ◌/◌, ◌%◌, [], ◌∷◌, ◌++◌, Text, ltb, if◌then◌else◌,
}

pub record Report : Type 0 where
  pub linenum : ℕ
  pub category : Text
  pub confidence : ℕ
  pub message : Text

-- '%d' of a number, on fuel: each round drops a digit.
digits_of : ℕ → ℕ → Text
digits_of zero n = []
digits_of (suc fuel) n =
    let more = digits_of fuel (n / 10) in
    if ltb n 10 then (b'0' + n) ∷ [] else more ++ (b'0' + n % 10) ∷ []

unfoldable pub decimal : ℕ → Text
unfolding digits_of
decimal n = digits_of (suc n) n
