-- ===== src/Cpplint/HeaderGuard/Scan.antt =====
-- The lines that the scan for a header guard passes over, and the words of those that it reads.
use adv_database_implementat.Base.{
  ℕ, suc, ◌+◌, Bool, true, false, ◌&&◌, not, List, [], ◌∷◌, ◌++◌, Text, codes, length, starts_with,
  ◌=t=◌, is_space, All, arith, ◌≡◌, refl, ap, ◌∙◌, sym, append-nil,
}
use adv_database_implementat.Regex.{is_word}
use adv_database_implementat.Regex.Laws.{AllIn}
use adv_database_implementat.Cpplint.FunctionLengths.{words}
use adv_database_implementat.Cpplint.HeaderGuard.{Guard, guard_words, guard_line, guard_lines}

unfoldable pub no_directive : List Text → Bool
no_directive [] = true
no_directive (w ∷ ws) = not (w =t= codes "#ifndef") && not (w =t= codes "#define")

-- A line that the scan for the guard passes over.
unfoldable pub is_neutral : Text → Bool
is_neutral line = not (starts_with line (codes "#endif")) && no_directive (words line)

both : (a b : Bool) → (not a && b) ≡ true → (a ≡ false) × (b ≡ true)
both true b h = absurd (cc h)
both false b h = (refl, h)

falsity : (a : Bool) → not a ≡ true → a ≡ false
falsity true h = absurd (cc h)
falsity false h = refl

and_false : (b : Bool) → (b && false) ≡ false
and_false true = refl
and_false false = refl

guard_words-neutral :
    (n : ℕ) (ws : List Text) (g : Guard) → no_directive ws ≡ true → guard_words n ws g ≡ g
unfolding no_directive
guard_words-neutral n [] g h = refl
guard_words-neutral n (w ∷ []) g h = refl
guard_words-neutral n (w ∷ v ∷ ws) g h =
    let (no_ifndef, rest) = both (w =t= codes "#ifndef") (not (w =t= codes "#define")) h in
    rw
      (
        no_ifndef,
        falsity (w =t= codes "#define") rest,
        and_false (g.ifndef =t= []),
        and_false (g.define =t= []),
      )
      refl

guard_line-neutral :
    (n : ℕ) (line : Text) (g : Guard) → is_neutral line ≡ true → guard_line n line g ≡ g
unfolding is_neutral guard_line
guard_line-neutral n line g h =
    let (no_endif, rest) = both (starts_with line (codes "#endif")) (no_directive (words line)) h in
    rw (no_endif) (guard_words-neutral n (words line) g rest)

abbrev pub Neutral : List Text → Type 0
Neutral = All (λ line. is_neutral line ≡ true)

pub guard_lines-Neutral :
    (n : ℕ) (lines rest : List Text) (g : Guard)
    → Neutral lines
    → guard_lines n (lines ++ rest) g ≡ guard_lines (n + length lines) rest g
unfolding guard_lines
guard_lines-Neutral n [] rest g h = ap (λ m. guard_lines m rest g) (omega arith)
guard_lines-Neutral n (line ∷ lines) rest g h =
    ap (guard_lines (suc n) (lines ++ rest)) (guard_line-neutral n line g h.0)
    ∙ guard_lines-Neutral (suc n) lines rest g h.1
    ∙ ap (λ m. guard_lines m rest g) (omega arith)

pub guard_lines-Neutral_all :
    (n : ℕ) (lines : List Text) (g : Guard) → Neutral lines → guard_lines n lines g ≡ g
unfolding guard_lines
guard_lines-Neutral_all n lines g h =
    ap (λ l. guard_lines n l g) (sym (append-nil lines)) ∙ guard_lines-Neutral n lines [] g h

pub word-not_space : (c : ℕ) → is_word c ≡ true → is_space c ≡ false
unfolding is_word is_space
word-not_space c h = ground arith

pub words-word : (c : ℕ) (v : Text) → AllIn is_word (c ∷ v) → words (c ∷ v) ≡ (c ∷ v) ∷ []
unfolding words
words-word c [] h = rw (word-not_space c h.0) refl
words-word c (d ∷ v) h = rw (words-word d v h.1, word-not_space c h.0, word-not_space d h.1.0) refl
