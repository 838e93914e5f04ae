-- ===== src/Cpplint/ProcessFile/Uniform.antt =====
-- Files whose lines all end in the same way.
use adv_database_implementat.Base.{
  ℕ, suc, true, false, List, [], ◌∷◌, ◌++◌, Text, split, ◌==◌, All, ◌≡◌, refl, ap, ◌∙◌, sym,
  Bool-cases, inl, inr, append_assoc, All-append,
}
use adv_database_implementat.Regex.Laws.{AllIn, no_newline}
use adv_database_implementat.Cpplint.ProcessFile.{
  ends_in_cr, rstrip_cr, strip_line_ends, read_lines, check_line_ends, add_line,
}

-- Lines, each with an end behind it, and what is behind the last end.
unfoldable pub join_lines : Text → List Text → Text → Text
join_lines ending [] last = last
join_lines ending (line ∷ lines) last = line ++ (ending ++ join_lines ending lines last)

-- No newline in the lines, and no carriage return at their ends.
abbrev pub Plain : List Text → Type 0
Plain = All (λ line. AllIn no_newline line × (ends_in_cr line ≡ false))

split-line :
    (line rest : Text)
    → AllIn no_newline line
    → split b'\n' (line ++ b'\n' ∷ rest) ≡ line ∷ split b'\n' rest
unfolding split
split-line [] rest h = refl
split-line (c ∷ line) rest h = elim (Bool-cases (c == b'\n')) [
  | inl newline ↦ absurd (cc)
  | inr other ↦ rw (other, split-line line rest h.1) refl
]

split-last : (line : Text) → AllIn no_newline line → split b'\n' line ≡ line ∷ []
unfolding split
split-last [] h = refl
split-last (c ∷ line) h = elim (Bool-cases (c == b'\n')) [
  | inl newline ↦ absurd (cc)
  | inr other ↦ rw (other, split-last line h.1) refl
]

pub split-nonempty :
    (s : Text) → (line : Text) × (lines : List Text) × (split b'\n' s ≡ line ∷ lines)
unfolding split
split-nonempty [] = ([], [], refl)
split-nonempty (c ∷ s) =
    let (p, ps, e) = split-nonempty s in
    elim (Bool-cases (c == b'\n')) [
      | inl newline ↦ rw newline ([], split b'\n' s, refl)
      | inr other ↦ rw (other, e) (c ∷ p, ps, refl)
    ]

cr_at_end : (line : Text) → ends_in_cr (line ++ b'\r' ∷ []) ≡ true
unfolding ends_in_cr
cr_at_end [] = refl
cr_at_end (c ∷ []) = refl
cr_at_end (c ∷ d ∷ line) = cr_at_end (d ∷ line)

rstrip_cr-plain : (line : Text) → ends_in_cr line ≡ false → rstrip_cr line ≡ line
unfolding rstrip_cr ends_in_cr
rstrip_cr-plain [] h = refl
rstrip_cr-plain (c ∷ []) h = rw h refl
rstrip_cr-plain (c ∷ d ∷ line) h = rw (rstrip_cr-plain (d ∷ line) h) refl

rstrip_cr-append : (line : Text) → ends_in_cr line ≡ false → rstrip_cr (line ++ b'\r' ∷ []) ≡ line
unfolding rstrip_cr ends_in_cr
rstrip_cr-append [] h = refl
rstrip_cr-append (c ∷ []) h = rw h refl
rstrip_cr-append (c ∷ d ∷ line) h = rw (rstrip_cr-append (d ∷ line) h) refl

strip-cons :
    (n : ℕ) (line s : Text)
    → strip_line_ends n (line ∷ split b'\n' s)
      ≡ add_line n line (strip_line_ends (suc n) (split b'\n' s))
unfolding strip_line_ends
strip-cons n line s = let (p, ps, e) = split-nonempty s in rw e refl

-- The numbers of the lines, from `n` on.
unfoldable pub numbers : ℕ → List Text → List ℕ
numbers n [] = []
numbers n (line ∷ lines) = n ∷ numbers (suc n) lines

strip-lf :
    (n : ℕ) (lines : List Text) (last : Text)
    → Plain lines
    → AllIn no_newline last
    → strip_line_ends n (split b'\n' (join_lines (b'\n' ∷ []) lines last))
      ≡ record { lines = lines ++ last ∷ []; lf_lines = numbers n lines; crlf_lines = [] }
unfolding join_lines numbers strip_line_ends
strip-lf n [] last plain clean = ap (strip_line_ends n) (split-last last clean)
strip-lf n (line ∷ lines) last plain clean =
    let rest = join_lines (b'\n' ∷ []) lines last in
    ap (strip_line_ends n) (split-line line rest plain.0.0)
    ∙ strip-cons n line rest
    ∙ ap (add_line n line) (strip-lf (suc n) lines last plain.1 clean)
    ∙ rw plain.0.1 refl

strip-crlf :
    (n : ℕ) (lines : List Text) (last : Text)
    → Plain lines
    → AllIn no_newline last
    → strip_line_ends n (split b'\n' (join_lines (b'\r' ∷ b'\n' ∷ []) lines last))
      ≡ record { lines = lines ++ last ∷ []; lf_lines = []; crlf_lines = numbers n lines }
unfolding join_lines numbers strip_line_ends
strip-crlf n [] last plain clean = ap (strip_line_ends n) (split-last last clean)
strip-crlf n (line ∷ lines) last plain clean =
    let rest = join_lines (b'\r' ∷ b'\n' ∷ []) lines last in
    let with_cr = line ++ b'\r' ∷ [] in
    ap (λ t. strip_line_ends n (split b'\n' t))
      (sym (append_assoc line (b'\r' ∷ []) (b'\n' ∷ rest)))
    ∙ ap (strip_line_ends n) (
        split-line with_cr rest
          (All-append (λ c. no_newline c ≡ true) line (b'\r' ∷ []) plain.0.0 (refl, tt)))
    ∙ strip-cons n with_cr rest
    ∙ ap (add_line n with_cr) (strip-crlf (suc n) lines last plain.1 clean)
    ∙ rw (cr_at_end line, rstrip_cr-append line plain.0.1) refl

check_line_ends-none :
    (lines : List Text) (lf : List ℕ)
    → check_line_ends (record { lines = lines; lf_lines = lf; crlf_lines = [] }) ≡ []
unfolding check_line_ends
check_line_ends-none lines [] = refl
check_line_ends-none lines (n ∷ lf) = refl

-- A text whose lines all end in LF and the same text with CR LF give the same lines, those that
-- stand between the ends, and no error about the ends.
pub read_lines-uniform :
    (lines : List Text) (last : Text)
    → Plain lines
    → AllIn no_newline last
    → ((read_lines (join_lines (b'\n' ∷ []) lines last)).lines ≡ lines ++ last ∷ [])
      × ((read_lines (join_lines (b'\r' ∷ b'\n' ∷ []) lines last)).lines ≡ lines ++ last ∷ [])
      × (check_line_ends (read_lines (join_lines (b'\n' ∷ []) lines last)) ≡ [])
      × (check_line_ends (read_lines (join_lines (b'\r' ∷ b'\n' ∷ []) lines last)) ≡ [])
unfolding read_lines check_line_ends
read_lines-uniform lines last plain clean =
    let lf = strip-lf 1 lines last plain clean in
    let crlf = strip-crlf 1 lines last plain clean in
    (
      ap (λ r. r.lines) lf,
      ap (λ r. r.lines) crlf,
      rw lf (check_line_ends-none (lines ++ last ∷ []) (numbers 1 lines)),
      rw crlf refl,
    )
