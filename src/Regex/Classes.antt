-- ===== src/Regex/Classes.antt =====
-- The replacement of each character of a class by one text.
use mathlib.Core.List.{reverse_aux-eq, reverse-append}
use adv_database_implementat.Base.{
  ℕ, zero, suc, ◌<◌, Bool, true, false, not, none, some, [], ◌∷◌, ◌++◌, reverse, reverse_aux,
  reverse-reverse, Text, length, drop, if◌then◌else◌, arith, ◌≡◌, refl, ap, ap₂, sym, ◌∙◌,
  Bool-cases, inl, inr, length-reverse, drop-append, append-nil, length-append,
}
use adv_database_implementat.Regex.{Re, set, Cursor, run, search_from, sub_from, sub, to_match}
use adv_database_implementat.Regex.Laws.{
  AllIn, Stops, at, span-reverse_aux, search_from-skip, search_from-end, sub_from-none,
}

pub search_from-hit :
    (r : Re) (c : ℕ) (s b : Text) (d : Cursor)
    → run r (at b (c ∷ s) []) some ≡ some d
    → search_from r b (c ∷ s) ≡ some (to_match (at b (c ∷ s) []) d)
unfolding search_from
search_from-hit r c s b d h = rw (h, search_from) refl

-- The text up to the first character outside a class.
pub cut :
    (p : ℕ → Bool) (s : Text)
    → (pre : Text) × (tail : Text) × (s ≡ pre ++ tail) × AllIn p pre × Stops p tail
cut p [] = ([], [], refl, tt, tt)
cut p (c ∷ s) =
    let (pre, tail, e, inside, stop) = cut p s in
    elim (Bool-cases (p c))
      as (λ x. (pre : Text) × (tail : Text) × (c ∷ s ≡ pre ++ tail) × AllIn p pre × Stops p tail) [
        | inl holds ↦ (c ∷ pre, tail, ap (λ t. c ∷ t) e, (holds, inside), stop)
        | inr fails ↦ ([], c ∷ s, refl, tt, fails)
      ]

module _ (p : ℕ → Bool) where
  abbrev Outside : Text → Type 0
  Outside = AllIn (λ c. not (p c))

  outside : (c : ℕ) → not (p c) ≡ true → p c ≡ false
  outside c h = elim (Bool-cases (p c)) [
    | inl holds ↦ absurd (cc (ap not holds, h))
    | inr fails ↦ fails
  ]

  inside : (c : ℕ) → not (p c) ≡ false → p c ≡ true
  inside c h = elim (Bool-cases (p c)) [
    | inl holds ↦ holds
    | inr fails ↦ absurd (cc (ap not fails, h))
  ]

  search-found :
      (pre b tail : Text) (x : ℕ)
      → Outside pre
      → p x ≡ true
      → search_from (set p) b (pre ++ x ∷ tail)
        ≡ some (record {
          prefix = reverse (reverse_aux pre b);
          whole = x ∷ [];
          suffix = tail;
          groups = [];
        })
  unfolding run
  search-found [] b tail x out here =
      search_from-hit (set p) x tail b (at (x ∷ b) tail []) (rw here refl)
      ∙ ap (λ w. some (record { prefix = reverse b; whole = w; suffix = tail; groups = [] }))
          (span-reverse_aux (x ∷ []) b (x ∷ tail) tail [] [])
  search-found (c ∷ pre) b tail x out here =
      search_from-skip (set p) c (pre ++ x ∷ tail) b (rw (outside c out.0) refl)
      ∙ search-found pre (c ∷ b) tail x out.1 here

  search-nothing : (s b : Text) → Outside s → search_from (set p) b s ≡ none
  unfolding run
  search-nothing [] b out = search_from-end (set p) b refl
  search-nothing (c ∷ s) b out =
      search_from-skip (set p) c s b (rw (outside c out.0) refl) ∙ search-nothing s (c ∷ b) out.1

  -- Each character of the class gives way to `new`.
  unfoldable pub replaced : Text → Text → Text
  replaced new [] = []
  replaced new (c ∷ s) = (if p c then new else c ∷ []) ++ replaced new s

  replaced-Outside :
      (new pre tail : Text) → Outside pre → replaced new (pre ++ tail) ≡ pre ++ replaced new tail
  unfolding replaced
  replaced-Outside new [] tail out = refl
  replaced-Outside new (c ∷ pre) tail out =
      rw (outside c out.0, replaced-Outside new pre tail out.1) refl

  passed : (pre b : Text) → drop (length b) (reverse (reverse_aux pre b)) ≡ pre
  passed pre b =
      ap₂ drop (sym (length-reverse b)) (
        ap reverse (reverse_aux-eq pre b)
        ∙ reverse-append (reverse pre) b
        ∙ ap (λ t. reverse b ++ t) (reverse-reverse pre))
      ∙ drop-append (reverse b) pre

  sub_from-nothing :
      (fuel : ℕ) (new b s pre : Text)
      → s ≡ pre ++ []
      → Outside pre
      → sub_from fuel (set p) (λ m. new) b s ≡ replaced new s
  unfolding replaced
  sub_from-nothing fuel new b s pre e out =
      sub_from-none fuel (set p) (λ m. new) b s
        (ap (search_from (set p) b) (e ∙ append-nil pre) ∙ search-nothing pre b out)
      ∙ sym (ap (replaced new) e ∙ replaced-Outside new pre [] out ∙ sym e)

  sub_from-one :
      (fuel : ℕ) (new b s pre tail : Text) (x : ℕ)
      → s ≡ pre ++ x ∷ tail
      → Outside pre
      → p x ≡ true
      → sub_from fuel (set p) (λ m. new) (x ∷ reverse (reverse (reverse_aux pre b))) tail
        ≡ replaced new tail
      → sub_from (suc fuel) (set p) (λ m. new) b s ≡ replaced new s
  unfolding sub_from replaced
  sub_from-one fuel new b s pre tail x e out here rest =
      let hit = ap (search_from (set p) b) e ∙ search-found pre b tail x out here in
      rw (hit, sub_from, passed pre b, rest)
        (sym (ap (replaced new) e ∙ replaced-Outside new pre (x ∷ tail) out ∙ rw here refl))

  sub_from-round :
      (fuel : ℕ) (new b s pre tail : Text)
      → s ≡ pre ++ tail
      → Outside pre
      → Stops (λ c. not (p c)) tail
      → length s < suc fuel
      → ((a t : Text) → length t < fuel → sub_from fuel (set p) (λ m. new) a t ≡ replaced new t)
      → sub_from (suc fuel) (set p) (λ m. new) b s ≡ replaced new s
  sub_from-round fuel new b s pre [] e out stop enough rest =
      sub_from-nothing (suc fuel) new b s pre e out
  sub_from-round fuel new b s pre (x ∷ tail) e out stop enough rest =
      sub_from-one fuel new b s pre tail x e out (inside x stop) (
        rest (x ∷ reverse (reverse (reverse_aux pre b))) tail
          (omega (arith, enough, ap length e, length-append pre (x ∷ tail))))

  sub_from-class :
      (fuel : ℕ) (new b s : Text)
      → length s < fuel
      → sub_from fuel (set p) (λ m. new) b s ≡ replaced new s
  sub_from-class zero new b s enough = absurd (omega arith)
  sub_from-class (suc fuel) new b s enough =
      let (pre, tail, e, out, stop) = cut (λ c. not (p c)) s in
      sub_from-round fuel new b s pre tail e out stop enough (λ a t. sub_from-class fuel new a t)

  -- re.sub for a class of characters.
  pub sub-class : (new s : Text) → sub (set p) (λ m. new) s ≡ replaced new s
  unfolding sub
  sub-class new s = sub_from-class (suc (length s)) new [] s (omega arith)
