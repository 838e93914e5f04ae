-- ===== src/Cpplint/IncludeState/Order.antt =====
-- The order of the sections: the errors of CheckNextIncludeOrder, and the section that it leaves.
use adv_database_implementat.Base.{
  ℕ, ◌≤◌, Bool, true, false, ◌||◌, not, Option, List, [], ◌∷◌, Text, ◌==◌, if◌then◌else◌, is_some,
  arith, ◌≡◌,
}
use adv_database_implementat.Cpplint.IncludeState.{
  HeaderType, c_sys_header, cpp_sys_header, likely_my_header, possible_my_header, other_header,
  IncludeState, check_next_include_order,
}

-- CheckNextIncludeOrder on the headers of a stretch of includes, in order.
unfoldable pub check_all : List HeaderType → IncludeState → IncludeState
check_all [] s = s
check_all (h ∷ hs) s = check_all hs (check_next_include_order h s).0

-- What matters of the headers already seen.
pub record History : Type 0 where
  -- a header of this file
  pub mine : Bool
  pub c_sys : Bool
  pub cpp_sys : Bool
  -- another header, or one of this file behind a header that is not
  pub late : Bool

abbrev pub fresh : History
fresh = record { mine = false; c_sys = false; cpp_sys = false; late = false }

abbrev mine_after : History → History
mine_after p = record p { mine = true; late = p.late || (p.c_sys || p.cpp_sys) }

unfoldable pub remember : HeaderType → History → History
remember c_sys_header p = record p { c_sys = true }
remember cpp_sys_header p = record p { cpp_sys = true }
remember likely_my_header p = mine_after p
remember possible_my_header p = mine_after p
remember other_header p = record p { late = true }

unfoldable pub remember_all : List HeaderType → History → History
remember_all [] p = p
remember_all (h ∷ hs) p = remember_all hs (remember h p)

-- The section that the history calls for.
abbrev pub section_of : History → ℕ
section_of p =
    if p.late then 4 else if p.cpp_sys then 3 else if p.c_sys then 2 else if p.mine then 1 else 0

-- Out of order: a C system header behind a C++ one or a late one, a C++ one behind a late one.
abbrev pub out_of_order : HeaderType → History → Bool
out_of_order c_sys_header p = p.cpp_sys || p.late
out_of_order cpp_sys_header p = p.late
out_of_order _ p = false

-- One check moves the section forward or leaves it, within the five; an error leaves it, and the
-- last header is dropped exactly by an error or a change of section.
pub check_next_include_order-moves :
    (h : HeaderType) (s : IncludeState) (t : IncludeState) (message : Option Text)
    → check_next_include_order h s ≡ (t, message)
    → s.section ≤ 4
    → (s.section ≤ t.section)
      × (t.section ≤ 4)
      × (is_some message ≡ true → t.section ≡ s.section)
      × (t.last_header
          ≡ (if is_some message || not (t.section == s.section) then [] else s.last_header))
unfolding check_next_include_order
check_next_include_order-moves c_sys_header s t message e h = ground arith
check_next_include_order-moves _ s t message e h = ground arith
