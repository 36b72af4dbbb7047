-- ===== src/Tracker/Reads.antt =====
-- What one map of amounts reads after an addition and a subtraction.
use tasch.Base.{
  ◌≡◌, String, ℤ, pos, ◌+ℤ◌, ◌-ℤ◌, ◌≤ℤ◌, Map, leb_ℤ, if◌then◌else◌, lookup-insert, lookup-delete,
  eq_iff, str_eq, arith, +ℤ_parts, -ℤ_parts, eq_of_parts,
}
use tasch.Tracker.{amount, add_amount, sub_amount}

-- What `sub_amount` leaves: no less than 0.
abbrev pub floor_sub : ℤ → ℤ → ℤ
floor_sub a k = if leb_ℤ (a -ℤ k) (pos 0) then pos 0 else a -ℤ k

module _ (node other : String) (k : ℤ) (m : Map ℤ) where
  pub amount-add_amount :
      amount other (add_amount node k m)
      ≡ (if str_eq node other then amount node m +ℤ k else amount other m)
  unfolding amount add_amount
  amount-add_amount = ground (arith, lookup-insert other node (amount node m +ℤ k) m)

  pub amount-sub_amount :
      amount other (sub_amount node k m)
      ≡ (if str_eq node other then floor_sub (amount node m) k else amount other m)
  unfolding amount sub_amount
  amount-sub_amount =
      ground (arith, lookup-insert other node (amount node m -ℤ k) m, lookup-delete other node m)

-- Taking back what was just given leaves each amount as it was.
pub amount-sub_amount-add_amount :
    (node other : String) (k : ℤ) (m : Map ℤ)
    → pos 0 ≤ℤ amount node m
    → pos 0 ≤ℤ k
    → amount other (sub_amount node k (add_amount node k m)) ≡ amount other m
amount-sub_amount-add_amount node other k m h hk = ground (
  arith,
  amount-sub_amount node other k (add_amount node k m),
  amount-add_amount node other k m,
  amount-add_amount node node k m,
  eq_iff node node,
  eq_iff node other,
  +ℤ_parts (amount node m) k,
  -ℤ_parts (amount node m +ℤ k) k,
  eq_of_parts (amount node m +ℤ k -ℤ k) (amount node m),
  eq_of_parts (pos 0) (amount node m),
)
