-- ===== src/Sessions/Tests/Numbers.antt =====
-- Whole numbers in the place of the floating-point ones: they meet the laws.
use ev_charge_platform.Prelude.{
  ℕ, suc, ℤ, pos, negsuc, ◌+ℤ◌, ◌*ℤ◌, ◌≤ℤ◌, quotient, pos_part, leb_ℤ, ◌≡◌, refl, true, some, arith,
  if◌then◌else◌, ℕ_eq,
}
use ev_charge_platform.Money.{show_integer}
use ev_charge_platform.Sessions.Tariffs.{Doubles}
use ev_charge_platform.Sessions.Prices.{IsLawful}

abbrev greater : ℤ → ℤ → ℤ
greater a b = if leb_ℤ a b then b else a

abbrev lesser : ℤ → ℤ → ℤ
lesser a b = if leb_ℤ a b then a else b

instance abbrev pub whole_numbers : Doubles ℤ
whole_numbers = record {
  of_integer = λ n. n;
  add = λ a b. a +ℤ b;
  multiply = λ a b. a *ℤ b;
  divide = λ a b. quotient a (pos_part b);
  maximum = greater;
  minimum = lesser;
  round = λ a. a;
  epsilon = pos 0;
  co2_per_kwh = pos 0;
  at_most = leb_ℤ;
  is_finite = λ a. true;
  to_column = λ p s a. some a;
  increment_column = λ p s a b. some (a +ℤ b);
  decimal_text = show_integer;
}

divided : (x : ℤ) (n : ℕ) → leb_ℤ (pos 0) x ≡ true → leb_ℤ (pos 0) (quotient x (suc n)) ≡ true
unfolding quotient
divided (pos x) n h = ground arith
divided (negsuc x) n h = ground arith

multiplied :
    (x y : ℤ) → leb_ℤ (pos 0) x ≡ true → leb_ℤ (pos 0) y ≡ true → leb_ℤ (pos 0) (x *ℤ y) ≡ true
unfolding ◌*ℤ◌
multiplied x y h k = ground arith

added : (x y : ℤ) → leb_ℤ (pos 0) x ≡ true → leb_ℤ (pos 0) y ≡ true → leb_ℤ (pos 0) (x +ℤ y) ≡ true
unfolding ◌+ℤ◌
added x y h k = ground arith

floored : (x : ℤ) → leb_ℤ (pos 0) (greater (pos 0) x) ≡ true
floored x = ground arith

pub in_order : (x : ℤ) → leb_ℤ x x ≡ true
in_order x = ground arith

under : (x y : ℤ) → leb_ℤ (lesser x y) x ≡ true
under x y = ground arith

least :
    (x y : ℤ) → leb_ℤ (pos 0) x ≡ true → leb_ℤ (pos 0) y ≡ true → leb_ℤ (pos 0) (lesser x y) ≡ true
least x y h k = ground arith

from_zero : (n : ℤ) → pos 0 ≤ℤ n → leb_ℤ (pos 0) n ≡ true
from_zero n h = ground arith

stored_floor : (x y : ℤ) → some x ≡ some y → leb_ℤ (pos 0) x ≡ true → leb_ℤ (pos 0) y ≡ true
stored_floor x y e h = let same : x ≡ y = ground arith in rw same at h

pub whole_numbers-IsLawful : IsLawful ℤ
whole_numbers-IsLawful = record {
  integer_floor = from_zero;
  add_floor = added;
  multiply_floor = λ x y _ _. multiplied x y;
  scale_floor = λ x n _ h. multiplied x (pos (suc n)) h (from_zero (pos (suc n)) (omega arith));
  divide_floor = λ x n _. divided x n;
  divide_finite = λ x n h e. refl;
  round_floor = λ x h. h;
  epsilon_floor = refl;
  maximum_floor = λ x h. floored x;
  maximum_finite = λ x e. refl;
  maximum_number = λ x y h k. in_order (greater x y);
  minimum_bound = λ x y h k. under x y;
  minimum_floor = least;
  finite_number = λ x h. in_order x;
  integer_number = in_order;
  small_finite = λ n h. refl;
  column_floor = λ p s x y. stored_floor x y;
  column_finite = λ p s x y e h. refl;
}
