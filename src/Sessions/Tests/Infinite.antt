-- ===== src/Sessions/Tests/Infinite.antt =====
-- Whole numbers with an infinity and NaN: 0 times infinity is NaN, and the laws are met.
use ev_charge_platform.Prelude.{
  ℕ, suc, ℤ, pos, negsuc, ◌+ℤ◌, ◌*ℤ◌, ◌≤ℤ◌, quotient, pos_part, leb_ℤ, ◌≡◌, refl, Bool, true, false,
  Option, none, some, [], arith, if◌then◌else◌, ℕ_eq,
}
use ev_charge_platform.Sessions.Tariffs.{Doubles}
use ev_charge_platform.Sessions.Prices.{IsLawful}

pub data Extended : Type 0 where
  number : ℤ → Extended
  infinity : Extended
  nan : Extended

abbrev below : Extended → Extended → Bool
below (number a) (number b) = leb_ℤ a b
below (number a) infinity = true
below infinity infinity = true
below _ _ = false

abbrev sum_of : Extended → Extended → Extended
sum_of (number a) (number b) = number (a +ℤ b)
sum_of (number a) infinity = infinity
sum_of infinity (number b) = infinity
sum_of infinity infinity = infinity
sum_of _ _ = nan

abbrev times_infinity : ℤ → Extended
times_infinity (pos (suc n)) = infinity
times_infinity _ = nan

abbrev product_of : Extended → Extended → Extended
product_of (number a) (number b) = number (a *ℤ b)
product_of (number a) infinity = times_infinity a
product_of infinity (number b) = times_infinity b
product_of infinity infinity = infinity
product_of _ _ = nan

abbrev quotient_of : Extended → Extended → Extended
quotient_of (number a) (number b) = number (quotient a (pos_part b))
quotient_of (number a) infinity = number (pos 0)
quotient_of infinity (number b) = infinity
quotient_of _ _ = nan

abbrev larger_of : Extended → Extended → Extended
larger_of (number a) (number b) = number (if leb_ℤ a b then b else a)
larger_of nan _ = nan
larger_of _ nan = nan
larger_of _ _ = infinity

abbrev smaller_of : Extended → Extended → Extended
smaller_of (number a) (number b) = number (if leb_ℤ a b then a else b)
smaller_of (number a) infinity = number a
smaller_of infinity (number b) = number b
smaller_of infinity infinity = infinity
smaller_of _ _ = nan

abbrev finite : Extended → Bool
finite (number a) = true
finite _ = false

abbrev kept_number : Extended → Option Extended
kept_number (number a) = some (number a)
kept_number _ = none

instance abbrev pub extended_numbers : Doubles Extended
extended_numbers = record {
  of_integer = number;
  add = sum_of;
  multiply = product_of;
  divide = quotient_of;
  maximum = larger_of;
  minimum = smaller_of;
  round = λ a. a;
  epsilon = number (pos 0);
  co2_per_kwh = number (pos 0);
  at_most = below;
  is_finite = finite;
  to_column = λ p s a. kept_number a;
  increment_column = λ p s a b. kept_number (sum_of a b);
  decimal_text = λ a. [];
}

abbrev FromZero : Extended → Type 0
FromZero x = below (number (pos 0)) x ≡ true

sum_floor : (x y : Extended) → FromZero x → FromZero y → FromZero (sum_of x y)
unfolding ◌+ℤ◌
sum_floor (number a) (number b) h k = ground arith
sum_floor (number a) infinity h k = refl
sum_floor infinity (number b) h k = refl
sum_floor infinity infinity h k = refl
sum_floor nan y h k = cc h
sum_floor (number a) nan h k = cc k
sum_floor infinity nan h k = cc k

product_floor :
    (x y : Extended)
    → finite x ≡ true
    → finite y ≡ true
    → FromZero x
    → FromZero y
    → FromZero (product_of x y)
unfolding ◌*ℤ◌
product_floor (number a) (number b) e f h k = ground arith
product_floor infinity y e f h k = cc e
product_floor nan y e f h k = cc
product_floor (number a) infinity e f h k = cc f
product_floor (number a) nan e f h k = cc

scaled_floor : (x : Extended) (n : ℕ) → FromZero x → FromZero (product_of x (number (pos (suc n))))
unfolding ◌*ℤ◌
scaled_floor (number (pos a)) n h = ground arith
scaled_floor (number (negsuc a)) n h = ground arith
scaled_floor infinity n h = refl
scaled_floor nan n h = cc h

quotient_floor :
    (x : Extended) (n : ℕ) → FromZero x → FromZero (quotient_of x (number (pos (suc n))))
unfolding quotient
quotient_floor (number (pos a)) n h = ground arith
quotient_floor (number (negsuc a)) n h = ground arith
quotient_floor infinity n h = refl
quotient_floor nan n h = cc h

quotient_finite :
    (x : Extended) (n : ℕ) → finite x ≡ true → finite (quotient_of x (number (pos (suc n)))) ≡ true
quotient_finite (number a) n e = refl
quotient_finite infinity n e = cc e
quotient_finite nan n e = cc e

larger_floor : (x : Extended) → below x x ≡ true → FromZero (larger_of (number (pos 0)) x)
larger_floor (number a) h = ground arith
larger_floor infinity h = refl
larger_floor nan h = cc h

larger_finite : (x : Extended) → finite x ≡ true → finite (larger_of (number (pos 0)) x) ≡ true
larger_finite (number a) e = refl
larger_finite infinity e = cc e
larger_finite nan e = cc e

pub itself : (n : ℤ) → below (number n) (number n) ≡ true
itself n = ground arith

larger_number :
    (x y : Extended)
    → below x x ≡ true
    → below y y ≡ true
    → below (larger_of x y) (larger_of x y) ≡ true
larger_number (number a) (number b) h k = itself (if leb_ℤ a b then b else a)
larger_number (number a) infinity h k = refl
larger_number infinity (number b) h k = refl
larger_number infinity infinity h k = refl
larger_number nan y h k = cc h
larger_number (number a) nan h k = cc k
larger_number infinity nan h k = cc k

smaller_bound :
    (x y : Extended) → below x x ≡ true → below y y ≡ true → below (smaller_of x y) x ≡ true
smaller_bound (number a) (number b) h k = ground arith
smaller_bound (number a) infinity h k = itself a
smaller_bound infinity (number b) h k = refl
smaller_bound infinity infinity h k = refl
smaller_bound nan y h k = cc h
smaller_bound (number a) nan h k = cc k
smaller_bound infinity nan h k = cc k

smaller_floor : (x y : Extended) → FromZero x → FromZero y → FromZero (smaller_of x y)
smaller_floor (number a) (number b) h k = ground arith
smaller_floor (number a) infinity h k = h
smaller_floor infinity (number b) h k = k
smaller_floor infinity infinity h k = refl
smaller_floor nan y h k = cc h
smaller_floor (number a) nan h k = cc k
smaller_floor infinity nan h k = cc k

finite_itself : (x : Extended) → finite x ≡ true → below x x ≡ true
finite_itself (number a) e = itself a
finite_itself infinity e = cc
finite_itself nan e = cc e

stored_same : (x y : Extended) → kept_number x ≡ some y → FromZero x → FromZero y
stored_same (number a) y e h = ground (arith, e)
stored_same infinity y e h = cc e
stored_same nan y e h = cc

stored_finite : (x y : Extended) → kept_number x ≡ some y → finite x ≡ true
stored_finite (number a) y e = refl
stored_finite infinity y e = cc e
stored_finite nan y e = cc e

integer_floor : (n : ℤ) → pos 0 ≤ℤ n → FromZero (number n)
integer_floor n h = ground arith

pub extended_numbers-IsLawful : IsLawful Extended
extended_numbers-IsLawful = record {
  integer_floor = integer_floor;
  add_floor = sum_floor;
  multiply_floor = product_floor;
  scale_floor = λ x n _. scaled_floor x n;
  divide_floor = λ x n _. quotient_floor x n;
  divide_finite = λ x n _. quotient_finite x n;
  round_floor = λ x h. h;
  epsilon_floor = refl;
  maximum_floor = larger_floor;
  maximum_finite = larger_finite;
  maximum_number = larger_number;
  minimum_bound = smaller_bound;
  minimum_floor = smaller_floor;
  finite_number = finite_itself;
  integer_number = itself;
  small_finite = λ n h. refl;
  column_floor = λ p s. stored_same;
  column_finite = λ p s x y e h. stored_finite x y e;
}
