-- ===== src/Js/Number.antt =====
-- Numbers that `JSON.parse` can return. Every finite double is a whole number of units of
-- 2^-1074, so it is kept exactly, as its floor and the units above the floor. JSON text has no NaN
-- (1e999 is an infinity), and the source nowhere tells -0 from 0.
use dotfiles_ai.Base.{
  ℕ, suc, ◌≡◌, Bool, true, false, ◌&&◌, ◌||◌, arith, leb, ltb, ◌==◌, if◌then◌else◌,
}

-- `negsuc n` is -(n + 1).
pub data ℤ : Type 0 where
  pos : ℕ → ℤ
  negsuc : ℕ → ℤ

pub data Number : Type 0 where
  finite : (floor : ℤ) → (units : ℕ) → Number
  infinite : (negative : Bool) → Number

abbrev pub whole : ℕ → Number
whole n = finite (pos n) 0

unfoldable pub ltb_ℤ : ℤ → ℤ → Bool
ltb_ℤ (pos a) (pos b) = ltb a b
ltb_ℤ (pos a) (negsuc b) = false
ltb_ℤ (negsuc a) (pos b) = true
ltb_ℤ (negsuc a) (negsuc b) = ltb b a

unfoldable pub eqb_ℤ : ℤ → ℤ → Bool
eqb_ℤ (pos a) (pos b) = a == b
eqb_ℤ (negsuc a) (negsuc b) = a == b
eqb_ℤ _ _ = false

-- `<` on numbers.
unfoldable pub number_lt : Number → Number → Bool
unfolding ltb_ℤ eqb_ℤ
number_lt (finite a u) (finite b v) = ltb_ℤ a b || (eqb_ℤ a b && ltb u v)
number_lt (finite a u) (infinite negative) = if negative then false else true
number_lt (infinite negative) (finite b v) = negative
number_lt (infinite true) (infinite false) = true
number_lt (infinite _) (infinite _) = false

-- `===` on numbers.
unfoldable pub number_eq : Number → Number → Bool
unfolding eqb_ℤ
number_eq (finite a u) (finite b v) = eqb_ℤ a b && u == v
number_eq (infinite true) (infinite true) = true
number_eq (infinite false) (infinite false) = true
number_eq _ _ = false

-- `Number.isInteger`.
unfoldable pub is_integer : Number → Bool
is_integer (finite a u) = u == 0
is_integer (infinite _) = false

-- `Number.isFinite`.
unfoldable pub is_finite : Number → Bool
is_finite (finite a u) = true
is_finite (infinite _) = false

-- `!Number.isInteger(n) || n < 1` is false exactly for these.
pub positive_whole :
    (n : Number)
    → is_integer n ≡ true
    → number_lt n (whole 1) ≡ false
    → (k : ℕ) × (n ≡ whole (suc k))
unfolding is_integer number_lt
positive_whole (finite (pos ℕ.zero) u) i l = absurd (ground arith)
positive_whole (finite (pos (suc k)) u) i l = (k, ground arith)
positive_whole (finite (negsuc a) u) i l = absurd (ground arith)
positive_whole (infinite b) i l = absurd (ground arith)

pub number_lt-whole : (a b : ℕ) → number_lt (whole a) (whole b) ≡ ltb a b
unfolding number_lt
number_lt-whole a b = ground arith

-- `<=` on numbers.
unfoldable pub number_le : Number → Number → Bool
unfolding number_lt number_eq
number_le a b = number_lt a b || number_eq a b

pub number_le-whole : (a b : ℕ) → number_le (whole a) (whole b) ≡ leb a b
unfolding number_le
number_le-whole a b = ground arith
