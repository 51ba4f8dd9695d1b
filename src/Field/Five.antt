-- ===== src/Field/Five.antt =====
-- The integers modulo 5: a field that shows that the interface can be met, and runs the tests.
use barustenberg.Prelude.{arith, ℕ, zero, suc, ◌≡◌, ◌≢◌, refl, Option, none, some}
use barustenberg.Field.{Field}

pub data Five : Type 0 where
  f0 f1 f2 f3 f4 : Five

next : Five → Five
next f0 = f1
next f1 = f2
next f2 = f3
next f3 = f4
next f4 = f0

unfoldable pub add : Five → Five → Five
unfolding next
add f0 b = b
add f1 b = next b
add f2 b = next (next b)
add f3 b = next (next (next b))
add f4 b = next (next (next (next b)))

unfoldable pub mul : Five → Five → Five
unfolding add
mul f0 b = f0
mul f1 b = b
mul f2 b = add b b
mul f3 b = add b (add b b)
mul f4 b = add (add b b) (add b b)

unfoldable pub neg : Five → Five
neg f0 = f0
neg f1 = f4
neg f2 = f3
neg f3 = f2
neg f4 = f1

unfoldable pub inverse : Five → Option Five
inverse f0 = none
inverse f1 = some f1
inverse f2 = some f3
inverse f3 = some f2
inverse f4 = some f4

unfoldable pub pow : Five → ℕ → Five
unfolding mul
pow a zero = f1
pow a (suc n) = mul (pow a n) a

pub add_assoc : (a b c : Five) → add (add a b) c ≡ add a (add b c)
unfolding add
add_assoc a b c = ground arith

pub add_comm : (a b : Five) → add a b ≡ add b a
unfolding add
add_comm a b = ground arith

pub neg-add_self : (a : Five) → add (neg a) a ≡ f0
unfolding add neg
neg-add_self f0 = refl
neg-add_self _ = refl

pub mul_assoc : (a b c : Five) → mul (mul a b) c ≡ mul a (mul b c)
unfolding mul
mul_assoc a b c = ground arith

pub mul_comm : (a b : Five) → mul a b ≡ mul b a
unfolding mul
mul_comm a b = ground arith

pub mul-add : (a b c : Five) → mul a (add b c) ≡ add (mul a b) (mul a c)
unfolding mul
mul-add a b c = ground arith

pub inverse-some : (a b : Five) → inverse a ≡ some b → mul a b ≡ f1
unfolding inverse mul
inverse-some f0 f0 h = cc
inverse-some _ _ h = cc

pub inverse-none : (a : Five) → inverse a ≡ none → a ≡ f0
unfolding inverse
inverse-none f0 h = refl
inverse-none _ h = cc

pub one_ne_zero : f1 ≢ f0
one_ne_zero h = cc

instance unfoldable pub five : Field Five
unfolding add mul neg inverse pow
five = record {
  zero = f0;
  one = f1;
  add = add;
  mul = mul;
  neg = neg;
  inverse = inverse;
  pow = pow;
  add_assoc = add_assoc;
  add_comm = add_comm;
  zero-add = λ a. refl;
  neg-add_self = neg-add_self;
  mul_assoc = mul_assoc;
  mul_comm = mul_comm;
  one-mul = λ a. refl;
  mul-add = mul-add;
  one_ne_zero = one_ne_zero;
  inverse-zero = refl;
  inverse-some = inverse-some;
  inverse-none = inverse-none;
  pow-zero = λ a. refl;
  pow-suc = λ a n. refl;
}
