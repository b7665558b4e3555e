-- ===== src/Base/Bits.antt =====
-- `^` and `& 1` at variables, from the recursion on binary digits that the native operations mean.
use wendougee_data_ha.Base.{
  ℕ, zero, suc, ◌+◌, ◌*◌, ◌/◌, ◌%◌, ◌^◌, ◌≤◌, ◌<◌, ◌≡◌, refl, sym, ap, ◌∙◌, arith, bit_and, bit_xor,
}
use Prim.Native.Nat.{min, digits, differ, bit_and-bitwise, bit_xor-bitwise}
use native.Mathlib.Nat.{pow-suc}

-- two amounts of fuel that both cover the left number
same_digits :
    (rest : ℕ → ℕ) (digit : ℕ → ℕ → ℕ) (x y k l : ℕ)
    → x ≤ k
    → x ≤ l
    → digits rest digit k x y ≡ digits rest digit l x y
same_digits rest digit zero y zero zero h i = refl
same_digits rest digit zero y zero (suc l) h i = refl
same_digits rest digit zero y (suc k) zero h i = refl
same_digits rest digit zero y (suc k) (suc l) h i = refl
same_digits rest digit (suc x) y zero l h i = absurd (omega arith)
same_digits rest digit (suc x) y (suc k) zero h i = absurd (omega arith)
same_digits rest digit (suc x) y (suc k) (suc l) h i =
    let halved = same_digits rest digit (suc x / 2) (y / 2) k l (omega arith) (omega arith) in
    omega (arith, halved)

differ_lem : (x y : ℕ) → x < 2 → y < 2 → differ x y ≡ (x + y) % 2
differ_lem zero y p q = omega arith
differ_lem (suc zero) zero p q = refl
differ_lem (suc zero) (suc zero) p q = refl
differ_lem (suc zero) (suc (suc y)) p q = absurd (omega arith)
differ_lem (suc (suc x)) y p q = absurd (omega arith)

zero-bit_xor : (b : ℕ) → bit_xor 0 b ≡ b
zero-bit_xor b = bit_xor-bitwise 0 b

-- The digit recursion with the fuel dropped.
pub bit_xor_step : (a b : ℕ) → bit_xor a b ≡ bit_xor (a / 2) (b / 2) * 2 + (a + b) % 2
bit_xor_step zero b = omega (arith, zero-bit_xor b, zero-bit_xor (b / 2))
bit_xor_step (suc a) b = omega (
  arith,
  bit_xor-bitwise (suc a) b,
  bit_xor-bitwise (suc a / 2) (b / 2),
  differ_lem (suc a % 2) (b % 2) (omega arith) (omega arith),
  same_digits (λ y. y) differ (suc a / 2) (b / 2) a (suc a / 2) (omega arith) (omega arith),
)

-- one step of the digits of a conjunction
halve_and : (x m : ℕ) → bit_and x m ≡ min (x % 2) (m % 2) + 2 * bit_and (x / 2) (m / 2)
halve_and zero m = omega (arith, bit_and-bitwise zero (m / 2), bit_and-bitwise zero m)
halve_and (suc x) m =
    let halved =
      same_digits (λ _. 0) min (suc x / 2) (m / 2) x (suc x / 2) (omega arith) (omega arith) in
    omega (arith, halved, bit_and-bitwise (suc x / 2) (m / 2), bit_and-bitwise (suc x) m)

without_mask : (x bound : ℕ) → x ≤ bound → bit_and x 0 ≡ 0
without_mask zero bound h = refl
without_mask (suc x) zero h = absurd (omega arith)
without_mask (suc x) (suc bound) h =
    omega (arith, without_mask (suc x / 2) bound (omega arith), halve_and (suc x) 0)

pub bit_and-one : (x : ℕ) → bit_and x 1 ≡ x % 2
bit_and-one x = omega (arith, without_mask (x / 2) x (omega arith), halve_and x 1)

bit_xor-comm_fuel : (n a b : ℕ) → a ≤ n → b ≤ n → bit_xor a b ≡ bit_xor b a
bit_xor-comm_fuel zero zero zero p q = refl
bit_xor-comm_fuel zero zero (suc b) p q = absurd (omega arith)
bit_xor-comm_fuel zero (suc a) b p q = absurd (omega arith)
bit_xor-comm_fuel (suc n) a b p q = omega (
  arith,
  bit_xor_step a b,
  bit_xor_step b a,
  bit_xor-comm_fuel n (a / 2) (b / 2) (omega arith) (omega arith),
)

pub bit_xor_comm : (a b : ℕ) → bit_xor a b ≡ bit_xor b a
bit_xor_comm a b = bit_xor-comm_fuel (a + b) a b (omega arith) (omega arith)

cancel_fuel : (n a b : ℕ) → a ≤ n → b ≤ n → bit_xor (bit_xor a b) b ≡ a
cancel_fuel zero zero zero p q = refl
cancel_fuel zero zero (suc b) p q = absurd (omega arith)
cancel_fuel zero (suc a) b p q = absurd (omega arith)
cancel_fuel (suc n) a b p q =
    let half : bit_xor a b / 2 ≡ bit_xor (a / 2) (b / 2) = omega (arith, bit_xor_step a b) in
    omega (
      arith,
      bit_xor_step a b,
      bit_xor_step (bit_xor a b) b,
      ap (λ (t : ℕ). bit_xor t (b / 2)) half,
      cancel_fuel n (a / 2) (b / 2) (omega arith) (omega arith),
    )

pub bit_xor_cancel : (a b : ℕ) → bit_xor (bit_xor a b) b ≡ a
bit_xor_cancel a b = cancel_fuel (a + b) a b (omega arith) (omega arith)

pub bit_xor-left_injective : (a b c : ℕ) → bit_xor a c ≡ bit_xor b c → a ≡ b
bit_xor-left_injective a b c e =
    sym (bit_xor_cancel a c) ∙ ap (λ t. bit_xor t c) e ∙ bit_xor_cancel b c

pub bit_xor-right_injective : (a b c : ℕ) → bit_xor c a ≡ bit_xor c b → a ≡ b
bit_xor-right_injective a b c e =
    bit_xor-left_injective a b c (bit_xor_comm a c ∙ e ∙ bit_xor_comm c b)

pub bit_xor-lt : (k a b : ℕ) → a < 2 ^ k → b < 2 ^ k → bit_xor a b < 2 ^ k
bit_xor-lt zero zero zero p q = omega arith
bit_xor-lt zero zero (suc b) p q = absurd (omega arith)
bit_xor-lt zero (suc a) b p q = absurd (omega arith)
bit_xor-lt (suc k) a b p q = omega (
  arith,
  pow-suc 2 k,
  bit_xor_step a b,
  bit_xor-lt k (a / 2) (b / 2) (omega (arith, pow-suc 2 k)) (omega (arith, pow-suc 2 k)),
)

-- A mask with bit k set, on a number below it, sets bit k.
pub bit_xor-top : (k a b : ℕ) → a < 2 ^ k → b < 2 ^ k → 2 ^ k ≤ bit_xor a (2 ^ k + b)
bit_xor-top zero zero zero p q = omega arith
bit_xor-top zero zero (suc b) p q = absurd (omega arith)
bit_xor-top zero (suc a) b p q = absurd (omega arith)
bit_xor-top (suc k) a b p q =
    let half : (2 ^ suc k + b) / 2 ≡ 2 ^ k + b / 2 = omega (arith, pow-suc 2 k) in
    omega (
      arith,
      pow-suc 2 k,
      bit_xor_step a (2 ^ suc k + b),
      ap (λ (t : ℕ). bit_xor (a / 2) t) half,
      bit_xor-top k (a / 2) (b / 2) (omega (arith, pow-suc 2 k)) (omega (arith, pow-suc 2 k)),
    )
