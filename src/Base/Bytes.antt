-- ===== src/Base/Bytes.antt =====
-- Byte strings as lists of numbers, with Python's slices and conversions.
use wendougee_data_ha.Base.Tests.{◌==◌}
use wendougee_data_ha.Base.Lists.{
  length, take, drop, All, length-append, take-append, drop-append, take-append-drop, length-drop,
}
use Prim.Native.Nat.{ℕ, ◌+◌, ◌-◌, ◌*◌, ◌/◌, ◌%◌, ◌≤◌, ◌<◌}
use mathlib.Core.Path.{◌≡◌, refl}
use mathlib.Core.Logic.{◌↔◌}
use mathlib.Core.Bool.{Bool, true, false, ◌&&◌}
use mathlib.Core.List.{List, [], ◌∷◌, ◌++◌}
use native.Mathlib.Omega.{arith}

abbrev pub Bytes : Type 0
Bytes = List ℕ

abbrev pub IsBytes : Bytes → Type 0
IsBytes = All (λ b. b < 256)

-- `a == b` on byte strings and tuples of words
abbrev pub bytes_eq : Bytes → Bytes → Bool
bytes_eq [] [] = true
bytes_eq [] (y ∷ ys) = false
bytes_eq (x ∷ xs) [] = false
bytes_eq (x ∷ xs) (y ∷ ys) = (x == y) && bytes_eq xs ys

-- `frame[:-2]` and `frame[-2:]`
unfoldable pub but_last_two : Bytes → Bytes
but_last_two frame = take (length frame - 2) frame

unfoldable pub last_two : Bytes → Bytes
last_two frame = drop (length frame - 2) frame

-- `n.to_bytes(2, "big")` and `n.to_bytes(2, "little")` of an `n` that fits two bytes
abbrev pub to_big : ℕ → Bytes
to_big n = n / 256 ∷ n % 256 ∷ []

abbrev pub to_little : ℕ → Bytes
to_little n = n % 256 ∷ n / 256 ∷ []

-- `int.from_bytes(data, "big")` and `int.from_bytes(data, "little")`
abbrev pub from_big_loop : ℕ → Bytes → ℕ
from_big_loop acc [] = acc
from_big_loop acc (b ∷ bs) = from_big_loop (acc * 256 + b) bs

abbrev pub from_big : Bytes → ℕ
from_big = from_big_loop 0

abbrev pub from_little : Bytes → ℕ
from_little [] = 0
from_little (b ∷ bs) = b + 256 * from_little bs

-- `tuple(int.from_bytes(payload[i : i + 2], "big") for i in range(0, len(payload), 2))`
unfoldable pub words : Bytes → List ℕ
words [] = []
words (a ∷ []) = a ∷ []
words (a ∷ b ∷ rest) = (a * 256 + b) ∷ words rest

unfoldable pub from_words : List ℕ → Bytes
from_words [] = []
from_words (w ∷ ws) = w / 256 ∷ w % 256 ∷ from_words ws

pub bytes_eq_iff : (a b : Bytes) → (bytes_eq a b ≡ true) ↔ (a ≡ b)
bytes_eq_iff [] [] = ground arith
bytes_eq_iff [] (y ∷ ys) = ground arith
bytes_eq_iff (x ∷ xs) [] = ground arith
bytes_eq_iff (x ∷ xs) (y ∷ ys) = ground (arith, bytes_eq_iff xs ys)

pub bytes_eq_self : (a : Bytes) → bytes_eq a a ≡ true
bytes_eq_self a = (bytes_eq_iff a a).1 refl

module _ (body : Bytes) (a b : ℕ) where
  cut : length (body ++ (a ∷ b ∷ [])) - 2 ≡ length body
  cut = omega (arith, length-append body (a ∷ b ∷ []))

  pub but_last_two-append : but_last_two (body ++ (a ∷ b ∷ [])) ≡ body
  unfolding but_last_two
  but_last_two-append = rw cut (take-append body (a ∷ b ∷ []))

  pub last_two-append : last_two (body ++ (a ∷ b ∷ [])) ≡ a ∷ b ∷ []
  unfolding last_two
  last_two-append = rw cut (drop-append body (a ∷ b ∷ []))

pub but_last_two-append-last_two : (frame : Bytes) → but_last_two frame ++ last_two frame ≡ frame
unfolding but_last_two last_two
but_last_two-append-last_two frame = take-append-drop (length frame - 2) frame

pub length-last_two : (frame : Bytes) → 2 ≤ length frame → length (last_two frame) ≡ 2
unfolding last_two
length-last_two frame h = omega (arith, length-drop (length frame - 2) frame)

pub words-from_words : (ws : List ℕ) → words (from_words ws) ≡ ws
unfolding words from_words
words-from_words [] = refl
words-from_words (w ∷ ws) = ground (arith, words-from_words ws)

pub length-from_words : (ws : List ℕ) → length (from_words ws) ≡ 2 * length ws
unfolding from_words
length-from_words [] = refl
length-from_words (w ∷ ws) = omega (arith, length-from_words ws)
