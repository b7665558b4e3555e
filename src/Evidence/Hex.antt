-- ===== src/Evidence/Hex.antt =====
-- `bytes.hex` and `bytes.fromhex`, and that the second takes back the first.
use wendougee_data_ha.Base.{
  ℕ, zero, suc, ◌+◌, ◌-◌, ◌*◌, ◌/◌, ◌%◌, ◌<◌, arith, ◌≡◌, refl, ap, [], ◌∷◌, Bool, false, ◌&&◌,
  ◌||◌, Option, none, some, leb, ◌==◌, if◌then◌else◌,
}
use wendougee_data_ha.Base.Bytes.{Bytes, IsBytes}
use Prim.Native.Char.{Char, code}
use Prim.Native.String.{String, [] as empty, ◌∷◌ as cons, char_at}

-- the character of a digit
abbrev digit : ℕ → Char
digit n = char_at "0123456789abcdef" n

-- the value of a digit, of either case
digit_value : Char → Option ℕ
digit_value c =
    if leb 48 (code c) && leb (code c) 57
    then some (code c - 48)
    else if leb 97 (code c) && leb (code c) 102
    then some (code c - 87)
    else if leb 65 (code c) && leb (code c) 70
    then some (code c - 55)
    else none

is_space : Char → Bool
is_space c = (code c == 32) || (leb 9 (code c) && leb (code c) 13)

-- `data.hex()`
unfoldable pub hex : Bytes → String
hex [] = empty
hex (b ∷ bs) = cons (digit (b / 16)) (cons (digit (b % 16)) (hex bs))

byte_of : Option ℕ → Option ℕ → Option Bytes → Option Bytes
byte_of (some h) (some l) (some bs) = some ((h * 16 + l) ∷ bs)
byte_of _ _ _ = none

-- `bytes.fromhex(text)`: spaces are skipped between bytes
unfoldable pub from_hex : String → Option Bytes
unfolding is_space digit_value byte_of
from_hex empty = some []
from_hex (cons c empty) = if is_space c then some [] else none
from_hex (cons c (cons d s)) =
    let rest = from_hex s in
    let next = from_hex (cons d s) in
    if is_space c then next else byte_of (digit_value c) (digit_value d) rest

digit_value-digit : (n : ℕ) → n < 16 → digit_value (digit n) ≡ some n
unfolding digit_value
digit_value-digit zero h = refl
digit_value-digit (suc zero) h = refl
digit_value-digit (suc (suc zero)) h = refl
digit_value-digit (suc (suc (suc zero))) h = refl
digit_value-digit (suc (suc (suc (suc zero)))) h = refl
digit_value-digit (suc (suc (suc (suc (suc zero))))) h = refl
digit_value-digit (suc (suc (suc (suc (suc (suc zero)))))) h = refl
digit_value-digit (suc (suc (suc (suc (suc (suc (suc zero))))))) h = refl
digit_value-digit (suc (suc (suc (suc (suc (suc (suc (suc zero)))))))) h = refl
digit_value-digit (suc (suc (suc (suc (suc (suc (suc (suc (suc zero))))))))) h = refl
digit_value-digit (suc (suc (suc (suc (suc (suc (suc (suc (suc (suc zero)))))))))) h = refl
digit_value-digit (suc (suc (suc (suc (suc (suc (suc (suc (suc (suc (suc zero))))))))))) h = refl
digit_value-digit (suc (suc (suc (suc (suc (suc (suc (suc (suc (suc (suc (suc zero)))))))))))) h =
    refl
digit_value-digit (suc (suc (suc (suc (suc (suc (suc (suc (suc (suc (suc (suc (suc zero)))))))))))))
      h =
    refl
digit_value-digit
      (suc (suc (suc (suc (suc (suc (suc (suc (suc (suc (suc (suc (suc (suc zero)))))))))))))) h =
    refl
digit_value-digit
      (suc (suc (suc (suc (suc (suc (suc (suc (suc (suc (suc (suc (suc (suc (suc zero)))))))))))))))
      h =
    refl
digit_value-digit
      (suc
        (suc (suc (suc (suc (suc (suc (suc (suc (suc (suc (suc (suc (suc (suc (suc n))))))))))))))))
      h =
    absurd (omega (arith, h))

is_space-digit : (n : ℕ) → n < 16 → is_space (digit n) ≡ false
unfolding is_space
is_space-digit zero h = refl
is_space-digit (suc zero) h = refl
is_space-digit (suc (suc zero)) h = refl
is_space-digit (suc (suc (suc zero))) h = refl
is_space-digit (suc (suc (suc (suc zero)))) h = refl
is_space-digit (suc (suc (suc (suc (suc zero))))) h = refl
is_space-digit (suc (suc (suc (suc (suc (suc zero)))))) h = refl
is_space-digit (suc (suc (suc (suc (suc (suc (suc zero))))))) h = refl
is_space-digit (suc (suc (suc (suc (suc (suc (suc (suc zero)))))))) h = refl
is_space-digit (suc (suc (suc (suc (suc (suc (suc (suc (suc zero))))))))) h = refl
is_space-digit (suc (suc (suc (suc (suc (suc (suc (suc (suc (suc zero)))))))))) h = refl
is_space-digit (suc (suc (suc (suc (suc (suc (suc (suc (suc (suc (suc zero))))))))))) h = refl
is_space-digit (suc (suc (suc (suc (suc (suc (suc (suc (suc (suc (suc (suc zero)))))))))))) h = refl
is_space-digit (suc (suc (suc (suc (suc (suc (suc (suc (suc (suc (suc (suc (suc zero)))))))))))))
      h =
    refl
is_space-digit
      (suc (suc (suc (suc (suc (suc (suc (suc (suc (suc (suc (suc (suc (suc zero)))))))))))))) h =
    refl
is_space-digit
      (suc (suc (suc (suc (suc (suc (suc (suc (suc (suc (suc (suc (suc (suc (suc zero)))))))))))))))
      h =
    refl
is_space-digit
      (suc
        (suc (suc (suc (suc (suc (suc (suc (suc (suc (suc (suc (suc (suc (suc (suc n))))))))))))))))
      h =
    absurd (omega (arith, h))

-- The text of a byte string reads back as it.
pub from_hex-hex : (bs : Bytes) → IsBytes bs → from_hex (hex bs) ≡ some bs
unfolding hex from_hex byte_of
from_hex-hex [] h = refl
from_hex-hex (b ∷ bs) (p, h) =
    simp
      (
        is_space-digit (b / 16) (omega (arith, p)),
        digit_value-digit (b / 16) (omega (arith, p)),
        digit_value-digit (b % 16) (omega (arith, p)),
        from_hex-hex bs h,
      )
      (ap (λ x. some (x ∷ bs)) (omega arith))
