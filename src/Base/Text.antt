-- ===== src/Base/Text.antt =====
-- Text as a list of byte values, and the C and C++ library's conversions between numbers and text
-- that the code uses: `std::to_string`, `printf`'s `%d` and `%0<w>d`, `snprintf`'s cut at the size
-- of its buffer, `std::stoi` and `std::stoll`.
use Prim.Native.Char.{code}
use Prim.Native.String.{String}
use ak.Base.{
  ℕ, zero, suc, ◌+◌, ◌-◌, ◌*◌, ◌/◌, ◌%◌, ◌^◌, Bool, true, false, ◌&&◌, ◌||◌, Option, List, [], ◌∷◌,
  ◌++◌, none, some, ltb, leb, ◌==◌, if◌then◌else◌, length, take, replicate,
}
use ak.Base.Int.{ℤ, pos, negsuc}

abbrev pub Bytes : Type 0
Bytes = List ℕ

-- The code points of a text: its bytes, if it is ASCII.
abbrev pub codes : String → Bytes
codes String.[] = []
codes (String.◌∷◌ c s) = code c ∷ codes s

abbrev pub is_digit : ℕ → Bool
is_digit c = leb b'0' c && leb c b'9'

-- The decimal digits of a number, in front of those already written.
unfoldable pub digits_onto : ℕ → ℕ → Bytes → Bytes
digits_onto zero n acc = acc
digits_onto (suc f) n acc =
    let rest = digits_onto f (n / 10) ((b'0' + n % 10) ∷ acc) in
    if ltb n 10 then (b'0' + n) ∷ acc else rest

-- `std::to_string` and `%d` of a number that is not negative.
unfoldable pub decimal : ℕ → Bytes
unfolding digits_onto
decimal n = digits_onto (suc n) n []

-- `%0<w>d` of a number that is not negative.
unfoldable pub padded : ℕ → ℕ → Bytes
padded w n = replicate (w - length (decimal n)) b'0' ++ decimal n

-- `%d` and `%0<w>d`: the sign counts as a character of the width.
unfoldable pub print_int : ℤ → Bytes
print_int (pos n) = decimal n
print_int (negsuc n) = b'-' ∷ decimal (suc n)

unfoldable pub print_padded : ℕ → ℤ → Bytes
print_padded w (pos n) = padded w n
print_padded w (negsuc n) = b'-' ∷ padded (w - 1) (suc n)

-- `snprintf` into a buffer of this size.
abbrev pub snprintf : ℕ → Bytes → Bytes
snprintf size text = take (size - 1) text

-- The number that the leading digits spell, behind those already read.
unfoldable pub scan : ℕ → Bytes → ℕ
scan acc [] = acc
scan acc (c ∷ cs) = if is_digit c then scan (acc * 10 + (c - b'0')) cs else acc

unfoldable pub is_space : ℕ → Bool
is_space c = c == 32 || leb 9 c && leb c 13

unfoldable pub skip_space : Bytes → Bytes
skip_space [] = []
skip_space (c ∷ cs) = if is_space c then skip_space cs else c ∷ cs

unfoldable pub starts_digit : Bytes → Bool
starts_digit [] = false
starts_digit (c ∷ cs) = is_digit c

-- `none` stands for the exceptions `std::invalid_argument` and `std::out_of_range`; a number fits a
-- signed type of `w + 1` bits.
unfoldable pub signed : ℕ → Bool → Bytes → Option ℤ
signed w minus t =
    if starts_digit t
    then (let n = scan 0 t in
        if minus
        then if leb n (2 ^ w) then some (if n == 0 then pos 0 else negsuc (n - 1)) else none
        else if ltb n (2 ^ w)
        then some (pos n)
        else none)
    else none

unfoldable pub sign_of : ℕ → Bytes → Option ℤ
sign_of w [] = none
sign_of w (c ∷ cs) =
    if c == b'-'
    then signed w true cs
    else if c == b'+'
    then signed w false cs
    else signed w false (c ∷ cs)

unfoldable pub stoll : Bytes → Option ℤ
unfolding is_space skip_space starts_digit signed sign_of
stoll t = sign_of 63 (skip_space t)

unfoldable pub stoi : Bytes → Option ℤ
unfolding is_space skip_space starts_digit signed sign_of
stoi t = sign_of 31 (skip_space t)

-- Texts compared as a whole.
unfoldable pub equal : Bytes → Bytes → Bool
equal [] [] = true
equal (x ∷ xs) (y ∷ ys) = x == y && equal xs ys
equal _ _ = false
