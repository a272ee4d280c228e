-- ===== src/Utils/Hex.antt =====
-- `hex.EncodeToString` and `hex.DecodeString` of Go's standard library.
use Prim.Native.Char.{Char, code}
use mathlib.Core.Path.{subst}
use yggmail.Base.{
  ℕ, suc, zero, ◌+◌, ◌-◌, ◌*◌, ◌/◌, ◌%◌, ◌<◌, String, ◌≡◌, refl, ap, sym, ==_iff, Bool-cases, ◌&&◌,
  List, [], ◌∷◌, Option, none, some, arith, leb, ◌==◌, if◌then◌else◌, All, Option-cases, inl, inr,
}
use yggmail.Exec.{Result, ok, err, panic, bad_hex}

unfoldable pub hex_value : Char → Option ℕ
hex_value ch =
    let c = code ch in
    if leb b'0' c && leb c b'9'
    then some (c - b'0')
    else if leb b'a' c && leb c b'f'
    then some (c - b'a' + 10)
    else if leb b'A' c && leb c b'F'
    then some (c - b'A' + 10)
    else none

pair : Option ℕ → Option ℕ → Result (List ℕ) → Result (List ℕ)
pair (some a) (some b) (ok bytes) = ok ((a * 16 + b) ∷ bytes)
pair (some a) (some b) panic = panic
pair _ _ _ = err bad_hex

-- An odd length and a character that is no digit are errors.
unfoldable pub decode_hex : String → Result (List ℕ)
unfolding pair
decode_hex String.[] = ok []
decode_hex (String.◌∷◌ a String.[]) = err bad_hex
decode_hex (String.◌∷◌ a (String.◌∷◌ b rest)) = pair (hex_value a) (hex_value b) (decode_hex rest)

unfoldable pub hex_digit : ℕ → Char
hex_digit n =
    if n == 0
    then "0"
    else if n == 1
    then "1"
    else if n == 2
    then "2"
    else if n == 3
    then "3"
    else if n == 4
    then "4"
    else if n == 5
    then "5"
    else if n == 6
    then "6"
    else if n == 7
    then "7"
    else if n == 8
    then "8"
    else if n == 9
    then "9"
    else if n == 10
    then "a"
    else if n == 11
    then "b"
    else if n == 12
    then "c"
    else if n == 13
    then "d"
    else if n == 14
    then "e"
    else "f"

unfoldable pub encode_hex : List ℕ → String
encode_hex [] = String.[]
encode_hex (b ∷ bytes) =
    String.◌∷◌ (hex_digit (b / 16)) (String.◌∷◌ (hex_digit (b % 16)) (encode_hex bytes))

-- The numbers under a bound.
below : ℕ → List ℕ
below zero = []
below (suc n) = n ∷ below n

of_below : (P : ℕ → Type 0) (bound n : ℕ) → All P (below bound) → n < bound → P n
unfolding below
of_below P zero n each h = absurd (omega arith)
of_below P (suc bound) n each h = elim (Bool-cases (n == bound)) [
  | inl e ↦ subst P (sym ((==_iff n bound).0 e)) each.0
  | inr e ↦ of_below P bound n each.1 (ground arith)
]

digits_read_back : All (λ n. hex_value (hex_digit n) ≡ some n) (below 16)
unfolding below hex_value hex_digit
digits_read_back = ground arith

hex_value-hex_digit : (n : ℕ) → n < 16 → hex_value (hex_digit n) ≡ some n
hex_value-hex_digit n h = of_below _ 16 n digits_read_back h

abbrev pub IsByte : ℕ → Type 0
IsByte b = b < 256

glue :
    (b : ℕ) {r : Result (List ℕ)} {bytes : List ℕ}
    → b < 256
    → r ≡ ok bytes
    → pair (hex_value (hex_digit (b / 16))) (hex_value (hex_digit (b % 16))) r ≡ ok (b ∷ bytes)
unfolding pair
glue b {r} {bytes} h e =
    rw (hex_value-hex_digit (b / 16) (omega arith), hex_value-hex_digit (b % 16) (omega arith), e)
      (ap (λ n. ok (n ∷ bytes)) (omega arith))

-- Decoding takes every encoding back to its bytes.
pub decode-encode : (bytes : List ℕ) → All IsByte bytes → decode_hex (encode_hex bytes) ≡ ok bytes
unfolding decode_hex encode_hex
decode-encode [] h = refl
decode-encode (b ∷ bytes) h = glue b h.0 (decode-encode bytes h.1)

hex_value-lt : (c : Char) {n : ℕ} → hex_value c ≡ some n → n < 16
unfolding hex_value
hex_value-lt c h = ground arith

-- Decoding never panics, and gives bytes.
abbrev pub HoldsBytes : Result (List ℕ) → Type 0
HoldsBytes (ok bytes) = All IsByte bytes
HoldsBytes (err e) = Unit
HoldsBytes panic = ⊥

pair_bytes :
    (x y : ℕ) (r : Result (List ℕ))
    → x < 16
    → y < 16
    → HoldsBytes r
    → HoldsBytes (pair (some x) (some y) r)
unfolding pair
pair_bytes x y (ok bytes) p q h = (omega arith, h)
pair_bytes x y (err e) p q h = tt
pair_bytes x y panic p q h = h

pair-HoldsBytes :
    (a b : Char) (r : Result (List ℕ))
    → HoldsBytes r
    → HoldsBytes (pair (hex_value a) (hex_value b) r)
unfolding pair
pair-HoldsBytes a b r h = elim (Option-cases (hex_value a)) [
  | inl p ↦ rw p tt
  | inr (x, p) ↦ elim (Option-cases (hex_value b)) [
    | inl q ↦ rw (p, q) tt
    | inr (y, q) ↦ rw (p, q) (pair_bytes x y r (hex_value-lt a p) (hex_value-lt b q) h)
  ]
]

pub decode_hex-HoldsBytes : (s : String) → HoldsBytes (decode_hex s)
unfolding decode_hex
decode_hex-HoldsBytes String.[] = tt
decode_hex-HoldsBytes (String.◌∷◌ a String.[]) = tt
decode_hex-HoldsBytes (String.◌∷◌ a (String.◌∷◌ b rest)) =
    pair-HoldsBytes a b (decode_hex rest) (decode_hex-HoldsBytes rest)
