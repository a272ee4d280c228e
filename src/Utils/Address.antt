-- ===== src/Utils/Address.antt =====
-- internal/utils/address.go. A slice of a Go string by a position of `@` is one of characters too.
pub mod Laws
use Prim.Native.Char.{code}
use Prim.Native.String.{◌++◌ as append}
use yggmail.Base.{
  ℕ, zero, suc, ◌+◌, String, ◌≡◌, refl, Bool, true, false, List, [], ◌∷◌, Option, none, some, arith,
  ◌==◌, str_eq, eq_refl, if◌then◌else◌, length, All,
}
use yggmail.Exec.{Result, ok, err, panic, bad_address, bad_domain}
use yggmail.Utils.Hex.{decode_hex, encode_hex, IsByte, decode-encode}

abbrev pub domain : String
domain = "yggmail"

-- `fmt.Sprintf("%s@%s", pk, Domain)`: `raw` is the key's bytes as a Go string.
unfoldable pub create_address : String → String
create_address raw = append raw (append "@" domain)

-- `strings.LastIndex(email, "@")`, where `none` is -1.
unfoldable pub last_index : String → Option ℕ
last_index String.[] = none
last_index (String.◌∷◌ c s) = elim (last_index s) [
  | some k ↦ some (suc k)
  | none ↦ if code c == b'@' then some 0 else none
]

-- `email[:at]` and `email[at:]`
unfoldable pub slice_to : ℕ → String → String
slice_to zero s = String.[]
slice_to (suc n) String.[] = String.[]
slice_to (suc n) (String.◌∷◌ c s) = String.◌∷◌ c (slice_to n s)

unfoldable pub slice_from : ℕ → String → String
slice_from zero s = s
slice_from (suc n) String.[] = String.[]
slice_from (suc n) (String.◌∷◌ c s) = slice_from n s

-- `ed25519.PublicKeySize`
abbrev pub key_size : ℕ
key_size = 32

-- `copy` into a zeroed array of `n` bytes.
unfoldable pub copy_into : ℕ → List ℕ → List ℕ
copy_into zero pk = []
copy_into (suc n) [] = 0 ∷ copy_into n []
copy_into (suc n) (b ∷ bytes) = b ∷ copy_into n bytes

abbrev pub to_key : Result (List ℕ) → Result (List ℕ)
to_key (ok pk) = ok (copy_into key_size pk)
to_key (err e) = err e
to_key panic = panic

unfoldable pub local_part : String → ℕ → Result (List ℕ)
local_part email at =
    if str_eq (slice_from (suc at) email) domain
    then to_key (decode_hex (slice_to at email))
    else err bad_domain

-- With no `@` the whole text is compared with the domain, and `email[:-1]` panics where it is equal.
unfoldable pub parse_address : String → Result (List ℕ)
unfolding last_index local_part slice_to slice_from
parse_address email = elim (last_index email) [
  | none ↦ if str_eq email domain then panic else err bad_domain
  | some zero ↦ err bad_address
  | some (suc k) ↦ local_part email (suc k)
]

-- What `Mail address: …` of cmd/yggmail/main.go prints.
abbrev pub address_of : List ℕ → String
address_of pk = append (encode_hex pk) "@yggmail"
