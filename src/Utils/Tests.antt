-- ===== src/Utils/Tests.antt =====
-- The theorems on addresses at a sample key.
use yggmail.Base.{ℕ, ◌≡◌, ◌≢◌, refl, List, [], ◌∷◌, arith, ◌⊎◌}
use yggmail.Exec.{ok, panic}
use yggmail.Utils.Hex.{decode_hex, encode_hex, decode-encode}
use yggmail.Utils.Address.{parse_address, address_of, copy_into, key_size, domain}
use yggmail.Utils.Address.Laws.{parse-encode, parse-address_of, parse_address_total, IsKey}

abbrev key : List ℕ
key =
    1 ∷ 2 ∷ 3 ∷ 4 ∷ 5 ∷ 6 ∷ 7 ∷ 8 ∷ 9 ∷ 10 ∷ 11 ∷ 12 ∷ 13 ∷ 14 ∷ 15 ∷ 16 ∷ 17 ∷ 18 ∷ 19 ∷ 20 ∷ 21
    ∷ 22 ∷ 23 ∷ 24 ∷ 25 ∷ 26 ∷ 27 ∷ 28 ∷ 29 ∷ 30 ∷ 31 ∷ 255 ∷ []

parse-address_of_example : parse_address (address_of key) ≡ ok key
parse-address_of_example = parse-address_of key refl (omega arith)

short_key : parse_address (address_of (7 ∷ [])) ≡ ok (copy_into key_size (7 ∷ []))
short_key = parse-encode 7 [] (omega arith)

parse_address_total_example :
    (("me@yggmail" ≡ domain) × (parse_address "me@yggmail" ≡ panic))
    ⊎ (("me@yggmail" ≢ domain) × IsKey (parse_address "me@yggmail"))
parse_address_total_example = parse_address_total "me@yggmail"

decode-encode_example : decode_hex (encode_hex key) ≡ ok key
decode-encode_example = decode-encode key (omega arith)
