-- ===== src/Utils/Address/Laws.antt =====
-- What `ParseAddress` accepts, and where it panics.
use mathlib.Core.Path.{subst}
use Prim.Native.String.{◌++◌ as append}
use text.Mathlib.TextLemmas.{cons-append}
use yggmail.Base.{
  ℕ, zero, suc, String, ◌≡◌, ◌≢◌, refl, ap, sym, ◌∙◌, false, List, [], ◌∷◌, Option, none, some,
  arith, str_eq, eq_iff, length, All, ◌⊎◌, inl, inr, Bool-cases,
}
use yggmail.Exec.{Result, ok, err, panic}
use yggmail.Utils.Hex.{
  decode_hex, encode_hex, IsByte, decode-encode, HoldsBytes, decode_hex-HoldsBytes,
}
use yggmail.Utils.Address.{
  domain, last_index, slice_to, slice_from, key_size, copy_into, to_key, local_part, parse_address,
  address_of,
}

abbrev size : String → ℕ
size String.[] = 0
size (String.◌∷◌ c s) = suc (size s)

last_index-append : (s : String) → last_index (append s "@yggmail") ≡ some (size s)
unfolding last_index
last_index-append String.[] = refl
last_index-append (String.◌∷◌ c s) = rw cons-append (rw (last_index-append s, last_index) refl)

slice_to-append : (s t : String) → slice_to (size s) (append s t) ≡ s
unfolding slice_to
slice_to-append String.[] t = refl
slice_to-append (String.◌∷◌ c s) t = rw cons-append (ap (String.◌∷◌ c) (slice_to-append s t))

slice_from-append : (s : String) → slice_from (suc (size s)) (append s "@yggmail") ≡ "yggmail"
unfolding slice_from
slice_from-append String.[] = refl
slice_from-append (String.◌∷◌ c s) = rw cons-append (slice_from-append s)

local_part-append : (s : String) → local_part (append s "@yggmail") (size s) ≡ to_key (decode_hex s)
unfolding local_part
local_part-append s = rw (slice_from-append s, slice_to-append s "@yggmail") refl

-- An address with any positive number of bytes before the `@` is accepted, and its key is what 32
-- zeroed bytes hold after a copy.
pub parse-encode :
    (b : ℕ) (bytes : List ℕ)
    → All IsByte (b ∷ bytes)
    → parse_address (address_of (b ∷ bytes)) ≡ ok (copy_into key_size (b ∷ bytes))
unfolding parse_address encode_hex
parse-encode b bytes h =
    rw (last_index-append (encode_hex (b ∷ bytes)), parse_address)
      (local_part-append (encode_hex (b ∷ bytes)) ∙ ap to_key (decode-encode (b ∷ bytes) h))

pub copy_into-length : (n : ℕ) (bytes : List ℕ) → length bytes ≡ n → copy_into n bytes ≡ bytes
unfolding copy_into
copy_into-length zero [] h = refl
copy_into-length zero (b ∷ bytes) h = absurd (omega arith)
copy_into-length (suc n) [] h = absurd (omega arith)
copy_into-length (suc n) (b ∷ bytes) h = ap (λ l. b ∷ l) (copy_into-length n bytes (omega arith))

-- The mail address that a node prints for its own key is read back as that key.
pub parse-address_of :
    (pk : List ℕ) → length pk ≡ key_size → All IsByte pk → parse_address (address_of pk) ≡ ok pk
parse-address_of [] h a = absurd (omega arith)
parse-address_of (b ∷ bytes) h a =
    parse-encode b bytes a ∙ ap ok (copy_into-length key_size (b ∷ bytes) h)

length-copy_into : (n : ℕ) (bytes : List ℕ) → length (copy_into n bytes) ≡ n
unfolding copy_into
length-copy_into zero bytes = refl
length-copy_into (suc n) [] = ap suc (length-copy_into n [])
length-copy_into (suc n) (b ∷ bytes) = ap suc (length-copy_into n bytes)

copy_into-IsByte : (n : ℕ) (bytes : List ℕ) → All IsByte bytes → All IsByte (copy_into n bytes)
unfolding copy_into
copy_into-IsByte zero bytes h = tt
copy_into-IsByte (suc n) [] h = (omega arith, copy_into-IsByte n [] tt)
copy_into-IsByte (suc n) (b ∷ bytes) h = (h.0, copy_into-IsByte n bytes h.1)

-- A result that is no panic, and holds a key of the right size where it is one.
abbrev pub IsKey : Result (List ℕ) → Type 0
IsKey (ok pk) = (length pk ≡ key_size) × All IsByte pk
IsKey (err e) = Unit
IsKey panic = ⊥

to_key-IsKey : (r : Result (List ℕ)) → HoldsBytes r → IsKey (to_key r)
to_key-IsKey (ok pk) h = (length-copy_into key_size pk, copy_into-IsByte key_size pk h)
to_key-IsKey (err e) h = tt
to_key-IsKey panic h = h

local_part-IsKey : (email : String) (at : ℕ) → IsKey (local_part email at)
unfolding local_part
local_part-IsKey email at = elim (Bool-cases (str_eq (slice_from (suc at) email) domain)) [
  | inl e ↦ rw e (to_key-IsKey _ (decode_hex-HoldsBytes (slice_to at email)))
  | inr e ↦ rw e tt
]

parse_other :
    (email : String) (o : Option ℕ)
    → str_eq email domain ≡ false
    → last_index email ≡ o
    → IsKey (parse_address email)
unfolding parse_address
parse_other email none e q = rw (q, parse_address) (rw e tt)
parse_other email (some zero) e q = rw (q, parse_address) tt
parse_other email (some (suc k)) e q = rw (q, parse_address) (local_part-IsKey email (suc k))

-- An accepted address gives a key of 32 bytes; every other text is refused with an error, but for
-- the bare domain, where the call panics.
pub parse_address_total :
    (email : String)
    → ((email ≡ domain) × (parse_address email ≡ panic))
      ⊎ ((email ≢ domain) × IsKey (parse_address email))
unfolding parse_address
parse_address_total email = elim (Bool-cases (str_eq email domain)) [
  | inl e ↦ inl (
    (eq_iff email domain).0 e,
    subst (λ s. parse_address s ≡ panic) (sym ((eq_iff email domain).0 e)) refl,
  )
  | inr e ↦
      inr (λ q. cc (e, (eq_iff email domain).1 q), parse_other email (last_index email) e refl)
]
