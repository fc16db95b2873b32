-- ===== src/Tls/Subject.antt =====
-- env/inc/tls.hpp, `x509_cert_info_impl_t_`: the subject of a certificate, read from a text with `std::strtok`, of which
-- there is one state for all calls. A text is a list of bytes, none of them 0.
pub mod First
pub mod Ends
use module_oriented_software.Common.{
  ℕ, zero, suc, Bool, true, false, not, ◌&&◌, ◌==◌, Option, none, some, List, [], ◌∷◌, length,
  if◌then◌else◌,
}

abbrev pub Bytes : Type 0
Bytes = List ℕ

abbrev pub is_member : ℕ → Bytes → Bool
is_member c [] = false
is_member c (d ∷ ds) = if c == d then true else is_member c ds

-- `std::strtok`: the bytes behind the delimiters, those before the next delimiter, and those after it.
unfoldable pub skip : Bytes → Bytes → Bytes
skip delims [] = []
skip delims (c ∷ cs) = let rest = skip delims cs in if is_member c delims then rest else c ∷ cs

unfoldable pub span : Bytes → Bytes → Bytes × Bytes
span delims [] = ([], [])
span delims (c ∷ cs) =
    let rest = span delims cs in if is_member c delims then ([], cs) else (c ∷ rest.0, rest.1)

-- The token, if there is one, and the state that is left.
unfoldable pub token : Bytes → Bytes → Option Bytes × Bytes
unfolding span
token delims [] = (none, [])
token delims (c ∷ cs) = (some (span delims (c ∷ cs)).0, (span delims (c ∷ cs)).1)

unfoldable pub strtok : Bytes → Bytes → Option Bytes × Bytes
unfolding skip token
strtok delims text = token delims (skip delims text)

-- `std::strncmp` with the length of the first text
unfoldable pub starts_with : Bytes → Bytes → Bool
starts_with [] text = true
starts_with (c ∷ cs) [] = false
starts_with (c ∷ cs) (d ∷ ds) = c == d && starts_with cs ds

-- The array of fields: `C`, `ST`, `L`, `O`, `OU`, `CN`.
pub record CertInfo : Type 0 where
  pub country : Bytes
  pub state : Bytes
  pub locality_name : Bytes
  pub organization_name : Bytes
  pub organizational_unit_name : Bytes
  pub common_name : Bytes

abbrev pub no_info : CertInfo
no_info = record {
  country = [];
  state = [];
  locality_name = [];
  organization_name = [];
  organizational_unit_name = [];
  common_name = [];
}

-- Which field a token is for: the tests of the loop, in their order.
unfoldable pub field_of : Bytes → Option (Bytes → CertInfo → CertInfo)
unfolding starts_with
field_of piece =
    if starts_with (b'C' ∷ b'=' ∷ []) piece
    then some (λ v i. record i { country = v })
    else if starts_with (b'S' ∷ b'T' ∷ b'=' ∷ []) piece
    then some (λ v i. record i { state = v })
    else if starts_with (b'L' ∷ b'=' ∷ []) piece
    then some (λ v i. record i { locality_name = v })
    else if starts_with (b'O' ∷ b'=' ∷ []) piece
    then some (λ v i. record i { organization_name = v })
    else if starts_with (b'O' ∷ b'U' ∷ b'=' ∷ []) piece
    then some (λ v i. record i { organizational_unit_name = v })
    else if starts_with (b'C' ∷ b'N' ∷ b'=' ∷ []) piece
    then some (λ v i. record i { common_name = v })
    else none

-- What `from_string_` comes to. The last says that the fuel is used up.
pub data Parsed : Type 0 where
  parsed : CertInfo → Parsed
  invalid out_of_fuel : Parsed

abbrev pub parser_split_tokens : Bytes
parser_split_tokens = b',' ∷ b';' ∷ b'.' ∷ []

abbrev pub equals_sign : Bytes
equals_sign = b'=' ∷ []

-- `strtok(split_list, "=")` and `strtok(nullptr, "=")`: the value, and the state that they leave behind.
unfoldable pub field_value : Bytes → Option Bytes × Bytes
unfolding strtok
field_value piece = elim (strtok equals_sign piece).0 [
  | none ↦ (none, [])
  | some name ↦ strtok equals_sign (strtok equals_sign piece).1
]

-- The loop, at a token: the state of `strtok` is that of the calls for its value when the next token is asked for.
unfoldable pub parse_fields : ℕ → Bytes → CertInfo → Parsed
unfolding field_of field_value strtok
parse_fields zero piece info = out_of_fuel
parse_fields (suc n) piece info = elim (field_of piece) [
  | none ↦ invalid
  | some set ↦ elim (field_value piece).0 [
    | none ↦ invalid
    | some value ↦ elim (strtok parser_split_tokens (field_value piece).1).0 [
      | none ↦ parsed (set value info)
      | some next ↦ parse_fields n next (set value info)
    ]
  ]
]

-- `from_string_`, with the length of the first token as fuel
unfoldable pub from_string : Bytes → Parsed
unfolding strtok parse_fields
from_string text = elim (strtok parser_split_tokens text).0 [
  | none ↦ invalid
  | some piece ↦ parse_fields (length piece) piece no_info
]
