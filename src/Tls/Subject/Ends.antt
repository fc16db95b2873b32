-- ===== src/Tls/Subject/Ends.antt =====
-- The loop of `from_string_` in env/inc/tls.hpp comes to an end.
use module_oriented_software.Common.{
  ℕ, zero, suc, ◌+◌, ◌≤◌, ◌<◌, ◌∙◌, sym, ap, ◌≡◌, ◌≢◌, ◌⊎◌, refl, false, none, some, [], ◌∷◌,
  length, arith, inl, inr, Option-cases, Bool-cases,
}
use module_oriented_software.Tls.Subject.{
  Bytes, is_member, skip, span, token, strtok, field_of, parser_split_tokens, equals_sign,
  field_value, parse_fields, from_string, out_of_fuel, CertInfo, no_info,
}

length-skip : (delims text : Bytes) → length (skip delims text) ≤ length text
unfolding skip
length-skip delims [] = omega arith
length-skip delims (c ∷ cs) = ground (arith, length-skip delims cs)

length-span :
    (delims text : Bytes) → length (span delims text).0 + length (span delims text).1 ≤ length text
unfolding span
length-span delims [] = omega arith
length-span delims (c ∷ cs) = ground (arith, length-span delims cs)

-- Behind the delimiters there is nothing, or a byte that is none.
skip-cases :
    (delims text : Bytes)
    → (skip delims text ≡ [])
      ⊎ ((c : ℕ) × (cs : Bytes) × (skip delims text ≡ c ∷ cs) × (is_member c delims ≡ false))
unfolding skip
skip-cases delims [] = inl refl
skip-cases delims (c ∷ cs) = elim (Bool-cases (is_member c delims)) [
  | inl e ↦ rw e (skip-cases delims cs)
  | inr e ↦ inr (c, cs, rw e refl, e)
]

token-other :
    (delims : Bytes) (c : ℕ) (cs : Bytes)
    → is_member c delims ≡ false
    → token delims (c ∷ cs) ≡ (some (c ∷ (span delims cs).0), (span delims cs).1)
unfolding token span
token-other delims c cs f = rw f refl

strtok-skip : (delims text t : Bytes) → skip delims text ≡ t → strtok delims text ≡ token delims t
unfolding strtok
strtok-skip delims text t s = rw (strtok, s) refl

-- Where `strtok` gives a token, it is not empty, and is no longer than the text without what is left.
strtok-shrinks :
    (delims text p : Bytes)
    → (strtok delims text).0 ≡ some p
    → (0 < length p) × (length p + length (strtok delims text).1 ≤ length text)
unfolding token
strtok-shrinks delims text p e = elim (skip-cases delims text) [
  | inl n ↦ let q = ap (λ r. r.0) (strtok-skip delims text [] n) in cc
  | inr (c, cs, s, f) ↦
      let q = strtok-skip delims text (c ∷ cs) s ∙ token-other delims c cs f in
      let l = length-skip delims text in
      let k = length-span delims cs in
      let u = ap length s in
      let v = ap (λ r. r.0) q in let w = ap (λ r. length r.1) q in grind arith
]

field_value-none :
    (piece : Bytes) → (strtok equals_sign piece).0 ≡ none → field_value piece ≡ (none, [])
unfolding field_value
field_value-none piece e = rw (field_value, e) refl

field_value-some :
    (piece name : Bytes)
    → (strtok equals_sign piece).0 ≡ some name
    → field_value piece ≡ strtok equals_sign (strtok equals_sign piece).1
unfolding field_value
field_value-some piece name e = rw (field_value, e) refl

-- What is left of a token behind its value is shorter than the token.
field_value-shrinks :
    (piece v : Bytes) → (field_value piece).0 ≡ some v → length (field_value piece).1 < length piece
field_value-shrinks piece v e = elim (Option-cases (strtok equals_sign piece).0) [
  | inl n ↦ let q = ap (λ r. r.0) (field_value-none piece n) in cc
  | inr (name, h) ↦
      let q = field_value-some piece name h in
      let a = strtok-shrinks equals_sign piece name h in
      let b =
        strtok-shrinks equals_sign (strtok equals_sign piece).1 v (sym (ap (λ r. r.0) q) ∙ e) in
      let w = ap (λ r. length r.1) q in omega arith
]

-- The result of one turn of the loop, in each of its cases.
parse_fields-EndsIf :
    (n : ℕ) (piece : Bytes) (info : CertInfo)
    → ((next : Bytes) (i : CertInfo)
        → 0 < length next
        → length next < length piece
        → parse_fields n next i ≢ out_of_fuel)
    → parse_fields (suc n) piece info ≢ out_of_fuel
unfolding parse_fields
parse_fields-EndsIf n piece info ends = elim (Option-cases (field_of piece)) [
  | inl e ↦ rw (parse_fields, e) (λ q. cc)
  | inr (set, e) ↦ elim (Option-cases (field_value piece).0) [
    | inl h ↦ rw (parse_fields, e, h) (λ q. cc)
    | inr (v, h) ↦ elim (Option-cases (strtok parser_split_tokens (field_value piece).1).0) [
      | inl k ↦ rw (parse_fields, e, h, k) (λ q. cc)
      | inr (next, k) ↦
          let a = field_value-shrinks piece v h in
          let b = strtok-shrinks parser_split_tokens (field_value piece).1 next k in
          rw (parse_fields, e, h, k) (ends next (set v info) b.0 (omega arith))
    ]
  ]
]

parse_fields-ends :
    (n : ℕ) (piece : Bytes) (info : CertInfo)
    → 0 < length piece
    → length piece ≤ n
    → parse_fields n piece info ≢ out_of_fuel
parse_fields-ends zero piece info p l = absurd (omega arith)
parse_fields-ends (suc n) piece info p l =
    parse_fields-EndsIf n piece info (λ next i q k. parse_fields-ends n next i q (omega arith))

-- For every text `from_string_` comes to an end: it returns fields or throws, since what `strtok` has left gets shorter with every token.
pub from_string-ends : (text : Bytes) → from_string text ≢ out_of_fuel
unfolding from_string
from_string-ends text = elim (Option-cases (strtok parser_split_tokens text).0) [
  | inl e ↦ rw (from_string, e) (λ q. cc)
  | inr (piece, e) ↦
      let p = strtok-shrinks parser_split_tokens text piece e in
      rw (from_string, e) (parse_fields-ends (length piece) piece no_info p.0 (omega arith))
]
