-- ===== src/Tls/Subject/First.antt =====
-- What `from_string_` of env/inc/tls.hpp reads of a text.
use module_oriented_software.Common.{
  ℕ, suc, ◌∙◌, ◌≡◌, refl, true, false, some, [], ◌∷◌, ◌++◌, length, sym, ap,
}
use module_oriented_software.Tls.Subject.{
  Bytes, is_member, skip, span, token, strtok, field_of, parser_split_tokens, equals_sign,
  field_value, parse_fields, from_string, parsed, CertInfo, no_info,
}

-- No byte of the text is a delimiter.
abbrev pub IsFree : Bytes → Bytes → Type 0
IsFree delims [] = Unit {0}
IsFree delims (c ∷ cs) = (is_member c delims ≡ false) × IsFree delims cs

span_free :
    (delims p rest : Bytes) (d : ℕ)
    → IsFree delims p
    → is_member d delims ≡ true
    → span delims (p ++ d ∷ rest) ≡ (p, rest)
unfolding span
span_free delims [] rest d f e = rw e refl
span_free delims (c ∷ p) rest d f e = rw (f.0, span_free delims p rest d f.1 e) refl

span_whole : (delims p : Bytes) → IsFree delims p → span delims p ≡ (p, [])
unfolding span
span_whole delims [] f = refl
span_whole delims (c ∷ p) f = rw (f.0, span_whole delims p f.1) refl

-- A piece before a delimiter is the first token of the text.
strtok-first :
    (c : ℕ) (p rest : Bytes) (d : ℕ)
    → IsFree parser_split_tokens (c ∷ p)
    → is_member d parser_split_tokens ≡ true
    → (strtok parser_split_tokens (c ∷ p ++ d ∷ rest)).0 ≡ some (c ∷ p)
unfolding strtok skip token
strtok-first c p rest d f e = rw (f.0) (rw (span_free parser_split_tokens (c ∷ p) rest d f e) refl)

strtok-whole :
    (c : ℕ) (p : Bytes)
    → IsFree parser_split_tokens (c ∷ p)
    → (strtok parser_split_tokens (c ∷ p)).0 ≡ some (c ∷ p)
unfolding strtok skip token
strtok-whole c p f = rw (f.0) (rw (span_whole parser_split_tokens (c ∷ p) f) refl)

from_string-token :
    (text piece : Bytes)
    → (strtok parser_split_tokens text).0 ≡ some piece
    → from_string text ≡ parse_fields (length piece) piece no_info
unfolding from_string
from_string-token text piece e = rw (from_string, e) refl

-- However a text goes on behind its first delimiter, what `from_string_` returns or throws is what it does with the part before that.
from_string-first :
    (c : ℕ) (p rest : Bytes) (d : ℕ)
    → IsFree parser_split_tokens (c ∷ p)
    → is_member d parser_split_tokens ≡ true
    → from_string (c ∷ p ++ d ∷ rest) ≡ from_string (c ∷ p)
from_string-first c p rest d f e =
    from_string-token (c ∷ p ++ d ∷ rest) (c ∷ p) (strtok-first c p rest d f e)
    ∙ sym (from_string-token (c ∷ p) (c ∷ p) (strtok-whole c p f))

strtok-name :
    (c : ℕ) (k v : Bytes)
    → IsFree equals_sign (c ∷ k)
    → strtok equals_sign (c ∷ k ++ b'=' ∷ v) ≡ (some (c ∷ k), v)
unfolding strtok skip token
strtok-name c k v f = rw (f.0) (rw (span_free equals_sign (c ∷ k) v b'=' f refl) refl)

strtok-value :
    (c : ℕ) (v : Bytes)
    → IsFree equals_sign (c ∷ v)
    → strtok equals_sign (c ∷ v) ≡ (some (c ∷ v), [])
unfolding strtok skip token
strtok-value c v f = rw (f.0) (rw (span_whole equals_sign (c ∷ v) f) refl)

field_value_lem :
    (c : ℕ) (k : Bytes) (x : ℕ) (v : Bytes)
    → IsFree equals_sign (c ∷ k)
    → IsFree equals_sign (x ∷ v)
    → field_value (c ∷ k ++ b'=' ∷ x ∷ v) ≡ (some (x ∷ v), [])
unfolding field_value
field_value_lem c k x v f g =
    let e = strtok-name c k (x ∷ v) f in
    rw (field_value, ap (λ r. r.0) e, ap (λ r. r.1) e) (strtok-value x v g)

-- A field whose value leaves nothing behind is the last that is read.
parse_fields-only :
    (n : ℕ) (piece v : Bytes) (info : CertInfo) (set : Bytes → CertInfo → CertInfo)
    → field_of piece ≡ some set
    → field_value piece ≡ (some v, [])
    → parse_fields (suc n) piece info ≡ parsed (set v info)
unfolding parse_fields strtok skip token
parse_fields-only n piece v info set e h =
    rw (parse_fields, e, ap (λ r. r.0) h, ap (λ r. r.1) h) refl

-- A text of several fields gives the first of them alone: the others are neither read nor refused, and stay empty.
pub from_string-only :
    (c : ℕ) (k : Bytes) (x : ℕ) (v rest : Bytes) (d : ℕ) (set : Bytes → CertInfo → CertInfo)
    → IsFree equals_sign (c ∷ k)
    → IsFree equals_sign (x ∷ v)
    → IsFree parser_split_tokens (c ∷ k ++ b'=' ∷ x ∷ v)
    → is_member d parser_split_tokens ≡ true
    → field_of (c ∷ k ++ b'=' ∷ x ∷ v) ≡ some set
    → from_string ((c ∷ k ++ b'=' ∷ x ∷ v) ++ d ∷ rest) ≡ parsed (set (x ∷ v) no_info)
from_string-only c k x v rest d set f g h e s =
    let p = k ++ b'=' ∷ x ∷ v in
    from_string-first c p rest d h e
    ∙ from_string-token (c ∷ p) (c ∷ p) (strtok-whole c p h)
    ∙ parse_fields-only (length p) _ (x ∷ v) no_info set s (field_value_lem c k x v f g)
