-- ===== src/Text.antt =====
-- What the code uses of Go's packages bytes, strings and strconv, on lists of bytes. White space and
-- letters are those of ASCII: what Go does with bytes above 127 there (white space and case of other
-- scripts, invalid UTF-8) is left out.
pub mod Laws
use Prim.Native.Char.{code}
use sip_exporter.Prelude.{
  ℕ, suc, zero, ◌+◌, ◌-◌, ◌*◌, ◌^◌, Bool, true, false, not, ◌&&◌, ◌||◌, String, List, [], ◌∷◌, ◌++◌,
  map, Option, none, some, is_some, ite, ◌==◌, leb, ltb, if◌then◌else◌, length, take, drop,
}
use sip_exporter.Prelude.Int.{ℤ, pos, sub_ℕ}

abbrev pub Bytes : Type 0
Bytes = List ℕ

-- The bytes of an ASCII literal.
abbrev pub codes : String → Bytes
codes String.[] = []
codes (String.◌∷◌ c s) = code c ∷ codes s

abbrev pub is_space : ℕ → Bool
is_space c = leb 9 c && leb c 13 || c == 32

abbrev pub lower : ℕ → ℕ
lower c = if leb b'A' c && leb c b'Z' then c + 32 else c

abbrev pub to_lower : Bytes → Bytes
to_lower = map lower

-- `bytes.Equal` and `bytes.EqualFold`
unfoldable pub equal : Bytes → Bytes → Bool
equal [] [] = true
equal [] (y ∷ b) = false
equal (x ∷ a) [] = false
equal (x ∷ a) (y ∷ b) = x == y && equal a b

abbrev pub equal_fold : Bytes → Bytes → Bool
equal_fold a b = equal (to_lower a) (to_lower b)

unfoldable pub has_prefix : Bytes → Bytes → Bool
has_prefix s [] = true
has_prefix [] (y ∷ p) = false
has_prefix (x ∷ s) (y ∷ p) = x == y && has_prefix s p

abbrev pub trim_prefix : Bytes → Bytes → Bytes
trim_prefix s p = if has_prefix s p then drop (length p) s else s

unfoldable pub index_byte : ℕ → Bytes → Option ℕ
index_byte c [] = none
index_byte c (x ∷ s) =
    if x == c then some 0 else elim (index_byte c s) [ none ↦ none | some i ↦ some (suc i) ]

-- `bytes.Index`
unfoldable pub index : Bytes → Bytes → Option ℕ
unfolding has_prefix
index [] p = if has_prefix [] p then some 0 else none
index (x ∷ s) p =
    if has_prefix (x ∷ s) p
    then some 0
    else elim (index s p) [ none ↦ none | some i ↦ some (suc i) ]

unfoldable pub trim_left : (ℕ → Bool) → Bytes → Bytes
trim_left p [] = []
trim_left p (x ∷ s) = let rest = trim_left p s in if p x then rest else x ∷ s

-- A byte before what is left of the rest.
abbrev pub keep_unless : (ℕ → Bool) → ℕ → Bytes → Bytes
keep_unless p x [] = if p x then [] else x ∷ []
keep_unless p x (y ∷ s) = x ∷ y ∷ s

unfoldable pub trim_right : (ℕ → Bool) → Bytes → Bytes
trim_right p [] = []
trim_right p (x ∷ s) = keep_unless p x (trim_right p s)

unfoldable pub trim_space : Bytes → Bytes
unfolding trim_left trim_right
trim_space s = trim_right is_space (trim_left is_space s)

abbrev pub put_word : Bytes → List Bytes → List Bytes
put_word [] words = words
put_word (x ∷ w) words = (x ∷ w) ∷ words

-- `fields`, with the word that is being read.
unfoldable pub fields_from : Bytes → Bytes → List Bytes
fields_from w [] = put_word w []
fields_from w (x ∷ s) = elim (is_space x) [
  | true ↦ put_word w (fields_from [] s)
  | false ↦ fields_from (w ++ (x ∷ [])) s
]

abbrev pub fields : Bytes → List Bytes
fields s = fields_from [] s

abbrev pub grow_first : ℕ → List Bytes → List Bytes
grow_first x [] = (x ∷ []) ∷ []
grow_first x (part ∷ parts) = (x ∷ part) ∷ parts

-- `bytes.Split` at one byte, and at CR LF.
unfoldable pub split_byte : ℕ → Bytes → List Bytes
split_byte c [] = [] ∷ []
split_byte c (x ∷ s) =
    let parts = split_byte c s in if x == c then [] ∷ parts else grow_first x parts

unfoldable pub split_crlf : Bytes → List Bytes
split_crlf [] = [] ∷ []
split_crlf (x ∷ []) = (x ∷ []) ∷ []
split_crlf (x ∷ y ∷ s) = elim (x == 13 && y == 10) [
  | true ↦ [] ∷ split_crlf s
  | false ↦ grow_first x (split_crlf (y ∷ s))
]

-- `SplitN` at one byte, into at most `n + 1` parts.
unfoldable pub split_n : ℕ → ℕ → Bytes → List Bytes
unfolding index_byte
split_n c zero s = s ∷ []
split_n c (suc n) s = elim (index_byte c s) [
  | none ↦ s ∷ []
  | some i ↦ take i s ∷ split_n c n (drop (suc i) s)
]

abbrev pub is_digit : ℕ → Bool
is_digit c = leb b'0' c && leb c b'9'

-- The number that digits spell, none where another byte stands.
unfoldable pub digits_from : ℕ → Bytes → Option ℕ
digits_from n [] = some n
digits_from n (c ∷ s) =
    let rest = digits_from (n * 10 + (c - b'0')) s in if is_digit c then rest else none

abbrev pub digits : Bytes → Option ℕ
digits [] = none
digits (c ∷ s) = digits_from 0 (c ∷ s)

abbrev pub below : ℕ → Option ℕ → Option ℕ
below limit none = none
below limit (some n) = if ltb n limit then some n else none

abbrev pub negated : Option ℕ → Option ℤ
negated none = none
negated (some n) = some (sub_ℕ 0 n)

abbrev pub not_negated : Option ℕ → Option ℤ
not_negated none = none
not_negated (some n) = some (pos n)

-- `strconv.Atoi`; an error is none, out of the range of int64 included.
abbrev pub atoi : Bytes → Option ℤ
atoi [] = none
atoi (c ∷ s) =
    if c == b'-'
    then negated (below (2 ^ 63 + 1) (digits s))
    else not_negated (below (2 ^ 63) (digits (if c == b'+' then s else c ∷ s)))

-- `strconv.ParseUint(s, 10, 32)`
abbrev pub parse_uint_32 : Bytes → Option ℕ
parse_uint_32 s = below (2 ^ 32) (digits s)
