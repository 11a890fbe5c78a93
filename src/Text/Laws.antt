-- ===== src/Text/Laws.antt =====
-- Laws of the text functions: where a byte stands, what cutting and trimming leave.
use mathlib.Core.List.{append_assoc, append-nil}
use sip_exporter.Prelude.{
  ℕ, suc, ◌+◌, ◌≡◌, refl, ap, sym, ◌∙◌, Bool, true, false, not, ◌&&◌, [], ◌∷◌, ◌++◌, none, some,
  ◌==◌, length, take, drop, arith, nat_key, Bool-cases, inl, inr,
}
use sip_exporter.Text.{
  Bytes, is_space, equal, index_byte, trim_left, trim_right, keep_unless, trim_space, put_word,
  fields_from, fields, grow_first, split_crlf,
}

-- A text without a byte.
abbrev pub lacks : ℕ → Bytes → Bool
lacks c [] = true
lacks c (x ∷ s) = not (x == c) && lacks c s

-- A text without white space.
abbrev pub lacks_space : Bytes → Bool
lacks_space [] = true
lacks_space (x ∷ s) = not (is_space x) && lacks_space s

abbrev pub is_set : Bytes → Bool
is_set [] = false
is_set (x ∷ s) = true

pub take-append : (a b : Bytes) → take (length a) (a ++ b) ≡ a
take-append [] b = refl
take-append (x ∷ a) b = ap (◌∷◌ x) (take-append a b)

pub drop-append : (a b : Bytes) → drop (length a) (a ++ b) ≡ b
drop-append [] b = refl
drop-append (x ∷ a) b = drop-append a b

one_on : (n : ℕ) → suc n + 1 ≡ suc (n + 1)
one_on n = omega arith

pub drop-past : (a : Bytes) (c : ℕ) (b : Bytes) → drop (length a + 1) (a ++ c ∷ b) ≡ b
drop-past [] c b = refl
drop-past (x ∷ a) c b = ap (λ k. drop k (x ∷ (a ++ c ∷ b))) (one_on (length a)) ∙ drop-past a c b

pub index_byte-append :
    (c : ℕ) (a b : Bytes) → lacks c a ≡ true → index_byte c (a ++ c ∷ b) ≡ some (length a)
unfolding index_byte
index_byte-append c [] b h = ground (arith, nat_key)
index_byte-append c (x ∷ a) b h = ground (arith, h, index_byte-append c a b)

pub index_byte-none : (c : ℕ) (a : Bytes) → lacks c a ≡ true → index_byte c a ≡ none
unfolding index_byte
index_byte-none c [] h = refl
index_byte-none c (x ∷ a) h = ground (arith, h, index_byte-none c a)

pub lacks-append :
    (c : ℕ) (a b : Bytes) → lacks c a ≡ true → lacks c b ≡ true → lacks c (a ++ b) ≡ true
lacks-append c [] b h g = g
lacks-append c (x ∷ a) b h g = ground (arith, h, lacks-append c a b)

pub lacks_space-append :
    (a b : Bytes) → lacks_space a ≡ true → lacks_space b ≡ true → lacks_space (a ++ b) ≡ true
lacks_space-append [] b h g = g
lacks_space-append (x ∷ a) b h g = ground (arith, h, lacks_space-append a b)

-- What ends in a text without white space keeps its end.
trim_right-id : (a : Bytes) → lacks_space a ≡ true → trim_right is_space a ≡ a
unfolding trim_right
trim_right-id [] h = refl
trim_right-id (x ∷ []) h = ground (arith, h)
trim_right-id (x ∷ y ∷ a) h =
    ap (keep_unless is_space x) (trim_right-id (y ∷ a) (ground (arith, h)))

trim_right-append :
    (a b : Bytes) → is_set b ≡ true → lacks_space b ≡ true → trim_right is_space (a ++ b) ≡ a ++ b
unfolding trim_right
trim_right-append [] b s h = trim_right-id b h
trim_right-append (x ∷ []) [] s h = absurd (ground (arith, s))
trim_right-append (x ∷ []) (y ∷ b) s h = ap (keep_unless is_space x) (trim_right-id (y ∷ b) h)
trim_right-append (x ∷ y ∷ a) b s h = ap (keep_unless is_space x) (trim_right-append (y ∷ a) b s h)

trim_left-set : (x : ℕ) (s : Bytes) → is_space x ≡ false → trim_left is_space (x ∷ s) ≡ x ∷ s
unfolding trim_left
trim_left-set x s h = ground (arith, h)

-- A text between words is trimmed of the blank before it only.
pub trim_space-words :
    (a b : Bytes)
    → is_set a ≡ true
    → lacks_space (take 1 a) ≡ true
    → is_set b ≡ true
    → lacks_space b ≡ true
    → trim_space (32 ∷ a ++ b) ≡ a ++ b
unfolding trim_space trim_left
trim_space-words [] b s h t g = absurd (ground (arith, s))
trim_space-words (x ∷ a) b s h t g =
    ap (trim_right is_space) (trim_left-set x (a ++ b) (ground (arith, h)))
    ∙ trim_right-append (x ∷ a) b t g

pub trim_space-id : (a : Bytes) → lacks_space a ≡ true → trim_space a ≡ a
unfolding trim_space trim_left trim_right
trim_space-id [] h = refl
trim_space-id (x ∷ a) h =
    ap (trim_right is_space) (trim_left-set x a (ground (arith, h))) ∙ trim_right-id (x ∷ a) h

pub trim_space-blank : (a : Bytes) → lacks_space a ≡ true → trim_space (32 ∷ a) ≡ a
unfolding trim_space trim_left trim_right
trim_space-blank [] h = refl
trim_space-blank (x ∷ a) h =
    ap (trim_right is_space) (trim_left-set x a (ground (arith, h))) ∙ trim_right-id (x ∷ a) h

fields_from-word :
    (w a s : Bytes)
    → lacks_space a ≡ true
    → fields_from w (a ++ 32 ∷ s) ≡ put_word (w ++ a) (fields_from [] s)
unfolding fields_from
fields_from-word w [] s h = ap (λ v. put_word v (fields_from [] s)) (sym (append-nil w))
fields_from-word w (x ∷ a) s h = elim (Bool-cases (is_space x)) [
  | inl space ↦ absurd (ground (arith, h, space))
  | inr word ↦
      rw (word, fields_from)
        (fields_from-word (w ++ x ∷ []) a s (ground (arith, h))
          ∙ ap (λ v. put_word v (fields_from [] s)) (append_assoc w (x ∷ []) a))
]

fields_from-end : (w a : Bytes) → lacks_space a ≡ true → fields_from w a ≡ put_word (w ++ a) []
unfolding fields_from
fields_from-end w [] h = ap (λ v. put_word v []) (sym (append-nil w))
fields_from-end w (x ∷ a) h = elim (Bool-cases (is_space x)) [
  | inl space ↦ absurd (ground (arith, h, space))
  | inr word ↦
      rw (word, fields_from)
        (fields_from-end (w ++ x ∷ []) a (ground (arith, h))
          ∙ ap (λ v. put_word v []) (append_assoc w (x ∷ []) a))
]

-- Two words with a space between them.
pub fields-words :
    (a b : Bytes)
    → is_set a ≡ true
    → is_set b ≡ true
    → lacks_space a ≡ true
    → lacks_space b ≡ true
    → fields (a ++ 32 ∷ b) ≡ a ∷ b ∷ []
fields-words [] b s t h g = absurd (ground (arith, s))
fields-words (x ∷ a) [] s t h g = absurd (ground (arith, t))
fields-words (x ∷ a) (y ∷ b) s t h g =
    fields_from-word [] (x ∷ a) (y ∷ b) h ∙ ap (◌∷◌ (x ∷ a)) (fields_from-end [] (y ∷ b) g)

-- A line, and the lines behind its CR LF.
pub split_crlf-line :
    (line rest : Bytes)
    → lacks 13 line ≡ true
    → split_crlf (line ++ 13 ∷ 10 ∷ rest) ≡ line ∷ split_crlf rest
unfolding split_crlf
split_crlf-line [] rest h = refl
split_crlf-line (x ∷ []) rest h = elim (Bool-cases (x == 13)) [
  | inl cr ↦ absurd (ground (arith, h, cr))
  | inr other ↦ rw (other, split_crlf) refl
]
split_crlf-line (x ∷ y ∷ line) rest h = elim (Bool-cases (x == 13)) [
  | inl cr ↦ absurd (ground (arith, h, cr))
  | inr other ↦
      rw (other, split_crlf)
        (ap (grow_first x) (split_crlf-line (y ∷ line) rest (ground (arith, h))))
]

pub equal_lem : (a b : Bytes) → equal a b ≡ true → a ≡ b
unfolding equal
equal_lem [] [] h = refl
equal_lem [] (y ∷ b) h = absurd (ground (arith, h))
equal_lem (x ∷ a) [] h = absurd (ground (arith, h))
equal_lem (x ∷ a) (y ∷ b) h = ground (arith, h, nat_key, equal_lem a b)
