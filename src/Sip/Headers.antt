-- ===== src/Sip/Headers.antt =====
-- The header lines of a dialog: From and To with their tags, Call-ID and CSeq.
use mathlib.Core.List.{append_assoc}
use sip_exporter.Prelude.{
  ℕ, suc, ◌+◌, ◌≡◌, refl, ap, sym, ◌∙◌, subst, Bool, true, ◌&&◌, [], ◌∷◌, ◌++◌, Option, none, some,
  length, leb, take, drop, arith, length-append,
}
use sip_exporter.Text.{Bytes, codes, to_lower, index_byte, index, has_prefix, trim_space}
use sip_exporter.Text.Laws.{
  lacks, lacks_space, is_set, take-append, drop-past, index_byte-append, lacks-append,
  trim_space-words, trim_space-id,
}
use sip_exporter.Sip.{
  Party, split_header, tag_text, search_from, search_start, slice_tag, tag_at, extract_tag,
  parse_uri,
}
use sip_exporter.Sip.Uri.{
  is_token, is_token-lacks, is_token-lacks_space, inner, inner-lacks, scheme_of, scheme_lacks,
  lacks_brackets, is_address, name_addr, parse_uri-name_addr,
}

-- `Name: value`
abbrev pub field_line : Bytes → Bytes → Bytes
field_line name value = name ++ b':' ∷ 32 ∷ value

pub split_header-field_line :
    (name value : Bytes)
    → is_token name ≡ true
    → trim_space (32 ∷ value) ≡ value
    → split_header (field_line name value) ≡ (name, value)
unfolding split_header
split_header-field_line name value h g =
    rw
      (
        split_header,
        index_byte-append b':' name (32 ∷ value) (is_token-lacks b':' name refl h),
        take-append name (b':' ∷ 32 ∷ value),
        drop-past name b':' (32 ∷ value),
        trim_space-id name (is_token-lacks_space name h),
      )
      (ap (λ v. (name, v)) g)

-- A tag behind an address, or none.
abbrev pub tag_tail : Bytes → Bytes
tag_tail [] = []
tag_tail (c ∷ tag) = codes ";tag=" ++ c ∷ tag

abbrev pub tag_of : Bytes → Option Bytes
tag_of [] = none
tag_of (c ∷ tag) = some (c ∷ tag)

tag_text-token : (tag : Bytes) → is_token tag ≡ true → tag_text tag ≡ tag
unfolding tag_text
tag_text-token [] h = refl
tag_text-token (c ∷ tag) h = ground (arith, h, tag_text-token tag)

plus_suc : (n k : ℕ) → suc n + k ≡ suc (n + k)
plus_suc n k = omega arith

plus_zero : (k : ℕ) → 0 + k ≡ k
plus_zero k = omega arith

drop-behind : (a b : Bytes) (k : ℕ) → drop (length a + k) (a ++ b) ≡ drop k b
drop-behind [] b k = ap (λ n. drop n b) (plus_zero k)
drop-behind (x ∷ a) b k =
    ap (λ n. drop n (x ∷ (a ++ b))) (plus_suc (length a) k) ∙ drop-behind a b k

plus_none : (n : ℕ) → n + 0 ≡ n
plus_none n = omega arith

drop_to : (a b : Bytes) → drop (length a) (a ++ b) ≡ b
drop_to a b = ap (λ n. drop n (a ++ b)) (sym (plus_none (length a))) ∙ drop-behind a b 0

-- The search begins at the bracket that closes the address.
search_start-brackets :
    (display text rest : Bytes)
    → lacks_brackets display ≡ true
    → lacks b'>' text ≡ true
    → search_start (display ++ b'<' ∷ (text ++ b'>' ∷ rest)) ≡ length (display ++ b'<' ∷ text)
unfolding search_start
search_start-brackets display text rest h g =
    let more = text ++ b'>' ∷ rest in
    let gt = index_byte-append b'>' (b'<' ∷ text) rest g in
    rw (search_start, index_byte-append b'<' display more (ground (arith, h)))
      (ap (search_from (length display)) (ap (index_byte b'>') (drop_to display (b'<' ∷ more)) ∙ gt)
        ∙ sym (length-append display (b'<' ∷ text)))

one_and_five : (n : ℕ) → 1 + n + 5 ≡ n + 6
one_and_five n = omega arith

tag_at-tail :
    (head tag : Bytes)
    → is_token tag ≡ true
    → tag_at
        (head ++ b'>' ∷ tag_tail tag)
        (length head)
        (index (to_lower (b'>' ∷ tag_tail tag)) (codes ";tag="))
      ≡ some (tag_of tag)
unfolding index has_prefix
tag_at-tail head [] h = refl
tag_at-tail head (c ∷ tag) h =
    let whole = head ++ b'>' ∷ tag_tail (c ∷ tag) in
    let size = length-append head (b'>' ∷ tag_tail (c ∷ tag)) in
    let fits : leb (length head + 6) (length whole) ≡ true = ground (arith, size) in
    ap (slice_tag whole) (one_and_five (length head))
    ∙ rw (fits, drop-behind head (b'>' ∷ tag_tail (c ∷ tag)) 6, tag_text-token (c ∷ tag) h) refl

extract_tag-brackets :
    (display text tag : Bytes)
    → lacks_brackets display ≡ true
    → lacks b'>' text ≡ true
    → is_token tag ≡ true
    → extract_tag (display ++ b'<' ∷ (text ++ b'>' ∷ tag_tail tag)) ≡ some (tag_of tag)
unfolding extract_tag
extract_tag-brackets display text tag h g t =
    let head = display ++ b'<' ∷ text in
    let rest = b'>' ∷ tag_tail tag in
    let value = display ++ b'<' ∷ (text ++ rest) in
    let same : value ≡ head ++ rest = sym (append_assoc display (b'<' ∷ text) rest) in
    let start = search_start-brackets display text (tag_tail tag) h g in
    ap (λ n. tag_at value n (index (to_lower (drop n value)) (codes ";tag="))) start
    ∙ (ap (λ v. tag_at v (length head) (index (to_lower (drop (length head) v)) (codes ";tag=")))
          same
        ∙ (ap (λ s. tag_at (head ++ rest) (length head) (index (to_lower s) (codes ";tag=")))
              (drop_to head rest)
            ∙ tag_at-tail head tag t))

-- The parts of an address of From and To.
pub record Address : Type 0 where
  pub display : Bytes
  pub secure : Bool
  pub user : Bytes
  pub password : Bytes
  pub host : Bytes
  pub port : Bytes
  pub params : Bytes
  pub tag : Bytes

abbrev pub address_text : Address → Bytes
address_text a =
    name_addr a.display a.secure (inner a.user a.password a.host a.port a.params) (tag_tail a.tag)

abbrev pub party : Address → Party
party a = record { user = a.user; addr = a.host; tag = a.tag }

-- The display name has no bracket and does not begin with white space, the tag is a token.
abbrev pub is_clean : Address → Bool
is_clean a =
    lacks_brackets a.display
    && (lacks_space (take 1 a.display)
        && (is_token a.tag && is_address a.user a.password a.host a.port a.params))

pub address_tag :
    (a : Address) → is_clean a ≡ true → extract_tag (address_text a) ≡ some (tag_of a.tag)
address_tag a h =
    let text = inner a.user a.password a.host a.port a.params in
    extract_tag-brackets a.display (scheme_of a.secure ++ text) a.tag (ground (arith, h))
      (lacks-append b'>' (scheme_of a.secure) text (scheme_lacks a.secure)
        (inner-lacks a.user a.password a.host a.port a.params (ground (arith, h))))
      (ground (arith, h))

pub address_uri : (a : Address) → is_clean a ≡ true → parse_uri (address_text a) ≡ (a.user, a.host)
address_uri a h =
    parse_uri-name_addr a.display a.secure a.user a.password a.host a.port a.params (tag_tail a.tag)
      (ground (arith, h)) (ground (arith, h))

tag_tail-lacks_space : (tag : Bytes) → is_token tag ≡ true → lacks_space (tag_tail tag) ≡ true
tag_tail-lacks_space [] h = refl
tag_tail-lacks_space (c ∷ tag) h = is_token-lacks_space (c ∷ tag) h

front_set : (d text : Bytes) → is_set (d ++ b'<' ∷ text) ≡ true
front_set [] text = refl
front_set (x ∷ d) text = refl

front_first :
    (d text : Bytes)
    → lacks_space (take 1 d) ≡ true
    → lacks_space (take 1 (d ++ b'<' ∷ text)) ≡ true
front_first [] text h = refl
front_first (x ∷ d) text h = h

pub address_trimmed :
    (a : Address) → is_clean a ≡ true → trim_space (32 ∷ address_text a) ≡ address_text a
address_trimmed a h =
    let text = scheme_of a.secure ++ inner a.user a.password a.host a.port a.params in
    let rest = b'>' ∷ tag_tail a.tag in
    let same : (a.display ++ b'<' ∷ text) ++ rest ≡ address_text a =
      append_assoc a.display (b'<' ∷ text) rest in
    subst (λ v. trim_space (32 ∷ v) ≡ v) same
      (trim_space-words (a.display ++ b'<' ∷ text) rest (front_set a.display text)
        (front_first a.display text (ground (arith, h))) refl
        (tag_tail-lacks_space a.tag (ground (arith, h))))
