-- ===== src/Sip/Uri.antt =====
-- Addresses: the user and the host of a URI, in angle brackets or bare.
use mathlib.Core.List.{append_assoc, append-nil}
use sip_exporter.Prelude.{
  ℕ, suc, ◌+◌, ◌-◌, ◌≡◌, refl, ap, ap₂, sym, ◌∙◌, subst, Bool, true, false, not, ◌&&◌, ◌||◌, [],
  ◌∷◌, ◌++◌, none, some, ◌==◌, ltb, if◌then◌else◌, length, take, slice, arith, nat_key, Bool-cases,
  inl, inr, length-append,
}
use sip_exporter.Text.{Bytes, codes, is_space, equal, index_byte}
use sip_exporter.Text.Laws.{
  lacks, lacks_space, take-append, drop-past, index_byte-append, index_byte-none, lacks-append,
  trim_space-id,
}
use sip_exporter.Sip.{
  strip_scheme, until, cut_at, strip_params, unquote, extract_user, bracketed, host_of,
  extract_host, uri_of, user_host, between, parse_uri,
}

-- A byte of a token: no white space, and none of the marks of an address or a header.
abbrev pub is_plain : ℕ → Bool
is_plain c = not (
    is_space c
    || (c == b';'
        || (c == b':'
            || (c == b'@'
                || (c == b'<'
                    || (c == b'>' || (c == 34 || (c == b'[' || (c == b']' || c == b'/')))))))))

abbrev pub is_token : Bytes → Bool
is_token [] = true
is_token (x ∷ s) = is_plain x && is_token s

equal_bytes : (x y : ℕ) → x == y ≡ true → x ≡ y
equal_bytes x y h = ground (arith, nat_key, h)

pub is_token-lacks : (c : ℕ) (s : Bytes) → is_plain c ≡ false → is_token s ≡ true → lacks c s ≡ true
is_token-lacks c [] p h = refl
is_token-lacks c (x ∷ s) p h = elim (Bool-cases (x == c)) [
  | inl here ↦
      absurd (ground (arith, h, subst (λ y. is_plain y ≡ false) (sym (equal_bytes x c here)) p))
  | inr other ↦ ground (arith, other, is_token-lacks c s p (ground (arith, h)))
]

pub is_token-lacks_space : (s : Bytes) → is_token s ≡ true → lacks_space s ≡ true
is_token-lacks_space [] h = refl
is_token-lacks_space (x ∷ s) h = ground (arith, h, is_token-lacks_space s)

-- Nothing, or a text that a byte begins.
abbrev pub starts : ℕ → Bytes → Bool
starts c [] = true
starts c (x ∷ s) = x == c

cut_at-lem : (c : ℕ) (a t : Bytes) → lacks c a ≡ true → starts c t ≡ true → cut_at c (a ++ t) ≡ a
cut_at-lem c a [] h g = ap (cut_at c) (append-nil a) ∙ ap (until a) (index_byte-none c a h)
cut_at-lem c a (x ∷ t) h g =
    ap (λ y. cut_at c (a ++ y ∷ t)) (equal_bytes x c g)
    ∙ (ap (until (a ++ c ∷ t)) (index_byte-append c a t h) ∙ take-append a (c ∷ t))

-- `user@host`, with a password, a port and parameters, or none of them.
abbrev pub inner : Bytes → Bytes → Bytes → Bytes → Bytes → Bytes
inner user password host port params = user ++ (password ++ (b'@' ∷ (host ++ (port ++ params))))

unquote-token : (s : Bytes) → is_token s ≡ true → unquote s ≡ s
unquote-token [] h = refl
unquote-token (x ∷ []) h = refl
unquote-token (x ∷ y ∷ s) h = ground (arith, h)

extract_user-token :
    (user password : Bytes)
    → is_token user ≡ true
    → starts b':' password ≡ true
    → lacks b';' password ≡ true
    → extract_user (user ++ password) ≡ user
unfolding extract_user
extract_user-token user password h p q =
    let whole : strip_params (user ++ password) ≡ user ++ password =
      ap strip_params (sym (append-nil (user ++ password)))
      ∙ cut_at-lem b';' (user ++ password) []
          (lacks-append b';' user password (is_token-lacks b';' user refl h) q) refl in
    rw
      (
        whole,
        cut_at-lem b':' user password (is_token-lacks b':' user refl h) p,
        trim_space-id user (is_token-lacks_space user h),
      )
      (unquote-token user h)

bracketed-token :
    (s t : Bytes) → is_token s ≡ true → starts b':' t ≡ true → bracketed (s ++ t) ≡ none
bracketed-token [] [] h g = refl
bracketed-token [] (y ∷ t) h g = ground (arith, g)
bracketed-token (x ∷ s) t h g = ground (arith, h)

extract_host-token :
    (host port params : Bytes)
    → is_token host ≡ true
    → starts b':' port ≡ true
    → lacks b';' port ≡ true
    → starts b';' params ≡ true
    → extract_host (host ++ (port ++ params)) ≡ host
unfolding extract_host
extract_host-token host port params h p q r =
    let whole : strip_params (host ++ (port ++ params)) ≡ host ++ port =
      ap strip_params (sym (append_assoc host port params))
      ∙ cut_at-lem b';' (host ++ port) params
          (lacks-append b';' host port (is_token-lacks b';' host refl h) q) r in
    ap (λ x. host_of x (bracketed x)) whole
    ∙ (ap (host_of (host ++ port)) (bracketed-token host port h p)
        ∙ cut_at-lem b':' host port (is_token-lacks b':' host refl h) p)

-- The scheme of an address.
abbrev pub scheme_of : Bool → Bytes
scheme_of true = codes "sips:"
scheme_of false = codes "sip:"

strip_scheme-scheme_of : (secure : Bool) (s : Bytes) → strip_scheme (scheme_of secure ++ s) ≡ s
unfolding strip_scheme equal
strip_scheme-scheme_of true s = ground arith
strip_scheme-scheme_of false s = ground arith

-- The marks that a text in angle brackets lacks.
abbrev pub lacks_brackets : Bytes → Bool
lacks_brackets s = lacks b'<' s && lacks b'>' s

abbrev pub is_address : Bytes → Bytes → Bytes → Bytes → Bytes → Bool
is_address user password host port params =
    is_token user
    && (is_token host
        && (starts b':' password
            && (lacks b';' password
                && (lacks b'@' password
                    && (lacks_brackets password
                        && (starts b':' port
                            && (lacks b';' port
                                && (lacks_brackets port
                                    && (starts b';' params && lacks_brackets params)))))))))

user_host-inner :
    (user password host port params : Bytes)
    → is_address user password host port params ≡ true
    → user_host
        (inner user password host port params)
        (index_byte b'@' (inner user password host port params))
      ≡ (user, host)
user_host-inner user password host port params h =
    let front = user ++ password in
    let back = host ++ (port ++ params) in
    let uri = inner user password host port params in
    let same : uri ≡ front ++ b'@' ∷ back = sym (append_assoc user password (b'@' ∷ back)) in
    let at = index_byte-append b'@' front back (
      lacks-append b'@' user password (is_token-lacks b'@' user refl (ground (arith, h)))
        (ground (arith, h))) in
    ap (λ x. user_host x (index_byte b'@' x)) same
    ∙ (ap (user_host (front ++ b'@' ∷ back)) at
        ∙ ap₂ (λ u v. (extract_user u, extract_host v)) (take-append front (b'@' ∷ back))
            (drop-past front b'@' back)
        ∙ ap₂ (λ u v. (u, v))
            (extract_user-token user password (ground (arith, h)) (ground (arith, h))
              (ground (arith, h)))
            (extract_host-token host port params (ground (arith, h)) (ground (arith, h))
              (ground (arith, h)) (ground (arith, h))))

if_true : {b : Bool} (x y : Bytes) → b ≡ true → (if b then x else y) ≡ x
if_true x y h = ground (arith, h)

uri_of-brackets :
    (display text rest : Bytes)
    → lacks_brackets display ≡ true
    → lacks b'>' text ≡ true
    → uri_of (display ++ b'<' ∷ (text ++ b'>' ∷ rest)) ≡ text
unfolding uri_of
uri_of-brackets display text rest h g =
    let value = display ++ b'<' ∷ (text ++ b'>' ∷ rest) in
    let head = display ++ b'<' ∷ text in
    let lt = index_byte-append b'<' display (text ++ b'>' ∷ rest) (ground (arith, h)) in
    let same : value ≡ head ++ b'>' ∷ rest =
      sym (append_assoc display (b'<' ∷ text) (b'>' ∷ rest)) in
    let gt : index_byte b'>' value ≡ some (length head) =
      ap (index_byte b'>') same
      ∙ index_byte-append b'>' head rest
          (lacks-append b'>' display (b'<' ∷ text) (ground (arith, h)) g) in
    let size : length head ≡ length display + suc (length text) =
      length-append display (b'<' ∷ text) in
    let behind : length head - (length display + 1) ≡ length text = omega (arith, size) in
    let before : ltb (length display) (length head) ≡ true = ground (arith, size) in
    ap₂ (between value) lt gt
    ∙ (if_true (slice (length display + 1) (length head) value) value before
        ∙ (ap₂ take behind (drop-past display b'<' (text ++ b'>' ∷ rest))
            ∙ take-append text (b'>' ∷ rest)))

pub inner-lacks :
    (user password host port params : Bytes)
    → is_address user password host port params ≡ true
    → lacks b'>' (inner user password host port params) ≡ true
inner-lacks user password host port params h =
    lacks-append b'>' user (password ++ b'@' ∷ (host ++ (port ++ params)))
      (is_token-lacks b'>' user refl (ground (arith, h)))
      (lacks-append b'>' password (b'@' ∷ (host ++ (port ++ params))) (ground (arith, h)) (
        lacks-append b'>' host (port ++ params) (is_token-lacks b'>' host refl (ground (arith, h)))
          (lacks-append b'>' port params (ground (arith, h)) (ground (arith, h)))))

pub scheme_lacks : (secure : Bool) → lacks b'>' (scheme_of secure) ≡ true
scheme_lacks true = refl
scheme_lacks false = refl

-- An address in angle brackets, behind a name and in front of parameters.
abbrev pub name_addr : Bytes → Bool → Bytes → Bytes → Bytes
name_addr display secure text rest = display ++ b'<' ∷ ((scheme_of secure ++ text) ++ b'>' ∷ rest)

pub parse_uri-name_addr :
    (display : Bytes) (secure : Bool) (user password host port params rest : Bytes)
    → lacks_brackets display ≡ true
    → is_address user password host port params ≡ true
    → parse_uri (name_addr display secure (inner user password host port params) rest)
      ≡ (user, host)
unfolding parse_uri
parse_uri-name_addr display secure user password host port params rest h g =
    let text = inner user password host port params in
    let cut = uri_of-brackets display (scheme_of secure ++ text) rest h (
      lacks-append b'>' (scheme_of secure) text (scheme_lacks secure)
        (inner-lacks user password host port params g)) in
    ap (λ x. user_host x (index_byte b'@' x))
      (ap strip_scheme cut ∙ strip_scheme-scheme_of secure text)
    ∙ user_host-inner user password host port params g
