-- ===== src/Sip/Lines.antt =====
-- A message as lines: its start line and header lines, the blank line and the body.
use mathlib.Core.List.{append-nil}
use sip_exporter.Prelude.{
  ℕ, suc, ◌+◌, ◌≡◌, refl, ap, sym, ◌∙◌, Bool, true, false, not, ◌&&◌, ◌||◌, List, [], ◌∷◌, ◌++◌,
  none, some, Result, ok, err, drop, arith, nat_key, Option-cases, inl, inr, ◌⊎◌, ◌>>=◌,
}
use sip_exporter.Text.{Bytes, codes, equal_fold, has_prefix, index, split_crlf}
use sip_exporter.Text.Laws.{lacks, is_set, split_crlf-line}
use sip_exporter.Sip.{
  Packet, split_header, normalize_header_name, is_folded, unfold_rest, unfold_headers, put_header,
  parse_header_line, parse_headers, body_at, body_of,
}

-- The text of lines, the blank line and a body.
abbrev pub message : List Bytes → Bytes → Bytes
message [] body = 13 ∷ 10 ∷ body
message (line ∷ lines) body = line ++ 13 ∷ 10 ∷ message lines body

-- Lines that are not empty, have no CR and do not begin with a blank.
abbrev pub is_line : Bytes → Bool
is_line line = is_set line && (lacks 13 line && not (is_folded line))

abbrev pub are_lines : List Bytes → Bool
are_lines [] = true
are_lines (line ∷ lines) = is_line line && are_lines lines

pub split_crlf-message :
    (lines : List Bytes) (body : Bytes)
    → are_lines lines ≡ true
    → split_crlf (message lines body) ≡ lines ++ [] ∷ split_crlf body
split_crlf-message [] body h = split_crlf-line [] body refl
split_crlf-message (line ∷ lines) body h =
    split_crlf-line line (message lines body) (ground (arith, h))
    ∙ ap (◌∷◌ line) (split_crlf-message lines body (ground (arith, h)))

-- The body is behind the first blank line.
abbrev blank_line : Bytes
blank_line = 13 ∷ 10 ∷ 13 ∷ 10 ∷ []

four_on : (i : ℕ) → suc i + 4 ≡ suc (i + 4)
four_on i = omega arith

index-absent :
    (x : ℕ) (s p : Bytes) → has_prefix (x ∷ s) p ≡ false → index s p ≡ none → index (x ∷ s) p ≡ none
unfolding index
index-absent x s p h absent = ground (arith, h, absent)

index-later :
    (x : ℕ) (s p : Bytes) (i : ℕ)
    → has_prefix (x ∷ s) p ≡ false
    → index s p ≡ some i
    → index (x ∷ s) p ≡ some (suc i)
unfolding index
index-later x s p i h later = ground (arith, h, later)

body_of-step :
    (x : ℕ) (s : Bytes) → has_prefix (x ∷ s) blank_line ≡ false → body_of (x ∷ s) ≡ body_of s
body_of-step x s h = elim (Option-cases (index s blank_line)) [
  | inl absent ↦
      ap (body_at (x ∷ s)) (index-absent x s blank_line h absent) ∙ sym (ap (body_at s) absent)
  | inr (i, later) ↦
      ap (body_at (x ∷ s)) (index-later x s blank_line i h later)
      ∙ (ap (λ k. drop k (x ∷ s)) (four_on i) ∙ sym (ap (body_at s) later))
]

body_of-skip : (line s : Bytes) → lacks 13 line ≡ true → body_of (line ++ s) ≡ body_of s
unfolding has_prefix
body_of-skip [] s h = refl
body_of-skip (x ∷ line) s h =
    body_of-step x (line ++ s) (ground (arith, h)) ∙ body_of-skip line s (ground (arith, h))

body_of-blank :
    (lines : List Bytes) (body : Bytes)
    → are_lines lines ≡ true
    → body_of (13 ∷ 10 ∷ message lines body) ≡ body
unfolding has_prefix index
body_of-blank [] body h = refl
body_of-blank ([] ∷ lines) body h = absurd (ground (arith, h))
body_of-blank ((x ∷ line) ∷ lines) body h =
    let rest = line ++ 13 ∷ 10 ∷ message lines body in
    body_of-step 13 (10 ∷ x ∷ rest) (ground (arith, h))
    ∙ (body_of-step 10 (x ∷ rest) refl
        ∙ (body_of-skip (x ∷ line) (13 ∷ 10 ∷ message lines body) (ground (arith, h))
            ∙ body_of-blank lines body (ground (arith, h))))

pub body_of-message :
    (first : Bytes) (lines : List Bytes) (body : Bytes)
    → are_lines (first ∷ lines) ≡ true
    → body_of (message (first ∷ lines) body) ≡ body
body_of-message first lines body h =
    body_of-skip first (13 ∷ 10 ∷ message lines body) (ground (arith, h))
    ∙ body_of-blank lines body (ground (arith, h))

pub unfold_rest-lines :
    (lines rest : List Bytes)
    → are_lines lines ≡ true
    → unfold_rest (lines ++ [] ∷ rest) ≡ ([], lines ++ unfold_headers ([] ∷ rest))
unfolding unfold_rest
unfold_rest-lines [] rest h = refl
unfold_rest-lines (line ∷ lines) rest h =
    let later = unfold_rest-lines lines rest (ground (arith, h)) in
    rw (later, append-nil line) (ground (arith, h))

pub outcome : {E A : Type 0} (r : Result E A) → ((e : E) × (r ≡ err e)) ⊎ ((a : A) × (r ≡ ok a))
outcome (err e) = inl (e, refl)
outcome (ok a) = inr (a, refl)

-- A line that is no header the parser reads.
abbrev pub is_known : Bytes → Bool
is_known header =
    equal_fold header (codes "From")
    || (equal_fold header (codes "To")
        || (equal_fold header (codes "Call-ID")
            || (equal_fold header (codes "CSeq")
                || (equal_fold header (codes "Session-Expires")
                    || (equal_fold header (codes "Expires")
                        || (equal_fold header (codes "User-Agent")
                            || equal_fold header (codes "Content-Type")))))))

abbrev pub is_inert : Bytes → Bool
is_inert line = not (is_known (normalize_header_name (split_header line).0))

abbrev pub all_inert : List Bytes → Bool
all_inert [] = true
all_inert (line ∷ lines) = is_inert line && all_inert lines

put_header-unknown :
    (header value : Bytes) (p : Packet) → is_known header ≡ false → put_header header value p ≡ ok p
unfolding put_header
put_header-unknown header value p h = ground (arith, h)

pub parse_headers-inert :
    (lines : List Bytes) (p : Packet) → all_inert lines ≡ true → parse_headers lines p ≡ ok p
unfolding parse_headers
parse_headers-inert [] p h = refl
parse_headers-inert (line ∷ lines) p h =
    let (header, value) = split_header line in
    let same = put_header-unknown (normalize_header_name header) value p (ground (arith, h)) in
    rw (same, parse_headers) (parse_headers-inert lines p (ground (arith, h)))

pub parse_headers-append :
    (lines more : List Bytes) (p : Packet)
    → parse_headers (lines ++ more) p ≡ (parse_headers lines p >>= parse_headers more)
unfolding parse_headers
parse_headers-append [] more p = refl
parse_headers-append (line ∷ lines) more p = elim (outcome (parse_header_line line p)) [
  | inl (e, refused) ↦ rw (parse_headers, refused) refl
  | inr (q, taken) ↦ rw (parse_headers, taken) (parse_headers-append lines more q)
]
