-- ===== src/Sdp/Section.antt =====
-- A description cut at its lines `m=`: the lines before the first, and the sections behind.
use sip_exporter.Prelude.{
  ℕ, suc, ◌+◌, ◌-◌, ◌≡◌, ◌≤◌, refl, ap, sym, ◌∙◌, Bool, true, false, ◌||◌, List, [], ◌∷◌, ◌++◌,
  Option, none, some, if◌then◌else◌, arith, length, drop, Bool-cases, Option-cases, inl, inr,
}
use sip_exporter.Text.{Bytes, codes, equal, has_prefix, trim_space}
use sip_exporter.Sdp.{
  Media, field, extract_conn_ip, extract_origin_ip, ip_ver_ipv4, is_media_line, Scan, scan_line,
  scan_lines, consume_until_next_media, new_scan, audio_port, scanned_media, parse_media,
  kept_media,
}

-- The lines up to the next line `m=`.
abbrev pub attributes : List Bytes → List Bytes
attributes [] = []
attributes (raw ∷ lines) =
    let rest = attributes lines in if is_media_line raw then [] else raw ∷ rest

-- Each line `m=` with the lines up to the next.
abbrev pub sections : List Bytes → List (Bytes × List Bytes)
sections [] = []
sections (raw ∷ lines) =
    let rest = sections lines in if is_media_line raw then (raw, attributes lines) ∷ rest else rest

abbrev pub scan_all : Scan → List Bytes → Scan
scan_all s [] = s
scan_all s (raw ∷ lines) = scan_all (scan_line s (trim_space raw)) lines

abbrev pub section_media : Bytes → Bytes × List Bytes → Option Media
section_media session_ip (raw, lines) = elim (audio_port (trim_space raw)) [
  | none ↦ none
  | some port ↦ scanned_media (scan_all (new_scan session_ip port) lines)
]

-- The address of the last line `o=`, and that of the first line `c=` if it is an IPv4 one; `d` where
-- there is none.
abbrev pub origin_of : Bytes → List Bytes → Bytes
origin_of d [] = d
origin_of d (raw ∷ lines) =
    let line = trim_space raw in
    origin_of (if has_prefix line (codes "o=") then extract_origin_ip line else d) lines

abbrev pub conn_of : Bytes → List Bytes → Bytes
conn_of d [] = d
conn_of d (raw ∷ lines) =
    let line = trim_space raw in
    let rest = conn_of d lines in
    let conn = extract_conn_ip line in
    if has_prefix line (codes "c=") then (if equal conn.1 ip_ver_ipv4 then conn.0 else d) else rest

abbrev pub sections_media : Bytes → Bytes → List (Bytes × List Bytes) → List Media
sections_media session_ip origin_ip [] = []
sections_media session_ip origin_ip (x ∷ xs) =
    kept_media origin_ip (section_media session_ip x) ++ sections_media session_ip origin_ip xs

-- The media of a description: those of its sections, under the addresses of its session.
abbrev pub media_of : List Bytes → List Media
media_of lines =
    let session = attributes lines in
    sections_media (conn_of [] session) (origin_of [] session) (sections lines)

abbrev pub has_media : List Bytes → Bool
has_media [] = false
has_media (raw ∷ lines) = is_media_line raw || has_media lines

-- The lines from the next line `m=` on.
abbrev pub behind : List Bytes → List Bytes
behind [] = []
behind (raw ∷ lines) = let rest = behind lines in if is_media_line raw then raw ∷ lines else rest

abbrev pub StartsMedia : List Bytes → Type 0
StartsMedia [] = Unit {0}
StartsMedia (raw ∷ lines) = is_media_line raw ≡ true

pub behind-StartsMedia : (lines : List Bytes) → StartsMedia (behind lines)
behind-StartsMedia [] = tt
behind-StartsMedia (raw ∷ lines) = elim (Bool-cases (is_media_line raw)) [
  | inl media ↦ rw media media
  | inr other ↦ rw other (behind-StartsMedia lines)
]

pub drop-attributes : (lines : List Bytes) → drop (length (attributes lines)) lines ≡ behind lines
drop-attributes [] = refl
drop-attributes (raw ∷ lines) = ground (arith, drop-attributes lines)

pub drop_past :
    (lines : List Bytes)
    → has_media lines ≡ false
    → drop (suc (length (attributes lines))) lines ≡ []
drop_past [] h = refl
drop_past (raw ∷ lines) h = ground (arith, h, drop_past lines)

pub behind_none : (lines : List Bytes) → has_media lines ≡ false → behind lines ≡ []
behind_none [] h = refl
behind_none (raw ∷ lines) h = ground (arith, h, behind_none lines)

pub sections-behind : (lines : List Bytes) → sections (behind lines) ≡ sections lines
sections-behind [] = refl
sections-behind (raw ∷ lines) = ground (arith, sections-behind lines)

pub length-behind-le : (lines : List Bytes) → length (behind lines) ≤ length lines
length-behind-le [] = omega arith
length-behind-le (raw ∷ lines) = ground (arith, length-behind-le lines)

pub consume_lem : (lines : List Bytes) → consume_until_next_media lines ≡ length (attributes lines)
unfolding consume_until_next_media
consume_lem [] = refl
consume_lem (raw ∷ lines) = ground (arith, consume_lem lines)

pub scan_lines_lem :
    (s : Scan) (lines : List Bytes)
    → scan_lines s lines
      ≡ (scan_all s (attributes lines), length (attributes lines), has_media lines)
unfolding scan_lines
scan_lines_lem s [] = refl
scan_lines_lem s (raw ∷ lines) = ground (arith, scan_lines_lem (scan_line s (trim_space raw)) lines)

back_one : (start n : ℕ) → start + 1 + n - 1 - start ≡ n
back_one start n = omega arith

past_one : (start n : ℕ) → start + 1 + n - start ≡ suc n
past_one start n = omega arith

consumed_section :
    (start : ℕ) (rest : List Bytes)
    → drop
        ((if has_media rest
            then start + 1 + length (attributes rest) - 1
            else start + 1 + length (attributes rest))
          - start)
        rest
      ≡ behind rest
consumed_section start rest = elim (Bool-cases (has_media rest)) [
  | inl more ↦
      rw more
        (ap (λ n. drop n rest) (back_one start (length (attributes rest))) ∙ drop-attributes rest)
  | inr none_left ↦ rw none_left (
      ap (λ n. drop n rest) (past_one start (length (attributes rest)))
      ∙ (drop_past rest none_left ∙ sym (behind_none rest none_left)))
]

-- What a section gives, and where the loop of `Parse` goes on behind it.
pub parse_media_lem :
    (lines : List Bytes) (start : ℕ) (session_ip : Bytes)
    → let rest = drop (suc start) lines in
      ((parse_media lines start session_ip).0
        ≡ section_media session_ip (field lines start, attributes rest))
      × (drop (parse_media lines start session_ip).1 rest ≡ behind rest)
unfolding parse_media
parse_media_lem lines start session_ip =
    let rest = drop (suc start) lines in
    elim (Option-cases (audio_port (trim_space (field lines start)))) [
      | inl passed_over ↦
          rw (passed_over, parse_media, section_media)
            (refl, ap (λ n. drop n rest) (consume_lem rest) ∙ drop-attributes rest)
      | inr (port, audio) ↦
          let scanned = scan_lines_lem (new_scan session_ip port) rest in
          rw (audio, parse_media, section_media)
            (
              ap (λ x. scanned_media x.0) scanned,
              ap
                    (λ (x : Scan × ℕ × Bool).
                      drop ((if x.2 then start + 1 + x.1 - 1 else start + 1 + x.1) - start) rest)
                    scanned
                  ∙ consumed_section start rest,
            )
    ]
