-- ===== src/Sdp/Loop.antt =====
-- The rounds of the loop of `Parse` from the first line `m=` on.
use sip_exporter.Prelude.{
  ℕ, zero, suc, ◌+◌, ◌≡◌, ◌<◌, refl, ap, sym, subst, ◌∙◌, true, false, List, [], ◌∷◌, ◌++◌, Option,
  none, some, arith, length, drop, get_elem?, Option-cases, inl, inr,
}
use mathlib.Core.List.{append_assoc, append-nil}
use sip_exporter.Text.{Bytes, codes, has_prefix, trim_space}
use sip_exporter.Sdp.{
  Media, field, is_media_line, parse_media, kept_media, Session, parse_line, parse_loop,
}
use sip_exporter.Sdp.Section.{
  attributes, sections, section_media, sections_media, behind, StartsMedia, behind-StartsMedia,
  sections-behind, length-behind-le, parse_media_lem,
}

pub get_none : (lines : List Bytes) (i : ℕ) → get_elem? lines i ≡ none → drop i lines ≡ []
get_none [] zero h = refl
get_none [] (suc i) h = refl
get_none (raw ∷ lines) zero h = absurd (ground (arith, h))
get_none (raw ∷ lines) (suc i) h = get_none lines i h

pub get_some :
    (lines : List Bytes) (i : ℕ) (raw : Bytes)
    → get_elem? lines i ≡ some raw
    → (drop i lines ≡ raw ∷ drop (suc i) lines) × (field lines i ≡ raw)
get_some [] zero raw h = absurd (ground (arith, h))
get_some [] (suc i) raw h = absurd (ground (arith, h))
get_some (x ∷ lines) zero raw h = (ground (arith, h), ground (arith, h))
get_some (x ∷ lines) (suc i) raw h = get_some lines i raw h

plus_zero : (n : ℕ) → 0 + n ≡ n
plus_zero n = omega arith

plus_suc : (i n : ℕ) → suc i + n ≡ suc (i + n)
plus_suc i n = omega arith

plus_none : (n : ℕ) → n + 0 ≡ n
plus_none n = omega arith

drop_nil : (n : ℕ) → drop {A = Bytes} n [] ≡ []
drop_nil zero = refl
drop_nil (suc n) = refl

drop_add : (n i : ℕ) (lines : List Bytes) → drop (i + n) lines ≡ drop n (drop i lines)
drop_add n zero lines = ap (λ k. drop k lines) (plus_zero n)
drop_add zero (suc i) lines = ap (λ k. drop k lines) (plus_none (suc i))
drop_add (suc n) (suc i) [] = drop_nil (suc i + suc n)
drop_add (suc n) (suc i) (x ∷ lines) =
    ap (λ k. drop k (x ∷ lines)) (plus_suc i (suc n)) ∙ drop_add (suc n) i lines

media_not_origin :
    (line : Bytes) → has_prefix line (codes "m=") ≡ true → has_prefix line (codes "o=") ≡ false
unfolding has_prefix
media_not_origin [] h = refl
media_not_origin (x ∷ line) h = ground (arith, h)

pub origin_not_conn :
    (line : Bytes) → has_prefix line (codes "o=") ≡ true → has_prefix line (codes "c=") ≡ false
unfolding has_prefix
origin_not_conn [] h = refl
origin_not_conn (x ∷ line) h = ground (arith, h)

-- A line that begins a section.
pub plus_one : (i : ℕ) → i + 1 ≡ suc i
plus_one i = omega arith

media_round :
    (lines : List Bytes) (i : ℕ) (line : Bytes) (s : Session)
    → has_prefix line (codes "m=") ≡ true
    → parse_line lines i line s ≡ (
      i + (parse_media lines i s.session_ip).1 + 1,
      record s { result = s.result ++ kept_media s.origin_ip (parse_media lines i s.session_ip).0 },
    )
unfolding parse_line
media_round lines i line s h = rw (media_not_origin line h, h) refl

pub loop_step :
    (n : ℕ) (lines : List Bytes) (i : ℕ) (s : Session) (raw : Bytes)
    → get_elem? lines i ≡ some raw
    → parse_loop (suc n) lines i s
      ≡ parse_loop n lines
          (parse_line lines i (trim_space raw) s).0
          (parse_line lines i (trim_space raw) s).1
unfolding parse_loop
loop_step n lines i s raw here = rw (here, parse_loop) refl

loop_end :
    (n : ℕ) (lines : List Bytes) (i : ℕ) (s : Session)
    → get_elem? lines i ≡ none
    → parse_loop (suc n) lines i s ≡ some s.result
unfolding parse_loop
loop_end n lines i s done = rw (done, parse_loop) refl

suc_plus : (i c : ℕ) → i + c + 1 ≡ suc i + c
suc_plus i c = omega arith

sections_here :
    (raw : Bytes) (rest : List Bytes)
    → is_media_line raw ≡ true
    → sections (raw ∷ rest) ≡ (raw, attributes rest) ∷ sections rest
sections_here raw rest h = rw h refl

join :
    (result : List Media) (ip origin : Bytes) (m : Option Media) (x : Bytes × List Bytes)
    (xs ys zs : List (Bytes × List Bytes))
    → m ≡ section_media ip x
    → ys ≡ xs
    → zs ≡ x ∷ xs
    → (result ++ kept_media origin m) ++ sections_media ip origin ys
      ≡ result ++ sections_media ip origin zs
join result ip origin m x xs ys zs p q e =
    rw (p, q, e)
      (append_assoc result (kept_media origin (section_media ip x)) (sections_media ip origin xs))

-- From a line `m=`, or the end, on.
pub loop_sections :
    (n : ℕ) (lines : List Bytes) (i : ℕ) (s : Session)
    → StartsMedia (drop i lines)
    → length (drop i lines) < n
    → parse_loop n lines i s
      ≡ some (s.result ++ sections_media s.session_ip s.origin_ip (sections (drop i lines)))
loop_sections zero lines i s m h = absurd (omega (arith, h))
loop_sections (suc n) lines i s m h = elim (Option-cases (get_elem? lines i)) [
  | inl done ↦ rw (loop_end n lines i s done, get_none lines i done, append-nil) refl
  | inr (raw, here) ↦
      let rest = drop (suc i) lines in
      let (split, at) = get_some lines i raw here in
      let starts : is_media_line raw ≡ true = subst StartsMedia split m in
      let (media, consumed) = parse_media lines i s.session_ip in
      let after : Session = record s { result = s.result ++ kept_media s.origin_ip media } in
      let (same_media, same_rest) = parse_media_lem lines i s.session_ip in
      let there : drop (i + consumed + 1) lines ≡ behind rest =
        ap (λ k. drop k lines) (suc_plus i consumed)
        ∙ (drop_add consumed (suc i) lines ∙ same_rest) in
      let shorter : length (drop (i + consumed + 1) lines) < n =
        omega (arith, h, ap length there, ap length split, length-behind-le rest) in
      let later =
        loop_sections n lines (i + consumed + 1) after
          (subst StartsMedia (sym there) (behind-StartsMedia rest)) shorter in
      let left : sections (drop (i + consumed + 1) lines) ≡ sections rest =
        ap sections there ∙ sections-behind rest in
      let this : sections (drop i lines) ≡ (raw, attributes rest) ∷ sections rest =
        ap sections split ∙ sections_here raw rest starts in
      loop_step n lines i s raw here
      ∙ (ap (λ x. parse_loop n lines x.0 x.1) (media_round lines i (trim_space raw) s starts)
          ∙ (later
              ∙ ap some (
                  join s.result s.session_ip s.origin_ip media (raw, attributes rest)
                    (sections rest) (sections (drop (i + consumed + 1) lines))
                    (sections (drop i lines))
                    (same_media ∙ ap (λ x. section_media s.session_ip (x, attributes rest)) at) left
                    this)))
]
