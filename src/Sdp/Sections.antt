-- ===== src/Sdp/Sections.antt =====
-- The whole loop of `Parse` against the sections of the description.
use sip_exporter.Prelude.{
  ℕ, zero, suc, ◌+◌, ◌≡◌, ◌<◌, refl, ap, sym, subst, ◌∙◌, false, not, ◌&&◌, ◌||◌, List, [], ◌∷◌,
  ◌++◌, Option, some, if◌then◌else◌, arith, length, drop, get_elem?, Bool-cases, Option-cases, inl,
  inr,
}
use sip_exporter.Text.{Bytes, codes, equal, has_prefix, trim_space, split_byte}
use sip_exporter.Sdp.{
  Media, extract_conn_ip, extract_origin_ip, ip_ver_ipv4, is_media_line, has_media_before, Session,
  session_conn, parse_line, parse_loop, new_session, parse,
}
use sip_exporter.Sdp.Section.{
  attributes, sections, sections_media, origin_of, conn_of, media_of, StartsMedia,
}
use sip_exporter.Sdp.Loop.{get_none, get_some, origin_not_conn, plus_one, loop_step, loop_sections}

-- The lines before the first line `m=`, one round each.
session_line : Bytes → Session → Session
session_line line s =
    if has_prefix line (codes "o=")
    then record s { origin_ip = extract_origin_ip line }
    else if has_prefix line (codes "c=") && not s.session_c_seen
    then session_conn line s
    else s

session_round :
    (lines : List Bytes) (i : ℕ) (line : Bytes) (s : Session)
    → has_prefix line (codes "m=") ≡ false
    → has_media_before lines i ≡ false
    → parse_line lines i line s ≡ (i + 1, session_line line s)
unfolding parse_line session_line
session_round lines i line s h b = ground (arith, h, b)

before_next :
    (lines : List Bytes) (i : ℕ) (raw : Bytes)
    → get_elem? lines i ≡ some raw
    → is_media_line raw ≡ false
    → has_media_before lines i ≡ false
    → has_media_before lines (suc i) ≡ false
unfolding has_media_before
before_next [] zero raw g h b = absurd (ground (arith, g))
before_next [] (suc i) raw g h b = absurd (ground (arith, g))
before_next (x ∷ []) zero raw g h b = ground (arith, g, h)
before_next (x ∷ y ∷ lines) zero raw g h b = ground (arith, g, h)
before_next (x ∷ lines) (suc i) raw g h b = ground (arith, b, before_next lines i raw g h)

abbrev session_all : Session → List Bytes → Session
session_all s [] = s
session_all s (raw ∷ lines) = session_all (session_line (trim_space raw) s) lines

session_line_result : (line : Bytes) (s : Session) → (session_line line s).result ≡ s.result
unfolding session_line
session_line_result line s = ground arith

session_line_origin :
    (line : Bytes) (s : Session)
    → (session_line line s).origin_ip
      ≡ (if has_prefix line (codes "o=") then extract_origin_ip line else s.origin_ip)
unfolding session_line
session_line_origin line s = ground arith

session_line_conn :
    (line : Bytes) (s : Session)
    → ((session_line line s).session_ip ≡ (
        if has_prefix line (codes "c=") && not s.session_c_seen
        then (if equal (extract_conn_ip line).1 ip_ver_ipv4
            then (extract_conn_ip line).0
            else s.session_ip)
        else s.session_ip))
      × ((session_line line s).session_c_seen ≡ (s.session_c_seen || has_prefix line (codes "c=")))
unfolding session_line
session_line_conn line s =
    (ground (arith, origin_not_conn line), ground (arith, origin_not_conn line))

-- What the rounds before the first line `m=` leave.
session_all_lem :
    (s : Session) (lines : List Bytes)
    → ((session_all s lines).result ≡ s.result)
      × ((session_all s lines).origin_ip ≡ origin_of s.origin_ip lines)
      × ((session_all s lines).session_ip
          ≡ (if s.session_c_seen then s.session_ip else conn_of s.session_ip lines))
session_all_lem s [] = (refl, refl, ground arith)
session_all_lem s (raw ∷ lines) =
    let line = trim_space raw in
    let (result, origin, conn) = session_all_lem (session_line line s) lines in
    let (ip, seen) = session_line_conn line s in
    (
      result ∙ session_line_result line s,
      origin ∙ ap (λ d. origin_of d lines) (session_line_origin line s),
      conn ∙ ground (arith, ip, seen),
    )

session_more :
    (s : Session) (raw : Bytes) (rest : List Bytes)
    → is_media_line raw ≡ false
    → (session_all s (attributes (raw ∷ rest))
        ≡ session_all (session_line (trim_space raw) s) (attributes rest))
      × (sections (raw ∷ rest) ≡ sections rest)
session_more s raw rest h = rw h (refl, refl)

session_none :
    (s : Session) (lines : List Bytes) → StartsMedia lines → session_all s (attributes lines) ≡ s
session_none s [] h = refl
session_none s (raw ∷ lines) h = rw h refl

abbrev found : Session → List Bytes → Option (List Media)
found e lines = some (e.result ++ sections_media e.session_ip e.origin_ip (sections lines))

found_more :
    {e f : Session} (xs ys : List Bytes)
    → e ≡ f
    → sections xs ≡ sections ys
    → found e xs ≡ found f ys
found_more xs ys p q =
    λ i. some ((p i).result ++ sections_media (p i).session_ip (p i).origin_ip (q i))

before_first : (lines : List Bytes) → has_media_before lines 0 ≡ false
unfolding has_media_before
before_first [] = refl
before_first (raw ∷ lines) = refl

-- The whole loop.
loop_session :
    (n : ℕ) (lines : List Bytes) (i : ℕ) (s : Session)
    → has_media_before lines i ≡ false
    → length (drop i lines) < n
    → parse_loop n lines i s ≡ found (session_all s (attributes (drop i lines))) (drop i lines)
loop_session zero lines i s b h = absurd (omega (arith, h))
loop_session (suc n) lines i s b h = elim (Option-cases (get_elem? lines i)) [
  | inl done ↦
      loop_sections (suc n) lines i s (subst StartsMedia (sym (get_none lines i done)) tt) h
      ∙ ap (λ e. found e (drop i lines))
          (sym (session_none s (drop i lines) (subst StartsMedia (sym (get_none lines i done)) tt)))
  | inr (raw, here) ↦
      let (split, at) = get_some lines i raw here in
      elim (Bool-cases (is_media_line raw)) [
        | inl media ↦
            let starts = subst StartsMedia (sym split) media in
            loop_sections (suc n) lines i s starts h
            ∙ ap (λ e. found e (drop i lines)) (sym (session_none s (drop i lines) starts))
        | inr other ↦
            let after = session_line (trim_space raw) s in
            let rest = drop (suc i) lines in
            let (same, left) = session_more s raw rest other in
            let later =
              loop_session n lines (suc i) after (before_next lines i raw here other b)
                (omega (arith, h, ap length split)) in
            loop_step n lines i s raw here
            ∙ (ap (λ x. parse_loop n lines x.0 x.1)
                  (session_round lines i (trim_space raw) s other b)
                ∙ (ap (λ k. parse_loop n lines k after) (plus_one i)
                    ∙ (later
                        ∙ sym (
                            ap (λ x. found (session_all s (attributes x)) x) split
                            ∙ found_more (raw ∷ rest) rest same left))))
      ]
]

found_media :
    (lines : List Bytes)
    → found (session_all new_session (attributes lines)) lines ≡ some (media_of lines)
found_media lines =
    let (result, origin, conn) = session_all_lem new_session (attributes lines) in
    λ i. some (result i ++ sections_media (conn i) (origin i) (sections lines))

-- A description is parsed, and into the media of its sections: each line `m=` with the lines up to
-- the next, under the address of the first line `c=` and of the last line `o=` before the first line
-- `m=`. No section is skipped or read twice, and the loop ends.
pub parse-media_of : (body : Bytes) → parse body ≡ some (media_of (split_byte b'\n' body))
unfolding parse split_byte trim_space has_prefix
parse-media_of [] = refl
parse-media_of (c ∷ body) =
    let lines = split_byte b'\n' (c ∷ body) in
    loop_session (suc (length lines)) lines 0 new_session (before_first lines) (omega arith)
    ∙ found_media lines
