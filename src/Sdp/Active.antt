-- ===== src/Sdp/Active.antt =====
-- The ranges of what a description gives.
use sip_exporter.Prelude.{
  ◌⊎◌, length, ℕ, ◌^◌, ◌≡◌, ◌≤◌, ◌<◌, refl, sym, ◌∙◌, subst, true, false, ◌||◌, List, [], ◌∷◌, ◌++◌,
  Option, none, some, arith, Bool-cases, Option-cases, inl, inr, nat_key, All,
}
use sip_exporter.Prelude.Int.{ℤ, pos, negsuc}
use sip_exporter.Prelude.Assoc.{insert}
use sip_exporter.Text.{
  Bytes, codes, equal, has_prefix, trim_space, split_byte, split_n, atoi, parse_uint_32, digits,
  below, fields, trim_prefix,
}
use sip_exporter.Sdp.{
  Media, field, in_range, is_ipv4_text, ip_null_hold, parse_rtpmap, parse_rtcp_attr, Scan,
  with_rtpmap, scan_line, new_scan, audio_port, scanned_media, with_origin, if_active, parse,
}
use sip_exporter.Sdp.Section.{
  scan_all, section_media, sections_media, sections, attributes, origin_of, conn_of,
}
use sip_exporter.Sdp.Sections.{parse-media_of}

-- The keys, and the values, are below a limit.
abbrev pub KeysBelow : {A : Type 0} → ℕ → List (ℕ × A) → Type 0
KeysBelow limit [] = Unit {0}
KeysBelow limit ((k, v) ∷ m) = (k < limit) × KeysBelow limit m

abbrev pub ValuesBelow : ℕ → List (ℕ × ℕ) → Type 0
ValuesBelow limit [] = Unit {0}
ValuesBelow limit ((k, v) ∷ m) = (v < limit) × ValuesBelow limit m

insert-KeysBelow :
    {A : Type 0} (limit k : ℕ) (v : A) (m : List (ℕ × A))
    → k < limit
    → KeysBelow limit m
    → KeysBelow limit (insert k v m)
unfolding insert
insert-KeysBelow limit k v [] h g = (h, tt)
insert-KeysBelow limit k v ((j, w) ∷ m) h g =
    ground (arith, h, g.0, insert-KeysBelow limit k v m h g.1)

insert-ValuesBelow :
    (limit k v : ℕ) (m : List (ℕ × ℕ))
    → v < limit
    → ValuesBelow limit m
    → ValuesBelow limit (insert k v m)
unfolding insert
insert-ValuesBelow limit k v [] h g = (h, tt)
insert-ValuesBelow limit k v ((j, w) ∷ m) h g =
    ground (arith, h, g.0, insert-ValuesBelow limit k v m h g.1)

-- The numbers of a description that is being read.
pub record InRange (m : Media) : Type 0 where
  pub port_least : 1 ≤ m.port
  pub port_most : m.port < 2 ^ 16
  pub rtcp_port_most : m.rtcp_port < 2 ^ 16
  pub payload_types : KeysBelow 128 m.codecs
  pub clock_types : KeysBelow 128 m.clock_rates
  pub clocks : ValuesBelow (2 ^ 32) m.clock_rates

-- A byte of an address in the dotted form.
abbrev pub IsDotted : ℕ → Type 0
IsDotted c = ((b'0' ≤ c) × (c ≤ b'9')) ⊎ (c ≡ b'.')

All-IsDotted : (c : ℕ) (ip : Bytes) → is_ipv4_text (c ∷ ip) ≡ true → IsDotted c × All IsDotted ip
unfolding is_ipv4_text
All-IsDotted c [] h = (ground (arith, h), tt)
All-IsDotted c (d ∷ ip) h = (ground (arith, h), All-IsDotted d ip (ground (arith, h)))

dotted : (ip : Bytes) → is_ipv4_text ip ≡ true → (1 ≤ length ip) × All IsDotted ip
unfolding is_ipv4_text
dotted [] h = absurd (ground (arith, h))
dotted (c ∷ ip) h = (omega arith, All-IsDotted c ip h)

-- A medium with an address of digits and dots, which need not be four numbers below 256.
pub record IsActive (m : Media) : Type 0 where
  pub in_range : InRange m
  pub address : (1 ≤ length m.ip) × All IsDotted m.ip
  pub not_held : equal m.ip ip_null_hold ≡ false

in_range_lem : (lo hi : ℕ) (z : Option ℤ) (n : ℕ) → in_range lo hi z ≡ some n → (lo ≤ n) × (n ≤ hi)
in_range_lem lo hi none n h = absurd (ground (arith, h))
in_range_lem lo hi (some (negsuc k)) n h = absurd (ground (arith, h))
in_range_lem lo hi (some (pos k)) n h = ground (arith, h)

below_lem : (limit : ℕ) (o : Option ℕ) (n : ℕ) → below limit o ≡ some n → n < limit
below_lem limit none n h = absurd (ground (arith, h))
below_lem limit (some k) n h = ground (arith, h)

rtcp_attr_port : (line : Bytes) → (parse_rtcp_attr line).0 < 2 ^ 16
unfolding parse_rtcp_attr
rtcp_attr_port line =
    let fs = fields (trim_prefix line (codes "a=rtcp:")) in
    elim (Option-cases (in_range 1 65535 (atoi (field fs 0)))) [
      | inl unread ↦ rw (unread, parse_rtcp_attr) (omega arith)
      | inr (p, known) ↦
          rw (known, parse_rtcp_attr)
            (omega (arith, in_range_lem 1 65535 (atoi (field fs 0)) p known))
    ]

rtpmap_ranges :
    (line : Bytes) (pt clock : ℕ) (codec : Bytes)
    → parse_rtpmap line ≡ some (pt, codec, clock)
    → (pt < 128) × (clock < 2 ^ 32)
unfolding parse_rtpmap
rtpmap_ranges line pt clock codec h =
    let pt_enc = split_n b' ' 1 (trim_prefix line (codes "a=rtpmap:")) in
    let enc_parts = split_n b'/' 2 (trim_space (field pt_enc 1)) in
    elim (Option-cases (in_range 0 127 (atoi (trim_space (field pt_enc 0))))) [
      | inl unread ↦ absurd (ground (arith, h, unread))
      | inr (p, known) ↦ elim (Option-cases (parse_uint_32 (field enc_parts 1))) [
        | inl unread ↦ absurd (ground (arith, h, known, unread))
        | inr (c, rate) ↦ ground (
          arith,
          h,
          known,
          rate,
          in_range_lem 0 127 (atoi (trim_space (field pt_enc 0))) p known,
          below_lem (2 ^ 32) (digits (field enc_parts 1)) c rate,
        )
      ]
    ]

with_rtpmap-InRange :
    (s : Scan) (line : Bytes) → InRange s.media → InRange (with_rtpmap s (parse_rtpmap line)).media
with_rtpmap-InRange s line v = elim (Option-cases (parse_rtpmap line)) [
  | inl unread ↦ rw unread v
  | inr ((pt, codec, clock), known) ↦
      let (small, rate) = rtpmap_ranges line pt clock codec known in
      rw known (record {
        port_least = v.port_least;
        port_most = v.port_most;
        rtcp_port_most = v.rtcp_port_most;
        payload_types = insert-KeysBelow 128 pt codec s.media.codecs small v.payload_types;
        clock_types = insert-KeysBelow 128 pt clock s.media.clock_rates small v.clock_types;
        clocks = insert-ValuesBelow (2 ^ 32) pt clock s.media.clock_rates rate v.clocks;
      })
]

-- Only the address, the marks or the RTCP port change.
same-InRange :
    (m n : Media)
    → n.port ≡ m.port
    → n.codecs ≡ m.codecs
    → n.clock_rates ≡ m.clock_rates
    → n.rtcp_port < 2 ^ 16
    → InRange m
    → InRange n
same-InRange m n p c r b v = record {
  port_least = rw p v.port_least;
  port_most = rw p v.port_most;
  rtcp_port_most = b;
  payload_types = rw c v.payload_types;
  clock_types = rw r v.clock_types;
  clocks = rw r v.clocks;
}

scan_line-InRange : (s : Scan) (line : Bytes) → InRange s.media → InRange (scan_line s line).media
unfolding scan_line
scan_line-InRange s line v = elim (Bool-cases (has_prefix line (codes "c="))) [
  | inl conn ↦ rw conn v
  | inr a ↦ elim (Bool-cases (equal line (codes "a=inactive"))) [
    | inl inactive ↦ rw (a, inactive) v
    | inr b ↦
        elim (Bool-cases
          (has_prefix line (codes "a=fingerprint") || has_prefix line (codes "a=crypto:"))) [
            | inl srtp ↦ rw (a, b, srtp) (same-InRange s.media _ refl refl refl v.rtcp_port_most v)
            | inr c ↦ elim (Bool-cases (has_prefix line (codes "a=rtpmap:"))) [
              | inl rtpmap ↦ rw (a, b, c, rtpmap) (with_rtpmap-InRange s line v)
              | inr d ↦ elim (Bool-cases (has_prefix line (codes "a=rtcp:"))) [
                | inl rtcp ↦
                    rw (a, b, c, d, rtcp)
                      (same-InRange s.media _ refl refl refl (rtcp_attr_port line) v)
                | inr e ↦ elim (Bool-cases (equal line (codes "a=rtcp-mux"))) [
                  | inl mux ↦
                      rw (a, b, c, d, e, mux)
                        (same-InRange s.media _ refl refl refl v.rtcp_port_most v)
                  | inr f ↦ rw (a, b, c, d, e, f) v
                ]
              ]
            ]
          ]
  ]
]

scan_all-InRange :
    (s : Scan) (lines : List Bytes) → InRange s.media → InRange (scan_all s lines).media
scan_all-InRange s [] v = v
scan_all-InRange s (raw ∷ lines) v =
    scan_all-InRange (scan_line s (trim_space raw)) lines (scan_line-InRange s (trim_space raw) v)

audio_port_range :
    (first : Bytes) (port : ℕ) → audio_port first ≡ some port → (1 ≤ port) × (port < 2 ^ 16)
unfolding audio_port
audio_port_range first port h =
    let fs = fields (trim_prefix first (codes "m=")) in
    ground (arith, h, in_range_lem 1 65535 (atoi (field fs 1)) port)

scanned_same :
    (s : Scan) (m : Media)
    → scanned_media s ≡ some m
    → (m.port ≡ s.media.port)
      × (m.codecs ≡ s.media.codecs)
      × (m.clock_rates ≡ s.media.clock_rates)
      × (m.rtcp_port ≡ s.media.rtcp_port)
scanned_same s m h = (ground (arith, h), ground (arith, h), ground (arith, h), ground (arith, h))

section_media-InRange :
    (ip : Bytes) (raw : Bytes) (lines : List Bytes) (m : Media)
    → section_media ip (raw, lines) ≡ some m
    → InRange m
section_media-InRange ip raw lines m h = elim (Option-cases (audio_port (trim_space raw))) [
  | inl passed_over ↦ absurd (ground (arith, h, passed_over))
  | inr (port, audio) ↦
      let (least, most) = audio_port_range (trim_space raw) port audio in
      let start : InRange (new_scan ip port).media = record {
        port_least = least;
        port_most = most;
        rtcp_port_most = omega arith;
        payload_types = tt;
        clock_types = tt;
        clocks = tt;
      } in
      let s = scan_all (new_scan ip port) lines in
      let v = scan_all-InRange (new_scan ip port) lines start in
      let (p, c, r, rtcp) = scanned_same s m (ground (arith, h, audio)) in
      same-InRange s.media m p c r (subst (λ n. n < 2 ^ 16) (sym rtcp) v.rtcp_port_most) v
]

origin_rtcp : (ip : Bytes) (m : Media) → m.rtcp_port ≡ (with_origin ip m).rtcp_port
origin_rtcp ip m = ground arith

with_origin-InRange : (ip : Bytes) (m : Media) → InRange m → InRange (with_origin ip m)
with_origin-InRange ip m v =
    same-InRange m (with_origin ip m) (ground arith) (ground arith) (ground arith)
      (subst (λ n. n < 2 ^ 16) (origin_rtcp ip m) v.rtcp_port_most) v

if_active-IsActive : (m : Media) → InRange m → All IsActive (if_active m)
if_active-IsActive m v = elim (Bool-cases (equal m.ip ip_null_hold)) [
  | inl held ↦ rw held tt
  | inr active ↦ elim (Bool-cases (is_ipv4_text m.ip)) [
    | inl ipv4 ↦
        rw (active, ipv4)
          (record { in_range = v; address = dotted m.ip ipv4; not_held = active }, tt)
    | inr ipv6 ↦ rw (active, ipv6) tt
  ]
]

All-append : {A : Type 0} (P : A → Type 0) (xs ys : List A) → All P xs → All P ys → All P (xs ++ ys)
All-append P [] ys h g = g
All-append P (x ∷ xs) ys h g = (h.0, All-append P xs ys h.1 g)

sections_media-IsActive :
    (ip origin : Bytes) (xs : List (Bytes × List Bytes))
    → All IsActive (sections_media ip origin xs)
sections_media-IsActive ip origin [] = tt
sections_media-IsActive ip origin ((raw, lines) ∷ xs) =
    let rest = sections_media-IsActive ip origin xs in
    elim (Option-cases (section_media ip (raw, lines))) [
      | inl passed_over ↦ rw passed_over rest
      | inr (m, found) ↦ rw found (
          All-append IsActive (if_active (with_origin origin m)) (sections_media ip origin xs)
            (if_active-IsActive (with_origin origin m)
              (with_origin-InRange origin m (section_media-InRange ip raw lines m found)))
            rest)
    ]

some_inj : {A : Type 0} {x y : A} → some x ≡ some y → x ≡ y
some_inj h = cc h

-- Every medium that a description gives has an address of digits and dots, at least one of them, that
-- is not the address of a held call, a port of 1 to 65535, an RTCP port up to 65535, payload types up
-- to 127 and clock rates below 2^32.
pub parse-IsActive :
    (body : Bytes) (media : List Media) → parse body ≡ some media → All IsActive media
parse-IsActive body media h =
    let lines = split_byte b'\n' body in
    let session = attributes lines in
    subst (All IsActive) (some_inj (sym (parse-media_of body) ∙ h))
      (sections_media-IsActive (conn_of [] session) (origin_of [] session) (sections lines))
