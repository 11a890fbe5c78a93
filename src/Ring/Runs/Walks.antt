-- ===== src/Ring/Runs/Walks.antt =====
-- The frames that the iterator gives, to its end or its first error.
use sip_exporter.Prelude.{
  ℕ, zero, suc, ◌+◌, ◌≤◌, ◌≡◌, refl, ap, subst, sym, List, [], ◌∷◌, Option, none, some, Result, ok,
  err, length, arith,
}
use sip_exporter.Ring.{Uapi, RingError, Frame, FrameIterator, next}
use sip_exporter.Ring.Frames.{IsUapi, Fits, next-Returns, next-Reads}

-- The iterator gives these frames and then ends, with or without an error.
pub data Walks (u : Uapi) : FrameIterator → List Frame → Option RingError → Type 0 where
  fails :
      (i later : FrameIterator) (e : RingError)
      → next u i ≡ some (later, err e)
      → Walks u i [] (some e)
  ends : (i later : FrameIterator) → next u i ≡ some (later, ok none) → Walks u i [] none
  reads :
      (i later : FrameIterator) (f : Frame) (fs : List Frame) (error : Option RingError)
      → next u i ≡ some (later, ok (some f))
      → Walks u later fs error
      → Walks u i (f ∷ fs) error

abbrev pub WalksIn : Uapi → ℕ → FrameIterator → Type 0
WalksIn u n i =
    (fs : List Frame) × (error : Option RingError) × Walks u i fs error × (length fs ≤ n)

walks_read :
    (n : ℕ) (u : Uapi) (i later : FrameIterator) (read : Result RingError (Option Frame))
    → IsUapi u
    → Fits i.block
    → i.block.packet_count ≤ i.index + n
    → next u i ≡ some (later, read)
    → ((i' : FrameIterator) (m : ℕ)
        → n ≡ suc m
        → Fits i'.block
        → i'.block.packet_count ≤ i'.index + m
        → WalksIn u m i')
    → WalksIn u n i
walks_read n u i later (err e) w v h found ih = ([], some e, fails i later e found, omega arith)
walks_read n u i later (ok none) w v h found ih = ([], none, ends i later found, omega arith)
walks_read zero u i later (ok (some f)) w v h found ih =
    let r = next-Reads u i later f w v found in absurd (omega (arith, r.was_left))
walks_read (suc m) u i later (ok (some f)) w v h found ih =
    let r = next-Reads u i later f w v found in
    let count : later.block.packet_count ≡ i.block.packet_count =
      ap (λ b. b.packet_count) r.same_block in
    let (fs, error, rest, few) =
      ih later m refl (subst Fits (sym r.same_block) v) (omega (arith, r.one_less, count)) in
    (f ∷ fs, error, reads i later f fs error found rest, omega (arith, few))

-- The iterator ends, after no more frames than the block promises.
pub walks :
    (n : ℕ) (u : Uapi) (i : FrameIterator)
    → IsUapi u
    → Fits i.block
    → i.block.packet_count ≤ i.index + n
    → WalksIn u n i
walks zero u i w v h =
    let ((later, read), found) = next-Returns u i w in
    walks_read zero u i later read w v h found (λ i' m e. absurd (omega arith))
walks (suc n) u i w v h =
    let ((later, read), found) = next-Returns u i w in
    walks_read (suc n) u i later read w v h found (λ i' m e v' h'.
      subst (λ k. WalksIn u k i') (omega (arith, e)) (walks n u i' w v' (omega (arith, e, h'))))
