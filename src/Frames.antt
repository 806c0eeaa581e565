-- ===== src/Frames.antt =====
-- FrameSplit, of quic-test/myquic/my_quic_utils.cc and of mininet-webrtc/sender.cc, and the frame
-- generator of quic-test/myquic/fakevideogenerator.{h,cc}. A split past the end of the caller's
-- array of MAX_SPLIT_NUMBER entries is a fault, `none`.
use stupid_simple.Base.{
  suc, zero, ◌⊎◌, true, false, ltb→lt, not-ltb, leb→le, not-leb, le→leb, inl, inr, ℕ, ◌+◌, ◌-◌, ◌*◌,
  ◌/◌, ◌%◌, ◌^◌, ◌≤◌, ◌<◌, ◌≡◌, refl, ap, ltb, leb, if◌then◌else◌, Bool-cases, Option, none, some,
  List, [], ◌∷◌, ◌++◌, length, length-append, length-replicate, replicate, sum, sum-append, All,
  All-append, arith,
}

abbrev pub max_split_number : ℕ
max_split_number = 1024

-- QUIC_MAX_VIDEO_SIZE, and SIM_VIDEO_SIZE of the other copy.
abbrev pub max_video_size : ℕ
max_video_size = 1000

-- The entries that FrameSplit writes, on the 16 bits of `ret`, `remain_size` and the array.
unfoldable pub split_sizes : ℕ → List ℕ
split_sizes size =
    if leb size max_video_size
    then size % 2 ^ 16 ∷ []
    else (let ret = size / max_video_size % 2 ^ 16 in
        let remain_size = size % max_video_size in
        if ltb 0 remain_size
        then replicate ret max_video_size ++ (remain_size ∷ [])
        else replicate ret max_video_size)

-- FrameSplit
unfoldable pub frame_split : ℕ → Option (List ℕ)
unfolding split_sizes
frame_split size =
    if leb (length (split_sizes size)) max_split_number then some (split_sizes size) else none

-- The same function of mininet-webrtc/sender.cc, whose constant is SIM_VIDEO_SIZE.
unfoldable pub sim_frame_split : ℕ → Option (List ℕ)
unfolding split_sizes
sim_frame_split size =
    if leb (length (split_sizes size)) max_split_number then some (split_sizes size) else none

-- FakeVideoGenerator. A QuicTime is in microseconds, a rate in bits per second.
pub record FakeVideoGenerator : Type 0 where
  pub min_rate : ℕ
  pub rate : ℕ
  pub max_rate : ℕ
  pub duration : ℕ
  pub next : ℕ

-- The constructor, for a positive frame rate.
unfoldable pub new_generator : ℕ → ℕ → FakeVideoGenerator
new_generator fs start_rate = record {
  min_rate = start_rate;
  rate = start_rate;
  max_rate = 2000000;
  duration = 1000 / fs;
  next = 0;
}

-- UpdataRate
unfoldable pub updata_rate : FakeVideoGenerator → ℕ → FakeVideoGenerator
updata_rate g bps =
    let capped = if ltb g.max_rate bps then g.max_rate else bps in
    let bw = if ltb capped g.min_rate then g.min_rate else capped in record g { rate = bw }

-- GetFrame
unfoldable pub get_frame : FakeVideoGenerator → ℕ → ℕ × FakeVideoGenerator
get_frame g now =
    let expect = g.rate * g.duration / 8000 in
    if ltb g.next now then (expect, record g { next = now + g.duration * 1000 }) else (0, g)

sum-replicate : (n x : ℕ) → sum (replicate n x) ≡ n * x
unfolding sum
sum-replicate zero x = omega arith
sum-replicate (suc n) x = omega (arith, sum-replicate n x)

All-replicate : (n : ℕ) → All (λ x. x ≤ max_video_size) (replicate n max_video_size)
All-replicate zero = tt
All-replicate (suc n) = (omega arith, All-replicate n)

-- What a caller needs of the list that FrameSplit writes.
abbrev pub IsSplit : ℕ → List ℕ → Type 0
IsSplit size splits =
    (sum splits ≡ size)
    × All (λ x. x ≤ max_video_size) splits
    × (0 < size → length splits ≡ (size + (max_video_size - 1)) / max_video_size)

IsSplit-small :
    (size : ℕ) → size ≤ max_video_size → (split_sizes size ≡ size ∷ []) × IsSplit size (size ∷ [])
unfolding split_sizes sum
IsSplit-small size h =
    let small : leb size max_video_size ≡ true = ground arith in
    let whole : size % 2 ^ 16 ≡ size = omega arith in
    (rw small (ap (λ x. x ∷ []) whole), (omega arith, (h, tt), λ p. omega arith))

IsSplit-large :
    (size : ℕ)
    → max_video_size < size
    → size / max_video_size < max_split_number
    → (splits : List ℕ) × (split_sizes size ≡ splits) × IsSplit size splits
unfolding split_sizes sum
IsSplit-large size h b =
    let large : leb size max_video_size ≡ false = ground arith in
    let ret = size / max_video_size in
    let whole : size / max_video_size % 2 ^ 16 ≡ ret = omega arith in
    let full = replicate ret max_video_size in
    let total = sum-replicate ret max_video_size in
    let count = length-replicate ret max_video_size in
    elim (Bool-cases (ltb 0 (size % max_video_size))) [
      | inl rest ↦ (
        full ++ (size % max_video_size ∷ []),
        rw large (rw whole (rw rest refl)),
        (
          omega (arith, sum-append full (size % max_video_size ∷ []), total),
          All-append _ full _ (All-replicate ret) (omega arith, tt),
          λ p. omega (
            arith,
            length-append full (size % max_video_size ∷ []),
            count,
            ltb→lt 0 (size % max_video_size) rest,
          ),
        ),
      )
      | inr even ↦ (
        full,
        rw large (rw whole (rw even refl)),
        (
          omega (arith, total, not-ltb 0 (size % max_video_size) even),
          All-replicate ret,
          λ p. omega (arith, count, not-ltb 0 (size % max_video_size) even),
        ),
      )
    ]

-- A frame of less than 1024 * 1000 bytes, which is what the callers assert, is split without a
-- fault into packets of at most 1000 bytes that add up to the frame and, where it is not empty,
-- are as few as there can be.
pub frame_split_lem :
    (size : ℕ)
    → size / max_video_size < max_split_number
    → (splits : List ℕ) × (frame_split size ≡ some splits) × IsSplit size splits
unfolding frame_split
frame_split_lem size h = elim (Bool-cases (leb size max_video_size)) [
  | inl small ↦
      let (e, is) = IsSplit-small size (leb→le size max_video_size small) in
      (size ∷ [], rw e refl, is)
  | inr large ↦
      let (splits, e, is) = IsSplit-large size (not-leb size max_video_size large) h in
      let fits : leb (length splits) max_split_number ≡ true =
        le→leb (length splits) max_split_number
          (omega (arith, is.2 (omega (arith, not-leb size max_video_size large)))) in
      (splits, rw e (rw fits refl), is)
]

-- The two copies of FrameSplit agree.
pub copies_agree : (size : ℕ) → sim_frame_split size ≡ frame_split size
unfolding sim_frame_split frame_split
copies_agree size = refl

-- After each estimate the rate of the generator is at least its least rate, and at most its
-- greatest rate unless it is the least one.
pub updata_rate_lem :
    (g : FakeVideoGenerator) (bps : ℕ)
    → (g.min_rate ≤ (updata_rate g bps).rate)
      × (((updata_rate g bps).rate ≤ g.max_rate) ⊎ ((updata_rate g bps).rate ≡ g.min_rate))
unfolding updata_rate
updata_rate_lem g bps = (ground arith, ground arith)
