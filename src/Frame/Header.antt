-- ===== src/Frame/Header.antt =====
-- Headers: two bits of frame type above six bits of sequence number, and sequence arithmetic.
use libsfp.Base.{ℕ, ◌+◌, ◌*◌, ◌/◌, ◌%◌, ◌<◌, ◌≡◌, refl, ap, ◌∙◌, arith, table_eq, holds_below}
use libsfp.State.{FrameType, usr, rtx, nak, syn}
use libsfp.Frame.{make_header, get_frame_type, get_frame_seq, frame_code, next_seq, frame_type_of}

make_header-sum : (t : FrameType) (s : ℕ) → s < 64 → make_header t s ≡ frame_code t * 64 + s
unfolding make_header holds_below
make_header-sum usr = table_eq 64 (make_header usr) (λ s. 0 * 64 + s) refl
make_header-sum rtx = table_eq 64 (make_header rtx) (λ s. 1 * 64 + s) refl
make_header-sum nak = table_eq 64 (make_header nak) (λ s. 2 * 64 + s) refl
make_header-sum syn = table_eq 64 (make_header syn) (λ s. 3 * 64 + s) refl

pub make_header-lt : (t : FrameType) (s : ℕ) → make_header t s < 256
unfolding make_header
make_header-lt t s = omega arith

frame_type_of-frame_code : (t : FrameType) → frame_type_of (frame_code t) ≡ t
unfolding frame_type_of frame_code
frame_type_of-frame_code usr = refl
frame_type_of-frame_code rtx = refl
frame_type_of-frame_code nak = refl
frame_type_of-frame_code syn = refl

frame_code-lt : (t : FrameType) → frame_code t < 4
unfolding frame_code
frame_code-lt t = ground arith

-- A header gives back the frame type and the sequence number that it was made of.
pub get_frame_type-make_header :
    (t : FrameType) (s : ℕ)
    → s < 64
    → (get_frame_type (make_header t s) ≡ t) × (get_frame_seq (make_header t s) ≡ s)
unfolding get_frame_type get_frame_seq
get_frame_type-make_header t s h =
    let sum = make_header-sum t s h in
    let code : make_header t s / 64 % 4 ≡ frame_code t = omega (arith, frame_code-lt t) in
    (ap frame_type_of code ∙ frame_type_of-frame_code t, omega arith)

pub get_frame_seq-lt : (h : ℕ) → get_frame_seq h < 64
unfolding get_frame_seq
get_frame_seq-lt h = omega arith

pub next_seq-lt : (s : ℕ) → next_seq s < 64
unfolding next_seq
next_seq-lt s = omega arith

pub next_seq_lem : (s : ℕ) → next_seq s ≡ (s + 1) % 64
unfolding next_seq
next_seq_lem s = refl
