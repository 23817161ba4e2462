-- ===== src/Worker/Resize.antt =====
-- resizeImageContain of backend/internal/preview/runner.go shrinks an image into one of its own
-- pixels.
use native.Mathlib.Nat.{div-lt_iff_lt-mul, mul_comm, mul-lt-mul_of_pos_right}
use personal_space.Prelude.{
  ℕ, ◌+◌, ◌*◌, ◌/◌, ◌≤◌, ◌<◌, ◌≡◌, ◌⊎◌, inl, inr, ◌&&◌, ◌||◌, leb, ◌==◌, Bool-cases, arith,
}
use personal_space.Worker.Double.{Double}
use personal_space.Worker.Image.{Image, resize_image_contain, scaled, side}

-- A picture of pixels of another one.
abbrev pub IsOf : (ℕ → ℕ) → Image → Image → Type 0
IsOf rgba src r =
    (1 ≤ r.width)
    × (1 ≤ r.height)
    × ((x y : ℕ)
        → x < r.width
        → y < r.height
        → (sx sy : ℕ) × (sx < src.width)
          × (sy < src.height)
          × (r.at (r.min_x + x) (r.min_y + y) ≡ rgba (src.at (src.min_x + sx) (src.min_y + sy))))

scaled-lt : (x w d : ℕ) → x < d → 0 < w → x * w / d < w
scaled-lt x w d h p =
    (div-lt_iff_lt-mul (omega arith)).1 (rw (mul_comm w d) (mul-lt-mul_of_pos_right h p))

scaled-IsOf :
    (rgba : ℕ → ℕ) (src : Image) (w h : ℕ)
    → 0 < src.width
    → 0 < src.height
    → 1 ≤ w
    → 1 ≤ h
    → IsOf rgba src (scaled rgba src w h)
unfolding scaled
scaled-IsOf rgba src w h pw ph lw lh = (
  lw,
  lh,
  λ x y hx hy. (
    x * src.width / w,
    y * src.height / h,
    scaled-lt x src.width w hx pw,
    scaled-lt y src.height h hy ph,
    ground arith,
  ),
)

side-pos : (n : ℕ) (s : Double) → 1 ≤ side n s
unfolding side
side-pos n s = ground arith

-- The preview of an image is the image itself where it is empty or fits, and else a picture of at
-- least one pixel, each of which is a pixel of the image.
pub resize_image_contain-IsOf :
    (rgba : ℕ → ℕ) (src : Image) (max_w max_h : ℕ)
    → let r = resize_image_contain rgba src max_w max_h in
      (r ≡ src) × ((src.width ≡ 0) ⊎ (src.height ≡ 0) ⊎ (src.width ≤ max_w) × (src.height ≤ max_h))
      ⊎ IsOf rgba src r
unfolding resize_image_contain
resize_image_contain-IsOf rgba src max_w max_h =
    elim (Bool-cases (src.width == 0 || src.height == 0)) [
      | inl none_left ↦ inl (ground (arith, none_left), ground (arith, none_left))
      | inr some_left ↦ elim (Bool-cases (leb src.width max_w && leb src.height max_h)) [
        | inl fits ↦ inl (ground (arith, some_left, fits), ground (arith, fits))
        | inr large ↦ inr (
            rw (some_left, large)
              (scaled-IsOf rgba src _ _ (ground (arith, some_left)) (ground (arith, some_left))
                (side-pos src.width _) (side-pos src.height _)))
      ]
    ]
