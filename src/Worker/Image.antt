-- ===== src/Worker/Image.antt =====
-- resizeImageContain of backend/internal/preview/runner.go.
use personal_space.Prelude.{ℕ, ◌+◌, ◌*◌, ◌/◌, ◌&&◌, ◌||◌, ltb, leb, ◌==◌, if◌then◌else◌}
use personal_space.Worker.Double.{Double, of_int, div, mul, less, to_int}

-- An image.Image: its bounds, which start at (min_x, min_y), and the colour at a point.
pub record Image : Type 0 where
  pub min_x : ℕ
  pub min_y : ℕ
  pub width : ℕ
  pub height : ℕ
  pub at : ℕ → ℕ → ℕ

abbrev at_least_one : ℕ → ℕ
at_least_one n = if ltb n 1 then 1 else n

-- The smaller of the two factors.
unfoldable pub scale_of : ℕ → ℕ → ℕ → ℕ → Double
scale_of src_w src_h max_w max_h =
    let scale_w = div (of_int max_w) (of_int src_w) in
    let scale_h = div (of_int max_h) (of_int src_h) in
    if less scale_h scale_w then scale_h else scale_w

unfoldable pub side : ℕ → Double → ℕ
side src scale = at_least_one (to_int (mul (of_int src) scale))

-- The new image: `rgba` is the conversion of a colour by image.RGBA. Outside of its bounds the colour
-- is the zero one.
unfoldable pub scaled : (ℕ → ℕ) → Image → ℕ → ℕ → Image
scaled rgba src dst_w dst_h = record {
  min_x = 0;
  min_y = 0;
  width = dst_w;
  height = dst_h;
  at = λ x y.
      if ltb x dst_w && ltb y dst_h
      then rgba (src.at (src.min_x + x * src.width / dst_w) (src.min_y + y * src.height / dst_h))
      else 0;
}

-- resizeImageContain
unfoldable pub resize_image_contain : (ℕ → ℕ) → Image → ℕ → ℕ → Image
resize_image_contain rgba src max_w max_h =
    if src.width == 0 || src.height == 0
    then src
    else if leb src.width max_w && leb src.height max_h
    then src
    else let scale = scale_of src.width src.height max_w max_h in
      scaled rgba src (side src.width scale) (side src.height scale)
