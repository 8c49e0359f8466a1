-- ===== src/Algorithm/Images.antt =====
-- The functions of src/algorithm.cpp that read and write images: `get_lightness_channel`,
-- `image_get_histogram` and `image_equalise`.
pub mod Equalised
use exposure.Base.{ℕ, zero, suc, ◌+◌, Option, none, some, List, [], ◌∷◌, set}
use exposure.Base.Text.{Text}
use exposure.Base.Outcome.{Outcome, ok, err, ◌>>=◌, uncaught}
use exposure.Protocol.Schema.{Float32}
use exposure.Algorithm.Arithmetic.{Arithmetic, PixelArithmetic}
use exposure.Algorithm.Mapping.{entry, linear_map}
use exposure.Algorithm.Lightness.{compute_lightness_histogram}

-- What is used of the images of ImageMagick. `none` is an exception of `Magick`.
pub record Magick (a : Arithmetic) : Type 1 where
  pub Image : Type 0
  pub read : Text → Option Image
  -- `colorSpace(LabColorspace)`, `channel(LChannel)` and `colorSpace(sRGBColorspace)`
  pub to_lab : Image → Option Image
  pub lightness_channel : Image → Option Image
  pub to_srgb : Image → Option Image
  pub rows : Image → ℕ
  pub columns : Image → ℕ
  -- `getPixels` of the whole image, and `syncPixels` after a change
  pub get_pixels : Image → List a.Quantum
  pub sync_pixels : Image → List a.Quantum → Image
  -- `write` to a blob, as a TIFF
  pub write_tiff : Image → Option Text

abbrev pub or_throw {ℓ} : {A : Type ℓ} → Option A → Outcome A
or_throw none = err uncaught
or_throw (some x) = ok x

module _ (a : Arithmetic) (p : PixelArithmetic a) (mapping : List Float32) where
  -- `*pixels = linear_map(*pixels, mapping); pixels += 3;` for a row, and for all rows. The pointer
  -- is an index.
  unfoldable pub equalise_row : ℕ → ℕ × List a.Quantum → Outcome (ℕ × List a.Quantum)
  equalise_row zero (i, pixels) = ok (i, pixels)
  equalise_row (suc rounds) (i, pixels) = entry pixels i >>= λ v.
      (linear_map a p v mapping >>= λ q. equalise_row rounds (i + 3, set pixels i q))

  unfoldable pub equalise_rows :
      (rows columns : ℕ) → ℕ × List a.Quantum → Outcome (ℕ × List a.Quantum)
  unfolding equalise_row
  equalise_rows zero columns s = ok s
  equalise_rows (suc rows) columns s = equalise_row columns s >>= equalise_rows rows columns

module _ (a : Arithmetic) (p : PixelArithmetic a) (magick : Magick a) where
  unfoldable pub get_lightness_channel : Text → Outcome magick.Image
  get_lightness_channel filename = do
    image ← or_throw (magick.read filename)
    lab ← or_throw (magick.to_lab image)
    or_throw (magick.lightness_channel lab)

  -- The exceptions of the first part are caught.
  abbrev caught : Outcome magick.Image → Outcome (Option magick.Image)
  caught (ok image) = ok (some image)
  caught (err e) = ok none

  unfoldable pub image_get_histogram : Text → Outcome (Option (List Float32))
  unfolding get_lightness_channel
  image_get_histogram filename = caught (get_lightness_channel filename) >>= λ loaded. elim loaded [
    | none ↦ ok none
    | some image ↦
        compute_lightness_histogram a p (magick.rows image) (magick.columns image)
          (magick.get_pixels image)
        >>= λ h. ok (some h)
  ]

  unfoldable pub image_equalise : Text → List Float32 → Outcome Text
  unfolding equalise_rows
  image_equalise filename mapping = do
    image ← or_throw (magick.read filename)
    lab ← or_throw (magick.to_lab image)
    s ← equalise_rows a p mapping (magick.rows lab) (magick.columns lab) (0, magick.get_pixels lab)
    srgb ← or_throw (magick.to_srgb (magick.sync_pixels lab s.1))
    or_throw (magick.write_tiff srgb)
