-- ===== src/Sar/Run.antt =====
-- app_run of apps/SAR/SAR.cpp from the input file to the image. What g holds, the conversion to floats
-- and the magnitude of a complex number are parameters.
use ece506scheduler.Base.{ℕ, ◌+◌, ◌*◌, Bool, List, Option, none, some, Text, text, if◌then◌else◌}
use ece506scheduler.Runner.Wiring.{path_join}
use ece506scheduler.Apps.Inputs.{Files, find_input_dir, load_raw, resized}
use ece506scheduler.Sar.Image.{Signals, Buffers, focused}

-- `out_opens`: whether the std::ofstream is good.
pub record Imaging (D F : Type 0) : Type 0 where
  pub sig : Signals F
  pub g : ℕ → F
  pub zero_double : D
  pub to_float : D → F
  pub magnitude : F → F → F
  pub out_opens : Bool

-- The code that app_run returns, and the magnitudes that it writes, by row and place in the row.
pub data RunEnd (F : Type 0) : Type 0 where
  returns : ℕ → Option (ℕ → ℕ → F) → RunEnd F

module _ {D F : Type 0} (im : Imaging D F) where
  -- The loops that fill s0 and s0_flat.
  unfoldable pub flattened : List D → ℕ → F
  unfolding resized
  flattened values i = im.to_float (resized im.zero_double values i)

  -- The loops over the rows of the output.
  unfoldable pub written_image : Buffers F → ℕ → ℕ → F
  written_image b slow fast =
      let idx = slow * 512 * 2 + fast * 2 in im.magnitude (b.corr idx) (b.corr (idx + 1))

  abbrev pub after_rows : Option (Buffers F) → RunEnd F
  after_rows none = returns 1 none
  after_rows (some b) = returns 0 (if im.out_opens then some (written_image b) else none)

  abbrev pub after_raw : Option (List D) → RunEnd F
  after_raw none = returns 1 none
  after_raw (some values) = after_rows (focused im.sig im.g (flattened values))

  abbrev pub after_find : Files D → Option Text → RunEnd F
  after_find files none = returns 1 none
  after_find files (some input_dir) =
      after_raw (load_raw files (path_join input_dir (text "rawdata_rda.txt")) (256 * 512))

  unfoldable pub app_run : Files D → List Text → RunEnd F
  app_run files args = after_find files (find_input_dir files args)
