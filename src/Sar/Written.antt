-- ===== src/Sar/Written.antt =====
-- What app_run of apps/SAR/SAR.cpp writes to its file.
use ece506scheduler.Base.{
  ℕ, zero, suc, ◌+◌, ◌*◌, ◌<◌, ◌≤◌, ◌≡◌, refl, ◌∙◌, ap, Bool, true, not, List, none, some, Text,
  text, if◌then◌else◌, arith,
}
use ece506scheduler.Runner.Wiring.{path_join}
use ece506scheduler.Apps.Inputs.{Files, find_input_dir, load_raw}
use ece506scheduler.Sar.Image.{
  Signals, Buffers, run_plan, process_row, process_rows, empty_buffers, focused,
}
use ece506scheduler.Sar.Rows.{process_rows-raw}
use ece506scheduler.Sar.Run.{
  Imaging, returns, flattened, written_image, after_rows, after_raw, after_find, app_run,
}

both_answered :
    {A : Type 0} (ok ok' : Bool) (x : A)
    → ok ≡ true
    → ok' ≡ true
    → (if not ok then none else if not ok' then none else some x) ≡ some x
both_answered ok ok' x h h' = rw (h, h') refl

module _ {F : Type 0} (sig : Signals F) (answers : (k : ℕ) → sig.answers k ≡ true) where
  process_row-answered :
      (nfast : ℕ) (g s0_flat : ℕ → F) (slow : ℕ) (b : Buffers F)
      → (b' : Buffers F) × (process_row sig nfast g s0_flat slow b ≡ some b')
  unfolding process_row run_plan
  process_row-answered nfast g s0_flat slow b =
      (_, both_answered _ _ _ (answers b.calls) (answers (b.calls + 1)))

  -- The loop over the rows ends well where every transform does.
  process_rows-answered :
      (nfast : ℕ) (g s0_flat : ℕ → F) (count : ℕ)
      → (b : Buffers F) × (process_rows sig nfast g s0_flat count (empty_buffers sig) ≡ some b)
  unfolding process_rows
  process_rows-answered nfast g s0_flat zero = (empty_buffers sig, refl)
  process_rows-answered nfast g s0_flat (suc slow) =
      let (b, e) = process_rows-answered nfast g s0_flat slow in
      let (b', e') = process_row-answered nfast g s0_flat slow b in (b', rw (e, process_rows) e')

module _ {D F : Type 0} (im : Imaging D F) where
  -- Where the input directory is found, the file has its numbers, every transform answers well and the
  -- output file opens: app_run returns 0 and has written an image, which at each place of each row but
  -- the first holds the magnitude of the unprocessed input, whatever the transforms compute.
  pub app_run-writes_raw :
      (files : Files D) (args : List Text) (dir : Text) (values : List D) (slow fast : ℕ)
      → find_input_dir files args ≡ some dir
      → load_raw files (path_join dir (text "rawdata_rda.txt")) (256 * 512) ≡ some values
      → ((k : ℕ) → im.sig.answers k ≡ true)
      → im.out_opens ≡ true
      → 1 ≤ slow
      → slow < 256
      → fast < 512
      → (image : ℕ → ℕ → F) × (app_run im files args ≡ returns 0 (some image))
        × (image slow fast
            ≡ im.magnitude
                (flattened im values (slow * 512 * 2 + fast * 2))
                (flattened im values (slow * 512 * 2 + fast * 2 + 1)))
  unfolding app_run focused written_image
  app_run-writes_raw files args dir values slow fast found loaded answers opens low high inside =
      let raw = flattened im values in
      let (b, e) = process_rows-answered im.sig answers 512 im.g raw 256 in
      let same : (i : ℕ) → 1024 ≤ i → i < 262_144 → b.corr i ≡ raw i =
        λ i low high. process_rows-raw im.sig 512 im.g raw 256 b i e low high in
      (
        written_image im b,
        ap (after_find im files) found
            ∙ ap (after_raw im) loaded
            ∙ ap (after_rows im) e
            ∙ rw opens refl,
        let idx = slow * 512 * 2 + fast * 2 in
            ap (λ x. im.magnitude x (b.corr (idx + 1))) (same idx (omega arith) (omega arith))
            ∙ ap (im.magnitude (raw idx)) (same (idx + 1) (omega arith) (omega arith)),
      )
