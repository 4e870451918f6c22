-- ===== src/Examples/Images.antt =====
-- app_run of apps/SAR/SAR.cpp on a file of sevens.
use ece506scheduler.Base.{
  ◌%◌, ◌==◌, ℕ, zero, suc, ◌+◌, ◌*◌, ◌≡◌, refl, ltb, true, false, List, [], ◌∷◌, none, some, Text,
  text, text_eq, starts_with, length, if◌then◌else◌, ap, arith,
}
use ece506scheduler.Runner.Wiring.{path_join}
use ece506scheduler.Runner.Options.{value_of}
use ece506scheduler.Apps.Inputs.{Files, choose_directory, discover_arg, find_input_dir, load_raw}
use ece506scheduler.Sar.Image.{hardware, mocked}
use ece506scheduler.Sar.Run.{Imaging, returns, flattened, app_run}
use ece506scheduler.Sar.Written.{app_run-writes_raw}

unfoldable sevens : ℕ → List ℕ
sevens zero = []
sevens (suc n) = 7 ∷ sevens n

length-sevens : (n : ℕ) → length (sevens n) ≡ n
unfolding sevens
length-sevens zero = refl
length-sevens (suc n) = ap suc (length-sevens n)

abbrev files : Files ℕ
files = record {
  is_directory = λ path. true;
  exe_dir = text "bin";
  current_path = text "work";
  values = λ path. some (sevens (2 * (256 * 512)));
}

abbrev imaging : Imaging ℕ ℕ
imaging = record {
  sig = record {
    zero_sample = 0;
    times = λ a b. a * b;
    plus = λ a b. a + b;
    minus = λ a b. a + b;
    summed = λ n inverse input k. input 2 + input 3;
    converted = λ n inverse input k. input k;
    runs = λ k. if k % 2 == 0 then mocked else hardware;
    answers = λ k. true;
  };
  g = λ i. 1;
  zero_double = 0;
  to_float = λ d. d;
  magnitude = λ a b. a + b;
  out_opens = true;
}

abbrev arguments : List Text
arguments = text "--input=data" ∷ []

arguments-found : find_input_dir files arguments ≡ some (text "data")
unfolding find_input_dir choose_directory discover_arg value_of starts_with text_eq text
arguments-found = refl

sevens-loaded : (path : Text) → load_raw files path (256 * 512) ≡ some (sevens (2 * (256 * 512)))
unfolding load_raw
sevens-loaded path =
    let long : ltb (length (sevens (2 * (256 * 512)))) (2 * (256 * 512)) ≡ false =
      rw (length-sevens (2 * (256 * 512))) refl in
    ap (λ short. if short then none else some (sevens (2 * (256 * 512)))) long

app_run-writes_raw_example :
    (image : ℕ → ℕ → ℕ) × (app_run imaging files arguments ≡ returns 0 (some image))
    × (image 255 511
        ≡ flattened imaging (sevens (2 * (256 * 512))) (255 * 512 * 2 + 511 * 2)
          + flattened imaging (sevens (2 * (256 * 512))) (255 * 512 * 2 + 511 * 2 + 1))
app_run-writes_raw_example =
    app_run-writes_raw imaging files arguments (text "data") (sevens (2 * (256 * 512))) 255 511
      arguments-found (sevens-loaded (path_join (text "data") (text "rawdata_rda.txt"))) (λ k. refl)
      refl (omega arith) (omega arith) (omega arith)
