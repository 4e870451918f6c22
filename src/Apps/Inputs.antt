-- ===== src/Apps/Inputs.antt =====
-- The input files of apps/radar_correlator.cpp and apps/SAR/SAR.cpp: where they are looked for, and
-- what is read from them. The file system is a parameter; a number that a stream reads is of a type
-- that is a parameter too.
use ece506scheduler.Base.{
  ℕ, suc, ◌*◌, ltb, Bool, not, ◌&&◌, List, [], ◌∷◌, Option, none, some, Text, text, length,
  is_empty, get_elem?, if◌then◌else◌,
}
use ece506scheduler.Runner.Options.{value_of}
use ece506scheduler.Runner.Wiring.{path_join}

-- `values path` are the numbers that a stream reads from the file until it fails; `none`: it cannot be
-- opened. `exe_dir` is the parent of the absolute path of argv[0].
pub record Files (D : Type 0) : Type 0 where
  pub is_directory : Text → Bool
  pub exe_dir : Text
  pub current_path : Text
  pub values : Text → Option (List D)

-- The loop over argv for the first argument with the prefix.
unfoldable pub first_value : Text → List Text → Option Text
unfolding value_of
first_value prefix [] = none
first_value prefix (arg ∷ args) = elim (value_of prefix arg) [
  | some v ↦ some v
  | none ↦ first_value prefix args
]

-- The loop over the candidates; `none`: the exception.
unfoldable pub first_directory : (Text → Bool) → List Text → Option Text
first_directory is_directory [] = none
first_directory is_directory (cand ∷ rest) =
    let later = first_directory is_directory rest in if is_directory cand then some cand else later

-- What both programs do with the argument's value and their candidates.
unfoldable pub choose_directory : (Text → Bool) → Option Text → List Text → Option Text
unfolding first_directory
choose_directory is_directory none candidates = first_directory is_directory candidates
choose_directory is_directory (some explicit) candidates =
    if not (is_empty explicit) && is_directory explicit
    then some explicit
    else first_directory is_directory candidates

module _ {D : Type 0} (files : Files D) where
  -- discover_input of the correlator.
  unfoldable pub discover_input : List Text → Option Text
  unfolding choose_directory first_value
  discover_input args = choose_directory files.is_directory (first_value (text "--input=") args) (
      path_join files.exe_dir (text "input")
      ∷ path_join files.current_path (text "input")
      ∷ path_join (text "apps/to be implemented") (text "input")
      ∷ [])

  -- discover_arg of SAR: the position of the argument, and the value or the default.
  unfoldable pub discover_arg : Text → Text → ℕ → List Text → Option ℕ × Text
  unfolding value_of
  discover_arg prefix default_value i [] = (none, default_value)
  discover_arg prefix default_value i (arg ∷ args) = elim (value_of prefix arg) [
    | some v ↦ (some i, v)
    | none ↦ discover_arg prefix default_value (suc i) args
  ]

  unfoldable pub find_input_dir : List Text → Option Text
  unfolding choose_directory discover_arg
  find_input_dir args =
      choose_directory files.is_directory (some (discover_arg (text "--input=") [] 0 args).1) (
        path_join (path_join files.exe_dir (text "SAR")) (text "input")
        ∷ path_join files.exe_dir (text "input")
        ∷ path_join (path_join (path_join files.current_path (text "apps")) (text "SAR"))
            (text "input")
        ∷ [])

  -- load_data of the correlator.
  unfoldable pub load_data : Text → Option (List D)
  load_data path = elim (files.values path) [
    | none ↦ none
    | some [] ↦ none
    | some (v ∷ vs) ↦ some (v ∷ vs)
  ]

  -- load_raw of SAR: `count` pairs, for a file that has them.
  unfoldable pub load_raw : Text → ℕ → Option (List D)
  load_raw path count = elim (files.values path) [
    | none ↦ none
    | some vs ↦ if ltb (length vs) (2 * count) then none else some vs
  ]

-- dest.resize(count, fill), where that makes the vector longer, read at the place `i`.
unfoldable pub resized : {D : Type 0} → D → List D → ℕ → D
resized fill vs i = elim (get_elem? vs i) [ none ↦ fill | some v ↦ v ]
