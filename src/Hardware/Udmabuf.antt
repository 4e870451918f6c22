-- ===== src/Hardware/Udmabuf.antt =====
-- UdmabufRegion of src/accelerators.cpp: a buffer whose size and physical address stand in sysfs, as
-- numbers in decimal, octal or hexadecimal.
use ece506scheduler.Base.{
  ℕ, ◌+◌, ◌-◌, ◌*◌, ◌^◌, ltb, leb, Bool, true, false, not, ◌&&◌, ◌||◌, [], ◌∷◌, ◌++◌, Option, none,
  some, Text, text, starts_with, drop, if◌then◌else◌,
}

-- The value of a digit in the bases up to 16; 99 for another character.
unfoldable pub digit_value : ℕ → ℕ
digit_value c =
    if leb 48 c && leb c 57
    then c - 48
    else if leb 97 c && leb c 102
    then c - 87
    else if leb 65 c && leb c 70
    then c - 55
    else 99

-- The longest run of digits of the base, and whether there was one.
unfoldable pub read_base : ℕ → Bool → ℕ → Text → Option ℕ
read_base base seen value [] = if seen then some value else none
read_base base seen value (c ∷ rest) =
    let more = read_base base true (value * base + digit_value c) rest in
    if ltb (digit_value c) base then more else if seen then some value else none

-- std::stoull(text, nullptr, 0), for texts without white space or sign in front; `none`: it throws.
unfoldable pub stoull_any : Text → Option ℕ
stoull_any value =
    let hex : Option ℕ =
      if starts_with (text "0x") value || starts_with (text "0X") value
      then read_base 16 false 0 (drop 2 value)
      else none in
    let number : Option ℕ = elim hex [
      | some n ↦ some n
      | none ↦ read_base (if starts_with (text "0") value then 8 else 10) false 0 value
    ] in
    elim number [ none ↦ none | some n ↦ if ltb n (2 ^ 64) then some n else none ]

-- What the system answers: the first word of a file, if it can be read, and whether open() and
-- mmap() of a path succeed.
pub record Sysfs : Type 0 where
  pub word : Text → Option Text
  pub opens : Text → Bool
  pub maps : Text → Bool

unfoldable pub read_value : Sysfs → Text → Option ℕ
read_value sys path = elim (sys.word path) [ none ↦ none | some value ↦ stoull_any value ]

pub record UdmabufRegion : Type 0 where
  pub fd_open : Bool
  pub mapped : Bool
  pub size : ℕ
  pub phys : ℕ

abbrev pub new_region : UdmabufRegion
new_region = record { fd_open = false; mapped = false; size = 0; phys = 0 }

-- init from the opening of the device on.
unfoldable pub map_region : Sysfs → Text → ℕ → ℕ → UdmabufRegion → Bool × UdmabufRegion
map_region sys dev_path size_value phys_value b =
    if not (sys.opens dev_path) || not (sys.maps dev_path)
    then (false, record b { fd_open = false })
    else (true, record { fd_open = true; mapped = true; size = size_value; phys = phys_value })

unfoldable pub init_region : Sysfs → Text → ℕ → UdmabufRegion → Bool × UdmabufRegion
init_region sys dev_name min_size b =
    let sysfs_base = text "/sys/class/u-dma-buf/" ++ dev_name in
    elim (read_value sys (sysfs_base ++ text "/size")) [
      | none ↦ (false, b)
      | some size_value ↦
          if ltb size_value min_size
          then (false, b)
          else elim (read_value sys (sysfs_base ++ text "/phys_addr")) [
            | none ↦ (false, b)
            | some phys_value ↦ map_region sys (text "/dev/" ++ dev_name) size_value phys_value b
          ]
    ]
