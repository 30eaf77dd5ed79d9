-- ===== src/Format.antt =====
-- The `snprintf` and `sscanf` formats of include/crono_userspace.h, src/crono_linux_kernel.h and
-- src/crono_kernel_interface.cpp, with the part of the C library that they use.
pub mod Digits
pub mod RoundTrip
use crono_pci_linux.Base.{
  ℕ, zero, suc, ◌+◌, ◌-◌, ◌*◌, ◌/◌, ◌%◌, ◌^◌, Bool, true, false, ◌&&◌, ◌||◌, Option, none, some,
  List, [], ◌∷◌, ◌++◌, map, ltb, leb, ◌==◌, if◌then◌else◌, length, take, replicate, codes,
}
use crono_pci_linux.Types.{Text, PciSlot}

-- The digits of a number, most significant first; `k` bounds their count.
unfoldable pub digits : ℕ → ℕ → ℕ → List ℕ
digits base zero n = []
digits base (suc k) n =
    let front = digits base k (n / base) in if ltb n base then n ∷ [] else front ++ n % base ∷ []

-- A field width with the flag `0`.
unfoldable pub pad : ℕ → List ℕ → List ℕ
pad w ds = replicate (w - length ds) 0 ++ ds

unfoldable pub lower : ℕ → ℕ
lower d = if ltb d 10 then b'0' + d else b'a' + (d - 10)

unfoldable pub upper : ℕ → ℕ
upper d = if ltb d 10 then b'0' + d else b'A' + (d - 10)

-- `%0wx`, `%0wX` and `%u` of an `unsigned`.
unfoldable pub print_hex : ℕ → ℕ → Text
unfolding lower pad digits
print_hex w n = map lower (pad w (digits 16 8 n))

unfoldable pub print_upper : ℕ → ℕ → Text
unfolding upper pad digits
print_upper w n = map upper (pad w (digits 16 8 n))

unfoldable pub print_dec : ℕ → Text
unfolding lower digits
print_dec n = map lower (digits 10 10 n)

-- `SYS_BUS_PCIDEVS_PATH`.
abbrev pub sys_bus_pcidevs_path : Text
sys_bus_pcidevs_path = codes "/sys/bus/pci/devices"

-- The name of a device's directory: "%04x:%02x:%02x.%1u", or "%x:…" for a wide domain.
unfoldable pub slot_name : PciSlot → Text
unfolding print_hex print_dec
slot_name d =
    (if leb d.domain 0xFFFF then print_hex 4 d.domain else print_hex 1 d.domain)
    ++ (b':'
        ∷ (print_hex 2 d.bus ++ (b':' ∷ (print_hex 2 d.slot ++ (b'.' ∷ print_dec d.function)))))

-- `CRONO_CONSTRUCT_DEV_SLINK_PATH`.
unfoldable pub construct_dev_slink_path : PciSlot → Text
unfolding slot_name
construct_dev_slink_path d = sys_bus_pcidevs_path ++ (b'/' ∷ slot_name d)

-- `CRONO_CONSTRUCT_CONFIG_FILE_PATH`.
unfoldable pub construct_config_file_path : PciSlot → Text
unfolding slot_name
construct_config_file_path d = sys_bus_pcidevs_path ++ (b'/' ∷ (slot_name d ++ codes "/config"))

-- `CRONO_CONSTRUCT_MISCDEV_NAME`, cut to `CRONO_DEV_NAME_MAX_SIZE` with its terminator.
unfoldable pub construct_miscdev_name : ℕ → PciSlot → Text
unfolding print_upper
construct_miscdev_name device_id d = take 31 (
    (codes "crono_" ++ print_upper 2 device_id)
    ++ (b'_'
        ∷ (print_upper 2 d.domain
            ++ (print_upper 2 d.bus ++ (print_upper 2 d.slot ++ print_upper 1 d.function)))))

-- The digit that a character stands for.
unfoldable pub digit : ℕ → ℕ → Option ℕ
digit base c =
    let v =
      if leb b'0' c && leb c b'9'
      then c - b'0'
      else if leb b'a' c && leb c b'f'
      then c - b'a' + 10
      else if leb b'A' c && leb c b'F'
      then c - b'A' + 10
      else base in
    if ltb v base then some v else none

-- Reads at most `w` digits onto `v`; `seen` says that there was one already.
unfoldable pub scan_digits : ℕ → ℕ → Bool → ℕ → Text → Option (ℕ × Text)
unfolding digit
scan_digits base zero seen v s = if seen then some (v, s) else none
scan_digits base (suc w) seen v [] = if seen then some (v, []) else none
scan_digits base (suc w) seen v (c ∷ s) = elim (digit base c) [
  | none ↦ if seen then some (v, c ∷ s) else none
  | some d ↦ scan_digits base w true (v * base + d) s
]

abbrev is_space : ℕ → Bool
is_space c = c == 32 || (leb 9 c && leb c 13)

unfoldable pub skip_space : Text → Text
skip_space [] = []
skip_space (c ∷ s) = let rest = skip_space s in if is_space c then rest else c ∷ s

-- A sign, the number behind it without a bound, and the rest.
abbrev pub Scanned : Type 0
Scanned = Bool × ℕ × Text

abbrev signed : Bool → Option (ℕ × Text) → Option Scanned
signed negative none = none
signed negative (some (v, s)) = some (negative, v, s)

-- The prefix `0x`, which counts towards the width.
unfoldable pub scan_prefixed : ℕ → ℕ → Text → Option (ℕ × Text)
unfolding scan_digits
scan_prefixed base w [] = scan_digits base w false 0 []
scan_prefixed base w (c ∷ []) = scan_digits base w false 0 (c ∷ [])
scan_prefixed base w (c ∷ x ∷ s) =
    if (base == 16) && leb 2 w && (c == b'0') && (x == b'x' || x == b'X')
    then scan_digits base (w - 2) false 0 s
    else scan_digits base w false 0 (c ∷ x ∷ s)

unfoldable pub scan_signed : ℕ → ℕ → Text → Option Scanned
unfolding scan_prefixed
scan_signed base w [] = none
scan_signed base w (c ∷ s) =
    if leb 1 w && (c == b'-')
    then signed true (scan_prefixed base (w - 1) s)
    else if leb 1 w && (c == b'+')
    then signed false (scan_prefixed base (w - 1) s)
    else signed false (scan_prefixed base w (c ∷ s))

-- `strtoul` saturates, and a minus sign negates.
abbrev to_ulong : Option Scanned → Option (ℕ × Text)
to_ulong none = none
to_ulong (some (negative, v, s)) =
    some (if leb (2 ^ 64) v then 2 ^ 64 - 1 else if negative then (2 ^ 64 - v) % 2 ^ 64 else v, s)

-- One `%x` or `%u` conversion of width `w`, as an `unsigned long`.
unfoldable pub scan_number : ℕ → ℕ → Text → Option (ℕ × Text)
unfolding scan_signed skip_space
scan_number base w s = to_ulong (scan_signed base w (skip_space s))

-- An ordinary character of the format.
abbrev pub literal : ℕ → Text → Option Text
literal c [] = none
literal c (x ∷ s) = if x == c then some s else none

-- `sscanf(name, "%x:%02x:%02x.%1u", &domain, &bus, &dev, &func)`: the conversion stops at the
-- first mismatch, and the variables behind it keep what they held.
unfoldable pub scan_function : PciSlot → Option Text → PciSlot
scan_function d none = d
scan_function d (some s) = elim (scan_number 10 1 s) [
  | none ↦ d
  | some (v, r) ↦ record d { function = v % 2 ^ 32 }
]

unfoldable pub scan_slot : PciSlot → Option Text → PciSlot
scan_slot d none = d
scan_slot d (some s) = elim (scan_number 16 2 s) [
  | none ↦ d
  | some (v, r) ↦ scan_function (record d { slot = v % 2 ^ 32 }) (literal b'.' r)
]

unfoldable pub scan_bus : PciSlot → Option Text → PciSlot
scan_bus d none = d
scan_bus d (some s) = elim (scan_number 16 2 s) [
  | none ↦ d
  | some (v, r) ↦ scan_slot (record d { bus = v % 2 ^ 32 }) (literal b':' r)
]

unfoldable pub scan_name : PciSlot → Text → PciSlot
scan_name d s = elim (scan_number 16 (length s) s) [
  | none ↦ d
  | some (v, r) ↦ scan_bus (record d { domain = v % 2 ^ 32 }) (literal b':' r)
]

-- An `std::ifstream`: what is left of the file, and whether no extraction has failed.
pub record Stream : Type 0 where
  pub rest : Text
  pub good : Bool

abbrev extracted : Option Scanned → Stream × ℕ
extracted none = (record { rest = []; good = false }, 0)
extracted (some (negative, v, s)) =
    if leb (2 ^ 64) v
    then (record { rest = s; good = false }, 2 ^ 64 - 1)
    else (record { rest = s; good = true }, if negative then (2 ^ 64 - v) % 2 ^ 64 else v)

-- `stream >> std::hex >> x` for an `unsigned long long` that held `old`: nothing is done on a
-- stream that failed, and the end of the file leaves the variable alone; other failures set it.
unfoldable pub extract_hex : Stream → ℕ → Stream × ℕ
unfolding scan_signed skip_space
extract_hex stream old = if stream.good then at_text (skip_space stream.rest) else (stream, old)
  where
    at_text : Text → Stream × ℕ
    at_text [] = (record { rest = []; good = false }, old)
    at_text (c ∷ s) = extracted (scan_signed 16 (length (c ∷ s)) (c ∷ s))
