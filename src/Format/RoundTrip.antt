-- ===== src/Format/RoundTrip.antt =====
-- The directory names that `CRONO_CONSTRUCT_DEV_SLINK_PATH` prints are read back by the `sscanf` of
-- `CRONO_KERNEL_PciScanDevices` and `CRONO_KERNEL_PciDeviceOpen`.
use crono_pci_linux.Base.{
  ℕ, suc, ◌+◌, ◌/◌, ◌^◌, ◌≤◌, ◌<◌, ◌≡◌, refl, ◌∙◌, ap, inl, inr, ◌⊎◌, true, false, ltb, leb, some,
  List, [], ◌∷◌, ◌++◌, map, length, length-append, Bool-cases, arith,
}
use crono_pci_linux.Types.{Text, PciSlot}
use crono_pci_linux.Format.{
  digits, pad, lower, scan_digits, scan_prefixed, scan_signed, skip_space, scan_number, print_hex,
  print_dec, slot_name, scan_name, scan_bus, scan_slot, scan_function,
}
use crono_pci_linux.Format.Digits.{
  value, AllBelow, value-digits, digits-AllBelow, length-digits-pos, value-pad, pad-AllBelow,
  length-pad, scan_digits-lower, length-digits_small, length-digits_large,
}

abbrev IsDigitChar : ℕ → Type 0
IsDigitChar c = (48 ≤ c) × ((c ≤ 57) ⊎ ((97 ≤ c) × (c ≤ 102)))

lower-IsDigitChar : (d : ℕ) → d < 16 → IsDigitChar (lower d)
unfolding lower
lower-IsDigitChar d h = ground arith

skip_space_digit : (c : ℕ) (s : Text) → IsDigitChar c → skip_space (c ∷ s) ≡ c ∷ s
unfolding skip_space
skip_space_digit c s h = ground arith

scan_signed_digit :
    (base w c : ℕ) (s : Text) {v : ℕ} {r : Text}
    → IsDigitChar c
    → scan_prefixed base w (c ∷ s) ≡ some (v, r)
    → scan_signed base w (c ∷ s) ≡ some (false, v, r)
unfolding scan_signed
scan_signed_digit base w c s h e = ground arith

scan_prefixed_digit :
    (base w c x : ℕ) (s : Text)
    → IsDigitChar x
    → scan_prefixed base w (c ∷ x ∷ s) ≡ scan_digits base w false 0 (c ∷ x ∷ s)
unfolding scan_prefixed
scan_prefixed_digit base w c x s h = ground arith

-- Where the reading of digits ends.
abbrev Stops : ℕ → ℕ → Text → Type 0
Stops base k rest = (u : ℕ) → scan_digits base k true u rest ≡ some (u, rest)

scan_number-lower :
    (ds : List ℕ) (w k : ℕ) (rest : Text)
    → AllBelow 16 ds
    → 2 ≤ length ds
    → w ≡ length ds + k
    → Stops 16 k rest
    → value 16 0 ds < 2 ^ 64
    → scan_number 16 w (map lower ds ++ rest) ≡ some (value 16 0 ds, rest)
unfolding scan_number
scan_number-lower [] w k rest a long h stops small = absurd (omega arith)
scan_number-lower (x ∷ []) w k rest a long h stops small = absurd (omega arith)
scan_number-lower (x ∷ y ∷ ds) w k rest a long h stops small =
    let under : leb (2 ^ 64) (value 16 0 (x ∷ y ∷ ds)) ≡ false = ground arith in
    rw (
      skip_space_digit (lower x) (lower y ∷ (map lower ds ++ rest)) (lower-IsDigitChar x a.0),
      scan_signed_digit 16 w (lower x) (lower y ∷ (map lower ds ++ rest)) (lower-IsDigitChar x a.0)
          (scan_prefixed_digit 16 w (lower x) (lower y) (map lower ds ++ rest)
              (lower-IsDigitChar y a.1.0)
            ∙ scan_digits-lower (x ∷ y ∷ ds) w k 0 false rest a h (inr (omega arith)) stops),
      under,
    )

-- A printed number is read back, whatever its padding.
scan_number-print_hex :
    (p n w k : ℕ) (rest : Text)
    → n < 2 ^ 32
    → 2 ≤ length (pad p (digits 16 8 n))
    → w ≡ length (pad p (digits 16 8 n)) + k
    → Stops 16 k rest
    → scan_number 16 w (print_hex p n ++ rest) ≡ some (n, rest)
unfolding print_hex
scan_number-print_hex p n w k rest h long e stops =
    let same : value 16 0 (pad p (digits 16 8 n)) ≡ n =
      value-pad p (digits 16 8 n) ∙ value-digits 8 n (omega arith) in
    scan_number-lower (pad p (digits 16 8 n)) w k rest
      (pad-AllBelow p (digits 16 8 n) (digits-AllBelow 8 n)) long e stops (omega arith)
    ∙ ap (λ v. some (v, rest)) same

length-byte_large : (b : ℕ) → 16 ≤ b → b < 256 → length (digits 16 8 b) ≡ 2
length-byte_large b h k =
    omega (arith, length-digits_large 7 b h, length-digits_small 6 (b / 16) (omega arith))

length-byte : (b : ℕ) → b < 256 → length (pad 2 (digits 16 8 b)) ≡ 2
length-byte b h = elim (Bool-cases (ltb b 16)) [
  | inl small ↦ omega (arith, length-pad 2 (digits 16 8 b), length-digits_small 7 b (ground arith))
  | inr large ↦ omega (arith, length-pad 2 (digits 16 8 b), length-byte_large b (ground arith) h)
]

length-domain : (p n : ℕ) → (4 ≤ p) ⊎ (16 ≤ n) → 2 ≤ length (pad p (digits 16 8 n))
length-domain p n (inl h) = omega (arith, length-pad p (digits 16 8 n))
length-domain p n (inr h) =
    omega
      (arith, length-pad p (digits 16 8 n), length-digits_large 7 n h, length-digits-pos 6 (n / 16))

-- Two hexadecimal digits, and what follows them is left.
scan_number-byte :
    (b : ℕ) (rest : Text) → b < 256 → scan_number 16 2 (print_hex 2 b ++ rest) ≡ some (b, rest)
unfolding scan_digits
scan_number-byte b rest h =
    scan_number-print_hex 2 b 2 0 rest (omega arith) (omega (arith, length-byte b h))
      (omega (arith, length-byte b h)) (λ u. refl)

scan_number-function : (f : ℕ) → f < 10 → scan_number 10 1 (print_dec f) ≡ some (f, [])
unfolding scan_number print_dec scan_signed scan_prefixed scan_digits skip_space
scan_number-function f h = ground arith

Stops-colon : (k : ℕ) (s : Text) → Stops 16 (suc k) (b':' ∷ s)
unfolding scan_digits
Stops-colon k s u = refl

length-map {ℓ κ} :
    {A : Type ℓ} {B : Type κ} (f : A → B) (xs : List A) → length (map f xs) ≡ length xs
length-map f [] = refl
length-map f (x ∷ xs) = ap suc (length-map f xs)

-- The domain is read as far as the colon.
scan_number-domain :
    (p n : ℕ) (s : Text)
    → n < 2 ^ 32
    → (4 ≤ p) ⊎ (16 ≤ n)
    → let t = print_hex p n ++ (b':' ∷ s) in scan_number 16 (length t) t ≡ some (n, b':' ∷ s)
unfolding print_hex
scan_number-domain p n s h wide =
    scan_number-print_hex p n _ (suc (length s)) (b':' ∷ s) h (length-domain p n wide)
      (omega (
        arith,
        length-append (map lower (pad p (digits 16 8 n))) (b':' ∷ s),
        length-map lower (pad p (digits 16 8 n)),
      ))
      (Stops-colon (length s) s)

-- A slot whose parts fit the name's fields.
pub record IsSlot (d : PciSlot) : Type 0 where
  pub domain_fits : d.domain < 2 ^ 32
  pub bus_fits : d.bus < 256
  pub slot_fits : d.slot < 256
  pub function_fits : d.function < 10

scan_slot-print :
    (d old : PciSlot)
    → IsSlot d
    → (p : ℕ) → (4 ≤ p) ⊎ (16 ≤ d.domain)
    → scan_name old (
        print_hex p d.domain
        ++ (b':'
            ∷ (print_hex 2 d.bus
                ++ (b':' ∷ (print_hex 2 d.slot ++ (b'.' ∷ print_dec d.function))))))
      ≡ d
unfolding scan_name scan_bus scan_slot scan_function
scan_slot-print d old h p wide =
    rw
      (
        scan_number-domain p d.domain _ h.domain_fits wide,
        scan_name,
        scan_number-byte d.bus _ h.bus_fits,
        scan_bus,
        scan_number-byte d.slot _ h.slot_fits,
        scan_slot,
        scan_number-function d.function h.function_fits,
        scan_function,
      )
      (ground arith)

-- What `sscanf` reads from a printed directory name is the slot, whatever its variables held.
pub scan_name-slot_name : (d old : PciSlot) → IsSlot d → scan_name old (slot_name d) ≡ d
unfolding slot_name
scan_name-slot_name d old h = elim (Bool-cases (leb d.domain 0xFFFF)) [
  | inl narrow ↦ rw narrow (scan_slot-print d old h 4 (inl (omega arith)))
  | inr wide ↦ rw wide (scan_slot-print d old h 1 (inr (ground arith)))
]
