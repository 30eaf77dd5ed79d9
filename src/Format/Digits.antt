-- ===== src/Format/Digits.antt =====
-- Digits printed and read back: the number that a list of digits stands for.
use crono_pci_linux.Base.{
  ℕ, zero, suc, ◌+◌, ◌-◌, ◌*◌, ◌/◌, ◌%◌, ◌^◌, ◌≤◌, ◌<◌, ◌≡◌, refl, ◌∙◌, ap, inl, inr, ◌⊎◌, Bool,
  true, false, ltb, some, List, [], ◌∷◌, ◌++◌, map, length, replicate, length-append, Bool-cases,
  arith,
}
use native.Mathlib.Nat.{pow-suc}
use crono_pci_linux.Types.{Text}
use crono_pci_linux.Format.{digits, pad, lower, digit, scan_digits}

pub value : ℕ → ℕ → List ℕ → ℕ
value base acc [] = acc
value base acc (d ∷ ds) = value base (acc * base + d) ds

abbrev pub AllBelow : ℕ → List ℕ → Type 0
AllBelow base [] = Unit {0}
AllBelow base (d ∷ ds) = (d < base) × AllBelow base ds

pub value-append :
    (base acc : ℕ) (xs ys : List ℕ) → value base acc (xs ++ ys) ≡ value base (value base acc xs) ys
unfolding value
value-append base acc [] ys = refl
value-append base acc (x ∷ xs) ys = value-append base (acc * base + x) xs ys

AllBelow-append :
    (base : ℕ) (xs ys : List ℕ) → AllBelow base xs → AllBelow base ys → AllBelow base (xs ++ ys)
AllBelow-append base [] ys h k = k
AllBelow-append base (x ∷ xs) ys h k = (h.0, AllBelow-append base xs ys h.1 k)

pub value-digits : (k n : ℕ) → n < 16 ^ k → value 16 0 (digits 16 k n) ≡ n
unfolding digits value
value-digits zero n h = omega arith
value-digits (suc k) n h = elim (Bool-cases (ltb n 16)) [
  | inl small ↦ rw small (omega arith)
  | inr large ↦ rw large (
      value-append 16 0 (digits 16 k (n / 16)) (n % 16 ∷ [])
      ∙ omega (arith, pow-suc 16 k, value-digits k (n / 16) (omega (arith, pow-suc 16 k))))
]

pub digits-AllBelow : (k n : ℕ) → AllBelow 16 (digits 16 k n)
unfolding digits
digits-AllBelow zero n = tt
digits-AllBelow (suc k) n = elim (Bool-cases (ltb n 16)) [
  | inl small ↦ rw small (ground arith, tt)
  | inr large ↦ rw large (
      AllBelow-append 16 (digits 16 k (n / 16)) (n % 16 ∷ []) (digits-AllBelow k (n / 16))
        (omega arith, tt))
]

pub length-digits_small : (k n : ℕ) → n < 16 → length (digits 16 (suc k) n) ≡ 1
unfolding digits
length-digits_small k n h = let t : ltb n 16 ≡ true = ground arith in rw t

pub length-digits_large :
    (k n : ℕ) → 16 ≤ n → length (digits 16 (suc k) n) ≡ length (digits 16 k (n / 16)) + 1
unfolding digits
length-digits_large k n h =
    let t : ltb n 16 ≡ false = ground arith in
    rw t (length-append (digits 16 k (n / 16)) (n % 16 ∷ []))

pub length-digits-le : (k n : ℕ) → length (digits 16 k n) ≤ k
unfolding digits
length-digits-le zero n = omega arith
length-digits-le (suc k) n = elim (Bool-cases (ltb n 16)) [
  | inl small ↦ rw small (omega arith)
  | inr large ↦ rw large (
      omega
        (arith, length-append (digits 16 k (n / 16)) (n % 16 ∷ []), length-digits-le k (n / 16)))
]

pub length-digits-pos : (k n : ℕ) → 1 ≤ length (digits 16 (suc k) n)
unfolding digits
length-digits-pos k n = elim (Bool-cases (ltb n 16)) [
  | inl small ↦ rw small (omega arith)
  | inr large ↦ rw large (omega (arith, length-append (digits 16 k (n / 16)) (n % 16 ∷ [])))
]

value-zeros : (k : ℕ) → value 16 0 (replicate k 0) ≡ 0
unfolding value
value-zeros zero = refl
value-zeros (suc k) = value-zeros k

pub value-pad : (w : ℕ) (ds : List ℕ) → value 16 0 (pad w ds) ≡ value 16 0 ds
unfolding pad
value-pad w ds =
    value-append 16 0 (replicate (w - length ds) 0) ds
    ∙ ap (λ a. value 16 a ds) (value-zeros (w - length ds))

pub pad-AllBelow : (w : ℕ) (ds : List ℕ) → AllBelow 16 ds → AllBelow 16 (pad w ds)
unfolding pad
pad-AllBelow w ds h = AllBelow-append 16 (replicate (w - length ds) 0) ds (zeros (w - length ds)) h
  where
    zeros : (k : ℕ) → AllBelow 16 (replicate k 0)
    zeros zero = tt
    zeros (suc k) = (omega arith, zeros k)

length-replicate : (n a : ℕ) → length (replicate n a) ≡ n
length-replicate zero a = refl
length-replicate (suc n) a = ap suc (length-replicate n a)

pub length-pad : (w : ℕ) (ds : List ℕ) → length (pad w ds) ≡ (w - length ds) + length ds
unfolding pad
length-pad w ds =
    omega
      (arith, length-append (replicate (w - length ds) 0) ds, length-replicate (w - length ds) 0)

-- A printed digit is read as the digit.
pub digit-lower : (d : ℕ) → d < 16 → digit 16 (lower d) ≡ some d
unfolding digit lower
digit-lower d h = ground arith

scan_digits_step :
    (d w v : ℕ) (seen : Bool) (s : Text)
    → d < 16
    → scan_digits 16 (suc w) seen v (lower d ∷ s) ≡ scan_digits 16 w true (v * 16 + d) s
unfolding scan_digits
scan_digits_step d w v seen s h = rw (digit-lower d h, scan_digits)

-- Printed digits are read back up to a text at which the reading stops.
pub scan_digits-lower :
    (ds : List ℕ) (w k v : ℕ) (seen : Bool) (rest : Text)
    → AllBelow 16 ds
    → w ≡ length ds + k
    → (seen ≡ true) ⊎ (1 ≤ length ds)
    → ((u : ℕ) → scan_digits 16 k true u rest ≡ some (u, rest))
    → scan_digits 16 w seen v (map lower ds ++ rest) ≡ some (value 16 v ds, rest)
unfolding value
scan_digits-lower [] w k v seen rest a h (inl s) stops =
    let same : w ≡ k = omega arith in rw (s, same) (stops v)
scan_digits-lower [] w k v seen rest a h (inr s) stops = absurd (omega arith)
scan_digits-lower (d ∷ ds) zero k v seen rest a h s stops = absurd (omega arith)
scan_digits-lower (d ∷ ds) (suc w) k v seen rest a h s stops =
    rw (scan_digits_step d w v seen (map lower ds ++ rest) a.0)
      (scan_digits-lower ds w k (v * 16 + d) true rest a.1 (omega arith) (inl refl) stops)
