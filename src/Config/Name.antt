-- ===== src/Config/Name.antt =====
-- `CRONO_KERNEL_GetDeviceMiscName`.
use crono_pci_linux.Base.{
  ℕ, zero, suc, ◌≤◌, ◌<◌, ◌≡◌, refl, ap, ◌∙◌, false, Option, some, [], ◌∷◌, ◌++◌, ltb, length, take,
  drop, replicate, get_or, arith,
}
use crono_pci_linux.Types.{Text, Ptr, Device, success}
use crono_pci_linux.Machine.{Process}
use crono_pci_linux.Device.Handle.{IsHandle, init_hdev-IsHandle}
use crono_pci_linux.Config.{strncpy, get_device_misc_name}

-- How many zeros stand behind a text does not matter, if there are enough.
take_zeros :
    (n m k : ℕ) (src : Text)
    → n ≤ m
    → n ≤ k
    → take n (src ++ replicate m 0) ≡ take n (src ++ replicate k 0)
take_zeros zero m k src h h' = refl
take_zeros (suc n) zero k [] h h' = absurd (omega arith)
take_zeros (suc n) (suc m) zero [] h h' = absurd (omega arith)
take_zeros (suc n) (suc m) (suc k) [] h h' =
    ap (◌∷◌ 0) (take_zeros n m k [] (omega arith) (omega arith))
take_zeros (suc n) m k (c ∷ src) h h' =
    ap (◌∷◌ c) (take_zeros n m k src (omega arith) (omega arith))

-- The text with zeros behind it, cut to `n` characters.
strncpy-take : (n : ℕ) (src : Text) → strncpy n src ≡ take n (src ++ replicate n 0)
unfolding strncpy
strncpy-take zero src = refl
strncpy-take (suc n) [] = ap (◌∷◌ 0) (strncpy-take n [])
strncpy-take (suc n) (c ∷ src) =
    ap (◌∷◌ c) (strncpy-take n src ∙ take_zeros n n (suc n) src (omega arith) (omega arith))

-- The character behind the text is 0 if the text is shorter than what is copied.
terminated : (n : ℕ) (src : Text) → length src < n → get_or (strncpy n src) (length src) 1 ≡ 0
unfolding strncpy
terminated zero src h = absurd (omega arith)
terminated (suc n) [] h = refl
terminated (suc n) (c ∷ src) h = terminated n src (omega arith)

-- A longer one is cut, and no 0 is stored.
cut : (n : ℕ) (src : Text) → n ≤ length src → strncpy n src ≡ take n src
unfolding strncpy
cut zero src h = refl
cut (suc n) [] h = absurd (omega arith)
cut (suc n) (c ∷ src) h = ap (◌∷◌ c) (cut n src (omega arith))

-- The name of an open device is copied to the buffer with zeros up to the size, and the buffer
-- behind that stays as it is. If the name is shorter than the size, a 0 stands behind it; else the
-- buffer starts with as many of its characters as the size says, without a 0.
pub get_device_misc_name-take :
    {W : Type 0} {h : Ptr} {d : Device} {s : Process W}
    → IsHandle h d s
    → (buffer : Text) (size : ℕ) → size ≤ length buffer
    → (copied : Text) × (get_device_misc_name h (some buffer) size s
        ≡ some ((success, some (copied ++ drop size buffer)), s))
      × (copied ≡ take size (d.miscdev_name ++ replicate size 0))
      × (length d.miscdev_name < size → get_or copied (length d.miscdev_name) 1 ≡ 0)
      × (size ≤ length d.miscdev_name → copied ≡ take size d.miscdev_name)
unfolding get_device_misc_name
get_device_misc_name-take {d = d} v buffer size room =
    let fits : ltb (length buffer) size ≡ false = ground arith in
    (
      strncpy size d.miscdev_name,
      rw (init_hdev-IsHandle {A = ℕ × Option Text} _ _ v, fits) refl,
      strncpy-take size d.miscdev_name,
      terminated size d.miscdev_name,
      cut size d.miscdev_name,
    )
