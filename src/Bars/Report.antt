-- ===== src/Bars/Report.antt =====
-- What `CRONO_KERNEL_GetBarDescriptions` and `CRONO_KERNEL_GetDeviceBARMem` report of an open
-- device.
use crono_pci_linux.Base.{
  ℕ, ◌≡◌, ◌≢◌, refl, inl, inr, true, some, Option, List, ◌∷◌, ltb, ◌==◌, ==-eq, ==-ne, ==-refl,
  Bool-cases, subst,
}
use crono_pci_linux.Types.{Ptr, BarDesc, Device, success}
use crono_pci_linux.Os.{Os}
use crono_pci_linux.Machine.{Process, ◌>>=◌}
use crono_pci_linux.Machine.Returns
use crono_pci_linux.Machine.Returns.{Returns, returns}
use crono_pci_linux.Device.Handle.{IsHandle, init_hdev-IsHandle, read_device-Holds}
use crono_pci_linux.Bars.{fill_device_bar_descriptions, get_bar_descriptions, get_device_bar_mem}
use crono_pci_linux.Bars.Fill.{
  FillPost, FitsLink, fill_device_bar_descriptions-Returns, fill_device_bar_descriptions-filled,
}

-- The device `d` at `h` is filled, `code` and `bar_count` and `bar_descs` are reported, and the two
-- functions report the same from then on.
pub record Reported {W : Type 0} (os : Os W) (h : Ptr) (d : Device) (s : Process W) (n : ℕ)
    (descs : List BarDesc) (code : ℕ) (bar_count : Option ℕ) (bar_descs : Option (List BarDesc))
    (u : Process W) : Type 0 where
  pub fill : FillPost os h d s code u
  pub now : Device
  pub is_open : IsHandle h now u
  pub reports : code ≡ success → (bar_count ≡ some now.bar_count) × (bar_descs ≡ some now.bar_descs)
  pub fails : code ≢ success → (bar_count ≡ some n) × (bar_descs ≡ some descs)
  pub again :
      ltb 0 now.bar_count ≡ true
      → get_bar_descriptions os h (some n) (some descs) u
        ≡ some ((success, some now.bar_count, some now.bar_descs), u)
  pub first :
      (b : BarDesc) (others : List BarDesc) (address size : ℕ)
      → now.bar_descs ≡ b ∷ others
      → get_device_bar_mem os h (some address) (some size) u
        ≡ some ((success, some b.user_address, some b.length), u)

module _ {W : Type 0} (os : Os W) {h : Ptr} where
  filled_again :
      {d : Device} {u : Process W}
      → IsHandle h d u
      → (n : ℕ) (descs : List BarDesc) → ltb 0 d.bar_count ≡ true
      → get_bar_descriptions os h (some n) (some descs) u
        ≡ some ((success, some d.bar_count, some d.bar_descs), u)
  unfolding get_bar_descriptions
  filled_again v n descs known =
      rw
        (
          init_hdev-IsHandle {A = ℕ × Option ℕ × Option (List BarDesc)} _ _ v,
          fill_device_bar_descriptions-filled os v.holds known,
          ◌>>=◌,
          read_device-Holds v.holds,
        )
        refl

  first_bar :
      {d : Device} {u : Process W}
      → IsHandle h d u
      → (b : BarDesc) (others : List BarDesc) (address size : ℕ) → d.bar_descs ≡ b ∷ others
      → get_device_bar_mem os h (some address) (some size) u
        ≡ some ((success, some b.user_address, some b.length), u)
  unfolding get_device_bar_mem
  first_bar v b others address size e =
      rw (init_hdev-IsHandle {A = ℕ × Option ℕ × Option ℕ} _ _ v, e) refl

  -- The device at the handle behind a fill, which is open as before.
  still_open :
      {d : Device} {s : Process W}
      → IsHandle h d s
      → (ret : ℕ) (u : Process W) → FillPost os h d s ret u
      → (now : Device) × IsHandle h now u
  still_open {d} v ret u (inl f) = (
    record d { bar_descs = f.descs; bar_count = f.count },
    record {
      holds = record { ne_null = v.holds.ne_null; cell = rw (f.stored, ==-refl) };
      has_id = v.has_id;
    },
  )
  still_open {d} v ret u (inr f) = (
    d,
    record {
      holds = record { ne_null = v.holds.ne_null; cell = rw f.failed.rest.cells v.holds.cell };
      has_id = v.has_id;
    },
  )

  module _ {d : Device} {s : Process W} (v : IsHandle h d s) where
    -- Asking for the descriptions of an open device without any returns, when its device id is not
    -- 0 and the text of its link, if it is read, has between 9 and 4079 bytes: the device is filled
    -- or the fill fails, and the device stays open. If the code is that of success, the count and
    -- the descriptions reported are those that the device has now, and else the caller's are
    -- unchanged. From then on, `CRONO_KERNEL_GetDeviceBARMem` reports the address and the size of
    -- the first of them, and asking again, when the device has one, reports the same and changes
    -- nothing.
    pub get_bar_descriptions-Reported :
        (n : ℕ) (descs : List BarDesc)
        → d.bar_count ≡ 0
        → FitsLink os d.pci_slot s.world
        → Returns
            (λ (code, bar_count, bar_descs). Reported os h d s n descs code bar_count bar_descs)
            (get_bar_descriptions os h (some n) (some descs) s)
    unfolding get_bar_descriptions
    get_bar_descriptions-Reported n descs empty link =
        rw (init_hdev-IsHandle {A = ℕ × Option ℕ × Option (List BarDesc)} _ _ v) (
          Returns.bind (fill_device_bar_descriptions os h) _ _
            (fill_device_bar_descriptions-Returns os v.holds empty link)
            λ code u f.
              let (now, open_) = still_open v code u f in
              elim (Bool-cases (code == success)) [
                | inl ok ↦
                    rw (ok, read_device-Holds open_.holds, ◌>>=◌)
                      (returns (record {
                        fill = subst (λ c. FillPost os h d s c u) (==-eq code success ok) f;
                        now = now;
                        is_open = open_;
                        reports = λ _. (refl, refl);
                        fails = λ ne. absurd (ne refl);
                        again = filled_again open_ n descs;
                        first = first_bar open_;
                      }))
                | inr failed ↦ rw failed (
                    returns (record {
                      fill = f;
                      now = now;
                      is_open = open_;
                      reports = λ e. absurd (==-ne code success failed e);
                      fails = λ _. (refl, refl);
                      again = filled_again open_ n descs;
                      first = first_bar open_;
                    }))
              ])
