-- ===== src/Sysfs/Total.antt =====
-- The reads of src/sysfs.cpp on every answer of the system.
use crono_pci_linux.Base.{
  ℕ, zero, suc, ◌+◌, ◌-◌, ◌%◌, ◌^◌, ◌≤◌, ◌<◌, ◌≡◌, refl, inl, inr, false, not, ◌||◌, some,
  replicate, Option, List, [], ◌∷◌, ◌++◌, ltb, ◌==◌, length, take, drop, length-append, length-take,
  length-drop, Bool-cases, ==-refl, arith,
}
use crono_pci_linux.Types.{PciSlot}
use crono_pci_linux.Format.{construct_config_file_path}
use crono_pci_linux.Os.{Os, at_most, rdonly}
use crono_pci_linux.Machine.{Process, pread, ◌>>=◌, open_file, close}
use crono_pci_linux.Machine.Returns
use crono_pci_linux.Machine.Returns.{Returns, returns}
use crono_pci_linux.Sysfs.{read_loop, crono_read_config, crono_read_vendor_device, assign}
use crono_pci_linux.Machine.Frame.{Framed, Framed-refl, Framed-trans, Framed-call, Reply-cases}

module _ {W : Type 0} where
  -- The loop's result: the buffer keeps its length, and no more is left than was asked.
  abbrev ReadDone : ℕ → ℕ → Process W → ℕ × List ℕ × ℕ → Process W → Type 0
  ReadDone n size s (err, buf, temp_size) s' = (length buf ≡ n) × (temp_size ≤ size) × Framed s s'

  -- What `crono_read_config` gives: the buffer keeps its length, the count is at most `size`, and
  -- of the process only the world and `errno` change.
  abbrev pub ConfigRead : ℕ → ℕ → Option ℕ → Process W → ℕ × List ℕ × Option ℕ → Process W → Type 0
  ConfigRead n size out s (err, buf, bytes_read) s' =
      (length buf ≡ n) × ((k : ℕ) × (k ≤ size) × (bytes_read ≡ assign k out)) × Framed s s'

module _ {W : Type 0} (os : Os W) where
  read_loop-Returns :
      (k fd : ℕ) (front data_bytes : List ℕ) (temp_size offset : ℕ) (s : Process W)
      → temp_size < k
      → temp_size ≤ length data_bytes
      → Returns
          (ReadDone (length front + length data_bytes) temp_size s)
          (read_loop os k fd front data_bytes temp_size offset s)
  unfolding read_loop pread
  read_loop-Returns zero fd front data_bytes temp_size offset s fuel room = absurd (omega arith)
  read_loop-Returns (suc k) fd front data_bytes temp_size offset s fuel room =
      let whole = length-append front data_bytes in
      let moved = λ (e : ℕ). Framed-call s (os.pread fd temp_size offset s.world).1 e in
      elim (Bool-cases (temp_size == 0)) [
        | inl all ↦ rw all (returns (whole, omega arith, Framed-refl s))
        | inr more ↦ rw more (elim (Reply-cases (os.pread fd temp_size offset s.world).0) [
          | inr (n, e) ↦ rw (e, ◌>>=◌, at_most) (returns (whole, omega arith, moved n))
          | inl (bs, e) ↦
              rw (e, ◌>>=◌, at_most)
                (let got = take temp_size bs in
                  let fits : length got ≤ temp_size = omega (arith, length-take temp_size bs) in
                  elim (Bool-cases (length got == 0)) [
                    | inl stop ↦ rw stop (returns (whole, omega arith, moved s.errno))
                    | inr on ↦
                        let within : ltb (length data_bytes) (length got) ≡ false = ground arith in
                        rw (on, within)
                          (Returns.mono
                            (read_loop-Returns k fd (front ++ got) (drop (length got) data_bytes)
                              (temp_size - length got) ((offset + length got) % 2 ^ 64)
                              (record s { world = (os.pread fd temp_size offset s.world).1 })
                              (ground arith) (omega (arith, length-drop (length got) data_bytes)))
                            λ r u (same, less, f). (
                              omega (
                                arith,
                                same,
                                length-append front got,
                                length-drop (length got) data_bytes,
                              ),
                              omega arith,
                              Framed-trans (moved s.errno) f,
                            ))
                  ])
        ])
      ]

  -- Closing what was opened last leaves the descriptors as they were before.
  pub close-Framed :
      (fd : ℕ) (s t : Process W) (w : W) (e : ℕ)
      → Framed (record s { world = w; errno = e; fds = fd ∷ s.fds }) t
      → Returns (λ _ u. Framed s u) (close os fd t)
  unfolding close
  close-Framed fd s t w e f = returns (record {
    fds = rw f.fds (rw (==-refl fd));
    dirs = f.dirs;
    maps = f.maps;
    cells = f.cells;
    devices = f.devices;
    i_new_dev = f.i_new_dev;
  })

  -- `crono_read_config` returns.
  pub crono_read_config-Returns :
      (d : PciSlot) (data_ : List ℕ) (offset size : ℕ) (out : Option ℕ) (s : Process W)
      → size ≤ length data_
      → Returns
          (ConfigRead (length data_) size out s)
          (crono_read_config os d data_ offset size out s)
  unfolding crono_read_config open_file
  crono_read_config-Returns d data_ offset size out s room =
      let path = construct_config_file_path d in
      let opened = os.open_file path rdonly s.world in
      elim (Reply-cases opened.0) [
        | inr (n, e) ↦
            rw (e, ◌>>=◌) (returns (refl, (0, omega arith, refl), Framed-call s opened.1 n))
        | inl (fd, e) ↦
            rw (e, ◌>>=◌)
              (Returns.bind (read_loop os (suc size) fd [] data_ size offset) _ _
                (read_loop-Returns (suc size) fd [] data_ size offset _ (omega arith) room)
                λ (err, buf, left) t (same, less, f).
                  Returns.bind (close os fd) _ t (close-Framed fd s t opened.1 s.errno f)
                    λ _ u g. returns (omega (arith, same), (size - left, omega arith, refl), g))
      ]

  -- `crono_read_vendor_device` returns.
  pub crono_read_vendor_device-Framed :
      (d : PciSlot) (ids : ℕ × ℕ) (s : Process W)
      → Returns (λ _ t. Framed s t) (crono_read_vendor_device os d ids s)
  unfolding crono_read_vendor_device
  crono_read_vendor_device-Framed d ids s =
      Returns.bind
        (crono_read_config os d (replicate 4 (os.garbage % 256)) 0 4 (some (os.garbage % 2 ^ 64))) _
        s (crono_read_config-Returns d _ 0 4 _ s (omega arith))
        λ (err, buf, n) t (same, (k, few, count), f).
          rw count (elim (Bool-cases (not (k == 4) || not (err == 0))) [
            | inl short ↦ rw short (returns f)
            | inr full ↦ rw full (returns f)
          ])
