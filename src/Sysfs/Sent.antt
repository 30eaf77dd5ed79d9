-- ===== src/Sysfs/Sent.antt =====
-- `crono_write_config` of src/sysfs.cpp on every answer of the system.
use crono_pci_linux.Base.{
  ℕ, zero, suc, ◌+◌, ◌-◌, ◌%◌, ◌^◌, ◌≤◌, ◌<◌, ◌≡◌, refl, inl, inr, false, Option, List, ltb, min,
  ◌==◌, length, take, drop, length-take, length-drop, Bool-cases, arith,
}
use crono_pci_linux.Types.{PciSlot}
use crono_pci_linux.Format.{construct_config_file_path}
use crono_pci_linux.Os.{Os, at_most_count, wronly}
use crono_pci_linux.Machine.{Process, pwrite, ◌>>=◌, open_file, close}
use crono_pci_linux.Machine.Returns
use crono_pci_linux.Machine.Returns.{Returns, returns}
use crono_pci_linux.Machine.Frame.{Framed, Framed-refl, Framed-trans, Framed-call, Reply-cases}
use crono_pci_linux.Sysfs.{write_loop, crono_write_config, assign}
use crono_pci_linux.Sysfs.Total.{close-Framed}

module _ {W : Type 0} (os : Os W) where
  write_loop-Returns :
      (k fd : ℕ) (data_bytes : List ℕ) (temp_size offset : ℕ) (s : Process W)
      → temp_size < k
      → temp_size ≤ length data_bytes
      → Returns
          (λ (err, left) u. (left ≤ temp_size) × Framed s u)
          (write_loop os k fd data_bytes temp_size offset s)
  unfolding write_loop pwrite
  write_loop-Returns zero fd data_bytes temp_size offset s fuel room = absurd (omega arith)
  write_loop-Returns (suc k) fd data_bytes temp_size offset s fuel room =
      let bs = take temp_size data_bytes in
      let reply = os.pwrite fd bs offset s.world in
      let within : ltb (length data_bytes) temp_size ≡ false = ground arith in
      let size : length bs ≡ temp_size = omega (arith, length-take temp_size data_bytes) in
      elim (Bool-cases (temp_size == 0)) [
        | inl all ↦ rw all (returns (omega arith, Framed-refl s))
        | inr more ↦
            rw (more, within)
              (elim (Reply-cases reply.0) [
                | inr (e, failed) ↦
                    rw (failed, ◌>>=◌, at_most_count)
                      (returns (omega arith, Framed-call s reply.1 e))
                | inl (n, wrote) ↦
                    let kept = min n (length bs) in
                    rw (wrote, ◌>>=◌, at_most_count)
                      (elim (Bool-cases (kept == 0)) [
                        | inl stop ↦ rw stop (returns (omega arith, Framed-call s reply.1 s.errno))
                        | inr on ↦
                            let less : kept ≤ temp_size = omega arith in
                            let some_ : 0 < kept = ground arith in
                            rw on (
                              Returns.mono
                                (write_loop-Returns k fd (drop kept data_bytes) (temp_size - kept)
                                  ((offset + kept) % 2 ^ 64) (record s { world = reply.1 })
                                  (omega arith) (omega (arith, length-drop kept data_bytes)))
                                λ r u (left, f).
                                  (omega arith, Framed-trans (Framed-call s reply.1 s.errno) f))
                      ])
              ])
      ]

  -- `crono_write_config` returns, whatever the system answers: it counts no more bytes than it was
  -- given, and of the process only the world and `errno` change. So every file that it opens is
  -- closed again, also when a write fails.
  pub crono_write_config-Returns :
      (d : PciSlot) (data_ : List ℕ) (offset size : ℕ) (out : Option ℕ) (s : Process W)
      → size ≤ length data_
      → Returns
          (λ (err, bytes_written) u.
            ((k : ℕ) × (k ≤ size) × (bytes_written ≡ assign k out)) × Framed s u)
          (crono_write_config os d data_ offset size out s)
  unfolding crono_write_config open_file
  crono_write_config-Returns d data_ offset size out s room =
      let path = construct_config_file_path d in
      let opened = os.open_file path wronly s.world in
      elim (Reply-cases opened.0) [
        | inr (n, e) ↦ rw (e, ◌>>=◌) (returns ((0, omega arith, refl), Framed-call s opened.1 n))
        | inl (fd, e) ↦
            rw (e, ◌>>=◌)
              (Returns.bind (write_loop os (suc size) fd data_ size offset) _ _
                (write_loop-Returns (suc size) fd data_ size offset _ (omega arith) room)
                λ (err, left) t (less, f).
                  Returns.bind (close os fd) _ t (close-Framed os fd s t opened.1 s.errno f)
                    λ _ u g. returns ((size - left, omega arith, refl), g))
      ]
