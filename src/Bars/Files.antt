-- ===== src/Bars/Files.antt =====
-- Filling a device closes every file that it opens.
use crono_pci_linux.Base.{
  ℕ, zero, suc, ◌+◌, not, true, Option, some, List, [], ◌∷◌, ◌++◌, ltb, ◌==◌, set, codes, is_null,
}
use crono_pci_linux.Types.{Ptr, Text, Device, BarDesc, zero_bars, success, minus, einval}
use crono_pci_linux.Format.{Stream}
use crono_pci_linux.Os.{Os, Reply, done, fail, rdonly, rdwr}
use crono_pci_linux.Machine.Files.{
  Files, Moves, Stays, Opened, Tried, Moves-bind, Moves-pure, Moves-if, Moves-branch, Moves-reply,
  Stays-reply, Moves-option, Moves-list, Moves-undefined, Stays-pure,
}
use crono_pci_linux.Machine.Files.Calls.{
  Stays-get_errno, Stays-call, Stays-write, Stays-mmap, open_file-Moves, close-Opened,
}
use crono_pci_linux.Device.Files.{read_device-Stays, init_hdev-Stays}
use crono_pci_linux.Sysfs.Files.{crono_get_sys_devices_directory_path-Stays}
use crono_pci_linux.Bars.{
  is_absent, read_line, bar_length, bar_desc, bar_error, bar_loop, finish_bars, read_bars,
  store_bars, fill_device_bar_descriptions, get_bar_descriptions, get_device_bar_mem,
}

-- The descriptors that an error exit closes.
abbrev All : List ℕ → Files → Files
All [] I = I
All (fd ∷ fds) I = Opened fd (All fds I)

-- The `resource` file is open behind the loop, unless it was left early.
abbrev Held : ℕ → Files → Reply (List BarDesc × ℕ) → Files
Held fd I (done found) = Opened fd I
Held fd I (fail err) = I

module _ {W : Type 0} (os : Os W) where
  bar_error-Moves :
      {I : Files} {J : Reply (List BarDesc × ℕ) → Files} (fds : List ℕ)
      → ((err : ℕ) (gs : List ℕ) (dirs : ℕ) → I gs dirs → J (fail err) gs dirs)
      → Moves (All fds I) J (bar_error os {A = List BarDesc × ℕ} fds)
  unfolding bar_error
  bar_error-Moves [] weaken = Moves-bind Stays-get_errno λ err. Moves-pure _ (weaken err)
  bar_error-Moves (fd ∷ fds) weaken =
      Moves-bind (close-Opened os fd) λ _. bar_error-Moves fds weaken

  bar_loop-Moves :
      {I : Files} (rounds ibar : ℕ) (dir : Text) (fd : ℕ) (stream : Stream) (descs : List BarDesc)
      (bar_count : ℕ)
      → Moves (Opened fd I) (Held fd I) (bar_loop os rounds ibar dir fd stream descs bar_count)
  unfolding bar_loop
  bar_loop-Moves zero ibar dir fd stream descs bar_count = Moves-pure _ λ _ _ i. i
  bar_loop-Moves {I} (suc rounds) ibar dir fd stream descs bar_count =
      let l = (read_line os.garbage stream).1 in
      Moves-branch (is_absent l) (bar_loop-Moves rounds (ibar + 1) dir fd _ descs bar_count) (
        Moves-bind (open_file-Moves os _ rdwr) λ opened.
          Moves-reply (Tried (Opened fd I)) opened
            (λ bar_fd. Moves-bind (Stays-mmap os (bar_length l) bar_fd 0) λ mapped.
              Stays-reply mapped
                (λ user_addr. Moves-bind (close-Opened os bar_fd) λ _.
                  bar_loop-Moves rounds (ibar + 1) dir fd _
                    (set descs bar_count (bar_desc ibar l user_addr)) (bar_count + 1))
                λ _. bar_error-Moves (bar_fd ∷ fd ∷ []) λ _ _ _ i. i)
            λ _. bar_error-Moves (fd ∷ []) λ _ _ _ i. i)

  finish_bars-Stays :
      {I : Files} (fd : ℕ) (r : Reply (List BarDesc × ℕ))
      → Moves (Held fd I r) (λ _. I) (finish_bars os fd r)
  unfolding finish_bars
  finish_bars-Stays fd (fail err) = Stays-pure _
  finish_bars-Stays fd (done found) = Moves-bind (close-Opened os fd) λ _. Stays-pure _

module _ {W : Type 0} (os : Os W) {I : Files} where
  read_bars-Stays : (dir : Text) → Stays I (read_bars os dir)
  unfolding read_bars
  read_bars-Stays dir = Moves-bind (open_file-Moves os _ rdonly) λ opened.
      Moves-reply (Tried I) opened
        (λ fd. Moves-bind (Stays-call (os.open_stream (dir ++ codes "/resource"))) λ file.
          Stays-reply file
            (λ text.
              Moves-bind
                (bar_loop-Moves os 6 0 dir fd (record { rest = text; good = true }) zero_bars 0)
                λ bars. finish_bars-Stays os fd bars)
            λ _. Moves-bind (close-Opened os fd) λ _. Stays-pure (fail (minus einval)))
        λ _. bar_error-Moves os [] λ _ _ _ i. i

  store_bars-Stays :
      (p : Ptr) (d : Device) (r : Reply (List BarDesc × ℕ)) → Stays I (store_bars os p d r)
  unfolding store_bars
  store_bars-Stays p d (fail err) = Stays-pure _
  store_bars-Stays p d (done (descs, bar_count)) = Moves-bind (Stays-write p _) λ _. Stays-pure _

  pub fill_device_bar_descriptions-Stays : (p : Ptr) → Stays I (fill_device_bar_descriptions os p)
  unfolding fill_device_bar_descriptions
  fill_device_bar_descriptions-Stays p = Moves-if (p == 0) (Stays-pure _) (
      Moves-bind (read_device-Stays p) λ d. Moves-if (ltb 0 d.bar_count) (Stays-pure _) (
        Moves-bind (crono_get_sys_devices_directory_path-Stays os d.pci_slot (some []))
          λ (ret, path). Moves-if (not (ret == success)) (Stays-pure _) (
            Moves-option path Moves-undefined
              λ dir. Moves-bind (read_bars-Stays dir) λ bars. store_bars-Stays p d bars)))

  pub get_device_bar_mem-Stays :
      (h : Ptr) (addr size : Option ℕ) → Stays I (get_device_bar_mem os h addr size)
  unfolding get_device_bar_mem
  get_device_bar_mem-Stays h addr size = init_hdev-Stays h _ _ λ d.
      Moves-if (is_null addr) (Stays-pure _) (
        Moves-if (is_null size) (Stays-pure _)
          (Moves-list d.bar_descs Moves-undefined λ b _. Stays-pure _))

  pub get_bar_descriptions-Stays :
      (h : Ptr) (bar_count : Option ℕ) (bar_descs : Option (List BarDesc))
      → Stays I (get_bar_descriptions os h bar_count bar_descs)
  unfolding get_bar_descriptions
  get_bar_descriptions-Stays h bar_count bar_descs = init_hdev-Stays h _ _ λ d.
      Moves-if (is_null bar_count) (Stays-pure _) (
        Moves-if (is_null bar_descs) (Stays-pure _) (
          Moves-bind (fill_device_bar_descriptions-Stays h) λ ret.
            Moves-if (not (ret == success)) (Stays-pure _)
              (Moves-bind (read_device-Stays h) λ _. Stays-pure _)))
