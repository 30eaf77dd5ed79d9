-- ===== src/Bars/Keeps.antt =====
-- The functions on BAR descriptions change the heap in one place at most, the device.
use crono_pci_linux.Base.{
  ℕ, zero, suc, ◌+◌, not, true, Option, some, List, [], ◌∷◌, ◌++◌, ltb, ◌==◌, set, codes, is_null,
  ◌≤◌, length, arith,
}
use crono_pci_linux.Types.{Ptr, Text, Device, BarDesc, device, zero_bars, success, minus, einval}
use crono_pci_linux.Format.{Stream}
use crono_pci_linux.Os.{Os, Reply, done, fail, rdonly, rdwr}
use crono_pci_linux.Machine.{Process}
use crono_pci_linux.Machine.Keeps.{
  Keeps, Predicate, Ends-bind, both, Leads-bind, Keeps-pure, Leads-if, Leads-branch, Leads-reply,
  Leads-option, Leads-list, Leads-undefined, Keeps-get_errno, Keeps-call, Keeps-open_file,
  Keeps-close, Keeps-mmap,
}
use crono_pci_linux.Device.Keeps.{
  Rewrites, With, Entails, write_device-Keeps, read_device-Keeps, init_hdev-Keeps,
  init_hdev-Keeps_from,
}
use crono_pci_linux.Sysfs.Keeps.{crono_get_sys_devices_directory_path-Keeps}
use crono_pci_linux.Bars.Read.{ReadPost, read_bars-Returns}
use crono_pci_linux.Bars.{
  is_absent, read_line, bar_length, bar_desc, bar_error, bar_loop, finish_bars, read_bars,
  store_bars, fill_device_bar_descriptions, get_bar_descriptions, get_device_bar_mem,
}

-- The descriptions found, if any, are as many as counted or more.
abbrev Fit : Reply (List BarDesc × ℕ) → Type 0
Fit (fail err) = Unit {0}
Fit (done (descs, bar_count)) = bar_count ≤ length descs

Fit-ReadPost :
    {W : Type 0} (os : Os W) (dir : Text) (s : Process W) (r : Reply (List BarDesc × ℕ))
    (t : Process W)
    → ReadPost os dir s r t
    → Fit r
Fit-ReadPost os dir s (fail err) t post = tt
Fit-ReadPost os dir s (done (descs, n)) t (text, served, q) =
    let six = q.six in let count = q.count in omega arith

module _ {W : Type 0} (os : Os W) {I : Predicate} where
  bar_error-Keeps : {A : Type 0} (fds : List ℕ) → Keeps I (bar_error os {A = A} fds)
  unfolding bar_error
  bar_error-Keeps [] = Leads-bind Keeps-get_errno λ err. Keeps-pure (fail err)
  bar_error-Keeps (fd ∷ fds) = Leads-bind (Keeps-close os fd) λ _. bar_error-Keeps fds

  bar_loop-Keeps :
      (rounds ibar : ℕ) (dir : Text) (resource_fd : ℕ) (stream : Stream) (descs : List BarDesc)
      (bar_count : ℕ)
      → Keeps I (bar_loop os rounds ibar dir resource_fd stream descs bar_count)
  unfolding bar_loop
  bar_loop-Keeps zero ibar dir resource_fd stream descs bar_count = Keeps-pure _
  bar_loop-Keeps (suc rounds) ibar dir resource_fd stream descs bar_count =
      let l = (read_line os.garbage stream).1 in
      Leads-branch (is_absent l)
        (bar_loop-Keeps rounds (ibar + 1) dir resource_fd _ descs bar_count)
        (Leads-bind (Keeps-open_file os _ rdwr) λ opened.
          Leads-reply opened
            (λ bar_fd. Leads-bind (Keeps-mmap os (bar_length l) bar_fd 0) λ mapped.
              Leads-reply mapped
                (λ user_addr. Leads-bind (Keeps-close os bar_fd) λ _.
                  bar_loop-Keeps rounds (ibar + 1) dir resource_fd _
                    (set descs bar_count (bar_desc ibar l user_addr)) (bar_count + 1))
                λ _. bar_error-Keeps (bar_fd ∷ resource_fd ∷ []))
            λ _. bar_error-Keeps (resource_fd ∷ []))

  finish_bars-Keeps : (fd : ℕ) (r : Reply (List BarDesc × ℕ)) → Keeps I (finish_bars os fd r)
  unfolding finish_bars
  finish_bars-Keeps fd (fail err) = Keeps-pure _
  finish_bars-Keeps fd (done found) = Leads-bind (Keeps-close os fd) λ _. Keeps-pure _

  read_bars-Keeps : (dir : Text) → Keeps I (read_bars os dir)
  unfolding read_bars
  read_bars-Keeps dir = Leads-bind (Keeps-open_file os _ rdonly) λ opened.
      Leads-reply opened
        (λ resource_fd. Leads-bind (Keeps-call (os.open_stream (dir ++ codes "/resource"))) λ file.
          Leads-reply file
            (λ text.
              Leads-bind
                (bar_loop-Keeps 6 0 dir resource_fd (record { rest = text; good = true }) zero_bars
                  0)
                λ bars. finish_bars-Keeps resource_fd bars)
            λ _. Leads-bind (Keeps-close os resource_fd) λ _. Keeps-pure (fail (minus einval)))
        λ _. bar_error-Keeps []

  store_bars-Keeps :
      (p : Ptr) (d : Device) (r : Reply (List BarDesc × ℕ))
      → Rewrites I p
      → Fit r
      → Keeps I (store_bars os p d r)
  unfolding store_bars
  store_bars-Keeps p d (fail err) rewrites fit = Keeps-pure _
  store_bars-Keeps p d (done (descs, bar_count)) rewrites fit =
      Leads-bind (write_device-Keeps p rewrites _ fit) λ _. Keeps-pure _

  pub fill_device_bar_descriptions-Keeps :
      (p : Ptr) → Rewrites I p → Keeps I (fill_device_bar_descriptions os p)
  unfolding fill_device_bar_descriptions
  fill_device_bar_descriptions-Keeps p rewrites = Leads-if (p == 0) (Keeps-pure _) (
      Leads-bind (read_device-Keeps _ p) λ d. Leads-if (ltb 0 d.bar_count) (Keeps-pure _) (
        Leads-bind (crono_get_sys_devices_directory_path-Keeps os d.pci_slot (some []))
          λ (ret, path). Leads-if (not (ret == success)) (Keeps-pure _) (
            Leads-option path Leads-undefined λ dir. record {
              run = λ s i.
                  Ends-bind (read_bars os dir) _ s
                    (both (read_bars-Returns os dir s) ((read_bars-Keeps dir).run s i))
                    λ bars t (post, j).
                      (store_bars-Keeps p d bars rewrites (Fit-ReadPost os dir s bars t post)).run t
                        j;
            })))

  pub get_device_bar_mem-Keeps :
      (h : Ptr) (addr size : Option ℕ) → Keeps I (get_device_bar_mem os h addr size)
  unfolding get_device_bar_mem
  get_device_bar_mem-Keeps h addr size = init_hdev-Keeps I h _ _ λ d.
      Leads-if (is_null addr) (Keeps-pure _) (
        Leads-if (is_null size) (Keeps-pure _)
          (Leads-list d.bar_descs Leads-undefined λ b _. Keeps-pure _))

module _ {W : Type 0} (os : Os W) where
  pub get_bar_descriptions-Keeps :
      (I J : Predicate) (h : Ptr) (bar_count : Option ℕ) (bar_descs : Option (List BarDesc))
      → ((d : Device) → Entails (With I h (device d)) J)
      → Entails J I
      → Rewrites J h
      → Keeps I (get_bar_descriptions os h bar_count bar_descs)
  unfolding get_bar_descriptions
  get_bar_descriptions-Keeps I J h bar_count bar_descs enter leave rewrites =
      init_hdev-Keeps_from I J h _ _ enter leave λ d. Leads-if (is_null bar_count) (Keeps-pure _) (
        Leads-if (is_null bar_descs) (Keeps-pure _) (
          Leads-bind (fill_device_bar_descriptions-Keeps os h rewrites) λ ret.
            Leads-if (not (ret == success)) (Keeps-pure _)
              (Leads-bind (read_device-Keeps J h) λ _. Keeps-pure _)))
