-- ===== src/Bars.antt =====
-- `fill_device_bar_descriptions` and the functions of src/crono_kernel_interface.cpp that report
-- BAR descriptions.
pub mod Report
pub mod Keeps
pub mod Files
pub mod Found
pub mod Loop
pub mod Read
pub mod Fill
use crono_pci_linux.Base.{
  ℕ, zero, suc, ◌+◌, ◌-◌, ◌%◌, ◌^◌, ◌&&◌, not, Bool, true, false, Option, none, some, List, [], ◌∷◌,
  ◌++◌, ltb, ◌==◌, if◌then◌else◌, set, codes, is_null,
}
use crono_pci_linux.Types.{Text, Ptr, BarDesc, Device, device, zero_bars, success, minus, einval}
use crono_pci_linux.Format.{Stream, extract_hex, print_dec}
use crono_pci_linux.Os.{Reply, done, fail, Os, rdonly, rdwr}
use crono_pci_linux.Machine.{
  M, pure, ◌>>=◌, ◌>>◌, undefined, get_errno, call, open_file, close, mmap, write,
}
use crono_pci_linux.Device.{read_device, init_hdev}
use crono_pci_linux.Sysfs.{crono_get_sys_devices_directory_path}

-- A line of the `resource` file.
pub record Line : Type 0 where
  pub start_addr : ℕ
  pub end_addr : ℕ
  pub line_flags : ℕ

-- `resource_file >> std::hex >> start_addr >> end_addr >> flags`, into uninitialised variables.
unfoldable pub read_line : ℕ → Stream → Stream × Line
unfolding extract_hex
read_line garbage stream =
    let unset = garbage % 2 ^ 64 in
    let a = extract_hex stream unset in
    let b = extract_hex a.0 unset in
    let c = extract_hex b.0 unset in
    (c.0, record { start_addr = a.1; end_addr = b.1; line_flags = c.1 })

-- The mapped size: 64-bit arithmetic, stored in a `uint32_t`.
abbrev pub bar_length : Line → ℕ
bar_length l = (l.end_addr + 2 ^ 64 - l.start_addr + 1) % 2 ^ 64 % 2 ^ 32

abbrev pub is_absent : Line → Bool
is_absent l = l.start_addr == 0 && (l.end_addr == 0)

abbrev pub bar_desc : ℕ → Line → ℕ → BarDesc
bar_desc ibar l user_addr = record {
  bar_num = ibar;
  flags = 0;
  user_address = user_addr;
  physical_address = l.start_addr;
  length = bar_length l;
}

module _ {W : Type 0} (os : Os W) where
  open os use {garbage}

  -- The error exits inside the loop: `fds` are closed in order, and `errno` is returned.
  unfoldable pub bar_error : {A : Type 0} → List ℕ → M W (Reply A)
  bar_error [] = do err ← get_errno; pure (fail err)
  bar_error (fd ∷ fds) = do close os fd; bar_error fds

  -- The loop over the six BARs, with `temp_bar_descs` and `bar_count`; `fail` is an early return.
  unfoldable pub bar_loop :
      ℕ → ℕ → Text → ℕ → Stream → List BarDesc → ℕ → M W (Reply (List BarDesc × ℕ))
  bar_loop zero ibar dir resource_fd stream descs bar_count = pure (done (descs, bar_count))
  bar_loop (suc rounds) ibar dir resource_fd stream descs bar_count =
      let next = (read_line garbage stream).0 in
      let l = (read_line garbage stream).1 in
      elim (is_absent l) [
        | true ↦ bar_loop rounds (ibar + 1) dir resource_fd next descs bar_count
        | false ↦ do
          opened ← open_file os ((dir ++ codes "/resource") ++ print_dec ibar) rdwr
          elim opened [
            | fail _ ↦ bar_error (resource_fd ∷ [])
            | done bar_fd ↦ do
              mapped ← mmap os (bar_length l) bar_fd 0
              elim mapped [
                | fail _ ↦ bar_error (bar_fd ∷ resource_fd ∷ [])
                | done user_addr ↦ do
                  close os bar_fd
                  bar_loop rounds (ibar + 1) dir resource_fd next
                      (set descs bar_count (bar_desc ibar l user_addr)) (bar_count + 1)
              ]
          ]
      ]

  -- Behind the loop: the `resource` file is closed.
  unfoldable pub finish_bars : ℕ → Reply (List BarDesc × ℕ) → M W (Reply (List BarDesc × ℕ))
  finish_bars fd (fail err) = pure (fail err)
  finish_bars fd (done found) = do close os fd; pure (done found)

  -- The part that reads the `resource` file of the directory `dir`.
  unfoldable pub read_bars : Text → M W (Reply (List BarDesc × ℕ))
  read_bars dir = do
    opened ← open_file os (dir ++ codes "/resource") rdonly
    elim opened [
      | fail _ ↦ bar_error []
      | done resource_fd ↦ do
        file ← call (os.open_stream (dir ++ codes "/resource"))
        elim file [
          | fail _ ↦ do close os resource_fd; pure (fail (minus einval))
          | done text ↦ do
            bars ← bar_loop 6 0 dir resource_fd (record { rest = text; good = true }) zero_bars 0
            finish_bars resource_fd bars
        ]
    ]

  -- What was found is copied to the device.
  unfoldable pub store_bars : Ptr → Device → Reply (List BarDesc × ℕ) → M W ℕ
  store_bars p d (fail err) = pure err
  store_bars p d (done (descs, bar_count)) = do
    write p (device (record d { bar_descs = descs; bar_count = bar_count }))
    pure success

  unfoldable pub fill_device_bar_descriptions : Ptr → M W ℕ
  fill_device_bar_descriptions p = if p == 0 then pure (minus einval) else do
    d ← read_device p
    if ltb 0 d.bar_count then pure success else do
      (ret, path) ← crono_get_sys_devices_directory_path os d.pci_slot (some [])
      if not (ret == success) then pure ret else elim path [
        | none ↦ undefined
        | some dir ↦ do bars ← read_bars dir; store_bars p d bars
      ]

  -- `CRONO_KERNEL_GetBarDescriptions`: the code, `*barCount` and the six `barDescs`.
  unfoldable pub get_bar_descriptions :
      Ptr → Option ℕ → Option (List BarDesc) → M W (ℕ × Option ℕ × Option (List BarDesc))
  get_bar_descriptions h_dev bar_count bar_descs =
      init_hdev h_dev (λ code. (code, bar_count, bar_descs))
        λ _.
          if is_null bar_count
          then pure (minus einval, bar_count, bar_descs)
          else if is_null bar_descs
          then pure (minus einval, bar_count, bar_descs)
          else do
            ret ← fill_device_bar_descriptions h_dev
            if not (ret == success)
                then pure (ret, bar_count, bar_descs)
                else do d ← read_device h_dev; pure (success, some d.bar_count, some d.bar_descs)

  -- `CRONO_KERNEL_GetDeviceBARMem`: the code, `*pBARUSAddr` and `*pBARMemSize`.
  unfoldable pub get_device_bar_mem : Ptr → Option ℕ → Option ℕ → M W (ℕ × Option ℕ × Option ℕ)
  get_device_bar_mem h_dev addr size =
      init_hdev h_dev (λ code. (code, addr, size))
        λ d.
          if is_null addr
          then pure (minus einval, addr, size)
          else if is_null size
          then pure (minus einval, addr, size)
          else elim d.bar_descs [
            | [] ↦ undefined
            | b ∷ _ ↦ pure (success, some b.user_address, some b.length)
          ]
