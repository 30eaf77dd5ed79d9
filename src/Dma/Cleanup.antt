-- ===== src/Dma/Cleanup.antt =====
-- `CRONO_KERNEL_CardCleanupSetup` on an open device.
use crono_pci_linux.Base.{
  [], take-take, ℕ, ◌≤◌, ◌≡◌, ◌≢◌, refl, sym, ap, ◌∙◌, inl, inr, false, some, none, Option, List,
  ltb, ◌==◌, ==-eq, ==-refl, Bool-cases, length, take, arith,
}
use crono_pci_linux.Types.{zero_cmds, CmdsInfo, Ptr, Obj, Device, Cmd, cmds}
use crono_pci_linux.Os.{Os, update, errno_after}
use crono_pci_linux.Machine.{Process, malloc, put, ◌>>=◌}
use crono_pci_linux.Machine.Heap.{read-run, Fresh, ne_false, free-run, write-run}
use crono_pci_linux.Machine.Returns.{Returns, returns}
use crono_pci_linux.Device.Handle.{IsHandle, init_hdev-IsHandle}
use crono_pci_linux.Dma.{cmds_info, sent_cmds, read_cmds, ioctl_code, card_cleanup_setup}

-- The heap is as before behind the free of a new block.
after_free :
    (before c : Ptr → Option Obj) (p : Ptr)
    → before p ≡ none
    → ((q : Ptr) → (p == q) ≡ false → c q ≡ before q)
    → (q : Ptr) → update c p none q ≡ before q
after_free before c p new_ others q = elim (Bool-cases (p == q)) [
  | inl e ↦ rw e (sym (ap before (sym (==-eq p q e)) ∙ new_))
  | inr ne ↦ rw ne (others q ne)
]

module _ {W : Type 0} (os : Os W) {h : Ptr} {dev : Device} {s : Process W}
    (v : IsHandle h dev s) where
  -- The call on the driver: with the first `count` commands, in the state `w`.
  abbrev pub CleanedUp : CmdsInfo → List Cmd → W → ℕ → Process W → Type 0
  CleanedUp info sent w ret u =
      (ret ≡ ioctl_code (os.cleanup_setup dev.miscdev_fd info sent w).0)
      × (u.world ≡ (os.cleanup_setup dev.miscdev_fd info sent w).1)
      × ((q : Ptr) → u.cells q ≡ s.cells q)
      × (u.fds ≡ s.fds)
      × (u.devices ≡ s.devices)

  -- With an open device and an allocator that gives a block, the cleanup call returns the driver's
  -- code. The driver finds exactly the first `count` commands in the block that it is given, and
  -- every block, the descriptors and the table are as before.
  pub card_cleanup_setup-Returns :
      (cmd : List Cmd) (count : ℕ)
      → dev.miscdev_fd ≢ 0
      → count ≤ length cmd
      → (m : Fresh (cmds (zero_cmds count)) s (malloc os (cmds (zero_cmds count)) s))
      → Returns
          (CleanedUp (cmds_info m.at count) (take count cmd) m.world)
          (card_cleanup_setup os h cmd count s)
  unfolding card_cleanup_setup sent_cmds read_cmds
  card_cleanup_setup-Returns cmd count open_ room m =
      let p = m.at in
      let p_set = ne_false p 0 m.ne_null in
      let b : (dev.miscdev_fd == 0) ≡ false = ground arith in
      let fits : ltb (length cmd) count ≡ false = ground arith in
      let t0 : Process W = put p (some (cmds (zero_cmds count))) (record s { world = m.world }) in
      let at0 : t0.cells p ≡ some (cmds (zero_cmds count)) = rw ==-refl in
      rw (init_hdev-IsHandle {A = ℕ} _ _ v, b, m.run, ◌>>=◌)
        (elim (Bool-cases (count == 0)) [
          | inl none_ ↦
              let none_sent : [] ≡ take count cmd =
                ap (λ n. take n cmd) (sym (==-eq count 0 none_)) in
              let sent = os.cleanup_setup dev.miscdev_fd (cmds_info p count) [] m.world in
              let t1 : Process W = record t0 {
                world = sent.1;
                errno = errno_after sent.0 s.errno;
              } in
              rw
                (
                  none_,
                  ◌>>=◌,
                  none_,
                  ◌>>=◌,
                  free-run p (cmds (zero_cmds count)) t1 p_set at0,
                  none_sent,
                )
                (returns
                  (refl, refl, after_free s.cells _ p m.unused (λ q apart. rw apart), refl, refl))
          | inr some_ ↦
              let sent =
                os.cleanup_setup dev.miscdev_fd (cmds_info p count) (take count (take count cmd))
                  m.world in
              let t1 : Process W = put p (some (cmds (take count cmd))) t0 in
              let t2 : Process W = record t1 {
                world = sent.1;
                errno = errno_after sent.0 s.errno;
              } in
              let at1 : t2.cells p ≡ some (cmds (take count cmd)) = rw ==-refl in
              rw
                (
                  some_,
                  fits,
                  ◌>>=◌,
                  write-run p (cmds (zero_cmds count)) (cmds (take count cmd)) t0 p_set at0,
                  ◌>>=◌,
                  some_,
                  read-run p (cmds (take count cmd)) t1 p_set at1,
                  free-run p (cmds (take count cmd)) t2 p_set at1,
                  take-take count count cmd (omega arith),
                )
                (returns
                  (refl, refl, after_free s.cells _ p m.unused (λ q apart. rw apart), refl, refl))
        ])
