-- ===== src/Tests/Disk.antt =====
-- A simulated configuration file, which is the state of the system, and writes to it.
use crono_pci_linux.Base.{
  ℕ, ◌≡◌, refl, min, false, some, none, ◌∷◌, [], List, replicate, length, take, drop, arith,
}
use crono_pci_linux.Types.{success, device}
use crono_pci_linux.Os.{Os, done, fail, update}
use crono_pci_linux.Machine.{Process}
use crono_pci_linux.Machine.Frame.{Framed}
use crono_pci_linux.Machine.Returns.{Returns}
use crono_pci_linux.Device.Handle.{IsHandle}
use crono_pci_linux.Sysfs.{to_bytes, crono_write_config}
use crono_pci_linux.Sysfs.Write.{Stores, overwrite, crono_write_config-overwrite}
use crono_pci_linux.Config.{pci_write_cfg32}
use crono_pci_linux.Config.Write.{pci_write_cfg32-overwrite}
use crono_pci_linux.Config.Space
use crono_pci_linux.Config.Space.{access_all, perform_all}
use crono_pci_linux.Config.Refine.{Backed, Agrees, perform_all-access_all}
use crono_pci_linux.Config.RoundTrip.{pci_read_cfg32-pci_write_cfg32}
use crono_pci_linux.Tests.Sim.{card, handle, open_card}

-- `pread` and `pwrite` move three bytes at most; of the other calls only `stat`, `open` and `close`
-- succeed.
abbrev disk : Os (List ℕ)
disk = record {
  page_size = 4096;
  garbage = 77;
  stat = λ p w. (done (record { is_dir = false; size = length w }), w);
  opendir = λ p w. (fail 5, w);
  readlink = λ p w. (fail 5, w);
  open_file = λ p a w. (done 3, w);
  open_stream = λ p w. (fail 5, w);
  close = λ fd w. (done tt, w);
  pread = λ fd n offset w. (done (take (min 3 n) (drop offset w)), w);
  pwrite = λ fd bs offset w.
      (done (min 3 (length bs)), overwrite w offset (take (min 3 (length bs)) bs));
  mmap = λ n fd offset w. (fail 5, w);
  munmap = λ a n w. (fail 5, w);
  load = λ n a w. (0, w);
  store = λ n a v w. w;
  malloc = λ w. (0, w);
  lock_buffer = λ fd info w. (fail 5, w);
  unlock_buffer = λ fd id w. (fail 5, w);
  cleanup_setup = λ fd info cs w. (fail 5, w);
  lock_contig = λ fd info w. (fail 5, w);
  unlock_contig = λ fd id w. (fail 5, w);
}

disk-Stores : Stores disk 3 (λ w. w)
disk-Stores = record {
  reply = λ bs offset w. min 3 (length bs);
  replies = λ bs offset w. refl;
  at_most_given = λ bs offset w. omega arith;
  progress = λ bs offset w more inside. omega arith;
  stores = λ bs offset w. refl;
  opens = λ path a w. refl;
  stats = λ path w. refl;
  closes = λ w. refl;
}

abbrev blank : Process (List ℕ)
blank = record {
  world = replicate 16 0;
  errno = 0;
  fds = 2 ∷ 1 ∷ 0 ∷ [];
  dirs = 0;
  maps = [];
  cells = update (λ p. none) handle (some (device open_card));
  devices = handle ∷ replicate 7 0;
  i_new_dev = 1;
}

disk-Backed : (path : List ℕ) → Backed disk path 3 (λ w. w)
disk-Backed path = record {
  stores = disk-Stores;
  opens = λ a w. refl;
  size_of = λ w. record { is_dir = false; size = length w };
  sized = λ w. refl;
  size = λ w. refl;
  reply = λ n offset w. min 3 n;
  serves = λ n offset w. refl;
  at_most_asked = λ n offset w. omega arith;
  progress = λ n offset w more inside. omega arith;
  reads = λ n offset w. refl;
}

crono_write_config-overwrite_example :
    Returns
      (λ r u.
        (r ≡ (success, some 5))
        × (u.world ≡ overwrite blank.world 8 (1 ∷ 2 ∷ 3 ∷ 4 ∷ 5 ∷ []))
        × Framed blank u)
      (crono_write_config disk card (1 ∷ 2 ∷ 3 ∷ 4 ∷ 5 ∷ []) 8 5 (some 0) blank)
crono_write_config-overwrite_example =
    crono_write_config-overwrite disk disk-Stores card (1 ∷ 2 ∷ 3 ∷ 4 ∷ 5 ∷ []) 8 5 (some 0) blank
      refl (omega arith) (omega arith) (omega arith)

blank-IsHandle : IsHandle handle open_card blank
blank-IsHandle = record {
  holds = record { ne_null = omega arith; cell = refl };
  has_id = omega arith;
}

pci_write_cfg32-overwrite_example :
    Returns
      (λ ret u.
        (ret ≡ success)
        × (u.world ≡ overwrite blank.world 12 (to_bytes 4 0x1020304))
        × Framed blank u)
      (pci_write_cfg32 disk handle 12 0x1020304 blank)
pci_write_cfg32-overwrite_example =
    pci_write_cfg32-overwrite disk blank-IsHandle refl 12 0x1020304 disk-Stores refl refl
      (omega arith) (omega arith)

-- A write that fits, a read of the same word, and a read that does not fit.
abbrev accesses : List Space.Access
accesses = Space.Access.write 8 0x1020304 ∷ Space.Access.read 8 0 ∷ Space.Access.read 13 7 ∷ []

perform_all-access_all_example :
    Returns
      (Agrees (λ w. w) (access_all accesses blank.world) blank)
      (perform_all disk handle accesses blank)
perform_all-access_all_example =
    perform_all-access_all disk (disk-Backed _) accesses blank blank-IsHandle (omega arith)

pci_read_cfg32-pci_write_cfg32_example :
    Returns
      (λ outs u.
        (outs ≡ (success, none) ∷ (success, some 0x1020304) ∷ [])
        × (u.world ≡ overwrite blank.world 8 (to_bytes 4 0x1020304))
        × Framed blank u)
      (perform_all disk handle (Space.Access.write 8 0x1020304 ∷ Space.Access.read 8 5 ∷ []) blank)
pci_read_cfg32-pci_write_cfg32_example =
    pci_read_cfg32-pci_write_cfg32 disk (disk-Backed _) 8 0x1020304 5 blank blank-IsHandle
      (omega arith) (omega arith) (omega arith)
