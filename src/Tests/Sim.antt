-- ===== src/Tests/Sim.antt =====
-- A simulated system: its state counts the calls, every file has the same content, `pread` serves
-- three bytes at most, and every call succeeds.
use crono_pci_linux.Base.{
  ℕ, ◌+◌, ◌*◌, refl, true, none, some, List, set, [], ◌∷◌, min, length, replicate, codes, take,
  drop, arith,
}
use crono_pci_linux.Types.{Text, Ptr, PciSlot, BarDesc, Device, device, zero_bars}
use crono_pci_linux.Os.{done, Dirent, Os, update}
use crono_pci_linux.Machine.{Process}
use crono_pci_linux.Format.RoundTrip.{IsSlot}
use crono_pci_linux.Sysfs.Slice.{Serves}

-- The first bytes of a configuration space: vendor 0x1A13, device 0x0015.
abbrev pub content : List ℕ
content = 0x13 ∷ 0x1A ∷ 0x15 ∷ 0 ∷ 6 ∷ 5 ∷ 4 ∷ 3 ∷ []

abbrev pub card : PciSlot
card = record { domain = 0; bus = 3; slot = 0x1c; function = 7 }

pub card-IsSlot : IsSlot card
card-IsSlot = omega arith

abbrev pub entries : List Dirent
entries =
    record { is_link = true; name = codes "0000:02:00.0" }
    ∷ record { is_link = true; name = codes "0000:03:1c.7" }
    ∷ []

abbrev pub resource : Text
resource =
    codes "0xf7a00000 0xf7a0ffff 0x40200 0 0 0 0xf7b00000 0xf7b00fff 0x40200 0 0 0 0 0 0 0 0 0"

abbrev pub sim : Os ℕ
sim = record {
  page_size = 4096;
  garbage = 77;
  stat = λ p w. (done (record { is_dir = true; size = 256 }), w + 1);
  opendir = λ p w. (done entries, w + 1);
  readlink = λ p w. (done (codes "../../../devices/pci0000:00/0000:03:1c.7"), w + 1);
  open_file = λ p a w. (done (3 + w), w + 1);
  open_stream = λ p w. (done resource, w + 1);
  close = λ fd w. (done tt, w + 1);
  pread = λ fd n offset w. (done (take (min n 3) (drop offset content)), w + 1);
  pwrite = λ fd bs offset w. (done (min (length bs) 3), w + 1);
  mmap = λ n fd offset w. (done (0x10000 * (w + 1)), w + 1);
  munmap = λ a n w. (done tt, w + 1);
  load = λ n a w. (a + n, w + 1);
  store = λ n a v w. w + 1;
  malloc = λ w. (1000 + w, w + 1);
  lock_buffer = λ fd info w.
      (done (record { ret = 0; pages = replicate info.pages_count (0x5000 + w); id = 7 }), w + 1);
  unlock_buffer = λ fd id w. (done 0, w + 1);
  cleanup_setup = λ fd info cs w. (done 0, w + 1);
  lock_contig = λ fd info w. (done (record { ret = 0; dma_handle = 0x7000 + w; id = 9 }), w + 1);
  unlock_contig = λ fd id w. (done 0, w + 1);
}

abbrev pub start : Process ℕ
start = record {
  world = 0;
  errno = 0;
  fds = 2 ∷ 1 ∷ 0 ∷ [];
  dirs = 0;
  maps = [];
  cells = λ p. none;
  devices = replicate 8 0;
  i_new_dev = 0;
}

-- A BAR of 256 bytes, the open card that has it, and the process that holds the card's handle.
abbrev pub bar : BarDesc
bar = record {
  bar_num = 0;
  flags = 0;
  user_address = 0x10000;
  physical_address = 0xf7a00000;
  length = 256;
}

abbrev pub handle : Ptr
handle = 1000

abbrev pub open_card : Device
open_card = record {
  pci_slot = card;
  vendor_id = 0x1A13;
  device_id = 0x15;
  bar_descs = set zero_bars 0 bar;
  bar_count = 1;
  miscdev_name = codes "crono_15_00031C7";
  miscdev_fd = 5;
}

abbrev pub holding : Device → Process ℕ
holding d = record start {
  fds = 5 ∷ start.fds;
  maps = (0x10000, 256) ∷ [];
  cells = update (λ p. none) handle (some (device d));
  devices = handle ∷ replicate 7 0;
  i_new_dev = 1;
}

abbrev pub with_card : Process ℕ
with_card = holding open_card

abbrev pub bare_card : Device
bare_card = record open_card { bar_descs = zero_bars; bar_count = 0 }

-- The same system, with a configuration space of three bytes.
abbrev pub short_sim : Os ℕ
short_sim = record sim {
  pread = λ fd n offset w. (done (take (min n 3) (drop offset (take 3 content))), w + 1);
}

pub short_sim-Serves : (fd : ℕ) → Serves short_sim fd (take 3 content)
short_sim-Serves fd = record {
  reply = λ n offset w. min n 3;
  serves = λ n offset w. refl;
  at_most_asked = λ n offset w. omega arith;
  progress = λ n offset w h k. omega arith;
}

pub sim-Serves : (fd : ℕ) → Serves sim fd content
sim-Serves fd = record {
  reply = λ n offset w. min n 3;
  serves = λ n offset w. refl;
  at_most_asked = λ n offset w. omega arith;
  progress = λ n offset w h k. omega arith;
}
