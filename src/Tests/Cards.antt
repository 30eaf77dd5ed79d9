-- ===== src/Tests/Cards.antt =====
-- A simulated system with two cards of different makers and one descriptor that is used again.
use crono_pci_linux.Base.{
  ℕ, ◌≡◌, ◌≢◌, ◌⊎◌, inl, inr, Bool-cases, ◌==◌, if◌then◌else◌, none, refl, sym, ◌∙◌, subst, ap,
  true, List, ◌∷◌, [], get_or, take, drop, min, replicate, length, arith,
}
use crono_pci_linux.Types.{PciSlot, PciId}
use crono_pci_linux.Os.{Os, Reply, done, fail, rdonly}
use crono_pci_linux.Format.{slot_name, construct_config_file_path}
use crono_pci_linux.Sysfs.Slice.{ServedIn}
use crono_pci_linux.Open.{same_slot}
use crono_pci_linux.Open.Outcome.{same_slot_eq}
use crono_pci_linux.Scan.Listed.{Header, Bus, has_slot}
use crono_pci_linux.Valid.{true-false}
use crono_pci_linux.Tests.Sim.{sim, card, content, entries}
use crono_pci_linux.Machine.{Process}
use crono_pci_linux.Open.Exits.{Positive}

abbrev pub bridge : PciSlot
bridge = record { domain = 0; bus = 2; slot = 0; function = 0 }

-- The first bytes of the bridge: vendor 0x8086, device 0x0102.
abbrev pub bridge_content : List ℕ
bridge_content = 0x86 ∷ 0x80 ∷ 2 ∷ 1 ∷ 9 ∷ []

abbrev pub card_id : PciSlot → PciId
card_id d =
    if d.bus == 3
    then record { vendor_id = 0x1A13; device_id = 0x15 }
    else record { vendor_id = 0x8086; device_id = 0x102 }

abbrev pub content_of : PciSlot → List ℕ
content_of d = if d.bus == 3 then content else bridge_content

-- Opening a file below `/sys/bus`: that of the bus with the digit 3, that of the bus with the digit
-- 2, or ENOENT. Other files open and are empty.
abbrev pub open_at : ℕ → ℕ → List ℕ → Reply ℕ × List ℕ
open_at kind digit w =
    if kind == 98
    then if digit == 51
      then (done 3, content)
      else if digit == 50
      then (done 3, bridge_content)
      else (fail 2, w)
    else (done 3, [])

-- A system with one descriptor, whose state is the content of the file that is open on it.
abbrev pub two_cards : Os (List ℕ)
two_cards = record {
  page_size = 4096;
  garbage = 77;
  stat = λ p w. (done (record { is_dir = true; size = 256 }), w);
  opendir = λ p w. (done entries, w);
  readlink = λ p w. ((sim.readlink p 0).0, w);
  open_file = λ p a w. open_at (get_or p 5 0) (get_or p 27 0) w;
  open_stream = λ p w. ((sim.open_stream p 0).0, w);
  close = λ fd w. (done tt, []);
  pread = λ fd n offset w. (done (take (min n 3) (drop offset w)), w);
  pwrite = λ fd bs offset w. (done (length bs), w);
  mmap = λ n fd offset w. (done 0x10000, w);
  munmap = λ a n w. (done tt, w);
  load = λ n a w. (0, w);
  store = λ n a v w. w;
  malloc = λ w. (1000, w);
  lock_buffer = λ fd info w. (fail 5, w);
  unlock_buffer = λ fd id w. (fail 5, w);
  cleanup_setup = λ fd info cs w. (fail 5, w);
  lock_contig = λ fd info w. (fail 5, w);
  unlock_contig = λ fd id w. (fail 5, w);
}

abbrev pub two_start : Process (List ℕ)
two_start = record {
  world = [];
  errno = 0;
  fds = 2 ∷ 1 ∷ 0 ∷ [];
  dirs = 0;
  maps = [];
  cells = λ p. none;
  devices = replicate 8 0;
  i_new_dev = 0;
}

pub content-Header : Header content (record { vendor_id = 0x1A13; device_id = 0x15 })
content-Header = record {
  b0 = 0x13;
  b1 = 0x1A;
  b2 = 0x15;
  b3 = 0;
  rest = 6 ∷ 5 ∷ 4 ∷ 3 ∷ [];
  bytes = refl;
  b0_byte = omega arith;
  b1_byte = omega arith;
  b2_byte = omega arith;
  b3_byte = omega arith;
  vendor = refl;
  device = refl;
  short = omega arith;
}

bridge-Header : Header bridge_content (record { vendor_id = 0x8086; device_id = 0x102 })
bridge-Header = record {
  b0 = 0x86;
  b1 = 0x80;
  b2 = 2;
  b3 = 1;
  rest = 9 ∷ [];
  bytes = refl;
  b0_byte = omega arith;
  b1_byte = omega arith;
  b2_byte = omega arith;
  b3_byte = omega arith;
  vendor = refl;
  device = refl;
  short = omega arith;
}

pub content_of-Header : (d : PciSlot) → Header (content_of d) (card_id d)
content_of-Header d = elim (Bool-cases (d.bus == 3)) [
  | inl is_card ↦ rw is_card content-Header
  | inr is_bridge ↦ rw is_bridge bridge-Header
]

-- A slot of the list is one of the two.
pub two_slots : (d : PciSlot) → has_slot d (bridge ∷ card ∷ []) ≡ true → (d ≡ bridge) ⊎ (d ≡ card)
two_slots d listed = elim (Bool-cases (same_slot d bridge)) [
  | inl same ↦ inl (same_slot_eq d bridge same)
  | inr apart ↦ elim (Bool-cases (same_slot d card)) [
    | inl same ↦ inr (same_slot_eq d card same)
    | inr neither ↦ absurd (true-false (sym listed ∙ rw (apart, neither) refl))
  ]
]

-- The file of the slot is open.
abbrev pub Reading : PciSlot → ℕ → List ℕ → Type 0
Reading d fd w = w ≡ content_of d

abbrev pub Opens : PciSlot → List ℕ → Type 0
Opens d w =
    (fd : ℕ) × ((two_cards.open_file (construct_config_file_path d) rdonly w).0 ≡ done fd)
    × Reading d fd (two_cards.open_file (construct_config_file_path d) rdonly w).1

pub bridge-Opens : (w : List ℕ) → Opens bridge w
unfolding slot_name construct_config_file_path
bridge-Opens w = (3, refl, refl)

pub card-Opens : (w : List ℕ) → Opens card w
unfolding slot_name construct_config_file_path
card-Opens w = (3, refl, refl)

pub two_cards-ServedIn :
    (d : PciSlot) (fd : ℕ) → ServedIn two_cards (Reading d fd) fd (content_of d)
two_cards-ServedIn d fd = record {
  reply = λ n offset w. min n 3;
  serves = λ n offset w here. ap (λ c. done (take (min n 3) (drop offset c))) here;
  at_most_asked = λ n offset w. omega arith;
  progress = λ n offset w here h k. omega arith;
  reads = λ n offset w here. here;
}

abbrev pub two_cards_bus : Bus two_cards (bridge ∷ card ∷ []) card_id
two_cards_bus = record {
  content = content_of;
  header = λ d listed. content_of-Header d;
  ready = λ w. Unit {0};
  reading = Reading;
  opens = λ d w listed _. elim (two_slots d listed) [
    | inl is_bridge ↦ subst (λ x. Opens x w) (sym is_bridge) (bridge-Opens w)
    | inr is_card ↦ subst (λ x. Opens x w) (sym is_card) (card-Opens w)
  ];
  serves = two_cards-ServedIn;
  closes = λ d fd w here. tt;
}

-- The descriptor in a reply.
abbrev pub NotZero : Reply ℕ → Type 0
NotZero (done fd) = fd ≢ 0
NotZero (fail e) = Unit {0}

open_at-NotZero : (kind digit : ℕ) (w : List ℕ) → NotZero (open_at kind digit w).0
open_at-NotZero kind digit w = elim (Bool-cases (kind == 98)) [
  | inr other ↦ rw other (omega arith)
  | inl config ↦ rw config (elim (Bool-cases (digit == 51)) [
    | inl three ↦ rw three (omega arith)
    | inr no_three ↦ rw no_three (elim (Bool-cases (digit == 50)) [
      | inl two ↦ rw two (omega arith)
      | inr no_two ↦ rw no_two tt
    ])
  ])
]

pub two_cards-Positive : Positive two_cards
two_cards-Positive path a w fd e =
    subst NotZero e (open_at-NotZero (get_or path 5 0) (get_or path 27 0) w)
