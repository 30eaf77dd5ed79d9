-- ===== src/Bars/Found.antt =====
-- What the `resource` file says of the BARs, apart from the code that maps them, and the regions
-- that a list of descriptions stands for.
use crono_pci_linux.Base.{
  ℕ, zero, suc, ◌+◌, ◌<◌, ◌≡◌, refl, true, false, List, [], ◌∷◌, ◌++◌, map, if◌then◌else◌, length,
  set, get_or, get_or-set_self, take-set, get_or-set_other, take, codes, arith,
}
use mathlib.Core.List.{map-append}
use native.Mathlib.Numerals.{add-one}
use crono_pci_linux.Types.{Text, BarDesc, zero_bar}
use crono_pci_linux.Format.{Stream, print_dec}
use crono_pci_linux.Os.{Os, done, rdwr}
use crono_pci_linux.Bars.{Line, read_line, is_absent, bar_length, bar_desc}

-- The first lines of the file.
unfoldable pub lines : ℕ → ℕ → Stream → List Line
lines garbage zero stream = []
lines garbage (suc rounds) stream =
    (read_line garbage stream).1 ∷ lines garbage rounds (read_line garbage stream).0

-- What a description says that does not depend on the mapping.
pub record BarInfo : Type 0 where
  pub number : ℕ
  pub physical : ℕ
  pub size : ℕ

abbrev pub info : BarDesc → BarInfo
info b = record { number = b.bar_num; physical = b.physical_address; size = b.length }

-- The BARs that are there: those whose line is not zero, numbered from `ibar` on.
unfoldable pub present : ℕ → List Line → List BarInfo
present ibar [] = []
present ibar (l ∷ ls) =
    if is_absent l
    then present (ibar + 1) ls
    else record { number = ibar; physical = l.start_addr; size = bar_length l }
      ∷ present (ibar + 1) ls

pub present_absent :
    (ibar : ℕ) (l : Line) (ls : List Line)
    → is_absent l ≡ true
    → present ibar (l ∷ ls) ≡ present (ibar + 1) ls
unfolding present
present_absent ibar l ls h = rw h

pub present_there :
    (ibar : ℕ) (l : Line) (ls : List Line) (a : ℕ)
    → is_absent l ≡ false
    → present ibar (l ∷ ls) ≡ info (bar_desc ibar l a) ∷ present (ibar + 1) ls
unfolding present
present_there ibar l ls a h = rw h

-- The mapped regions of the first `n` descriptions, newest first.
unfoldable pub regions : ℕ → List BarDesc → List (ℕ × ℕ)
regions zero descs = []
regions (suc n) descs =
    ((get_or descs n zero_bar).user_address, (get_or descs n zero_bar).length) ∷ regions n descs

pub regions-zero : (descs : List BarDesc) (maps : List (ℕ × ℕ)) → maps ≡ regions 0 descs ++ maps
unfolding regions
regions-zero descs maps = refl

regions-set_above :
    (m n : ℕ) (descs : List BarDesc) (b : BarDesc)
    → m < suc n
    → regions m (set descs n b) ≡ regions m descs
unfolding regions
regions-set_above zero n descs b h = refl
regions-set_above (suc m) n descs b h = rw (
  get_or-set_other descs m n b zero_bar (omega arith),
  regions-set_above m n descs b (omega arith),
)

-- A description stored behind the others adds its region.
pub regions-set :
    (n : ℕ) (descs : List BarDesc) (b : BarDesc)
    → n < length descs
    → regions (n + 1) (set descs n b) ≡ (b.user_address, b.length) ∷ regions n descs
unfolding regions
regions-set n descs b h =
    rw (add-one, get_or-set_self descs n b zero_bar h, regions-set_above n n descs b (omega arith))

-- A description stored behind the others comes last.
pub infos-set :
    (n : ℕ) (descs : List BarDesc) (b : BarDesc)
    → n < length descs
    → map info (take (n + 1) (set descs n b)) ≡ map info (take n descs) ++ info b ∷ []
infos-set n descs b h = rw (add-one, take-set descs n b h) (map-append info (take n descs) (b ∷ []))

-- The region that the description names was mapped from the file `resource<n>` of the directory
-- `dir`, where `n` is the number of its BAR.
pub record BarMapped {W : Type 0} (os : Os W) (dir : Text) (b : BarDesc) : Type 0 where
  pub world : W
  pub fd : ℕ
  pub file :
      (os.open_file ((dir ++ codes "/resource") ++ print_dec b.bar_num) rdwr world).0 ≡ done fd
  pub region :
      (os.mmap b.length fd 0
        (os.open_file ((dir ++ codes "/resource") ++ print_dec b.bar_num) rdwr world).1).0
      ≡ done b.user_address

abbrev pub AllMapped : {W : Type 0} → Os W → Text → List BarDesc → Type 0
AllMapped os dir [] = Unit {0}
AllMapped os dir (b ∷ bs) = BarMapped os dir b × AllMapped os dir bs

AllMapped-snoc :
    {W : Type 0} (os : Os W) (dir : Text) (bs : List BarDesc) (b : BarDesc)
    → AllMapped os dir bs
    → BarMapped os dir b
    → AllMapped os dir (bs ++ b ∷ [])
AllMapped-snoc os dir [] b all new = (new, tt)
AllMapped-snoc os dir (c ∷ bs) b (first, all) new = (first, AllMapped-snoc os dir bs b all new)

pub AllMapped-set :
    {W : Type 0} (os : Os W) (dir : Text) (n : ℕ) (descs : List BarDesc) (b : BarDesc)
    → n < length descs
    → AllMapped os dir (take n descs)
    → BarMapped os dir b
    → AllMapped os dir (take (n + 1) (set descs n b))
AllMapped-set os dir n descs b h all new =
    rw (add-one, take-set descs n b h) (AllMapped-snoc os dir (take n descs) b all new)
