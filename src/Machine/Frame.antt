-- ===== src/Machine/Frame.antt =====
-- What a call leaves alone: all of the process but the world and `errno`.
use crono_pci_linux.Base.{ℕ, List, ◌≡◌, refl, ◌∙◌, ◌⊎◌, inl, inr}
use crono_pci_linux.Os.{Reply, done, fail}
use crono_pci_linux.Machine.{Process}

pub record Framed {W : Type 0} (s s' : Process W) : Type 0 where
  pub fds : s'.fds ≡ s.fds
  pub dirs : s'.dirs ≡ s.dirs
  pub maps : s'.maps ≡ s.maps
  pub cells : s'.cells ≡ s.cells
  pub devices : s'.devices ≡ s.devices
  pub i_new_dev : s'.i_new_dev ≡ s.i_new_dev

-- The heap, the globals and the directory streams are the same.
pub record SameRest {W : Type 0} (s s' : Process W) : Type 0 where
  pub dirs : s'.dirs ≡ s.dirs
  pub cells : s'.cells ≡ s.cells
  pub devices : s'.devices ≡ s.devices
  pub i_new_dev : s'.i_new_dev ≡ s.i_new_dev

module _ {W : Type 0} where
  pub SameRest-refl : (s : Process W) → SameRest s s
  SameRest-refl s = record { dirs = refl; cells = refl; devices = refl; i_new_dev = refl }

  pub SameRest-set :
      (s : Process W) (w : W) (e : ℕ) (fds : List ℕ) (maps : List (ℕ × ℕ))
      → SameRest s (record s { world = w; errno = e; fds = fds; maps = maps })
  SameRest-set s w e fds maps = record {
    dirs = refl;
    cells = refl;
    devices = refl;
    i_new_dev = refl;
  }

  pub SameRest-trans : {s t u : Process W} → SameRest s t → SameRest t u → SameRest s u
  SameRest-trans f g = record {
    dirs = g.dirs ∙ f.dirs;
    cells = g.cells ∙ f.cells;
    devices = g.devices ∙ f.devices;
    i_new_dev = g.i_new_dev ∙ f.i_new_dev;
  }

  pub Framed-SameRest : {s t : Process W} → Framed s t → SameRest s t
  Framed-SameRest f = record {
    dirs = f.dirs;
    cells = f.cells;
    devices = f.devices;
    i_new_dev = f.i_new_dev;
  }

  pub Framed-refl : (s : Process W) → Framed s s
  Framed-refl s = record {
    fds = refl;
    dirs = refl;
    maps = refl;
    cells = refl;
    devices = refl;
    i_new_dev = refl;
  }

  pub Framed-trans : {s t u : Process W} → Framed s t → Framed t u → Framed s u
  Framed-trans f g = record {
    fds = g.fds ∙ f.fds;
    dirs = g.dirs ∙ f.dirs;
    maps = g.maps ∙ f.maps;
    cells = g.cells ∙ f.cells;
    devices = g.devices ∙ f.devices;
    i_new_dev = g.i_new_dev ∙ f.i_new_dev;
  }

  -- A call that only the world and `errno` see.
  pub Framed-call : (s : Process W) (w : W) (e : ℕ) → Framed s (record s { world = w; errno = e })
  Framed-call s w e = record {
    fds = refl;
    dirs = refl;
    maps = refl;
    cells = refl;
    devices = refl;
    i_new_dev = refl;
  }

-- A reply is a value or an error.
pub Reply-cases : {A : Type 0} (r : Reply A) → ((a : A) × (r ≡ done a)) ⊎ ((e : ℕ) × (r ≡ fail e))
Reply-cases (done a) = inl (a, refl)
Reply-cases (fail e) = inr (e, refl)
