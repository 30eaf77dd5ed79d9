-- ===== src/Bars/Fill.antt =====
-- `fill_device_bar_descriptions` as a whole.
use crono_pci_linux.Base.{
  ℕ, ◌≤◌, ◌<◌, ◌≡◌, refl, ◌∙◌, inl, inr, ◌⊎◌, true, false, some, List, [], ◌++◌, map, length, take,
  drop, subst, ap, length-take, ltb, ◌==◌, ◌||◌, Bool-cases, codes, arith,
}
use crono_pci_linux.Types.{Text, Ptr, BarDesc, Device, device, zero_bars, PciSlot, success}
use crono_pci_linux.Format.{construct_dev_slink_path}
use crono_pci_linux.Os.{Reply, done, fail, Os, is_live, update}
use crono_pci_linux.Machine.{Process, ◌>>=◌, write}
use crono_pci_linux.Machine.Returns
use crono_pci_linux.Machine.Returns.{Returns, returns}
use crono_pci_linux.Machine.Frame.{
  SameRest-set, SameRest-trans, Framed, Framed-SameRest, Framed-call, Reply-cases,
}
use crono_pci_linux.Device.Handle.{Holds, not_null, read_device-Holds}
use crono_pci_linux.Sysfs.{crono_get_sys_devices_directory_path}
use crono_pci_linux.Bars.{store_bars, read_bars, fill_device_bar_descriptions}
use crono_pci_linux.Bars.Found.{BarInfo, AllMapped, info, regions, regions-zero}
use crono_pci_linux.Bars.Read.{ResourceText, named_bars, Wanted, ReadPost, read_bars-Returns}
use crono_pci_linux.Bars.Loop.{BarsFailed}

-- The directory below `/sys/devices` that the link of the device names, and the state of the system
-- behind reading the link.
abbrev dir_of : Reply Text → Text
dir_of (done link) = codes "/sys/" ++ drop 9 (take 4080 link)
dir_of (fail e) = []

abbrev pub device_dir : {W : Type 0} → Os W → Device → Process W → Text
device_dir os d s = dir_of (os.readlink (construct_dev_slink_path d.pci_slot) s.world).0

abbrev pub behind_link : {W : Type 0} → Os W → Device → Process W → W
behind_link os d s = (os.readlink (construct_dev_slink_path d.pci_slot) s.world).1

-- What the call gives that fills the device `d` at `p`: the descriptions of the BARs that a
-- `resource` file of its directory names, in its order, each with its region mapped from its own
-- file, and no other.
pub record Filled {W : Type 0} (os : Os W) (p : Ptr) (d : Device) (s : Process W) (ret : ℕ)
    (s' : Process W) : Type 0 where
  pub code : ret ≡ success
  pub text : Text
  pub descs : List BarDesc
  pub count : ℕ
  pub infos : map info (take count descs) ≡ named_bars os text
  pub served : ResourceText os (device_dir os d s) (behind_link os d s) text
  pub files : AllMapped os (device_dir os d s) (take count descs)
  pub six : length descs ≡ 6
  pub at_most_six : count ≤ 6
  pub mapped : s'.maps ≡ regions count descs ++ s.maps
  pub stored :
      s'.cells
      ≡ update s.cells p (some (device (record d { bar_descs = descs; bar_count = count })))
  pub same_fds : s'.fds ≡ s.fds
  pub same_dirs : s'.dirs ≡ s.dirs
  pub same_devices : s'.devices ≡ s.devices
  pub same_count : s'.i_new_dev ≡ s.i_new_dev

-- The link of the device is read, and its text fits the buffer.
pub record FitsLink {W : Type 0} (os : Os W) (slot : PciSlot) (w : W) : Type 0 where
  pub fits :
      (link : Text)
      → (os.readlink (construct_dev_slink_path slot) w).0 ≡ done link
      → (9 ≤ length link) × (length link < 4080)

kept_link :
    (link : Text)
    → 9 ≤ length link
    → length link < 4080
    → ((length (take 4080 link) == 4080) || ltb (length (take 4080 link)) 9) ≡ false
kept_link link low high = rw (length-take 4080 link) (ground arith)

-- The call failed: the BARs that were mapped stay mapped.
pub record FillFailed {W : Type 0} (os : Os W) (d : Device) (s : Process W) (ret : ℕ)
    (s' : Process W) : Type 0 where
  pub want : List BarInfo
  pub wanted : Wanted os (device_dir os d s) (behind_link os d s) want
  pub failed : BarsFailed os (device_dir os d s) want s.fds s.maps ret s s'

abbrev pub FillPost : {W : Type 0} → Os W → Ptr → Device → Process W → ℕ → Process W → Type 0
FillPost os p d s ret s' = Filled os p d s ret s' ⊎ FillFailed os d s ret s'

module _ {W : Type 0} (os : Os W) {p : Ptr} {d : Device} {s : Process W} (holds : Holds p d s) where
  open os use {garbage}

  store_bars-Returns :
      (t : Process W)
      → Framed s t
      → t.world ≡ behind_link os d s
      → (r : Reply (List BarDesc × ℕ)) (u : Process W) → ReadPost os (device_dir os d s) t r u
      → Returns (FillPost os p d s) (store_bars os p d r u)
  unfolding store_bars write
  store_bars-Returns t f at (done (descs, n)) u (text, served, q) =
      let live : is_live (u.cells p) ≡ true = rw (q.rest.cells, f.cells, holds.cell) in
      rw (not_null holds, live, ◌>>=◌)
        (returns (
          inl (record {
            code = refl;
            text = text;
            served = subst (λ w. ResourceText os (device_dir os d s) w text) at served;
            files = q.files;
            descs = descs;
            count = n;
            infos = q.infos;
            six = q.six;
            at_most_six = q.count;
            mapped = q.mapped ∙ rw f.maps;
            stored = rw (q.rest.cells, f.cells);
            same_fds = q.same_fds ∙ f.fds;
            same_dirs = q.rest.dirs ∙ f.dirs;
            same_devices = q.rest.devices ∙ f.devices;
            same_count = q.rest.i_new_dev ∙ f.i_new_dev;
          })))
  store_bars-Returns t f at (fail e) u (want, wanted, q) = returns (
      inr (record {
        want = want;
        wanted = subst (λ w. Wanted os (device_dir os d s) w want) at wanted;
        failed = record {
          same_fds = q.same_fds ∙ f.fds;
          code = q.code;
          descs = q.descs;
          n = q.n;
          later = q.later;
          infos = q.infos;
          files = q.files;
          mapped = q.mapped ∙ rw f.maps;
          rest = SameRest-trans (Framed-SameRest f) q.rest;
        };
      }))

  fill_from :
      (dir : Text) (t : Process W)
      → Framed s t
      → t.world ≡ behind_link os d s
      → device_dir os d s ≡ dir
      → Returns (FillPost os p d s) ((read_bars os dir >>= store_bars os p d) t)
  fill_from dir t f at is_dir =
      Returns.bind (read_bars os dir) (store_bars os p d) t (read_bars-Returns os dir t) (
        subst
          (λ x.
            (r : Reply (List BarDesc × ℕ)) (u : Process W)
            → ReadPost os x t r u
            → Returns (FillPost os p d s) (store_bars os p d r u))
          is_dir (store_bars-Returns t f at))

  -- On a device with descriptions the call changes nothing.
  pub fill_device_bar_descriptions-filled :
      ltb 0 d.bar_count ≡ true → fill_device_bar_descriptions os p s ≡ some (success, s)
  unfolding fill_device_bar_descriptions
  fill_device_bar_descriptions-filled known =
      rw (not_null holds, read_device-Holds holds, ◌>>=◌, known)

  pub fill_device_bar_descriptions-Returns :
      d.bar_count ≡ 0
      → FitsLink os d.pci_slot s.world
      → Returns (FillPost os p d s) (fill_device_bar_descriptions os p s)
  unfolding fill_device_bar_descriptions crono_get_sys_devices_directory_path
  fill_device_bar_descriptions-Returns empty link =
      let read = os.readlink (construct_dev_slink_path d.pci_slot) s.world in
      let fresh : ltb 0 d.bar_count ≡ false = rw empty in
      rw (not_null holds, read_device-Holds holds, ◌>>=◌, fresh)
        (elim (Reply-cases read.0) [
          | inr (e, no_link) ↦
              rw (no_link, ◌>>=◌)
                (elim (Bool-cases (e == success)) [
                  | inl zero_code ↦
                      rw zero_code (fill_from [] _ (Framed-call s _ _) refl (ap dir_of no_link))
                  | inr code ↦ rw code (
                      returns (
                        inr (record {
                          want = [];
                          wanted = inl refl;
                          failed = record {
                            same_fds = refl;
                            code = inl refl;
                            descs = zero_bars;
                            n = 0;
                            later = [];
                            infos = refl;
                            files = tt;
                            mapped = regions-zero zero_bars _;
                            rest = SameRest-set s _ _ _ _;
                          };
                        })))
                ])
          | inl (text, is_link) ↦
              let (low, high) = link.fits text is_link in
              let long = kept_link text low high in
              rw (is_link, ◌>>=◌, long) (fill_from _ _ (Framed-call s _ _) refl (ap dir_of is_link))
        ])
