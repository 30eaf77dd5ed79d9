-- ===== src/Config/Refine.antt =====
-- Configuration accesses by a handle behave as the array of bytes that the file holds.
use crono_pci_linux.Base.{
  ℕ, ◌+◌, ◌^◌, ◌≤◌, ◌<◌, ◌≡◌, refl, sym, ap, ◌∙◌, inl, inr, Bool-cases, none, some, List, [], ◌∷◌,
  ◌++◌, ltb, length, take, drop, length-take, length-drop, append-nil, arith, subst,
}
use crono_pci_linux.Types.{Ptr, Device, success}
use crono_pci_linux.Format.{construct_config_file_path}
use crono_pci_linux.Os.{Os, Stat, Access, rdonly, wronly, done}
use crono_pci_linux.Machine.{Process, ◌>>=◌}
use crono_pci_linux.Machine.Frame.{Framed, Framed-call, Framed-refl, Framed-trans}
use crono_pci_linux.Machine.Returns
use crono_pci_linux.Machine.Returns.{Returns, returns}
use crono_pci_linux.Device.Handle.{IsHandle}
use crono_pci_linux.Sysfs.{from_bytes, to_bytes}
use crono_pci_linux.Sysfs.Slice.{ServesWhile}
use crono_pci_linux.Sysfs.Write.{Stores, length-overwrite}
use crono_pci_linux.Config.{pci_write_cfg32}
use crono_pci_linux.Config.Read.{pci_read_cfg32-word_while, pci_read_cfg32-range}
use crono_pci_linux.Config.Write.{pci_write_cfg32-overwrite, pci_write_cfg32-range}
use crono_pci_linux.Config.Space
use crono_pci_linux.Config.Space.{access, access_all, perform, perform_all}

-- The file at `path`, opened as `fd`, holds `file w` in the state `w`: `stat` gives its length,
-- `pread` and `pwrite` move some of the bytes asked for, and at least one where there are any, and
-- no other call changes the content.
pub record Backed {W : Type 0} (os : Os W) (path : List ℕ) (fd : ℕ) (file : W → List ℕ)
    : Type 0 where
  pub stores : Stores os fd file
  pub opens : (a : Access) (w : W) → (os.open_file path a w).0 ≡ done fd
  pub size_of : W → Stat
  pub sized : (w : W) → (os.stat path w).0 ≡ done (size_of w)
  pub size : (w : W) → (size_of w).size ≡ length (file w)
  pub reply : ℕ → ℕ → W → ℕ
  pub serves :
      (n offset : ℕ) (w : W)
      → (os.pread fd n offset w).0 ≡ done (take (reply n offset w) (drop offset (file w)))
  pub at_most_asked : (n offset : ℕ) (w : W) → reply n offset w ≤ n
  pub progress : (n offset : ℕ) (w : W) → 0 < n → offset < length (file w) → 0 < reply n offset w
  pub reads : (n offset : ℕ) (w : W) → file (os.pread fd n offset w).1 ≡ file w

module _ {W : Type 0} (os : Os W) {path : List ℕ} {fd : ℕ} {file : W → List ℕ}
    (b : Backed os path fd file) where
  while_content : (content : List ℕ) → ServesWhile os (λ w. file w ≡ content) fd content
  while_content content = record {
    reply = b.reply;
    serves = λ n offset w e.
        subst (λ c. (os.pread fd n offset w).0 ≡ done (take (b.reply n offset w) (drop offset c))) e
          (b.serves n offset w);
    at_most_asked = b.at_most_asked;
    progress = λ n offset w e more inside.
        b.progress n offset w more (subst (λ c. offset < length c) (sym e) inside);
    reads = λ n offset w e. b.reads n offset w ∙ e;
    opens = λ path w e. b.stores.opens path rdonly w ∙ e;
    closes = λ w e. b.stores.closes w ∙ e;
  }

-- What the library and the array give agree, and so do the bytes behind.
abbrev pub Agrees : {W A : Type 0} → (W → List ℕ) → A × List ℕ → Process W → A → Process W → Type 0
Agrees file expected s out u = (out ≡ expected.0) × (file u.world ≡ expected.1) × Framed s u

-- A word of four bytes takes nothing of the old value.
four_bytes :
    (old offset : ℕ) (content : List ℕ)
    → offset + 4 ≤ length content
    → let got = take 4 (drop offset content) in got ++ drop (length got) (to_bytes 4 old) ≡ got
unfolding to_bytes
four_bytes old offset content inside =
    let four : length (take 4 (drop offset content)) ≡ 4 =
      omega (arith, length-take 4 (drop offset content), length-drop offset content) in
    rw four (append-nil _)

-- No access changes the number of bytes.
length-access : (a : Space.Access) (bytes : List ℕ) → length (access a bytes).1 ≡ length bytes
unfolding access
length-access (Space.Access.read offset old) bytes =
    elim (Bool-cases (ltb (length bytes) (offset + 4))) [
      | inl out ↦ rw out refl
      | inr within ↦ rw within refl
    ]
length-access (Space.Access.write offset val) bytes =
    elim (Bool-cases (ltb (length bytes) (offset + 4))) [
      | inl out ↦ rw out refl
      | inr within ↦ rw within (length-overwrite bytes offset (to_bytes 4 val))
    ]

module _ {W : Type 0} (os : Os W) {h : Ptr} {d : Device} {fd : ℕ} {file : W → List ℕ}
    (b : Backed os (construct_config_file_path d.pci_slot) fd file) where
  perform-access :
      (a : Space.Access) (s : Process W)
      → IsHandle h d s
      → length (file s.world) < 2 ^ 64
      → Returns (Agrees file (access a (file s.world)) s) (perform os h a s)
  unfolding perform access
  perform-access (Space.Access.read offset old) s v small =
      let path = construct_config_file_path d.pci_slot in
      let w = (os.stat path s.world).1 in
      let same = b.stores.stats path s.world in
      let size = b.size s.world in
      elim (Bool-cases (ltb (length (file s.world)) (offset + 4))) [
        | inl out ↦
            rw (out, pci_read_cfg32-range os v (b.sized s.world) offset old (ground arith))
              (returns (refl, same, Framed-call s w s.errno))
        | inr within ↦ rw within (
            Returns.mono
              (pci_read_cfg32-word_while os v (b.sized s.world) (file s.world) fd offset old
                (while_content os b (file s.world)) same small (b.opens rdonly w) (ground arith))
              λ r u (is, f, kept). (
                is
                    ∙ ap (λ c. (success, some (from_bytes c)))
                        (four_bytes old offset (file s.world) (ground arith)),
                kept,
                f,
              ))
      ]
  perform-access (Space.Access.write offset val) s v small =
      let path = construct_config_file_path d.pci_slot in
      let w = (os.stat path s.world).1 in
      let size = b.size s.world in
      elim (Bool-cases (ltb (length (file s.world)) (offset + 4))) [
        | inl out ↦
            rw (out, pci_write_cfg32-range os v (b.sized s.world) offset val (ground arith), ◌>>=◌)
              (returns (refl, b.stores.stats path s.world, Framed-call s w s.errno))
        | inr within ↦ rw within (
            Returns.bind (pci_write_cfg32 os h offset val) _ s
              (pci_write_cfg32-overwrite os v (b.sized s.world) offset val b.stores
                (b.opens wronly w) size (rw size small) (ground arith))
              λ ret u (ok, stored, f). returns (ap (λ r. (r, none)) ok, stored, f))
      ]

  kept : {s u : Process W} → Framed s u → IsHandle h d s → IsHandle h d u
  kept f v = record {
    holds = record { ne_null = v.holds.ne_null; cell = ap (λ c. c h) f.cells ∙ v.holds.cell };
    has_id = v.has_id;
  }

  -- Any sequence of configuration reads and writes by a handle, at any offsets, gives the codes and
  -- values of the same accesses to the array of bytes that the file holds, and the file then holds
  -- that array. Of the process only the world and `errno` change.
  pub perform_all-access_all :
      (accesses : List Space.Access) (s : Process W)
      → IsHandle h d s
      → length (file s.world) < 2 ^ 64
      → Returns (Agrees file (access_all accesses (file s.world)) s) (perform_all os h accesses s)
  unfolding perform_all access_all
  perform_all-access_all [] s v small = returns (refl, refl, Framed-refl s)
  perform_all-access_all (a ∷ more) s v small =
      Returns.bind (perform os h a) _ s (perform-access a s v small) λ out t (is, bytes, f).
        Returns.bind (perform_all os h more) _ t
          (perform_all-access_all more t (kept f v)
            (omega (arith, ap length bytes, length-access a (file s.world))))
          λ outs u (are, bytes', g). returns (
            ap (λ o. o ∷ outs) is
                ∙ ap (λ rest. (access a (file s.world)).0 ∷ rest)
                    (are ∙ ap (λ c. (access_all more c).0) bytes),
            bytes' ∙ ap (λ c. (access_all more c).1) bytes,
            Framed-trans f g,
          )
