-- ===== src/Sysfs/Slice.antt =====
-- What `crono_read_config` reads when the kernel serves the file in pieces of any size.
use crono_pci_linux.Base.{
  ℕ, zero, suc, ◌+◌, ◌-◌, ◌%◌, ◌^◌, ◌≤◌, ◌<◌, ◌≡◌, refl, ◌∙◌, ap, inl, inr, false, Option, List, [],
  ◌∷◌, ◌++◌, ltb, ◌==◌, length, take, drop, length-append, length-take, length-drop, take-take,
  take-split, drop-drop, take-nil, nil_of_length, append_assoc, Bool-cases, ==-eq, arith,
}
use native.Mathlib.Nat.{mod-eq_of_lt}
use crono_pci_linux.Types.{PciSlot, success}
use crono_pci_linux.Format.{construct_config_file_path}
use crono_pci_linux.Os.{done, Os, at_most, rdonly}
use crono_pci_linux.Machine.{Process, pread, ◌>>=◌, open_file, close}
use crono_pci_linux.Machine.Returns
use crono_pci_linux.Machine.Returns.{Returns, returns, returned}
use crono_pci_linux.Sysfs.{read_loop, crono_read_config, assign}
use crono_pci_linux.Machine.Frame.{Framed, Framed-refl, Framed-trans, Framed-call}
use crono_pci_linux.Sysfs.Total.{close-Framed}

-- `pread` on `fd` serves the bytes of `content`: some of those asked for, and none only behind
-- the end.
pub record Serves {W : Type 0} (os : Os W) (fd : ℕ) (content : List ℕ) : Type 0 where
  pub reply : ℕ → ℕ → W → ℕ
  pub serves :
      (n offset : ℕ) (w : W)
      → (os.pread fd n offset w).0 ≡ done (take (reply n offset w) (drop offset content))
  pub at_most_asked : (n offset : ℕ) (w : W) → reply n offset w ≤ n
  pub progress : (n offset : ℕ) (w : W) → 0 < n → offset < length content → 0 < reply n offset w

-- The same in the states of the system that have `Q`, in which the file is open, and which reading
-- keeps.
pub record ServedIn {W : Type 0} (os : Os W) (Q : W → Type 0) (fd : ℕ) (content : List ℕ)
    : Type 0 where
  pub reply : ℕ → ℕ → W → ℕ
  pub serves :
      (n offset : ℕ) (w : W)
      → Q w
      → (os.pread fd n offset w).0 ≡ done (take (reply n offset w) (drop offset content))
  pub at_most_asked : (n offset : ℕ) (w : W) → reply n offset w ≤ n
  pub progress :
      (n offset : ℕ) (w : W) → Q w → 0 < n → offset < length content → 0 < reply n offset w
  pub reads : (n offset : ℕ) (w : W) → Q w → Q (os.pread fd n offset w).1

-- The same in the states of the system that have `P`, which opening, reading and closing keep.
pub record ServesWhile {W : Type 0} (os : Os W) (P : W → Type 0) (fd : ℕ) (content : List ℕ)
    : Type 0 where
  pub reply : ℕ → ℕ → W → ℕ
  pub serves :
      (n offset : ℕ) (w : W)
      → P w
      → (os.pread fd n offset w).0 ≡ done (take (reply n offset w) (drop offset content))
  pub at_most_asked : (n offset : ℕ) (w : W) → reply n offset w ≤ n
  pub progress :
      (n offset : ℕ) (w : W) → P w → 0 < n → offset < length content → 0 < reply n offset w
  pub reads : (n offset : ℕ) (w : W) → P w → P (os.pread fd n offset w).1
  pub opens : (path : List ℕ) (w : W) → P w → P (os.open_file path rdonly w).1
  pub closes : (w : W) → P w → P (os.close fd w).1

pub always :
    {W : Type 0} {os : Os W} {fd : ℕ} {content : List ℕ}
    → Serves os fd content
    → ServesWhile os (λ _. Unit {0}) fd content
always file = record {
  reply = file.reply;
  serves = λ n offset w _. file.serves n offset w;
  at_most_asked = file.at_most_asked;
  progress = λ n offset w _. file.progress n offset w;
  reads = λ n offset w _. tt;
  opens = λ path w _. tt;
  closes = λ w _. tt;
}

served_in :
    {W : Type 0} {os : Os W} {P : W → Type 0} {fd : ℕ} {content : List ℕ}
    → ServesWhile os P fd content
    → ServedIn os P fd content
served_in file = record {
  reply = file.reply;
  serves = file.serves;
  at_most_asked = file.at_most_asked;
  progress = file.progress;
  reads = file.reads;
}

module _ {W : Type 0} where
  -- The loop's result for the bytes `got`.
  abbrev Sliced :
      (W → Type 0) → List ℕ → List ℕ → ℕ → List ℕ → Process W → ℕ × List ℕ × ℕ → Process W → Type 0
  Sliced P front data_bytes temp_size got s (err, buf, left) s' =
      (err ≡ success)
      × (buf ≡ front ++ (got ++ drop (length got) data_bytes))
      × (left ≡ temp_size - length got)
      × Framed s s'
      × P s'.world

  -- The result of reading the bytes `got` into `data_`.
  abbrev pub ReadBytes :
      List ℕ → List ℕ → Option ℕ → Process W → ℕ × List ℕ × Option ℕ → Process W → Type 0
  ReadBytes got data_ out s (err, buf, bytes_read) s' =
      (err ≡ success)
      × (buf ≡ got ++ drop (length got) data_)
      × (bytes_read ≡ assign (length got) out)
      × Framed s s'

module _ {W : Type 0} (os : Os W) {P : W → Type 0} {fd : ℕ} {content : List ℕ}
    (file : ServedIn os P fd content) (short : length content < 2 ^ 64) where
  -- The bytes of the file from `offset` on, as many as asked for and there.
  abbrev slice : ℕ → ℕ → List ℕ
  slice offset size = take size (drop offset content)

  -- An empty piece means that nothing of the file is left.
  slice_end :
      (n offset : ℕ) (w : W)
      → P w
      → 0 < n
      → length (take (file.reply n offset w) (drop offset content)) ≡ 0
      → slice offset n ≡ []
  slice_end n offset w there more none_ =
      let left : length (drop offset content) ≡ 0 = grind (
        arith,
        length-take (file.reply n offset w) (drop offset content),
        length-drop offset content,
        file.progress n offset w there,
      ) in
      rw (nil_of_length (drop offset content) left) (take-nil n)

  -- A piece, and what the loop reads behind it.
  slice_step :
      (n r offset : ℕ)
      → length (take r (drop offset content)) ≤ n
      → let got = take r (drop offset content) in
        slice offset n ≡ got ++ slice (offset + length got) (n - length got)
  slice_step n r offset h =
      let got = take r (drop offset content) in
      take-split n r (n - length got) (drop offset content) (omega arith)
      ∙ ap (λ xs. got ++ take (n - length got) xs) (drop-drop (length got) offset content)

  inside :
      (r offset : ℕ)
      → 0 < length (take r (drop offset content))
      → offset + length (take r (drop offset content)) < 2 ^ 64
  inside r offset h =
      omega (arith, short, length-take r (drop offset content), length-drop offset content)

  Sliced-nil :
      (front data_bytes : List ℕ) (temp_size : ℕ) (got : List ℕ) (s s' : Process W)
      → got ≡ []
      → Framed s s'
      → P s'.world
      → Sliced P front data_bytes temp_size got s (success, front ++ data_bytes, temp_size) s'
  Sliced-nil front data_bytes temp_size got s s' e f there =
      rw e (refl, refl, omega arith, f, there)

  -- The result for the file behind a piece, put together with the piece.
  Sliced-cons :
      (front data_bytes : List ℕ) (temp_size : ℕ) (got rest : List ℕ) (s t : Process W)
      → Framed s t
      → (r : ℕ × List ℕ × ℕ) (u : Process W)
      → Sliced P (front ++ got) (drop (length got) data_bytes) (temp_size - length got) rest t r u
      → Sliced P front data_bytes temp_size (got ++ rest) s r u
  Sliced-cons front data_bytes temp_size got rest s t f r u (ok, buf, left, g, there) = (
    ok,
    buf ∙ simp (append_assoc, drop-drop, length-append),
    omega (arith, left, length-append got rest),
    Framed-trans f g,
    there,
  )

  read_loop-Sliced :
      (k : ℕ) (front data_bytes : List ℕ) (temp_size offset : ℕ) (s : Process W)
      → temp_size < k
      → temp_size ≤ length data_bytes
      → P s.world
      → Returns
          (Sliced P front data_bytes temp_size (slice offset temp_size) s)
          (read_loop os k fd front data_bytes temp_size offset s)
  unfolding read_loop pread
  read_loop-Sliced zero front data_bytes temp_size offset s fuel room there = absurd (omega arith)
  read_loop-Sliced (suc k) front data_bytes temp_size offset s fuel room there =
      let r = file.reply temp_size offset s.world in
      let got = take r (drop offset content) in
      let fits : length got ≤ temp_size =
        omega (
          arith,
          length-take r (drop offset content),
          file.at_most_asked temp_size offset s.world,
        ) in
      let t = record s { world = (os.pread fd temp_size offset s.world).1 } in
      let moved = Framed-call s t.world s.errno in
      let moved_there = file.reads temp_size offset s.world there in
      elim (Bool-cases (temp_size == 0)) [
        | inl all ↦ rw all (
            returns (
              Sliced-nil front data_bytes temp_size (slice offset temp_size) s s
                (ap (λ n. slice offset n) (==-eq temp_size 0 all)) (Framed-refl s) there))
        | inr more ↦ rw more (
            rw
              (
                file.serves temp_size offset s.world there,
                ◌>>=◌,
                at_most,
                take-take temp_size r (drop offset content)
                    (file.at_most_asked temp_size offset s.world),
              )
              (elim (Bool-cases (length got == 0)) [
                | inl stop ↦ rw stop (
                    returns (
                      Sliced-nil front data_bytes temp_size (slice offset temp_size) s t
                        (slice_end temp_size offset s.world there (ground arith) (==-eq _ 0 stop))
                        moved moved_there))
                | inr on ↦
                    let within : ltb (length data_bytes) (length got) ≡ false = ground arith in
                    let small : (offset + length got) % 2 ^ 64 ≡ offset + length got =
                      mod-eq_of_lt (inside r offset (ground arith)) in
                    rw (on, within, small, slice_step temp_size r offset fits)
                      (Returns.mono
                        (read_loop-Sliced k (front ++ got) (drop (length got) data_bytes)
                          (temp_size - length got) (offset + length got) t (ground arith)
                          (omega (arith, length-drop (length got) data_bytes)) moved_there)
                        (Sliced-cons front data_bytes temp_size got
                          (slice (offset + length got) (temp_size - length got)) s t moved))
              ]))
      ]

  close-Kept :
      (R : W → Type 0) (closes : (w : W) → P w → R (os.close fd w).1) (s t : Process W) (w : W)
      (e : ℕ)
      → Framed (record s { world = w; errno = e; fds = fd ∷ s.fds }) t
      → P t.world
      → Returns (λ _ u. Framed s u × R u.world) (close os fd t)
  unfolding close
  close-Kept R closes s t w e f there =
      returns (returned (close-Framed os fd s t w e f), closes t.world there)

  -- `crono_read_config` when opening leads to a state with `P`, and closing from there to one with
  -- `R`.
  pub crono_read_config-slice_in :
      (R : W → Type 0) (closes : (w : W) → P w → R (os.close fd w).1) (d : PciSlot) (data_ : List ℕ)
      (offset size : ℕ) (out : Option ℕ) (s : Process W)
      → P (os.open_file (construct_config_file_path d) rdonly s.world).1
      → (os.open_file (construct_config_file_path d) rdonly s.world).0 ≡ done fd
      → size ≤ length data_
      → Returns
          (λ r u. ReadBytes (take size (drop offset content)) data_ out s r u × R u.world)
          (crono_read_config os d data_ offset size out s)
  unfolding crono_read_config open_file
  crono_read_config-slice_in R closes d data_ offset size out s there opens room =
      let opened = os.open_file (construct_config_file_path d) rdonly s.world in
      let got = take size (drop offset content) in
      rw (opens, ◌>>=◌)
        (Returns.bind (read_loop os (suc size) fd [] data_ size offset) _ _
          (read_loop-Sliced (suc size) [] data_ size offset _ (omega arith) room there)
          λ (err, buf, left) t (ok, same, rest, f, kept).
            Returns.bind (close os fd) _ t (close-Kept R closes s t opened.1 s.errno f kept)
              λ _ u (g, kept'). returns (
                (
                  ok,
                  same,
                  ap (λ n. assign n out)
                      (omega (arith, rest, length-take size (drop offset content))),
                  g,
                ),
                kept',
              ))

module _ {W : Type 0} (os : Os W) {P : W → Type 0} {fd : ℕ} {content : List ℕ}
    (file : ServesWhile os P fd content) (short : length content < 2 ^ 64) where
  -- `crono_read_config` in a state with `P`, which it keeps.
  pub crono_read_config-slice_while :
      (d : PciSlot) (data_ : List ℕ) (offset size : ℕ) (out : Option ℕ) (s : Process W)
      → P s.world
      → (os.open_file (construct_config_file_path d) rdonly s.world).0 ≡ done fd
      → size ≤ length data_
      → Returns
          (λ r u. ReadBytes (take size (drop offset content)) data_ out s r u × P u.world)
          (crono_read_config os d data_ offset size out s)
  crono_read_config-slice_while d data_ offset size out s there =
      crono_read_config-slice_in os (served_in file) short P file.closes d data_ offset size out s
        (file.opens (construct_config_file_path d) s.world there)

module _ {W : Type 0} (os : Os W) {fd : ℕ} {content : List ℕ} (file : Serves os fd content)
    (short : length content < 2 ^ 64) where
  -- `crono_read_config` reads the bytes of the file from `offset` on, as many of the `size` as the
  -- file has.
  pub crono_read_config-slice :
      (d : PciSlot) (data_ : List ℕ) (offset size : ℕ) (out : Option ℕ) (s : Process W)
      → (os.open_file (construct_config_file_path d) rdonly s.world).0 ≡ done fd
      → size ≤ length data_
      → Returns
          (ReadBytes (take size (drop offset content)) data_ out s)
          (crono_read_config os d data_ offset size out s)
  crono_read_config-slice d data_ offset size out s opens room =
      Returns.mono
        (crono_read_config-slice_while os (always file) short d data_ offset size out s tt opens
          room)
        λ r u post. post.0
