-- ===== src/Bars/Read.antt =====
-- The part of `fill_device_bar_descriptions` that reads the `resource` file of a directory.
use crono_pci_linux.Base.{
  ℕ, ◌≡◌, refl, ◌∙◌, inl, inr, ◌⊎◌, true, List, [], ◌∷◌, ◌++◌, ap, ==-refl, codes, arith,
}
use crono_pci_linux.Types.{Text, BarDesc, zero_bars}
use crono_pci_linux.Format.{Stream}
use crono_pci_linux.Os.{Reply, done, fail, Os, drop_fd, rdonly}
use crono_pci_linux.Machine.{Process, ◌>>=◌, open_file, close}
use crono_pci_linux.Machine.Returns
use crono_pci_linux.Machine.Returns.{Returns, returns}
use crono_pci_linux.Machine.Frame.{SameRest, SameRest-set, SameRest-trans, Reply-cases}
use crono_pci_linux.Bars.{finish_bars, bar_error, bar_loop, read_bars}
use crono_pci_linux.Bars.Found.{BarInfo, lines, present, regions, regions-zero}
use crono_pci_linux.Bars.Loop.{BarsFound, BarsFailed, LoopPost, bar_loop-Returns}

abbrev pub opened_stream : Text → Stream
opened_stream text = record { rest = text; good = true }

-- The text of the `resource` file of the directory `dir`, which is opened in the state `w`.
abbrev pub ResourceText : {W : Type 0} → Os W → Text → W → Text → Type 0
ResourceText os dir w text =
    (os.open_stream (dir ++ codes "/resource")
      (os.open_file (dir ++ codes "/resource") rdonly w).1).0
    ≡ done text

-- The BARs that the text of a `resource` file names.
abbrev pub named_bars : {W : Type 0} → Os W → Text → List BarInfo
named_bars os text = present 0 (lines os.garbage 6 (opened_stream text))

-- The BARs that the file names, or none, when it was not read.
abbrev pub Wanted : {W : Type 0} → Os W → Text → W → List BarInfo → Type 0
Wanted os dir w want =
    (want ≡ []) ⊎ ((text : Text) × ResourceText os dir w text × (want ≡ named_bars os text))

-- The BARs of the `resource` file are found, or the call failed.
abbrev pub ReadPost :
    {W : Type 0} → Os W → Text → Process W → Reply (List BarDesc × ℕ) → Process W → Type 0
ReadPost os dir s (done (descs, n)) s' =
    (text : Text) × ResourceText os dir s.world text
    × BarsFound os dir (named_bars os text) s.maps s descs n s'
ReadPost os dir s (fail e) s' =
    (want : List BarInfo) × Wanted os dir s.world want × BarsFailed os dir want s.fds s.maps e s s'

module _ {W : Type 0} (os : Os W) where
  open os use {garbage}

  finish_bars-Returns :
      (dir text : Text) (fd : ℕ) (s t : Process W)
      → ResourceText os dir s.world text
      → t.fds ≡ fd ∷ s.fds
      → t.maps ≡ s.maps
      → SameRest s t
      → (r : Reply (List BarDesc × ℕ)) (u : Process W)
      → LoopPost os dir (named_bars os text) s.maps (drop_fd fd t.fds) t r u
      → Returns (ReadPost os dir s) (finish_bars os fd r u)
  unfolding finish_bars close
  finish_bars-Returns dir text fd s t served opened maps rest (done (descs, n)) u p = returns (
    text,
    served,
    record {
      same_fds = rw (p.same_fds, opened) (rw ==-refl);
      mapped = p.mapped;
      infos = p.infos;
      files = p.files;
      six = p.six;
      count = p.count;
      rest = SameRest-trans rest (SameRest-trans p.rest (SameRest-set u _ _ _ _));
    },
  )
  finish_bars-Returns dir text fd s t served opened maps rest (fail e) u p = returns (
    named_bars os text,
    inr (text, served, refl),
    record {
      same_fds = p.same_fds ∙ rw opened (rw ==-refl);
      code = p.code;
      descs = p.descs;
      n = p.n;
      later = p.later;
      infos = p.infos;
      files = p.files;
      mapped = p.mapped ∙ ap (λ xs. regions p.n p.descs ++ xs) refl;
      rest = SameRest-trans rest p.rest;
    },
  )

  pub read_bars-Returns :
      (dir : Text) (s : Process W) → Returns (ReadPost os dir s) (read_bars os dir s)
  unfolding read_bars bar_error open_file close
  read_bars-Returns dir s =
      let opened = os.open_file (dir ++ codes "/resource") rdonly s.world in
      elim (Reply-cases opened.0) [
        | inr (e, no_file) ↦
            rw (no_file, ◌>>=◌)
              (returns (
                [],
                inl refl,
                record {
                  same_fds = refl;
                  code = inl refl;
                  descs = zero_bars;
                  n = 0;
                  later = [];
                  infos = refl;
                  files = tt;
                  mapped = regions-zero zero_bars _;
                  rest = SameRest-set s _ _ _ _;
                },
              ))
        | inl (fd, file) ↦
            rw (file, ◌>>=◌)
              (let stream = os.open_stream (dir ++ codes "/resource") opened.1 in
                elim (Reply-cases stream.0) [
                  | inr (e, no_stream) ↦
                      rw (no_stream, ◌>>=◌)
                        (returns (
                          [],
                          inl refl,
                          record {
                            same_fds = rw ==-refl;
                            code = inr refl;
                            descs = zero_bars;
                            n = 0;
                            later = [];
                            infos = refl;
                            files = tt;
                            mapped = regions-zero zero_bars _;
                            rest = SameRest-set s _ _ _ _;
                          },
                        ))
                  | inl (text, is_open) ↦
                      rw (is_open, ◌>>=◌)
                        (Returns.bind (bar_loop os 6 0 dir fd (opened_stream text) zero_bars 0) _ _
                          (bar_loop-Returns os 6 0 dir fd (opened_stream text) zero_bars 0 _ s.maps
                            _ (regions-zero zero_bars s.maps) refl (omega arith) refl tt)
                          (finish_bars-Returns dir text fd s _ is_open refl refl
                            (SameRest-set s _ _ _ _)))
                ])
      ]
