-- ===== src/Bars/Loop.antt =====
-- The loop of `fill_device_bar_descriptions` over the lines of the file.
use crono_pci_linux.Base.{
  ℕ, zero, suc, ◌+◌, ◌≤◌, ◌<◌, ◌≡◌, refl, sym, ap, ◌∙◌, ◌⊎◌, inl, inr, false, List, [], ◌∷◌, ◌++◌,
  map, length, set, take, length-set, append_assoc, append-nil, Bool-cases, ==-refl, codes, arith,
}
use crono_pci_linux.Types.{Text, BarDesc, minus, einval}
use crono_pci_linux.Format.{Stream, print_dec}
use crono_pci_linux.Os.{Reply, done, fail, Os, drop_fd, errno_after, rdwr}
use crono_pci_linux.Machine.{Process, ◌>>=◌, open_file, close, mmap}
use crono_pci_linux.Machine.Returns
use crono_pci_linux.Machine.Returns.{Returns, returns}
use crono_pci_linux.Machine.Frame.{
  SameRest, SameRest-refl, SameRest-set, SameRest-trans, Reply-cases,
}
use crono_pci_linux.Bars.{read_line, is_absent, bar_length, bar_desc, bar_error, bar_loop}
use crono_pci_linux.Bars.Found.{
  BarInfo, info, lines, present, present_absent, present_there, regions, regions-set, infos-set,
  AllMapped, AllMapped-set,
}

-- The BARs in `want` are described by the first `n` entries and mapped on top of `maps`, each from
-- its own file.
pub record BarsFound {W : Type 0} (os : Os W) (dir : Text) (want : List BarInfo)
    (maps : List (ℕ × ℕ)) (s : Process W) (descs : List BarDesc) (n : ℕ) (s' : Process W)
    : Type 0 where
  pub same_fds : s'.fds ≡ s.fds
  pub mapped : s'.maps ≡ regions n descs ++ maps
  pub infos : map info (take n descs) ≡ want
  pub files : AllMapped os dir (take n descs)
  pub six : length descs ≡ 6
  pub count : n ≤ 6
  pub rest : SameRest s s'

-- After a failure the descriptors are `fds`, and the code is `errno`, or -EINVAL. The BARs that
-- were mapped before it, the first `n` of `want`, stay mapped on top of `maps`, and nothing else
-- does.
pub record BarsFailed {W : Type 0} (os : Os W) (dir : Text) (want : List BarInfo) (fds : List ℕ)
    (maps : List (ℕ × ℕ)) (e : ℕ) (s s' : Process W) : Type 0 where
  pub code : (e ≡ s'.errno) ⊎ (e ≡ minus einval)
  pub same_fds : s'.fds ≡ fds
  pub descs : List BarDesc
  pub n : ℕ
  pub later : List BarInfo
  pub infos : map info (take n descs) ++ later ≡ want
  pub files : AllMapped os dir (take n descs)
  pub mapped : s'.maps ≡ regions n descs ++ maps
  pub rest : SameRest s s'

abbrev pub LoopPost :
    {W : Type 0}
    → Os W
    → Text
    → List BarInfo
    → List (ℕ × ℕ)
    → List ℕ
    → Process W
    → Reply (List BarDesc × ℕ)
    → Process W
    → Type 0
LoopPost os dir want maps fds s (done (descs, n)) s' = BarsFound os dir want maps s descs n s'
LoopPost os dir want maps fds s (fail e) s' = BarsFailed os dir want fds maps e s s'

module _ {W : Type 0} (os : Os W) where
  open os use {garbage}

  -- A step that keeps the descriptors, and then the rest of the loop.
  after_step :
      (dir : Text) (want : List BarInfo) (maps : List (ℕ × ℕ)) (fd : ℕ) (s t : Process W)
      → t.fds ≡ s.fds
      → SameRest s t
      → (r : Reply (List BarDesc × ℕ)) (u : Process W)
      → LoopPost os dir want maps (drop_fd fd t.fds) t r u
      → LoopPost os dir want maps (drop_fd fd s.fds) s r u
  after_step dir want maps fd s t same rest (done (descs, n)) u p = record {
    same_fds = p.same_fds ∙ same;
    mapped = p.mapped;
    infos = p.infos;
    files = p.files;
    six = p.six;
    count = p.count;
    rest = SameRest-trans rest p.rest;
  }
  after_step dir want maps fd s t same rest (fail e) u p = record {
    same_fds = p.same_fds ∙ ap (drop_fd fd) same;
    code = p.code;
    descs = p.descs;
    n = p.n;
    later = p.later;
    infos = p.infos;
    files = p.files;
    mapped = p.mapped;
    rest = SameRest-trans rest p.rest;
  }

  want_there :
      (ibar n : ℕ) (descs : List BarDesc) (stream : Stream) (rounds a : ℕ) (want : List BarInfo)
      → is_absent (read_line garbage stream).1 ≡ false
      → map info (take n descs) ++ present ibar (lines garbage (suc rounds) stream) ≡ want
      → (map info (take n descs) ++ info (bar_desc ibar (read_line garbage stream).1 a) ∷ [])
          ++ present (ibar + 1) (lines garbage rounds (read_line garbage stream).0)
        ≡ want
  unfolding lines
  want_there ibar n descs stream rounds a want there w =
      append_assoc (map info (take n descs)) (_ ∷ []) _
      ∙ ap (λ xs. map info (take n descs) ++ xs) (sym (present_there ibar _ _ a there))
      ∙ w

  pub bar_loop-Returns :
      (rounds ibar : ℕ) (dir : Text) (fd : ℕ) (stream : Stream) (descs : List BarDesc) (n : ℕ)
      (s : Process W) (maps : List (ℕ × ℕ)) (want : List BarInfo)
      → s.maps ≡ regions n descs ++ maps
      → length descs ≡ 6
      → n + rounds ≤ 6
      → map info (take n descs) ++ present ibar (lines garbage rounds stream) ≡ want
      → AllMapped os dir (take n descs)
      → Returns
          (LoopPost os dir want maps (drop_fd fd s.fds) s)
          (bar_loop os rounds ibar dir fd stream descs n s)
  unfolding bar_loop open_file mmap close bar_error
  bar_loop-Returns zero ibar dir fd stream descs n s maps want m six room w files =
      returns (record {
        same_fds = refl;
        mapped = m;
        infos = unfold lines present in (sym (append-nil _) ∙ w);
        files = files;
        six = six;
        count = omega arith;
        rest = SameRest-refl s;
      })
  bar_loop-Returns (suc rounds) ibar dir fd stream descs n s maps want m six room w files =
      let l = (read_line garbage stream).1 in
      let next = (read_line garbage stream).0 in
      elim (Bool-cases (is_absent l)) [
        | inl absent ↦
            rw (absent, bar_loop)
              (bar_loop-Returns rounds (ibar + 1) dir fd next descs n s maps want m six
                (omega arith)
                (ap (λ xs. map info (take n descs) ++ xs) (sym (present_absent ibar l _ absent))
                  ∙ unfold lines in w)
                files)
        | inr there ↦
            let opened = os.open_file ((dir ++ codes "/resource") ++ print_dec ibar) rdwr s.world in
            rw (there, bar_loop)
              (elim (Reply-cases opened.0) [
                | inr (e, no_file) ↦
                    rw (no_file, ◌>>=◌)
                      (returns (record {
                        same_fds = refl;
                        code = inl refl;
                        descs = descs;
                        n = n;
                        later = present ibar (lines garbage (suc rounds) stream);
                        infos = w;
                        files = files;
                        mapped = m;
                        rest = SameRest-set s _ _ _ _;
                      }))
                | inl (bar_fd, file) ↦
                    rw (file, ◌>>=◌)
                      (let mapping = os.mmap (bar_length l) bar_fd 0 opened.1 in
                        elim (Reply-cases mapping.0) [
                          | inr (e, no_map) ↦
                              rw (no_map, ◌>>=◌)
                                (returns (record {
                                  same_fds = rw ==-refl;
                                  code = inl refl;
                                  descs = descs;
                                  n = n;
                                  later = present ibar (lines garbage (suc rounds) stream);
                                  infos = w;
                                  files = files;
                                  mapped = m;
                                  rest = SameRest-set s _ _ _ _;
                                }))
                          | inl (a, map_) ↦
                              rw (map_, ◌>>=◌)
                                (let b = bar_desc ibar l a in
                                  let room' : n < length descs = omega arith in
                                  let t : Process W = record s {
                                    world = (os.close bar_fd mapping.1).1;
                                    errno = errno_after (os.close bar_fd mapping.1).0 s.errno;
                                    fds = drop_fd bar_fd (bar_fd ∷ s.fds);
                                    maps = (a, bar_length l) ∷ s.maps;
                                  } in
                                  Returns.mono
                                    (bar_loop-Returns rounds (ibar + 1) dir fd next (set descs n b)
                                      (n + 1) t maps want
                                      (rw (regions-set n descs b room')
                                        (ap (◌∷◌ (a, bar_length l)) m))
                                      (length-set descs n b ∙ six) (omega arith)
                                      (rw (infos-set n descs b room')
                                        (want_there ibar n descs stream rounds a want there w))
                                      (AllMapped-set os dir n descs b room' files (record {
                                        world = s.world;
                                        fd = bar_fd;
                                        file = file;
                                        region = map_;
                                      })))
                                    (after_step dir want maps fd s t (rw ==-refl)
                                      (SameRest-set s _ _ _ _)))
                        ])
              ])
      ]
