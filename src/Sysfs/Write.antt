-- ===== src/Sysfs/Write.antt =====
-- What `crono_write_config` of src/sysfs.cpp writes when the kernel takes the bytes in pieces of
-- any size.
use crono_pci_linux.Base.{
  ℕ, zero, suc, ◌+◌, ◌-◌, ◌%◌, ◌^◌, ◌≤◌, ◌<◌, ◌≡◌, refl, sym, ap, ◌∙◌, inl, inr, false, Option,
  List, [], ◌∷◌, ◌++◌, ltb, ◌==◌, min, length, take, drop, length-take, length-drop, take-nil,
  Bool-cases, ==-eq, arith,
}
use native.Mathlib.Nat.{mod-eq_of_lt}
use crono_pci_linux.Types.{PciSlot, success}
use crono_pci_linux.Format.{construct_config_file_path}
use crono_pci_linux.Os.{Access, done, Os, at_most_count, wronly}
use crono_pci_linux.Machine.{Process, pwrite, ◌>>=◌, open_file, close}
use crono_pci_linux.Machine.Returns
use crono_pci_linux.Machine.Returns.{Returns, returns, returned}
use crono_pci_linux.Machine.Frame.{Framed, Framed-refl, Framed-trans, Framed-call}
use crono_pci_linux.Sysfs.{write_loop, crono_write_config, assign}
use crono_pci_linux.Sysfs.Total.{close-Framed}

-- The content with some bytes in place of those from `offset` on.
unfoldable pub overwrite : List ℕ → ℕ → List ℕ → List ℕ
overwrite [] offset bs = []
overwrite (c ∷ content) zero [] = c ∷ content
overwrite (c ∷ content) zero (b ∷ bs) = b ∷ overwrite content zero bs
overwrite (c ∷ content) (suc offset) bs = c ∷ overwrite content offset bs

pub overwrite-nil : (content : List ℕ) (offset : ℕ) → overwrite content offset [] ≡ content
unfolding overwrite
overwrite-nil [] offset = refl
overwrite-nil (c ∷ content) zero = refl
overwrite-nil (c ∷ content) (suc offset) = ap (◌∷◌ c) (overwrite-nil content offset)

overwrite-overwrite :
    (content : List ℕ) (offset k : ℕ) (xs ys : List ℕ)
    → k ≡ offset + length xs
    → overwrite (overwrite content offset xs) k ys ≡ overwrite content offset (xs ++ ys)
unfolding overwrite
overwrite-overwrite [] offset k xs ys e = refl
overwrite-overwrite (c ∷ content) zero k [] ys e = let z : k ≡ 0 = omega arith in rw z
overwrite-overwrite (c ∷ content) zero zero (x ∷ xs) ys e = absurd (omega arith)
overwrite-overwrite (c ∷ content) zero (suc k) (x ∷ xs) ys e =
    ap (◌∷◌ x) (overwrite-overwrite content zero k xs ys (omega arith))
overwrite-overwrite (c ∷ content) (suc offset) zero xs ys e = absurd (omega arith)
overwrite-overwrite (c ∷ content) (suc offset) (suc k) xs ys e =
    ap (◌∷◌ c) (overwrite-overwrite content offset k xs ys (omega arith))

pub length-overwrite :
    (content : List ℕ) (offset : ℕ) (bs : List ℕ)
    → length (overwrite content offset bs) ≡ length content
unfolding overwrite
length-overwrite [] offset bs = refl
length-overwrite (c ∷ content) zero [] = refl
length-overwrite (c ∷ content) zero (b ∷ bs) = ap suc (length-overwrite content zero bs)
length-overwrite (c ∷ content) (suc offset) bs = ap suc (length-overwrite content offset bs)

take_parts :
    (r n : ℕ) (xs : List ℕ) → r ≤ n → take r (take n xs) ++ take (n - r) (drop r xs) ≡ take n xs
take_parts zero n xs h = ap (λ k. take k xs) (omega arith)
take_parts (suc r) zero xs h = absurd (omega arith)
take_parts (suc r) (suc n) [] h = take-nil (suc n - suc r)
take_parts (suc r) (suc n) (x ∷ xs) h = ap (◌∷◌ x) (
    ap (λ k. take r (take n xs) ++ take k (drop r xs)) (omega arith)
    ∙ take_parts r n xs (omega arith))

-- `pwrite` on `fd` stores some of the bytes given in the content of the file, and at least one
-- where all of them fit into it. Opening and closing files and `stat` do not change the content.
pub record Stores {W : Type 0} (os : Os W) (fd : ℕ) (file : W → List ℕ) : Type 0 where
  pub reply : List ℕ → ℕ → W → ℕ
  pub replies :
      (bs : List ℕ) (offset : ℕ) (w : W) → (os.pwrite fd bs offset w).0 ≡ done (reply bs offset w)
  pub at_most_given : (bs : List ℕ) (offset : ℕ) (w : W) → reply bs offset w ≤ length bs
  pub progress :
      (bs : List ℕ) (offset : ℕ) (w : W)
      → 0 < length bs
      → offset + length bs ≤ length (file w)
      → 0 < reply bs offset w
  pub stores :
      (bs : List ℕ) (offset : ℕ) (w : W)
      → file (os.pwrite fd bs offset w).1 ≡ overwrite (file w) offset (take (reply bs offset w) bs)
  pub opens : (path : List ℕ) (a : Access) (w : W) → file (os.open_file path a w).1 ≡ file w
  pub stats : (path : List ℕ) (w : W) → file (os.stat path w).1 ≡ file w
  pub closes : (w : W) → file (os.close fd w).1 ≡ file w

module _ {W : Type 0} (os : Os W) {fd : ℕ} {file : W → List ℕ} (store : Stores os fd file) where
  -- All bytes are written, and nothing else.
  abbrev Written : List ℕ → ℕ → Process W → ℕ × ℕ → Process W → Type 0
  Written bs offset s (err, left) s' =
      (err ≡ success)
      × (left ≡ 0)
      × (file s'.world ≡ overwrite (file s.world) offset bs)
      × Framed s s'

  Written-cons :
      (data_bytes : List ℕ) (n r offset k : ℕ) (s t : Process W)
      → r ≤ n
      → n ≤ length data_bytes
      → k ≡ offset + r
      → Framed s t
      → file t.world ≡ overwrite (file s.world) offset (take r (take n data_bytes))
      → (x : ℕ × ℕ) (u : Process W) → Written (take (n - r) (drop r data_bytes)) k t x u
      → Written (take n data_bytes) offset s x u
  Written-cons data_bytes n r offset k s t h room e f stored (err, left) u (ok, all, rest, g) = (
    ok,
    all,
    rest
        ∙ ap (λ c. overwrite c k (take (n - r) (drop r data_bytes))) stored
        ∙ overwrite-overwrite (file s.world) offset k _ _
            (omega (arith, length-take r (take n data_bytes), length-take n data_bytes))
        ∙ ap (overwrite (file s.world) offset) (take_parts r n data_bytes h),
    Framed-trans f g,
  )

  write_loop-Written :
      (k : ℕ) (data_bytes : List ℕ) (n offset : ℕ) (s : Process W)
      → n < k
      → n ≤ length data_bytes
      → offset + n ≤ length (file s.world)
      → offset + n < 2 ^ 64
      → Returns (Written (take n data_bytes) offset s) (write_loop os k fd data_bytes n offset s)
  unfolding write_loop pwrite
  write_loop-Written zero data_bytes n offset s fuel room inside small = absurd (omega arith)
  write_loop-Written (suc k) data_bytes n offset s fuel room inside small =
      let bs = take n data_bytes in
      let size : length bs ≡ n = omega (arith, length-take n data_bytes) in
      let r = store.reply bs offset s.world in
      let given : r ≤ n = omega (arith, size, store.at_most_given bs offset s.world) in
      let t : Process W = record s { world = (os.pwrite fd bs offset s.world).1 } in
      elim (Bool-cases (n == 0)) [
        | inl all ↦ rw all (
            returns (
              refl,
              ==-eq n 0 all,
              sym (
                  ap (λ m. overwrite (file s.world) offset (take m data_bytes)) (==-eq n 0 all)
                  ∙ overwrite-nil (file s.world) offset),
              Framed-refl s,
            ))
        | inr more ↦
            let within : ltb (length data_bytes) n ≡ false = ground arith in
            let some_ : 0 < r = store.progress bs offset s.world (ground arith) (omega arith) in
            let on : (r == 0) ≡ false = ground arith in
            let whole : min r (length bs) ≡ r = omega arith in
            let next : (offset + r) % 2 ^ 64 ≡ offset + r = mod-eq_of_lt (omega arith) in
            let longer : length (file t.world) ≡ length (file s.world) =
              ap length (store.stores bs offset s.world)
              ∙ length-overwrite (file s.world) offset (take r bs) in
            rw (more, within)
              (rw (store.replies bs offset s.world, ◌>>=◌, at_most_count, whole, on, next)
                (Returns.mono
                  (write_loop-Written k (drop r data_bytes) (n - r) (offset + r) t (omega arith)
                    (omega (arith, length-drop r data_bytes)) (omega arith) (omega arith))
                  (Written-cons data_bytes n r offset (offset + r) s t given room refl
                    (Framed-call s t.world s.errno) (store.stores bs offset s.world))))
      ]

  close-Stored :
      (fd' : ℕ) (s t : Process W) (w : W) (e : ℕ)
      → Framed (record s { world = w; errno = e; fds = fd' ∷ s.fds }) t
      → fd' ≡ fd
      → Returns (λ _ u. Framed s u × (file u.world ≡ file t.world)) (close os fd' t)
  unfolding close
  close-Stored fd' s t w e f same = returns (
    returned (close-Framed os fd' s t w e f),
    ap (λ n. file (os.close n t.world).1) same ∙ store.closes t.world,
  )

  -- `crono_write_config` succeeds and counts all bytes: the file then has the bytes given at the
  -- offset, and is as before elsewhere, if it opens and these bytes fit into it. Of the process
  -- only the world and `errno` change.
  pub crono_write_config-overwrite :
      (d : PciSlot) (data_ : List ℕ) (offset size : ℕ) (out : Option ℕ) (s : Process W)
      → (os.open_file (construct_config_file_path d) wronly s.world).0 ≡ done fd
      → size ≤ length data_
      → offset + size ≤ length (file s.world)
      → offset + size < 2 ^ 64
      → Returns
          (λ r u.
            (r ≡ (success, assign size out))
            × (file u.world ≡ overwrite (file s.world) offset (take size data_))
            × Framed s u)
          (crono_write_config os d data_ offset size out s)
  unfolding crono_write_config open_file
  crono_write_config-overwrite d data_ offset size out s opens room inside small =
      let opened = os.open_file (construct_config_file_path d) wronly s.world in
      let same = store.opens (construct_config_file_path d) wronly s.world in
      rw (opens, ◌>>=◌)
        (Returns.bind (write_loop os (suc size) fd data_ size offset) _ _
          (write_loop-Written (suc size) data_ size offset _ (omega arith) room
            (omega (arith, ap length same)) small)
          λ (err, left) t (ok, all, stored, f).
            Returns.bind (close os fd) _ t (close-Stored fd s t opened.1 s.errno f refl)
              λ _ u (g, kept).
                let counted : size - 0 ≡ size = omega arith in
                rw (ok, all, counted)
                  (returns
                    (refl, kept ∙ stored ∙ ap (λ c. overwrite c offset (take size data_)) same, g)))
