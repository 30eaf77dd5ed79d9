-- ===== src/Table/Forget.antt =====
-- What the lowered `iNewDev` leaves out.
use crono_pci_linux.Base.{
  ℕ, ◌+◌, ◌≤◌, ◌<◌, ◌≡◌, ◌≢◌, ap, sym, ◌∙◌, inl, inr, true, length, ◌==◌, ==-eq, ==-ne, Bool-cases,
  arith,
}
use crono_pci_linux.Os.{is_live}
use crono_pci_linux.Machine.{Process, ◌>>=◌}
use crono_pci_linux.Machine.Returns
use crono_pci_linux.Machine.Returns.{Returns, returns}
use crono_pci_linux.Table.{shrink_table, on_unload}
use crono_pci_linux.Table.Shrink.{shrink-Shrunk}
use crono_pci_linux.Table.Free.{slot, Tracks, on_unload-Freed}

module _ {W : Type 0} where
  -- Some device is still in its slot and on the heap.
  pub record Leaked (s s' : Process W) : Type 0 where
    pub index : ℕ
    pub tracked : index ≤ s.i_new_dev
    pub in_use : slot s index ≢ 0
    pub kept : slot s' index ≡ slot s index
    pub live : is_live (s'.cells (slot s index)) ≡ true

  -- Closing a device ends in lowering the count to the index of the last slot in use, so that the
  -- count leaves this slot out: when the count is below the length of the table, the slots up to
  -- and including the one at the count hold NULL or pairwise distinct live blocks, and one of them
  -- but the first is in use, then unloading the library behind that leaves a device on the heap and
  -- in the table.
  pub shrink_table-Leaked :
      (s : Process W) (j : ℕ)
      → s.i_new_dev < length s.devices
      → Tracks 0 (s.i_new_dev + 1) s
      → 0 < j
      → j ≤ s.i_new_dev
      → slot s j ≢ 0
      → Returns (λ _ s'. Leaked s s') ((shrink_table >>= λ _. on_unload) s)
  unfolding shrink_table
  shrink_table-Leaked s j room t above tracked used =
      let (k, run, shrunk) = shrink-Shrunk s.i_new_dev s.devices room in
      let positive : 0 < k = elim (Bool-cases (k == 0)) [
        | inl e ↦ absurd (used (shrunk.free_above j (let z = ==-eq k 0 e in omega arith) tracked))
        | inr ne ↦ let z = ==-ne k 0 ne in omega arith
      ] in
      let bound = shrunk.at_most in
      let u : Process W = record s { i_new_dev = k } in
      let t' : Tracks 0 k u = record {
        room = let r = t.room in omega arith;
        live = λ m low high. t.live m low (omega arith);
        distinct = λ m n low mid high. t.distinct m n low mid (omega arith);
      } in
      rw (run, ◌>>=◌)
        (Returns.mono (on_unload-Freed u t') λ _ v (f, count). record {
          index = k;
          tracked = bound;
          in_use = shrunk.in_use positive;
          kept = f.kept k (inr (omega arith));
          live =
              ap is_live (
                f.others (slot s k) λ m low high same.
                  t.distinct m k low high (omega arith) (λ z. shrunk.in_use positive (sym same ∙ z))
                    same)
              ∙ t.live k (omega arith) (omega arith) (shrunk.in_use positive);
        })
