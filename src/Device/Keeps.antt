-- ===== src/Device/Keeps.antt =====
-- What a function with a handle keeps: its rest may rely on the device behind the handle.
use crono_pci_linux.Base.{ℕ, ◌≡◌, refl, ◌==◌, Option, none, some, if◌then◌else◌, List, ◌≤◌, length}
use crono_pci_linux.Types.{
  Ptr, minus, einval, Obj, raw, Device, device, dma_sg, dma_contig, dma_pages, addresses, cmds,
}
use crono_pci_linux.Os.{update, is_live}
use crono_pci_linux.Machine.Keeps.{
  Keeps, Predicate, Ends, stuck, ends, At, Keeps-pure, Leads-if, Ends-if, Ends-bind, Ends-mono,
}
use crono_pci_linux.Machine.{Process, M, read, write, pure, undefined}
use crono_pci_linux.Device.{read_device, init_hdev}

-- `I`, and the device `d` stands at `p`.
abbrev pub With : Predicate → Ptr → Obj → Predicate
With I p o cells devices n = I cells devices n × (cells p ≡ some o)

abbrev pub Entails : Predicate → Predicate → Type 0
Entails I J = (f : Ptr → Option Obj) (ds : List Ptr) (n : ℕ) → I f ds n → J f ds n

module _ {W : Type 0} (I : Predicate) where
  -- Reading a block: what is read was there.
  pub read-Ends : (p : Ptr) (s : Process W) → At I s → Ends (λ o t. At (With I p o) t) (read p s)
  unfolding read
  read-Ends p s i = go (s.cells p) refl
    where
      go :
          (o : Option Obj)
          → s.cells p ≡ o
          → Ends
              (λ o t. At (With I p o) t)
              (elim o [ none ↦ none | some o ↦ if p == 0 then none else some (o, s) ])
      go none e = stuck
      go (some o) e = Ends-if (p == 0) stuck (ends (i, e))

  pub read_device-Ends :
      (p : Ptr) (s : Process W)
      → At I s
      → Ends (λ d t. At (With I p (device d)) t) (read_device p s)
  unfolding read_device
  read_device-Ends p s i = Ends-bind (read p) _ s (read-Ends p s i) λ o t h. go o t h
    where
      go :
          (o : Obj) (t : Process W)
          → At (With I p o) t
          → Ends
              (λ d u. At (With I p (device d)) u)
              ((elim o as (λ _. M W Device) [ device d ↦ pure d | _ ↦ undefined ]) t)
      go (device d) t h = ends h
      go raw t h = stuck
      go (dma_sg d) t h = stuck
      go (dma_contig d) t h = stuck
      go (dma_pages ps) t h = stuck
      go (addresses xs) t h = stuck
      go (cmds cs) t h = stuck

  -- The body may rely on any `J` that follows from the device.
  pub init_hdev-Keeps_from :
      (J : Predicate) {A : Type 0} (h : Ptr) (refuse : ℕ → A) (body : Device → M W A)
      → ((d : Device) → Entails (With I h (device d)) J)
      → Entails J I
      → ((d : Device) → Keeps J (body d))
      → Keeps I (init_hdev h refuse body)
  unfolding init_hdev
  init_hdev-Keeps_from J h refuse body enter leave k =
      Leads-if (h == 0) (Keeps-pure (refuse (minus einval))) (record {
        run = λ s i. Ends-bind (read_device h) _ s (read_device-Ends h s i) λ d t j.
            Ends-mono
              ((Leads-if (d.device_id == 0) (Keeps-pure (refuse (minus einval))) (k d)).run t
                (enter d _ _ _ j))
              λ _ _ e. leave _ _ _ e;
      })

  -- The body keeps `I` by itself.
  pub init_hdev-Keeps :
      {A : Type 0} (h : Ptr) (refuse : ℕ → A) (body : Device → M W A)
      → ((d : Device) → Keeps I (body d))
      → Keeps I (init_hdev h refuse body)
  init_hdev-Keeps h refuse body k =
      init_hdev-Keeps_from I h refuse body (λ d f ds n i. i.0) (λ f ds n i. i) k

  pub read_device-Keeps : (p : Ptr) → Keeps I (read_device {W = W} p)
  read_device-Keeps p = record { run = λ s i. Ends-mono (read_device-Ends p s i) λ _ _ e. e.0 }

-- Overwriting the device at `p` keeps `I`, if it has no more BARs than descriptions.
abbrev pub Rewrites : Predicate → Ptr → Type 0
Rewrites I p =
    (f : Ptr → Option Obj) (ds : List Ptr) (n : ℕ) (d : Device)
    → d.bar_count ≤ length d.bar_descs
    → I f ds n
    → I (update f p (some (device d))) ds n

pub write_device-Keeps :
    {W : Type 0} {I : Predicate} (p : Ptr)
    → Rewrites I p
    → (d : Device) → d.bar_count ≤ length d.bar_descs
    → Keeps I (write {W = W} p (device d))
unfolding write
write_device-Keeps p rewrites d fit = record {
  run = λ s i.
      Ends-if (p == 0) stuck (Ends-if (is_live (s.cells p)) (ends (rewrites _ _ _ d fit i)) stuck);
}
