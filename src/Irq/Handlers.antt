-- ===== src/Irq/Handlers.antt =====
-- Installing and uninstalling a handler: its chain and the other chains.
use frog_os.Base.{replicate, zero, suc, ℕ, ◌+◌, ◌^◌, ◌<◌, ◌≡◌, ◌≢◌, refl, ◌∙◌, sym, ap, arith}
use frog_os.Base.{List, [], ◌∷◌, length, get_or, set, Option, none, some, true, false, ◌==◌}
use frog_os.Base.{get_or-set_self, get_or-set_ne, length-set, if◌then◌else◌, not, ◌&&◌}
use frog_os.Memory.{Mem}
use frog_os.Memory.Laws.{IsBytes, store32-IsBytes, load32-lt}
use frog_os.Irq.{Bus, Irqs, next_of, max_handlers, irq_set_mask}
use frog_os.Irq.{install_irq_handler, remove_handler, uninstall_irq_handler}
use frog_os.Irq.Chain.{
  AllApart, Chain, remove, Chain-link, Chain-store, unlink-Unlinks, remove_self,
}
use native.Mathlib.Decide.{ℕ_discrete as dec_eq}

-- The table has its 18 entries, of 32 bits, and the memory holds bytes.
pub record IsIrqs (bus : Bus) (s : Irqs bus) : Type 0 where
  pub entries : length s.table ≡ 18
  pub words : (i : ℕ) → get_or s.table i 0 < 2 ^ 32
  pub bytes : IsBytes s.bytes

-- The records of a line's chain.
abbrev pub Installed : (bus : Bus) → Irqs bus → ℕ → List ℕ → Type 0
Installed bus s irq xs = Chain s.bytes (get_or s.table irq 0) xs

pub absurd_none {ℓ κ} : {A : Type ℓ} {P : Type κ} {a : A} → none ≡ some a → P
absurd_none e = absurd (cc)

pub zero_words : (n i : ℕ) → get_or (replicate n 0) i 0 < 2 ^ 32
zero_words zero i = omega arith
zero_words (suc n) zero = omega arith
zero_words (suc n) (suc i) = zero_words n i

pub set_words :
    (t : List ℕ) (i v : ℕ)
    → i < length t
    → v < 2 ^ 32
    → ((j : ℕ) → get_or t j 0 < 2 ^ 32)
    → (j : ℕ) → get_or (set t i v) j 0 < 2 ^ 32
set_words t i v h hv w j = elim (dec_eq i j) [
  | yes e ↦ rw (← e, get_or-set_self t i v 0 h) hv
  | no ne ↦ rw (get_or-set_ne t i j v 0 ne) (w j)
]

-- The line `irq` with its chain `xs`, and any other line `j` with its chain `ys`.
module _ (bus : Bus) (s : Irqs bus) (valid : IsIrqs bus s) (irq h j : ℕ) (xs ys : List ℕ)
    (in_table : irq < 18) (pos : 0 < h) (word : h < 2 ^ 32) (ne : j ≢ irq) where
  -- `install_irq_handler` on one of the 18 lines puts a record, at an address above 0 that 32 bits
  -- hold, that lies apart in front of its line's chain, keeps the chain of any other line that it
  -- lies apart from, keeps the table and the memory in order, and enables interrupts.
  pub install_links :
      AllApart h xs
      → AllApart h ys
      → Installed bus s irq xs
      → Installed bus s j ys
      → let s' = install_irq_handler bus irq h s in
        IsIrqs bus s' × Installed bus s' irq (h ∷ xs) × Installed bus s' j ys × (s'.flag ≡ true)
  unfolding install_irq_handler
  install_links o oy ch cy = (
    record {
      entries = length-set s.table irq h ∙ valid.entries;
      words = set_words s.table irq h (omega (arith, valid.entries)) word valid.words;
      bytes = store32-IsBytes s.bytes (h + 8) (get_or s.table irq 0) valid.bytes;
    },
    rw (get_or-set_self s.table irq h 0 (omega (arith, valid.entries)))
        (Chain-link s.bytes h (get_or s.table irq 0) xs pos (valid.words irq) o ch),
    rw (get_or-set_ne s.table irq j h 0 (λ e. ne (sym e)))
        (Chain-store s.bytes h (get_or s.table irq 0) (get_or s.table j 0) ys oy cy),
    refl,
  )

module _ (bus : Bus) (s : Irqs bus) (valid : IsIrqs bus s) (irq h : ℕ) (xs : List ℕ)
    (in_table : irq < 18) (pos : 0 < h) where
  -- What `remove_handler` leaves: a table and a memory in which the line has the chain without the
  -- record, and every other line its entry.
  abbrev Removed : Option (List ℕ × Mem) → Type 0
  Removed o =
      (t : List ℕ) × (m : Mem) × (o ≡ some (t, m))
      × (length t ≡ 18)
      × ((i : ℕ) → get_or t i 0 < 2 ^ 32)
      × IsBytes m
      × Chain m (get_or t irq 0) (remove h xs)
      × ((j : ℕ) → j ≢ irq → get_or t j 0 ≡ get_or s.table j 0)
      × ((c : ℕ) → AllApart c xs → next_of m c ≡ next_of s.bytes c)

  first_removed :
      (ys : List ℕ)
      → get_or s.table irq 0 ≡ h
      → Chain s.bytes (get_or s.table irq 0) ys
      → Chain s.bytes (next_of s.bytes h) (remove h ys)
  first_removed [] e ch = absurd (omega arith)
  first_removed (a ∷ ys) e (ea, pa, o, ch) =
      let same : a ≡ h = sym ea ∙ e in rw (same, remove_self h ys) (rw same at ch)

  remove-Removed :
      length xs < max_handlers → Installed bus s irq xs → Removed (remove_handler bus irq h s)
  unfolding remove_handler
  remove-Removed short ch = elim (dec_eq (get_or s.table irq 0) h) [
    | yes first ↦
        let test : (get_or s.table irq 0 == h) ≡ true = ground arith in
        let v = next_of s.bytes h in
        let inside : irq < length s.table = omega (arith, valid.entries) in
        (
          set s.table irq v,
          s.bytes,
          rw test,
          length-set s.table irq v ∙ valid.entries,
          set_words s.table irq v inside (load32-lt s.bytes (h + 8) valid.bytes) valid.words,
          valid.bytes,
          rw (get_or-set_self s.table irq v 0 inside) (first_removed xs first ch),
          λ j ne. get_or-set_ne s.table irq j v 0 (λ e. ne (sym e)),
          λ c o. refl,
        )
    | no later ↦
        let test : (get_or s.table irq 0 == h) ≡ false = ground arith in
        let (m, r, ch', b, keep) =
          unlink-Unlinks max_handlers (get_or s.table irq 0) h xs s.bytes short pos later
            valid.bytes ch in
        (s.table, m, rw (test, r), valid.entries, valid.words, b, ch', λ j ne. refl, keep)
  ]

-- Records that lie apart from every record of a chain.
abbrev pub AllApartFrom : List ℕ → List ℕ → Type 0
AllApartFrom xs [] = Unit
AllApartFrom xs (c ∷ cs) = AllApart c xs × AllApartFrom xs cs

Chain-kept :
    (m m' : Mem) (xs : List ℕ) (p : ℕ) (ys : List ℕ)
    → ((c : ℕ) → AllApart c xs → next_of m' c ≡ next_of m c)
    → AllApartFrom xs ys
    → Chain m p ys
    → Chain m' p ys
Chain-kept m m' xs p [] keep o e = e
Chain-kept m m' xs p (c ∷ cs) keep (o, os) (e, pos, ap, ch) =
    (e, pos, ap, rw (keep c o) (Chain-kept m m' xs (next_of m c) cs keep os ch))

-- The last step of `uninstall_irq_handler`, with its change of the mask.
abbrev pub finish : (bus : Bus) → ℕ → Irqs bus → List ℕ → Mem → Irqs bus
finish bus irq s t m = record {
  table = t;
  bytes = m;
  ports = if (get_or t irq 0 == 0) && not (irq == 2) then irq_set_mask bus irq s.ports else s.ports;
  flag = true;
}

pub uninstall_none :
    (bus : Bus) (irq h : ℕ) (s : Irqs bus)
    → remove_handler bus irq h s ≡ none
    → uninstall_irq_handler bus irq h s ≡ none
unfolding uninstall_irq_handler
uninstall_none bus irq h s e = rw (uninstall_irq_handler, e)

pub uninstall_eq :
    (bus : Bus) (irq h : ℕ) (s : Irqs bus) (t : List ℕ) (m : Mem)
    → remove_handler bus irq h s ≡ some (t, m)
    → uninstall_irq_handler bus irq h s ≡ some (finish bus irq s t m)
unfolding uninstall_irq_handler
uninstall_eq bus irq h s t m e = rw (uninstall_irq_handler, e)

AllApartFrom-head :
    (h : ℕ) (xs ys : List ℕ) → AllApartFrom (h ∷ xs) ys → AllApart h ys × AllApartFrom xs ys
AllApartFrom-head h xs [] o = (tt, tt)
AllApartFrom-head h xs (c ∷ cs) ((o, os), rest) =
    let (here, there) = AllApartFrom-head h xs cs rest in ((omega arith, here), (os, there))

module _ (bus : Bus) (s : Irqs bus) (valid : IsIrqs bus s) (irq h j : ℕ) (xs ys : List ℕ)
    (in_table : irq < 18) (pos : 0 < h) (ne : j ≢ irq) where
  -- `uninstall_irq_handler` on one of the 18 lines, with a chain shorter than the fuel, ends, for a
  -- record of the chain or any other; it takes the record's first occurrence out of its line's
  -- chain, keeps the chain of any other line whose records lie apart from that one's, keeps the
  -- table and the memory in order, and enables interrupts.
  pub uninstall_links :
      length xs < max_handlers
      → AllApartFrom xs ys
      → Installed bus s irq xs
      → Installed bus s j ys
      → (s' : Irqs bus) × (uninstall_irq_handler bus irq h s ≡ some s')
        × IsIrqs bus s'
        × Installed bus s' irq (remove h xs)
        × Installed bus s' j ys
        × (s'.flag ≡ true)
  uninstall_links short o ch cy =
      let (t, m, e, len, words, b, ch', entries, keep) =
        remove-Removed bus s valid irq h xs in_table pos short ch in
      (
        finish bus irq s t m,
        uninstall_eq bus irq h s t m e,
        record { entries = len; words = words; bytes = b },
        ch',
        rw (entries j ne) (Chain-kept s.bytes m xs _ ys keep o cy),
        refl,
      )

-- Installing a record, at an address above 0 that 32 bits hold, that lies apart on one of the 18
-- lines, and uninstalling it, gives the line its chain back, and keeps the chain of any other line
-- whose records lie apart from it and from the line's; the line's chain is shorter than the fuel.
pub install-uninstall :
    (bus : Bus) (s : Irqs bus) (irq h j : ℕ) (xs ys : List ℕ)
    → IsIrqs bus s
    → irq < 18
    → 0 < h
    → h < 2 ^ 32
    → j ≢ irq
    → AllApart h xs
    → AllApartFrom (h ∷ xs) ys
    → length xs + 1 < max_handlers
    → Installed bus s irq xs
    → Installed bus s j ys
    → (s' : Irqs bus) × (uninstall_irq_handler bus irq h (install_irq_handler bus irq h s)
        ≡ some s')
      × Installed bus s' irq xs
      × Installed bus s' j ys
install-uninstall bus s irq h j xs ys valid in_table pos word ne o os short ch cy =
    let (oy, _) = AllApartFrom-head h xs ys os in
    let (valid', ch', cy', on) =
      install_links bus s valid irq h j xs ys in_table pos word ne o oy ch cy in
    let (s', e, v, back, cy'', on') =
      uninstall_links bus (install_irq_handler bus irq h s) valid' irq h j (h ∷ xs) ys in_table pos
        ne (omega arith) os ch' cy' in
    (s', e, rw (remove_self h xs) at back, cy'')
