-- ===== src/Pci/Scan/Found.antt =====
-- What an enumeration is to find: the functions of a configuration space, depth first.
use frog_os.Base.{ℕ, zero, suc, ◌+◌, ◌*◌, ◌<◌, ◌≡◌, bit_and, u8, ◌>>>◌, ◌==◌, ◌&&◌, true}
use frog_os.Base.{if◌then◌else◌, Bool, List, [], ◌∷◌, ◌++◌}
use frog_os.Pci.{PciDev, config_address}

-- A view gives the 32-bit register at each configuration address.
abbrev pub View : Type 0
View = ℕ → ℕ

abbrev pub word : View → ℕ → ℕ → ℕ → ℕ → ℕ
word c b d f o = bit_and (c (config_address b d f o) >>> (bit_and o 2 * 8)) 0xffff

abbrev pub vendor : View → ℕ → ℕ → ℕ → ℕ
vendor c b d f = word c b d f 0

abbrev pub base_class : View → ℕ → ℕ → ℕ → ℕ
base_class c b d f = u8 (word c b d f 0xa >>> 8)

abbrev pub secondary : View → ℕ → ℕ → ℕ → ℕ
secondary c b d f = u8 (word c b d f 0x18 >>> 8)

abbrev pub is_bridge : View → ℕ → ℕ → ℕ → Bool
is_bridge c b d f = (base_class c b d f == 6) && (bit_and (word c b d f 0xa) 0xff == 4)

abbrev pub is_single : View → ℕ → ℕ → Bool
is_single c b d = bit_and (bit_and (word c b d 0 0xe) 0xff) 0x80 == 0

abbrev pub entry : View → ℕ → ℕ → ℕ → PciDev
entry c b d f = record {
  bus = b;
  device = d;
  function = f;
  vendor_id = vendor c b d f;
  device_id = word c b d f 2;
}

module _ (c : View) where
  -- A function, and what is behind it.
  abbrev pub found_function : (ℕ → List PciDev) → ℕ → ℕ → ℕ → List PciDev
  found_function visit b d f =
      entry c b d f ∷ (if is_bridge c b d f then visit (secondary c b d f) else [])

  unfoldable pub found_functions : (ℕ → List PciDev) → ℕ → ℕ → ℕ → ℕ → List PciDev
  found_functions visit zero f b d = []
  found_functions visit (suc n) f b d =
      (if vendor c b d f == 0xffff then [] else found_function visit b d f)
      ++ found_functions visit n (f + 1) b d

  unfoldable pub found_device : (ℕ → List PciDev) → ℕ → ℕ → List PciDev
  found_device visit b d =
      if vendor c b d 0 == 0xffff
      then []
      else found_function visit b d 0
        ++ (if is_single c b d then [] else found_functions visit 7 1 b d)

  unfoldable pub found_devices : (ℕ → List PciDev) → ℕ → ℕ → ℕ → List PciDev
  found_devices visit zero d b = []
  found_devices visit (suc n) d b = found_device visit b d ++ found_devices visit n (d + 1) b

  -- The functions of a bus and of the buses behind it, down to a depth.
  unfoldable pub found_bus : ℕ → ℕ → List PciDev
  found_bus zero b = []
  found_bus (suc depth) b = found_devices (found_bus depth) 32 0 b

  -- A host bridge with several functions is not followed.
  unfoldable pub found_all : List PciDev
  found_all = if is_single c 0 0 then found_bus 256 0 else []

  -- Each bridge leads to a bus of a higher number, as the PCI specification has them numbered.
  abbrev pub IsOrdered : Type 0
  IsOrdered =
      (b d f : ℕ) → b < 256 → d < 32 → f < 8 → is_bridge c b d f ≡ true → b < secondary c b d f
