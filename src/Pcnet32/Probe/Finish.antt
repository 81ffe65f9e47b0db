-- ===== src/Pcnet32/Probe/Finish.antt =====
-- The memory after the set-up: whose the descriptors are, and what is left alone.
use frog_os.Base.{ℕ, ◌+◌, ◌*◌, ◌<◌, ◌≤◌, ◌≡◌, ◌∙◌, arith, inl, inr, List, length}
use frog_os.Base.{true, false, ◌^◌}
use frog_os.Memory.{Mem}
use frog_os.Memory.Laws.{IsBytes, store8-IsBytes, store16-IsBytes, store32-IsBytes, memset-IsBytes}
use frog_os.Memory.Laws.{store8-outside, store16-outside, store32-outside, memset-outside}
use frog_os.Memory.Bytes.{copy_in-outside}
use frog_os.Memory.Frame.{copy_in-IsBytes}
use frog_os.Ports.{Ports}
use frog_os.Irq.{install_irq_handler}
use frog_os.Pcnet32.{Card}
use frog_os.Pcnet32.Ring.{driver_owns}
use frog_os.Pcnet32.Ring.Drained.{owns-same}
use frog_os.Pcnet32.Probe.{World, initialize_all, write_card_reg, finish_probe}
use frog_os.Pcnet32.Probe.Rings.{
  initialize_all-outside, initialize_all-IsBytes, initialize_all-owner,
}

module _ (reg : ℕ) (hw : List ℕ) (c : Card) (m : Mem) where
  write_card_reg-outside :
      (x : ℕ) → length hw ≡ 6 → reg + 28 ≤ x → write_card_reg reg hw c m x ≡ m x
  unfolding write_card_reg
  write_card_reg-outside x six out =
      store32-outside _ (reg + 24) _ x (omega arith)
      ∙ store32-outside _ (reg + 20) _ x (omega arith)
      ∙ memset-outside _ (reg + 12) 0xff 8 x (omega arith)
      ∙ store16-outside _ (reg + 10) 0 x (omega arith)
      ∙ copy_in-outside _ (reg + 4) x hw (omega arith)
      ∙ store8-outside _ (reg + 3) 0x40 x (λ e. absurd (omega arith))
      ∙ store8-outside _ (reg + 2) 0x60 x (λ e. absurd (omega arith))
      ∙ store16-outside m reg 0 x (omega arith)

  write_card_reg-IsBytes : IsBytes m → IsBytes (write_card_reg reg hw c m)
  unfolding write_card_reg
  write_card_reg-IsBytes b =
      let head : IsBytes _ =
        store8-IsBytes _ (reg + 3) 0x40
          (store8-IsBytes _ (reg + 2) 0x60 (store16-IsBytes m reg 0 b)) in
      store32-IsBytes _ _ _ (
        store32-IsBytes _ _ _
          (memset-IsBytes _ _ _ _ (store16-IsBytes _ _ _ (copy_in-IsBytes _ (reg + 4) hw head))))

module _ (ports : Ports) (code netdev priv : ℕ) (hw : List ℕ) (c : Card) (w : World ports)
    (six : length hw ≡ 6) (rx_count : c.rx_buffer_count < 2 ^ 16)
    (tx_count : c.tx_buffer_count < 2 ^ 16) where
  -- The memory after the two loops.
  unfoldable rings : Mem
  rings =
      initialize_all c.tx_buffer_count 0 true c
        (initialize_all c.rx_buffer_count 0 false c w.devices.store.bytes)

  abbrev after : Mem
  after = (finish_probe ports code netdev priv hw c w).devices.store.bytes

  after-rings : (x : ℕ) → priv + 96 ≤ x → after x ≡ rings x
  unfolding finish_probe install_irq_handler rings
  after-rings x out =
      store32-outside _ (priv + 8 + 8) _ x (omega arith)
      ∙ store32-outside _ (priv + 16) 0 x (omega arith)
      ∙ store32-outside _ (priv + 12) netdev x (omega arith)
      ∙ store32-outside _ (priv + 8) code x (omega arith)
      ∙ write_card_reg-outside (priv + 32) hw c _ x six (omega arith)

  pub after-IsBytes : IsBytes w.devices.store.bytes → IsBytes after
  unfolding finish_probe install_irq_handler
  after-IsBytes b =
      let loops : IsBytes _ =
        initialize_all-IsBytes c true c.tx_buffer_count 0 _
          (initialize_all-IsBytes c false c.rx_buffer_count 0 w.devices.store.bytes b) in
      store32-IsBytes _ _ _ (
        store32-IsBytes _ _ _ (
          store32-IsBytes _ _ _
            (store32-IsBytes _ _ _ (write_card_reg-IsBytes (priv + 32) hw c _ loops))))

  -- Behind both rings nothing changes.
  pub after-above :
      (x : ℕ)
      → priv + 96 ≤ x
      → c.rdes + c.rx_buffer_count * 16 ≤ x
      → c.tdes + c.tx_buffer_count * 16 ≤ x
      → after x ≡ w.devices.store.bytes x
  unfolding rings
  after-above x off rx tx =
      after-rings x off
      ∙ initialize_all-outside c true c.tx_buffer_count 0 _ x (omega arith) (inr (omega arith))
      ∙ initialize_all-outside c false c.rx_buffer_count 0 w.devices.store.bytes x (omega arith)
          (inr (omega arith))

  -- The card owns the receive descriptors, and the driver the transmit descriptors.
  pub after-owner :
      priv + 96 ≤ c.rdes
      → c.rdes + c.rx_buffer_count * 16 ≤ c.tdes
      → ((i : ℕ) → i < c.rx_buffer_count → driver_owns after c.rdes i ≡ false)
        × ((i : ℕ) → i < c.tx_buffer_count → driver_owns after c.tdes i ≡ true)
  unfolding rings
  after-owner front apart =
      let rx = initialize_all c.rx_buffer_count 0 false c w.devices.store.bytes in
      (
        λ i lt.
            owns-same c rx after i (
              after-rings (c.rdes + 16 * i + 7) (omega arith)
              ∙ initialize_all-outside c true c.tx_buffer_count 0 rx (c.rdes + 16 * i + 7)
                  (omega arith) (inl (omega arith)))
            ∙ initialize_all-owner c false c.rx_buffer_count 0 w.devices.store.bytes i (omega arith)
                (omega arith) (omega arith),
        λ i lt.
            owns-same (record c { rdes = c.tdes }) rings after i
              (after-rings (c.tdes + 16 * i + 7) (omega arith))
            ∙ initialize_all-owner c true c.tx_buffer_count 0 rx i (omega arith) (omega arith)
                (omega arith),
      )
