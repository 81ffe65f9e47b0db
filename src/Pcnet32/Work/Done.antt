-- ===== src/Pcnet32/Work/Done.antt =====
-- pcnet32.c: do_irq_work with all that it calls.
use frog_os.Base.{ℕ, ◌<◌, ◌≡◌, sym, ◌∙◌, ap, false}
use mathlib.Core.Path.{subst}
use frog_os.Network.Host.{Host, handled, memory}
use frog_os.Network.Ether.{ether_process_frame}
use frog_os.Pcnet32.{Card}
use frog_os.Pcnet32.Ring.{driver_owns, tx_packet, receive_all, do_irq_work}
use frog_os.Pcnet32.Ring.Drained.{IsDrained, AllFit}
use frog_os.Pcnet32.Ring.Drain.{receive_all-IsDrained}
use frog_os.Pcnet32.Work.{IsPlaced, IsRunning}
use frog_os.Pcnet32.Work.Process.{ether_process_frame-Handles}

-- The loop starts where the card's state says.
do_irq_work_lem :
    (c : Card) (h : Host Card) (q : ℕ)
    → h.card ≡ record c { tx_buffer_ptr = q }
    → do_irq_work h
      ≡ receive_all
          (ether_process_frame Card tx_packet)
          c.rx_buffer_count
          c.rx_buffer_ptr
          (record h { dev = record h.dev { needs_work = 0 } })
unfolding do_irq_work
do_irq_work_lem c h q e =
    ap
      (λ (k : Card).
        receive_all (ether_process_frame Card tx_packet) k.rx_buffer_count k.rx_buffer_ptr
          (record h { dev = record h.dev { needs_work = 0 } }))
      e

module _ (limit lo hi : ℕ) (c : Card) where
  idle-IsRunning :
      (h : Host Card)
      → IsRunning limit lo hi c h
      → IsRunning limit lo hi c (record h { dev = record h.dev { needs_work = 0 } })
  idle-IsRunning h (held, free, v) = (
    held,
    free,
    record {
      net = v.net;
      place = v.place;
      place_in = v.place_in;
      card = v.card;
      address = v.address;
    },
  )

  idle-IsDrained :
      (n p : ℕ) (h t : Host Card)
      → IsDrained c n p (record h { dev = record h.dev { needs_work = 0 } }) t
      → IsDrained c n p h t
  idle-IsDrained n p h t d = record {
    taken = d.taken;
    bound = d.bound;
    owned = d.owned;
    stop = d.stop;
    given = d.given;
    kept = d.kept;
    next = d.next;
    counted = d.counted;
  }

  -- The next round starts where this one has ended.
  ended-IsRunning :
      (p : ℕ) (u : Host Card)
      → IsRunning limit lo hi c u
      → IsRunning limit lo hi
          (record c { rx_buffer_ptr = p })
          (record u { card = record u.card { rx_buffer_ptr = p } })
  ended-IsRunning p u (held, free, v) = (
    held,
    free,
    record {
      net = v.net;
      place = v.place;
      place_in = v.place_in;
      card = ap (λ (k : Card). record k { rx_buffer_ptr = p }) v.card;
      address = v.address;
    },
  )

-- The card's interrupt work, in a host whose rings lie apart, whose frame buffers lie beside them in the
-- order that the pool gives and takes them, and whose waiting frames have a header and a checksum and
-- fit into their buffers: it returns, whatever the frames are. The frames that waited from the ring's
-- head on, up to the first descriptor that the card owned, are given back to the card and counted, the
-- other descriptors are owned as before, and no frame waits at the new head. The host is one of this
-- kind again, with the new head.
pub do_irq_work-IsDrained :
    (limit lo hi : ℕ) (c : Card) (h : Host Card)
    → IsPlaced lo hi c
    → IsRunning limit lo hi c h
    → AllFit c h
    → c.rx_buffer_ptr < c.rx_buffer_count
    → (t : Host Card) × (do_irq_work h ≡ handled t)
      × IsDrained c c.rx_buffer_count c.rx_buffer_ptr h t
      × (driver_owns (memory t) c.rdes t.card.rx_buffer_ptr ≡ false)
      × IsRunning limit lo hi (record c { rx_buffer_ptr = t.card.rx_buffer_ptr }) t
do_irq_work-IsDrained limit lo hi c h p v fit below =
    let (held, free, host) = v in
    let Runs = IsRunning limit lo hi c in
    let (t, e, d, head, (u, runs, at)) =
      receive_all-IsDrained c (ether_process_frame Card tx_packet) Runs p.ring
        (ether_process_frame-Handles limit lo hi c p)
        (record h { dev = record h.dev { needs_work = 0 } }) (idle-IsRunning limit lo hi c h v) fit
        c.rx_buffer_ptr below in
    (
      t,
      do_irq_work_lem c h host.place host.card ∙ e,
      idle-IsDrained limit lo hi c c.rx_buffer_count c.rx_buffer_ptr h t d,
      head,
      subst (IsRunning limit lo hi (record c { rx_buffer_ptr = t.card.rx_buffer_ptr })) (sym at)
          (ended-IsRunning limit lo hi c t.card.rx_buffer_ptr u runs),
    )
