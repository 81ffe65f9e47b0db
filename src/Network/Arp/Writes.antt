-- ===== src/Network/Arp/Writes.antt =====
-- arp.c: where an answer is written, wherever the request lies.
use frog_os.Base.{ℕ, ◌+◌, ◌≤◌, ◌<◌, ◌≡◌, ◌⊎◌, ◌∙◌, arith, List, length}
use frog_os.Memory.{Mem}
use frog_os.Memory.Laws.{IsBytes, store8-IsBytes, store16-IsBytes, store32-IsBytes, memcpy-IsBytes}
use frog_os.Memory.Laws.{store8-outside, store16-outside, store32-outside, memcpy-outside}
use frog_os.Memory.Bytes.{copy_in-outside}
use frog_os.Memory.Frame.{copy_in-IsBytes}
use frog_os.Network.Arp.{write_reply}

module _ (hw : List ℕ) (src packet frame : ℕ) (m : Mem) where
  pub write_reply-outside :
      (x : ℕ)
      → length hw ≡ 6
      → (x < frame) ⊎ (frame + 42 ≤ x)
      → write_reply hw src packet frame m x ≡ m x
  unfolding write_reply
  write_reply-outside x six out =
      store32-outside _ (frame + 14 + 24) _ x (omega arith)
      ∙ memcpy-outside _ (frame + 14 + 18) src 6 x (omega arith)
      ∙ store32-outside _ (frame + 14 + 14) _ x (omega arith)
      ∙ copy_in-outside _ (frame + 14 + 8) x hw (omega arith)
      ∙ store16-outside _ (frame + 14 + 6) _ x (omega arith)
      ∙ store8-outside _ (frame + 14 + 5) _ x (λ e. absurd (omega arith))
      ∙ store8-outside _ (frame + 14 + 4) _ x (λ e. absurd (omega arith))
      ∙ store16-outside _ (frame + 14 + 2) _ x (omega arith)
      ∙ store16-outside _ (frame + 14) _ x (omega arith)
      ∙ store16-outside _ (frame + 12) _ x (omega arith)
      ∙ copy_in-outside _ (frame + 6) x hw (omega arith)
      ∙ memcpy-outside m frame src 6 x (omega arith)

  pub write_reply-IsBytes : IsBytes m → IsBytes (write_reply hw src packet frame m)
  unfolding write_reply
  write_reply-IsBytes b =
      let header : IsBytes _ =
        store16-IsBytes _ (frame + 12) _
          (copy_in-IsBytes _ (frame + 6) hw (memcpy-IsBytes m frame src 6 b)) in
      let kind : IsBytes _ = store16-IsBytes _ _ _ (
        store8-IsBytes _ _ _
          (store8-IsBytes _ _ _ (store16-IsBytes _ _ _ (store16-IsBytes _ _ _ header)))) in
      store32-IsBytes _ _ _
        (memcpy-IsBytes _ _ _ _ (store32-IsBytes _ _ _ (copy_in-IsBytes _ _ hw kind)))
