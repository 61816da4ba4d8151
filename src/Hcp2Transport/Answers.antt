-- ===== src/Hcp2Transport/Answers.antt =====
-- What a turn of the newer bus may write and change, whatever the driver hands over.
use esphome_hcpbridge.Base.{
  ℕ, ◌≡◌, ◌⊎◌, inl, inr, ◌≤◌, true, some, List, [], get_or, length, arith, ◌∙◌,
}
use esphome_hcpbridge.Hcp2Frame.{slave_id}
use esphome_hcpbridge.Hcp2.Codec.{Hcp2Codec}
use esphome_hcpbridge.Hcp2.Frame.{on_frame}
use esphome_hcpbridge.Hcp2.Answers.{IsReply, on_frame-Answers}
use esphome_hcpbridge.Uart.{Wire, IsBounded}
use esphome_hcpbridge.ModbusRtu.{poll, Polled}
use esphome_hcpbridge.ModbusRtu.Turns.{poll-IsTurn}
use esphome_hcpbridge.Hcp2Transport.{Hcp2Transport, handle_frame, serve_once}

-- A turn that left the codec alone and wrote nothing, or one that handed it a frame of 4 to 256
-- bytes, to us or to everybody, and wrote nothing or a reply to it.
pub data Served (t : Hcp2Transport) (now : ℕ) (r : Hcp2Transport × List ℕ) : Type 0 where
  idle : r.0.codec ≡ t.codec → r.1 ≡ [] → Served t now r
  served :
      (frame : List ℕ)
      → (4 ≤ length frame) × (length frame ≤ 256)
      → (get_or frame 0 0 ≡ 0) ⊎ (get_or frame 0 0 ≡ slave_id)
      → r.0.codec ≡ (on_frame t.codec now frame).0
      → (r.1 ≡ []) ⊎ IsReply r.1 slave_id (get_or frame 1 0)
      → Served t now r

serve_once_begun :
    (t : Hcp2Transport) (now : ℕ) (w : Wire)
    → t.handler ≡ true
    → let r : Polled Hcp2Codec = poll (some (handle_frame now)) t.mb t.codec w in
      ((serve_once now t w).0.codec ≡ r.handler) × ((serve_once now t w).1 ≡ r.written)
unfolding serve_once
serve_once_begun t now w begun = ground (arith, begun)

-- A turn of the newer transport, once begun with our address, over a driver whose reads return no
-- more than they are asked for: either the codec is as it was and nothing is written, or the
-- codec took one frame of 4 to 256 bytes, to us or to everybody, and what is written is nothing
-- or a reply under our address to that frame's function.
pub serve_once-Served :
    (t : Hcp2Transport) (now : ℕ) (w : Wire)
    → t.handler ≡ true
    → t.mb.slave_id ≡ slave_id
    → IsBounded w
    → Served t now (serve_once now t w)
serve_once-Served t now w begun us bounded =
    let e = serve_once_begun t now w begun in
    elim (poll-IsTurn (handle_frame now) t.mb t.codec w bounded) [
      | inl i ↦ idle (e.0 ∙ i.handler) (e.1 ∙ i.written)
      | inr v ↦
          served v.frame (v.long, v.fits) (ground (arith, v.address, us)) (e.0 ∙ v.handler)
            (ground (arith, e.1, v.written, v.address, us, on_frame-Answers t.codec now v.frame))
    ]
