-- ===== src/Detect/Nodebox/Channel.antt =====
-- nodebox_crypto.py: `SecureChannel`. A frame is its nonce, a direction and a counter, and a
-- ciphertext; the counter stays below 2 ^ 88.
pub mod Order
use eight_call.Prelude.{
  ℕ, ◌+◌, String, Bool, true, false, not, ◌&&◌, List, [], ◌∷◌, Option, none, some, nat_eq,
  if◌then◌else◌,
}
use eight_call.Broker.Json.{Fields}
use eight_call.Detect.Nodebox.{
  Bytes, NodeError, Outcome, done, failed, Crypto, short_frame, wrong_direction, out_of_order,
  invalid_tag,
}

pub data Frame (C : Type 0) : Type 0 where
  short : Frame C
  frame : ℕ → ℕ → C → Frame C

pub record Channel : Type 0 where
  pub key : Bytes
  pub transcript : Bytes
  pub send_dir : ℕ
  pub recv_dir : ℕ
  pub send_counter : ℕ
  pub recv_counter : ℕ

unfoldable pub open_channel : Bytes → Bytes → Bool → Channel
open_channel key transcript is_server = record {
  key = key;
  transcript = transcript;
  send_dir = if is_server then 1 else 2;
  recv_dir = if is_server then 2 else 1;
  send_counter = 0;
  recv_counter = 0;
}

module _ {C : Type 0} (c : Crypto C) where
  unfoldable pub send : Fields → Channel → Frame C × Channel
  send m ch = (
    frame ch.send_dir ch.send_counter
        (c.encrypt ch.key ch.send_dir ch.send_counter m ch.transcript),
    record ch { send_counter = ch.send_counter + 1 },
  )

  abbrev or_invalid : Option Fields → Outcome Fields
  or_invalid none = failed invalid_tag
  or_invalid (some m) = done m

  -- The counter moves before the tag is checked.
  unfoldable pub recv : Frame C → Channel → Outcome Fields × Channel
  recv short ch = (failed short_frame, ch)
  recv (frame direction counter ct) ch =
      if not (nat_eq direction ch.recv_dir)
      then (failed wrong_direction, ch)
      else if not (nat_eq counter ch.recv_counter)
      then (failed out_of_order, ch)
      else (
        or_invalid (c.decrypt ch.key direction counter ct ch.transcript),
        record ch { recv_counter = ch.recv_counter + 1 },
      )

  -- Frames in the order in which they arrive, whatever becomes of each.
  unfoldable pub recv_all : List (Frame C) → Channel → Channel
  recv_all [] ch = ch
  recv_all (f ∷ fs) ch = recv_all fs (recv f ch).1
