-- ===== src/Detect/Nodebox/Channel/Order.antt =====
-- The order of frames in nodebox_crypto.py's `SecureChannel`.
use eight_call.Prelude.{ℕ, ◌<◌, ◌≤◌, ◌≡◌, refl, sym, ◌∙◌, List, [], ◌∷◌, some, arith}
use eight_call.Broker.Json.{Fields}
use eight_call.Detect.Nodebox.{Bytes, done, failed, Crypto, out_of_order}
use eight_call.Detect.Nodebox.Channel.{Frame, short, frame, Channel, send, recv, recv_all}

-- A channel and its peer agree.
pub record IsPaired (a b : Channel) : Type 0 where
  pub keys : b.key ≡ a.key
  pub transcripts : b.transcript ≡ a.transcript
  pub directions : b.recv_dir ≡ a.send_dir
  pub counters : b.recv_counter ≡ a.send_counter

module _ {C : Type 0} (c : Crypto C) where
  recv-recv_dir : (f : Frame C) (ch : Channel) → (recv c f ch).1.recv_dir ≡ ch.recv_dir
  unfolding recv
  recv-recv_dir short ch = refl
  recv-recv_dir (frame d n ct) ch = ground arith

  recv-counter : (f : Frame C) (ch : Channel) → ch.recv_counter ≤ (recv c f ch).1.recv_counter
  unfolding recv
  recv-counter short ch = omega arith
  recv-counter (frame d n ct) ch = ground arith

  all-recv_dir : (fs : List (Frame C)) (ch : Channel) → (recv_all c fs ch).recv_dir ≡ ch.recv_dir
  unfolding recv_all
  all-recv_dir [] ch = refl
  all-recv_dir (f ∷ fs) ch = all-recv_dir fs (recv c f ch).1 ∙ recv-recv_dir f ch

  all-counter :
      (fs : List (Frame C)) (ch : Channel) → ch.recv_counter ≤ (recv_all c fs ch).recv_counter
  unfolding recv_all
  all-counter [] ch = omega arith
  all-counter (f ∷ fs) ch = omega (arith, recv-counter f ch, all-counter fs (recv c f ch).1)

  accepted :
      (d n : ℕ) (ct : C) (ch ch' : Channel) (m : Fields)
      → recv c (frame d n ct) ch ≡ (done m, ch')
      → (d ≡ ch.recv_dir) × (n < ch'.recv_counter) × (ch'.recv_dir ≡ ch.recv_dir)
  unfolding recv
  accepted d n ct ch ch' m h = (ground arith, ground arith, ground arith)

  refused :
      (d n : ℕ) (ct : C) (ch : Channel)
      → d ≡ ch.recv_dir
      → n < ch.recv_counter
      → recv c (frame d n ct) ch ≡ (failed out_of_order, ch)
  unfolding recv
  refused d n ct ch same old = ground (arith, same, old)

  -- A frame is accepted once: after it was, whatever frames arrive in between, the same nonce is
  -- refused as out of order under any ciphertext, and the refusal changes nothing.
  pub recv-once :
      (d n : ℕ) (ct ct' : C) (ch ch' : Channel) (m : Fields) (fs : List (Frame C))
      → recv c (frame d n ct) ch ≡ (done m, ch')
      → recv c (frame d n ct') (recv_all c fs ch') ≡ (failed out_of_order, recv_all c fs ch')
  recv-once d n ct ct' ch ch' m fs h =
      let (direction, past, same) = accepted d n ct ch ch' m h in
      refused d n ct' (recv_all c fs ch') (direction ∙ sym same ∙ sym (all-recv_dir fs ch'))
        (omega (arith, past, all-counter fs ch'))

  -- What one side sends, its peer receives, and they still agree, if what is encrypted decrypts.
  pub recv-send :
      (decrypts : (key aad : Bytes) (d n : ℕ) (m : Fields)
        → c.decrypt key d n (c.encrypt key d n m aad) aad ≡ some m)
      (a b : Channel) (m : Fields)
      → IsPaired a b
      → let (f, a') = send c m a in let (r, b') = recv c f b in (r ≡ done m) × IsPaired a' b'
  unfolding send recv
  recv-send decrypts a b m h = (
    ground (arith, decrypts a.key a.transcript a.send_dir a.send_counter m),
    record {
      keys = ground arith;
      transcripts = ground arith;
      directions = ground arith;
      counters = ground arith;
    },
  )
