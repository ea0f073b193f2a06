-- ===== src/Utils/Ticker.antt =====
-- utils/time.go: the ticker that sends the number of each epoch when the epoch starts. The time that each
-- round reads from the clock is an argument.
use flare_system_client.Prelude.{
  ℕ, zero, suc, ◌≡◌, ap, ◌∙◌, sym, List, [], ◌∷◌, get_elem?, some, Go, ok, ◌>>=◌, ℤ, pos, ◌+ℤ◌,
  ◌-ℤ◌, arith, int_laws,
}
use flare_system_client.Utils.Epochs.{Epoch, epoch_index, start_time}

-- The variables of the goroutine.
pub record Ticker : Type 0 where
  pub epoch : ℤ
  pub epoch_start : ℤ
  pub now : ℤ

module _ (e : Epoch) where
  -- `start`, up to its loop.
  unfoldable pub start_ticker : {E : Type 0} → ℤ → Go E Ticker
  start_ticker now = epoch_index e now >>= λ current_epoch. ok (record {
    epoch = current_epoch +ℤ pos 1;
    epoch_start = start_time e (current_epoch +ℤ pos 1);
    now = now;
  })

  -- How long the timer of a round waits.
  unfoldable pub waiting_time : Ticker → ℤ
  waiting_time t = t.epoch_start -ℤ t.now

  -- One round of the loop, which reads the time `now` at its end.
  unfoldable pub send_epoch : Ticker → ℤ → ℤ × Ticker
  send_epoch t now = (
    t.epoch,
    record { epoch = t.epoch +ℤ pos 1; epoch_start = start_time e (t.epoch +ℤ pos 1); now = now },
  )

  -- What the rounds send, and how long each waits.
  unfoldable pub ticks : Ticker → List ℤ → List (ℤ × ℤ)
  ticks t [] = []
  ticks t (now ∷ times) =
      let (sent, t') = send_epoch t now in (waiting_time t, sent) ∷ ticks t' times

  shifted : (a : ℤ) (i : ℕ) → a +ℤ pos 1 +ℤ pos i ≡ a +ℤ pos (suc i)
  shifted a i = omega int_laws

  -- The rounds send the epochs one after the other, without a gap.
  ticks-epoch :
      (t : Ticker) (times : List ℤ) (i : ℕ) (sent : ℤ × ℤ)
      → get_elem? (ticks t times) i ≡ some sent
      → sent.1 ≡ t.epoch +ℤ pos i
  unfolding ticks send_epoch
  ticks-epoch t [] i sent h = absurd (ground arith)
  ticks-epoch t (now ∷ times) zero sent h =
      let same : (waiting_time t, t.epoch) ≡ sent = cc in ap (λ x. x.1) (sym same) ∙ omega int_laws
  ticks-epoch t (now ∷ times) (suc i) sent h =
      ticks-epoch (send_epoch t now).1 times i sent h ∙ shifted t.epoch i
