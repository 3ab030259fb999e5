-- ===== src/World/Frame.antt =====
-- What one call of a service does.
use innovation_sandbox_on_aw.Common.{
  ◌≡◌, refl, arith, ◌∷◌, ◌⊎◌, inl, inr, Bool, true, false, if◌then◌else◌,
}
use innovation_sandbox_on_aw.Outcome.{Error, Result, ok, err, remote_failure, bind-ok, bind-err}
use innovation_sandbox_on_aw.World.{World, Call, remote, send, tick}
use innovation_sandbox_on_aw.World.Triple.{View, Triple, Triple-bind, Triple-modify}

-- The call failed, and nothing has changed.
abbrev pub Failed : View → Error → View → Type 0
Failed g e v = (e ≡ remote_failure) × (v ≡ g)

pub remote-Triple : (g : View) → Triple g (λ _ v. v ≡ g) (Failed g) remote
unfolding remote
remote-Triple g = record { at = λ w p. ground arith }

abbrev pub after_call : Call → View → View
after_call c g = record g { sent = c ∷ g.sent }

pub send-Triple : (c : Call) (g : View) → Triple g (λ _ v. v ≡ after_call c g) (Failed g) (send c)
unfolding send
send-Triple c g =
    Triple-bind _ _ (remote-Triple g) (λ e v h. h) (λ _ v h. Triple-modify _ (λ w p. ground arith))

pub remote-ok : (w : World) → w.fails w.ticks ≡ false → remote w ≡ (ok tt, tick w)
unfolding remote
remote-ok w up = rw up refl

pub remote-down : (w : World) → w.fails w.ticks ≡ true → remote w ≡ (err remote_failure, tick w)
unfolding remote
remote-down w down = rw down refl

pub send-ok :
    (c : Call) (w : World)
    → w.fails w.ticks ≡ false
    → send c w ≡ (ok tt, record (tick w) { sent = c ∷ w.sent })
unfolding send
send-ok c w up = bind-ok remote _ w (tick w) tt (remote-ok w up)

pub send-down :
    (c : Call) (w : World) → w.fails w.ticks ≡ true → send c w ≡ (err remote_failure, tick w)
unfolding send
send-down c w down = bind-err remote _ w (tick w) remote_failure (remote-down w down)

-- A call of a service takes one tick, and fails or does not.
pub remote-cases :
    (w : World) → (remote w ≡ (ok tt, tick w)) ⊎ (remote w ≡ (err remote_failure, tick w))
unfolding remote
remote-cases w = go (w.fails w.ticks)
  where
    go :
        (b : Bool)
        → let r : Result (Unit {0}) × World =
            if b then (err remote_failure, tick w) else (ok tt, tick w) in
          (◌≡◌ {A = Result (Unit {0}) × World} r (ok tt, tick w))
          ⊎ (◌≡◌ {A = Result (Unit {0}) × World} r (err remote_failure, tick w))
    go true = inr refl
    go false = inl refl
