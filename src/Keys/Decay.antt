-- ===== src/Keys/Decay.antt =====
-- When a key decays.
use cashew.Prelude.{ℕ, ◌+◌, ◌-◌, ◌≤◌, ◌<◌, ◌^◌, ◌≡◌, ◌↔◌, true, arith}
use cashew.Keys.Key.{Key, decay_period, has_decayed, time_until_decay}

-- At a time of the 64-bit clock, and not before the key's last use, a key has decayed exactly when 30
-- days have passed since its last use, and time_until_decay is exactly what is missing from those 30
-- days.
pub decay_exact :
    (now : ℕ) (k : Key)
    → k.last_used ≤ now
    → now < 2 ^ 64
    → ((has_decayed now k ≡ true) ↔ (k.last_used + decay_period ≤ now))
      × (time_until_decay now k ≡ k.last_used + decay_period - now)
unfolding has_decayed time_until_decay
decay_exact now k h w = ground arith
