-- ===== src/Client/Conversation/Retry.antt =====
-- conversation.ts: the retry timer.
use converger.Prelude.{
  ℕ, ◌-◌, ◌≤◌, ◌≡◌, refl, ap, ◌∙◌, false, none, String, [], ◌∷◌, arith, ◌⊎◌, inl, inr,
}
use converger.Js.Map.{Map}
use converger.Client.Conversation.State.{Conversation, Env, start_timer}
use converger.Client.Conversation.Outbound.{
  flush, can_flush, least, min_with, schedule_retry, arm_retry, retry_again, retry_fired,
}

-- Some retry is due at a time.
abbrev pub IsDue : ℕ → Map String ℕ → Type 0
IsDue now [] = ⊥
IsDue now ((k, at) ∷ m) = (at ≤ now) ⊎ IsDue now m

least_bound :
    (now at : ℕ) (m : Map String ℕ) → (at ≤ now) ⊎ IsDue now m → min_with at (least m) ≤ now
unfolding least
least_bound now at [] (inl h) = h
least_bound now at [] (inr d) = absurd d
least_bound now at ((k, b) ∷ m) (inl h) = omega arith
least_bound now at ((k, b) ∷ m) (inr d) = omega (arith, least_bound now b m d)

again_due :
    (env : Env) (c : Conversation) (m : Map String ℕ)
    → c.sending.retry_at ≡ m
    → IsDue env.now m
    → retry_again m env c ≡ record c { retry_timer = start_timer 0 0 }
unfolding schedule_retry least
again_due env c [] e due = absurd due
again_due env c ((k, at) ∷ m) e due =
    let bound = least_bound env.now at m due in
    let zero_delay : min_with at (least m) - env.now ≡ 0 = omega arith in
    ap (λ (x : Map String ℕ). arm_retry (least x) env c) e
    ∙ ap (λ (x : ℕ). record c { retry_timer = start_timer x 0 }) zero_delay

flush_shut : (env : Env) (c : Conversation) → can_flush c ≡ false → flush env c ≡ c
unfolding flush
flush_shut env c h = rw h

-- Where the session cannot flush and a retry is due, the retry timer that fires is armed again with no
-- delay: it fires again and again until the session is open.
pub retry_spins :
    (env : Env) (c : Conversation)
    → can_flush c ≡ false
    → IsDue env.now c.sending.retry_at
    → retry_fired env c ≡ record c { retry_timer = start_timer 0 0 }
unfolding retry_fired
retry_spins env c shut due =
    let idle = record c { retry_timer = none } in
    ap (λ (d : Conversation). retry_again d.sending.retry_at env d) (flush_shut env idle shut)
    ∙ again_due env idle c.sending.retry_at refl due
