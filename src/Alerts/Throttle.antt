-- ===== src/Alerts/Throttle.antt =====
-- alerter.py: no provider is notified twice of the same status within the throttle.
use provider_health_daemon.Base.{
  ℕ, ◌+◌, ◌<◌, String, Bool, true, false, some, List, [], ◌∷◌, ◌≡◌, refl, ap, sym, ◌∙◌, str_eq,
  ◌||◌, not, All, arith, Bool-cases, inl, inr, eq_refl,
}
use provider_health_daemon.Base.Dict.{get, get-put, get-put_self}
use provider_health_daemon.Alerts.{
  Alerter, Transition, is_significant, is_throttled, is_recent_alert, alert,
}

-- The state after alerts at their instants.
unfoldable pub alerts : Alerter → List (ℕ × Transition) → Alerter
alerts a [] = a
alerts a ((now, t) ∷ rest) = alerts (alert now a t).0 rest

alert-other :
    (now : ℕ) (a : Alerter) (t : Transition) (p : String)
    → str_eq t.provider p ≡ false
    → (get (alert now a t).0.last_alert p ≡ get a.last_alert p)
      × ((alert now a t).0.throttle ≡ a.throttle)
unfolding alert
alert-other now a t p h = elim (Bool-cases (not (is_significant t) || is_throttled now a t)) [
  | inl e ↦ rw e (refl, refl)
  | inr e ↦ rw e (rw (get-put a.last_alert t.provider p (t.to, now), h) refl, refl)
]

alerts-other :
    (a : Alerter) (ts : List (ℕ × Transition)) (p : String)
    → All (λ e. str_eq e.1.provider p ≡ false) ts
    → (get (alerts a ts).last_alert p ≡ get a.last_alert p) × ((alerts a ts).throttle ≡ a.throttle)
unfolding alerts
alerts-other a [] p h = (refl, refl)
alerts-other a ((now, t) ∷ ts) p h =
    let (k, w) = alert-other now a t p h.0 in
    let (k', w') = alerts-other (alert now a t).0 ts p h.1 in (k' ∙ k, w' ∙ w)

alert-fired :
    (now : ℕ) (a : Alerter) (t : Transition)
    → (alert now a t).1 ≡ true
    → (get (alert now a t).0.last_alert t.provider ≡ some (t.to, now))
      × ((alert now a t).0.throttle ≡ a.throttle)
unfolding alert
alert-fired now a t h = elim (Bool-cases (not (is_significant t) || is_throttled now a t)) [
  | inl e ↦ ground (arith, rw (alert, e) at h)
  | inr e ↦ rw (alert, e) (get-put_self a.last_alert t.provider (t.to, now), refl)
]

or_true : (b : Bool) → (b || true) ≡ true
or_true b = ground arith

throttled_alert :
    (now last : ℕ) (a : Alerter) (t : Transition)
    → get a.last_alert t.provider ≡ some (t.to, last)
    → now < last + a.throttle
    → alert now a t ≡ (a, false)
unfolding alert is_throttled is_recent_alert
throttled_alert now last a t h l =
    let still : is_throttled now a t ≡ true =
      rw (is_throttled, h) (rw (eq_refl t.to) (ground arith)) in
    rw (alert, still, or_true (not (is_significant t))) refl

-- After an alert that was notified, and any alerts of other providers, an alert of the same provider and status before the
-- throttle has passed is not notified and changes nothing.
pub alert-throttled :
    (a : Alerter) (now now' : ℕ) (t t' : Transition) (between : List (ℕ × Transition))
    → (alert now a t).1 ≡ true
    → All (λ e. str_eq e.1.provider t.provider ≡ false) between
    → t'.provider ≡ t.provider
    → t'.to ≡ t.to
    → now' < now + a.throttle
    → alert now' (alerts (alert now a t).0 between) t' ≡ (alerts (alert now a t).0 between, false)
alert-throttled a now now' t t' between h b p s l =
    let (k, w) = alert-fired now a t h in
    let (k', w') = alerts-other (alert now a t).0 between t.provider b in
    let after = alerts (alert now a t).0 between in
    throttled_alert now' now after t'
      (ap (get after.last_alert) p ∙ k' ∙ k ∙ ap (λ to. some (to, now)) (sym s)) (rw (w', w) l)
