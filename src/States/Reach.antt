-- ===== src/States/Reach.antt =====
-- What the transition table allows over any number of steps.
use open_reachout.Base.{◌≡◌, ◌⊎◌, inl, inr, true, false, arith, contains, refl}
use open_reachout.States.{
  ProspectState, converted, disqualified, unenrichable, bounced, declined, unsubscribed, forgotten,
  allowed, contactable, state_eq,
}

-- One or more writes of a prospect's state, each let through by `assert_transition`.
pub data Leads : ProspectState → ProspectState → Type 0 where
  here : {s : ProspectState} → Leads s s
  next : {s t u : ProspectState} → Leads s t → allowed t u ≡ true → Leads s u

-- The states after which nobody writes to the prospect again.
pub data IsExit : ProspectState → Type 0 where
  exit_converted : IsExit converted
  exit_disqualified : IsExit disqualified
  exit_unenrichable : IsExit unenrichable
  exit_bounced : IsExit bounced
  exit_declined : IsExit declined
  exit_unsubscribed : IsExit unsubscribed

allowed_exit :
    (s t u : ProspectState)
    → IsExit s
    → (t ≡ s) ⊎ (t ≡ forgotten)
    → allowed t u ≡ true
    → u ≡ forgotten
unfolding allowed
allowed_exit _ t u exit_converted p h = ground arith
allowed_exit _ t u exit_disqualified p h = ground arith
allowed_exit _ t u exit_unenrichable p h = ground arith
allowed_exit _ t u exit_bounced p h = ground arith
allowed_exit _ t u exit_declined p h = ground arith
allowed_exit _ t u exit_unsubscribed p h = ground arith

exit_stays : {s t : ProspectState} → IsExit s → Leads s t → (t ≡ s) ⊎ (t ≡ forgotten)
exit_stays e here = inl refl
exit_stays {s} e (next {t} {u} r h) = inr (allowed_exit s t u e (exit_stays e r) h)

not_contactable_exit :
    {s t : ProspectState} → IsExit s → (t ≡ s) ⊎ (t ≡ forgotten) → contains contactable t ≡ false
not_contactable_exit exit_converted p = ground arith
not_contactable_exit exit_disqualified p = ground arith
not_contactable_exit exit_unenrichable p = ground arith
not_contactable_exit exit_bounced p = ground arith
not_contactable_exit exit_declined p = ground arith
not_contactable_exit exit_unsubscribed p = ground arith

-- Once a prospect has converted, bounced, declined, unsubscribed or been found unfit, no sequence of
-- allowed transitions brings it back to a contactable state: it stays where it is or is forgotten.
pub exit-not_contactable :
    {s t : ProspectState}
    → IsExit s
    → Leads s t
    → ((t ≡ s) ⊎ (t ≡ forgotten)) × (contains contactable t ≡ false)
exit-not_contactable e r = (exit_stays e r, not_contactable_exit e (exit_stays e r))
