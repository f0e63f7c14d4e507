-- ===== src/PgStore/Mailboxes.antt =====
-- Gate 6: which mailbox `pick_mailbox` takes.
use open_reachout.Base.{
  ℕ, ◌≤◌, ◌≡◌, String, true, false, Option, none, some, List, [], ◌∷◌, arith, Bool-cases, inl, inr,
  leb, string_eq,
}
use open_reachout.Db.{Counter, Mailbox}
use open_reachout.PgStore.{can_send, used_of, less_used, least_used}

-- Every mailbox of the list that can send has at least this much on its counter.
abbrev pub NoneBelow : String → (String → Option Counter) → ℕ → List Mailbox → Type 0
NoneBelow tenant counter least [] = Unit
NoneBelow tenant counter least (m ∷ ms) =
    (can_send tenant (counter m.mailbox) m ≡ true → least ≤ used_of (counter m.mailbox))
    × NoneBelow tenant counter least ms

module _ (tenant : String) (counter : String → Option Counter) where
  abbrev used : Mailbox → ℕ
  used m = used_of (counter m.mailbox)

  NoneBelow-le :
      (a b : ℕ) (ms : List Mailbox)
      → b ≤ a
      → NoneBelow tenant counter a ms
      → NoneBelow tenant counter b ms
  NoneBelow-le a b [] h n = tt
  NoneBelow-le a b (m ∷ ms) h n = (λ e. omega (arith, n.0 e), NoneBelow-le a b ms h n.1)

  abbrev Best : List Mailbox → Option Mailbox → Type 0
  Best ms none = (k : ℕ) → NoneBelow tenant counter k ms
  Best ms (some b) =
      (can_send tenant (counter b.mailbox) b ≡ true) × NoneBelow tenant counter (used b) ms

  Best-skip :
      (m : Mailbox) (ms : List Mailbox) (o : Option Mailbox)
      → can_send tenant (counter m.mailbox) m ≡ false
      → Best ms o
      → Best (m ∷ ms) o
  Best-skip m ms none f h = λ k. (λ e. cc (e, f), h k)
  Best-skip m ms (some b) f h = (h.0, (λ e. cc (e, f), h.1))

  Best-take :
      (m : Mailbox) (ms : List Mailbox) (o : Option Mailbox)
      → can_send tenant (counter m.mailbox) m ≡ true
      → Best ms o
      → Best (m ∷ ms) (less_used counter m o)
  Best-take m ms none t h = (t, (λ _. omega arith, h (used m)))
  Best-take m ms (some b) t h = elim (Bool-cases (leb (used m) (used b))) [
    | inl le ↦ rw le (t, (λ _. omega arith, NoneBelow-le (used b) (used m) ms (ground arith) h.1))
    | inr gt ↦ rw gt (h.0, (λ _. ground arith, h.1))
  ]

  least_used-Best : (ms : List Mailbox) → Best ms (least_used tenant counter ms)
  unfolding least_used
  least_used-Best [] = λ k. tt
  least_used-Best (m ∷ ms) = elim (Bool-cases (can_send tenant (counter m.mailbox) m)) [
    | inl t ↦ rw t (Best-take m ms (least_used tenant counter ms) t (least_used-Best ms))
    | inr f ↦ rw f (Best-skip m ms (least_used tenant counter ms) f (least_used-Best ms))
  ]

  -- The mailbox picked is one of the tenant's, warmed up and below its cap for the day, and none of
  -- those that could be picked has sent less today.
  pub least_used_lem :
      (ms : List Mailbox) (b : Mailbox)
      → least_used tenant counter ms ≡ some b
      → (can_send tenant (counter b.mailbox) b ≡ true)
        × NoneBelow tenant counter (used_of (counter b.mailbox)) ms
  least_used_lem ms b e = rw e at (least_used-Best ms)

  -- None is picked only if no mailbox can send.
  pub least_used-none :
      (ms : List Mailbox) (k : ℕ)
      → least_used tenant counter ms ≡ none
      → NoneBelow tenant counter k ms
  least_used-none ms k e = (rw e at (least_used-Best ms)) k
