-- ===== src/Drafts/Ramp.antt =====
-- The review ramp: which drafts wait for a reviewer, and who may let them go.
use open_reachout.Base.{
  Bool, if◌then◌else◌, ℕ, after, pure, ◌∙◌, ◌<◌, ◌≤◌, ◌≡◌, ◌≢◌, ◌⊎◌, refl, String, true, Option,
  some, arith, ℕ_eq, string_eq, ==_refl, insert, ◌+◌, count, count-same, none, false, row_is,
  apply_row, ◌==◌, Bool-cases, inl, inr, starts_with,
}
use open_reachout.Db.{Db, Touch, TouchStatus, drafted, pending_review, QueueName, Payload, Key}
use open_reachout.Queue.{enqueue, taken}
use open_reachout.Control.{human_actor_prefix}
use open_reachout.Gatekeeper.{Checks}
use open_reachout.Drafts.{
  NewDraft, prior_touches, held, with_links, draft_row, queue_draft, pending_row, approve_pending,
  reject_pending, review, set_status, is_human_task, in_ramp, same_variant,
}

enqueue-touches :
    (q : QueueName) (p : Payload) (k : Option Key) (d : ℕ) (db : Db)
    → (enqueue q p k d db).1.touches ≡ db.touches
unfolding enqueue
enqueue-touches q p k d db = elim (Bool-cases (taken db k)) [ inl t ↦ rw t | inr f ↦ rw f ]

-- A reviewer's decision leaves the number of the ramp's touches as it is.
review-prior :
    (campaign : String) (variant : Option String) (k : ℕ) (s : TouchStatus) (db : Db)
    → prior_touches campaign variant (review k s db) ≡ prior_touches campaign variant db
unfolding prior_touches
review-prior campaign variant k s db = count-same _ _ db.touches.next (λ i lt.
    elim (Bool-cases (k == i)) [ inl t ↦ rw t (same_ramp (db.touches.rows i)) | inr f ↦ rw f refl ])
  where
    same_ramp :
        (o : Option Touch)
        → row_is (in_ramp campaign variant) (apply_row (set_status s) o)
          ≡ row_is (in_ramp campaign variant) o
    same_ramp none = refl
    same_ramp (some t) = refl

-- Queueing the delivery of a touch adds no touch.
enqueue-prior :
    (campaign : String) (variant : Option String) (i : ℕ) (db : Db)
    → prior_touches campaign variant
        (after
          (enqueue QueueName.deliver (Payload.touch i) (some (Key.deliver i)) 0 db)
          (λ _. pure i)).1
      ≡ prior_touches campaign variant db
unfolding enqueue prior_touches
enqueue-prior campaign variant i db = elim (Bool-cases (taken db (some (Key.deliver i)))) [
  | inl t ↦ rw t refl
  | inr f ↦ rw f refl
]

same_variant_refl : (v : Option String) → same_variant v v ≡ true
same_variant_refl none = refl
same_variant_refl (some v) = ==_refl v

own-ramp :
    (d : NewDraft) (status : TouchStatus)
    → in_ramp d.campaign_id d.variant_id (draft_row d status) ≡ true
own-ramp d status = ground (arith, ==_refl d.campaign_id, same_variant_refl d.variant_id)

-- A new row of the ramp is one more.
insert-prior :
    (campaign : String) (variant : Option String) (t : Touch) (db : Db)
    → in_ramp campaign variant t ≡ true
    → prior_touches campaign variant (record db { touches = insert t db.touches })
      ≡ prior_touches campaign variant db + 1
unfolding prior_touches count
insert-prior campaign variant t db h =
    let old =
      count-same (λ i. row_is (in_ramp campaign variant) ((insert t db.touches).rows i))
        (λ i. row_is (in_ramp campaign variant) (db.touches.rows i)) db.touches.next
        (λ i lt. rw (above db.touches.next i lt) refl) in
    rw old (rw (==_refl db.touches.next) (rw h refl))
  where
    above : (n i : ℕ) → i < n → (n == i) ≡ false
    above n i lt = ground (arith, lt)

module _ {C : Type 0} (checks : Checks C) where
  if-ramp :
      (campaign : String) (variant : Option String) (status : TouchStatus) (b : Bool)
      (x y : NewDraft)
      → in_ramp campaign variant (draft_row x status) ≡ true
      → in_ramp campaign variant (draft_row y status) ≡ true
      → in_ramp campaign variant (draft_row (if b then x else y) status) ≡ true
  if-ramp campaign variant status true x y hx hy = hx
  if-ramp campaign variant status false x y hx hy = hy

  -- Link tokens leave the ramp of a draft alone.
  with_links-ramp :
      (tokenize : Option (ℕ → String → String)) (i : ℕ) (d : NewDraft) (status : TouchStatus)
      → in_ramp d.campaign_id d.variant_id (draft_row (with_links checks tokenize i d) status)
        ≡ true
  with_links-ramp none i d status = own-ramp d status
  with_links-ramp (some f) i d status =
      if-ramp d.campaign_id d.variant_id status (is_human_task d.kind) _ _ (own-ramp d status) (
        if-ramp d.campaign_id d.variant_id status (f i d.draft.body == d.draft.body) _ _
          (own-ramp d status) (own-ramp d status))

module _ {C : Type 0} (checks : Checks C) (tokenize : Option (ℕ → String → String)) where
  queue_draft-held :
      (d : NewDraft) (approve_first : ℕ) (db : Db)
      → let db' = (queue_draft checks tokenize d approve_first db).1 in
        (t : Touch) × (db'.touches.rows db.touches.next ≡ some t)
        × (prior_touches d.campaign_id d.variant_id db < approve_first
            → (t.status ≡ pending_review) × (db'.jobs ≡ db.jobs))
        × (approve_first ≤ prior_touches d.campaign_id d.variant_id db → t.status ≡ drafted)
  unfolding queue_draft
  queue_draft-held d approve_first db =
      elim (Bool-cases (held checks tokenize d approve_first db)) [
        | inl t ↦ rw t (
          draft_row (with_links checks tokenize db.touches.next d) pending_review,
          ground (arith, ==_refl db.touches.next),
          (λ lt. (refl, refl)),
          (λ le. absurd (ground (arith, t))),
        )
        | inr f ↦ rw f (
          draft_row (with_links checks tokenize db.touches.next d) drafted,
          rw
              (enqueue-touches QueueName.deliver (Payload.touch db.touches.next)
                (some (Key.deliver db.touches.next)) 0
                (record db {
                  touches =
                      insert (draft_row (with_links checks tokenize db.touches.next d) drafted)
                        db.touches;
                }))
              (ground (arith, ==_refl db.touches.next)),
          (λ lt. absurd (ground (arith, f))),
          (λ le. refl),
        )
      ]

  queue_draft-prior :
      (d : NewDraft) (approve_first : ℕ) (db : Db)
      → prior_touches d.campaign_id d.variant_id (queue_draft checks tokenize d approve_first db).1
        ≡ prior_touches d.campaign_id d.variant_id db + 1
  unfolding queue_draft
  queue_draft-prior d approve_first db =
      elim (Bool-cases (held checks tokenize d approve_first db)) [
        | inl t ↦ rw t (
            insert-prior d.campaign_id d.variant_id _ db
              (with_links-ramp checks tokenize db.touches.next d pending_review))
        | inr f ↦ rw f (
            enqueue-prior d.campaign_id d.variant_id db.touches.next _
            ∙ insert-prior d.campaign_id d.variant_id _ db
                (with_links-ramp checks tokenize db.touches.next d drafted))
      ]

  -- While there are fewer touches than `approve_first` for a campaign and variant, of whatever status,
  -- a new draft waits for review and no job is queued for it; from then on it is drafted. The draft
  -- itself counts from now on, and goes on to count whatever a reviewer decides on any touch: a
  -- rejected draft uses up the ramp as an approved one does.
  pub queue_draft-ramp :
      (d : NewDraft) (approve_first : ℕ) (db : Db) (k : ℕ) (decided : TouchStatus)
      → let db' = (queue_draft checks tokenize d approve_first db).1 in
        let prior = prior_touches d.campaign_id d.variant_id in
        ((t : Touch) × (db'.touches.rows db.touches.next ≡ some t)
          × (prior db < approve_first → (t.status ≡ pending_review) × (db'.jobs ≡ db.jobs))
          × (approve_first ≤ prior db → t.status ≡ drafted))
        × (prior (review k decided db') ≡ prior db + 1)
  queue_draft-ramp d approve_first db k decided = (
    queue_draft-held d approve_first db,
    review-prior d.campaign_id d.variant_id k decided _ ∙ queue_draft-prior d approve_first db,
  )

-- A review that changes anything is an operator's, of a touch that waits for review: for any other
-- actor `approve_pending` and `reject_pending` raise, and for any other touch they return False.
review-changes :
    (touch_id : ℕ) (actor : String) (db : Db)
    → ((approve_pending touch_id actor db).1 ≢ db) ⊎ ((reject_pending touch_id actor db).1 ≢ db)
    → (starts_with human_actor_prefix actor ≡ true) × (pending_row db touch_id ≡ true)
unfolding approve_pending reject_pending
review-changes touch_id actor db h = elim (Bool-cases (starts_with human_actor_prefix actor)) [
  | inr f ↦ absurd (elim h [ inl n ↦ n (rw f) | inr n ↦ n (rw f) ])
  | inl t ↦ elim (Bool-cases (pending_row db touch_id)) [
    | inl p ↦ (t, p)
    | inr p ↦ absurd (elim h [ inl n ↦ n (rw (t, p)) | inr n ↦ n (rw (t, p)) ])
  ]
]
